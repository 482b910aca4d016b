-- ===== src/Tree/Check/Sound.antt =====
-- The loop of CheckDataIntegrity computes the root of a Merkle proof.
use ppsp.Common.{
  ℕ, zero, suc, ◌+◌, ◌/◌, ◌%◌, ◌≤◌, ◌≡◌, refl, inl, inr, true, false, Option, none, some, List, [],
  ◌∷◌, arith, length, subst, ap, sym, ◌∙◌,
}
use ppsp.Common.Int.{ℤ, pos, leb_ℤ}
use ppsp.Tree.Sha.{Hasher, Hash, sha_encrypt_lr}
use ppsp.Tree.Sibling.{Node}
use ppsp.Tree.Sibling.Laws.{node, left_child, right_child, number, get_sibling_index-node}
use ppsp.Tree.State.{MerkleHashmap, HashTree}
use ppsp.Tree.Check.{Walk, failed, top, climb, last_index, sibling_hash, noted}
use ppsp.Tree.Check.Proofs.{proof_root}
use ppsp.Tree.Check.Climb.{
  halves, last_index-pos, parent_left, parent_right, combine_left, combine_right, IsAt,
  IsAt-up_left, IsAt-up_right, right_in, left_in, root_out, go_on, round, finish,
}

-- With `e` levels above leaf or node `j`, the loop ends at its test with the root of a proof of `e`
-- hashes, unless it returns 0.
pub data IsClimbed (sha : Hasher) (mhf : ℕ) (e j : ℕ) (hash : Hash) : Walk → Type 0 where
  gave_up : IsClimbed sha mhf e j hash failed
  reached :
      {n : Node} {tmpmap : MerkleHashmap} (proof : List Hash) (root : Hash)
      → length proof ≡ e
      → root ≡ proof_root sha mhf proof j hash
      → IsClimbed sha mhf e j hash (top n root tmpmap)

module _ (sha : Hasher) (mhf e i : ℕ) (hash q : Hash) where
  proof_root-left :
      (proof : List Hash)
      → proof_root sha mhf proof i (sha_encrypt_lr sha mhf hash q)
        ≡ proof_root sha mhf (q ∷ proof) (i + i) hash
  unfolding proof_root
  proof_root-left proof =
      let half : (i + i) / 2 ≡ i = omega arith in
      let even : (i + i) % 2 ≡ 0 = omega arith in rw (half, even) refl

  proof_root-right :
      (proof : List Hash)
      → proof_root sha mhf proof i (sha_encrypt_lr sha mhf q hash)
        ≡ proof_root sha mhf (q ∷ proof) (i + i + 1) hash
  unfolding proof_root
  proof_root-right proof =
      let half : (i + i + 1) / 2 ≡ i = omega arith in
      let odd : (i + i + 1) % 2 ≡ 1 = omega arith in rw (half, odd) refl

  IsClimbed-left :
      {w : Walk}
      → IsClimbed sha mhf e i (sha_encrypt_lr sha mhf hash q) w
      → IsClimbed sha mhf (suc e) (i + i) hash w
  IsClimbed-left gave_up = gave_up
  IsClimbed-left (reached proof root l p) =
      reached (q ∷ proof) root (ap suc l) (p ∙ proof_root-left proof)

  IsClimbed-right :
      {w : Walk}
      → IsClimbed sha mhf e i (sha_encrypt_lr sha mhf q hash) w
      → IsClimbed sha mhf (suc e) (i + i + 1) hash w
  IsClimbed-right gave_up = gave_up
  IsClimbed-right (reached proof root l p) =
      reached (q ∷ proof) root (ap suc l) (p ∙ proof_root-right proof)

module _ (sha : Hasher) (tree : HashTree) (channelid : ℤ) (m : ℕ)
    (leaves : tree.leaf_node_count ≡ pos (suc m)) where
  Climbs : ℕ → ℕ → ℕ → ℕ → Hash → MerkleHashmap → Type 0
  Climbs e k j fuel hash tmpmap =
      IsClimbed sha tree.merkle_hash_tree_function e j hash
        (climb sha tree channelid fuel (node k j) hash tmpmap)

  at_root :
      (fuel k : ℕ) (hash : Hash) (tmpmap : MerkleHashmap)
      → k ≡ m
      → Climbs 0 k 0 (suc fuel) hash tmpmap
  unfolding Climbs proof_root
  at_root fuel k hash tmpmap e =
      let out : leb_ℤ (number (right_child k 0)) (last_index tree) ≡ false =
        rw (last_index-pos tree m leaves, sym e) (root_out k) in
      rw
        (finish sha tree channelid fuel (left_child k 0) (right_child k 0) hash tmpmap
          (get_sibling_index-node k 0).0 out)
        (reached [] hash refl refl)

  module _ (e k fuel : ℕ) where
    Higher : ℕ → Type 0
    Higher i = (hash : Hash) (tmpmap : MerkleHashmap) → Climbs e (k + k + 1) i fuel hash tmpmap

    after_left :
        (i : ℕ) (hash : Hash) (tmpmap : MerkleHashmap) (o : Option Hash)
        → Higher i
        → IsClimbed sha tree.merkle_hash_tree_function
            (suc e)
            (i + i)
            hash
            (go_on sha tree channelid fuel (left_child k i) (right_child k i) hash tmpmap o)
    unfolding Climbs Higher
    after_left i hash tmpmap none higher = gave_up
    after_left i hash tmpmap (some found) higher =
        let mhf = tree.merkle_hash_tree_function in
        let s = right_child k i in
        rw (parent_left k i, combine_left sha mhf k i hash found)
          (IsClimbed-left sha mhf e i hash found
            (higher (sha_encrypt_lr sha mhf hash found) (noted tree channelid s (number s) tmpmap)))

    from_left :
        (i : ℕ) (hash : Hash) (tmpmap : MerkleHashmap)
        → IsAt m (suc e) k (i + i)
        → Higher i
        → Climbs (suc e) k (i + i) (suc fuel) hash tmpmap
    unfolding Climbs
    from_left i hash tmpmap p higher =
        let q = IsAt-up_left m e k i p in
        let s = right_child k i in
        let inside : leb_ℤ (number s) (last_index tree) ≡ true =
          rw (last_index-pos tree m leaves) (right_in m e k i p.spans q.inside) in
        rw
          (round sha tree channelid fuel (left_child k i) s hash tmpmap
            (get_sibling_index-node k i).0 inside)
          (after_left i hash tmpmap (sibling_hash tree channelid s (number s)) higher)

    after_right :
        (i : ℕ) (hash : Hash) (tmpmap : MerkleHashmap) (o : Option Hash)
        → Higher i
        → IsClimbed sha tree.merkle_hash_tree_function
            (suc e)
            (i + i + 1)
            hash
            (go_on sha tree channelid fuel (right_child k i) (left_child k i) hash tmpmap o)
    unfolding Climbs Higher
    after_right i hash tmpmap none higher = gave_up
    after_right i hash tmpmap (some found) higher =
        let mhf = tree.merkle_hash_tree_function in
        let s = left_child k i in
        rw (parent_right k i, combine_right sha mhf k i hash found)
          (IsClimbed-right sha mhf e i hash found
            (higher (sha_encrypt_lr sha mhf found hash) (noted tree channelid s (number s) tmpmap)))

    from_right :
        (i : ℕ) (hash : Hash) (tmpmap : MerkleHashmap)
        → IsAt m (suc e) k (i + i + 1)
        → Higher i
        → Climbs (suc e) k (i + i + 1) (suc fuel) hash tmpmap
    unfolding Climbs
    from_right i hash tmpmap p higher =
        let q = IsAt-up_right m e k i p in
        let s = left_child k i in
        let inside : leb_ℤ (number s) (last_index tree) ≡ true =
          rw (last_index-pos tree m leaves) (left_in m e k i p.spans q.inside) in
        rw
          (round sha tree channelid fuel (right_child k i) s hash tmpmap
            (get_sibling_index-node k i).1 inside)
          (after_right i hash tmpmap (sibling_hash tree channelid s (number s)) higher)

  pub climb-IsClimbed :
      (e k j fuel : ℕ) (hash : Hash) (tmpmap : MerkleHashmap)
      → IsAt m e k j
      → suc e ≤ fuel
      → IsClimbed sha tree.merkle_hash_tree_function e j hash
          (climb sha tree channelid fuel (node k j) hash tmpmap)
  unfolding Climbs Higher
  climb-IsClimbed e k j zero hash tmpmap p l = absurd (omega arith)
  climb-IsClimbed zero k j (suc fuel) hash tmpmap p l =
      let q = p.inside in
      let s = p.spans in
      let first : 0 ≡ j = omega arith in
      subst (λ x. Climbs 0 k x (suc fuel) hash tmpmap) first
        (at_root fuel k hash tmpmap (omega arith))
  climb-IsClimbed (suc e) k j (suc fuel) hash tmpmap p l =
      let below : suc e ≤ fuel = omega arith in
      elim (halves j) [
        | inl (h, r) ↦
            let q = subst (λ x. IsAt m (suc e) k x) h p in
            subst (λ x. Climbs (suc e) k x (suc fuel) hash tmpmap) (sym h)
              (from_left e k fuel (j / 2) hash tmpmap q (λ hash' tmpmap'.
                climb-IsClimbed e (k + k + 1) (j / 2) fuel hash' tmpmap'
                  (IsAt-up_left m e k (j / 2) q) below))
        | inr (h, r) ↦
            let q = subst (λ x. IsAt m (suc e) k x) h p in
            subst (λ x. Climbs (suc e) k x (suc fuel) hash tmpmap) (sym h)
              (from_right e k fuel (j / 2) hash tmpmap q (λ hash' tmpmap'.
                climb-IsClimbed e (k + k + 1) (j / 2) fuel hash' tmpmap'
                  (IsAt-up_right m e k (j / 2) q) below))
      ]
