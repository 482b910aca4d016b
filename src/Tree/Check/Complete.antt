-- ===== src/Tree/Check/Complete.antt =====
-- What CheckDataIntegrity accepts, against the tree that a recursive definition makes of the hashes
-- of the chunks.
use ppsp.Common.{
  ℕ, zero, suc, ◌+◌, ◌-◌, ◌/◌, ◌%◌, ◌^◌, ◌≤◌, ◌<◌, ◌≡◌, refl, inl, inr, Bool, true, false, Option,
  some, List, [], arith, ◌==◌, if◌then◌else◌, subst, ap, sym, ◌∙◌,
}
use ppsp.Common.Int.{ℤ, pos, leb_ℤ}
use ppsp.Message.Data.{Data}
use ppsp.Tree.Sha.{Hasher, Hash, sha_encrypt_lr, digest_blocklen}
use ppsp.Tree.Sibling.{Node}
use ppsp.Tree.Sibling.Laws.{node, left_child, right_child, number, get_sibling_index-node}
use ppsp.Tree.State.{MerkleHashmap, HashTree}
use ppsp.Tree.Check.{
  Walk, top, climb, climb_fuel, last_index, sibling_hash, noted, same_bytes, judged, known_result,
  check_data_integrity, move_nodes, detect_size,
}
use ppsp.Tree.Check.Digests.{IsDigest, equal_bytes_self, same_bytes-IsDigest}
use ppsp.Tree.Check.Climb.{
  halves, last_index-pos, parent_left, parent_right, combine_left, combine_right, IsAt,
  IsAt-up_left, IsAt-up_right, right_in, left_in, root_out, round, finish,
}
use ppsp.Tree.Check.Supplied.{Supplies, supplies-sibling_hash}
use ppsp.Tree.Check.Known.{
  Carries, IsComplete, first_hash, walk, check-walk, chunk_node-node, leaves_suc, enough,
}

-- Node number `j` at `level` levels above the leaves.
unfoldable pub tree_hash : Hasher → ℕ → (ℕ → Hash) → ℕ → ℕ → Hash
tree_hash sha mhf leaf zero j = leaf j
tree_hash sha mhf leaf (suc level) j =
    sha_encrypt_lr sha mhf (tree_hash sha mhf leaf level (j + j))
      (tree_hash sha mhf leaf level (j + j + 1))

abbrev pub other : ℕ → ℕ
other j = if j % 2 == 0 then j + 1 else j - 1

-- On the way up from node `j` of those that cover `k + 1` chunks each, `level` levels above the
-- leaves, the hash that counts for each sibling is the one of the tree.
abbrev pub HasSiblings : Hasher → HashTree → ℤ → (ℕ → Hash) → ℕ → ℕ → ℕ → ℕ → Type 0
HasSiblings sha tree channelid leaf zero k level j = Unit {0}
HasSiblings sha tree channelid leaf (suc e) k level j =
    Supplies tree channelid (node k (other j))
      (tree_hash sha tree.merkle_hash_tree_function leaf level (other j))
    × HasSiblings sha tree channelid leaf e (k + k + 1) (suc level) (j / 2)

module _ (sha : Hasher) (tree : HashTree) (channelid : ℤ) (leaf : ℕ → Hash) (m : ℕ)
    (leaves : tree.leaf_node_count ≡ pos (suc m)) where
  mhf : ℕ
  mhf = tree.merkle_hash_tree_function

  hash_at : ℕ → ℕ → Hash
  hash_at = tree_hash sha mhf leaf

  EndsAt : ℕ → Walk → Type 0
  EndsAt level w = (n : Node) × (tmpmap : MerkleHashmap) × (w ≡ top n (hash_at level 0) tmpmap)

  Ends : ℕ → ℕ → ℕ → ℕ → ℕ → MerkleHashmap → Type 0
  Ends e k level j fuel tmpmap =
      EndsAt (level + e) (climb sha tree channelid fuel (node k j) (hash_at level j) tmpmap)

  supplied :
      (level k o i : ℕ)
      → o ≡ i
      → Supplies tree channelid (node k o) (hash_at level o)
      → sibling_hash tree channelid (node k i) (number (node k i)) ≡ some (hash_at level i)
  unfolding hash_at mhf
  supplied level k o i e has =
      supplies-sibling_hash tree channelid (node k i) (hash_at level i)
        (subst (λ x. Supplies tree channelid (node k x) (hash_at level x)) e has)

  module _ (e k level fuel : ℕ) where
    Above : ℕ → Type 0
    Above i = (tmpmap : MerkleHashmap) → Ends e (k + k + 1) (suc level) i fuel tmpmap

    Ends-left :
        (i : ℕ) (tmpmap : MerkleHashmap)
        → IsAt m (suc e) k (i + i)
        → HasSiblings sha tree channelid leaf (suc e) k level (i + i)
        → Above i
        → Ends (suc e) k level (i + i) (suc fuel) tmpmap
    unfolding Ends EndsAt hash_at mhf Above tree_hash
    Ends-left i tmpmap p has above =
        let q = IsAt-up_left m e k i p in
        let s = right_child k i in
        let index = (get_sibling_index-node k i).0 in
        let inside : leb_ℤ (number s) (last_index tree) ≡ true =
          rw (last_index-pos tree m leaves) (right_in m e k i p.spans q.inside) in
        let o : other (i + i) ≡ i + i + 1 = ground arith in
        let found = supplied level k (other (i + i)) (i + i + 1) o has.0 in
        let height : level + suc e ≡ suc level + e = omega arith in
        rw
          (
            round sha tree channelid fuel (left_child k i) s (hash_at level (i + i)) tmpmap index
                inside,
            found,
            height,
          )
          (rw
            (
              parent_left k i,
              combine_left sha mhf k i (hash_at level (i + i)) (hash_at level (i + i + 1)),
            )
            (above (noted tree channelid s (number s) tmpmap)))

    Ends-right :
        (i : ℕ) (tmpmap : MerkleHashmap)
        → IsAt m (suc e) k (i + i + 1)
        → HasSiblings sha tree channelid leaf (suc e) k level (i + i + 1)
        → Above i
        → Ends (suc e) k level (i + i + 1) (suc fuel) tmpmap
    unfolding Ends EndsAt hash_at mhf Above tree_hash
    Ends-right i tmpmap p has above =
        let q = IsAt-up_right m e k i p in
        let s = left_child k i in
        let index = (get_sibling_index-node k i).1 in
        let inside : leb_ℤ (number s) (last_index tree) ≡ true =
          rw (last_index-pos tree m leaves) (left_in m e k i p.spans q.inside) in
        let o : other (i + i + 1) ≡ i + i = ground arith in
        let found = supplied level k (other (i + i + 1)) (i + i) o has.0 in
        let height : level + suc e ≡ suc level + e = omega arith in
        rw
          (
            round sha tree channelid fuel (right_child k i) s (hash_at level (i + i + 1)) tmpmap
                index inside,
            found,
            height,
          )
          (rw
            (
              parent_right k i,
              combine_right sha mhf k i (hash_at level (i + i + 1)) (hash_at level (i + i)),
            )
            (above (noted tree channelid s (number s) tmpmap)))

  next_siblings :
      (e k level j i : ℕ)
      → j / 2 ≡ i
      → HasSiblings sha tree channelid leaf (suc e) k level j
      → HasSiblings sha tree channelid leaf e (k + k + 1) (suc level) i
  next_siblings e k level j i h has =
      subst (λ x. HasSiblings sha tree channelid leaf e (k + k + 1) (suc level) x) h has.1

  at_top : (fuel k level : ℕ) (tmpmap : MerkleHashmap) → k ≡ m → Ends 0 k level 0 (suc fuel) tmpmap
  unfolding Ends EndsAt
  at_top fuel k level tmpmap e =
      let out : leb_ℤ (number (right_child k 0)) (last_index tree) ≡ false =
        rw (last_index-pos tree m leaves, sym e) (root_out k) in
      let height : level + 0 ≡ level = omega arith in
      (
        node k 0,
        tmpmap,
        rw height (
            finish sha tree channelid fuel (left_child k 0) (right_child k 0) (hash_at level 0)
              tmpmap (get_sibling_index-node k 0).0 out),
      )

  climb-tree_hash :
      (e k level j fuel : ℕ) (tmpmap : MerkleHashmap)
      → IsAt m e k j
      → suc e ≤ fuel
      → HasSiblings sha tree channelid leaf e k level j
      → Ends e k level j fuel tmpmap
  unfolding Above
  climb-tree_hash e k level j zero tmpmap p l has = absurd (omega arith)
  climb-tree_hash zero k level j (suc fuel) tmpmap p l has =
      let q = p.inside in
      let s = p.spans in
      let first : 0 ≡ j = omega arith in
      subst (λ x. Ends 0 k level x (suc fuel) tmpmap) first
        (at_top fuel k level tmpmap (omega arith))
  climb-tree_hash (suc e) k level j (suc fuel) tmpmap p l has =
      let below : suc e ≤ fuel = omega arith in
      let i = j / 2 in
      let up = next_siblings e k level j i refl has in
      elim (halves j) [
        | inl (h, r) ↦
            let q = subst (λ x. IsAt m (suc e) k x) h p in
            let here = subst (λ x. HasSiblings sha tree channelid leaf (suc e) k level x) h has in
            subst (λ x. Ends (suc e) k level x (suc fuel) tmpmap) (sym h)
              (Ends-left e k level fuel i tmpmap q here (λ tmpmap'.
                climb-tree_hash e (k + k + 1) (suc level) i fuel tmpmap' (IsAt-up_left m e k i q)
                  below up))
        | inr (h, r) ↦
            let q = subst (λ x. IsAt m (suc e) k x) h p in
            let here = subst (λ x. HasSiblings sha tree channelid leaf (suc e) k level x) h has in
            subst (λ x. Ends (suc e) k level x (suc fuel) tmpmap) (sym h)
              (Ends-right e k level fuel i tmpmap q here (λ tmpmap'.
                climb-tree_hash e (k + k + 1) (suc level) i fuel tmpmap' (IsAt-up_right m e k i q)
                  below up))
      ]

module _ (sha : Hasher) (tree : HashTree) (channelid : ℤ) (d : Data) (depth c : ℕ) (bytes : List ℕ)
    (leaf : ℕ → Hash) (k : IsComplete tree depth) (v : Carries d c bytes) where
  walk-tree_hash :
      c < 2 ^ depth
      → leaf c ≡ first_hash sha tree bytes
      → HasSiblings sha tree channelid leaf depth 0 0 c
      → EndsAt sha tree channelid leaf
          (2 ^ depth - 1)
          (leaves_suc sha tree channelid d depth c bytes k v)
          depth
          (walk sha tree channelid d depth c bytes k v)
  unfolding Ends EndsAt hash_at mhf tree_hash
  walk-tree_hash l f has =
      let e = chunk_node-node sha tree channelid d depth c bytes k v in
      let leaves = leaves_suc sha tree channelid d depth c bytes k v in
      let t =
        climb-tree_hash sha tree channelid leaf (2 ^ depth - 1) leaves depth 0 0 c (climb_fuel tree)
          [] (record { spans = omega arith; inside = l })
          (enough sha tree channelid d depth c bytes k v) has in
      let sum : 0 + depth ≡ depth = omega arith in
      rw (e, ← f)
        (subst
          (λ x.
            EndsAt sha tree channelid leaf (2 ^ depth - 1) leaves x
              (climb sha tree channelid (climb_fuel tree) (node 0 c) (leaf c) []))
          sum t)

judged-true :
    (o : Option Bool) (tree accepted : HashTree)
    → o ≡ some true
    → judged o tree accepted ≡ some (1, accepted)
unfolding judged
judged-true o tree accepted e = rw e refl

-- Over a tree of a power of two leaves with the last chunk known, a message that carries a chunk is
-- accepted where RootHash is the root that the recursive definition of the tree gives for the
-- hashes of the chunks, and for each level the hash that counts for the sibling is the one of that
-- definition: null for a sibling behind the last chunk; else the hash of the sibling's number that
-- came over the channel, or, where none came, the one in HashTreeMap.
pub check_data_integrity-tree_hash :
    (sha : Hasher) (tree : HashTree) (channelid : ℤ) (d : Data) (depth c : ℕ) (bytes : List ℕ)
    (leaf : ℕ → Hash)
    → IsComplete tree depth
    → Carries d c bytes
    → c < 2 ^ depth
    → IsDigest tree.merkle_hash_tree_function tree.root_hash
    → tree.root_hash ≡ tree_hash sha tree.merkle_hash_tree_function leaf depth 0
    → leaf c ≡ first_hash sha tree bytes
    → HasSiblings sha tree channelid leaf depth 0 0 c
    → (t : HashTree) × (check_data_integrity sha tree channelid d ≡ some (1, t))
unfolding EndsAt hash_at mhf known_result
check_data_integrity-tree_hash sha tree channelid d depth c bytes leaf k v l root e f has =
    let (n, tmpmap, w) = walk-tree_hash sha tree channelid d depth c bytes leaf k v l f has in
    let size = digest_blocklen tree.merkle_hash_tree_function in
    let same : same_bytes size tree.root_hash tree.root_hash ≡ some true =
      same_bytes-IsDigest tree.merkle_hash_tree_function tree.root_hash tree.root_hash root root
      ∙ ap some (equal_bytes_self root.bytes) in
    let same' = subst (λ x. same_bytes size tree.root_hash x ≡ some true) e same in
    (
      move_nodes channelid tmpmap (detect_size tree d),
      check-walk sha tree channelid d depth c bytes k v
          ∙ ap (known_result tree channelid d) w
          ∙ judged-true _ tree _ same',
    )
