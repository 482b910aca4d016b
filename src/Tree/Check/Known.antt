-- ===== src/Tree/Check/Known.antt =====
-- CheckDataIntegrity with a known chunk range: what it accepts and what it refuses.
use ppsp.Common.{
  ℕ, zero, suc, ◌-◌, ◌^◌, ◌≤◌, ◌<◌, ◌≡◌, refl, ◌⊎◌, inl, inr, Bool, true, false, Option, none, some,
  List, [], arith, length, Bool-cases, ap, sym, ◌∙◌,
}
use ppsp.Common.Int.{ℤ, pos}
use ppsp.Message.Buffer.{copy_out}
use ppsp.Message.Data.{Data}
use ppsp.Tree.Sha.{Hasher, Hash, HasDigests, encrypt, sha_encrypt, digest_blocklen}
use ppsp.Tree.Sibling.Laws.{node}
use ppsp.Tree.State.{HashTree}
use ppsp.Tree.Check.{
  Walk, climb, climb_fuel, same_bytes, judged, known_result, check_known, check_data_integrity,
  equal_bytes, chunk_node, move_nodes, detect_size,
}
use ppsp.Tree.Check.Proofs.{proof_root}
use ppsp.Tree.Check.Digests.{IsDigest, leaf-IsDigest, same_bytes-IsDigest, same_bytes_sound}
use ppsp.Tree.Check.Climb.{last_index-pos}
use ppsp.Tree.Check.Sound.{IsClimbed, gave_up, reached, climb-IsClimbed}

-- The message holds the bytes of chunk number `c`.
pub record Carries (d : Data) (c : ℕ) (bytes : List ℕ) : Type 0 where
  pub start : d.start_chunk ≡ pos c
  pub end : d.end_chunk ≡ pos c
  pub buffer : List ℕ
  pub held : d.data_buffer ≡ some buffer
  pub sized : copy_out d.buffer_size buffer ≡ some bytes

-- The tree has `2 ^ depth` leaves, and the last chunk is known.
pub record IsComplete (tree : HashTree) (depth : ℕ) : Type 0 where
  pub range : ℕ
  pub ranged : tree.chunk_range ≡ pos range
  pub leaves : tree.leaf_node_count ≡ pos (2 ^ depth)

abbrev pub first_hash : Hasher → HashTree → List ℕ → Hash
first_hash sha tree bytes = some (encrypt sha tree.merkle_hash_tree_function bytes)

module _ (sha : Hasher) (tree : HashTree) (channelid : ℤ) (d : Data) (depth c : ℕ) (bytes : List ℕ)
    (k : IsComplete tree depth) (v : Carries d c bytes) where
  abbrev pub walk : Walk
  walk = climb sha tree channelid (climb_fuel tree) (chunk_node d) (first_hash sha tree bytes) []

  pub check-walk : check_data_integrity sha tree channelid d ≡ known_result tree channelid d walk
  unfolding check_data_integrity check_known sha_encrypt
  check-walk = ground (arith, v.held, v.start, v.end, v.sized, k.ranged)

pub depth-lt : (e : ℕ) → e < 2 ^ e
depth-lt zero = omega arith
depth-lt (suc e) = let l = depth-lt e in omega arith

whole : (e : ℕ) → 2 ^ e ≡ suc (2 ^ e - 1)
whole e = let l = depth-lt e in omega arith

node-chunk : (c : ℕ) → record { start = pos c; end = pos c } ≡ node 0 c
node-chunk c = ground arith

module _ (sha : Hasher) (tree : HashTree) (channelid : ℤ) (d : Data) (depth c : ℕ) (bytes : List ℕ)
    (k : IsComplete tree depth) (v : Carries d c bytes) where
  pub chunk_node-node : chunk_node d ≡ node 0 c
  chunk_node-node = ground (arith, v.start, v.end, node-chunk c)

  pub leaves_suc : tree.leaf_node_count ≡ pos (suc (2 ^ depth - 1))
  leaves_suc = k.leaves ∙ ap pos (whole depth)

  pub enough : suc depth ≤ climb_fuel tree
  enough =
      rw (last_index-pos tree (2 ^ depth - 1) leaves_suc) (let l = depth-lt depth in omega arith)

  walk-IsClimbed :
      c < 2 ^ depth
      → IsClimbed sha tree.merkle_hash_tree_function depth c
          (first_hash sha tree bytes)
          (walk sha tree channelid d depth c bytes k v)
  walk-IsClimbed l = rw chunk_node-node (
      climb-IsClimbed sha tree channelid (2 ^ depth - 1) leaves_suc depth 0 c (climb_fuel tree)
        (first_hash sha tree bytes) [] (record { spans = omega arith; inside = l }) enough)

judged_accepts :
    (o : Option Bool) (tree accepted t : HashTree)
    → judged o tree accepted ≡ some (1, t)
    → o ≡ some true
unfolding judged
judged_accepts none tree accepted t e = absurd (ground arith)
judged_accepts (some false) tree accepted t e = absurd (ground arith)
judged_accepts (some true) tree accepted t e = refl

-- The root is RootHash, and the proof has a hash for each level.
pub record IsProof (sha : Hasher) (tree : HashTree) (depth c : ℕ) (bytes : List ℕ) : Type 0 where
  pub proof : List Hash
  pub sized : length proof ≡ depth
  pub rooted :
      proof_root sha tree.merkle_hash_tree_function proof c (first_hash sha tree bytes)
      ≡ tree.root_hash

module _ (sha : Hasher) (tree : HashTree) (channelid : ℤ) (d : Data) (depth c : ℕ) (bytes : List ℕ)
    (digests : HasDigests sha) (root : IsDigest tree.merkle_hash_tree_function tree.root_hash) where
  known_result-IsProof :
      (t : HashTree) (w : Walk)
      → IsClimbed sha tree.merkle_hash_tree_function depth c (first_hash sha tree bytes) w
      → known_result tree channelid d w ≡ some (1, t)
      → IsProof sha tree depth c bytes
  unfolding known_result
  known_result-IsProof t w gave_up e = absurd (ground arith)
  known_result-IsProof t w (reached proof top_hash s r) e = record {
    proof = proof;
    sized = s;
    rooted =
        let mhf = tree.merkle_hash_tree_function in
        let leaf = leaf-IsDigest sha mhf digests proof c bytes in
        let same = judged_accepts _ _ _ _ e in
        sym (same_bytes_sound mhf tree.root_hash _ root leaf (rw (← r) same));
  }

  -- Each end of the loop gives a result.
  known_result-total :
      (w : Walk)
      → IsClimbed sha tree.merkle_hash_tree_function depth c (first_hash sha tree bytes) w
      → (known_result tree channelid d w ≡ some (0, tree))
        ⊎ ((t : HashTree) × (known_result tree channelid d w ≡ some (1, t)))
  unfolding known_result judged
  known_result-total w gave_up = inl refl
  known_result-total w (reached {n} {tmpmap} proof top_hash s r) =
      let mhf = tree.merkle_hash_tree_function in
      let leaf = leaf-IsDigest sha mhf digests proof c bytes in
      let q = same_bytes-IsDigest mhf tree.root_hash _ root leaf in
      let p : same_bytes (digest_blocklen mhf) tree.root_hash top_hash
          ≡ some (equal_bytes root.bytes leaf.bytes) =
        rw r q in
      elim (Bool-cases (equal_bytes root.bytes leaf.bytes)) [
        | inl e ↦ inr (move_nodes channelid tmpmap (detect_size tree d), rw (p, e) refl)
        | inr e ↦ inl (rw (p, e) refl)
      ]

-- With RootHash set, a tree of a power of two leaves and the last chunk known, CheckDataIntegrity
-- returns for every message that carries a chunk of the tree: it returns 0 and the tree stays, or
-- it returns 1 and the hashes that the loop used, one for each level of the tree, make RootHash of
-- the hash of the chunk.
pub check_data_integrity-IsProof :
    (sha : Hasher) (tree : HashTree) (channelid : ℤ) (d : Data) (depth c : ℕ) (bytes : List ℕ)
    → HasDigests sha
    → IsDigest tree.merkle_hash_tree_function tree.root_hash
    → IsComplete tree depth
    → Carries d c bytes
    → c < 2 ^ depth
    → (check_data_integrity sha tree channelid d ≡ some (0, tree))
      ⊎ ((t : HashTree) × (check_data_integrity sha tree channelid d ≡ some (1, t))
          × IsProof sha tree depth c bytes)
check_data_integrity-IsProof sha tree channelid d depth c bytes digests root k v l =
    let w = walk sha tree channelid d depth c bytes k v in
    let climbed = walk-IsClimbed sha tree channelid d depth c bytes k v l in
    let e = check-walk sha tree channelid d depth c bytes k v in
    elim (known_result-total sha tree channelid d depth c bytes digests root w climbed) [
      | inl z ↦ inl (e ∙ z)
      | inr (t, z) ↦ inr (
        t,
        e ∙ z,
        known_result-IsProof sha tree channelid d depth c bytes digests root t w climbed z,
      )
    ]

pub accepted_IsProof :
    (sha : Hasher) (tree t : HashTree) (channelid : ℤ) (d : Data) (depth c : ℕ) (bytes : List ℕ)
    → HasDigests sha
    → IsDigest tree.merkle_hash_tree_function tree.root_hash
    → IsComplete tree depth
    → Carries d c bytes
    → c < 2 ^ depth
    → check_data_integrity sha tree channelid d ≡ some (1, t)
    → IsProof sha tree depth c bytes
accepted_IsProof sha tree t channelid d depth c bytes digests root k v l e =
    known_result-IsProof sha tree channelid d depth c bytes digests root t
      (walk sha tree channelid d depth c bytes k v)
      (walk-IsClimbed sha tree channelid d depth c bytes k v l)
      (sym (check-walk sha tree channelid d depth c bytes k v) ∙ e)
