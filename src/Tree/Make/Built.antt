-- ===== src/Tree/Make/Built.antt =====
-- Make, from the bytes of a file to RootHash.
use ppsp.Common.{
  ℕ, zero, suc, ◌-◌, ◌*◌, ◌^◌, ◌≤◌, ◌<◌, ◌≡◌, ◌≢◌, refl, inl, inr, Option, none, some, List, arith,
  ap, sym, ◌∙◌, subst, length, drop,
}
use native.Mathlib.Nat.{mul-le-mul_left}
use ppsp.Common.Int.{ℤ, pos, negsuc, ◌-ℤ◌}
use ppsp.Message.Buffer.{copy_out, copy_out-whole}
use ppsp.Util.Hex.{get_string_from_hash}
use ppsp.Tree.Sha.{Hasher, Hash, HasDigests, digest_blocklen}
use ppsp.Tree.Dict.{Dict}
use ppsp.Tree.State.{MerkleHashmap, HashTree, set_root_hash}
use ppsp.Tree.Check.Climb.{minus_one}
use ppsp.Tree.Check.Known.{depth-lt}
use ppsp.Tree.Check.Complete.{tree_hash}
use ppsp.Tree.Make.{
  Leaves, Levels, pad_leaves, no_leaves, with_content, with_root, make_levels, make_leaves, make,
}
use ppsp.Tree.Make.Powers.{ceil_pow}
use ppsp.Tree.Make.Entries.{Holds, span}
use ppsp.Tree.Make.Adding.{IsLeaves, no_leaves-IsLeaves}
use ppsp.Tree.Make.Reading.{chunk_hash, IsRead, ReadFrom, read-IsRead}
use ppsp.Tree.Make.Padding.{PaddedFrom, pad-IsLeaves}
use ppsp.Tree.Make.Merging.{IsMerged}
use ppsp.Tree.Make.Rising.{IsTree, IsDone, Finished, merge_levels-IsDone}
use ppsp.Tree.Make.Hashes.{below_or_not, there, inside_file, node-IsDigest}

deep : (d n : ℕ) → n ≤ 2 ^ d → 2 ≤ n → 0 < d
deep zero n p q = absurd (omega arith)
deep (suc d) n p q = omega arith

-- What Make promises of a tree: the nodes of the recursive definition over the hashes of the
-- chunks, null behind the last chunk; RootHash is the one at the top.
pub record IsMade (sha : Hasher) (mhf c : ℕ) (bytes : List ℕ) (before : Dict MerkleHashmap)
    (t : HashTree) (d last : ℕ) : Type 0 where
  pub built : IsTree sha mhf (chunk_hash sha mhf c bytes) d t.hash_tree_map
  pub root_hash : t.root_hash ≡ tree_hash sha mhf (chunk_hash sha mhf c bytes) d 0
  pub root_node : t.root_node ≡ some (pos (span d))
  pub hashed_by : t.merkle_hash_tree_function ≡ mhf
  pub received : t.integrity_map ≡ before
  pub leaves : t.leaf_node_count ≡ pos (2 ^ d)
  pub ranged : t.chunk_range ≡ pos last
  pub inside : last < 2 ^ d
  pub filled : (j : ℕ) → j ≤ last → chunk_hash sha mhf c bytes j ≢ none
  pub ended : (j : ℕ) → last < j → chunk_hash sha mhf c bytes j ≡ none

module _ (sha : Hasher) (mhf c : ℕ) (bytes : List ℕ) (positive : 0 < c)
    (digests : HasDigests sha) where
  abbrev hash_at : ℕ → Hash
  hash_at = chunk_hash sha mhf c bytes

  -- The counts that the loops end with.
  at_least_two :
      (n : ℕ) (m : Leaves) → c < length bytes → IsRead sha mhf c bytes positive n m → 2 ≤ n
  at_least_two zero m l k =
      absurd (there sha mhf c bytes positive digests 1 (omega arith) (k.ended 1 (omega arith)))
  at_least_two (suc zero) m l k =
      absurd (there sha mhf c bytes positive digests 1 (omega arith) (k.ended 1 (omega arith)))
  at_least_two (suc (suc n)) m l k = omega arith

  at_most :
      (n b : ℕ) (m : Leaves) → length bytes ≤ c * b → IsRead sha mhf c bytes positive n m → n ≤ b
  at_most zero b m l k = omega arith
  at_most (suc n) b m l k = elim (below_or_not n b) [
    | inl s ↦ s
    | inr s ↦
        let inside = inside_file sha mhf c bytes positive digests n (k.filled n (omega arith)) in
        let much = mul-le-mul_left c s in absurd (omega arith)
  ]

  start-IsMerged :
      (d : ℕ) (m : Leaves) (root : Option ℤ)
      → IsLeaves sha mhf hash_at (2 ^ d) m
      → IsMerged sha mhf hash_at d 0 0 (record { map = m.map; root = root; hashout = m.hashout })
  start-IsMerged d m root k = record {
    held = λ l e j s b n.
        (let q : e ≡ d = omega arith in
          let z : 0 ≡ l = omega arith in
          subst (λ x. Holds sha mhf hash_at m.map x j) z (k.held j (subst (λ x. j < 2 ^ x) q n)));
    next = λ j b. absurd (omega arith);
    absent = k.absent;
    last = λ j z. absurd (omega arith);
    rooted = λ s b. absurd (omega arith);
  }

  Made : HashTree → ℕ → Option (ℕ × HashTree) → Type 0
  Made tree last o =
      (d : ℕ) × (t : HashTree) × (o ≡ some (1, t))
      × IsMade sha mhf c bytes tree.integrity_map t d last

  with_root-some :
      (tree : HashTree) (map : MerkleHashmap) (root : ℤ) (hash : List ℕ)
      → copy_out (pos (digest_blocklen tree.merkle_hash_tree_function)) hash ≡ some hash
      → with_root (record { map = map; root = some root; hashout = some hash }) tree
        ≡ some (
          1,
          record tree {
            hash_tree_map = map;
            root_node = some root;
            root_hash = some hash;
            root_hash_string = get_string_from_hash hash;
          },
        )
  unfolding with_root set_root_hash
  with_root-some tree map root hash copy = rw (with_root, set_root_hash, copy) refl

  root_set :
      (tree : HashTree) (d last : ℕ) (m : Levels)
      → tree.merkle_hash_tree_function ≡ mhf
      → tree.leaf_node_count ≡ pos (2 ^ d)
      → tree.chunk_range ≡ pos last
      → last < 2 ^ d
      → ((j : ℕ) → j ≤ last → hash_at j ≢ none)
      → ((j : ℕ) → last < j → hash_at j ≡ none)
      → IsDone sha mhf hash_at d m
      → Made tree last (with_root m tree)
  unfolding Made
  root_set tree d last m f a r b g e k =
      let first : 0 ≡ suc (span d) * 0 = omega arith in
      let top =
        node-IsDigest sha mhf c bytes positive digests d 0
          (subst (λ x. hash_at x ≢ none) first (g 0 (omega arith))) in
      let held : m.hashout ≡ some top.bytes = k.hashed ∙ top.held in
      let size : length top.bytes ≡ digest_blocklen tree.merkle_hash_tree_function =
        top.sized ∙ ap digest_blocklen (sym f) in
      let copy = copy_out-whole (digest_blocklen tree.merkle_hash_tree_function) top.bytes size in
      (
        d,
        record tree {
          hash_tree_map = m.map;
          root_node = some (pos (span d));
          root_hash = some top.bytes;
          root_hash_string = get_string_from_hash top.bytes;
        },
        ap (λ x. with_root (record { map = m.map; root = x; hashout = m.hashout }) tree) k.rooted
            ∙ ap
                (λ x.
                  with_root (record { map = m.map; root = some (pos (span d)); hashout = x }) tree)
                held
            ∙ with_root-some tree m.map (pos (span d)) top.bytes copy,
        record {
          built = k.tree;
          root_hash = sym top.held;
          root_node = refl;
          hashed_by = f;
          received = refl;
          leaves = a;
          ranged = r;
          inside = b;
          filled = g;
          ended = e;
        },
      )

  make_levels-Made :
      (tree : HashTree) (d n : ℕ) (m : Leaves)
      → tree.merkle_hash_tree_function ≡ mhf
      → tree.chunk_range ≡ pos n
      → 0 < d
      → n < 2 ^ d
      → ((j : ℕ) → j ≤ n → hash_at j ≢ none)
      → ((j : ℕ) → n < j → hash_at j ≡ none)
      → IsLeaves sha mhf hash_at (2 ^ d) m
      → Made tree n (make_levels sha tree (2 ^ d) m)
  unfolding Made make_levels Finished
  make_levels-Made tree zero n m f r p b g e k = absurd (omega arith)
  make_levels-Made tree (suc d) n m f r p b g e k =
      let start : Levels = record { map = m.map; root = tree.root_node; hashout = m.hashout } in
      let deep = depth-lt (suc d) in
      let (m', run, done) =
        merge_levels-IsDone sha mhf hash_at (suc d) d (suc (2 ^ suc d)) 0 start (omega arith)
          (omega arith) (start-IsMerged (suc d) m tree.root_node k) in
      let counted = record tree { leaf_node_count = pos (2 ^ suc d) } in
      let (d', t, q, made) = root_set counted (suc d) n m' f refl r b g e done in
      (d', t, rw (make_levels, f, run) q, made)

  -- Behind the loop over the file.
  make_padded :
      (tree : HashTree) (n : ℕ) (m : Leaves)
      → tree.merkle_hash_tree_function ≡ mhf
      → c < length bytes
      → length bytes ≤ c * 2 ^ 29
      → IsRead sha mhf c bytes positive n m
      → (padded : Leaves) × (pad_leaves (suc m.idx) m ≡ some padded)
        × Made tree (n - 1) (make_levels sha (with_content m tree) (length padded.map) padded)
  unfolding Made with_content PaddedFrom
  make_padded tree n m f l s k =
      let two = at_least_two n m l k in
      let most = at_most n (2 ^ 29) m s k in
      let i = k.leaves.next_idx in
      let one : suc (n - 1) ≡ n = omega arith in
      let (d, p, q) = ceil_pow (n - 1) in
      let (d', padded, run, above, small, leaves) =
        pad-IsLeaves sha mhf hash_at (suc m.idx) n d m (omega arith) (omega arith) (omega arith)
          (omega arith) k.ended k.leaves in
      let ranged : pos (length m.map) -ℤ pos 1 ≡ pos (n - 1) =
        ap (λ x. pos x -ℤ pos 1) (k.leaves.sized ∙ sym one) ∙ minus_one (n - 1) in
      (
        padded,
        run,
        subst (λ x. Made tree (n - 1) (make_levels sha (with_content m tree) x padded))
            (sym leaves.sized)
            (make_levels-Made (with_content m tree) d' (n - 1) padded f ranged (deep d' n above two)
              (omega arith) (λ j b. k.filled j (omega arith)) (λ j b. k.ended j (omega arith))
              leaves),
      )

  make_leaves-Made :
      (tree : HashTree)
      → tree.merkle_hash_tree_function ≡ mhf
      → c < length bytes
      → length bytes ≤ c * 2 ^ 29
      → (last : ℕ) × Made tree last (make_leaves sha tree c bytes)
  unfolding Made make_leaves ReadFrom
  make_leaves-Made tree f l s =
      let first : bytes ≡ drop (c * 0) bytes =
        let z : 0 ≡ c * 0 = omega arith in ap (λ x. drop x bytes) z in
      let (n, m, run, k) =
        read-IsRead sha mhf c bytes positive (suc (length bytes)) 0 bytes no_leaves first
          (omega arith) (no_leaves-IsLeaves sha mhf hash_at) (λ j b. absurd (omega arith)) in
      let (padded, run', rest) = make_padded tree n m f l s k in
      let (d, t, q, made) = rest in (n - 1, (d, t, rw (make_leaves, f, run, run') q, made))

-- Make of a file with more bytes than ChunkSize, which is 1 or more, and of 2 ^ 29 chunks at most,
-- returns 1 with a tree of a power of two leaves: its nodes have the chunks and the hashes of the
-- recursive definition over the hashes of the file's chunks, null behind the last chunk, there is
-- no node from number 2L on where L is the number of leaves, ChunkRange is the last chunk, and
-- RootNode and RootHash are those of the top.
pub make-IsMade :
    (sha : Hasher) (tree : HashTree) (c : ℕ) (bytes : List ℕ)
    → HasDigests sha
    → tree.chunk_size ≡ pos c
    → 0 < c
    → c < length bytes
    → length bytes ≤ c * 2 ^ 29
    → (t : HashTree) × (d : ℕ) × (last : ℕ) × (make sha tree (some bytes) ≡ some (1, t))
      × IsMade sha tree.merkle_hash_tree_function c bytes tree.integrity_map t d last
unfolding make Made
make-IsMade sha tree c bytes digests size positive l s =
    let (last, rest) =
      make_leaves-Made sha tree.merkle_hash_tree_function c bytes positive digests tree refl l s in
    let (d, t, q, made) = rest in
    (
      t,
      d,
      last,
      ap (λ x. elim x [ negsuc n ↦ none | pos k ↦ make_leaves sha tree k bytes ]) size ∙ q,
      made,
    )
