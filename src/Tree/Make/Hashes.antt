-- ===== src/Tree/Make/Hashes.antt =====
-- The hashes of the chunks of a file, and of the nodes above them.
use ppsp.Common.{
  ℕ, zero, suc, ◌+◌, ◌*◌, ◌≤◌, ◌<◌, ◌≡◌, ◌≢◌, refl, ◌⊎◌, inl, inr, none, some, List, [], ◌∷◌, arith,
  ap, sym, subst, length, take, drop,
}
use ppsp.Tree.Sha.{Hasher, Hash, HasDigests, encrypt, sha_encrypt_lr}
use ppsp.Tree.Check.Digests.{IsDigest, left-IsDigest, encrypt-IsDigest}
use ppsp.Tree.Check.Complete.{tree_hash}
use ppsp.Tree.Make.Entries.{span}
use ppsp.Tree.Make.Reading.{bytes_hash, chunk_of, chunk_hash, nothing_left, behind}

drop_all : (n : ℕ) (xs : List ℕ) → length xs ≤ n → drop n xs ≡ []
drop_all zero [] h = refl
drop_all zero (x ∷ xs) h = absurd (omega arith)
drop_all (suc n) [] h = refl
drop_all (suc n) (x ∷ xs) h = drop_all n xs (omega arith)

drop-over : (n : ℕ) (xs : List ℕ) → drop n xs ≡ [] → length xs ≤ n
drop-over zero [] h = omega arith
drop-over zero (x ∷ xs) h = absurd (ground arith)
drop-over (suc n) [] h = omega arith
drop-over (suc n) (x ∷ xs) h = let t = drop-over n xs h in omega arith

pub below_or_not : (a b : ℕ) → (a < b) ⊎ (b ≤ a)
below_or_not a b = omega arith

module _ (sha : Hasher) (mhf c : ℕ) (bytes : List ℕ) (positive : 0 < c)
    (digests : HasDigests sha) where
  abbrev pub hash_at : ℕ → Hash
  hash_at = chunk_hash sha mhf c bytes

  -- A chunk that is there begins in the file.
  pub inside_file : (j : ℕ) → hash_at j ≢ none → c * j < length bytes
  inside_file j h = elim (below_or_not (c * j) (length bytes)) [
    | inl l ↦ l
    | inr l ↦
        absurd (h (behind sha mhf c bytes positive j j (drop_all (c * j) bytes l) (omega arith)))
  ]

  hash_null : (xs : List ℕ) → bytes_hash sha mhf xs ≡ none → xs ≡ []
  hash_null [] z = refl
  hash_null (x ∷ xs) z = absurd (ground arith)

  bytes-IsDigest :
      (xs : List ℕ) → bytes_hash sha mhf xs ≢ none → IsDigest mhf (bytes_hash sha mhf xs)
  bytes-IsDigest [] h = absurd (h refl)
  bytes-IsDigest (x ∷ xs) h = encrypt-IsDigest sha mhf digests (x ∷ xs)

  pub there : (j : ℕ) → c * j < length bytes → hash_at j ≢ none
  unfolding chunk_hash
  there j l z =
      let z' = ap length (hash_null (take c (drop (c * j) bytes)) z) in
      let past = drop-over (c * j) bytes (nothing_left sha mhf c bytes positive _ z') in
      absurd (omega arith)

  pub hash_there :
      (j : ℕ) → hash_at j ≢ none → hash_at j ≡ some (encrypt sha mhf (chunk_of c bytes j))
  unfolding chunk_hash
  hash_there j h = bytes_there (chunk_of c bytes j) h
    where
      bytes_there :
          (xs : List ℕ)
          → bytes_hash sha mhf xs ≢ none
          → bytes_hash sha mhf xs ≡ some (encrypt sha mhf xs)
      bytes_there [] h' = absurd (h' refl)
      bytes_there (x ∷ xs) h' = refl

  pub leaf-IsDigest : (j : ℕ) → hash_at j ≢ none → IsDigest mhf (hash_at j)
  unfolding chunk_hash
  leaf-IsDigest j h = bytes-IsDigest (take c (drop (c * j) bytes)) h

  -- The hash of a node is null where all its leaves are, and a digest where the first is there.
  pub node-IsDigest :
      (l j : ℕ) → hash_at (suc (span l) * j) ≢ none → IsDigest mhf (tree_hash sha mhf hash_at l j)
  unfolding tree_hash
  node-IsDigest zero j h =
      let one : 1 * j ≡ j = omega arith in leaf-IsDigest j (subst (λ x. hash_at x ≢ none) one h)
  node-IsDigest (suc l) j h =
      let left : suc (span (suc l)) * j ≡ suc (span l) * (j + j) = omega arith in
      let q = node-IsDigest l (j + j) (subst (λ x. hash_at x ≢ none) left h) in
      subst (λ x. IsDigest mhf (sha_encrypt_lr sha mhf x (tree_hash sha mhf hash_at l (j + j + 1))))
        (sym q.held) (left-IsDigest sha mhf digests q.bytes _)

  pub node_null :
      (l j : ℕ)
      → ((i : ℕ) → suc (span l) * j ≤ i → hash_at i ≡ none)
      → tree_hash sha mhf hash_at l j ≡ none
  unfolding tree_hash sha_encrypt_lr
  node_null zero j h = h j (omega arith)
  node_null (suc l) j h =
      let left = node_null l (j + j) (λ i b. h i (omega arith)) in
      let right = node_null l (j + j + 1) (λ i b. h i (omega arith)) in rw (left, right) refl
