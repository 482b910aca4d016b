-- ===== src/Tree/Check/Binding.antt =====
-- Two Merkle proofs with the same root.
use ppsp.Common.{
  ℕ, ◌/◌, ◌%◌, ◌^◌, ◌<◌, ◌≡◌, refl, ◌≢◌, ◌⊎◌, inl, inr, Bool, true, false, none, some, List, [],
  ◌∷◌, arith, length, ◌==◌, if◌then◌else◌, Bool-cases, subst, ap, sym, ◌∙◌,
}
use ppsp.Common.Int.{ℤ}
use ppsp.Message.Data.{Data}
use ppsp.Tree.Sha.{Hasher, Hash, HasDigests, encrypt, encrypt_lr, sha_encrypt_lr, all_zero}
use ppsp.Tree.State.{HashTree}
use ppsp.Tree.Check.{check_data_integrity, equal_bytes}
use ppsp.Tree.Check.Proofs.{proof_root}
use ppsp.Tree.Check.Digests.{IsDigest, equal_bytes_self, equal_bytes_sound}
use ppsp.Tree.Check.Known.{Carries, IsComplete, accepted_IsProof}

-- Different inputs with the same hash.
pub data IsCollision (sha : Hasher) (mhf : ℕ) : Type 0 where
  of_data : (a b : List ℕ) → a ≢ b → encrypt sha mhf a ≡ encrypt sha mhf b → IsCollision sha mhf
  of_pair :
      (a b x y : List ℕ)
      → (a ≢ x) ⊎ (b ≢ y)
      → encrypt_lr sha mhf a b ≡ encrypt_lr sha mhf x y
      → IsCollision sha mhf

bytes_cases : (a b : List ℕ) → (a ≡ b) ⊎ (a ≢ b)
bytes_cases a b = elim (Bool-cases (equal_bytes a b)) [
  | inl e ↦ inl (equal_bytes_sound a b e)
  | inr e ↦ inr (λ p.
      let t = subst (λ x. equal_bytes a x ≡ true) p (equal_bytes_self a) in
      absurd (ground (arith, e, t)))
]

some_inj : {a b : List ℕ} → some a ≡ some b → a ≡ b
some_inj e = ground arith

abbrev filled : ℕ → Hash → List ℕ
filled mhf none = all_zero mhf
filled mhf (some q) = q

module _ (sha : Hasher) (mhf : ℕ) where
  left_filled :
      (a : List ℕ) (q : Hash)
      → sha_encrypt_lr sha mhf (some a) q ≡ some (encrypt_lr sha mhf a (filled mhf q))
  unfolding sha_encrypt_lr
  left_filled a none = refl
  left_filled a (some b) = refl

  right_filled :
      (a : List ℕ) (q : Hash)
      → sha_encrypt_lr sha mhf q (some a) ≡ some (encrypt_lr sha mhf (filled mhf q) a)
  unfolding sha_encrypt_lr
  right_filled a none = refl
  right_filled a (some b) = refl

  same_left :
      (a b p q : List ℕ)
      → encrypt_lr sha mhf a p ≡ encrypt_lr sha mhf b q
      → (a ≡ b) ⊎ IsCollision sha mhf
  same_left a b p q e = elim (bytes_cases a b) [
    | inl s ↦ inl s
    | inr n ↦ inr (of_pair a p b q (inl n) e)
  ]

  same_right :
      (a b p q : List ℕ)
      → encrypt_lr sha mhf p a ≡ encrypt_lr sha mhf q b
      → (a ≡ b) ⊎ IsCollision sha mhf
  same_right a b p q e = elim (bytes_cases a b) [
    | inl s ↦ inl s
    | inr n ↦ inr (of_pair p a q b (inr n) e)
  ]

  level : Bool → List ℕ → Hash → List ℕ
  level true a q = encrypt_lr sha mhf a (filled mhf q)
  level false a q = encrypt_lr sha mhf (filled mhf q) a

  level_lem :
      (left : Bool) (a : List ℕ) (q : Hash)
      → (if left then sha_encrypt_lr sha mhf (some a) q else sha_encrypt_lr sha mhf q (some a))
        ≡ some (level left a q)
  unfolding level
  level_lem true a q = left_filled a q
  level_lem false a q = right_filled a q

  same_level :
      (left : Bool) (a b : List ℕ) (p q : Hash)
      → level left a p ≡ level left b q
      → (a ≡ b) ⊎ IsCollision sha mhf
  unfolding level
  same_level true a b p q e = same_left a b (filled mhf p) (filled mhf q) e
  same_level false a b p q e = same_right a b (filled mhf p) (filled mhf q) e

  -- Over the same position, two proofs of the same length with the same root start from the same
  -- hash, or show a collision.
  proof_root-binding :
      (proof other : List Hash) (j : ℕ) (a b : List ℕ)
      → length proof ≡ length other
      → proof_root sha mhf proof j (some a) ≡ proof_root sha mhf other j (some b)
      → (a ≡ b) ⊎ IsCollision sha mhf
  unfolding proof_root
  proof_root-binding [] [] j a b l e = inl (some_inj e)
  proof_root-binding [] (q ∷ other) j a b l e = absurd (omega arith)
  proof_root-binding (p ∷ proof) [] j a b l e = absurd (omega arith)
  proof_root-binding (p ∷ proof) (q ∷ other) j a b l e =
      let s = j % 2 == 0 in
      let e2 : proof_root sha mhf proof (j / 2) (some (level s a p))
          ≡ proof_root sha mhf other (j / 2) (some (level s b q)) =
        ap (proof_root sha mhf proof (j / 2)) (sym (level_lem s a p))
        ∙ e
        ∙ ap (proof_root sha mhf other (j / 2)) (level_lem s b q) in
      elim (proof_root-binding proof other (j / 2) (level s a p) (level s b q) (omega arith) e2) [
        | inl r ↦ same_level s a b p q r
        | inr x ↦ inr x
      ]

  same_data : (a b : List ℕ) → encrypt sha mhf a ≡ encrypt sha mhf b → (a ≡ b) ⊎ IsCollision sha mhf
  same_data a b e = elim (bytes_cases a b) [ inl s ↦ inl s | inr n ↦ inr (of_data a b n e) ]

-- For the same chunk of a tree of a power of two leaves, two states of the tree with the same root
-- hash, hash function and number of leaves, where the last chunk is known, accept the same bytes
-- only, from any channels and with any maps, or the hash function has a collision: two different
-- chunks, or two different pairs of hashes, with the same hash.
pub check_data_integrity-binding :
    (sha : Hasher) (tree tree' t t' : HashTree) (channelid channelid' : ℤ) (d d' : Data)
    (depth c : ℕ) (bytes bytes' : List ℕ)
    → HasDigests sha
    → IsDigest tree.merkle_hash_tree_function tree.root_hash
    → tree'.merkle_hash_tree_function ≡ tree.merkle_hash_tree_function
    → tree'.root_hash ≡ tree.root_hash
    → IsComplete tree depth
    → IsComplete tree' depth
    → Carries d c bytes
    → Carries d' c bytes'
    → c < 2 ^ depth
    → check_data_integrity sha tree channelid d ≡ some (1, t)
    → check_data_integrity sha tree' channelid' d' ≡ some (1, t')
    → (bytes ≡ bytes') ⊎ IsCollision sha tree.merkle_hash_tree_function
check_data_integrity-binding sha tree tree' t t' channelid channelid' d d' depth c bytes bytes' s
      root m r k k' v v' l e e' =
    let root' : IsDigest tree'.merkle_hash_tree_function tree'.root_hash = rw (m, r) root in
    let p = accepted_IsProof sha tree t channelid d depth c bytes s root k v l e in
    let q = accepted_IsProof sha tree' t' channelid' d' depth c bytes' s root' k' v' l e' in
    let mhf = tree.merkle_hash_tree_function in
    let q' : proof_root sha mhf q.proof c (some (encrypt sha mhf bytes')) ≡ tree.root_hash =
      subst (λ x. proof_root sha x q.proof c (some (encrypt sha x bytes')) ≡ tree.root_hash) m
        (q.rooted ∙ r) in
    elim (proof_root-binding sha mhf p.proof q.proof c (encrypt sha mhf bytes)
      (encrypt sha mhf bytes') (p.sized ∙ sym q.sized) (p.rooted ∙ sym q')) [
        | inl h ↦ same_data sha mhf bytes bytes' h
        | inr x ↦ inr x
      ]
