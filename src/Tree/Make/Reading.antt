-- ===== src/Tree/Make/Reading.antt =====
-- The leaves that Make reads are those of the chunks of the file.
use ppsp.Common.{
  ℕ, zero, suc, ◌+◌, ◌-◌, ◌*◌, ◌≤◌, ◌<◌, ◌≡◌, ◌≢◌, refl, ◌⊎◌, inl, inr, false, none, some, List, [],
  ◌∷◌, arith, ap, sym, ◌∙◌, length, take, drop, ◌==◌, ==_iff, Bool-cases,
}
use ppsp.Common.Int.{pos}
use ppsp.Message.Buffer.{copy_out-all}
use ppsp.Tree.Sha.{Hasher, Hash, encrypt, sha_encrypt}
use ppsp.Tree.Make.{Leaves, next_leaf, read_leaves}
use ppsp.Tree.Make.Adding.{IsLeaves, next_leaf-IsLeaves, last_or_before}

-- Chunk number `j` of a file.
abbrev pub chunk_of : ℕ → List ℕ → ℕ → List ℕ
chunk_of chunk_size bytes j = take chunk_size (drop (chunk_size * j) bytes)

abbrev pub bytes_hash : Hasher → ℕ → List ℕ → Hash
bytes_hash sha mhf [] = none
bytes_hash sha mhf (x ∷ xs) = some (encrypt sha mhf (x ∷ xs))

-- The hash of a chunk; null behind the end of the file.
unfoldable pub chunk_hash : Hasher → ℕ → ℕ → List ℕ → ℕ → Hash
chunk_hash sha mhf chunk_size bytes j = bytes_hash sha mhf (chunk_of chunk_size bytes j)

take_nil : (n : ℕ) → take {A = ℕ} n [] ≡ []
take_nil zero = refl
take_nil (suc n) = refl

drop_nil : (n : ℕ) → drop {A = ℕ} n [] ≡ []
drop_nil zero = refl
drop_nil (suc n) = refl

drop-drop : (a b : ℕ) (xs : List ℕ) → drop b (drop a xs) ≡ drop (a + b) xs
drop-drop zero b xs = let e : b ≡ 0 + b = omega arith in ap (λ n. drop n xs) e
drop-drop (suc a) b [] = drop_nil b ∙ sym (drop_nil (suc a + b))
drop-drop (suc a) b (x ∷ xs) =
    let e : suc a + b ≡ suc (a + b) = omega arith in
    drop-drop a b xs ∙ ap (λ n. drop n (x ∷ xs)) (sym e)

pub length-take-drop : (n : ℕ) (xs : List ℕ) → length (take n xs) + length (drop n xs) ≡ length xs
length-take-drop zero xs = omega arith
length-take-drop (suc n) [] = omega arith
length-take-drop (suc n) (x ∷ xs) = omega (arith, length-take-drop n xs)

-- A read of less than a full chunk ends the file.
take_short : (n : ℕ) (xs : List ℕ) → (length (take n xs) ≡ n) ⊎ (drop n xs ≡ [])
take_short zero xs = inl refl
take_short (suc n) [] = inr refl
take_short (suc n) (x ∷ xs) = elim (take_short n xs) [ inl e ↦ inl (ap suc e) | inr e ↦ inr e ]

module _ (sha : Hasher) (mhf c : ℕ) (bytes : List ℕ) (positive : 0 < c) where
  abbrev pub leaf : ℕ → Hash
  leaf = chunk_hash sha mhf c bytes

  abbrev pub left_over : ℕ → List ℕ
  left_over n = drop (c * n) bytes

  next_left : (n : ℕ) → drop c (left_over n) ≡ left_over (suc n)
  next_left n =
      let e : c * n + c ≡ c * suc n = omega arith in
      drop-drop (c * n) c bytes ∙ ap (λ k. drop k bytes) e

  pub behind : (n j : ℕ) → left_over n ≡ [] → n ≤ j → leaf j ≡ none
  unfolding chunk_hash
  behind n j e l =
      let i : n + (j - n) ≡ j = omega arith in
      let d : c * j ≡ c * n + c * (j - n) = ap (λ x. c * x) (sym i) ∙ omega arith in
      let z : left_over j ≡ [] =
        ap (λ k. drop k bytes) d
        ∙ sym (drop-drop (c * n) (c * (j - n)) bytes)
        ∙ ap (drop (c * (j - n))) e
        ∙ drop_nil (c * (j - n)) in
      ap (λ r. bytes_hash sha mhf (take c r)) z ∙ ap (bytes_hash sha mhf) (take_nil c)

  -- What Make has read: `n` chunks, which is all of them.
  pub record IsRead (n : ℕ) (m : Leaves) : Type 0 where
    pub leaves : IsLeaves sha mhf leaf n m
    pub filled : (j : ℕ) → j < n → leaf j ≢ none
    pub ended : (j : ℕ) → n ≤ j → leaf j ≡ none

  unfoldable pub ReadFrom : ℕ → List ℕ → Leaves → Type 0
  ReadFrom fuel rest m =
      (n : ℕ) × (m' : Leaves) × (read_leaves sha mhf c fuel rest m ≡ some m') × IsRead n m'

  pub nothing_left : (rest : List ℕ) → length (take c rest) ≡ 0 → rest ≡ []
  nothing_left [] e = refl
  nothing_left (x ∷ rest) e = elim (take_short c (x ∷ rest)) [
    | inl h ↦ absurd (omega arith)
    | inr h ↦
        let all = length-take-drop c (x ∷ rest) in
        let none_left : length (drop c (x ∷ rest)) ≡ 0 = ap length h in absurd (omega arith)
  ]

  stopped :
      (n : ℕ) (m : Leaves)
      → left_over n ≡ []
      → IsLeaves sha mhf leaf n m
      → ((j : ℕ) → j < n → leaf j ≢ none)
      → IsRead n m
  stopped n m e k f = record { leaves = k; filled = f; ended = λ j l. behind n j e l }

  full_hash :
      (xs : List ℕ)
      → (length xs == 0) ≡ false
      → (sha_encrypt sha mhf xs (pos (length xs)) ≡ bytes_hash sha mhf xs)
        × (bytes_hash sha mhf xs ≢ none)
  unfolding sha_encrypt
  full_hash [] h = absurd (ground arith)
  full_hash (x ∷ xs) h = (rw (sha_encrypt, copy_out-all (x ∷ xs)) refl, λ z. ground arith)

  got_hash :
      (n : ℕ) (rest : List ℕ)
      → rest ≡ left_over n
      → (length (take c rest) == 0) ≡ false
      → (sha_encrypt sha mhf (take c rest) (pos (length (take c rest))) ≡ leaf n) × (leaf n ≢ none)
  unfolding chunk_hash
  got_hash n rest e h =
      let t : bytes_hash sha mhf (take c rest) ≡ leaf n =
        ap (λ r. bytes_hash sha mhf (take c r)) e in
      let (p, q) = full_hash (take c rest) h in (p ∙ t, λ z. q (t ∙ z))

  filled_more :
      (n : ℕ)
      → ((j : ℕ) → j < n → leaf j ≢ none)
      → leaf n ≢ none
      → (j : ℕ) → j < suc n
      → leaf j ≢ none
  filled_more n f h j l = elim (last_or_before sha mhf leaf j n l) [
    | inl e ↦ λ z. h (ap leaf (sym e) ∙ z)
    | inr b ↦ f j b
  ]

  pub read-IsRead :
      (fuel n : ℕ) (rest : List ℕ) (m : Leaves)
      → rest ≡ left_over n
      → length rest < fuel
      → IsLeaves sha mhf leaf n m
      → ((j : ℕ) → j < n → leaf j ≢ none)
      → ReadFrom fuel rest m
  unfolding ReadFrom read_leaves
  read-IsRead zero n rest m e l k f = absurd (omega arith)
  read-IsRead (suc fuel) n rest m e l k f = elim (Bool-cases (length (take c rest) == 0)) [
    | inl z ↦
        let z' = (==_iff (length (take c rest)) 0).0 z in
        let same = record m { ret = 0 } in
        let k' : IsLeaves sha mhf leaf n same = record {
          held = k.held;
          absent = k.absent;
          sized = k.sized;
          next_idx = k.next_idx;
          next_cidx = k.next_cidx;
        } in
        (n, same, rw (read_leaves, z) refl, stopped n same (sym e ∙ nothing_left rest z') k' f)
    | inr z ↦
        let (h, h') = got_hash n rest e z in
        let ret = length (take c rest) in
        let added = next_leaf (sha_encrypt sha mhf (take c rest) (pos ret)) ret false m in
        let k' = next_leaf-IsLeaves sha mhf leaf n _ ret false m h k in
        let f' = filled_more n f h' in
        let e' : drop c rest ≡ left_over (suc n) = ap (drop c) e ∙ next_left n in
        elim (Bool-cases (ret == c)) [
          | inl full ↦
              let sum = length-take-drop c rest in
              let q = (==_iff ret c).0 full in
              let (n', m', r, d) =
                read-IsRead fuel (suc n) (drop c rest) added e' (omega arith) k' f' in
              (n', m', rw (read_leaves, z, full) r, d)
          | inr part ↦ elim (take_short c rest) [
            | inl q ↦ absurd (ground (arith, ==_iff ret c))
            | inr q ↦ (
              suc n,
              added,
              rw (read_leaves, z, part) refl,
              stopped (suc n) added (sym e' ∙ q) k' f',
            )
          ]
        ]
  ]
