-- ===== src/Binmap/Ranges.antt =====
-- Predicates on lists of chunk ranges.
use ppsp.Common.{◌+◌, ◌<◌, ◌⊎◌, inl, inr, ◌↔◌, List, [], ◌∷◌, ◌++◌}
use ppsp.Common.Int.{ℤ, ◌≤ℤ◌, pos_part, neg_part}
use ppsp.Binmap.{Range}

abbrev pub IsRange : Range → Type 0
IsRange r = r.start ≤ℤ r.end

abbrev pub Between : ℤ → ℤ → ℤ → Type 0
Between start end i = (start ≤ℤ i) × (i ≤ℤ end)

abbrev pub InRange : Range → ℤ → Type 0
InRange r i = Between r.start r.end i

-- Chunk `i` is in one of the ranges.
abbrev pub Covers : List Range → ℤ → Type 0
Covers [] i = ⊥
Covers (r ∷ rs) i = InRange r i ⊎ Covers rs i

abbrev pub AllRanges : List Range → Type 0
AllRanges [] = Unit {0}
AllRanges (r ∷ rs) = IsRange r × AllRanges rs

-- `a + 1 < b`: at least one chunk number lies between.
infix 50 ◌≪◌
abbrev pub ◌≪◌ : ℤ → ℤ → Type 0
a ≪ b = pos_part a + neg_part b + 1 < pos_part b + neg_part a

-- Two ranges that neither meet nor touch.
abbrev pub Apart : Range → Range → Type 0
Apart r q = (r.end ≪ q.start) ⊎ (q.end ≪ r.start)

abbrev pub AllApart : Range → List Range → Type 0
AllApart r [] = Unit {0}
AllApart r (q ∷ qs) = Apart r q × AllApart r qs

-- The ranges that a set of chunks falls into: none empty, and no two of them meet or touch.
abbrev pub Separated : List Range → Type 0
Separated [] = Unit {0}
Separated (r ∷ rs) = IsRange r × AllApart r rs × Separated rs

pub Covers-append_left : (xs ys : List Range) (i : ℤ) → Covers xs i → Covers (xs ++ ys) i
Covers-append_left [] ys i h = absurd h
Covers-append_left (x ∷ xs) ys i (inl h) = inl h
Covers-append_left (x ∷ xs) ys i (inr h) = inr (Covers-append_left xs ys i h)

pub Covers-append_right : (xs ys : List Range) (i : ℤ) → Covers ys i → Covers (xs ++ ys) i
Covers-append_right [] ys i h = h
Covers-append_right (x ∷ xs) ys i h = inr (Covers-append_right xs ys i h)

pub Covers-append : (xs ys : List Range) (i : ℤ) → Covers (xs ++ ys) i → Covers xs i ⊎ Covers ys i
Covers-append [] ys i h = inr h
Covers-append (x ∷ xs) ys i (inl h) = inl (inl h)
Covers-append (x ∷ xs) ys i (inr h) = elim (Covers-append xs ys i h) [
  | inl a ↦ inl (inr a)
  | inr b ↦ inr b
]

-- A range in the middle of a list, taken out.
pub Covers-middle :
    (xs : List Range) (r : Range) (ys : List Range) (i : ℤ)
    → Covers (xs ++ (r ∷ ys)) i ↔ (InRange r i ⊎ Covers (xs ++ ys) i)
Covers-middle [] r ys i = (λ h. h, λ h. h)
Covers-middle (x ∷ xs) r ys i =
    let ih = Covers-middle xs r ys i in
    (
      λ h. elim h [
        | inl a ↦ inr (inl a)
        | inr b ↦ elim (ih.0 b) [ inl c ↦ inl c | inr d ↦ inr (inr d) ]
      ],
      λ h. elim h [
        | inl a ↦ inr (ih.1 (inl a))
        | inr b ↦ elim b [ inl c ↦ inl c | inr d ↦ inr (ih.1 (inr d)) ]
      ],
    )

pub AllApart-append :
    (r : Range) (xs ys : List Range) → AllApart r xs → AllApart r ys → AllApart r (xs ++ ys)
AllApart-append r [] ys h k = k
AllApart-append r (x ∷ xs) ys h k = (h.0, AllApart-append r xs ys h.1 k)

pub AllApart-split :
    (r : Range) (xs ys : List Range) → AllApart r (xs ++ ys) → AllApart r xs × AllApart r ys
AllApart-split r [] ys h = (tt, h)
AllApart-split r (x ∷ xs) ys h = let (a, b) = AllApart-split r xs ys h.1 in ((h.0, a), b)

pub Apart-symm : (r q : Range) → Apart r q → Apart q r
Apart-symm r q (inl h) = inr h
Apart-symm r q (inr h) = inl h

-- A separated list with a range in the middle: the range is apart from all others.
pub Separated-remove :
    (xs : List Range) (r : Range) (ys : List Range)
    → Separated (xs ++ (r ∷ ys))
    → IsRange r × AllApart r (xs ++ ys) × Separated (xs ++ ys)
Separated-remove [] r ys h = (h.0, h.1, h.2)
Separated-remove (x ∷ xs) r ys h =
    let (v, a, s) = Separated-remove xs r ys h.2 in
    let (ax, axr) = AllApart-split x xs (r ∷ ys) h.1 in
    (v, (Apart-symm x r axr.0, a), (h.0, AllApart-append x xs ys ax axr.1, s))

pub Separated-insert :
    (xs : List Range) (r : Range) (ys : List Range)
    → IsRange r
    → AllApart r (xs ++ ys)
    → Separated (xs ++ ys)
    → Separated (xs ++ (r ∷ ys))
Separated-insert [] r ys v a s = (v, a, s)
Separated-insert (x ∷ xs) r ys v a s =
    let (ax, ay) = AllApart-split x xs ys s.1 in
    (
      s.0,
      AllApart-append x xs (r ∷ ys) ax (Apart-symm r x a.0, ay),
      Separated-insert xs r ys v a.1 s.2,
    )

pub AllRanges-remove :
    (xs : List Range) (r : Range) (ys : List Range)
    → AllRanges (xs ++ (r ∷ ys))
    → IsRange r × AllRanges (xs ++ ys)
AllRanges-remove [] r ys h = h
AllRanges-remove (x ∷ xs) r ys h = let (v, a) = AllRanges-remove xs r ys h.1 in (v, (h.0, a))

pub AllRanges-insert :
    (xs : List Range) (r : Range) (ys : List Range)
    → IsRange r
    → AllRanges (xs ++ ys)
    → AllRanges (xs ++ (r ∷ ys))
AllRanges-insert [] r ys v a = (v, a)
AllRanges-insert (x ∷ xs) r ys v a = (a.0, AllRanges-insert xs r ys v a.1)
