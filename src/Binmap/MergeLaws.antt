-- ===== src/Binmap/MergeLaws.antt =====
-- The second loop of SetHave: what a merge covers, and that a single new chunk closes every gap.
use ppsp.Common.{
  ◌≡◌, ◌⊎◌, inl, inr, ◌↔◌, List, [], ◌∷◌, arith, Option, none, some, true, false, Bool-cases,
}
use ppsp.Common.Int.{ℤ, pos, ◌≤ℤ◌, +ℤ_parts, -ℤ_parts}
use ppsp.Binmap.{Range, merge, merge_first, cp_merged}
use ppsp.Binmap.Ranges.{Apart-symm, IsRange, InRange, Covers, AllRanges, Apart, AllApart, Separated}
use ppsp.Binmap.Loops.{IsHull, new_range, IsHull-IsRange, IsHull-InRange, IsHull-Apart}

-- A merge makes up no chunk, on any two ranges.
merge_sound :
    (change it : Range) (cp i : ℤ)
    → IsRange change
    → IsRange it
    → IsRange (merge change it cp).it
      × (InRange (merge change it cp).it i → InRange it i ⊎ InRange change i)
unfolding merge
merge_sound change it cp i vc vi = (
  ground (arith, +ℤ_parts it.end (pos 1), -ℤ_parts it.start (pos 1)),
  λ h. ground (arith, +ℤ_parts it.end (pos 1), -ℤ_parts it.start (pos 1)),
)

-- A range `r` that a single chunk `c` made grow to `change`: any range that was apart from `r` is
-- taken in whole, or is apart from the changed range.
merge_set :
    (change r it : Range) (c cp : ℤ)
    → IsHull change r (new_range c c)
    → IsRange r
    → IsRange it
    → Apart r it
    → (merge change it cp).set ≡ true
    → IsHull (merge change it cp).it it change
unfolding merge
merge_set change r it c cp h vr vi a e =
    ground (arith, +ℤ_parts it.end (pos 1), -ℤ_parts it.start (pos 1), h)

merge_unset :
    (change r it : Range) (c cp : ℤ)
    → IsHull change r (new_range c c)
    → IsRange r
    → IsRange it
    → Apart r it
    → (merge change it cp).set ≡ false
    → Apart change it
unfolding merge
merge_unset change r it c cp h vr vi a e =
    ground (arith, +ℤ_parts it.end (pos 1), -ℤ_parts it.start (pos 1), h)

merge_cp :
    (change r it : Range) (c cp : ℤ)
    → IsHull change r (new_range c c)
    → IsRange r
    → IsRange it
    → Apart r it
    → (merge change it cp).set ≡ true
    → (merge change it cp).cp ≡ cp_merged (merge change it cp).it cp
unfolding merge
merge_cp change r it c cp h vr vi a e =
    ground (arith, +ℤ_parts it.end (pos 1), -ℤ_parts it.start (pos 1), h)

pub merge_self : (change : Range) (cp : ℤ) → IsRange change → (merge change change cp).set ≡ false
unfolding merge
merge_self change cp v = ground (arith, +ℤ_parts change.end (pos 1), -ℤ_parts change.start (pos 1))

-- The second loop over any list, for a changed range of any origin.
abbrev pub Sound : Range → List Range → Option (List Range × ℤ) → Type 0
Sound change l none = Unit {0}
Sound change l (some (l', cp')) =
    AllRanges l' × ((i : ℤ) → Covers l' i → Covers l i ⊎ InRange change i)

pub merge_first-Sound :
    (change : Range) (l : List Range) (cp : ℤ)
    → IsRange change
    → AllRanges l
    → Sound change l (merge_first change l cp)
unfolding merge_first
merge_first-Sound change [] cp vc v = tt
merge_first-Sound change (it ∷ rest) cp vc v = elim (Bool-cases (merge change it cp).set) [
  | inl e ↦ rw e (
    ((merge_sound change it cp cp vc v.0).0, v.1),
    λ i h. elim h [
      | inl a ↦ elim ((merge_sound change it cp i vc v.0).1 a) [
        | inl p ↦ inl (inl p)
        | inr q ↦ inr q
      ]
      | inr b ↦ inl (inr b)
    ],
  )
  | inr e ↦ rw e (later (merge_first change rest cp) (merge_first-Sound change rest cp vc v.1))
]
  where
    later :
        (m : Option (List Range × ℤ))
        → Sound change rest m
        → Sound change
            (it ∷ rest)
            (elim m [ none ↦ none | some (rest', cp') ↦ some (it ∷ rest', cp') ])
    later none s = tt
    later (some (rest', cp')) s = (
      (v.0, s.0),
      λ i h. elim h [
        | inl a ↦ inl (inl a)
        | inr b ↦ elim (s.1 i b) [ inl p ↦ inl (inr p) | inr q ↦ inr q ]
      ],
    )

-- The second loop over a separated list, with a range that one chunk made grow.
pub record Merged (change : Range) (l : List Range) (cp : ℤ) (l' : List Range) (cp' : ℤ)
    : Type 0 where
  pub separated : Separated l'
  pub old : (i : ℤ) → Covers l i → Covers l' i
  pub added : (i : ℤ) → InRange change i → Covers l' i
  pub only : (i : ℤ) → Covers l' i → Covers l i ⊎ InRange change i
  pub still_apart : (o : Range) → IsRange o → AllApart o l → Apart o change → AllApart o l'
  pub cp_covered : (i : ℤ) → pos 0 ≤ℤ i → i ≤ℤ cp' → (i ≤ℤ cp) ⊎ Covers l' i

abbrev pub Merges : Range → List Range → ℤ → Option (List Range × ℤ) → Type 0
Merges change l cp none = AllApart change l
Merges change l cp (some (l', cp')) = Merged change l cp l' cp'

-- What is apart from `r` and from `it` lies apart from the hull of all.
hull-Apart :
    (change r it q : Range) (c : ℤ) (l : List Range)
    → IsHull change r (new_range c c)
    → IsHull q it change
    → IsRange r
    → IsRange it
    → Separated l
    → AllApart r l
    → AllApart it l
    → Apart r it
    → AllApart q l
hull-Apart change r it q c [] h k vr vi s pr pi a = tt
hull-Apart change r it q c (o ∷ l) h k vr vi s pr pi a =
    (omega arith, hull-Apart change r it q c l h k vr vi s.2 pr.1 pi.1 a)

pub cp_merged_covers :
    (q : Range) (cp i : ℤ) → pos 0 ≤ℤ i → i ≤ℤ cp_merged q cp → (i ≤ℤ cp) ⊎ InRange q i
cp_merged_covers q cp i p k = ground arith

merge_here :
    (change r it : Range) (c cp : ℤ) (rest : List Range)
    → IsHull change r (new_range c c)
    → IsRange r
    → Separated (it ∷ rest)
    → AllApart r (it ∷ rest)
    → (merge change it cp).set ≡ true
    → Merged change (it ∷ rest) cp ((merge change it cp).it ∷ rest) (merge change it cp).cp
merge_here change r it c cp rest h vr s a e = record {
  separated = (
    IsHull-IsRange q it change hull s.0,
    hull-Apart change r it q c rest h hull vr s.0 s.2 a.1 s.1 a.0,
    s.2,
  );
  old = λ i k. elim k [ inl x ↦ inl ((parts i).1 (inl x)) | inr x ↦ inr x ];
  added = λ i k. inl ((parts i).1 (inr k));
  only = λ i k. elim k [
    | inl x ↦ elim ((parts i).0 x) [ inl y ↦ inl (inl y) | inr y ↦ inr y ]
    | inr x ↦ inl (inr x)
  ];
  still_apart = λ o vo k j. (IsHull-Apart q it change o hull s.0 vc vo k.0 j, k.1);
  cp_covered = λ i p k. cp_here i p (rw (merge_cp change r it c cp h vr s.0 a.0 e) at k);
}
  where
    q : Range
    q = (merge change it cp).it

    hull : IsHull q it change
    hull = merge_set change r it c cp h vr s.0 a.0 e

    vc : IsRange change
    vc = IsHull-IsRange change r (new_range c c) h vr

    parts : (i : ℤ) → InRange q i ↔ (InRange it i ⊎ InRange change i)
    parts i = IsHull-InRange q it change i hull s.0 vc

    cp_here : (i : ℤ) → pos 0 ≤ℤ i → i ≤ℤ cp_merged q cp → (i ≤ℤ cp) ⊎ Covers (q ∷ rest) i
    cp_here i p k = elim (cp_merged_covers q cp i p k) [ inl x ↦ inl x | inr x ↦ inr (inl x) ]

merge_behind :
    (change it : Range) (cp : ℤ) (rest rest' : List Range) (cp' : ℤ)
    → IsRange it
    → AllApart it rest
    → Apart change it
    → Merged change rest cp rest' cp'
    → Merged change (it ∷ rest) cp (it ∷ rest') cp'
merge_behind change it cp rest rest' cp' v a k m = record {
  separated = (v, m.still_apart it v a (Apart-symm change it k), m.separated);
  old = λ i h. elim h [ inl x ↦ inl x | inr x ↦ inr (m.old i x) ];
  added = λ i h. inr (m.added i h);
  only = λ i h. elim h [
    | inl x ↦ inl (inl x)
    | inr x ↦ elim (m.only i x) [ inl y ↦ inl (inr y) | inr y ↦ inr y ]
  ];
  still_apart = λ o vo h j. (h.0, m.still_apart o vo h.1 j);
  cp_covered = λ i p h. elim (m.cp_covered i p h) [ inl x ↦ inl x | inr x ↦ inr (inr x) ];
}

pub merge_first-Merges :
    (change r : Range) (c cp : ℤ) (l : List Range)
    → IsHull change r (new_range c c)
    → IsRange r
    → Separated l
    → AllApart r l
    → Merges change l cp (merge_first change l cp)
unfolding merge_first
merge_first-Merges change r c cp [] h vr s a = tt
merge_first-Merges change r c cp (it ∷ rest) h vr s a = elim (Bool-cases (merge change it cp).set) [
  | inl e ↦ rw e (merge_here change r it c cp rest h vr s a e)
  | inr e ↦ rw e (
      later (merge_unset change r it c cp h vr s.0 a.0 e) (merge_first change rest cp)
        (merge_first-Merges change r c cp rest h vr s.2 a.1))
]
  where
    later :
        Apart change it
        → (m : Option (List Range × ℤ)) → Merges change rest cp m
        → Merges change
            (it ∷ rest)
            cp
            (elim m [ none ↦ none | some (rest', cp') ↦ some (it ∷ rest', cp') ])
    later k none n = (k, n)
    later k (some (rest', cp')) n = merge_behind change it cp rest rest' cp' s.0 s.1 k n
