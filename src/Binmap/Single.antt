-- ===== src/Binmap/Single.antt =====
-- A single chunk added to a separated list: the result of the two loops of SetHave together.
use ppsp.Common.{
  ◌≡◌, refl, sym, subst, ◌⊎◌, inl, inr, ◌↔◌, List, [], ◌∷◌, ◌++◌, arith, Option, none, some,
  Bool-cases,
}
use ppsp.Common.Int.{ℤ, pos, ◌≤ℤ◌}
use ppsp.Binmap.{Range, merge, merge_first, merge_all, merge_more, cp_changed}
use ppsp.Binmap.Ranges.{
  IsRange, Between, InRange, Covers, AllApart, Separated, Covers-middle, Separated-remove,
  Separated-insert,
}
use ppsp.Binmap.Loops.{IsHull, new_range, IsHull-IsRange, IsHull-InRange}
use ppsp.Binmap.MergeLaws.{Merged, Merges, merge_self}

-- The second loop over the list without the changed range says what the loop over all of it does.
abbrev pub or_keep : List Range → Range → List Range → ℤ → Option (List Range × ℤ) → List Range × ℤ
or_keep before change after cp none = (before ++ (change ∷ after), cp)
or_keep before change after cp (some p) = p

abbrev split_result :
    List Range
    → List Range
    → Option (List Range × ℤ)
    → Option (List Range × ℤ)
    → Option (List Range × ℤ)
split_result xs ys (some (xs', cp)) later = some (xs' ++ ys, cp)
split_result xs ys none none = none
split_result xs ys none (some (ys', cp)) = some (xs ++ ys', cp)

merge_first-append :
    (change : Range) (xs ys : List Range) (cp : ℤ)
    → merge_first change (xs ++ ys) cp
      ≡ split_result xs ys (merge_first change xs cp) (merge_first change ys cp)
unfolding merge_first
merge_first-append change [] ys cp = go (merge_first change ys cp)
  where
    go : (m : Option (List Range × ℤ)) → m ≡ split_result [] ys none m
    go none = refl
    go (some p) = refl
merge_first-append change (it ∷ xs) ys cp = elim (Bool-cases (merge change it cp).set) [
  | inl e ↦ rw e
  | inr e ↦
      rw (e, merge_first-append change xs ys cp)
        (go (merge_first change xs cp) (merge_first change ys cp))
]
  where
    go :
        (m n : Option (List Range × ℤ))
        → (elim (split_result xs ys m n) [ none ↦ none | some (l, cp') ↦ some (it ∷ l, cp') ])
          ≡ split_result
              (it ∷ xs)
              ys
              (elim m [ none ↦ none | some (l, cp') ↦ some (it ∷ l, cp') ])
              n
    go none none = refl
    go none (some q) = refl
    go (some p) n = refl

merge_all-or_keep :
    (before : List Range) (change : Range) (after : List Range) (cp : ℤ)
    → IsRange change
    → merge_all before change after cp
      ≡ or_keep before change after cp (merge_first change (before ++ after) cp)
unfolding merge_all
merge_all-or_keep before change after cp v =
    rw (merge_first-append change before after cp) (ground (arith, merge_self change cp v))

pub merge_more-or_keep :
    (before : List Range) (change : Range) (after : List Range) (cp : ℤ)
    → IsRange change
    → merge_more before change after cp
      ≡ or_keep before change after cp (merge_first change (before ++ after) cp)
merge_more-or_keep [] change [] cp v = unfold merge_first in refl
merge_more-or_keep [] change (x ∷ xs) cp v = merge_all-or_keep [] change (x ∷ xs) cp v
merge_more-or_keep (b ∷ bs) change after cp v = merge_all-or_keep (b ∷ bs) change after cp v

Sum-swap : {A B : Type 0} → A ⊎ B → B ⊎ A
Sum-swap (inl a) = inr a
Sum-swap (inr b) = inl b

-- `l'` is `l` with chunk `c` added.
pub record Adds (l : List Range) (cp : ℤ) (c : ℤ) (l' : List Range) (cp' : ℤ) : Type 0 where
  pub separated : Separated l'
  pub covers : (i : ℤ) → Covers l' i ↔ (Covers l i ⊎ Between c c i)
  pub cp_covered : (i : ℤ) → pos 0 ≤ℤ i → i ≤ℤ cp' → (i ≤ℤ cp) ⊎ Covers l' i

cp_changed_covers :
    (r : Range) (cp i : ℤ) → pos 0 ≤ℤ i → i ≤ℤ cp_changed r cp → (i ≤ℤ cp) ⊎ InRange r i
cp_changed_covers r cp i p k = ground arith

-- The first loop changed `it` to `r`, which takes in the chunk.
module _ {l : List Range} (before after : List Range) {it r : Range} {c : ℤ} (cp : ℤ)
    (split : l ≡ before ++ (it ∷ after)) (s : Separated (before ++ (it ∷ after)))
    (hull : IsHull r it (new_range c c)) where
  others : Separated (before ++ after)
  others = (Separated-remove before it after s).2

  parts : (i : ℤ) → InRange r i ↔ (InRange it i ⊎ Between c c i)
  parts i =
      IsHull-InRange r it (new_range c c) i hull (Separated-remove before it after s).0
        (omega arith)

  out : (i : ℤ) → Covers l i → InRange it i ⊎ Covers (before ++ after) i
  out i k = (Covers-middle before it after i).0 (subst (λ x. Covers x i) split k)

  back : (i : ℤ) → InRange it i ⊎ Covers (before ++ after) i → Covers l i
  back i k = subst (λ x. Covers x i) (sym split) ((Covers-middle before it after i).1 k)

  -- The changed range and the others cover what was there, and the chunk.
  regroup : (i : ℤ) → (Covers (before ++ after) i ⊎ InRange r i) ↔ (Covers l i ⊎ Between c c i)
  regroup i = (
    λ k. elim k [
      | inl x ↦ inl (back i (inr x))
      | inr x ↦ elim ((parts i).0 x) [ inl y ↦ inl (back i (inl y)) | inr y ↦ inr y ]
    ],
    λ k. elim k [
      | inl x ↦ elim (out i x) [ inl y ↦ inr ((parts i).1 (inl y)) | inr y ↦ inl y ]
      | inr x ↦ inr ((parts i).1 (inr x))
    ],
  )

  -- No other range touches the changed one.
  keep_changed :
      AllApart r (before ++ after) → Adds l cp c (before ++ (r ∷ after)) (cp_changed r cp)
  keep_changed a = record {
    separated =
        Separated-insert before r after
          (IsHull-IsRange r it (new_range c c) hull (Separated-remove before it after s).0) a
          others;
    covers = λ i. (
      λ k. (regroup i).0 (Sum-swap ((Covers-middle before r after i).0 k)),
      λ k. (Covers-middle before r after i).1 (Sum-swap ((regroup i).1 k)),
    );
    cp_covered = λ i p k. elim (cp_changed_covers r cp i p k) [
      | inl x ↦ inl x
      | inr x ↦ inr ((Covers-middle before r after i).1 (inl x))
    ];
  }

  -- One of them is merged with it.
  keep-Merged :
      (l' : List Range) (cp' : ℤ)
      → Merged r (before ++ after) (cp_changed r cp) l' cp'
      → Adds l cp c l' cp'
  keep-Merged l' cp' m = record {
    separated = m.separated;
    covers = λ i. (
      λ k. (regroup i).0 (m.only i k),
      λ k. elim ((regroup i).1 k) [ inl x ↦ m.old i x | inr x ↦ m.added i x ],
    );
    cp_covered = λ i p k. elim (m.cp_covered i p k) [
      | inl x ↦ elim (cp_changed_covers r cp i p x) [ inl y ↦ inl y | inr y ↦ inr (m.added i y) ]
      | inr x ↦ inr x
    ];
  }

  pub or_keep-Adds :
      (m : Option (List Range × ℤ))
      → Merges r (before ++ after) (cp_changed r cp) m
      → Adds l cp c
          (or_keep before r after (cp_changed r cp) m).0
          (or_keep before r after (cp_changed r cp) m).1
  or_keep-Adds none a = keep_changed a
  or_keep-Adds (some (l', cp')) m = keep-Merged l' cp' m
