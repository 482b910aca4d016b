-- ===== src/Binmap/Finish/Biggest.antt =====
-- What GetBiggestHavedChunkRange gives.
use ppsp.Common.{
  ◌≡◌, refl, sym, subst, ◌⊎◌, inl, inr, true, false, List, [], ◌∷◌, arith, Bool-cases,
}
use ppsp.Common.Int.{ℤ, pos, negsuc, ◌≤ℤ◌, ◌<ℤ◌, ◌+ℤ◌, ◌-ℤ◌, +ℤ_parts, -ℤ_parts, ltb_ℤ}
use ppsp.Binmap.{Range, Binmap}
use ppsp.Binmap.Ranges.{AllRanges}
use ppsp.Binmap.Finish.{biggest, get_biggest_haved_chunk_range}

-- How many chunks a range has.
abbrev pub size : Range → ℤ
size r = r.end -ℤ r.start +ℤ pos 1

abbrev pub IsOneOf : Range → List Range → Type 0
IsOneOf r [] = ⊥
IsOneOf r (x ∷ l) = (r ≡ x) ⊎ IsOneOf r l

abbrev pub AllAtMost : ℤ → List Range → Type 0
AllAtMost n [] = Unit {0}
AllAtMost n (x ∷ l) = (size x ≤ℤ n) × AllAtMost n l

abbrev Best : List Range → ℤ → Range → Range → Type 0
Best l gap r found =
    ((found ≡ r) × AllAtMost gap l)
    ⊎ (IsOneOf found l × AllAtMost (size found) l × (gap <ℤ size found))

biggest_step :
    (x : Range) (l : List Range) (gap : ℤ) (r found : Range)
    → gap <ℤ size x
    → Best l (size x) x found
    → Best (x ∷ l) gap r found
biggest_step x l gap r found h (inl (e, a)) =
    subst (λ y. Best (x ∷ l) gap r y) (sym e) (inr (inl refl, (omega arith, a), h))
biggest_step x l gap r found h (inr (m, a, k)) = inr (inr m, (omega arith, a), omega arith)

same_step :
    (x : Range) (l : List Range) (gap : ℤ) (r found : Range)
    → size x ≤ℤ gap
    → Best l gap r found
    → Best (x ∷ l) gap r found
same_step x l gap r found h (inl (e, a)) = inl (e, (h, a))
same_step x l gap r found h (inr (m, a, k)) = inr (inr m, (omega arith, a), k)

biggest_more :
    (x : Range) (l : List Range) (gap : ℤ) (r : Range)
    → ltb_ℤ gap (size x) ≡ true
    → biggest (x ∷ l) gap r ≡ biggest l (size x) x
unfolding biggest
biggest_more x l gap r e = rw e refl

biggest_same :
    (x : Range) (l : List Range) (gap : ℤ) (r : Range)
    → ltb_ℤ gap (size x) ≡ false
    → biggest (x ∷ l) gap r ≡ biggest l gap r
unfolding biggest
biggest_same x l gap r e = rw e refl

biggest-Best : (l : List Range) (gap : ℤ) (r : Range) → Best l gap r (biggest l gap r)
unfolding biggest
biggest-Best [] gap r = inl (refl, tt)
biggest-Best (x ∷ l) gap r = elim (Bool-cases (ltb_ℤ gap (size x))) [
  | inl e ↦
      subst (Best (x ∷ l) gap r) (sym (biggest_more x l gap r e))
        (biggest_step x l gap r (biggest l (size x) x) (ground arith) (biggest-Best l (size x) x))
  | inr e ↦
      subst (Best (x ∷ l) gap r) (sym (biggest_same x l gap r e))
        (same_step x l gap r (biggest l gap r) (ground arith) (biggest-Best l gap r))
]

abbrev pub unset : Range
unset = record { start = negsuc 0; end = negsuc 0 }

none_small : (l : List Range) → AllRanges l → AllAtMost (pos 0) l → l ≡ []
none_small [] v a = refl
none_small (x ∷ l) v a =
    absurd (omega (arith, +ℤ_parts (x.end -ℤ x.start) (pos 1), -ℤ_parts x.end x.start, v.0, a.0))

-- Of ranges that are not empty, GetBiggestHavedChunkRange returns one that no other is longer than;
-- from -1 to -1 if there is none.
pub get_biggest_haved_chunk_range_cases :
    (b : Binmap)
    → AllRanges b.chunk_range_list
    → let r = get_biggest_haved_chunk_range b in
      ((b.chunk_range_list ≡ []) × (r ≡ unset))
      ⊎ (IsOneOf r b.chunk_range_list × AllAtMost (size r) b.chunk_range_list)
unfolding get_biggest_haved_chunk_range
get_biggest_haved_chunk_range_cases b v = elim (biggest-Best b.chunk_range_list (pos 0) unset) [
  | inl (e, a) ↦ inl (none_small b.chunk_range_list v a, e)
  | inr (m, a, k) ↦ inr (m, a)
]
