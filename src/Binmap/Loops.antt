-- ===== src/Binmap/Loops.antt =====
-- The two loops of SetHave, on any list of ranges and on a separated one.
use ppsp.Common.{◌+◌, ◌≤◌, ◌≡◌, refl, ap, ◌⊎◌, inl, inr, ◌↔◌, List, [], ◌∷◌, ◌++◌, arith}
use ppsp.Common.Int.{ℤ, pos, ◌≤ℤ◌, pos_part, neg_part, +ℤ_parts, -ℤ_parts}
use ppsp.Binmap.{
  Range, Overlap, inside, apart, grown, overlap, Found, held, missing, changed, find_changed,
  found_behind,
}
use ppsp.Binmap.Ranges.{Apart-symm, IsRange, Between, InRange, Covers, AllRanges, Apart, AllApart}

-- `a ≤ b + 1`
infix 50 ◌≲◌
abbrev pub ◌≲◌ : ℤ → ℤ → Type 0
a ≲ b = pos_part a + neg_part b ≤ pos_part b + neg_part a + 1

-- `r` runs from the lower start of two ranges to the higher end, and they meet or touch.
pub record IsHull (r a b : Range) : Type 0 where
  pub start_le : (r.start ≤ℤ a.start) × (r.start ≤ℤ b.start)
  pub start_ge : (a.start ≤ℤ r.start) ⊎ (b.start ≤ℤ r.start)
  pub end_ge : (a.end ≤ℤ r.end) × (b.end ≤ℤ r.end)
  pub end_le : (r.end ≤ℤ a.end) ⊎ (r.end ≤ℤ b.end)
  pub near : (b.start ≲ a.end) × (a.start ≲ b.end)

abbrev pub new_range : ℤ → ℤ → Range
new_range s e = record { start = s; end = e }

-- What one comparison of the first loop says.
abbrev pub Overlaps : Range → ℤ → ℤ → Overlap → Type 0
Overlaps it s e inside = (it.start ≤ℤ s) × (e ≤ℤ it.end)
Overlaps it s e apart = Apart it (new_range s e)
Overlaps it s e (grown r) = IsHull r it (new_range s e)

pub overlap-Overlaps :
    (it : Range) (s e : ℤ) → IsRange it → s ≤ℤ e → Overlaps it s e (overlap it s e)
unfolding overlap
overlap-Overlaps it s e v h = ground (arith, +ℤ_parts it.end (pos 1), -ℤ_parts it.start (pos 1))

pub IsHull-IsRange : (r a b : Range) → IsHull r a b → IsRange a → IsRange r
IsHull-IsRange r a b h v = omega arith

pub IsHull-InRange :
    (r a b : Range) (i : ℤ)
    → IsHull r a b
    → IsRange a
    → IsRange b
    → InRange r i ↔ (InRange a i ⊎ InRange b i)
IsHull-InRange r a b i h va vb = (λ k. omega arith, λ k. omega arith)

-- What lies apart from both lies apart from the hull.
pub IsHull-Apart :
    (r a b o : Range)
    → IsHull r a b
    → IsRange a
    → IsRange b
    → IsRange o
    → Apart o a
    → Apart o b
    → Apart o r
IsHull-Apart r a b o h va vb vo ha hb = omega arith

-- How the first loop ends.
abbrev pub Finds : List Range → ℤ → ℤ → Found → Type 0
Finds l s e held = ((i : ℤ) → Between s e i → Covers l i)
Finds l s e missing = AllApart (new_range s e) l
Finds l s e (changed before r after) =
    (it : Range) × (l ≡ before ++ (it ∷ after)) × IsRange it × IsHull r it (new_range s e)

found_behind-Finds :
    (it : Range) (l : List Range) (s e : ℤ) (f : Found)
    → Apart it (new_range s e)
    → Finds l s e f
    → Finds (it ∷ l) s e (found_behind it f)
found_behind-Finds it l s e held a h = λ i k. inr (h i k)
found_behind-Finds it l s e missing a h = (Apart-symm it (new_range s e) a, h)
found_behind-Finds it l s e (changed before r after) a (q, split, v, hull) =
    (q, ap (◌∷◌ it) split, v, hull)

inside-Covers :
    (it : Range) (l : List Range) (s e : ℤ)
    → (it.start ≤ℤ s) × (e ≤ℤ it.end)
    → (i : ℤ) → Between s e i
    → Covers (it ∷ l) i
inside-Covers it l s e h i k = inl (omega arith)

find_step :
    (it : Range) (l : List Range) (s e : ℤ) (o : Overlap)
    → overlap it s e ≡ o
    → Overlaps it s e o
    → IsRange it
    → Finds l s e (find_changed l s e)
    → Finds (it ∷ l) s e (find_changed (it ∷ l) s e)
unfolding find_changed
find_step it l s e inside q k v ih = rw (q, find_changed) (inside-Covers it l s e k)
find_step it l s e apart q k v ih =
    rw (q, find_changed) (found_behind-Finds it l s e (find_changed l s e) k ih)
find_step it l s e (grown r) q k v ih = rw (q, find_changed) (it, refl, v, k)

-- The first loop returns only if the new range is there, breaks at a range that it makes the hull
-- of that range and the new one, and passes all ranges only if the new one is apart from them.
pub find_changed-Finds :
    (l : List Range) (s e : ℤ) → AllRanges l → s ≤ℤ e → Finds l s e (find_changed l s e)
unfolding find_changed
find_changed-Finds [] s e v h = tt
find_changed-Finds (it ∷ l) s e v h =
    find_step it l s e (overlap it s e) refl (overlap-Overlaps it s e v.0 h) v.0
      (find_changed-Finds l s e v.1 h)
