-- ===== src/Binmap/Swallow.antt =====
-- What SetHave loses: a range that swallows two others.
use ppsp.Common.{◌≡◌, inl, inr, [], ◌∷◌, arith, true, false}
use ppsp.Common.Int.{ℤ, pos, ◌≤ℤ◌, ◌<ℤ◌, +ℤ_parts, -ℤ_parts}
use ppsp.Binmap.{
  Range, Binmap, grown, find_changed, overlap, merge, merge_all, merge_more, cp_changed, set_have,
}
use ppsp.Binmap.Ranges.{Covers, ◌≪◌}
use ppsp.Binmap.Loops.{new_range}

swallow_overlap :
    (p : Range) (s e : ℤ) → s <ℤ p.start → p.end <ℤ e → overlap p s e ≡ grown (new_range s e)
unfolding overlap
swallow_overlap p s e h k = ground (arith, +ℤ_parts p.end (pos 1), -ℤ_parts p.start (pos 1))

swallow_merge :
    (q : Range) (s e cp : ℤ)
    → s <ℤ q.start
    → q.start ≤ℤ q.end
    → q.end <ℤ e
    → ((merge (new_range s e) q cp).it ≡ new_range q.start e)
      × ((merge (new_range s e) q cp).set ≡ true)
unfolding merge
swallow_merge q s e cp h v k = (
  ground (arith, +ℤ_parts q.end (pos 1), -ℤ_parts q.start (pos 1)),
  ground (arith, +ℤ_parts q.end (pos 1), -ℤ_parts q.start (pos 1)),
)

swallow_self : (s e cp : ℤ) → s ≤ℤ e → (merge (new_range s e) (new_range s e) cp).set ≡ false
unfolding merge
swallow_self s e cp h = ground (arith, +ℤ_parts e (pos 1), -ℤ_parts s (pos 1))

swallow_all :
    (q : Range) (s e cp : ℤ)
    → s <ℤ q.start
    → q.start ≤ℤ q.end
    → q.end <ℤ e
    → (merge_more [] (new_range s e) (q ∷ []) cp).0 ≡ new_range q.start e ∷ []
unfolding merge_all
swallow_all q s e cp h v k =
    ground (arith, swallow_merge q s e cp h v k, swallow_self s e cp (omega arith))

set_have_swallow :
    (b : Binmap) (p q : Range) (s e : ℤ)
    → b.chunk_range_list ≡ p ∷ q ∷ []
    → s <ℤ p.start
    → p.start ≤ℤ p.end
    → p.end ≪ q.start
    → q.start ≤ℤ q.end
    → q.end <ℤ e
    → (set_have b s e).chunk_range_list ≡ new_range q.start e ∷ []
unfolding set_have find_changed
set_have_swallow b p q s e h h1 h2 h3 h4 h5 = ground (
  arith,
  swallow_overlap p s e h1 (omega arith),
  swallow_all q s e (cp_changed (new_range s e) b.cp) (omega arith) h4 h5,
)

-- In a map of two ranges that do not touch and lie inside a new range, with chunks of the new range
-- before the first and behind the second, adding the new range leaves none of the chunks before the
-- second range in the map.
pub set_have-loses :
    (b : Binmap) (p q : Range) (s e : ℤ)
    → b.chunk_range_list ≡ p ∷ q ∷ []
    → s <ℤ p.start
    → p.start ≤ℤ p.end
    → p.end ≪ q.start
    → q.start ≤ℤ q.end
    → q.end <ℤ e
    → (i : ℤ) → i <ℤ q.start
    → ¬ Covers (set_have b s e).chunk_range_list i
set_have-loses b p q s e h h1 h2 h3 h4 h5 i k =
    rw (set_have_swallow b p q s e h h1 h2 h3 h4 h5)
      (λ c. elim c [ inl x ↦ absurd (omega arith) | inr x ↦ x ])
