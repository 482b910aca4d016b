-- ===== src/Binmap/Requests/Keeps.antt =====
-- What leaves the file and the ranges of a map as they are.
use ppsp.Common.{◌≡◌, refl, inl, inr, Bool-cases, ◌∙◌, subst, sym}
use ppsp.Common.Int.{ℤ, pos, ltb_ℤ}
use ppsp.Binmap.{Binmap}
use ppsp.Binmap.Requests.{is_requested, set_requested, release_requested, get_request_data}
use ppsp.Binmap.Requests.Picks.{get_request_data_cases}

pub record IsKept (b b' : Binmap) : Type 0 where
  pub disk : b'.disk ≡ b.disk
  pub ranges : b'.chunk_range_list ≡ b.chunk_range_list

pub IsKept-refl : (b : Binmap) → IsKept b b
IsKept-refl b = record { disk = refl; ranges = refl }

pub IsKept-trans : {a b c : Binmap} → IsKept a b → IsKept b c → IsKept a c
IsKept-trans p q = record { disk = q.disk ∙ p.disk; ranges = q.ranges ∙ p.ranges }

set_requested-IsKept : (b : Binmap) (i : ℤ) → IsKept b (set_requested b i).0
unfolding set_requested
set_requested-IsKept b i = elim (Bool-cases (is_requested b.requested i)) [
  | inl e ↦ rw e (IsKept-refl b)
  | inr e ↦ rw e (record { disk = refl; ranges = refl })
]

pub release_requested-IsKept : (b : Binmap) (i : ℤ) → IsKept b (release_requested b i)
unfolding release_requested
release_requested-IsKept b i = elim (Bool-cases (ltb_ℤ i (pos 0))) [
  | inl e ↦ rw e (IsKept-refl b)
  | inr e ↦ rw e (record { disk = refl; ranges = refl })
]

pub get_request_data-IsKept : (b peer : Binmap) → IsKept b (get_request_data b peer).0
get_request_data-IsKept b peer = elim (get_request_data_cases b peer) [
  | inl (e, n) ↦ subst (λ (x : Binmap × ℤ). IsKept b x.0) (sym e) (IsKept-refl b)
  | inr (i, e, r, p) ↦ subst (λ (x : Binmap × ℤ). IsKept b x.0) (sym e) (set_requested-IsKept b i)
]
