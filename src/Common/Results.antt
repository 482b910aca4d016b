-- ===== src/Common/Results.antt =====
-- A predicate on what a computation gives, where it gives a result.
use mathlib.Core.Path.{◌≡◌, ap, subst}
use mathlib.Core.Option.{Option, none, some}
use native.Mathlib.Omega.{arith}

unfoldable pub Gives {ℓ} : {A : Type ℓ} → (A → Type 0) → Option A → Type ℓ
Gives P o = (a : _) → o ≡ some a → P a

pub Gives-some {ℓ} : {A : Type ℓ} (P : A → Type 0) (a : A) → P a → Gives P (some a)
unfolding Gives
Gives-some P a p b e = subst P (ap (λ o. elim o [ none ↦ a | some x ↦ x ]) e) p

pub Gives-none {ℓ} : {A : Type ℓ} (P : A → Type 0) → Gives P none
unfolding Gives
Gives-none P b e = absurd (ground arith)

pub Gives-then :
    {A B : Type 0} (P : B → Type 0) (o : Option A) (f : A → Option B)
    → ((a : A) → Gives P (f a))
    → Gives P (elim o [ none ↦ none | some a ↦ f a ])
Gives-then P none f h = Gives-none P
Gives-then P (some a) f h = h a
