-- ===== src/Tree/Make/Padding.antt =====
-- Make fills the leaves up to a power of two.
use ppsp.Common.{
  ℕ, zero, suc, ◌+◌, ◌^◌, ◌≤◌, ◌<◌, ◌≡◌, ◌≢◌, refl, inl, inr, true, false, none, some, arith, ap,
  sym, ◌∙◌, subst, Bool-cases,
}
use ppsp.Tree.Sha.{Hasher, Hash}
use ppsp.Tree.Make.{Leaves, pad_leaves, is_power}
use ppsp.Tree.Make.Powers.{is_power-pow, pow-is_power}
use ppsp.Tree.Make.Adding.{IsLeaves, next_leaf-IsLeaves}

true-false : true ≡ false → ⊥
true-false h = ground arith

-- The test for a power of two, and one more leaf without a hash while it fails.
module _ (sha : Hasher) (mhf : ℕ) (leaf : ℕ → Hash) where
  unfoldable pub PaddedFrom : ℕ → Leaves → ℕ → Type 0
  PaddedFrom fuel m n =
      (d : ℕ) × (m' : Leaves) × (pad_leaves fuel m ≡ some m')
      × (n ≤ 2 ^ d)
      × (2 ^ d < 2 ^ 31)
      × IsLeaves sha mhf leaf (2 ^ d) m'

  pub pad-IsLeaves :
      (fuel n e : ℕ) (m : Leaves)
      → 0 < n
      → n ≤ 2 ^ e
      → 2 ^ e < n + fuel
      → 2 ^ e < 2 ^ 31
      → ((j : ℕ) → n ≤ j → leaf j ≡ none)
      → IsLeaves sha mhf leaf n m
      → PaddedFrom fuel m n
  unfolding PaddedFrom pad_leaves
  pad-IsLeaves zero n e m p l f b behind k = absurd (omega arith)
  pad-IsLeaves (suc fuel) n e m p l f b behind k = elim (Bool-cases (is_power m.idx)) [
    | inl t ↦
        let t' = subst (λ x. is_power x ≡ true) k.next_idx t in
        let (d, q) = is_power-pow n p (omega arith) t' in
        (
          d,
          m,
          rw (pad_leaves, t) refl,
          omega arith,
          omega arith,
          subst (λ x. IsLeaves sha mhf leaf x m) q k,
        )
    | inr t ↦
        let not_yet : n ≢ 2 ^ e = λ q.
          (let t' = pow-is_power e n q p (omega arith) in
            absurd (true-false (sym t' ∙ ap is_power (sym k.next_idx) ∙ t))) in
        let k' =
          next_leaf-IsLeaves sha mhf leaf n none m.ret true m (sym (behind n (omega arith))) k in
        let (d, m', r, q, s, v) =
          pad-IsLeaves fuel (suc n) e _ (omega arith) (omega arith) (omega arith) b
            (λ j g. behind j (omega arith)) k' in
        (d, m', rw (pad_leaves, t) r, omega arith, s, v)
  ]
