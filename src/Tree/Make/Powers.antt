-- ===== src/Tree/Make/Powers.antt =====
-- Powers of two: the test of Make that stops at one, and the numbers of the nodes.
use ppsp.Common.{
  ℕ, zero, suc, ◌+◌, ◌-◌, ◌*◌, ◌/◌, ◌%◌, ◌^◌, ◌≤◌, ◌<◌, ◌≡◌, refl, ◌⊎◌, inl, inr, true, arith, ap,
  sym, ◌∙◌, subst, ==_iff,
}
use ppsp.Tree.Send.{land}
use ppsp.Tree.Check.Climb.{halves}
use ppsp.Tree.Make.{single_bit, is_power}

parity : (a : ℕ) → (a % 2) * (a % 2) ≡ a % 2
parity a = elim (halves a) [ inl (h, r) ↦ rw r refl | inr (h, r) ↦ rw r refl ]

land_self : (w a : ℕ) → a < 2 ^ w → land w a a ≡ a
land_self zero a l = omega arith
land_self (suc w) a l =
    let h = land_self w (a / 2) (omega arith) in let p = parity a in omega (arith, h, p)

-- `x & (x - 1)` has no low bit; the others are those of the halves.
land_even : (w a : ℕ) → land (suc w) (suc (a + a + 1)) (a + a + 1) ≡ 2 * land w (suc a) a
land_even w a =
    let p : suc (a + a + 1) / 2 ≡ suc a = omega arith in
    let q : (a + a + 1) / 2 ≡ a = omega arith in
    let r : suc (a + a + 1) % 2 ≡ 0 = omega arith in rw (p, q, r) (omega arith)

land_odd : (w a : ℕ) → a < 2 ^ w → land (suc w) (suc (a + a)) (a + a) ≡ 2 * a
land_odd w a l =
    let p : suc (a + a) / 2 ≡ a = omega arith in
    let q : (a + a) / 2 ≡ a = omega arith in
    let r : (a + a) % 2 ≡ 0 = omega arith in rw (p, q, r, land_self w a l) (omega arith)

halved : (y : ℕ) → ((a : ℕ) × (y ≡ a + a)) ⊎ ((a : ℕ) × (y ≡ a + a + 1))
halved y = elim (halves y) [ inl (h, r) ↦ inl (y / 2, h) | inr (h, r) ↦ inr (y / 2, h) ]

-- The test holds at a power of two only, and at each.
land_pred : (w x : ℕ) → suc x < 2 ^ w → land w (suc x) x ≡ 0 → (d : ℕ) × (suc x ≡ 2 ^ d)
land_pred zero x l h = absurd (omega arith)
land_pred (suc w) x l h = elim (halved x) [
  | inl (a, e) ↦
      let z : 2 * a ≡ 0 =
        sym (land_odd w a (omega arith)) ∙ ap (λ y. land (suc w) (suc y) y) (sym e) ∙ h in
      (0, omega arith)
  | inr (a, e) ↦
      let t : 2 * land w (suc a) a ≡ 0 =
        sym (land_even w a) ∙ ap (λ y. land (suc w) (suc y) y) (sym e) ∙ h in
      let (d, p) = land_pred w a (omega arith) (omega arith) in (suc d, omega arith)
]

land_power : (w d x : ℕ) → suc x < 2 ^ w → suc x ≡ 2 ^ d → land w (suc x) x ≡ 0
land_power zero d x l e = absurd (omega arith)
land_power (suc w) zero x l e =
    let z : 0 ≡ x = omega arith in
    subst (λ y. land (suc w) (suc y) y ≡ 0) z (land_odd w 0 (omega arith))
land_power (suc w) (suc d) x l e = elim (halved x) [
  | inl (a, h) ↦ absurd (omega arith)
  | inr (a, h) ↦
      let half = land_power w d a (omega arith) (omega arith) in
      subst (λ y. land (suc w) (suc y) y ≡ 0) (sym h) (land_even w a ∙ omega (arith, half))
]

single_bit-pow : (w n : ℕ) → suc n < 2 ^ w → single_bit w (suc n) ≡ true → (d : ℕ) × (suc n ≡ 2 ^ d)
unfolding single_bit
single_bit-pow w n l h =
    let p : suc n - 1 ≡ n = omega arith in
    land_pred w n l
      (subst (λ x. land w (suc n) x ≡ 0) p ((==_iff (land w (suc n) (suc n - 1)) 0).0 h))

pow-single_bit : (w d n : ℕ) → suc n < 2 ^ w → suc n ≡ 2 ^ d → single_bit w (suc n) ≡ true
unfolding single_bit
pow-single_bit w d n l e =
    let p : n ≡ suc n - 1 = omega arith in
    (==_iff (land w (suc n) (suc n - 1)) 0).1
      (subst (λ x. land w (suc n) x ≡ 0) p (land_power w d n l e))

half_power : (n d : ℕ) → 0 < n → n + n ≡ 2 ^ d → (c : ℕ) × (n ≡ 2 ^ c)
half_power n zero p e = absurd (omega arith)
half_power n (suc d) p e = (d, omega arith)

pub is_power-pow : (n : ℕ) → 0 < n → n < 2 ^ 31 → is_power (n + n) ≡ true → (d : ℕ) × (n ≡ 2 ^ d)
unfolding is_power
is_power-pow n p l h =
    let e : n + n ≡ suc (n + n - 1) = omega arith in
    let (d, q) =
      single_bit-pow 32 (n + n - 1) (omega arith) (subst (λ x. single_bit 32 x ≡ true) e h) in
    half_power n d p (e ∙ q)

pub pow-is_power : (d n : ℕ) → n ≡ 2 ^ d → 0 < n → n < 2 ^ 31 → is_power (n + n) ≡ true
unfolding is_power
pow-is_power d n e p l =
    let h : suc (n + n - 1) ≡ n + n = omega arith in
    let g : n + n ≡ 2 ^ suc d = omega arith in
    subst (λ x. single_bit 32 x ≡ true) h
      (pow-single_bit 32 (suc d) (n + n - 1) (omega arith) (h ∙ g))

split : (a b : ℕ) → a ≤ b → (a < b) ⊎ (a ≡ b)
split a b h = omega arith

-- A number from 1 on lies at or below a power of two that is less than twice as large.
pub ceil_pow : (n : ℕ) → (d : ℕ) × (suc n ≤ 2 ^ d) × (2 ^ d < suc n + suc n)
ceil_pow zero = (0, omega arith, omega arith)
ceil_pow (suc n) =
    let (d, p, q) = ceil_pow n in
    elim (split (suc n) (2 ^ d) p) [
      | inl l ↦ (d, l, omega arith)
      | inr e ↦ (suc d, omega arith, omega arith)
    ]

pow_twice : (l x : ℕ) → 2 ^ suc l * x ≡ 2 * (2 ^ l * x)
pow_twice l x =
    let twice : 2 ^ suc l ≡ 2 ^ l + 2 ^ l = omega arith in ap (λ y. y * x) twice ∙ omega arith

-- A number is a power of two times an odd number in one way only.
pub odd_part : (l l' j j' : ℕ) → 2 ^ l * (j + j + 1) ≡ 2 ^ l' * (j' + j' + 1) → (l ≡ l') × (j ≡ j')
odd_part zero zero j j' h = (refl, omega arith)
odd_part zero (suc l') j j' h = let e = pow_twice l' (j' + j' + 1) in absurd (omega arith)
odd_part (suc l) zero j j' h = let e = pow_twice l (j + j + 1) in absurd (omega arith)
odd_part (suc l) (suc l') j j' h =
    let e = pow_twice l (j + j + 1) in
    let e' = pow_twice l' (j' + j' + 1) in
    let (p, q) = odd_part l l' j j' (omega arith) in (ap suc p, q)
