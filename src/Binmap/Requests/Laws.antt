-- ===== src/Binmap/Requests/Laws.antt =====
-- What GetRequestData picks, and when it picks nothing.
use ppsp.Common.{
  ℕ, zero, suc, ◌≡◌, ◌≢◌, refl, ◌⊎◌, inl, inr, ◌↔◌, Bool, true, false, Option, none, some, List, [],
  ◌∷◌, arith, Bool-cases,
}
use ppsp.Common.Int.{ℤ, pos, ◌≤ℤ◌, ◌<ℤ◌, ◌+ℤ◌, eqb_ℤ, +ℤ_parts, eqb_ℤ_iff}
use ppsp.Binmap.{Range, Binmap}
use ppsp.Binmap.Ranges.{Covers, InRange}
use ppsp.Binmap.Requests.{
  is_requested, in_range, have_loop, is_have_data, rounds, first_from, peer_has,
}

abbrev pub IsRequested : List ℤ → ℤ → Type 0
IsRequested [] i = ⊥
IsRequested (k ∷ ks) i = (k ≡ i) ⊎ IsRequested ks i

pub is_requested_sound : (ks : List ℤ) (i : ℤ) → is_requested ks i ≡ true → IsRequested ks i
unfolding is_requested
is_requested_sound [] i h = cc
is_requested_sound (k ∷ ks) i h = elim (Bool-cases (eqb_ℤ k i)) [
  | inl e ↦ inl ((eqb_ℤ_iff k i).0 e)
  | inr e ↦ inr (is_requested_sound ks i (rw e at h))
]

pub is_requested_complete : (ks : List ℤ) (i : ℤ) → IsRequested ks i → is_requested ks i ≡ true
unfolding is_requested
is_requested_complete [] i h = absurd h
is_requested_complete (k ∷ ks) i (inl e) = rw ((eqb_ℤ_iff k i).1 e)
is_requested_complete (k ∷ ks) i (inr r) = ground (arith, is_requested_complete ks i r)

in_range_sound : (r : Range) (i : ℤ) → in_range r i ≡ true → InRange r i
in_range_sound r i h = ground arith

in_range_complete : (r : Range) (i : ℤ) → InRange r i → in_range r i ≡ true
in_range_complete r i h = ground arith

pub peer_has_sound : (l : List Range) (i : ℤ) → peer_has l i ≡ true → Covers l i
unfolding peer_has
peer_has_sound [] i h = cc
peer_has_sound (r ∷ l) i h = elim (Bool-cases (in_range r i)) [
  | inl e ↦ inl (in_range_sound r i e)
  | inr e ↦ inr (peer_has_sound l i (rw e at h))
]

pub peer_has_complete : (l : List Range) (i : ℤ) → Covers l i → peer_has l i ≡ true
unfolding peer_has
peer_has_complete [] i h = absurd h
peer_has_complete (r ∷ l) i (inl k) = rw (in_range_complete r i k)
peer_has_complete (r ∷ l) i (inr k) = ground (arith, peer_has_complete l i k)

-- The chunk is in one of the ranges, or it is asked for and there is a range at all.
abbrev pub HasData : Binmap → ℤ → Type 0
HasData b i = Covers b.chunk_range_list i ⊎ ((b.chunk_range_list ≢ []) × IsRequested b.requested i)

have_loop_sound :
    (l : List Range) (ks : List ℤ) (i : ℤ)
    → have_loop l ks i ≡ true
    → Covers l i ⊎ ((l ≢ []) × IsRequested ks i)
unfolding have_loop
have_loop_sound [] ks i h = cc
have_loop_sound (r ∷ l) ks i h = elim (Bool-cases (in_range r i)) [
  | inl e ↦ inl (inl (in_range_sound r i e))
  | inr e ↦ elim (Bool-cases (is_requested ks i)) [
    | inl q ↦ inr (λ n. cc, is_requested_sound ks i q)
    | inr q ↦ elim (have_loop_sound l ks i (rw (e, q) at h)) [
      | inl c ↦ inl (inr c)
      | inr c ↦ inr (λ n. cc, c.1)
    ]
  ]
]

have_loop-covered : (l : List Range) (ks : List ℤ) (i : ℤ) → Covers l i → have_loop l ks i ≡ true
unfolding have_loop
have_loop-covered [] ks i h = absurd h
have_loop-covered (r ∷ l) ks i (inl k) = rw (in_range_complete r i k)
have_loop-covered (r ∷ l) ks i (inr k) = ground (arith, have_loop-covered l ks i k)

have_loop-requested :
    (l : List Range) (ks : List ℤ) (i : ℤ) → l ≢ [] → IsRequested ks i → have_loop l ks i ≡ true
unfolding have_loop
have_loop-requested [] ks i n h = absurd (n refl)
have_loop-requested (r ∷ l) ks i n h = ground (arith, is_requested_complete ks i h)

-- IsHaveData says yes for a chunk exactly if the chunk is in a range, or is marked while there is
-- some range.
pub is_have_data_iff : (b : Binmap) (i : ℤ) → (is_have_data b i ≡ true) ↔ HasData b i
unfolding is_have_data
is_have_data_iff b i = (
  have_loop_sound b.chunk_range_list b.requested i,
  λ h. elim h [
    | inl c ↦ have_loop-covered b.chunk_range_list b.requested i c
    | inr c ↦ have_loop-requested b.chunk_range_list b.requested i c.0 c.1
  ],
)

-- What `first_from` says, by its result, of the numbers from `index` on.
abbrev pub FirstFrom : (ℤ → Bool) → ℤ → ℤ → Option ℤ → Type 0
FirstFrom test index end none = (j : ℤ) → index ≤ℤ j → j ≤ℤ end → test j ≡ false
FirstFrom test index end (some i) =
    (index ≤ℤ i) × (i ≤ℤ end) × (test i ≡ true) × ((j : ℤ) → index ≤ℤ j → j <ℤ i → test j ≡ false)

first_later :
    (test : ℤ → Bool) (index end : ℤ) (m : Option ℤ)
    → test index ≡ false
    → FirstFrom test (index +ℤ pos 1) end m
    → FirstFrom test index end m
first_later test index end none e h = λ j p q. elim (Bool-cases (eqb_ℤ index j)) [
  | inl k ↦ rw (← (eqb_ℤ_iff index j).0 k) e
  | inr k ↦ h j (ground (arith, +ℤ_parts index (pos 1))) q
]
first_later test index end (some i) e h = (
  omega (arith, +ℤ_parts index (pos 1)),
  h.1,
  h.2,
  λ j p q. elim (Bool-cases (eqb_ℤ index j)) [
    | inl k ↦ rw (← (eqb_ℤ_iff index j).0 k) e
    | inr k ↦ h.3 j (ground (arith, +ℤ_parts index (pos 1))) q
  ],
)

pub first_from-FirstFrom :
    (test : ℤ → Bool) (n : ℕ) (index end : ℤ)
    → n ≡ rounds index end
    → FirstFrom test index end (first_from test n index)
unfolding first_from
first_from-FirstFrom test zero index end e = λ j p q. absurd (omega arith)
first_from-FirstFrom test (suc n) index end e = elim (Bool-cases (test index)) [
  | inl k ↦ rw k (omega arith, omega arith, k, λ j p q. absurd (omega arith))
  | inr k ↦ rw k (
      first_later test index end (first_from test n (index +ℤ pos 1)) k
        (first_from-FirstFrom test n (index +ℤ pos 1) end (omega (arith, +ℤ_parts index (pos 1)))))
]
