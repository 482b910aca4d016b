-- ===== src/Binmap/Finish/Laws.antt =====
-- When CheckFinish says that the content is complete.
use ppsp.Common.{
  ℕ, zero, suc, ◌<◌, ◌≤◌, ◌≡◌, refl, subst, ◌⊎◌, inl, inr, ◌↔◌, true, false, ◌&&◌, some, List, [],
  ◌∷◌, length, ◌==◌, arith, Bool-cases, Option-cases,
}
use mathlib.Core.Option.{some-injective}
use ppsp.Common.Int.{
  ℤ, pos, negsuc, ◌≤ℤ◌, ◌+ℤ◌, ◌-ℤ◌, +ℤ_parts, -ℤ_parts, eq_of_parts, eqb_ℤ, ≤ℤ_or_lt,
}
use ppsp.Binmap.{Range, Binmap}
use ppsp.Binmap.Ranges.{Covers, InRange, Between, Separated, AllApart}
use ppsp.Binmap.Loops.{◌≲◌}
use ppsp.Binmap.Finish.{absorb, pass, pass_loop, check_finish}

-- A pass leaves no more ranges than it finds.
length-pass : (l : List Range) (r : Range) → length (pass l r).1 ≤ length l
unfolding pass
length-pass [] r = omega arith
length-pass (it ∷ rest) r = elim (Option-cases (absorb it r.start r.end)) [
  | inl e ↦ rw (e, pass) (omega (arith, length-pass rest r))
  | inr (r', e) ↦ rw (e, pass) (omega (arith, length-pass rest r'))
]

pass_loop_total :
    (fuel : ℕ) (l : List Range) (r : Range)
    → length l < fuel
    → (s : Range) × (pass_loop fuel l r ≡ some s)
unfolding pass_loop
pass_loop_total zero l r h = absurd (omega arith)
pass_loop_total (suc fuel) l r h = elim (Bool-cases (length (pass l r).1 == 0)) [
  | inl e ↦ ((pass l r).0, rw e)
  | inr e ↦ elim (Bool-cases (length l == length (pass l r).1)) [
    | inl k ↦ ((pass l r).0, rw (e, k))
    | inr k ↦
        let (s, q) =
          pass_loop_total fuel (pass l r).1 (pass l r).0 (ground (arith, length-pass l r)) in
        (s, rw (e, k) q)
  ]
]

-- Every chunk from `start` to `end` is covered, once `start` is set.
abbrev Whole : List Range → Range → Type 0
Whole l r = (i : ℤ) → pos 0 ≤ℤ r.start → InRange r i → Covers l i

absorb_part :
    (it r r' : Range) (i : ℤ)
    → absorb it r.start r.end ≡ some r'
    → InRange r' i
    → InRange it i ⊎ ((pos 0 ≤ℤ r.start) × InRange r i)
unfolding absorb
absorb_part it r r' i e h = ground (arith, +ℤ_parts r.end (pos 1), -ℤ_parts r.start (pos 1))

pass-Whole :
    (l m : List Range) (r : Range)
    → ((i : ℤ) → Covers m i → Covers l i)
    → Whole l r
    → Whole l (pass m r).0 × ((i : ℤ) → Covers (pass m r).1 i → Covers l i)
unfolding pass
pass-Whole l [] r sub w = (w, sub)
pass-Whole l (it ∷ rest) r sub w = elim (Option-cases (absorb it r.start r.end)) [
  | inl e ↦
      rw (e, pass)
        (
          (pass-Whole l rest r (λ i c. sub i (inr c)) w).0,
          λ i c. elim c [
            | inl x ↦ sub i (inl x)
            | inr x ↦ (pass-Whole l rest r (λ j d. sub j (inr d)) w).1 i x
          ],
        )
  | inr (r', e) ↦
      rw (e, pass)
        (pass-Whole l rest r' (λ i c. sub i (inr c))
          (λ i p q. elim (absorb_part it r r' i e q) [
            | inl x ↦ sub i (inl x)
            | inr x ↦ w i x.0 x.1
          ]))
]

pass_loop-Whole :
    (fuel : ℕ) (l m : List Range) (r s : Range)
    → ((i : ℤ) → Covers m i → Covers l i)
    → Whole l r
    → pass_loop fuel m r ≡ some s
    → Whole l s
unfolding pass_loop
pass_loop-Whole zero l m r s sub w e = cc
pass_loop-Whole (suc fuel) l m r s sub w e = elim (Bool-cases (length (pass m r).1 == 0)) [
  | inl k ↦ subst (Whole l) (some-injective _ _ (rw k at e)) (pass-Whole l m r sub w).0
  | inr k ↦ elim (Bool-cases (length m == length (pass m r).1)) [
    | inl q ↦ subst (Whole l) (some-injective _ _ (rw (k, q) at e)) (pass-Whole l m r sub w).0
    | inr q ↦
        pass_loop-Whole fuel l (pass m r).1 (pass m r).0 s (pass-Whole l m r sub w).1
          (pass-Whole l m r sub w).0 (rw (k, q) at e)
  ]
]

abbrev unset : Range
unset = record { start = negsuc 0; end = negsuc 0 }

-- The file is closed when the content is complete.
abbrev pub closed : Binmap → Binmap
closed b = record b { opened = false }

-- CheckFinish ends on every map. It says that the content is not complete and changes nothing, or
-- it closes the file and says that the content is complete, and then every chunk from the first to
-- the last is there.
pub check_finish_cases :
    (b : Binmap)
    → (check_finish b ≡ some (b, false))
      ⊎ ((check_finish b ≡ some (closed b, true))
          × ((i : ℤ) → Between (pos 0) b.last_chunk i → Covers b.chunk_range_list i))
unfolding check_finish
check_finish_cases b =
    let (r, e) =
      pass_loop_total (suc (length b.chunk_range_list)) b.chunk_range_list unset (omega arith) in
    let w =
      pass_loop-Whole (suc (length b.chunk_range_list)) b.chunk_range_list b.chunk_range_list unset
        r (λ i c. c) (λ i p q. absurd (omega arith)) e in
    elim (Bool-cases (eqb_ℤ r.start (pos 0) && eqb_ℤ r.end b.last_chunk)) [
      | inl k ↦ inr (rw (e, check_finish) (rw k refl), λ i h. w i (ground arith) (ground arith))
      | inr k ↦ inl (rw (e, check_finish) (rw k refl))
    ]

-- What is in a range or next to it is in no range apart from it.
near_not_covered :
    (r : Range) (l : List Range) (i : ℤ) → AllApart r l → r.start ≲ i → i ≲ r.end → ¬ Covers l i
near_not_covered r [] i a p q c = c
near_not_covered r (x ∷ l) i a p q (inl c) = absurd (omega arith)
near_not_covered r (x ∷ l) i a p q (inr c) = near_not_covered r l i a.1 p q c

-- The ranges of all chunks from 0 to `last`, and no other.
abbrev pub Full : List Range → ℤ → Type 0
Full l last = (i : ℤ) → Covers l i ↔ Between (pos 0) last i

complete_end :
    (r : Range) (l : List Range) (last : ℤ)
    → pos 0 ≤ℤ last
    → Separated (r ∷ l)
    → Full (r ∷ l) last
    → last ≤ℤ r.end
complete_end r l last h s f = elim (≤ℤ_or_lt last r.end) [
  | inl le ↦ le
  | inr lt ↦
      absurd
        (elim ((f (r.end +ℤ pos 1)).1
          (omega (arith, +ℤ_parts r.end (pos 1), (f r.end).0 (inl (s.0, omega arith))))) [
            | inl c ↦ omega (arith, +ℤ_parts r.end (pos 1))
            | inr c ↦
                near_not_covered r l (r.end +ℤ pos 1) s.1
                  (omega (arith, +ℤ_parts r.end (pos 1), s.0))
                  (omega (arith, +ℤ_parts r.end (pos 1))) c
          ])
]

complete_start :
    (r : Range) (l : List Range) (last : ℤ)
    → Separated (r ∷ l)
    → Full (r ∷ l) last
    → r.start ≤ℤ pos 0
complete_start r l last s f = elim (≤ℤ_or_lt r.start (pos 0)) [
  | inl le ↦ le
  | inr lt ↦
      absurd
        (elim ((f (r.start -ℤ pos 1)).1
          (omega (arith, -ℤ_parts r.start (pos 1), (f r.start).0 (inl (omega arith, s.0))))) [
            | inl c ↦ omega (arith, -ℤ_parts r.start (pos 1))
            | inr c ↦
                near_not_covered r l (r.start -ℤ pos 1) s.1
                  (omega (arith, -ℤ_parts r.start (pos 1)))
                  (omega (arith, -ℤ_parts r.start (pos 1), s.0)) c
          ])
]

complete_one :
    (r : Range) (l : List Range) (last : ℤ)
    → pos 0 ≤ℤ last
    → Separated (r ∷ l)
    → Full (r ∷ l) last
    → l ≡ []
complete_one r [] last h s f = refl
complete_one r (q ∷ l) last h s f = absurd (
    omega (
      arith,
      (f q.start).0 (inr (inl (omega arith, s.2.0))),
      s.1.0,
      complete_end r (q ∷ l) last h s f,
      complete_start r (q ∷ l) last s f,
    ))

complete_range :
    (l : List Range) (last : ℤ)
    → pos 0 ≤ℤ last
    → Separated l
    → Full l last
    → l ≡ record { start = pos 0; end = last } ∷ []
complete_range [] last h s f = absurd ((f (pos 0)).1 (omega arith))
complete_range (r ∷ l) last h s f = ground (
  arith,
  complete_one r l last h s f,
  eq_of_parts r.start (pos 0)
      (omega (arith, complete_start r l last s f, (f r.start).0 (inl (omega arith, s.0)))),
  eq_of_parts r.end last
      (omega (arith, complete_end r l last h s f, (f r.end).0 (inl (s.0, omega arith)))),
)

one_pass : (l : List Range) (r : Range) → l ≡ r ∷ [] → pass_loop (suc (length l)) l unset ≡ some r
unfolding pass_loop pass absorb
one_pass l r e = rw e refl

-- With the chunks from 0 to the last one, and no other, in ranges that are not empty and do not
-- touch, CheckFinish says that the content is complete.
pub check_finish_complete :
    (b : Binmap)
    → pos 0 ≤ℤ b.last_chunk
    → Separated b.chunk_range_list
    → Full b.chunk_range_list b.last_chunk
    → check_finish b ≡ some (closed b, true)
unfolding check_finish
check_finish_complete b h s f =
    rw
      (
        one_pass b.chunk_range_list _ (complete_range b.chunk_range_list b.last_chunk h s f),
        check_finish,
      )
      (ground arith)
