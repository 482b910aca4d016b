-- ===== src/Client/Silence.antt =====
-- KeepAliveCheck without a message from the peer.
use ppsp.Common.{
  ℕ, zero, suc, ◌+◌, ◌≤◌, ◌≡◌, inl, inr, true, Bool-cases, arith, ap, sym, subst, ◌∙◌, ◌⊎◌, false,
  branch_true, branch_false, branch_both,
}
use ppsp.Common.Int.{ℤ, pos, ◌+ℤ◌, ◌*ℤ◌, ltb_ℤ}
use ppsp.Client.{World, Env, stop, send_to_peer}
use ppsp.Client.Send.{send_keep_alive}
use ppsp.Client.Handle.{keep_alive_round, count_second}

-- `n` rounds.
abbrev pub keep_alive_rounds : Env → ℕ → World → ℤ → World × ℤ
keep_alive_rounds env zero w sendcnt = (w, sendcnt)
keep_alive_rounds env (suc n) w sendcnt =
    let (w', sendcnt') = keep_alive_round env w sendcnt in keep_alive_rounds env n w' sendcnt'

-- A peer whose messages have been missing for `s` rounds.
pub record IsSilent (i s : ℕ) (w : World) : Type 0 where
  pub interval : w.info.keep_alive_interval ≡ pos i
  pub silent : w.client.silent_sec ≡ pos s

round_stopped :
    (env : Env) (w : World) (sendcnt : ℤ)
    → w.client.is_stop ≡ true
    → keep_alive_round env w sendcnt ≡ (w, sendcnt)
unfolding keep_alive_round
round_stopped env w sendcnt e = branch_true _ _ e

stays_stopped :
    (env : Env) (n : ℕ) (w : World) (sendcnt : ℤ)
    → w.client.is_stop ≡ true
    → (keep_alive_rounds env n w sendcnt).0.client.is_stop ≡ true
stays_stopped env zero w sendcnt e = e
stays_stopped env (suc n) w sendcnt e =
    subst (λ (r : World × ℤ). (keep_alive_rounds env n r.0 r.1).0.client.is_stop ≡ true)
      (sym (round_stopped env w sendcnt e)) (stays_stopped env n w sendcnt e)

plus_one : (s : ℕ) → pos s +ℤ pos 1 ≡ pos (suc s)
unfolding ◌+ℤ◌
plus_one s = ground arith

stop-is_stop : (w : World) → w.client.is_stop ≡ false → (stop w).client.is_stop ≡ true
unfolding stop
stop-is_stop w e = ap (λ (x : World). x.client.is_stop) (branch_false _ _ e)

-- A round at the end of the interval, and one before.
last_round :
    (env : Env) (i : ℕ) (w : World) (sendcnt : ℤ)
    → w.client.is_stop ≡ false
    → IsSilent i (suc i) w
    → keep_alive_round env w sendcnt ≡ (stop w, sendcnt)
unfolding keep_alive_round
last_round env i w sendcnt e k =
    let late : ltb_ℤ w.info.keep_alive_interval w.client.silent_sec ≡ true =
      ground (arith, k.interval, k.silent) in
    branch_false _ _ e ∙ branch_true _ _ late

count_second-IsSilent :
    (env : Env) (i s : ℕ) (w : World) (sendcnt : ℤ)
    → IsSilent i s w
    → IsSilent i (suc s) (count_second env w sendcnt).0
unfolding count_second send_keep_alive send_to_peer
count_second-IsSilent env i s w sendcnt k =
    let counted : w.client.silent_sec +ℤ pos 1 ≡ pos (suc s) =
      ap (λ x. x +ℤ pos 1) k.silent ∙ plus_one s in
    branch_both (λ (r : World × ℤ). IsSilent i (suc s) r.0)
      (ltb_ℤ (pos 4 *ℤ w.info.keep_alive_interval) (pos 5 *ℤ (sendcnt +ℤ pos 1))) _ _
      (record { interval = k.interval; silent = counted })
      (record { interval = k.interval; silent = counted })

early_round :
    (env : Env) (i s : ℕ) (w : World) (sendcnt : ℤ)
    → w.client.is_stop ≡ false
    → IsSilent i s w
    → s ≤ i
    → keep_alive_round env w sendcnt ≡ count_second env w sendcnt
unfolding keep_alive_round
early_round env i s w sendcnt e k l =
    let early : ltb_ℤ w.info.keep_alive_interval w.client.silent_sec ≡ false =
      ground (arith, k.interval, k.silent) in
    branch_false _ _ e ∙ branch_false _ _ early

-- With an interval of i seconds, and no message for s rounds of KeepAliveCheck, s at most i + 1,
-- the client is stopped after n more rounds without a message, if n and s make i + 2.
pub keep_alive_rounds-stop :
    (env : Env) (n i s : ℕ) (w : World) (sendcnt : ℤ)
    → IsSilent i s w
    → s ≤ suc i
    → i + 2 ≤ n + s
    → (keep_alive_rounds env n w sendcnt).0.client.is_stop ≡ true
keep_alive_rounds-stop env zero i s w sendcnt k l m = absurd (omega arith)
keep_alive_rounds-stop env (suc n) i s w sendcnt k l m = elim (Bool-cases w.client.is_stop) [
  | inl e ↦ stays_stopped env (suc n) w sendcnt e
  | inr e ↦ elim (≤_or_eq s i l) [
    | inl b ↦
        let (r, c) = count_second env w sendcnt in
        subst (λ (r : World × ℤ). (keep_alive_rounds env n r.0 r.1).0.client.is_stop ≡ true)
          (sym (early_round env i s w sendcnt e k b))
          (keep_alive_rounds-stop env n i (suc s) r c (count_second-IsSilent env i s w sendcnt k)
            (omega arith) (omega arith))
    | inr h ↦
        let k' = subst (λ x. IsSilent i x w) h k in
        subst (λ (r : World × ℤ). (keep_alive_rounds env n r.0 r.1).0.client.is_stop ≡ true)
          (sym (last_round env i w sendcnt e k'))
          (stays_stopped env n (stop w) sendcnt (stop-is_stop w e))
  ]
]
  where
    ≤_or_eq : (a b : ℕ) → a ≤ suc b → (a ≤ b) ⊎ (a ≡ suc b)
    ≤_or_eq a b h = omega arith
