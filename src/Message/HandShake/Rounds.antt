-- ===== src/Message/HandShake/Rounds.antt =====
-- The loop over the options of a handshake: it ends, and how.
use ppsp.Common.{
  ℕ, zero, suc, ◌≤◌, ◌<◌, ◌≡◌, ◌≢◌, inl, inr, Option, none, some, length, ◌==◌, ==_iff, arith,
  Bool-cases, Option-cases, ap, ◌∙◌,
}
use ppsp.Util.Endian.{Host}
use ppsp.Message.Buffer.{Cursor, Reader, get_byte}
use ppsp.Message.HandShake.{HandShake, code_endoption, read_option, options}
use ppsp.Message.HandShake.Options.{option_progress}

-- The runs of the loop, each with its number of rounds and its result, which is `none` where the
-- reader goes behind the end of the datagram. A run ends at the end option or at a code that is not
-- known, in front of it, or where a read fails; an option that is read leads to the next round.
pub data Runs (h : Host) : ℕ → HandShake → Cursor → Option (HandShake × Cursor) → Type 0 where
  cut_off : {hs : HandShake} {c : Cursor} → get_byte c ≡ none → Runs h 1 hs c none
  ended :
      {hs : HandShake} {c : Cursor} (d : Cursor)
      → get_byte c ≡ some (code_endoption, d)
      → Runs h 1 hs c (some (hs, c))
  unknown_code :
      {hs : HandShake} {c : Cursor} (code : ℕ) (d : Cursor)
      → get_byte c ≡ some (code, d)
      → code ≢ code_endoption
      → read_option h hs code ≡ none
      → Runs h 1 hs c (some (hs, c))
  option_cut_off :
      {hs : HandShake} {c : Cursor} (code : ℕ) (d : Cursor) (m : Reader HandShake)
      → get_byte c ≡ some (code, d)
      → code ≢ code_endoption
      → read_option h hs code ≡ some m
      → m d ≡ none
      → Runs h 1 hs c none
  next_option :
      {hs : HandShake} {c : Cursor} {n : ℕ} {r : Option (HandShake × Cursor)} (code : ℕ)
      (d e : Cursor) (m : Reader HandShake) (hs' : HandShake)
      → get_byte c ≡ some (code, d)
      → code ≢ code_endoption
      → read_option h hs code ≡ some m
      → m d ≡ some (hs', e)
      → Runs h n hs' e r
      → Runs h (suc n) hs c r

Ends : Host → HandShake → Cursor → Option (HandShake × Cursor) → Type 0
Ends h hs c r = (k : ℕ) × (k ≤ suc (length c.rest)) × Runs h k hs c r

-- The loop over the options ends, in one round more than there are bytes left at most: with more
-- rounds than bytes the model gives the result of a run that follows the options one after the
-- other and ends in front of the end option or of an unknown code, or at a read behind the end of
-- the memory.
pub options-Runs :
    (h : Host) (n : ℕ) (hs : HandShake) (c : Cursor)
    → length c.rest < n
    → (k : ℕ) × (k ≤ suc (length c.rest)) × Runs h k hs c (options h n hs c)
unfolding options Ends
options-Runs h zero hs c p = absurd (omega arith)
options-Runs h (suc n) hs c p = elim (Option-cases (get_byte c)) [
  | inl e ↦ rw (options, e) (1, omega arith, cut_off e)
  | inr ((code, d), e) ↦ elim (Bool-cases (code == code_endoption)) [
    | inl q ↦
        let z = (==_iff code code_endoption).0 q in
        rw (options, e, q) (1, omega arith, ended d (e ∙ ap (λ x. some (x, d)) z))
    | inr q ↦
        let z : code ≢ code_endoption = λ i. ground (arith, (==_iff code code_endoption).1 i, q) in
        elim (Option-cases (read_option h hs code)) [
          | inl r ↦ rw (options, e, q, r) (1, omega arith, unknown_code code d e z r)
          | inr (m, r) ↦ elim (Option-cases (m d)) [
            | inl t ↦ rw (options, e, q, r, t) (1, omega arith, option_cut_off code d m e z r t)
            | inr ((hs', d'), t) ↦
                let shorter = option_progress h hs hs' code m c d d' e r t in
                let (k, b, run) = options-Runs h n hs' d' (omega arith) in
                rw (options, e, q, r, t)
                  (suc k, omega arith, next_option code d d' m hs' e z r t run)
          ]
        ]
  ]
]
