-- ===== src/Message/HandShake/Options.antt =====
-- The loop over the options of a handshake: what a round does, and that more rounds than bytes make
-- no difference.
use ppsp.Common.{
  ℕ, zero, suc, ◌+◌, ◌≤◌, ◌<◌, ◌≡◌, refl, subst, Bool, true, false, Option, none, some, List, ◌∷◌,
  length, ◌==◌, if◌then◌else◌, arith, Bool-cases, Option-cases, inl, inr,
}
use ppsp.Common.Int.{ℤ, pos, negsuc}
use ppsp.Util.Endian.{Host, signed8}
use ppsp.Message.Buffer.{
  Cursor, at, Reader, ◌>>=◌, pure, get_byte, get_bytes, get_int, get_short, get_bytes-rest,
  get_byte-rest,
}
use ppsp.Message.HandShake.{
  HandShake, code_endoption, code_version, code_minimumversion, code_swarmidentifier,
  code_contentintegrityprotectionmethod, code_merklehashtreefunction, code_livesignaturealgorithm,
  code_chunkaddressingmethod, code_livediscardwindow, code_supportedmessages, code_chunksize,
  code_peer_listening_port, swarm_option, window_option, supported_option, read_option, options,
  all_options,
}

-- A reader leaves no more bytes than it finds.
Shrinks : {A : Type 0} → Reader A → Type 0
Shrinks {A} m = (c d : Cursor) (a : A) → m c ≡ some (a, d) → length d.rest ≤ length c.rest

pure-Shrinks : {A : Type 0} (a : A) → Shrinks (pure a)
unfolding Shrinks
pure-Shrinks a c d a' e = ground (arith, e)

bind-Shrinks :
    {A B : Type 0} (m : Reader A) (f : A → Reader B)
    → Shrinks m
    → ((a : A) → Shrinks (f a))
    → Shrinks (m >>= f)
unfolding Shrinks
bind-Shrinks {A} {B} m f s t c d b e = go (m c) refl e
  where
    go :
        (r : Option (A × Cursor))
        → m c ≡ r
        → elim r [ none ↦ none | some (a, c') ↦ f a c' ] ≡ some (b, d)
        → length d.rest ≤ length c.rest
    go none k q = cc
    go (some (a, c')) k q = omega (arith, s c c' a k, t a c' d b q)

get_bytes-Shrinks : (n : ℕ) → Shrinks (get_bytes n)
unfolding Shrinks
get_bytes-Shrinks n c d bs e = omega (arith, get_bytes-rest n c d bs e)

get_byte-Shrinks : Shrinks get_byte
unfolding Shrinks
get_byte-Shrinks c d b e = omega (arith, get_byte-rest c d b e)

get_int-Shrinks : (h : Host) → Shrinks (get_int h)
unfolding get_int
get_int-Shrinks h = bind-Shrinks (get_bytes 4) _ (get_bytes-Shrinks 4) (λ bs. pure-Shrinks _)

get_short-Shrinks : (h : Host) → Shrinks (get_short h)
unfolding get_short
get_short-Shrinks h = bind-Shrinks (get_bytes 2) _ (get_bytes-Shrinks 2) (λ bs. pure-Shrinks _)

byte-Shrinks : {A : Type 0} (f : ℕ → A) → Shrinks (do v ← get_byte; pure (f v))
byte-Shrinks f = bind-Shrinks get_byte _ get_byte-Shrinks (λ v. pure-Shrinks (f v))

bytes-Shrinks : {A : Type 0} (n : ℕ) (f : List ℕ → A) → Shrinks (do v ← get_bytes n; pure (f v))
bytes-Shrinks n f = bind-Shrinks (get_bytes n) _ (get_bytes-Shrinks n) (λ v. pure-Shrinks (f v))

swarm_option-Shrinks : (hs : HandShake) (len : ℤ) → Shrinks (swarm_option hs len)
unfolding swarm_option
swarm_option-Shrinks hs (pos zero) = pure-Shrinks _
swarm_option-Shrinks hs (pos (suc n)) = bytes-Shrinks (suc n) _
swarm_option-Shrinks hs (negsuc n) = pure-Shrinks _

supported_option-Shrinks : (hs : HandShake) (len : ℤ) → Shrinks (supported_option hs len)
unfolding supported_option
supported_option-Shrinks hs (pos zero) = pure-Shrinks _
supported_option-Shrinks hs (pos (suc n)) = bytes-Shrinks (suc n) _
supported_option-Shrinks hs (negsuc n) = pure-Shrinks _

if-both : {A : Type 0} (P : A → Type 0) (b : Bool) {x y : A} → P x → P y → P (if b then x else y)
if-both P true p q = p
if-both P false p q = q

window_option-Shrinks : (hs : HandShake) → Shrinks (window_option hs)
unfolding window_option
window_option-Shrinks hs =
    if-both Shrinks _ (bytes-Shrinks 4 _) (if-both Shrinks _ (bytes-Shrinks 8 _) (pure-Shrinks _))

data OptionShrinks : Option (Reader HandShake) → Type 0 where
  unknown : OptionShrinks none
  known : {m : Reader HandShake} → Shrinks m → OptionShrinks (some m)

of_known : (m : Reader HandShake) → OptionShrinks (some m) → Shrinks m
of_known m (known s) = s

read_option-Shrinks : (h : Host) (hs : HandShake) (code : ℕ) → OptionShrinks (read_option h hs code)
unfolding read_option
read_option-Shrinks h hs code =
    if-both OptionShrinks (code == code_version) (known (byte-Shrinks _)) (
      if-both OptionShrinks (code == code_minimumversion) (known (byte-Shrinks _)) (
        if-both OptionShrinks (code == code_swarmidentifier)
          (known (
            bind-Shrinks (get_short h) _ (get_short-Shrinks h)
              (λ len. swarm_option-Shrinks hs len)))
          (if-both OptionShrinks (code == code_contentintegrityprotectionmethod)
            (known (byte-Shrinks _))
            (if-both OptionShrinks (code == code_merklehashtreefunction) (known (byte-Shrinks _)) (
              if-both OptionShrinks (code == code_livesignaturealgorithm) (known (byte-Shrinks _)) (
                if-both OptionShrinks (code == code_chunkaddressingmethod) (known (byte-Shrinks _))
                  (if-both OptionShrinks (code == code_livediscardwindow)
                    (known (window_option-Shrinks hs))
                    (if-both OptionShrinks (code == code_supportedmessages)
                      (known (
                        bind-Shrinks get_byte _ get_byte-Shrinks
                          (λ len. supported_option-Shrinks hs (signed8 len))))
                      (if-both OptionShrinks (code == code_chunksize)
                        (known
                          (bind-Shrinks (get_int h) _ (get_int-Shrinks h) (λ v. pure-Shrinks _)))
                        (if-both OptionShrinks (code == code_peer_listening_port)
                          (known (
                            bind-Shrinks (get_short h) _ (get_short-Shrinks h)
                              (λ v. pure-Shrinks _)))
                          unknown))))))))))

-- What is left behind an option that is read.
pub option_progress :
    (h : Host) (hs hs' : HandShake) (code : ℕ) (m : Reader HandShake) (c d e : Cursor)
    → get_byte c ≡ some (code, d)
    → read_option h hs code ≡ some m
    → m d ≡ some (hs', e)
    → length e.rest < length c.rest
unfolding Shrinks
option_progress h hs hs' code m c d e p q r = omega (
  arith,
  get_byte-rest c d code p,
  of_known m (subst OptionShrinks q (read_option-Shrinks h hs code)) d e hs' r,
)

-- One round of the loop, with `next` for the rounds that follow.
abbrev Next : Type 0
Next = HandShake → Cursor → Option (HandShake × Cursor)

round : Next → Host → HandShake → Cursor → Option (HandShake × Cursor)
round next h hs c = elim (get_byte c) [
  | none ↦ none
  | some (code, d) ↦ if code == code_endoption then some (hs, c) else elim (read_option h hs code) [
    | none ↦ some (hs, c)
    | some m ↦ elim (m d) [ none ↦ none | some (hs', e) ↦ next hs' e ]
  ]
]

options-round :
    (h : Host) (n : ℕ) (hs : HandShake) (c : Cursor)
    → options h (suc n) hs c ≡ round (options h n) h hs c
unfolding options round
options-round h n hs c = refl

-- What a round does where the rounds that follow agree on what is left of the datagram.
round-agree :
    (f g : Next) (h : Host) (hs : HandShake) (c : Cursor)
    → ((hs' : HandShake) (d : Cursor) → length d.rest < length c.rest → f hs' d ≡ g hs' d)
    → round f h hs c ≡ round g h hs c
unfolding round Shrinks
round-agree f g h hs c k = elim (Option-cases (get_byte c)) [
  | inl e ↦ rw (e, round) refl
  | inr ((code, d), e) ↦ elim (Bool-cases (code == code_endoption)) [
    | inl q ↦ rw (e, q, round) refl
    | inr q ↦ elim (Option-cases (read_option h hs code)) [
      | inl r ↦ rw (e, q, r, round) refl
      | inr (m, r) ↦ elim (Option-cases (m d)) [
        | inl t ↦ rw (e, q, r, t, round) refl
        | inr ((hs', d'), t) ↦
            rw (e, q, r, t, round) (k hs' d' (option_progress h hs hs' code m c d d' e r t))
      ]
    ]
  ]
]

-- With any two numbers of rounds above that of the bytes left the loop gives the same result.
options-enough :
    (h : Host) (n m : ℕ) (hs : HandShake) (c : Cursor)
    → length c.rest < n
    → length c.rest < m
    → options h n hs c ≡ options h m hs c
options-enough h zero m hs c p q = absurd (omega arith)
options-enough h (suc n) zero hs c p q = absurd (omega arith)
options-enough h (suc n) (suc m) hs c p q =
    rw (options-round h n hs c, options-round h m hs c)
      (round-agree (options h n) (options h m) h hs c
        (λ hs' d k. options-enough h n m hs' d (omega arith) (omega arith)))

-- A round over an option that is known goes on with what the option leaves.
pub all_options-option :
    (h : Host) (hs hs' : HandShake) (code : ℕ) (r : List ℕ) (i : ℕ) (m : Reader HandShake)
    (d : Cursor)
    → (code == code_endoption) ≡ false
    → read_option h hs code ≡ some m
    → m (at r (i + 1)) ≡ some (hs', d)
    → all_options h hs (at (code ∷ r) i) ≡ all_options h hs' d
unfolding all_options options get_byte Shrinks
all_options-option h hs hs' code r i m d q e f =
    rw (q, e, f)
      (options-enough h (suc (length r)) (suc (length d.rest)) hs' d
        (omega (
          arith,
          of_known m (subst OptionShrinks e (read_option-Shrinks h hs code)) (at r (i + 1)) d hs' f,
        ))
        (omega arith))

pub all_options-end :
    (h : Host) (hs : HandShake) (r : List ℕ) (i : ℕ)
    → all_options h hs (at (code_endoption ∷ r) i) ≡ some (hs, at (code_endoption ∷ r) i)
unfolding all_options options get_byte
all_options-end h hs r i = refl
