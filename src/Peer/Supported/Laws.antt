-- ===== src/Peer/Supported/Laws.antt =====
-- What IsSupported says of the bitmap that SetSupportedMessages makes.
use native.Mathlib.Nat.{mul-add-div_right, div-eq_of_lt}
use ppsp.Common.{
  ap, ltb, ℕ, ◌+◌, ◌*◌, ◌/◌, ◌%◌, ◌^◌, ◌<◌, ◌≤◌, ◌≡◌, Bool, true, false, none, some, [], ◌∷◌,
  get_elem?, ◌==◌, if◌then◌else◌, arith, ◌∙◌, zero, suc, subst, Bool-cases, ==_iff, inl, inr,
}
use ppsp.Peer.Supported.{
  Supported, bit, set_bit, first_byte, second_byte, set_supported_messages, tested, is_supported,
}

abbrev val : Bool → ℕ
val b = if b then 1 else 0

set_bit-clear : (x n : ℕ) (b : Bool) → x / 2 ^ n % 2 ≡ 0 → set_bit x n b ≡ x + val b * 2 ^ n
unfolding set_bit bit
set_bit-clear x n true h = ground arith
set_bit-clear x n false h = ground arith

val-le : (b : Bool) → val b ≤ 1
val-le b = ground arith

byte_sum : (a b c d e f g h : Bool) → ℕ
byte_sum a b c d e f g h =
    val a * 128 + val b * 64 + val c * 32 + val d * 16 + val e * 8 + val f * 4 + val g * 2 + val h

first_sum : Supported → ℕ
first_sum s =
    byte_sum s.handshake s.data_messages s.ack s.have s.integrity s.pex_resv4 s.pex_req
      s.signed_integrity

second_sum : Supported → ℕ
second_sum s = byte_sum s.request s.cancel s.choke s.unchoke s.pex_resv6 s.pex_rescert false false

-- The four high bits of a byte, and of the rest.
high_bits :
    (a b c d : Bool)
    → set_bit (set_bit (set_bit (set_bit 0 7 a) 6 b) 5 c) 4 d
      ≡ val a * 128 + val b * 64 + val c * 32 + val d * 16
unfolding set_bit bit
high_bits a b c d = ground arith

-- Bits 3 and 2, and bits 1 and 0, of a byte in which these and all lower ones are not set.
bits_3_2 :
    (x : ℕ) (a b : Bool)
    → x % 16 ≡ 0
    → set_bit (set_bit x 3 a) 2 b ≡ x + val a * 2 ^ 3 + val b * 2 ^ 2
bits_3_2 x a b h =
    rw (set_bit-clear x 3 a (omega arith))
      (set_bit-clear (x + val a * 2 ^ 3) 2 b (omega (arith, val-le a)))

bits_1_0 :
    (x : ℕ) (a b : Bool)
    → x % 4 ≡ 0
    → set_bit (set_bit x 1 a) 0 b ≡ x + val a * 2 ^ 1 + val b * 2 ^ 0
bits_1_0 x a b h =
    rw (set_bit-clear x 1 a (omega arith))
      (set_bit-clear (x + val a * 2 ^ 1) 0 b (omega (arith, val-le a)))

first_byte-first_sum : (s : Supported) → first_byte s ≡ first_sum s
unfolding first_byte first_sum byte_sum
first_byte-first_sum s =
    let x = val s.handshake * 128 + val s.data_messages * 64 + val s.ack * 32 + val s.have * 16 in
    rw (high_bits s.handshake s.data_messages s.ack s.have) (
      rw (bits_3_2 x s.integrity s.pex_resv4 (omega arith)) (
        bits_1_0 (x + val s.integrity * 2 ^ 3 + val s.pex_resv4 * 2 ^ 2) s.pex_req
          s.signed_integrity (omega arith)
        ∙ omega arith))

second_byte-second_sum : (s : Supported) → second_byte s ≡ second_sum s
unfolding second_byte second_sum byte_sum
second_byte-second_sum s =
    let x = val s.request * 128 + val s.cancel * 64 + val s.choke * 32 + val s.unchoke * 16 in
    rw (high_bits s.request s.cancel s.choke s.unchoke)
      (bits_3_2 x s.pex_resv6 s.pex_rescert (omega arith) ∙ omega arith)

-- The flag of the message type with number `code`.
abbrev pub flag : Supported → ℕ → Bool
flag s code =
    elim (get_elem?
      (s.handshake ∷ s.data_messages ∷ s.ack ∷ s.have ∷ s.integrity ∷ s.pex_resv4 ∷ s.pex_req
        ∷ s.signed_integrity ∷ s.request ∷ s.cancel ∷ s.choke ∷ s.unchoke ∷ s.pex_resv6
        ∷ s.pex_rescert ∷ [])
      code) [ none ↦ false | some b ↦ b ]

-- `P` at the `m` numbers from `start` on, one by one.
abbrev Each : (ℕ → Type 0) → ℕ → ℕ → Type 0
Each P start zero = Unit {0}
Each P start (suc m) = P start × Each P (start + 1) m

of_Each : (P : ℕ → Type 0) (start m n : ℕ) → Each P start m → start ≤ n → n < start + m → P n
of_Each P start zero n a h k = absurd (omega arith)
of_Each P start (suc m) n a h k = elim (Bool-cases (start == n)) [
  | inl e ↦ subst P ((==_iff start n).0 e) a.0
  | inr e ↦ of_Each P (start + 1) m n a.1 (ground arith) (omega arith)
]

val-odd : (hi : ℕ) (b : Bool) → ((hi * 2 + val b) % 2 == 1) ≡ b
val-odd hi true = ground arith
val-odd hi false = ground arith

bit_at : (n x hi lo : ℕ) (b : Bool) → x ≡ (hi * 2 + val b) * 2 ^ n + lo → lo < 2 ^ n → bit x n ≡ b
unfolding bit
bit_at n x hi lo b e h =
    ap (λ q. q % 2 == 1)
      (ap (λ y. y / 2 ^ n) e
        ∙ mul-add-div_right {m = 2 ^ n} (omega arith) (hi * 2 + val b) lo
        ∙ ap (λ q. hi * 2 + val b + q) (div-eq_of_lt h)
        ∙ quotient (hi * 2 + val b))
    ∙ val-odd hi b
  where
    quotient : (q : ℕ) → q + 0 ≡ q
    quotient q = omega arith

-- The bits of a byte, the highest first.
byte_sum-bits :
    (a b c d e f g h : Bool)
    → (bit (byte_sum a b c d e f g h) 7 ≡ a)
      × (bit (byte_sum a b c d e f g h) 6 ≡ b)
      × (bit (byte_sum a b c d e f g h) 5 ≡ c)
      × (bit (byte_sum a b c d e f g h) 4 ≡ d)
      × (bit (byte_sum a b c d e f g h) 3 ≡ e)
      × (bit (byte_sum a b c d e f g h) 2 ≡ f)
      × (bit (byte_sum a b c d e f g h) 1 ≡ g)
      × (bit (byte_sum a b c d e f g h) 0 ≡ h)
unfolding byte_sum
byte_sum-bits a b c d e f g h = (
  bit_at 7 (byte_sum a b c d e f g h) (0)
      (val b * 64 + val c * 32 + val d * 16 + val e * 8 + val f * 4 + val g * 2 + val h * 1) a
      (omega arith)
      (omega (arith, val-le b, val-le c, val-le d, val-le e, val-le f, val-le g, val-le h)),
  bit_at 6 (byte_sum a b c d e f g h) (val a * 1)
      (val c * 32 + val d * 16 + val e * 8 + val f * 4 + val g * 2 + val h * 1) b (omega arith)
      (omega (arith, val-le c, val-le d, val-le e, val-le f, val-le g, val-le h)),
  bit_at 5 (byte_sum a b c d e f g h) (val a * 2 + val b * 1)
      (val d * 16 + val e * 8 + val f * 4 + val g * 2 + val h * 1) c (omega arith)
      (omega (arith, val-le d, val-le e, val-le f, val-le g, val-le h)),
  bit_at 4 (byte_sum a b c d e f g h) (val a * 4 + val b * 2 + val c * 1)
      (val e * 8 + val f * 4 + val g * 2 + val h * 1) d (omega arith)
      (omega (arith, val-le e, val-le f, val-le g, val-le h)),
  bit_at 3 (byte_sum a b c d e f g h) (val a * 8 + val b * 4 + val c * 2 + val d * 1)
      (val f * 4 + val g * 2 + val h * 1) e (omega arith)
      (omega (arith, val-le f, val-le g, val-le h)),
  bit_at 2 (byte_sum a b c d e f g h) (val a * 16 + val b * 8 + val c * 4 + val d * 2 + val e * 1)
      (val g * 2 + val h * 1) f (omega arith) (omega (arith, val-le g, val-le h)),
  bit_at 1 (byte_sum a b c d e f g h)
      (val a * 32 + val b * 16 + val c * 8 + val d * 4 + val e * 2 + val f * 1) (val h * 1) g
      (omega arith) (omega (arith, val-le h)),
  bit_at 0 (byte_sum a b c d e f g h)
      (val a * 64 + val b * 32 + val c * 16 + val d * 8 + val e * 4 + val f * 2 + val g * 1) (0) h
      (omega arith) (omega (arith)),
)

first_supported :
    (s : Supported)
    → Each (λ c. is_supported (first_sum s ∷ second_sum s ∷ []) 2 c ≡ some (flag s c)) 0 8
unfolding is_supported tested first_sum
first_supported s =
    let (a, b, c, d, e, f, g, h) =
      byte_sum-bits s.handshake s.data_messages s.ack s.have s.integrity s.pex_resv4 s.pex_req
        s.signed_integrity in
    (
      ap some a,
      (ap some b, (ap some c, (ap some d, (ap some e, (ap some f, (ap some g, (ap some h, tt))))))),
    )

second_supported :
    (s : Supported)
    → Each (λ c. is_supported (first_sum s ∷ second_sum s ∷ []) 2 c ≡ some (flag s c)) 8 8
unfolding is_supported tested second_sum
second_supported s =
    let (a, b, c, d, e, f, g, h) =
      byte_sum-bits s.request s.cancel s.choke s.unchoke s.pex_resv6 s.pex_rescert false false in
    (
      ap some a,
      (ap some b, (ap some c, (ap some d, (ap some e, (ap some f, (ap some g, (ap some h, tt))))))),
    )

sums_supported :
    (s : Supported) (code : ℕ)
    → code < 16
    → is_supported (first_sum s ∷ second_sum s ∷ []) 2 code ≡ some (flag s code)
sums_supported s code h = elim (Bool-cases (ltb code 8)) [
  | inl e ↦
      of_Each (λ c. is_supported (first_sum s ∷ second_sum s ∷ []) 2 c ≡ some (flag s c)) 0 8 code
        (first_supported s) (omega arith) (ground arith)
  | inr e ↦
      of_Each (λ c. is_supported (first_sum s ∷ second_sum s ∷ []) 2 c ≡ some (flag s c)) 8 8 code
        (second_supported s) (ground arith) (omega arith)
]

-- For every message type below 16, IsSupported gives, on the bitmap that SetSupportedMessages
-- makes, the flag that was given for that type, and no for the two types that have no flag.
pub is_supported-set_supported_messages :
    (s : Supported) (code : ℕ)
    → code < 16
    → is_supported (set_supported_messages s) 2 code ≡ some (flag s code)
unfolding set_supported_messages
is_supported-set_supported_messages s code h =
    rw (first_byte-first_sum s, second_byte-second_sum s) (sums_supported s code h)
