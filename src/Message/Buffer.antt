-- ===== src/Message/Buffer.antt =====
-- Datagrams as lists of bytes. GetBuffer of the message classes writes its fields one after the
-- other by `memcpy(buf + idx, &tmp, n); idx += n;`, and Create reads them the same way. A read past
-- the end of the datagram is undefined in the source, and `none` here.
use ppsp.Common.{
  ℕ, ◌+◌, ◌<◌, ◌≤◌, ◌≡◌, refl, Option, none, some, List, [], ◌∷◌, ◌++◌, ◌^◌, zero, suc, length,
  arith, append-nil, Option-cases, inl, inr,
}
use ppsp.Common.Int.{ℤ, pos, negsuc}
use ppsp.Util.Endian.{
  Host, store16, store32, store64, load16, load32, load64, pattern, signed16, signed32, byte,
  calc_endian_h2n_short, calc_endian_h2n_int, calc_endian_h2n_u64, calc_endian_n2h_short,
  calc_endian_n2h_int, calc_endian_n2h_u64,
}
pub use ppsp.Util.Hex.{Written, null, fault, buffer}
use ppsp.Util.Endian.Laws.{
  IsInt, IsShort, store32-calc_endian_h2n_int, store16-calc_endian_h2n_short,
  store64-calc_endian_h2n_u64, calc_endian_n2h_int-load32, calc_endian_n2h_short-load16,
  calc_endian_n2h_u64-load64, signed32-pattern32, signed16-pattern16, pattern32-lt, pattern16-lt,
  be32-bytes, be16-bytes, be64-bytes,
}

-- `tmpl = CalcEndianH2N(value); memcpy(buf + idx, &tmpl, 4);` and so for the other widths.
unfoldable pub put_int : Host → ℤ → List ℕ
put_int h value = store32 h (pattern 32 (calc_endian_h2n_int h value))

unfoldable pub put_short : Host → ℤ → List ℕ
put_short h value = store16 h (pattern 16 (calc_endian_h2n_short h value))

unfoldable pub put_u64 : Host → ℕ → List ℕ
put_u64 h value = store64 h (calc_endian_h2n_u64 h value)

-- The bytes from `data + idx` on, and `idx`.
pub record Cursor : Type 0 where
  pub rest : List ℕ
  pub idx : ℕ

abbrev pub at : List ℕ → ℕ → Cursor
at bytes i = record { rest = bytes; idx = i }

abbrev pub Reader : Type 0 → Type 0
Reader A = Cursor → Option (A × Cursor)

infixl 5 ◌>>=◌ ◌>>◌
abbrev pub ◌>>=◌ : {A B : Type 0} → Reader A → (A → Reader B) → Reader B
◌>>=◌ m f c = elim (m c) [ none ↦ none | some (a, d) ↦ f a d ]

abbrev pub ◌>>◌ : {B : Type 0} → Reader (Unit {0}) → Reader B → Reader B
m >> k = m >>= λ _. k

abbrev pub pure : {A : Type 0} → A → Reader A
pure a c = some (a, c)

-- `idx++` with no read.
abbrev pub behind : List ℕ → List ℕ
behind [] = []
behind (x ∷ xs) = xs

abbrev pub skip : Reader (Unit {0})
skip c = some (tt, at (behind c.rest) (c.idx + 1))

-- `data[idx++]`
next_byte : List ℕ → ℕ → Option (ℕ × Cursor)
next_byte [] i = none
next_byte (a ∷ r) i = some (a, at r (i + 1))

unfoldable pub get_byte : Reader ℕ
unfolding next_byte
get_byte c = next_byte c.rest c.idx

-- `memcpy(target, data + idx, n); idx += n;`
next_bytes : ℕ → List ℕ → ℕ → Option (List ℕ × Cursor)
next_bytes zero r i = some ([], at r i)
next_bytes (suc n) [] i = none
next_bytes (suc n) (a ∷ r) i = elim (next_bytes n r (i + 1)) [
  | none ↦ none
  | some (bytes, c) ↦ some (a ∷ bytes, c)
]

unfoldable pub get_bytes : ℕ → Reader (List ℕ)
unfolding next_bytes
get_bytes n c = next_bytes n c.rest c.idx

-- `memcpy(&value, data + idx, 4); value = CalcEndianN2H(value); idx += 4;`
int_of : Host → List ℕ → ℤ
int_of h (a ∷ b ∷ c ∷ d ∷ []) = calc_endian_n2h_int h (signed32 (load32 h a b c d))
int_of h other = signed32 0

short_of : Host → List ℕ → ℤ
short_of h (a ∷ b ∷ []) = calc_endian_n2h_short h (signed16 (load16 h a b))
short_of h other = signed16 0

u64_of : Host → List ℕ → ℕ
u64_of h (a ∷ b ∷ c ∷ d ∷ e ∷ f ∷ g ∷ i ∷ []) = calc_endian_n2h_u64 h (load64 h a b c d e f g i)
u64_of h other = 0

unfoldable pub get_int : Host → Reader ℤ
unfolding int_of get_bytes
get_int h = do bytes ← get_bytes 4; pure (int_of h bytes)

unfoldable pub get_short : Host → Reader ℤ
unfolding short_of get_bytes
get_short h = do bytes ← get_bytes 2; pure (short_of h bytes)

unfoldable pub get_u64 : Host → Reader ℕ
unfolding u64_of get_bytes
get_u64 h = do bytes ← get_bytes 8; pure (u64_of h bytes)

-- What Create returns: the object, and how many bytes it went over.
unfoldable pub run : {A : Type 0} → Reader A → List ℕ → Option (A × ℕ)
run m bytes = elim (m (at bytes 0)) [ none ↦ none | some (a, c) ↦ some (a, c.idx) ]

-- `memcpy(target, source, n)` from an array, and from `data + idx`, where `n` is an `int`.
unfoldable pub copy_out : ℤ → List ℕ → Option (List ℕ)
unfolding next_bytes
copy_out (pos n) source = elim (next_bytes n source 0) [
  | none ↦ none
  | some (bytes, c) ↦ some bytes
]
copy_out (negsuc n) source = none

unfoldable pub get_sized : ℤ → Reader (List ℕ)
get_sized (pos n) c = get_bytes n c
get_sized (negsuc n) c = none

-- A number written by a host of either kind is read back by a host of either kind.
pub get_int-put_int :
    (g h : Host) (v : ℤ) (r : List ℕ) (i : ℕ)
    → IsInt v
    → get_int g (at (put_int h v ++ r) i) ≡ some (v, at r (i + 4))
unfolding get_int put_int store32
get_int-put_int g h v r i k = rw (store32-calc_endian_h2n_int h v) (
    unfold store32 in
    let w = pattern 32 v in
    ground (
      arith,
      calc_endian_n2h_int-load32 g (byte 3 w) (byte 2 w) (byte 1 w) (byte 0 w),
      be32-bytes w (pattern32-lt v),
      signed32-pattern32 v k,
    ))

pub get_short-put_short :
    (g h : Host) (v : ℤ) (r : List ℕ) (i : ℕ)
    → IsShort v
    → get_short g (at (put_short h v ++ r) i) ≡ some (v, at r (i + 2))
unfolding get_short put_short
get_short-put_short g h v r i k = rw (store16-calc_endian_h2n_short h v) (
    unfold store16 in
    let w = pattern 16 v in
    ground (
      arith,
      calc_endian_n2h_short-load16 g (byte 1 w) (byte 0 w),
      be16-bytes w (pattern16-lt v),
      signed16-pattern16 v k,
    ))

pub get_u64-put_u64 :
    (g h : Host) (w : ℕ) (r : List ℕ) (i : ℕ)
    → w < 2 ^ 64
    → get_u64 g (at (put_u64 h w ++ r) i) ≡ some (w, at r (i + 8))
unfolding get_u64 put_u64
get_u64-put_u64 g h w r i k = rw (store64-calc_endian_h2n_u64 h w k) (
    unfold store64 in
    ground (
      arith,
      calc_endian_n2h_u64-load64 g (byte 7 w) (byte 6 w) (byte 5 w) (byte 4 w) (byte 3 w) (byte 2 w)
          (byte 1 w) (byte 0 w),
      be64-bytes w k,
    ))

next_bytes-append :
    (bs r : List ℕ) (i : ℕ) → next_bytes (length bs) (bs ++ r) i ≡ some (bs, at r (i + length bs))
unfolding next_bytes
next_bytes-append [] r i = ground arith
next_bytes-append (b ∷ bs) r i = ground (arith, next_bytes-append bs r (i + 1))

pub get_bytes-append :
    (n : ℕ) (bs r : List ℕ) (i : ℕ)
    → length bs ≡ n
    → get_bytes n (at (bs ++ r) i) ≡ some (bs, at r (i + n))
unfolding get_bytes
get_bytes-append n bs r i e = rw (← e) (next_bytes-append bs r i)

pub length-put_int : (h : Host) (v : ℤ) → length (put_int h v) ≡ 4
unfolding put_int store32
length-put_int Host.little v = refl
length-put_int Host.big v = refl

pub length-put_short : (h : Host) (v : ℤ) → length (put_short h v) ≡ 2
unfolding put_short store16
length-put_short Host.little v = refl
length-put_short Host.big v = refl

pub length-put_u64 : (h : Host) (w : ℕ) → length (put_u64 h w) ≡ 8
unfolding put_u64 store64
length-put_u64 Host.little w = refl
length-put_u64 Host.big w = refl

-- A read takes what it returns off the front, and fails only where too few bytes are left.
next_bytes_short : (n : ℕ) (r : List ℕ) (i : ℕ) → length r < n → next_bytes n r i ≡ none
unfolding next_bytes
next_bytes_short zero r i h = absurd (omega arith)
next_bytes_short (suc n) [] i h = refl
next_bytes_short (suc n) (a ∷ r) i h = ground (arith, next_bytes_short n r (i + 1))

next_bytes_long :
    (n : ℕ) (r : List ℕ) (i : ℕ)
    → n ≤ length r
    → (bs : List ℕ) × (s : List ℕ) × (next_bytes n r i ≡ some (bs, at s (i + n)))
      × (length s + n ≡ length r)
unfolding next_bytes
next_bytes_long zero r i h = ([], r, ground arith, omega arith)
next_bytes_long (suc n) [] i h = absurd (omega arith)
next_bytes_long (suc n) (a ∷ r) i h =
    let (bs, s, e, l) = next_bytes_long n r (i + 1) (omega arith) in
    (a ∷ bs, s, ground (arith, e), omega (arith, l))

pub copy_out-all : (bs : List ℕ) → copy_out (pos (length bs)) bs ≡ some bs
unfolding copy_out
copy_out-all bs = ground (arith, next_bytes-append bs [] 0, append-nil bs)

pub get_sized-all :
    (bs : List ℕ) (i : ℕ) → get_sized (pos (length bs)) (at bs i) ≡ some (bs, at [] (i + length bs))
unfolding get_sized
get_sized-all bs i = ground (arith, get_bytes-append (length bs) bs [] i refl, append-nil bs)

-- What a read of some bytes leaves.
next_bytes-rest :
    (n : ℕ) (r : List ℕ) (i : ℕ) (bs : List ℕ) (c : Cursor)
    → next_bytes n r i ≡ some (bs, c)
    → length c.rest + n ≡ length r
unfolding next_bytes
next_bytes-rest zero r i bs c e = ground (arith, e)
next_bytes-rest (suc n) [] i bs c e = cc
next_bytes-rest (suc n) (a ∷ r) i bs c e = elim (Option-cases (next_bytes n r (i + 1))) [
  | inl k ↦ absurd (cc (rw k at e))
  | inr ((bs', c'), k) ↦ ground (arith, next_bytes-rest n r (i + 1) bs' c' k, rw k at e)
]

pub get_bytes-rest :
    (n : ℕ) (c d : Cursor) (bs : List ℕ)
    → get_bytes n c ≡ some (bs, d)
    → length d.rest + n ≡ length c.rest
unfolding get_bytes
get_bytes-rest n c d bs e = next_bytes-rest n c.rest c.idx bs d e

next_byte-rest :
    (r : List ℕ) (i : ℕ) (a : ℕ) (c : Cursor)
    → next_byte r i ≡ some (a, c)
    → length c.rest + 1 ≡ length r
unfolding next_byte
next_byte-rest [] i a c e = cc
next_byte-rest (x ∷ r) i a c e = ground (arith, e)

pub get_byte-rest :
    (c d : Cursor) (a : ℕ) → get_byte c ≡ some (a, d) → length d.rest + 1 ≡ length c.rest
unfolding get_byte
get_byte-rest c d a e = next_byte-rest c.rest c.idx a d e

pub copy_out-whole : (n : ℕ) (bs : List ℕ) → length bs ≡ n → copy_out (pos n) bs ≡ some bs
copy_out-whole n bs e = rw (← e) (copy_out-all bs)
