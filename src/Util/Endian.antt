-- ===== src/Util/Endian.antt =====
-- Byte order: IsLittleEndian and the CalcEndian functions of Common/Util.cpp, with the memory of
-- the host made explicit. `memcpy` of a variable into a buffer copies its object representation,
-- which `store16`, `store32` and `store64` give for either kind of host, lowest address first.
-- `htonl` and `htons` are those of POSIX: the identity on a big-endian host, else a byte swap.
pub mod Laws
use ppsp.Common.{
  ℕ, ◌+◌, ◌-◌, ◌*◌, ◌/◌, ◌%◌, ◌^◌, Bool, true, false, Option, none, some, List, [], ◌∷◌, ltb, ◌==◌,
  if◌then◌else◌,
}
use ppsp.Common.Int.{ℤ, pos, negsuc}

pub data Host : Type 0 where
  little big : Host

-- Byte number `k` of a word, counted from the least significant.
abbrev pub byte : ℕ → ℕ → ℕ
byte k w = w / 256 ^ k % 256

unfoldable pub store16 : Host → ℕ → List ℕ
store16 little w = byte 0 w ∷ byte 1 w ∷ []
store16 big w = byte 1 w ∷ byte 0 w ∷ []

unfoldable pub store32 : Host → ℕ → List ℕ
store32 little w = byte 0 w ∷ byte 1 w ∷ byte 2 w ∷ byte 3 w ∷ []
store32 big w = byte 3 w ∷ byte 2 w ∷ byte 1 w ∷ byte 0 w ∷ []

unfoldable pub store64 : Host → ℕ → List ℕ
store64 little w =
    byte 0 w ∷ byte 1 w ∷ byte 2 w ∷ byte 3 w ∷ byte 4 w ∷ byte 5 w ∷ byte 6 w ∷ byte 7 w ∷ []
store64 big w =
    byte 7 w ∷ byte 6 w ∷ byte 5 w ∷ byte 4 w ∷ byte 3 w ∷ byte 2 w ∷ byte 1 w ∷ byte 0 w ∷ []

-- The value of bytes, the most significant first.
abbrev pub be16 : ℕ → ℕ → ℕ
be16 a b = a * 256 + b

abbrev pub be32 : ℕ → ℕ → ℕ → ℕ → ℕ
be32 a b c d = ((a * 256 + b) * 256 + c) * 256 + d

-- The word that these bytes of memory, lowest address first, hold.
unfoldable pub load16 : Host → ℕ → ℕ → ℕ
load16 little a b = be16 b a
load16 big a b = be16 a b

unfoldable pub load32 : Host → ℕ → ℕ → ℕ → ℕ → ℕ
load32 little a b c d = be32 d c b a
load32 big a b c d = be32 a b c d

unfoldable pub load64 : Host → ℕ → ℕ → ℕ → ℕ → ℕ → ℕ → ℕ → ℕ → ℕ
load64 little a b c d e f g h = be32 h g f e * 2 ^ 32 + be32 d c b a
load64 big a b c d e f g h = be32 a b c d * 2 ^ 32 + be32 e f g h

-- `short a = 0x0001;` and a look at the byte of memory with the lowest address.
unfoldable pub is_little_endian : Host → Bool
unfolding store16
is_little_endian h = elim (store16 h 1) [
  | [] ↦ false
  | low ∷ rest ↦ if low == 0 then false else true
]

unfoldable pub htons : Host → ℕ → ℕ
htons little w = be16 (byte 0 w) (byte 1 w)
htons big w = w

unfoldable pub htonl : Host → ℕ → ℕ
htonl little w = be32 (byte 0 w) (byte 1 w) (byte 2 w) (byte 3 w)
htonl big w = w

-- The bit pattern of an `int` and of a `short`, and the values that patterns stand for.
abbrev pub pattern : ℕ → ℤ → ℕ
pattern width (pos n) = n % 2 ^ width
pattern width (negsuc n) = 2 ^ width - 1 - n % 2 ^ width

abbrev pub signed16 : ℕ → ℤ
signed16 w = if ltb w (2 ^ 15) then pos w else negsuc (2 ^ 16 - 1 - w)

abbrev pub signed32 : ℕ → ℤ
signed32 w = if ltb w (2 ^ 31) then pos w else negsuc (2 ^ 32 - 1 - w)

abbrev pub signed8 : ℕ → ℤ
signed8 w = if ltb w (2 ^ 7) then pos w else negsuc (2 ^ 8 - 1 - w)

-- The overloads on `short`, `int` and `unsigned long long`. A 64-bit word is put together from
-- its two swapped halves; the halves do not overlap, so `|=` adds.
unfoldable pub calc_endian_h2n_short : Host → ℤ → ℤ
unfolding htons
calc_endian_h2n_short h val = signed16 (htons h (pattern 16 val))

unfoldable pub calc_endian_h2n_int : Host → ℤ → ℤ
unfolding htonl
calc_endian_h2n_int h val = signed32 (htonl h (pattern 32 val))

unfoldable pub calc_endian_h2n_u64 : Host → ℕ → ℕ
unfolding is_little_endian htonl
calc_endian_h2n_u64 h val =
    if is_little_endian h
    then htonl h (val % 2 ^ 32) * 2 ^ 32 % 2 ^ 64 + htonl h (val / 2 ^ 32 % 2 ^ 32)
    else val

unfoldable pub calc_endian_n2h_short : Host → ℤ → ℤ
unfolding htons
calc_endian_n2h_short h val = signed16 (htons h (pattern 16 val))

unfoldable pub calc_endian_n2h_int : Host → ℤ → ℤ
unfolding htonl
calc_endian_n2h_int h val = signed32 (htonl h (pattern 32 val))

unfoldable pub calc_endian_n2h_u64 : Host → ℕ → ℕ
unfolding is_little_endian htonl
calc_endian_n2h_u64 h val =
    if is_little_endian h
    then htonl h (val % 2 ^ 32) * 2 ^ 32 % 2 ^ 64 + htonl h (val / 2 ^ 32 % 2 ^ 32)
    else val
