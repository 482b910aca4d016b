-- ===== src/Util/Endian/Laws.antt =====
-- What is written on the wire does not depend on the host.
use ppsp.Common.{ℕ, ◌+◌, ◌-◌, ◌*◌, ◌^◌, ◌<◌, ◌≡◌, refl, arith}
use ppsp.Common.Int.{ℤ, pos, negsuc, ◌≤ℤ◌}
use ppsp.Util.Endian.{
  Host, little, big, byte, be16, be32, store16, store32, store64, load16, load32, load64, htons,
  htonl, pattern, signed16, signed32, calc_endian_h2n_short, calc_endian_h2n_int,
  calc_endian_h2n_u64, calc_endian_n2h_short, calc_endian_n2h_int, calc_endian_n2h_u64,
}

abbrev pub IsInt : ℤ → Type 0
IsInt v = (negsuc (2 ^ 31 - 1) ≤ℤ v) × (v ≤ℤ pos (2 ^ 31 - 1))

abbrev pub IsShort : ℤ → Type 0
IsShort v = (negsuc (2 ^ 15 - 1) ≤ℤ v) × (v ≤ℤ pos (2 ^ 15 - 1))

pattern32-signed32 : (w : ℕ) → w < 2 ^ 32 → pattern 32 (signed32 w) ≡ w
pattern32-signed32 w h = ground arith

pub signed32-pattern32 : (v : ℤ) → IsInt v → signed32 (pattern 32 v) ≡ v
signed32-pattern32 v h = ground arith

pub pattern32-lt : (v : ℤ) → pattern 32 v < 2 ^ 32
pattern32-lt v = ground arith

store32-htonl : (h : Host) (w : ℕ) → w < 2 ^ 32 → store32 h (htonl h w) ≡ store32 big w
unfolding store32 htonl
store32-htonl little w hw = ground arith
store32-htonl big w hw = refl

htonl-lt : (h : Host) (w : ℕ) → w < 2 ^ 32 → htonl h w < 2 ^ 32
unfolding htonl
htonl-lt little w hw = omega arith
htonl-lt big w hw = hw

pub pattern16-lt : (v : ℤ) → pattern 16 v < 2 ^ 16
pattern16-lt v = ground arith

pub signed16-pattern16 : (v : ℤ) → IsShort v → signed16 (pattern 16 v) ≡ v
signed16-pattern16 v h = ground arith

pattern16-signed16 : (w : ℕ) → w < 2 ^ 16 → pattern 16 (signed16 w) ≡ w
pattern16-signed16 w h = ground arith

htons-lt : (h : Host) (w : ℕ) → w < 2 ^ 16 → htons h w < 2 ^ 16
unfolding htons
htons-lt little w hw = omega arith
htons-lt big w hw = hw

store16-htons : (h : Host) (w : ℕ) → w < 2 ^ 16 → store16 h (htons h w) ≡ store16 big w
unfolding store16 htons
store16-htons little w hw = ground arith
store16-htons big w hw = refl

-- What a host of either kind has in memory after the conversion of an int is the pattern of the
-- number with its most significant byte first.
pub store32-calc_endian_h2n_int :
    (h : Host) (v : ℤ)
    → store32 h (pattern 32 (calc_endian_h2n_int h v)) ≡ store32 big (pattern 32 v)
unfolding calc_endian_h2n_int
store32-calc_endian_h2n_int h v =
    rw (pattern32-signed32 (htonl h (pattern 32 v)) (htonl-lt h (pattern 32 v) (pattern32-lt v)))
      (store32-htonl h (pattern 32 v) (pattern32-lt v))

-- What a host of either kind has in memory after the conversion of a short is the pattern of the
-- number with its most significant byte first.
pub store16-calc_endian_h2n_short :
    (h : Host) (v : ℤ)
    → store16 h (pattern 16 (calc_endian_h2n_short h v)) ≡ store16 big (pattern 16 v)
unfolding calc_endian_h2n_short
store16-calc_endian_h2n_short h v =
    rw (pattern16-signed16 (htons h (pattern 16 v)) (htons-lt h (pattern 16 v) (pattern16-lt v)))
      (store16-htons h (pattern 16 v) (pattern16-lt v))

-- The two halves that the 64-bit conversion swaps and exchanges make up the whole swap: what either
-- kind of host has in memory after the conversion of a 64-bit number is the number with its most
-- significant byte first.
pub store64-calc_endian_h2n_u64 :
    (h : Host) (w : ℕ) → w < 2 ^ 64 → store64 h (calc_endian_h2n_u64 h w) ≡ store64 big w
unfolding calc_endian_h2n_u64 store64
store64-calc_endian_h2n_u64 little w hw = ground arith
store64-calc_endian_h2n_u64 big w hw = refl

-- What a host of either kind has in memory after the conversion of a short, an int or a 64-bit
-- number is the number with its most significant byte first; the 64-bit conversion puts it together
-- from two halves that it swaps and exchanges.
pub network_order :
    (h : Host) (v : ℤ) (w : ℕ)
    → w < 2 ^ 64
    → (store16 h (pattern 16 (calc_endian_h2n_short h v)) ≡ store16 big (pattern 16 v))
      × (store32 h (pattern 32 (calc_endian_h2n_int h v)) ≡ store32 big (pattern 32 v))
      × (store64 h (calc_endian_h2n_u64 h w) ≡ store64 big w)
network_order h v w l = (
  store16-calc_endian_h2n_short h v,
  store32-calc_endian_h2n_int h v,
  store64-calc_endian_h2n_u64 h w l,
)

abbrev pub IsByte : ℕ → Type 0
IsByte b = b < 256

-- Reading gives the number whose bytes stand in the buffer, the most significant first.
load32-n2h :
    (h : Host) (a b c d : ℕ)
    → IsByte a
    → IsByte b
    → IsByte c
    → IsByte d
    → htonl h (load32 h a b c d) ≡ be32 a b c d
unfolding htonl load32
load32-n2h little a b c d ha hb hc hd = omega arith
load32-n2h big a b c d ha hb hc hd = refl

load32-lt :
    (h : Host) (a b c d : ℕ) → IsByte a → IsByte b → IsByte c → IsByte d → load32 h a b c d < 2 ^ 32
unfolding load32
load32-lt little a b c d ha hb hc hd = omega arith
load32-lt big a b c d ha hb hc hd = omega arith

pub calc_endian_n2h_int-load32 :
    (h : Host) (a b c d : ℕ)
    → IsByte a
    → IsByte b
    → IsByte c
    → IsByte d
    → calc_endian_n2h_int h (signed32 (load32 h a b c d)) ≡ signed32 (be32 a b c d)
unfolding calc_endian_n2h_int
calc_endian_n2h_int-load32 h a b c d ha hb hc hd =
    rw (pattern32-signed32 (load32 h a b c d) (load32-lt h a b c d ha hb hc hd))
      (rw (load32-n2h h a b c d ha hb hc hd))

load16-n2h : (h : Host) (a b : ℕ) → IsByte a → IsByte b → htons h (load16 h a b) ≡ be16 a b
unfolding htons load16
load16-n2h little a b ha hb = omega arith
load16-n2h big a b ha hb = refl

load16-lt : (h : Host) (a b : ℕ) → IsByte a → IsByte b → load16 h a b < 2 ^ 16
unfolding load16
load16-lt little a b ha hb = omega arith
load16-lt big a b ha hb = omega arith

pub calc_endian_n2h_short-load16 :
    (h : Host) (a b : ℕ)
    → IsByte a
    → IsByte b
    → calc_endian_n2h_short h (signed16 (load16 h a b)) ≡ signed16 (be16 a b)
unfolding calc_endian_n2h_short
calc_endian_n2h_short-load16 h a b ha hb =
    rw (pattern16-signed16 (load16 h a b) (load16-lt h a b ha hb)) (rw (load16-n2h h a b ha hb))

pub calc_endian_n2h_u64-load64 :
    (h : Host) (a b c d e f g i : ℕ)
    → IsByte a
    → IsByte b
    → IsByte c
    → IsByte d
    → IsByte e
    → IsByte f
    → IsByte g
    → IsByte i
    → calc_endian_n2h_u64 h (load64 h a b c d e f g i) ≡ be32 a b c d * 2 ^ 32 + be32 e f g i
unfolding calc_endian_n2h_u64 load64
calc_endian_n2h_u64-load64 little a b c d e f g i ha hb hc hd he hf hg hi = ground arith
calc_endian_n2h_u64-load64 big a b c d e f g i ha hb hc hd he hf hg hi = refl

pub be32-bytes : (w : ℕ) → w < 2 ^ 32 → be32 (byte 3 w) (byte 2 w) (byte 1 w) (byte 0 w) ≡ w
be32-bytes w h = omega arith

pub be16-bytes : (w : ℕ) → w < 2 ^ 16 → be16 (byte 1 w) (byte 0 w) ≡ w
be16-bytes w h = omega arith

pub be64-bytes :
    (w : ℕ)
    → w < 2 ^ 64
    → be32 (byte 7 w) (byte 6 w) (byte 5 w) (byte 4 w) * 2 ^ 32
        + be32 (byte 3 w) (byte 2 w) (byte 1 w) (byte 0 w)
      ≡ w
be64-bytes w h = omega arith
