-- ===== src/Util/Hex/RoundTrip.antt =====
-- What becomes of a hash that is written as text and read again.
use ppsp.Common.{
  ℕ, zero, suc, ◌-◌, ◌*◌, ◌/◌, ◌%◌, ◌≤◌, ◌<◌, ◌≡◌, refl, List, [], ◌∷◌, ◌++◌, some, length,
  replicate, take, All, arith,
}
use ppsp.Util.Endian.Laws.{IsByte}
use ppsp.Util.Hex.{
  buffer, hex_char, get_string_from_hash, hex_digit, is_space, scan_hex2, scan_rounds,
  get_hash_from_string,
}

hex_digit-hex_char : (d : ℕ) → d < 16 → hex_digit (hex_char d) ≡ some d
unfolding hex_digit hex_char
hex_digit-hex_char d h = ground arith

hex_char-visible : (d : ℕ) → d < 16 → 48 ≤ hex_char d
unfolding hex_char
hex_char-visible d h = ground arith

scan_hex2-hex :
    (b : ℕ) (rest : List ℕ)
    → IsByte b
    → scan_hex2 (hex_char (b / 16) ∷ hex_char (b % 16) ∷ rest) ≡ some b
unfolding scan_hex2 is_space
scan_hex2-hex b rest h = ground (
  arith,
  hex_digit-hex_char (b / 16) (omega arith),
  hex_digit-hex_char (b % 16) (omega arith),
  hex_char-visible (b / 16) (omega arith),
)

pub length-get_string_from_hash : (bs : List ℕ) → length (get_string_from_hash bs) ≡ 2 * length bs
unfolding get_string_from_hash
length-get_string_from_hash [] = refl
length-get_string_from_hash (b ∷ bs) = omega (arith, length-get_string_from_hash bs)

scan_rounds-hex :
    (n : ℕ) (bs : List ℕ)
    → All IsByte bs
    → n ≤ length bs
    → scan_rounds n (get_string_from_hash bs) ≡ buffer (take n bs ++ replicate (length bs - n) 0)
unfolding scan_rounds get_string_from_hash
scan_rounds-hex zero bs a h = ground (arith, length-get_string_from_hash bs)
scan_rounds-hex (suc n) [] a h = absurd (omega arith)
scan_rounds-hex (suc n) (b ∷ bs) a h =
    ground
      (arith, scan_hex2-hex b (get_string_from_hash bs) a.0, scan_rounds-hex n bs a.1 (omega arith))

-- A hash of at least 20 bytes that is written as text and read again keeps its first 20 bytes, so a
-- SHA-1 hash comes back whole; of a longer one, every byte behind the twentieth comes back as 0.
pub get_hash_from_string-get_string_from_hash :
    (bs : List ℕ)
    → All IsByte bs
    → 20 ≤ length bs
    → get_hash_from_string (get_string_from_hash bs)
      ≡ buffer (take 20 bs ++ replicate (length bs - 20) 0)
unfolding get_hash_from_string
get_hash_from_string-get_string_from_hash bs a h = scan_rounds-hex 20 bs a h
