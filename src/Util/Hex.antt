-- ===== src/Util/Hex.antt =====
-- Hashes as text: GetStringFromHash and GetHashFromString of Common/Util.cpp, with what they use of
-- `sprintf("%02x")` and `sscanf("%2x")`. Text is a list of character codes.
pub mod RoundTrip
use ppsp.Common.{
  ℕ, zero, suc, ◌+◌, ◌-◌, ◌*◌, ◌/◌, ◌%◌, Bool, true, false, ◌&&◌, ◌||◌, Option, none, some, List,
  [], ◌∷◌, ◌++◌, length, replicate, ltb, leb, ◌==◌, if◌then◌else◌,
}

-- What a function that gives an array back returns: a null pointer, or the array. `fault` is
-- undefined behaviour in the source: an access past the end of an array, or a negative size.
pub data Written : Type 0 where
  null fault : Written
  buffer : List ℕ → Written

unfoldable pub hex_char : ℕ → ℕ
hex_char d = if ltb d 10 then 48 + d else 87 + d

unfoldable pub get_string_from_hash : List ℕ → List ℕ
get_string_from_hash [] = []
get_string_from_hash (b ∷ bs) = hex_char (b / 16) ∷ hex_char (b % 16) ∷ get_string_from_hash bs

unfoldable pub hex_digit : ℕ → Option ℕ
hex_digit c =
    if leb 48 c && leb c 57
    then some (c - 48)
    else if leb 97 c && leb c 102
    then some (c - 87)
    else if leb 65 c && leb c 70
    then some (c - 55)
    else none

unfoldable pub is_space : ℕ → Bool
is_space c = c == 32 || (leb 9 c && leb c 13)

-- The low byte of the number that `%2x` finds behind the white space: one or two digits, or a sign
-- and a digit. `0x` alone is a failure to match.
second_digit : ℕ → ℕ → List ℕ → Option ℕ
second_digit c u [] = some u
second_digit c u (d ∷ rest) = elim (hex_digit d) [
  | none ↦ if c == 48 && (d == 120 || d == 88) then none else some u
  | some v ↦ some (16 * u + v)
]

signed_digit : ℕ → List ℕ → Option ℕ
signed_digit c [] = none
signed_digit c (d ∷ rest) = elim (hex_digit d) [
  | none ↦ none
  | some v ↦ some (if c == 45 then (256 - v) % 256 else v)
]

unfoldable pub scan_hex2 : List ℕ → Option ℕ
unfolding second_digit signed_digit
scan_hex2 [] = none
scan_hex2 (c ∷ rest) =
    let later = scan_hex2 rest in
    if is_space c
    then later
    else if c == 43 || c == 45
    then signed_digit c rest
    else elim (hex_digit c) [ none ↦ none | some u ↦ second_digit c u rest ]

abbrev prepend : ℕ → Written → Written
prepend v null = null
prepend v fault = fault
prepend v (buffer bits) = buffer (v ∷ bits)

-- The rounds of the loop from `hash + i * 2` on. `bits` has room for byte number `i` exactly if two
-- characters are left; the bytes that the loop does not reach stay 0.
unfoldable pub scan_rounds : ℕ → List ℕ → Written
scan_rounds zero rest = buffer (replicate (length rest / 2) 0)
scan_rounds (suc n) [] = null
scan_rounds (suc n) (x ∷ []) = elim (scan_hex2 (x ∷ [])) [ none ↦ null | some v ↦ fault ]
scan_rounds (suc n) (x ∷ y ∷ rest) = elim (scan_hex2 (x ∷ y ∷ rest)) [
  | none ↦ null
  | some v ↦ prepend v (scan_rounds n rest)
]

unfoldable pub get_hash_from_string : List ℕ → Written
get_hash_from_string str = scan_rounds 20 str
