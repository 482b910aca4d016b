-- ===== src/Util/Tests.antt =====
-- The theorems on byte order and text at concrete numbers.
use ppsp.Common.{ℕ, ◌≡◌, List, ◌++◌, take, replicate, All-replicate, arith}
use ppsp.Common.Int.{negsuc}
use ppsp.Util.Endian.{
  little, big, pattern, store16, store32, store64, calc_endian_h2n_short, calc_endian_h2n_int,
  calc_endian_h2n_u64,
}
use ppsp.Util.Endian.Laws.{IsByte, network_order}
use ppsp.Util.Hex.{buffer, get_string_from_hash, get_hash_from_string}
use ppsp.Util.Hex.RoundTrip.{get_hash_from_string-get_string_from_hash}

network_order_example :
    (store16 little (pattern 16 (calc_endian_h2n_short little (negsuc 4)))
      ≡ store16 big (pattern 16 (negsuc 4)))
    × (store32 little (pattern 32 (calc_endian_h2n_int little (negsuc 4)))
        ≡ store32 big (pattern 32 (negsuc 4)))
    × (store64 little (calc_endian_h2n_u64 little 123456789012) ≡ store64 big 123456789012)
network_order_example = network_order little (negsuc 4) 123456789012 (omega arith)

-- A hash of 22 bytes.
abbrev a_hash : List ℕ
a_hash = replicate 22 171

get_hash_from_string-get_string_from_hash_example :
    get_hash_from_string (get_string_from_hash a_hash) ≡ buffer (take 20 a_hash ++ replicate 2 0)
get_hash_from_string-get_string_from_hash_example =
    get_hash_from_string-get_string_from_hash a_hash (All-replicate IsByte 22 171 (omega arith))
      (omega arith)
