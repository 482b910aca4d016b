-- ===== src/Program/Config.antt =====
-- main.cpp: `_readConfigFile`, with the keys of Common/Common.h.
pub mod Laws
use ppsp.Common.{
  ℕ, zero, suc, ◌+◌, ◌-◌, ◌*◌, Bool, true, false, ◌&&◌, ◌||◌, Option, none, some, List, [], ◌∷◌,
  ◌++◌, length, ltb, leb, ◌==◌, if◌then◌else◌,
}
use ppsp.Common.Int.{ℤ, pos, ◌-ℤ◌}
use ppsp.Util.Endian.{pattern}
use ppsp.Message.Integrity.{mhf_sha1}
use ppsp.Tree.State.{default_chunk_size}
use ppsp.Tree.Check.{equal_bytes}
use ppsp.Client.Receive.{cipm_merkle_hash_tree, cam_32bit_chunk_ranges}

-- `PP_HANDSHAKE_VALUE_LSA_ECDSAP256SHA256`
abbrev lsa_ecdsap256sha256 : ℕ
lsa_ecdsap256sha256 = 13

abbrev line_feed : ℕ
line_feed = 10

abbrev is_space : ℕ → Bool
is_space x = x == 32 || (leb 9 x && leb x 13)

abbrev is_digit : ℕ → Bool
is_digit x = leb 48 x && leb x 57

abbrev digits : ℕ → List ℕ → ℕ
digits n [] = n
digits n (x ∷ xs) = elim (is_digit x) [ true ↦ digits (n * 10 + (x - 48)) xs | false ↦ n ]

abbrev after_space : List ℕ → ℤ
after_space [] = pos 0
after_space (x ∷ xs) =
    if x == 45
    then pos 0 -ℤ pos (digits 0 xs)
    else if x == 43
    then pos (digits 0 xs)
    else pos (digits 0 (x ∷ xs))

-- `atoi` of the C library.
unfoldable pub atoi : List ℕ → ℤ
atoi [] = pos 0
atoi (x ∷ xs) = elim (is_space x) [ true ↦ atoi xs | false ↦ after_space (x ∷ xs) ]

-- A char array, up to its first zero.
abbrev pub c_string : List ℕ → List ℕ
c_string [] = []
c_string (x ∷ xs) = let rest = c_string xs in if x == 0 then [] else x ∷ rest

-- What the calls `fgets(buf, 80, fp)` read, one after the other. `left` bytes of the array are free.
unfoldable pub gets : ℕ → List ℕ → List (List ℕ)
gets left [] = []
gets left (x ∷ xs) = elim (x == line_feed || leb left 1) [
  | true ↦ (x ∷ []) ∷ gets 79 xs
  | false ↦ elim (gets (left - 1) xs) [ [] ↦ (x ∷ []) ∷ [] | line ∷ lines ↦ (x ∷ line) ∷ lines ]
]

pub record MetaData : Type 0 where
  pub version : ℕ
  pub min_version : ℕ
  pub content_integrity_protection_method : ℕ
  pub merkle_hash_tree_function : ℕ
  pub live_signature_algorithm : ℕ
  pub chunk_addressing_method : ℕ
  pub chunk_size : ℤ
  pub retry_count : ℤ
  pub keep_alive_interval : ℤ
  pub pex_req_interval : ℤ

abbrev pub new : MetaData
new = record {
  version = 1;
  min_version = 1;
  content_integrity_protection_method = cipm_merkle_hash_tree;
  merkle_hash_tree_function = mhf_sha1;
  live_signature_algorithm = lsa_ecdsap256sha256;
  chunk_addressing_method = cam_32bit_chunk_ranges;
  chunk_size = default_chunk_size;
  retry_count = pos 3;
  keep_alive_interval = pos 10;
  pex_req_interval = pos 5;
}

-- The settings, in the order in which the keys are compared.
pub data Key : Type 0 where
  key_version key_min_version key_content_integrity_protection_method key_merkle_hash_tree_function
        key_live_signature_algorithm key_chunk_addressing_method key_chunk_size key_retry_count
        key_keep_alive_interval key_pex_req_interval :
      Key

-- A key's line without its end.
abbrev pub key_line : Key → List ℕ
key_line key_version = 91 ∷ 86 ∷ 69 ∷ 82 ∷ 83 ∷ 73 ∷ 79 ∷ 78 ∷ 93 ∷ []
key_line key_min_version = 91 ∷ 77 ∷ 73 ∷ 78 ∷ 86 ∷ 69 ∷ 82 ∷ 83 ∷ 73 ∷ 79 ∷ 78 ∷ 93 ∷ []
key_line key_content_integrity_protection_method =
    91 ∷ 67 ∷ 79 ∷ 78 ∷ 84 ∷ 69 ∷ 78 ∷ 84 ∷ 95 ∷ 73 ∷ 78 ∷ 84 ∷ 69 ∷ 71 ∷ 82 ∷ 73 ∷ 84 ∷ 89 ∷ 95
    ∷ 80 ∷ 82 ∷ 79 ∷ 84 ∷ 69 ∷ 67 ∷ 84 ∷ 73 ∷ 79 ∷ 78 ∷ 95 ∷ 77 ∷ 69 ∷ 84 ∷ 72 ∷ 79 ∷ 68 ∷ 93 ∷ []
key_line key_merkle_hash_tree_function =
    91 ∷ 77 ∷ 69 ∷ 82 ∷ 75 ∷ 76 ∷ 69 ∷ 95 ∷ 72 ∷ 65 ∷ 83 ∷ 72 ∷ 95 ∷ 84 ∷ 82 ∷ 69 ∷ 69 ∷ 95 ∷ 70
    ∷ 85 ∷ 78 ∷ 67 ∷ 84 ∷ 73 ∷ 79 ∷ 78 ∷ 93 ∷ []
key_line key_live_signature_algorithm =
    91 ∷ 76 ∷ 73 ∷ 86 ∷ 69 ∷ 95 ∷ 83 ∷ 73 ∷ 71 ∷ 78 ∷ 65 ∷ 84 ∷ 85 ∷ 82 ∷ 69 ∷ 95 ∷ 65 ∷ 76 ∷ 71
    ∷ 79 ∷ 82 ∷ 73 ∷ 84 ∷ 72 ∷ 77 ∷ 93 ∷ []
key_line key_chunk_addressing_method =
    91 ∷ 67 ∷ 72 ∷ 85 ∷ 78 ∷ 75 ∷ 95 ∷ 65 ∷ 68 ∷ 68 ∷ 82 ∷ 69 ∷ 83 ∷ 83 ∷ 73 ∷ 78 ∷ 71 ∷ 95 ∷ 77
    ∷ 69 ∷ 84 ∷ 72 ∷ 79 ∷ 68 ∷ 93 ∷ []
key_line key_chunk_size = 91 ∷ 67 ∷ 72 ∷ 85 ∷ 78 ∷ 75 ∷ 95 ∷ 83 ∷ 73 ∷ 90 ∷ 69 ∷ 93 ∷ []
key_line key_retry_count = 91 ∷ 82 ∷ 69 ∷ 84 ∷ 82 ∷ 89 ∷ 95 ∷ 67 ∷ 79 ∷ 85 ∷ 78 ∷ 84 ∷ 93 ∷ []
key_line key_keep_alive_interval =
    91 ∷ 75 ∷ 69 ∷ 69 ∷ 80 ∷ 95 ∷ 65 ∷ 76 ∷ 73 ∷ 86 ∷ 69 ∷ 95 ∷ 73 ∷ 78 ∷ 84 ∷ 69 ∷ 82 ∷ 86 ∷ 65
    ∷ 76 ∷ 93 ∷ []
key_line key_pex_req_interval =
    91 ∷ 80 ∷ 69 ∷ 88 ∷ 95 ∷ 82 ∷ 69 ∷ 81 ∷ 95 ∷ 73 ∷ 78 ∷ 84 ∷ 69 ∷ 82 ∷ 86 ∷ 65 ∷ 76 ∷ 93 ∷ []

abbrev is_key : List ℕ → Key → Bool
is_key line key = equal_bytes line (key_line key ++ (line_feed ∷ []))

abbrev pub find_key : List ℕ → Option Key
find_key line =
    if is_key line key_version
    then some key_version
    else if is_key line key_min_version
    then some key_min_version
    else if is_key line key_content_integrity_protection_method
    then some key_content_integrity_protection_method
    else if is_key line key_merkle_hash_tree_function
    then some key_merkle_hash_tree_function
    else if is_key line key_live_signature_algorithm
    then some key_live_signature_algorithm
    else if is_key line key_chunk_addressing_method
    then some key_chunk_addressing_method
    else if is_key line key_chunk_size
    then some key_chunk_size
    else if is_key line key_retry_count
    then some key_retry_count
    else if is_key line key_keep_alive_interval
    then some key_keep_alive_interval
    else if is_key line key_pex_req_interval
    then some key_pex_req_interval
    else none

-- A char keeps the low eight bits.
unfoldable pub apply : Key → ℤ → MetaData → MetaData
apply key_version v m = record m { version = pattern 8 v }
apply key_min_version v m = record m { min_version = pattern 8 v }
apply key_content_integrity_protection_method v m = record m {
  content_integrity_protection_method = pattern 8 v;
}
apply key_merkle_hash_tree_function v m = record m { merkle_hash_tree_function = pattern 8 v }
apply key_live_signature_algorithm v m = record m { live_signature_algorithm = pattern 8 v }
apply key_chunk_addressing_method v m = record m { chunk_addressing_method = pattern 8 v }
apply key_chunk_size v m = record m { chunk_size = v }
apply key_retry_count v m = record m { retry_count = v }
apply key_keep_alive_interval v m = record m { keep_alive_interval = v }
apply key_pex_req_interval v m = record m { pex_req_interval = v }

-- The lines that are passed over.
abbrev pub is_skipped : List ℕ → Bool
is_skipped [] = true
is_skipped (x ∷ xs) = leb (length (x ∷ xs)) 3 || x == 35 || x == line_feed

-- A line whose key it is, or `none`.
unfoldable pub key_of : List ℕ → Option Key
key_of line = let text = c_string line in if is_skipped text then none else find_key text

-- The loop over the lines; a key without a line behind it ends it.
unfoldable pub read_lines : List (List ℕ) → MetaData → MetaData
read_lines [] m = m
read_lines (line ∷ []) m = m
read_lines (line ∷ value ∷ lines) m = elim (key_of line) [
  | none ↦ read_lines (value ∷ lines) m
  | some key ↦ read_lines lines (apply key (atoi (c_string value)) m)
]

-- `none` is a file that cannot be opened.
unfoldable pub read_config_file : Option (List ℕ) → MetaData → MetaData
read_config_file none m = m
read_config_file (some text) m = read_lines (gets 79 text) m
