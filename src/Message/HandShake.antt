-- ===== src/Message/HandShake.antt =====
-- PP/HandShake.h and PP/HandShake.cpp. `char` is signed, and a pointer has eight bytes.
pub mod Options
pub mod Rounds
pub mod Received
pub mod Steps
pub mod RoundTrip
use ppsp.Common.{
  ℕ, zero, suc, ◌+◌, ◌/◌, ◌%◌, ◌^◌, Bool, true, false, ◌||◌, Option, none, some, List, [], ◌∷◌,
  ◌++◌, length, ltb, leb, ◌==◌, if◌then◌else◌,
}
use ppsp.Common.Int.{ℤ, pos, negsuc, ltb_ℤ}
use ppsp.Util.Endian.{Host, signed8, signed16}
use ppsp.Util.Hex.{Written, null, fault, buffer, get_string_from_hash, get_hash_from_string}
use ppsp.Message.Buffer.{
  Cursor, at, Reader, ◌>>=◌, ◌>>◌, pure, skip, get_byte, get_bytes, get_int, get_short, put_int,
  put_short, run, copy_out,
}

abbrev pub message_type_handshake : ℕ
message_type_handshake = 0x00

abbrev pub code_version : ℕ
code_version = 0x00

abbrev pub code_minimumversion : ℕ
code_minimumversion = 0x01

abbrev pub code_swarmidentifier : ℕ
code_swarmidentifier = 0x02

abbrev pub code_contentintegrityprotectionmethod : ℕ
code_contentintegrityprotectionmethod = 0x03

abbrev pub code_merklehashtreefunction : ℕ
code_merklehashtreefunction = 0x04

abbrev pub code_livesignaturealgorithm : ℕ
code_livesignaturealgorithm = 0x05

abbrev pub code_chunkaddressingmethod : ℕ
code_chunkaddressingmethod = 0x06

abbrev pub code_livediscardwindow : ℕ
code_livediscardwindow = 0x07

abbrev pub code_supportedmessages : ℕ
code_supportedmessages = 0x08

abbrev pub code_chunksize : ℕ
code_chunksize = 0x09

abbrev pub code_peer_listening_port : ℕ
code_peer_listening_port = 0x0A

abbrev pub code_endoption : ℕ
code_endoption = 0xFF

-- The pointer LiveDiscardWindow. Create copies the bytes of the option over the pointer itself, not
-- into the array that it has just allocated.
pub data Window : Type 0 where
  no_window : Window
  overwritten : List ℕ → Window

pub record HandShake : Type 0 where
  pub destination_channel_id : ℤ
  pub message_type : ℕ
  pub source_channel_id : ℤ
  pub version : ℕ
  pub min_version : ℕ
  pub swarm_identifier : Option (List ℕ)
  pub swarm_identifier_string : List ℕ
  pub content_integrity_protection_method : ℕ
  pub merkle_hash_tree_function : ℕ
  pub live_signature_algorithm : ℕ
  pub chunk_addressing_method : ℕ
  pub live_discard_window : Window
  pub supported_messages_bitmap : Option (List ℕ)
  pub supported_messages_bitmap_length : ℕ
  pub chunk_size : ℤ
  pub peer_listening_port : ℤ
  pub have_version : Bool
  pub have_min_version : Bool
  pub have_swarm_identifier : Bool
  pub have_content_integrity_protection_method : Bool
  pub have_merkle_hash_tree_function : Bool
  pub have_live_signature_algorithm : Bool
  pub have_chunk_addressing_method : Bool
  pub have_live_discard_window : Bool
  pub have_supported_messages : Bool
  pub have_chunk_size : Bool

unfoldable pub new : HandShake
new = record {
  destination_channel_id = pos 0;
  message_type = message_type_handshake;
  source_channel_id = pos 0;
  version = 0x01;
  min_version = 0x01;
  swarm_identifier = none;
  swarm_identifier_string = [];
  content_integrity_protection_method = 1;
  merkle_hash_tree_function = 0;
  live_signature_algorithm = 13;
  chunk_addressing_method = 2;
  live_discard_window = no_window;
  supported_messages_bitmap = none;
  supported_messages_bitmap_length = 0;
  chunk_size = pos 0;
  peer_listening_port = pos 0;
  have_version = false;
  have_min_version = false;
  have_swarm_identifier = false;
  have_content_integrity_protection_method = false;
  have_merkle_hash_tree_function = false;
  have_live_signature_algorithm = false;
  have_chunk_addressing_method = false;
  have_live_discard_window = false;
  have_supported_messages = false;
  have_chunk_size = false;
}

-- The identifier behind its length, if the length is positive.
unfoldable pub swarm_option : HandShake → ℤ → Reader HandShake
swarm_option hs (pos (suc n)) = do
  id ← get_bytes (suc n)
  pure (record hs {
    have_swarm_identifier = true;
    swarm_identifier = some id;
    swarm_identifier_string = get_string_from_hash id;
  })
swarm_option hs other = pure (record hs { have_swarm_identifier = true })

unfoldable pub window_option : HandShake → Reader HandShake
window_option hs =
    let cam = hs.chunk_addressing_method in
    let flagged = record hs { have_live_discard_window = true } in
    if cam == 0 || cam == 2
    then (do bytes ← get_bytes 4; pure (record flagged { live_discard_window = overwritten bytes }))
    else if cam == 3 || cam == 4 || cam == 1
    then (do bytes ← get_bytes 8; pure (record flagged { live_discard_window = overwritten bytes }))
    else pure flagged

unfoldable pub supported_option : HandShake → ℤ → Reader HandShake
supported_option hs (pos (suc n)) = do
  bitmap ← get_bytes (suc n)
  pure (record hs {
    have_supported_messages = true;
    supported_messages_bitmap_length = suc n;
    supported_messages_bitmap = some bitmap;
  })
supported_option hs other = pure (record hs { have_supported_messages = true })

-- The cases of the switch, behind the code of the option; `none` is the default case.
unfoldable pub read_option : Host → HandShake → ℕ → Option (Reader HandShake)
read_option h hs code =
    if code == code_version
    then some (do v ← get_byte; pure (record hs { have_version = true; version = v }))
    else if code == code_minimumversion
    then some (do v ← get_byte; pure (record hs { have_min_version = true; min_version = v }))
    else if code == code_swarmidentifier
    then some (do len ← get_short h; swarm_option hs len)
    else if code == code_contentintegrityprotectionmethod
    then some (do
      v ← get_byte
      pure (record hs {
        have_content_integrity_protection_method = true;
        content_integrity_protection_method = v;
      }))
    else if code == code_merklehashtreefunction
    then some (do
      v ← get_byte
      pure (record hs { have_merkle_hash_tree_function = true; merkle_hash_tree_function = v }))
    else if code == code_livesignaturealgorithm
    then some (do
      v ← get_byte
      pure (record hs { have_live_signature_algorithm = true; live_signature_algorithm = v }))
    else if code == code_chunkaddressingmethod
    then some (do
      v ← get_byte
      pure (record hs { have_chunk_addressing_method = true; chunk_addressing_method = v }))
    else if code == code_livediscardwindow
    then some (window_option hs)
    else if code == code_supportedmessages
    then some (do len ← get_byte; supported_option hs (signed8 len))
    else if code == code_chunksize
    then some (do size ← get_int h; pure (record hs { have_chunk_size = true; chunk_size = size }))
    else if code == code_peer_listening_port
    then some (do port ← get_short h; pure (record hs { peer_listening_port = port }))
    else none

-- The loop over the options. It ends at the end option, or at a code that is not known, and leaves
-- `idx` there.
unfoldable pub options : Host → ℕ → HandShake → Cursor → Option (HandShake × Cursor)
options h zero hs c = none
options h (suc fuel) hs c = elim (get_byte c) [
  | none ↦ none
  | some (code, d) ↦ if code == code_endoption then some (hs, c) else elim (read_option h hs code) [
    | none ↦ some (hs, c)
    | some m ↦ elim (m d) [ none ↦ none | some (hs', e) ↦ options h fuel hs' e ]
  ]
]

-- A round of the loop takes a byte or more, so that one round for each byte is enough.
unfoldable pub all_options : Host → HandShake → Reader HandShake
all_options h hs c = options h (suc (length c.rest)) hs c

unfoldable pub create : Host → HandShake → List ℕ → Option (HandShake × ℕ)
create h hs bytes =
    run
      (do
        destination ← get_int h
        skip
        source ← get_int h
        received ←
            all_options h
              (record hs { destination_channel_id = destination; source_channel_id = source })
        skip
        pure received)
      bytes

-- The options that GetBuffer writes, `none` where it faults: the text of the identifier does not give
-- as many bytes as half its length, or the bitmap is shorter than its length says.
unfoldable pub put_swarm : Host → HandShake → Option (List ℕ)
put_swarm h hs = elim hs.swarm_identifier_string [
  | [] ↦ some []
  | c ∷ cs ↦
      let silen = signed16 (length (c ∷ cs) / 2 % 2 ^ 16) in
      elim (get_hash_from_string (c ∷ cs)) [
        | null ↦ none
        | fault ↦ none
        | buffer bits ↦ elim (copy_out silen bits) [
          | none ↦ none
          | some id ↦ some (code_swarmidentifier ∷ (put_short h silen ++ id))
        ]
      ]
]

unfoldable pub put_supported : HandShake → Option (List ℕ)
put_supported hs = elim hs.supported_messages_bitmap [
  | none ↦ some []
  | some bitmap ↦ elim (copy_out (pos hs.supported_messages_bitmap_length) bitmap) [
    | none ↦ none
    | some bytes ↦ some (code_supportedmessages ∷ hs.supported_messages_bitmap_length ∷ bytes)
  ]
]

unfoldable pub put_chunk_size : Host → HandShake → List ℕ
put_chunk_size h hs =
    if ltb_ℤ (pos 0) hs.chunk_size then code_chunksize ∷ put_int h hs.chunk_size else []

unfoldable pub put_port : Host → HandShake → List ℕ
put_port h hs =
    if ltb_ℤ (pos 0) hs.peer_listening_port
    then code_peer_listening_port ∷ put_short h hs.peer_listening_port
    else []

unfoldable pub layout : Host → HandShake → List ℕ → List ℕ → List ℕ
layout h hs swarm supported =
    put_int h hs.destination_channel_id
    ++ (hs.message_type
        ∷ (put_int h hs.source_channel_id
            ++ (code_version
                ∷ hs.version
                ∷ code_minimumversion
                ∷ hs.min_version
                ∷ (swarm
                    ++ (code_contentintegrityprotectionmethod
                        ∷ hs.content_integrity_protection_method
                        ∷ code_merklehashtreefunction
                        ∷ hs.merkle_hash_tree_function
                        ∷ code_chunkaddressingmethod
                        ∷ hs.chunk_addressing_method
                        ∷ (supported
                            ++ (put_chunk_size h hs
                                ++ (put_port h hs ++ (code_endoption ∷ [])))))))))

-- The array on the stack has 1024 bytes.
unfoldable pub get_buffer : Host → HandShake → Written
get_buffer h hs = elim (put_swarm h hs) [
  | none ↦ fault
  | some swarm ↦ elim (put_supported hs) [
    | none ↦ fault
    | some supported ↦
        let bytes = layout h hs swarm supported in
        if leb (length bytes) 1024 then buffer bytes else fault
  ]
]
