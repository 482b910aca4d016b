-- ===== src/Message/HandShake/Received.antt =====
-- What a handshake says, as the state of the object that has read it.
use ppsp.Common.{ℕ, ◌<◌, ◌≡◌, true, Option, none, some, List, [], length, if◌then◌else◌, All}
use ppsp.Common.Int.{ℤ, pos, ltb_ℤ}
use ppsp.Util.Endian.Laws.{IsInt, IsShort, IsByte}
use ppsp.Util.Hex.{get_string_from_hash}
use ppsp.Message.HandShake.{HandShake}

-- What the options do to the object of the reader.
abbrev pub got_swarm : Option (List ℕ) → HandShake → HandShake
got_swarm none o = o
got_swarm (some id) o = record o {
  have_swarm_identifier = true;
  swarm_identifier = some id;
  swarm_identifier_string = get_string_from_hash id;
}

abbrev pub got_supported : Option (List ℕ) → HandShake → HandShake
got_supported none o = o
got_supported (some bitmap) o = record o {
  have_supported_messages = true;
  supported_messages_bitmap_length = length bitmap;
  supported_messages_bitmap = some bitmap;
}

abbrev pub got_chunk_size : ℤ → HandShake → HandShake
got_chunk_size size o =
    if ltb_ℤ (pos 0) size then record o { have_chunk_size = true; chunk_size = size } else o

abbrev pub got_port : ℤ → HandShake → HandShake
got_port port o = if ltb_ℤ (pos 0) port then record o { peer_listening_port = port } else o

abbrev pub got_head : HandShake → HandShake → HandShake
got_head hs o = record o {
  destination_channel_id = hs.destination_channel_id;
  source_channel_id = hs.source_channel_id;
}

abbrev pub got_versions : HandShake → HandShake → HandShake
got_versions hs o = record o {
  have_version = true;
  version = hs.version;
  have_min_version = true;
  min_version = hs.min_version;
}

abbrev pub got_methods : HandShake → HandShake → HandShake
got_methods hs o = record o {
  have_content_integrity_protection_method = true;
  content_integrity_protection_method = hs.content_integrity_protection_method;
  have_merkle_hash_tree_function = true;
  merkle_hash_tree_function = hs.merkle_hash_tree_function;
  have_chunk_addressing_method = true;
  chunk_addressing_method = hs.chunk_addressing_method;
}

-- The reader's object `o` after the handshake `hs` with the swarm identifier `swarm`.
abbrev pub received : Option (List ℕ) → HandShake → HandShake → HandShake
received swarm hs o = got_port hs.peer_listening_port (
    got_chunk_size hs.chunk_size (
      got_supported hs.supported_messages_bitmap
        (got_methods hs (got_swarm swarm (got_versions hs (got_head hs o))))))

abbrev pub text_of : Option (List ℕ) → List ℕ
text_of none = []
text_of (some id) = get_string_from_hash id

-- An identifier is a SHA-1 hash.
abbrev pub IsSwarm : Option (List ℕ) → Type 0
IsSwarm none = Unit {0}
IsSwarm (some id) = All IsByte id × (length id ≡ 20)

abbrev pub IsBitmap : ℕ → Option (List ℕ) → Type 0
IsBitmap n none = Unit {0}
IsBitmap n (some bitmap) = (length bitmap ≡ n) × (0 < n) × (n < 128)

pub record IsSendable (swarm : Option (List ℕ)) (hs : HandShake) : Type 0 where
  pub destination : IsInt hs.destination_channel_id
  pub source : IsInt hs.source_channel_id
  pub text : hs.swarm_identifier_string ≡ text_of swarm
  pub sized : IsSwarm swarm
  pub bitmap : IsBitmap hs.supported_messages_bitmap_length hs.supported_messages_bitmap
  pub chunk : IsInt hs.chunk_size
  pub port : IsShort hs.peer_listening_port
