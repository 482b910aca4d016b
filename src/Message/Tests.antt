-- ===== src/Message/Tests.antt =====
-- The theorems on the messages at concrete messages.
use ppsp.Common.{
  ◌≤◌, suc, ℕ, ◌≡◌, refl, true, false, some, List, [], ◌∷◌, ◌++◌, arith, length, replicate,
  All-replicate,
}
use ppsp.Common.Int.{pos}
use ppsp.Util.Endian.{little, big, load32, signed32}
use ppsp.Util.Endian.Laws.{IsByte}
use ppsp.Util.Hex.{buffer, get_string_from_hash}
use ppsp.Message.Buffer.{at}
use ppsp.Message.Have
use ppsp.Message.Request
use ppsp.Message.Cancel
use ppsp.Message.Choke
use ppsp.Message.Unchoke
use ppsp.Message.PexReq
use ppsp.Message.Ack
use ppsp.Message.Data
use ppsp.Message.Integrity
use ppsp.Message.PexRes
use ppsp.Message.HandShake
use ppsp.Message.Choke.{choke_round_trip}
use ppsp.Message.Unchoke.{unchoke_round_trip}
use ppsp.Message.PexReq.{pex_req_round_trip}
use ppsp.Message.Data.{data_round_trip}
use ppsp.Message.Integrity.{integrity_round_trip}
use ppsp.Message.PexRes.{pex_res_round_trip, pex_res_reversed}
use ppsp.Message.Chunks.{have_to, request_to, cancel_to, ack_to, chunks_round_trip}
use ppsp.Message.Signals.{choke_to, unchoke_to, pex_req_to, signals_round_trip}
use ppsp.Message.HandShake.Rounds.{Runs, options-Runs}
use ppsp.Message.HandShake.Received.{received}
use ppsp.Message.HandShake.RoundTrip.{handshake_round_trip}

chunks_round_trip_example :
    (Have.create little
        (Have.new (pos 0) (pos 0))
        (Have.get_buffer big (have_to (pos 7) (pos 3) (pos 4)) false ++ (9 ∷ []))
        false
      ≡ some (have_to (pos 7) (pos 3) (pos 4), 13))
    × (Have.create little
          (Have.new (pos 0) (pos 0))
          (Have.get_buffer big (have_to (pos 7) (pos 3) (pos 4)) true ++ (9 ∷ []))
          true
        ≡ some (have_to (pos 0) (pos 3) (pos 4), 9))
    × (Request.create little
          (Request.new (pos 0) (pos 0))
          (Request.get_buffer big (request_to (pos 7) (pos 3) (pos 4)) ++ (9 ∷ []))
        ≡ some (request_to (pos 7) (pos 3) (pos 4), 13))
    × (Cancel.create little
          (Cancel.new (pos 0) (pos 0))
          (Cancel.get_buffer big (cancel_to (pos 7) (pos 3) (pos 4)) ++ (9 ∷ []))
        ≡ some (cancel_to (pos 7) (pos 3) (pos 4), 13))
    × (Ack.create little Ack.new
          (Ack.get_buffer big (ack_to (pos 7) (pos 3) (pos 4) 123456789012) ++ (9 ∷ []))
        ≡ some (ack_to (pos 7) (pos 3) (pos 4) 123456789012, 21))
chunks_round_trip_example =
    chunks_round_trip little big (pos 7) (pos 3) (pos 4) 123456789012 (9 ∷ []) (omega arith)
      (omega arith) (omega arith) (omega arith)

signals_round_trip_example :
    (Choke.create little Choke.new (Choke.get_buffer big (choke_to (pos 5)) ++ (1 ∷ []))
      ≡ some (choke_to (pos 5), 5))
    × (Unchoke.create little Unchoke.new (Unchoke.get_buffer big (unchoke_to (pos 5)) ++ (1 ∷ []))
        ≡ some (unchoke_to (pos 5), 5))
    × (PexReq.create little PexReq.new (PexReq.get_buffer big (pex_req_to (pos 5)) ++ (1 ∷ []))
        ≡ some (pex_req_to (pos 5), 5))
signals_round_trip_example = signals_round_trip little big (pos 5) (1 ∷ []) (omega arith)

abbrev a_chunk : Data.Data
a_chunk = record {
  destination_channel_id = pos 5;
  message_type = 0x01;
  start_chunk = pos 2;
  end_chunk = pos 2;
  chunk_size = pos 4;
  buffer_size = pos 3;
  timestamp = 0;
  data_buffer = some (10 ∷ 20 ∷ 30 ∷ []);
}

data_round_trip_example :
    (bytes : List ℕ) × (Data.get_buffer little 77 a_chunk ≡ (Data.stamped 77 a_chunk, buffer bytes))
    × (length bytes ≡ 24)
    × (Data.create big a_chunk bytes (pos (length bytes))
        ≡ some (record a_chunk { timestamp = 77 }, 24))
data_round_trip_example =
    data_round_trip big little 77 a_chunk a_chunk (10 ∷ 20 ∷ 30 ∷ []) (record {
      channel = omega arith;
      start = omega arith;
      end = omega arith;
      time = omega arith;
      clock = omega arith;
      held = refl;
      sized = refl;
      some_data = omega arith;
    })

abbrev an_integrity : Integrity.Integrity
an_integrity = record {
  destination_channel_id = pos 5;
  message_type = 0x04;
  start_chunk = pos 2;
  end_chunk = pos 3;
  merkle_hash_tree_function = 0;
  hash = some (replicate 20 171);
}

integrity_round_trip_example :
    (bytes : List ℕ) × (Integrity.get_buffer little an_integrity ≡ buffer bytes)
    × (Integrity.create big (Integrity.new 0) (bytes ++ (1 ∷ [])) ≡ some (an_integrity, 33))
unfolding Integrity.new Integrity.digest_len
integrity_round_trip_example =
    integrity_round_trip big little (Integrity.new 0) an_integrity (replicate 20 171) (1 ∷ [])
      (record {
        channel = omega arith;
        start = omega arith;
        end = omega arith;
        held = refl;
        sized = refl;
      })
      refl refl

-- The text `10.0.0.9`, and a resolver that knows this address.
abbrev address : List ℕ
address = 49 ∷ 48 ∷ 46 ∷ 48 ∷ 46 ∷ 48 ∷ 46 ∷ 57 ∷ []

abbrev resolver : PexRes.Inet
resolver = record {
  inet_addr = λ text. signed32 (load32 little 10 0 0 9);
  inet_ntoa = λ number. address;
}

abbrev a_peer : PexRes.PexRes
a_peer = record {
  destination_channel_id = pos 5;
  message_type = 0x05;
  ipv4_address = pos 0;
  ipv4_address_string = address;
  port = pos 8000;
}

a_peer-IsDotted : PexRes.IsDotted little resolver address 10 0 0 9
a_peer-IsDotted = record {
  octets = (omega arith, omega arith, omega arith, omega arith);
  written = omega arith;
  address = refl;
  shown = refl;
}

pex_res_round_trip_example :
    PexRes.create little resolver PexRes.new ((PexRes.get_buffer little resolver a_peer).1 ++ [])
    ≡ some (
      record PexRes.new {
        destination_channel_id = pos 5;
        ipv4_address = signed32 (load32 little 10 0 0 9);
        ipv4_address_string = address;
        port = pos 8000;
      },
      11,
    )
pex_res_round_trip_example =
    pex_res_round_trip little resolver PexRes.new a_peer [] 10 0 0 9
      (record { channel = omega arith; unset = refl; in_range = omega arith }) a_peer-IsDotted

pex_res_reversed_example :
    PexRes.create big resolver PexRes.new ((PexRes.get_buffer little resolver a_peer).1 ++ [])
    ≡ some (
      record PexRes.new {
        destination_channel_id = pos 5;
        ipv4_address = signed32 (load32 big 9 0 0 10);
        ipv4_address_string = address;
        port = pos 8000;
      },
      11,
    )
pex_res_reversed_example =
    pex_res_reversed little resolver resolver PexRes.new a_peer [] 10 0 0 9
      (record { channel = omega arith; unset = refl; in_range = omega arith }) a_peer-IsDotted

-- A handshake with all options that GetBuffer writes.
abbrev a_handshake : HandShake.HandShake
a_handshake = record HandShake.new {
  destination_channel_id = pos 0;
  source_channel_id = pos 5;
  swarm_identifier_string = get_string_from_hash (replicate 20 171);
  supported_messages_bitmap = some (255 ∷ 252 ∷ []);
  supported_messages_bitmap_length = 2;
  chunk_size = pos 1024;
  peer_listening_port = pos 8000;
}

handshake_round_trip_example :
    (bytes : List ℕ) × (HandShake.get_buffer little a_handshake ≡ buffer bytes)
    × (HandShake.create big HandShake.new (bytes ++ (1 ∷ []))
        ≡ some (received (some (replicate 20 171)) a_handshake HandShake.new, length bytes))
handshake_round_trip_example =
    handshake_round_trip big little HandShake.new a_handshake (some (replicate 20 171)) (1 ∷ [])
      (record {
        destination = omega arith;
        source = omega arith;
        text = refl;
        sized = (All-replicate IsByte 20 171 (omega arith), refl);
        bitmap = (refl, omega arith, omega arith);
        chunk = omega arith;
        port = omega arith;
      })

options-Runs_example :
    (k : ℕ) × (k ≤ suc 3)
    × Runs little k HandShake.new
        (at (0 ∷ 1 ∷ 255 ∷ []) 9)
        (HandShake.options little 4 HandShake.new (at (0 ∷ 1 ∷ 255 ∷ []) 9))
options-Runs_example = options-Runs little 4 HandShake.new (at (0 ∷ 1 ∷ 255 ∷ []) 9) (omega arith)
