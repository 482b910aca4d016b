-- ===== src/Client/Tests.antt =====
-- The theorems on a client at a connection in its first steps.
use ppsp.Common.{
  ℕ, ◌≡◌, ◌≢◌, inr, refl, inl, true, false, none, some, List, [], ◌∷◌, ◌++◌, arith, length, drop,
}
use ppsp.Common.Int.{pos, negsuc}
use ppsp.Util.Endian.{little, big}
use ppsp.Message.Buffer.{copy_out}
use ppsp.Message.HandShake.{HandShake, new as new_handshake, create as read_handshake}
use ppsp.Message.HandShake.Received.{received, IsSendable}
use ppsp.Message.HandShake.RoundTrip.{handshake_round_trip}
use ppsp.Message.Data.{
  Data, new as new_data, create as read_data, data_round_trip, IsSendable as IsDataSendable,
}
use ppsp.Tree.Check.{check_data_integrity}
use ppsp.Binmap.{Binmap, Range}
use ppsp.Peer.Info.{PpInfo, set_info, check_data, with_tree}
use ppsp.Tree.Sha.{Hasher}
use ppsp.Tree.State.{new as new_tree}
use ppsp.Client.{PpClient, World, Env, my_info, ◌>>=◌, new}
use ppsp.Client.Send.{send_next_request}
use ppsp.Client.Next.{IsNext, send_next_request-IsNext}
use ppsp.Client.Receive.{
  receive_handshake, receive_data, client_of, wrong_swarm, refused, admit, examine, after_handshake,
  accepted,
}
use ppsp.Client.Handle.{handle_message}
use ppsp.Client.Silence.{keep_alive_rounds, keep_alive_rounds-stop}
use ppsp.Client.Rejected.{IsRejection, receive_data-IsRejection}
use ppsp.Client.Refusals.{IsIdle, handle_message-IsIdle}
use ppsp.Client.Agreement.{IsSameSwarm}
use ppsp.Client.Gate.{
  IsAdmitted, receive_handshake-IsAdmitted, receive_handshake-refused, other_content,
}

abbrev no_hash : Hasher
no_hash = record {
  sha1_encrypt = λ a. [];
  sha1_encrypt_lr = λ a b. [];
  sha256_encrypt = λ a. [];
  sha256_encrypt_lr = λ a b. [];
}

abbrev surroundings : Env
surroundings = record {
  host = big;
  beyond = [];
  now = 0;
  pex_list = none;
  can_create = true;
  inet = record { inet_addr = λ a. pos 0; inet_ntoa = λ a. [] };
  sha = no_hash;
  doubled = λ x. x;
}

abbrev map_of : List Range → Binmap
map_of ranges = record {
  requested = [];
  file_name = [];
  disk = some [];
  opened = false;
  position = 0;
  log_print_size = pos 0;
  cp = negsuc 0;
  chunk_range_list = ranges;
  last_chunk = negsuc 0;
  last_chunk_size = pos 0;
}

abbrev info_with : Binmap → PpInfo
info_with b = record {
  file_name = [];
  ip_address = [];
  port = pos 0;
  is_seeder = false;
  chunk_size = pos 1024;
  file_hash_tree = new_tree;
  file_binmap = b;
  swarm_id = [];
  version = 1;
  min_version = 1;
  content_integrity_protection_method = 1;
  merkle_hash_tree_function = 0;
  live_signature_algorithm = 13;
  chunk_addressing_method = 2;
  live_discard_window = none;
  supported_messages_bitmap = none;
  supported_messages_bitmap_length = 0;
  retry_count = pos 3;
  keep_alive_interval = pos 10;
  pex_req_interval = pos 5;
  listen_port_option = pos 0;
  is_first_data = true;
}

-- A peer with the chunks 0 to 3, and a client with none.
abbrev full_peer : PpInfo
full_peer = info_with (map_of (record { start = pos 0; end = pos 3 } ∷ []))

abbrev world_of : PpClient → World
world_of c = record {
  client = c;
  info = info_with (map_of []);
  sent = [];
  stop_calls = 0;
  pex_threads = 0;
}

abbrev fresh : PpClient
fresh = new full_peer (pos 0) [] (pos 8000) []

send_next_request-IsNext_example :
    (w' : World) × (send_next_request surroundings (world_of fresh) ≡ some w')
    × IsNext surroundings (world_of fresh) w'
send_next_request-IsNext_example = send_next_request-IsNext surroundings (world_of fresh) refl

keep_alive_rounds-stop_example :
    (keep_alive_rounds surroundings 12 (world_of fresh) (pos 0)).0.client.is_stop ≡ true
keep_alive_rounds-stop_example =
    keep_alive_rounds-stop surroundings 12 10 0 (world_of fresh) (pos 0)
      (record { interval = refl; silent = refl }) (omega arith) (omega arith)

-- A HAVE message from a peer without a handshake.
abbrev have_bytes : List ℕ
have_bytes = 0 ∷ 0 ∷ 0 ∷ 0 ∷ 3 ∷ 0 ∷ 0 ∷ 0 ∷ 0 ∷ 0 ∷ 0 ∷ 0 ∷ 3 ∷ []

abbrev queued : PpClient
queued = record fresh { message_queue = have_bytes ∷ [] }

handle_message-IsIdle_example :
    (w' : World) × (handle_message surroundings (world_of queued) ≡ some w')
    × IsIdle (world_of queued) w'
handle_message-IsIdle_example =
    handle_message-IsIdle surroundings (world_of queued) have_bytes [] 3 refl refl refl
      (λ e. absurd (omega arith))

-- A DATA message for two chunks at once.
abbrev handshaked : PpClient
handshaked = record fresh { is_handshaked = true }

abbrev two_chunks : Data
two_chunks = record {
  destination_channel_id = pos 0;
  message_type = 1;
  start_chunk = pos 0;
  end_chunk = pos 1;
  chunk_size = pos 1024;
  buffer_size = pos 1;
  timestamp = 5;
  data_buffer = some (7 ∷ []);
}

abbrev reader : Data
reader = record new_data { chunk_size = pos 1024 }

two_chunks-IsSendable : IsDataSendable 77 two_chunks (7 ∷ [])
two_chunks-IsSendable = record {
  channel = omega arith;
  start = omega arith;
  end = omega arith;
  time = omega arith;
  clock = omega arith;
  held = refl;
  sized = refl;
  some_data = omega arith;
}

abbrev data_bytes : List ℕ
data_bytes = (data_round_trip big little 77 reader two_chunks (7 ∷ []) two_chunks-IsSendable).0

abbrev data_read : Data
data_read = record two_chunks { message_type = reader.message_type }

data_bytes_read : read_data big reader data_bytes (pos (length data_bytes)) ≡ some (data_read, 22)
unfolding new_data
data_bytes_read = (data_round_trip big little 77 reader two_chunks (7 ∷ []) two_chunks-IsSendable).3

two_chunks_refused :
    check_data no_hash (world_of handshaked).info (pos 0) data_read
    ≡ some (0, (world_of handshaked).info)
unfolding check_data with_tree check_data_integrity
two_chunks_refused = refl

receive_data-IsRejection_example :
    (w' : World) × (receive_data surroundings data_bytes
        (pos (length data_bytes))
        (world_of handshaked)
      ≡ some w')
    × IsRejection surroundings (world_of handshaked) w'
receive_data-IsRejection_example =
    receive_data-IsRejection surroundings (world_of handshaked) data_bytes (pos (length data_bytes))
      data_read 22 (world_of handshaked).info refl refl data_bytes_read two_chunks_refused

-- A handshake without a swarm, from channel 5 of a host of the other byte order.
abbrev plain : HandShake
plain = record new_handshake { source_channel_id = pos 5 }

plain-IsSendable : IsSendable none plain
unfolding new_handshake
plain-IsSendable = record {
  destination = omega arith;
  source = omega arith;
  text = refl;
  sized = tt;
  bitmap = tt;
  chunk = omega arith;
  port = omega arith;
}

abbrev plain_bytes : List ℕ
plain_bytes = (handshake_round_trip big little new_handshake plain none (1 ∷ []) plain-IsSendable).0

plain_read :
    read_handshake big new_handshake (plain_bytes ++ (1 ∷ []))
    ≡ some (received none plain new_handshake, length plain_bytes)
plain_read = (handshake_round_trip big little new_handshake plain none (1 ∷ []) plain-IsSendable).2

drop-length-append : (xs ys : List ℕ) → drop (length xs) (xs ++ ys) ≡ ys
drop-length-append [] ys = refl
drop-length-append (x ∷ xs) ys = drop-length-append xs ys

-- The client waits for the answer to its own handshake.
abbrev waiting : PpClient
waiting = record fresh { send_handshake = true }

abbrev peer_read : PpInfo
peer_read = record full_peer { supported_messages_bitmap = some []; chunk_size = pos 0 }

abbrev answered : World
answered =
    client_of (world_of waiting)
      (record waiting { dest_channel_id = pos 5; peer_info = peer_read; is_handshaked = true })

plain_answered :
    receive_handshake surroundings (plain_bytes ++ (1 ∷ [])) (world_of waiting) ≡ some answered
unfolding receive_handshake examine wrong_swarm set_info refused admit after_handshake accepted
    my_info copy_out new_handshake
plain_answered =
    rw (receive_handshake, plain_read, ◌>>=◌, drop-length-append plain_bytes (1 ∷ [])) refl

receive_handshake-IsAdmitted_example :
    (hs : HandShake) × (idx : ℕ) × (read_handshake big new_handshake (plain_bytes ++ (1 ∷ []))
      ≡ some (hs, idx))
    × IsAdmitted (world_of waiting) hs
receive_handshake-IsAdmitted_example =
    receive_handshake-IsAdmitted surroundings (plain_bytes ++ (1 ∷ [])) (world_of waiting) answered
      refl refl plain_answered refl

-- A client of another content.
abbrev seeding : World
seeding = record (world_of (record fresh { swarm_id = 97 ∷ [] })) {
  info = record (info_with (map_of [])) { is_seeder = true };
}

no_text : (n : ℕ) (l : List ℕ) → n ∷ l ≢ []
no_text n l e = ground (arith, e)

other_swarm : ¬ IsSameSwarm seeding.client seeding.info (received none plain new_handshake)
unfolding new_handshake
other_swarm (inl e) = absurd (ground (arith, e.0))
other_swarm (inr e) = no_text 97 [] e

receive_handshake-refused_example :
    (w' : World) × (receive_handshake surroundings (plain_bytes ++ (1 ∷ [])) seeding ≡ some w')
    × IsIdle seeding w'
    × (w'.client.is_stop ≡ true)
receive_handshake-refused_example =
    receive_handshake-refused surroundings (plain_bytes ++ (1 ∷ [])) seeding
      (received none plain new_handshake) (length plain_bytes) refl refl plain_read
      (other_content other_swarm)
