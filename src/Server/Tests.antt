-- ===== src/Server/Tests.antt =====
-- The theorems on a server that receives the first datagram of a peer, and on the start of a seeder.
use ppsp.Common.{ℕ, ◌≡◌, refl, true, false, none, some, List, [], ◌∷◌, arith}
use ppsp.Common.Int.{pos, negsuc, ◌+ℤ◌}
use ppsp.Util.Endian.{big, calc_endian_n2h_int, load32}
use ppsp.Message.Buffer.{get_int}
use ppsp.Peer.Info.{PpInfo}
use ppsp.Tree.State.{new as new_tree}
use ppsp.Client.{Env, new, set_message, enqueue}
use ppsp.Server.{PpServer, Memory, receive, route, accept, deliver}
use ppsp.Server.Channels.{IsServed}
use ppsp.Server.Steps.{receive-IsServed}
use ppsp.Server.Setup.{start}
use ppsp.Server.Seeding.{IsSeeding, start-IsSeeding}
use ppsp.Server.Joining.{start-IsServed}
use ppsp.Tree.Tests.{sums, sums-HasDigests}

abbrev pub blank_info : PpInfo
blank_info = record {
  file_name = [];
  ip_address = [];
  port = pos 0;
  is_seeder = false;
  chunk_size = pos 1024;
  file_hash_tree = new_tree;
  file_binmap = record {
    requested = [];
    file_name = [];
    disk = none;
    opened = false;
    position = 0;
    log_print_size = pos 0;
    cp = negsuc 0;
    chunk_range_list = [];
    last_chunk = negsuc 0;
    last_chunk_size = pos 0;
  };
  swarm_id = [];
  version = 1;
  min_version = 1;
  content_integrity_protection_method = 1;
  merkle_hash_tree_function = 0;
  live_signature_algorithm = 13;
  chunk_addressing_method = 2;
  live_discard_window = none;
  supported_messages_bitmap = none;
  supported_messages_bitmap_length = 0;
  retry_count = pos 3;
  keep_alive_interval = pos 10;
  pex_req_interval = pos 5;
  listen_port_option = pos 0;
  is_first_data = false;
}

abbrev around : Env
around = record {
  host = big;
  beyond = [];
  now = 0;
  pex_list = none;
  can_create = false;
  inet = record { inet_addr = λ a. pos 0; inet_ntoa = λ a. [] };
  sha = record {
    sha1_encrypt = λ a. [];
    sha1_encrypt_lr = λ a b. [];
    sha256_encrypt = λ a. [];
    sha256_encrypt_lr = λ a b. [];
  };
  doubled = λ x. x;
}

abbrev pub memory : Memory
memory = record { peer_info = blank_info; retry_count = pos 0; port = pos 0 }

-- A server without clients.
abbrev empty_server : PpServer
empty_server = record {
  info = blank_info;
  tracker_ip_address = [];
  tracker_port = pos 0;
  next_channel_id = pos 1;
  is_stop = false;
  clients = [];
  next_address = 0;
  sent = [];
}

abbrev greeting : List ℕ
greeting = 0 ∷ 0 ∷ 0 ∷ 0 ∷ 0 ∷ []

abbrev greeted : PpServer
greeted = record empty_server {
  next_channel_id = pos 2;
  clients =
      record {
        address = 0;
        client = record (new blank_info (pos 0) (49 ∷ []) (pos 0) []) {
          channel_id = pos 1;
          message_queue = greeting ∷ [];
          recv_thread = true;
        };
      }
      ∷ [];
  next_address = 1;
}

empty_server-IsServed : IsServed empty_server
empty_server-IsServed = record { counted = omega arith; below = tt; distinct = tt }

greeting_received : receive around memory (49 ∷ []) greeting empty_server ≡ some greeted
unfolding receive route accept deliver set_message enqueue get_int ◌+ℤ◌ calc_endian_n2h_int load32
greeting_received = refl

receive-IsServed_example : IsServed greeted
receive-IsServed_example =
    receive-IsServed around memory (49 ∷ []) greeting empty_server greeted empty_server-IsServed
      greeting_received

-- A seeder with a file of three chunks of one byte each.
abbrev seeder : PpServer
seeder = record empty_server {
  info = record blank_info {
    file_name = 49 ∷ [];
    port = pos 20000;
    chunk_size = pos 1;
    file_binmap = record blank_info.file_binmap { disk = some (5 ∷ 7 ∷ 9 ∷ []) };
  };
}

abbrev pub hashing : Env
hashing = record around { sha = sums }

seeder_started :
    (s' : PpServer) × (start hashing memory seeder ≡ some (1, s'))
    × IsSeeding hashing 1 (5 ∷ 7 ∷ 9 ∷ []) seeder s'
seeder_started =
    start-IsSeeding hashing memory seeder 1 (5 ∷ 7 ∷ 9 ∷ []) sums-HasDigests refl refl refl refl
      refl (omega arith) (omega arith) (omega arith)

start-IsServed_example : IsServed seeder_started.0
start-IsServed_example =
    start-IsServed hashing memory seeder seeder_started.0 1 refl (omega arith) seeder_started.1
