-- ===== src/Server/Setup.antt =====
-- The constructor of PPServer, its setters, Start and Stop. The socket is not modelled: Start does not
-- look at the result of CreateSocket.
use ppsp.Common.{
  ℕ, zero, suc, Bool, true, false, ◌&&◌, Option, none, some, List, [], ◌∷◌, length, ◌++◌, leb, ltb,
  if◌then◌else◌,
}
use ppsp.Common.Int.{ℤ, pos, ◌+ℤ◌, ltb_ℤ}
use ppsp.Message.Integrity.{mhf_sha1}
use ppsp.Peer.Info.{PpInfo, new as new_info, set_name, set_swarm_id, make_hash_tree}
use ppsp.Peer.Supported.{Supported, set_supported_messages}
use ppsp.Client.{Env, ◌>>=◌, new as new_client}
use ppsp.Client.Receive.{cipm_merkle_hash_tree, cam_32bit_chunk_ranges}
use ppsp.Client.Handle.{start as start_client}
use ppsp.Server.{Peer, PpServer, Memory, add_client}

unfoldable pub set_port : ℤ → PpServer → PpServer
set_port port s = record s { info = record s.info { port = port } }

unfoldable pub set_ip_address : List ℕ → PpServer → PpServer
set_ip_address ip s = record s { info = record s.info { ip_address = ip } }

unfoldable pub set_file_name : List ℕ → PpServer → PpServer
set_file_name name s = record s { info = set_name s.info name }

unfoldable pub set_swarm : List ℕ → PpServer → Option PpServer
set_swarm hash s = do info ← set_swarm_id s.info hash; some (record s { info = info })

unfoldable pub set_tracker : List ℕ → ℤ → PpServer → PpServer
set_tracker ip port s = record s { tracker_ip_address = ip; tracker_port = port }

-- The setters of the options of a handshake; each is a char.
unfoldable pub set_versions : ℕ → ℕ → PpServer → PpServer
set_versions version min_version s = record s {
  info = record s.info { version = version; min_version = min_version };
}

unfoldable pub set_methods : ℕ → ℕ → ℕ → PpServer → PpServer
set_methods cipm mhf cam s = record s {
  info = record s.info {
    content_integrity_protection_method = cipm;
    merkle_hash_tree_function = mhf;
    chunk_addressing_method = cam;
  };
}

unfoldable pub set_live_signature_algorithm : ℕ → PpServer → PpServer
set_live_signature_algorithm lsa s = record s {
  info = record s.info { live_signature_algorithm = lsa };
}

unfoldable pub set_chunk_size : ℤ → PpServer → PpServer
set_chunk_size size s = record s { info = record s.info { chunk_size = size } }

unfoldable pub set_retry_count : ℤ → PpServer → PpServer
set_retry_count count s = record s { info = record s.info { retry_count = count } }

unfoldable pub set_intervals : ℤ → ℤ → PpServer → PpServer
set_intervals keep_alive pex_req s = record s {
  info = record s.info { keep_alive_interval = keep_alive; pex_req_interval = pex_req };
}

unfoldable pub set_listen_port_option : ℤ → PpServer → PpServer
set_listen_port_option use_it s = record s { info = record s.info { listen_port_option = use_it } }

unfoldable pub set_supported : Supported → PpServer → PpServer
set_supported supported s = record s {
  info = record s.info {
    supported_messages_bitmap_length = 2;
    supported_messages_bitmap = some (set_supported_messages supported);
  };
}

abbrev all_but_signed : Supported
all_but_signed = record {
  handshake = true;
  data_messages = true;
  ack = true;
  have = true;
  integrity = true;
  pex_resv4 = true;
  pex_req = true;
  signed_integrity = false;
  request = true;
  cancel = true;
  choke = true;
  unchoke = true;
  pex_resv6 = false;
  pex_rescert = false;
}

-- The constructor; `memory` is what the one of PPInfo leaves as it is.
unfoldable pub new : PpInfo → PpServer
new memory =
    let blank : PpServer = record {
      info = new_info memory;
      tracker_ip_address = [];
      tracker_port = pos 0;
      next_channel_id = pos 1;
      is_stop = false;
      clients = [];
      next_address = 0;
      sent = [];
    } in
    set_supported all_but_signed
      (set_methods cipm_merkle_hash_tree mhf_sha1 cam_32bit_chunk_ranges (set_versions 1 1 blank))

-- The loop of Start over the clients; the clients of `s` are those that have started.
unfoldable pub start_each : Env → List Peer → PpServer → Option PpServer
start_each env [] s = some s
start_each env (p ∷ rest) s = do
  w ←
      start_client env s.next_channel_id (record {
        client = p.client;
        info = s.info;
        sent = s.sent;
        stop_calls = 0;
        pex_threads = 0;
      })
  start_each env rest (record s {
    clients = s.clients ++ (record p { client = w.client } ∷ []);
    next_channel_id = s.next_channel_id +ℤ pos 1;
    sent = w.sent;
  })

unfoldable pub run : Env → PpServer → Option (ℕ × PpServer)
run env s = do started ← start_each env s.clients (record s { clients = [] }); some (1, started)

abbrev pub has_tracker : PpServer → Bool
has_tracker s =
    ltb 0 (length s.tracker_ip_address)
    && ltb 0 (length s.info.swarm_id)
    && ltb_ℤ (pos 0) s.tracker_port
    && ltb_ℤ (pos 0) s.info.port

abbrev pub has_file : PpServer → Bool
has_file s = ltb_ℤ (pos 0) s.info.port && ltb 0 (length s.info.file_name)

-- A peer that asks the tracker.
unfoldable pub join : Env → Memory → PpServer → Option (ℕ × PpServer)
join env memory s =
    let named = if leb (length s.info.file_name) 0 then set_file_name s.info.swarm_id s else s in
    run env (
      add_client named (
        new_client memory.peer_info memory.retry_count s.tracker_ip_address s.tracker_port
          named.info.swarm_id))

unfoldable pub with_file : Env → PpServer → Option (ℕ × PpInfo) → Option (ℕ × PpServer)
with_file env s none = none
with_file env s (some (zero, info)) = some (0, record s { info = info })
with_file env s (some (suc made, info)) = run env (record s { info = info })

unfoldable pub seed : Env → PpServer → Option (ℕ × PpServer)
seed env s = with_file env s (make_hash_tree env.sha (record s.info { is_seeder = true }))

unfoldable pub start : Env → Memory → PpServer → Option (ℕ × PpServer)
start env memory s = elim (has_tracker s) [
  | true ↦ join env memory s
  | false ↦ elim (has_file s) [ true ↦ seed env s | false ↦ some (0, s) ]
]

unfoldable pub stop : PpServer → PpServer
stop s = record s { is_stop = true; clients = [] }
