-- ===== src/Client/Send.antt =====
-- What a client sends: the functions SendX of PPClient.cpp.
use ppsp.Common.{
  ℕ, ◌+◌, ◌-◌, ◌%◌, ◌^◌, Bool, true, false, ◌&&◌, Option, none, some, List, [], ◌∷◌, ◌++◌, length,
  if◌then◌else◌,
}
use ppsp.Common.Int.{ℤ, pos, leb_ℤ, ltb_ℤ}
use ppsp.Util.Endian.{pattern, signed16}
use ppsp.Util.Hex.{Written, null, fault, buffer}
use ppsp.Message.Buffer.{copy_out, put_int}
use ppsp.Message.HandShake.{HandShake, new as new_handshake, get_buffer as handshake_buffer}
use ppsp.Message.Have.{Have, new as new_have, get_buffer as have_buffer}
use ppsp.Message.Request.{Request, new as new_request, get_buffer as request_buffer}
use ppsp.Message.Integrity.{set_hash, new as new_integrity, get_buffer as integrity_buffer}
use ppsp.Message.Data.{Data, new as new_data, get_buffer as data_buffer_of}
use ppsp.Message.Ack.{new as new_ack, get_buffer as ack_buffer}
use ppsp.Message.PexReq.{new as new_pex_req, get_buffer as pex_req_buffer}
use ppsp.Message.PexRes.{new as new_pex_res, get_buffer as pex_res_buffer}
use ppsp.Message.Cancel.{new as new_cancel, get_buffer as cancel_buffer}
use ppsp.Message.Choke.{new as new_choke, get_buffer as choke_buffer}
use ppsp.Message.Unchoke.{new as new_unchoke, get_buffer as unchoke_buffer}
use ppsp.Binmap.{Range}
use ppsp.Binmap.Requests.{get_request_data}
use ppsp.Binmap.Finish.{get_biggest_haved_chunk_range}
use ppsp.Binmap.Storage.{Read}
use ppsp.Tree.State.{BTreeNode, MerkleHashmap}
use ppsp.Peer.Info.{PpInfo, array, get_data_from_file, finished, peak_hashes, data_integrity}
use ppsp.Client.{PpClient, World, Env, my_info, ◌>>=◌, send_to_peer, stop}

-- The fields that SendHandShake and SendHandShakeHave set.
unfoldable pub handshake_of : PpClient → PpInfo → Option HandShake
handshake_of client info =
    elim (copy_out (pos info.supported_messages_bitmap_length)
      (array info.supported_messages_bitmap)) [
        | none ↦ none
        | some bitmap ↦ some (record new_handshake {
          source_channel_id = client.channel_id;
          destination_channel_id = client.dest_channel_id;
          swarm_identifier_string = client.swarm_id;
          version = info.version;
          min_version = info.min_version;
          content_integrity_protection_method = info.content_integrity_protection_method;
          merkle_hash_tree_function = info.merkle_hash_tree_function;
          chunk_addressing_method = info.chunk_addressing_method;
          supported_messages_bitmap = some bitmap;
          supported_messages_bitmap_length = info.supported_messages_bitmap_length;
          chunk_size = info.chunk_size;
          peer_listening_port =
              if ltb_ℤ (pos 0) info.listen_port_option
              then signed16 (pattern 16 info.port)
              else pos 0;
        })
      ]

-- A null buffer goes to `sendto` with length 0.
abbrev written : Written → Option (List ℕ)
written null = some []
written fault = none
written (buffer bytes) = some bytes

unfoldable pub handshake_sent : World → Written → Option World
handshake_sent w null = some w
handshake_sent w fault = none
handshake_sent w (buffer bytes) =
    some (send_to_peer (record w { client = record w.client { send_handshake = true } }) bytes)

unfoldable pub send_handshake : Env → World → Option World
send_handshake env w = do
  info ← my_info w
  hs ← handshake_of w.client info
  handshake_sent w (handshake_buffer env.host hs)

-- The chunk range that SendHandShakeHave reports.
unfoldable pub have_of : PpClient → PpInfo → Have
have_of client info =
    let range : Range =
      if info.is_seeder
      then record { start = pos 0; end = info.file_hash_tree.chunk_range }
      else get_biggest_haved_chunk_range info.file_binmap in
    record (new_have range.start range.end) { destination_channel_id = client.dest_channel_id }

unfoldable pub send_handshake_have : Env → World → Option World
send_handshake_have env w = do
  info ← my_info w
  hs ← handshake_of w.client info
  elim (handshake_buffer env.host hs) [
    | null ↦ some w
    | fault ↦ none
    | buffer bytes ↦
        let have = have_of w.client info in
        some (
          send_to_peer w (
            if leb_ℤ (pos 0) have.start_chunk && leb_ℤ (pos 0) have.end_chunk
            then bytes ++ have_buffer env.host have true
            else bytes))
  ]

unfoldable pub request_of : PpClient → ℤ → Request
request_of client index = record (new_request index index) {
  destination_channel_id = client.dest_channel_id;
}

unfoldable pub send_request : Env → ℤ → World → World
send_request env index w =
    let client = record w.client { last_requested_index = index } in
    send_to_peer (record w { client = client }) (request_buffer env.host (request_of client index))

-- The file is complete, or this peer has nothing that is missing.
unfoldable pub stop_unless : Bool → World → World
stop_unless true w = w
stop_unless false w = stop w

-- SendNextRequest from the result of GetRequestData on.
unfoldable pub request_or_stop : Env → ℤ → World → Option World
request_or_stop env index w = elim (leb_ℤ (pos 0) index) [
  | true ↦ some (send_request env index w)
  | false ↦ do (info, done) ← finished w.info; some (stop_unless done (record w { info = info }))
]

unfoldable pub send_next_request : Env → World → Option World
send_next_request env w = do
  info ← my_info w
  let (b, index) = get_request_data info.file_binmap w.client.peer_info.file_binmap
  request_or_stop env index (record w { info = record info { file_binmap = b } })

unfoldable pub send_integrity : Env → BTreeNode → World → Option World
send_integrity env node w = do
  info ← my_info w
  let inte = record (new_integrity info.merkle_hash_tree_function) {
    destination_channel_id = w.client.dest_channel_id;
    start_chunk = node.start_chunk;
    end_chunk = node.end_chunk;
  }
  hashed ← set_hash inte (array node.hash)
  bytes ← written (integrity_buffer env.host hashed)
  some (send_to_peer w bytes)

unfoldable pub send_nodes : Env → MerkleHashmap → World → Option World
send_nodes env [] w = some w
send_nodes env (e ∷ nodes) w = do w' ← send_integrity env e.1 w; send_nodes env nodes w'

unfoldable pub send_peak_hash : Env → World → Option World
send_peak_hash env w = do
  info ← my_info w
  (peaks, info') ← peak_hashes info
  send_nodes env peaks (record w { info = info' })

abbrev read_bytes : Read → Option (Option (List ℕ))
read_bytes Read.null = some none
read_bytes Read.fault = none
read_bytes (Read.content bytes) = some (some bytes)

unfoldable pub data_of : PpClient → PpInfo → ℤ → List ℕ → Data
data_of client info index bytes = record new_data {
  destination_channel_id = client.dest_channel_id;
  start_chunk = index;
  end_chunk = index;
  chunk_size = info.chunk_size;
  buffer_size = pos (length bytes);
  data_buffer = some bytes;
}

unfoldable pub send_data : Env → ℤ → World → Option World
send_data env index w = do
  info ← my_info w
  (nodes, marked) ← data_integrity info w.client.channel_id index
  w' ← send_nodes env nodes (record w { info = marked })
  now ← my_info w'
  let (read_info, read) = get_data_from_file now index
  let w'' = record w' { info = read_info }
  content ← read_bytes read
  elim content [
    | none ↦ some w''
    | some bytes ↦ do
      sent ← written (data_buffer_of env.host env.now (data_of w.client read_info index bytes)).1
      some (send_to_peer w'' sent)
  ]

unfoldable pub send_ack : Env → ℤ → ℕ → World → World
send_ack env index timestamp w = send_to_peer w (
    ack_buffer env.host (record new_ack {
      destination_channel_id = w.client.dest_channel_id;
      start_chunk = index;
      end_chunk = index;
      oneway_delay_sample = (2 ^ 64 + env.now - timestamp) % 2 ^ 64;
    }))

unfoldable pub send_keep_alive : Env → World → World
send_keep_alive env w = send_to_peer w (put_int env.host w.client.dest_channel_id)

unfoldable pub send_pex_req : Env → World → World
send_pex_req env w = send_to_peer w (
    pex_req_buffer env.host
      (record new_pex_req { destination_channel_id = w.client.dest_channel_id }))

unfoldable pub send_addresses : Env → List (List ℕ × ℤ) → World → World
send_addresses env [] w = w
send_addresses env (e ∷ rest) w = send_addresses env rest (
    send_to_peer w
      (pex_res_buffer env.host env.inet (record new_pex_res {
        destination_channel_id = w.client.dest_channel_id;
        ipv4_address_string = e.0;
        port = signed16 (pattern 16 e.1);
      })).1)

unfoldable pub send_pex_res : Env → World → World
send_pex_res env w = elim env.pex_list [ none ↦ w | some peers ↦ send_addresses env peers w ]

unfoldable pub send_cancel : Env → ℤ → ℤ → World → World
send_cancel env start end w = send_to_peer w (
    cancel_buffer env.host
      (record (new_cancel start end) { destination_channel_id = w.client.dest_channel_id }))

unfoldable pub send_choke : Env → World → World
send_choke env w =
    send_to_peer w (
      choke_buffer env.host
        (record new_choke { destination_channel_id = w.client.dest_channel_id }))

unfoldable pub send_unchoke : Env → World → World
send_unchoke env w = send_to_peer w (
    unchoke_buffer env.host
      (record new_unchoke { destination_channel_id = w.client.dest_channel_id }))
