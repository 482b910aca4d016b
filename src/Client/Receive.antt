-- ===== src/Client/Receive.antt =====
-- What a client does with a message: the functions ReceiveX of PPClient.cpp, RetryRequest and
-- CheckHandshaked. `msg` is the memory from the message's first byte on.
use ppsp.Common.{
  ℕ, zero, suc, ◌+◌, ◌%◌, ◌^◌, Bool, true, false, not, ◌&&◌, ◌||◌, Option, none, some, List, [],
  ◌∷◌, drop, get_elem?, ltb, ◌==◌, if◌then◌else◌,
}
use ppsp.Common.Int.{ℤ, pos, ◌+ℤ◌, leb_ℤ, ltb_ℤ, eqb_ℤ}
use ppsp.Util.Endian.{signed32}
use ppsp.Message.HandShake.{HandShake, new as new_handshake, create as read_handshake}
use ppsp.Message.Have.{Have, message_type_have, new as new_have, create as read_have}
use ppsp.Message.Request.{new as new_request, create as read_request}
use ppsp.Message.Integrity.{mhf_sha1, mhf_sha256, new as new_integrity, create as read_integrity}
use ppsp.Message.Data.{Data, new as new_data, create as read_data}
use ppsp.Message.Ack.{new as new_ack, create as read_ack}
use ppsp.Message.PexReq.{message_type_pex_req}
use ppsp.Message.PexRes.{message_type_pexresv4}
use ppsp.Message.Cancel.{new as new_cancel, create as read_cancel}
use ppsp.Message.Choke.{message_type_choke, new as new_choke, create as read_choke}
use ppsp.Message.Unchoke.{new as new_unchoke, create as read_unchoke}
use ppsp.Binmap.{set_have}
use ppsp.Binmap.Requests.{release_requested, rounds}
use ppsp.Binmap.Storage.{set_last_chunk}
use ppsp.Tree.Check.{equal_bytes}
use ppsp.Tree.Peaks.{check_peak_hash}
use ppsp.Peer.Info.{PpInfo, set_info, supports, store_data, keep_integrity, check_data}
use ppsp.Client.{PpClient, World, Env, my_info, ◌>>=◌, stop}
use ppsp.Client.Send.{
  send_handshake_have, send_request, send_next_request, send_peak_hash, send_data, send_ack,
  send_pex_res,
}

abbrev pub cipm_merkle_hash_tree : ℕ
cipm_merkle_hash_tree = 1

abbrev pub cam_32bit_chunk_ranges : ℕ
cam_32bit_chunk_ranges = 2

-- CheckHandshaked, and the return where it gives 0.
unfoldable pub if_handshaked : World → Option World → Option World
if_handshaked w next = if w.client.is_handshaked then next else some (stop w)

abbrev pub client_of : World → PpClient → World
client_of w client = record w { client = client }

-- The first test of ReceiveHandShake: the two identifiers differ where it matters.
unfoldable pub wrong_swarm : PpClient → PpInfo → HandShake → Bool
wrong_swarm client info hs =
    (info.is_seeder || hs.have_swarm_identifier)
    && not (equal_bytes client.swarm_id hs.swarm_identifier_string)

-- The other tests, in their order; each ends in Stop and a return.
unfoldable pub refused : PpInfo → PpInfo → HandShake → Bool
refused info peer hs =
    let cam = peer.chunk_addressing_method in
    let cipm = peer.content_integrity_protection_method in
    let mhf = peer.merkle_hash_tree_function in
    (hs.have_chunk_addressing_method && not (info.chunk_addressing_method == cam))
    || (hs.have_content_integrity_protection_method
        && not (info.content_integrity_protection_method == cipm))
    || (hs.have_chunk_size && not (eqb_ℤ info.chunk_size peer.chunk_size))
    || (hs.have_merkle_hash_tree_function && not (info.merkle_hash_tree_function == mhf))
    || (hs.have_merkle_hash_tree_function && not (mhf == mhf_sha1) && not (mhf == mhf_sha256))
    || (hs.have_content_integrity_protection_method && not (cipm == cipm_merkle_hash_tree))
    || (hs.have_chunk_addressing_method && not (cam == cam_32bit_chunk_ranges))

unfoldable pub receive_choke : Env → List ℕ → World → Option World
receive_choke env msg w = if_handshaked w (do
  choke ← read_choke env.host new_choke msg
  some (client_of w (record w.client { is_choke = true })))

-- The thread that asks for addresses starts where the peer supports both messages.
unfoldable pub start_pex : World → Option World
start_pex w = do
  asks ← supports w.client.peer_info message_type_pex_req
  elim asks [
    | false ↦ some w
    | true ↦ do
      answers ← supports w.client.peer_info message_type_pexresv4
      some (if answers then record w { pex_threads = w.pex_threads + 1 } else w)
  ]

unfoldable pub with_have : World → Have → World
with_have w have =
    let peer = w.client.peer_info in
    let b = set_have peer.file_binmap have.start_chunk have.end_chunk in
    client_of w (record w.client { peer_info = record peer { file_binmap = b } })

unfoldable pub after_have : Env → List ℕ → World → Option World
after_have env rest w = do
  w' ← start_pex w
  kind ← get_elem? rest 0
  elim (kind == message_type_choke) [
    | true ↦ receive_choke env rest w'
    | false ↦ send_next_request env w'
  ]

unfoldable pub receive_have : Env → List ℕ → Bool → World → Option World
receive_have env msg is_handshake_have w = if_handshaked w (do
  (have, idx) ← read_have env.host (new_have (pos 0) (pos 0)) msg is_handshake_have
  elim is_handshake_have [
    | false ↦ some (with_have w have)
    | true ↦ after_have env (drop idx msg) (with_have w have)
  ])

-- The end of ReceiveHandShake, at the byte behind the handshake.
unfoldable pub after_handshake : Env → List ℕ → World → Option World
after_handshake env rest w = do
  kind ← get_elem? rest 0
  elim (kind == message_type_have) [
    | true ↦ receive_have env rest true w
    | false ↦ if w.client.send_handshake then some w else send_handshake_have env w
  ]

unfoldable pub accepted : PpClient → HandShake → PpClient
accepted client hs = record client {
  port = if ltb_ℤ (pos 0) hs.peer_listening_port then hs.peer_listening_port else client.port;
  is_handshaked = true;
}

-- From the tests on PeerInfo on.
unfoldable pub admit : Env → PpInfo → HandShake → List ℕ → PpInfo → World → Option World
admit env info hs rest peer w =
    let client = record w.client { dest_channel_id = hs.source_channel_id; peer_info = peer } in
    elim (refused info peer hs) [
      | true ↦ some (stop (client_of w client))
      | false ↦ after_handshake env rest (client_of w (accepted client hs))
    ]

-- From the test on the swarm on.
unfoldable pub examine : Env → PpInfo → HandShake → List ℕ → World → Option World
examine env info hs rest w = elim (wrong_swarm w.client info hs) [
  | true ↦ some (stop w)
  | false ↦ do peer ← set_info w.client.peer_info hs; admit env info hs rest peer w
]

unfoldable pub receive_handshake : Env → List ℕ → World → Option World
receive_handshake env msg w = do
  (hs, idx) ← read_handshake env.host new_handshake msg
  info ← my_info w
  examine env info hs (drop idx msg) w

-- `CancelMutex.lock()`: a thread that has locked it already gets no further.
unfoldable pub lock_cancel : World → Option World
lock_cancel w =
    if w.client.cancel_locked
    then none
    else some (client_of w (record w.client { cancel_locked = true }))

abbrev listed : List ℤ → ℤ → Bool
listed [] index = false
listed (k ∷ ks) index = eqb_ℤ k index || listed ks index

-- The loop of ReceiveRequest. A chunk of the list is passed over with the mutex locked.
unfoldable pub send_chunks : Env → ℕ → ℤ → World → Option World
send_chunks env zero index w = some w
send_chunks env (suc n) index w = do
  locked ← lock_cancel w
  elim (listed locked.client.cancel_chunk_list index) [
    | true ↦ send_chunks env n (index +ℤ pos 1) locked
    | false ↦ do
      w' ← send_data env index (client_of locked (record locked.client { cancel_locked = false }))
      send_chunks env n (index +ℤ pos 1) w'
  ]

unfoldable pub first_request : Env → World → Option World
first_request env w =
    if w.client.is_first_request
    then send_peak_hash env (client_of w (record w.client { is_first_request = false }))
    else some w

unfoldable pub receive_request : Env → List ℕ → World → Option World
receive_request env msg w = if_handshaked w (do
  (request, idx) ← read_request env.host (new_request (pos 0) (pos 0)) msg
  w' ← first_request env w
  w'' ← send_chunks env (rounds request.start_chunk request.end_chunk) request.start_chunk w'
  some (client_of w'' (record w''.client { cancel_chunk_list = [] })))

unfoldable pub receive_integrity : Env → List ℕ → World → Option World
receive_integrity env msg w = if_handshaked w (do
  info ← my_info w
  (inte, idx) ← read_integrity env.host (new_integrity info.merkle_hash_tree_function) msg
  info' ← keep_integrity info w.client.channel_id inte
  some (record w { info = info' }))

unfoldable pub retry_request : Env → World → Option World
retry_request env w = do
  info ← my_info w
  elim (ltb_ℤ info.retry_count w.client.retry_count) [
    | true ↦ some (stop w)
    | false ↦ do
      w' ← send_next_request env w
      some (client_of w' (record w'.client { retry_count = w'.client.retry_count +ℤ pos 1 }))
  ]

-- The request is given back, and tried again.
unfoldable pub give_back : Env → World → Option World
give_back env w =
    let b = release_requested w.info.file_binmap w.client.last_requested_index in
    retry_request env (record w { info = record w.info { file_binmap = b } })

-- The check of the peaks with the first chunk: the number that the branch goes by.
unfoldable pub check_first : Env → World → Option (ℕ × World)
check_first env w = elim w.info.is_first_data [
  | false ↦ some (1, w)
  | true ↦ do
    (result, tree) ← check_peak_hash env.sha env.doubled w.info.file_hash_tree w.client.channel_id
    let info = record w.info { file_hash_tree = tree }
    elim (result == 0) [
      | true ↦ some (0, record w { info = info })
      | false ↦ some (1, record w { info = record info { is_first_data = false } })
    ]
]

unfoldable pub sized : PpInfo → PpInfo
sized info =
    let tree = info.file_hash_tree in
    if ltb 0 tree.content_size && leb_ℤ info.file_binmap.last_chunk_size (pos 0)
    then record info {
      file_binmap =
          set_last_chunk info.file_binmap tree.chunk_range
            (signed32 (tree.last_chunk_size % 2 ^ 32));
    }
    else info

-- A chunk that has passed the checks.
unfoldable pub take_data : Env → Data → World → Option World
take_data env d w = do
  let client = record w.client { retry_count = pos 0 }
  let acked = send_ack env d.start_chunk d.timestamp (client_of w client)
  info ← store_data env.can_create (sized acked.info) d
  let stored = record acked { info = info }
  elim (info.file_hash_tree.content_size == 0) [
    | true ↦ some (send_request env info.file_hash_tree.chunk_range stored)
    | false ↦ send_next_request env stored
  ]

unfoldable pub receive_data : Env → List ℕ → ℤ → World → Option World
receive_data env msg len w = if_handshaked w (do
  info ← my_info w
  (d, idx) ← read_data env.host (record new_data { chunk_size = info.chunk_size }) msg len
  (result, info') ← check_data env.sha info w.client.channel_id d
  let checked = record w { info = info' }
  elim (result == 0) [
    | true ↦ give_back env checked
    | false ↦ do
      (first, w') ← check_first env checked
      elim (first == 0) [ true ↦ give_back env w' | false ↦ take_data env d w' ]
  ])

unfoldable pub receive_ack : Env → List ℕ → World → Option World
receive_ack env msg w = if_handshaked w (do ack ← read_ack env.host new_ack msg; some w)

unfoldable pub receive_pex_req : Env → World → Option World
receive_pex_req env w = if_handshaked w (some (send_pex_res env w))

-- `CancelChunkList[i] = 0` for the chunks of the range.
abbrev mark_all : ℕ → ℤ → List ℤ → List ℤ
mark_all zero index marks = marks
mark_all (suc n) index marks =
    mark_all n (index +ℤ pos 1) (if listed marks index then marks else index ∷ marks)

unfoldable pub receive_cancel : Env → List ℕ → World → Option World
receive_cancel env msg w = if_handshaked w (do
  (cancel, idx) ← read_cancel env.host (new_cancel (pos 0) (pos 0)) msg
  locked ← lock_cancel w
  let n = rounds cancel.start_chunk cancel.end_chunk
  let marks = mark_all n cancel.start_chunk locked.client.cancel_chunk_list
  some (
      client_of locked (record locked.client { cancel_chunk_list = marks; cancel_locked = false })))

unfoldable pub receive_unchoke : Env → List ℕ → World → Option World
receive_unchoke env msg w = if_handshaked w (do
  unchoke ← read_unchoke env.host new_unchoke msg
  w' ← if w.client.is_choke then send_next_request env w else some w
  some (client_of w' (record w'.client { is_choke = false })))
