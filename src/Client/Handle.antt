-- ===== src/Client/Handle.antt =====
-- The threads of a client: a round of HandleMessage and of KeepAliveCheck of PPClient.cpp.
use ppsp.Common.{
  ℕ, true, false, Option, some, List, [], ◌∷◌, ◌++◌, length, get_elem?, ◌==◌, if◌then◌else◌,
}
use ppsp.Common.Int.{ℤ, pos, ◌+ℤ◌, ◌*ℤ◌, ltb_ℤ}
use ppsp.Message.HandShake.{message_type_handshake}
use ppsp.Message.Have.{message_type_have}
use ppsp.Message.Request.{message_type_request}
use ppsp.Message.Data.{message_type_data}
use ppsp.Message.Ack.{message_type_ack}
use ppsp.Message.Integrity.{message_type_integrity}
use ppsp.Message.PexReq.{message_type_pex_req}
use ppsp.Client.{World, Env, ◌>>=◌, stop}
use ppsp.Client.Send.{send_handshake, send_keep_alive, send_pex_req}
use ppsp.Client.Receive.{
  client_of, receive_handshake, receive_have, receive_request, receive_data, receive_ack,
  receive_integrity, receive_pex_req,
}

-- The `switch` on the type, behind its first case. A type that it does not name is passed over.
unfoldable pub dispatch_other : Env → ℕ → List ℕ → ℤ → World → Option World
dispatch_other env kind msg len w =
    if kind == message_type_have
    then receive_have env msg false w
    else if kind == message_type_request
    then receive_request env msg w
    else if kind == message_type_data
    then receive_data env msg len w
    else if kind == message_type_ack
    then receive_ack env msg w
    else if kind == message_type_integrity
    then receive_integrity env msg w
    else if kind == message_type_pex_req
    then receive_pex_req env w
    else some w

unfoldable pub dispatch : Env → ℕ → List ℕ → ℤ → World → Option World
dispatch env kind msg len w =
    if kind == message_type_handshake
    then receive_handshake env msg w
    else dispatch_other env kind msg len w

-- A round of the loop: the message at the front of the queue, if there is one.
unfoldable pub handle_message : Env → World → Option World
handle_message env w = if w.client.is_stop then some w else elim w.client.message_queue [
  | [] ↦ some w
  | bytes ∷ queue ↦ do
    let msg = bytes ++ env.beyond
    kind ← get_elem? msg 4
    dispatch env kind msg (pos (length bytes))
        (client_of w (record w.client { message_queue = queue }))
]

-- A second without a message: the counter of KeepAliveCheck goes up, and every now and then a
-- message of four bytes goes out. `5 * sendcnt > 4 * interval` is the test on doubles: the product
-- with 0.2 is exact where the interval is a multiple of five.
unfoldable pub count_second : Env → World → ℤ → World × ℤ
count_second env w sendcnt =
    let counted = sendcnt +ℤ pos 1 in
    let w' = client_of w (record w.client { silent_sec = w.client.silent_sec +ℤ pos 1 }) in
    if ltb_ℤ (pos 4 *ℤ w.info.keep_alive_interval) (pos 5 *ℤ counted)
    then (send_keep_alive env w', pos 0)
    else (w', counted)

-- A round of KeepAliveCheck with its counter.
unfoldable pub keep_alive_round : Env → World → ℤ → World × ℤ
keep_alive_round env w sendcnt =
    if w.client.is_stop
    then (w, sendcnt)
    else if ltb_ℤ w.info.keep_alive_interval w.client.silent_sec
    then (stop w, sendcnt)
    else count_second env w sendcnt

-- A round of PEXReqCheck with its counter.
unfoldable pub pex_req_round : Env → World → ℤ → World × ℤ
pex_req_round env w sendcnt =
    if w.client.is_stop
    then (w, sendcnt)
    else if ltb_ℤ w.info.pex_req_interval sendcnt
    then (send_pex_req env w, pos 0)
    else (w, sendcnt +ℤ pos 1)

-- Start: a client without a channel takes one and sends its handshake.
unfoldable pub start : Env → ℤ → World → Option World
start env chid w =
    let running = client_of w (record w.client { recv_thread = true }) in
    if ltb_ℤ (pos 0) w.client.channel_id
    then some running
    else send_handshake env (client_of running (record running.client { channel_id = chid }))
