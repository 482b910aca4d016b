-- ===== src/Server.antt =====
-- PPServer.h and PPServer.cpp: the table of clients, and the datagrams that go to them. A pointer to
-- a client is its address, which no other client has had.
pub mod Setup
pub mod Seeding
pub mod Joining
pub mod Channels
pub mod Steps
pub mod Tests
use ppsp.Common.{
  ℕ, suc, ◌+◌, Bool, true, false, not, ◌&&◌, Option, none, some, List, [], ◌∷◌, ◌++◌, length,
  replicate, get_elem?, ◌==◌, if◌then◌else◌,
}
use ppsp.Common.Int.{ℤ, pos, ◌+ℤ◌, leb_ℤ, ltb_ℤ, eqb_ℤ}
use ppsp.Util.Endian.{pattern}
use ppsp.Message.Buffer.{get_int, at}
use ppsp.Message.PexRes.{message_type_pexresv4, new as new_pex_res, create as read_pex_res}
use ppsp.Tree.Check.{equal_bytes}
use ppsp.Peer.Info.{PpInfo}
use ppsp.Client.{PpClient, World, Env, ◌>>=◌, new, set_message, receive_keep_alive}
use ppsp.Client.Handle.{start}

pub record Peer : Type 0 where
  pub address : ℕ
  pub client : PpClient

-- `sent` has the datagrams that the clients have sent when they were started.
pub record PpServer : Type 0 where
  pub info : PpInfo
  pub tracker_ip_address : List ℕ
  pub tracker_port : ℤ
  pub next_channel_id : ℤ
  pub is_stop : Bool
  pub clients : List Peer
  pub next_address : ℕ
  pub sent : List (List ℕ)

-- What is in memory where the constructors of PPClient and PPInfo set nothing.
pub record Memory : Type 0 where
  pub peer_info : PpInfo
  pub retry_count : ℤ
  pub port : ℤ

abbrev pub add_client : PpServer → PpClient → PpServer
add_client s client = if s.is_stop then s else record s {
  clients = s.clients ++ (record { address = s.next_address; client = client } ∷ []);
  next_address = suc s.next_address;
}

-- GetPeer by channel.
abbrev pub get_peer : ℤ → List Peer → Option Peer
get_peer channel [] = none
get_peer channel (p ∷ peers) =
    if eqb_ℤ p.client.channel_id channel then some p else get_peer channel peers

-- GetPeer by address and port.
abbrev pub is_peer : List ℕ → ℤ → List Peer → Bool
is_peer ip port [] = false
is_peer ip port (p ∷ peers) =
    if equal_bytes p.client.ip_address ip && eqb_ℤ p.client.port port
    then true
    else is_peer ip port peers

-- What becomes of the client that GetPeer gives for a channel.
abbrev pub change_peer : ℤ → (PpClient → PpClient) → List Peer → List Peer
change_peer channel f [] = []
change_peer channel f (p ∷ peers) =
    if eqb_ℤ p.client.channel_id channel
    then record p { client = f p.client } ∷ peers
    else p ∷ change_peer channel f peers

-- AddPeer with an address and a port. A client is put into the list when it has started, which
-- makes no difference to a reader that waits for the end of AddPeer.
unfoldable pub connect : Env → PpClient → PpServer → Option PpServer
connect env client s = elim s.info.is_seeder [
  | true ↦ some (add_client s client)
  | false ↦ do
    w ←
        start env s.next_channel_id (record {
          client = client;
          info = s.info;
          sent = s.sent;
          stop_calls = 0;
          pex_threads = 0;
        })
    some (
        add_client (record s { next_channel_id = s.next_channel_id +ℤ pos 1; sent = w.sent })
          w.client)
]

unfoldable pub add_peer : Env → Memory → List ℕ → ℤ → PpServer → Option PpServer
add_peer env memory ip port s = elim (is_peer ip port s.clients) [
  | true ↦ some s
  | false ↦ connect env (new memory.peer_info memory.retry_count ip port s.info.swarm_id) s
]

-- A client for a sender without a channel.
unfoldable pub accept : Memory → List ℕ → PpServer → PpServer
accept memory ip s =
    let client = record (new memory.peer_info memory.retry_count ip memory.port s.info.swarm_id) {
      channel_id = s.next_channel_id;
    } in
    add_client (record s { next_channel_id = s.next_channel_id +ℤ pos 1 }) client

abbrev pub with_clients : PpServer → List Peer → PpServer
with_clients s peers = record s { clients = peers }

-- The end of a round of Receive, at the client with that channel. `buf` has the datagram and zeros.
unfoldable pub deliver : Env → Memory → ℤ → List ℕ → List ℕ → PpServer → Option PpServer
deliver env memory channel msg buf s = elim (length msg == 4) [
  | true ↦ some (with_clients s (change_peer channel receive_keep_alive s.clients))
  | false ↦ do
    kind ← get_elem? buf 4
    elim (kind == message_type_pexresv4) [
      | true ↦ do
        (pex, idx) ← read_pex_res env.host env.inet new_pex_res buf
        add_peer env memory pex.ipv4_address_string (pos (pattern 32 pex.port)) s
      | false ↦ some (with_clients s (change_peer channel (λ c. set_message c msg kind) s.clients))
    ]
]

unfoldable pub deliver_known : Env → Memory → ℤ → List ℕ → List ℕ → PpServer → Option PpServer
deliver_known env memory channel msg buf s =
    if ltb_ℤ (pos 0) channel
    then (elim (get_peer channel s.clients) [
      | none ↦ some s
      | some p ↦ deliver env memory channel msg buf s
    ])
    else some s

-- What a round does by the channel that the datagram names.
unfoldable pub route : Env → Memory → List ℕ → ℤ → List ℕ → List ℕ → PpServer → Option PpServer
route env memory ip channel msg buf s =
    if leb_ℤ s.next_channel_id channel
    then some s
    else if eqb_ℤ channel (pos 0)
    then deliver env memory s.next_channel_id msg buf (accept memory ip s)
    else deliver_known env memory channel msg buf s

-- A round of Receive with a datagram `msg` of a byte or more, from the sender `ip`. The array that
-- it is received in is filled with zeros first; the first hundred of them are enough for all that
-- reads behind the datagram.
unfoldable pub receive : Env → Memory → List ℕ → List ℕ → PpServer → Option PpServer
receive env memory ip msg s = elim s.is_stop [
  | true ↦ some s
  | false ↦ do
    let buf = msg ++ replicate 100 0
    (channel, rest) ← get_int env.host (at buf 0)
    route env memory ip channel msg buf s
]

abbrev without : ℕ → List Peer → List Peer
without address [] = []
without address (p ∷ peers) =
    let rest = without address peers in if p.address == address then rest else p ∷ rest

unfoldable pub client_stop : ℕ → PpServer → PpServer
client_stop address s = if s.is_stop then s else with_clients s (without address s.clients)

-- GetPeerList: the addresses of the other clients that have a port.
unfoldable pub get_peer_list : ℕ → List Peer → List (List ℕ × ℤ)
get_peer_list me [] = []
get_peer_list me (p ∷ peers) =
    let rest = get_peer_list me peers in
    if p.address == me
    then rest
    else if ltb_ℤ (pos 0) p.client.port
    then (p.client.ip_address, p.client.port) ∷ rest
    else rest
