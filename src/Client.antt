-- ===== src/Client.antt =====
-- PPClient.h and PPClient.cpp: the connection to one peer. The state is the client's, and MyInfo,
-- which the clients of a process share; `none` as a result is undefined behaviour.
pub mod Send
pub mod Receive
pub mod Handle
pub mod Next
pub mod Refusals
pub mod Agreement
pub mod Gate
pub mod Rejected
pub mod Silence
mod Tests
use ppsp.Common.{
  ◌≡◌, ap, ℕ, ◌+◌, Bool, true, false, not, ◌&&◌, ◌||◌, Option, none, some, List, [], ◌∷◌, ◌++◌,
  length, ltb, leb, ◌==◌, if◌then◌else◌, get_elem?,
}
use ppsp.Common.Int.{ℤ, pos, negsuc, ltb_ℤ, eqb_ℤ}
use ppsp.Util.Endian.{Host}
use ppsp.Message.HandShake.{message_type_handshake}
use ppsp.Message.PexRes.{Inet}
use ppsp.Peer.Info.{PpInfo}
use ppsp.Tree.Sha.{Hasher}

-- `has_info` says whether MyInfo is set, `recv_thread` whether RecvThread is, and `cancel_locked`
-- whether CancelMutex is left locked. The pointers to the socket and to the peer's address are the
-- system's.
pub record PpClient : Type 0 where
  pub channel_id : ℤ
  pub dest_channel_id : ℤ
  pub ip_address : List ℕ
  pub port : ℤ
  pub swarm_id : List ℕ
  pub has_info : Bool
  pub peer_info : PpInfo
  pub is_stop : Bool
  pub is_first_request : Bool
  pub is_handshaked : Bool
  pub send_handshake : Bool
  pub is_choke : Bool
  pub last_requested_index : ℤ
  pub retry_count : ℤ
  pub silent_sec : ℤ
  pub cancel_chunk_list : List ℤ
  pub cancel_locked : Bool
  pub message_queue : List (List ℕ)
  pub recv_thread : Bool

-- The two constructors leave `retry_count` as it is in memory, and the one with an address from a
-- datagram the port as well.
abbrev pub new : PpInfo → ℤ → List ℕ → ℤ → List ℕ → PpClient
new peer_info memory ip port swarm_id = record {
  channel_id = pos 0;
  dest_channel_id = pos 0;
  ip_address = ip;
  port = port;
  swarm_id = swarm_id;
  has_info = true;
  peer_info = peer_info;
  is_stop = false;
  is_first_request = true;
  is_handshaked = false;
  send_handshake = false;
  is_choke = false;
  last_requested_index = negsuc 0;
  retry_count = memory;
  silent_sec = pos 0;
  cancel_chunk_list = [];
  cancel_locked = false;
  message_queue = [];
  recv_thread = false;
}

-- `sent` has the datagrams sent, the last one last; `stop_calls` counts the calls of StopCallback
-- and `pex_threads` the threads that PEXReqCheck runs in.
pub record World : Type 0 where
  pub client : PpClient
  pub info : PpInfo
  pub sent : List (List ℕ)
  pub stop_calls : ℕ
  pub pex_threads : ℕ

-- What is around the client: the bytes in memory behind a message, the clock, the addresses that
-- PEXCallback gives, whether a file can be created, the hash functions, and `(int)pow(2, log2(x) + 1)`.
pub record Env : Type 0 where
  pub host : Host
  pub beyond : List ℕ
  pub now : ℕ
  pub pex_list : Option (List (List ℕ × ℤ))
  pub can_create : Bool
  pub inet : Inet
  pub sha : Hasher
  pub doubled : ℤ → ℤ

-- `MyInfo->`
unfoldable pub my_info : World → Option PpInfo
my_info w = if w.client.has_info then some w.info else none

pub my_info-set : (w : World) → w.client.has_info ≡ true → my_info w ≡ some w.info
unfolding my_info
my_info-set w h = ap (λ b. if b then some w.info else none) h

infixl 5 ◌>>=◌
abbrev pub ◌>>=◌ : {A B : Type 0} → Option A → (A → Option B) → Option B
◌>>=◌ none f = none
◌>>=◌ (some a) f = f a

unfoldable pub send_to_peer : World → List ℕ → World
send_to_peer w bytes = record w { sent = w.sent ++ (bytes ∷ []) }

unfoldable pub stop : World → World
stop w = if w.client.is_stop then w else record w {
  client = record w.client { is_stop = true; has_info = false };
  stop_calls = w.stop_calls + 1;
}

-- A message goes to the queue. Start, where a channel is there already, does no more than start the
-- threads.
unfoldable pub enqueue : PpClient → List ℕ → PpClient
enqueue client msg = record client {
  message_queue = client.message_queue ++ (msg ∷ []);
  silent_sec = pos 0;
  recv_thread = client.recv_thread || ltb_ℤ (pos 0) client.channel_id;
}

-- SetMessage. `msg` is the datagram and `kind` is `msg[4]`.
unfoldable pub set_message : PpClient → List ℕ → ℕ → PpClient
set_message client msg kind =
    if length msg == 0 || client.is_stop
    then client
    else if not (kind == message_type_handshake) && eqb_ℤ client.channel_id (pos 0)
    then client
    else enqueue client msg

unfoldable pub receive_keep_alive : PpClient → PpClient
receive_keep_alive client = record client { silent_sec = pos 0 }
