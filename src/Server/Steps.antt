-- ===== src/Server/Steps.antt =====
-- A round of Receive keeps the channels of the clients apart.
use ppsp.Common.{
  Gives, Gives-some, Gives-none, ℕ, ◌≡◌, refl, inl, inr, true, false, Option, none, some, List,
  ◌++◌, arith, sym, subst, Bool-cases, branch_false, branch_both, ◌==◌, get_elem?, length,
  replicate,
}
use ppsp.Common.Int.{ℤ, pos, ◌<ℤ◌, eqb_ℤ, leb_ℤ, ltb_ℤ}
use ppsp.Util.Hex.{Written, null, fault, buffer}
use ppsp.Client.{
  PpClient, World, Env, ◌>>=◌, my_info, set_message, receive_keep_alive, send_to_peer,
}
use ppsp.Message.HandShake.{get_buffer as handshake_buffer}
use ppsp.Client.Send.{handshake_of, handshake_sent, send_handshake}
use ppsp.Client.Handle.{start}
use ppsp.Server.{
  Peer, PpServer, Memory, add_client, get_peer, is_peer, change_peer, connect, add_peer, accept,
  with_clients, deliver, deliver_known, route, receive,
}
use ppsp.Util.Endian.{pattern}
use ppsp.Message.Buffer.{get_int, at}
use ppsp.Message.PexRes.{message_type_pexresv4, new as new_pex_res, create as read_pex_res}
use ppsp.Server.Channels.{
  IsServed, IsNew, add_client-IsServed, numbered-IsServed, changed-IsServed, set_message_channel,
}

pub Gives-bind :
    {A B : Type 0} (P : B → Type 0) (o : Option A) (f : A → Option B)
    → ((a : A) → o ≡ some a → Gives P (f a))
    → Gives P (o >>= f)
Gives-bind P none f h = Gives-none P
Gives-bind P (some a) f h = h a refl

-- Start gives the client the channel that it is called with.
unfoldable pub HasChannel : ℤ → World → Type 0
HasChannel channel w = w.client.channel_id ≡ channel

handshake_sent_channel :
    (w : World) (o : Written) → Gives (HasChannel w.client.channel_id) (handshake_sent w o)
unfolding handshake_sent HasChannel send_to_peer
handshake_sent_channel w null = Gives-some (HasChannel w.client.channel_id) w refl
handshake_sent_channel w fault = Gives-none (HasChannel w.client.channel_id)
handshake_sent_channel w (buffer bytes) = Gives-some (HasChannel w.client.channel_id) _ refl

send_handshake_channel :
    (env : Env) (w : World) → Gives (HasChannel w.client.channel_id) (send_handshake env w)
unfolding send_handshake
send_handshake_channel env w = Gives-bind (HasChannel w.client.channel_id) (my_info w) _ (λ info e.
    Gives-bind (HasChannel w.client.channel_id) (handshake_of w.client info) _
      (λ hs e'. handshake_sent_channel w (handshake_buffer env.host hs)))

pub start_channel :
    (env : Env) (channel : ℤ) (w : World)
    → w.client.channel_id ≡ pos 0
    → Gives (HasChannel channel) (start env channel w)
unfolding start
start_channel env channel w z =
    let off : ltb_ℤ (pos 0) w.client.channel_id ≡ false = ground (arith, z) in
    subst (Gives (HasChannel channel)) (sym (branch_false _ _ off)) (send_handshake_channel env _)

connect-IsServed :
    (env : Env) (c : PpClient) (s : PpServer)
    → c.channel_id ≡ pos 0
    → IsServed s
    → Gives IsServed (connect env c s)
unfolding connect HasChannel IsNew Gives
connect-IsServed env c s z k = elim (Bool-cases s.info.is_seeder) [
  | inl e ↦
      rw (connect, e)
        (Gives-some IsServed (add_client s c) (
          add_client-IsServed s c k (subst (λ x. x <ℤ s.next_channel_id) (sym z) k.counted)
            (inl z)))
  | inr e ↦
      rw (connect, e)
        (Gives-bind IsServed (start env s.next_channel_id _) _ (λ w h.
          Gives-some IsServed _
            (numbered-IsServed s w.sent w.client k (start_channel env s.next_channel_id _ z w h))))
]

add_peer-IsServed :
    (env : Env) (memory : Memory) (ip : List ℕ) (port : ℤ) (s : PpServer)
    → IsServed s
    → Gives IsServed (add_peer env memory ip port s)
unfolding add_peer
add_peer-IsServed env memory ip port s k = elim (Bool-cases (is_peer ip port s.clients)) [
  | inl e ↦ rw (add_peer, e) (Gives-some IsServed s k)
  | inr e ↦ rw (add_peer, e) (connect-IsServed env _ s refl k)
]

deliver-IsServed :
    (env : Env) (memory : Memory) (channel : ℤ) (msg buf : List ℕ) (s : PpServer)
    → IsServed s
    → Gives IsServed (deliver env memory channel msg buf s)
unfolding deliver receive_keep_alive
deliver-IsServed env memory channel msg buf s k = elim (Bool-cases (length msg == 4)) [
  | inl e ↦
      rw (deliver, e)
        (Gives-some IsServed _ (changed-IsServed s channel receive_keep_alive (λ c. refl) k))
  | inr e ↦ rw (deliver, e) (Gives-bind IsServed (get_elem? buf 4) _ (λ kind h. by_kind kind))
]
  where
    by_kind :
        (kind : ℕ)
        → Gives IsServed (elim (kind == message_type_pexresv4) [
          | true ↦ do
            (pex, idx) ← read_pex_res env.host env.inet new_pex_res buf
            add_peer env memory pex.ipv4_address_string (pos (pattern 32 pex.port)) s
          | false ↦
              some (with_clients s (change_peer channel (λ c. set_message c msg kind) s.clients))
        ])
    by_kind kind = elim (Bool-cases (kind == message_type_pexresv4)) [
      | inl e ↦ rw e (
          Gives-bind IsServed (read_pex_res env.host env.inet new_pex_res buf) _ (λ r h.
            add_peer-IsServed env memory r.0.ipv4_address_string (pos (pattern 32 r.0.port)) s k))
      | inr e ↦ rw e (
          Gives-some IsServed _ (
            changed-IsServed s channel (λ c. set_message c msg kind)
              (λ c. set_message_channel msg kind c) k))
    ]

deliver_known-IsServed :
    (env : Env) (memory : Memory) (channel : ℤ) (msg buf : List ℕ) (s : PpServer)
    → IsServed s
    → Gives IsServed (deliver_known env memory channel msg buf s)
unfolding deliver_known
deliver_known-IsServed env memory channel msg buf s k =
    branch_both (Gives IsServed) (ltb_ℤ (pos 0) channel) _ (some s)
      (to_peer (get_peer channel s.clients)) (Gives-some IsServed s k)
  where
    to_peer :
        (o : Option Peer)
        → Gives IsServed (elim o [ none ↦ some s | some p ↦ deliver env memory channel msg buf s ])
    to_peer none = Gives-some IsServed s k
    to_peer (some p) = deliver-IsServed env memory channel msg buf s k

accept-IsServed :
    (memory : Memory) (ip : List ℕ) (s : PpServer) → IsServed s → IsServed (accept memory ip s)
unfolding accept
accept-IsServed memory ip s k = numbered-IsServed s s.sent _ k refl

route-IsServed :
    (env : Env) (memory : Memory) (ip : List ℕ) (channel : ℤ) (msg buf : List ℕ) (s : PpServer)
    → IsServed s
    → Gives IsServed (route env memory ip channel msg buf s)
unfolding route
route-IsServed env memory ip channel msg buf s k =
    branch_both (Gives IsServed) (leb_ℤ s.next_channel_id channel) (some s) _
      (Gives-some IsServed s k)
      (branch_both (Gives IsServed) (eqb_ℤ channel (pos 0)) _ _
        (deliver-IsServed env memory s.next_channel_id msg buf (accept memory ip s)
          (accept-IsServed memory ip s k))
        (deliver_known-IsServed env memory channel msg buf s k))

-- If the channels of the clients lie below the next one to be given out, which is 1 or more, and no
-- two clients have the same channel but for channel 0 of those that have not started, this is so
-- after a round of Receive too, whatever the datagram and its sender.
pub receive-IsServed :
    (env : Env) (memory : Memory) (ip msg : List ℕ) (s s' : PpServer)
    → IsServed s
    → receive env memory ip msg s ≡ some s'
    → IsServed s'
unfolding receive Gives
receive-IsServed env memory ip msg s s' k = elim (Bool-cases s.is_stop) [
  | inl e ↦ rw (receive, e) (Gives-some IsServed s k s')
  | inr e ↦
      rw (receive, e)
        (Gives-bind IsServed (get_int env.host (at (msg ++ replicate 100 0) 0)) _
          (λ r h. route-IsServed env memory ip r.0 msg (msg ++ replicate 100 0) s k) s')
]
