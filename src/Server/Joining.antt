-- ===== src/Server/Joining.antt =====
-- Start gives the clients' channels as Receive expects them.
use ppsp.Common.{
  Gives, Gives-some, Gives-none, ℕ, zero, suc, ◌≡◌, refl, inl, inr, Option, none, some, List, [],
  ◌∷◌, ◌++◌, ap, sym, subst, All, Bool-cases, length, leb, branch_both,
}
use ppsp.Common.Int.{pos, ◌<ℤ◌}
use ppsp.Peer.Info.{PpInfo}
use ppsp.Client.{Env, PpClient}
use ppsp.Client.Handle.{start as start_client}
use ppsp.Server.{Peer, PpServer, Memory, add_client}
use ppsp.Server.Setup.{
  start_each, run, has_tracker, has_file, join, with_file, seed, start, set_file_name,
}
use ppsp.Server.Channels.{IsServed, Distinct, channels, numbered_peer-IsServed}
use ppsp.Server.Steps.{Gives-bind, HasChannel, start_channel}

IsUnstarted : Peer → Type 0
IsUnstarted p = p.client.channel_id ≡ pos 0

start_each-IsServed :
    (env : Env) (l : List Peer) (s : PpServer)
    → All IsUnstarted l
    → IsServed s
    → Gives IsServed (start_each env l s)
unfolding start_each IsUnstarted HasChannel Gives
start_each-IsServed env [] s a k = Gives-some IsServed s k
start_each-IsServed env (p ∷ l) s a k =
    Gives-bind IsServed (start_client env s.next_channel_id _) _ (λ w h.
      start_each-IsServed env l _ a.1 (
        numbered_peer-IsServed s w.sent (record p { client = w.client }) k
          (start_channel env s.next_channel_id _ a.0 w h)))

Served : Option (ℕ × PpServer) → Type 0
Served = Gives (λ r. IsServed r.1)

run-IsServed :
    (env : Env) (s : PpServer)
    → All IsUnstarted s.clients
    → pos 0 <ℤ s.next_channel_id
    → Served (run env s)
unfolding run Served Gives
run-IsServed env s a c =
    Gives-bind (λ (r : ℕ × PpServer). IsServed r.1)
      (start_each env s.clients (record s { clients = [] })) _
      (λ s' h.
        Gives-some (λ (r : ℕ × PpServer). IsServed r.1) (1, s')
          (start_each-IsServed env s.clients (record s { clients = [] }) a
            (record { counted = c; below = tt; distinct = tt }) s' h))

IsIdle : PpServer → Type 0
IsIdle s = (pos 0 <ℤ s.next_channel_id) × All IsUnstarted s.clients

added-IsIdle :
    (s : PpServer) (c : PpClient)
    → s.clients ≡ []
    → pos 0 <ℤ s.next_channel_id
    → c.channel_id ≡ pos 0
    → IsIdle (add_client s c)
unfolding IsIdle IsUnstarted
added-IsIdle s c e k z =
    branch_both IsIdle s.is_stop s _ (k, subst (All IsUnstarted) (sym e) tt)
      (
        k,
        subst (λ l. All IsUnstarted (l ++ (record { address = s.next_address; client = c } ∷ [])))
            (sym e) (z, tt),
      )

idle-Served : (env : Env) (s : PpServer) → IsIdle s → Served (run env s)
unfolding IsIdle
idle-Served env s k = run-IsServed env s k.1 k.0

kept :
    (s : PpServer) (info : PpInfo)
    → s.clients ≡ []
    → pos 0 <ℤ s.next_channel_id
    → IsServed (record s { info = info })
kept s info e k =
    let a = sym (ap channels e) in
    record {
      counted = k;
      below = subst (All (λ c. c <ℤ s.next_channel_id)) a tt;
      distinct = subst Distinct a tt;
    }

with_file-Served :
    (env : Env) (s : PpServer) (o : Option (ℕ × PpInfo))
    → s.clients ≡ []
    → pos 0 <ℤ s.next_channel_id
    → Served (with_file env s o)
unfolding with_file Served IsIdle
with_file-Served env s none e k = Gives-none (λ r. IsServed r.1)
with_file-Served env s (some (zero, info)) e k =
    Gives-some (λ (r : ℕ × PpServer). IsServed r.1) (0, record s { info = info }) (kept s info e k)
with_file-Served env s (some (suc made, info)) e k =
    idle-Served env (record s { info = info }) (k, subst (All IsUnstarted) (sym e) tt)

join-Served :
    (env : Env) (memory : Memory) (s : PpServer)
    → s.clients ≡ []
    → pos 0 <ℤ s.next_channel_id
    → Served (join env memory s)
unfolding join set_file_name
join-Served env memory s e k = elim (Bool-cases (leb (length s.info.file_name) 0)) [
  | inl b ↦
      rw (join, b) (idle-Served env _ (added-IsIdle (set_file_name s.info.swarm_id s) _ e k refl))
  | inr b ↦ rw (join, b) (idle-Served env _ (added-IsIdle s _ e k refl))
]

-- If Start gives a result for a server without clients whose next channel is 1 or more, the
-- channels of the clients lie below the next one to be given out, which is 1 or more, and no two
-- clients have the same one but for channel 0.
pub start-IsServed :
    (env : Env) (memory : Memory) (s s' : PpServer) (result : ℕ)
    → s.clients ≡ []
    → pos 0 <ℤ s.next_channel_id
    → start env memory s ≡ some (result, s')
    → IsServed s'
unfolding start seed Served Gives
start-IsServed env memory s s' result e k = elim (Bool-cases (has_tracker s)) [
  | inl b ↦ rw (start, b) (join-Served env memory s e k (result, s'))
  | inr b ↦ elim (Bool-cases (has_file s)) [
    | inl f ↦ rw (start, b, f) (with_file-Served env s _ e k (result, s'))
    | inr f ↦
        rw (start, b, f)
          (Gives-some (λ (r : ℕ × PpServer). IsServed r.1) (0, s) (kept s s.info e k) (result, s'))
  ]
]
