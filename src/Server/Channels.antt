-- ===== src/Server/Channels.antt =====
-- No two clients of a server have the same channel.
use ppsp.Common.{
  suc, ℕ, ◌≡◌, ◌≢◌, refl, ◌⊎◌, inl, inr, List, [], ◌∷◌, ◌++◌, arith, ap, sym, ◌∙◌, subst, All,
  branch_both, if◌then◌else◌, ◌==◌, length, not, ◌&&◌, ◌||◌,
}
use ppsp.Common.Int.{ℤ, pos, ◌+ℤ◌, ◌<ℤ◌, eqb_ℤ, eqb_ℤ_iff}
use ppsp.Client.{PpClient, set_message, enqueue}
use ppsp.Message.HandShake.{message_type_handshake}
use ppsp.Server.{Peer, PpServer, add_client, change_peer, with_clients}

abbrev pub channels : List Peer → List ℤ
channels [] = []
channels (p ∷ peers) = p.client.channel_id ∷ channels peers

-- Channel 0 is that of a client that has not started.
abbrev pub Distinct : List ℤ → Type 0
Distinct [] = Unit {0}
Distinct (c ∷ cs) = ((c ≡ pos 0) ⊎ All (λ x. x ≢ c) cs) × Distinct cs

pub record IsServed (s : PpServer) : Type 0 where
  pub counted : pos 0 <ℤ s.next_channel_id
  pub below : All (λ c. c <ℤ s.next_channel_id) (channels s.clients)
  pub distinct : Distinct (channels s.clients)

channels-append :
    (l : List Peer) (p : Peer) → channels (l ++ (p ∷ [])) ≡ channels l ++ (p.client.channel_id ∷ [])
channels-append [] p = refl
channels-append (q ∷ l) p = ap (λ cs. q.client.channel_id ∷ cs) (channels-append l p)

All-append : (P : ℤ → Type 0) (cs : List ℤ) (c : ℤ) → All P cs → P c → All P (cs ++ (c ∷ []))
All-append P [] c a p = (p, tt)
All-append P (x ∷ cs) c a p = (a.0, All-append P cs c a.1 p)

All-map : (P Q : ℤ → Type 0) (cs : List ℤ) → ((c : ℤ) → P c → Q c) → All P cs → All Q cs
All-map P Q [] f a = tt
All-map P Q (x ∷ cs) f a = (f x a.0, All-map P Q cs f a.1)

same_or : (a b : ℤ) → (a ≡ b) ⊎ (a ≢ b)
same_or a b = grind (arith, eqb_ℤ_iff a b)

-- A channel that is 0, or that no client has.
unfoldable pub IsNew : ℤ → List ℤ → Type 0
IsNew c cs = (c ≡ pos 0) ⊎ All (λ x. x ≢ c) cs

IsNew-rest : (c x : ℤ) (cs : List ℤ) → IsNew c (x ∷ cs) → IsNew c cs
unfolding IsNew
IsNew-rest c x cs (inl z) = inl z
IsNew-rest c x cs (inr a) = inr a.1

apart : (c x : ℤ) (cs : List ℤ) → IsNew c (x ∷ cs) → IsNew x cs → IsNew x (cs ++ (c ∷ []))
unfolding IsNew
apart c x cs n (inl z) = inl z
apart c x cs (inr a) (inr b) = inr (All-append (λ y. y ≢ x) cs c b (λ e. a.0 (sym e)))
apart c x cs (inl z) (inr b) = elim (same_or x (pos 0)) [
  | inl e ↦ inl e
  | inr n ↦ inr (All-append (λ y. y ≢ x) cs c b (λ e. n (sym e ∙ z)))
]

Distinct-append : (c : ℤ) (cs : List ℤ) → IsNew c cs → Distinct cs → Distinct (cs ++ (c ∷ []))
unfolding IsNew
Distinct-append c [] n d = (inr tt, tt)
Distinct-append c (x ∷ cs) n d =
    (apart c x cs n d.0, Distinct-append c cs (IsNew-rest c x cs n) d.1)

-- A new client.
readdressed :
    (s : PpServer) {peers : List Peer}
    → IsServed (record s { clients = peers })
    → IsServed (record s { clients = peers; next_address = suc s.next_address })
readdressed s k = record { counted = k.counted; below = k.below; distinct = k.distinct }

-- One more client, with a channel of its own or none yet.
grown-IsServed :
    (s : PpServer) (p : Peer)
    → IsServed s
    → p.client.channel_id <ℤ s.next_channel_id
    → IsNew p.client.channel_id (channels s.clients)
    → IsServed (record s { clients = s.clients ++ (p ∷ []) })
grown-IsServed s p k b n =
    let e = sym (channels-append s.clients p) in
    record {
      counted = k.counted;
      below = subst (All (λ x. x <ℤ s.next_channel_id)) e (
          All-append (λ x. x <ℤ s.next_channel_id) (channels s.clients) p.client.channel_id k.below
            b);
      distinct =
          subst Distinct e (Distinct-append p.client.channel_id (channels s.clients) n k.distinct);
    }

pub add_client-IsServed :
    (s : PpServer) (c : PpClient)
    → IsServed s
    → c.channel_id <ℤ s.next_channel_id
    → IsNew c.channel_id (channels s.clients)
    → IsServed (add_client s c)
add_client-IsServed s c k b n =
    branch_both IsServed s.is_stop s _ k
      (readdressed s (grown-IsServed s (record { address = s.next_address; client = c }) k b n))

next_greater : (a : ℤ) → a <ℤ a +ℤ pos 1
unfolding ◌+ℤ◌
next_greater a = ground arith

next_mono : (a n : ℤ) → a <ℤ n → a <ℤ n +ℤ pos 1
unfolding ◌+ℤ◌
next_mono a n l = ground arith

none_next : (n : ℤ) (cs : List ℤ) → All (λ c. c <ℤ n) cs → All (λ x. x ≢ n) cs
none_next n cs a = All-map _ _ cs (λ c l e. absurd (differ c n l e)) a
  where
    differ : (c n : ℤ) → c <ℤ n → c ≡ n → ⊥
    differ c n l e = ground arith

-- The number of the next channel goes up.
counted_up :
    (s : PpServer) (sent : List (List ℕ))
    → IsServed s
    → IsServed (record s { next_channel_id = s.next_channel_id +ℤ pos 1; sent = sent })
counted_up s sent k = record {
  counted = next_mono (pos 0) s.next_channel_id k.counted;
  below = All-map _ _ (channels s.clients) (λ c l. next_mono c s.next_channel_id l) k.below;
  distinct = k.distinct;
}

own_channel :
    (s : PpServer) (p : Peer)
    → IsServed s
    → p.client.channel_id ≡ s.next_channel_id
    → IsNew p.client.channel_id (channels s.clients)
unfolding IsNew
own_channel s p k e = inr (
    subst (λ x. All (λ y. y ≢ x) (channels s.clients)) (sym e)
      (none_next s.next_channel_id (channels s.clients) k.below))

pub numbered-IsServed :
    (s : PpServer) (sent : List (List ℕ)) (c : PpClient)
    → IsServed s
    → c.channel_id ≡ s.next_channel_id
    → IsServed
        (add_client (record s { next_channel_id = s.next_channel_id +ℤ pos 1; sent = sent }) c)
unfolding IsNew
numbered-IsServed s sent c k e =
    add_client-IsServed (record s { next_channel_id = s.next_channel_id +ℤ pos 1; sent = sent }) c
      (counted_up s sent k)
      (subst (λ x. x <ℤ s.next_channel_id +ℤ pos 1) (sym e) (next_greater s.next_channel_id))
      (own_channel s (record { address = 0; client = c }) k e)

pub numbered_peer-IsServed :
    (s : PpServer) (sent : List (List ℕ)) (p : Peer)
    → IsServed s
    → p.client.channel_id ≡ s.next_channel_id
    → IsServed (record s {
      clients = s.clients ++ (p ∷ []);
      next_channel_id = s.next_channel_id +ℤ pos 1;
      sent = sent;
    })
unfolding IsNew
numbered_peer-IsServed s sent p k e =
    grown-IsServed (record s { next_channel_id = s.next_channel_id +ℤ pos 1; sent = sent }) p
      (counted_up s sent k)
      (subst (λ x. x <ℤ s.next_channel_id +ℤ pos 1) (sym e) (next_greater s.next_channel_id))
      (own_channel s p k e)

-- Changes of clients that leave their channels.
channels-change_peer :
    (channel : ℤ) (f : PpClient → PpClient)
    → ((c : PpClient) → (f c).channel_id ≡ c.channel_id)
    → (l : List Peer) → channels (change_peer channel f l) ≡ channels l
channels-change_peer channel f h [] = refl
channels-change_peer channel f h (p ∷ l) =
    branch_both (λ (x : List Peer). channels x ≡ channels (p ∷ l))
      (eqb_ℤ p.client.channel_id channel) _ _ (ap (λ c. c ∷ channels l) (h p.client))
      (ap (λ cs. p.client.channel_id ∷ cs) (channels-change_peer channel f h l))

pub changed-IsServed :
    (s : PpServer) (channel : ℤ) (f : PpClient → PpClient)
    → ((c : PpClient) → (f c).channel_id ≡ c.channel_id)
    → IsServed s
    → IsServed (with_clients s (change_peer channel f s.clients))
changed-IsServed s channel f h k =
    let e = sym (channels-change_peer channel f h s.clients) in
    record {
      counted = k.counted;
      below = subst (All (λ c. c <ℤ s.next_channel_id)) e k.below;
      distinct = subst Distinct e k.distinct;
    }

pub set_message_channel :
    (msg : List ℕ) (kind : ℕ) (c : PpClient) → (set_message c msg kind).channel_id ≡ c.channel_id
unfolding set_message enqueue
set_message_channel msg kind c =
    let early = not (kind == message_type_handshake) && eqb_ℤ c.channel_id (pos 0) in
    branch_both (λ (x : PpClient). x.channel_id ≡ c.channel_id) (length msg == 0 || c.is_stop) c
      (if early then c else enqueue c msg) refl
      (branch_both (λ (x : PpClient). x.channel_id ≡ c.channel_id) early c (enqueue c msg) refl
        refl)
