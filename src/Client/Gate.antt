-- ===== src/Client/Gate.antt =====
-- What a handshake must have for the peer to count as one that has handshaked.
use ppsp.Common.{
  ℕ, ◌≡◌, refl, inl, inr, Bool, true, false, Option, none, some, List, arith, ap, sym, ◌∙◌, subst,
  drop, Option-cases, Bool-cases, branch_false,
}
use ppsp.Message.HandShake.{HandShake, new as new_handshake, create as read_handshake}
use ppsp.Peer.Info.{PpInfo, set_info}
use ppsp.Client.{World, Env, my_info-set, ◌>>=◌, stop}
use ppsp.Client.Agreement.{IsSameSwarm, HasSameOptions, swarm_agrees, options_agree}
use ppsp.Client.Refusals.{IsIdle, stop-IsIdle}
use ppsp.Client.Receive.{client_of, wrong_swarm, refused, admit, examine, receive_handshake}

-- The handshake is for the client's content, and each option in it agrees with MyInfo and names a
-- method that the program has.
pub record IsAdmitted (w : World) (hs : HandShake) : Type 0 where
  pub swarm : IsSameSwarm w.client w.info hs
  pub options : HasSameOptions w.info hs

handshaked_or : Option World → Bool
handshaked_or none = false
handshaked_or (some w) = w.client.is_handshaked

-- A result that has handshaked is not one of a client that has not.
stays_out :
    (w w' : World) (o : Option World)
    → IsIdle w w'
    → w.client.is_handshaked ≡ false
    → o ≡ some w'
    → handshaked_or o ≡ true
    → ⊥
unfolding handshaked_or
stays_out w w' o i e r h =
    let a : handshaked_or (some w') ≡ false = i.handshaked ∙ e in
    let b : handshaked_or (some w') ≡ true = subst (λ x. handshaked_or x ≡ true) r h in
    ground (arith, a, b)

module _ (env : Env) (info : PpInfo) (hs : HandShake) (rest : List ℕ) (w : World)
    (mine : w.info ≡ info) (out : w.client.is_handshaked ≡ false) where
  admit-agrees :
      (peer : PpInfo)
      → handshaked_or (admit env info hs rest peer w) ≡ true
      → refused info peer hs ≡ false
  unfolding admit
  admit-agrees peer h = elim (Bool-cases (refused info peer hs)) [
    | inr e ↦ e
    | inl e ↦
        let client = record w.client { dest_channel_id = hs.source_channel_id; peer_info = peer } in
        let known = client_of w client in
        absurd (
          stays_out known (stop known) (admit env info hs rest peer w) (stop-IsIdle known) out
            (rw (admit, e) refl) h)
  ]

  examine-IsAdmitted : handshaked_or (examine env info hs rest w) ≡ true → IsAdmitted w hs
  unfolding examine handshaked_or
  examine-IsAdmitted h = elim (Bool-cases (wrong_swarm w.client info hs)) [
    | inl e ↦ absurd (
        stays_out w (stop w) (examine env info hs rest w) (stop-IsIdle w) out (rw (examine, e) refl)
          h)
    | inr e ↦ elim (Option-cases (set_info w.client.peer_info hs)) [
      | inl n ↦
          let r : examine env info hs rest w ≡ none = rw (examine, e, n) refl in
          absurd (ground (arith, subst (λ x. handshaked_or x ≡ true) r h))
      | inr (peer, s) ↦
          let r : examine env info hs rest w ≡ admit env info hs rest peer w =
            rw (examine, e, s) refl in
          record {
            swarm =
                subst (λ i. IsSameSwarm w.client i hs) (sym mine) (swarm_agrees w.client info hs e);
            options =
                subst (λ i. HasSameOptions i hs) (sym mine)
                  (options_agree info w.client.peer_info peer hs s
                    (admit-agrees peer (subst (λ x. handshaked_or x ≡ true) r h)));
          }
    ]
  ]

-- With MyInfo set, a peer that has not handshaked comes to count as one that has, in a
-- ReceiveHandShake that returns, only by a handshake that is read from the message and has the
-- client's identifier where MyInfo is a seeder or an identifier came; of the methods of addressing,
-- of protection and of hashing, and of the chunk size, each one that came is the one of MyInfo, and
-- the methods are ones that the program has.
pub receive_handshake-IsAdmitted :
    (env : Env) (msg : List ℕ) (w w' : World)
    → w.client.has_info ≡ true
    → w.client.is_handshaked ≡ false
    → receive_handshake env msg w ≡ some w'
    → w'.client.is_handshaked ≡ true
    → (hs : HandShake) × (idx : ℕ) × (read_handshake env.host new_handshake msg ≡ some (hs, idx))
      × IsAdmitted w hs
unfolding receive_handshake handshaked_or
receive_handshake-IsAdmitted env msg w w' h e r a =
    elim (Option-cases (read_handshake env.host new_handshake msg)) [
      | inl n ↦
          let f : receive_handshake env msg w ≡ none = rw (receive_handshake, n) refl in
          absurd (ground (arith, sym f ∙ r))
      | inr ((hs, idx), s) ↦
          let f : receive_handshake env msg w ≡ examine env w.info hs (drop idx msg) w =
            rw (receive_handshake, s, ◌>>=◌, my_info-set w h) refl in
          let g : handshaked_or (examine env w.info hs (drop idx msg) w) ≡ true =
            ap handshaked_or (sym f ∙ r) ∙ a in
          (hs, idx, s, examine-IsAdmitted env w.info hs (drop idx msg) w refl e g)
    ]

-- The two ways in which a handshake is refused: it is for another content, where the identifiers
-- are compared, or its options, which PeerInfo takes, are not those of MyInfo.
pub data IsRefused (w : World) (hs : HandShake) : Type 0 where
  other_content : ¬ IsSameSwarm w.client w.info hs → IsRefused w hs
  other_options :
      (peer : PpInfo)
      → set_info w.client.peer_info hs ≡ some peer
      → ¬ HasSameOptions w.info hs
      → IsRefused w hs

stop_once : (w : World) → w.client.is_stop ≡ false → (stop w).client.is_stop ≡ true
unfolding stop
stop_once w e = ap (λ (x : World). x.client.is_stop) (branch_false _ _ e)

Refuses : Env → List ℕ → World → Type 0
Refuses env msg w =
    (w' : World) × (receive_handshake env msg w ≡ some w')
    × IsIdle w w'
    × (w'.client.is_stop ≡ true)

stopped_by_swarm :
    (env : Env) (msg : List ℕ) (w : World) (hs : HandShake) (idx : ℕ)
    → w.client.has_info ≡ true
    → w.client.is_stop ≡ false
    → read_handshake env.host new_handshake msg ≡ some (hs, idx)
    → wrong_swarm w.client w.info hs ≡ true
    → Refuses env msg w
unfolding receive_handshake examine Refuses
stopped_by_swarm env msg w hs idx h e r s = (
  stop w,
  rw (receive_handshake, r, ◌>>=◌, my_info-set w h, ◌>>=◌, examine, s) refl,
  stop-IsIdle w,
  stop_once w e,
)

stopped_by_options :
    (env : Env) (msg : List ℕ) (w : World) (hs : HandShake) (idx : ℕ) (peer : PpInfo)
    → w.client.has_info ≡ true
    → w.client.is_stop ≡ false
    → read_handshake env.host new_handshake msg ≡ some (hs, idx)
    → set_info w.client.peer_info hs ≡ some peer
    → wrong_swarm w.client w.info hs ≡ false
    → refused w.info peer hs ≡ true
    → Refuses env msg w
unfolding receive_handshake examine admit Refuses
stopped_by_options env msg w hs idx peer h e r p s f =
    let known =
      client_of w (record w.client { dest_channel_id = hs.source_channel_id; peer_info = peer }) in
    let i = stop-IsIdle known in
    (
      stop known,
      rw (receive_handshake, r, ◌>>=◌, my_info-set w h, ◌>>=◌, examine, s, p, ◌>>=◌, admit, f) refl,
      record { sent = i.sent; info = i.info; handshaked = i.handshaked },
      stop_once known e,
    )

-- With MyInfo set and a client that is not stopped, a handshake that the reader takes makes
-- ReceiveHandShake return with the client stopped, nothing sent, MyInfo as it was and the peer
-- counted as before, if the identifiers differ and MyInfo is a seeder or one came, or if PeerInfo
-- takes its options and not all of the methods of addressing, of protection and of hashing and the
-- chunk size that came are those of MyInfo and methods that the program has.
pub receive_handshake-refused :
    (env : Env) (msg : List ℕ) (w : World) (hs : HandShake) (idx : ℕ)
    → w.client.has_info ≡ true
    → w.client.is_stop ≡ false
    → read_handshake env.host new_handshake msg ≡ some (hs, idx)
    → IsRefused w hs
    → (w' : World) × (receive_handshake env msg w ≡ some w')
      × IsIdle w w'
      × (w'.client.is_stop ≡ true)
unfolding Refuses
receive_handshake-refused env msg w hs idx h e r x =
    elim (Bool-cases (wrong_swarm w.client w.info hs)) [
      | inl s ↦ stopped_by_swarm env msg w hs idx h e r s
      | inr s ↦ elim x [
        | other_content d ↦ absurd (d (swarm_agrees w.client w.info hs s))
        | other_options peer p d ↦ elim (Bool-cases (refused w.info peer hs)) [
          | inl f ↦ stopped_by_options env msg w hs idx peer h e r p s f
          | inr f ↦ absurd (d (options_agree w.info w.client.peer_info peer hs p f))
        ]
      ]
    ]
