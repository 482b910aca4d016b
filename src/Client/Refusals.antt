-- ===== src/Client/Refusals.antt =====
-- Messages of a peer that has not handshaked.
use ppsp.Common.{
  ℕ, ◌≡◌, ◌≢◌, refl, inl, inr, Bool, false, Option, some, List, ◌∷◌, ◌++◌, arith, ◌∙◌, get_elem?,
  length, ◌==◌, Bool-cases, branch_true, branch_false, branch_both, if◌then◌else◌,
}
use ppsp.Common.Int.{ℤ, pos}
use ppsp.Message.HandShake.{message_type_handshake}
use ppsp.Message.Have.{message_type_have}
use ppsp.Message.Request.{message_type_request}
use ppsp.Message.Data.{message_type_data}
use ppsp.Message.Ack.{message_type_ack}
use ppsp.Message.Integrity.{message_type_integrity}
use ppsp.Message.PexReq.{message_type_pex_req}
use ppsp.Client.{World, Env, ◌>>=◌, stop}
use ppsp.Client.Receive.{
  if_handshaked, client_of, receive_have, receive_request, receive_data, receive_ack,
  receive_integrity, receive_pex_req,
}
use ppsp.Client.Handle.{dispatch, dispatch_other, handle_message}

-- Nothing is sent, MyInfo stays, and the peer counts as before.
pub record IsIdle (w w' : World) : Type 0 where
  pub sent : w'.sent ≡ w.sent
  pub info : w'.info ≡ w.info
  pub handshaked : w'.client.is_handshaked ≡ w.client.is_handshaked

pub stop-IsIdle : (w : World) → IsIdle w (stop w)
unfolding stop
stop-IsIdle w =
    branch_both (IsIdle w) w.client.is_stop _ _
      (record { sent = refl; info = refl; handshaked = refl })
      (record { sent = refl; info = refl; handshaked = refl })

-- A result that stops the client, or leaves it as it is.
Idle : World → Option World → Type 0
Idle w o = (w' : World) × (o ≡ some w') × IsIdle w w'

same-Idle : (w : World) → Idle w (some w)
unfolding Idle
same-Idle w = (w, refl, record { sent = refl; info = refl; handshaked = refl })

stopped-Idle :
    (w : World) (next : Option World)
    → w.client.is_handshaked ≡ false
    → Idle w (if_handshaked w next)
unfolding Idle if_handshaked
stopped-Idle w next e = (stop w, branch_false _ _ e, stop-IsIdle w)

dispatch_other-Idle :
    (env : Env) (kind : ℕ) (msg : List ℕ) (len : ℤ) (w : World)
    → w.client.is_handshaked ≡ false
    → Idle w (dispatch_other env kind msg len w)
unfolding dispatch_other receive_have receive_request receive_data receive_ack receive_integrity
    receive_pex_req
dispatch_other-Idle env kind msg len w e =
    either (kind == message_type_have) _ _ (stopped-Idle w _ e) (
      either (kind == message_type_request) _ _ (stopped-Idle w _ e) (
        either (kind == message_type_data) _ _ (stopped-Idle w _ e) (
          either (kind == message_type_ack) _ _ (stopped-Idle w _ e) (
            either (kind == message_type_integrity) _ _ (stopped-Idle w _ e)
              (either (kind == message_type_pex_req) _ _ (stopped-Idle w _ e) (same-Idle w))))))
  where
    either : (b : Bool) (x y : Option World) → Idle w x → Idle w y → Idle w (if b then x else y)
    either = branch_both (Idle w)

-- Until the peer has handshaked, a message of another type than a handshake at the front of the
-- queue makes HandleMessage send nothing, leave MyInfo as it is, and not count the peer as one that
-- has handshaked.
pub handle_message-IsIdle :
    (env : Env) (w : World) (bytes : List ℕ) (queue : List (List ℕ)) (kind : ℕ)
    → w.client.is_handshaked ≡ false
    → w.client.message_queue ≡ bytes ∷ queue
    → get_elem? (bytes ++ env.beyond) 4 ≡ some kind
    → kind ≢ message_type_handshake
    → (w' : World) × (handle_message env w ≡ some w') × IsIdle w w'
unfolding handle_message dispatch Idle
handle_message-IsIdle env w bytes queue kind e q k n = elim (Bool-cases w.client.is_stop) [
  | inl s ↦ (w, branch_true _ _ s, record { sent = refl; info = refl; handshaked = refl })
  | inr s ↦
      let popped = client_of w (record w.client { message_queue = queue }) in
      let msg = bytes ++ env.beyond in
      let (w', r, i) = dispatch_other-Idle env kind msg (pos (length bytes)) popped e in
      let other : (kind == message_type_handshake) ≡ false = ground (arith, n) in
      (
        w',
        branch_false _ _ s ∙ rw (q, k, ◌>>=◌) (branch_false _ _ other ∙ r),
        record { sent = i.sent; info = i.info; handshaked = i.handshaked },
      )
]
