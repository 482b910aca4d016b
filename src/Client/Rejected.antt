-- ===== src/Client/Rejected.antt =====
-- ReceiveData with a chunk that does not pass the check.
use ppsp.Common.{
  ℕ, ◌≡◌, refl, ◌⊎◌, inl, inr, true, Option, none, some, List, [], ◌∷◌, ◌++◌, arith, ap, sym, ◌∙◌,
  subst, Bool-cases, branch_true,
}
use ppsp.Common.Int.{ℤ, pos, ◌+ℤ◌, ltb_ℤ}
use ppsp.Message.Data.{Data, new as new_data, create as read_data}
use ppsp.Message.Request.{get_buffer as request_buffer}
use ppsp.Binmap.{Binmap}
use ppsp.Binmap.Requests.{release_requested}
use ppsp.Binmap.Requests.Keeps.{IsKept, IsKept-refl, IsKept-trans, release_requested-IsKept}
use ppsp.Peer.Info.{PpInfo, check_data, with_tree}
use ppsp.Tree.Sha.{Hasher}
use ppsp.Tree.State.{HashTree}
use ppsp.Tree.Check.{check_data_integrity}
use ppsp.Client.{PpClient, World, Env, my_info-set, ◌>>=◌, stop}
use ppsp.Client.Next.{request_for, IsNext, send_next_request-IsNext}
use ppsp.Client.Receive.{if_handshaked, client_of, retry_request, give_back, receive_data}

-- The file and the chunks that are here stay, and no datagram goes out but a request.
pub record IsRejection (env : Env) (w w' : World) : Type 0 where
  pub kept : IsKept w.info.file_binmap w'.info.file_binmap
  pub asked :
      ((i : ℤ) × (w'.sent ≡ w.sent ++ (request_buffer env.host (request_for w.client i) ∷ [])))
      ⊎ (w'.sent ≡ w.sent)

stop_keeps : (w : World) → ((stop w).info ≡ w.info) × ((stop w).sent ≡ w.sent)
unfolding stop
stop_keeps w = elim (Bool-cases w.client.is_stop) [
  | inl e ↦ ground (arith, e)
  | inr e ↦ ground (arith, e)
]

stop-IsRejection : (env : Env) (w : World) → IsRejection env w (stop w)
stop-IsRejection env w = record {
  kept =
      subst (λ (x : PpInfo). IsKept w.info.file_binmap x.file_binmap) (sym (stop_keeps w).0)
        (IsKept-refl w.info.file_binmap);
  asked = inr (stop_keeps w).1;
}

next-IsRejection :
    (env : Env) (w w' : World) (c : PpClient) → IsNext env w w' → IsRejection env w (client_of w' c)
next-IsRejection env w w' c n = record {
  kept = n.kept;
  asked = elim n.asked [ inl a ↦ inl (a.index, a.sent) | inr i ↦ inr i.unsent ];
}

retry_request-IsRejection :
    (env : Env) (w : World)
    → w.client.has_info ≡ true
    → (w' : World) × (retry_request env w ≡ some w') × IsRejection env w w'
unfolding retry_request
retry_request-IsRejection env w h =
    elim (Bool-cases (ltb_ℤ w.info.retry_count w.client.retry_count)) [
      | inl e ↦ (stop w, rw (retry_request, my_info-set w h, ◌>>=◌, e) refl, stop-IsRejection env w)
      | inr e ↦
          let (w', s, n) = send_next_request-IsNext env w h in
          let counted = record w'.client { retry_count = w'.client.retry_count +ℤ pos 1 } in
          (
            client_of w' counted,
            rw (retry_request, my_info-set w h, ◌>>=◌, e, s) refl,
            next-IsRejection env w w' counted n,
          )
    ]

give_back-IsRejection :
    (env : Env) (w : World)
    → w.client.has_info ≡ true
    → (w' : World) × (give_back env w ≡ some w') × IsRejection env w w'
unfolding give_back
give_back-IsRejection env w h =
    let b = release_requested w.info.file_binmap w.client.last_requested_index in
    let released = record w { info = record w.info { file_binmap = b } } in
    let k = release_requested-IsKept w.info.file_binmap w.client.last_requested_index in
    let (w', e, r) = retry_request-IsRejection env released h in
    (w', e, record { kept = IsKept-trans k r.kept; asked = r.asked })

map_or : PpInfo → Option (ℕ × PpInfo) → Binmap
map_or info none = info.file_binmap
map_or info (some (n, info')) = info'.file_binmap

with_tree_map :
    (info : PpInfo) (o : Option (ℕ × HashTree)) → map_or info (with_tree info o) ≡ info.file_binmap
unfolding map_or with_tree
with_tree_map info none = refl
with_tree_map info (some (n, tree)) = refl

check_data_map :
    (sha : Hasher) (info info' : PpInfo) (channelid : ℤ) (d : Data) (n : ℕ)
    → check_data sha info channelid d ≡ some (n, info')
    → info'.file_binmap ≡ info.file_binmap
unfolding check_data map_or
check_data_map sha info info' channelid d n e =
    ap (map_or info) (sym e)
    ∙ with_tree_map info (check_data_integrity sha info.file_hash_tree channelid d)

-- Behind a handshake, a chunk that CheckDataIntegrity refuses is neither written to the file nor
-- added to the chunks that are here, and no datagram goes out but one Request at most: ReceiveData
-- returns.
pub receive_data-IsRejection :
    (env : Env) (w : World) (msg : List ℕ) (len : ℤ) (d : Data) (idx : ℕ) (info : PpInfo)
    → w.client.is_handshaked ≡ true
    → w.client.has_info ≡ true
    → read_data env.host (record new_data { chunk_size = w.info.chunk_size }) msg len
      ≡ some (d, idx)
    → check_data env.sha w.info w.client.channel_id d ≡ some (0, info)
    → (w' : World) × (receive_data env msg len w ≡ some w') × IsRejection env w w'
unfolding receive_data if_handshaked
receive_data-IsRejection env w msg len d idx info hs h e c =
    let (w', g, r) = give_back-IsRejection env (record w { info = info }) h in
    let m = check_data_map env.sha w.info info w.client.channel_id d 0 c in
    (
      w',
      branch_true _ _ hs ∙ rw (my_info-set w h, ◌>>=◌, e, ◌>>=◌, c, ◌>>=◌) g,
      record {
        kept = subst (λ (x : Binmap). IsKept x w'.info.file_binmap) m r.kept;
        asked = r.asked;
      },
    )
