-- ===== src/Client/Next.antt =====
-- What SendNextRequest asks a peer for.
use ppsp.Common.{
  arith, ◌≡◌, refl, ◌⊎◌, inl, inr, true, false, some, [], ◌∷◌, ◌++◌, Bool-cases, subst, sym,
}
use ppsp.Common.Int.{◌≤ℤ◌, ◌<ℤ◌, ℤ, pos, negsuc, leb_ℤ}
use ppsp.Message.Request.{Request, new as new_request, get_buffer as request_buffer}
use ppsp.Binmap.{Binmap}
use ppsp.Binmap.Ranges.{Covers, Between}
use ppsp.Binmap.Requests.{set_requested, get_request_data}
use ppsp.Binmap.Requests.Laws.{IsRequested}
use ppsp.Binmap.Requests.Picks.{Picked, Nothing, get_request_data_cases}
use ppsp.Binmap.Requests.Keeps.{IsKept, IsKept-refl, get_request_data-IsKept}
use ppsp.Binmap.Finish.Laws.{check_finish_cases, closed}
use ppsp.Peer.Info.{finished}
use ppsp.Client.{PpClient, World, Env, my_info-set, send_to_peer, stop}
use ppsp.Client.Send.{send_next_request, request_or_stop, send_request, request_of, stop_unless}

-- The Request for chunk `i` on the peer's channel.
abbrev pub request_for : PpClient → ℤ → Request
request_for client i = record {
  destination_channel_id = client.dest_channel_id;
  message_type = 8;
  start_chunk = i;
  end_chunk = i;
}

-- One datagram goes out, a Request for a chunk that GetRequestData picks, which is marked and
-- remembered.
pub record IsAsking (env : Env) (w w' : World) : Type 0 where
  pub index : ℤ
  pub counted : pos 0 ≤ℤ index
  pub picked : Picked w.info.file_binmap w.client.peer_info.file_binmap index
  pub marked : IsRequested w'.info.file_binmap.requested index
  pub remembered : w'.client.last_requested_index ≡ index
  pub running : w'.client.is_stop ≡ w.client.is_stop
  pub sent : w'.sent ≡ w.sent ++ (request_buffer env.host (request_for w.client index) ∷ [])

-- No datagram goes out: there is nothing to ask the peer for, or a number below 0 is picked; and
-- the client is stopped, or goes on because every chunk of the content is there.
pub record IsIdleFor (w w' : World) : Type 0 where
  pub reason :
      Nothing w.info.file_binmap w.client.peer_info.file_binmap
      ⊎ ((i : ℤ) × Picked w.info.file_binmap w.client.peer_info.file_binmap i × (i <ℤ pos 0))
  pub unsent : w'.sent ≡ w.sent
  pub ended :
      (w'.client.is_stop ≡ true)
      ⊎ ((w'.client.is_stop ≡ w.client.is_stop)
          × ((i : ℤ)
              → Between (pos 0) w'.info.file_binmap.last_chunk i
              → Covers w'.info.file_binmap.chunk_range_list i))

-- How SendNextRequest can end. The file and the chunks that are here stay.
pub record IsNext (env : Env) (w w' : World) : Type 0 where
  pub kept : IsKept w.info.file_binmap w'.info.file_binmap
  pub tree : w'.info.file_hash_tree ≡ w.info.file_hash_tree
  pub asked : IsAsking env w w' ⊎ IsIdleFor w w'

Reason : World → Type 0
Reason w =
    Nothing w.info.file_binmap w.client.peer_info.file_binmap
    ⊎ ((i : ℤ) × Picked w.info.file_binmap w.client.peer_info.file_binmap i × (i <ℤ pos 0))

module _ (env : Env) (w : World) where
  abbrev with_map : Binmap → World
  with_map b = record w { info = record w.info { file_binmap = b } }

  stopped-IsNext :
      (b : Binmap)
      → IsKept w.info.file_binmap b
      → Reason w
      → IsNext env w (stop_unless false (with_map b))
  unfolding stop_unless stop Reason
  stopped-IsNext b k r = elim (Bool-cases w.client.is_stop) [
    | inl e ↦ rw e (record {
      kept = k;
      tree = refl;
      asked = inr (record { reason = r; unsent = refl; ended = inl refl });
    })
    | inr e ↦ rw e (record {
      kept = k;
      tree = refl;
      asked = inr (record { reason = r; unsent = refl; ended = inl refl });
    })
  ]

  -- CheckFinish, with the World that it leaves, and SendNextRequest's end behind it.
  stop_or_finish :
      (b : Binmap) (i : ℤ)
      → leb_ℤ (pos 0) i ≡ false
      → IsKept w.info.file_binmap b
      → Reason w
      → (w' : World) × (request_or_stop env i (with_map b) ≡ some w') × IsNext env w w'
  unfolding request_or_stop finished Reason stop_unless
  stop_or_finish b i e k r = elim (check_finish_cases b) [
    | inl f ↦ (
      stop_unless false (with_map b),
      rw (request_or_stop, e, finished, f) refl,
      stopped-IsNext b k r,
    )
    | inr (f, c) ↦ (
      with_map (closed b),
      rw (request_or_stop, e, finished, f) refl,
      record {
        kept = record { disk = k.disk; ranges = k.ranges };
        tree = refl;
        asked = inr (record { reason = r; unsent = refl; ended = inr (refl, c) });
      },
    )
  ]

  request_cases :
      (b : Binmap) (i : ℤ)
      → Picked w.info.file_binmap w.client.peer_info.file_binmap i
      → IsRequested b.requested i
      → IsKept w.info.file_binmap b
      → (w' : World) × (request_or_stop env i (with_map b) ≡ some w') × IsNext env w w'
  unfolding request_or_stop send_request send_to_peer request_of new_request Reason
  request_cases b i p m k = elim (Bool-cases (leb_ℤ (pos 0) i)) [
    | inl e ↦ (
      send_request env i (with_map b),
      rw (request_or_stop, e) refl,
      record {
        kept = k;
        tree = refl;
        asked = inl (record {
          index = i;
          counted = ground (arith, e);
          picked = p;
          marked = m;
          remembered = refl;
          running = refl;
          sent = refl;
        });
      },
    )
    | inr e ↦ stop_or_finish b i e k (inr (i, p, ground (arith, e)))
  ]

  abbrev GivesNext : Binmap × ℤ → Type 0
  GivesNext r = (w' : World) × (request_or_stop env r.1 (with_map r.0) ≡ some w') × IsNext env w w'

  gives_next : GivesNext (get_request_data w.info.file_binmap w.client.peer_info.file_binmap)
  unfolding Reason
  gives_next =
      let b = w.info.file_binmap in
      let peer = w.client.peer_info.file_binmap in
      let k = get_request_data-IsKept b peer in
      elim (get_request_data_cases b peer) [
        | inl (e, n) ↦
            subst GivesNext (sym e)
              (stop_or_finish b (negsuc 0) (ground arith) (IsKept-refl b) (inl n))
        | inr (i, e, r, p) ↦ subst GivesNext (sym e) (
            request_cases (set_requested b i).0 i p
              (subst (λ (x : Binmap × ℤ). IsRequested x.0.requested i) e r)
              (subst (λ (x : Binmap × ℤ). IsKept b x.0) e k))
      ]

-- With MyInfo set, SendNextRequest returns, and the file, the chunks that are here and the tree
-- stay. Either it sends one datagram: a Request on the peer's channel for a chunk from 0 on that
-- the peer has and GetRequestData picks, which is then marked as asked for and remembered, and the
-- client is stopped only if it was. Or it sends none: there is nothing to ask this peer for, or a
-- number below 0 is picked, and the client is stopped, or stays as it was with every chunk from 0
-- to the last one there.
pub send_next_request-IsNext :
    (env : Env) (w : World)
    → w.client.has_info ≡ true
    → (w' : World) × (send_next_request env w ≡ some w') × IsNext env w w'
unfolding send_next_request
send_next_request-IsNext env w h =
    let (w', e, n) = gives_next env w in (w', rw (send_next_request, my_info-set w h) e, n)
