-- ===== src/Binmap/Requests/Picks.antt =====
-- What GetRequestData picks, and when it picks nothing.
use ppsp.Common.{
  ◌≡◌, refl, ◌⊎◌, inl, inr, true, false, not, ◌&&◌, Option, none, some, List, [], ◌∷◌, arith,
  Bool-cases,
}
use ppsp.Common.Int.{ℤ, pos, negsuc, ◌≤ℤ◌, ◌<ℤ◌, ◌+ℤ◌, leb_ℤ, eqb_ℤ, +ℤ_parts, eqb_ℤ_iff}
use ppsp.Binmap.{Range, Binmap}
use ppsp.Binmap.Ranges.{Covers}
use ppsp.Binmap.Requests.{
  is_requested, is_have_data, set_requested, rounds, first_from, peer_has, first_missing,
  next_request, get_request_data,
}
use ppsp.Binmap.Requests.Laws.{
  IsRequested, HasData, is_have_data_iff, is_requested_sound, peer_has_sound, peer_has_complete,
  FirstFrom, first_from-FirstFrom,
}

-- Chunk `j` is of no use: it is here or asked for already, or the peer does not have it.
abbrev pub Useless : Binmap → Binmap → ℤ → Type 0
Useless b peer j = HasData b j ⊎ (¬ Covers peer.chunk_range_list j)

absent_sound : (b : Binmap) (i : ℤ) → not (is_have_data b i) ≡ true → ¬ HasData b i
absent_sound b i h = λ k. ground (arith, (is_have_data_iff b i).1 k)

present_sound : (b : Binmap) (i : ℤ) → not (is_have_data b i) ≡ false → HasData b i
present_sound b i h = (is_have_data_iff b i).0 (ground arith)

-- The two tests on a chunk in the first branch.
wanted_sound :
    (b peer : Binmap) (i : ℤ)
    → (not (is_have_data b i) && peer_has peer.chunk_range_list i) ≡ true
    → Covers peer.chunk_range_list i × (¬ HasData b i)
wanted_sound b peer i h =
    (peer_has_sound peer.chunk_range_list i (ground arith), absent_sound b i (ground arith))

unwanted-Useless :
    (b peer : Binmap) (i : ℤ)
    → (not (is_have_data b i) && peer_has peer.chunk_range_list i) ≡ false
    → Useless b peer i
unwanted-Useless b peer i h = elim (Bool-cases (is_have_data b i)) [
  | inl e ↦ inl ((is_have_data_iff b i).0 e)
  | inr e ↦ inr (λ k. ground (arith, peer_has_complete peer.chunk_range_list i k))
]

-- What the choice says, by its result.
abbrev pub Nothing : Binmap → Binmap → Type 0
Nothing b peer =
    ((pos 0 ≤ℤ b.cp) × (b.cp ≡ b.last_chunk))
    ⊎ ((pos 0 ≤ℤ b.cp) × ((j : ℤ) → b.cp <ℤ j → j ≤ℤ b.last_chunk → Useless b peer j))
    ⊎ ((b.cp <ℤ pos 0) × ((j : ℤ) → Covers peer.chunk_range_list j → HasData b j))

abbrev pub Picked : Binmap → Binmap → ℤ → Type 0
Picked b peer i =
    Covers peer.chunk_range_list i
    × (¬ HasData b i)
    × (pos 0 ≤ℤ b.cp
        → (b.cp <ℤ i) × (i ≤ℤ b.last_chunk) × ((j : ℤ) → b.cp <ℤ j → j <ℤ i → Useless b peer j))

abbrev pub Choice : Binmap → Binmap → Option ℤ → Type 0
Choice b peer none = Nothing b peer
Choice b peer (some i) = Picked b peer i

above :
    (b peer : Binmap) (m : Option ℤ)
    → pos 0 ≤ℤ b.cp
    → FirstFrom
        (λ i. not (is_have_data b i) && peer_has peer.chunk_range_list i)
        (b.cp +ℤ pos 1)
        b.last_chunk
        m
    → Choice b peer m
above b peer none c f =
    inr (inl (c, λ j p q. unwanted-Useless b peer j (f j (omega (arith, +ℤ_parts b.cp (pos 1))) q)))
above b peer (some i) c f = (
  (wanted_sound b peer i f.2).0,
  (wanted_sound b peer i f.2).1,
  λ _. (
    omega (arith, +ℤ_parts b.cp (pos 1)),
    f.1,
    λ j p q. unwanted-Useless b peer j (f.3 j (omega (arith, +ℤ_parts b.cp (pos 1))) q),
  ),
)

-- The loops over the peer's ranges.
abbrev AnyMissing : Binmap → List Range → Option ℤ → Type 0
AnyMissing b l none = (j : ℤ) → Covers l j → HasData b j
AnyMissing b l (some i) = Covers l i × (¬ HasData b i)

missing_step :
    (b : Binmap) (it : Range) (rest : List Range) (m n : Option ℤ)
    → FirstFrom (λ i. not (is_have_data b i)) it.start it.end m
    → AnyMissing b rest n
    → AnyMissing b (it ∷ rest) (elim m [ none ↦ n | some i ↦ some i ])
missing_step b it rest none none f r =
    λ j c. elim c [ inl x ↦ present_sound b j (f j x.0 x.1) | inr x ↦ r j x ]
missing_step b it rest none (some i) f r = (inr r.0, r.1)
missing_step b it rest (some i) n f r = (inl (f.0, f.1), absent_sound b i f.2)

first_missing-AnyMissing :
    (b : Binmap) (l : List Range) → AnyMissing b l (first_missing (λ i. not (is_have_data b i)) l)
unfolding first_missing
first_missing-AnyMissing b [] = λ j c. absurd c
first_missing-AnyMissing b (it ∷ rest) =
    missing_step b it rest
      (first_from (λ i. not (is_have_data b i)) (rounds it.start it.end) it.start)
      (first_missing (λ i. not (is_have_data b i)) rest)
      (first_from-FirstFrom (λ i. not (is_have_data b i)) (rounds it.start it.end) it.start it.end
        refl)
      (first_missing-AnyMissing b rest)

below :
    (b peer : Binmap) (m : Option ℤ)
    → b.cp <ℤ pos 0
    → AnyMissing b peer.chunk_range_list m
    → Choice b peer m
below b peer none c f = inr (inr (c, f))
below b peer (some i) c f = (f.0, f.1, λ h. absurd (omega arith))

pub next_request-Choice : (b peer : Binmap) → Choice b peer (next_request b peer)
unfolding next_request
next_request-Choice b peer = elim (Bool-cases (leb_ℤ (pos 0) b.cp)) [
  | inl c ↦ elim (Bool-cases (eqb_ℤ b.cp b.last_chunk)) [
    | inl e ↦ rw (c, e) (inl (ground arith, (eqb_ℤ_iff b.cp b.last_chunk).0 e))
    | inr e ↦
        rw (c, e)
          (above b peer _ (ground arith) (
            first_from-FirstFrom _ (rounds (b.cp +ℤ pos 1) b.last_chunk) (b.cp +ℤ pos 1)
              b.last_chunk refl))
  ]
  | inr c ↦ rw c (below b peer _ (ground arith) (first_missing-AnyMissing b peer.chunk_range_list))
]

pub set_requested-IsRequested : (b : Binmap) (i : ℤ) → IsRequested (set_requested b i).0.requested i
unfolding set_requested
set_requested-IsRequested b i = elim (Bool-cases (is_requested b.requested i)) [
  | inl e ↦ rw e (is_requested_sound b.requested i e)
  | inr e ↦ rw e (inl refl)
]

-- GetRequestData either leaves the map alone, returns -1, and there is nothing to ask this peer
-- for: CP is at the last chunk, or each chunk behind CP up to the last (each chunk of the peer, if
-- CP is not set) is here, is asked for already while some chunk is here, or is one that the peer
-- does not have. Or it marks a chunk and returns it, one that the peer has and that is not here and
-- not asked for while some chunk is here; if CP is set, it lies behind CP, up to the last chunk,
-- and no chunk between would do.
pub get_request_data_cases :
    (b peer : Binmap)
    → ((get_request_data b peer ≡ (b, negsuc 0)) × Nothing b peer)
      ⊎ ((i : ℤ) × (get_request_data b peer ≡ ((set_requested b i).0, i))
          × IsRequested (get_request_data b peer).0.requested i
          × Picked b peer i)
unfolding get_request_data
get_request_data_cases b peer = go (next_request b peer) refl (next_request-Choice b peer)
  where
    go :
        (m : Option ℤ)
        → next_request b peer ≡ m
        → Choice b peer m
        → ((get_request_data b peer ≡ (b, negsuc 0)) × Nothing b peer)
          ⊎ ((i : ℤ) × (get_request_data b peer ≡ ((set_requested b i).0, i))
              × IsRequested (get_request_data b peer).0.requested i
              × Picked b peer i)
    go none e c = inl (rw (e, get_request_data) refl, c)
    go (some i) e c = inr (
      i,
      rw (e, get_request_data) refl,
      rw (e, get_request_data) (set_requested-IsRequested b i),
      c,
    )
