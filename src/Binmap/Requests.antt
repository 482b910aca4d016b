-- ===== src/Binmap/Requests.antt =====
-- Which chunk to ask a peer for: IsHaveData, SetRequested, ReleaseRequested and GetRequestData of
-- Binmap.cpp. GetRequestData holds the locks of both maps throughout, so it is one step here.
pub mod Laws
pub mod Picks
pub mod Marks
pub mod Later
pub mod Keeps
mod Tests
use ppsp.Common.{
  ℕ, zero, suc, ◌+◌, ◌-◌, Bool, true, false, not, ◌&&◌, ◌||◌, Option, none, some, List, [], ◌∷◌,
  if◌then◌else◌,
}
use ppsp.Common.Int.{ℤ, pos, negsuc, ◌+ℤ◌, ltb_ℤ, leb_ℤ, eqb_ℤ, pos_part, neg_part}
use ppsp.Binmap.{Range, Binmap}

-- `RequestedMap.find(index) != RequestedMap.end()`
pub is_requested : List ℤ → ℤ → Bool
is_requested [] index = false
is_requested (k ∷ ks) index = eqb_ℤ k index || is_requested ks index

-- `(*it)->Start <= index && (*it)->End >= index`
abbrev pub in_range : Range → ℤ → Bool
in_range it index = leb_ℤ it.start index && leb_ℤ index it.end

have_loop : List Range → List ℤ → ℤ → Bool
have_loop [] requested index = false
have_loop (it ∷ rest) requested index =
    if in_range it index || is_requested requested index
    then true
    else have_loop rest requested index

pub is_have_data : Binmap → ℤ → Bool
unfolding have_loop
is_have_data b index = have_loop b.chunk_range_list b.requested index

pub set_requested : Binmap → ℤ → Binmap × Bool
set_requested b index =
    if is_requested b.requested index
    then (b, false)
    else (record b { requested = index ∷ b.requested }, true)

erase : List ℤ → ℤ → List ℤ
erase [] index = []
erase (k ∷ ks) index = if eqb_ℤ k index then erase ks index else k ∷ erase ks index

pub release_requested : Binmap → ℤ → Binmap
unfolding erase
release_requested b index =
    if ltb_ℤ index (pos 0) then b else record b { requested = erase b.requested index }

-- How often `for (int i = start; i <= end; i++)` goes round.
abbrev pub rounds : ℤ → ℤ → ℕ
rounds start end = (pos_part end + neg_part start + 1) - (pos_part start + neg_part end)

-- A loop over `n` numbers from `index` on that ends at the first one with the test.
pub first_from : (ℤ → Bool) → ℕ → ℤ → Option ℤ
first_from test zero index = none
first_from test (suc n) index =
    let later = first_from test n (index +ℤ pos 1) in if test index then some index else later

-- The loop over the peer's ranges at one chunk.
pub peer_has : List Range → ℤ → Bool
peer_has [] index = false
peer_has (it ∷ rest) index = if in_range it index then true else peer_has rest index

-- The two loops over the peer's ranges and the chunks of each.
pub first_missing : (ℤ → Bool) → List Range → Option ℤ
unfolding first_from
first_missing test [] = none
first_missing test (it ∷ rest) =
    let later = first_missing test rest in
    elim (first_from test (rounds it.start it.end) it.start) [ none ↦ later | some i ↦ some i ]

-- The chunk at which GetRequestData marks and returns.
pub next_request : Binmap → Binmap → Option ℤ
unfolding is_have_data peer_has first_from first_missing
next_request b peer =
    if leb_ℤ (pos 0) b.cp
    then (if eqb_ℤ b.cp b.last_chunk
        then none
        else first_from (λ i. not (is_have_data b i) && peer_has peer.chunk_range_list i)
            (rounds (b.cp +ℤ pos 1) b.last_chunk) (b.cp +ℤ pos 1))
    else first_missing (λ i. not (is_have_data b i)) peer.chunk_range_list

pub get_request_data : Binmap → Binmap → Binmap × ℤ
unfolding next_request set_requested
get_request_data b peer = elim (next_request b peer) [
  | none ↦ (b, negsuc 0)
  | some i ↦ ((set_requested b i).0, i)
]
