-- ===== src/Binmap/Requests/Tests.antt =====
-- The theorems on requests at concrete maps.
use ppsp.Common.{
  ℕ, ◌≡◌, ◌≢◌, refl, true, false, Option, none, some, List, [], ◌∷◌, ◌⊎◌, inl, inr, ◌↔◌, arith,
}
use ppsp.Common.Int.{ℤ, pos, negsuc, ◌≤ℤ◌, ◌<ℤ◌}
use ppsp.Binmap.{set_have}
use ppsp.Binmap.Requests.{
  release_requested, is_requested, set_requested, next_request, get_request_data,
}
use ppsp.Binmap.Requests.Laws.{IsRequested}
use ppsp.Binmap.Requests.Picks.{Nothing, Picked, get_request_data_cases}
use ppsp.Binmap.Requests.Marks.{get_request_data_repeats}
use ppsp.Binmap.Requests.Later.{Reach, here, next, ask, have, release, get_request_data_never_twice}
use ppsp.Binmap.Examples.{no_chunks, some_chunks, all_chunks}

get_request_data_cases_example :
    ((get_request_data some_chunks all_chunks ≡ (some_chunks, negsuc 0))
      × Nothing some_chunks all_chunks)
    ⊎ ((i : ℤ) × (get_request_data some_chunks all_chunks ≡ ((set_requested some_chunks i).0, i))
        × IsRequested (get_request_data some_chunks all_chunks).0.requested i
        × Picked some_chunks all_chunks i)
get_request_data_cases_example = get_request_data_cases some_chunks all_chunks

-- Chunk 3 is picked. Then chunk 4 is picked, chunk 2 comes in, and a third choice is made.
later : Reach (pos 3) (get_request_data some_chunks all_chunks).0 (
    release_requested
      (set_have
        (get_request_data (get_request_data some_chunks all_chunks).0 all_chunks).0
        (pos 2)
        (pos 2))
      (pos 2))
later =
    next (next (next here (ask all_chunks)) (have (pos 2) (pos 2))) (release (pos 2) (λ e. cc e))

get_request_data_never_twice_example : pos 3 ≢ pos 7
unfolding next_request get_request_data ppsp.Common.Int.◌+ℤ◌ ppsp.Common.Int.◌-ℤ◌ is_requested
    set_requested set_have release_requested ppsp.Binmap.find_changed ppsp.Binmap.overlap
    ppsp.Binmap.merge_all
get_request_data_never_twice_example =
    get_request_data_never_twice some_chunks all_chunks all_chunks _ (pos 3) (pos 7) (λ e. cc e)
      refl later refl

get_request_data_repeats_example :
    (get_request_data (get_request_data no_chunks all_chunks).0 all_chunks).1
    ≡ (get_request_data no_chunks all_chunks).1
get_request_data_repeats_example = get_request_data_repeats no_chunks all_chunks refl (omega arith)
