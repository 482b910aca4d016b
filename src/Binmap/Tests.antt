-- ===== src/Binmap/Tests.antt =====
-- The theorems on the map at concrete maps.
use ppsp.Common.{◌≡◌, refl, true, false, some, [], ◌∷◌, ◌⊎◌, inl, inr, ◌↔◌, arith}
use ppsp.Common.Int.{ℤ, pos}
use ppsp.Binmap.{Binmap, set_have}
use ppsp.Binmap.Ranges.{Between, Covers, AllRanges}
use ppsp.Binmap.SetHave.{Inv, set_have-single, set_have_sound}
use ppsp.Binmap.Swallow.{set_have-loses}
use ppsp.Binmap.Finish.{check_finish, get_biggest_haved_chunk_range}
use ppsp.Binmap.Finish.Laws.{closed, check_finish_cases, check_finish_complete}
use ppsp.Binmap.Finish.Biggest.{
  unset, IsOneOf, AllAtMost, size, get_biggest_haved_chunk_range_cases,
}
use ppsp.Binmap.Storage.{content, get_data, set_data}
use ppsp.Binmap.Storage.Laws.{set_data-get_data}
use ppsp.Binmap.Storage.Marks.{HasStored, set_data-HasStored}
use ppsp.Binmap.Examples.{range, no_chunks, some_chunks, all_chunks}

some_chunks-Inv : Inv some_chunks
some_chunks-Inv = record {
  separated = (omega arith, (omega arith, tt), (omega arith, tt, tt));
  cp_covered = λ i p q. inl (omega arith);
}

set_have-single_example :
    Inv (set_have some_chunks (pos 2) (pos 2))
    × ((i : ℤ)
        → Covers (set_have some_chunks (pos 2) (pos 2)).chunk_range_list i
          ↔ (Covers some_chunks.chunk_range_list i ⊎ (i ≡ pos 2)))
set_have-single_example = set_have-single some_chunks (pos 2) some_chunks-Inv

set_have_sound_example :
    AllRanges (set_have some_chunks (pos 3) (pos 5)).chunk_range_list
    × ((i : ℤ)
        → Covers (set_have some_chunks (pos 3) (pos 5)).chunk_range_list i
        → Covers some_chunks.chunk_range_list i ⊎ Between (pos 3) (pos 5) i)
set_have_sound_example =
    set_have_sound some_chunks (pos 3) (pos 5) (omega arith, (omega arith, tt)) (omega arith)

abbrev inner_chunks : Binmap
inner_chunks = record no_chunks { chunk_range_list = range 2 3 ∷ range 5 6 ∷ [] }

set_have-loses_example : ¬ Covers (set_have inner_chunks (pos 0) (pos 9)).chunk_range_list (pos 3)
set_have-loses_example =
    set_have-loses inner_chunks (range 2 3) (range 5 6) (pos 0) (pos 9) refl (omega arith)
      (omega arith) (omega arith) (omega arith) (omega arith) (pos 3) (omega arith)

check_finish_cases_example :
    (check_finish some_chunks ≡ some (some_chunks, false))
    ⊎ ((check_finish some_chunks ≡ some (closed some_chunks, true))
        × ((i : ℤ) → Between (pos 0) (pos 9) i → Covers some_chunks.chunk_range_list i))
check_finish_cases_example = check_finish_cases some_chunks

check_finish_complete_example : check_finish all_chunks ≡ some (closed all_chunks, true)
check_finish_complete_example =
    check_finish_complete all_chunks (omega arith) (omega arith, tt, tt)
      (λ i. (λ h. elim h [ inl x ↦ x | inr x ↦ absurd x ], λ h. inl h))

get_biggest_haved_chunk_range_cases_example :
    ((some_chunks.chunk_range_list ≡ []) × (get_biggest_haved_chunk_range some_chunks ≡ unset))
    ⊎ (IsOneOf (get_biggest_haved_chunk_range some_chunks) some_chunks.chunk_range_list
        × AllAtMost (size (get_biggest_haved_chunk_range some_chunks)) some_chunks.chunk_range_list)
get_biggest_haved_chunk_range_cases_example =
    get_biggest_haved_chunk_range_cases some_chunks (omega arith, (omega arith, tt))

-- The file is open, and has three chunks of two bytes.
abbrev on_disk : Binmap
on_disk = record some_chunks {
  disk = some (1 ∷ 2 ∷ 3 ∷ 4 ∷ 5 ∷ 6 ∷ []);
  opened = true;
  position = 0;
}

on_disk-Inv : Inv on_disk
on_disk-Inv = record {
  separated = some_chunks-Inv.separated;
  cp_covered = some_chunks-Inv.cp_covered;
}

set_data-get_data_example :
    (b' : Binmap) × (set_data true on_disk (pos 2) (pos 2) (pos 2) (some (7 ∷ 8 ∷ []))
      ≡ some (b', pos 2))
    × ((get_data b' (pos 2) (pos 2)).1 ≡ content (7 ∷ 8 ∷ []))
set_data-get_data_example =
    set_data-get_data true on_disk 2 2 (7 ∷ 8 ∷ []) (inl refl) (omega arith) refl refl

set_data-HasStored_example :
    (b' : Binmap) × (set_data true on_disk (pos 2) (pos 2) (pos 2) (some (7 ∷ 8 ∷ []))
      ≡ some (b', pos 2))
    × HasStored on_disk 2 b'
set_data-HasStored_example =
    set_data-HasStored true on_disk 2 2 (7 ∷ 8 ∷ []) (inl refl) (omega arith) refl refl on_disk-Inv
