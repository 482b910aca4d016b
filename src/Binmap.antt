-- ===== src/Binmap.antt =====
-- Binmap.h and Binmap.cpp: which chunks a peer has, as a list of ranges of chunk numbers, which
-- chunks have been asked for, and the file that the chunks are kept in.
-- This file has the state and SetHave.
pub mod Ranges
pub mod Loops
pub mod MergeLaws
pub mod Single
pub mod SetHave
pub mod Requests
pub mod Finish
pub mod Storage
mod Examples
mod Tests
pub mod Swallow
use ppsp.Common.{ℕ, Bool, true, false, ◌&&◌, Option, none, some, List, [], ◌∷◌, ◌++◌, if◌then◌else◌}
use ppsp.Common.Int.{ℤ, pos, negsuc, ◌+ℤ◌, ◌-ℤ◌, ltb_ℤ, leb_ℤ, eqb_ℤ}

-- ChunkRangeSt
pub record Range : Type 0 where
  pub start : ℤ
  pub end : ℤ

-- `requested` has the keys of RequestedMap. `disk` is the file named `file_name`, `none` where there
-- is none, `opened` says whether FilePointer is set, and `position` is where it reads or writes next.
pub record Binmap : Type 0 where
  pub requested : List ℤ
  pub file_name : List ℕ
  pub disk : Option (List ℕ)
  pub opened : Bool
  pub position : ℕ
  pub log_print_size : ℤ
  pub cp : ℤ
  pub chunk_range_list : List Range
  pub last_chunk : ℤ
  pub last_chunk_size : ℤ

-- The constructor. LogPrintSize is left as it is in memory.
unfoldable pub new : List ℕ → Option (List ℕ) → ℤ → Binmap
new name disk log_print_size = record {
  requested = [];
  file_name = name;
  disk = disk;
  opened = false;
  position = 0;
  log_print_size = log_print_size;
  cp = negsuc 0;
  chunk_range_list = [];
  last_chunk = negsuc 0;
  last_chunk_size = pos 0;
}

-- The body of the first loop of SetHave at one range: it holds the new one, it is changed, or it
-- does not matter.
pub data Overlap : Type 0 where
  inside apart : Overlap
  grown : Range → Overlap

unfoldable pub overlap : Range → ℤ → ℤ → Overlap
overlap it start end =
    if leb_ℤ it.start start && leb_ℤ end it.end
    then inside
    else if leb_ℤ it.start start && leb_ℤ start (it.end +ℤ pos 1) && ltb_ℤ it.end end
    then grown (record it { end = end })
    else if ltb_ℤ start it.start && leb_ℤ end it.end && leb_ℤ (it.start -ℤ pos 1) end
    then grown (record it { start = start })
    else if ltb_ℤ start it.start && ltb_ℤ it.end end
    then grown (record { start = start; end = end })
    else apart

-- How the first loop ends: it returns, it breaks at a changed range, with the ranges before and
-- behind it, or it comes to the end of the list.
pub data Found : Type 0 where
  held missing : Found
  changed : List Range → Range → List Range → Found

abbrev pub found_behind : Range → Found → Found
found_behind it held = held
found_behind it missing = missing
found_behind it (changed before r after) = changed (it ∷ before) r after

unfoldable pub find_changed : List Range → ℤ → ℤ → Found
find_changed [] start end = missing
find_changed (it ∷ rest) start end =
    let later = found_behind it (find_changed rest start end) in
    elim (overlap it start end) [ inside ↦ held | grown r ↦ changed [] r rest | apart ↦ later ]

-- `if ((*it)->Start == 0) CP = …`: in all three branches the value is the end of the changed range.
abbrev pub cp_changed : Range → ℤ → ℤ
cp_changed r cp = if eqb_ℤ r.start (pos 0) then r.end else cp

abbrev pub cp_merged : Range → ℤ → ℤ
cp_merged it cp = if eqb_ℤ it.start (pos 0) && ltb_ℤ cp it.end then it.end else cp

-- The body of the second loop: the range `it` takes in the changed range where they touch. Each of
-- the two tests gives the range as it is behind it, the new CP, and whether `set` is 1.
pub record Merge : Type 0 where
  pub it : Range
  pub cp : ℤ
  pub set : Bool

unfoldable pub merge_end : Range → Merge → Merge
merge_end change m =
    if leb_ℤ change.start (m.it.end +ℤ pos 1) && ltb_ℤ m.it.end change.end
    then (let it : Range = record m.it { start = m.it.start; end = change.end } in
        record { it = it; cp = cp_merged it m.cp; set = true })
    else m

unfoldable pub merge_start : Range → Merge → Merge
merge_start change m =
    if leb_ℤ (m.it.start -ℤ pos 1) change.end && ltb_ℤ change.end m.it.start
    then (let it : Range = record { start = change.start; end = m.it.end } in
        record { it = it; cp = cp_merged it m.cp; set = true })
    else m

unfoldable pub merge : Range → Range → ℤ → Merge
unfolding merge_end merge_start
merge change it cp =
    merge_start change (merge_end change (record { it = it; cp = cp; set = false }))

-- The second loop over a part of the list: `none` if no range there is merged.
unfoldable pub merge_first : Range → List Range → ℤ → Option (List Range × ℤ)
unfolding merge
merge_first change [] cp = none
merge_first change (it ∷ rest) cp =
    let m = merge change it cp in
    let later : Option (List Range × ℤ) = elim (merge_first change rest cp) [
      | none ↦ none
      | some (rest', cp') ↦ some (it ∷ rest', cp')
    ] in
    if m.set then some (m.it ∷ rest, m.cp) else later

-- The second loop, with the ranges before and behind the changed one, which it goes over too. The
-- range that is merged takes its place, and the changed range is erased.
unfoldable pub merge_all : List Range → Range → List Range → ℤ → List Range × ℤ
unfolding merge_first
merge_all before change after cp = elim (merge_first change before cp) [
  | some (before', cp') ↦ (before' ++ after, cp')
  | none ↦
      let self = merge change change cp in
      let behind : List Range × ℤ = elim (merge_first change after cp) [
        | some (after', cp') ↦ (before ++ after', cp')
        | none ↦ (before ++ (change ∷ after), cp)
      ] in
      if self.set then (before ++ after, self.cp) else behind
]

-- The second loop is left out where the changed range is the only one.
abbrev pub merge_more : List Range → Range → List Range → ℤ → List Range × ℤ
merge_more [] change [] cp = (change ∷ [], cp)
merge_more before change after cp = merge_all before change after cp

unfoldable pub set_have : Binmap → ℤ → ℤ → Binmap
set_have b start end = elim (find_changed b.chunk_range_list start end) [
  | held ↦ b
  | changed before r after ↦
      let (ranges, cp) = merge_more before r after (cp_changed r b.cp) in
      record b { chunk_range_list = ranges; cp = cp }
  | missing ↦ record b {
    chunk_range_list = b.chunk_range_list ++ (record { start = start; end = end } ∷ []);
  }
]
