-- ===== src/Binmap/Finish.antt =====
-- CheckFinish and GetBiggestHavedChunkRange of Binmap.cpp.
pub mod Laws
pub mod Biggest
use ppsp.Common.{
  ℕ, zero, suc, ◌+◌, Bool, true, false, ◌&&◌, Option, none, some, List, [], ◌∷◌, length, ◌==◌,
  if◌then◌else◌,
}
use ppsp.Common.Int.{ℤ, pos, negsuc, ◌+ℤ◌, ◌-ℤ◌, ltb_ℤ, leb_ℤ, eqb_ℤ}
use ppsp.Binmap.{Range, Binmap}

-- The body of the inner loop at one range: the new `start` and `end` if it erases the range.
pub absorb : Range → ℤ → ℤ → Option Range
absorb it start end =
    if ltb_ℤ start (pos 0)
    then some it
    else if ltb_ℤ it.start start && leb_ℤ it.end end && leb_ℤ (start -ℤ pos 1) it.end
    then some (record { start = it.start; end = end })
    else if leb_ℤ start it.start && ltb_ℤ end it.end && leb_ℤ it.start (end +ℤ pos 1)
    then some (record { start = start; end = it.end })
    else if leb_ℤ it.start start && leb_ℤ end it.end
    then some it
    else none

-- The inner loop: `start`, `end` and what is left of `tmpList`.
pub pass : List Range → Range → Range × List Range
unfolding absorb
pass [] r = (r, [])
pass (it ∷ rest) r = elim (absorb it r.start r.end) [
  | some r' ↦ pass rest r'
  | none ↦ let (r', left) = pass rest r in (r', it ∷ left)
]

-- The outer loop ends when nothing is left or a pass erases nothing. `none`: the fuel ran out.
pub pass_loop : ℕ → List Range → Range → Option Range
unfolding pass
pass_loop zero l r = none
pass_loop (suc fuel) l r =
    let (r', left) = pass l r in
    let next = pass_loop fuel left r' in
    if length left == 0 then some r' else if length l == length left then some r' else next

-- Every pass but the last erases a range, so one round more than there are ranges is enough.
pub check_finish : Binmap → Option (Binmap × Bool)
unfolding pass_loop
check_finish b =
    elim (pass_loop (suc (length b.chunk_range_list)) b.chunk_range_list
      (record { start = negsuc 0; end = negsuc 0 })) [
        | none ↦ none
        | some r ↦ some (
            if eqb_ℤ r.start (pos 0) && eqb_ℤ r.end b.last_chunk
            then (record b { opened = false }, true)
            else (b, false))
      ]

-- The loop of GetBiggestHavedChunkRange: `gap`, `s` and `e`.
pub biggest : List Range → ℤ → Range → Range
biggest [] gap r = r
biggest (it ∷ rest) gap r =
    let g = it.end -ℤ it.start +ℤ pos 1 in
    let bigger = ltb_ℤ gap g in biggest rest (if bigger then g else gap) (if bigger then it else r)

pub get_biggest_haved_chunk_range : Binmap → Range
unfolding biggest
get_biggest_haved_chunk_range b =
    biggest b.chunk_range_list (pos 0) (record { start = negsuc 0; end = negsuc 0 })
