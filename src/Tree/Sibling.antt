-- ===== src/Tree/Sibling.antt =====
-- `_getSiblingIndex` of HashTree.cpp. A node covers the chunks from `start` to `end`, and its number
-- is their sum.
pub mod Laws
use ppsp.Common.{ℕ, ◌+◌, ◌%◌, Option, none, some, ◌==◌, if◌then◌else◌}
use ppsp.Common.Int.{ℤ, pos, pos_part, neg_part, ◌+ℤ◌, ◌-ℤ◌, ◌*ℤ◌}

pub record Node : Type 0 where
  pub start : ℤ
  pub end : ℤ

abbrev pub magnitude : ℤ → ℕ
magnitude x = pos_part x + neg_part x

-- The sibling, and its number `((s_start * 2) + (s_end * 2)) / 2`. `none` is a division by zero.
pub get_sibling_index : ℤ → ℤ → Option (Node × ℤ)
get_sibling_index start end =
    let cnt = end -ℤ start +ℤ pos 1 in
    let dep = cnt *ℤ pos 2 in
    let left : Node = record { start = start -ℤ cnt; end = end -ℤ cnt } in
    let right : Node = record { start = start +ℤ cnt; end = end +ℤ cnt } in
    if magnitude dep == 0
    then none
    else if magnitude (end +ℤ pos 1) % magnitude dep == 0
    then some (left, left.start +ℤ left.end)
    else some (right, right.start +ℤ right.end)
