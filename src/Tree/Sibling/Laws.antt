-- ===== src/Tree/Sibling/Laws.antt =====
-- The sibling of a node of the tree.
use native.Mathlib.Nat.{mul-mod_left, mul-add-mod_self_right, mod-eq_of_lt}
use ppsp.Common.{subst, ℕ, suc, ◌+◌, ◌*◌, ◌%◌, ◌≡◌, ap, ◌∙◌, some, arith}
use ppsp.Common.Int.{plus_pos, ℤ, pos, ◌+ℤ◌, ◌-ℤ◌, ◌*ℤ◌}
use ppsp.Tree.Sibling.{Node, get_sibling_index}

-- Node number `j` of those that cover `k + 1` chunks each.
abbrev pub node : ℕ → ℕ → Node
node k j = record { start = pos (suc k * j); end = pos (suc k * j + k) }

width : (a k : ℕ) → pos (a + k) -ℤ pos a +ℤ pos 1 ≡ pos (suc k)
unfolding ◌-ℤ◌ ◌+ℤ◌
width a k = ground arith

double : (c : ℕ) → pos c *ℤ pos 2 ≡ pos (c * 2)
unfolding ◌*ℤ◌
double c = ground arith

minus : (a b : ℕ) → pos (a + b) -ℤ pos b ≡ pos a
unfolding ◌-ℤ◌
minus a b = ground arith

minus_end : (a k : ℕ) → pos (a + suc k + k) -ℤ pos (suc k) ≡ pos (a + k)
unfolding ◌-ℤ◌
minus_end a k = ground arith

none_behind : (x : ℕ) → x + 0 ≡ x
none_behind x = omega arith

abbrev pub left_child : ℕ → ℕ → Node
left_child k i = node k (i + i)

abbrev pub right_child : ℕ → ℕ → Node
right_child k i = node k (i + i + 1)

abbrev pub number : Node → ℤ
number n = n.start +ℤ n.end

-- The two branches, at the node that covers `k + 1` chunks from `a` on.
goes_right :
    (a k r : ℕ)
    → (a + k + 1) % (suc k * 2) ≡ suc r
    → get_sibling_index (pos a) (pos (a + k))
      ≡ some (
        record { start = pos (a + suc k); end = pos (a + k + suc k) },
        pos (a + suc k) +ℤ pos (a + k + suc k),
      )
unfolding get_sibling_index
goes_right a k r e =
    rw (width a k, double (suc k), plus_pos (a + k) 1, plus_pos a (suc k), plus_pos (a + k) (suc k))
      (rw (none_behind (suc k * 2), none_behind (a + k + 1)) (ground (arith, e)))

goes_left :
    (a k : ℕ)
    → (a + suc k + k + 1) % (suc k * 2) ≡ 0
    → get_sibling_index (pos (a + suc k)) (pos (a + suc k + k))
      ≡ some (record { start = pos a; end = pos (a + k) }, pos a +ℤ pos (a + k))
unfolding get_sibling_index
goes_left a k e =
    rw
      (
        width (a + suc k) k,
        double (suc k),
        plus_pos (a + suc k + k) 1,
        minus a (suc k),
        minus_end a k,
      )
      (rw (none_behind (suc k * 2), none_behind (a + suc k + k + 1)) (ground (arith, e)))

right_from_left :
    (k i : ℕ)
    → record { start = pos (suc k * (i + i) + suc k); end = pos (suc k * (i + i) + k + suc k) }
      ≡ right_child k i
right_from_left k i = ground arith

half_left : (k i : ℕ) → (suc k * (i + i) + k + 1) % (suc k * 2) ≡ suc k
half_left k i =
    let e : suc k * (i + i) + k + 1 ≡ i * (suc k * 2) + suc k = omega arith in
    ap (λ x. x % (suc k * 2)) e
    ∙ mul-add-mod_self_right i (suc k * 2) (suc k)
    ∙ mod-eq_of_lt (omega arith)

half_right : (k i : ℕ) → (suc k * (i + i) + suc k + k + 1) % (suc k * 2) ≡ 0
half_right k i =
    let e : suc k * (i + i) + suc k + k + 1 ≡ (i + 1) * (suc k * 2) = omega arith in
    ap (λ x. x % (suc k * 2)) e ∙ mul-mod_left (i + 1) (suc k * 2)

right_as_shift :
    (k i : ℕ)
    → record { start = pos (suc k * (i + i) + suc k); end = pos (suc k * (i + i) + suc k + k) }
      ≡ right_child k i
right_as_shift k i = ground arith

-- Of the nodes that cover the same number of chunks from the first chunk on, numbered from 0,
-- number 2i and number 2i + 1 are each the one whose chunks and number _getSiblingIndex gives for
-- the other; together they cover the chunks of node i of those that cover twice as many.
pub get_sibling_index-node :
    (k i : ℕ)
    → (get_sibling_index (left_child k i).start (left_child k i).end
        ≡ some (right_child k i, number (right_child k i)))
      × (get_sibling_index (right_child k i).start (right_child k i).end
          ≡ some (left_child k i, number (left_child k i)))
      × ((node (k + k + 1) i).start ≡ (left_child k i).start)
      × ((node (k + k + 1) i).end ≡ (right_child k i).end)
get_sibling_index-node k i = (
  subst (λ n. get_sibling_index (left_child k i).start (left_child k i).end ≡ some (n, number n))
      (right_from_left k i) (goes_right (suc k * (i + i)) k k (half_left k i)),
  subst
      (λ (n : Node).
        get_sibling_index n.start n.end ≡ some (left_child k i, number (left_child k i)))
      (right_as_shift k i) (goes_left (suc k * (i + i)) k (half_right k i)),
  ap pos (omega arith),
  ap pos (omega arith),
)
