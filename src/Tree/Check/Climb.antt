-- ===== src/Tree/Check/Climb.antt =====
-- The loop of CheckDataIntegrity over a complete tree.
use native.Mathlib.Nat.{mul-le-mul_left}
use ppsp.Common.{
  ℕ, suc, ◌+◌, ◌*◌, ◌/◌, ◌%◌, ◌^◌, ◌≤◌, ◌<◌, ◌≡◌, refl, ◌⊎◌, true, false, Option, none, some, arith,
  subst, ap, sym, ◌∙◌,
}
use ppsp.Common.Int.{ℤ, pos, leb_ℤ, ◌+ℤ◌, ◌-ℤ◌, ◌*ℤ◌}
use ppsp.Tree.Sha.{Hasher, Hash, sha_encrypt_lr}
use ppsp.Tree.Sibling.{Node, get_sibling_index}
use ppsp.Tree.Sibling.Laws.{node, left_child, right_child, number}
use ppsp.Tree.State.{MerkleHashmap, HashTree}
use ppsp.Tree.Check.{parent, combine, Walk, failed, top, climb, last_index, sibling_hash, noted}

pub halves : (j : ℕ) → (j ≡ j / 2 + j / 2) × (j % 2 ≡ 0) ⊎ (j ≡ j / 2 + j / 2 + 1) × (j % 2 ≡ 1)
halves j = omega arith

pub number-node : (k j : ℕ) → number (node k j) ≡ pos (suc k * j + (suc k * j + k))
unfolding ◌+ℤ◌
number-node k j = ground arith

pub minus_one : (m : ℕ) → pos (suc m) -ℤ pos 1 ≡ pos m
unfolding ◌-ℤ◌
minus_one m = ground arith

double : (m : ℕ) → pos m *ℤ pos 2 ≡ pos (m * 2)
unfolding ◌*ℤ◌
double m = ground arith

pub last_index-pos :
    (tree : HashTree) (m : ℕ) → tree.leaf_node_count ≡ pos (suc m) → last_index tree ≡ pos (m * 2)
last_index-pos tree m e = rw (e, minus_one m) (double m)

pub parent_left : (k i : ℕ) → parent (left_child k i) (right_child k i) ≡ node (k + k + 1) i
parent_left k i = ground arith

pub parent_right : (k i : ℕ) → parent (right_child k i) (left_child k i) ≡ node (k + k + 1) i
parent_right k i = ground arith

pub combine_left :
    (sha : Hasher) (mhf k i : ℕ) (hash q : Hash)
    → combine sha mhf (left_child k i) (right_child k i) hash q ≡ sha_encrypt_lr sha mhf hash q
unfolding combine
combine_left sha mhf k i hash q = ground arith

pub combine_right :
    (sha : Hasher) (mhf k i : ℕ) (hash q : Hash)
    → combine sha mhf (right_child k i) (left_child k i) hash q ≡ sha_encrypt_lr sha mhf q hash
unfolding combine
combine_right sha mhf k i hash q = ground arith

-- A node of a complete tree of `suc m` leaves, with `e` levels above it.
pub record IsAt (m e k j : ℕ) : Type 0 where
  pub spans : suc k * 2 ^ e ≡ suc m
  pub inside : j < 2 ^ e

pub spans_twice : (k e : ℕ) → suc (k + k + 1) * 2 ^ e ≡ suc k * 2 ^ suc e
spans_twice k e =
    let twice : 2 ^ suc e ≡ 2 ^ e + 2 ^ e = omega arith in
    let regroup : suc (k + k + 1) * 2 ^ e ≡ suc k * (2 ^ e + 2 ^ e) = omega arith in
    regroup ∙ ap (λ x. suc k * x) (sym twice)

pub IsAt-up_left : (m e k i : ℕ) → IsAt m (suc e) k (i + i) → IsAt m e (k + k + 1) i
IsAt-up_left m e k i p = record {
  spans = spans_twice k e ∙ p.spans;
  inside = let q = p.inside in omega arith;
}

pub IsAt-up_right : (m e k i : ℕ) → IsAt m (suc e) k (i + i + 1) → IsAt m e (k + k + 1) i
IsAt-up_right m e k i p = record {
  spans = spans_twice k e ∙ p.spans;
  inside = let q = p.inside in omega arith;
}

room : (m e k i : ℕ) → suc k * 2 ^ suc e ≡ suc m → i < 2 ^ e → suc k * (i + i + 2) ≤ suc m
room m e k i s l =
    let q : i + i + 2 ≤ 2 ^ suc e = omega (arith, l) in
    subst (λ x. suc k * (i + i + 2) ≤ x) s (mul-le-mul_left (suc k) q)

pub right_in :
    (m e k i : ℕ)
    → suc k * 2 ^ suc e ≡ suc m
    → i < 2 ^ e
    → leb_ℤ (number (right_child k i)) (pos (m * 2)) ≡ true
right_in m e k i s l = rw (number-node k (i + i + 1)) (let r = room m e k i s l in ground arith)

pub left_in :
    (m e k i : ℕ)
    → suc k * 2 ^ suc e ≡ suc m
    → i < 2 ^ e
    → leb_ℤ (number (left_child k i)) (pos (m * 2)) ≡ true
left_in m e k i s l = rw (number-node k (i + i)) (let r = room m e k i s l in ground arith)

pub root_out : (k : ℕ) → leb_ℤ (number (right_child k 0)) (pos (k * 2)) ≡ false
root_out k = rw (number-node k 1) (ground arith)

-- One round, at a left child and at a right child.
module _ (sha : Hasher) (tree : HashTree) (channelid : ℤ) where
  abbrev pub go_on : ℕ → Node → Node → Hash → MerkleHashmap → Option Hash → Walk
  go_on fuel n s hash tmpmap o = elim o [
    | none ↦ failed
    | some found ↦
        climb sha tree channelid fuel (parent n s)
          (combine sha tree.merkle_hash_tree_function n s hash found)
          (noted tree channelid s (number s) tmpmap)
  ]

  pub round :
      (fuel : ℕ) (n s : Node) (hash : Hash) (tmpmap : MerkleHashmap)
      → get_sibling_index n.start n.end ≡ some (s, number s)
      → leb_ℤ (number s) (last_index tree) ≡ true
      → climb sha tree channelid (suc fuel) n hash tmpmap
        ≡ go_on fuel n s hash tmpmap (sibling_hash tree channelid s (number s))
  unfolding climb
  round fuel n s hash tmpmap e l = rw (climb, e, l) refl

  pub finish :
      (fuel : ℕ) (n s : Node) (hash : Hash) (tmpmap : MerkleHashmap)
      → get_sibling_index n.start n.end ≡ some (s, number s)
      → leb_ℤ (number s) (last_index tree) ≡ false
      → climb sha tree channelid (suc fuel) n hash tmpmap ≡ top n hash tmpmap
  unfolding climb
  finish fuel n s hash tmpmap e l = rw (climb, e, l) refl
