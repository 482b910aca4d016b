-- ===== src/Tree/Make.antt =====
-- Make of HashTree.cpp: the tree of a file, from its bytes. Numbers that are never negative here are
-- natural numbers.
pub mod Powers
pub mod Entries
pub mod Adding
pub mod Reading
pub mod Padding
pub mod Merging
pub mod Rising
pub mod Hashes
pub mod Built
pub mod Content
pub mod Accepted
mod Tests
use ppsp.Common.{
  ℕ, zero, suc, ◌+◌, ◌-◌, ◌*◌, ◌/◌, ◌%◌, Bool, true, false, ◌&&◌, ◌||◌, Option, none, some, List,
  [], ◌∷◌, length, take, drop, ltb, leb, ◌==◌, if◌then◌else◌,
}
use ppsp.Common.Int.{ℤ, pos, negsuc, ◌+ℤ◌, ◌-ℤ◌, ◌*ℤ◌}
use ppsp.Util.Endian.{pattern}
use ppsp.Tree.Dict.{lookup, insert, update}
use ppsp.Tree.Sha.{Hasher, Hash, sha_encrypt, sha_encrypt_lr}
use ppsp.Tree.State.{BTreeNode, new_node, MerkleHashmap, HashTree, set_root_hash}
use ppsp.Tree.Send.{land}

-- What the two loops over the leaves change: HashTreeMap, `idx`, `cidx`, and the result of `fread`.
pub record Leaves : Type 0 where
  pub map : MerkleHashmap
  pub idx : ℕ
  pub cidx : ℕ
  pub ret : ℕ
  pub hashout : Hash

-- A leaf on the left, and one on the right without a sibling and with one.
unfoldable pub leaf_node : ℕ → ℕ → Hash → Bool → BTreeNode
leaf_node idx cidx hash is_zero = record new_node {
  tree_index = pos idx;
  is_all_zero = is_zero;
  is_in_complete = is_zero;
  start_chunk = pos cidx;
  end_chunk = pos cidx;
  hash = hash;
}

unfoldable pub add_right : ℕ → BTreeNode → MerkleHashmap → MerkleHashmap
add_right idx node map = elim (lookup (pos (idx - 2)) map) [
  | none ↦ insert (pos idx) node map
  | some left ↦
      insert (pos idx) (record node { sibling = some (pos (idx - 2)) })
        (update (pos (idx - 2)) (λ n. record n { sibling = some (pos idx) }) map)
]

unfoldable pub add_leaf : ℕ → ℕ → BTreeNode → MerkleHashmap → MerkleHashmap
add_leaf idx cidx node map =
    if (cidx + 1) % 2 == 0 && ltb 0 cidx
    then add_right idx node map
    else insert (pos idx) (record node { is_left = true }) map

unfoldable pub next_leaf : Hash → ℕ → Bool → Leaves → Leaves
next_leaf hash ret is_zero m = record {
  map = add_leaf m.idx m.cidx (leaf_node m.idx m.cidx hash is_zero) m.map;
  idx = m.idx + 2;
  cidx = m.cidx + 1;
  ret = ret;
  hashout = if is_zero then m.hashout else hash;
}

-- The loop over the file, on fuel. `rest` is what `fread` has not read yet; the test of `feof` is
-- made only behind a full chunk, where it fails.
unfoldable pub read_leaves : Hasher → ℕ → ℕ → ℕ → List ℕ → Leaves → Option Leaves
read_leaves sha mhf chunk_size zero rest m = none
read_leaves sha mhf chunk_size (suc fuel) rest m =
    let got = take chunk_size rest in
    let ret = length got in
    let added = next_leaf (sha_encrypt sha mhf got (pos ret)) ret false m in
    elim (ret == 0) [
      | true ↦ some (record m { ret = 0 })
      | false ↦ elim (ret == chunk_size) [
        | false ↦ some added
        | true ↦ read_leaves sha mhf chunk_size fuel (drop chunk_size rest) added
      ]
    ]

-- `(idx & (idx - 1)) != 0`, on an int of 32 bits.
unfoldable pub single_bit : ℕ → ℕ → Bool
single_bit width idx = land width idx (idx - 1) == 0

unfoldable pub is_power : ℕ → Bool
is_power = single_bit 32

-- The loop that fills the leaves up to a power of two, on fuel.
unfoldable pub pad_leaves : ℕ → Leaves → Option Leaves
pad_leaves zero m = none
pad_leaves (suc fuel) m = elim (is_power m.idx) [
  | true ↦ some m
  | false ↦ pad_leaves fuel (next_leaf none m.ret true m)
]

-- What the loops over the levels change.
pub record Levels : Type 0 where
  pub map : MerkleHashmap
  pub root : Option ℤ
  pub hashout : Hash

unfoldable pub parent_node : ℕ → ℕ → ℕ → ℕ → BTreeNode → BTreeNode → Hash → BTreeNode
parent_node leaves left_idx right_idx pidx left right hash = record new_node {
  tree_index = pos pidx;
  is_all_zero = left.is_all_zero && right.is_all_zero;
  is_in_complete = left.is_in_complete || right.is_in_complete;
  is_root = pidx + 1 == leaves;
  start_chunk = left.start_chunk;
  end_chunk = right.end_chunk;
  hash = hash;
  left_child = some (pos left_idx);
  right_child = some (pos right_idx);
}

abbrev pub linked : ℕ → ℕ → BTreeNode → BTreeNode
linked pidx beside n = record n { parent = some (pos pidx); sibling = some (pos beside) }

unfoldable pub merge_pair : Hasher → ℕ → ℕ → ℕ → ℕ → BTreeNode → BTreeNode → Levels → Levels
merge_pair sha mhf leaves gap left_idx left right m =
    let idx = left_idx + gap in
    let hash = sha_encrypt_lr sha mhf left.hash right.hash in
    let pidx = (idx + (idx - gap)) / 2 in
    record {
      map =
          insert (pos pidx) (parent_node leaves left_idx idx pidx left right hash) (
            update (pos idx) (linked pidx left_idx)
              (update (pos left_idx) (linked pidx idx) m.map));
      root = if pidx + 1 == leaves then some (pos pidx) else m.root;
      hashout = hash;
    }

-- The inner loop, on fuel.
unfoldable pub merge_level : Hasher → ℕ → ℕ → ℕ → ℕ → ℕ → Levels → Option Levels
merge_level sha mhf leaves gap zero idx m = none
merge_level sha mhf leaves gap (suc fuel) idx m = elim (lookup (pos idx) m.map) [
  | none ↦ some m
  | some left ↦ elim (lookup (pos (idx + gap)) m.map) [
    | none ↦ some m
    | some right ↦
        merge_level sha mhf leaves gap fuel (idx + gap + gap)
          (merge_pair sha mhf leaves gap idx left right m)
  ]
]

-- The outer loop, on fuel. `startidx >= LeafNodeCount - 1` is a test of ints.
unfoldable pub merge_levels : Hasher → ℕ → ℕ → ℕ → ℕ → ℕ → ℕ → Levels → Option Levels
merge_levels sha mhf leaves zero startidx startgap gap m = none
merge_levels sha mhf leaves (suc fuel) startidx startgap gap m = elim (leb leaves (startidx + 1)) [
  | true ↦ some m
  | false ↦ elim (merge_level sha mhf leaves gap (suc leaves) startidx m) [
    | none ↦ none
    | some done ↦ merge_levels sha mhf leaves fuel (startgap * 2 - 1) (startgap * 2) (gap * 2) done
  ]
]

abbrev pub no_leaves : Leaves
no_leaves = record { map = []; idx = 0; cidx = 0; ret = 0; hashout = none }

-- What is known of the content behind the loop over the file. An unsigned long has 64 bits.
unfoldable pub with_content : Leaves → HashTree → HashTree
with_content m tree =
    let range = pos (length m.map) -ℤ pos 1 in
    record tree {
      content_size = pattern 64 (tree.chunk_size *ℤ (pos m.cidx -ℤ pos 1) +ℤ pos m.ret);
      last_chunk_size = m.ret;
      chunk_range = range;
      last_chunk_index = range *ℤ pos 2;
    }

-- The end of Make. It reads the root's EndChunk for the log, and `hashout`.
unfoldable pub with_root : Levels → HashTree → Option (ℕ × HashTree)
with_root m tree = elim m.root [
  | none ↦ none
  | some root ↦ elim m.hashout [
    | none ↦ none
    | some hash ↦
        elim (set_root_hash (record tree { hash_tree_map = m.map; root_node = m.root }) hash) [
          | none ↦ none
          | some made ↦ some (1, made)
        ]
  ]
]

-- `leaves` is LeafNodeCount.
unfoldable pub make_levels : Hasher → HashTree → ℕ → Leaves → Option (ℕ × HashTree)
make_levels sha tree leaves m =
    let start : Levels = record { map = m.map; root = tree.root_node; hashout = m.hashout } in
    elim (merge_levels sha tree.merkle_hash_tree_function leaves (suc leaves) 0 1 2 start) [
      | none ↦ none
      | some done ↦ with_root done (record tree { leaf_node_count = pos leaves })
    ]

unfoldable pub make_leaves : Hasher → HashTree → ℕ → List ℕ → Option (ℕ × HashTree)
make_leaves sha tree chunk_size bytes =
    elim (read_leaves sha tree.merkle_hash_tree_function chunk_size (suc (length bytes)) bytes
      no_leaves) [
        | none ↦ none
        | some m ↦ elim (pad_leaves (suc m.idx) m) [
          | none ↦ none
          | some padded ↦ make_levels sha (with_content m tree) (length padded.map) padded
        ]
      ]

-- `file` is what the file with the name has, or `none` where it cannot be opened. A negative
-- ChunkSize throws an exception.
unfoldable pub make : Hasher → HashTree → Option (List ℕ) → Option (ℕ × HashTree)
make sha tree file = elim file [
  | none ↦ some (0, tree)
  | some bytes ↦ elim tree.chunk_size [
    | negsuc n ↦ none
    | pos chunk_size ↦ make_leaves sha tree chunk_size bytes
  ]
]
