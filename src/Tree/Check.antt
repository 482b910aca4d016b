-- ===== src/Tree/Check.antt =====
-- CheckDataIntegrity of HashTree.cpp. Results are `none` for undefined behaviour, and the returned
-- number with the tree otherwise.
pub mod Proofs
pub mod Climb
pub mod Sound
pub mod Known
pub mod Digests
pub mod Binding
pub mod Supplied
pub mod Complete
pub mod Received
use ppsp.Common.{
  ℕ, zero, suc, ◌+◌, Bool, true, false, not, Option, none, some, List, [], ◌∷◌, ◌==◌, ◌&&◌,
  if◌then◌else◌,
}
use ppsp.Common.Int.{ℤ, pos, negsuc, pos_part, ◌+ℤ◌, ◌-ℤ◌, ◌*ℤ◌, ltb_ℤ, leb_ℤ, eqb_ℤ}
use ppsp.Util.Endian.{pattern}
use ppsp.Message.Buffer.{copy_out}
use ppsp.Message.Data.{Data}
use ppsp.Tree.Dict.{Dict, lookup, insert, insert_absent, erase, update}
use ppsp.Tree.Sha.{Hasher, Hash, digest_blocklen, sha_encrypt, sha_encrypt_lr}
use ppsp.Tree.Sibling.{Node, get_sibling_index}
use ppsp.Tree.State.{BTreeNode, MerkleHashmap, HashTree}

-- `start = start > s_start ? s_start : start;` and so for the end.
abbrev pub parent : Node → Node → Node
parent n s = record {
  start = if ltb_ℤ s.start n.start then s.start else n.start;
  end = if ltb_ℤ s.end n.end then n.end else s.end;
}

-- The sibling's hash goes on its side of the hash so far.
unfoldable pub combine : Hasher → ℕ → Node → Node → Hash → Hash → Hash
combine sha mhf n s hash sibling_hash =
    if ltb_ℤ n.start s.start
    then sha_encrypt_lr sha mhf hash sibling_hash
    else sha_encrypt_lr sha mhf sibling_hash hash

-- `IntegrityMap[channelid]`, and the node there.
unfoldable pub received : HashTree → ℤ → ℤ → Option BTreeNode
received tree channelid index = elim (lookup channelid tree.integrity_map) [
  | none ↦ none
  | some nodes ↦ lookup index nodes
]

abbrev pub hash_of : Option BTreeNode → Hash
hash_of none = none
hash_of (some node) = node.hash

-- `siblinghash` for a sibling in the range of the content; null if neither map has one.
unfoldable pub known_hash : HashTree → ℤ → ℤ → Hash
known_hash tree channelid index = elim (hash_of (received tree channelid index)) [
  | some hash ↦ some hash
  | none ↦ hash_of (lookup index tree.hash_tree_map)
]

-- The outer `none` is the return of 0 in the loop.
unfoldable pub sibling_hash : HashTree → ℤ → Node → ℤ → Option Hash
unfolding known_hash
sibling_hash tree channelid s index =
    if leb_ℤ s.start tree.chunk_range
    then (elim (known_hash tree channelid index) [ none ↦ none | some hash ↦ some (some hash) ])
    else some none

-- `tmpmap`, with the node found in IntegrityMap.
unfoldable pub noted : HashTree → ℤ → Node → ℤ → MerkleHashmap → MerkleHashmap
noted tree channelid s index tmpmap =
    if leb_ℤ s.start tree.chunk_range
    then (elim (received tree channelid index) [
      | none ↦ tmpmap
      | some node ↦ insert index node tmpmap
    ])
    else tmpmap

-- How a loop ends: without a result, with the return of 0, or at its test.
pub data Walk : Type 0 where
  stuck failed : Walk
  top : Node → Hash → MerkleHashmap → Walk

abbrev pub last_index : HashTree → ℤ
last_index tree = (tree.leaf_node_count -ℤ pos 1) *ℤ pos 2

-- The loop for a known chunk range, on fuel.
unfoldable pub climb : Hasher → HashTree → ℤ → ℕ → Node → Hash → MerkleHashmap → Walk
climb sha tree channelid zero n hash tmpmap = stuck
climb sha tree channelid (suc fuel) n hash tmpmap = elim (get_sibling_index n.start n.end) [
  | none ↦ stuck
  | some (s, index) ↦ elim (leb_ℤ index (last_index tree)) [
    | false ↦ top n hash tmpmap
    | true ↦ elim (sibling_hash tree channelid s index) [
      | none ↦ failed
      | some found ↦
          climb sha tree channelid fuel (parent n s)
            (combine sha tree.merkle_hash_tree_function n s hash found)
            (noted tree channelid s index tmpmap)
    ]
  ]
]

-- The loop for an unknown chunk range, on fuel, over the nodes received.
unfoldable pub climb_received : Hasher → ℕ → MerkleHashmap → ℕ → Node → Hash → MerkleHashmap → Walk
climb_received sha mhf nodes zero n hash tmpmap = stuck
climb_received sha mhf nodes (suc fuel) n hash tmpmap = elim (get_sibling_index n.start n.end) [
  | none ↦ stuck
  | some (s, index) ↦ elim (lookup index nodes) [
    | none ↦ top n hash tmpmap
    | some node ↦
        climb_received sha mhf nodes fuel (parent n s) (combine sha mhf n s hash node.hash)
          (insert node.tree_index node tmpmap)
  ]
]

abbrev pub equal_bytes : List ℕ → List ℕ → Bool
equal_bytes [] [] = true
equal_bytes [] (y ∷ ys) = false
equal_bytes (x ∷ xs) [] = false
equal_bytes (x ∷ xs) (y ∷ ys) = (x == y) && equal_bytes xs ys

-- `!memcmp(a, b, n)`. A null pointer or a shorter array is undefined behaviour.
unfoldable pub same_bytes : ℕ → Hash → Hash → Option Bool
same_bytes n none b = none
same_bytes n (some a) none = none
same_bytes n (some a) (some b) = elim (copy_out (pos n) a) [
  | none ↦ none
  | some x ↦ elim (copy_out (pos n) b) [ none ↦ none | some y ↦ some (equal_bytes x y) ]
]

-- The nodes of `tmpmap` go from IntegrityMap, where they were found, to HashTreeMap.
unfoldable pub move_nodes : ℤ → MerkleHashmap → HashTree → HashTree
move_nodes channelid [] tree = tree
move_nodes channelid (e ∷ rest) tree = move_nodes channelid rest (record tree {
  hash_tree_map = insert_absent e.0 e.1 tree.hash_tree_map;
  integrity_map = update channelid (erase e.0) tree.integrity_map;
})

-- The last chunk tells the size of the content. An unsigned long has 64 bits.
unfoldable pub detect_size : HashTree → Data → HashTree
detect_size tree data_msg =
    if tree.content_size == 0
      && (tree.last_chunk_size == 0)
      && eqb_ℤ data_msg.start_chunk data_msg.end_chunk
      && eqb_ℤ data_msg.end_chunk tree.chunk_range
    then record tree {
      content_size = pattern 64 (tree.chunk_size *ℤ tree.chunk_range +ℤ data_msg.buffer_size);
      last_chunk_size = pattern 64 data_msg.buffer_size;
    }
    else tree

-- The number of rounds never reaches these.
abbrev pub climb_fuel : HashTree → ℕ
climb_fuel tree = pos_part (last_index tree) + 2

abbrev pub highest : MerkleHashmap → ℕ
highest [] = 0
highest (e ∷ nodes) = pos_part e.0 + highest nodes

abbrev pub chunk_node : Data → Node
chunk_node data_msg = record { start = data_msg.start_chunk; end = data_msg.end_chunk }

-- What follows the comparison with RootHash: the tree stays, or becomes the second one.
unfoldable pub judged : Option Bool → HashTree → HashTree → Option (ℕ × HashTree)
judged none tree accepted = none
judged (some false) tree accepted = some (0, tree)
judged (some true) tree accepted = some (1, accepted)

unfoldable pub known_result : HashTree → ℤ → Data → Walk → Option (ℕ × HashTree)
known_result tree channelid data_msg stuck = none
known_result tree channelid data_msg failed = some (0, tree)
known_result tree channelid data_msg (top n hash tmpmap) =
    judged (same_bytes (digest_blocklen tree.merkle_hash_tree_function) tree.root_hash hash) tree
      (move_nodes channelid tmpmap (detect_size tree data_msg))

unfoldable pub check_known : Hasher → HashTree → ℤ → Data → Hash → Option (ℕ × HashTree)
check_known sha tree channelid data_msg datahash =
    known_result tree channelid data_msg
      (climb sha tree channelid (climb_fuel tree) (chunk_node data_msg) datahash [])

-- The content of one chunk: the hash on its right is missing.
unfoldable pub check_single : Hasher → HashTree → Data → Hash → Option (ℕ × HashTree)
check_single sha tree data_msg datahash =
    let mhf = tree.merkle_hash_tree_function in
    judged (same_bytes (digest_blocklen mhf) tree.root_hash (sha_encrypt_lr sha mhf datahash none))
      tree
      (record tree {
        chunk_range = pos 0;
        last_chunk_index = pos 0;
        last_chunk_size = pattern 64 data_msg.buffer_size;
        content_size = pattern 64 data_msg.buffer_size;
        leaf_node_count = pos 2;
      })

unfoldable pub received_result : HashTree → ℤ → Walk → Option (ℕ × HashTree)
received_result tree channelid stuck = none
received_result tree channelid failed = some (0, tree)
received_result tree channelid (top n hash tmpmap) =
    judged (same_bytes (digest_blocklen tree.merkle_hash_tree_function) tree.root_hash hash) tree (
      move_nodes channelid tmpmap (record tree {
        chunk_range = n.end;
        last_chunk_index = n.end *ℤ pos 2;
        leaf_node_count = n.end +ℤ pos 1;
      }))

unfoldable pub check_received :
    Hasher → HashTree → ℤ → MerkleHashmap → Data → Hash → Option (ℕ × HashTree)
check_received sha tree channelid nodes data_msg datahash = received_result tree channelid (
    climb_received sha tree.merkle_hash_tree_function nodes (highest nodes + 2)
      (chunk_node data_msg) datahash [])

unfoldable pub check_unknown : Hasher → HashTree → ℤ → Data → Hash → Option (ℕ × HashTree)
check_unknown sha tree channelid data_msg datahash =
    elim (get_sibling_index data_msg.start_chunk data_msg.end_chunk) [
      | none ↦ none
      | some (s, index) ↦ elim (lookup channelid tree.integrity_map) [
        | none ↦ check_single sha tree data_msg datahash
        | some nodes ↦ elim (lookup index nodes) [
          | none ↦ check_single sha tree data_msg datahash
          | some node ↦ check_received sha tree channelid nodes data_msg datahash
        ]
      ]
    ]

unfoldable pub check_data_integrity : Hasher → HashTree → ℤ → Data → Option (ℕ × HashTree)
check_data_integrity sha tree channelid data_msg = elim data_msg.data_buffer [
  | none ↦ some (0, tree)
  | some bytes ↦
      if not (eqb_ℤ data_msg.start_chunk data_msg.end_chunk)
      then some (0, tree)
      else elim (sha_encrypt sha tree.merkle_hash_tree_function bytes data_msg.buffer_size) [
        | none ↦ none
        | some datahash ↦
            if ltb_ℤ tree.chunk_range (pos 0)
            then check_unknown sha tree channelid data_msg (some datahash)
            else check_known sha tree channelid data_msg (some datahash)
      ]
]
