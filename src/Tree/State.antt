-- ===== src/Tree/State.antt =====
-- HashTree.h: the nodes and the state of a tree; its constructor, SetRootHash and AddIntegrity of
-- HashTree.cpp. A pointer to a node of the tree is the node's number. An int that a node keeps as an
-- unsigned int, and that is only read back as an int, is the int.
use ppsp.Common.{ℕ, Bool, false, Option, none, some, List, [], ◌∷◌}
use ppsp.Common.Int.{ℤ, pos, negsuc, ◌+ℤ◌}
use ppsp.Util.Hex.{null, fault, buffer, get_string_from_hash, get_hash_from_string}
use ppsp.Message.Buffer.{copy_out}
use ppsp.Message.Integrity.{Integrity, mhf_sha1}
use ppsp.Tree.Dict.{Dict, lookup, insert}
use ppsp.Tree.Sha.{Hash, digest_blocklen}

pub record BTreeNode : Type 0 where
  pub is_all_zero : Bool
  pub is_in_complete : Bool
  pub is_root : Bool
  pub is_left : Bool
  pub is_preview : Bool
  pub tree_index : ℤ
  pub start_chunk : ℤ
  pub end_chunk : ℤ
  pub hash : Hash
  pub parent : Option ℤ
  pub sibling : Option ℤ
  pub left_child : Option ℤ
  pub right_child : Option ℤ

abbrev pub new_node : BTreeNode
new_node = record {
  is_all_zero = false;
  is_in_complete = false;
  is_root = false;
  is_left = false;
  is_preview = false;
  tree_index = negsuc 0;
  start_chunk = negsuc 0;
  end_chunk = negsuc 0;
  hash = none;
  parent = none;
  sibling = none;
  left_child = none;
  right_child = none;
}

abbrev pub MerkleHashmap : Type 0
MerkleHashmap = Dict BTreeNode

pub record HashTree : Type 0 where
  pub merkle_hash_tree_function : ℕ
  pub chunk_size : ℤ
  pub chunk_range : ℤ
  pub last_chunk_index : ℤ
  pub leaf_node_count : ℤ
  pub content_size : ℕ
  pub last_chunk_size : ℕ
  pub root_hash_string : List ℕ
  pub root_hash : Hash
  pub hash_tree_map : MerkleHashmap
  pub root_node : Option ℤ
  pub integrity_map : Dict MerkleHashmap
  pub peak_hash_map : MerkleHashmap
  pub is_peak_map_created : Bool
  pub integrity_send_map : Dict (Dict ℕ)

abbrev pub default_chunk_size : ℤ
default_chunk_size = pos 1024

abbrev pub new : HashTree
new = record {
  merkle_hash_tree_function = mhf_sha1;
  chunk_size = default_chunk_size;
  chunk_range = negsuc 0;
  last_chunk_index = pos 0;
  leaf_node_count = pos 0;
  content_size = 0;
  last_chunk_size = 0;
  root_hash_string = [];
  root_hash = none;
  hash_tree_map = [];
  root_node = none;
  integrity_map = [];
  peak_hash_map = [];
  is_peak_map_created = false;
  integrity_send_map = [];
}

-- `none` as a result is undefined behaviour.
unfoldable pub set_root_hash_string : HashTree → List ℕ → Option HashTree
set_root_hash_string tree text = elim (get_hash_from_string text) [
  | null ↦ some (record tree { root_hash_string = text; root_hash = none })
  | fault ↦ none
  | buffer bits ↦ some (record tree { root_hash_string = text; root_hash = some bits })
]

unfoldable pub set_root_hash : HashTree → List ℕ → Option HashTree
set_root_hash tree hash =
    elim (copy_out (pos (digest_blocklen tree.merkle_hash_tree_function)) hash) [
      | none ↦ none
      | some copy ↦
          some (record tree { root_hash = some copy; root_hash_string = get_string_from_hash copy })
    ]

-- `node->CopyHash(integrity->Hash, ...)`: a null pointer or a shorter array is undefined behaviour.
unfoldable pub received_node : ℕ → Integrity → Option BTreeNode
received_node mhf integrity = elim integrity.hash [
  | none ↦ none
  | some hash ↦ elim (copy_out (pos (digest_blocklen mhf)) hash) [
    | none ↦ none
    | some copy ↦ some (record new_node {
      tree_index = integrity.start_chunk +ℤ integrity.end_chunk;
      start_chunk = integrity.start_chunk;
      end_chunk = integrity.end_chunk;
      hash = some copy;
    })
  ]
]

unfoldable pub store_node : Dict MerkleHashmap → ℤ → BTreeNode → Dict MerkleHashmap
store_node map channelid node = elim (lookup channelid map) [
  | none ↦ insert channelid ((node.tree_index, node) ∷ []) map
  | some nodes ↦ insert channelid (insert node.tree_index node nodes) map
]

unfoldable pub add_integrity : HashTree → ℤ → Integrity → Option HashTree
add_integrity tree channelid integrity =
    elim (received_node tree.merkle_hash_tree_function integrity) [
      | none ↦ none
      | some node ↦
          some (record tree { integrity_map = store_node tree.integrity_map channelid node })
    ]
