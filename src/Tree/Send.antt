-- ===== src/Tree/Send.antt =====
-- GetDataIntegrity and GetPeakHashes of HashTree.cpp: the nodes that go with a chunk.
use ppsp.Common.{
  ℕ, zero, suc, ◌+◌, ◌*◌, ◌/◌, ◌%◌, Bool, true, not, ◌&&◌, Option, none, some, [], ◌∷◌, length,
  ◌==◌, if◌then◌else◌,
}
use ppsp.Common.Int.{ℤ, pos, pos_part, ◌+ℤ◌}
use ppsp.Util.Endian.{pattern}
use ppsp.Tree.Dict.{Dict, lookup, insert}
use ppsp.Tree.Sibling.{Node, get_sibling_index}
use ppsp.Tree.State.{BTreeNode, MerkleHashmap, HashTree}
use ppsp.Tree.Check.{parent, highest}

-- `a & b` on the low bits.
abbrev pub land : ℕ → ℕ → ℕ → ℕ
land zero a b = 0
land (suc width) a b = 2 * land width (a / 2) (b / 2) + (a % 2) * (b % 2)

-- `(a & b) != 0` on ints.
abbrev pub meets : ℤ → ℤ → Bool
meets a b = not (land 32 (pattern 32 a) (pattern 32 b) == 0)

abbrev pub channel_marks : HashTree → ℤ → Dict ℕ
channel_marks tree channelid = elim (lookup channelid tree.integrity_send_map) [
  | none ↦ []
  | some checkmap ↦ checkmap
]

abbrev pub highest_mark : Dict ℕ → ℕ
highest_mark [] = 0
highest_mark (e ∷ marks) = pos_part e.0 + highest_mark marks

-- The loop, on fuel: `peakmap` and `checkmap`.
unfoldable pub collect :
    MerkleHashmap → ℕ → Node → MerkleHashmap → Dict ℕ → Option (MerkleHashmap × Dict ℕ)
collect nodes zero n peakmap checkmap = none
collect nodes (suc fuel) n peakmap checkmap = elim (get_sibling_index n.start n.end) [
  | none ↦ none
  | some (s, index) ↦ elim (lookup index checkmap) [
    | some mark ↦ collect nodes fuel (parent n s) peakmap checkmap
    | none ↦ elim (lookup index nodes) [
      | none ↦ some (peakmap, checkmap)
      | some node ↦ elim node.hash [
        | none ↦ collect nodes fuel (parent n s) peakmap checkmap
        | some hash ↦
            collect nodes fuel (parent n s) (insert node.tree_index node peakmap)
              (insert index 0 checkmap)
      ]
    ]
  ]
]

-- `none` is a loop without an end.
unfoldable pub get_data_integrity : HashTree → ℤ → ℤ → Option (MerkleHashmap × HashTree)
get_data_integrity tree channelid index =
    let marks = channel_marks tree channelid in
    let fuel = highest tree.hash_tree_map + highest_mark marks + 2 in
    elim (collect tree.hash_tree_map fuel (record { start = index; end = index }) [] marks) [
      | none ↦ none
      | some (peakmap, checkmap) ↦ some (
        peakmap,
        record tree { integrity_send_map = insert channelid checkmap tree.integrity_send_map },
      )
    ]

-- The node that a pointer points to.
abbrev at_pointer : MerkleHashmap → Option ℤ → Option BTreeNode
at_pointer nodes none = none
at_pointer nodes (some index) = lookup index nodes

-- The peak next to a node: of the node and its sibling, the one whose chunks are all there, if the
-- other's are not.
unfoldable pub peak_beside : MerkleHashmap → BTreeNode → Option BTreeNode
peak_beside nodes node = elim (at_pointer nodes node.sibling) [
  | none ↦ none
  | some sibling ↦
      if sibling.is_in_complete && not node.is_in_complete
      then some node
      else if node.is_in_complete && not sibling.is_in_complete
      then some sibling
      else none
]

abbrev with_peak : Option BTreeNode → MerkleHashmap → MerkleHashmap
with_peak none peaks = peaks
with_peak (some node) peaks = insert node.tree_index node peaks

-- The way from a node to the root, on fuel: a node has fewer nodes above it than the tree has.
unfoldable pub peaks_above :
    MerkleHashmap
    → ℕ
    → Option BTreeNode
    → MerkleHashmap
    → MerkleHashmap
    → Option (MerkleHashmap × MerkleHashmap)
peaks_above nodes fuel none peakmap kept = some (peakmap, kept)
peaks_above nodes zero (some node) peakmap kept = none
peaks_above nodes (suc fuel) (some node) peakmap kept =
    let peak = peak_beside nodes node in
    peaks_above nodes fuel (at_pointer nodes node.parent) (with_peak peak peakmap)
      (with_peak peak kept)

abbrev copy_peaks : MerkleHashmap → MerkleHashmap → MerkleHashmap
copy_peaks [] peakmap = peakmap
copy_peaks (e ∷ rest) peakmap = copy_peaks rest (insert e.1.tree_index e.1 peakmap)

unfoldable pub get_peak_hashes : HashTree → Option (MerkleHashmap × HashTree)
get_peak_hashes tree =
    if tree.is_peak_map_created
    then some (copy_peaks tree.peak_hash_map [], tree)
    else if meets (tree.chunk_range +ℤ pos 1) tree.chunk_range
    then (elim (peaks_above tree.hash_tree_map (suc (length tree.hash_tree_map))
        (lookup tree.last_chunk_index tree.hash_tree_map) [] tree.peak_hash_map) [
          | none ↦ none
          | some (peakmap, kept) ↦
              some (peakmap, record tree { is_peak_map_created = true; peak_hash_map = kept })
        ])
    else some ([], record tree { is_peak_map_created = true })
