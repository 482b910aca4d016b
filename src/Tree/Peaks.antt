-- ===== src/Tree/Peaks.antt =====
-- CheckPeakHash of HashTree.cpp. `doubled` is what `(int)pow(2, log2(x) + 1)` gives.
use ppsp.Common.{
  ℕ, zero, suc, ◌+◌, ◌%◌, true, false, Option, none, some, [], ◌∷◌, ltb, ◌==◌, if◌then◌else◌,
}
use ppsp.Common.Int.{ℤ, pos, ◌+ℤ◌, ◌-ℤ◌, ◌*ℤ◌, leb_ℤ, eqb_ℤ}
use ppsp.Util.Endian.{pattern, signed32}
use ppsp.Tree.Dict.{lookup, insert, insert_absent, erase, update}
use ppsp.Tree.Sha.{Hasher, Hash, digest_blocklen}
use ppsp.Tree.Sibling.{Node, get_sibling_index, magnitude}
use ppsp.Tree.State.{BTreeNode, MerkleHashmap, HashTree}
use ppsp.Tree.Check.{Walk, stuck, failed, top, parent, combine, same_bytes, judged}
use ppsp.Tree.Send.{meets}

-- `leafnode` and `unclenode` at the end of the loop over the received nodes: a node of one chunk, or
-- of the others the last.
abbrev later : Option BTreeNode → BTreeNode → Option BTreeNode
later none node = some node
later (some uncle) node =
    if ltb (pattern 32 uncle.end_chunk) (pattern 32 node.end_chunk) then some node else some uncle

unfoldable pub peak_leaf : MerkleHashmap → Option BTreeNode → Option BTreeNode
peak_leaf [] uncle = uncle
peak_leaf (e ∷ rest) uncle =
    let further = peak_leaf rest (later uncle e.1) in
    if eqb_ℤ e.1.start_chunk e.1.end_chunk then some e.1 else further

-- `while ((idx & (idx - 1)) != 0) idx += 2;` on fuel.
unfoldable pub power_from : ℕ → ℤ → Option ℤ
power_from zero idx = none
power_from (suc fuel) idx =
    let further = power_from fuel (idx +ℤ pos 2) in
    if meets idx (idx -ℤ pos 1) then further else some idx

-- The number of leaves that the last chunk's number stands for.
unfoldable pub leaf_count : ℤ → Option ℤ
leaf_count end =
    let idx = if magnitude end % 2 == 0 then end else end +ℤ pos 1 in
    power_from (magnitude idx + 2) idx

-- A sibling up to `last` is needed; one beyond counts as null. The outer `none` is the return of 0.
unfoldable pub peak_hash : MerkleHashmap → ℤ → ℤ → Option Hash
peak_hash nodes last index =
    if leb_ℤ index last
    then (elim (lookup index nodes) [ none ↦ none | some node ↦ some node.hash ])
    else some none

abbrev peak_noted : MerkleHashmap → ℤ → ℤ → MerkleHashmap → MerkleHashmap
peak_noted nodes last index tmpmap =
    if leb_ℤ index last
    then (elim (lookup index nodes) [
      | none ↦ tmpmap
      | some node ↦ insert node.tree_index node tmpmap
    ])
    else tmpmap

unfoldable pub climb_peaks :
    Hasher → ℕ → MerkleHashmap → ℤ → ℤ → ℕ → Node → Hash → MerkleHashmap → Walk
climb_peaks sha mhf nodes bound last zero n hash tmpmap = stuck
climb_peaks sha mhf nodes bound last (suc fuel) n hash tmpmap =
    elim (get_sibling_index n.start n.end) [
      | none ↦ stuck
      | some (s, index) ↦ elim (leb_ℤ index bound) [
        | false ↦ top n hash tmpmap
        | true ↦ elim (peak_hash nodes last index) [
          | none ↦ failed
          | some found ↦
              climb_peaks sha mhf nodes bound last fuel (parent n s)
                (combine sha mhf n s hash found) (peak_noted nodes last index tmpmap)
        ]
      ]
    ]

-- The nodes of `tmpmap` go to HashTreeMap and PeakHashMap.
unfoldable pub move_peaks : ℤ → MerkleHashmap → HashTree → HashTree
move_peaks channelid [] tree = tree
move_peaks channelid (e ∷ rest) tree = move_peaks channelid rest (record tree {
  hash_tree_map = insert_absent e.0 e.1 tree.hash_tree_map;
  peak_hash_map = insert e.0 e.1 tree.peak_hash_map;
  integrity_map = update channelid (erase e.0) tree.integrity_map;
})

-- `tree` is the state at the end of the loop.
unfoldable pub peak_result : HashTree → ℤ → BTreeNode → Walk → Option (ℕ × HashTree)
peak_result tree channelid leaf stuck = none
peak_result tree channelid leaf failed = some (0, tree)
peak_result tree channelid leaf (top n hash tmpmap) =
    let moved =
      move_peaks channelid tmpmap (record tree {
        chunk_range = leaf.end_chunk;
        last_chunk_index = leaf.end_chunk *ℤ pos 2;
      }) in
    judged (same_bytes (digest_blocklen tree.merkle_hash_tree_function) tree.root_hash hash) tree
      (record moved { is_peak_map_created = true })

unfoldable pub check_from_leaf :
    Hasher → (ℤ → ℤ) → HashTree → ℤ → MerkleHashmap → BTreeNode → Option (ℕ × HashTree)
check_from_leaf sha doubled tree channelid nodes leaf = elim (leaf_count leaf.end_chunk) [
  | none ↦ none
  | some count ↦
      let bound = doubled (count -ℤ pos 1) in
      let last = signed32 (pattern 32 (leaf.end_chunk *ℤ pos 2)) in
      let left = erase leaf.tree_index nodes in
      let counted = record tree {
        leaf_node_count = count;
        integrity_map = update channelid (erase leaf.tree_index) tree.integrity_map;
      } in
      let n : Node = record { start = leaf.start_chunk; end = leaf.end_chunk } in
      peak_result counted channelid leaf (
        climb_peaks sha tree.merkle_hash_tree_function left bound last (magnitude bound + 2) n
          leaf.hash ((leaf.tree_index, leaf) ∷ []))
]

unfoldable pub check_peak_hash : Hasher → (ℤ → ℤ) → HashTree → ℤ → Option (ℕ × HashTree)
check_peak_hash sha doubled tree channelid = elim (lookup channelid tree.integrity_map) [
  | none ↦ some (0, tree)
  | some nodes ↦ elim nodes [
    | [] ↦
        if leb_ℤ (pos 0) tree.chunk_range
        then some (1, record tree { is_peak_map_created = true })
        else some (0, tree)
    | e ∷ rest ↦ elim (peak_leaf (e ∷ rest) none) [
      | none ↦ some (0, tree)
      | some leaf ↦ check_from_leaf sha doubled tree channelid (e ∷ rest) leaf
    ]
  ]
]
