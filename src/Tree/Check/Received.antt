-- ===== src/Tree/Check/Received.antt =====
-- What AddIntegrity stores, and CheckDataIntegrity finds.
use ppsp.Common.{
  ℕ, ◌≡◌, refl, ◌≢◌, ◌⊎◌, inl, inr, Option, none, some, List, [], ◌∷◌, arith, length, Option-cases,
}
use ppsp.Common.Int.{ℤ, ◌+ℤ◌, eqb_ℤ_iff}
use ppsp.Message.Buffer.{copy_out-whole}
use ppsp.Message.Integrity.{Integrity}
use ppsp.Tree.Dict.{Dict, lookup, insert, lookup-insert_self, lookup-insert_ne}
use ppsp.Tree.Sha.{digest_blocklen}
use ppsp.Tree.State.{
  BTreeNode, MerkleHashmap, HashTree, new_node, received_node, store_node, add_integrity,
}
use ppsp.Tree.Check.{received}

-- The node under a channel and an index.
found_in : Dict MerkleHashmap → ℤ → ℤ → Option BTreeNode
found_in map channelid index = elim (lookup channelid map) [
  | none ↦ none
  | some nodes ↦ lookup index nodes
]

found-stored :
    (map : Dict MerkleHashmap) (channelid : ℤ) (node : BTreeNode)
    → found_in (store_node map channelid node) channelid node.tree_index ≡ some node
unfolding found_in store_node
found-stored map channelid node = elim (Option-cases (lookup channelid map)) [
  | inl e ↦
      rw (found_in, store_node, e, lookup-insert_self channelid ((node.tree_index, node) ∷ []) map)
        (lookup-insert_self node.tree_index node [])
  | inr (nodes, e) ↦
      rw
        (
          found_in,
          store_node,
          e,
          lookup-insert_self channelid (insert node.tree_index node nodes) map,
        )
        (lookup-insert_self node.tree_index node nodes)
]

found-stored_other_channel :
    (map : Dict MerkleHashmap) (channelid c i : ℤ) (node : BTreeNode)
    → c ≢ channelid
    → found_in (store_node map channelid node) c i ≡ found_in map c i
unfolding found_in store_node
found-stored_other_channel map channelid c i node h = elim (Option-cases (lookup channelid map)) [
  | inl e ↦
      rw
        (found_in, store_node, e, lookup-insert_ne c channelid ((node.tree_index, node) ∷ []) map h)
        refl
  | inr (nodes, e) ↦
      rw
        (
          found_in,
          store_node,
          e,
          lookup-insert_ne c channelid (insert node.tree_index node nodes) map h,
        )
        refl
]

found-stored_other_index :
    (map : Dict MerkleHashmap) (channelid i : ℤ) (node : BTreeNode)
    → i ≢ node.tree_index
    → found_in (store_node map channelid node) channelid i ≡ found_in map channelid i
unfolding found_in store_node
found-stored_other_index map channelid i node h = elim (Option-cases (lookup channelid map)) [
  | inl e ↦
      rw (found_in, store_node, e, lookup-insert_self channelid ((node.tree_index, node) ∷ []) map)
        (lookup-insert_ne i node.tree_index node [] h)
  | inr (nodes, e) ↦
      rw
        (
          found_in,
          store_node,
          e,
          lookup-insert_self channelid (insert node.tree_index node nodes) map,
        )
        (lookup-insert_ne i node.tree_index node nodes h)
]

-- The node that an INTEGRITY message with `bytes` as its hash makes.
abbrev pub node_of : Integrity → List ℕ → BTreeNode
node_of integrity bytes = record new_node {
  tree_index = integrity.start_chunk +ℤ integrity.end_chunk;
  start_chunk = integrity.start_chunk;
  end_chunk = integrity.end_chunk;
  hash = some bytes;
}

-- A hash of the size of a digest that AddIntegrity takes is found under its channel and the number
-- of its node, with its chunk range; what is found under another channel or number, and
-- HashTreeMap, stay.
pub add_integrity-received :
    (tree : HashTree) (channelid : ℤ) (integrity : Integrity) (bytes : List ℕ)
    → integrity.hash ≡ some bytes
    → length bytes ≡ digest_blocklen tree.merkle_hash_tree_function
    → (t : HashTree) × (add_integrity tree channelid integrity ≡ some t)
      × (received t channelid (integrity.start_chunk +ℤ integrity.end_chunk)
          ≡ some (node_of integrity bytes))
      × ((c i : ℤ)
          → (c ≢ channelid) ⊎ (i ≢ integrity.start_chunk +ℤ integrity.end_chunk)
          → received t c i ≡ received tree c i)
      × (t.hash_tree_map ≡ tree.hash_tree_map)
unfolding add_integrity received_node received found_in
add_integrity-received tree channelid integrity bytes e l =
    let node = node_of integrity bytes in
    let copied = copy_out-whole (digest_blocklen tree.merkle_hash_tree_function) bytes l in
    (
      record tree { integrity_map = store_node tree.integrity_map channelid node },
      rw (add_integrity, received_node, e, copied) refl,
      found-stored tree.integrity_map channelid node,
      λ c i h. others c i (cases c channelid) h,
      refl,
    )
  where
    cases : (a b : ℤ) → (a ≡ b) ⊎ (a ≢ b)
    cases a b = grind (arith, eqb_ℤ_iff a b)

    others :
        (c i : ℤ)
        → (c ≡ channelid) ⊎ (c ≢ channelid)
        → (c ≢ channelid) ⊎ (i ≢ integrity.start_chunk +ℤ integrity.end_chunk)
        → found_in (store_node tree.integrity_map channelid (node_of integrity bytes)) c i
          ≡ found_in tree.integrity_map c i
    others c i (inr n) h =
        found-stored_other_channel tree.integrity_map channelid c i (node_of integrity bytes) n
    others c i (inl e) (inl n) = absurd (n e)
    others c i (inl e) (inr n) =
        rw e (found-stored_other_index tree.integrity_map channelid i (node_of integrity bytes) n)
