-- ===== src/Tree/Check/Supplied.antt =====
-- Where CheckDataIntegrity has the hash of a sibling from.
use ppsp.Common.{
  ◌≡◌, refl, ◌≢◌, true, false, some, none, ap, ◌∙◌, sym, arith, branch_true, branch_false,
}
use ppsp.Common.Int.{ℤ, ◌≤ℤ◌, ◌<ℤ◌, leb_ℤ}
use ppsp.Tree.Dict.{lookup}
use ppsp.Tree.Sha.{Hash}
use ppsp.Tree.Sibling.{Node}
use ppsp.Tree.Sibling.Laws.{number}
use ppsp.Tree.State.{BTreeNode, MerkleHashmap, HashTree}
use ppsp.Tree.Check.{received, hash_of, known_hash, sibling_hash}

-- The hash that counts for the sibling `s`: null behind the last chunk; else the hash of its number
-- that came over the channel; else, where none came, the one in HashTreeMap.
pub data Supplies (tree : HashTree) (channelid : ℤ) (s : Node) (hash : Hash) : Type 0 where
  behind : tree.chunk_range <ℤ s.start → hash ≡ none → Supplies tree channelid s hash
  from_channel :
      (nodes : MerkleHashmap) (n : BTreeNode)
      → s.start ≤ℤ tree.chunk_range
      → lookup channelid tree.integrity_map ≡ some nodes
      → lookup (number s) nodes ≡ some n
      → n.hash ≡ hash
      → hash ≢ none
      → Supplies tree channelid s hash
  from_tree :
      (n : BTreeNode)
      → s.start ≤ℤ tree.chunk_range
      → hash_of (received tree channelid (number s)) ≡ none
      → lookup (number s) tree.hash_tree_map ≡ some n
      → n.hash ≡ hash
      → hash ≢ none
      → Supplies tree channelid s hash

taken : (hash : Hash) → hash ≢ none → elim hash [ none ↦ none | some h ↦ some (some h) ] ≡ some hash
taken none h = absurd (h refl)
taken (some bytes) h = refl

-- IntegrityMap is looked at first.
first_hash : (a b : Hash) → a ≢ none → elim a [ none ↦ b | some h ↦ some h ] ≡ a
first_hash none b h = absurd (h refl)
first_hash (some bytes) b h = refl

module _ (tree : HashTree) (channelid : ℤ) (s : Node) where
  known-sibling_hash :
      (hash : Hash)
      → s.start ≤ℤ tree.chunk_range
      → known_hash tree channelid (number s) ≡ hash
      → hash ≢ none
      → sibling_hash tree channelid s (number s) ≡ some hash
  unfolding sibling_hash
  known-sibling_hash hash b e z =
      let test : leb_ℤ s.start tree.chunk_range ≡ true = ground (arith, b) in
      branch_true _ _ test
      ∙ ap (λ x. elim x [ none ↦ none | some h ↦ some (some h) ]) e
      ∙ taken hash z

  pub supplies-sibling_hash :
      (hash : Hash)
      → Supplies tree channelid s hash
      → sibling_hash tree channelid s (number s) ≡ some hash
  unfolding sibling_hash known_hash received
  supplies-sibling_hash hash (behind b z) =
      let test : leb_ℤ s.start tree.chunk_range ≡ false = ground (arith, b) in
      branch_false _ _ test ∙ ap some (sym z)
  supplies-sibling_hash hash (from_channel nodes n b p q e z) =
      let here : hash_of (received tree channelid (number s)) ≡ hash =
        ap (λ o. hash_of (elim o [ none ↦ none | some m ↦ lookup (number s) m ])) p
        ∙ ap hash_of q
        ∙ e in
      let there : known_hash tree channelid (number s) ≡ hash =
        first_hash _ _ (λ w. z (sym here ∙ w)) ∙ here in
      known-sibling_hash hash b there z
  supplies-sibling_hash hash (from_tree n b f q e z) =
      let there : known_hash tree channelid (number s) ≡ hash =
        ap (λ x. elim x [ none ↦ hash_of (lookup (number s) tree.hash_tree_map) | some h ↦ some h ])
          f
        ∙ ap hash_of q
        ∙ e in
      known-sibling_hash hash b there z
