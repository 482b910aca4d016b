-- ===== src/Tree/Make/Accepted.antt =====
-- CheckDataIntegrity takes each chunk of the file that Make made the tree of.
use ppsp.Common.{
  ℕ, zero, suc, ◌+◌, ◌-◌, ◌*◌, ◌/◌, ◌%◌, ◌^◌, ◌≤◌, ◌<◌, ◌≡◌, ◌≢◌, ◌⊎◌, inl, inr, Option, none, some,
  List, arith, ap, sym, ◌∙◌, subst, length,
}
use ppsp.Common.Int.{◌≤ℤ◌, ◌<ℤ◌, ℤ, pos}
use ppsp.Message.Data.{Data}
use ppsp.Tree.Dict.{Dict, lookup}
use ppsp.Tree.Sha.{Hasher, Hash, HasDigests, encrypt}
use ppsp.Tree.Sibling.Laws.{node, number}
use ppsp.Tree.State.{MerkleHashmap, HashTree}
use ppsp.Tree.Check.Supplied.{Supplies, behind, from_tree}
use ppsp.Tree.Check.{received, hash_of, received, check_data_integrity}
use ppsp.Tree.Check.Climb.{halves, number-node}
use ppsp.Tree.Check.Known.{Carries, IsComplete}
use ppsp.Tree.Check.Digests.{IsDigest}
use ppsp.Tree.Check.Complete.{tree_hash, other, HasSiblings, check_data_integrity-tree_hash}
use ppsp.Tree.Make.{make}
use ppsp.Tree.Make.Entries.{Entry, Holds, lookup-entry, span, index}
use ppsp.Tree.Make.Reading.{chunk_of, chunk_hash}
use ppsp.Tree.Make.Hashes.{node-IsDigest, node_null, there, hash_there}
use ppsp.Tree.Make.Built.{IsMade, make-IsMade}

other_even : (j : ℕ) → j % 2 ≡ 0 → other j ≡ j + 1
other_even j r = ground (arith, r)

other_odd : (j : ℕ) → j % 2 ≡ 1 → other j ≡ j - 1
other_odd j r = ground (arith, r)

other_inside : (j e : ℕ) → j < 2 ^ suc e → other j < 2 ^ suc e
other_inside j e b =
    let m : 2 ^ suc e ≡ 2 ^ e + 2 ^ e = omega arith in
    elim (halves j) [
      | inl (h, r) ↦ let w = other_even j r in omega (arith, w)
      | inr (h, r) ↦ let w = other_odd j r in omega (arith, w)
    ]

within_or_past : (a b : ℕ) → (a ≤ b) ⊎ (b < a)
within_or_past a b = omega arith

none-some : {a : List ℕ} → none ≡ some a → ⊥
none-some e = ground (arith, e)

number-index : (l j : ℕ) → number (node (span l) j) ≡ pos (index l j)
number-index l j = number-node (span l) j ∙ ap pos (omega arith)

module _ (sha : Hasher) (mhf c : ℕ) (bytes : List ℕ) (positive : 0 < c) (digests : HasDigests sha)
    (t : HashTree) (d last : ℕ) (channelid : ℤ) (before : Dict MerkleHashmap)
    (k : IsMade sha mhf c bytes before t d last) (fresh : lookup channelid before ≡ none) where
  abbrev leaf : ℕ → Hash
  leaf = chunk_hash sha mhf c bytes

  -- Nothing came over the channel.
  unreceived : (i : ℤ) → hash_of (received t channelid i) ≡ none
  unfolding received
  unreceived i =
      ap
        (λ (o : Option MerkleHashmap).
          hash_of (elim o [ none ↦ none | some nodes ↦ lookup i nodes ]))
        (ap (lookup channelid) k.received ∙ fresh)

  -- In the content a sibling is found in HashTreeMap; behind it the hash is null.
  supplied :
      (l e j : ℕ)
      → l + e ≡ d
      → j < 2 ^ e
      → Supplies t channelid (node (span l) j) (tree_hash sha mhf leaf l j)
  unfolding Holds
  supplied l e j h b = elim (within_or_past (suc (span l) * j) last) [
    | inl w ↦
        let (n, at, p) =
          lookup-entry (pos (index l j)) t.hash_tree_map _ (k.built.nodes l e j h b) in
        let digest = node-IsDigest sha mhf c bytes positive digests l j (k.filled _ w) in
        from_tree n (subst (λ x. pos (suc (span l) * j) ≤ℤ x) (sym k.ranged) (omega arith))
          (unreceived (number (node (span l) j)))
          (ap (λ x. lookup x t.hash_tree_map) (number-index l j) ∙ at)
          (ap (λ (x : Entry). x.hash) p) (λ z. none-some (sym z ∙ digest.held))
    | inr w ↦
        behind (subst (λ x. x <ℤ pos (suc (span l) * j)) (sym k.ranged) (omega arith))
          (node_null sha mhf c bytes positive digests l j (λ i b'. k.ended i (omega arith)))
  ]

  siblings : (e l j : ℕ) → l + e ≡ d → j < 2 ^ e → HasSiblings sha t channelid leaf e (span l) l j
  siblings zero l j h b = tt
  siblings (suc e) l j h b = (
    subst (λ x. Supplies t channelid (node (span l) (other j)) (tree_hash sha x leaf l (other j)))
        (sym k.hashed_by) (supplied l (suc e) (other j) h (other_inside j e b)),
    siblings e (suc l) (j / 2) (omega arith) (omega arith),
  )

  inside_content : (j : ℕ) → c * j < length bytes → j ≤ last
  inside_content j b = elim (within_or_past j last) [
    | inl w ↦ w
    | inr w ↦ absurd (there sha mhf c bytes positive digests j b (k.ended j w))
  ]

  rooted : IsDigest t.merkle_hash_tree_function t.root_hash
  rooted =
      let first : 0 ≡ suc (span d) * 0 = omega arith in
      let top =
        node-IsDigest sha mhf c bytes positive digests d 0
          (subst (λ x. leaf x ≢ none) first (k.filled 0 (omega arith))) in
      subst (λ x. IsDigest x t.root_hash) (sym k.hashed_by)
        (subst (IsDigest mhf) (sym k.root_hash) top)

  accepted :
      (m : Data) (j : ℕ)
      → c * j < length bytes
      → Carries m j (chunk_of c bytes j)
      → (t' : HashTree) × (check_data_integrity sha t channelid m ≡ some (1, t'))
  accepted m j b v =
      let i = inside_content j b in
      let in_tree = k.inside in
      let complete : IsComplete t d = record {
        range = last;
        ranged = k.ranged;
        leaves = k.leaves;
      } in
      check_data_integrity-tree_hash sha t channelid m d j (chunk_of c bytes j) leaf complete v
        (omega arith) rooted (k.root_hash ∙ ap (λ x. tree_hash sha x leaf d 0) (sym k.hashed_by))
        (hash_there sha mhf c bytes positive digests j (k.filled j i)
          ∙ ap (λ x. some (encrypt sha x (chunk_of c bytes j))) (sym k.hashed_by))
        (siblings d 0 j (omega arith) (omega arith))

-- Make of a file with more bytes than ChunkSize, which is 1 or more, and of 2 ^ 29 chunks at most,
-- gives a tree for which CheckDataIntegrity accepts every message that carries a chunk of the file
-- with the chunk's number, where nothing was received from the message's channel.
pub make-check_data_integrity :
    (sha : Hasher) (tree : HashTree) (c : ℕ) (bytes : List ℕ) (channelid : ℤ) (d : Data) (j : ℕ)
    → HasDigests sha
    → tree.chunk_size ≡ pos c
    → 0 < c
    → c < length bytes
    → length bytes ≤ c * 2 ^ 29
    → lookup channelid tree.integrity_map ≡ none
    → c * j < length bytes
    → Carries d j (chunk_of c bytes j)
    → (made : HashTree) × (t : HashTree) × (make sha tree (some bytes) ≡ some (1, made))
      × (check_data_integrity sha made channelid d ≡ some (1, t))
make-check_data_integrity sha tree c bytes channelid d j digests size positive l s fresh b v =
    let (made, depth, last, run, k) = make-IsMade sha tree c bytes digests size positive l s in
    let (t, q) =
      accepted sha tree.merkle_hash_tree_function c bytes positive digests made depth last channelid
        tree.integrity_map k fresh d j b v in
    (made, t, run, q)
