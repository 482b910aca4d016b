-- ===== src/Tree/Make/Entries.antt =====
-- What Make promises of a node in HashTreeMap: its hash and its chunks. Its pointers are left out.
use ppsp.Common.{
  ℕ, zero, suc, ◌+◌, ◌*◌, ◌^◌, ◌≤◌, ◌<◌, ◌≡◌, ◌≢◌, refl, ◌⊎◌, inl, inr, Option, none, some, [], ◌∷◌,
  arith, ap, sym, ◌∙◌, subst, length, Option-cases,
}
use ppsp.Common.Int.{ℤ, pos, eqb_ℤ_iff}
use ppsp.Tree.Dict.{lookup, insert, update, lookup-insert_self, lookup-insert_ne}
use ppsp.Tree.Sha.{Hasher, Hash}
use ppsp.Tree.Sibling.Laws.{node}
use ppsp.Tree.State.{BTreeNode, MerkleHashmap}
use ppsp.Tree.Check.Complete.{tree_hash}
use ppsp.Tree.Make.Powers.{odd_part}

pub record Entry : Type 0 where
  pub hash : Hash
  pub start : ℤ
  pub end : ℤ

abbrev pub entry_of : BTreeNode → Entry
entry_of n = record { hash = n.hash; start = n.start_chunk; end = n.end_chunk }

abbrev pub entry_in : Option BTreeNode → Option Entry
entry_in none = none
entry_in (some n) = some (entry_of n)

-- The abstract map.
unfoldable pub entry : ℤ → MerkleHashmap → Option Entry
entry k map = entry_in (lookup k map)

pub entry-update :
    (j k : ℤ) (f : BTreeNode → BTreeNode) (map : MerkleHashmap)
    → ((n : BTreeNode) → entry_of (f n) ≡ entry_of n)
    → entry j (update k f map) ≡ entry j map
unfolding entry
entry-update j k f [] h = refl
entry-update j k f (e ∷ map) h =
    ground (arith, eqb_ℤ_iff j e.0, eqb_ℤ_iff k e.0, h e.1, entry-update j k f map h)

pub entry-insert_self :
    (k : ℤ) (n : BTreeNode) (map : MerkleHashmap) → entry k (insert k n map) ≡ some (entry_of n)
unfolding entry
entry-insert_self k n map = ap entry_in (lookup-insert_self k n map)

pub entry-insert_ne :
    (j k : ℤ) (n : BTreeNode) (map : MerkleHashmap) → j ≢ k → entry j (insert k n map) ≡ entry j map
unfolding entry
entry-insert_ne j k n map h = ap entry_in (lookup-insert_ne j k n map h)

none-some : {e : Entry} → none ≡ some e → ⊥
none-some h = ground arith

some_inside : {a b : Entry} → some a ≡ some b → a ≡ b
some_inside h = ground arith

pub lookup-entry :
    (k : ℤ) (map : MerkleHashmap) (e : Entry)
    → entry k map ≡ some e
    → (n : BTreeNode) × (lookup k map ≡ some n) × (entry_of n ≡ e)
unfolding entry
lookup-entry k map e h = elim (Option-cases (lookup k map)) [
  | inl z ↦ absurd (none-some (sym (ap entry_in z) ∙ h))
  | inr (n, z) ↦ (n, z, some_inside (sym (ap entry_in z) ∙ h))
]

pub lookup-none : (k : ℤ) (map : MerkleHashmap) → entry k map ≡ none → lookup k map ≡ none
unfolding entry
lookup-none k map h = elim (Option-cases (lookup k map)) [
  | inl z ↦ z
  | inr (n, z) ↦ absurd (none-some (sym h ∙ ap entry_in z))
]

pub length-update :
    (k : ℤ) (f : BTreeNode → BTreeNode) (map : MerkleHashmap) → length (update k f map) ≡ length map
length-update k f [] = refl
length-update k f (e ∷ map) = ground (arith, length-update k f map)

pub length-insert :
    (k : ℤ) (n : BTreeNode) (map : MerkleHashmap)
    → lookup k map ≡ none
    → length (insert k n map) ≡ suc (length map)
length-insert k n [] h = refl
length-insert k n (e ∷ map) h = ground (arith, length-insert k n map)

-- A node `l` levels above the leaves covers `span l + 1` chunks.
abbrev pub span : ℕ → ℕ
span zero = 0
span (suc l) = span l + span l + 1

abbrev pub index : ℕ → ℕ → ℕ
index l j = suc (span l) * (j + j) + span l

pub suc-span : (l : ℕ) → suc (span l) ≡ 2 ^ l
suc-span zero = omega arith
suc-span (suc l) = omega (arith, suc-span l)

pub index_injective : (l l' j j' : ℕ) → index l j ≡ index l' j' → (l ≡ l') × (j ≡ j')
index_injective l l' j j' h =
    let e : suc (index l j) ≡ suc (span l) * (j + j + 1) = omega arith in
    let e' : suc (index l' j') ≡ suc (span l') * (j' + j' + 1) = omega arith in
    odd_part l l' j j' (
      sym (ap (λ x. x * (j + j + 1)) (suc-span l))
      ∙ sym e
      ∙ ap suc h
      ∙ e'
      ∙ ap (λ x. x * (j' + j' + 1)) (suc-span l'))

-- The node number `j` at level `l` of the recursive definition.
abbrev pub entry_at : Hasher → ℕ → (ℕ → Hash) → ℕ → ℕ → Entry
entry_at sha mhf leaf l j = record {
  hash = tree_hash sha mhf leaf l j;
  start = (node (span l) j).start;
  end = (node (span l) j).end;
}

unfoldable pub Holds : Hasher → ℕ → (ℕ → Hash) → MerkleHashmap → ℕ → ℕ → Type 0
Holds sha mhf leaf map l j = entry (pos (index l j)) map ≡ some (entry_at sha mhf leaf l j)

-- The same nodes, but for their pointers.
pub record Alike (map' map : MerkleHashmap) : Type 0 where
  pub entries : (j : ℤ) → entry j map' ≡ entry j map
  pub sized : length map' ≡ length map

pub Alike-refl : (map : MerkleHashmap) → Alike map map
Alike-refl map = record { entries = λ j. refl; sized = refl }

pub Alike-update :
    (k : ℤ) (f : BTreeNode → BTreeNode) (map' map : MerkleHashmap)
    → ((n : BTreeNode) → entry_of (f n) ≡ entry_of n)
    → Alike map' map
    → Alike (update k f map') map
Alike-update k f map' map h a = record {
  entries = λ j. entry-update j k f map' h ∙ a.entries j;
  sized = length-update k f map' ∙ a.sized;
}

-- `map'` has one node more than `map`, or another one under `k`.
pub record IsPut (k : ℤ) (e : Entry) (map map' : MerkleHashmap) : Type 0 where
  pub self : entry k map' ≡ some e
  pub others : (j : ℤ) → j ≢ k → entry j map' ≡ entry j map
  pub grown : entry k map ≡ none → length map' ≡ suc (length map)

pub insert-IsPut :
    (k : ℤ) (n : BTreeNode) (map' map : MerkleHashmap)
    → Alike map' map
    → IsPut k (entry_of n) map (insert k n map')
insert-IsPut k n map' map a = record {
  self = entry-insert_self k n map';
  others = λ j d. entry-insert_ne j k n map' d ∙ a.entries j;
  grown = λ h. length-insert k n map' (lookup-none k map' (a.entries k ∙ h)) ∙ ap suc a.sized;
}

same_or_not : (a b : ℕ) → (a ≡ b) ⊎ (a ≢ b)
same_or_not a b = omega arith

pos_inside : {a b : ℕ} → pos a ≡ pos b → a ≡ b
pos_inside h = ground arith

pub Holds-self :
    (sha : Hasher) (mhf : ℕ) (leaf : ℕ → Hash) (map map' : MerkleHashmap) (l j : ℕ)
    → IsPut (pos (index l j)) (entry_at sha mhf leaf l j) map map'
    → Holds sha mhf leaf map' l j
unfolding Holds
Holds-self sha mhf leaf map map' l j p = p.self

-- A node that is put in at its place leaves what holds of the others.
pub Holds-put :
    (sha : Hasher) (mhf : ℕ) (leaf : ℕ → Hash) (map map' : MerkleHashmap) (l j l' j' : ℕ)
    → IsPut (pos (index l j)) (entry_at sha mhf leaf l j) map map'
    → Holds sha mhf leaf map l' j'
    → Holds sha mhf leaf map' l' j'
unfolding Holds
Holds-put sha mhf leaf map map' l j l' j' p h = elim (same_or_not (index l' j') (index l j)) [
  | inl q ↦
      let (r, t) = index_injective l l' j j' (sym q) in
      subst (λ x. Holds sha mhf leaf map' x j') r
        (subst (λ x. Holds sha mhf leaf map' l x) t p.self)
  | inr q ↦ p.others (pos (index l' j')) (λ x. q (pos_inside x)) ∙ h
]

-- No node from number `k` on.
unfoldable pub IsAbsent : MerkleHashmap → ℕ → Type 0
IsAbsent map k = (j : ℕ) → k ≤ j → entry (pos j) map ≡ none

pub IsAbsent-put :
    (map map' : MerkleHashmap) (e : Entry) (i k m : ℕ)
    → IsPut (pos i) e map map'
    → IsAbsent map k
    → k ≤ m
    → i < m
    → IsAbsent map' m
unfolding IsAbsent
IsAbsent-put map map' e i k m p h le lt j above =
    let d : j ≢ i = omega arith in p.others (pos j) (λ x. d (pos_inside x)) ∙ h j (omega arith)
