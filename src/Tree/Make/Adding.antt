-- ===== src/Tree/Make/Adding.antt =====
-- The leaves in HashTreeMap while Make adds them.
use ppsp.Common.{
  ℕ, suc, ◌+◌, ◌-◌, ◌%◌, ◌<◌, ◌≡◌, refl, ◌⊎◌, inl, inr, Bool, none, ◌&&◌, arith, ap, sym, ◌∙◌,
  subst, length, ◌==◌, ltb, Bool-cases, Option-cases,
}
use ppsp.Common.Int.{pos}
use ppsp.Tree.Dict.{lookup}
use ppsp.Tree.Sha.{Hasher, Hash}
use ppsp.Tree.State.{BTreeNode, MerkleHashmap}
use ppsp.Tree.Check.Complete.{tree_hash}
use ppsp.Tree.Make.{Leaves, leaf_node, add_right, add_leaf, next_leaf, no_leaves}
use ppsp.Tree.Make.Entries.{
  entry, entry_of, entry_at, Holds, Holds-put, Holds-self, IsPut, insert-IsPut, Alike-refl,
  Alike-update, IsAbsent, IsAbsent-put, index,
}

add_right-IsPut :
    (idx : ℕ) (n : BTreeNode) (map : MerkleHashmap)
    → IsPut (pos idx) (entry_of n) map (add_right idx n map)
unfolding add_right
add_right-IsPut idx n map = elim (Option-cases (lookup (pos (idx - 2)) map)) [
  | inl e ↦ rw (add_right, e) (insert-IsPut (pos idx) n map map (Alike-refl map))
  | inr (m, e) ↦
      rw (add_right, e)
        (insert-IsPut (pos idx) _ _ map
          (Alike-update (pos (idx - 2)) _ map map (λ m. refl) (Alike-refl map)))
]

add_leaf-IsPut :
    (idx cidx : ℕ) (n : BTreeNode) (map : MerkleHashmap)
    → IsPut (pos idx) (entry_of n) map (add_leaf idx cidx n map)
unfolding add_leaf
add_leaf-IsPut idx cidx n map = elim (Bool-cases ((cidx + 1) % 2 == 0 && ltb 0 cidx)) [
  | inl e ↦ rw (add_leaf, e) (add_right-IsPut idx n map)
  | inr e ↦ rw (add_leaf, e) (insert-IsPut (pos idx) _ map map (Alike-refl map))
]

-- The leaves of the chunks before number `n`, and nothing else.
pub record IsLeaves (sha : Hasher) (mhf : ℕ) (leaf : ℕ → Hash) (n : ℕ) (m : Leaves) : Type 0 where
  pub held : (j : ℕ) → j < n → Holds sha mhf leaf m.map 0 j
  pub absent : IsAbsent m.map (n + n)
  pub sized : length m.map ≡ n
  pub next_idx : m.idx ≡ n + n
  pub next_cidx : m.cidx ≡ n

pub no_leaves-IsLeaves :
    (sha : Hasher) (mhf : ℕ) (leaf : ℕ → Hash) → IsLeaves sha mhf leaf 0 no_leaves
unfolding IsAbsent entry
no_leaves-IsLeaves sha mhf leaf = record {
  held = λ j l. absurd (omega arith);
  absent = λ j l. refl;
  sized = refl;
  next_idx = refl;
  next_cidx = refl;
}

module _ (sha : Hasher) (mhf : ℕ) (leaf : ℕ → Hash) where
  leaf_entry :
      (n : ℕ) (hash : Hash) (z : Bool)
      → hash ≡ leaf n
      → entry_of (leaf_node (n + n) n hash z) ≡ entry_at sha mhf leaf 0 n
  unfolding leaf_node tree_hash
  leaf_entry n hash z h = ground (arith, h)

  first_index : (n : ℕ) → n + n ≡ index 0 n
  first_index n = omega arith

  added :
      (n : ℕ) (hash : Hash) (z : Bool) (m : Leaves)
      → hash ≡ leaf n
      → IsLeaves sha mhf leaf n m
      → IsPut
          (pos (index 0 n))
          (entry_at sha mhf leaf 0 n)
          m.map
          (add_leaf m.idx m.cidx (leaf_node m.idx m.cidx hash z) m.map)
  added n hash z m h k =
      rw (k.next_idx, k.next_cidx, ← first_index n)
        (subst
          (λ e. IsPut (pos (n + n)) e m.map (add_leaf (n + n) n (leaf_node (n + n) n hash z) m.map))
          (leaf_entry n hash z h) (add_leaf-IsPut (n + n) n (leaf_node (n + n) n hash z) m.map))

  pub last_or_before : (j n : ℕ) → j < suc n → (j ≡ n) ⊎ (j < n)
  last_or_before j n l = omega arith

  pub next_leaf-IsLeaves :
      (n : ℕ) (hash : Hash) (ret : ℕ) (z : Bool) (m : Leaves)
      → hash ≡ leaf n
      → IsLeaves sha mhf leaf n m
      → IsLeaves sha mhf leaf (suc n) (next_leaf hash ret z m)
  unfolding next_leaf IsAbsent
  next_leaf-IsLeaves n hash ret z m h k =
      let p = added n hash z m h k in
      record {
        held = λ j l. elim (last_or_before j n l) [
          | inl e ↦
              subst
                (λ x.
                  Holds sha mhf leaf (add_leaf m.idx m.cidx (leaf_node m.idx m.cidx hash z) m.map) 0
                    x)
                (sym e) (Holds-self sha mhf leaf m.map _ 0 n p)
          | inr b ↦ Holds-put sha mhf leaf m.map _ 0 n 0 j p (k.held j b)
        ];
        absent =
            IsAbsent-put m.map _ _ (index 0 n) (n + n) (suc n + suc n) p k.absent (omega arith)
              (omega arith);
        sized =
            p.grown (
              subst (λ i. entry (pos i) m.map ≡ none) (first_index n)
                (k.absent (n + n) (omega arith)))
            ∙ ap suc k.sized;
        next_idx = omega (arith, k.next_idx);
        next_cidx = omega (arith, k.next_cidx);
      }
