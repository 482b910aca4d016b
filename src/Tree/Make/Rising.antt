-- ===== src/Tree/Make/Rising.antt =====
-- The loops of Make over the levels build the tree of the recursive definition.
use native.Mathlib.Nat.{mul-le-mul_left, mul-le-mul_right}
use ppsp.Common.{
  ℕ, zero, suc, ◌+◌, ◌-◌, ◌*◌, ◌^◌, ◌≤◌, ◌<◌, ◌≡◌, refl, ◌⊎◌, inl, inr, true, false, none, some,
  arith, ap, sym, ◌∙◌, subst, leb,
}
use ppsp.Common.Int.{pos}
use ppsp.Tree.Dict.{lookup}
use ppsp.Tree.Sha.{Hasher, Hash}
use ppsp.Tree.State.{BTreeNode, MerkleHashmap}
use ppsp.Tree.Check.Complete.{tree_hash}
use ppsp.Tree.Make.{Levels, merge_pair, merge_level, merge_levels}
use ppsp.Tree.Make.Entries.{Holds, lookup-none, IsAbsent, span, index, suc-span}
use ppsp.Tree.Make.Merging.{
  IsMerged, left_there, right_there, merged, merged-IsMerged, right_index, next_index, no_more,
  full_or_not, span_pow,
}

index_past : (l e i d : ℕ) → l + suc e ≡ d → i ≡ 2 ^ e → 2 ^ d + 2 ^ d ≤ index l (i + i)
index_past l e i d h z =
    let twice : 2 ^ suc e ≡ i + i = omega arith in
    let all : suc (span l) * (i + i) ≡ 2 ^ d =
      ap (λ x. suc (span l) * x) (sym twice) ∙ span_pow l (suc e) ∙ ap (λ x. 2 ^ x) h in
    omega arith

-- A round of the inner loop that finds both nodes.
round :
    (sha : Hasher) (mhf leaves gap fuel idx : ℕ) (left right : BTreeNode) (m : Levels)
    → lookup (pos idx) m.map ≡ some left
    → lookup (pos (idx + gap)) m.map ≡ some right
    → merge_level sha mhf leaves gap (suc fuel) idx m
      ≡ merge_level sha mhf leaves gap fuel
          (idx + gap + gap)
          (merge_pair sha mhf leaves gap idx left right m)
unfolding merge_level
round sha mhf leaves gap fuel idx left right m p q = rw (merge_level, p, q) refl

top_or_below : (l l' e : ℕ) {d : ℕ} → l' + e ≡ d → suc l ≡ d → (l' ≤ l) ⊎ ((l' ≡ suc l) × (e ≡ 0))
top_or_below l l' e s h = omega arith

at_most_suc : (l' l : ℕ) → l' ≤ suc l → (l' ≤ l) ⊎ (l' ≡ suc l)
at_most_suc l' l b = omega arith

module _ (sha : Hasher) (mhf : ℕ) (leaf : ℕ → Hash) (d : ℕ) where
  -- The inner loop merges the level to its end.
  Merged : ℕ → ℕ → ℕ → ℕ → Levels → Type 0
  Merged l e fuel idx m =
      (m' : Levels) × (merge_level sha mhf (2 ^ d) (suc (span l) * 2) fuel idx m ≡ some m')
      × IsMerged sha mhf leaf d l (2 ^ e) m'

  merge_level-IsMerged :
      (l e fuel i : ℕ) (m : Levels)
      → l + suc e ≡ d
      → i ≤ 2 ^ e
      → 2 ^ e < i + fuel
      → IsMerged sha mhf leaf d l i m
      → Merged l e fuel (index l (i + i)) m
  unfolding Merged merge_level IsAbsent merged
  merge_level-IsMerged l e zero i m h b f k = absurd (omega arith)
  merge_level-IsMerged l e (suc fuel) i m h b f k = elim (full_or_not i (2 ^ e) b) [
    | inl z ↦
        let past : lookup (pos (index l (i + i))) m.map ≡ none =
          lookup-none _ m.map (k.absent _ (index_past l e i d h z)) in
        (m, rw (merge_level, past) refl, subst (λ x. IsMerged sha mhf leaf d l x m) z k)
    | inr z ↦
        let (left, at_left, p) = left_there sha mhf leaf d l e i m h z k in
        let (right, at_right, q) = right_there sha mhf leaf d l e i m h z k in
        let k' = merged-IsMerged sha mhf leaf d l e i m h z k left right p q in
        let (m', r, t) = merge_level-IsMerged l e fuel (suc i) _ h (omega arith) (omega arith) k' in
        let gap = suc (span l) * 2 in
        let at_right' : lookup (pos (index l (i + i) + gap)) m.map ≡ some right =
          ap (λ x. lookup (pos x) m.map) (right_index l i) ∙ at_right in
        let step =
          round sha mhf (2 ^ d) gap fuel (index l (i + i)) left right m at_left at_right' in
        let moved = ap (λ x. x + gap) (right_index l i) ∙ next_index l i in
        (
          m',
          step
              ∙ ap
                  (λ x.
                    merge_level sha mhf (2 ^ d) gap fuel x
                      (merge_pair sha mhf (2 ^ d) gap (index l (i + i)) left right m))
                  moved
              ∙ r,
          t,
        )
  ]

  -- The tree of depth `d` with all its nodes, and nothing behind them.
  pub record IsTree (map : MerkleHashmap) : Type 0 where
    pub nodes : (l e j : ℕ) → l + e ≡ d → j < 2 ^ e → Holds sha mhf leaf map l j
    pub absent : IsAbsent map (2 ^ d + 2 ^ d)

  pub record IsDone (m : Levels) : Type 0 where
    pub tree : IsTree m.map
    pub hashed : m.hashout ≡ tree_hash sha mhf leaf d 0
    pub rooted : m.root ≡ some (pos (span d))

  unfoldable pub Finished : ℕ → ℕ → Levels → Type 0
  Finished fuel l m =
      (m' : Levels) × (merge_levels sha mhf (2 ^ d) fuel (span l) (suc (span l)) (suc (span l) * 2)
          m
        ≡ some m')
      × IsDone m'

  -- The test of the outer loop at the last level, and below it.
  test_over : (l : ℕ) → l ≡ d → leb (2 ^ d) (span l + 1) ≡ true
  test_over l h = let w = suc-span l in let p = ap (λ x. 2 ^ x) h in ground arith

  test_on : (l e : ℕ) → l + suc e ≡ d → leb (2 ^ d) (span l + 1) ≡ false
  test_on l e h =
      let all : suc (span l) * 2 ^ suc e ≡ 2 ^ d = span_pow l (suc e) ∙ ap (λ x. 2 ^ x) h in
      let w = suc-span e in
      let two : 2 ≤ 2 ^ suc e = omega arith in
      let part : suc (span l) * 2 ≤ suc (span l) * 2 ^ suc e = mul-le-mul_left (suc (span l)) two in
      let more : span l + 1 < 2 ^ d = omega arith in ground (arith, more)

  merged_all : (l i : ℕ) (m : Levels) → suc l ≡ d → i ≡ 1 → IsMerged sha mhf leaf d l i m → IsDone m
  merged_all l i m h z k = record {
    tree = record {
      nodes = λ l' e j s b. elim (top_or_below l l' e s h) [
        | inl t ↦ k.held l' e j s t b
        | inr (t, u) ↦
            let first : 0 ≡ j = sym (no_more e j u b) in
            subst (λ x. Holds sha mhf leaf m.map x j) (sym t)
              (subst (λ x. Holds sha mhf leaf m.map (suc l) x) first (k.next 0 (omega arith)))
      ];
      absent = k.absent;
    };
    hashed = k.last 0 z ∙ ap (λ x. tree_hash sha mhf leaf x 0) h;
    rooted = k.rooted h (omega arith);
  }

  next_level :
      (l e : ℕ) (m : Levels)
      → l + suc e ≡ d
      → IsMerged sha mhf leaf d l (2 ^ e) m
      → IsMerged sha mhf leaf d (suc l) 0 m
  next_level l e m h k = record {
    held = λ l' e' j s b n. elim (at_most_suc l' l b) [
      | inl t ↦ k.held l' e' j s t n
      | inr t ↦
          let same : e' ≡ e = omega arith in
          subst (λ x. Holds sha mhf leaf m.map x j) (sym t)
            (k.next j (subst (λ x. j < 2 ^ x) same n))
    ];
    next = λ j b. absurd (omega arith);
    absent = k.absent;
    last = λ j z. absurd (omega arith);
    rooted = λ s b. absurd (omega arith);
  }

  over :
      (fuel l : ℕ) (m : Levels)
      → l ≡ d
      → merge_levels sha mhf (2 ^ d) (suc fuel) (span l) (suc (span l)) (suc (span l) * 2) m
        ≡ some m
  unfolding merge_levels
  over fuel l m h = rw (merge_levels, test_over l h) refl

  -- A round of the outer loop.
  level_done :
      (fuel l e : ℕ) (m m' : Levels)
      → l + suc e ≡ d
      → merge_level sha mhf (2 ^ d) (suc (span l) * 2) (suc (2 ^ d)) (span l) m ≡ some m'
      → merge_levels sha mhf (2 ^ d) (suc fuel) (span l) (suc (span l)) (suc (span l) * 2) m
        ≡ merge_levels sha mhf
            (2 ^ d)
            fuel
            (span (suc l))
            (suc (span (suc l)))
            (suc (span (suc l)) * 2)
            m'
  unfolding merge_levels
  level_done fuel l e m m' h r =
      let p : suc (span l) * 2 - 1 ≡ span (suc l) = omega arith in
      let q : suc (span l) * 2 ≡ suc (span (suc l)) = omega arith in
      rw (merge_levels, test_on l e h, r)
        (ap (λ x. merge_levels sha mhf (2 ^ d) fuel x (suc (span l) * 2) (suc (span l) * 2 * 2) m')
            p
          ∙ ap (λ x. merge_levels sha mhf (2 ^ d) fuel (span (suc l)) x (x * 2) m') q)

  level-IsMerged :
      (l e : ℕ) (m : Levels)
      → l + suc e ≡ d
      → IsMerged sha mhf leaf d l 0 m
      → (m' : Levels) × (merge_level sha mhf (2 ^ d) (suc (span l) * 2) (suc (2 ^ d)) (span l) m
          ≡ some m')
        × IsMerged sha mhf leaf d l (2 ^ e) m'
  unfolding Merged
  level-IsMerged l e m h k =
      let start : index l (0 + 0) ≡ span l = omega arith in
      let all = span_pow l (suc e) ∙ ap (λ x. 2 ^ x) h in
      let part : 1 * 2 ^ suc e ≤ suc (span l) * 2 ^ suc e =
        mul-le-mul_right (2 ^ suc e) (omega arith) in
      let enough : 2 ^ e < 0 + suc (2 ^ d) = omega arith in
      subst
        (λ x.
          (m' : Levels) × (merge_level sha mhf (2 ^ d) (suc (span l) * 2) (suc (2 ^ d)) x m
            ≡ some m')
          × IsMerged sha mhf leaf d l (2 ^ e) m')
        start (merge_level-IsMerged l e (suc (2 ^ d)) 0 m h (omega arith) enough k)

  pub merge_levels-IsDone :
      (e fuel l : ℕ) (m : Levels)
      → l + suc e ≡ d
      → suc e < fuel
      → IsMerged sha mhf leaf d l 0 m
      → Finished fuel l m
  unfolding Finished
  merge_levels-IsDone e zero l m h f k = absurd (omega arith)
  merge_levels-IsDone e (suc zero) l m h f k = absurd (omega arith)
  merge_levels-IsDone zero (suc (suc fuel)) l m h f k =
      let (m', r, t) = level-IsMerged l 0 m h k in
      let top : suc l ≡ d = omega arith in
      (
        m',
        level_done (suc fuel) l 0 m m' h r ∙ over fuel (suc l) m' top,
        merged_all l 1 m' top refl t,
      )
  merge_levels-IsDone (suc e) (suc (suc fuel)) l m h f k =
      let (m', r, t) = level-IsMerged l (suc e) m h k in
      let above : suc l + suc e ≡ d = omega arith in
      let (m'', r', done) =
        merge_levels-IsDone e (suc fuel) (suc l) m' above (omega arith)
          (next_level l (suc e) m' h t) in
      (m'', level_done (suc fuel) l (suc e) m m' h r ∙ r', done)
