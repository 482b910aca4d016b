-- ===== src/Tree/Make/Merging.antt =====
-- One step of the loops of Make over the levels: a pair of nodes is merged.
use native.Mathlib.Nat.{mul-le-mul_left}
use ppsp.Common.{
  ℕ, zero, suc, ◌+◌, ◌-◌, ◌*◌, ◌/◌, ◌^◌, ◌≤◌, ◌<◌, ◌≡◌, refl, ◌⊎◌, inl, inr, true, some, arith, ap,
  sym, ◌∙◌, subst, ◌==◌, ==_iff, branch_true,
}
use ppsp.Common.Int.{pos}
use ppsp.Tree.Dict.{lookup}
use ppsp.Tree.Sha.{Hasher, Hash, sha_encrypt_lr}
use ppsp.Tree.State.{BTreeNode}
use ppsp.Tree.Check.Climb.{spans_twice}
use ppsp.Tree.Check.Complete.{tree_hash}
use ppsp.Tree.Make.{Levels, parent_node, merge_pair}
use ppsp.Tree.Make.Entries.{
  Entry, entry_of, entry_at, Holds, Holds-put, Holds-self, lookup-entry, IsPut, insert-IsPut,
  Alike-refl, Alike-update, IsAbsent, IsAbsent-put, span, index, suc-span,
}

pub right_index : (l i : ℕ) → index l (i + i) + suc (span l) * 2 ≡ index l (i + i + 1)
right_index l i = omega arith

pub next_index : (l i : ℕ) → index l (i + i + 1) + suc (span l) * 2 ≡ index l (suc i + suc i)
next_index l i = omega arith

parent_index :
    (l i : ℕ)
    → (index l (i + i + 1) + (index l (i + i + 1) - suc (span l) * 2)) / 2 ≡ index (suc l) i
parent_index l i = omega arith

abbrev parent_idx : ℕ → ℕ → ℕ
parent_idx l i =
    let idx = index l (i + i) + suc (span l) * 2 in (idx + (idx - suc (span l) * 2)) / 2

place : (l i : ℕ) → parent_idx l i ≡ index (suc l) i
place l i = ap (λ x. (x + (x - suc (span l) * 2)) / 2) (right_index l i) ∙ parent_index l i

pub no_more : (e i : ℕ) → e ≡ 0 → i < 2 ^ e → i ≡ 0
no_more zero i h b = omega arith
no_more (suc e) i h b = absurd (omega arith)

pub span_pow : (l e : ℕ) → suc (span l) * 2 ^ e ≡ 2 ^ (l + e)
span_pow zero e =
    let h : e ≡ 0 + e = omega arith in
    let p : 1 * 2 ^ e ≡ 2 ^ e = omega arith in p ∙ ap (λ x. 2 ^ x) h
span_pow (suc l) e =
    let h : l + suc e ≡ suc l + e = omega arith in
    spans_twice (span l) e ∙ span_pow l (suc e) ∙ ap (λ x. 2 ^ x) h

index_below : (l e j d : ℕ) → l + e ≡ d → j < 2 ^ e → index l j < 2 ^ d + 2 ^ d
index_below l e j d h b =
    let all : suc (span l) * 2 ^ e ≡ 2 ^ d = span_pow l e ∙ ap (λ x. 2 ^ x) h in
    let some_of : suc (span l) * suc j ≤ suc (span l) * 2 ^ e = mul-le-mul_left (suc (span l)) b in
    omega arith

last_or_before : (j n : ℕ) → j < suc n → (j ≡ n) ⊎ (j < n)
last_or_before j n l = omega arith

pub full_or_not : (i n : ℕ) → i ≤ n → (i ≡ n) ⊎ (i < n)
full_or_not i n h = omega arith

pub suc_inside : {a b : ℕ} → suc a ≡ suc b → a ≡ b
suc_inside h = omega arith

module _ (sha : Hasher) (mhf : ℕ) (leaf : ℕ → Hash) (d : ℕ) where
  -- The levels up to `l`, and the first `i` nodes of the next one.
  pub record IsMerged (l i : ℕ) (m : Levels) : Type 0 where
    pub held : (l' e j : ℕ) → l' + e ≡ d → l' ≤ l → j < 2 ^ e → Holds sha mhf leaf m.map l' j
    pub next : (j : ℕ) → j < i → Holds sha mhf leaf m.map (suc l) j
    pub absent : IsAbsent m.map (2 ^ d + 2 ^ d)
    pub last : (j : ℕ) → i ≡ suc j → m.hashout ≡ tree_hash sha mhf leaf (suc l) j
    pub rooted : suc l ≡ d → 0 < i → m.root ≡ some (pos (span d))

  module _ (l e i : ℕ) (m : Levels) (height : l + suc e ≡ d) (inside : i < 2 ^ e)
      (k : IsMerged l i m) where
    pub left_there :
        (n : BTreeNode) × (lookup (pos (index l (i + i))) m.map ≡ some n)
        × (entry_of n ≡ entry_at sha mhf leaf l (i + i))
    unfolding Holds
    left_there =
        lookup-entry _ m.map _ (k.held l (suc e) (i + i) height (omega arith) (omega arith))

    pub right_there :
        (n : BTreeNode) × (lookup (pos (index l (i + i + 1))) m.map ≡ some n)
        × (entry_of n ≡ entry_at sha mhf leaf l (i + i + 1))
    unfolding Holds
    right_there =
        lookup-entry _ m.map _ (k.held l (suc e) (i + i + 1) height (omega arith) (omega arith))

    module _ (left right : BTreeNode) (p : entry_of left ≡ entry_at sha mhf leaf l (i + i))
        (q : entry_of right ≡ entry_at sha mhf leaf l (i + i + 1)) where
      above_hash : sha_encrypt_lr sha mhf left.hash right.hash ≡ tree_hash sha mhf leaf (suc l) i
      unfolding tree_hash
      above_hash =
          ap (λ (x : Entry). sha_encrypt_lr sha mhf x.hash right.hash) p
          ∙ ap (λ (x : Entry). sha_encrypt_lr sha mhf (tree_hash sha mhf leaf l (i + i)) x.hash) q

      parent_entry :
          (leaves a b c : ℕ) (hash : Hash)
          → hash ≡ tree_hash sha mhf leaf (suc l) i
          → entry_of (parent_node leaves a b c left right hash) ≡ entry_at sha mhf leaf (suc l) i
      unfolding parent_node
      parent_entry leaves a b c hash h =
          let s : left.start_chunk ≡ pos (suc (span (suc l)) * i) =
            ap (λ (x : Entry). x.start) p ∙ ap pos (omega arith) in
          let t : right.end_chunk ≡ pos (suc (span (suc l)) * i + span (suc l)) =
            ap (λ (x : Entry). x.end) q ∙ ap pos (omega arith) in
          rw (h, s, t) refl

      unfoldable pub merged : Levels
      merged = merge_pair sha mhf (2 ^ d) (suc (span l) * 2) (index l (i + i)) left right m

      merged-IsPut :
          IsPut (pos (index (suc l) i)) (entry_at sha mhf leaf (suc l) i) m.map merged.map
      unfolding merged merge_pair
      merged-IsPut =
          subst (λ x. IsPut (pos x) (entry_at sha mhf leaf (suc l) i) m.map merged.map) (place l i)
            (subst (λ x. IsPut (pos (parent_idx l i)) x m.map merged.map)
              (parent_entry (2 ^ d) (index l (i + i)) _ (parent_idx l i) _ above_hash)
              (insert-IsPut (pos (parent_idx l i)) _ _ m.map (
                Alike-update (pos (index l (i + i) + suc (span l) * 2)) _ _ m.map (λ n. refl)
                  (Alike-update (pos (index l (i + i))) _ m.map m.map (λ n. refl)
                    (Alike-refl m.map)))))

      merged_root : suc l ≡ d → merged.root ≡ some (pos (span d))
      unfolding merged merge_pair
      merged_root h =
          let below : e ≡ 0 = omega arith in
          let first : i ≡ 0 = no_more e i below inside in
          let start : index (suc l) 0 ≡ span (suc l) = omega arith in
          let top = place l i ∙ ap (index (suc l)) first ∙ start ∙ ap span h in
          let whole = suc-span d in
          let test : (parent_idx l i + 1 == 2 ^ d) ≡ true =
            (==_iff (parent_idx l i + 1) (2 ^ d)).1 (omega arith) in
          branch_true (some (pos (parent_idx l i))) m.root test ∙ ap (λ x. some (pos x)) top

      pub merged-IsMerged : IsMerged l (suc i) merged
      unfolding merged merge_pair
      merged-IsMerged = record {
        held = λ l' e' j h b n.
            Holds-put sha mhf leaf m.map merged.map (suc l) i l' j merged-IsPut
              (k.held l' e' j h b n);
        next = λ j b. elim (last_or_before j i b) [
          | inl z ↦
              subst (λ x. Holds sha mhf leaf merged.map (suc l) x) (sym z)
                (Holds-self sha mhf leaf m.map merged.map (suc l) i merged-IsPut)
          | inr z ↦
              Holds-put sha mhf leaf m.map merged.map (suc l) i (suc l) j merged-IsPut (k.next j z)
        ];
        absent =
            IsAbsent-put m.map merged.map _ (index (suc l) i) (2 ^ d + 2 ^ d) (2 ^ d + 2 ^ d)
              merged-IsPut k.absent (omega arith) (index_below (suc l) e i d (omega arith) inside);
        last = λ j h. above_hash ∙ ap (tree_hash sha mhf leaf (suc l)) (suc_inside h);
        rooted = λ h b. merged_root h;
      }
