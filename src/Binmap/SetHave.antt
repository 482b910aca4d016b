-- ===== src/Binmap/SetHave.antt =====
-- What SetHave does to the set of chunks.
use ppsp.Common.{
  ◌≡◌, refl, subst, ◌⊎◌, inl, inr, ◌↔◌, List, [], ◌∷◌, ◌++◌, arith, Option, none, some, append-nil,
}
use ppsp.Common.Int.{ℤ, pos, ◌≤ℤ◌, eq_of_parts}
use ppsp.Binmap.{
  Range, Binmap, Found, held, missing, changed, find_changed, merge_first, cp_changed, set_have,
}
use ppsp.Binmap.Ranges.{
  Between, InRange, Covers, AllRanges, AllApart, Separated, Covers-middle, Separated-remove,
  Separated-insert, AllRanges-remove, AllRanges-insert,
}
use ppsp.Binmap.Loops.{IsHull, new_range, IsHull-IsRange, IsHull-InRange, Finds, find_changed-Finds}
use ppsp.Binmap.MergeLaws.{Sound, merge_first-Sound, merge_first-Merges}
use ppsp.Binmap.Single.{Adds, or_keep, or_keep-Adds, merge_more-or_keep}

-- The ranges are those that a set of chunks falls into, and all chunks from 0 to CP are there.
pub record Inv (b : Binmap) : Type 0 where
  pub separated : Separated b.chunk_range_list
  pub cp_covered : (i : ℤ) → pos 0 ≤ℤ i → i ≤ℤ b.cp → Covers b.chunk_range_list i

Separated-AllRanges : (l : List Range) → Separated l → AllRanges l
Separated-AllRanges [] s = tt
Separated-AllRanges (r ∷ l) s = (s.0, Separated-AllRanges l s.2)

Covers-last :
    (l : List Range) (r : Range) (i : ℤ) → Covers (l ++ (r ∷ [])) i ↔ (Covers l i ⊎ InRange r i)
Covers-last l r i = (
  λ k. elim ((Covers-middle l r [] i).0 k) [ inl x ↦ inr x | inr x ↦ inl (rw append-nil at x) ],
  λ k. (Covers-middle l r [] i).1 (elim k [ inl x ↦ inr (rw append-nil x) | inr x ↦ inl x ]),
)

-- The chunk that is found is held already, starts a range of its own, or makes one grow.
find-Adds :
    (b : Binmap) (c : ℤ) (f : Found)
    → find_changed b.chunk_range_list c c ≡ f
    → Separated b.chunk_range_list
    → Finds b.chunk_range_list c c f
    → Adds b.chunk_range_list b.cp c (set_have b c c).chunk_range_list (set_have b c c).cp
unfolding set_have
find-Adds b c held e s f =
    rw (e, set_have)
      (record {
        separated = s;
        covers = λ i. (λ k. inl k, λ k. elim k [ inl x ↦ x | inr x ↦ f i x ]);
        cp_covered = λ i p k. inl k;
      })
find-Adds b c missing e s f =
    rw (e, set_have)
      (record {
        separated =
            Separated-insert b.chunk_range_list (new_range c c) [] (omega arith) (rw append-nil f)
              (rw append-nil s);
        covers = λ i. Covers-last b.chunk_range_list (new_range c c) i;
        cp_covered = λ i p k. inl k;
      })
find-Adds b c (changed before r after) e s (it, split, v, hull) =
    rw (e, set_have)
      (rw
        (merge_more-or_keep before r after (cp_changed r b.cp)
          (IsHull-IsRange r it (new_range c c) hull v))
        (or_keep-Adds before after b.cp split s' hull
          (merge_first r (before ++ after) (cp_changed r b.cp))
          (merge_first-Merges r it c (cp_changed r b.cp) (before ++ after) hull v others.1
            others.0)))
  where
    s' : Separated (before ++ (it ∷ after))
    s' = subst Separated split s

    others : AllApart it (before ++ after) × Separated (before ++ after)
    others = ((Separated-remove before it after s').1, (Separated-remove before it after s').2)

-- Adding a single chunk to a map in good order keeps it in good order, and adds that chunk and no
-- other: no gap is left between ranges that touch, and the chunks from 0 to CP are all there.
pub set_have-single :
    (b : Binmap) (c : ℤ)
    → Inv b
    → Inv (set_have b c c)
      × ((i : ℤ)
          → Covers (set_have b c c).chunk_range_list i ↔ (Covers b.chunk_range_list i ⊎ (i ≡ c)))
set_have-single b c v = (
  record {
    separated = a.separated;
    cp_covered = λ i p k. elim (a.cp_covered i p k) [
      | inl x ↦ (a.covers i).1 (inl (v.cp_covered i p x))
      | inr x ↦ x
    ];
  },
  λ i. (
    λ k. elim ((a.covers i).0 k) [ inl x ↦ inl x | inr x ↦ inr (eq_of_parts i c (omega arith)) ],
    λ k. (a.covers i).1 (elim k [ inl x ↦ inl x | inr x ↦ inr (rw x (omega arith)) ]),
  ),
)
  where
    a : Adds b.chunk_range_list b.cp c (set_have b c c).chunk_range_list (set_have b c c).cp
    a = find-Adds b c (find_changed b.chunk_range_list c c) refl v.separated (
        find_changed-Finds b.chunk_range_list c c
          (Separated-AllRanges b.chunk_range_list v.separated) (omega arith))

changed_sets :
    (l before : List Range) (it r : Range) (after : List Range) (s e cp : ℤ)
    → l ≡ before ++ (it ∷ after)
    → AllRanges (before ++ (it ∷ after))
    → s ≤ℤ e
    → IsHull r it (new_range s e)
    → (m : Option (List Range × ℤ)) → Sound r (before ++ after) m
    → AllRanges (or_keep before r after cp m).0
      × ((i : ℤ) → Covers (or_keep before r after cp m).0 i → Covers l i ⊎ Between s e i)
changed_sets l before it r after s e cp split v le hull m k = rw split (go m k)
  where
    parts : (i : ℤ) → InRange r i → InRange it i ⊎ Between s e i
    parts i =
        (IsHull-InRange r it (new_range s e) i hull (AllRanges-remove before it after v).0 le).0

    grown-part : (i : ℤ) → InRange r i → Covers (before ++ (it ∷ after)) i ⊎ Between s e i
    grown-part i x = elim (parts i x) [
      | inl y ↦ inl ((Covers-middle before it after i).1 (inl y))
      | inr y ↦ inr y
    ]

    other-part : (i : ℤ) → Covers (before ++ after) i → Covers (before ++ (it ∷ after)) i
    other-part i x = (Covers-middle before it after i).1 (inr x)

    go :
        (m : Option (List Range × ℤ))
        → Sound r (before ++ after) m
        → AllRanges (or_keep before r after cp m).0
          × ((i : ℤ)
              → Covers (or_keep before r after cp m).0 i
              → Covers (before ++ (it ∷ after)) i ⊎ Between s e i)
    go none k = (
      AllRanges-insert before r after
          (IsHull-IsRange r it (new_range s e) hull (AllRanges-remove before it after v).0)
          (AllRanges-remove before it after v).1,
      λ i x. elim ((Covers-middle before r after i).0 x) [
        | inl y ↦ grown-part i y
        | inr y ↦ inl (other-part i y)
      ],
    )
    go (some (l', cp')) k =
        (k.0, λ i x. elim (k.1 i x) [ inl y ↦ inl (other-part i y) | inr y ↦ grown-part i y ])

found_sets :
    (b : Binmap) (s e : ℤ) (f : Found)
    → find_changed b.chunk_range_list s e ≡ f
    → AllRanges b.chunk_range_list
    → s ≤ℤ e
    → Finds b.chunk_range_list s e f
    → AllRanges (set_have b s e).chunk_range_list
      × ((i : ℤ)
          → Covers (set_have b s e).chunk_range_list i
          → Covers b.chunk_range_list i ⊎ Between s e i)
unfolding set_have
found_sets b s e held q v le f = rw (q, set_have) (v, λ i k. inl k)
found_sets b s e missing q v le f =
    rw (q, set_have)
      (
        AllRanges-insert b.chunk_range_list (new_range s e) [] le (rw append-nil v),
        λ i. (Covers-last b.chunk_range_list (new_range s e) i).0,
      )
found_sets b s e (changed before r after) q v le (it, split, w, hull) =
    rw (q, set_have)
      (rw
        (merge_more-or_keep before r after (cp_changed r b.cp)
          (IsHull-IsRange r it (new_range s e) hull w))
        (changed_sets b.chunk_range_list before it r after s e (cp_changed r b.cp) split v' le hull
          (merge_first r (before ++ after) (cp_changed r b.cp))
          (merge_first-Sound r (before ++ after) (cp_changed r b.cp)
            (IsHull-IsRange r it (new_range s e) hull w) (AllRanges-remove before it after v').1)))
  where
    v' : AllRanges (before ++ (it ∷ after))
    v' = subst AllRanges split v

-- Adding a range that is not empty to ranges that are not empty leaves ranges that are not empty,
-- and no chunk is claimed that was neither there nor in the range that is added.
pub set_have_sound :
    (b : Binmap) (s e : ℤ)
    → AllRanges b.chunk_range_list
    → s ≤ℤ e
    → AllRanges (set_have b s e).chunk_range_list
      × ((i : ℤ)
          → Covers (set_have b s e).chunk_range_list i
          → Covers b.chunk_range_list i ⊎ Between s e i)
set_have_sound b s e v le =
    found_sets b s e (find_changed b.chunk_range_list s e) refl v le
      (find_changed-Finds b.chunk_range_list s e v le)
