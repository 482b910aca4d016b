-- ===== src/Binmap/Requests/Later.antt =====
-- What happens to a map between a choice of GetRequestData and a later one.
use ppsp.Common.{
  ◌≡◌, refl, ◌≢◌, inl, inr, Bool, Option, none, some, List, [], ◌∷◌, ◌++◌, arith, sym, ◌∙◌, subst,
  Option-cases, branch_both, Gives, Gives-some, Gives-none, Gives-then,
}
use ppsp.Common.Int.{ℤ}
use ppsp.Binmap.{
  Range, Binmap, Found, held, missing, changed, find_changed, merge, merge_first, merge_all,
  merge_more, cp_changed, set_have,
}
use ppsp.Binmap.Requests.{
  is_requested, set_requested, release_requested, next_request, get_request_data,
}
use ppsp.Binmap.Requests.Laws.{IsRequested, HasData}
use ppsp.Binmap.Requests.Picks.{get_request_data_cases, set_requested-IsRequested}
use ppsp.Binmap.Requests.Keeps.{get_request_data-IsKept, release_requested-IsKept}
use ppsp.Binmap.Requests.Marks.{release_requested_iff, set_requested-ranges, choice-not-HasData}

-- One operation on the map other than the release of chunk `i`: a choice for some peer, SetHave, or
-- the release of another chunk.
pub data Step (i : ℤ) : Binmap → Binmap → Type 0 where
  ask : {b : Binmap} (peer : Binmap) → Step i b (get_request_data b peer).0
  have : {b : Binmap} (start end : ℤ) → Step i b (set_have b start end)
  release : {b : Binmap} (k : ℤ) → k ≢ i → Step i b (release_requested b k)

-- Any number of such operations.
pub data Reach (i : ℤ) (b : Binmap) : Binmap → Type 0 where
  here : Reach i b b
  next : {c d : Binmap} → Reach i b c → Step i c d → Reach i b d

-- A list with a range is not empty.
head_there : (r : Range) (l : List Range) → r ∷ l ≢ []
head_there r l e = ground (arith, e)

left_there : (l m : List Range) → l ≢ [] → l ++ m ≢ []
left_there [] m h = absurd (h refl)
left_there (r ∷ l) m h = head_there r (l ++ m)

right_there : (l m : List Range) → m ≢ [] → l ++ m ≢ []
right_there [] m h = h
right_there (r ∷ l) m h = head_there r (l ++ m)

IsFilled : List Range × ℤ → Type 0
IsFilled r = r.0 ≢ []

merge_first-IsFilled :
    (change : Range) (l : List Range) (cp : ℤ) → Gives IsFilled (merge_first change l cp)
unfolding merge_first IsFilled
merge_first-IsFilled change [] cp = Gives-none IsFilled
merge_first-IsFilled change (it ∷ rest) cp =
    branch_both (Gives IsFilled) (merge change it cp).set _ _
      (Gives-some IsFilled _ (head_there _ rest))
      (Gives-then IsFilled (merge_first change rest cp) _
        (λ r. Gives-some IsFilled _ (head_there it r.0)))

behind-IsFilled :
    (before : List Range) (change : Range) (after : List Range) (cp : ℤ)
    (o : Option (List Range × ℤ))
    → Gives IsFilled o
    → IsFilled (elim o [
      | some (after', cp') ↦ (before ++ after', cp')
      | none ↦ (before ++ (change ∷ after), cp)
    ])
unfolding IsFilled Gives
behind-IsFilled before change after cp none g = right_there before _ (head_there change after)
behind-IsFilled before change after cp (some r) g = right_there before r.0 (g r refl)

merge_all-IsFilled :
    (before : List Range) (change : Range) (after : List Range) (cp : ℤ)
    → before ++ after ≢ []
    → IsFilled (merge_all before change after cp)
unfolding merge_all IsFilled Gives
merge_all-IsFilled before change after cp h = elim (Option-cases (merge_first change before cp)) [
  | inr (r, e) ↦
      rw (merge_all, e) (left_there r.0 after (merge_first-IsFilled change before cp r e))
  | inl e ↦
      rw (merge_all, e)
        (branch_both IsFilled (merge change change cp).set _ _ h (
          behind-IsFilled before change after cp (merge_first change after cp)
            (merge_first-IsFilled change after cp)))
]

merge_more-IsFilled :
    (before : List Range) (change : Range) (after : List Range) (cp : ℤ)
    → IsFilled (merge_more before change after cp)
unfolding IsFilled
merge_more-IsFilled [] change [] cp = head_there change []
merge_more-IsFilled [] change (r ∷ after) cp =
    merge_all-IsFilled [] change (r ∷ after) cp (head_there r after)
merge_more-IsFilled (r ∷ before) change after cp =
    merge_all-IsFilled (r ∷ before) change after cp (head_there r (before ++ after))

-- Some chunk is here, and chunk `i` is marked.
IsMarked : ℤ → Binmap → Type 0
IsMarked i b = (b.chunk_range_list ≢ []) × IsRequested b.requested i

set_have-IsMarked :
    (i : ℤ) (b : Binmap) (start end : ℤ) → IsMarked i b → IsMarked i (set_have b start end)
unfolding set_have IsMarked IsFilled
set_have-IsMarked i b start end k = by_found (find_changed b.chunk_range_list start end) refl
  where
    by_found :
        (f : Found)
        → find_changed b.chunk_range_list start end ≡ f
        → IsMarked i (set_have b start end)
    by_found held q = rw (set_have, q) k
    by_found missing q = rw (set_have, q) (left_there _ _ k.0, k.1)
    by_found (changed before r after) q =
        rw (set_have, q) (merge_more-IsFilled before r after (cp_changed r b.cp), k.1)

set_requested-keeps :
    (b : Binmap) (i j : ℤ)
    → IsRequested b.requested i
    → IsRequested (set_requested b j).0.requested i
unfolding set_requested
set_requested-keeps b i j k =
    branch_both (λ (r : Binmap × Bool). IsRequested r.0.requested i) (is_requested b.requested j) _
      _ k (inr k)

ask-IsMarked : (i : ℤ) (b peer : Binmap) → IsMarked i b → IsMarked i (get_request_data b peer).0
unfolding IsMarked
ask-IsMarked i b peer k = (
  λ e. k.0 (sym (get_request_data-IsKept b peer).ranges ∙ e),
  elim (get_request_data_cases b peer) [
    | inl (e, n) ↦ subst (λ (r : Binmap × ℤ). IsRequested r.0.requested i) (sym e) k.1
    | inr (j, e, m, p) ↦
        subst (λ (r : Binmap × ℤ). IsRequested r.0.requested i) (sym e)
          (set_requested-keeps b i j k.1)
  ],
)

Step-IsMarked : {i : ℤ} {b c : Binmap} → Step i b c → IsMarked i b → IsMarked i c
unfolding IsMarked
Step-IsMarked {i} (ask {b} peer) k = ask-IsMarked i b peer k
Step-IsMarked {i} (have {b} start end) k = set_have-IsMarked i b start end k
Step-IsMarked {i} (release {b} j n) k = (
  λ e. k.0 (sym (release_requested-IsKept b j).ranges ∙ e),
  (release_requested_iff b j i).1 (k.1, inr n),
)

Reach-IsMarked : {i : ℤ} {b c : Binmap} → IsMarked i b → Reach i b c → IsMarked i c
Reach-IsMarked k here = k
Reach-IsMarked k (next r s) = Step-IsMarked s (Reach-IsMarked k r)

-- Where some chunk is here, a chunk that GetRequestData picks for one peer is not picked again, for
-- this peer or for another, by a later call, whatever choices, calls of SetHave and releases of
-- other chunks come between.
pub get_request_data_never_twice :
    (b peer other b' : Binmap) (i j : ℤ)
    → b.chunk_range_list ≢ []
    → next_request b peer ≡ some i
    → Reach i (get_request_data b peer).0 b'
    → next_request b' other ≡ some j
    → i ≢ j
unfolding get_request_data IsMarked
get_request_data_never_twice b peer other b' i j n e r f same =
    let marked : IsMarked i (get_request_data b peer).0 =
      rw (get_request_data, e)
        (λ q. n (sym (set_requested-ranges b i) ∙ q), set_requested-IsRequested b i) in
    choice-not-HasData b' other j f (subst (HasData b') same (inr (Reach-IsMarked marked r)))
