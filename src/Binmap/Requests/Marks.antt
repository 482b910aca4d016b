-- ===== src/Binmap/Requests/Marks.antt =====
-- What the marks of RequestedMap do to the choices of GetRequestData.
use ppsp.Common.{
  ◌≡◌, ◌≢◌, refl, sym, ◌∙◌, subst, fun_ext, ◌⊎◌, inl, inr, ◌↔◌, true, not, Option, none, some, List,
  [], ◌∷◌, arith, Bool-cases,
}
use ppsp.Common.Int.{ℤ, pos, ◌<ℤ◌, ltb_ℤ, eqb_ℤ, eqb_ℤ_iff}
use ppsp.Binmap.{Binmap}
use ppsp.Binmap.Requests.{
  is_have_data, set_requested, erase, release_requested, first_missing, next_request,
  get_request_data,
}
use ppsp.Binmap.Requests.Laws.{IsRequested, HasData}
use ppsp.Binmap.Requests.Picks.{Choice, next_request-Choice, set_requested-IsRequested}

pub set_requested-ranges :
    (b : Binmap) (i : ℤ) → (set_requested b i).0.chunk_range_list ≡ b.chunk_range_list
unfolding set_requested
set_requested-ranges b i = ground arith

pub choice-not-HasData : (b peer : Binmap) (j : ℤ) → next_request b peer ≡ some j → ¬ HasData b j
choice-not-HasData b peer j e = (subst (Choice b peer) e (next_request-Choice b peer)).1

-- Where some chunk is here, the choice right behind one, for this peer or for another, is another
-- chunk.
get_request_data_distinct :
    (b peer other : Binmap) (i j : ℤ)
    → b.chunk_range_list ≢ []
    → next_request b peer ≡ some i
    → next_request (get_request_data b peer).0 other ≡ some j
    → i ≢ j
unfolding get_request_data
get_request_data_distinct b peer other i j n e f same =
    choice-not-HasData (set_requested b i).0 other j (rw (e, get_request_data) at f) (
      subst (HasData (set_requested b i).0) same
        (inr (λ k. n (sym (set_requested-ranges b i) ∙ k), set_requested-IsRequested b i)))

is_have_data_empty :
    (b : Binmap) → b.chunk_range_list ≡ [] → (i : ℤ) → not (is_have_data b i) ≡ true
unfolding is_have_data
is_have_data_empty b e i = rw (e, is_have_data) refl

next_request_empty :
    (b peer : Binmap)
    → b.chunk_range_list ≡ []
    → b.cp <ℤ pos 0
    → next_request b peer ≡ first_missing (λ i. true) peer.chunk_range_list
unfolding next_request
next_request_empty b peer e c = rw (fun_ext (is_have_data_empty b e)) (ground arith)

set_requested-cp : (b : Binmap) (i : ℤ) → (set_requested b i).0.cp ≡ b.cp
unfolding set_requested
set_requested-cp b i = ground arith

-- While no chunk is here yet and CP is not set, the marks are not looked at: GetRequestData returns
-- for the same peer what it returned before, although the chunk is marked.
pub get_request_data_repeats :
    (b peer : Binmap)
    → b.chunk_range_list ≡ []
    → b.cp <ℤ pos 0
    → (get_request_data (get_request_data b peer).0 peer).1 ≡ (get_request_data b peer).1
unfolding get_request_data
get_request_data_repeats b peer e c = go (next_request b peer) refl
  where
    go :
        (m : Option ℤ)
        → next_request b peer ≡ m
        → (get_request_data (get_request_data b peer).0 peer).1 ≡ (get_request_data b peer).1
    go none k = rw (k, get_request_data) (rw (k, get_request_data) refl)
    go (some i) k = rw (k, get_request_data) (rw (again i k, get_request_data) refl)
      where
        again :
            (i : ℤ)
            → next_request b peer ≡ some i
            → next_request (set_requested b i).0 peer ≡ some i
        again i k =
            next_request_empty (set_requested b i).0 peer (set_requested-ranges b i ∙ e)
              (rw (set_requested-cp b i) c)
            ∙ sym (next_request_empty b peer e c)
            ∙ k

erase_iff : (ks : List ℤ) (i j : ℤ) → IsRequested (erase ks i) j ↔ (IsRequested ks j × (i ≢ j))
unfolding erase
erase_iff [] i j = (λ h. absurd h, λ h. absurd h.0)
erase_iff (k ∷ ks) i j = elim (Bool-cases (eqb_ℤ k i)) [
  | inl e ↦ rw e (
    λ h. (inr ((erase_iff ks i j).0 h).0, ((erase_iff ks i j).0 h).1),
    λ h. elim h.0 [
      | inl x ↦ absurd (h.1 (sym ((eqb_ℤ_iff k i).0 e) ∙ x))
      | inr x ↦ (erase_iff ks i j).1 (x, h.1)
    ],
  )
  | inr e ↦ rw e (
    λ h. elim h [
      | inl x ↦ (inl x, λ q. cc ((eqb_ℤ_iff k i).1 (x ∙ sym q), e))
      | inr x ↦ (inr ((erase_iff ks i j).0 x).0, ((erase_iff ks i j).0 x).1)
    ],
    λ h. elim h.0 [ inl x ↦ inl x | inr x ↦ inr ((erase_iff ks i j).1 (x, h.1)) ],
  )
]

-- Releasing a chunk takes away the mark of that chunk and no other; a negative number is ignored.
pub release_requested_iff :
    (b : Binmap) (i j : ℤ)
    → IsRequested (release_requested b i).requested j
      ↔ (IsRequested b.requested j × ((i <ℤ pos 0) ⊎ (i ≢ j)))
unfolding release_requested
release_requested_iff b i j = elim (Bool-cases (ltb_ℤ i (pos 0))) [
  | inl e ↦ rw e (λ h. (h, inl (ground arith)), λ h. h.0)
  | inr e ↦ rw e (
    λ h. (((erase_iff b.requested i j).0 h).0, inr ((erase_iff b.requested i j).0 h).1),
    λ h.
        (erase_iff b.requested i j).1 (h.0, elim h.1 [ inl x ↦ absurd (ground arith) | inr x ↦ x ]),
  )
]

-- A release touches the marks only.
pub release_requested_form :
    (b : Binmap) (i : ℤ) → (ks : List ℤ) × (release_requested b i ≡ record b { requested = ks })
unfolding release_requested
release_requested_form b i = elim (Bool-cases (ltb_ℤ i (pos 0))) [
  | inl e ↦ (b.requested, rw e refl)
  | inr e ↦ (erase b.requested i, rw e refl)
]
