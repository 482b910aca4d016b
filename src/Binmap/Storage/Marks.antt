-- ===== src/Binmap/Storage/Marks.antt =====
-- What SetData does to the map and to the marks.
use ppsp.Common.{
  ℕ, ◌<◌, ◌≡◌, refl, sym, subst, ◌⊎◌, inl, inr, ◌↔◌, Bool, true, false, Option, some, List, [],
  length, arith, Bool-cases,
}
use ppsp.Common.Int.{ℤ, pos, eqb_ℤ}
use ppsp.Binmap.{Binmap, set_have}
use ppsp.Binmap.Ranges.{Covers}
use ppsp.Binmap.SetHave.{Inv, set_have-single}
use ppsp.Binmap.Requests.{release_requested}
use ppsp.Binmap.Requests.Laws.{IsRequested}
use ppsp.Binmap.Requests.Marks.{release_requested_iff}
use ppsp.Binmap.Storage.{open_to_write, set_data}
use ppsp.Binmap.Storage.Laws.{single, single_marks, stores_single, open_to_write-opened}

open_to_write_form :
    (can_create : Bool) (b : Binmap)
    → (d : Option (List ℕ)) × (p : Bool) × (q : ℕ) × (open_to_write can_create b
        ≡ record b { disk = d; opened = p; position = q })
unfolding open_to_write
open_to_write_form can_create b = elim (Bool-cases b.opened) [
  | inl e ↦ (b.disk, b.opened, b.position, rw e refl)
  | inr e ↦ elim (Bool-cases can_create) [
    | inl f ↦ (some [], true, 0, rw (e, f) refl)
    | inr f ↦ (b.disk, b.opened, b.position, rw (e, f) refl)
  ]
]

-- The map that a write of chunk `n` makes of a map in good order.
abbrev pub HasStored : Binmap → ℕ → Binmap → Type 0
HasStored b n b' =
    Inv b'
    × ((i : ℤ) → Covers b'.chunk_range_list i ↔ (Covers b.chunk_range_list i ⊎ (i ≡ pos n)))
    × (¬ IsRequested b'.requested (pos n))

released : (b : Binmap) (n : ℕ) → ¬ IsRequested (release_requested b (pos n)).requested (pos n)
released b n x = elim ((release_requested_iff b (pos n) (pos n)).0 x).1 [
  | inl h ↦ absurd (omega arith)
  | inr h ↦ h refl
]

single-HasStored :
    (o : Binmap) (n k : ℕ) (payload : List ℕ)
    → 0 < length payload
    → Inv o
    → HasStored o n (single o n k payload)
single-HasStored o n k payload h v =
    let (l, c, r) = single_marks o n k payload h in
    let (w, i) = set_have-single o (pos n) v in
    (
      record {
        separated = rw l w.separated;
        cp_covered = λ j p q. rw l (w.cp_covered j p (rw c at q));
      },
      λ j. rw l (i j),
      λ x. released (set_have o (pos n) (pos n)) n (rw r at x),
    )

-- SetData with a chunk of the chunk size that is not the last one, on a map in good order whose
-- file is open or can be made, writes as many bytes as the chunk has, keeps the map in good order,
-- adds that chunk and no other to it, and takes away the mark of the chunk.
pub set_data-HasStored :
    (can_create : Bool) (b : Binmap) (n k : ℕ) (payload : List ℕ)
    → (b.opened ≡ true) ⊎ (can_create ≡ true)
    → 0 < k
    → length payload ≡ k
    → eqb_ℤ (pos n) b.last_chunk ≡ false
    → Inv b
    → (b' : Binmap) × (set_data can_create b (pos n) (pos n) (pos k) (some payload)
        ≡ some (b', pos k))
      × HasStored b n b'
set_data-HasStored can_create b n k payload c h l e v =
    let (d, p, q, f) = open_to_write_form can_create b in
    (
      single (open_to_write can_create b) n k payload,
      stores_single can_create b n k payload (open_to_write-opened can_create b c) l e,
      subst (λ (o : Binmap). HasStored b n (single o n k payload)) (sym f)
          (single-HasStored (record b { disk = d; opened = p; position = q }) n k payload
            (omega (arith, l)) (record { separated = v.separated; cp_covered = v.cp_covered })),
    )
