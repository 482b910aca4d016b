-- ===== src/Binmap/Storage/Laws.antt =====
-- What is read from the file after a write.
use ppsp.Common.{
  ℕ, zero, suc, ◌+◌, ◌*◌, ◌≤◌, ◌<◌, ◌≡◌, ◌≢◌, refl, ap, sym, ◌∙◌, ◌⊎◌, inl, inr, Bool, true, false,
  some, List, [], ◌∷◌, ◌++◌, length, take, drop, arith, ltb, Bool-cases,
}
use native.Mathlib.Nat.{mul-le-mul_left, mul_comm}
use ppsp.Common.Int.{times_pos, ℤ, pos, ◌+ℤ◌, ◌-ℤ◌, ◌*ℤ◌, eqb_ℤ}
use ppsp.Binmap.{
  Range, Binmap, Found, held, missing, changed, find_changed, merge_more, cp_changed, set_have,
}
use ppsp.Binmap.Requests.{release_requested, rounds}
use ppsp.Binmap.Requests.Marks.{release_requested_form}
use ppsp.Message.Buffer.{copy_out-whole}
use ppsp.Binmap.Storage.{
  overlay, write_at, bytes_of, content, get_data, open_to_write, release_all, data_size, logged,
  write, set_data,
}

take_all : (bs : List ℕ) → take (length bs) bs ≡ bs
take_all [] = refl
take_all (b ∷ bs) = ap (λ t. b ∷ t) (take_all bs)

overlay-take : (bs file : List ℕ) → take (length bs) (overlay bs file) ≡ bs
unfolding overlay
overlay-take [] file = refl
overlay-take (b ∷ bs) [] = take_all (b ∷ bs)
overlay-take (b ∷ bs) (x ∷ file) = ground (arith, overlay-take bs file)

overlay-drop :
    (bs file : List ℕ) (p : ℕ)
    → length bs ≤ p
    → p ≤ length file
    → drop p (overlay bs file) ≡ drop p file
unfolding overlay
overlay-drop [] file p h k = refl
overlay-drop (b ∷ bs) file zero h k = absurd (omega arith)
overlay-drop (b ∷ bs) [] (suc p) h k = absurd (omega arith)
overlay-drop (b ∷ bs) (x ∷ file) (suc p) h k = overlay-drop bs file p (omega arith) (omega arith)

write_at-take : (n : ℕ) (bs file : List ℕ) → take (length bs) (drop n (write_at n bs file)) ≡ bs
unfolding write_at
write_at-take zero bs file = overlay-take bs file
write_at-take (suc n) bs [] = write_at-take n bs []
write_at-take (suc n) bs (x ∷ file) = write_at-take n bs file

-- Bytes that were in the file, and that the write does not go over, stay.
write_at-other :
    (n : ℕ) (bs file : List ℕ) (p k : ℕ)
    → p + k ≤ length file
    → (p + k ≤ n) ⊎ (n + length bs ≤ p)
    → take k (drop p (write_at n bs file)) ≡ take k (drop p file)
unfolding write_at
write_at-other n bs file p zero h d = refl
write_at-other zero bs file p (suc k) h (inl d) = absurd (omega arith)
write_at-other zero bs file p (suc k) h (inr d) =
    ap (take (suc k)) (overlay-drop bs file p (omega arith) (omega arith))
write_at-other (suc n) bs [] p (suc k) h d = absurd (omega arith)
write_at-other (suc n) bs (x ∷ file) zero (suc k) h (inl d) =
    ap (λ t. x ∷ t) (write_at-other n bs file zero k (omega arith) (inl (omega arith)))
write_at-other (suc n) bs (x ∷ file) zero (suc k) h (inr d) = absurd (omega arith)
write_at-other (suc n) bs (x ∷ file) (suc p) (suc k) h (inl d) =
    write_at-other n bs file p (suc k) (omega arith) (inl (omega arith))
write_at-other (suc n) bs (x ∷ file) (suc p) (suc k) h (inr d) =
    write_at-other n bs file p (suc k) (omega arith) (inr (omega arith))

set_have_form :
    (b : Binmap) (s e : ℤ)
    → (l : List Range) × (c : ℤ) × (set_have b s e ≡ record b { chunk_range_list = l; cp = c })
unfolding set_have
set_have_form b s e = go (find_changed b.chunk_range_list s e) refl
  where
    go :
        (f : Found)
        → find_changed b.chunk_range_list s e ≡ f
        → (l : List Range) × (c : ℤ) × (set_have b s e ≡ record b { chunk_range_list = l; cp = c })
    go held q = (b.chunk_range_list, b.cp, rw (q, set_have) refl)
    go missing q =
        (b.chunk_range_list ++ (record { start = s; end = e } ∷ []), b.cp, rw (q, set_have) refl)
    go (changed before r after) q = (
      (merge_more before r after (cp_changed r b.cp)).0,
      (merge_more before r after (cp_changed r b.cp)).1,
      rw (q, set_have) refl,
    )

-- SetData with a single chunk: the map, the marks, the file.
pub single : Binmap → ℕ → ℕ → List ℕ → Binmap
unfolding write logged
single o n k payload =
    logged (write (release_requested (set_have o (pos n) (pos n)) (pos n)) (pos n *ℤ pos k) payload)
      (pos n)

single_form :
    (o : Binmap) (n : ℕ)
    → (ks : List ℤ) × (l : List Range) × (c : ℤ) × (release_requested
          (set_have o (pos n) (pos n))
          (pos n)
        ≡ record o { requested = ks; chunk_range_list = l; cp = c })
single_form o n =
    let (l, c, e) = set_have_form o (pos n) (pos n) in
    let (ks, f) = release_requested_form (set_have o (pos n) (pos n)) (pos n) in
    (ks, l, c, f ∙ ap (λ (b : Binmap). record b { requested = ks }) e)

one_round :
    (b : Binmap) (n : ℕ)
    → release_all (rounds (pos n) (pos n)) (pos n) b ≡ release_requested b (pos n)
unfolding release_all
one_round b n =
    let e : rounds (pos n) (pos n) ≡ 1 = omega arith in ap (λ r. release_all r (pos n) b) e

minus_self : (n : ℕ) → pos n -ℤ pos n ≡ pos 0
unfolding ◌-ℤ◌
minus_self n = ground arith

open_to_write-last_chunk :
    (can_create : Bool) (b : Binmap) → (open_to_write can_create b).last_chunk ≡ b.last_chunk
unfolding open_to_write
open_to_write-last_chunk can_create b = ground arith

one_size :
    (b : Binmap) (n k : ℕ)
    → (eqb_ℤ (pos n) b.last_chunk) ≡ false
    → data_size b (pos n) (pos n) (pos k) ≡ pos k
unfolding data_size ◌+ℤ◌
one_size b n k e = rw (e, minus_self n) (times_pos k 1 ∙ ap pos (omega arith))

pub stores_single :
    (can_create : Bool) (b : Binmap) (n k : ℕ) (payload : List ℕ)
    → (open_to_write can_create b).opened ≡ true
    → length payload ≡ k
    → eqb_ℤ (pos n) b.last_chunk ≡ false
    → set_data can_create b (pos n) (pos n) (pos k) (some payload)
      ≡ some (single (open_to_write can_create b) n k payload, pos k)
unfolding set_data single
stores_single can_create b n k payload o h l =
    let opened = open_to_write can_create b in
    let (ks, c, p, e) = single_form opened n in
    let last = ap (λ (m : Binmap). m.last_chunk) e ∙ open_to_write-last_chunk can_create b in
    rw (o, one_round (set_have opened (pos n) (pos n)) n)
      (rw (one_size (release_requested (set_have opened (pos n) (pos n)) (pos n)) n k (rw last l)) (
        rw (copy_out-whole k payload h, h)
          (ap (λ (m : Binmap). some (logged (write m (pos n *ℤ pos k) payload) (pos n), pos k))
            (one_round (set_have opened (pos n) (pos n)) n))))

single_disk :
    (o : Binmap) (n k : ℕ) (x : ℕ) (xs : List ℕ)
    → ((single o n k (x ∷ xs)).disk ≡ some (write_at (n * k) (x ∷ xs) (bytes_of o.disk)))
      × ((single o n k (x ∷ xs)).opened ≡ o.opened)
unfolding single write logged
single_disk o n k x xs =
    let (ks, c, p, e) = single_form o n in
    (
      rw (times_pos n k)
          (ap (λ (m : Binmap). some (write_at (n * k) (x ∷ xs) (bytes_of m.disk))) e),
      ap (λ (m : Binmap). m.opened) e,
    )

get_data_opened :
    (b : Binmap) (file : List ℕ) (n k : ℕ)
    → b.opened ≡ true
    → b.disk ≡ some file
    → (get_data b (pos k) (pos n)).1 ≡ content (take k (drop (n * k) file))
unfolding get_data
get_data_opened b file n k o d = rw (o, times_pos n k) (rw d refl)

-- The file as it is when SetData or GetData has opened it.
abbrev pub file_of : Binmap → List ℕ
file_of b = bytes_of b.disk

single_reads :
    (o : Binmap) (n k m : ℕ) (payload : List ℕ)
    → o.opened ≡ true
    → 0 < length payload
    → (get_data (single o n k payload) (pos k) (pos m)).1
      ≡ content (take k (drop (m * k) (write_at (n * k) payload (file_of o))))
single_reads o n k m [] h p = absurd (omega arith)
single_reads o n k m (x ∷ xs) h p =
    let d = single_disk o n k x xs in
    get_data_opened (single o n k (x ∷ xs)) (write_at (n * k) (x ∷ xs) (file_of o)) m k (d.1 ∙ h)
      d.0

pub open_to_write-opened :
    (can_create : Bool) (b : Binmap)
    → (b.opened ≡ true) ⊎ (can_create ≡ true)
    → (open_to_write can_create b).opened ≡ true
unfolding open_to_write
open_to_write-opened can_create b h = ground arith

-- A chunk of the chunk size that is not the last one is written to a file that is open or can be
-- made, as many bytes as it has, and GetData returns it.
pub set_data-get_data :
    (can_create : Bool) (b : Binmap) (n k : ℕ) (payload : List ℕ)
    → (b.opened ≡ true) ⊎ (can_create ≡ true)
    → 0 < k
    → length payload ≡ k
    → eqb_ℤ (pos n) b.last_chunk ≡ false
    → (b' : Binmap) × (set_data can_create b (pos n) (pos n) (pos k) (some payload)
        ≡ some (b', pos k))
      × ((get_data b' (pos k) (pos n)).1 ≡ content payload)
set_data-get_data can_create b n k payload c h l e =
    let o = open_to_write-opened can_create b c in
    (
      single (open_to_write can_create b) n k payload,
      stores_single can_create b n k payload o l e,
      single_reads (open_to_write can_create b) n k n payload o (omega (arith, l))
          ∙ ap content (
              ap
                (λ j.
                  take j (
                    drop (n * k) (write_at (n * k) payload (file_of (open_to_write can_create b)))))
                (sym l)
              ∙ write_at-take (n * k) payload (file_of (open_to_write can_create b))),
    )

before : (m n k : ℕ) → m < n → m * k + k ≤ n * k
before m n k h =
    omega (arith, mul-le-mul_left {m = suc m} {n = n} k h, mul_comm k (suc m), mul_comm k n)

-- The chunks `m` and `n` of `k` bytes do not overlap.
beside : (m n k : ℕ) → n ≢ m → (m * k + k ≤ n * k) ⊎ (n * k + k ≤ m * k)
beside m n k d = elim (Bool-cases (ltb m n)) [
  | inl h ↦ inl (before m n k (ground arith))
  | inr h ↦ inr (before n m k (ground arith))
]

open_to_write_held :
    (can_create : Bool) (b : Binmap) → b.opened ≡ true → open_to_write can_create b ≡ b
unfolding open_to_write
open_to_write_held can_create b h = rw h refl

-- A write of one chunk that is not the last one, with the chunk size, into a file that is open,
-- changes nothing in what GetData returns for another chunk that lies in the file.
set_data-get_data_other :
    (can_create : Bool) (b : Binmap) (file : List ℕ) (n m k : ℕ) (payload : List ℕ)
    → b.opened ≡ true
    → b.disk ≡ some file
    → 0 < k
    → length payload ≡ k
    → eqb_ℤ (pos n) b.last_chunk ≡ false
    → n ≢ m
    → m * k + k ≤ length file
    → (b' : Binmap) × (set_data can_create b (pos n) (pos n) (pos k) (some payload)
        ≡ some (b', pos k))
      × ((get_data b' (pos k) (pos m)).1 ≡ (get_data b (pos k) (pos m)).1)
set_data-get_data_other can_create b file n m k payload o q h l e d f =
    let same = open_to_write_held can_create b o in
    (
      single b n k payload,
      stores_single can_create b n k payload (rw same o) l e
          ∙ ap (λ (a : Binmap). some (single a n k payload, pos k)) same,
      single_reads b n k m payload o (omega (arith, l))
          ∙ ap content
              (rw q (write_at-other (n * k) payload file (m * k) k f (rw l (beside m n k d))))
          ∙ sym (get_data_opened b file m k o q),
    )

pub single_marks :
    (o : Binmap) (n k : ℕ) (payload : List ℕ)
    → 0 < length payload
    → ((single o n k payload).chunk_range_list ≡ (set_have o (pos n) (pos n)).chunk_range_list)
      × ((single o n k payload).cp ≡ (set_have o (pos n) (pos n)).cp)
      × ((single o n k payload).requested
          ≡ (release_requested (set_have o (pos n) (pos n)) (pos n)).requested)
unfolding single write logged
single_marks o n k [] h = absurd (omega arith)
single_marks o n k (x ∷ xs) h =
    let (ks, e) = release_requested_form (set_have o (pos n) (pos n)) (pos n) in
    (ap (λ (m : Binmap). m.chunk_range_list) e, ap (λ (m : Binmap). m.cp) e, refl)
