-- ===== src/Tree/Make/Content.antt =====
-- What Make of HashTree.cpp stores of the content's size: ContentSize and LastChunkSize.
use native.Mathlib.Nat.{mul-le-mul_right}
use ppsp.Common.{
  ℕ, zero, suc, ◌+◌, ◌-◌, ◌*◌, ◌^◌, ◌≤◌, ◌<◌, ◌≡◌, refl, true, false, Option, none, some, List, [],
  ◌∷◌, arith, ap, sym, ◌∙◌, length, take, drop, ◌==◌, Gives, Gives-some, Gives-none, Gives-then,
  if◌then◌else◌, branch_false,
}
use ppsp.Common.Int.{times_pos, plus_pos, pos, negsuc, ◌+ℤ◌, ◌-ℤ◌, ◌*ℤ◌}
use ppsp.Util.Hex.{get_string_from_hash}
use ppsp.Message.Buffer.{copy_out}
use ppsp.Util.Endian.{pattern}
use ppsp.Tree.Sha.{Hasher, HasDigests, sha_encrypt, digest_blocklen}
use ppsp.Tree.State.{HashTree, set_root_hash}
use ppsp.Tree.Check.Climb.{minus_one}
use ppsp.Tree.Make.{
  Leaves, Levels, next_leaf, read_leaves, pad_leaves, no_leaves, with_content, merge_levels,
  with_root, make_levels, make_leaves, make,
}
use ppsp.Tree.Make.Reading.{length-take-drop}
use ppsp.Tree.Make.Built.{make-IsMade}

length-take-full : (n : ℕ) (xs : List ℕ) → n ≤ length xs → length (take n xs) ≡ n
length-take-full zero xs h = refl
length-take-full (suc n) [] h = absurd (omega arith)
length-take-full (suc n) (x ∷ xs) h = ap suc (length-take-full n xs (omega arith))

length-take-part : (n : ℕ) (xs : List ℕ) → length xs ≤ n → length (take n xs) ≡ length xs
length-take-part zero [] h = refl
length-take-part zero (x ∷ xs) h = absurd (omega arith)
length-take-part (suc n) [] h = refl
length-take-part (suc n) (x ∷ xs) h = ap suc (length-take-part n xs (omega arith))

-- The number of chunks of `k` full ones and `r` more bytes.
abbrev pub chunks : ℕ → ℕ → ℕ
chunks k zero = k
chunks k (suc r) = suc k

module _ (sha : Hasher) (mhf c : ℕ) (positive : 0 < c) where
  -- The loop over `k` full chunks and `r` more bytes.
  CountedFrom : ℕ → List ℕ → Leaves → ℕ → ℕ → Type 0
  CountedFrom fuel rest m k r =
      (m' : Leaves) × (read_leaves sha mhf c fuel rest m ≡ some m')
      × (m'.ret ≡ r)
      × (m'.cidx ≡ m.cidx + chunks k r)

  last_round :
      (fuel r : ℕ) (rest : List ℕ) (m : Leaves)
      → r < c
      → length rest ≡ r
      → CountedFrom (suc fuel) rest m 0 r
  unfolding CountedFrom read_leaves next_leaf
  last_round fuel zero rest m b e =
      let got : length (take c rest) ≡ 0 = length-take-part c rest (omega arith) ∙ e in
      let over : (length (take c rest) == 0) ≡ true = ground (arith, got) in
      (record m { ret = 0 }, rw (read_leaves, over) refl, refl, omega arith)
  last_round fuel (suc r) rest m b e =
      let got : length (take c rest) ≡ suc r = length-take-part c rest (omega arith) ∙ e in
      let more : (length (take c rest) == 0) ≡ false = ground (arith, got) in
      let part : (length (take c rest) == c) ≡ false = ground (arith, got) in
      let ret = length (take c rest) in
      let added = next_leaf (sha_encrypt sha mhf (take c rest) (pos ret)) ret false m in
      (added, rw (read_leaves, more, part) refl, got, refl)

  read-counted :
      (k r fuel : ℕ) (rest : List ℕ) (m : Leaves)
      → r < c
      → length rest ≡ c * k + r
      → k < fuel
      → CountedFrom fuel rest m k r
  unfolding CountedFrom read_leaves next_leaf
  read-counted k r zero rest m b e f = absurd (omega arith)
  read-counted zero r (suc fuel) rest m b e f = last_round fuel r rest m b (omega arith)
  read-counted (suc k) r (suc fuel) rest m b e f =
      let all : c * suc k ≡ c + c * k = omega arith in
      let got : length (take c rest) ≡ c = length-take-full c rest (omega arith) in
      let sum = length-take-drop c rest in
      let more : (length (take c rest) == 0) ≡ false = ground (arith, got) in
      let full : (length (take c rest) == c) ≡ true = ground (arith, got) in
      let ret = length (take c rest) in
      let added = next_leaf (sha_encrypt sha mhf (take c rest) (pos ret)) ret false m in
      let (m', run, last, count) =
        read-counted k r fuel (drop c rest) added b (omega arith) (omega arith) in
      (m', rw (read_leaves, more, full) run, last, counted_on m'.cidx m.cidx r count)
    where
      counted_on : (x y z : ℕ) → x ≡ y + 1 + chunks k z → x ≡ y + chunks (suc k) z
      counted_on x y zero h = omega arith
      counted_on x y (suc z) h = omega arith

-- What is stored of the content stays to the end of Make.
IsKept : HashTree → ℕ × HashTree → Type 0
IsKept tree made =
    (made.1.content_size ≡ tree.content_size) × (made.1.last_chunk_size ≡ tree.last_chunk_size)

abbrev with_copy : HashTree → Option (List ℕ) → Option HashTree
with_copy tree copied = elim copied [
  | none ↦ none
  | some copy ↦
      some (record tree { root_hash = some copy; root_hash_string = get_string_from_hash copy })
]

with_copy-IsKept :
    (tree x : HashTree) (copied : Option (List ℕ))
    → IsKept tree (1, x)
    → Gives (IsKept tree) (elim (with_copy x copied) [ none ↦ none | some made ↦ some (1, made) ])
unfolding IsKept
with_copy-IsKept tree x none k = Gives-none (IsKept tree)
with_copy-IsKept tree x (some copy) k = Gives-some (IsKept tree) (1, _) k

with_root-IsKept : (tree : HashTree) (m : Levels) → Gives (IsKept tree) (with_root m tree)
unfolding with_root set_root_hash IsKept
with_root-IsKept tree m = Gives-then (IsKept tree) m.root _ (λ root.
    Gives-then (IsKept tree) m.hashout _ (λ hash.
      with_copy-IsKept tree (record tree { hash_tree_map = m.map; root_node = m.root })
        (copy_out (pos (digest_blocklen tree.merkle_hash_tree_function)) hash) (refl, refl)))

make_levels-IsKept :
    (sha : Hasher) (tree : HashTree) (leaves : ℕ) (m : Leaves)
    → Gives (IsKept tree) (make_levels sha tree leaves m)
unfolding make_levels IsKept
make_levels-IsKept sha tree leaves m =
    Gives-then (IsKept tree)
      (merge_levels sha tree.merkle_hash_tree_function leaves (suc leaves) 0 1 2 _) _
      (λ done. with_root-IsKept _ done)

-- The number that `ContentSize` is set to: `k` full chunks, and `r` more bytes that make one more
-- chunk where there are any.
counted_size : ℕ → ℕ → ℕ → ℕ
counted_size c k zero = c * (k - 1)
counted_size c k (suc r) = c * k + suc r

int_size :
    (c q r : ℕ)
    → c * q + r < 2 ^ 64
    → pattern 64 (pos c *ℤ (pos (suc q) -ℤ pos 1) +ℤ pos r) ≡ c * q + r
int_size c q r b =
    let e : pos c *ℤ (pos (suc q) -ℤ pos 1) +ℤ pos r ≡ pos (c * q + r) =
      ap (λ x. pos c *ℤ x +ℤ pos r) (minus_one q)
      ∙ ap (λ x. x +ℤ pos r) (times_pos c q)
      ∙ plus_pos (c * q) r in
    ap (pattern 64) e ∙ omega arith

-- The size behind the loop over `k` full chunks and `r` more bytes.
counted-size :
    (tree : HashTree) (c k r : ℕ) (m : Leaves)
    → tree.chunk_size ≡ pos c
    → c < c * k + r
    → c * k + r < 2 ^ 31
    → m.ret ≡ r
    → m.cidx ≡ chunks k r
    → (with_content m tree).content_size ≡ counted_size c k r
unfolding with_content counted_size
counted-size tree c zero zero m s l b e f = absurd (omega arith)
counted-size tree c (suc k) zero m s l b e f =
    let all : c * suc k ≡ c + c * k = omega arith in
    let q : suc k - 1 ≡ k = omega arith in
    let n : c * k + 0 ≡ c * k = omega arith in
    rw (s, e, f) (int_size c k 0 (omega arith) ∙ n ∙ ap (λ x. c * x) (sym q))
counted-size tree c k (suc r) m s l b e f = rw (s, e, f) (int_size c k (suc r) (omega arith))

make_leaves-IsKept :
    (sha : Hasher) (tree : HashTree) (c : ℕ) (bytes : List ℕ) (m : Leaves)
    → read_leaves sha tree.merkle_hash_tree_function c (suc (length bytes)) bytes no_leaves ≡ some m
    → Gives (IsKept (with_content m tree)) (make_leaves sha tree c bytes)
unfolding make_leaves
make_leaves-IsKept sha tree c bytes m run =
    rw (make_leaves, run)
      (Gives-then (IsKept (with_content m tree)) (pad_leaves (suc m.idx) m) _
        (λ padded. make_levels-IsKept sha (with_content m tree) (length padded.map) padded))

size_cases :
    (c k r n : ℕ) → n ≡ c * k + r → c < n → counted_size c k r ≡ (if r == 0 then n - c else n)
unfolding counted_size
size_cases c zero zero n e l = absurd (omega arith)
size_cases c (suc k) zero n e l =
    let all : c * suc k ≡ c + c * k = omega arith in
    let q : suc k - 1 ≡ k = omega arith in ap (λ x. c * x) q ∙ omega arith
size_cases c k (suc r) n e l =
    let over : (suc r == 0) ≡ false = ground arith in sym e ∙ sym (branch_false _ _ over)

zero_plus : (n : ℕ) → 0 + n ≡ n
zero_plus n = omega arith

enough : (c k r n : ℕ) → 0 < c → n ≡ c * k + r → k < suc n
enough c k r n p e = let h : 1 * k ≤ c * k = mul-le-mul_right k p in omega arith

-- For a file of k full chunks and r more bytes, which has more bytes than ChunkSize and less than 2
-- ^ 31, and 2 ^ 29 chunks at most, Make returns 1. LastChunkSize is then r, and ContentSize is the
-- file's size where r is not 0, but a chunk less than that where the last chunk is full.
pub make-content_size :
    (sha : Hasher) (tree : HashTree) (c k r : ℕ) (bytes : List ℕ)
    → HasDigests sha
    → tree.chunk_size ≡ pos c
    → r < c
    → length bytes ≡ c * k + r
    → c < length bytes
    → length bytes < 2 ^ 31
    → length bytes ≤ c * 2 ^ 29
    → (t : HashTree) × (make sha tree (some bytes) ≡ some (1, t))
      × (t.last_chunk_size ≡ r)
      × (t.content_size ≡ (if r == 0 then length bytes - c else length bytes))
unfolding make Gives IsKept CountedFrom with_content
make-content_size sha tree c k r bytes digests size b e l small short =
    let positive : 0 < c = omega arith in
    let mhf = tree.merkle_hash_tree_function in
    let (t, d, last, q, made) = make-IsMade sha tree c bytes digests size positive l short in
    let (m, run, ret, count) =
      read-counted sha mhf c positive k r (suc (length bytes)) bytes no_leaves b e
        (enough c k r (length bytes) positive e) in
    let leaves = ap (λ x. elim x [ negsuc n ↦ none | pos n ↦ make_leaves sha tree n bytes ]) size in
    let kept = make_leaves-IsKept sha tree c bytes m run (1, t) (sym leaves ∙ q) in
    let counted =
      counted-size tree c k r m size (omega arith) (omega arith) ret
        (count ∙ zero_plus (chunks k r)) in
    (t, q, kept.1 ∙ ret, kept.0 ∙ counted ∙ size_cases c k r (length bytes) e l)
