-- ===== src/Tree/Check/Digests.antt =====
-- The hashes of a Merkle proof have the size of a digest, and their bytes are compared whole.
use ppsp.Common.{
  ℕ, ◌/◌, ◌%◌, ◌≡◌, refl, Bool, true, false, none, some, List, [], ◌∷◌, arith, length, ◌==◌,
  if◌then◌else◌, ap, sym, ◌∙◌,
}
use ppsp.Message.Buffer.{copy_out-whole}
use ppsp.Tree.Sha.{
  Hasher, Hash, HasDigests, encrypt, encrypt_lr, sha_encrypt_lr, digest_blocklen, all_zero,
}
use ppsp.Tree.Check.{same_bytes, equal_bytes}
use ppsp.Tree.Check.Proofs.{proof_root}

pub record IsDigest (mhf : ℕ) (hash : Hash) : Type 0 where
  pub bytes : List ℕ
  pub held : hash ≡ some bytes
  pub sized : length bytes ≡ digest_blocklen mhf

pub equal_bytes_self : (a : List ℕ) → equal_bytes a a ≡ true
equal_bytes_self [] = refl
equal_bytes_self (x ∷ xs) = ground (arith, equal_bytes_self xs)

pub equal_bytes_sound : (a b : List ℕ) → equal_bytes a b ≡ true → a ≡ b
equal_bytes_sound [] [] e = refl
equal_bytes_sound [] (y ∷ ys) e = absurd (ground arith)
equal_bytes_sound (x ∷ xs) [] e = absurd (ground arith)
equal_bytes_sound (x ∷ xs) (y ∷ ys) e = grind (arith, equal_bytes_sound xs ys)

module _ (sha : Hasher) (mhf : ℕ) (s : HasDigests sha) where
  pub encrypt-IsDigest : (bytes : List ℕ) → IsDigest mhf (some (encrypt sha mhf bytes))
  unfolding encrypt digest_blocklen
  encrypt-IsDigest bytes = record {
    bytes = encrypt sha mhf bytes;
    held = refl;
    sized = ground (arith, s.length-sha1_encrypt bytes, s.length-sha256_encrypt bytes);
  }

  length-encrypt_lr : (a b : List ℕ) → length (encrypt_lr sha mhf a b) ≡ digest_blocklen mhf
  unfolding encrypt_lr digest_blocklen
  length-encrypt_lr a b =
      ground (arith, s.length-sha1_encrypt_lr a b, s.length-sha256_encrypt_lr a b)

  pub left-IsDigest : (a : List ℕ) (q : Hash) → IsDigest mhf (sha_encrypt_lr sha mhf (some a) q)
  unfolding sha_encrypt_lr
  left-IsDigest a none = record {
    bytes = encrypt_lr sha mhf a (all_zero mhf);
    held = refl;
    sized = length-encrypt_lr a (all_zero mhf);
  }
  left-IsDigest a (some b) = record {
    bytes = encrypt_lr sha mhf a b;
    held = refl;
    sized = length-encrypt_lr a b;
  }

  right-IsDigest : (a : List ℕ) (q : Hash) → IsDigest mhf (sha_encrypt_lr sha mhf q (some a))
  unfolding sha_encrypt_lr
  right-IsDigest a none = record {
    bytes = encrypt_lr sha mhf (all_zero mhf) a;
    held = refl;
    sized = length-encrypt_lr (all_zero mhf) a;
  }
  right-IsDigest a (some b) = record {
    bytes = encrypt_lr sha mhf b a;
    held = refl;
    sized = length-encrypt_lr b a;
  }

  combined-IsDigest :
      (right : Bool) (hash q : Hash)
      → IsDigest mhf hash
      → IsDigest mhf
          (if right then sha_encrypt_lr sha mhf hash q else sha_encrypt_lr sha mhf q hash)
  combined-IsDigest true hash q d = rw d.held (left-IsDigest d.bytes q)
  combined-IsDigest false hash q d = rw d.held (right-IsDigest d.bytes q)

  pub proof_root-IsDigest :
      (proof : List Hash) (j : ℕ) (hash : Hash)
      → IsDigest mhf hash
      → IsDigest mhf (proof_root sha mhf proof j hash)
  unfolding proof_root
  proof_root-IsDigest [] j hash d = d
  proof_root-IsDigest (q ∷ proof) j hash d =
      proof_root-IsDigest proof (j / 2) _ (combined-IsDigest (j % 2 == 0) hash q d)

  pub leaf-IsDigest :
      (proof : List Hash) (j : ℕ) (bytes : List ℕ)
      → IsDigest mhf (proof_root sha mhf proof j (some (encrypt sha mhf bytes)))
  leaf-IsDigest proof j bytes =
      proof_root-IsDigest proof j (some (encrypt sha mhf bytes)) (encrypt-IsDigest bytes)

pub same_bytes-IsDigest :
    (mhf : ℕ) (a b : Hash) (p : IsDigest mhf a) (q : IsDigest mhf b)
    → same_bytes (digest_blocklen mhf) a b ≡ some (equal_bytes p.bytes q.bytes)
unfolding same_bytes
same_bytes-IsDigest mhf a b p q =
    rw
      (
        p.held,
        q.held,
        same_bytes,
        copy_out-whole (digest_blocklen mhf) p.bytes p.sized,
        copy_out-whole (digest_blocklen mhf) q.bytes q.sized,
      )
      refl

true_inside : {b : Bool} → some b ≡ some true → b ≡ true
true_inside e = ground arith

pub same_bytes_sound :
    (mhf : ℕ) (a b : Hash)
    → IsDigest mhf a
    → IsDigest mhf b
    → same_bytes (digest_blocklen mhf) a b ≡ some true
    → a ≡ b
same_bytes_sound mhf a b p q e =
    let t : equal_bytes p.bytes q.bytes ≡ true =
      true_inside (sym (same_bytes-IsDigest mhf a b p q) ∙ e) in
    p.held ∙ ap some (equal_bytes_sound p.bytes q.bytes t) ∙ sym q.held
