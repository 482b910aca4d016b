-- ===== src/Tree/Sha.antt =====
-- SHA_Encrypt and SHA_EncryptLR of HashTree.cpp. The four functions of SHA/ that they call are a
-- parameter: what each writes to `hashout`.
use ppsp.Common.{ℕ, ◌≡◌, Option, none, some, List, length, replicate, ◌==◌, if◌then◌else◌}
use ppsp.Common.Int.{ℤ}
use ppsp.Message.Buffer.{copy_out}
use ppsp.Message.Integrity.{mhf_sha1, sha1_digest_blocklen, sha256_digest_blocklen}

pub record Hasher : Type 0 where
  pub sha1_encrypt : List ℕ → List ℕ
  pub sha1_encrypt_lr : List ℕ → List ℕ → List ℕ
  pub sha256_encrypt : List ℕ → List ℕ
  pub sha256_encrypt_lr : List ℕ → List ℕ → List ℕ

-- `hashout` is filled up to its size.
pub record HasDigests (sha : Hasher) : Type 0 where
  pub length-sha1_encrypt : (a : List ℕ) → length (sha.sha1_encrypt a) ≡ sha1_digest_blocklen
  pub length-sha1_encrypt_lr :
      (a b : List ℕ) → length (sha.sha1_encrypt_lr a b) ≡ sha1_digest_blocklen
  pub length-sha256_encrypt : (a : List ℕ) → length (sha.sha256_encrypt a) ≡ sha256_digest_blocklen
  pub length-sha256_encrypt_lr :
      (a b : List ℕ) → length (sha.sha256_encrypt_lr a b) ≡ sha256_digest_blocklen

-- A hash array, or a null pointer.
abbrev pub Hash : Type 0
Hash = Option (List ℕ)

-- `MerkleHashTreeFunction == MHF_SHA1 ? SHA1_DIGEST_BLOCKLEN : SHA256_DIGEST_BLOCKLEN`
unfoldable pub digest_blocklen : ℕ → ℕ
digest_blocklen mhf = if mhf == mhf_sha1 then sha1_digest_blocklen else sha256_digest_blocklen

unfoldable pub encrypt : Hasher → ℕ → List ℕ → List ℕ
encrypt sha mhf bytes = if mhf == mhf_sha1 then sha.sha1_encrypt bytes else sha.sha256_encrypt bytes

-- `none` is a read outside of the array.
unfoldable pub sha_encrypt : Hasher → ℕ → List ℕ → ℤ → Hash
sha_encrypt sha mhf source len = elim (copy_out len source) [
  | none ↦ none
  | some bytes ↦ some (encrypt sha mhf bytes)
]

unfoldable pub encrypt_lr : Hasher → ℕ → List ℕ → List ℕ → List ℕ
encrypt_lr sha mhf left right =
    if mhf == mhf_sha1 then sha.sha1_encrypt_lr left right else sha.sha256_encrypt_lr left right

unfoldable pub all_zero : ℕ → List ℕ
all_zero mhf = replicate (digest_blocklen mhf) 0

unfoldable pub sha_encrypt_lr : Hasher → ℕ → Hash → Hash → Hash
sha_encrypt_lr sha mhf none none = none
sha_encrypt_lr sha mhf none (some right) = some (encrypt_lr sha mhf (all_zero mhf) right)
sha_encrypt_lr sha mhf (some left) none = some (encrypt_lr sha mhf left (all_zero mhf))
sha_encrypt_lr sha mhf (some left) (some right) = some (encrypt_lr sha mhf left right)
