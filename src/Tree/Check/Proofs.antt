-- ===== src/Tree/Check/Proofs.antt =====
-- Merkle proofs: what the hashes of the siblings on the way up make of a leaf's hash.
use ppsp.Common.{ℕ, ◌/◌, ◌%◌, List, [], ◌∷◌, ◌==◌, if◌then◌else◌}
use ppsp.Tree.Sha.{Hasher, Hash, sha_encrypt_lr}

-- The root over leaf number `j`, from the hash of the leaf and of the siblings, the lowest first.
unfoldable pub proof_root : Hasher → ℕ → List Hash → ℕ → Hash → Hash
proof_root sha mhf [] j hash = hash
proof_root sha mhf (q ∷ proof) j hash =
    proof_root sha mhf proof (j / 2)
      (if j % 2 == 0 then sha_encrypt_lr sha mhf hash q else sha_encrypt_lr sha mhf q hash)
