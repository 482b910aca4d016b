-- ===== src/Tree/Tests.antt =====
-- The theorems on the tree at concrete nodes, and at a content of two chunks of one byte each.
use ppsp.Common.{
  ℕ, zero, suc, ◌+◌, ◌*◌, ◌%◌, ◌≡◌, refl, ◌≢◌, ◌⊎◌, false, none, some, List, [], ◌∷◌, arith,
  replicate,
}
use ppsp.Common.Int.{ℤ, pos, ◌+ℤ◌}
use ppsp.Message.Buffer.{copy_out-whole}
use ppsp.Message.Data.{Data}
use ppsp.Message.Integrity.{Integrity}
use ppsp.Tree.Sha.{Hasher, HasDigests, Hash, encrypt, encrypt_lr, sha_encrypt_lr, digest_blocklen}
use ppsp.Tree.State.{HashTree, add_integrity}
use ppsp.Tree.Sibling.{get_sibling_index}
use ppsp.Tree.Sibling.Laws.{node, left_child, right_child, number, get_sibling_index-node}
use ppsp.Tree.Check.{check_data_integrity, received}
use ppsp.Tree.Check.Digests.{IsDigest}
use ppsp.Tree.Check.Known.{Carries, IsComplete, IsProof, first_hash, check_data_integrity-IsProof}
use ppsp.Tree.Check.Binding.{IsCollision, check_data_integrity-binding}
use ppsp.Tree.Check.Supplied.{from_channel}
use ppsp.Tree.Check.Complete.{tree_hash, HasSiblings, check_data_integrity-tree_hash}
use ppsp.Tree.Check.Received.{node_of, add_integrity-received}

-- Chunks 4 and 5, and chunks 6 and 7.
get_sibling_index-node_example :
    (get_sibling_index (left_child 1 1).start (left_child 1 1).end
      ≡ some (right_child 1 1, number (right_child 1 1)))
    × (get_sibling_index (right_child 1 1).start (right_child 1 1).end
        ≡ some (left_child 1 1, number (left_child 1 1)))
    × ((node 3 1).start ≡ (left_child 1 1).start)
    × ((node 3 1).end ≡ (right_child 1 1).end)
get_sibling_index-node_example = get_sibling_index-node 1 1

abbrev total : List ℕ → ℕ
total [] = 0
total (x ∷ xs) = x + total xs

-- A hash function for the tests.
abbrev pub sums : Hasher
sums = record {
  sha1_encrypt = λ a. replicate 20 (total a % 256);
  sha1_encrypt_lr = λ a b. replicate 20 ((total a + 3 * total b) % 256);
  sha256_encrypt = λ a. replicate 64 (total a % 256);
  sha256_encrypt_lr = λ a b. replicate 64 ((total a + 3 * total b) % 256);
}

pub sums-HasDigests : HasDigests sums
sums-HasDigests = record {
  length-sha1_encrypt = λ a. refl;
  length-sha1_encrypt_lr = λ a b. refl;
  length-sha256_encrypt = λ a. refl;
  length-sha256_encrypt_lr = λ a b. refl;
}

abbrev first_chunk : List ℕ
first_chunk = 5 ∷ []

abbrev leaf_hashes : ℕ → Hash
leaf_hashes zero = some (replicate 20 5)
leaf_hashes (suc c) = some (replicate 20 7)

-- 100 + 3 * 140, less 256 twice.
abbrev root_bytes : List ℕ
root_bytes = replicate 20 8

abbrev second_integrity : Integrity
second_integrity = record {
  destination_channel_id = pos 9;
  message_type = 4;
  start_chunk = pos 1;
  end_chunk = pos 1;
  merkle_hash_tree_function = 0;
  hash = some (replicate 20 7);
}

-- The client has the hash of chunk 1 from channel 9.
abbrev two_leaves : HashTree
two_leaves = record {
  merkle_hash_tree_function = 0;
  chunk_size = pos 1;
  chunk_range = pos 1;
  last_chunk_index = pos 2;
  leaf_node_count = pos 2;
  content_size = 0;
  last_chunk_size = 0;
  root_hash_string = [];
  root_hash = some root_bytes;
  hash_tree_map = [];
  root_node = none;
  integrity_map = (pos 9, (pos 2, node_of second_integrity (replicate 20 7)) ∷ []) ∷ [];
  peak_hash_map = [];
  is_peak_map_created = false;
  integrity_send_map = [];
}

abbrev first_data : Data
first_data = record {
  destination_channel_id = pos 9;
  message_type = 1;
  start_chunk = pos 0;
  end_chunk = pos 0;
  chunk_size = pos 1;
  buffer_size = pos 1;
  timestamp = 0;
  data_buffer = some first_chunk;
}

first_data-Carries : Carries first_data 0 first_chunk
first_data-Carries = record {
  start = refl;
  end = refl;
  buffer = first_chunk;
  held = refl;
  sized = copy_out-whole 1 first_chunk refl;
}

two_leaves-IsComplete : IsComplete two_leaves 1
two_leaves-IsComplete = record { range = 1; ranged = refl; leaves = refl }

two_leaves-IsDigest : IsDigest two_leaves.merkle_hash_tree_function two_leaves.root_hash
unfolding digest_blocklen
two_leaves-IsDigest = record { bytes = root_bytes; held = refl; sized = refl }

two_leaves_rooted :
    two_leaves.root_hash ≡ tree_hash sums two_leaves.merkle_hash_tree_function leaf_hashes 1 0
unfolding tree_hash sha_encrypt_lr encrypt_lr
two_leaves_rooted = refl

first_leaf : leaf_hashes 0 ≡ first_hash sums two_leaves first_chunk
unfolding encrypt
first_leaf = refl

second_there : tree_hash sums two_leaves.merkle_hash_tree_function leaf_hashes 0 1 ≢ none
unfolding tree_hash
second_there e = absurd (ground (arith, e))

two_leaves-HasSiblings : HasSiblings sums two_leaves (pos 9) leaf_hashes 1 0 0 0
unfolding tree_hash ◌+ℤ◌
two_leaves-HasSiblings = (
  from_channel _ (node_of second_integrity (replicate 20 7)) (omega arith) refl refl refl
      second_there,
  tt,
)

check_data_integrity-IsProof_example :
    (check_data_integrity sums two_leaves (pos 9) first_data ≡ some (0, two_leaves))
    ⊎ ((t : HashTree) × (check_data_integrity sums two_leaves (pos 9) first_data ≡ some (1, t))
        × IsProof sums two_leaves 1 0 first_chunk)
check_data_integrity-IsProof_example =
    check_data_integrity-IsProof sums two_leaves (pos 9) first_data 1 0 first_chunk sums-HasDigests
      two_leaves-IsDigest two_leaves-IsComplete first_data-Carries (omega arith)

check_data_integrity-tree_hash_example :
    (t : HashTree) × (check_data_integrity sums two_leaves (pos 9) first_data ≡ some (1, t))
check_data_integrity-tree_hash_example =
    check_data_integrity-tree_hash sums two_leaves (pos 9) first_data 1 0 first_chunk leaf_hashes
      two_leaves-IsComplete first_data-Carries (omega arith) two_leaves-IsDigest two_leaves_rooted
      first_leaf two_leaves-HasSiblings

accepted_first :
    (t : HashTree) × (check_data_integrity sums two_leaves (pos 9) first_data ≡ some (1, t))
accepted_first =
    check_data_integrity-tree_hash sums two_leaves (pos 9) first_data 1 0 first_chunk leaf_hashes
      two_leaves-IsComplete first_data-Carries (omega arith) two_leaves-IsDigest two_leaves_rooted
      first_leaf two_leaves-HasSiblings

check_data_integrity-binding_example :
    (first_chunk ≡ first_chunk) ⊎ IsCollision sums two_leaves.merkle_hash_tree_function
check_data_integrity-binding_example =
    check_data_integrity-binding sums two_leaves two_leaves accepted_first.0 accepted_first.0
      (pos 9) (pos 9) first_data first_data 1 0 first_chunk first_chunk sums-HasDigests
      two_leaves-IsDigest refl refl two_leaves-IsComplete two_leaves-IsComplete first_data-Carries
      first_data-Carries (omega arith) accepted_first.1 accepted_first.1

add_integrity-received_example :
    (t : HashTree) × (add_integrity two_leaves (pos 8) second_integrity ≡ some t)
    × (received t (pos 8) (pos 1 +ℤ pos 1) ≡ some (node_of second_integrity (replicate 20 7)))
    × ((c i : ℤ) → (c ≢ pos 8) ⊎ (i ≢ pos 1 +ℤ pos 1) → received t c i ≡ received two_leaves c i)
    × (t.hash_tree_map ≡ two_leaves.hash_tree_map)
unfolding digest_blocklen
add_integrity-received_example =
    add_integrity-received two_leaves (pos 8) second_integrity (replicate 20 7) refl refl
