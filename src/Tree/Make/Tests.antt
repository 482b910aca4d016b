-- ===== src/Tree/Make/Tests.antt =====
-- The theorems on Make at a file of three chunks of one byte each.
use ppsp.Common.{ℕ, ◌≡◌, refl, some, List, [], ◌∷◌, arith}
use ppsp.Common.Int.{pos}
use ppsp.Message.Buffer.{copy_out-whole}
use ppsp.Message.Data.{Data}
use ppsp.Tree.State.{HashTree, new}
use ppsp.Tree.Check.{check_data_integrity}
use ppsp.Tree.Check.Known.{Carries}
use ppsp.Tree.Make.{make}
use ppsp.Tree.Make.Reading.{chunk_of}
use ppsp.Tree.Make.Built.{IsMade, make-IsMade}
use ppsp.Tree.Make.Content.{make-content_size}
use ppsp.Tree.Make.Accepted.{make-check_data_integrity}
use ppsp.Tree.Tests.{sums, sums-HasDigests}

abbrev file : List ℕ
file = 5 ∷ 7 ∷ 9 ∷ []

abbrev fresh_tree : HashTree
fresh_tree = record new { chunk_size = pos 1 }

abbrev last_data : Data
last_data = record {
  destination_channel_id = pos 9;
  message_type = 1;
  start_chunk = pos 2;
  end_chunk = pos 2;
  chunk_size = pos 1;
  buffer_size = pos 1;
  timestamp = 0;
  data_buffer = some (9 ∷ []);
}

last_data-Carries : Carries last_data 2 (chunk_of 1 file 2)
last_data-Carries = record {
  start = refl;
  end = refl;
  buffer = 9 ∷ [];
  held = refl;
  sized = copy_out-whole 1 (9 ∷ []) refl;
}

make-IsMade_example :
    (t : HashTree) × (d : ℕ) × (last : ℕ) × (make sums fresh_tree (some file) ≡ some (1, t))
    × IsMade sums fresh_tree.merkle_hash_tree_function 1 file fresh_tree.integrity_map t d last
make-IsMade_example =
    make-IsMade sums fresh_tree 1 file sums-HasDigests refl (omega arith) (omega arith)
      (omega arith)

make-check_data_integrity_example :
    (made : HashTree) × (t : HashTree) × (make sums fresh_tree (some file) ≡ some (1, made))
    × (check_data_integrity sums made (pos 9) last_data ≡ some (1, t))
make-check_data_integrity_example =
    make-check_data_integrity sums fresh_tree 1 file (pos 9) last_data 2 sums-HasDigests refl
      (omega arith) (omega arith) (omega arith) refl (omega arith) last_data-Carries

-- Four bytes in chunks of two: the last chunk is full.
abbrev even_file : List ℕ
even_file = 5 ∷ 7 ∷ 9 ∷ 11 ∷ []

abbrev two_tree : HashTree
two_tree = record new { chunk_size = pos 2 }

make-content_size_example :
    (t : HashTree) × (make sums two_tree (some even_file) ≡ some (1, t))
    × (t.last_chunk_size ≡ 0)
    × (t.content_size ≡ 2)
make-content_size_example =
    make-content_size sums two_tree 2 2 0 even_file sums-HasDigests refl (omega arith) refl
      (omega arith) (omega arith) (omega arith)
