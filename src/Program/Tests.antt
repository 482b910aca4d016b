-- ===== src/Program/Tests.antt =====
-- The theorems on the start of the program at a file of three bytes and the chunk size 1.
use ppsp.Common.{ℕ, ◌≡◌, refl, some, List, [], ◌∷◌, arith}
use ppsp.Common.Int.{pos, ◌<ℤ◌}
use ppsp.Peer.Info.{PpInfo}
use ppsp.Server.{PpServer}
use ppsp.Server.Seeding.{IsSeeding}
use ppsp.Server.Tests.{blank_info, memory, hashing}
use ppsp.Tree.Tests.{sums-HasDigests}
use ppsp.Program.Config.{
  new, key_chunk_size, read_config_file, read_lines, gets, key_of, apply, atoi,
}
use ppsp.Program.Config.Laws.{
  Item, comment, setting, render_all, apply_all, read_config_file-render,
}
use ppsp.Program.Main.{configured, main, serving}
use ppsp.Program.Launch.{file_arguments, file_command, main-IsSeeding}

-- `#x`, and the chunk size 1.
abbrev items : List Item
items = comment (120 ∷ []) ∷ setting key_chunk_size (49 ∷ []) ∷ []

read_config_file-render_example :
    read_config_file (some (render_all items)) new ≡ apply_all items new
read_config_file-render_example = read_config_file-render items new (
  record { unbroken = (λ e. omega arith, (λ e. omega arith, tt)); short = omega arith },
  (record { unbroken = (λ e. omega arith, tt); short = omega arith }, tt),
)

small_chunks : (read_config_file (some (render_all items)) new).chunk_size ≡ pos 1
unfolding read_config_file read_lines gets key_of apply atoi
small_chunks = refl

abbrev stored : PpInfo
stored = record blank_info {
  file_binmap = record blank_info.file_binmap { disk = some (5 ∷ 7 ∷ 9 ∷ []) };
}

-- `20000`
abbrev port : List ℕ
port = 50 ∷ 48 ∷ 48 ∷ 48 ∷ 48 ∷ []

port_above : pos 0 <ℤ atoi port
unfolding atoi
port_above = omega arith

main-IsSeeding_example :
    (s : PpServer) × (s' : PpServer) × (configured stored
        (file_arguments (97 ∷ []) port)
        (read_config_file (some (render_all items)) new)
      ≡ some s)
    × (main hashing memory stored (some (render_all items)) (file_command (97 ∷ []) port)
        ≡ serving s')
    × IsSeeding hashing 1 (5 ∷ 7 ∷ 9 ∷ []) s s'
main-IsSeeding_example =
    main-IsSeeding hashing memory stored (some (render_all items)) (97 ∷ []) port 1 (5 ∷ 7 ∷ 9 ∷ [])
      sums-HasDigests (omega arith) refl port_above refl small_chunks (omega arith) (omega arith)
      (omega arith)
