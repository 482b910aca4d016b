-- ===== src/Binmap/Examples.antt =====
-- Maps for the tests.
use ppsp.Common.{ℕ, false, none, [], ◌∷◌}
use ppsp.Common.Int.{pos, negsuc}
use ppsp.Binmap.{Range, Binmap}

abbrev pub range : ℕ → ℕ → Range
range s e = record { start = pos s; end = pos e }

-- None of the chunks 0 to 9 is there.
abbrev pub no_chunks : Binmap
no_chunks = record {
  requested = [];
  file_name = [];
  disk = none;
  opened = false;
  position = 0;
  log_print_size = pos 0;
  cp = negsuc 0;
  chunk_range_list = [];
  last_chunk = pos 9;
  last_chunk_size = pos 10;
}

-- Chunks 0, 1, 5 and 6 are there, and chunk 2 is asked for.
abbrev pub some_chunks : Binmap
some_chunks = record no_chunks {
  requested = pos 2 ∷ [];
  cp = pos 1;
  chunk_range_list = range 0 1 ∷ range 5 6 ∷ [];
  last_chunk = pos 9;
  last_chunk_size = pos 10;
}

abbrev pub all_chunks : Binmap
all_chunks = record some_chunks { requested = []; chunk_range_list = range 0 9 ∷ [] }
