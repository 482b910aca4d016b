-- ===== src/Program/Config/Laws.antt =====
-- What a configuration file of comments and settings does.
use ppsp.Common.{
  ℕ, ◌-◌, ◌≤◌, ◌<◌, ◌≡◌, ◌≢◌, refl, Bool, true, false, not, ◌&&◌, ◌||◌, Option, none, some, List,
  [], ◌∷◌, ◌++◌, arith, ap, ◌∙◌, All, length, ◌==◌, leb, branch_both,
}
use ppsp.Program.Config.{
  atoi, c_string, gets, MetaData, Key, key_version, key_min_version,
  key_content_integrity_protection_method, key_merkle_hash_tree_function,
  key_live_signature_algorithm, key_chunk_addressing_method, key_chunk_size, key_retry_count,
  key_keep_alive_interval, key_pex_req_interval, key_line, apply, key_of, read_lines,
  read_config_file, line_feed,
}

-- A line that the buffer takes whole.
pub record IsLine (line : List ℕ) : Type 0 where
  pub unbroken : All (λ x. x ≢ line_feed) line
  pub short : length line ≤ 78

-- What a file is made of.
pub data Item : Type 0 where
  comment : List ℕ → Item
  setting : Key → List ℕ → Item

abbrev pub render : Item → List ℕ
render (comment text) = 35 ∷ text ++ (line_feed ∷ [])
render (setting key value) = key_line key ++ (line_feed ∷ (value ++ (line_feed ∷ [])))

abbrev pub render_all : List Item → List ℕ
render_all [] = []
render_all (i ∷ items) = render i ++ render_all items

abbrev pub IsItem : Item → Type 0
IsItem (comment text) = IsLine (35 ∷ text)
IsItem (setting key value) = IsLine value

-- The settings one after the other.
abbrev pub apply_all : List Item → MetaData → MetaData
apply_all [] m = m
apply_all (comment text ∷ items) m = apply_all items m
apply_all (setting key value ∷ items) m =
    apply_all items (apply key (atoi (c_string (value ++ (line_feed ∷ [])))) m)

gets-line :
    (left : ℕ) (line rest : List ℕ)
    → All (λ x. x ≢ line_feed) line
    → length line < left
    → gets left (line ++ (line_feed ∷ rest)) ≡ (line ++ (line_feed ∷ [])) ∷ gets 79 rest
unfolding gets
gets-line left [] rest u s = refl
gets-line left (x ∷ line) rest u s =
    let on : (x == line_feed || leb left 1) ≡ false = ground (arith, u.0, s) in
    let ih = gets-line (left - 1) line rest u.1 (omega arith) in rw (gets, on, ih) refl

key_found : (key : Key) → key_of (key_line key ++ (line_feed ∷ [])) ≡ some key
unfolding key_of
key_found key_version = refl
key_found key_min_version = refl
key_found key_content_integrity_protection_method = refl
key_found key_merkle_hash_tree_function = refl
key_found key_live_signature_algorithm = refl
key_found key_chunk_addressing_method = refl
key_found key_chunk_size = refl
key_found key_retry_count = refl
key_found key_keep_alive_interval = refl
key_found key_pex_req_interval = refl

clean : List ℕ → Bool
clean [] = true
clean (x ∷ xs) = not (x == line_feed) && clean xs

clean_unbroken : (line : List ℕ) → clean line ≡ true → All (λ x. x ≢ line_feed) line
unfolding clean
clean_unbroken [] h = tt
clean_unbroken (x ∷ xs) h = (λ e. ground (arith, h, e), clean_unbroken xs (ground (arith, h)))

clean-IsLine : (line : List ℕ) → clean line ≡ true → length line ≤ 78 → IsLine line
clean-IsLine line h l = record { unbroken = clean_unbroken line h; short = l }

key_IsLine : (key : Key) → IsLine (key_line key)
unfolding clean
key_IsLine key_version = clean-IsLine (key_line key_version) refl (omega arith)
key_IsLine key_min_version = clean-IsLine (key_line key_min_version) refl (omega arith)
key_IsLine key_content_integrity_protection_method =
    clean-IsLine (key_line key_content_integrity_protection_method) refl (omega arith)
key_IsLine key_merkle_hash_tree_function =
    clean-IsLine (key_line key_merkle_hash_tree_function) refl (omega arith)
key_IsLine key_live_signature_algorithm =
    clean-IsLine (key_line key_live_signature_algorithm) refl (omega arith)
key_IsLine key_chunk_addressing_method =
    clean-IsLine (key_line key_chunk_addressing_method) refl (omega arith)
key_IsLine key_chunk_size = clean-IsLine (key_line key_chunk_size) refl (omega arith)
key_IsLine key_retry_count = clean-IsLine (key_line key_retry_count) refl (omega arith)
key_IsLine key_keep_alive_interval =
    clean-IsLine (key_line key_keep_alive_interval) refl (omega arith)
key_IsLine key_pex_req_interval = clean-IsLine (key_line key_pex_req_interval) refl (omega arith)

comment_skipped : (text : List ℕ) → key_of (35 ∷ text) ≡ none
unfolding key_of
comment_skipped text = branch_both (λ (o : Option Key). o ≡ none) _ none none refl refl

read_skipped :
    (line : List ℕ) (lines : List (List ℕ)) (m : MetaData)
    → key_of line ≡ none
    → read_lines (line ∷ lines) m ≡ read_lines lines m
unfolding read_lines
read_skipped line [] m e = refl
read_skipped line (value ∷ lines) m e = rw (read_lines, e) refl

read_setting :
    (line value : List ℕ) (lines : List (List ℕ)) (m : MetaData) (key : Key)
    → key_of line ≡ some key
    → read_lines (line ∷ value ∷ lines) m ≡ read_lines lines (apply key (atoi (c_string value)) m)
unfolding read_lines
read_setting line value lines m key e = rw (read_lines, e) refl

line_apart : (a b c : List ℕ) → (a ++ (line_feed ∷ b)) ++ c ≡ a ++ (line_feed ∷ (b ++ c))
line_apart [] b c = refl
line_apart (x ∷ a) b c = ap (λ l. x ∷ l) (line_apart a b c)

gets_line :
    (line rest : List ℕ)
    → IsLine line
    → gets 79 (line ++ (line_feed ∷ rest)) ≡ (line ++ (line_feed ∷ [])) ∷ gets 79 rest
gets_line line rest k = gets-line 79 line rest k.unbroken (let s = k.short in omega arith)

gets-comment :
    (text rest : List ℕ)
    → IsLine (35 ∷ text)
    → gets 79 (render (comment text) ++ rest) ≡ (35 ∷ text ++ (line_feed ∷ [])) ∷ gets 79 rest
gets-comment text rest k =
    ap (gets 79) (line_apart (35 ∷ text) [] rest) ∙ gets_line (35 ∷ text) rest k

gets-setting :
    (key : Key) (value rest : List ℕ)
    → IsLine value
    → gets 79 (render (setting key value) ++ rest)
      ≡ (key_line key ++ (line_feed ∷ [])) ∷ (value ++ (line_feed ∷ [])) ∷ gets 79 rest
gets-setting key value rest k =
    ap (gets 79) (line_apart (key_line key) (value ++ (line_feed ∷ [])) rest)
    ∙ gets_line (key_line key) ((value ++ (line_feed ∷ [])) ++ rest) (key_IsLine key)
    ∙ ap (λ l. (key_line key ++ (line_feed ∷ [])) ∷ l)
        (ap (gets 79) (line_apart value [] rest) ∙ gets_line value rest k)

-- For a file of comments and settings whose lines fit into the buffer with their ends, the lines of
-- a setting being its key and its value, the reading gives what the settings give that are applied
-- in their order, each with the number that its value begins with; the comments do not matter.
pub read_config_file-render :
    (items : List Item) (m : MetaData)
    → All IsItem items
    → read_config_file (some (render_all items)) m ≡ apply_all items m
unfolding read_config_file read_lines gets
read_config_file-render [] m k = refl
read_config_file-render (comment text ∷ items) m k =
    ap (λ l. read_lines l m) (gets-comment text (render_all items) k.0)
    ∙ read_skipped _ (gets 79 (render_all items)) m (comment_skipped (text ++ (line_feed ∷ [])))
    ∙ read_config_file-render items m k.1
read_config_file-render (setting key value ∷ items) m k =
    ap (λ l. read_lines l m) (gets-setting key value (render_all items) k.0)
    ∙ read_setting _ _ (gets 79 (render_all items)) m key (key_found key)
    ∙ read_config_file-render items _ k.1
