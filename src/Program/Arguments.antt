-- ===== src/Program/Arguments.antt =====
-- main.cpp: the loop of `main` over the arguments, and the checks behind it.
use ppsp.Common.{
  ℕ, Bool, true, false, Option, none, some, List, [], ◌∷◌, length, ltb, ◌==◌, if◌then◌else◌,
}
use ppsp.Common.Int.{ℤ, pos, leb_ℤ}
use ppsp.Program.Config.{atoi}

pub record Arguments : Type 0 where
  pub filename : List ℕ
  pub ipaddress : List ℕ
  pub port : ℤ
  pub trackerip : List ℕ
  pub trackerport : ℤ
  pub hash : List ℕ
  pub listen_opt : ℤ

abbrev pub no_arguments : Arguments
no_arguments = record {
  filename = [];
  ipaddress = [];
  port = pos 0;
  trackerip = [];
  trackerport = pos 0;
  hash = [];
  listen_opt = pos 0;
}

-- How the loop ends: never, with a read through a null pointer, or behind the last argument.
pub data Parsed : Type 0 where
  endless fault : Parsed
  parsed : Arguments → Parsed

-- The letter of an option.
abbrev pub letter : List ℕ → Option ℕ
letter [] = none
letter (d ∷ []) = none
letter (d ∷ c ∷ []) = if d == 45 then some c else none
letter (d ∷ c ∷ e ∷ rest) = none

-- The text before the first colon and behind it.
abbrev pub split_colon : List ℕ → Option (List ℕ × List ℕ)
split_colon [] = none
split_colon (x ∷ xs) = elim (x == 58) [
  | true ↦ some ([], xs)
  | false ↦ elim (split_colon xs) [
    | none ↦ none
    | some (before, behind) ↦ some (x ∷ before, behind)
  ]
]

-- Without a colon the value of -t goes to `port`.
unfoldable pub set_tracker : List ℕ → Arguments → Arguments
set_tracker value a = elim (split_colon value) [
  | none ↦ record a { port = atoi value }
  | some (ip, port) ↦ record a { trackerip = ip; trackerport = atoi port }
]

unfoldable pub set_listen : List ℕ → Arguments → Arguments
set_listen value a = elim (split_colon value) [
  | none ↦ record a { port = atoi value }
  | some (ip, port) ↦ record a { ipaddress = ip; port = atoi port }
]

-- An option with a value, by its letter: h, t, f and l. Another letter has no effect.
unfoldable pub set_value : ℕ → List ℕ → Arguments → Arguments
set_value c value a =
    if c == 104
    then record a { hash = value }
    else if c == 116
    then set_tracker value a
    else if c == 102
    then record a { filename = value }
    else if c == 108
    then set_listen value a
    else a

abbrev pub reads_value : ℕ → Bool
reads_value c =
    if c == 104 then true else if c == 116 then true else if c == 102 then true else c == 108

-- The options without a value: d, which is about the log, and o.
abbrev pub is_flag : ℕ → Bool
is_flag c = if c == 100 then true else c == 111

unfoldable pub set_flag : ℕ → Arguments → Arguments
set_flag c a = if c == 111 then record a { listen_opt = pos 1 } else a

-- The loop. An argument that is not an option is looked at for ever; an unknown option takes the
-- argument behind it with it.
unfoldable pub parse : List (List ℕ) → Arguments → Parsed
parse [] a = parsed a
parse (arg ∷ []) a = elim (letter arg) [
  | none ↦ endless
  | some c ↦ elim (is_flag c) [
    | true ↦ parsed (set_flag c a)
    | false ↦ if reads_value c then fault else parsed a
  ]
]
parse (arg ∷ value ∷ rest) a = elim (letter arg) [
  | none ↦ endless
  | some c ↦ elim (is_flag c) [
    | true ↦ parse (value ∷ rest) (set_flag c a)
    | false ↦ parse rest (set_value c value a)
  ]
]

-- The checks behind the loop; where one fails the program prints its usage and ends.
unfoldable pub is_usable : Arguments → Bool
is_usable a =
    if ltb 0 (length a.trackerip)
    then (if length a.hash == 0
        then false
        else if leb_ℤ a.trackerport (pos 0)
        then false
        else if leb_ℤ a.port (pos 0)
        then false
        else true)
    else if leb_ℤ a.port (pos 0)
    then false
    else if length a.filename == 0
    then false
    else true
