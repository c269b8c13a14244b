-- ===== src/Shell.antt =====
-- The data of the shell, kernel-rs/src/bash.rs: its strings, which are byte arrays with a zero behind
-- the text, environment variables, aliases and the history. The three tables are the used parts of
-- the allocated arrays, which were cleared. Messages are left out.
pub mod Strings
pub mod Tables
pub mod Command
mod Tests
use shade_os.Base.{
  ℕ, ◌+◌, ◌-◌, ◌≡◌, Bool, true, false, Option, none, some, List, [], ◌∷◌, ◌++◌, ltb, ◌==◌,
  if◌then◌else◌, bytes_eq, length, set, take, drop, replicate, min,
}

unfoldable pub get_str : List ℕ → List ℕ
get_str [] = []
get_str (b ∷ bytes) = if b == 0 then [] else b ∷ get_str bytes

abbrev pub str_eq : List ℕ → List ℕ → Bool
str_eq a b = bytes_eq (get_str a) (get_str b)

-- The copy of `len` bytes to the front, and the zero behind them.
abbrev pub terminated : ℕ → List ℕ → List ℕ → List ℕ
terminated len dest src = set (take len src ++ drop len dest) len 0

unfoldable pub copy_str : List ℕ → List ℕ → List ℕ
copy_str dest src =
    if length dest == 0 then dest else terminated (min (length dest - 1) (length src)) dest src

-- The copy of `copy_len` bytes behind the first `dest_len`, and the zero behind them.
abbrev pub appended : ℕ → ℕ → List ℕ → List ℕ → List ℕ
appended dest_len copy_len dest src =
    if ltb (dest_len + copy_len) (length dest)
    then set (take dest_len dest ++ (take copy_len src ++ drop (dest_len + copy_len) dest))
        (dest_len + copy_len) 0
    else dest

unfoldable pub str_append : List ℕ → List ℕ → List ℕ
str_append dest src =
    appended (length (get_str dest)) (min (length dest - (length (get_str dest) + 1)) (length src))
      dest src

pub record EnvVar : Type 0 where
  pub name : List ℕ
  pub value : List ℕ

pub record Alias : Type 0 where
  pub name : List ℕ
  pub command : List ℕ

abbrev pub max_env_vars : ℕ
max_env_vars = 50

abbrev pub max_aliases : ℕ
max_aliases = 20

abbrev pub max_history : ℕ
max_history = 10

abbrev pub blank_env : EnvVar
blank_env = record { name = replicate 64 0; value = replicate 256 0 }

-- The loop of `set_env` that compares a name field with a name.
pub match_name : List ℕ → List ℕ → Bool
match_name [] name = true
match_name (f ∷ field) [] = f == 0
match_name (f ∷ field) (c ∷ name) =
    if f == c then (if c == 0 then true else match_name field name) else false

-- The loops of `set_env` that copy a name or a value to its field.
pub write_field : List ℕ → List ℕ → List ℕ
write_field [] src = []
write_field (f ∷ field) [] = 0 ∷ field
write_field (f ∷ field) (c ∷ src) = c ∷ (if c == 0 then field else write_field field src)

abbrev pub write_env : List ℕ → List ℕ → EnvVar → EnvVar
write_env name value e = record {
  name = write_field e.name name;
  value = write_field e.value value;
}

-- The search, then the write at the variable found or at a new one; none is found and there is
-- room for none: nothing.
unfoldable pub set_env : List ℕ → List ℕ → ℕ → List EnvVar → List EnvVar
set_env name value index [] =
    if ltb index max_env_vars then write_env name value blank_env ∷ [] else []
set_env name value index (e ∷ env) =
    if match_name e.name name
    then write_env name value e ∷ env
    else e ∷ set_env name value (index + 1) env

pub get_env : List ℕ → List EnvVar → Option (List ℕ)
get_env name [] = none
get_env name (e ∷ env) = if str_eq e.name name then some (get_str e.value) else get_env name env

unfoldable pub set_alias : List ℕ → List ℕ → List Alias → List Alias
set_alias name command aliases =
    if ltb (length aliases) max_aliases
    then aliases
      ++ record {
        name = terminated (min (length name) 31) (replicate 32 0) name;
        command = terminated (min (length command) 255) (replicate 256 0) command;
      }
        ∷ []
    else aliases

unfoldable pub get_alias : List ℕ → List Alias → Option (List ℕ)
get_alias name [] = none
get_alias name (a ∷ aliases) =
    if str_eq a.name name then some (get_str a.command) else get_alias name aliases

-- The assignment of an entry of 1024 bytes.
abbrev pub write_history : List ℕ → List ℕ → List ℕ
write_history command slot = terminated (min (length command) 1023) slot command

-- The loop that moves the entries up, then the write at the last: the last entry is also the one
-- written over.
pub shift_history : List ℕ → List (List ℕ) → List (List ℕ)
shift_history command [] = []
shift_history command (slot ∷ []) = write_history command slot ∷ []
shift_history command (slot ∷ next ∷ rest) = next ∷ shift_history command (next ∷ rest)

unfoldable pub add_to_history : List ℕ → List (List ℕ) → List (List ℕ)
add_to_history command history =
    if ltb (length history) max_history
    then history ++ write_history command (replicate 1024 0) ∷ []
    else shift_history command history
