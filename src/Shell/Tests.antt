-- ===== src/Shell/Tests.antt =====
-- Runs of the shell's tables, and the theorems at them.
use shade_os.Base.{
  inl, inr, ℕ, ◌<◌, ◌≡◌, refl, List, [], ◌∷◌, ◌++◌, arith, if◌then◌else◌, bytes_eq, length, take,
  none, get_elem?, some,
}
use shade_os.Shell.{get_str, str_append, copy_str, set_env, get_env, set_alias, get_alias}
use shade_os.Shell.Tables.{get_env-set_env, get_alias-set_alias, or_else}
use shade_os.Shell.Command.{parse_command_heap, get_arg_heap, read_line}
use shade_os.Shell.Command.Words.{AreWords, unwords, get_arg_heap-parse_command_heap}
use shade_os.Shell.Command.Typing.{read_line_lem}

-- "ls", "ab" and an array of five bytes that holds "ls".
abbrev ls : List ℕ
ls = b'l' ∷ b's' ∷ []

abbrev ab : List ℕ
ab = b'a' ∷ b'b' ∷ []

abbrev array : List ℕ
array = b'l' ∷ b's' ∷ 0 ∷ 0 ∷ 0 ∷ []

appended_text : get_str (str_append array ab) ≡ b'l' ∷ b's' ∷ b'a' ∷ b'b' ∷ []
unfolding get_str str_append
appended_text = refl

copied_text : get_str (copy_str array (b'x' ∷ [])) ≡ b'x' ∷ []
unfolding get_str copy_str
copied_text = refl

length-ls : length (get_str array) ≡ 2
unfolding get_str
length-ls = refl

length-get_ls : length (get_str ls) ≡ 2
unfolding get_str
length-get_ls = refl

length-get_ab : length (get_str ab) ≡ 2
unfolding get_str
length-get_ab = refl

get_env-set_env_example :
    get_env ls (set_env ls ab 0 [])
    ≡ (if bytes_eq (get_str ls) (get_str ls) then some (get_str ab) else get_env ls [])
get_env-set_env_example =
    get_env-set_env ls ab ls 0 [] tt (omega (arith, length-get_ls)) (omega (arith, length-get_ab))
      (omega arith)

get_alias-set_alias_example :
    get_alias ls (set_alias ls array (set_alias ls ab []))
    ≡ or_else (get_alias ls (set_alias ls ab [])) (
        if bytes_eq (get_str (take 31 ls)) (get_str ls)
        then some (get_str (take 255 array))
        else none)
get_alias-set_alias_example = get_alias-set_alias ls array ls (set_alias ls ab []) one_alias
  where
    one_alias : length (set_alias ls ab []) < 20
    one_alias = unfold set_alias in omega arith

-- "ls" and "-l".
abbrev two_words : List (List ℕ)
two_words = (b'l' ∷ b's' ∷ []) ∷ (b'-' ∷ b'l' ∷ []) ∷ []

two_words-AreWords : AreWords two_words
two_words-AreWords = omega arith

get_arg_heap-parse_command_heap_example :
    ((parse_command_heap (unwords two_words)).1 ≡ 2)
    × ((behind : List ℕ) (n : ℕ) (w : List ℕ)
        → get_elem? two_words n ≡ some w
        → get_arg_heap ((parse_command_heap (unwords two_words)).0 ++ behind) n ≡ w)
get_arg_heap-parse_command_heap_example =
    get_arg_heap-parse_command_heap two_words two_words-AreWords (omega arith) (omega arith)

-- "ls", then a letter that is erased, and Enter.
read_line_lem_example :
    read_line 1024 (b'l' ∷ b's' ∷ b'x' ∷ b'y' ∷ 8 ∷ 127 ∷ 10 ∷ []) [] ≡ some (b'l' ∷ b's' ∷ [])
read_line_lem_example =
    read_line_lem 1024 (b'l' ∷ b's' ∷ []) (b'x' ∷ b'y' ∷ []) (8 ∷ 127 ∷ []) []
      (omega arith, omega arith, (omega arith, omega arith, tt))
      (omega arith, omega arith, (omega arith, omega arith, tt)) (inl refl, (inr refl, tt)) refl
      (omega arith)
