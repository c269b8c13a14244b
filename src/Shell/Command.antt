-- ===== src/Shell/Command.antt =====
-- The command line of kernel-rs/src/bash.rs: reading it from the keyboard, and its arguments.
-- The buffers are written from the front: what is written stands in a list, and the position in the
-- buffer is its length.
pub mod Words
pub mod Typing
use shade_os.Base.{
  ℕ, zero, suc, ◌+◌, ◌-◌, ◌*◌, ◌≤◌, Bool, true, false, not, ◌&&◌, ◌||◌, List, [], ◌∷◌, ◌++◌, Option,
  none, some, ltb, leb, ◌==◌, if◌then◌else◌, length, reverse,
}
use shade_os.Shell.{get_str}

abbrev pub max_args : ℕ
max_args = 32

-- `64 * MAX_ARGS`
abbrev pub args_size : ℕ
args_size = 64 * max_args

abbrev pub blank : ℕ → Bool
blank c = (c == 32) || (c == 9)

-- The variables of the loop of `parse_command_heap`; `buffer_pos` is the length of what is written.
pub record Parser : Type 0 where
  pub written : List ℕ
  pub arg_start : ℕ
  pub argc : ℕ
  pub in_quotes : Bool
  pub quote_char : ℕ

abbrev pub end_arg : Parser → Parser
end_arg p =
    if ltb p.arg_start (length p.written)
    then record p {
      written = p.written ++ 0 ∷ [];
      arg_start = length p.written + 1;
      argc = p.argc + 1;
    }
    else p

-- One character. The loop that skips blanks behind an argument is as good as further rounds, which
-- find no argument to end.
unfoldable pub step : ℕ → Parser → Parser
step ch p =
    if not p.in_quotes && blank ch
    then end_arg p
    else if (ch == 34) || (ch == 39)
    then (if not p.in_quotes
        then record p { in_quotes = true; quote_char = ch }
        else if ch == p.quote_char
        then record p { in_quotes = false }
        else p)
    else record p { written = p.written ++ ch ∷ [] }

abbrev pub full : Parser → Bool
full p = leb max_args p.argc || leb (args_size - 64) (length p.written)

unfoldable pub parse : List ℕ → Parser → Parser
parse [] p = p
parse (ch ∷ line) p = let rest = parse line (step ch p) in if full p then p else rest

unfoldable pub skip_blanks : List ℕ → List ℕ
skip_blanks [] = []
skip_blanks (c ∷ line) = if blank c then skip_blanks line else c ∷ line

abbrev pub start : Parser
start = record { written = []; arg_start = 0; argc = 0; in_quotes = false; quote_char = 0 }

-- "Add final argument"
unfoldable pub finish : Parser → List ℕ × ℕ
finish p =
    if ltb p.arg_start (length p.written) && ltb p.argc max_args
    then (p.written ++ 0 ∷ [], p.argc + 1)
    else (p.written, p.argc)

-- What is written to the buffer, and the number of arguments.
unfoldable pub parse_command_heap : List ℕ → List ℕ × ℕ
parse_command_heap line = finish (parse (skip_blanks line) start)

-- The buffer behind the next zero byte.
unfoldable pub skip_arg : List ℕ → List ℕ
skip_arg [] = []
skip_arg (b ∷ bs) = if b == 0 then bs else skip_arg bs

unfoldable pub get_arg_heap : List ℕ → ℕ → List ℕ
get_arg_heap args zero = get_str args
get_arg_heap args (suc n) = get_arg_heap (skip_arg args) n

-- `read_line`: the bytes that the keyboard gives up to a newline, the line so far backwards; none if
-- they end before. Other keys than these and printable ones are ignored, and so are printable ones
-- when the buffer of `size` bytes has only the place for the zero left.
unfoldable pub read_line : ℕ → List ℕ → List ℕ → Option (List ℕ)
read_line size [] line = none
read_line size (ch ∷ keys) line =
    let typed = read_line size keys (ch ∷ line) in
    let ignored = read_line size keys line in
    let erased = read_line size keys (erase line) in
    if (ch == 10) || (ch == 13)
    then some (reverse line)
    else if (ch == 8) || (ch == 127)
    then erased
    else if (leb 32 ch && ltb ch 127) && ltb (length line) (size - 1)
    then typed
    else ignored
  where
    erase : List ℕ → List ℕ
    erase [] = []
    erase (c ∷ line) = line

-- `update_prompt`: "root@shadeos:", the directory and "$ ", cut to 63 bytes, and the zero behind.
abbrev pub copy_prompt : List ℕ → List ℕ → List ℕ
copy_prompt [] prompt = prompt
copy_prompt (b ∷ src) prompt =
    copy_prompt src (if ltb (length prompt) 63 then prompt ++ b ∷ [] else prompt)

unfoldable pub update_prompt : List ℕ → List ℕ
update_prompt cwd =
    copy_prompt (36 ∷ 32 ∷ []) (
      copy_prompt (get_str cwd) (
        copy_prompt (114 ∷ 111 ∷ 111 ∷ 116 ∷ 64 ∷ 115 ∷ 104 ∷ 97 ∷ 100 ∷ 101 ∷ 111 ∷ 115 ∷ 58 ∷ [])
          []))
    ++ 0 ∷ []
