-- ===== src/Vfs/Listing.antt =====
-- `list_directory` of kernel-rs/src/vfs.rs: the answer, and the lines it puts on the screen. The two
-- header lines are constants and are left out.
use shade_os.Base.{
  ℕ, zero, suc, ◌+◌, ◌-◌, ◌*◌, ◌/◌, ◌%◌, ◌^◌, ◌<◌, ◌≡◌, List, [], ◌∷◌, ◌++◌, arith, ltb, ◌==◌,
  if◌then◌else◌, length, length-append, replicate, ℤ, pos, negsuc, Option, none, some, Bool-cases,
  inl, inr, ltb→lt, ap, ◌∙◌, ==→eq,
}
use shade_os.Vfs.{
  Name, FileEntry, entry, Dir, nil, cons, FileType, regular, directory, file_type, contents, Fs,
  find_entry,
}

-- The decimal digits of a number in at most `slots` places, the last first, before `behind`.
pub digits : ℕ → ℕ → List ℕ → List ℕ
digits zero n behind = behind
digits (suc slots) n behind =
    if n == 0 then behind else digits slots (n / 10) ((b'0' + n % 10) ∷ behind)

unfoldable pub size_digits : ℕ → List ℕ
size_digits size = if size == 0 then b'0' ∷ [] else digits 10 size []

-- The closure `write`: what does not fit in the 256 bytes of `line_buf` is left out.
abbrev pub write : List ℕ → List ℕ → List ℕ
write line s = if ltb (length line + length s) 256 then line ++ s else line

abbrev pub write_all : List ℕ → List (List ℕ) → List ℕ
write_all line [] = line
write_all line (s ∷ ss) = write_all (write line s) ss

abbrev pub two_spaces : List ℕ
two_spaces = b' ' ∷ b' ' ∷ []

abbrev pub type_char : FileType → ℕ
type_char directory = b'd'
type_char regular = b'-'

abbrev pub perms : List ℕ
perms = b'r' ∷ b'w' ∷ b'x' ∷ b'r' ∷ b'-' ∷ b'x' ∷ b'r' ∷ b'-' ∷ b'x' ∷ []

abbrev pub root_name : List ℕ
root_name = b'r' ∷ b'o' ∷ b'o' ∷ b't' ∷ []

abbrev pub date : List ℕ
date = b'J' ∷ b'a' ∷ b'n' ∷ b' ' ∷ b' ' ∷ b'1' ∷ b' ' ∷ b'0' ∷ b'0' ∷ b':' ∷ b'0' ∷ b'0' ∷ []

-- What is written before the padding, and behind it.
abbrev pub head_parts : FileType → List (List ℕ)
head_parts t =
    (type_char t ∷ [])
    ∷ two_spaces
    ∷ perms
    ∷ two_spaces
    ∷ (b'1' ∷ [])
    ∷ two_spaces
    ∷ root_name
    ∷ two_spaces
    ∷ root_name
    ∷ two_spaces
    ∷ []

-- The bytes of a name in UTF-8. A character comes from one byte of a path, so it is below 256, and
-- takes two bytes from 0x80 on.
abbrev pub as_bytes : Name → List ℕ
as_bytes [] = []
as_bytes (c ∷ name) =
    if ltb c 0x80 then c ∷ as_bytes name else (0xC0 + c / 64) ∷ (0x80 + c % 64) ∷ as_bytes name

abbrev pub tail_parts : List ℕ → Name → List (List ℕ)
tail_parts size name = size ∷ two_spaces ∷ date ∷ two_spaces ∷ as_bytes name ∷ (b'\n' ∷ []) ∷ []

-- The line so far, once the size is padded to ten places.
abbrev pub padded : FileType → List ℕ → List ℕ
padded t size = write_all (write_all [] (head_parts t)) (replicate (10 - length size) (b' ' ∷ []))

-- The line of one child, without the zero at its end.
pub list_line : Name → FileEntry → List ℕ
list_line name child =
    let size = size_digits (length (contents child)) in
    write_all (padded (file_type child) size) (tail_parts size name)

pub list_lines : Dir → List (List ℕ)
list_lines nil = []
list_lines (cons name child d) = list_line name child ∷ list_lines d

pub list_entry : FileEntry → ℤ × List (List ℕ)
list_entry (entry n directory d ch) = (pos 0, list_lines ch)
list_entry (entry n regular d ch) = (negsuc 19, [])

pub list_directory : Option (List ℕ) → Fs → ℤ × List (List ℕ)
list_directory path fs = elim (find_entry path fs) [ none ↦ (negsuc 1, []) | some e ↦ list_entry e ]

write_all-fits :
    (ss : List (List ℕ)) (line : List ℕ) → length line < 256 → length (write_all line ss) < 256
write_all-fits [] line h = h
write_all-fits (s ∷ ss) line h = elim (Bool-cases (ltb (length line + length s) 256)) [
  | inl fits ↦ rw fits (
      write_all-fits ss (line ++ s)
        (omega (arith, length-append line s, ltb→lt (length line + length s) 256 fits)))
  | inr full ↦ rw full (write_all-fits ss line h)
]

-- However long the name and the size are, the line and the zero behind it fit in the 256 bytes
-- of `line_buf`.
pub list_line-fits : (name : Name) (child : FileEntry) → length (list_line name child) < 256
unfolding list_line
list_line-fits name child =
    let size = size_digits (length (contents child)) in
    let blanks : List (List ℕ) = replicate (10 - length size) (b' ' ∷ []) in
    let head = write_all [] (head_parts (file_type child)) in
    write_all-fits (tail_parts size name) (padded (file_type child) size)
      (write_all-fits blanks head (write_all-fits (head_parts (file_type child)) [] (omega arith)))

-- The number that decimal digits stand for.
pub value : List ℕ → ℕ → ℕ
value [] acc = acc
value (c ∷ cs) acc = value cs (10 * acc + (c - b'0'))

value-digits :
    (slots n : ℕ) (behind : List ℕ)
    → n < 10 ^ slots
    → value (digits slots n behind) 0 ≡ value behind n
unfolding digits value
value-digits zero n behind h = ap (value behind) (omega arith)
value-digits (suc slots) n behind h = elim (Bool-cases (n == 0)) [
  | inl zero' ↦ rw zero' (ap (value behind) (omega (arith, ==→eq n 0 zero')))
  | inr more ↦ rw more (
      value-digits slots (n / 10) ((b'0' + n % 10) ∷ behind) (omega arith)
      ∙ ap (value behind) (omega arith))
]

-- The size printed is the size, up to ten digits.
pub value-size_digits : (size : ℕ) → size < 10 ^ 10 → value (size_digits size) 0 ≡ size
unfolding size_digits value
value-size_digits size h = elim (Bool-cases (size == 0)) [
  | inl zero' ↦ rw zero' (omega (arith, ==→eq size 0 zero'))
  | inr more ↦ rw more (value-digits 10 size [] h)
]
