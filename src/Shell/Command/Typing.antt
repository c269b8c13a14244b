-- ===== src/Shell/Command/Typing.antt =====
-- Typing a line: what `read_line` makes of printable text, backspaces and Enter.
use shade_os.Base.{
  ℕ, ◌+◌, ◌-◌, ◌≤◌, ◌<◌, ◌≡◌, refl, ap, ◌∙◌, true, false, ◌&&◌, ◌||◌, List, [], ◌∷◌, ◌++◌, some,
  arith, ltb, leb, ◌==◌, length, reverse, ◌⊎◌,
}
use mathlib.Core.List.{reverse_aux, reverse_aux-eq, reverse-reverse}
use shade_os.Shell.Command.{read_line}

-- The keys that erase a character: backspace and delete, 8 and 127.
abbrev pub AreErasers : List ℕ → Type 0
AreErasers [] = Unit
AreErasers (k ∷ ks) = ((k ≡ 8) ⊎ (k ≡ 127)) × AreErasers ks

-- The characters that are taken.
abbrev pub ArePrintable : List ℕ → Type 0
ArePrintable [] = Unit
ArePrintable (c ∷ cs) = (32 ≤ c) × (c < 127) × ArePrintable cs

read_line-typed :
    (size : ℕ) (text keys line : List ℕ)
    → ArePrintable text
    → length line + length text < size
    → read_line size (text ++ keys) line ≡ read_line size keys (reverse_aux text line)
unfolding read_line
read_line-typed size [] keys line p lt = refl
read_line-typed size (c ∷ text) keys line (lo, hi, p) lt =
    let enter : ((c == 10) || (c == 13)) ≡ false = ground arith in
    let back : ((c == 8) || (c == 127)) ≡ false = ground arith in
    let room : ((leb 32 c && ltb c 127) && ltb (length line) (size - 1)) ≡ true = ground arith in
    rw (enter, back, room) (read_line-typed size text keys (c ∷ line) p (omega (arith, lt)))

read_line-erased :
    (size : ℕ) (erasers gone keys line : List ℕ)
    → AreErasers erasers
    → length erasers ≡ length gone
    → read_line size (erasers ++ keys) (gone ++ line) ≡ read_line size keys line
unfolding read_line
read_line-erased size [] [] keys line e same = refl
read_line-erased size [] (c ∷ gone) keys line e same = absurd (omega (arith, same))
read_line-erased size (k ∷ ks) [] keys line e same = absurd (omega (arith, same))
read_line-erased size (k ∷ ks) (c ∷ gone) keys line (erases, e) same =
    let enter : ((k == 10) || (k == 13)) ≡ false = ground (arith, erases) in
    let back : ((k == 8) || (k == 127)) ≡ true = ground (arith, erases) in
    rw (enter, back) (read_line-erased size ks gone keys line e (omega (arith, same)))

length-reverse_aux : (xs ys : List ℕ) → length (reverse_aux xs ys) ≡ length xs + length ys
length-reverse_aux [] ys = omega arith
length-reverse_aux (x ∷ xs) ys = omega (arith, length-reverse_aux xs (x ∷ ys))

read_line-enter :
    (size : ℕ) (keys line : List ℕ) → read_line size (10 ∷ keys) line ≡ some (reverse line)
unfolding read_line
read_line-enter size keys line = refl

-- Typing printable text, then more of it that is erased with as many keys, each of them 8 or 127, and
-- Enter reads the first text, while all of it fits in the buffer with a zero.
pub read_line_lem :
    (size : ℕ) (text gone erasers keys : List ℕ)
    → ArePrintable text
    → ArePrintable gone
    → AreErasers erasers
    → length erasers ≡ length gone
    → length text + length gone < size
    → read_line size (text ++ (gone ++ (erasers ++ 10 ∷ keys))) [] ≡ some text
read_line_lem size text gone erasers keys p q e as_many lt =
    let typed =
      read_line-typed size text (gone ++ (erasers ++ 10 ∷ keys)) [] p (omega (arith, lt)) in
    let at : length (reverse text) ≡ length text = omega (arith, length-reverse_aux text []) in
    let more =
      read_line-typed size gone (erasers ++ 10 ∷ keys) (reverse text) q (omega (arith, at, lt)) in
    let size_gone : length erasers ≡ length (reverse gone) =
      omega (arith, length-reverse_aux gone [], as_many) in
    typed
    ∙ more
    ∙ ap (read_line size (erasers ++ 10 ∷ keys)) (reverse_aux-eq gone (reverse text))
    ∙ read_line-erased size erasers (reverse gone) (10 ∷ keys) (reverse text) e size_gone
    ∙ read_line-enter size keys (reverse text)
    ∙ ap some (reverse-reverse text)
