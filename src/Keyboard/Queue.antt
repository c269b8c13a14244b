-- ===== src/Keyboard/Queue.antt =====
-- The queue as its clients see it: what was typed comes out in order, up to 256 characters.
use shade_os.Base.{
  ℕ, zero, suc, ◌-◌, ◌≤◌, ◌≡◌, refl, sym, ap, ◌∙◌, true, Option, none, some, List, [], ◌∷◌, ◌++◌,
  arith, ltb, ◌==◌, if◌then◌else◌, length, length-append, take, take_of_length_le, Bool-cases, inl,
  inr, ℤ, pos, negsuc, bit_and, ltb→lt, not_ltb→le, append_assoc, append-nil, length-take,
  replicate, map,
}
use shade_os.Keyboard.{
  Keyboard, scancode_to_ascii, put_scancode, push_ascii, get_char, rust_keyboard_init,
}

-- The characters of the keys pressed.
abbrev pub typed_key : Option ℕ → List ℕ
typed_key none = []
typed_key (some ascii) = ascii ∷ []

abbrev pub typed_one : ℕ → List ℕ
typed_one scancode =
    if bit_and scancode 0x80 == 0 then typed_key (scancode_to_ascii scancode) else []

pub typed : List ℕ → List ℕ
typed [] = []
typed (scancode ∷ rest) = typed_one scancode ++ typed rest

-- A sequence of interrupts, one for each scancode.
unfoldable pub put_all : List ℕ → Keyboard → Keyboard
put_all [] k = k
put_all (scancode ∷ rest) k = put_all rest (put_scancode scancode k)

-- The driver once it is set up, with these characters.
abbrev pub holding : List ℕ → Keyboard
holding buffer = record { buffer = some buffer; initialized = true }

take-append_full :
    {A : Type 0} (n : ℕ) (xs ys : List A) → n ≤ length xs → take n (xs ++ ys) ≡ take n xs
take-append_full zero xs ys h = refl
take-append_full (suc n) [] ys h = absurd (omega arith)
take-append_full (suc n) (x ∷ xs) ys h = ap (λ t. x ∷ t) (take-append_full n xs ys (omega arith))

take-append_take :
    {A : Type 0} (n : ℕ) (xs ys : List A) → take n (take n xs ++ ys) ≡ take n (xs ++ ys)
take-append_take zero xs ys = refl
take-append_take (suc n) [] ys = refl
take-append_take (suc n) (x ∷ xs) ys = ap (λ t. x ∷ t) (take-append_take n xs ys)

push_ascii-take :
    (o : Option ℕ) (buffer : List ℕ)
    → length buffer ≤ 256
    → push_ascii o (some buffer) ≡ some (take 256 (buffer ++ typed_key o))
push_ascii-take none buffer fits =
    ap some (sym (ap (take 256) (append-nil buffer) ∙ take_of_length_le 256 buffer fits))
push_ascii-take (some ascii) buffer fits = elim (Bool-cases (ltb (length buffer) 256)) [
  | inl room ↦ rw room (
      ap some (
        sym (
          take_of_length_le 256 (buffer ++ ascii ∷ [])
            (omega (arith, length-append buffer (ascii ∷ []), ltb→lt (length buffer) 256 room)))))
  | inr full ↦ rw full (
      ap some (
        sym (
          take-append_full 256 buffer (ascii ∷ []) (not_ltb→le (length buffer) 256 full)
          ∙ take_of_length_le 256 buffer fits)))
]

put_scancode-holding :
    (scancode : ℕ) (buffer : List ℕ)
    → length buffer ≤ 256
    → put_scancode scancode (holding buffer) ≡ holding (take 256 (buffer ++ typed_one scancode))
unfolding put_scancode
put_scancode-holding scancode buffer fits = elim (Bool-cases (bit_and scancode 0x80 == 0)) [
  | inl press ↦ rw press (
      ap (λ (b : Option (List ℕ)). record { buffer = b; initialized = true })
        (push_ascii-take (scancode_to_ascii scancode) buffer fits))
  | inr release ↦ rw release (
      ap (λ (b : Option (List ℕ)). record { buffer = b; initialized = true })
        (push_ascii-take none buffer fits))
]

-- Once set up, the driver holds after any interrupts what it held followed by the characters of the
-- keys pressed, cut to 256: never more, in the order of typing.
pub put_all-holding :
    (scancodes : List ℕ) (buffer : List ℕ)
    → length buffer ≤ 256
    → put_all scancodes (holding buffer) ≡ holding (take 256 (buffer ++ typed scancodes))
unfolding put_all typed
put_all-holding [] buffer fits =
    ap holding (sym (ap (take 256) (append-nil buffer) ∙ take_of_length_le 256 buffer fits))
put_all-holding (scancode ∷ rest) buffer fits =
    let now = take 256 (buffer ++ typed_one scancode) in
    let join : take 256 (now ++ typed rest)
        ≡ take 256 (buffer ++ (typed_one scancode ++ typed rest)) =
      take-append_take 256 (buffer ++ typed_one scancode) (typed rest)
      ∙ ap (take 256) (append_assoc buffer (typed_one scancode) (typed rest)) in
    ap (put_all rest) (put_scancode-holding scancode buffer fits)
    ∙ put_all-holding rest now (omega (arith, length-take 256 (buffer ++ typed_one scancode)))
    ∙ ap holding join

-- A client that asks for `n` characters.
unfoldable pub drain : ℕ → Keyboard → List ℤ
drain zero k = []
drain (suc n) k = (get_char k).1 ∷ drain n (get_char k).0

drain_nil : (n : ℕ) → drain n (holding []) ≡ replicate n (negsuc 0)
unfolding drain get_char
drain_nil zero = refl
drain_nil (suc n) = ap (λ (cs : List ℤ). negsuc 0 ∷ cs) (drain_nil n)

drain-holding :
    (n : ℕ) (buffer : List ℕ)
    → drain n (holding buffer) ≡ map pos (take n buffer) ++ replicate (n - length buffer) (negsuc 0)
unfolding drain get_char
drain-holding zero buffer = ap (λ (i : ℕ). replicate i (negsuc 0)) (arith_zero (length buffer))
  where
    arith_zero : (l : ℕ) → 0 ≡ 0 - l
    arith_zero l = omega arith
drain-holding (suc n) [] =
    let whole : suc n ≡ suc n - 0 = omega arith in
    drain_nil (suc n) ∙ ap (λ (i : ℕ). replicate i (negsuc 0)) whole
drain-holding (suc n) (ch ∷ buffer) =
    ap (λ (cs : List ℤ). pos ch ∷ cs)
      (drain-holding n buffer
        ∙ ap (λ (i : ℕ). map pos (take n buffer) ++ replicate i (negsuc 0)) (omega arith))

-- From set-up, a client that asks for `n` characters after any interrupts reads the characters of
-- the keys pressed in order, of which the first 256 are kept, and -1 from then on.
pub drain-put_all :
    (n : ℕ) (scancodes : List ℕ) (k : Keyboard)
    → drain n (put_all scancodes (rust_keyboard_init k))
      ≡ map pos (take n (take 256 (typed scancodes)))
        ++ replicate (n - length (take 256 (typed scancodes))) (negsuc 0)
drain-put_all n scancodes k =
    ap (drain n) (put_all-holding scancodes [] (omega arith))
    ∙ drain-holding n (take 256 (typed scancodes))
