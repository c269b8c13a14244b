-- ===== src/Keyboard.antt =====
-- The keyboard driver, kernel-rs/src/keyboard.rs: scancodes become characters in a bounded queue.
-- The byte that `inb` reads from the data port is an argument; messages are left out.
pub mod Queue
mod Tests
use shade_os.Base.{
  ℕ, ◌≡◌, Bool, true, false, not, ◌&&◌, Option, none, some, List, [], ◌∷◌, ◌++◌, ltb, ◌==◌,
  if◌then◌else◌, length, get_or, ℤ, pos, negsuc, bit_and,
}

-- KEYBOARD_BUFFER and KEYBOARD_INITIALIZED.
pub record Keyboard : Type 0 where
  pub buffer : Option (List ℕ)
  pub initialized : Bool

abbrev pub unset : Keyboard
unset = record { buffer = none; initialized = false }

abbrev pub scancode_table : List ℕ
scancode_table =
    0 ∷ 27 ∷ 49 ∷ 50 ∷ 51 ∷ 52 ∷ 53 ∷ 54 ∷ 55 ∷ 56 ∷ 57 ∷ 48 ∷ 45 ∷ 61 ∷ 8 ∷ 9 ∷ 113 ∷ 119 ∷ 101
    ∷ 114 ∷ 116 ∷ 121 ∷ 117 ∷ 105 ∷ 111 ∷ 112 ∷ 91 ∷ 93 ∷ 10 ∷ 0 ∷ 97 ∷ 115 ∷ 100 ∷ 102 ∷ 103 ∷ 104
    ∷ 106 ∷ 107 ∷ 108 ∷ 59 ∷ 39 ∷ 96 ∷ 0 ∷ 92 ∷ 122 ∷ 120 ∷ 99 ∷ 118 ∷ 98 ∷ 110 ∷ 109 ∷ 44 ∷ 46 ∷ 47
    ∷ 0 ∷ 42 ∷ 0 ∷ 32 ∷ 0 ∷ 0 ∷ 0 ∷ 0 ∷ 0 ∷ 0 ∷ 0 ∷ 0 ∷ 0 ∷ 0 ∷ 0 ∷ 0 ∷ 0 ∷ 0 ∷ 0 ∷ 0 ∷ 45 ∷ 0 ∷ 0
    ∷ 0 ∷ 43 ∷ 0 ∷ 0 ∷ 0 ∷ 0 ∷ 0 ∷ 0 ∷ 0 ∷ 0 ∷ 0 ∷ 0 ∷ 0 ∷ 0 ∷ 0 ∷ 0 ∷ 0 ∷ 0 ∷ 0 ∷ 0 ∷ 0 ∷ 0 ∷ 0 ∷ 0
    ∷ 0 ∷ 0 ∷ 0 ∷ 0 ∷ 0 ∷ 0 ∷ 0 ∷ 0 ∷ 0 ∷ 0 ∷ 0 ∷ 0 ∷ 0 ∷ 0 ∷ 0 ∷ 0 ∷ 0 ∷ 0 ∷ 0 ∷ 0 ∷ 0 ∷ 0 ∷ 0 ∷ 0
    ∷ 0 ∷ 0 ∷ 0 ∷ []

abbrev pub rust_keyboard_init : Keyboard → Keyboard
rust_keyboard_init k = record { buffer = some []; initialized = true }

abbrev pub nonzero : ℕ → Option ℕ
nonzero ascii = if ascii == 0 then none else some ascii

unfoldable pub scancode_to_ascii : ℕ → Option ℕ
scancode_to_ascii scancode =
    if ltb scancode (length scancode_table)
    then nonzero (get_or scancode_table scancode 0)
    else none

-- The push, which drops the character if there are 256.
abbrev pub push_ascii : Option ℕ → Option (List ℕ) → Option (List ℕ)
push_ascii none buffer = buffer
push_ascii (some ascii) none = none
push_ascii (some ascii) (some buffer) =
    some (if ltb (length buffer) 256 then buffer ++ ascii ∷ [] else buffer)

-- `handle_keyboard_interrupt`, and `rust_keyboard_put_scancode`, which differs in its messages.
pub put_scancode : ℕ → Keyboard → Keyboard
put_scancode scancode k = record k {
  buffer =
      if bit_and scancode 0x80 == 0
      then push_ascii (scancode_to_ascii scancode) k.buffer
      else k.buffer;
}

-- The front of the queue, -1 without one.
abbrev pub pop_front : Option (List ℕ) → Option (List ℕ) × ℤ
pop_front none = (none, negsuc 0)
pop_front (some []) = (some [], negsuc 0)
pop_front (some (ch ∷ buffer)) = (some buffer, pos ch)

unfoldable pub get_char : Keyboard → Keyboard × ℤ
get_char k =
    if not k.initialized
    then (k, negsuc 0)
    else let (buffer', ch) = pop_front k.buffer in (record k { buffer = buffer' }, ch)

abbrev pub emptied : Option (List ℕ) → Option (List ℕ)
emptied none = none
emptied (some buffer) = some []

unfoldable pub clear_buffer : Keyboard → Keyboard
clear_buffer k = if not k.initialized then k else record k { buffer = emptied k.buffer }

abbrev pub has_data : Option (List ℕ) → Bool
has_data none = false
has_data (some []) = false
has_data (some (ch ∷ buffer)) = true

unfoldable pub buffer_has_data : Keyboard → Bool
buffer_has_data k = if not k.initialized then false else has_data k.buffer
