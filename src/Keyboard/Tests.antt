-- ===== src/Keyboard/Tests.antt =====
-- Runs of the keyboard driver, and the theorems at them.
use shade_os.Base.{
  ℕ, ◌-◌, ◌≡◌, refl, false, List, [], ◌∷◌, ◌++◌, pos, negsuc, length, take, replicate, map,
}
use shade_os.Keyboard.{
  unset, rust_keyboard_init, put_scancode, scancode_to_ascii, get_char, clear_buffer,
  buffer_has_data,
}
use shade_os.Keyboard.Queue.{typed, holding, put_all, drain, drain-put_all}

-- "hi", with the releases of the keys.
abbrev hi : List ℕ
hi = 0x23 ∷ 0xA3 ∷ 0x17 ∷ 0x97 ∷ []

read_hi : drain 3 (put_all hi (rust_keyboard_init unset)) ≡ pos b'h' ∷ pos b'i' ∷ negsuc 0 ∷ []
unfolding drain put_all put_scancode scancode_to_ascii get_char
read_hi = refl

not_set_up : (get_char unset).1 ≡ negsuc 0
unfolding get_char
not_set_up = refl

cleared : buffer_has_data (clear_buffer (holding (1 ∷ []))) ≡ false
unfolding buffer_has_data clear_buffer
cleared = refl

drain-put_all_example :
    drain 3 (put_all hi (rust_keyboard_init unset))
    ≡ map pos (take 3 (take 256 (typed hi)))
      ++ replicate (3 - length (take 256 (typed hi))) (negsuc 0)
drain-put_all_example = drain-put_all 3 hi unset
