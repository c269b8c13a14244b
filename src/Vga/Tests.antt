-- ===== src/Vga/Tests.antt =====
-- Runs of the text screen, and the theorems at them.
use shade_os.Base.{
  ℕ, ◌*◌, ◌≡◌, false, List, [], ◌∷◌, ◌++◌, length, length-replicate, drop, replicate,
}
use shade_os.Vga.{
  Screen, cell, print_char, rust_vga_init, rust_vga_print, set_cursor_position, scroll_cells,
}
use shade_os.Vga.Scroll.{scroll_cells_lem}
use shade_os.Vga.Cursor.{started, next, printed, moved, printed_char, IsScreen, Reach-IsScreen}

abbrev empty : List ℕ
empty = replicate 2000 0

empty-length : length empty ≡ 80 * 25
empty-length = length-replicate {A = ℕ} 2000 0

abbrev screen : ℕ → Screen
screen y = record {
  cells = empty;
  cursor_x = 0;
  cursor_y = y;
  color = 0x0F;
  auto_clear = false;
  port = y * 80;
}

-- "ok"
abbrev text : List ℕ
text = b'o' ∷ b'k' ∷ []

Reach-IsScreen_example : IsScreen (
    print_char b'\n' (set_cursor_position 100 100 (rust_vga_print text (rust_vga_init (screen 0)))))
Reach-IsScreen_example = Reach-IsScreen (
    next (next (next (started (screen 0) empty-length) (printed text)) (moved 100 100))
      (printed_char b'\n'))

scroll_cells_lem_example : scroll_cells 0x0F empty ≡ drop 80 empty ++ replicate 80 (cell 0x0F b' ')
scroll_cells_lem_example = scroll_cells_lem 0x0F empty empty-length
