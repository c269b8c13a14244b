-- ===== src/Vga.antt =====
-- The text screen, kernel-rs/src/vga.rs: the cells of the buffer at 0xB8000, the cursor, the colour
-- and the mode that clears the screen instead of scrolling it. `port` is the position that the
-- cursor registers were last given. The shape of the cursor is left out.
pub mod Scroll
pub mod Cursor
pub mod Text
mod Tests
use shade_os.Base.{
  ℕ, zero, suc, ◌+◌, ◌-◌, ◌*◌, ◌/◌, ◌%◌, ◌^◌, ◌≡◌, Bool, true, false, not, ◌&&◌, ◌||◌, Option, none,
  some, List, [], ◌∷◌, ltb, leb, ◌==◌, if◌then◌else◌, length, get_or, set, min, take,
}

abbrev pub vga_buffer : ℕ
vga_buffer = 0xB8000

abbrev pub vga_width : ℕ
vga_width = 80

abbrev pub vga_height : ℕ
vga_height = 25

pub record Screen : Type 0 where
  pub cells : List ℕ
  pub cursor_x : ℕ
  pub cursor_y : ℕ
  pub color : ℕ
  pub auto_clear : Bool
  pub port : ℕ

-- A cell: the colour above the character, both u8.
abbrev pub cell : ℕ → ℕ → ℕ
cell color c = color * 2 ^ 8 + c

-- Two bytes of the position are sent.
unfoldable pub update_cursor : Screen → Screen
update_cursor s = record s { port = (s.cursor_y * vga_width + s.cursor_x) % 2 ^ 16 }

-- A loop that writes `count` cells from `i` on.
pub fill : ℕ → ℕ → ℕ → List ℕ → List ℕ
fill zero i v cells = cells
fill (suc count) i v cells = fill count (suc i) v (set cells i v)

unfoldable pub clear : Screen → Screen
clear s =
    update_cursor (record s { cells = fill (80 * 25) 0 0x0F20 s.cells; cursor_x = 0; cursor_y = 0 })

-- The inner loop of `scroll_up`, over the cells of a row.
pub copy_cells : ℕ → ℕ → List ℕ → List ℕ
copy_cells zero src cells = cells
copy_cells (suc count) src cells =
    copy_cells count (suc src) (set cells (src - 80) (get_or cells src 0))

-- The outer loop, over the rows from `y` on.
pub copy_rows : ℕ → ℕ → List ℕ → List ℕ
copy_rows zero y cells = cells
copy_rows (suc count) y cells = copy_rows count (suc y) (copy_cells 80 (y * 80) cells)

-- The test read always succeeds, where the address is not null.
abbrev pub verify_vga_buffer : Bool
verify_vga_buffer = not (vga_buffer == 0)

pub scroll_cells : ℕ → List ℕ → List ℕ
scroll_cells color cells = fill 80 (24 * 80) (cell color b' ') (copy_rows 24 1 cells)

unfoldable pub scroll_up : Screen → Screen
scroll_up s = if not verify_vga_buffer then s else record s { cells = scroll_cells s.color s.cells }

unfoldable pub scroll_up_safe : Screen → Screen
scroll_up_safe s =
    update_cursor (record s {
      cells = fill (80 * 25) 0 (cell s.color b' ') s.cells;
      cursor_x = 0;
      cursor_y = 0;
    })

abbrev pub is_scrolling_safe : Screen → Bool
is_scrolling_safe s = if leb 24 s.cursor_y then verify_vga_buffer else true

unfoldable pub auto_clear_if_needed : Screen → Screen
auto_clear_if_needed s =
    if not s.auto_clear
    then if is_scrolling_safe s then record (scroll_up s) { cursor_y = 24 } else scroll_up_safe s
    else if leb 24 s.cursor_y
    then update_cursor (record (clear s) { cursor_x = 0; cursor_y = 0 })
    else s

-- The start of the next line, and what happens below the last one.
pub next_line : Screen → Screen
next_line s =
    let s' = record s { cursor_x = 0; cursor_y = s.cursor_y + 1 } in
    if leb 25 s'.cursor_y then auto_clear_if_needed s' else s'

-- The bounds check before the write of an ordinary character.
abbrev pub in_bounds : Screen → Bool
in_bounds s =
    (ltb s.cursor_y 25 && ltb s.cursor_x 80) && ltb (s.cursor_y * 80 + s.cursor_x) (80 * 25)

unfoldable pub put_cell : ℕ → Screen → Screen
put_cell c s =
    if in_bounds s
    then update_cursor (record s {
      cells = set s.cells (s.cursor_y * 80 + s.cursor_x) (cell s.color c);
      cursor_x = s.cursor_x + 1;
    })
    else s

-- The cell at the cursor becomes blank, if it is on the screen.
abbrev pub blank_cell : Screen → Screen
blank_cell s = record s {
  cells =
      if ltb (s.cursor_y * 80 + s.cursor_x) (80 * 25)
      then set s.cells (s.cursor_y * 80 + s.cursor_x) (cell s.color b' ')
      else s.cells;
}

unfoldable pub backspace : Screen → Screen
backspace s =
    if ltb 0 s.cursor_x
    then update_cursor (blank_cell (record s { cursor_x = s.cursor_x - 1 }))
    else s

unfoldable pub wrap_line : Screen → Screen
wrap_line s = if leb 80 s.cursor_x then next_line s else s

pub print_char : ℕ → Screen → Screen
print_char c s =
    if c == b'\n'
    then update_cursor (next_line s)
    else if c == b'\r'
    then update_cursor (record s { cursor_x = 0 })
    else if c == 8
    then backspace s
    else put_cell c (wrap_line s)

-- `print_string`: the bytes before the zero.
pub print_string : List ℕ → Screen → Screen
print_string [] s = s
print_string (c ∷ text) s = print_string text (print_char c s)

-- `rust_vga_print` stops behind 4097 characters.
unfoldable pub rust_vga_print : List ℕ → Screen → Screen
rust_vga_print text s = print_string (take 4097 text) s

unfoldable pub set_cursor_position : ℕ → ℕ → Screen → Screen
set_cursor_position x y s = update_cursor (record s { cursor_x = min x 79; cursor_y = min y 24 })

unfoldable pub set_color : ℕ → Screen → Screen
set_color color s = record s { color = color }

unfoldable pub set_auto_clear : Bool → Screen → Screen
set_auto_clear enabled s = record s { auto_clear = enabled }

-- `rust_vga_init`; its test write puts back what it read.
unfoldable pub rust_vga_init : Screen → Screen
rust_vga_init s = update_cursor (set_color 0x0F (clear s))
