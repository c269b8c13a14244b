-- ===== src/Vga/Cursor.antt =====
-- The cursor stays on the screen, the buffer keeps its size, and the cursor registers follow.
use shade_os.Base.{
  ℕ, ◌+◌, ◌-◌, ◌*◌, ◌<◌, ◌≤◌, ◌≡◌, refl, ◌∙◌, Bool, true, List, [], ◌∷◌, arith, ltb, leb, ◌==◌,
  length, length-set, set, min, take, Bool-cases, inl, inr, lt→ltb,
}
use shade_os.Vga.{
  Screen, cell, update_cursor, clear, scroll_up, auto_clear_if_needed, next_line, put_cell,
  backspace, wrap_line, print_char, print_string, rust_vga_print, set_cursor_position, set_color,
  set_auto_clear, rust_vga_init,
}
use shade_os.Vga.Scroll.{length-fill, length-scroll_cells}

-- The buffer has its size, and the cursor stands on a line, at a cell or behind its last one.
pub record Fits (s : Screen) : Type 0 where
  pub size : length s.cells ≡ 80 * 25
  pub column : s.cursor_x ≤ 80
  pub line : s.cursor_y < 25

-- The cursor registers show the cursor, too.
pub record IsScreen (s : Screen) : Type 0 where
  pub fits : Fits s
  pub shown : s.port ≡ s.cursor_y * 80 + s.cursor_x

update_cursor-IsScreen : (s : Screen) → Fits s → IsScreen (update_cursor s)
unfolding update_cursor
update_cursor-IsScreen s f = record {
  fits = record { size = f.size; column = f.column; line = f.line };
  shown = omega (arith, f.column, f.line);
}

pub clear-IsScreen : (s : Screen) → length s.cells ≡ 80 * 25 → IsScreen (clear s)
unfolding clear
clear-IsScreen s h = update_cursor-IsScreen _ (record {
  size = length-fill 2000 0 0x0F20 s.cells ∙ h;
  column = omega arith;
  line = omega arith;
})

-- Below the last line the screen is scrolled or cleared, and the cursor is on it again.
next_line-Fits : (s : Screen) → Fits s → Fits (next_line s)
unfolding next_line auto_clear_if_needed scroll_up clear update_cursor
next_line-Fits s f = elim (Bool-cases (leb 25 (s.cursor_y + 1))) [
  | inl below ↦
      let bottom : leb 24 (s.cursor_y + 1) ≡ true = ground (arith, f.line) in
      elim (Bool-cases s.auto_clear) [
        | inl on ↦
            rw (below, on, bottom)
              (record {
                size = length-fill 2000 0 0x0F20 s.cells ∙ f.size;
                column = omega arith;
                line = omega arith;
              })
        | inr off ↦
            rw (below, off, bottom)
              (record {
                size = length-scroll_cells s.color s.cells ∙ f.size;
                column = omega arith;
                line = omega arith;
              })
      ]
  | inr inside ↦ rw inside (record { size = f.size; column = omega arith; line = ground arith })
]

next_line_column : (s : Screen) → (next_line s).cursor_x ≡ 0
unfolding next_line auto_clear_if_needed scroll_up clear update_cursor
next_line_column s = elim (Bool-cases (leb 25 (s.cursor_y + 1))) [
  | inl below ↦
      let bottom : leb 24 (s.cursor_y + 1) ≡ true = ground (arith, below) in
      elim (Bool-cases s.auto_clear) [
        | inl on ↦ rw (below, on, bottom) refl
        | inr off ↦ rw (below, off, bottom) refl
      ]
  | inr inside ↦ rw inside refl
]

-- Where an ordinary character is written: never behind the last cell of a line.
wrap_line-Fits : (s : Screen) → Fits s → Fits (wrap_line s) × ((wrap_line s).cursor_x < 80)
unfolding wrap_line
wrap_line-Fits s f = elim (Bool-cases (leb 80 s.cursor_x)) [
  | inl full ↦ rw full (next_line-Fits s f, omega (arith, next_line_column s))
  | inr room ↦ rw room (f, ground arith)
]

put_cell-IsScreen : (c : ℕ) (s : Screen) → Fits s → s.cursor_x < 80 → IsScreen (put_cell c s)
unfolding put_cell
put_cell-IsScreen c s f h =
    let pos = s.cursor_y * 80 + s.cursor_x in
    rw
      (
        lt→ltb s.cursor_y 25 f.line,
        lt→ltb s.cursor_x 80 h,
        lt→ltb (s.cursor_y * 80 + s.cursor_x) 2000 (omega (arith, f.line)),
      )
      (update_cursor-IsScreen
        (record s {
          cells = set s.cells (s.cursor_y * 80 + s.cursor_x) (cell s.color c);
          cursor_x = s.cursor_x + 1;
        })
        (record {
          size = length-set s.cells (s.cursor_y * 80 + s.cursor_x) (cell s.color c) ∙ f.size;
          column = omega arith;
          line = f.line;
        }))

backspace-IsScreen : (s : Screen) → IsScreen s → IsScreen (backspace s)
unfolding backspace
backspace-IsScreen s i = elim (Bool-cases (ltb 0 s.cursor_x)) [
  | inl back ↦
      let room : ltb (s.cursor_y * 80 + (s.cursor_x - 1)) 2000 ≡ true =
        lt→ltb (s.cursor_y * 80 + (s.cursor_x - 1)) 2000
          (omega (arith, i.fits.line, i.fits.column)) in
      rw (back, room)
        (update_cursor-IsScreen
          (record s {
            cells = set s.cells (s.cursor_y * 80 + (s.cursor_x - 1)) (cell s.color b' ');
            cursor_x = s.cursor_x - 1;
          })
          (record {
            size =
                length-set s.cells (s.cursor_y * 80 + (s.cursor_x - 1)) (cell s.color b' ')
                ∙ i.fits.size;
            column = omega (arith, i.fits.column);
            line = i.fits.line;
          }))
  | inr start ↦ rw start i
]

-- Printing a character keeps the buffer's size and the cursor on the screen, with the cursor
-- registers at the cursor.
pub print_char-IsScreen : (c : ℕ) (s : Screen) → IsScreen s → IsScreen (print_char c s)
unfolding print_char
print_char-IsScreen c s i = elim (Bool-cases (c == b'\n')) [
  | inl newline ↦ rw newline (update_cursor-IsScreen (next_line s) (next_line-Fits s i.fits))
  | inr other ↦ elim (Bool-cases (c == b'\r')) [
    | inl return ↦
        rw (other, return)
          (update_cursor-IsScreen (record s { cursor_x = 0 })
            (record { size = i.fits.size; column = omega arith; line = i.fits.line }))
    | inr other' ↦ elim (Bool-cases (c == 8)) [
      | inl erase ↦ rw (other, other', erase) (backspace-IsScreen s i)
      | inr plain ↦
          let wrapped = wrap_line-Fits s i.fits in
          rw (other, other', plain) (put_cell-IsScreen c (wrap_line s) wrapped.0 wrapped.1)
    ]
  ]
]

pub print_string-IsScreen :
    (text : List ℕ) (s : Screen) → IsScreen s → IsScreen (print_string text s)
unfolding print_string
print_string-IsScreen [] s i = i
print_string-IsScreen (c ∷ text) s i =
    print_string-IsScreen text (print_char c s) (print_char-IsScreen c s i)

-- What other parts of the kernel call.
pub data Step : Screen → Screen → Type 0 where
  printed : {s : Screen} (text : List ℕ) → Step s (rust_vga_print text s)
  printed_char : {s : Screen} (c : ℕ) → Step s (print_char c s)
  cleared : {s : Screen} → Step s (clear s)
  coloured : {s : Screen} (color : ℕ) → Step s (set_color color s)
  moved : {s : Screen} (x y : ℕ) → Step s (set_cursor_position x y s)
  switched : {s : Screen} (enabled : Bool) → Step s (set_auto_clear enabled s)

pub data Reach : Screen → Type 0 where
  started : (s : Screen) → length s.cells ≡ 80 * 25 → Reach (rust_vga_init s)
  next : {s s' : Screen} → Reach s → Step s s' → Reach s'

Step-IsScreen : {s s' : Screen} → Step s s' → IsScreen s → IsScreen s'
unfolding rust_vga_print set_color set_cursor_position set_auto_clear
Step-IsScreen (printed {s} text) i = print_string-IsScreen (take 4097 text) s i
Step-IsScreen (printed_char {s} c) i = print_char-IsScreen c s i
Step-IsScreen (cleared {s}) i = clear-IsScreen s i.fits.size
Step-IsScreen (coloured {s} color) i = record {
  fits = record { size = i.fits.size; column = i.fits.column; line = i.fits.line };
  shown = i.shown;
}
Step-IsScreen (moved {s} x y) i =
    update_cursor-IsScreen (record s { cursor_x = min x 79; cursor_y = min y 24 })
      (record { size = i.fits.size; column = omega arith; line = omega arith })
Step-IsScreen (switched {s} enabled) i = record {
  fits = record { size = i.fits.size; column = i.fits.column; line = i.fits.line };
  shown = i.shown;
}

-- After `rust_vga_init` on a buffer of 80 by 25 cells and any calls, the buffer has its size, the
-- cursor is on a line at a cell or just behind the last, and the cursor registers show it.
pub Reach-IsScreen : {s : Screen} → Reach s → IsScreen s
unfolding rust_vga_init set_color
Reach-IsScreen (started s h) = update_cursor-IsScreen (set_color 0x0F (clear s)) (
    let f = (clear-IsScreen s h).fits in record { size = f.size; column = f.column; line = f.line })
Reach-IsScreen (next r step) = Step-IsScreen step (Reach-IsScreen r)
