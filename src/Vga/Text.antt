-- ===== src/Vga/Text.antt =====
-- Where printed text appears.
use shade_os.Base.{
  ℕ, zero, suc, ◌+◌, ◌-◌, ◌*◌, ◌<◌, ◌≤◌, ◌≡◌, refl, sym, ap, ◌∙◌, subst, Bool, true, false, not,
  ◌&&◌, List, [], ◌∷◌, ◌++◌, arith, ltb, leb, ◌==◌, if◌then◌else◌, length, length-set, get_or, set,
  drop, replicate, lt→ltb,
}
use shade_os.Vga.{
  Screen, cell, update_cursor, next_line, put_cell, wrap_line, print_char, print_string,
  auto_clear_if_needed, scroll_up,
}
use shade_os.Vga.Scroll.{get_or-set, scroll_cells_lem}

-- A character that is neither a newline, a carriage return nor a backspace.
abbrev pub is_plain : ℕ → Bool
is_plain c = not (c == b'\n') && (not (c == b'\r') && not (c == 8))

abbrev pub all_plain : List ℕ → Bool
all_plain [] = true
all_plain (c ∷ text) = is_plain c && all_plain text

print_char_plain :
    (c : ℕ) (s : Screen)
    → is_plain c ≡ true
    → s.cursor_y < 25
    → s.cursor_x < 80
    → print_char c s
      ≡ update_cursor (record s {
        cells = set s.cells (s.cursor_y * 80 + s.cursor_x) (cell s.color c);
        cursor_x = s.cursor_x + 1;
      })
unfolding print_char wrap_line put_cell
print_char_plain c s p y x =
    let n : (c == b'\n') ≡ false = ground arith in
    let r : (c == b'\r') ≡ false = ground arith in
    let b : (c == 8) ≡ false = ground arith in
    let w : leb 80 s.cursor_x ≡ false = ground arith in
    rw
      (
        n,
        r,
        b,
        w,
        lt→ltb s.cursor_y 25 y,
        lt→ltb s.cursor_x 80 x,
        lt→ltb (s.cursor_y * 80 + s.cursor_x) 2000 (omega arith),
      )
      refl

-- What a screen shows once a text was written from the cursor on.
pub record Written (text : List ℕ) (s r : Screen) : Type 0 where
  pub cells :
      (j : ℕ)
      → get_or r.cells j 0 ≡ (
          if leb (s.cursor_y * 80 + s.cursor_x) j
            && ltb j (s.cursor_y * 80 + s.cursor_x + length text)
          then cell s.color (get_or text (j - (s.cursor_y * 80 + s.cursor_x)) 0)
          else get_or s.cells j 0)
  pub column : r.cursor_x ≡ s.cursor_x + length text
  pub line : r.cursor_y ≡ s.cursor_y

get_or-cons : (c k : ℕ) (text : List ℕ) → 0 < k → get_or (c ∷ text) k 0 ≡ get_or text (k - 1) 0
get_or-cons c zero text h = absurd (omega arith)
get_or-cons c (suc k) text h =
    let e : k ≡ suc k - 1 = omega arith in ap (λ (i : ℕ). get_or text i 0) e

get_or-first : (c k : ℕ) (text : List ℕ) → k ≡ 0 → get_or (c ∷ text) k 0 ≡ c
get_or-first c k text e = rw e refl

Written-cons :
    (c : ℕ) (text : List ℕ) (s r : Screen)
    → s.cursor_y * 80 + s.cursor_x < length s.cells
    → Written text
        (update_cursor (record s {
          cells = set s.cells (s.cursor_y * 80 + s.cursor_x) (cell s.color c);
          cursor_x = s.cursor_x + 1;
        }))
        r
    → Written (c ∷ text) s r
unfolding update_cursor
Written-cons c text s r h w = record {
  cells = λ j.
      let first : j ≡ s.cursor_y * 80 + s.cursor_x
          → get_or (c ∷ text) (j - (s.cursor_y * 80 + s.cursor_x)) 0 ≡ c =
        λ e. get_or-first c (j - (s.cursor_y * 80 + s.cursor_x)) text (omega arith) in
      let rest : s.cursor_y * 80 + s.cursor_x < j
          → get_or (c ∷ text) (j - (s.cursor_y * 80 + s.cursor_x)) 0
            ≡ get_or text (j - (s.cursor_y * 80 + (s.cursor_x + 1))) 0 =
        λ h.
          let e : j - (s.cursor_y * 80 + s.cursor_x) - 1
              ≡ j - (s.cursor_y * 80 + (s.cursor_x + 1)) =
            omega arith in
          get_or-cons c (j - (s.cursor_y * 80 + s.cursor_x)) text (omega arith)
          ∙ ap (λ (i : ℕ). get_or text i 0) e in
      ground (
        arith,
        first,
        rest,
        w.cells j,
        get_or-set s.cells (s.cursor_y * 80 + s.cursor_x) j (cell s.color c) h,
      );
  column = omega (arith, w.column);
  line = w.line;
}

-- Plain text that ends on the line of the cursor is written from the cursor on, in the current
-- colour; all other cells stay, and the cursor stands behind the text.
pub print_string-Written :
    (text : List ℕ) (s : Screen)
    → length s.cells ≡ 80 * 25
    → s.cursor_y < 25
    → s.cursor_x + length text ≤ 80
    → all_plain text ≡ true
    → Written text s (print_string text s)
unfolding print_string update_cursor
print_string-Written [] s size y x plain = record {
  cells = λ j. ground arith;
  column = omega arith;
  line = refl;
}
print_string-Written (c ∷ text) s size y x plain =
    let now : Screen = update_cursor (record s {
      cells = set s.cells (s.cursor_y * 80 + s.cursor_x) (cell s.color c);
      cursor_x = s.cursor_x + 1;
    }) in
    let p : is_plain c ≡ true = ground arith in
    let ps : all_plain text ≡ true = ground arith in
    let ih =
      print_string-Written text now
        (length-set s.cells (s.cursor_y * 80 + s.cursor_x) (cell s.color c) ∙ size) y (omega arith)
        ps in
    Written-cons c text s (print_string text (print_char c s)) (omega arith) (
      subst (λ (x : Screen). Written text now (print_string text x))
        (sym (print_char_plain c s p y (omega arith))) ih)

-- A newline on the last line, with automatic clearing off, drops the first row, appends a blank
-- one, and puts the cursor at the start of the last line.
pub print_char_newline :
    (s : Screen)
    → length s.cells ≡ 80 * 25
    → s.cursor_y ≡ 24
    → s.auto_clear ≡ false
    → print_char b'\n' s
      ≡ update_cursor (record s {
        cells = drop 80 s.cells ++ replicate 80 (cell s.color b' ');
        cursor_x = 0;
        cursor_y = 24;
      })
unfolding print_char next_line auto_clear_if_needed scroll_up
print_char_newline s size y off =
    let bottom : leb 25 (s.cursor_y + 1) ≡ true = ground arith in
    let bottom' : leb 24 (s.cursor_y + 1) ≡ true = ground arith in
    rw (bottom, off, bottom', scroll_cells_lem s.color s.cells size) refl
