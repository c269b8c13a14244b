-- ===== src/Vga/Scroll.antt =====
-- Scrolling moves every row up by one and blanks the last.
use shade_os.Base.{
  ℕ, zero, suc, ◌+◌, ◌-◌, ◌*◌, ◌<◌, ◌≤◌, ◌≡◌, refl, sym, ap, ap₂, ◌∙◌, List, [], ◌∷◌, ◌++◌, arith,
  ltb, leb, ◌==◌, ◌&&◌, if◌then◌else◌, length, length-set, length-append, length-drop, get_or,
  get_or-set_self, get_or-set_ne, set, drop, replicate, Bool-cases, inl, inr, ltb→lt, not_ltb→le,
  ==→eq, not_==→ne,
}
use shade_os.Vga.{fill, copy_cells, copy_rows, scroll_cells, cell}

pub length-fill : (count i v : ℕ) (cells : List ℕ) → length (fill count i v cells) ≡ length cells
unfolding fill
length-fill zero i v cells = refl
length-fill (suc count) i v cells =
    length-fill count (suc i) v (set cells i v) ∙ length-set cells i v

length-copy_cells :
    (count src : ℕ) (cells : List ℕ) → length (copy_cells count src cells) ≡ length cells
unfolding copy_cells
length-copy_cells zero src cells = refl
length-copy_cells (suc count) src cells =
    length-copy_cells count (suc src) (set cells (src - 80) (get_or cells src 0))
    ∙ length-set cells (src - 80) (get_or cells src 0)

length-copy_rows : (count y : ℕ) (cells : List ℕ) → length (copy_rows count y cells) ≡ length cells
unfolding copy_rows
length-copy_rows zero y cells = refl
length-copy_rows (suc count) y cells =
    length-copy_rows count (suc y) (copy_cells 80 (y * 80) cells)
    ∙ length-copy_cells 80 (y * 80) cells

pub length-scroll_cells :
    (color : ℕ) (cells : List ℕ) → length (scroll_cells color cells) ≡ length cells
unfolding scroll_cells
length-scroll_cells color cells =
    length-fill 80 1920 (cell color b' ') (copy_rows 24 1 cells) ∙ length-copy_rows 24 1 cells

-- What a cell holds after a set.
pub get_or-set :
    (cells : List ℕ) (i j v : ℕ)
    → i < length cells
    → get_or (set cells i v) j 0 ≡ (if i == j then v else get_or cells j 0)
get_or-set cells i j v h = elim (Bool-cases (i == j)) [
  | inl e ↦
      let same : i ≡ j = ==→eq i j e in
      rw e (ap (λ (k : ℕ). get_or (set cells i v) k 0) (sym same) ∙ get_or-set_self cells i v 0 h)
  | inr e ↦ rw e (get_or-set_ne cells i j v 0 (not_==→ne i j e))
]

get_or-fill :
    (count i v j : ℕ) (cells : List ℕ)
    → i + count ≤ length cells
    → get_or (fill count i v cells) j 0
      ≡ (if leb i j && ltb j (i + count) then v else get_or cells j 0)
unfolding fill
get_or-fill zero i v j cells h = ground arith
get_or-fill (suc count) i v j cells h = ground (
  arith,
  get_or-fill count (suc i) v j (set cells i v) (omega (arith, length-set cells i v)),
  get_or-set cells i j v (omega arith),
)

get_or-copy_cells :
    (count src j : ℕ) (cells : List ℕ)
    → 80 ≤ src
    → src + count ≤ length cells
    → get_or (copy_cells count src cells) j 0 ≡ (
        if leb src (j + 80) && ltb (j + 80) (src + count)
        then get_or cells (j + 80) 0
        else get_or cells j 0)
unfolding copy_cells
get_or-copy_cells zero src j cells h k = ground arith
get_or-copy_cells (suc count) src j cells h k =
    let v = get_or cells src 0 in
    ground (
      arith,
      get_or-copy_cells count (suc src) j (set cells (src - 80) v) (omega arith)
          (omega (arith, length-set cells (src - 80) v)),
      get_or-set cells (src - 80) j v (omega arith),
      get_or-set cells (src - 80) (j + 80) v (omega arith),
    )

get_or-copy_rows :
    (count y j : ℕ) (cells : List ℕ)
    → 1 ≤ y
    → (y + count) * 80 ≤ length cells
    → get_or (copy_rows count y cells) j 0 ≡ (
        if leb (y * 80) (j + 80) && ltb (j + 80) ((y + count) * 80)
        then get_or cells (j + 80) 0
        else get_or cells j 0)
unfolding copy_rows
get_or-copy_rows zero y j cells h k = ground arith
get_or-copy_rows (suc count) y j cells h k = ground (
  arith,
  get_or-copy_rows count (suc y) j (copy_cells 80 (y * 80) cells) (omega arith)
      (omega (arith, length-copy_cells 80 (y * 80) cells)),
  get_or-copy_cells 80 (y * 80) j cells (omega arith) (omega arith),
  get_or-copy_cells 80 (y * 80) (j + 80) cells (omega arith) (omega arith),
)

get_or-scroll_cells :
    (color j : ℕ) (cells : List ℕ)
    → length cells ≡ 2000
    → j < 2000
    → get_or (scroll_cells color cells) j 0
      ≡ (if ltb j 1920 then get_or cells (80 + j) 0 else cell color b' ')
unfolding scroll_cells
get_or-scroll_cells color j cells h k =
    let e : j + 80 ≡ 80 + j = omega arith in
    ground (
      arith,
      get_or-fill 80 1920 (cell color b' ') j (copy_rows 24 1 cells)
          (omega (arith, length-copy_rows 24 1 cells)),
      get_or-copy_rows 24 1 j cells (omega arith) (omega arith),
      ap (λ (i : ℕ). get_or cells i 0) e,
    )

list_ext :
    (xs ys : List ℕ)
    → length xs ≡ length ys
    → ((j : ℕ) → j < length xs → get_or xs j 0 ≡ get_or ys j 0)
    → xs ≡ ys
list_ext [] [] h e = refl
list_ext [] (y ∷ ys) h e = absurd (omega (arith, h))
list_ext (x ∷ xs) [] h e = absurd (omega (arith, h))
list_ext (x ∷ xs) (y ∷ ys) h e =
    ap₂ (λ (a : ℕ) (rest : List ℕ). a ∷ rest) (e 0 (omega arith))
      (list_ext xs ys (omega (arith, h)) (λ j k. e (suc j) (omega arith)))

get_or-append_front :
    (xs ys : List ℕ) (j : ℕ) → j < length xs → get_or (xs ++ ys) j 0 ≡ get_or xs j 0
get_or-append_front [] ys j h = absurd (omega (arith, h))
get_or-append_front (x ∷ xs) ys zero h = refl
get_or-append_front (x ∷ xs) ys (suc j) h = get_or-append_front xs ys j (omega arith)

get_or-append_back :
    (xs ys : List ℕ) (j : ℕ) → length xs ≤ j → get_or (xs ++ ys) j 0 ≡ get_or ys (j - length xs) 0
get_or-append_back [] ys j h = let e : j ≡ j - 0 = omega arith in ap (λ (i : ℕ). get_or ys i 0) e
get_or-append_back (x ∷ xs) ys zero h = absurd (omega (arith, h))
get_or-append_back (x ∷ xs) ys (suc j) h =
    let e : j - length xs ≡ suc j - suc (length xs) = omega arith in
    get_or-append_back xs ys j (omega arith) ∙ ap (λ (i : ℕ). get_or ys i 0) e

get_or-drop : (n j : ℕ) (xs : List ℕ) → get_or (drop n xs) j 0 ≡ get_or xs (n + j) 0
get_or-drop zero j xs = ap (λ (i : ℕ). get_or xs i 0) (omega arith)
get_or-drop (suc n) j [] = refl
get_or-drop (suc n) j (x ∷ xs) =
    let e : suc (n + j) ≡ suc n + j = omega arith in
    get_or-drop n j xs ∙ ap (λ (i : ℕ). get_or (x ∷ xs) i 0) e

get_or-replicate : (n j a : ℕ) → j < n → get_or (replicate n a) j 0 ≡ a
get_or-replicate zero j a h = absurd (omega arith)
get_or-replicate (suc n) zero a h = refl
get_or-replicate (suc n) (suc j) a h = get_or-replicate n j a (omega arith)

-- On a screen of 80 by 25 cells scrolling drops the first row and appends a blank one in the
-- current colour.
pub scroll_cells_lem :
    (color : ℕ) (cells : List ℕ)
    → length cells ≡ 80 * 25
    → scroll_cells color cells ≡ drop 80 cells ++ replicate 80 (cell color b' ')
scroll_cells_lem color cells h =
    let blanks : List ℕ = replicate 80 (cell color b' ') in
    let rest : length (drop 80 cells) ≡ 1920 = omega (arith, length-drop 80 cells, h) in
    list_ext (scroll_cells color cells) (drop 80 cells ++ blanks)
      (omega
        (arith, length-scroll_cells color cells, length-append (drop 80 cells) blanks, rest, h))
      (λ j k.
        get_or-scroll_cells color j cells h (omega (arith, length-scroll_cells color cells, h))
        ∙ (elim (Bool-cases (ltb j 1920)) [
          | inl front ↦ rw front (
              sym (
                get_or-append_front (drop 80 cells) blanks j
                  (omega (arith, ltb→lt j 1920 front, rest))
                ∙ get_or-drop 80 j cells))
          | inr back ↦ rw back (
              sym (
                get_or-append_back (drop 80 cells) blanks j
                  (omega (arith, not_ltb→le j 1920 back, rest))
                ∙ get_or-replicate 80 (j - length (drop 80 cells)) (cell color b' ')
                    (omega (arith, length-scroll_cells color cells, h, rest))))
        ]))
