-- ===== src/Shell/Strings.antt =====
-- Strings in byte arrays: what the text is after each operation.
use shade_os.Base.{
  ℕ, zero, suc, ◌+◌, ◌-◌, ◌<◌, ◌≤◌, ◌≡◌, refl, sym, ap, ◌∙◌, List, [], ◌∷◌, ◌++◌, arith, ◌==◌,
  if◌then◌else◌, length, set, take, drop, min, Bool-cases, inl, inr, lt→ltb, ne→not_==,
}
use shade_os.Shell.{get_str, str_eq, terminated, copy_str, str_append, match_name, write_field}

pub length-get_str : (bytes : List ℕ) → length (get_str bytes) ≤ length bytes
unfolding get_str
length-get_str [] = omega arith
length-get_str (b ∷ bytes) = elim (Bool-cases (b == 0)) [
  | inl e ↦ rw e (omega arith)
  | inr e ↦ rw e (omega (arith, length-get_str bytes))
]

pub get_str-terminated :
    (len : ℕ) (dest src : List ℕ)
    → len < length dest
    → len ≤ length src
    → get_str (terminated len dest src) ≡ get_str (take len src)
unfolding get_str
get_str-terminated zero [] src h k = absurd (omega (arith, h))
get_str-terminated zero (d ∷ dest) src h k = refl
get_str-terminated (suc len) [] src h k = absurd (omega (arith, h))
get_str-terminated (suc len) (d ∷ dest) [] h k = absurd (omega (arith, k))
get_str-terminated (suc len) (d ∷ dest) (c ∷ src) h k =
    ap (λ (t : List ℕ). if c == 0 then [] else c ∷ t)
      (get_str-terminated len dest src (omega arith) (omega arith))

pub take-min : (n : ℕ) (xs : List ℕ) → take (min n (length xs)) xs ≡ take n xs
take-min zero xs = let e : min 0 (length xs) ≡ 0 = omega arith in ap (λ (i : ℕ). take i xs) e
take-min (suc n) [] = let e : min (suc n) 0 ≡ 0 = omega arith in ap (λ (i : ℕ). take {A = ℕ} i []) e
take-min (suc n) (x ∷ xs) =
    let e : min (suc n) (suc (length xs)) ≡ suc (min n (length xs)) = omega arith in
    ap (λ (i : ℕ). take i (x ∷ xs)) e ∙ ap (λ (t : List ℕ). x ∷ t) (take-min n xs)

-- After a copy to an array that is not empty, its text is that of the source, cut so that the zero
-- fits behind it.
pub get_str-copy_str :
    (dest src : List ℕ)
    → 0 < length dest
    → get_str (copy_str dest src) ≡ get_str (take (length dest - 1) src)
unfolding copy_str
get_str-copy_str dest src h = rw (ne→not_== (length dest) 0 (omega arith)) (
    get_str-terminated (min (length dest - 1) (length src)) dest src (omega arith) (omega arith)
    ∙ ap get_str (take-min (length dest - 1) src))

get_str_nil : (bytes : List ℕ) → 0 ≡ length (get_str bytes) → get_str bytes ≡ []
unfolding get_str
get_str_nil [] h = refl
get_str_nil (b ∷ bytes) h = elim (Bool-cases (b == 0)) [
  | inl e ↦ rw e refl
  | inr e ↦ let bad : 0 ≡ suc (length (get_str bytes)) = rw e at h in absurd (omega (arith, bad))
]

later :
    (d : ℕ) (dest src : List ℕ) (l n m : ℕ)
    → suc l ≡ length (get_str (d ∷ dest))
    → (l ≡ length (get_str dest)
        → get_str (set (take l dest ++ (take n src ++ drop m dest)) m 0)
          ≡ get_str dest ++ get_str (take n src))
    → get_str (set (take (suc l) (d ∷ dest) ++ (take n src ++ drop (suc m) (d ∷ dest))) (suc m) 0)
      ≡ get_str (d ∷ dest) ++ get_str (take n src)
unfolding get_str
later d dest src l n m t ih = elim (Bool-cases (d == 0)) [
  | inl e ↦ let bad : suc l ≡ 0 = rw e at t in absurd (omega (arith, bad))
  | inr e ↦
      let rest : suc l ≡ suc (length (get_str dest)) = rw e at t in
      rw e (ap (λ (t : List ℕ). d ∷ t) (ih (omega (arith, rest))))
]

-- The text behind a text of `l` bytes, up to place `m`.
get_str-appended :
    (dest src : List ℕ) (l n m : ℕ)
    → n ≤ length src
    → m < length dest
    → m ≡ l + n
    → l ≡ length (get_str dest)
    → get_str (set (take l dest ++ (take n src ++ drop m dest)) m 0)
      ≡ get_str dest ++ get_str (take n src)
get_str-appended dest src zero n m h k e t =
    let same : n ≡ m = omega arith in
    rw (get_str_nil dest t, sym same) (get_str-terminated n dest src (omega arith) h)
get_str-appended [] src (suc l) n m h k e t = absurd (omega (arith, k))
get_str-appended (d ∷ dest) src (suc l) n zero h k e t = absurd (omega arith)
get_str-appended (d ∷ dest) src (suc l) n (suc m) h k e t =
    later d dest src l n m t (get_str-appended dest src l n m h (omega arith) (omega arith))

-- After appending to a text with its zero in the array, the text is the two texts, the second cut
-- so that the zero fits behind it.
pub get_str-str_append :
    (dest src : List ℕ)
    → length (get_str dest) < length dest
    → get_str (str_append dest src)
      ≡ get_str dest ++ get_str (take (length dest - (length (get_str dest) + 1)) src)
unfolding str_append
get_str-str_append dest src h =
    let l = length (get_str dest) in
    let n = min (length dest - (l + 1)) (length src) in
    rw
      (lt→ltb (length (get_str dest) + min (length dest - (length (get_str dest) + 1)) (length src))
        (length dest) (omega arith))
      (get_str-appended dest src l n (l + n) (omega arith) (omega arith) refl refl
        ∙ ap (λ (t : List ℕ). get_str dest ++ get_str t) (take-min (length dest - (l + 1)) src))

-- Comparing a name field and a name, which is shorter than the field, compares their texts.
pub match_name-str_eq :
    (field name : List ℕ)
    → length (get_str name) < length field
    → match_name field name ≡ str_eq field name
unfolding match_name get_str
match_name-str_eq [] name h = absurd (omega (arith, h))
match_name-str_eq (f ∷ field) [] h = ground arith
match_name-str_eq (f ∷ field) (c ∷ name) h = ground (arith, match_name-str_eq field name)

-- A field that a shorter string is written to holds it, and keeps its size.
pub get_str-write_field :
    (field src : List ℕ)
    → length (get_str src) < length field
    → get_str (write_field field src) ≡ get_str src
unfolding write_field get_str
get_str-write_field [] src h = absurd (omega (arith, h))
get_str-write_field (f ∷ field) [] h = refl
get_str-write_field (f ∷ field) (c ∷ src) h = ground (arith, get_str-write_field field src)

pub length-write_field : (field src : List ℕ) → length (write_field field src) ≡ length field
unfolding write_field
length-write_field [] src = refl
length-write_field (f ∷ field) [] = refl
length-write_field (f ∷ field) (c ∷ src) = ground (arith, length-write_field field src)
