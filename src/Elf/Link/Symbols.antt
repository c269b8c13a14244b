-- ===== src/Elf/Link/Symbols.antt =====
-- The global symbols: what adding one does to lookups, and that a symbol found in a library is kept.
use shade_os.Base.{
  ℕ, ◌≡◌, ◌≢◌, inl, inr, refl, sym, ap, ◌∙◌, List, [], ◌∷◌, Option, none, some, some-inj,
  if◌then◌else◌, Bool-cases, Option-cases, bytes_eq, bytes_eq_refl, bytes_eq→eq,
}
use shade_os.Elf.{Ram, read_str}
use shade_os.Elf.Link.{
  Symbols, get, insert, Linker, search_libraries, resolved, resolve_symbol, elf_resolve_symbol,
  elf_add_symbol,
}

pub get-insert : (name : List ℕ) (a : ℕ) (l : Symbols) → get name (insert name a l) ≡ some a
unfolding get insert
get-insert name a [] = rw (bytes_eq_refl name) refl
get-insert name a ((k, v) ∷ l) = elim (Bool-cases (bytes_eq k name)) [
  | inl e ↦ rw (e, e) refl
  | inr e ↦ rw (e, e) (get-insert name a l)
]

get-insert_ne :
    (name other : List ℕ) (a : ℕ) (l : Symbols)
    → name ≢ other
    → get other (insert name a l) ≡ get other l
unfolding get insert
get-insert_ne name other a [] ne = elim (Bool-cases (bytes_eq name other)) [
  | inl e ↦ absurd (ne (bytes_eq→eq name other e))
  | inr e ↦ rw e refl
]
get-insert_ne name other a ((k, v) ∷ l) ne = elim (Bool-cases (bytes_eq k name)) [
  | inl e ↦
      let same : k ≡ name = bytes_eq→eq k name e in
      elim (Bool-cases (bytes_eq k other)) [
        | inl f ↦ absurd (ne (sym same ∙ bytes_eq→eq k other f))
        | inr f ↦ rw (e, f) refl
      ]
  | inr e ↦ rw e (
      ap (λ (t : Option ℕ). if bytes_eq k other then some v else t)
        (get-insert_ne name other a l ne))
]

-- The answer of a lookup, without the table.
abbrev pub answer {ℓ} : {B : Type ℓ} → Option (Option ℕ × B) → Option (Option ℕ)
answer none = none
answer (some (a, b)) = some a

resolved-answer :
    (name : List ℕ) (l m : Linker) (o : Option (Option ℕ))
    → answer (resolved name l o) ≡ answer (resolved name m o)
resolved-answer name l m none = refl
resolved-answer name l m (some none) = refl
resolved-answer name l m (some (some a)) = refl

abbrev pub with_symbol : List ℕ → ℕ → Linker → Linker
with_symbol name a l = record l { global_symbols = insert name a l.global_symbols }

resolve_symbol-known :
    (fuel : ℕ) (ram : Ram) (name : List ℕ) (l : Linker) (a : ℕ)
    → get name l.global_symbols ≡ some a
    → resolve_symbol fuel ram name l ≡ some (some a, l)
unfolding resolve_symbol
resolve_symbol-known fuel ram name l a h = rw (h, resolve_symbol) refl

resolve_symbol-unknown :
    (fuel : ℕ) (ram : Ram) (name : List ℕ) (l : Linker)
    → get name l.global_symbols ≡ none
    → resolve_symbol fuel ram name l
      ≡ resolved name l (search_libraries fuel ram l.loaded_libraries name)
unfolding resolve_symbol
resolve_symbol-unknown fuel ram name l h = rw (h, resolve_symbol) refl

-- Every other name resolves to what it resolved to before.
resolve_symbol-other :
    (fuel : ℕ) (ram : Ram) (name other : List ℕ) (a : ℕ) (l : Linker)
    → name ≢ other
    → answer (resolve_symbol fuel ram other (with_symbol name a l))
      ≡ answer (resolve_symbol fuel ram other l)
resolve_symbol-other fuel ram name other a l ne =
    let m : Linker = with_symbol name a l in
    let same = get-insert_ne name other a l.global_symbols ne in
    elim (Option-cases (get other l.global_symbols)) [
      | inr (b, e) ↦
          ap answer (resolve_symbol-known fuel ram other m b (same ∙ e))
          ∙ sym (ap answer (resolve_symbol-known fuel ram other l b e))
      | inl e ↦
          ap answer (resolve_symbol-unknown fuel ram other m (same ∙ e))
          ∙ resolved-answer other m l (search_libraries fuel ram l.loaded_libraries other)
          ∙ sym (ap answer (resolve_symbol-unknown fuel ram other l e))
    ]

-- The answer of `rust_elf_resolve_symbol`, without the table.
abbrev pub address : Option (ℕ × Linker) → Option ℕ
address none = none
address (some (a, l)) = some a

abbrev or_zero : Option (Option ℕ) → Option ℕ
or_zero none = none
or_zero (some none) = some 0
or_zero (some (some a)) = some a

elf_resolve_symbol-name :
    (fuel : ℕ) (ram : Ram) (p : ℕ) (name : List ℕ) (l : Linker)
    → read_str fuel ram p ≡ some name
    → address (elf_resolve_symbol fuel ram p l) ≡ or_zero (answer (resolve_symbol fuel ram name l))
unfolding elf_resolve_symbol
elf_resolve_symbol-name fuel ram p name l h = elim (Option-cases (resolve_symbol fuel ram name l)) [
  | inl e ↦ rw (h, elf_resolve_symbol, e) refl
  | inr ((none, m), e) ↦ rw (h, elf_resolve_symbol, e) refl
  | inr ((some a, m), e) ↦ rw (h, elf_resolve_symbol, e) refl
]

-- Once `rust_elf_add_symbol` has added the symbol that the text at `p` names, that text resolves to
-- the address given, and any text that names another symbol to what it resolved to before. Both
-- texts end within `fuel` bytes.
pub elf_resolve_symbol-elf_add_symbol :
    (fuel : ℕ) (ram : Ram) (p q a : ℕ) (name other : List ℕ) (l m : Linker)
    → read_str fuel ram p ≡ some name
    → read_str fuel ram q ≡ some other
    → elf_add_symbol fuel ram p a l ≡ some m
    → (name ≡ other → address (elf_resolve_symbol fuel ram q m) ≡ some a)
      × (name ≢ other
          → address (elf_resolve_symbol fuel ram q m) ≡ address (elf_resolve_symbol fuel ram q l))
unfolding elf_add_symbol
elf_resolve_symbol-elf_add_symbol fuel ram p q a name other l m h k run =
    let same : with_symbol name a l ≡ m = some-inj (rw (h, elf_add_symbol) at run) in
    let found = get-insert name a l.global_symbols in
    rw
      (
        ← same,
        elf_resolve_symbol-name fuel ram q other (with_symbol name a l) k,
        elf_resolve_symbol-name fuel ram q other l k,
      )
      (
        λ e. rw (← e, resolve_symbol-known fuel ram name (with_symbol name a l) a found) refl,
        λ ne. ap or_zero (resolve_symbol-other fuel ram name other a l ne),
      )

resolved-cached :
    (name : List ℕ) (l m : Linker) (a : ℕ) (o : Option (Option ℕ))
    → resolved name l o ≡ some (some a, m)
    → (o ≡ some (some a)) × (m ≡ with_symbol name a l)
resolved-cached name l m a none h = absurd (cc h)
resolved-cached name l m a (some none) h =
    let bad : none ≡ some a = ap (λ (r : Option ℕ × Linker). r.0) (some-inj h) in absurd (cc bad)
resolved-cached name l m a (some (some b)) h =
    let e : b ≡ a = some-inj (ap (λ (r : Option ℕ × Linker). r.0) (some-inj h)) in
    let f : with_symbol name b l ≡ m = ap (λ (r : Option ℕ × Linker). r.1) (some-inj h) in
    (ap (λ (x : ℕ). some (some x)) e, sym f ∙ ap (λ (x : ℕ). with_symbol name x l) e)

-- A name that has resolved to an address resolves to it from then on, also when the memory has
-- changed or libraries have gone.
pub resolve_symbol-cached :
    (fuel fuel' : ℕ) (ram ram' : Ram) (name : List ℕ) (l m k : Linker) (a : ℕ)
    → resolve_symbol fuel ram name l ≡ some (some a, m)
    → k.global_symbols ≡ m.global_symbols
    → resolve_symbol fuel' ram' name k ≡ some (some a, k)
resolve_symbol-cached fuel fuel' ram ram' name l m k a run same =
    resolve_symbol-known fuel' ram' name k a (
      ap (get name) same ∙ elim (Option-cases (get name l.global_symbols)) [
        | inr (b, e) ↦
            let r : some (some b, l) ≡ some (some a, m) =
              sym (resolve_symbol-known fuel ram name l b e) ∙ run in
            let ea : b ≡ a = some-inj (ap (λ (r : Option ℕ × Linker). r.0) (some-inj r)) in
            let el : l ≡ m = ap (λ (r : Option ℕ × Linker). r.1) (some-inj r) in
            ap (λ (t : Linker). get name t.global_symbols) (sym el) ∙ e ∙ ap some ea
        | inl e ↦
            let c =
              resolved-cached name l m a (search_libraries fuel ram l.loaded_libraries name)
                (sym (resolve_symbol-unknown fuel ram name l e) ∙ run) in
            ap (λ (t : Linker). get name t.global_symbols) c.1 ∙ get-insert name a l.global_symbols
      ])
