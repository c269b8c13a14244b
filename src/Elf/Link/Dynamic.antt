-- ===== src/Elf/Link/Dynamic.antt =====
-- What process_dynamic_section makes of the entries of a dynamic section.
use shade_os.Base.{
  ℕ, zero, suc, ◌+◌, ◌≡◌, refl, sym, ap, ◌∙◌, List, [], ◌∷◌, ◌++◌, map, Option, none, some, arith,
  ◌==◌, if◌then◌else◌, Bool-cases, Option-cases, inl, inr, length, append_assoc, append-nil,
  length-append,
}
use shade_os.Heap.{add64}
use shade_os.Elf.{Ram, Dyn, dyn_at, dyn_size}
use shade_os.Elf.Link.{
  DynamicContext, new_context, lib_name, note_entry, note_entries, process_dynamic_section,
}
use shade_os.Elf.Load.{collect_needed}
use mathlib.Core.Option

-- The entries of the section at `a` before the first DT_NULL.
unfoldable pub entries : ℕ → Ram → ℕ → Option (List Dyn)
entries zero ram a = none
entries (suc fuel) ram a =
    let rest = entries fuel ram (add64 a dyn_size) in
    if (dyn_at ram a).d_tag == 0
    then some []
    else Option.map (λ (es : List Dyn). dyn_at ram a ∷ es) rest

-- The values of the entries with a tag, in order, and the last of them.
abbrev pub vals : ℕ → List Dyn → List ℕ
vals tag [] = []
vals tag (e ∷ es) = if e.d_tag == tag then e.d_val ∷ vals tag es else vals tag es

abbrev pub last_or {ℓ} : {A : Type ℓ} → Option A → List A → Option A
last_or o [] = o
last_or o (x ∷ xs) = last_or (some x) xs

abbrev noted : List Dyn → DynamicContext → DynamicContext
noted [] c = c
noted (e ∷ es) c = noted es (note_entry e c)

note_entries-noted :
    (fuel : ℕ) (ram : Ram) (a : ℕ) (c : DynamicContext)
    → note_entries fuel ram a c ≡ Option.map (λ (es : List Dyn). noted es c) (entries fuel ram a)
unfolding note_entries entries
note_entries-noted zero ram a c = refl
note_entries-noted (suc fuel) ram a c = elim (Bool-cases ((dyn_at ram a).d_tag == 0)) [
  | inl e ↦ rw e refl
  | inr e ↦
      rw (e, note_entries-noted fuel ram (add64 a dyn_size) (note_entry (dyn_at ram a) c))
        (elim (Option-cases (entries fuel ram (add64 a dyn_size))) [
          | inl h ↦ rw h refl
          | inr (es, h) ↦ rw h refl
        ])
]

-- The loop of the loader collects the values of DT_NEEDED.
collect_needed-vals :
    (fuel : ℕ) (ram : Ram) (a : ℕ)
    → collect_needed fuel ram a ≡ Option.map (vals 1) (entries fuel ram a)
unfolding collect_needed entries
collect_needed-vals zero ram a = refl
collect_needed-vals (suc fuel) ram a = elim (Bool-cases ((dyn_at ram a).d_tag == 0)) [
  | inl e ↦ rw e refl
  | inr e ↦
      rw (e, collect_needed-vals fuel ram (add64 a dyn_size))
        (elim (Option-cases (entries fuel ram (add64 a dyn_size))) [
          | inl h ↦ rw h refl
          | inr (es, h) ↦ rw h (ground arith)
        ])
]

abbrev at_base : DynamicContext → List ℕ → List ℕ
at_base c vs = map (add64 c.base_addr) vs

-- The context after the entries `es`, in terms of the one before.
pub record Noted (es : List Dyn) (c d : DynamicContext) : Type 0 where
  pub base : d.base_addr ≡ c.base_addr
  pub strtab : d.strtab ≡ last_or c.strtab (at_base c (vals 5 es))
  pub symtab : d.symtab ≡ last_or c.symtab (at_base c (vals 6 es))
  pub plt_got : d.plt_got ≡ last_or c.plt_got (at_base c (vals 3 es))
  pub hash_table : d.hash_table ≡ last_or c.hash_table (at_base c (vals 4 es))
  pub relocations : d.relocations ≡ c.relocations ++ at_base c (vals 7 es)
  pub needed : length d.needed_libs ≡ length c.needed_libs + length (vals 1 es)

note_entry-Noted : (e : Dyn) (c : DynamicContext) → Noted (e ∷ []) c (note_entry e c)
unfolding note_entry
note_entry-Noted e c = record {
  base = ground arith;
  strtab = ground arith;
  symtab = ground arith;
  plt_got = ground arith;
  hash_table = ground arith;
  relocations = ground (arith, append-nil c.relocations);
  needed = ground (arith, length-append c.needed_libs (lib_name (length c.needed_libs) ∷ []));
}

last_or-append {ℓ} :
    {A : Type ℓ} (o : Option A) (xs ys : List A) → last_or o (xs ++ ys) ≡ last_or (last_or o xs) ys
last_or-append o [] ys = refl
last_or-append o (x ∷ xs) ys = last_or-append (some x) xs ys

-- The values of the first entry, and those of the rest.
vals-cons :
    (tag : ℕ) (e : Dyn) (es : List Dyn) → vals tag (e ∷ es) ≡ vals tag (e ∷ []) ++ vals tag es
vals-cons tag e es = ground arith

map-append {ℓ} : {A : Type ℓ} (f : ℕ → A) (xs ys : List ℕ) → map f (xs ++ ys) ≡ map f xs ++ map f ys
map-append f [] ys = refl
map-append f (x ∷ xs) ys = ap (λ (l : List _). f x ∷ l) (map-append f xs ys)

-- A field that holds the last value, over the first entry and the rest.
last_vals :
    (b tag : ℕ) (o : Option ℕ) (e : Dyn) (es : List Dyn)
    → last_or (last_or o (map (add64 b) (vals tag (e ∷ [])))) (map (add64 b) (vals tag es))
      ≡ last_or o (map (add64 b) (vals tag (e ∷ es)))
last_vals b tag o e es =
    rw (vals-cons tag e es, map-append (add64 b) (vals tag (e ∷ [])) (vals tag es))
      (sym (last_or-append o (map (add64 b) (vals tag (e ∷ []))) (map (add64 b) (vals tag es))))

Noted-cons :
    (e : Dyn) (es : List Dyn) (c d f : DynamicContext)
    → Noted (e ∷ []) c d
    → Noted es d f
    → Noted (e ∷ es) c f
Noted-cons e es c d f n m = record {
  base = m.base ∙ n.base;
  strtab = m.strtab ∙ rw (n.base, n.strtab) (last_vals c.base_addr 5 c.strtab e es);
  symtab = m.symtab ∙ rw (n.base, n.symtab) (last_vals c.base_addr 6 c.symtab e es);
  plt_got = m.plt_got ∙ rw (n.base, n.plt_got) (last_vals c.base_addr 3 c.plt_got e es);
  hash_table = m.hash_table ∙ rw (n.base, n.hash_table) (last_vals c.base_addr 4 c.hash_table e es);
  relocations =
      m.relocations
      ∙ rw
          (
            n.base,
            n.relocations,
            vals-cons 7 e es,
            map-append (add64 c.base_addr) (vals 7 (e ∷ [])) (vals 7 es),
          )
          (append_assoc c.relocations _ _);
  needed = ground arith;
}

noted-Noted : (es : List Dyn) (c : DynamicContext) → Noted es c (noted es c)
noted-Noted [] c = record {
  base = refl;
  strtab = refl;
  symtab = refl;
  plt_got = refl;
  hash_table = refl;
  relocations = sym (append-nil c.relocations);
  needed = omega arith;
}
noted-Noted (e ∷ es) c =
    Noted-cons e es c (note_entry e c) (noted es (note_entry e c)) (note_entry-Noted e c)
      (noted-Noted es (note_entry e c))

-- When the section ends within `fuel` entries, the context holds its string table, symbol table,
-- procedure linkage table and hash table at the last entry for each, relative to the base address,
-- all tables of relocations in order, and as many libraries as are needed; and these are the
-- libraries that the loader has counted.
pub process_dynamic_section-Noted :
    (fuel : ℕ) (ram : Ram) (a base_addr : ℕ) (es : List Dyn)
    → entries fuel ram a ≡ some es
    → (c : DynamicContext) × (process_dynamic_section fuel ram a base_addr ≡ some c)
      × Noted es (new_context a base_addr) c
      × (collect_needed fuel ram a ≡ some (vals 1 es))
unfolding process_dynamic_section
process_dynamic_section-Noted fuel ram a base_addr es h = (
  noted es (new_context a base_addr),
  rw (note_entries-noted fuel ram a (new_context a base_addr), h) refl,
  noted-Noted es (new_context a base_addr),
  rw (collect_needed-vals fuel ram a, h) refl,
)
