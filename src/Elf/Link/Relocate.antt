-- ===== src/Elf/Link/Relocate.antt =====
-- What the relocations of type R_X86_64_RELATIVE leave in memory.
use shade_os.Base.{
  ℕ, zero, suc, ◌+◌, ◌*◌, ◌^◌, ◌≤◌, ◌<◌, ◌≡◌, ◌⊎◌, inl, inr, refl, sym, ap, subst, ◌∙◌, true, false,
  List, [], ◌∷◌, some, arith, ◌==◌, Bool-cases, ==→eq,
}
use shade_os.Heap.{add64}
use shade_os.Elf.{Ram, read64, Rela, rela_at, rela_size}
use shade_os.Elf.Bytes.{length-bytes_of, store-outside, read_le-store, read_le-Same, rela_at-Same}
use shade_os.Elf.Link.{
  DynamicContext, Linker, get_relocation_type, bytes_of, store64, ends_table, relocate,
  relocate_table, relocate_tables, apply_relocations,
}

-- The address of the entry with the number `i` of the table at `a`.
abbrev pub rela_addr : ℕ → ℕ → ℕ
rela_addr a i = a + rela_size * i

module _ (base : ℕ) where
  abbrev pub target : Rela → ℕ
  target r = add64 base r.r_offset

  -- Two words that share no byte.
  abbrev pub Apart : ℕ → ℕ → Type 0
  Apart x y = (x + 8 ≤ y) ⊎ (y + 8 ≤ x)

  -- The table at `a` has `n` entries and the one that ends it. The entries are relative relocations,
  -- and the words that they are for share no byte with each other or with the table.
  pub record IsTable (ram : Ram) (a n : ℕ) : Type 0 where
    pub top : rela_addr a (suc n) < 2 ^ 64
    pub relative : (i : ℕ) → i < n → get_relocation_type (rela_at ram (rela_addr a i)).r_info ≡ 8
    pub stops : ends_table (rela_at ram (rela_addr a n)) ≡ true
    pub outside :
        (i : ℕ)
        → i < n
        → (target (rela_at ram (rela_addr a i)) + 8 ≤ a)
          ⊎ (rela_addr a (suc n) ≤ target (rela_at ram (rela_addr a i)))
    pub apart :
        (i j : ℕ)
        → i < j
        → j < n
        → Apart (target (rela_at ram (rela_addr a i))) (target (rela_at ram (rela_addr a j)))

  -- The memory `ram'` is `ram` with the words relocated that the table is for.
  pub record Relocated (ram : Ram) (a n : ℕ) (ram' : Ram) : Type 0 where
    pub words :
        (i : ℕ)
        → i < n
        → read64 ram' (target (rela_at ram (rela_addr a i)))
          ≡ add64 base (rela_at ram (rela_addr a i)).r_addend
    pub rest :
        (x : ℕ)
        → ((i : ℕ)
            → i < n
            → (x < target (rela_at ram (rela_addr a i)))
              ⊎ (target (rela_at ram (rela_addr a i)) + 8 ≤ x))
        → ram' x ≡ ram x

  -- The memory after the first entry.
  abbrev step : Ram → ℕ → Ram
  step ram a = store64 ram (target (rela_at ram a)) (add64 base (rela_at ram a).r_addend)

  step-outside :
      (ram : Ram) (a x : ℕ)
      → (x < target (rela_at ram a)) ⊎ (target (rela_at ram a) + 8 ≤ x)
      → step ram a x ≡ ram x
  step-outside ram a x o =
      store-outside ram (target (rela_at ram a)) (bytes_of 8 (add64 base (rela_at ram a).r_addend))
        x
        (subst (λ (k : ℕ). (x < target (rela_at ram a)) ⊎ (target (rela_at ram a) + k ≤ x))
          (sym (length-bytes_of 8 (add64 base (rela_at ram a).r_addend))) o)

  step-word :
      (ram : Ram) (a : ℕ)
      → read64 (step ram a) (target (rela_at ram a)) ≡ add64 base (rela_at ram a).r_addend
  unfolding add64
  step-word ram a = read_le-store ram 8 _ _ (omega arith)

  at-first : (a : ℕ) → rela_addr a 0 ≡ a
  at-first a = omega arith

  head-outside :
      (ram : Ram) (a n : ℕ)
      → IsTable ram a (suc n)
      → (target (rela_at ram a) + 8 ≤ a) ⊎ (rela_addr a (suc (suc n)) ≤ target (rela_at ram a))
  head-outside ram a n t =
      subst
        (λ (y : ℕ).
          (target (rela_at ram y) + 8 ≤ a) ⊎ (rela_addr a (suc (suc n)) ≤ target (rela_at ram y)))
        (at-first a) (t.outside 0 (omega arith))

  head-Apart :
      (ram : Ram) (a n i : ℕ)
      → IsTable ram a (suc n)
      → i < n
      → Apart (target (rela_at ram a)) (target (rela_at ram (rela_addr a (suc i))))
  head-Apart ram a n i t lt =
      subst (λ (y : ℕ). Apart (target (rela_at ram y)) (target (rela_at ram (rela_addr a (suc i)))))
        (at-first a) (t.apart 0 (suc i) (omega arith) (omega arith))

  -- The later entries stand as they did.
  step-table :
      (ram : Ram) (a n i : ℕ)
      → IsTable ram a (suc n)
      → i < suc n
      → rela_at (step ram a) (rela_addr (a + rela_size) i) ≡ rela_at ram (rela_addr a (suc i))
  step-table ram a n i t lt =
      let e : rela_addr (a + rela_size) i ≡ rela_addr a (suc i) = omega arith in
      ap (rela_at (step ram a)) e
      ∙ rela_at-Same ram (step ram a) (rela_addr a (suc i))
          (λ x lo hi. step-outside ram a x (ground (arith, head-outside ram a n t)))

  rest-IsTable :
      (ram : Ram) (a n : ℕ) → IsTable ram a (suc n) → IsTable (step ram a) (a + rela_size) n
  rest-IsTable ram a n t =
      let later : (i : ℕ)
          → i < suc n
          → rela_at (step ram a) (rela_addr (a + rela_size) i) ≡ rela_at ram (rela_addr a (suc i)) =
        λ i lt. step-table ram a n i t lt in
      record {
        top = omega (arith, t.top);
        relative = λ i lt.
            ap (λ (r : Rela). get_relocation_type r.r_info) (later i (omega arith))
            ∙ t.relative (suc i) (omega arith);
        stops = ap ends_table (later n (omega arith)) ∙ t.stops;
        outside = λ i lt.
            subst
              (λ (r : Rela).
                (target r + 8 ≤ a + rela_size) ⊎ (rela_addr (a + rela_size) (suc n) ≤ target r))
              (sym (later i (omega arith))) (ground (arith, t.outside (suc i)));
        apart = λ i j lt lt'.
            subst
              (λ (r : Rela).
                Apart (target r) (target (rela_at (step ram a) (rela_addr (a + rela_size) j))))
              (sym (later i (omega arith)))
              (subst (λ (r : Rela). Apart (target (rela_at ram (rela_addr a (suc i)))) (target r))
                (sym (later j (omega arith)))
                (t.apart (suc i) (suc j) (omega arith) (omega arith)));
      }

  -- One relative entry, and what the rest makes of the memory behind it.
  module _ (ram : Ram) (a n : ℕ) (ram' : Ram) (t : IsTable ram a (suc n))
      (rest : Relocated (step ram a) (a + rela_size) n ram') where
    later :
        (i : ℕ)
        → i < n
        → rela_at (step ram a) (rela_addr (a + rela_size) i) ≡ rela_at ram (rela_addr a (suc i))
    later i lt = step-table ram a n i t (omega arith)

    rest-kept :
        (x : ℕ)
        → ((i : ℕ)
            → i < n
            → (x < target (rela_at ram (rela_addr a (suc i))))
              ⊎ (target (rela_at ram (rela_addr a (suc i))) + 8 ≤ x))
        → ram' x ≡ step ram a x
    rest-kept x o = rest.rest x (λ i lt.
        subst (λ (r : Rela). (x < target r) ⊎ (target r + 8 ≤ x)) (sym (later i lt)) (o i lt))

    first-word : read64 ram' (target (rela_at ram a)) ≡ add64 base (rela_at ram a).r_addend
    first-word =
        read_le-Same (step ram a) ram' (target (rela_at ram a)) 8
          (λ x lo hi. rest-kept x (λ i lt. ground (arith, head-Apart ram a n i t lt)))
        ∙ step-word ram a

    relocated-word :
        (i : ℕ)
        → i < suc n
        → read64 ram' (target (rela_at ram (rela_addr a i)))
          ≡ add64 base (rela_at ram (rela_addr a i)).r_addend
    relocated-word zero lt =
        subst
          (λ (y : ℕ). read64 ram' (target (rela_at ram y)) ≡ add64 base (rela_at ram y).r_addend)
          (sym (at-first a)) first-word
    relocated-word (suc i) lt =
        subst (λ (r : Rela). read64 ram' (target r) ≡ add64 base r.r_addend) (later i (omega arith))
          (rest.words i (omega arith))

    step-Relocated : Relocated ram a (suc n) ram'
    step-Relocated = record {
      words = relocated-word;
      rest = λ x o.
          rest-kept x (λ i lt. o (suc i) (omega arith))
          ∙ step-outside ram a x (
              subst (λ (y : ℕ). (x < target (rela_at ram y)) ⊎ (target (rela_at ram y) + 8 ≤ x))
                (at-first a) (o 0 (omega arith)));
    }

add64-small : (a b : ℕ) → a + b < 2 ^ 64 → add64 a b ≡ a + b
unfolding add64
add64-small a b h = omega arith

module _ (c : DynamicContext) (l : Linker) where
  goes_on : (r : Rela) → get_relocation_type r.r_info ≡ 8 → ends_table r ≡ false
  goes_on r h = elim (Bool-cases (r.r_info == 0)) [
    | inl z ↦ absurd (omega (arith, h, ==→eq r.r_info 0 z))
    | inr z ↦ ground arith
  ]

  relocate-relative :
      (k : ℕ) (r : Rela) (ram : Ram)
      → get_relocation_type r.r_info ≡ 8
      → relocate k c r (ram, l)
        ≡ some (store64 ram (add64 c.base_addr r.r_offset) (add64 c.base_addr r.r_addend), l)
  unfolding relocate
  relocate-relative k r ram h = rw h refl

  table-Relocated :
      (fuel n : ℕ) (ram : Ram) (a : ℕ)
      → n < fuel
      → IsTable c.base_addr ram a n
      → (ram' : Ram) × (relocate_table fuel c a (ram, l) ≡ some (ram', l))
        × Relocated c.base_addr ram a n ram'
  unfolding relocate_table
  table-Relocated zero n ram a lt t = absurd (omega arith)
  table-Relocated (suc fuel) zero ram a lt t =
      let stop : ends_table (rela_at ram a) ≡ true =
        subst (λ (y : ℕ). ends_table (rela_at ram y) ≡ true) (at-first c.base_addr a) t.stops in
      (
        ram,
        rw (stop, relocate_table) refl,
        record { words = λ i h. absurd (omega arith); rest = λ x o. refl },
      )
  table-Relocated (suc fuel) (suc n) ram a lt t =
      let rel : get_relocation_type (rela_at ram a).r_info ≡ 8 =
        subst (λ (y : ℕ). get_relocation_type (rela_at ram y).r_info ≡ 8) (at-first c.base_addr a)
          (t.relative 0 (omega arith)) in
      let next : add64 a rela_size ≡ a + rela_size =
        add64-small a rela_size (omega (arith, t.top)) in
      let (ram', run, done) =
        table-Relocated fuel n (step c.base_addr ram a) (a + rela_size) (omega arith)
          (rest-IsTable c.base_addr ram a n t) in
      (
        ram',
        rw
            (
              goes_on (rela_at ram a) rel,
              relocate_table,
              relocate-relative (suc fuel) (rela_at ram a) ram rel,
              next,
            )
            run,
        step-Relocated c.base_addr ram a n ram' t done,
      )

  -- A table of relative relocations, which ends within `fuel` entries, is applied to its end: each
  -- word that an entry is for then holds the base address plus the addend, no other byte has changed,
  -- and the symbols have not. The words share no byte with each other or with the table.
  pub apply_relocations-Relocated :
      (fuel n : ℕ) (ram : Ram) (a : ℕ)
      → c.relocations ≡ a ∷ []
      → n < fuel
      → IsTable c.base_addr ram a n
      → (ram' : Ram) × (apply_relocations fuel c (ram, l) ≡ some (ram', l))
        × Relocated c.base_addr ram a n ram'
  unfolding apply_relocations relocate_tables
  apply_relocations-Relocated fuel n ram a one lt t =
      let (ram', run, done) = table-Relocated fuel n ram a lt t in
      let single : relocate_tables fuel c (a ∷ []) (ram, l) ≡ some (ram', l) =
        rw (run, relocate_tables) refl in
      (ram', ap (λ (ts : List ℕ). relocate_tables fuel c ts (ram, l)) one ∙ single, done)
