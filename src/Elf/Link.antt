-- ===== src/Elf/Link.antt =====
-- Dynamic linking of kernel-rs/src/elf.rs: the global symbols, the context that the dynamic section
-- describes, the lookup of symbols and the relocations.
-- The maps of symbols and of libraries are association lists without repeated names. The loops end
-- at a terminating entry in memory; they run on fuel, and none means that it ran out.
pub mod Symbols
pub mod Dynamic
pub mod Relocate
use shade_os.Base.{
  ℕ, zero, suc, ◌+◌, ◌*◌, ◌/◌, ◌%◌, ◌^◌, Bool, ◌&&◌, ◌||◌, List, [], ◌∷◌, ◌++◌, Option, none, some,
  ◌==◌, if◌then◌else◌, bytes_eq, length,
}
use shade_os.Heap.{add64}
use shade_os.Elf.{
  Ram, read64, store, Sym, sym_at, sym_size, Rela, rela_at, rela_size, Dyn, dyn_at, dyn_size,
  read_str, get_symbol_name,
}
use shade_os.Elf.Serial.{decimal}

-- `BTreeMap<String, u64>`, of which only the lookups and the number of names are observed.
abbrev pub Symbols : Type 0
Symbols = List (List ℕ × ℕ)

unfoldable pub get : List ℕ → Symbols → Option ℕ
get name [] = none
get name ((k, v) ∷ rest) = if bytes_eq k name then some v else get name rest

unfoldable pub insert : List ℕ → ℕ → Symbols → Symbols
insert name addr [] = (name, addr) ∷ []
insert name addr ((k, v) ∷ rest) =
    if bytes_eq k name then (k, addr) ∷ rest else (k, v) ∷ insert name addr rest

-- `struct DynamicContext`
pub record DynamicContext : Type 0 where
  pub base_addr : ℕ
  pub dynamic : Option ℕ
  pub strtab : Option ℕ
  pub symtab : Option ℕ
  pub relocations : List ℕ
  pub needed_libs : List (List ℕ)
  pub plt_got : Option ℕ
  pub hash_table : Option ℕ

abbrev pub new_context : ℕ → ℕ → DynamicContext
new_context dynamic base_addr = record {
  base_addr = base_addr;
  dynamic = some dynamic;
  strtab = none;
  symtab = none;
  relocations = [];
  needed_libs = [];
  plt_got = none;
  hash_table = none;
}

-- `format!("lib{}", n)`
abbrev pub lib_name : ℕ → List ℕ
lib_name n = 108 ∷ 105 ∷ 98 ∷ decimal n

-- The match on a tag other than DT_NULL.
unfoldable pub note_entry : Dyn → DynamicContext → DynamicContext
note_entry e c =
    if e.d_tag == 1
    then record c { needed_libs = c.needed_libs ++ lib_name (length c.needed_libs) ∷ [] }
    else if e.d_tag == 5
    then record c { strtab = some (add64 c.base_addr e.d_val) }
    else if e.d_tag == 6
    then record c { symtab = some (add64 c.base_addr e.d_val) }
    else if e.d_tag == 7
    then record c { relocations = c.relocations ++ add64 c.base_addr e.d_val ∷ [] }
    else if e.d_tag == 3
    then record c { plt_got = some (add64 c.base_addr e.d_val) }
    else if e.d_tag == 4
    then record c { hash_table = some (add64 c.base_addr e.d_val) }
    else c

unfoldable pub note_entries : ℕ → Ram → ℕ → DynamicContext → Option DynamicContext
note_entries zero ram a c = none
note_entries (suc fuel) ram a c =
    let rest = note_entries fuel ram (add64 a dyn_size) (note_entry (dyn_at ram a) c) in
    if (dyn_at ram a).d_tag == 0 then some c else rest

unfoldable pub process_dynamic_section : ℕ → Ram → ℕ → ℕ → Option DynamicContext
process_dynamic_section fuel ram dynamic base_addr =
    note_entries fuel ram dynamic (new_context dynamic base_addr)

-- `info & 0xFFFFFFFF` and `info >> 32`
abbrev pub get_relocation_type : ℕ → ℕ
get_relocation_type info = info % 2 ^ 32

abbrev pub get_relocation_symbol : ℕ → ℕ
get_relocation_symbol info = info / 2 ^ 32 % 2 ^ 32

-- Bound as global or weak, and a function or an object.
abbrev pub exported : Sym → Bool
exported s =
    ((s.st_info / 16 % 16 == 1) || (s.st_info / 16 % 16 == 2))
    && ((s.st_info % 16 == 2) || (s.st_info % 16 == 1))

-- The search through the symbol table of one library, which ends at a symbol without a name.
unfoldable pub search_symtab : ℕ → Ram → DynamicContext → ℕ → ℕ → List ℕ → Option (Option ℕ)
search_symtab zero ram c strtab sym_ptr name = none
search_symtab (suc fuel) ram c strtab sym_ptr name =
    let rest = search_symtab fuel ram c strtab (add64 sym_ptr sym_size) name in
    let s = sym_at ram sym_ptr in
    if s.st_name == 0 then some none else elim (get_symbol_name (suc fuel) ram strtab s.st_name) [
      | none ↦ none
      | some found ↦
          if bytes_eq found name && exported s
          then some (some (add64 c.base_addr s.st_value))
          else rest
    ]

-- A library without a symbol table or without strings is passed over.
unfoldable pub search_library : ℕ → Ram → DynamicContext → List ℕ → Option (Option ℕ)
search_library fuel ram c name = elim c.symtab [
  | none ↦ some none
  | some symtab ↦ elim c.strtab [
    | none ↦ some none
    | some strtab ↦ search_symtab fuel ram c strtab symtab name
  ]
]

-- `LOADED_LIBRARIES.iter()`, in the order of the names.
unfoldable pub search_libraries :
    ℕ → Ram → List (List ℕ × DynamicContext) → List ℕ → Option (Option ℕ)
search_libraries fuel ram [] name = some none
search_libraries fuel ram ((lib, c) ∷ libs) name = elim (search_library fuel ram c name) [
  | none ↦ none
  | some none ↦ search_libraries fuel ram libs name
  | some (some addr) ↦ some (some addr)
]

-- The static variables of the linker.
pub record Linker : Type 0 where
  pub global_symbols : Symbols
  pub loaded_libraries : List (List ℕ × DynamicContext)

abbrev resolved : List ℕ → Linker → Option (Option ℕ) → Option (Option ℕ × Linker)
resolved name l none = none
resolved name l (some none) = some (none, l)
resolved name l (some (some addr)) =
    some (some addr, record l { global_symbols = insert name addr l.global_symbols })

unfoldable pub resolve_symbol : ℕ → Ram → List ℕ → Linker → Option (Option ℕ × Linker)
resolve_symbol fuel ram name l = elim (get name l.global_symbols) [
  | some addr ↦ some (some addr, l)
  | none ↦ resolved name l (search_libraries fuel ram l.loaded_libraries name)
]

unfoldable pub init_dynamic_linking : Linker
init_dynamic_linking = record { global_symbols = []; loaded_libraries = [] }

-- `rust_elf_resolve_symbol`: 0 if the name is not found.
unfoldable pub elf_resolve_symbol : ℕ → Ram → ℕ → Linker → Option (ℕ × Linker)
elf_resolve_symbol fuel ram symbol_name l = elim (read_str fuel ram symbol_name) [
  | none ↦ none
  | some name ↦ elim (resolve_symbol fuel ram name l) [
    | none ↦ none
    | some (none, l') ↦ some (0, l')
    | some (some addr, l') ↦ some (addr, l')
  ]
]

-- `rust_elf_add_symbol`
unfoldable pub elf_add_symbol : ℕ → Ram → ℕ → ℕ → Linker → Option Linker
elf_add_symbol fuel ram symbol_name address l = elim (read_str fuel ram symbol_name) [
  | none ↦ none
  | some name ↦ some (record l { global_symbols = insert name address l.global_symbols })
]

-- The counts are cut to u32.
abbrev pub elf_get_loaded_library_count : Linker → ℕ
elf_get_loaded_library_count l = length l.loaded_libraries % 2 ^ 32

abbrev pub elf_get_global_symbol_count : Linker → ℕ
elf_get_global_symbol_count l = length l.global_symbols % 2 ^ 32

abbrev base_of : List ℕ → List (List ℕ × DynamicContext) → ℕ
base_of name [] = 0
base_of name ((lib, c) ∷ libs) = if bytes_eq lib name then c.base_addr else base_of name libs

-- `rust_elf_load_shared_library`: the base of a library that is loaded, or else 0.
unfoldable pub elf_load_shared_library : ℕ → Ram → ℕ → Linker → Option ℕ
elf_load_shared_library fuel ram lib_name l = elim (read_str fuel ram lib_name) [
  | none ↦ none
  | some name ↦ some (base_of name l.loaded_libraries)
]

-- `*(a as *mut u64) = v`
abbrev pub bytes_of : ℕ → ℕ → List ℕ
bytes_of zero v = []
bytes_of (suc n) v = v % 256 ∷ bytes_of n (v / 256)

abbrev pub store64 : Ram → ℕ → ℕ → Ram
store64 ram a v = store ram a (bytes_of 8 v)

-- The three relocations against a symbol, which differ in what is added to its address.
unfoldable pub relocate_symbol :
    ℕ → DynamicContext → Rela → ℕ → Ram × Linker → Option (Ram × Linker)
relocate_symbol fuel c r addend (ram, l) = elim c.symtab [
  | none ↦ some (ram, l)
  | some symtab ↦ elim c.strtab [
    | none ↦ some (ram, l)
    | some strtab ↦
        let s = sym_at ram (add64 symtab (sym_size * get_relocation_symbol r.r_info)) in
        elim (get_symbol_name fuel ram strtab s.st_name) [
          | none ↦ none
          | some name ↦ elim (resolve_symbol fuel ram name l) [
            | none ↦ none
            | some (none, l') ↦ some (ram, l')
            | some (some addr, l') ↦
                some (store64 ram (add64 c.base_addr r.r_offset) (add64 addr addend), l')
          ]
        ]
  ]
]

-- The match on the type of the relocation.
unfoldable pub relocate : ℕ → DynamicContext → Rela → Ram × Linker → Option (Ram × Linker)
relocate fuel c r (ram, l) =
    if get_relocation_type r.r_info == 8
    then some (store64 ram (add64 c.base_addr r.r_offset) (add64 c.base_addr r.r_addend), l)
    else if (get_relocation_type r.r_info == 6) || (get_relocation_type r.r_info == 7)
    then relocate_symbol fuel c r 0 (ram, l)
    else if get_relocation_type r.r_info == 1
    then relocate_symbol fuel c r r.r_addend (ram, l)
    else some (ram, l)

abbrev pub ends_table : Rela → Bool
ends_table r = (r.r_offset == 0) && (r.r_info == 0)

-- One table of relocations, which ends at an entry of zeros.
unfoldable pub relocate_table : ℕ → DynamicContext → ℕ → Ram × Linker → Option (Ram × Linker)
relocate_table zero c a (ram, l) = none
relocate_table (suc fuel) c a (ram, l) =
    if ends_table (rela_at ram a)
    then some (ram, l)
    else elim (relocate (suc fuel) c (rela_at ram a) (ram, l)) [
      | none ↦ none
      | some s ↦ relocate_table fuel c (add64 a rela_size) s
    ]

unfoldable pub relocate_tables : ℕ → DynamicContext → List ℕ → Ram × Linker → Option (Ram × Linker)
relocate_tables fuel c [] s = some s
relocate_tables fuel c (a ∷ tables) s = elim (relocate_table fuel c a s) [
  | none ↦ none
  | some s' ↦ relocate_tables fuel c tables s'
]

unfoldable pub apply_relocations : ℕ → DynamicContext → Ram × Linker → Option (Ram × Linker)
apply_relocations fuel c s = relocate_tables fuel c c.relocations s
