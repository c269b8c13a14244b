-- ===== src/Elf/Tests.antt =====
-- Runs of the loader and of dynamic linking, and the theorems at them.
use shade_os.Base.{
  ℕ, zero, suc, ◌+◌, ◌≤◌, ◌<◌, ◌≡◌, ◌≢◌, ◌⊎◌, inr, refl, false, Option, some, List, [], ◌∷◌, ◌++◌,
  arith, replicate, pos,
}
use shade_os.Heap.{
  Memory, init_heap, kmalloc, align_up, add64, sub64, find_fit, take_block, set_prev,
}
use shade_os.Vfs.{
  Fs, entry, cons, nil, regular, directory, read_file, read_entry, find_entry, walk, lookup,
  split_path, get_path_components,
}
use shade_os.Elf.{Ram, store, write_bytes, read_le, ehdr_at, phdr_at, dyn_at, rela_at, read_str}
use shade_os.Elf.Link.{
  DynamicContext, new_context, Linker, get_relocation_type, bytes_of, init_dynamic_linking,
  process_dynamic_section, apply_relocations, elf_resolve_symbol, elf_add_symbol, insert,
}
use shade_os.Elf.Load.{
  Loader, Runtime, in_space, load_parts, check_header, find_dynamic, collect_needed, needed_libs,
  place_segment, load_segment, load_segments, link, set_up_stack, load_image, load_file, buffered,
  rust_elf_load,
}
use shade_os.Elf.Load.Header.{IsAccepted, Refuses, load_file-IsAccepted}
use shade_os.Elf.Link.Symbols.{address, elf_resolve_symbol-elf_add_symbol}
use shade_os.Elf.Link.Dynamic.{entries, vals, Noted, process_dynamic_section-Noted}
use shade_os.Elf.Link.Relocate.{rela_addr, target, IsTable, Relocated, apply_relocations-Relocated}

-- A header, one program header for a segment of 4 bytes that takes 32, and these bytes.
abbrev image : List ℕ
image =
    (0x7F ∷ 69 ∷ 76 ∷ 70 ∷ 2 ∷ 1 ∷ 1 ∷ replicate 9 0)
    ++ (bytes_of 2 2 ++ bytes_of 2 62 ++ bytes_of 4 1 ++ bytes_of 8 0x400000 ++ bytes_of 8 64)
    ++ (replicate 12 0 ++ bytes_of 2 64 ++ bytes_of 2 56 ++ bytes_of 2 1 ++ replicate 6 0)
    ++ (bytes_of 4 1 ++ bytes_of 4 5 ++ bytes_of 8 120 ++ bytes_of 8 0x400000)
    ++ (replicate 8 0 ++ bytes_of 8 4 ++ bytes_of 8 32 ++ replicate 8 0)
    ++ (11 ∷ 22 ∷ 33 ∷ 44 ∷ [])

abbrev disk : Fs
disk =
    some
      (entry (b'/' ∷ []) directory [] (cons (b'a' ∷ []) (entry (b'a' ∷ []) regular image nil) nil))

abbrev path : Option (List ℕ)
path = some (b'/' ∷ b'a' ∷ [])

abbrev base : ℕ
base = 0x100000

abbrev buf : ℕ
buf = 0x800000

abbrev blank : Memory
blank _ = record { magic = 0; size = 0; is_free = false; next = 0; prev = 0 }

abbrev machine : Loader
machine = record { ram = λ _. 99; heap = init_heap base blank; linker = init_dynamic_linking }

-- The page of a new address space, zeroed; the strings and the vector leave nothing behind.
abbrev rt : Runtime
rt = record {
  new_pml4 = λ ram. (0xA00000, write_bytes ram 0xA00000 0 4096);
  path_strings = λ p s. some s;
  grow = λ libs s. some s;
  release = λ libs s. s;
}

run : (s' : Loader) × (rust_elf_load rt 10 buf path disk machine ≡ some (pos 0, s'))
unfolding rust_elf_load load_file check_header load_image load_parts find_dynamic needed_libs
    load_segments load_segment place_segment link set_up_stack kmalloc align_up add64 sub64 find_fit
    take_block set_prev ehdr_at phdr_at read_le read_file read_entry find_entry walk lookup
    split_path get_path_components init_heap
run = (_, refl)

abbrev after : Loader
after = run.0

abbrev in_buf : Loader
in_buf = buffered buf image machine

load_file-IsAccepted_example :
    (IsAccepted 0xA00000 124 (ehdr_at in_buf.ram buf)
      × (load_file rt 10 buf 124 in_buf
          ≡ load_image rt 10 buf 124 (ehdr_at in_buf.ram buf) (in_space rt in_buf)))
    ⊎ Refuses rt 10 buf 124 in_buf
load_file-IsAccepted_example = load_file-IsAccepted rt 10 buf 124 in_buf

abbrev name_ab : List ℕ
name_ab = b'a' ∷ b'b' ∷ []

abbrev name_cd : List ℕ
name_cd = b'c' ∷ b'd' ∷ []

-- "ab" stands at 16, and "cd" at 32.
abbrev texts : Ram
texts = store (store (λ _. 0) 16 (b'a' ∷ b'b' ∷ 0 ∷ [])) 32 (b'c' ∷ b'd' ∷ 0 ∷ [])

added : (m : Linker) × (elf_add_symbol 5 texts 16 0x1000 init_dynamic_linking ≡ some m)
unfolding elf_add_symbol read_str add64 insert init_dynamic_linking
added = (_, refl)

ab : read_str 5 texts 16 ≡ some name_ab
unfolding read_str add64
ab = refl

cd : read_str 5 texts 32 ≡ some name_cd
unfolding read_str add64
cd = refl

elf_resolve_symbol-elf_add_symbol_example :
    (name_ab ≡ name_cd → address (elf_resolve_symbol 5 texts 32 added.0) ≡ some 0x1000)
    × (name_ab ≢ name_cd
        → address (elf_resolve_symbol 5 texts 32 added.0)
          ≡ address (elf_resolve_symbol 5 texts 32 init_dynamic_linking))
elf_resolve_symbol-elf_add_symbol_example =
    elf_resolve_symbol-elf_add_symbol 5 texts 16 32 0x1000 name_ab name_cd init_dynamic_linking
      added.0 ab cd added.1

-- A dynamic section at 64: a library, a string table, and the end.
abbrev section_ram : Ram
section_ram =
    store (λ _. 0) 64
      (bytes_of 8 1 ++ bytes_of 8 7 ++ bytes_of 8 5 ++ bytes_of 8 0x300 ++ bytes_of 16 0)

section_entries :
    entries 4 section_ram 64
    ≡ some (record { d_tag = 1; d_val = 7 } ∷ record { d_tag = 5; d_val = 0x300 } ∷ [])
unfolding entries dyn_at read_le add64
section_entries = refl

process_dynamic_section-Noted_example :
    (c : DynamicContext) × (process_dynamic_section 4 section_ram 64 0x400000 ≡ some c)
    × Noted
        (record { d_tag = 1; d_val = 7 } ∷ record { d_tag = 5; d_val = 0x300 } ∷ [])
        (new_context 64 0x400000)
        c
    × (collect_needed 4 section_ram 64
        ≡ some
            (vals 1 (record { d_tag = 1; d_val = 7 } ∷ record { d_tag = 5; d_val = 0x300 } ∷ [])))
process_dynamic_section-Noted_example =
    process_dynamic_section-Noted 4 section_ram 64 0x400000
      (record { d_tag = 1; d_val = 7 } ∷ record { d_tag = 5; d_val = 0x300 } ∷ []) section_entries

-- One relative relocation at 256, for the word at 0x400010, with the addend 0x20.
abbrev rela_ram : Ram
rela_ram = store (λ _. 0) 256 (bytes_of 8 0x10 ++ bytes_of 8 8 ++ bytes_of 8 0x20 ++ bytes_of 24 0)

abbrev context : DynamicContext
context = record (new_context 64 0x400000) { relocations = 256 ∷ [] }

rela-IsTable : IsTable 0x400000 rela_ram 256 1
unfolding rela_at read_le add64
rela-IsTable = record {
  top = omega arith;
  relative = relative;
  stops = refl;
  outside = outside;
  apart = λ i j lt lt'. absurd (omega arith);
}
  where
    relative : (i : ℕ) → i < 1 → get_relocation_type (rela_at rela_ram (rela_addr 256 i)).r_info ≡ 8
    relative zero lt = refl
    relative (suc i) lt = absurd (omega arith)

    outside :
        (i : ℕ)
        → i < 1
        → (target 0x400000 (rela_at rela_ram (rela_addr 256 i)) + 8 ≤ 256)
          ⊎ (rela_addr 256 2 ≤ target 0x400000 (rela_at rela_ram (rela_addr 256 i)))
    outside zero lt = inr (omega arith)
    outside (suc i) lt = absurd (omega arith)

apply_relocations-Relocated_example :
    (ram' : Ram) × (apply_relocations 3 context (rela_ram, init_dynamic_linking)
      ≡ some (ram', init_dynamic_linking))
    × Relocated 0x400000 rela_ram 256 1 ram'
apply_relocations-Relocated_example =
    apply_relocations-Relocated context init_dynamic_linking 3 1 rela_ram 256 refl (omega arith)
      rela-IsTable
