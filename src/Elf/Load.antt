-- ===== src/Elf/Load.antt =====
-- rust_elf_load of kernel-rs/src/elf.rs, over the file system, the heap and dynamic linking.
-- The 4096 bytes of `buf` stand on the stack of the caller, at the address `buf`. The blocks of the
-- heap are known to the allocator by their headers, and to the loader by the bytes in them.
pub mod Header
pub mod Fill
pub mod Segments
pub mod Program
mod Passes
pub mod Ends
use shade_os.Base.{
  ℕ, zero, suc, ◌+◌, ◌-◌, ◌*◌, Bool, false, not, ◌||◌, List, [], ◌∷◌, Option, none, some, ltb, leb,
  ◌==◌, if◌then◌else◌, bytes_eq, length, ℤ, pos, negsuc,
}
use shade_os.Heap.{Heap, add64, kmalloc}
use shade_os.Vfs.{Fs, read_file}
use shade_os.Elf.{
  Ram, store, copy, write_bytes, Ehdr, ehdr_at, ehdr_size, Phdr, phdr_at, Dyn, dyn_at, dyn_size,
}
use shade_os.Elf.Link.{Linker, DynamicContext, process_dynamic_section, apply_relocations}

pub record Loader : Type 0 where
  pub ram : Ram
  pub heap : Heap
  pub linker : Linker

-- What the loader calls that is not in kernel-rs: `rust_paging_new_pml4`, with its answer and the
-- memory behind it, and the vectors and strings of Rust's library, which allocate on the same heap:
-- the memory and the heap behind the strings of the lookup of a path, behind the pushes of a vector
-- of words, and behind the end of its life. None is the panic of an allocation that fails.
pub record Runtime : Type 0 where
  pub new_pml4 : Ram → ℕ × Ram
  pub path_strings : Option (List ℕ) → Loader → Option Loader
  pub grow : List ℕ → Loader → Option Loader
  pub release : List ℕ → Loader → Loader

abbrev pub in_space : Runtime → Loader → Loader
in_space rt s = record s { ram = (rt.new_pml4 s.ram).1 }

abbrev pub buf_size : ℕ
buf_size = 4096

-- The identification and the kind of the file: the code of the first test that fails.
unfoldable pub check_header : Ehdr → Option ℤ
check_header e =
    if not (bytes_eq e.magic (0x7F ∷ 69 ∷ 76 ∷ 70 ∷ []))
    then some (negsuc 1)
    else if not (e.class == 2)
    then some (negsuc 2)
    else if not (e.encoding == 1)
    then some (negsuc 3)
    else if not (e.version == 1)
    then some (negsuc 4)
    else if not ((e.e_type == 2) || (e.e_type == 3))
    then some (negsuc 5)
    else if not (e.e_machine == 62)
    then some (negsuc 6)
    else none

-- `e_type == ET_DYN`
abbrev pub is_shared_object : Ehdr → Bool
is_shared_object e = e.e_type == 3

-- The end of the program headers.
abbrev pub headers_end : Ehdr → ℕ
headers_end e = add64 e.e_phoff (e.e_phnum * e.e_phentsize)

-- The address of the program header with the number `i`.
abbrev pub phdr_addr : ℕ → Ehdr → ℕ → ℕ
phdr_addr buf e i = add64 buf (add64 e.e_phoff (i * e.e_phentsize))

-- The first pass, over `n` headers from the number `i` on: the address of the last one that is
-- PT_DYNAMIC.
unfoldable pub find_dynamic : Ram → ℕ → Ehdr → ℕ → ℕ → Option ℕ → Option ℕ
find_dynamic ram buf e zero i found = found
find_dynamic ram buf e (suc n) i found =
    find_dynamic ram buf e n (suc i)
      (if (phdr_at ram (phdr_addr buf e i)).p_type == 2 then some (phdr_addr buf e i) else found)

-- The loop over the dynamic section that collects the libraries needed.
unfoldable pub collect_needed : ℕ → Ram → ℕ → Option (List ℕ)
collect_needed zero ram a = none
collect_needed (suc fuel) ram a =
    let entry = dyn_at ram a in
    let rest = collect_needed fuel ram (add64 a dyn_size) in
    if entry.d_tag == 0 then some [] else elim rest [
      | none ↦ none
      | some libs ↦ if entry.d_tag == 1 then some (entry.d_val ∷ libs) else some libs
    ]

-- The section is looked at if it ends inside the file.
unfoldable pub needed_libs : ℕ → Ram → ℕ → ℕ → Option ℕ → Option (List ℕ)
needed_libs fuel ram buf read_len none = some []
needed_libs fuel ram buf read_len (some dynamic_ph) =
    let ph = phdr_at ram dynamic_ph in
    if leb (add64 ph.p_offset ph.p_filesz) read_len
    then collect_needed fuel ram (add64 buf ph.p_offset)
    else some []

-- The bytes of a segment: those of the file, then zeros.
abbrev pub fill_segment : Ram → ℕ → Phdr → ℕ → Ram
fill_segment ram buf ph p =
    let copied = copy ram (add64 buf ph.p_offset) p ph.p_filesz in
    if ltb ph.p_filesz ph.p_memsz
    then write_bytes copied (add64 p ph.p_filesz) 0 (ph.p_memsz - ph.p_filesz)
    else copied

-- With what `rust_kmalloc` answered: null is an error, else the segment is copied.
unfoldable pub place_segment : ℕ → Phdr → Loader → Option (ℕ × Heap) → Option (Loader × Option ℤ)
place_segment buf ph s none = none
place_segment buf ph s (some (zero, h)) = some (record s { heap = h }, some (negsuc 8))
place_segment buf ph s (some (suc p, h)) =
    some (record s { ram = fill_segment s.ram buf ph (suc p); heap = h }, none)

-- The body of the second pass, and the error to return with, if any.
unfoldable pub load_segment : ℕ → ℕ → Phdr → Loader → Option (Loader × Option ℤ)
load_segment buf read_len ph s =
    if not (ph.p_type == 1)
    then some (s, none)
    else if ltb read_len (add64 ph.p_offset ph.p_filesz)
    then some (s, some (negsuc 20))
    else place_segment buf ph s (kmalloc ph.p_memsz s.heap)

unfoldable pub load_segments : ℕ → ℕ → Ehdr → ℕ → ℕ → Loader → Option (Loader × Option ℤ)
load_segments buf read_len e zero i s = some (s, none)
load_segments buf read_len e (suc n) i s =
    elim (load_segment buf read_len (phdr_at s.ram (phdr_addr buf e i)) s) [
      | none ↦ none
      | some (s', some code) ↦ some (s', some code)
      | some (s', none) ↦ load_segments buf read_len e n (suc i) s'
    ]

-- The base address of shared objects.
abbrev pub shared_base : ℕ
shared_base = 0x400000

-- "Apply relocations if this is a shared object"
unfoldable pub link : ℕ → ℕ → Ehdr → Option ℕ → Loader → Option Loader
link fuel buf e none s = some s
link fuel buf e (some dynamic_ph) s =
    if not (is_shared_object e)
    then some s
    else (let dynamic = add64 buf (phdr_at s.ram dynamic_ph).p_offset in
        elim (process_dynamic_section fuel s.ram dynamic shared_base) [
          | none ↦ none
          | some c ↦ elim (apply_relocations fuel c (s.ram, s.linker)) [
            | none ↦ none
            | some (ram, linker) ↦ some (record s { ram = ram; linker = linker })
          ]
        ])

abbrev pub stack_size : ℕ
stack_size = 0x8000

-- "After mapping all segments, set up user stack"
unfoldable pub set_up_stack : Loader → Option (ℤ × Loader)
set_up_stack s = elim (kmalloc stack_size s.heap) [
  | none ↦ none
  | some (zero, h) ↦ some (negsuc 9, record s { heap = h })
  | some (suc p, h) ↦ some (pos 0, record s { heap = h })
]

-- The vector of the libraries ends with the function.
abbrev pub released : Runtime → List ℕ → Option (ℤ × Loader) → Option (ℤ × Loader)
released rt libs none = none
released rt libs (some (code, s)) = some (code, rt.release libs s)

-- The second pass, the relocations and the stack.
unfoldable pub load_parts : ℕ → ℕ → ℕ → Ehdr → Option ℕ → Loader → Option (ℤ × Loader)
load_parts fuel buf read_len e dynamic_section s =
    elim (load_segments buf read_len e e.e_phnum 0 s) [
      | none ↦ none
      | some (s', some code) ↦ some (code, s')
      | some (s', none) ↦ elim (link fuel buf e dynamic_section s') [
        | none ↦ none
        | some s'' ↦ set_up_stack s''
      ]
    ]

-- After the address space has been created: the first pass, and all behind it.
unfoldable pub load_image : Runtime → ℕ → ℕ → ℕ → Ehdr → Loader → Option (ℤ × Loader)
load_image rt fuel buf read_len e s =
    let dynamic_section = find_dynamic s.ram buf e e.e_phnum 0 none in
    elim (needed_libs fuel s.ram buf read_len dynamic_section) [
      | none ↦ none
      | some libs ↦ elim (rt.grow libs s) [
        | none ↦ none
        | some s' ↦ released rt libs (load_parts fuel buf read_len e dynamic_section s')
      ]
    ]

-- The tests of the header, and the creation of the address space.
unfoldable pub load_file : Runtime → ℕ → ℕ → ℕ → Loader → Option (ℤ × Loader)
load_file rt fuel buf read_len s =
    let e = ehdr_at s.ram buf in
    if ltb read_len ehdr_size
    then some (negsuc 0, s)
    else if ltb buf_size read_len
    then some (negsuc 19, s)
    else elim (check_header e) [
      | some code ↦ some (code, s)
      | none ↦
          if ltb read_len (headers_end e)
          then some (negsuc 7, s)
          else if (rt.new_pml4 s.ram).0 == 0
          then some (negsuc 10, in_space rt s)
          else load_image rt fuel buf read_len e (in_space rt s)
    ]

-- `buf` is zeroed and then holds the bytes read.
abbrev pub buffered : ℕ → List ℕ → Loader → Loader
buffered buf bytes s = record s { ram = store (write_bytes s.ram buf 0 buf_size) buf bytes }

-- With what `rust_vfs_read` answered: a negative number is less than the size of a header.
abbrev pub load_read : Runtime → ℕ → ℕ → ℤ → Loader → Option (ℤ × Loader)
load_read rt fuel buf (negsuc n) s = some (negsuc 0, s)
load_read rt fuel buf (pos n) s = load_file rt fuel buf n s

-- The result, and the state; none if a vector or a string finds no memory, or the fuel for the walks
-- over the dynamic section is too little.
unfoldable pub rust_elf_load : Runtime → ℕ → ℕ → Option (List ℕ) → Fs → Loader → Option (ℤ × Loader)
rust_elf_load rt fuel buf path fs s =
    let (read_len, bytes) = read_file path false (pos buf_size) fs in
    elim (rt.path_strings path s) [
      | none ↦ none
      | some s' ↦ load_read rt fuel buf read_len (buffered buf bytes s')
    ]
