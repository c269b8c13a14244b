-- ===== src/Elf/Load/Ends.antt =====
-- That the loader returns: its passes over the program headers, its requests to the heap, and the
-- walk over the dynamic section, which the code does not bound.
use shade_os.Base.{ℕ, zero, suc, ◌≤◌, ◌<◌, ◌≡◌, ◌≢◌, ◌⊎◌, false, List, Option, none, some, ℤ, pos}
use shade_os.Heap.{Heap, add64}
use shade_os.Heap.Layout.{Seg}
use shade_os.Heap.Valid.{IsBase, IsHeap}
use shade_os.Vfs.{Fs, read_file}
use shade_os.Elf.{Ram, Ehdr, phdr_at, dyn_at, dyn_size}
use shade_os.Elf.Load.{Loader, Runtime, buf_size, find_dynamic, needed_libs, buffered}

-- The computation returns something.
abbrev pub Returns {ℓ} : {A : Type ℓ} → Option A → Type ℓ
Returns {A} o = (a : A) × (o ≡ some a)

-- The address of the entry with the number `k` of the dynamic section at `a`.
abbrev pub entry_addr : ℕ → ℕ → ℕ
entry_addr a zero = a
entry_addr a (suc k) = entry_addr (add64 a dyn_size) k

-- If there is a dynamic section inside the file, one of its first `fuel` entries is DT_NULL.
abbrev pub HasEnd : ℕ → Ram → ℕ → ℕ → Option ℕ → Type 0
HasEnd fuel ram buf n none = Unit
HasEnd fuel ram buf n (some d) =
    add64 (phdr_at ram d).p_offset (phdr_at ram d).p_filesz ≤ n
    → (k : ℕ) × (k < fuel)
      × ((dyn_at ram (entry_addr (add64 buf (phdr_at ram d).p_offset) k)).d_tag ≡ 0)

-- Nothing to relocate: an executable, or no dynamic section.
abbrev pub Fixed : Ehdr → Option ℕ → Type 0
Fixed e d = (e.e_type ≢ 3) ⊎ (d ≡ none)

-- The program header of the dynamic section, if there is one.
abbrev pub section : ℕ → Ehdr → Ram → Option ℕ
section buf e ram = find_dynamic ram buf e e.e_phnum 0 none

module _ (base : ℕ) (b : IsBase base) where
  -- A step with a well-formed heap behind it.
  abbrev Steps : Option (Loader × Option ℤ) → Type 0
  Steps o = (r : Loader × Option ℤ) × (o ≡ some r) × (ss : List Seg) × IsHeap base r.0.heap ss

  module _ (rt : Runtime) (fuel buf n : ℕ) where
    -- What a file that is accepted, in the address space created, has to have for the loader to
    -- return: the walk over its dynamic section ends, there is nothing to relocate, and the heap has
    -- room for the vector of its libraries.
    pub record IsFinite (e : Ehdr) (s : Loader) : Type 0 where
      pub end : HasEnd fuel s.ram buf n (section buf e s.ram)
      pub fixed : Fixed e (section buf e s.ram)
      pub room :
          (libs : List ℕ)
          → needed_libs fuel s.ram buf n (section buf e s.ram) ≡ some libs
          → (s' : Loader) × (rt.grow libs s ≡ some s') × (ss : List Seg) × IsHeap base s'.heap ss

  module _ (rt : Runtime) (fuel buf : ℕ) (path : Option (List ℕ)) (fs : Fs) (s s0 : Loader) where
    abbrev pub read_len : ℤ
    read_len = (read_file path false (pos buf_size) fs).0

    abbrev pub in_buf : Loader
    in_buf = buffered buf (read_file path false (pos buf_size) fs).1 s0
