-- ===== src/Elf/Load/Program.antt =====
-- The loader as a whole: what a program that was loaded without an error has in memory.
use shade_os.Base.{
  ℕ, ◌+◌, ◌*◌, ◌^◌, ◌≤◌, ◌<◌, ◌≡◌, ◌⊎◌, List, [], Option, none, ◌≢◌, some, length, get_or,
}
use shade_os.Heap.{heap_size}
use shade_os.Heap.Layout.{Seg}
use shade_os.Heap.Valid.{IsBase}
use shade_os.Heap.Reach.{InUse}
use shade_os.Vfs.{Fs}
use shade_os.Elf.{Ram, Ehdr, ehdr_at, Phdr, phdr_at}
use shade_os.Elf.Load.{
  Loader, Runtime, find_dynamic, needed_libs, buf_size, phdr_addr, stack_size, buffered,
}
use shade_os.Elf.Load.Fill.{IsSegment}
use shade_os.Elf.Load.Header.{IsAccepted}

-- What the loader relies on: the creation of an address space writes to one page only, the one that
-- it answers with, outside of the heap and of the buffer; and a vector of no words has no memory.
pub record IsRuntime (base buf : ℕ) (rt : Runtime) : Type 0 where
  pub page : Ram → ℕ
  pub answer : (ram : Ram) → (rt.new_pml4 ram).0 ≢ 0 → page ram ≡ (rt.new_pml4 ram).0
  pub page_apart : (ram : Ram) → (page ram + 4096 ≤ base) ⊎ (base + heap_size ≤ page ram)
  pub page_buf : (ram : Ram) → (page ram + 4096 ≤ buf) ⊎ (buf + buf_size ≤ page ram)
  pub others :
      (ram : Ram) (x : ℕ) → (x < page ram) ⊎ (page ram + 4096 ≤ x) → (rt.new_pml4 ram).1 x ≡ ram x
  pub grow_none : (s : Loader) → rt.grow [] s ≡ some s
  pub release_none : (s : Loader) → rt.release [] s ≡ s

-- The section of the libraries, as the first pass finds it.
abbrev pub libraries : ℕ → ℕ → ℕ → Ehdr → Ram → Option (List ℕ)
libraries fuel buf n e ram = needed_libs fuel ram buf n (find_dynamic ram buf e e.e_phnum 0 none)

-- What is asked of the place of `buf` and of the file in it, as far as the code does not test it:
-- the buffer is not in the heap, program headers have the size of the structure, and the sums of
-- offsets and sizes do not wrap.
pub record IsProgram (base buf : ℕ) (ram : Ram) : Type 0 where
  pub apart : (buf + buf_size ≤ base) ⊎ (base + heap_size ≤ buf)
  pub top : buf + buf_size ≤ 2 ^ 64
  pub kind : (ehdr_at ram buf).e_type ≡ 2
  pub entry : 56 ≤ (ehdr_at ram buf).e_phentsize
  pub table :
      (ehdr_at ram buf).e_phoff + (ehdr_at ram buf).e_phnum * (ehdr_at ram buf).e_phentsize < 2 ^ 64
  pub segments :
      (j : ℕ)
      → j < (ehdr_at ram buf).e_phnum
      → (phdr_at ram (phdr_addr buf (ehdr_at ram buf) j)).p_type ≡ 1
      → IsSegment (phdr_at ram (phdr_addr buf (ehdr_at ram buf) j))

-- The number of the segment `j`, its block, and the bytes there: those of the file, then zeros.
pub record Segment (base : ℕ) (file : List ℕ) (ph : Phdr) (s : Loader) : Type 0 where
  pub block : ℕ
  pub used : InUse base s.heap block ph.p_memsz
  pub copied : (k : ℕ) → k < ph.p_filesz → s.ram (block + k) ≡ get_or file (ph.p_offset + k) 0
  pub bss : (k : ℕ) → ph.p_filesz ≤ k → k < ph.p_memsz → s.ram (block + k) ≡ 0

-- What a load leaves behind: `start` is the state with the file in the buffer, and the page of the
-- address space is at `user_pml4`.
pub record Loaded (base buf user_pml4 n : ℕ) (file : List ℕ) (start s' : Loader) : Type 0 where
  pub accepted : IsAccepted user_pml4 n (ehdr_at start.ram buf)
  pub segment :
      (j : ℕ)
      → j < (ehdr_at start.ram buf).e_phnum
      → (phdr_at start.ram (phdr_addr buf (ehdr_at start.ram buf) j)).p_type ≡ 1
      → Segment base file (phdr_at start.ram (phdr_addr buf (ehdr_at start.ram buf) j)) s'
  pub stack : (p : ℕ) × InUse base s'.heap p stack_size
  pub outside :
      (x : ℕ)
      → (x < base) ⊎ (base + heap_size ≤ x)
      → (x < user_pml4) ⊎ (user_pml4 + 4096 ≤ x)
      → s'.ram x ≡ start.ram x

module _ (base fuel buf n : ℕ) (rt : Runtime) (path : Option (List ℕ)) (fs : Fs) (file : List ℕ)
    (s s0 s' : Loader) (ss : List Seg) where
  abbrev start : Loader
  start = buffered buf file s0

  abbrev header : Ehdr
  header = ehdr_at start.ram buf

  abbrev space : ℕ
  space = (rt.new_pml4 start.ram).0

  module _ (b : IsBase base) (law : IsRuntime base buf rt) (len : length file ≡ n)
      (prog : IsProgram base buf start.ram) (a : IsAccepted space n header) where
    abbrev phdr : Ram → ℕ → Phdr
    phdr ram j = phdr_at ram (phdr_addr buf header j)
