-- ===== src/Elf.antt =====
-- The ELF loader, kernel-rs/src/elf.rs: memory, the structures of the format as the code reads them
-- from memory, and what it writes to the serial line as text. Link is dynamic linking, Load the
-- loader itself.
-- The memory is a function from an address to a byte. A pointer into it is an address, and pointer
-- arithmetic wraps at 64 bits; the bytes of one field stand at consecutive addresses.
pub mod Link
pub mod Load
mod Serial
mod Bytes
mod Tests
use shade_os.Base.{
  ℕ, zero, suc, ◌+◌, ◌-◌, ◌*◌, ◌^◌, Bool, ◌&&◌, List, [], ◌∷◌, Option, none, some, ltb, leb, ◌==◌,
  if◌then◌else◌, length, get_or,
}
use shade_os.Heap.{add64}
use mathlib.Core.Option

abbrev pub Ram : Type 0
Ram = ℕ → ℕ

-- `n` bytes from `a` on, as a number with the least byte first.
pub read_le : Ram → ℕ → ℕ → ℕ
read_le ram a zero = 0
read_le ram a (suc n) = ram a + 256 * read_le ram (suc a) n

abbrev pub read16 : Ram → ℕ → ℕ
read16 ram a = read_le ram a 2

abbrev pub read32 : Ram → ℕ → ℕ
read32 ram a = read_le ram a 4

abbrev pub read64 : Ram → ℕ → ℕ
read64 ram a = read_le ram a 8

abbrev pub inside : ℕ → ℕ → ℕ → Bool
inside x a n = leb a x && ltb x (a + n)

-- The bytes of a list stored from `a` on.
abbrev pub store : Ram → ℕ → List ℕ → Ram
store ram a bytes x = if inside x a (length bytes) then get_or bytes (x - a) 0 else ram x

-- `copy_nonoverlapping(src, dst, n)`
abbrev pub copy : Ram → ℕ → ℕ → ℕ → Ram
copy ram src dst n x = if inside x dst n then ram (src + (x - dst)) else ram x

-- `write_bytes(dst, v, n)`
abbrev pub write_bytes : Ram → ℕ → ℕ → ℕ → Ram
write_bytes ram dst v n x = if inside x dst n then v else ram x

-- `struct Elf64_Ehdr`, the fields that are read.
pub record Ehdr : Type 0 where
  pub magic : List ℕ
  pub class : ℕ
  pub encoding : ℕ
  pub version : ℕ
  pub e_type : ℕ
  pub e_machine : ℕ
  pub e_entry : ℕ
  pub e_phoff : ℕ
  pub e_phentsize : ℕ
  pub e_phnum : ℕ

-- `size_of::<Elf64_Ehdr>()`
abbrev pub ehdr_size : ℕ
ehdr_size = 64

-- The first seven bytes are `e_ident[0..7]`.
unfoldable pub ehdr_at : Ram → ℕ → Ehdr
ehdr_at ram a = record {
  magic = ram a ∷ ram (a + 1) ∷ ram (a + 2) ∷ ram (a + 3) ∷ [];
  class = ram (a + 4);
  encoding = ram (a + 5);
  version = ram (a + 6);
  e_type = read16 ram (a + 16);
  e_machine = read16 ram (a + 18);
  e_entry = read64 ram (a + 24);
  e_phoff = read64 ram (a + 32);
  e_phentsize = read16 ram (a + 54);
  e_phnum = read16 ram (a + 56);
}

-- `struct Elf64_Phdr`, the fields that are read.
pub record Phdr : Type 0 where
  pub p_type : ℕ
  pub p_offset : ℕ
  pub p_vaddr : ℕ
  pub p_filesz : ℕ
  pub p_memsz : ℕ

unfoldable pub phdr_at : Ram → ℕ → Phdr
phdr_at ram a = record {
  p_type = read32 ram a;
  p_offset = read64 ram (a + 8);
  p_vaddr = read64 ram (a + 16);
  p_filesz = read64 ram (a + 32);
  p_memsz = read64 ram (a + 40);
}

-- `struct Elf64_Sym`, the fields that are read, and its size.
pub record Sym : Type 0 where
  pub st_name : ℕ
  pub st_info : ℕ
  pub st_value : ℕ

unfoldable pub sym_at : Ram → ℕ → Sym
sym_at ram a = record {
  st_name = read32 ram a;
  st_info = ram (a + 4);
  st_value = read64 ram (a + 8);
}

abbrev pub sym_size : ℕ
sym_size = 24

-- `struct Elf64_Rela`: the addend is an i64, which is only ever read as u64.
pub record Rela : Type 0 where
  pub r_offset : ℕ
  pub r_info : ℕ
  pub r_addend : ℕ

unfoldable pub rela_at : Ram → ℕ → Rela
rela_at ram a = record {
  r_offset = read64 ram a;
  r_info = read64 ram (a + 8);
  r_addend = read64 ram (a + 16);
}

abbrev pub rela_size : ℕ
rela_size = 24

-- `struct Elf64_Dyn`: the tag is an i64, which is compared with constants only.
pub record Dyn : Type 0 where
  pub d_tag : ℕ
  pub d_val : ℕ

unfoldable pub dyn_at : Ram → ℕ → Dyn
dyn_at ram a = record { d_tag = read64 ram a; d_val = read64 ram (a + 8) }

abbrev pub dyn_size : ℕ
dyn_size = 16

-- The loops that collect the characters up to a zero byte: none means that the fuel ran out.
pub read_str : ℕ → Ram → ℕ → Option (List ℕ)
read_str zero ram a = none
read_str (suc fuel) ram a =
    let rest = read_str fuel ram (add64 a 1) in
    if ram a == 0 then some [] else Option.map (λ (s : List ℕ). ram a ∷ s) rest

-- `get_symbol_name`
unfoldable pub get_symbol_name : ℕ → Ram → ℕ → ℕ → Option (List ℕ)
get_symbol_name fuel ram strtab name_offset = read_str fuel ram (add64 strtab name_offset)
