-- ===== src/Elf/Load/Fill.antt =====
-- What the stores of a segment leave behind: the bytes of the file, then zeros, and nothing else.
use shade_os.Base.{ℕ, ◌+◌, ◌-◌, ◌^◌, ◌≤◌, ◌<◌, ◌≡◌, ◌⊎◌, refl, subst, arith}
use shade_os.Heap.{add64}
use shade_os.Elf.{Ram, read_le, Phdr, phdr_at}
use shade_os.Elf.Bytes.{Same, read_le-Same}
use shade_os.Elf.Load.{fill_segment}

pub phdr_at-Same : (r r' : Ram) (a : ℕ) → Same r r' a 56 → phdr_at r' a ≡ phdr_at r a
unfolding phdr_at
phdr_at-Same r r' a same =
    let field : (o n : ℕ) → o + n ≤ 56 → read_le r' (a + o) n ≡ read_le r (a + o) n =
      λ o n h. read_le-Same r r' (a + o) n (λ x lo hi. same x (omega arith) (omega arith)) in
    rw
      (
        read_le-Same r r' a 4 (λ x lo hi. same x lo (omega arith)),
        field 8 8 (omega arith),
        field 16 8 (omega arith),
        field 32 8 (omega arith),
        field 40 8 (omega arith),
      )
      refl

-- A segment in its block: the bytes of the file from `src` on, then zeros.
pub record IsFilled (file : Ram) (src : ℕ) (ph : Phdr) (ram : Ram) (p : ℕ) : Type 0 where
  pub copied : (k : ℕ) → k < ph.p_filesz → ram (p + k) ≡ file (src + k)
  pub bss : (k : ℕ) → ph.p_filesz ≤ k → k < ph.p_memsz → ram (p + k) ≡ 0

-- A segment that may be loaded: the code does not ask for the first, and for the third only up to
-- wrap-around.
pub record IsSegment (ph : Phdr) : Type 0 where
  pub fits : ph.p_filesz ≤ ph.p_memsz
  pub size : ph.p_memsz + 15 < 2 ^ 64
  pub end : ph.p_offset + ph.p_filesz < 2 ^ 64

module _ (ram : Ram) (buf : ℕ) (ph : Phdr) (p : ℕ) (fits : ph.p_filesz ≤ ph.p_memsz)
    (lim : p + ph.p_memsz < 2 ^ 64) where
  pub fill_segment-data :
      (k : ℕ)
      → k < ph.p_filesz
      → fill_segment ram buf ph p (p + k) ≡ ram (add64 buf ph.p_offset + k)
  unfolding add64
  fill_segment-data k h =
      let e : p + k - p ≡ k = omega arith in
      subst (λ (i : ℕ). fill_segment ram buf ph p (p + k) ≡ ram (add64 buf ph.p_offset + i)) e
        (ground arith)

  pub fill_segment-bss :
      (k : ℕ) → ph.p_filesz ≤ k → k < ph.p_memsz → fill_segment ram buf ph p (p + k) ≡ 0
  unfolding add64
  fill_segment-bss k lo hi = ground arith

  pub fill_segment-outside :
      (x : ℕ) → (x < p) ⊎ (p + ph.p_memsz ≤ x) → fill_segment ram buf ph p x ≡ ram x
  unfolding add64
  fill_segment-outside x o = ground arith
