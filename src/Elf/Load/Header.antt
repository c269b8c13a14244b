-- ===== src/Elf/Load/Header.antt =====
-- Which files the loader takes: the tests of the header, and the code for the first that fails.
use shade_os.Base.{
  ℕ, ◌≤◌, ◌≡◌, ◌≢◌, ◌↔◌, ◌⊎◌, inl, inr, refl, subst, Bool, true, false, not, ◌||◌, List, [], ◌∷◌,
  Option, none, some, arith, ltb, ◌==◌, if◌then◌else◌, Bool-cases, Option-cases, bytes_eq,
  bytes_eq→eq, ==→eq, not_ltb→le, not_==→ne, ℤ, negsuc,
}
use shade_os.Elf.{Ehdr, ehdr_at, ehdr_size}
use shade_os.Elf.Load.{
  Loader, Runtime, in_space, buf_size, check_header, headers_end, load_image, load_file,
}

abbrev elf_magic : List ℕ
elf_magic = 0x7F ∷ 69 ∷ 76 ∷ 70 ∷ []

-- A header of a 64-bit program or shared object for this machine.
pub record IsElf (e : Ehdr) : Type 0 where
  pub magic : e.magic ≡ elf_magic
  pub class : e.class ≡ 2
  pub encoding : e.encoding ≡ 1
  pub version : e.version ≡ 1
  pub kind : (e.e_type ≡ 2) ⊎ (e.e_type ≡ 3)
  pub machine : e.e_machine ≡ 62

pub check_header-IsElf : (e : Ehdr) → (check_header e ≡ none) ↔ IsElf e
unfolding check_header
check_header-IsElf e = (
  λ h. elim (Bool-cases (bytes_eq e.magic elf_magic)) [
    | inl m ↦ record {
      magic = bytes_eq→eq e.magic elf_magic m;
      class = ground (arith, m);
      encoding = ground (arith, m);
      version = ground (arith, m);
      kind = ground (arith, m);
      machine = ground (arith, m);
    }
    | inr m ↦ absurd (cc (rw m at h))
  ],
  λ v. rw (v.magic, v.class, v.encoding, v.version, v.machine) (ground (arith, v.kind)),
)

-- No code, or a negative one.
abbrev IsRefusal : Option ℤ → Type 0
IsRefusal none = Unit
IsRefusal (some c) = (k : ℕ) × (c ≡ negsuc k)

if-IsRefusal :
    (b : Bool) (k : ℕ) (y : Option ℤ) → IsRefusal y → IsRefusal (if b then some (negsuc k) else y)
if-IsRefusal true k y q = (k, refl)
if-IsRefusal false k y q = q

check_header-IsRefusal : (e : Ehdr) → IsRefusal (check_header e)
unfolding check_header
check_header-IsRefusal e = if-IsRefusal (not (bytes_eq e.magic elf_magic)) 1 _ (
    if-IsRefusal (not (e.class == 2)) 2 _ (
      if-IsRefusal (not (e.encoding == 1)) 3 _ (
        if-IsRefusal (not (e.version == 1)) 4 _ (
          if-IsRefusal (not ((e.e_type == 2) || (e.e_type == 3))) 5 _
            (if-IsRefusal (not (e.e_machine == 62)) 6 none tt)))))

-- A file of `n` bytes that the loader goes on with, given the answer for the address space.
pub record IsAccepted (user_pml4 n : ℕ) (e : Ehdr) : Type 0 where
  pub long_enough : ehdr_size ≤ n
  pub in_buf : n ≤ buf_size
  pub elf : IsElf e
  pub table : headers_end e ≤ n
  pub address_space : user_pml4 ≢ 0

module _ (rt : Runtime) (fuel buf n : ℕ) (s : Loader) where
  abbrev pub header : Ehdr
  header = ehdr_at s.ram buf

  -- The answer of the creation of the address space.
  abbrev pub user_pml4 : ℕ
  user_pml4 = (rt.new_pml4 s.ram).0

  -- The code is negative, and nothing has changed, or what a failed creation of the address space did.
  abbrev pub Refuses : Type 0
  Refuses =
      (¬ IsAccepted user_pml4 n header)
      × ((c : ℕ) × (s' : Loader) × (load_file rt fuel buf n s ≡ some (negsuc c, s'))
          × ((s' ≡ s) ⊎ ((s' ≡ in_space rt s) × (user_pml4 ≡ 0))))

  -- The loader goes on exactly with the files that it accepts, in the address space created. For all
  -- others it answers with a negative code, and neither the memory nor the heap has changed, except
  -- by a creation of the address space that failed.
  pub load_file-IsAccepted :
      (IsAccepted user_pml4 n header
        × (load_file rt fuel buf n s ≡ load_image rt fuel buf n header (in_space rt s)))
      ⊎ Refuses
  unfolding load_file
  load_file-IsAccepted = elim (Bool-cases (ltb n ehdr_size)) [
    | inl short ↦ inr (λ a. absurd (ground (arith, a.long_enough)), (0, s, rw short refl, inl refl))
    | inr long ↦ elim (Bool-cases (ltb buf_size n)) [
      | inl big ↦
          inr (λ a. absurd (ground (arith, a.in_buf)), (19, s, rw (long, big) refl, inl refl))
      | inr fits ↦ elim (Option-cases (check_header header)) [
        | inr (c, bad) ↦
            let (k, neg) = subst IsRefusal bad (check_header-IsRefusal header) in
            inr (
              λ a. absurd (cc (bad, (check_header-IsElf header).1 a.elf)),
              (k, s, rw (long, fits, bad, neg) refl, inl refl),
            )
        | inl good ↦ elim (Bool-cases (ltb n (headers_end header))) [
          | inl out ↦ inr (
            λ a. absurd (ground (arith, a.table)),
            (7, s, rw (long, fits, good, out) refl, inl refl),
          )
          | inr inside ↦ elim (Bool-cases (user_pml4 == 0)) [
            | inl none_left ↦ inr (
              λ a. absurd (a.address_space (==→eq _ _ none_left)),
              (
                10,
                in_space rt s,
                rw (long, fits, good, inside, none_left) refl,
                inr (refl, ==→eq _ _ none_left),
              ),
            )
            | inr given ↦ inl (
              record {
                long_enough = not_ltb→le n ehdr_size long;
                in_buf = not_ltb→le buf_size n fits;
                elf = (check_header-IsElf header).0 good;
                table = not_ltb→le n (headers_end header) inside;
                address_space = not_==→ne user_pml4 0 given;
              },
              rw (long, fits, good, inside, given) refl,
            )
          ]
        ]
      ]
    ]
  ]
