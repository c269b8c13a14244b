-- ===== src/Elf/Bytes.antt =====
-- Fields in memory: where two memories agree, and that a word stored is the word read.
use shade_os.Base.{
  ℕ, zero, suc, ◌+◌, ◌-◌, ◌*◌, ◌/◌, ◌%◌, ◌^◌, ◌≤◌, ◌<◌, ◌≡◌, ◌⊎◌, refl, ap, ap₂, List, ◌∷◌, arith,
  length,
}
use native.Mathlib.Nat.{pow-succ'}
use shade_os.Elf.{Ram, read_le, store, rela_at, rela_size}
use shade_os.Elf.Link.{bytes_of}

-- The bytes from `a` on that the two memories share.
abbrev pub Same : Ram → Ram → ℕ → ℕ → Type 0
Same r r' a n = (x : ℕ) → a ≤ x → x < a + n → r' x ≡ r x

pub read_le-Same : (r r' : Ram) (a n : ℕ) → Same r r' a n → read_le r' a n ≡ read_le r a n
unfolding read_le
read_le-Same r r' a zero same = refl
read_le-Same r r' a (suc n) same =
    ap₂ (λ (x y : ℕ). x + 256 * y) (same a (omega arith) (omega arith))
      (read_le-Same r r' (suc a) n (λ x lo hi. same x (omega arith) (omega arith)))

pub length-bytes_of : (n v : ℕ) → length (bytes_of n v) ≡ n
length-bytes_of zero v = refl
length-bytes_of (suc n) v = ap suc (length-bytes_of n (v / 256))

-- A store changes no byte outside of its range.
pub store-outside :
    (ram : Ram) (a : ℕ) (bytes : List ℕ) (x : ℕ)
    → (x < a) ⊎ (a + length bytes ≤ x)
    → store ram a bytes x ≡ ram x
store-outside ram a bytes x o = ground arith

store-first : (ram : Ram) (a v : ℕ) (bytes : List ℕ) → store ram a (v ∷ bytes) a ≡ v
store-first ram a v bytes = let e : a - a ≡ 0 = omega arith in rw e (ground arith)

store-rest :
    (ram : Ram) (a v : ℕ) (bytes : List ℕ) (x : ℕ)
    → suc a ≤ x
    → store ram a (v ∷ bytes) x ≡ store ram (suc a) bytes x
store-rest ram a v bytes x h = let e : x - a ≡ suc (x - suc a) = omega arith in rw e (ground arith)

-- A word that fits in `n` bytes is read as it was stored.
pub read_le-store :
    (ram : Ram) (n a v : ℕ) → v < 256 ^ n → read_le (store ram a (bytes_of n v)) a n ≡ v
unfolding read_le
read_le-store ram zero a v h = omega arith
read_le-store ram (suc n) a v h =
    let small : v / 256 < 256 ^ n = omega (arith, h, pow-succ' 256 n) in
    let first : store ram a (bytes_of (suc n) v) a ≡ v % 256 =
      store-first ram a (v % 256) (bytes_of n (v / 256)) in
    let rest : read_le (store ram (suc a) (bytes_of n (v / 256))) (suc a) n ≡ v / 256 =
      read_le-store ram n (suc a) (v / 256) small in
    let same =
      read_le-Same (store ram (suc a) (bytes_of n (v / 256))) (store ram a (bytes_of (suc n) v))
        (suc a) n (λ x lo hi. store-rest ram a (v % 256) (bytes_of n (v / 256)) x lo) in
    omega (arith, first, rest, same)

pub rela_at-Same : (r r' : Ram) (a : ℕ) → Same r r' a rela_size → rela_at r' a ≡ rela_at r a
unfolding rela_at
rela_at-Same r r' a same =
    let field : (o : ℕ) → o + 8 ≤ rela_size → read_le r' (a + o) 8 ≡ read_le r (a + o) 8 =
      λ o h. read_le-Same r r' (a + o) 8 (λ x lo hi. same x (omega arith) (omega arith)) in
    rw
      (
        read_le-Same r r' a 8 (λ x lo hi. same x lo (omega arith)),
        field 8 (omega arith),
        field 16 (omega arith),
      )
      refl
