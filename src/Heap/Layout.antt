-- ===== src/Heap/Layout.antt =====
-- The abstract view of the heap: the blocks in address order, each with its size and whether it is
-- free. Allocation is first fit with a split, and freeing marks the block and joins free
-- neighbours.
use shade_os.Base.{
  ℕ, ◌+◌, ◌-◌, ◌%◌, ◌≡◌, refl, sym, Bool, true, false, ◌&&◌, List, [], ◌∷◌, ◌++◌, arith, ltb, leb,
  if◌then◌else◌,
}

pub record Seg : Type 0 where
  pub size : ℕ
  pub free : Bool

abbrev pub seg : ℕ → Bool → Seg
seg n b = record { size = n; free = b }

-- The bytes that a run of blocks takes, headers included.
abbrev pub span : List Seg → ℕ
span [] = 0
span (s ∷ ss) = 48 + s.size + span ss

-- First fit, from the block at address `a`: the pointer handed out, 0 if there is none, and the
-- blocks afterwards.
unfoldable pub alloc : ℕ → ℕ → List Seg → ℕ × List Seg
alloc n a [] = (0, [])
alloc n a (s ∷ ss) =
    if s.free && leb n s.size
    then (
      a + 48,
      if ltb (n + 48) s.size
          then seg n false ∷ seg (s.size - n - 48) true ∷ ss
          else seg s.size false ∷ ss,
    )
    else (let (p, ss') = alloc n (a + 48 + s.size) ss in (p, s ∷ ss'))

abbrev pub join : Seg → Seg → Seg
join s t = seg (s.size + 48 + t.size) s.free

-- `s` in front of `ss`, joined with the first if both are free.
abbrev pub push : Seg → List Seg → List Seg
push s [] = s ∷ []
push s (t ∷ ts) = if s.free && t.free then join s t ∷ ts else s ∷ t ∷ ts

-- Every run of adjacent free blocks becomes one block.
unfoldable pub coalesce : List Seg → List Seg
coalesce [] = []
coalesce (s ∷ ss) = push s (coalesce ss)

abbrev pub starts_free : List Seg → Bool
starts_free [] = false
starts_free (s ∷ ss) = s.free

-- Sizes are multiples of 16, and no two adjacent blocks are free.
abbrev pub IsTidy : List Seg → Type 0
IsTidy [] = Unit
IsTidy (s ∷ ss) = (s.size % 16 ≡ 0) × ((s.free && starts_free ss) ≡ false) × IsTidy ss

pub coalesce-of_tidy : (ss : List Seg) → IsTidy ss → coalesce ss ≡ ss
unfolding coalesce
coalesce-of_tidy [] t = refl
coalesce-of_tidy (s ∷ []) t = refl
coalesce-of_tidy (s ∷ u ∷ ss) t = rw (coalesce-of_tidy (u ∷ ss) t.2) (ground arith)

pub span-append : (ss ts : List Seg) → span (ss ++ ts) ≡ span ss + span ts
span-append [] ts = omega arith
span-append (s ∷ ss) ts = omega (arith, span-append ss ts)

pub span-alloc : (n a : ℕ) (ss : List Seg) → span (alloc n a ss).1 ≡ span ss
unfolding alloc
span-alloc n a [] = refl
span-alloc n a (s ∷ ss) = ground (arith, span-alloc n (a + 48 + s.size) ss)

-- First fit never leaves a free block in front where there was none.
starts_free-alloc :
    (n a : ℕ) (ss : List Seg) → starts_free ss ≡ false → starts_free (alloc n a ss).1 ≡ false
unfolding alloc
starts_free-alloc n a [] h = refl
starts_free-alloc n a (s ∷ ss) h = ground arith

pub alloc-IsTidy : (n a : ℕ) (ss : List Seg) → n % 16 ≡ 0 → IsTidy ss → IsTidy (alloc n a ss).1
unfolding alloc
alloc-IsTidy n a [] e t = tt
alloc-IsTidy n a (s ∷ ss) e t =
    ground (arith, alloc-IsTidy n (a + 48 + s.size) ss e, starts_free-alloc n (a + 48 + s.size) ss)

-- What `kfree` makes of the block `t` behind the blocks `pre`.
abbrev pub release : List Seg → Seg → List Seg → List Seg
release [] t post = push (seg t.size true) post
release (s ∷ []) t post = push s (push (seg t.size true) post)
release (s ∷ s' ∷ pre) t post = s ∷ release (s' ∷ pre) t post

starts_free-push : (s : Seg) (ss : List Seg) → starts_free (push s ss) ≡ s.free
starts_free-push s [] = refl
starts_free-push s (t ∷ ss) = ground arith

starts_free-release :
    (s : Seg) (pre : List Seg) (t : Seg) (post : List Seg)
    → starts_free (release (s ∷ pre) t post) ≡ s.free
starts_free-release s [] t post = starts_free-push s (push (seg t.size true) post)
starts_free-release s (s' ∷ pre) t post = refl

push-eq-cons : (s : Seg) (ss : List Seg) → (s.free && starts_free ss) ≡ false → push s ss ≡ s ∷ ss
push-eq-cons s [] h = refl
push-eq-cons s (t ∷ ss) h = rw h

-- In a tidy heap the two joins around the block do what joining everything would do.
pub release-coalesce :
    (pre : List Seg) (t : Seg) (post : List Seg)
    → t.free ≡ false
    → IsTidy (pre ++ t ∷ post)
    → release pre t post ≡ coalesce (pre ++ seg t.size true ∷ post)
unfolding coalesce
release-coalesce [] t post used tidy = rw (coalesce-of_tidy post tidy.2)
release-coalesce (s ∷ []) t post used tidy = rw (coalesce-of_tidy post tidy.2.2)
release-coalesce (s ∷ s' ∷ pre) t post used tidy =
    rw (← release-coalesce (s' ∷ pre) t post used tidy.2) (
      sym (
        push-eq-cons s (release (s' ∷ pre) t post) (rw (starts_free-release s' pre t post) tidy.1)))

abbrev pub IsAligned : List Seg → Type 0
IsAligned [] = Unit
IsAligned (s ∷ ss) = (s.size % 16 ≡ 0) × IsAligned ss

pub IsTidy-IsAligned : (ss : List Seg) → IsTidy ss → IsAligned ss
IsTidy-IsAligned [] t = tt
IsTidy-IsAligned (s ∷ ss) t = (t.0, IsTidy-IsAligned ss t.2)

IsAligned-replace :
    (pre : List Seg) (t : Seg) (post : List Seg)
    → IsAligned (pre ++ t ∷ post)
    → IsAligned (pre ++ seg t.size true ∷ post)
IsAligned-replace [] t post a = a
IsAligned-replace (s ∷ pre) t post a = (a.0, IsAligned-replace pre t post a.1)

push-IsTidy : (s : Seg) (ss : List Seg) → s.size % 16 ≡ 0 → IsTidy ss → IsTidy (push s ss)
push-IsTidy s [] e t = ground arith
push-IsTidy s (u ∷ ss) e t = ground arith

coalesce-IsTidy : (ss : List Seg) → IsAligned ss → IsTidy (coalesce ss)
unfolding coalesce
coalesce-IsTidy [] a = tt
coalesce-IsTidy (s ∷ ss) a = push-IsTidy s (coalesce ss) a.0 (coalesce-IsTidy ss a.1)

span-push : (s : Seg) (ss : List Seg) → span (push s ss) ≡ 48 + s.size + span ss
span-push s [] = refl
span-push s (t ∷ ss) = ground arith

pub span-coalesce : (ss : List Seg) → span (coalesce ss) ≡ span ss
unfolding coalesce
span-coalesce [] = refl
span-coalesce (s ∷ ss) = omega (arith, span-push s (coalesce ss), span-coalesce ss)

pub free-IsTidy :
    (pre : List Seg) (t : Seg) (post : List Seg)
    → IsTidy (pre ++ t ∷ post)
    → IsTidy (coalesce (pre ++ seg t.size true ∷ post))
free-IsTidy pre t post tidy =
    coalesce-IsTidy (pre ++ seg t.size true ∷ post)
      (IsAligned-replace pre t post (IsTidy-IsAligned (pre ++ t ∷ post) tidy))
