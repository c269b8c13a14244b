-- ===== src/Heap/Reach.antt =====
-- The heap as its callers see it: what a pointer from `kmalloc` is worth, and what holds in every
-- state that calls of `kmalloc` and `kfree` reach.
use shade_os.Base.{
  ℕ, zero, suc, ◌+◌, ◌%◌, ◌^◌, ◌≤◌, ◌<◌, ◌≡◌, ◌≢◌, ◌↔◌, refl, sym, ap, subst, ◌∙◌, true, false,
  List, [], ◌∷◌, ◌++◌, arith, some, some-inj, not, ◌||◌, ◌==◌, Bool-cases, inl, inr,
}
use shade_os.Heap.{
  Memory, Heap, heap_size, init_heap, align_up, kmalloc, kfree, add64, sub64, header_size,
  block_magic,
}
use shade_os.Heap.Layout.{Seg, seg, span, alloc, coalesce, IsTidy, span-append}
use shade_os.Heap.Fit.{
  Fits, NoFit, taken, left_over, alloc-Fits, alloc-NoFit, NoFit-alloc, alloc-coalesce,
}
use shade_os.Heap.Valid.{IsBase, IsHeap, init_heap-IsHeap}
use shade_os.Heap.Chain.{span_lem}
use shade_os.Heap.Alloc.{kmalloc_refines}
use shade_os.Heap.Free.{kfree_refines, kfree-double}
use shade_os.Heap.Linked.{Linked, IsHeap-Position}

-- For every size that a caller can mean, rounding up is to the next multiple of 16.
pub align_up_bounds :
    (size : ℕ)
    → size + 15 < 2 ^ 64
    → (size ≤ align_up size) × (align_up size < size + 16) × (align_up size % 16 ≡ 0)
unfolding align_up add64
align_up_bounds size h = omega arith

-- The sixteen bytes at the top of the address space wrap to a request of none.
align_up-wraps : (size : ℕ) → size < 2 ^ 64 → 2 ^ 64 ≤ size + 15 → align_up size ≡ 0
unfolding align_up add64
align_up-wraps size lim h = omega arith

-- `p` is the pointer to a block in use that holds `n` bytes.
pub record InUse (base : ℕ) (h : Heap) (p n : ℕ) : Type 0 where
  pub pre : List Seg
  pub block : Seg
  pub post : List Seg
  pub layout : IsHeap base h (pre ++ block ∷ post)
  pub used : block.free ≡ false
  pub at : p ≡ base + span pre + 48
  pub room : n ≤ block.size

taken-used : (n : ℕ) (s : Seg) → n ≤ s.size → ((taken n s).free ≡ false) × (n ≤ (taken n s).size)
taken-used n s h = ground arith

span-mod : (pre ss : List Seg) → IsTidy (pre ++ ss) → span pre % 16 ≡ 0
span-mod [] ss t = refl
span-mod (s ∷ pre) ss t = omega (arith, span-mod pre ss t.2, t.0)

module _ (base : ℕ) (h : Heap) (ss : List Seg) (b : IsBase base) (v : IsHeap base h ss) (size : ℕ)
    (pos : 0 < size) (h' : Heap) (p : ℕ) (run : kmalloc size h ≡ some (p, h')) where
  -- The run is the one that first fit describes.
  pub outcome :
      (p ≡ (alloc (align_up size) base ss).0) × IsHeap base h' (alloc (align_up size) base ss).1
  outcome =
      let (g, e, w) = kmalloc_refines base h ss b v size pos in
      let same = some-inj (sym run ∙ e) in
      (
        ap (λ (r : ℕ × Heap). r.0) same,
        subst (λ (r : ℕ × Heap). IsHeap base r.1 (alloc (align_up size) base ss).1) (sym same) w,
      )

  split : p ≢ 0 → Fits (align_up size) base ss
  split ne = alloc-Fits (align_up size) base ss b.pos (λ e. ne (outcome.0 ∙ e))

  -- A non-null pointer from `kmalloc`, for a size that does not wrap, is aligned, and is that of
  -- a block in use with room for the size, which ends inside the heap.
  pub kmalloc_sound :
      size + 15 < 2 ^ 64
      → p ≢ 0
      → InUse base h' p size × (p % 16 ≡ 0) × (p + size ≤ base + heap_size)
  kmalloc_sound small ne =
      let f = split ne in
      let n : ℕ = align_up size in
      let w : IsHeap base h' (f.pre ++ taken n f.chosen ∷ left_over n f.chosen f.post) =
        subst (IsHeap base h') f.after outcome.1 in
      let at : p ≡ base + span f.pre + 48 = outcome.0 ∙ f.pointer in
      let (used, room) = taken-used n f.chosen f.room in
      let bounds = align_up_bounds size small in
      (
        record {
          pre = f.pre;
          block = taken n f.chosen;
          post = left_over n f.chosen f.post;
          layout = w;
          used = used;
          at = at;
          room = omega (arith, bounds, room);
        },
        omega (
          arith,
          at,
          b.aligned,
          span-mod f.pre (f.chosen ∷ f.post) (subst IsTidy f.whole v.tidy),
        ),
        omega (
          arith,
          at,
          bounds,
          room,
          span_lem h'.mem (base + heap_size) 0 base _ w.chain,
          span-append f.pre (taken n f.chosen ∷ left_over n f.chosen f.post),
        ),
      )

  -- Freeing what `kmalloc` has just returned gives back the layout from before.
  pub kfree-kmalloc : p ≢ 0 → IsHeap base (kfree p h') ss
  kfree-kmalloc ne =
      let f = split ne in
      let n : ℕ = align_up size in
      let t : Seg = taken n f.chosen in
      let w : IsHeap base h' (f.pre ++ t ∷ left_over n f.chosen f.post) =
        subst (IsHeap base h') f.after outcome.1 in
      subst (λ (l : List Seg). IsHeap base (kfree p h') l)
        (alloc-coalesce n f.pre f.chosen f.post f.free f.room (subst IsTidy f.whole v.tidy)
          ∙ sym f.whole)
        (subst
          (λ (q : ℕ).
            IsHeap base (kfree q h')
              (coalesce (f.pre ++ seg t.size true ∷ left_over n f.chosen f.post)))
          (sym (outcome.0 ∙ f.pointer))
          (kfree_refines base h' f.pre t (left_over n f.chosen f.post) b w
            (taken-used n f.chosen f.room).0))

  -- `kmalloc` returns null exactly when no free block holds the aligned size.
  pub kmalloc_null : (p ≡ 0) ↔ NoFit (align_up size) ss
  kmalloc_null = (
    λ e. alloc-NoFit (align_up size) base ss b.pos (sym outcome.0 ∙ e),
    λ f. outcome.0 ∙ (NoFit-alloc (align_up size) base ss f).0,
  )

-- What `kfree` refuses: the bytes in front of the pointer are not a header, or one of a free block.
abbrev pub IsRefused : ℕ → Heap → Type 0
IsRefused p h =
    (not ((h.mem (sub64 p header_size)).magic == block_magic)
      || (h.mem (sub64 p header_size)).is_free)
    ≡ true

-- One call. A pointer to free is null, or that of a block in the list, in use or free, or one that is
-- refused.
pub data Step : Heap → Heap → Type 0 where
  malloc : {h h' : Heap} (size p : ℕ) → kmalloc size h ≡ some (p, h') → Step h h'
  free : {h : Heap} (b : ℕ) → Linked h.mem h.head b → Step h (kfree (b + header_size) h)
  free_null : {h : Heap} → Step h (kfree 0 h)
  free_refused : {h : Heap} (p : ℕ) → IsRefused p h → Step h (kfree p h)

pub data Reach (start : Heap) : Heap → Type 0 where
  here : Reach start start
  next : {h h' : Heap} → Reach start h → Step h h' → Reach start h'

pub kmalloc-zero : (h : Heap) → kmalloc 0 h ≡ some (0, h)
unfolding kmalloc
kmalloc-zero h = refl

kfree-null : (h : Heap) → kfree 0 h ≡ h
unfolding kfree
kfree-null h = refl

pub malloc-IsHeap :
    (base : ℕ) (h h' : Heap) (ss : List Seg) (size p : ℕ)
    → IsBase base
    → IsHeap base h ss
    → kmalloc size h ≡ some (p, h')
    → (ss' : List Seg) × IsHeap base h' ss'
malloc-IsHeap base h h' ss zero p b v run =
    (ss, rw (ap (λ (r : ℕ × Heap). r.1) (some-inj (sym run ∙ kmalloc-zero h))) v)
malloc-IsHeap base h h' ss (suc size) p b v run =
    (_, (outcome base h ss b v (suc size) (omega arith) h' p run).1)

kfree-refused : (p : ℕ) (h : Heap) → IsRefused p h → kfree p h ≡ h
unfolding kfree
kfree-refused p h r = rw r (elim (Bool-cases (p == 0)) [ inl e ↦ rw e refl | inr e ↦ rw e refl ])

-- Freeing a block of the list, in use or free.
listed-IsHeap :
    (base : ℕ) (h : Heap) (b : ℕ)
    → IsBase base
    → Linked h.mem h.head b
    → (ss : List Seg) × IsHeap base h ss
    → (ss' : List Seg) × IsHeap base (kfree (b + header_size) h) ss'
listed-IsHeap base h b at l (ss, v) =
    let (pre, t, post, whole, place) = IsHeap-Position base h ss b v at l in
    let w = subst (IsHeap base h) whole v in
    elim (Bool-cases t.free) [
      | inl spare ↦ (ss, rw (place, kfree-double base h pre t post at w spare) v)
      | inr used ↦ (
        coalesce (pre ++ seg t.size true ∷ post),
        rw place (kfree_refines base h pre t post at w used),
      )
    ]

Step-IsHeap :
    {base : ℕ} {h h' : Heap}
    → IsBase base
    → Step h h'
    → (ss : List Seg) × IsHeap base h ss
    → (ss' : List Seg) × IsHeap base h' ss'
Step-IsHeap {base} at (malloc {h} {h'} size p run) (ss, v) =
    malloc-IsHeap base h h' ss size p at v run
Step-IsHeap {base} at (free {h} b l) valid = listed-IsHeap base h b at l valid
Step-IsHeap at (free_null {h}) (ss, v) = (ss, rw kfree-null v)
Step-IsHeap at (free_refused {h} p r) (ss, v) = (ss, rw (kfree-refused p h r) v)

-- Every state that calls reach from `init_heap` is well formed, where a pointer to free is null, or
-- that of a block in the list, in use or free, or one that `kfree` refuses since no header is in
-- front of it or that of a free block: the blocks fill the array, the headers are linked both ways,
-- sizes are multiples of 16, and no two free blocks are neighbours.
pub Reach-IsHeap :
    {base : ℕ} (m : Memory) {h : Heap}
    → IsBase base
    → Reach (init_heap base m) h
    → (ss : List Seg) × IsHeap base h ss
Reach-IsHeap {base} m b here = (_, init_heap-IsHeap base m b)
Reach-IsHeap m b (next r s) = Step-IsHeap b s (Reach-IsHeap m b r)

module _ (base : ℕ) (h : Heap) (ss : List Seg) (b : IsBase base) (v : IsHeap base h ss) where
  -- A request of the last fifteen sizes below 2^64 wraps: it is served as one for no bytes, and
  -- returns null only when no block is free.
  pub kmalloc_wraps :
      (size : ℕ) (h' : Heap) (p : ℕ)
      → 2 ^ 64 ≤ size + 15
      → size < 2 ^ 64
      → kmalloc size h ≡ some (p, h')
      → (p ≡ 0) ↔ NoFit 0 ss
  kmalloc_wraps size h' p big lim run =
      subst (λ (n : ℕ). (p ≡ 0) ↔ NoFit n ss) (align_up-wraps size lim big)
        (kmalloc_null base h ss b v size (omega arith) h' p run)
