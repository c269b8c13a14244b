-- ===== src/Heap/Alloc.antt =====
-- `rust_kmalloc` against first fit on the layout.
use shade_os.Base.{
  ℕ, zero, suc, ◌+◌, ◌-◌, ◌*◌, ◌%◌, ◌^◌, ◌≤◌, ◌<◌, ◌≡◌, ◌≢◌, refl, sym, ap, subst, ◌∙◌, true, false,
  ◌&&◌, List, [], ◌∷◌, arith, ltb, leb, ◌==◌, if◌then◌else◌, Bool-cases, ==→eq, ne→not_==,
  not_==→ne, lt→ltb, ltb→lt, le→not_ltb, not_ltb→le, inl, inr, some, length,
}
use shade_os.Heap.{
  Block, Memory, Heap, heap_size, write, set_prev, align_up, find_fit, take_block, kmalloc,
  max_rounds,
}
use shade_os.Heap.Layout.{Seg, seg, span, alloc, alloc-IsTidy}
use shade_os.Heap.Valid.{IsBase, IsHeap, IsHeap-link}
use shade_os.Heap.Chain.{
  Chain, hdr, link, span_lem, frame, write_self, write-below, write-above, set_prev-below, relink,
  add64-eq, sub64-eq,
}

-- The block that the walk chooses: 0 if none.
first_fit : ℕ → ℕ → List Seg → ℕ
first_fit n a [] = 0
first_fit n a (s ∷ ss) = if s.free && leb n s.size then a else first_fit n (a + 48 + s.size) ss

find_fit-first_fit :
    (fuel : ℕ) (m : Memory) (stop prev n a : ℕ) (ss : List Seg)
    → 0 < a
    → length ss < fuel
    → Chain m stop prev a ss
    → find_fit fuel m n (link a ss) ≡ some (first_fit n a ss)
unfolding find_fit first_fit
find_fit-first_fit zero m stop prev n a ss h f c = absurd (omega arith)
find_fit-first_fit (suc fuel) m stop prev n a [] h f c = refl
find_fit-first_fit (suc fuel) m stop prev n a (s ∷ ss) h f c = rw c.0 (
    ground (
      arith,
      find_fit-first_fit fuel m stop a n (a + 48 + s.size) ss (omega arith) (omega arith) c.1,
    ))

first_fit-ge : (n a : ℕ) (ss : List Seg) → first_fit n a ss ≢ 0 → a ≤ first_fit n a ss
unfolding first_fit
first_fit-ge n a [] h = absurd (h refl)
first_fit-ge n a (s ∷ ss) h = ground (arith, first_fit-ge n (a + 48 + s.size) ss)

first_fit-le :
    (n a : ℕ) (ss : List Seg) → first_fit n a ss ≢ 0 → first_fit n a ss + 48 ≤ a + span ss
unfolding first_fit
first_fit-le n a [] h = absurd (h refl)
first_fit-le n a (s ∷ ss) h = ground (arith, first_fit-le n (a + 48 + s.size) ss)

alloc-first_fit :
    (n a : ℕ) (ss : List Seg)
    → 0 < a
    → (alloc n a ss).0 ≡ (if first_fit n a ss == 0 then 0 else first_fit n a ss + 48)
unfolding alloc first_fit
alloc-first_fit n a [] h = refl
alloc-first_fit n a (s ∷ ss) h =
    ground (arith, alloc-first_fit n (a + 48 + s.size) ss (omega arith))

alloc-none : (n a : ℕ) (ss : List Seg) → first_fit n a ss ≡ 0 → 0 < a → (alloc n a ss).1 ≡ ss
unfolding alloc first_fit
alloc-none n a [] e h = refl
alloc-none n a (s ∷ ss) e h = ground (arith, alloc-none n (a + 48 + s.size) ss)

link-alloc : (n a : ℕ) (ss : List Seg) → link a (alloc n a ss).1 ≡ link a ss
unfolding alloc
link-alloc n a [] = refl
link-alloc n a (s ∷ ss) = ground arith

-- The chosen block is split if the rest holds more than a header.
module _ (m : Memory) (stop prev n a : ℕ) (s : Seg) (ss : List Seg) (lim : stop < 2 ^ 64)
    (fits : n ≤ s.size) (c : Chain m stop prev a (s ∷ ss)) where
  abbrev at : ℕ
  at = a + 48 + n

  abbrev after : ℕ
  after = a + 48 + s.size

  abbrev rest : Block
  rest = hdr (seg (s.size - n - 48) true) (link after ss) a

  end : a + span (s ∷ ss) ≡ stop
  end = span_lem m stop prev a (s ∷ ss) c

  -- The memory after the new header, before the chosen one is written.
  abbrev linked : Memory
  linked = set_prev (write m at rest) (link after ss) at

  split_lem : n + 48 < s.size → take_block m n a ≡ write linked a (hdr (seg n false) at prev)
  unfolding take_block
  split_lem big = rw (
    c.0,
    add64-eq n 48 (omega (arith, end)),
    lt→ltb (n + 48) s.size big,
    add64-eq a 48 (omega (arith, end)),
    add64-eq (a + 48) n (omega (arith, end)),
    sub64-eq s.size n (omega (arith, end)) fits,
    sub64-eq (s.size - n) 48 (omega (arith, end)) (omega arith),
  )

  whole_lem :
      s.size ≤ n + 48 → take_block m n a ≡ write m a (hdr (seg s.size false) (link after ss) prev)
  unfolding take_block
  whole_lem big = rw (c.0, add64-eq n 48 (omega (arith, end)), le→not_ltb (n + 48) s.size big)

  split-Chain :
      n + 48 < s.size
      → Chain (take_block m n a) stop prev a (seg n false ∷ seg (s.size - n - 48) true ∷ ss)
  split-Chain big =
      let same : at + 48 + (s.size - n - 48) ≡ after = omega arith in
      subst (λ (g : Memory). Chain g stop prev a (seg n false ∷ seg (s.size - n - 48) true ∷ ss))
        (sym (split_lem big))
        (
          write_self linked a (hdr (seg n false) at prev),
          rw same (
            write-above linked a at _ (omega arith)
                ∙ set_prev-below (write m at rest) at after at ss (omega arith)
                ∙ write_self m at rest,
            frame linked _ stop at after ss (λ x le. write-above linked a x _ (omega arith))
                (relink m stop a at after at rest ss (omega arith) c.1),
          ),
        )

  whole-Chain : s.size ≤ n + 48 → Chain (take_block m n a) stop prev a (seg s.size false ∷ ss)
  whole-Chain big =
      subst (λ (g : Memory). Chain g stop prev a (seg s.size false ∷ ss)) (sym (whole_lem big))
        (
          write_self m a _,
          frame m _ stop a after ss (λ x le. write-above m a x _ (omega arith)) c.1,
        )

  taken-below : (x : ℕ) → x < a → take_block m n a x ≡ m x
  taken-below x h = elim (Bool-cases (ltb (n + 48) s.size)) [
    | inl big ↦ rw (split_lem (ltb→lt _ _ big)) (
        write-below linked a x _ h
        ∙ set_prev-below (write m at rest) at after x ss (omega arith)
        ∙ write-below m at x rest (omega arith))
    | inr small ↦ rw (whole_lem (not_ltb→le _ _ small)) (write-below m a x _ h)
  ]

-- Taking the chosen block turns the chain of the layout into that of first fit.
take_block-Chain :
    (m : Memory) (stop prev n a : ℕ) (ss : List Seg)
    → 0 < a
    → stop < 2 ^ 64
    → Chain m stop prev a ss
    → first_fit n a ss ≢ 0
    → Chain (take_block m n (first_fit n a ss)) stop prev a (alloc n a ss).1
      × ((x : ℕ) → x < a → take_block m n (first_fit n a ss) x ≡ m x)
unfolding first_fit alloc
take_block-Chain m stop prev n a [] pos lim c h = absurd (h refl)
take_block-Chain m stop prev n a (s ∷ ss) pos lim c h = elim (Bool-cases (s.free && leb n s.size)) [
  | inl hit ↦
      let fits : n ≤ s.size = ground arith in
      rw hit (
        elim (Bool-cases (ltb (n + 48) s.size)) [
          | inl big ↦ rw big (split-Chain m stop prev n a s ss lim fits c (ltb→lt _ _ big))
          | inr small ↦
              rw small (whole-Chain m stop prev n a s ss lim fits c (not_ltb→le _ _ small))
        ],
        taken-below m stop prev n a s ss lim fits c,
      )
  | inr miss ↦
      let h' : first_fit n (a + 48 + s.size) ss ≢ 0 = rw miss at h in
      let (ih, below) = take_block-Chain m stop a n (a + 48 + s.size) ss (omega arith) lim c.1 h' in
      rw miss (
        (rw (link-alloc n (a + 48 + s.size) ss) (below a (omega arith) ∙ c.0), ih),
        λ x le. below x (omega arith),
      )
]

length-le-span : (ss : List Seg) → 48 * length ss ≤ span ss
length-le-span [] = omega arith
length-le-span (s ∷ ss) = omega (arith, length-le-span ss)

pub align_up-mod : (size : ℕ) → align_up size % 16 ≡ 0
unfolding align_up
align_up-mod size = omega arith

module _ (base : ℕ) (h : Heap) (ss : List Seg) (at : IsBase base) (v : IsHeap base h ss) where
  abbrev stop : ℕ
  stop = base + heap_size

  -- The head pointer is the link to the first block: a heap has a block.
  head-link : h.head ≡ link base ss
  head-link = IsHeap-link base h ss v

  chosen : (n : ℕ) → find_fit max_rounds h.mem n h.head ≡ some (first_fit n base ss)
  chosen n = rw head-link (
      find_fit-first_fit max_rounds h.mem stop 0 n base ss (omega arith)
        (omega (arith, length-le-span ss, span_lem h.mem stop 0 base ss v.chain)) v.chain)

  -- On a well-formed heap the walk of `kmalloc` ends, and a request of at least one byte returns
  -- the pointer and leaves the blocks that first fit gives for the aligned size, linked again.
  pub kmalloc_refines :
      (size : ℕ)
      → 0 < size
      → (h' : Heap) × (kmalloc size h ≡ some ((alloc (align_up size) base ss).0, h'))
        × IsHeap base h' (alloc (align_up size) base ss).1
  unfolding kmalloc
  kmalloc_refines size pos = elim (Bool-cases (first_fit (align_up size) base ss == 0)) [
    | inl e ↦ (
      h,
      rw (
        chosen (align_up size),
        ne→not_== size 0 (omega arith),
        e,
        alloc-first_fit (align_up size) base ss (omega arith),
        e,
      ),
      rw (alloc-none (align_up size) base ss (==→eq _ _ e) (omega arith)) v,
    )
    | inr e ↦ (
      record h { mem = take_block h.mem (align_up size) (first_fit (align_up size) base ss) },
      rw
          (
            chosen (align_up size),
            ne→not_== size 0 (omega arith),
            e,
            alloc-first_fit (align_up size) base ss (omega arith),
            e,
          )
          (ap
            (λ (p : ℕ). some (
              p,
              record h {
                mem = take_block h.mem (align_up size) (first_fit (align_up size) base ss);
              },
            ))
            (add64-eq (first_fit (align_up size) base ss) 48 (
              omega (
                arith,
                span_lem h.mem stop 0 base ss v.chain,
                first_fit-le (align_up size) base ss (not_==→ne _ _ e),
              )))),
      record {
        head_at = v.head_at;
        chain =
            (take_block-Chain h.mem stop 0 (align_up size) base ss at.pos at.fits v.chain
              (not_==→ne _ _ e)).0;
        tidy = alloc-IsTidy (align_up size) base ss (align_up-mod size) v.tidy;
      },
    )
  ]
