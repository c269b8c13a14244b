-- ===== src/Heap/Free.antt =====
-- `rust_kfree` against the layout: the block is marked and joined with its free neighbours.
use shade_os.Base.{
  ℕ, ◌+◌, ◌^◌, ◌<◌, ◌≡◌, refl, sym, ap, subst, ◌∙◌, Bool, true, false, ◌&&◌, List, [], ◌∷◌, ◌++◌,
  arith, ◌==◌, if◌then◌else◌, Bool-cases, inl, inr, ne→not_==, ==_refl,
}
use shade_os.Heap.{
  Block, Memory, Heap, heap_size, header_size, block_magic, write, absorb, absorb_next, absorb_prev,
  kfree, sub64,
}
use shade_os.Heap.Layout.{
  Seg, seg, span, join, push, coalesce, release, release-coalesce, free-IsTidy, span-append,
}
use shade_os.Heap.Valid.{IsBase, IsHeap}
use shade_os.Heap.Chain.{
  Chain, hdr, link, span_lem, frame, write_self, write-below, write-above, absorb-Chain,
  absorb-below, sub64-eq,
}

-- The memory `g` holds the blocks `ss`, and differs from `m` at no address below `a`.
abbrev Holds : Memory → ℕ → ℕ → ℕ → Memory → List Seg → Type 0
Holds m stop prev a g ss = Chain g stop prev a ss × ((x : ℕ) → x < a → g x ≡ m x)

cast :
    (m : Memory) (stop prev a : ℕ) (g g' : Memory) (ss ss' : List Seg)
    → g' ≡ g
    → ss' ≡ ss
    → Holds m stop prev a g ss
    → Holds m stop prev a g' ss'
cast m stop prev a g g' ss ss' e f h = rw (e, f) h

push-join :
    (s t : Seg) (ss : List Seg) → s.free ≡ true → t.free ≡ true → push s (t ∷ ss) ≡ join s t ∷ ss
push-join s t ss f g = ground arith

push-apart : (s t : Seg) (ss : List Seg) → (s.free && t.free) ≡ false → push s (t ∷ ss) ≡ s ∷ t ∷ ss
push-apart s t ss f = ground arith

-- The test of a coalescing step reads the two neighbours' headers.
module _ (m : Memory) (stop prev a : ℕ) (s t : Seg) (ss : List Seg) (lim : stop < 2 ^ 64)
    (pos : 0 < a) (c : Chain m stop prev a (s ∷ t ∷ ss)) where
  absorb_next_lem : absorb_next m a ≡ (if t.free then absorb m a (a + 48 + s.size) else m)
  unfolding absorb_next
  absorb_next_lem = rw (c.0, c.1.0, ne→not_== (a + 48 + s.size) 0 (omega arith))

  absorb_prev_lem :
      absorb_prev m (a + 48 + s.size) ≡ (if s.free then absorb m a (a + 48 + s.size) else m)
  unfolding absorb_prev
  absorb_prev_lem = rw (c.1.0, c.0, ne→not_== a 0 (omega arith))

  joined : Holds m stop prev a (absorb m a (a + 48 + s.size)) (join s t ∷ ss)
  joined = (absorb-Chain m stop prev a s t ss lim c, absorb-below m stop prev a s t ss lim c)

  absorb_next-Holds : s.free ≡ true → Holds m stop prev a (absorb_next m a) (push s (t ∷ ss))
  absorb_next-Holds f = elim (Bool-cases t.free) [
    | inl g ↦
        cast m stop prev a _ _ _ _
          (absorb_next_lem ∙ ap (λ (b : Bool). if b then absorb m a (a + 48 + s.size) else m) g)
          (push-join s t ss f g) joined
    | inr g ↦
        cast m stop prev a _ _ _ _
          (absorb_next_lem ∙ ap (λ (b : Bool). if b then absorb m a (a + 48 + s.size) else m) g)
          (push-apart s t ss (ground arith)) (c, λ x h. refl)
  ]

  absorb_prev-Holds :
      t.free ≡ true → Holds m stop prev a (absorb_prev m (a + 48 + s.size)) (push s (t ∷ ss))
  absorb_prev-Holds f = elim (Bool-cases s.free) [
    | inl g ↦
        cast m stop prev a _ _ _ _
          (absorb_prev_lem ∙ ap (λ (b : Bool). if b then absorb m a (a + 48 + s.size) else m) g)
          (push-join s t ss g f) joined
    | inr g ↦
        cast m stop prev a _ _ _ _
          (absorb_prev_lem ∙ ap (λ (b : Bool). if b then absorb m a (a + 48 + s.size) else m) g)
          (push-apart s t ss (ground arith)) (c, λ x h. refl)
  ]

-- The whole of `kfree` on the memory, once it accepts the block at `a`.
abbrev freed : Memory → ℕ → Memory
freed m a = absorb_prev (absorb_next (write m a (record (m a) { is_free = true })) a) a

-- Marking the block at `a` free and joining it with its successor.
abbrev marked : Memory → ℕ → Memory
marked m a = write m a (record (m a) { is_free = true })

mark-Holds :
    (m : Memory) (stop prev a : ℕ) (t : Seg) (ss : List Seg)
    → Chain m stop prev a (t ∷ ss)
    → Holds m stop prev a (marked m a) (seg t.size true ∷ ss)
mark-Holds m stop prev a t ss c = (
  (
    write_self m a _ ∙ ap (λ (b : Block). record b { is_free = true }) c.0,
    frame m _ stop a (a + 48 + t.size) ss (λ x le. write-above m a x _ (omega arith)) c.1,
  ),
  λ x h. write-below m a x _ h,
)

absorb_next-last :
    (m : Memory) (stop prev a : ℕ) (s : Seg) → Chain m stop prev a (s ∷ []) → absorb_next m a ≡ m
unfolding absorb_next
absorb_next-last m stop prev a s c = rw c.0

mark_next-Holds :
    (m : Memory) (stop prev a : ℕ) (t : Seg) (ss : List Seg)
    → stop < 2 ^ 64
    → 0 < a
    → Chain m stop prev a (t ∷ ss)
    → Holds m stop prev a (absorb_next (marked m a) a) (push (seg t.size true) ss)
mark_next-Holds m stop prev a t [] lim pos c =
    let h = mark-Holds m stop prev a t [] c in
    cast m stop prev a (marked m a) _ (seg t.size true ∷ []) (seg t.size true ∷ [])
      (absorb_next-last (marked m a) stop prev a _ h.0) refl h
mark_next-Holds m stop prev a t (u ∷ ss) lim pos c =
    let h = mark-Holds m stop prev a t (u ∷ ss) c in
    let r = absorb_next-Holds (marked m a) stop prev a (seg t.size true) u ss lim pos h.0 refl in
    (r.0, λ x le. r.1 x le ∙ h.1 x le)

-- The first block of what `push` builds on a free block is free.
push-cons :
    (n : ℕ) (ss : List Seg)
    → (r : Seg) × (rest : List Seg) × (push (seg n true) ss ≡ r ∷ rest) × (r.free ≡ true)
push-cons n [] = (seg n true, [], refl, refl)
push-cons n (u ∷ ss) = elim (Bool-cases u.free) [
  | inl g ↦ (join (seg n true) u, ss, push-join (seg n true) u ss refl g, refl)
  | inr g ↦ (seg n true, u ∷ ss, push-apart (seg n true) u ss g, refl)
]

-- With no predecessor the second join does nothing.
absorb_prev-first :
    (m : Memory) (stop a : ℕ) (r : Seg) (ss : List Seg)
    → Chain m stop 0 a (r ∷ ss)
    → absorb_prev m a ≡ m
unfolding absorb_prev
absorb_prev-first m stop a r ss c = rw c.0

freed-first :
    (m : Memory) (stop a : ℕ) (t : Seg) (post : List Seg)
    → stop < 2 ^ 64
    → 0 < a
    → Chain m stop 0 a (t ∷ post)
    → Holds m stop 0 a (freed m a) (push (seg t.size true) post)
freed-first m stop a t post lim pos c =
    let h = mark_next-Holds m stop 0 a t post lim pos c in
    let (r, rest, e, f) = push-cons t.size post in
    cast m stop 0 a _ _ (push (seg t.size true) post) (push (seg t.size true) post)
      (absorb_prev-first _ stop a r rest
        (subst (λ (l : List Seg). Chain (absorb_next (marked m a) a) stop 0 a l) e h.0))
      refl h

freed-second :
    (m : Memory) (stop prev a : ℕ) (s t : Seg) (post : List Seg)
    → stop < 2 ^ 64
    → 0 < a
    → Chain m stop prev a (s ∷ t ∷ post)
    → Holds m stop prev a (freed m (a + 48 + s.size)) (push s (push (seg t.size true) post))
freed-second m stop prev a s t post lim pos c =
    let b : ℕ = a + 48 + s.size in
    let g : Memory = absorb_next (marked m b) b in
    let h = mark_next-Holds m stop a b t post lim (omega arith) c.1 in
    let (r, rest, e, f) = push-cons t.size post in
    let tail : Chain g stop a b (r ∷ rest) = subst (λ (l : List Seg). Chain g stop a b l) e h.0 in
    let d = absorb_prev-Holds g stop prev a s r rest lim pos (h.1 a (omega arith) ∙ c.0, tail) f in
    cast m stop prev a (freed m b) (freed m b) (push s (r ∷ rest))
      (push s (push (seg t.size true) post)) refl (ap (push s) e)
      (d.0, λ x le. d.1 x le ∙ h.1 x (omega arith))

link-push : (a : ℕ) (s : Seg) (ss : List Seg) → link a (push s ss) ≡ a
link-push a s [] = refl
link-push a s (u ∷ ss) = ground arith

link-release :
    (a : ℕ) (s : Seg) (pre : List Seg) (t : Seg) (post : List Seg)
    → link a (release (s ∷ pre) t post) ≡ a
link-release a s [] t post = link-push a s (push (seg t.size true) post)
link-release a s (s' ∷ pre) t post = refl

freed-later :
    (pre : List Seg) (m : Memory) (stop prev a : ℕ) (s t : Seg) (post : List Seg)
    → stop < 2 ^ 64
    → 0 < a
    → Chain m stop prev a (s ∷ pre ++ t ∷ post)
    → Holds m stop prev a (freed m (a + span (s ∷ pre))) (release (s ∷ pre) t post)
freed-later [] m stop prev a s t post lim pos c =
    let e : a + (48 + s.size + 0) ≡ a + 48 + s.size = omega arith in
    subst (λ (k : ℕ). Holds m stop prev a (freed m k) (release (s ∷ []) t post)) (sym e)
      (freed-second m stop prev a s t post lim pos c)
freed-later (s' ∷ pre) m stop prev a s t post lim pos c =
    let b : ℕ = a + 48 + s.size in
    let e : a + (48 + s.size + span (s' ∷ pre)) ≡ b + span (s' ∷ pre) = omega arith in
    let h = freed-later pre m stop a b s' t post lim (omega arith) c.1 in
    let l : b ≡ link b (release (s' ∷ pre) t post) = sym (link-release b s' pre t post) in
    subst (λ (k : ℕ). Holds m stop prev a (freed m k) (release (s ∷ s' ∷ pre) t post)) (sym e)
      (
        (h.1 a (omega arith) ∙ c.0 ∙ ap (λ (k : ℕ). hdr s k prev) l, h.0),
        λ x le. h.1 x (omega arith),
      )

freed-Chain :
    (pre : List Seg) (m : Memory) (stop a : ℕ) (t : Seg) (post : List Seg)
    → stop < 2 ^ 64
    → 0 < a
    → Chain m stop 0 a (pre ++ t ∷ post)
    → Chain (freed m (a + span pre)) stop 0 a (release pre t post)
freed-Chain [] m stop a t post lim pos c =
    let e : a + 0 ≡ a = omega arith in
    subst (λ (k : ℕ). Chain (freed m k) stop 0 a (release [] t post)) (sym e)
      (freed-first m stop a t post lim pos c).0
freed-Chain (s ∷ pre) m stop a t post lim pos c = (freed-later pre m stop 0 a s t post lim pos c).0

-- The header of the block behind `pre` is where the sizes say.
header-at :
    (pre : List Seg) (m : Memory) (stop prev a : ℕ) (t : Seg) (post : List Seg)
    → Chain m stop prev a (pre ++ t ∷ post)
    → (k : ℕ) → k ≡ a + span pre
    → ((m k).magic ≡ block_magic) × ((m k).is_free ≡ t.free)
header-at [] m stop prev a t post c k e = let e' : k ≡ a = omega arith in rw (e', c.0) (refl, refl)
header-at (s ∷ pre) m stop prev a t post c k e =
    header-at pre m stop a (a + 48 + s.size) t post c.1 k (omega arith)

module _ (base : ℕ) (h : Heap) (pre : List Seg) (t : Seg) (post : List Seg) (b : IsBase base)
    (v : IsHeap base h (pre ++ t ∷ post)) where
  -- What was handed out for the block behind `pre`.
  abbrev pointer : ℕ
  pointer = base + span pre + 48

  found : sub64 pointer header_size ≡ base + span pre
  found =
      sub64-eq pointer 48
        (omega (
          arith,
          b.fits,
          span_lem h.mem (base + heap_size) 0 base _ v.chain,
          span-append pre (t ∷ post),
        ))
        (omega arith)
      ∙ omega arith

  header :
      ((h.mem (base + span pre)).magic ≡ block_magic) × ((h.mem (base + span pre)).is_free ≡ t.free)
  header = header-at pre h.mem (base + heap_size) 0 base t post v.chain _ refl

  magic_ok : ((h.mem (base + span pre)).magic == block_magic) ≡ true
  magic_ok = rw header.0 (==_refl block_magic)

  -- Freeing a block in use by its pointer marks it and joins it with its free neighbours: the heap
  -- stays well formed, and holds what joining all adjacent free blocks gives.
  pub kfree_refines :
      t.free ≡ false → IsHeap base (kfree pointer h) (coalesce (pre ++ seg t.size true ∷ post))
  unfolding kfree
  kfree_refines used =
      rw (found, magic_ok, header.1, used, ne→not_== pointer 0 (omega arith))
        (record {
          head_at = v.head_at;
          chain =
              rw (← release-coalesce pre t post used v.tidy)
                (freed-Chain pre h.mem (base + heap_size) base t post b.fits b.pos v.chain);
          tidy = free-IsTidy pre t post v.tidy;
        })

  -- Freeing a free block is refused: nothing changes.
  pub kfree-double : t.free ≡ true → kfree pointer h ≡ h
  unfolding kfree
  kfree-double free = rw (found, magic_ok, header.1, free, ne→not_== pointer 0 (omega arith))
