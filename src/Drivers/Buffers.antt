-- ===== src/Drivers/Buffers.antt =====
-- The buffers that the drivers allocate: blocks of the heap in use that share no byte.
use shade_os.Base.{
  ℕ, zero, suc, ◌+◌, ◌^◌, ◌≤◌, ◌<◌, ◌≡◌, ◌≢◌, ◌⊎◌, inl, inr, refl, sym, ap, ◌∙◌, subst, false, true,
  List, [], ◌∷◌, Option, none, some, some-inj, arith, Option-cases, length,
}
use shade_os.Heap.{Heap, kmalloc}
use shade_os.Heap.Layout.{Seg}
use shade_os.Heap.Valid.{IsBase, IsHeap}
use shade_os.Heap.Reach.{InUse, kmalloc_sound, malloc-IsHeap}
use shade_os.Heap.Live.{InUse-kmalloc, kmalloc-apart}
use shade_os.Drivers.{Allocated, one_more, alloc_buffers}

-- The `n` bytes at `p` are apart from the blocks of `size` bytes at the pointers.
abbrev pub IsApart : ℕ → ℕ → ℕ → List ℕ → Type 0
IsApart p n size [] = Unit
IsApart p n size (q ∷ qs) = ((q + size ≤ p) ⊎ (p + n ≤ q)) × IsApart p n size qs

-- Blocks of `size` bytes in use that are apart from each other.
abbrev pub IsHeld : ℕ → Heap → ℕ → List ℕ → Type 0
IsHeld base h size [] = Unit
IsHeld base h size (p ∷ ps) = InUse base h p size × IsApart p size size ps × IsHeld base h size ps

-- What a loop of allocations did: all it got is in use, and blocks that were in use still are.
pub record Held (base : ℕ) (h : Heap) (size : ℕ) (b : Allocated) : Type 0 where
  pub layout : List Seg
  pub valid : IsHeap base b.heap layout
  pub held : IsHeld base b.heap size b.pointers
  pub live : (p n : ℕ) → InUse base h p n → InUse base b.heap p n × IsApart p n size b.pointers

module _ (base : ℕ) (at : IsBase base) (size : ℕ) (more : 0 < size)
    (small : size + 15 < 2 ^ 64) where
  null-Held :
      (h h' : Heap) (ss : List Seg)
      → IsHeap base h ss
      → kmalloc size h ≡ some (0, h')
      → Held base h size (record { pointers = []; complete = false; heap = h' })
  null-Held h h' ss v run =
      let (ss', w) = malloc-IsHeap base h h' ss size 0 at v run in
      record {
        layout = ss';
        valid = w;
        held = tt;
        live = λ p n u. (InUse-kmalloc base h at p n u size more h' 0 run, tt);
      }

  one_more-Held :
      (h h' : Heap) (ss : List Seg) (p : ℕ) (b : Allocated)
      → IsHeap base h ss
      → kmalloc size h ≡ some (suc p, h')
      → Held base h' size b
      → Held base h size (record b { pointers = suc p ∷ b.pointers })
  one_more-Held h h' ss p b v run rest =
      let ne : suc p ≢ 0 = λ z. absurd (omega (arith, z)) in
      let (u, _, _) = kmalloc_sound base h ss at v size more h' (suc p) run small ne in
      let (u', apart) = rest.live (suc p) size u in
      record {
        layout = rest.layout;
        valid = rest.valid;
        held = (u', apart, rest.held);
        live = λ q n w.
            (let w' = InUse-kmalloc base h at q n w size more h' (suc p) run in
              let (w'', apart') = rest.live q n w' in
              (w'', (kmalloc-apart base h at q n w size more h' (suc p) run small ne, apart')));
      }

  one_more-some :
      (p : ℕ) (o : Option Allocated) (b : Allocated)
      → one_more p o ≡ some b
      → (c : Allocated) × (o ≡ some c) × (record c { pointers = p ∷ c.pointers } ≡ b)
  one_more-some p none b e = absurd (cc e)
  one_more-some p (some c) b e = (c, refl, some-inj e)

  -- On a well-formed heap the pointers that a loop of allocations returns are those of blocks in
  -- use, with room for the size, that share no byte; blocks in use before are still in use, and
  -- share no byte with them.
  pub alloc_buffers-Held :
      (n : ℕ) (h : Heap) (ss : List Seg) (b : Allocated)
      → IsHeap base h ss
      → alloc_buffers n size h ≡ some b
      → Held base h size b
  unfolding alloc_buffers
  alloc_buffers-Held zero h ss b v run =
      subst (Held base h size) (some-inj run)
        (record { layout = ss; valid = v; held = tt; live = λ p n u. (u, tt) })
  alloc_buffers-Held (suc n) h ss b v run = elim (Option-cases (kmalloc size h)) [
    | inl e ↦ absurd (cc (rw (e, alloc_buffers) at run))
    | inr ((zero, h'), e) ↦
        subst (Held base h size) (some-inj (rw (e, alloc_buffers) at run)) (null-Held h h' ss v e)
    | inr ((suc p, h'), e) ↦
        let (c, rest, same) =
          one_more-some (suc p) (alloc_buffers n size h') b (rw (e, alloc_buffers) at run) in
        let (ss', w) = malloc-IsHeap base h h' ss size (suc p) at v e in
        subst (Held base h size) same
          (one_more-Held h h' ss p c v e (alloc_buffers-Held n h' ss' c w rest))
  ]

one_more-length :
    (n p : ℕ) (o : Option Allocated) (b : Allocated)
    → ((c : Allocated) → o ≡ some c → c.complete ≡ true → length c.pointers ≡ n)
    → one_more p o ≡ some b
    → b.complete ≡ true
    → length b.pointers ≡ suc n
one_more-length n p none b ih run whole = absurd (cc run)
one_more-length n p (some c) b ih run whole =
    let same : record c { pointers = p ∷ c.pointers } ≡ b = some-inj run in
    let all : length c.pointers ≡ n = ih c refl (ap (λ (a : Allocated). a.complete) same ∙ whole) in
    let size : suc (length c.pointers) ≡ length b.pointers =
      ap (λ (a : Allocated). length a.pointers) same in
    omega (arith, all, size)

-- A loop of allocations that goes to its end returns as many pointers as it makes rounds.
pub length-alloc_buffers :
    (n size : ℕ) (h : Heap) (b : Allocated)
    → alloc_buffers n size h ≡ some b
    → b.complete ≡ true
    → length b.pointers ≡ n
unfolding alloc_buffers
length-alloc_buffers zero size h b run whole =
    ap (λ (a : Allocated). length a.pointers) (sym (some-inj run))
length-alloc_buffers (suc n) size h b run whole = elim (Option-cases (kmalloc size h)) [
  | inl e ↦ absurd (cc (rw (e, alloc_buffers) at run))
  | inr ((zero, h'), e) ↦
      let stopped : record { pointers = []; complete = false; heap = h' } ≡ b =
        some-inj (rw (e, alloc_buffers) at run) in
      let bad : false ≡ true = ap (λ (a : Allocated). a.complete) stopped ∙ whole in absurd (cc bad)
  | inr ((suc p, h'), e) ↦
      one_more-length n (suc p) (alloc_buffers n size h') b
        (λ c got all. length-alloc_buffers n size h' c got all) (rw (e, alloc_buffers) at run) whole
]
