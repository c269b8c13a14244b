-- ===== src/Heap/Live.antt =====
-- The blocks in use as their holders see them: what a later call of `kmalloc` leaves alone.
use shade_os.Base.{
  ℕ, ◌+◌, ◌-◌, ◌^◌, ◌≤◌, ◌<◌, ◌≡◌, ◌≢◌, ◌⊎◌, inl, inr, refl, sym, ap, subst, true, false, ◌&&◌,
  List, [], ◌∷◌, ◌++◌, arith, ltb, leb, Bool-cases, some,
}
use shade_os.Heap.{Heap, align_up, kmalloc, heap_size, header_size}
use shade_os.Heap.Linked.{Linked, Position-Linked}
use shade_os.Heap.Layout.{Seg, seg, span, alloc}
use shade_os.Heap.Valid.{IsBase, IsHeap}
use shade_os.Heap.Reach.{outcome, InUse, align_up_bounds}

-- First fit in `pre ++ s ∷ post` keeps the block `s` where it is, and hands out bytes before or
-- behind it.
record Keeps (n a : ℕ) (pre : List Seg) (s : Seg) (post : List Seg) : Type 0 where
  pub pre' : List Seg
  pub post' : List Seg
  pub after : (alloc n a (pre ++ s ∷ post)).1 ≡ pre' ++ s ∷ post'
  pub where_it_was : span pre' ≡ span pre
  pub apart :
      ((alloc n a (pre ++ s ∷ post)).0 ≡ 0)
      ⊎ ((alloc n a (pre ++ s ∷ post)).0 + n ≤ a + span pre)
      ⊎ (a + span pre + 48 + s.size ≤ (alloc n a (pre ++ s ∷ post)).0)

-- Whatever first fit hands out lies behind the start.
alloc-above : (n a : ℕ) (ss : List Seg) → ((alloc n a ss).0 ≡ 0) ⊎ (a ≤ (alloc n a ss).0)
unfolding alloc
alloc-above n a [] = inl refl
alloc-above n a (s ∷ ss) = ground (arith, alloc-above n (a + 48 + s.size) ss)

alloc-Keeps :
    (n a : ℕ) (pre : List Seg) (s : Seg) (post : List Seg) → s.free ≡ false → Keeps n a pre s post
unfolding alloc
alloc-Keeps n a [] s post used = record {
  pre' = [];
  post' = (alloc n (a + 48 + s.size) post).1;
  after = rw used refl;
  where_it_was = refl;
  apart = ground (arith, alloc-above n (a + 48 + s.size) post);
}
alloc-Keeps n a (t ∷ pre) s post used = elim (Bool-cases (t.free && leb n t.size)) [
  | inr miss ↦
      let k = alloc-Keeps n (a + 48 + t.size) pre s post used in
      record {
        pre' = t ∷ k.pre';
        post' = k.post';
        after = rw miss (ap (λ (l : List Seg). t ∷ l) k.after);
        where_it_was = omega (arith, k.where_it_was);
        apart = rw miss (ground (arith, k.apart));
      }
  | inl hit ↦ elim (Bool-cases (ltb (n + 48) t.size)) [
    | inl big ↦ record {
      pre' = seg n false ∷ seg (t.size - n - 48) true ∷ pre;
      post' = post;
      after = rw (hit, big) refl;
      where_it_was = ground arith;
      apart = rw hit (ground arith);
    }
    | inr small ↦ record {
      pre' = seg t.size false ∷ pre;
      post' = post;
      after = rw (hit, small) refl;
      where_it_was = refl;
      apart = rw hit (ground arith);
    }
  ]
]

module _ (base : ℕ) (h : Heap) (b : IsBase base) (p n : ℕ) (u : InUse base h p n) (size : ℕ)
    (pos : 0 < size) (h' : Heap) (q : ℕ) (run : kmalloc size h ≡ some (q, h')) where
  kept : Keeps (align_up size) base u.pre u.block u.post
  kept = alloc-Keeps (align_up size) base u.pre u.block u.post u.used

  found :
      (q ≡ (alloc (align_up size) base (u.pre ++ u.block ∷ u.post)).0)
      × IsHeap base h' (alloc (align_up size) base (u.pre ++ u.block ∷ u.post)).1
  found = outcome base h (u.pre ++ u.block ∷ u.post) b u.layout size pos h' q run

  -- A block in use stays in use.
  pub InUse-kmalloc : InUse base h' p n
  InUse-kmalloc = record {
    pre = kept.pre';
    block = u.block;
    post = kept.post';
    layout = subst (IsHeap base h') kept.after found.1;
    used = u.used;
    at = omega (arith, u.at, kept.where_it_was);
    room = u.room;
  }

  -- The bytes handed out are not those of a block in use.
  pub kmalloc-apart : size + 15 < 2 ^ 64 → q ≢ 0 → (q + size ≤ p) ⊎ (p + n ≤ q)
  kmalloc-apart small ne =
      ground (arith, found.0, kept.apart, u.at, u.room, align_up_bounds size small)

-- A block in use is in the list, so that its pointer may be freed.
pub InUse-Linked :
    (base : ℕ) (h : Heap) (p n : ℕ)
    → IsBase base
    → InUse base h p n
    → (b : ℕ) × Linked h.mem h.head b × (p ≡ b + header_size)
InUse-Linked base h p n at u = (
  base + span u.pre,
  subst (λ (k : ℕ). Linked h.mem k (base + span u.pre)) (sym u.layout.head_at)
      (Position-Linked h.mem (base + heap_size) 0 base u.pre u.block u.post at.pos u.layout.chain),
  u.at,
)
