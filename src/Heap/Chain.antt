-- ===== src/Heap/Chain.antt =====
-- The linked list of headers that holds a given layout, and how it stands up to header writes.
use shade_os.Base.{
  ℕ, ◌+◌, ◌-◌, ◌^◌, ◌≤◌, ◌<◌, ◌≡◌, ◌≢◌, refl, sym, ap, subst, ◌∙◌, List, [], ◌∷◌, arith,
}
use shade_os.Heap.{Block, Memory, block_magic, write, set_prev, absorb, add64, sub64}
use shade_os.Heap.Layout.{Seg, span, join}

-- The header of the block `s`.
abbrev pub hdr : Seg → ℕ → ℕ → Block
hdr s next prev = record {
  magic = block_magic;
  size = s.size;
  is_free = s.free;
  next = next;
  prev = prev;
}

-- The pointer to the blocks `ss` at address `a`: null if there are none.
abbrev pub link : ℕ → List Seg → ℕ
link a [] = 0
link a (s ∷ ss) = a

-- From address `a` on, up to `stop`, the memory holds the blocks `ss` one after the other, each
-- header linked to its neighbours; `prev` is the pointer back from the first.
abbrev pub Chain : Memory → ℕ → ℕ → ℕ → List Seg → Type 0
Chain m stop prev a [] = a ≡ stop
Chain m stop prev a (s ∷ ss) =
    (m a ≡ hdr s (link (a + 48 + s.size) ss) prev) × Chain m stop a (a + 48 + s.size) ss

pub span_lem :
    (m : Memory) (stop prev a : ℕ) (ss : List Seg) → Chain m stop prev a ss → a + span ss ≡ stop
span_lem m stop prev a [] c = omega arith
span_lem m stop prev a (s ∷ ss) c = omega (arith, span_lem m stop a (a + 48 + s.size) ss c.1)

-- The chain survives any change below its first header.
pub frame :
    (m g : Memory) (stop prev a : ℕ) (ss : List Seg)
    → ((x : ℕ) → a ≤ x → g x ≡ m x)
    → Chain m stop prev a ss
    → Chain g stop prev a ss
frame m g stop prev a [] same c = c
frame m g stop prev a (s ∷ ss) same c = (
  same a (omega arith) ∙ c.0,
  frame m g stop a (a + 48 + s.size) ss (λ x h. same x (omega arith)) c.1,
)

pub write_self : (m : Memory) (a : ℕ) (b : Block) → write m a b a ≡ b
write_self m a b = ground arith

pub write-below : (m : Memory) (a x : ℕ) (b : Block) → x < a → write m a b x ≡ m x
write-below m a x b h = ground arith

pub write-above : (m : Memory) (a x : ℕ) (b : Block) → a < x → write m a b x ≡ m x
write-above m a x b h = ground arith

set_prev_self : (m : Memory) (p v : ℕ) → 0 < p → set_prev m p v p ≡ record (m p) { prev = v }
unfolding set_prev
set_prev_self m p v h = ground arith

set_prev-ne : (m : Memory) (p v x : ℕ) → x ≢ p → set_prev m p v x ≡ m x
unfolding set_prev
set_prev-ne m p v x h = ground arith

set_prev-null : (m : Memory) (v : ℕ) → set_prev m 0 v ≡ m
unfolding set_prev
set_prev-null m v = refl

-- `set_prev` at the head of a chain turns its back pointer, and changes nothing below.
pub set_prev-Chain :
    (m : Memory) (stop prev v a : ℕ) (ss : List Seg)
    → 0 < a
    → Chain m stop prev a ss
    → Chain (set_prev m (link a ss) v) stop v a ss
set_prev-Chain m stop prev v a [] h c = c
set_prev-Chain m stop prev v a (s ∷ ss) h c = (
  set_prev_self m a v h ∙ ap (λ (b : Block). record b { prev = v }) c.0,
  frame m (set_prev m a v) stop a (a + 48 + s.size) ss (λ x le. set_prev-ne m a v x (omega arith))
      c.1,
)

pub set_prev-below :
    (m : Memory) (v a x : ℕ) (ss : List Seg) → x < a → set_prev m (link a ss) v x ≡ m x
set_prev-below m v a x [] h = rw set_prev-null
set_prev-below m v a x (s ∷ ss) h = set_prev-ne m a v x (omega arith)

-- A write of a header in front of a chain whose back pointer then follows.
pub relink :
    (m : Memory) (stop prev v a x : ℕ) (b : Block) (ss : List Seg)
    → x < a
    → Chain m stop prev a ss
    → Chain (set_prev (write m x b) (link a ss) v) stop v a ss
relink m stop prev v a x b ss h c =
    set_prev-Chain (write m x b) stop prev v a ss (omega arith)
      (frame m (write m x b) stop prev a ss (λ y le. write-above m x y b (omega arith)) c)

-- Sums and differences that stay in 64 bits.
pub add64-eq : (a b : ℕ) → a + b < 2 ^ 64 → add64 a b ≡ a + b
unfolding add64
add64-eq a b h = omega arith

pub sub64-eq : (a b : ℕ) → a < 2 ^ 64 → b ≤ a → sub64 a b ≡ a - b
unfolding sub64
sub64-eq a b l h = omega arith

-- A block takes over its successor: one block with the two sizes and a header between them.
module _ (m : Memory) (stop prev a : ℕ) (s t : Seg) (ss : List Seg) (lim : stop < 2 ^ 64)
    (c : Chain m stop prev a (s ∷ t ∷ ss)) where
  absorb_lem :
      absorb m a (a + 48 + s.size)
      ≡ set_prev
          (write m a (hdr (join s t) (link (a + 48 + s.size + 48 + t.size) ss) prev))
          (link (a + 48 + s.size + 48 + t.size) ss)
          a
  unfolding absorb
  absorb_lem =
      let total : s.size + (48 + t.size) ≡ s.size + 48 + t.size = omega arith in
      rw (
        c.0,
        c.1.0,
        add64-eq 48 t.size (omega (arith, end)),
        add64-eq s.size (48 + t.size) (omega (arith, end)),
        total,
      )
    where
      end : a + span (s ∷ t ∷ ss) ≡ stop
      end = span_lem m stop prev a (s ∷ t ∷ ss) c

  pub absorb-Chain : Chain (absorb m a (a + 48 + s.size)) stop prev a (join s t ∷ ss)
  absorb-Chain =
      let same : a + 48 + (s.size + 48 + t.size) ≡ a + 48 + s.size + 48 + t.size = omega arith in
      rw same (
        rw absorb_lem (set_prev-below _ a _ a ss (omega arith) ∙ write_self m a _),
        subst (λ (g : Memory). Chain g stop a (a + 48 + s.size + 48 + t.size) ss) (sym absorb_lem)
            (relink m stop (a + 48 + s.size) a (a + 48 + s.size + 48 + t.size) a _ ss (omega arith)
              c.1.1),
      )

  pub absorb-below : (x : ℕ) → x < a → absorb m a (a + 48 + s.size) x ≡ m x
  absorb-below x h = rw absorb_lem (set_prev-below _ a _ x ss (omega arith) ∙ write-below m a x _ h)
