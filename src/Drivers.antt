-- ===== src/Drivers.antt =====
-- The network card drivers: what the models of kernel-rs/src/rtl8139.rs and kernel-rs/src/e1000.rs
-- share, and the loops that allocate and free buffers on the heap.
-- What the card answers is an argument of the operations; what is written to it, and to the buffers,
-- is part of their results, in order.
pub mod Buffers
pub mod Rtl8139
pub mod E1000
mod Tests
use shade_os.Base.{ℕ, zero, suc, Bool, true, false, List, [], ◌∷◌, Option, none, some}
use shade_os.Heap.{Heap, kmalloc, kfree}

-- A write to a port or register of the card, or a store of bytes at an address.
pub data Io : Type 0 where
  out : ℕ → ℕ → Io
  store : ℕ → List ℕ → Io

-- The pointers allocated by a loop of `rust_kmalloc(size)`, and whether it went to its end: it stops
-- at a null pointer.
pub record Allocated : Type 0 where
  pub pointers : List ℕ
  pub complete : Bool
  pub heap : Heap

abbrev pub one_more : ℕ → Option Allocated → Option Allocated
one_more p none = none
one_more p (some b) = some (record b { pointers = p ∷ b.pointers })

unfoldable pub alloc_buffers : ℕ → ℕ → Heap → Option Allocated
alloc_buffers zero size h = some (record { pointers = []; complete = true; heap = h })
alloc_buffers (suc n) size h = elim (kmalloc size h) [
  | none ↦ none
  | some (zero, h') ↦ some (record { pointers = []; complete = false; heap = h' })
  | some (suc p, h') ↦ one_more (suc p) (alloc_buffers n size h')
]

-- The loops that free buffers.
abbrev pub free_buffers : List ℕ → Heap → Heap
free_buffers [] h = h
free_buffers (p ∷ ps) h = free_buffers ps (kfree p h)

-- `n` bytes of a buffer from `offset` on.
abbrev pub slice : (ℕ → ℕ) → ℕ → ℕ → List ℕ
slice rx offset zero = []
slice rx offset (suc n) = rx offset ∷ slice rx (suc offset) n
