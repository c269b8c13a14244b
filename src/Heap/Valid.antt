-- ===== src/Heap/Valid.antt =====
-- When a heap state is well formed, and that the initial one is.
use shade_os.Base.{ℕ, ◌+◌, ◌-◌, ◌%◌, ◌^◌, ◌<◌, ◌≡◌, refl, List, [], ◌∷◌, true, arith}
use shade_os.Heap.{Memory, Heap, heap_size, header_size, init_heap}
use shade_os.Heap.Layout.{Seg, seg, IsTidy}
use shade_os.Heap.Chain.{Chain, link, write_self}

-- Where the static array may stand: aligned, not at null, and within the address space.
pub record IsBase (base : ℕ) : Type 0 where
  pub pos : 0 < base
  pub aligned : base % 16 ≡ 0
  pub fits : base + heap_size < 2 ^ 64

-- The headers hold the blocks `ss`, which fill the array, and these are tidy.
pub record IsHeap (base : ℕ) (h : Heap) (ss : List Seg) : Type 0 where
  pub head_at : h.head ≡ base
  pub chain : Chain h.mem (base + heap_size) 0 base ss
  pub tidy : IsTidy ss

pub IsHeap-link : (base : ℕ) (h : Heap) (ss : List Seg) → IsHeap base h ss → h.head ≡ link base ss
IsHeap-link base h [] v = absurd (omega (arith, v.chain))
IsHeap-link base h (s ∷ ss) v = v.head_at

-- After `init_heap` the heap is well formed, and is one free block without the header.
pub init_heap-IsHeap :
    (base : ℕ) (m : Memory)
    → IsBase base
    → IsHeap base (init_heap base m) (seg (heap_size - header_size) true ∷ [])
unfolding init_heap
init_heap-IsHeap base m b = record {
  head_at = refl;
  chain = (write_self m base _, omega arith);
  tidy = (refl, refl, tt);
}
