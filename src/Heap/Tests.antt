-- ===== src/Heap/Tests.antt =====
-- Runs of the heap, and the theorems at them.
use shade_os.Base.{ℕ, ◌+◌, ◌-◌, ◌%◌, ◌^◌, ◌≤◌, ◌≡◌, refl, true, false, List, [], ◌∷◌, some, arith}
use shade_os.Heap.{
  Memory, Heap, heap_size, init_heap, align_up, kmalloc, kfree, add64, sub64, write, set_prev,
  find_fit, take_block, absorb, absorb_next, absorb_prev,
}
use shade_os.Heap.Layout.{Seg, seg, alloc, coalesce}
use shade_os.Heap.Valid.{IsBase, IsHeap, init_heap-IsHeap}
use shade_os.Heap.Alloc.{kmalloc_refines}
use shade_os.Heap.Free.{kfree_refines}
use shade_os.Heap.Linked.{same}
use shade_os.Heap.Reach.{
  outcome, InUse, malloc, free, free_refused, Reach, here, next, kmalloc_sound, kfree-kmalloc,
  Reach-IsHeap,
}

abbrev base : ℕ
base = 0x100000

abbrev blank : Memory
blank _ = record { magic = 0; size = 0; is_free = false; next = 0; prev = 0 }

abbrev start : Heap
start = record {
  mem =
      write blank base
        (record { magic = 0xDEADBEEF; size = 4194256; is_free = true; next = 0; prev = 0 });
  head = base;
}

start_lem : init_heap base blank ≡ start
unfolding init_heap
start_lem = refl

base-IsBase : IsBase base
base-IsBase = omega arith

start-IsHeap : IsHeap base start (seg 4194256 true ∷ [])
start-IsHeap = rw (← start_lem) (init_heap-IsHeap base blank base-IsBase)

-- The heap after `kmalloc(100)`: 112 bytes behind the first header.
one : (h : Heap) × (kmalloc 100 start ≡ some (base + 48, h))
unfolding kmalloc align_up add64 sub64 find_fit take_block set_prev
one = (_, refl)

abbrev after : Heap
after = one.0

abbrev rest : Seg
rest = seg 4194096 true

after-IsHeap : IsHeap base after (seg 112 false ∷ rest ∷ [])
unfolding alloc align_up add64
after-IsHeap =
    (outcome base start (seg 4194256 true ∷ []) base-IsBase start-IsHeap 100 (omega arith) after
      (base + 48) one.1).1

kmalloc_refines_example :
    (h' : Heap) × (kmalloc 100 start
      ≡ some ((alloc (align_up 100) base (seg 4194256 true ∷ [])).0, h'))
    × IsHeap base h' (alloc (align_up 100) base (seg 4194256 true ∷ [])).1
kmalloc_refines_example =
    kmalloc_refines base start (seg 4194256 true ∷ []) base-IsBase start-IsHeap 100 (omega arith)

kmalloc_sound_example :
    InUse base after (base + 48) 100 × ((base + 48) % 16 ≡ 0) × (base + 48 + 100 ≤ base + heap_size)
kmalloc_sound_example =
    kmalloc_sound base start (seg 4194256 true ∷ []) base-IsBase start-IsHeap 100 (omega arith)
      after (base + 48) one.1 (omega arith) (omega arith)

kfree_refines_example : IsHeap base (kfree (base + 48) after) (coalesce (seg 112 true ∷ rest ∷ []))
kfree_refines_example =
    kfree_refines base after [] (seg 112 false) (rest ∷ []) base-IsBase after-IsHeap refl

kfree-kmalloc_example : IsHeap base (kfree (base + 48) after) (seg 4194256 true ∷ [])
kfree-kmalloc_example =
    kfree-kmalloc base start (seg 4194256 true ∷ []) base-IsBase start-IsHeap 100 (omega arith)
      after (base + 48) one.1 (omega arith)

-- An allocation, and the block freed twice.
freed-Reach : Reach (init_heap base blank) (kfree (base + 48) (kfree (base + 48) after))
unfolding kfree sub64 one absorb absorb_next absorb_prev set_prev
freed-Reach = rw start_lem (
    next (next (next here (malloc 100 (base + 48) one.1)) (free {h = after} base same))
      (free_refused (base + 48) refl))

Reach-IsHeap_example :
    (ss : List Seg) × IsHeap base (kfree (base + 48) (kfree (base + 48) after)) ss
Reach-IsHeap_example = Reach-IsHeap blank base-IsBase freed-Reach

-- All 2^64 - 1 bytes are granted.
huge : (h : Heap) × (kmalloc (2 ^ 64 - 1) start ≡ some (base + 48, h))
unfolding kmalloc align_up add64 sub64 find_fit take_block set_prev
huge = (_, refl)
