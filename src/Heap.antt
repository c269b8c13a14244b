-- ===== src/Heap.antt =====
-- The kernel heap, kernel-rs/src/heap.rs: a first-fit allocator whose block headers stand in the
-- heap itself, in a doubly linked list in address order.
-- The memory is a function from an address to the header that the bytes there hold; a null pointer
-- is 0. Headers never overlap in a heap that `init_heap`, `kmalloc` and `kfree` have built, so
-- a header write changes no other header. What the holders of blocks write is not modelled: they
-- are taken to stay inside their blocks. Messages on the serial line are left out.
pub mod Layout
pub mod Chain
pub mod Valid
pub mod Fit
pub mod Alloc
pub mod Free
pub mod Linked
pub mod Reach
pub mod Live
mod Tests
use shade_os.Base.{
  ℕ, zero, suc, ◌+◌, ◌-◌, ◌*◌, ◌/◌, ◌%◌, ◌^◌, Bool, true, false, not, ◌&&◌, ◌||◌, Option, none,
  some, ltb, leb, ◌==◌, if◌then◌else◌,
}

abbrev pub heap_size : ℕ
heap_size = 1024 * 1024 * 4

abbrev pub alignment : ℕ
alignment = 16

abbrev pub block_magic : ℕ
block_magic = 0xDEADBEEF

-- `size_of::<Block>()`: five fields of at most 8 bytes, rounded up to the alignment of 16.
abbrev pub header_size : ℕ
header_size = 48

-- usize arithmetic of a release build wraps.
unfoldable pub add64 : ℕ → ℕ → ℕ
add64 a b = (a + b) % 2 ^ 64

unfoldable pub sub64 : ℕ → ℕ → ℕ
sub64 a b = (a + 2 ^ 64 - b) % 2 ^ 64

-- `struct Block`
pub record Block : Type 0 where
  pub magic : ℕ
  pub size : ℕ
  pub is_free : Bool
  pub next : ℕ
  pub prev : ℕ

abbrev pub Memory : Type 0
Memory = ℕ → Block

pub record Heap : Type 0 where
  pub mem : Memory
  pub head : ℕ

abbrev pub write : Memory → ℕ → Block → Memory
write m a b x = if x == a then b else m x

-- `if !p.is_null() { (*p).prev = v; }`
unfoldable pub set_prev : Memory → ℕ → ℕ → Memory
set_prev m p v = if p == 0 then m else write m p (record (m p) { prev = v })

-- The static array HEAP starts at `base`.
unfoldable pub init_heap : ℕ → Memory → Heap
init_heap base m = record {
  mem = write m base (record {
    magic = block_magic;
    size = heap_size - header_size;
    is_free = true;
    next = 0;
    prev = 0;
  });
  head = base;
}

-- `(size + (ALIGNMENT - 1)) & !(ALIGNMENT - 1)`: the mask clears the last four bits.
unfoldable pub align_up : ℕ → ℕ
align_up size = add64 size (alignment - 1) / alignment * alignment

-- The `while` loop of `rust_kmalloc` as far as it chooses a block: 0 is its end, `none` means that
-- the fuel ran out.
unfoldable pub find_fit : ℕ → Memory → ℕ → ℕ → Option ℕ
find_fit zero m n current = none
find_fit (suc fuel) m n current =
    let rest = find_fit fuel m n (m current).next in
    if current == 0
    then some 0
    else if (m current).is_free && leb n (m current).size
    then some current
    else rest

-- The body of the loop at the chosen block: the split, then `is_free = false`.
unfoldable pub take_block : Memory → ℕ → ℕ → Memory
take_block m n current =
    let block = m current in
    if ltb (add64 n header_size) block.size
    then (let new = add64 (add64 current header_size) n in
        let split = write m new (record {
          magic = block_magic;
          size = sub64 (sub64 block.size n) header_size;
          is_free = true;
          next = block.next;
          prev = current;
        }) in
        write (set_prev split block.next new) current
          (record block { size = n; is_free = false; next = new }))
    else write m current (record block { is_free = false })

-- The list has at most one block for each header that the heap has room for.
abbrev pub max_rounds : ℕ
max_rounds = heap_size / header_size + 2

-- The pointer is 0 for null; `none` would mean that the loop did not end.
unfoldable pub kmalloc : ℕ → Heap → Option (ℕ × Heap)
kmalloc size h =
    if size == 0 then some (0, h) else elim (find_fit max_rounds h.mem (align_up size) h.head) [
      | none ↦ none
      | some current ↦
          if current == 0
          then some (0, h)
          else some (
            add64 current header_size,
            record h { mem = take_block h.mem (align_up size) current },
          )
    ]

-- Both coalescing steps of `rust_kfree`: block `a` takes over its successor `b`.
pub absorb : Memory → ℕ → ℕ → Memory
absorb m a b =
    set_prev
      (write m a (record (m a) {
        size = add64 (m a).size (add64 header_size (m b).size);
        next = (m b).next;
      }))
      (m b).next a

-- "Coalesce with next block"
pub absorb_next : Memory → ℕ → Memory
absorb_next m a =
    if not ((m a).next == 0) && (m (m a).next).is_free then absorb m a (m a).next else m

-- "Coalesce with previous block"
pub absorb_prev : Memory → ℕ → Memory
absorb_prev m a =
    if not ((m a).prev == 0) && (m (m a).prev).is_free then absorb m (m a).prev a else m

pub kfree : ℕ → Heap → Heap
kfree p h =
    let a = sub64 p header_size in
    let block = h.mem a in
    if p == 0
    then h
    else if not (block.magic == block_magic) || block.is_free
    then h
    else record h {
      mem = absorb_prev (absorb_next (write h.mem a (record block { is_free = true })) a) a;
    }
