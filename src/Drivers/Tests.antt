-- ===== src/Drivers/Tests.antt =====
-- Runs of the drivers, and the theorems at them.
use shade_os.Base.{
  if◌then◌else◌, ◌==◌, ℕ, ◌+◌, ◌%◌, ◌<◌, ◌≡◌, refl, true, false, some, List, [], ◌∷◌, ◌++◌, arith,
  replicate, get_or,
}
use shade_os.Heap.{
  Memory, Heap, init_heap, kmalloc, align_up, add64, sub64, find_fit, take_block, set_prev,
}
use shade_os.Heap.Layout.{seg}
use shade_os.Heap.Valid.{IsBase, IsHeap, init_heap-IsHeap}
use shade_os.Drivers.{alloc_buffers}
use shade_os.Drivers.Rtl8139.{new_device}
use shade_os.Drivers.Rtl8139.New.{Fresh, new_device-Fresh}
use shade_os.Drivers.Rtl8139 as Rtl
use shade_os.Drivers.Rtl8139.Ring as RtlRing
use shade_os.Drivers.E1000 as E
use shade_os.Drivers.E1000.Ring as ERing

abbrev base : ℕ
base = 0x100000

abbrev blank : Memory
blank _ = record { magic = 0; size = 0; is_free = false; next = 0; prev = 0 }

abbrev start : Heap
start = init_heap base blank

base-IsBase : IsBase base
base-IsBase = omega arith

start-IsHeap : IsHeap base start (seg 4194256 true ∷ [])
start-IsHeap = init_heap-IsHeap base blank base-IsBase

abbrev mac : List ℕ
mac = 2 ∷ 0 ∷ 0 ∷ 0 ∷ 0 ∷ 1 ∷ []

made : (d : Rtl.Device) × (h : Heap) × (new_device mac start ≡ some (some d, h))
unfolding new_device alloc_buffers kmalloc align_up add64 sub64 find_fit take_block set_prev
    init_heap
made = (_, _, refl)

new_device-Fresh_example : Fresh base start made.1 made.0
new_device-Fresh_example =
    new_device-Fresh base base-IsBase mac start made.1 (seg 4194256 true ∷ []) made.0 start-IsHeap
      made.2

-- Two frames of 1 and 2 bytes with their checksums.
abbrev ring : ℕ → ℕ
ring x = get_or (1 ∷ 0 ∷ 5 ∷ 0 ∷ 77 ∷ replicate 7 9 ++ 1 ∷ 0 ∷ 6 ∷ 0 ∷ 88 ∷ 99 ∷ replicate 6 9) x 0

abbrev rtl : Rtl.Device
rtl = record {
  mac_address = mac;
  rx_buffer = 0x1000;
  tx_buffers = [];
  current_tx = 0;
  rx_offset = 0;
}

receive_all-HoldsFrames_example :
    RtlRing.receive_all ((77 ∷ []) ∷ (88 ∷ 99 ∷ []) ∷ []) ring rtl
    ≡ (some (77 ∷ []) ∷ some (88 ∷ 99 ∷ []) ∷ [], record rtl { rx_offset = 24 })
receive_all-HoldsFrames_example =
    RtlRing.receive_all-HoldsFrames ((77 ∷ []) ∷ (88 ∷ 99 ∷ []) ∷ []) ring rtl (omega arith)
      (refl, refl, omega arith, refl, omega arith, (refl, refl, omega arith, refl, omega arith, tt))

-- A ring whose last descriptor holds a packet of one byte, the current one.
abbrev card : E.Device
card = record {
  mac_address = mac;
  rx_ring =
      replicate 31 E.no_rx
      ++ record {
        rx_addr = 0x2000;
        rx_length = 1;
        rx_status = 1;
        rx_bytes = λ i. if i == 0 then 55 else 0;
      }
        ∷ [];
  tx_ring = replicate 32 E.no_tx;
  rx_descs = 0x1000;
  tx_descs = 0x1200;
  rx_current = 31;
  tx_current = 0;
}

card-IsDevice : ERing.IsDevice card
card-IsDevice = record {
  rx_size = refl;
  tx_size = refl;
  rx_index = omega arith;
  tx_index = omega arith;
}

receive_all-HoldsPackets_example :
    ((ERing.receive_all ((55 ∷ []) ∷ []) card).0 ≡ some (55 ∷ []) ∷ [])
    × ((ERing.receive_all ((55 ∷ []) ∷ []) card).1.rx_current ≡ 0)
    × ((k : ℕ)
        → k < 1
        → E.done
            (get_or
              (ERing.receive_all ((55 ∷ []) ∷ []) card).1.rx_ring
              ((31 + k) % 32)
              E.no_rx).rx_status
          ≡ false)
receive_all-HoldsPackets_example =
    ERing.receive_all-HoldsPackets ((55 ∷ []) ∷ []) card card-IsDevice (omega arith)
      (refl, refl, omega arith, tt)
