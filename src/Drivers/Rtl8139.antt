-- ===== src/Drivers/Rtl8139.antt =====
-- The driver of kernel-rs/src/rtl8139.rs: its buffers, the four transmit slots, and the ring of
-- received packets.
pub mod Ring
pub mod New
use shade_os.Base.{
  ℕ, zero, suc, ◌+◌, ◌-◌, ◌*◌, ◌/◌, ◌%◌, ◌^◌, min, Bool, true, false, not, ◌||◌, List, [], ◌∷◌,
  ◌++◌, Option, none, some, ltb, leb, ◌==◌, if◌then◌else◌, length, get_or, take, ℤ, pos, negsuc,
}
use shade_os.Heap.{Heap, kmalloc, kfree}
use shade_os.Drivers.{Io, out, store, Allocated, alloc_buffers, free_buffers, slice}

abbrev pub rx_buffer_size : ℕ
rx_buffer_size = 8192 + 16 + 1500

abbrev pub tx_buffer_size : ℕ
tx_buffer_size = 1536

pub record Device : Type 0 where
  pub mac_address : List ℕ
  pub rx_buffer : ℕ
  pub tx_buffers : List ℕ
  pub current_tx : ℕ
  pub rx_offset : ℕ

-- `Rtl8139Device::new` without the set-up of the card, `init`: `mac` is what `init` reads.
abbrev pub with_buffers : List ℕ → ℕ → Option Allocated → Option (Option Device × Heap)
with_buffers mac rx none = none
with_buffers mac rx (some b) =
    if b.complete
    then some (
      some (record {
        mac_address = mac;
        rx_buffer = rx;
        tx_buffers = b.pointers;
        current_tx = 0;
        rx_offset = 0;
      }),
      b.heap,
    )
    else some (none, free_buffers (rx ∷ b.pointers) b.heap)

unfoldable pub new_device : List ℕ → Heap → Option (Option Device × Heap)
new_device mac h = elim (kmalloc rx_buffer_size h) [
  | none ↦ none
  | some (rx, h') ↦
      if rx == 0 then some (none, h') else with_buffers mac rx (alloc_buffers 4 tx_buffer_size h')
]

-- The writes of `init` to the card.
abbrev pub init_writes : ℕ → List Io
init_writes rx_buffer =
    out 0x52 0
    ∷ out 0x37 0x10
    ∷ out 0x30 (rx_buffer % 2 ^ 32)
    ∷ out 0x38 0xFFF0
    ∷ out 0x3C 0x0F
    ∷ out 0x3E 0xFFFF
    ∷ out 0x44 0x8F
    ∷ out 0x40 0x03000000
    ∷ out 0x37 0x0C
    ∷ []

-- `drop`
abbrev pub drop_device : Device → Heap → Heap
drop_device d h = free_buffers (d.rx_buffer ∷ d.tx_buffers) h

-- Whether the packet was taken, the device, and the writes.
unfoldable pub transmit : List ℕ → Device → Bool × Device × List Io
transmit packet d =
    if ltb tx_buffer_size (length packet)
    then (false, d, [])
    else (let tx_buffer = get_or d.tx_buffers d.current_tx 0 in
        (
          true,
          record d { current_tx = (d.current_tx + 1) % 4 },
          store tx_buffer packet
              ∷ out (0x20 + d.current_tx * 4) (tx_buffer % 2 ^ 32)
              ∷ out (0x10 + d.current_tx * 4) (length packet)
              ∷ [],
        ))

-- `((rx_offset + n + 4 + 3) & !3) & 0xFFFF`, in u16, and back to 0 from the size of the buffer on.
unfoldable pub advance : ℕ → ℕ → ℕ
advance rx_offset n =
    let new_offset = (rx_offset + n + 7) % 2 ^ 16 / 4 * 4 in
    if leb rx_buffer_size new_offset then 0 else new_offset

-- The write to CAPR that goes with an offset.
abbrev pub capr : ℕ → Io
capr rx_offset = out 0x38 ((rx_offset + 2 ^ 16 - 0x10) % 2 ^ 16)

abbrev skip : Device → ℕ → Option (List ℕ) × Device × List Io
skip d n = (none, record d { rx_offset = advance d.rx_offset n }, capr (advance d.rx_offset n) ∷ [])

-- `cmd` is what the command register reads, and `rx` the bytes of the buffer. A packet is preceded
-- by its status and by its length, which counts the four bytes of the checksum.
unfoldable pub receive : ℕ → (ℕ → ℕ) → Device → Option (List ℕ) × Device × List Io
receive cmd rx d =
    let offset = d.rx_offset in
    let status = rx offset + 256 * rx (offset + 1) in
    let len = rx (offset + 2) + 256 * rx (offset + 3) in
    if not (cmd % 2 == 0)
    then (none, d, [])
    else if leb rx_buffer_size offset
    then (none, record d { rx_offset = 0 }, out 0x38 0xFFF0 ∷ [])
    else if status % 2 == 0
    then skip d (if ltb 0 len then len else 4)
    else if ltb len 4 || ltb 1518 len
    then skip d len
    else (
      some (slice rx (offset + 4) (len - 4)),
      record d { rx_offset = advance offset len },
      capr (advance offset len) ∷ [],
    )

-- `rtl8139_transmit`: without a device -1.
abbrev pub rtl8139_transmit : List ℕ → Option Device → ℤ × Option Device × List Io
rtl8139_transmit packet none = (negsuc 0, none, [])
rtl8139_transmit packet (some d) =
    let (ok, d', io) = transmit packet d in (if ok then pos 0 else negsuc 0, some d', io)

-- `rtl8139_receive`: the packet is cut to the room for it.
abbrev delivered : ℕ → ℕ → Option (List ℕ) × Device × List Io → ℤ × Option Device × List Io
delivered buffer max_len (none, d, io) = (negsuc 0, some d, io)
delivered buffer max_len (some packet, d, io) =
    (pos (min (length packet) max_len), some d, io ++ store buffer (take max_len packet) ∷ [])

abbrev pub rtl8139_receive : ℕ → ℕ → ℕ → (ℕ → ℕ) → Option Device → ℤ × Option Device × List Io
rtl8139_receive buffer max_len cmd rx none = (negsuc 0, none, [])
rtl8139_receive buffer max_len cmd rx (some d) = delivered buffer max_len (receive cmd rx d)

-- `handle_interrupt` acknowledges what the status register reads.
abbrev pub handle_interrupt : ℕ → List Io
handle_interrupt isr = out 0x3E isr ∷ []
