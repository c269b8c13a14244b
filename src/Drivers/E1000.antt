-- ===== src/Drivers/E1000.antt =====
-- The driver of kernel-rs/src/e1000.rs: its address, and the two rings of descriptors.
-- The card shares the descriptors and the buffers with the driver: a descriptor done has the bit DD
-- of its status set. What the card has done to them is in the state that an operation starts from.
pub mod Ring
use shade_os.Base.{
  ℕ, zero, suc, ◌+◌, ◌-◌, ◌*◌, ◌/◌, ◌%◌, ◌^◌, min, Bool, true, false, not, ◌&&◌, ◌||◌, List, [],
  ◌∷◌, ◌++◌, Option, none, some, ltb, ◌==◌, if◌then◌else◌, length, get_or, set, take, replicate, ℤ,
  pos, negsuc,
}
use shade_os.Drivers.{Io, out, store, slice}

-- NUM_RX_DESC and NUM_TX_DESC
abbrev pub num_desc : ℕ
num_desc = 32

-- `struct RxDescriptor`, with the bytes of memory from the address of its buffer on, of which 2048
-- are the buffer's, and `struct TxDescriptor`; the fields used.
pub record RxDescriptor : Type 0 where
  pub rx_addr : ℕ
  pub rx_length : ℕ
  pub rx_status : ℕ
  pub rx_bytes : ℕ → ℕ

pub record TxDescriptor : Type 0 where
  pub tx_addr : ℕ
  pub tx_length : ℕ
  pub tx_cmd : ℕ
  pub tx_status : ℕ

pub record Device : Type 0 where
  pub mac_address : List ℕ
  pub rx_ring : List RxDescriptor
  pub tx_ring : List TxDescriptor
  pub rx_descs : ℕ
  pub tx_descs : ℕ
  pub rx_current : ℕ
  pub tx_current : ℕ

-- The address of the card: what the EEPROM words hold, else the receive address registers, else one
-- made up from the base address of the registers.
abbrev bytes16 : ℕ → List ℕ
bytes16 w = w % 256 ∷ w / 256 % 256 ∷ []

abbrev all_zero : List ℕ → Bool
all_zero [] = true
all_zero (b ∷ bs) = (b == 0) && all_zero bs

unfoldable pub read_mac : ℕ → ℕ → ℕ → ℕ → ℕ → ℕ → List ℕ
read_mac mac0 mac1 mac2 ral0 rah0 mem_base =
    let eeprom = bytes16 mac0 ++ bytes16 mac1 ++ bytes16 mac2 in
    let ra = bytes16 ral0 ++ bytes16 (ral0 / 2 ^ 16) ++ bytes16 rah0 in
    if not (all_zero eeprom)
    then eeprom
    else if not (all_zero ra)
    then ra
    else 0x02 ∷ 0xAA ∷ bytes16 mem_base ++ bytes16 (mem_base / 2 ^ 16)

abbrev pub no_rx : RxDescriptor
no_rx = record { rx_addr = 0; rx_length = 0; rx_status = 0; rx_bytes = λ i. 0 }

abbrev pub no_tx : TxDescriptor
no_tx = record { tx_addr = 0; tx_length = 0; tx_cmd = 0; tx_status = 0 }

-- DESC_STATUS_DD
abbrev pub done : ℕ → Bool
done status = status % 2 == 1

-- Whether the packet was taken, the device, and the writes; none if the descriptor is not free,
-- where the driver spins until the card sets DD.
unfoldable pub transmit : List ℕ → Device → Option (Bool × Device × List Io)
transmit packet d =
    let desc = get_or d.tx_ring d.tx_current no_tx in
    if ltb 2048 (length packet)
    then some (false, d, [])
    else if not (done desc.tx_status)
    then none
    else some (
      true,
      record d {
        tx_ring =
            set d.tx_ring d.tx_current
              (record desc { tx_length = length packet; tx_cmd = 0x0B; tx_status = 0 });
        tx_current = (d.tx_current + 1) % num_desc;
      },
      store desc.tx_addr packet ∷ out 0x3818 ((d.tx_current + 1) % num_desc) ∷ [],
    )

-- The packet is the bytes from the start of the buffer on, as many as the card says: there is no
-- test that they are in the buffer. The allocation of the packet's own vector is not modelled.
unfoldable pub receive : Device → Option (List ℕ) × Device × List Io
receive d =
    let desc = get_or d.rx_ring d.rx_current no_rx in
    if not (done desc.rx_status) then (none, d, []) else (
      some (slice desc.rx_bytes 0 desc.rx_length),
      record d {
        rx_ring = set d.rx_ring d.rx_current (record desc { rx_status = 0 });
        rx_current = (d.rx_current + 1) % num_desc;
      },
      out 0x2818 d.rx_current ∷ [],
    )

abbrev answered : Option (Bool × Device × List Io) → Option (ℤ × Option Device × List Io)
answered none = none
answered (some (ok, d, io)) = some (if ok then pos 0 else negsuc 0, some d, io)

-- `e1000_transmit`: without a device -1.
abbrev pub e1000_transmit : List ℕ → Option Device → Option (ℤ × Option Device × List Io)
e1000_transmit packet none = some (negsuc 0, none, [])
e1000_transmit packet (some d) = answered (transmit packet d)

abbrev delivered : ℕ → ℕ → Option (List ℕ) × Device × List Io → ℤ × Option Device × List Io
delivered buffer max_len (none, d, io) = (negsuc 0, some d, io)
delivered buffer max_len (some packet, d, io) =
    (pos (min (length packet) max_len), some d, io ++ store buffer (take max_len packet) ∷ [])

-- `e1000_receive`: the packet is cut to the room for it.
abbrev pub e1000_receive : ℕ → ℕ → Option Device → ℤ × Option Device × List Io
e1000_receive buffer max_len none = (negsuc 0, none, [])
e1000_receive buffer max_len (some d) = delivered buffer max_len (receive d)
