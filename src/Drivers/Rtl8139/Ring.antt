-- ===== src/Drivers/Rtl8139/Ring.antt =====
-- The ring of received packets and the transmit slots of the RTL8139 driver.
use shade_os.Base.{
  ℕ, ◌+◌, ◌-◌, ◌*◌, ◌/◌, ◌%◌, ◌^◌, ◌≤◌, ◌<◌, ◌≡◌, refl, false, ◌||◌, List, [], ◌∷◌, Option, some,
  arith, ltb, leb, ◌==◌, if◌then◌else◌, length,
}
use shade_os.Drivers.Rtl8139.{Device, rx_buffer_size, advance, capr, receive, transmit}
use shade_os.Drivers.{slice}

-- The read offset is inside the buffer and aligned, and the transmit slot is one of the four.
pub record IsDevice (d : Device) : Type 0 where
  pub offset : d.rx_offset < rx_buffer_size
  pub aligned : d.rx_offset % 4 ≡ 0
  pub slot : d.current_tx < 4

advance-lt : (o n : ℕ) → (advance o n < rx_buffer_size) × (advance o n % 4 ≡ 0)
unfolding advance
advance-lt o n = ground arith

-- Whatever the card answers and whatever is in the buffer.
pub receive-IsDevice :
    (cmd : ℕ) (rx : ℕ → ℕ) (d : Device) → IsDevice d → IsDevice (receive cmd rx d).1
unfolding receive
receive-IsDevice cmd rx d v =
    let n : ℕ = rx (d.rx_offset + 2) + 256 * rx (d.rx_offset + 3) in
    let skipped = advance-lt d.rx_offset (if ltb 0 n then n else 4) in
    let taken = advance-lt d.rx_offset n in
    record {
      offset = ground (arith, v.offset, skipped, taken);
      aligned = ground (arith, v.aligned, skipped, taken);
      slot = ground (arith, v.slot);
    }

pub transmit-IsDevice : (packet : List ℕ) (d : Device) → IsDevice d → IsDevice (transmit packet d).1
unfolding transmit
transmit-IsDevice packet d v = record {
  offset = ground (arith, v.offset);
  aligned = ground (arith, v.aligned);
  slot = ground (arith, v.slot);
}

-- Where the packet behind one of `n` bytes at `o` stands: behind the header, the bytes and the
-- checksum, aligned.
abbrev pub next_packet : ℕ → ℕ → ℕ
next_packet o n = (o + 4 + n + 4 + 3) / 4 * 4

-- From the offset `o` on the buffer holds the packets one after the other, as the card stores them,
-- and the last one ends before the buffer does.
abbrev pub HoldsFrames : (ℕ → ℕ) → ℕ → List (List ℕ) → Type 0
HoldsFrames rx o [] = Unit
HoldsFrames rx o (p ∷ ps) =
    ((rx o + 256 * rx (o + 1)) % 2 ≡ 1)
    × (rx (o + 2) + 256 * rx (o + 3) ≡ length p + 4)
    × (length p ≤ 1514)
    × (slice rx (o + 4) (length p) ≡ p)
    × (next_packet o (length p) < rx_buffer_size)
    × HoldsFrames rx (next_packet o (length p)) ps

-- As many calls of `receive` as there are packets, while the card says that its buffer is not empty:
-- what they return, and the device behind them.
abbrev pub receive_all : List (List ℕ) → (ℕ → ℕ) → Device → List (Option (List ℕ)) × Device
receive_all [] rx d = ([], d)
receive_all (p ∷ ps) rx d =
    let (got, d', _) = receive 0 rx d in let (more, d'') = receive_all ps rx d' in (got ∷ more, d'')

abbrev pub somes : List (List ℕ) → List (Option (List ℕ))
somes [] = []
somes (p ∷ ps) = some p ∷ somes ps

abbrev pub end_of : ℕ → List (List ℕ) → ℕ
end_of o [] = o
end_of o (p ∷ ps) = end_of (next_packet o (length p)) ps

advance-next :
    (o n : ℕ)
    → n ≤ 1514
    → o < rx_buffer_size
    → next_packet o n < rx_buffer_size
    → advance o (n + 4) ≡ next_packet o n
unfolding advance
advance-next o n small inside fits =
    let e : (o + (n + 4) + 7) % 2 ^ 16 / 4 * 4 ≡ next_packet o n = omega arith in
    rw e (ground arith)

receive-packet :
    (rx : ℕ → ℕ) (d : Device) (p : List ℕ)
    → d.rx_offset < rx_buffer_size
    → (rx d.rx_offset + 256 * rx (d.rx_offset + 1)) % 2 ≡ 1
    → rx (d.rx_offset + 2) + 256 * rx (d.rx_offset + 3) ≡ length p + 4
    → length p ≤ 1514
    → slice rx (d.rx_offset + 4) (length p) ≡ p
    → next_packet d.rx_offset (length p) < rx_buffer_size
    → receive 0 rx d ≡ (
      some p,
      record d { rx_offset = next_packet d.rx_offset (length p) },
      capr (next_packet d.rx_offset (length p)) ∷ [],
    )
unfolding receive
receive-packet rx d p inside good len small bytes fits =
    let in_buffer : leb rx_buffer_size d.rx_offset ≡ false = ground arith in
    let ok : ((rx d.rx_offset + 256 * rx (d.rx_offset + 1)) % 2 == 0) ≡ false = ground arith in
    let sized : (ltb (length p + 4) 4 || ltb 1518 (length p + 4)) ≡ false = ground arith in
    let body : length p + 4 - 4 ≡ length p = omega arith in
    let at : advance d.rx_offset (length p + 4) ≡ next_packet d.rx_offset (length p) =
      advance-next d.rx_offset (length p) small inside fits in
    rw (in_buffer, ok, len, sized, body, at, bytes) refl

-- Packets that stand in the buffer one after the other are received in order and whole, one by each
-- call; the read offset is then behind the last.
pub receive_all-HoldsFrames :
    (ps : List (List ℕ)) (rx : ℕ → ℕ) (d : Device)
    → d.rx_offset < rx_buffer_size
    → HoldsFrames rx d.rx_offset ps
    → receive_all ps rx d ≡ (somes ps, record d { rx_offset = end_of d.rx_offset ps })
receive_all-HoldsFrames [] rx d inside h = refl
receive_all-HoldsFrames (p ∷ ps) rx d inside h =
    let (good, len, small, bytes, fits, rest) = h in
    let one = receive-packet rx d p inside good len small bytes fits in
    let d' : Device = record d { rx_offset = next_packet d.rx_offset (length p) } in
    rw (one, receive_all-HoldsFrames ps rx d' fits rest) refl
