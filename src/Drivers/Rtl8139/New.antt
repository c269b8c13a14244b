-- ===== src/Drivers/Rtl8139/New.antt =====
-- A new RTL8139 device: its buffers on the heap.
use shade_os.Base.{
  ℕ, ◌≡◌, ◌≢◌, refl, ap, subst, List, Option, none, some, some-inj, arith, ◌==◌, Bool-cases,
  Option-cases, inl, inr, not_==→ne, length, true,
}
use shade_os.Heap.{Heap, kmalloc}
use shade_os.Heap.Layout.{Seg}
use shade_os.Heap.Valid.{IsBase, IsHeap}
use shade_os.Heap.Reach.{InUse, kmalloc_sound, malloc-IsHeap}
use shade_os.Heap.Live.{InUse-kmalloc}
use shade_os.Drivers.{Allocated, alloc_buffers}
use shade_os.Drivers.Buffers.{IsApart, IsHeld, alloc_buffers-Held, length-alloc_buffers}
use shade_os.Drivers.Rtl8139.{Device, rx_buffer_size, tx_buffer_size, with_buffers, new_device}
use shade_os.Drivers.Rtl8139.Ring.{IsDevice}

-- The device has a receive buffer and four transmit buffers, blocks in use that share no byte; its
-- counters are in range, and what was
-- in use before is in use.
pub record Fresh (base : ℕ) (h h' : Heap) (d : Device) : Type 0 where
  pub layout : List Seg
  pub valid : IsHeap base h' layout
  pub rx_present : d.rx_buffer ≢ 0
  pub rx_used : InUse base h' d.rx_buffer rx_buffer_size
  pub four : length d.tx_buffers ≡ 4
  pub tx_used : IsHeld base h' tx_buffer_size d.tx_buffers
  pub rx_apart : IsApart d.rx_buffer rx_buffer_size tx_buffer_size d.tx_buffers
  pub counters : IsDevice d
  pub live : (p n : ℕ) → InUse base h p n → InUse base h' p n

abbrev made : List ℕ → ℕ → Allocated → Device
made mac rx b = record {
  mac_address = mac;
  rx_buffer = rx;
  tx_buffers = b.pointers;
  current_tx = 0;
  rx_offset = 0;
}

-- A device is made only of a whole set of buffers.
with_buffers-some :
    (mac : List ℕ) (rx : ℕ) (o : Option Allocated) (d : Device) (h : Heap)
    → with_buffers mac rx o ≡ some (some d, h)
    → (b : Allocated) × (o ≡ some b) × (made mac rx b ≡ d) × (b.heap ≡ h) × (b.complete ≡ true)
with_buffers-some mac rx none d h e = absurd (cc e)
with_buffers-some mac rx (some b) d h e = elim (Bool-cases b.complete) [
  | inl c ↦
      let r : some (made mac rx b) ≡ some d =
        ap (λ (r : Option Device × Heap). r.0) (some-inj (rw c at e)) in
      let k : b.heap ≡ h = ap (λ (r : Option Device × Heap). r.1) (some-inj (rw c at e)) in
      (b, refl, some-inj r, k, c)
  | inr c ↦
      let bad : none ≡ some d = ap (λ (r : Option Device × Heap). r.0) (some-inj (rw c at e)) in
      absurd (cc bad)
]

module _ (base : ℕ) (at : IsBase base) (mac : List ℕ) (h h' : Heap) (ss : List Seg)
    (d : Device) where
  after_rx :
      (g : Heap) (rx : ℕ)
      → rx ≢ 0
      → IsHeap base h ss
      → kmalloc rx_buffer_size h ≡ some (rx, g)
      → with_buffers mac rx (alloc_buffers 4 tx_buffer_size g) ≡ some (some d, h')
      → Fresh base h h' d
  after_rx g rx ne v run rest =
      let (ss', w) = malloc-IsHeap base h g ss rx_buffer_size rx at v run in
      let (u, _, _) =
        kmalloc_sound base h ss at v rx_buffer_size (omega arith) g rx run (omega arith) ne in
      let (b, got, same, heap, whole) =
        with_buffers-some mac rx (alloc_buffers 4 tx_buffer_size g) d h' rest in
      let held =
        alloc_buffers-Held base at tx_buffer_size (omega arith) (omega arith) 4 g ss' b w got in
      let (u', apart) = held.live rx rx_buffer_size u in
      subst (λ (e : Device). Fresh base h h' e) same
        (subst (λ (k : Heap). Fresh base h k (made mac rx b)) heap
          (record {
            layout = held.layout;
            valid = held.valid;
            rx_present = ne;
            rx_used = u';
            four = length-alloc_buffers 4 tx_buffer_size g b got whole;
            tx_used = held.held;
            rx_apart = apart;
            counters = record { offset = omega arith; aligned = refl; slot = omega arith };
            live = λ p n w'.
                (held.live p n
                  (InUse-kmalloc base h at p n w' rx_buffer_size (omega arith) g rx run)).0;
          }))

  -- When a device is made on a well-formed heap, it has a receive buffer, whose pointer is not null,
  -- and exactly four transmit buffers; they are blocks of the heap in use, with room for their
  -- sizes, that share no byte; its counters are in range, and every block in use before is in use.
  pub new_device-Fresh : IsHeap base h ss → new_device mac h ≡ some (some d, h') → Fresh base h h' d
  unfolding new_device
  new_device-Fresh v run = elim (Option-cases (kmalloc rx_buffer_size h)) [
    | inl e ↦ absurd (cc (rw (e, new_device) at run))
    | inr ((rx, g), e) ↦ elim (Bool-cases (rx == 0)) [
      | inl z ↦
          let bad : none ≡ some d =
            ap (λ (r : Option Device × Heap). r.0) (some-inj (rw (e, new_device, z) at run)) in
          absurd (cc bad)
      | inr z ↦ after_rx g rx (not_==→ne rx 0 z) v e (rw (e, new_device, z) at run)
    ]
  ]
