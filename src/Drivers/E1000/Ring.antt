-- ===== src/Drivers/E1000/Ring.antt =====
-- The receive ring of the E1000 driver.
use shade_os.Base.{
  ℕ, zero, suc, ◌+◌, ◌*◌, ◌%◌, ◌≤◌, ◌<◌, ◌≡◌, ◌≢◌, refl, ap, sym, ◌∙◌, true, false, List, [], ◌∷◌,
  Option, some, arith, length, get_or, set, length-set, get_or-set_self, get_or-set_ne, Bool-cases,
  inl, inr,
}
use shade_os.Drivers.{out, slice}
use shade_os.Drivers.E1000.{num_desc, RxDescriptor, Device, no_rx, done, receive}

-- Both rings have their length, and both indices are in them.
pub record IsDevice (d : Device) : Type 0 where
  pub rx_size : length d.rx_ring ≡ num_desc
  pub tx_size : length d.tx_ring ≡ num_desc
  pub rx_index : d.rx_current < num_desc
  pub tx_index : d.tx_current < num_desc

pub receive-IsDevice : (d : Device) → IsDevice d → IsDevice (receive d).1
unfolding receive
receive-IsDevice d v = elim (Bool-cases (done (get_or d.rx_ring d.rx_current no_rx).rx_status)) [
  | inr e ↦ rw (e, receive) v
  | inl e ↦
      rw (e, receive)
        (record {
          rx_size = length-set d.rx_ring d.rx_current _ ∙ v.rx_size;
          tx_size = v.tx_size;
          rx_index = omega arith;
          tx_index = v.tx_index;
        })
]

-- From the index `c` on the ring holds the packets, each in a descriptor done and in its buffer of
-- 2048 bytes.
abbrev pub HoldsPackets : List RxDescriptor → ℕ → List (List ℕ) → Type 0
HoldsPackets ring c [] = Unit
HoldsPackets ring c (p ∷ ps) =
    (done (get_or ring c no_rx).rx_status ≡ true)
    × (slice (get_or ring c no_rx).rx_bytes 0 (get_or ring c no_rx).rx_length ≡ p)
    × ((get_or ring c no_rx).rx_length ≤ 2048)
    × HoldsPackets ring ((c + 1) % num_desc) ps

-- A change of a descriptor that none of the packets is in.
HoldsPackets-set :
    (ring : List RxDescriptor) (i c : ℕ) (x : RxDescriptor) (ps : List (List ℕ))
    → ((k : ℕ) → k < length ps → i ≢ (c + k) % num_desc)
    → c < num_desc
    → HoldsPackets ring c ps
    → HoldsPackets (set ring i x) c ps
HoldsPackets-set ring i c x [] ne lt h = tt
HoldsPackets-set ring i c x (p ∷ ps) ne lt h =
    let here : (c + 0) % num_desc ≡ c = omega arith in
    let other : i ≢ c = λ e. ne 0 (omega arith) (e ∙ sym here) in
    let same = get_or-set_ne ring i c x no_rx other in
    (
      rw same h.0,
      rw same h.1,
      rw same h.2,
      HoldsPackets-set ring i ((c + 1) % num_desc) x ps
          (λ k lt'.
            (let e : ((c + 1) % num_desc + k) % num_desc ≡ (c + suc k) % num_desc = omega arith in
              λ z. ne (suc k) (omega arith) (z ∙ e)))
          (omega arith) h.3,
    )

-- As many calls of `receive` as there are packets: what they return, and the device behind them.
abbrev pub receive_all : List (List ℕ) → Device → List (Option (List ℕ)) × Device
receive_all [] d = ([], d)
receive_all (p ∷ ps) d =
    let (got, d', _) = receive d in let (more, d'') = receive_all ps d' in (got ∷ more, d'')

abbrev pub somes : List (List ℕ) → List (Option (List ℕ))
somes [] = []
somes (p ∷ ps) = some p ∷ somes ps

-- The device behind a packet received.
abbrev taken : Device → Device
taken d = record d {
  rx_ring =
      set d.rx_ring d.rx_current (record (get_or d.rx_ring d.rx_current no_rx) { rx_status = 0 });
  rx_current = (d.rx_current + 1) % num_desc;
}

receive-taken :
    (d : Device) (p : List ℕ) (ps : List (List ℕ))
    → HoldsPackets d.rx_ring d.rx_current (p ∷ ps)
    → receive d ≡ (some p, taken d, out 0x2818 d.rx_current ∷ [])
unfolding receive
receive-taken d p ps h = rw (h.0, receive, h.1) refl

module _ (d : Device) (v : IsDevice d) where
  taken-IsDevice : IsDevice (taken d)
  taken-IsDevice = record {
    rx_size = length-set d.rx_ring d.rx_current _ ∙ v.rx_size;
    tx_size = v.tx_size;
    rx_index = omega arith;
    tx_index = v.tx_index;
  }

  -- The packets behind the one received are still there.
  taken-rest :
      (p : List ℕ) (ps : List (List ℕ))
      → length (p ∷ ps) ≤ num_desc
      → HoldsPackets d.rx_ring d.rx_current (p ∷ ps)
      → HoldsPackets (taken d).rx_ring (taken d).rx_current ps
  taken-rest p ps le h =
      HoldsPackets-set d.rx_ring d.rx_current ((d.rx_current + 1) % num_desc) _ ps
        (λ k lt. (λ z. absurd (omega (arith, z, v.rx_index, lt, le)))) (omega arith) h.3

-- The descriptors that hold none of the packets are left alone.
receive_all-other :
    (ps : List (List ℕ)) (d : Device) (i : ℕ)
    → IsDevice d
    → length ps ≤ num_desc
    → HoldsPackets d.rx_ring d.rx_current ps
    → ((k : ℕ)
        → k < length ps
        → d.rx_current + k < 2 * num_desc
        → (d.rx_current + k) % num_desc ≢ i)
    → get_or (receive_all ps d).1.rx_ring i no_rx ≡ get_or d.rx_ring i no_rx
receive_all-other [] d i v le h ne = refl
receive_all-other (p ∷ ps) d i v le h ne =
    let here : (d.rx_current + 0) % num_desc ≡ d.rx_current = omega (arith, v.rx_index) in
    rw (receive-taken d p ps h) (
      receive_all-other ps (taken d) i (taken-IsDevice d v) (omega (arith, le))
        (taken-rest d v p ps le h)
        (λ k lt lim.
          (let e : ((d.rx_current + 1) % num_desc + k) % num_desc
                ≡ (d.rx_current + suc k) % num_desc =
              omega arith in
            λ z. ne (suc k) (omega arith) (omega (arith, v.rx_index, le, lt)) (sym e ∙ z)))
      ∙ get_or-set_ne d.rx_ring d.rx_current i _ no_rx
          (λ z. ne 0 (omega arith) (omega (arith, v.rx_index)) (here ∙ z)))

-- At most 32 packets of at most 2048 bytes that stand in the ring from the current descriptor on are received in order, one
-- by each call. The index is then behind them, and their descriptors are no longer done, so that none
-- is received twice.
pub receive_all-HoldsPackets :
    (ps : List (List ℕ)) (d : Device)
    → IsDevice d
    → length ps ≤ num_desc
    → HoldsPackets d.rx_ring d.rx_current ps
    → ((receive_all ps d).0 ≡ somes ps)
      × ((receive_all ps d).1.rx_current ≡ (d.rx_current + length ps) % num_desc)
      × ((k : ℕ)
          → k < length ps
          → done
              (get_or (receive_all ps d).1.rx_ring ((d.rx_current + k) % num_desc) no_rx).rx_status
            ≡ false)
receive_all-HoldsPackets [] d v le h =
    (refl, omega (arith, v.rx_index), λ k lt. absurd (omega arith))
receive_all-HoldsPackets (p ∷ ps) d v le h =
    let one = receive-taken d p ps h in
    let rest = taken-rest d v p ps le h in
    let w = taken-IsDevice d v in
    let (got, at, cleared) = receive_all-HoldsPackets ps (taken d) w (omega (arith, le)) rest in
    (
      rw one (ap (λ (l : List (Option (List ℕ))). some p ∷ l) got),
      rw one (at ∙ omega arith),
      λ k lt. rw one (status k lt cleared w rest),
    )
  where
    status :
        (k : ℕ)
        → k < suc (length ps)
        → ((j : ℕ)
            → j < length ps
            → done
                (get_or
                  (receive_all ps (taken d)).1.rx_ring
                  (((taken d).rx_current + j) % num_desc)
                  no_rx).rx_status
              ≡ false)
        → IsDevice (taken d)
        → HoldsPackets (taken d).rx_ring (taken d).rx_current ps
        → done
            (get_or
              (receive_all ps (taken d)).1.rx_ring
              ((d.rx_current + k) % num_desc)
              no_rx).rx_status
          ≡ false
    status zero lt cleared w rest =
        let here : (d.rx_current + 0) % num_desc ≡ d.rx_current = omega (arith, v.rx_index) in
        let same =
          receive_all-other ps (taken d) d.rx_current w (omega (arith, le)) rest
            (λ k lt' lim. (λ z. absurd (omega (arith, z, v.rx_index, lt', le)))) in
        let self =
          get_or-set_self d.rx_ring d.rx_current
            (record (get_or d.rx_ring d.rx_current no_rx) { rx_status = 0 }) no_rx
            (omega (arith, v.rx_index, v.rx_size)) in
        rw (here, same ∙ self) refl
    status (suc k) lt cleared w rest =
        let e : (d.rx_current + suc k) % num_desc ≡ ((d.rx_current + 1) % num_desc + k) % num_desc =
          omega arith in
        rw e (cleared k (omega arith))
