-- ===== src/Elf/Load/Segments.antt =====
-- Where the segments of a file come to stand: each in a block of the heap of its own, with the bytes
-- of the file and zeros behind them.
use shade_os.Base.{
  ℕ, zero, suc, ◌+◌, ◌*◌, ◌^◌, ◌≤◌, ◌<◌, ◌≡◌, ◌≢◌, ◌⊎◌, inl, inr, refl, ap, subst, ◌∙◌, false, List,
  Option, none, some, some-inj, arith, ltb, ◌==◌, Bool-cases, Option-cases, ==→eq, not_==→ne, ℤ,
}
use shade_os.Heap.{Heap, heap_size, add64, kmalloc}
use shade_os.Heap.Layout.{Seg}
use shade_os.Heap.Valid.{IsBase, IsHeap}
use shade_os.Heap.Reach.{outcome, InUse, kmalloc_sound, kmalloc-zero}
use shade_os.Heap.Live.{InUse-kmalloc, kmalloc-apart}
use shade_os.Elf.{Ram, Ehdr, Phdr, phdr_at}
use shade_os.Elf.Load.{
  Loader, buf_size, phdr_addr, fill_segment, place_segment, load_segment, load_segments,
}
use shade_os.Elf.Bytes.{Same}
use shade_os.Elf.Load.Fill.{
  phdr_at-Same, IsFilled, IsSegment, fill_segment-data, fill_segment-bss, fill_segment-outside,
}

-- From `s` to `s'` the heap stays well formed, blocks in use stay and keep their bytes, and no byte
-- outside of the heap changes.
pub record Kept (base : ℕ) (s s' : Loader) : Type 0 where
  pub layout : List Seg
  pub valid : IsHeap base s'.heap layout
  pub live : (p n : ℕ) → InUse base s.heap p n → InUse base s'.heap p n × Same s.ram s'.ram p n
  pub outside : (x : ℕ) → (x < base) ⊎ (base + heap_size ≤ x) → s'.ram x ≡ s.ram x

Kept-refl : (base : ℕ) (s : Loader) (ss : List Seg) → IsHeap base s.heap ss → Kept base s s
Kept-refl base s ss v = record {
  layout = ss;
  valid = v;
  live = λ p n u. (u, λ x lo hi. refl);
  outside = λ x o. refl;
}

pub Kept-trans : (base : ℕ) (s t u : Loader) → Kept base s t → Kept base t u → Kept base s u
Kept-trans base s t u k l = record {
  layout = l.layout;
  valid = l.valid;
  live = λ p n a.
      (let (b, e) = k.live p n a in
        let (c, f) = l.live p n b in (c, λ x lo hi. f x lo hi ∙ e x lo hi));
  outside = λ x o. l.outside x o ∙ k.outside x o;
}

no_wrap : (a n lim : ℕ) → a + n < 2 ^ 64 → ltb lim (add64 a n) ≡ false → a + n ≤ lim
unfolding add64
no_wrap a n lim h t = ground arith

mul_lt : (j n k : ℕ) → j < n → j * k + k ≤ n * k
mul_lt zero zero k h = absurd (omega arith)
mul_lt zero (suc n) k h = omega arith
mul_lt (suc j) zero k h = absurd (omega arith)
mul_lt (suc j) (suc n) k h = omega (arith, mul_lt j n k (omega arith))

module _ (base buf read_len : ℕ) (b : IsBase base) where
  -- The block that the segment with the program header `ph` got, and what it holds.
  pub record Placed (file : Ram) (ph : Phdr) (s : Loader) : Type 0 where
    pub inside : ph.p_offset + ph.p_filesz ≤ read_len
    pub block : ℕ
    pub used : InUse base s.heap block ph.p_memsz
    pub filled : IsFilled file (add64 buf ph.p_offset) ph s.ram block

  pub Placed-Kept :
      (file : Ram) (ph : Phdr) (s s' : Loader)
      → ph.p_filesz ≤ ph.p_memsz
      → Kept base s s'
      → Placed file ph s
      → Placed file ph s'
  Placed-Kept file ph s s' fits k pl =
      let (u, same) = k.live pl.block ph.p_memsz pl.used in
      record {
        inside = pl.inside;
        block = pl.block;
        used = u;
        filled = record {
          copied = λ i h. same (pl.block + i) (omega arith) (omega arith) ∙ pl.filled.copied i h;
          bss = λ i lo hi. same (pl.block + i) (omega arith) (omega arith) ∙ pl.filled.bss i lo hi;
        };
      }

  module _ (ph : Phdr) (s : Loader) (ss : List Seg) (v : IsHeap base s.heap ss) where
    abbrev filled : ℕ → Heap → Loader
    filled p h = record s { ram = fill_segment s.ram buf ph p; heap = h }

    -- The pointer `p` that `kmalloc` answered with is the segment's.
    fill-Kept :
        (p : ℕ) (h : Heap)
        → IsSegment ph
        → ph.p_offset + ph.p_filesz ≤ read_len
        → 0 < ph.p_memsz
        → p ≢ 0
        → kmalloc ph.p_memsz s.heap ≡ some (p, h)
        → Kept base s (filled p h) × Placed s.ram ph (filled p h)
    fill-Kept p h seg le more ne run =
        let (u, _, stop) = kmalloc_sound base s.heap ss b v ph.p_memsz more h p run seg.size ne in
        let lim : p + ph.p_memsz < 2 ^ 64 = omega (arith, stop, b.fits) in
        (
          record {
            layout = _;
            valid = (outcome base s.heap ss b v ph.p_memsz more h p run).1;
            live = λ q n w. (
              InUse-kmalloc base s.heap b q n w ph.p_memsz more h p run,
              λ x lo hi. fill_segment-outside s.ram buf ph p seg.fits lim x (
                  ground
                    (arith, kmalloc-apart base s.heap b q n w ph.p_memsz more h p run seg.size ne)),
            );
            outside = λ x o.
                fill_segment-outside s.ram buf ph p seg.fits lim x (ground (arith, u.at, stop));
          },
          record {
            inside = le;
            block = p;
            used = u;
            filled = record {
              copied = fill_segment-data s.ram buf ph p seg.fits lim;
              bss = fill_segment-bss s.ram buf ph p seg.fits lim;
            };
          },
        )

    taken :
        (o : Option (ℕ × Heap)) (s' : Loader)
        → place_segment buf ph s o ≡ some (s', none)
        → (p : ℕ) × (h : Heap) × (o ≡ some (suc p, h)) × (filled (suc p) h ≡ s')
    unfolding place_segment
    taken none s' run = absurd (cc run)
    taken (some (zero, h)) s' run = absurd (cc run)
    taken (some (suc p, h)) s' run =
        (p, h, refl, ap (λ (r : Loader × Option ℤ). r.0) (some-inj run))

    -- A segment of no bytes gets no block.
    more : (p : ℕ) (h : Heap) → kmalloc ph.p_memsz s.heap ≡ some (suc p, h) → 0 < ph.p_memsz
    more p h run = elim (Bool-cases (ph.p_memsz == 0)) [
      | inl e ↦ let z : ph.p_memsz ≡ 0 = ==→eq _ _ e in absurd (cc (run, z, kmalloc-zero s.heap))
      | inr e ↦ ground (arith, not_==→ne _ _ e)
    ]

    -- A round that goes on.
    load_segment-Kept :
        (s' : Loader)
        → (ph.p_type ≡ 1 → IsSegment ph)
        → load_segment buf read_len ph s ≡ some (s', none)
        → Kept base s s' × (ph.p_type ≡ 1 → Placed s.ram ph s')
    unfolding load_segment
    load_segment-Kept s' ok run = elim (Bool-cases (ph.p_type == 1)) [
      | inr other ↦
          let e : s ≡ s' = ap (λ (r : Loader × Option ℤ). r.0) (some-inj (rw other at run)) in
          (
            subst (λ (t : Loader). Kept base s t) e (Kept-refl base s ss v),
            λ load. absurd (not_==→ne _ _ other load),
          )
      | inl load ↦ elim (Bool-cases (ltb read_len (add64 ph.p_offset ph.p_filesz))) [
        | inl out ↦ absurd (cc (rw (load, out) at run))
        | inr fine ↦
            let (p, h, e, same) = taken (kmalloc ph.p_memsz s.heap) s' (rw (load, fine) at run) in
            let seg = ok (==→eq _ _ load) in
            let le : ph.p_offset + ph.p_filesz ≤ read_len =
              no_wrap ph.p_offset ph.p_filesz read_len seg.end fine in
            let (k, pl) =
              fill-Kept (suc p) h seg le (more p h e) (λ z. absurd (omega (arith, z))) e in
            subst (λ (t : Loader). Kept base s t × (ph.p_type ≡ 1 → Placed s.ram ph t)) same
              (k, λ _. pl)
      ]
    ]

  -- The buffer on the stack is not part of the heap, and the table of program headers is inside it
  -- and has entries of the size of the structure.
  module _ (e : Ehdr) (stack : buf + buf_size ≤ base ⊎ base + heap_size ≤ buf)
      (top : buf + buf_size ≤ 2 ^ 64) (len : read_len ≤ buf_size) (entry : 56 ≤ e.e_phentsize)
      (table : e.e_phoff + e.e_phnum * e.e_phentsize ≤ buf_size) where
    abbrev phdr : Ram → ℕ → Phdr
    phdr ram j = phdr_at ram (phdr_addr buf e j)

    Kept-buf : (s s' : Loader) → Kept base s s' → Same s.ram s'.ram buf buf_size
    Kept-buf s s' k x lo hi = k.outside x (ground (arith, stack))

    phdr-in_buf :
        (j : ℕ)
        → j < e.e_phnum
        → (buf ≤ phdr_addr buf e j) × (phdr_addr buf e j + 56 ≤ buf + buf_size)
    unfolding add64
    phdr-in_buf j h = omega (arith, top, entry, table, mul_lt j e.e_phnum e.e_phentsize h)

    -- The program headers are read from the buffer.
    pub phdr-Same :
        (r r' : Ram) (j : ℕ) → Same r r' buf buf_size → j < e.e_phnum → phdr r' j ≡ phdr r j
    phdr-Same r r' j same h =
        let (lo, hi) = phdr-in_buf j h in
        phdr_at-Same r r' (phdr_addr buf e j)
          (λ x l r. same x (omega (arith, lo)) (omega (arith, hi)))

    phdr-Kept :
        (s s' : Loader) (j : ℕ) → Kept base s s' → j < e.e_phnum → phdr s'.ram j ≡ phdr s.ram j
    phdr-Kept s s' j k h = phdr-Same s.ram s'.ram j (Kept-buf s s' k) h

    pub src-in_buf :
        (ph : Phdr) (i : ℕ)
        → ph.p_offset + ph.p_filesz ≤ read_len
        → i < ph.p_filesz
        → (buf ≤ add64 buf ph.p_offset + i) × (add64 buf ph.p_offset + i < buf + buf_size)
    unfolding add64
    src-in_buf ph i le h = omega (arith, top, len)

    -- What was read from the buffer of a later memory was there from the start.
    Placed-file :
        (s t s' : Loader) (ph : Phdr) → Kept base s t → Placed t.ram ph s' → Placed s.ram ph s'
    Placed-file s t s' ph k pl = record {
      inside = pl.inside;
      block = pl.block;
      used = pl.used;
      filled = record {
        copied = λ i h.
            pl.filled.copied i h
            ∙ Kept-buf s t k (add64 buf ph.p_offset + i) (src-in_buf ph i pl.inside h).0
                (src-in_buf ph i pl.inside h).1;
        bss = pl.filled.bss;
      };
    }

    first :
        (n i : ℕ) (s s' : Loader)
        → load_segments buf read_len e (suc n) i s ≡ some (s', none)
        → (t : Loader) × (load_segment buf read_len (phdr s.ram i) s ≡ some (t, none))
          × (load_segments buf read_len e n (suc i) t ≡ some (s', none))
    unfolding load_segments
    first n i s s' run = elim (Option-cases (load_segment buf read_len (phdr s.ram i) s)) [
      | inl h ↦ absurd (cc (rw (h, load_segments) at run))
      | inr ((t, none), h) ↦ (t, h, rw (h, load_segments) at run)
      | inr ((t, some c), h) ↦ absurd (cc (rw (h, load_segments) at run))
    ]

    -- The second pass over the headers from the number `i` on, when it reaches its end: every
    -- segment to be loaded is placed, and stays as it was placed.
    pub load_segments-Placed :
        (n i : ℕ) (s s' : Loader) (ss : List Seg)
        → IsHeap base s.heap ss
        → i + n ≤ e.e_phnum
        → ((j : ℕ) → j < e.e_phnum → (phdr s.ram j).p_type ≡ 1 → IsSegment (phdr s.ram j))
        → load_segments buf read_len e n i s ≡ some (s', none)
        → Kept base s s'
          × ((j : ℕ)
              → i ≤ j
              → j < i + n
              → (phdr s.ram j).p_type ≡ 1
              → Placed s.ram (phdr s.ram j) s')
    unfolding load_segments
    load_segments-Placed zero i s s' ss v lim ok run =
        let same : s ≡ s' = ap (λ (r : Loader × Option ℤ). r.0) (some-inj run) in
        (
          subst (λ (t : Loader). Kept base s t) same (Kept-refl base s ss v),
          λ j lo hi. absurd (omega arith),
        )
    load_segments-Placed (suc n) i s s' ss v lim ok run =
        let (t, r, rest) = first n i s s' run in
        let lt : i < e.e_phnum = omega (arith, lim) in
        let (k, here) = load_segment-Kept (phdr s.ram i) s ss v t (ok i lt) r in
        let ok' : (j : ℕ) → j < e.e_phnum → (phdr t.ram j).p_type ≡ 1 → IsSegment (phdr t.ram j) =
          λ j h. rw (phdr-Kept s t j k h) (ok j h) in
        let (l, later) =
          load_segments-Placed n (suc i) t s' k.layout k.valid (omega arith) ok' rest in
        (
          Kept-trans base s t s' k l,
          λ j lo hi load. elim (Bool-cases (j == i)) [
            | inl h ↦
                let same : j ≡ i = ==→eq _ _ h in
                rw same (
                  Placed-Kept s.ram (phdr s.ram i) t s' (ok i lt (rw same at load)).fits l
                    (here (rw same at load)))
            | inr h ↦
                let ne = not_==→ne _ _ h in
                let p = phdr-Kept s t j k (omega (arith, lim)) in
                Placed-file s t s' (phdr s.ram j) k
                  (rw p at (later j (ground arith) (omega arith) (rw p load)))
          ],
        )
