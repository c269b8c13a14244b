-- ===== src/Elf/Load/Passes.antt =====
-- An executable that is loaded without an error: both passes came to their end, and the stack is there.
use shade_os.Base.{
  ℕ, zero, suc, ◌<◌, ◌≡◌, ◌≢◌, inl, inr, refl, ap, subst, ◌∙◌, List, Option, none, some, some-inj,
  arith, ltb, ◌==◌, Bool-cases, Option-cases, ℤ, pos, negsuc,
}
use shade_os.Heap.{Heap, add64, kmalloc}
use shade_os.Heap.Layout.{Seg}
use shade_os.Heap.Valid.{IsBase, IsHeap}
use shade_os.Heap.Reach.{outcome, InUse, kmalloc_sound}
use shade_os.Heap.Live.{InUse-kmalloc}
use shade_os.Elf.{Ehdr, Phdr, phdr_at}
use shade_os.Elf.Load.{
  Loader, phdr_addr, place_segment, load_segment, load_segments, link, stack_size, set_up_stack,
  load_parts,
}
use shade_os.Elf.Load.Segments.{Kept}

-- The codes that the second pass ends with are negative.
place_segment-negative :
    (buf : ℕ) (ph : Phdr) (s t : Loader) (o : Option (ℕ × Heap)) (c : ℤ)
    → place_segment buf ph s o ≡ some (t, some c)
    → c ≢ pos 0
unfolding place_segment
place_segment-negative buf ph s t none c run e = cc run
place_segment-negative buf ph s t (some (zero, h)) c run e =
    let same : negsuc 8 ≡ c = some-inj (ap (λ (r : Loader × Option ℤ). r.1) (some-inj run)) in
    cc (same, e)
place_segment-negative buf ph s t (some (suc p, h)) c run e =
    let same : none ≡ some c = ap (λ (r : Loader × Option ℤ). r.1) (some-inj run) in cc same

load_segment-negative :
    (buf n : ℕ) (ph : Phdr) (s t : Loader) (c : ℤ)
    → load_segment buf n ph s ≡ some (t, some c)
    → c ≢ pos 0
unfolding load_segment
load_segment-negative buf n ph s t c run e = elim (Bool-cases (ph.p_type == 1)) [
  | inr other ↦
      let same : none ≡ some c = ap (λ (r : Loader × Option ℤ). r.1) (some-inj (rw other at run)) in
      cc same
  | inl load ↦ elim (Bool-cases (ltb n (add64 ph.p_offset ph.p_filesz))) [
    | inl out ↦
        let same : negsuc 20 ≡ c =
          some-inj (ap (λ (r : Loader × Option ℤ). r.1) (some-inj (rw (load, out) at run))) in
        cc (same, e)
    | inr fine ↦
        place_segment-negative buf ph s t (kmalloc ph.p_memsz s.heap) c (rw (load, fine) at run) e
  ]
]

load_segments-negative :
    (buf n : ℕ) (e : Ehdr) (m i : ℕ) (s t : Loader) (c : ℤ)
    → load_segments buf n e m i s ≡ some (t, some c)
    → c ≢ pos 0
unfolding load_segments
load_segments-negative buf n e zero i s t c run z =
    let same : none ≡ some c = ap (λ (r : Loader × Option ℤ). r.1) (some-inj run) in cc same
load_segments-negative buf n e (suc m) i s t c run z =
    elim (Option-cases (load_segment buf n (phdr_at s.ram (phdr_addr buf e i)) s)) [
      | inl h ↦ cc (rw (h, load_segments) at run)
      | inr ((u, none), h) ↦
          load_segments-negative buf n e m (suc i) u t c (rw (h, load_segments) at run) z
      | inr ((u, some d), h) ↦
          load_segment-negative buf n (phdr_at s.ram (phdr_addr buf e i)) s u d h (
            some-inj (ap (λ (r : Loader × Option ℤ). r.1) (some-inj (rw (h, load_segments) at run)))
            ∙ z)
    ]

-- An executable whose loading ended without an error went through both passes.
pub record Passes (fuel buf n : ℕ) (e : Ehdr) (s s' : Loader) : Type 0 where
  pub mapped : Loader
  pub second : load_segments buf n e e.e_phnum 0 s ≡ some (mapped, none)
  pub last : set_up_stack mapped ≡ some (pos 0, s')

-- Relocations are for shared objects.
link-executable :
    (fuel buf : ℕ) (e : Ehdr) (d : Option ℕ) (s : Loader)
    → e.e_type ≡ 2
    → link fuel buf e d s ≡ some s
unfolding link
link-executable fuel buf e none s h = refl
link-executable fuel buf e (some d) s h = rw h refl

pub load_parts-Passes :
    (fuel buf n : ℕ) (e : Ehdr) (d : Option ℕ) (s s' : Loader)
    → e.e_type ≡ 2
    → load_parts fuel buf n e d s ≡ some (pos 0, s')
    → Passes fuel buf n e s s'
unfolding load_parts
load_parts-Passes fuel buf n e d s s' kind run =
    elim (Option-cases (load_segments buf n e e.e_phnum 0 s)) [
      | inl k ↦ absurd (cc (rw (k, load_parts) at run))
      | inr ((t, some c), k) ↦ absurd (
          load_segments-negative buf n e e.e_phnum 0 s t c k
            (ap (λ (r : ℤ × Loader). r.0) (some-inj (rw (k, load_parts) at run))))
      | inr ((t, none), k) ↦ record {
        mapped = t;
        second = k;
        last = rw (k, load_parts, link-executable fuel buf e d t kind) at run;
      }
    ]

module _ (base : ℕ) (b : IsBase base) where
  -- The stack is a block of its own, and the rest stays as it was.
  pub set_up_stack-Kept :
      (s s' : Loader) (ss : List Seg)
      → IsHeap base s.heap ss
      → set_up_stack s ≡ some (pos 0, s')
      → Kept base s s' × ((p : ℕ) × InUse base s'.heap p stack_size)
  unfolding set_up_stack
  set_up_stack-Kept s s' ss v run = elim (Option-cases (kmalloc stack_size s.heap)) [
    | inl h ↦ absurd (cc (rw (h, set_up_stack) at run))
    | inr ((zero, h'), h) ↦
        let bad : negsuc 9 ≡ pos 0 =
          ap (λ (r : ℤ × Loader). r.0) (some-inj (rw (h, set_up_stack) at run)) in
        absurd (cc bad)
    | inr ((suc p, h'), h) ↦
        let same : record s { heap = h' } ≡ s' =
          ap (λ (r : ℤ × Loader). r.1) (some-inj (rw (h, set_up_stack) at run)) in
        let more : 0 < stack_size = omega arith in
        subst (λ (t : Loader). Kept base s t × ((p : ℕ) × InUse base t.heap p stack_size)) same
          (
            record {
              layout = _;
              valid = (outcome base s.heap ss b v stack_size more h' (suc p) h).1;
              live = λ q n u.
                  (InUse-kmalloc base s.heap b q n u stack_size more h' (suc p) h, λ x lo hi. refl);
              outside = λ x o. refl;
            },
            (
              suc p,
              (kmalloc_sound base s.heap ss b v stack_size more h' (suc p) h (omega arith)
                  (λ z. absurd (omega (arith, z)))).0,
            ),
          )
  ]
