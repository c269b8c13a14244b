-- ===== src/Heap/Linked.antt =====
-- The blocks that the next pointers of the headers lead to.
use shade_os.Base.{ℕ, ◌+◌, ◌<◌, ◌≡◌, ◌≢◌, refl, sym, ap, subst, ◌∙◌, List, [], ◌∷◌, ◌++◌, arith}
use shade_os.Heap.{Memory, Heap, Block, heap_size}
use shade_os.Heap.Layout.{Seg, span}
use shade_os.Heap.Chain.{Chain}
use shade_os.Heap.Valid.{IsBase, IsHeap}

-- From the header at `a` the next pointers lead to that at `b`.
pub data Linked (m : Memory) : ℕ → ℕ → Type 0 where
  same : {a : ℕ} → Linked m a a
  onward : {a b : ℕ} → (m a).next ≢ 0 → Linked m (m a).next b → Linked m a b

-- A place in a layout that starts at `a`.
abbrev pub Position : ℕ → ℕ → List Seg → Type 0
Position b a ss =
    (pre : List Seg) × (t : Seg) × (post : List Seg) × (ss ≡ pre ++ t ∷ post) × (b ≡ a + span pre)

-- A header that the list leads to is that of a block of the layout.
Linked-Position :
    (m : Memory) (stop prev a b : ℕ) (s : Seg) (ss : List Seg)
    → Chain m stop prev a (s ∷ ss)
    → Linked m a b
    → Position b a (s ∷ ss)
Linked-Position m stop prev a b s ss c same = ([], s, ss, refl, omega arith)
Linked-Position m stop prev a b s [] c (onward ne l) = absurd (ne (ap (λ (k : Block). k.next) c.0))
Linked-Position m stop prev a b s (s' ∷ ss) c (onward ne l) =
    let at : (m a).next ≡ a + 48 + s.size = ap (λ (k : Block). k.next) c.0 in
    let (pre, t, post, whole, place) =
      Linked-Position m stop a (a + 48 + s.size) b s' ss c.1
        (subst (λ (k : ℕ). Linked m k b) at l) in
    (s ∷ pre, t, post, ap (λ (l : List Seg). s ∷ l) whole, omega (arith, place))

pub IsHeap-Position :
    (base : ℕ) (h : Heap) (ss : List Seg) (b : ℕ)
    → IsHeap base h ss
    → IsBase base
    → Linked h.mem h.head b
    → Position b base ss
IsHeap-Position base h [] b v at l = absurd (omega (arith, v.chain))
IsHeap-Position base h (s ∷ ss) b v at l =
    Linked-Position h.mem (base + heap_size) 0 base b s ss v.chain
      (subst (λ (k : ℕ). Linked h.mem k b) v.head_at l)

-- Conversely the list leads to every block of the layout.
pub Position-Linked :
    (m : Memory) (stop prev a : ℕ) (pre : List Seg) (t : Seg) (post : List Seg)
    → 0 < a
    → Chain m stop prev a (pre ++ t ∷ post)
    → Linked m a (a + span pre)
Position-Linked m stop prev a [] t post gt c = subst (λ (k : ℕ). Linked m a k) (omega arith) same
Position-Linked m stop prev a (s ∷ []) t post gt c =
    let at : (m a).next ≡ a + span (s ∷ []) = ap (λ (k : Block). k.next) c.0 ∙ omega arith in
    onward (λ z. absurd (omega (arith, at, z)))
      (subst (λ (k : ℕ). Linked m k (a + span (s ∷ []))) (sym at) same)
Position-Linked m stop prev a (s ∷ s' ∷ pre) t post gt c =
    let at : (m a).next ≡ a + 48 + s.size = ap (λ (k : Block). k.next) c.0 in
    let rest = Position-Linked m stop a (a + 48 + s.size) (s' ∷ pre) t post (omega arith) c.1 in
    let place : a + 48 + s.size + span (s' ∷ pre) ≡ a + span (s ∷ s' ∷ pre) = omega arith in
    onward (λ z. absurd (omega (arith, at, z)))
      (subst (λ (k : ℕ). Linked m k (a + span (s ∷ s' ∷ pre))) (sym at)
        (subst (λ (k : ℕ). Linked m (a + 48 + s.size) k) place rest))
