-- ===== src/Heap/Fit.antt =====
-- What first fit chooses, what it leaves, and that joining free blocks undoes it.
use shade_os.Base.{
  ℕ, ◌+◌, ◌-◌, ◌≤◌, ◌<◌, ◌≡◌, ◌≢◌, refl, sym, ap, ◌∙◌, Bool, true, false, ◌&&◌, List, [], ◌∷◌, ◌++◌,
  arith, ltb, leb, if◌then◌else◌, Bool-cases, inl, inr,
}
use shade_os.Heap.Layout.{
  Seg, seg, span, alloc, push, coalesce, coalesce-of_tidy, IsTidy, starts_free,
}

-- The block `s`, taken for `n` bytes: split if the rest holds more than a header.
abbrev pub taken : ℕ → Seg → Seg
taken n s = if ltb (n + 48) s.size then seg n false else seg s.size false

abbrev pub left_over : ℕ → Seg → List Seg → List Seg
left_over n s post = if ltb (n + 48) s.size then seg (s.size - n - 48) true ∷ post else post

-- No free block of these holds `n` bytes.
abbrev pub NoFit : ℕ → List Seg → Type 0
NoFit n [] = Unit
NoFit n (s ∷ ss) = ((s.free && leb n s.size) ≡ false) × NoFit n ss

-- How `ss` splits around the first block that fits, and what `alloc` makes of it.
pub record Fits (n a : ℕ) (ss : List Seg) : Type 0 where
  pub pre : List Seg
  pub chosen : Seg
  pub post : List Seg
  pub whole : ss ≡ pre ++ chosen ∷ post
  pub before : NoFit n pre
  pub free : chosen.free ≡ true
  pub room : n ≤ chosen.size
  pub pointer : (alloc n a ss).0 ≡ a + span pre + 48
  pub after : (alloc n a ss).1 ≡ pre ++ taken n chosen ∷ left_over n chosen post

pub alloc-Fits : (n a : ℕ) (ss : List Seg) → 0 < a → (alloc n a ss).0 ≢ 0 → Fits n a ss
unfolding alloc
alloc-Fits n a [] pos h = absurd (h refl)
alloc-Fits n a (s ∷ ss) pos h = elim (Bool-cases (s.free && leb n s.size)) [
  | inl hit ↦ record {
    pre = [];
    chosen = s;
    post = ss;
    whole = refl;
    before = tt;
    free = ground arith;
    room = ground arith;
    pointer = rw hit (omega arith);
    after = rw hit (ground arith);
  }
  | inr miss ↦
      let h' : (alloc n (a + 48 + s.size) ss).0 ≢ 0 = rw miss at h in
      let f = alloc-Fits n (a + 48 + s.size) ss (omega arith) h' in
      record {
        pre = s ∷ f.pre;
        chosen = f.chosen;
        post = f.post;
        whole = ap (λ (l : List Seg). s ∷ l) f.whole;
        before = (miss, f.before);
        free = f.free;
        room = f.room;
        pointer = rw miss (f.pointer ∙ omega arith);
        after = rw miss (ap (λ (l : List Seg). s ∷ l) f.after);
      }
]

pub alloc-NoFit : (n a : ℕ) (ss : List Seg) → 0 < a → (alloc n a ss).0 ≡ 0 → NoFit n ss
unfolding alloc
alloc-NoFit n a [] pos h = tt
alloc-NoFit n a (s ∷ ss) pos h = elim (Bool-cases (s.free && leb n s.size)) [
  | inl hit ↦ absurd (ground arith)
  | inr miss ↦ (miss, alloc-NoFit n (a + 48 + s.size) ss (omega arith) (rw miss at h))
]

pub NoFit-alloc :
    (n a : ℕ) (ss : List Seg) → NoFit n ss → ((alloc n a ss).0 ≡ 0) × ((alloc n a ss).1 ≡ ss)
unfolding alloc
NoFit-alloc n a [] f = (refl, refl)
NoFit-alloc n a (s ∷ ss) f =
    let (e, e') = NoFit-alloc n (a + 48 + s.size) ss f.1 in
    rw f.0 (e, ap (λ (l : List Seg). s ∷ l) e')

coalesce-append :
    (pre ss ts : List Seg) → coalesce ss ≡ coalesce ts → coalesce (pre ++ ss) ≡ coalesce (pre ++ ts)
unfolding coalesce
coalesce-append [] ss ts e = e
coalesce-append (s ∷ pre) ss ts e = ap (push s) (coalesce-append pre ss ts e)

IsTidy-drop : (pre ss : List Seg) → IsTidy (pre ++ ss) → IsTidy ss
IsTidy-drop [] ss t = t
IsTidy-drop (s ∷ pre) ss t = IsTidy-drop pre ss t.2

push-alone :
    (s : Seg) (n : ℕ) (b : Bool) (post : List Seg)
    → s.size ≡ n
    → s.free ≡ b
    → starts_free post ≡ false
    → push (seg n b) post ≡ s ∷ post
push-alone s n b [] e f h = ground arith
push-alone s n b (u ∷ post) e f h = ground arith

push-push :
    (n r : ℕ) (s : Seg) (post : List Seg)
    → s.free ≡ true
    → n + 48 + r ≡ s.size
    → starts_free post ≡ false
    → push (seg n true) (push (seg r true) post) ≡ s ∷ post
push-push n r s [] f e h = ground arith
push-push n r s (u ∷ post) f e h = ground arith

-- A block split for `n` bytes is whole again once both parts are free.
rejoin :
    (n : ℕ) (s : Seg) (post : List Seg)
    → s.free ≡ true
    → n ≤ s.size
    → IsTidy (s ∷ post)
    → coalesce (seg (taken n s).size true ∷ left_over n s post) ≡ coalesce (s ∷ post)
unfolding coalesce
rejoin n s post f r t = elim (Bool-cases (ltb (n + 48) s.size)) [
  | inl big ↦
      rw (big, coalesce-of_tidy post t.2)
        (push-push n (s.size - n - 48) s post f (ground arith) (ground arith)
          ∙ sym (push-alone s s.size s.free post refl refl (ground arith)))
  | inr small ↦
      rw (small, coalesce-of_tidy post t.2)
        (push-alone s s.size true post refl f (ground arith)
          ∙ sym (push-alone s s.size s.free post refl refl (ground arith)))
]

pub alloc-coalesce :
    (n : ℕ) (pre : List Seg) (s : Seg) (post : List Seg)
    → s.free ≡ true
    → n ≤ s.size
    → IsTidy (pre ++ s ∷ post)
    → coalesce (pre ++ seg (taken n s).size true ∷ left_over n s post) ≡ pre ++ s ∷ post
alloc-coalesce n pre s post f r t =
    coalesce-append pre _ (s ∷ post) (rejoin n s post f r (IsTidy-drop pre (s ∷ post) t))
    ∙ coalesce-of_tidy (pre ++ s ∷ post) t
