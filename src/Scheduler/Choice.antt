-- ===== src/Scheduler/Choice.antt =====
-- Which task the tick picks.
use shade_os.Base.{
  ℕ, zero, suc, ◌+◌, ◌<◌, ◌≤◌, ◌≡◌, ◌≢◌, refl, sym, ap, ◌∙◌, subst, true, false, Option, none, some,
  some-inj, List, [], ◌∷◌, ◌++◌, arith, get_elem?, take, drop, Bool-cases, ◌⊎◌, inl, inr, ne→not_==,
}
use shade_os.Scheduler.{
  Task, Best, task_ready, i32_max, better, search_best, no_best, choose, rotate, switch_to,
  rust_scheduler_tick,
}

-- Every ready task among the first `n` has a priority number above `p`.
abbrev pub AllAbove : List Task → ℕ → ℕ → Type 0
AllAbove ts n p =
    (j : ℕ) (u : Task) → j < n → get_elem? ts j ≡ some u → u.state ≡ task_ready → p < u.priority

-- The best is a ready task of these, the first of its priority, below a limit; `i` is the place of
-- the first.
pub record Picked (ts : List Task) (i limit : ℕ) (r : Best) : Type 0 where
  pub offset : ℕ
  pub task : Task
  pub found : get_elem? ts offset ≡ some task
  pub ready : task.state ≡ task_ready
  pub placed : r.place ≡ some (i + offset)
  pub same : r.priority ≡ task.priority
  pub less : r.priority < limit
  pub before : AllAbove ts offset r.priority

-- What a search over the tasks from place `i` on makes of the best before it.
record Found (ts : List Task) (i : ℕ) (b r : Best) : Type 0 where
  least : r.priority ≤ b.priority
  all :
      (j : ℕ) (u : Task) → get_elem? ts j ≡ some u → u.state ≡ task_ready → r.priority ≤ u.priority
  from : (r ≡ b) ⊎ Picked ts i b.priority r

better_lt :
    (t : Task) (b : Best) → better t b ≡ true → (t.state ≡ task_ready) × (t.priority < b.priority)
better_lt t b h = (ground arith, ground arith)

not_better_le :
    (t u : Task) (b : Best)
    → better t b ≡ false
    → some t ≡ some u
    → u.state ≡ task_ready
    → b.priority ≤ u.priority
not_better_le t u b h e ready =
    let same : t ≡ u = some-inj e in
    let h' : better u b ≡ false = subst (λ (x : Task). better x b ≡ false) same h in ground arith

-- A task that is not above in front of those that are.
AllAbove-cons :
    (t : Task) (ts : List Task) (n p : ℕ)
    → (t.state ≡ task_ready → p < t.priority)
    → AllAbove ts n p
    → AllAbove (t ∷ ts) (suc n) p
AllAbove-cons t ts n p first rest zero u h e ready =
    let same : t ≡ u = some-inj e in
    subst (λ (x : Task). p < x.priority) same (first (ap (λ (x : Task). x.state) same ∙ ready))
AllAbove-cons t ts n p first rest (suc j) u h e ready = rest j u (omega arith) e ready

module _ (t : Task) (ts : List Task) (i : ℕ) (b r : Best) where
  later :
      (p : Picked ts (suc i) b.priority r)
      → (t.state ≡ task_ready → r.priority < t.priority)
      → Picked (t ∷ ts) i b.priority r
  later p first = record {
    offset = suc p.offset;
    task = p.task;
    found = p.found;
    ready = p.ready;
    placed = p.placed ∙ ap some (omega arith);
    same = p.same;
    less = p.less;
    before = AllAbove-cons t ts p.offset r.priority first p.before;
  }

  -- The task is the best so far, and the search goes on from it.
  took :
      better t b ≡ true
      → Found ts (suc i) (record { place = some i; priority = t.priority }) r
      → Found (t ∷ ts) i b r
  took h f =
      let (ready, lt) = better_lt t b h in
      record { least = omega (arith, lt, f.least); all = all'; from = go ready lt f.from }
    where
      all' :
          (j : ℕ) (u : Task)
          → get_elem? (t ∷ ts) j ≡ some u
          → u.state ≡ task_ready
          → r.priority ≤ u.priority
      all' zero u e ready = subst (λ (x : Task). r.priority ≤ x.priority) (some-inj e) f.least
      all' (suc j) u e ready = f.all j u e ready

      go :
          t.state ≡ task_ready
          → t.priority < b.priority
          → (r ≡ record { place = some i; priority = t.priority }) ⊎ Picked ts (suc i) t.priority r
          → (r ≡ b) ⊎ Picked (t ∷ ts) i b.priority r
      go ready lt (inl e) =
          let same' : r.priority ≡ t.priority = ap (λ (x : Best). x.priority) e in
          inr (record {
            offset = 0;
            task = t;
            found = refl;
            ready = ready;
            placed = ap (λ (x : Best). x.place) e ∙ ap some (omega arith);
            same = same';
            less = omega (arith, lt, same');
            before = λ j u h. absurd (omega (arith, h));
          })
      go ready lt (inr p) = inr (
          later
            (record {
              offset = p.offset;
              task = p.task;
              found = p.found;
              ready = p.ready;
              placed = p.placed;
              same = p.same;
              less = omega (arith, lt, p.less);
              before = p.before;
            })
            (λ _. p.less))

  -- The task is not better, and the search goes on.
  kept : better t b ≡ false → Found ts (suc i) b r → Found (t ∷ ts) i b r
  kept h f = record { least = f.least; all = all'; from = go f.from }
    where
      all' :
          (j : ℕ) (u : Task)
          → get_elem? (t ∷ ts) j ≡ some u
          → u.state ≡ task_ready
          → r.priority ≤ u.priority
      all' zero u e ready = omega (arith, not_better_le t u b h e ready, f.least)
      all' (suc j) u e ready = f.all j u e ready

      go : (r ≡ b) ⊎ Picked ts (suc i) b.priority r → (r ≡ b) ⊎ Picked (t ∷ ts) i b.priority r
      go (inl e) = inl e
      go (inr p) = inr (later p (λ ready. omega (arith, p.less, not_better_le t t b h refl ready)))

search_best-Found : (ts : List Task) (i : ℕ) (b : Best) → Found ts i b (search_best ts i b)
unfolding search_best
search_best-Found [] i b = record {
  least = omega arith;
  all = λ j u h ready. absurd (cc h);
  from = inl refl;
}
search_best-Found (t ∷ ts) i b = elim (Bool-cases (better t b)) [
  | inl now ↦
      let next : Best = record { place = some i; priority = t.priority } in
      rw now (took t ts i b (search_best ts (suc i) next) now (search_best-Found ts (suc i) next))
  | inr not_now ↦
      rw not_now (kept t ts i b (search_best ts (suc i) b) not_now (search_best-Found ts (suc i) b))
]

-- Priorities are u8.
abbrev pub AreBytes : List Task → Type 0
AreBytes ring = (j : ℕ) (u : Task) → get_elem? ring j ≡ some u → u.priority < 256

-- No task of the ring has priority number below `p` and is ready.
abbrev pub IsLeast : List Task → ℕ → Type 0
IsLeast ring p =
    (j : ℕ) (u : Task) → get_elem? ring j ≡ some u → u.state ≡ task_ready → p ≤ u.priority

-- The place of the first ready task of the least priority number; none if no task is ready.
abbrev pub Chosen : List Task → Option ℕ → Type 0
Chosen ring none = (j : ℕ) (u : Task) → get_elem? ring j ≡ some u → u.state ≢ task_ready
Chosen ring (some i) =
    (t : Task) × (get_elem? ring i ≡ some t)
    × (t.state ≡ task_ready)
    × IsLeast ring t.priority
    × AllAbove ring i t.priority

-- The loop finds the first ready task of the least priority number, counted from the current task,
-- and none exactly if no task is ready.
pub choose-Chosen : (ring : List Task) → AreBytes ring → Chosen ring (choose ring)
unfolding choose
choose-Chosen ring bytes =
    let f = search_best-Found ring 0 no_best in go (search_best ring 0 no_best) f.all f.from
  where
    go :
        (r : Best)
        → IsLeast ring r.priority
        → (r ≡ no_best) ⊎ Picked ring 0 i32_max r
        → Chosen ring r.place
    go r all (inl e) =
        subst (λ (o : Option ℕ). Chosen ring o) (sym (ap (λ (x : Best). x.place) e))
          (λ j u h ready.
            omega (arith, bytes j u h, all j u h ready, ap (λ (x : Best). x.priority) e))
    go r all (inr p) =
        subst (λ (o : Option ℕ). Chosen ring o) (sym p.placed)
          (
            p.task,
            subst (λ (i : ℕ). get_elem? ring i ≡ some p.task) (omega arith) p.found,
            p.ready,
            subst (IsLeast ring) p.same all,
            subst (λ (i : ℕ). AllAbove ring i p.task.priority) (omega arith)
                (subst (AllAbove ring p.offset) p.same p.before),
          )

get_elem?-rotate :
    (i : ℕ) (ring : List Task) (t : Task)
    → get_elem? ring i ≡ some t
    → get_elem? (rotate i ring) 0 ≡ some t
get_elem?-rotate zero [] t h = absurd (cc h)
get_elem?-rotate zero (u ∷ ring) t h = h
get_elem?-rotate (suc i) [] t h = absurd (cc h)
get_elem?-rotate (suc i) (u ∷ ring) t h = drop_head i ring (u ∷ take i ring) t h
  where
    drop_head :
        (i : ℕ) (ring more : List Task) (t : Task)
        → get_elem? ring i ≡ some t
        → get_elem? (drop i ring ++ more) 0 ≡ some t
    drop_head zero [] more t h = absurd (cc h)
    drop_head zero (v ∷ ring) more t h = h
    drop_head (suc i) [] more t h = absurd (cc h)
    drop_head (suc i) (v ∷ ring) more t h = drop_head i ring more t h

-- After a tick either no task is ready and nothing was switched, or the current task is ready and
-- no ready task has a lower priority number.
abbrev pub Ticked : List Task → List Task × Option ℕ → Type 0
Ticked ring r =
    ((r ≡ (ring, none)) × Chosen ring none)
    ⊎ ((t : Task) × (get_elem? r.0 0 ≡ some t) × (t.state ≡ task_ready) × IsLeast ring t.priority)

switch_to-Ticked :
    (ring : List Task) (o : Option ℕ) → Chosen ring o → Ticked ring (switch_to o ring)
switch_to-Ticked ring none c = inl (refl, c)
switch_to-Ticked ring (some zero) c = inr (c.0, c.1, c.2, c.3)
switch_to-Ticked ring (some (suc i)) c =
    rw (ne→not_== (suc i) 0 (omega arith))
      (inr (c.0, get_elem?-rotate (suc i) ring c.0 c.1, c.2, c.3))

-- After a tick either no task was ready and nothing was switched, or the current task is ready and
-- no ready task has a lower priority number.
pub rust_scheduler_tick-Ticked :
    (ring : List Task) → AreBytes ring → Ticked ring (rust_scheduler_tick ring)
unfolding rust_scheduler_tick
rust_scheduler_tick-Ticked [] bytes = inl (refl, λ j u h. absurd (cc h))
rust_scheduler_tick-Ticked (t ∷ ts) bytes =
    switch_to-Ticked (t ∷ ts) (choose (t ∷ ts)) (choose-Chosen (t ∷ ts) bytes)

-- A current task that is ready keeps running while no ready task has a lower priority number, also
-- beside ready tasks of the same priority.
pub rust_scheduler_tick_keeps :
    (t : Task) (ts : List Task)
    → AreBytes (t ∷ ts)
    → t.state ≡ task_ready
    → IsLeast (t ∷ ts) t.priority
    → rust_scheduler_tick (t ∷ ts) ≡ (t ∷ ts, none)
unfolding rust_scheduler_tick
rust_scheduler_tick_keeps t ts bytes ready least =
    ap (λ (o : Option ℕ). switch_to o (t ∷ ts))
      (first (choose (t ∷ ts)) (choose-Chosen (t ∷ ts) bytes))
  where
    first : (o : Option ℕ) → Chosen (t ∷ ts) o → o ≡ some 0
    first none c = absurd (c 0 t refl ready)
    first (some zero) c = refl
    first (some (suc i)) c =
        absurd (omega (arith, c.4 0 t (omega arith) refl ready, least (suc i) c.0 c.1 c.2))
