-- ===== src/Scheduler/Tests.antt =====
-- Runs of the scheduler tick, and the theorems at them.
use shade_os.Base.{
  ℕ, zero, suc, ◌<◌, ◌≡◌, refl, subst, ap, none, some, some-inj, List, [], ◌∷◌, arith,
}
use shade_os.Scheduler.{Task, choose, search_best, rust_scheduler_tick}
use shade_os.Scheduler.Choice.{
  AreBytes, IsLeast, Ticked, rust_scheduler_tick-Ticked, rust_scheduler_tick_keeps,
}

abbrev task : ℕ → ℕ → ℕ → Task
task state priority rsp = record { state = state; priority = priority; rsp = rsp }

-- The current task, one of the same priority, one that is not ready, and one more urgent.
abbrev three : List Task
three = task 1 5 100 ∷ task 1 5 200 ∷ task 0 1 300 ∷ []

abbrev four : List Task
four = task 1 5 100 ∷ task 1 5 200 ∷ task 0 1 300 ∷ task 1 2 400 ∷ []

stays : (rust_scheduler_tick three).1 ≡ none
unfolding rust_scheduler_tick choose search_best
stays = refl

switches : (rust_scheduler_tick four).1 ≡ some 3
unfolding rust_scheduler_tick choose search_best
switches = refl

byte : (t u : Task) → some t ≡ some u → t.priority < 256 → u.priority < 256
byte t u e h = subst (λ (x : Task). x.priority < 256) (some-inj e) h

four-AreBytes : AreBytes four
four-AreBytes zero u e = byte (task 1 5 100) u e (omega arith)
four-AreBytes (suc zero) u e = byte (task 1 5 200) u e (omega arith)
four-AreBytes (suc (suc zero)) u e = byte (task 0 1 300) u e (omega arith)
four-AreBytes (suc (suc (suc zero))) u e = byte (task 1 2 400) u e (omega arith)
four-AreBytes (suc (suc (suc (suc j)))) u e = absurd (cc e)

three-AreBytes : AreBytes three
three-AreBytes zero u e = four-AreBytes 0 u e
three-AreBytes (suc zero) u e = four-AreBytes 1 u e
three-AreBytes (suc (suc zero)) u e = four-AreBytes 2 u e
three-AreBytes (suc (suc (suc j))) u e = absurd (cc e)

three-IsLeast : IsLeast three 5
three-IsLeast zero u e ready = omega (arith, ap (λ (x : Task). x.priority) (some-inj e))
three-IsLeast (suc zero) u e ready = omega (arith, ap (λ (x : Task). x.priority) (some-inj e))
three-IsLeast (suc (suc zero)) u e ready =
    absurd (omega (arith, ap (λ (x : Task). x.state) (some-inj e), ready))
three-IsLeast (suc (suc (suc j))) u e ready = absurd (cc e)

rust_scheduler_tick-Ticked_example : Ticked four (rust_scheduler_tick four)
rust_scheduler_tick-Ticked_example = rust_scheduler_tick-Ticked four four-AreBytes

rust_scheduler_tick_keeps_example : rust_scheduler_tick three ≡ (three, none)
rust_scheduler_tick_keeps_example =
    rust_scheduler_tick_keeps (task 1 5 100) (task 1 5 200 ∷ task 0 1 300 ∷ []) three-AreBytes refl
      three-IsLeast
