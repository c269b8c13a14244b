-- ===== src/Scheduler.antt =====
-- The scheduler tick, kernel-rs/src/scheduler.rs. The tasks are those of the ring of `next`
-- pointers in its order, the current task first; a null `current` is the empty ring. The switch
-- itself, `task_switch`, is assembly: its arguments are part of the result.
pub mod Choice
mod Tests
use shade_os.Base.{
  ℕ, suc, ◌-◌, ◌^◌, ◌≡◌, Bool, true, false, ◌&&◌, Option, none, some, List, [], ◌∷◌, ◌++◌, ltb,
  ◌==◌, if◌then◌else◌, get_elem?, take, drop, ℤ, pos, negsuc,
}

-- What the tick reads of a task; the priority is a u8, which it widens.
pub record Task : Type 0 where
  pub state : ℕ
  pub priority : ℕ
  pub rsp : ℕ

abbrev pub task_ready : ℕ
task_ready = 1

abbrev pub i32_max : ℕ
i32_max = 2 ^ 31 - 1

-- The best task so far, by its place in the ring, and its priority.
pub record Best : Type 0 where
  pub place : Option ℕ
  pub priority : ℕ

abbrev pub better : Task → Best → Bool
better t b = (t.state == task_ready) && ltb t.priority b.priority

-- The loop, from place `i` on.
pub search_best : List Task → ℕ → Best → Best
search_best [] i b = b
search_best (t ∷ ts) i b =
    search_best ts (suc i)
      (if better t b then record { place = some i; priority = t.priority } else b)

abbrev pub no_best : Best
no_best = record { place = none; priority = i32_max }

-- The task that the loop finds.
pub choose : List Task → Option ℕ
choose ring = (search_best ring 0 no_best).place

-- The ring with another current task.
abbrev pub rotate : ℕ → List Task → List Task
rotate i ring = drop i ring ++ take i ring

-- The switch, unless the best task is none or the current one: the new ring, and the place of the
-- task switched to.
abbrev pub switch_to : Option ℕ → List Task → List Task × Option ℕ
switch_to none ring = (ring, none)
switch_to (some i) ring = if i == 0 then (ring, none) else (rotate i ring, some i)

pub rust_scheduler_tick : List Task → List Task × Option ℕ
rust_scheduler_tick [] = ([], none)
rust_scheduler_tick (t ∷ ts) = switch_to (choose (t ∷ ts)) (t ∷ ts)
