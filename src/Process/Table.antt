-- ===== src/Process/Table.antt =====
-- The process table: identifiers are unique, and each operation changes one process only.
use mathlib.Core.Option
use shade_os.Base.{
  ℕ, ◌+◌, ◌%◌, ◌^◌, ◌<◌, ◌≡◌, refl, none, some, List, [], ◌∷◌, ◌++◌, arith, ◌==◌, if◌then◌else◌, ℤ,
  ap, ◌∙◌,
}
use shade_os.Process.{
  ProcessControlBlock, ProcessManager, PrivilegeLevel, kernel, user, new_manager, build_process,
  create_process, find_pid, get_process, update_pid, killed, terminate_process, set_current_process,
  rust_process_init,
}

-- Every identifier is below `n` and not 0, and no two processes share one.
abbrev pub Unique : ℕ → List ProcessControlBlock → Type 0
Unique n [] = Unit
Unique n (p ∷ ps) = (0 < p.pid) × (p.pid < n) × (find_pid p.pid ps ≡ none) × Unique n ps

pub record IsTable (m : ProcessManager) : Type 0 where
  pub unique : Unique m.next_pid m.processes
  pub next_pos : 0 < m.next_pid

find_pid-append :
    (q : ℕ) (ps : List ProcessControlBlock) (p : ProcessControlBlock)
    → find_pid p.pid ps ≡ none
    → find_pid q (ps ++ p ∷ []) ≡ (if p.pid == q then some p else find_pid q ps)
unfolding find_pid
find_pid-append q [] p h = refl
find_pid-append q (r ∷ ps) p h = ground (arith, find_pid-append q ps p)

find_pid-fresh : (n : ℕ) (ps : List ProcessControlBlock) → Unique n ps → find_pid n ps ≡ none
unfolding find_pid
find_pid-fresh n [] u = refl
find_pid-fresh n (p ∷ ps) u = ground (arith, find_pid-fresh n ps u.3)

Unique-append :
    (n n' : ℕ) (ps : List ProcessControlBlock) (p : ProcessControlBlock)
    → Unique n ps
    → 0 < n
    → n < n'
    → p.pid ≡ n
    → Unique n' (ps ++ p ∷ [])
unfolding find_pid
Unique-append n n' [] p u pos lt e = (omega arith, omega arith, refl, tt)
Unique-append n n' (r ∷ ps) p u pos lt e =
    let apart : find_pid p.pid ps ≡ none = rw e (find_pid-fresh n ps u.3) in
    (
      u.0,
      omega (arith, u.1),
      ground (arith, find_pid-append r.pid ps p apart, u.1, u.2),
      Unique-append n n' ps p u.3 pos lt e,
    )

build_process-pid : (pid parent : ℕ) (l : PrivilegeLevel) → (build_process pid parent l).pid ≡ pid
unfolding build_process
build_process-pid pid parent kernel = refl
build_process-pid pid parent user = refl

pub create_process-pid :
    (parent : ℕ) (level : PrivilegeLevel) (m : ProcessManager)
    → (create_process parent level m).1 ≡ m.next_pid
unfolding create_process
create_process-pid parent level m = refl

module _ (m : ProcessManager) (t : IsTable m) (parent : ℕ) (level : PrivilegeLevel) where
  -- While identifiers last, creating a process keeps the identifiers unique and not 0.
  pub create_process-IsTable : m.next_pid + 1 < 2 ^ 32 → IsTable (create_process parent level m).0
  unfolding create_process
  create_process-IsTable lim =
      let e : (m.next_pid + 1) % 2 ^ 32 ≡ m.next_pid + 1 = omega arith in
      record {
        unique = rw e (
            Unique-append m.next_pid (m.next_pid + 1) m.processes _ t.unique t.next_pos
              (omega arith) (build_process-pid m.next_pid parent level));
        next_pos = rw e (omega arith);
      }

  -- The new process is found under the identifier returned, and every other identifier finds what
  -- it found before.
  pub get_process-create_process :
      (q : ℕ)
      → get_process q (create_process parent level m).0 ≡ (
          if (create_process parent level m).1 == q
          then some (build_process (create_process parent level m).1 parent level)
          else get_process q m)
  unfolding create_process get_process
  get_process-create_process q =
      let p = build_process m.next_pid parent level in
      let e = build_process-pid m.next_pid parent level in
      find_pid-append q m.processes p
        (ap (λ (n : ℕ). find_pid n m.processes) e ∙ find_pid-fresh m.next_pid m.processes t.unique)
      ∙ ap (λ (n : ℕ). if n == q then some p else find_pid q m.processes) e

find_pid-update :
    (q pid : ℕ) (status : ℤ) (ps : List ProcessControlBlock)
    → find_pid q (update_pid pid (killed status) ps)
      ≡ (if pid == q then Option.map (killed status) (find_pid pid ps) else find_pid q ps)
unfolding find_pid update_pid
find_pid-update q pid status [] = ground arith
find_pid-update q pid status (p ∷ ps) = ground (arith, find_pid-update q pid status ps)

-- Terminating a process marks it and stores its exit code, if it is there; every other identifier
-- finds what it found before.
pub get_process-terminate_process :
    (q pid : ℕ) (status : ℤ) (m : ProcessManager)
    → get_process q (terminate_process pid status m)
      ≡ (if pid == q then Option.map (killed status) (get_process pid m) else get_process q m)
unfolding terminate_process get_process
get_process-terminate_process q pid status m = find_pid-update q pid status m.processes

Unique-update :
    (n pid : ℕ) (status : ℤ) (ps : List ProcessControlBlock)
    → Unique n ps
    → Unique n (update_pid pid (killed status) ps)
unfolding update_pid find_pid
Unique-update n pid status [] u = tt
Unique-update n pid status (p ∷ ps) u =
    ground (arith, Unique-update n pid status ps u.3, find_pid-update p.pid pid status ps, u.2)

pub terminate_process-IsTable :
    (m : ProcessManager) (pid : ℕ) (status : ℤ)
    → IsTable m
    → IsTable (terminate_process pid status m)
unfolding terminate_process
terminate_process-IsTable m pid status t = record {
  unique = Unique-update m.next_pid pid status m.processes t.unique;
  next_pos = t.next_pos;
}

-- The operations of the manager, as its clients call them.
pub data Step : ProcessManager → ProcessManager → Type 0 where
  create :
      {m : ProcessManager} (parent : ℕ) (level : PrivilegeLevel)
      → m.next_pid + 1 < 2 ^ 32
      → Step m (create_process parent level m).0
  terminate : {m : ProcessManager} (pid : ℕ) (status : ℤ) → Step m (terminate_process pid status m)
  set_current : {m : ProcessManager} (pid : ℕ) → Step m (set_current_process pid m)

pub data Reach : ProcessManager → Type 0 where
  init : Reach rust_process_init
  next : {m m' : ProcessManager} → Reach m → Step m m' → Reach m'

Step-IsTable : {m m' : ProcessManager} → Step m m' → IsTable m → IsTable m'
unfolding set_current_process
Step-IsTable (create {m} parent level lim) t = create_process-IsTable m t parent level lim
Step-IsTable (terminate {m} pid status) t = terminate_process-IsTable m pid status t
Step-IsTable (set_current {m} pid) t = record { unique = t.unique; next_pos = t.next_pos }

-- In every state reached from `rust_process_init`, while identifiers last, the identifiers in the
-- table are unique and neither 0 nor yet to be given out.
pub Reach-IsTable : {m : ProcessManager} → Reach m → IsTable m
unfolding rust_process_init set_current_process
Reach-IsTable init =
    let t =
      create_process-IsTable new_manager (record { unique = tt; next_pos = omega arith }) 0 kernel
        (omega arith) in
    record { unique = t.unique; next_pos = t.next_pos }
Reach-IsTable (next r s) = Step-IsTable s (Reach-IsTable r)
