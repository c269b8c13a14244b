-- ===== src/Syscalls/Processes.antt =====
-- The system calls on processes.
use mathlib.Core.Option
use shade_os.Base.{
  ℕ, zero, suc, ◌<◌, ◌^◌, ◌≡◌, refl, ap, ◌∙◌, subst, false, Option, some, if◌then◌else◌, ℤ, pos,
  ◌==◌, ne→not_==, ==_refl, Bool-cases, inl, inr, arith, lt→ltb, List, ◌%◌,
}
use shade_os.Process.{
  ProcessManager, user, build_process, create_process, terminate_process, killed, get_process,
  rust_process_create, rust_process_terminate, rust_process_get_current_pid,
}
use shade_os.Process.Table.{
  IsTable, create_process-pid, get_process-create_process, get_process-terminate_process,
}
use shade_os.Syscalls.{
  Machine, Reply, answers, sys_fork, kill_process, as_i32, run, fork, kill, enomem,
}

kill_process_pos :
    (m : Machine) (pid : ℕ) (sig : ℤ)
    → 0 < pid
    → kill_process m (pos pid) sig
      ≡ answers (record m { manager = rust_process_terminate pid sig m.manager }) (pos 0)
unfolding kill_process
kill_process_pos m zero sig h = absurd (omega arith)
kill_process_pos m (suc pid) sig h = refl

module _ (m : Machine) (mm : ProcessManager) (set_up : m.manager ≡ some mm)
    (table : IsTable mm) where
  abbrev parent : ℕ
  parent = rust_process_get_current_pid m.manager

  abbrev forked : ProcessManager
  forked = (create_process parent user mm).0

  sys_fork_lem : sys_fork m ≡ answers (record m { manager = some forked }) (pos mm.next_pid)
  unfolding sys_fork rust_process_create
  sys_fork_lem =
      ap
        (λ (o : Option ProcessManager).
          answers (record m { manager = (rust_process_create parent false o).0 })
            (if (rust_process_create parent false o).1 == 0
              then enomem
              else pos (rust_process_create parent false o).1))
        set_up
      ∙ rw
          (
            create_process-pid parent user mm,
            ne→not_== mm.next_pid 0 (omega (arith, table.next_pos)),
          )
          refl

  forked_finds :
      (q : ℕ)
      → get_process q forked ≡ (
          if mm.next_pid == q
          then some (build_process mm.next_pid parent user)
          else get_process q mm)
  forked_finds q =
      subst
        (λ (n : ℕ).
          get_process q forked
          ≡ (if n == q then some (build_process n parent user) else get_process q mm))
        (create_process-pid parent user mm) (get_process-create_process mm table parent user q)

  killed_finds :
      (sig : ℤ) (q : ℕ)
      → (if mm.next_pid == q
          then Option.map (killed sig) (get_process mm.next_pid forked)
          else get_process q forked)
        ≡ (if mm.next_pid == q
            then some (killed sig (build_process mm.next_pid parent user))
            else get_process q mm)
  killed_finds sig q = elim (Bool-cases (mm.next_pid == q)) [
    | inl e ↦
        let self : get_process mm.next_pid forked ≡ some (build_process mm.next_pid parent user) =
          rw (==_refl mm.next_pid) at (forked_finds mm.next_pid) in
        rw e (ap (Option.map (killed sig)) self)
    | inr e ↦ rw e (rw e at (forked_finds q))
  ]

  pid_i32 : mm.next_pid < 2 ^ 31 → as_i32 mm.next_pid ≡ pos mm.next_pid
  pid_i32 lt =
      let small : mm.next_pid % 2 ^ 32 ≡ mm.next_pid = omega (arith, lt) in
      rw (small, lt→ltb mm.next_pid (2 ^ 31) lt) refl

  -- In a well-formed table whose next identifier is below 2^31, `fork` answers with that identifier.
  -- Once `kill` is called with it in the register for the process, and with a signal, the identifier
  -- finds the block of a new user process of the caller's, terminated with the signal, as an i32, for
  -- exit code; all others find what they found before the `fork`.
  pub sys_kill-sys_fork :
      (string_at : ℕ → List ℕ) (a1 a2 a3 b3 sig : ℕ)
      → mm.next_pid < 2 ^ 31
      → ((run string_at fork a1 a2 a3 m).answer ≡ pos mm.next_pid)
        × (mm' : ProcessManager) × ((run string_at kill mm.next_pid sig b3
              (run string_at fork a1 a2 a3 m).machine).machine.manager
            ≡ some mm')
        × ((q : ℕ)
            → get_process q mm' ≡ (
                if mm.next_pid == q
                then some (killed (as_i32 sig) (build_process mm.next_pid parent user))
                else get_process q mm))
  unfolding run sys_fork
  sys_kill-sys_fork string_at a1 a2 a3 b3 sig lt = (
    ap (λ (r : Reply). r.answer) sys_fork_lem,
    terminate_process mm.next_pid (as_i32 sig) forked,
    ap (λ (r : Reply). (run string_at kill mm.next_pid sig b3 r.machine).machine.manager)
          sys_fork_lem
        ∙ ap
            (λ (z : ℤ).
              (kill_process (record m { manager = some forked }) z (as_i32 sig)).machine.manager)
            (pid_i32 lt)
        ∙ ap (λ (r : Reply). r.machine.manager)
            (kill_process_pos (record m { manager = some forked }) mm.next_pid (as_i32 sig)
              table.next_pos)
        ∙ (unfold rust_process_terminate in refl),
    λ q.
        get_process-terminate_process q mm.next_pid (as_i32 sig) forked
        ∙ killed_finds (as_i32 sig) q,
  )
