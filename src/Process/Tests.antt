-- ===== src/Process/Tests.antt =====
-- Runs of the process manager, and the theorems at them.
use shade_os.Base.{
  ◌≤◌, ◌<◌, ◌≡◌, ◌⊎◌, ◌↔◌, refl, true, false, some, [], ◌∷◌, arith, ◌==◌, if◌then◌else◌, pos, map,
}
use shade_os.Process.{
  ProcessManager, user, build_process, create_process, get_process, terminate_process,
  rust_process_init, check_memory_access, rust_process_check_access, rust_process_get_current_pid,
}
use shade_os.Process.Table.{
  IsTable, init, next, create, terminate, Reach-IsTable, get_process-create_process,
}
use shade_os.Process.Access.{user_access}

abbrev booted : ProcessManager
booted = rust_process_init

abbrev forked : ProcessManager
forked = (create_process 1 user booted).0

booted-current : rust_process_get_current_pid (some booted) ≡ 1
unfolding rust_process_get_current_pid rust_process_init
booted-current = refl

forked-pids : map (λ p. p.pid) forked.processes ≡ 1 ∷ 2 ∷ []
unfolding rust_process_init create_process
forked-pids = refl

-- The child may write to its data region, and may not write to its code.
forked-access :
    (rust_process_check_access 2 0x0080_0000 2 (some forked) ≡ true)
    × (rust_process_check_access 2 0x0040_0000 2 (some forked) ≡ false)
unfolding rust_process_check_access get_process check_memory_access rust_process_init create_process
forked-access = (refl, refl)

booted-IsTable : IsTable booted
booted-IsTable = Reach-IsTable init

next_pid-booted : booted.next_pid < 100
unfolding rust_process_init create_process
next_pid-booted = omega arith

Reach-IsTable_example : IsTable (terminate_process 2 (pos 9) forked)
Reach-IsTable_example =
    Reach-IsTable
      (next (next init (create 1 user (omega (arith, next_pid-booted)))) (terminate 2 (pos 9)))

get_process-create_process_example : get_process 2 forked ≡ (
    if (create_process 1 user booted).1 == 2
    then some (build_process (create_process 1 user booted).1 1 user)
    else get_process 2 booted)
get_process-create_process_example = get_process-create_process booted booted-IsTable 1 user 2

user_access_example :
    ((check_memory_access (build_process 2 1 user) 0x0090_0000 2 ≡ true) ↔ (
      (0x0080_0000 ≤ 0x0090_0000) × (0x0090_0000 < 0x00C0_0000)
      ⊎ (0x7FFF_FFF0_0000 ≤ 0x0090_0000) × (0x0090_0000 < 0x8000_0000_0000)))
    × ((check_memory_access (build_process 2 1 user) 0x0090_0000 4 ≡ true)
        ↔ ((0x0040_0000 ≤ 0x0090_0000) × (0x0090_0000 < 0x0080_0000)))
    × ((check_memory_access (build_process 2 1 user) 0x0090_0000 1 ≡ true) ↔ (
        (0x0040_0000 ≤ 0x0090_0000) × (0x0090_0000 < 0x00C0_0000)
        ⊎ (0x7FFF_FFF0_0000 ≤ 0x0090_0000) × (0x0090_0000 < 0x8000_0000_0000)))
user_access_example = user_access 2 1 0x0090_0000
