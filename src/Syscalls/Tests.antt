-- ===== src/Syscalls/Tests.antt =====
-- Runs of system calls, and the theorems at them.
use shade_os.Base.{
  ℕ, ◌<◌, ◌≡◌, ◌^◌, ◌+◌, ap, ◌==◌, refl, some, some-inj, List, [], ◌∷◌, arith, if◌then◌else◌, pos,
}
use shade_os.Process.{
  ProcessManager, user, build_process, killed, get_process, set_current_process, rust_process_init,
  rust_process_get_current_pid, create_process,
}
use shade_os.Process.Table.{Reach-IsTable, init as initialised}
use shade_os.Vfs.{FileEntry, directory, init, new_directory}
use shade_os.Vfs.Files.{parts}
use shade_os.Vfs.Entries.{Refines, creates, deletes, paths}
use shade_os.Vfs.Tree.{IsTree}
use shade_os.Syscalls.{
  Machine, getcwd, run, reply, decode, rust_syscall_handler, as_i32, fork, kill, sys_mkdir,
  sys_unlink,
}
use shade_os.Syscalls.Panic.{handler_dispatches}
use shade_os.Syscalls.Frame.{Frame, run-Frame}
use shade_os.Syscalls.Files.{
  outcome, translated, mkdir_answer, unlink_answer, sys_mkdir-Refines, sys_unlink-Refines,
}
use shade_os.Syscalls.Processes.{sys_kill-sys_fork}
use shade_os.Syscalls.Reach.{booted, called, IsMachine, Reach-IsMachine}

-- After start-up; every address holds the string "/a".
abbrev start : Machine
start = record { manager = some rust_process_init; fs = init }

abbrev string_at : ℕ → List ℕ
string_at _ = b'/' ∷ b'a' ∷ []

abbrev slash_root : FileEntry
slash_root = new_directory (b'/' ∷ [])

start-pid : rust_process_get_current_pid start.manager ≡ 1
unfolding rust_process_get_current_pid rust_process_init set_current_process
start-pid = refl

run-Frame_example : Frame getcwd start (run string_at getcwd 4096 16 0 start)
run-Frame_example = run-Frame string_at getcwd 4096 16 0 start

init-slash : init ≡ some slash_root
unfolding init
init-slash = refl

slash_root-IsTree : IsTree slash_root
unfolding IsTree
slash_root-IsTree = tt

sys_mkdir-Refines_example :
    Refines (outcome (sys_mkdir string_at start 4096)) (
      translated mkdir_answer
        (creates directory (parts (some (string_at 4096))) (paths slash_root)))
sys_mkdir-Refines_example =
    sys_mkdir-Refines string_at start 4096 slash_root init-slash (omega arith)

sys_unlink-Refines_example :
    Refines
      (outcome (sys_unlink string_at start 4096))
      (translated unlink_answer (deletes (parts (some (string_at 4096))) (paths slash_root)))
sys_unlink-Refines_example =
    sys_unlink-Refines string_at start 4096 slash_root init-slash (omega arith) slash_root-IsTree

next_small : rust_process_init.next_pid < 2 ^ 31
unfolding rust_process_init set_current_process create_process
next_small = omega arith

sys_kill-sys_fork_example :
    ((run string_at fork 0 0 0 start).answer ≡ pos rust_process_init.next_pid)
    × (mm' : ProcessManager) × ((run string_at kill rust_process_init.next_pid 9 0
          (run string_at fork 0 0 0 start).machine).machine.manager
        ≡ some mm')
    × ((q : ℕ)
        → get_process q mm' ≡ (
            if rust_process_init.next_pid == q
            then some (
                killed (as_i32 9) (
                  build_process rust_process_init.next_pid
                    (rust_process_get_current_pid start.manager)
                    user))
            else get_process q rust_process_init))
sys_kill-sys_fork_example =
    sys_kill-sys_fork start rust_process_init refl (Reach-IsTable initialised) string_at 0 0 0 0 9
      next_small

spare : (mm : ProcessManager) → start.manager ≡ some mm → mm.next_pid + 1 < 2 ^ 32
unfolding rust_process_init set_current_process create_process
spare mm e = omega (arith, ap (λ (x : ProcessManager). x.next_pid) (some-inj e))

decode_mkdir :
    rust_syscall_handler string_at 83 4096 0 0 start
    ≡ some (reply string_at (decode 83) 4096 0 0 start)
decode_mkdir =
    handler_dispatches string_at 83 4096 0 0 start (omega (arith, start-pid)) (omega arith)

Reach-IsMachine_example : IsMachine (reply string_at (decode 83) 4096 0 0 start).machine
Reach-IsMachine_example = Reach-IsMachine (reply string_at (decode 83) 4096 0 0 start).machine (
    called string_at 83 4096 0 0 start (reply string_at (decode 83) 4096 0 0 start) booted spare
      decode_mkdir)
