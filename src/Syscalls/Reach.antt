-- ===== src/Syscalls/Reach.antt =====
-- The states that system calls lead to from start-up on.
use shade_os.Base.{
  ℕ, zero, suc, ◌+◌, ◌^◌, ◌<◌, ◌≡◌, refl, sym, subst, ap, false, Option, none, some, some-inj, List,
  ℤ, pos, negsuc, ◌==◌, Bool-cases, inl, inr,
}
use shade_os.Process.{
  ProcessManager, user, create_process, terminate_process, rust_process_create,
  rust_process_terminate, rust_process_init, rust_process_get_current_pid,
}
use shade_os.Process.Table.{
  Reach-IsTable, init as initialised, IsTable, create_process-IsTable, terminate_process-IsTable,
}
use shade_os.Vfs.{init}
use shade_os.Vfs.Reach.{
  Reach-IsFs, started, IsFs, create_file-IsFs, create_directory-IsFs, delete_file-IsFs,
}
use shade_os.Syscalls.{
  Machine, Reply, Call, read, write, open_call, close, getpid, exit, fork, execve, wait4, kill,
  chdir, getcwd, mkdir, rmdir, unlink, creat, access, brk, mmap, munmap, uname, gettimeofday,
  sched_yield, run, reply, decode, kill_process, sys_mkdir, sys_unlink, sys_rmdir, sys_creat,
  sys_exit, sys_fork, as_i32, rust_syscall_handler, guarded, log_number,
}
use shade_os.Syscalls.Frame.{run-Frame, changes_processes, changes_files}

-- There is a process table, and it is well formed.
pub record HasTable (o : Option ProcessManager) : Type 0 where
  pub manager : ProcessManager
  pub present : o ≡ some manager
  pub table : IsTable manager

-- Both parts of the state are set up and well formed.
pub record IsMachine (m : Machine) : Type 0 where
  pub processes : HasTable m.manager
  pub files : IsFs m.fs

-- Identifiers last for one more process.
abbrev pub Spare : Option ProcessManager → Type 0
Spare o = (mm : ProcessManager) → o ≡ some mm → mm.next_pid + 1 < 2 ^ 32

terminate-HasTable :
    (pid : ℕ) (status : ℤ) (o : Option ProcessManager)
    → HasTable o
    → HasTable (rust_process_terminate pid status o)
unfolding rust_process_terminate
terminate-HasTable pid status o h = record {
  manager = terminate_process pid status h.manager;
  present = ap (rust_process_terminate pid status) h.present;
  table = terminate_process-IsTable h.manager pid status h.table;
}

create-HasTable :
    (parent : ℕ) (o : Option ProcessManager)
    → HasTable o
    → Spare o
    → HasTable (rust_process_create parent false o).0
unfolding rust_process_create
create-HasTable parent o h lim = record {
  manager = (create_process parent user h.manager).0;
  present = ap (λ (x : Option ProcessManager). (rust_process_create parent false x).0) h.present;
  table = create_process-IsTable h.manager h.table parent user (lim h.manager h.present);
}

kill_process-HasTable :
    (m : Machine) (pid sig : ℤ)
    → HasTable m.manager
    → HasTable (kill_process m pid sig).machine.manager
unfolding kill_process
kill_process-HasTable m (negsuc n) sig h = h
kill_process-HasTable m (pos zero) sig h = h
kill_process-HasTable m (pos (suc n)) sig h = terminate-HasTable (suc n) sig m.manager h

run-HasTable :
    (string_at : ℕ → List ℕ) (c : Call) (a1 a2 a3 : ℕ) (m : Machine)
    → Spare m.manager
    → HasTable m.manager
    → HasTable (run string_at c a1 a2 a3 m).machine.manager
unfolding run sys_exit sys_fork
run-HasTable string_at read a1 a2 a3 m lim h =
    subst HasTable
      (sym ((run-Frame string_at read a1 a2 a3 m).processes (unfold changes_processes in refl))) h
run-HasTable string_at write a1 a2 a3 m lim h =
    subst HasTable
      (sym ((run-Frame string_at write a1 a2 a3 m).processes (unfold changes_processes in refl))) h
run-HasTable string_at open_call a1 a2 a3 m lim h =
    subst HasTable
      (sym
        ((run-Frame string_at open_call a1 a2 a3 m).processes (unfold changes_processes in refl)))
      h
run-HasTable string_at close a1 a2 a3 m lim h =
    subst HasTable
      (sym ((run-Frame string_at close a1 a2 a3 m).processes (unfold changes_processes in refl))) h
run-HasTable string_at getpid a1 a2 a3 m lim h =
    subst HasTable
      (sym ((run-Frame string_at getpid a1 a2 a3 m).processes (unfold changes_processes in refl))) h
run-HasTable string_at exit a1 a2 a3 m lim h = terminate-HasTable _ (as_i32 a1) m.manager h
run-HasTable string_at fork a1 a2 a3 m lim h = create-HasTable _ m.manager h lim
run-HasTable string_at execve a1 a2 a3 m lim h =
    subst HasTable
      (sym ((run-Frame string_at execve a1 a2 a3 m).processes (unfold changes_processes in refl))) h
run-HasTable string_at wait4 a1 a2 a3 m lim h =
    subst HasTable
      (sym ((run-Frame string_at wait4 a1 a2 a3 m).processes (unfold changes_processes in refl))) h
run-HasTable string_at kill a1 a2 a3 m lim h = kill_process-HasTable m (as_i32 a1) (as_i32 a2) h
run-HasTable string_at chdir a1 a2 a3 m lim h =
    subst HasTable
      (sym ((run-Frame string_at chdir a1 a2 a3 m).processes (unfold changes_processes in refl))) h
run-HasTable string_at getcwd a1 a2 a3 m lim h =
    subst HasTable
      (sym ((run-Frame string_at getcwd a1 a2 a3 m).processes (unfold changes_processes in refl))) h
run-HasTable string_at mkdir a1 a2 a3 m lim h =
    subst HasTable
      (sym ((run-Frame string_at mkdir a1 a2 a3 m).processes (unfold changes_processes in refl))) h
run-HasTable string_at rmdir a1 a2 a3 m lim h =
    subst HasTable
      (sym ((run-Frame string_at rmdir a1 a2 a3 m).processes (unfold changes_processes in refl))) h
run-HasTable string_at unlink a1 a2 a3 m lim h =
    subst HasTable
      (sym ((run-Frame string_at unlink a1 a2 a3 m).processes (unfold changes_processes in refl))) h
run-HasTable string_at creat a1 a2 a3 m lim h =
    subst HasTable
      (sym ((run-Frame string_at creat a1 a2 a3 m).processes (unfold changes_processes in refl))) h
run-HasTable string_at access a1 a2 a3 m lim h =
    subst HasTable
      (sym ((run-Frame string_at access a1 a2 a3 m).processes (unfold changes_processes in refl))) h
run-HasTable string_at brk a1 a2 a3 m lim h =
    subst HasTable
      (sym ((run-Frame string_at brk a1 a2 a3 m).processes (unfold changes_processes in refl))) h
run-HasTable string_at mmap a1 a2 a3 m lim h =
    subst HasTable
      (sym ((run-Frame string_at mmap a1 a2 a3 m).processes (unfold changes_processes in refl))) h
run-HasTable string_at munmap a1 a2 a3 m lim h =
    subst HasTable
      (sym ((run-Frame string_at munmap a1 a2 a3 m).processes (unfold changes_processes in refl))) h
run-HasTable string_at uname a1 a2 a3 m lim h =
    subst HasTable
      (sym ((run-Frame string_at uname a1 a2 a3 m).processes (unfold changes_processes in refl))) h
run-HasTable string_at gettimeofday a1 a2 a3 m lim h =
    subst HasTable
      (sym (
        (run-Frame string_at gettimeofday a1 a2 a3 m).processes (unfold changes_processes in refl)))
      h
run-HasTable string_at sched_yield a1 a2 a3 m lim h =
    subst HasTable
      (sym
        ((run-Frame string_at sched_yield a1 a2 a3 m).processes (unfold changes_processes in refl)))
      h

sys_mkdir-IsFs :
    (string_at : ℕ → List ℕ) (m : Machine) (a : ℕ)
    → IsFs m.fs
    → IsFs (sys_mkdir string_at m a).machine.fs
unfolding sys_mkdir
sys_mkdir-IsFs string_at m a h = elim (Bool-cases (a == 0)) [
  | inl e ↦ rw e h
  | inr e ↦ rw e (create_directory-IsFs (some (string_at a)) m.fs h)
]

sys_unlink-IsFs :
    (string_at : ℕ → List ℕ) (m : Machine) (a : ℕ)
    → IsFs m.fs
    → IsFs (sys_unlink string_at m a).machine.fs
unfolding sys_unlink
sys_unlink-IsFs string_at m a h = elim (Bool-cases (a == 0)) [
  | inl e ↦ rw e h
  | inr e ↦ rw e (delete_file-IsFs (some (string_at a)) m.fs h)
]

sys_rmdir-IsFs :
    (string_at : ℕ → List ℕ) (m : Machine) (a : ℕ)
    → IsFs m.fs
    → IsFs (sys_rmdir string_at m a).machine.fs
unfolding sys_rmdir
sys_rmdir-IsFs string_at m a h = elim (Bool-cases (a == 0)) [
  | inl e ↦ rw e h
  | inr e ↦ rw e (delete_file-IsFs (some (string_at a)) m.fs h)
]

sys_creat-IsFs :
    (string_at : ℕ → List ℕ) (m : Machine) (a : ℕ)
    → IsFs m.fs
    → IsFs (sys_creat string_at m a).machine.fs
unfolding sys_creat
sys_creat-IsFs string_at m a h = elim (Bool-cases (a == 0)) [
  | inl e ↦ rw e h
  | inr e ↦ rw e (create_file-IsFs (some (string_at a)) m.fs h)
]

run-IsFs :
    (string_at : ℕ → List ℕ) (c : Call) (a1 a2 a3 : ℕ) (m : Machine)
    → IsFs m.fs
    → IsFs (run string_at c a1 a2 a3 m).machine.fs
unfolding run
run-IsFs string_at read a1 a2 a3 m h =
    subst IsFs (sym ((run-Frame string_at read a1 a2 a3 m).files (unfold changes_files in refl))) h
run-IsFs string_at write a1 a2 a3 m h =
    subst IsFs (sym ((run-Frame string_at write a1 a2 a3 m).files (unfold changes_files in refl))) h
run-IsFs string_at open_call a1 a2 a3 m h =
    subst IsFs
      (sym ((run-Frame string_at open_call a1 a2 a3 m).files (unfold changes_files in refl))) h
run-IsFs string_at close a1 a2 a3 m h =
    subst IsFs (sym ((run-Frame string_at close a1 a2 a3 m).files (unfold changes_files in refl))) h
run-IsFs string_at getpid a1 a2 a3 m h =
    subst IsFs (sym ((run-Frame string_at getpid a1 a2 a3 m).files (unfold changes_files in refl)))
      h
run-IsFs string_at exit a1 a2 a3 m h =
    subst IsFs (sym ((run-Frame string_at exit a1 a2 a3 m).files (unfold changes_files in refl))) h
run-IsFs string_at fork a1 a2 a3 m h =
    subst IsFs (sym ((run-Frame string_at fork a1 a2 a3 m).files (unfold changes_files in refl))) h
run-IsFs string_at execve a1 a2 a3 m h =
    subst IsFs (sym ((run-Frame string_at execve a1 a2 a3 m).files (unfold changes_files in refl)))
      h
run-IsFs string_at wait4 a1 a2 a3 m h =
    subst IsFs (sym ((run-Frame string_at wait4 a1 a2 a3 m).files (unfold changes_files in refl))) h
run-IsFs string_at kill a1 a2 a3 m h =
    subst IsFs (sym ((run-Frame string_at kill a1 a2 a3 m).files (unfold changes_files in refl))) h
run-IsFs string_at chdir a1 a2 a3 m h =
    subst IsFs (sym ((run-Frame string_at chdir a1 a2 a3 m).files (unfold changes_files in refl))) h
run-IsFs string_at getcwd a1 a2 a3 m h =
    subst IsFs (sym ((run-Frame string_at getcwd a1 a2 a3 m).files (unfold changes_files in refl)))
      h
run-IsFs string_at mkdir a1 a2 a3 m h = sys_mkdir-IsFs string_at m a1 h
run-IsFs string_at rmdir a1 a2 a3 m h = sys_rmdir-IsFs string_at m a1 h
run-IsFs string_at unlink a1 a2 a3 m h = sys_unlink-IsFs string_at m a1 h
run-IsFs string_at creat a1 a2 a3 m h = sys_creat-IsFs string_at m a1 h
run-IsFs string_at access a1 a2 a3 m h =
    subst IsFs (sym ((run-Frame string_at access a1 a2 a3 m).files (unfold changes_files in refl)))
      h
run-IsFs string_at brk a1 a2 a3 m h =
    subst IsFs (sym ((run-Frame string_at brk a1 a2 a3 m).files (unfold changes_files in refl))) h
run-IsFs string_at mmap a1 a2 a3 m h =
    subst IsFs (sym ((run-Frame string_at mmap a1 a2 a3 m).files (unfold changes_files in refl))) h
run-IsFs string_at munmap a1 a2 a3 m h =
    subst IsFs (sym ((run-Frame string_at munmap a1 a2 a3 m).files (unfold changes_files in refl)))
      h
run-IsFs string_at uname a1 a2 a3 m h =
    subst IsFs (sym ((run-Frame string_at uname a1 a2 a3 m).files (unfold changes_files in refl))) h
run-IsFs string_at gettimeofday a1 a2 a3 m h =
    subst IsFs
      (sym ((run-Frame string_at gettimeofday a1 a2 a3 m).files (unfold changes_files in refl))) h
run-IsFs string_at sched_yield a1 a2 a3 m h =
    subst IsFs
      (sym ((run-Frame string_at sched_yield a1 a2 a3 m).files (unfold changes_files in refl))) h

reply-IsMachine :
    (string_at : ℕ → List ℕ) (o : Option Call) (a1 a2 a3 : ℕ) (m : Machine)
    → Spare m.manager
    → IsMachine m
    → IsMachine (reply string_at o a1 a2 a3 m).machine
unfolding reply
reply-IsMachine string_at none a1 a2 a3 m lim h = h
reply-IsMachine string_at (some c) a1 a2 a3 m lim h = record {
  processes = run-HasTable string_at c a1 a2 a3 m lim h.processes;
  files = run-IsFs string_at c a1 a2 a3 m h.files;
}

-- An answer of the handler, if it gives one, is that of the `match`.
answered : (x r : Reply) → (o o' : Option (List ℕ)) → guarded o o' x ≡ some r → r ≡ x
answered x r none o' h = absurd (cc h)
answered x r (some ds) none h = absurd (cc h)
answered x r (some ds) (some ds') h = sym (some-inj h)

handler_replies :
    (string_at : ℕ → List ℕ) (syscall_num a1 a2 a3 : ℕ) (m : Machine) (r : Reply)
    → rust_syscall_handler string_at syscall_num a1 a2 a3 m ≡ some r
    → r ≡ reply string_at (decode syscall_num) a1 a2 a3 m
unfolding rust_syscall_handler
handler_replies string_at syscall_num a1 a2 a3 m r h =
    answered (reply string_at (decode syscall_num) a1 a2 a3 m) r
      (log_number (rust_process_get_current_pid m.manager)) (log_number syscall_num) h

-- A system that has started and served system calls, while identifiers for processes last.
pub data Reach : Machine → Type 0 where
  booted : Reach (record { manager = some rust_process_init; fs = init })
  called :
      (string_at : ℕ → List ℕ) (syscall_num a1 a2 a3 : ℕ) (m : Machine) (r : Reply)
      → Reach m
      → Spare m.manager
      → rust_syscall_handler string_at syscall_num a1 a2 a3 m ≡ some r
      → Reach r.machine

-- Whatever system calls were served since start-up, while identifiers for processes last: the
-- identifiers in the process table are unique and neither 0 nor yet to be given out, and the file
-- system is a tree under "/" in which a name stands at most once in a directory.
pub Reach-IsMachine : (m : Machine) → Reach m → IsMachine m
Reach-IsMachine m booted = record {
  processes = record {
    manager = rust_process_init;
    present = refl;
    table = Reach-IsTable initialised;
  };
  files = Reach-IsFs init started;
}
Reach-IsMachine m (called string_at n a1 a2 a3 m' r reached lim h) =
    subst (λ (x : Reply). IsMachine x.machine) (sym (handler_replies string_at n a1 a2 a3 m' r h))
      (reply-IsMachine string_at (decode n) a1 a2 a3 m' lim (Reach-IsMachine m' reached))
