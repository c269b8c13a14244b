-- ===== src/Syscalls/Frame.antt =====
-- Which system calls may change what.
use shade_os.Base.{
  ℕ, zero, suc, ◌≡◌, refl, Bool, true, false, List, [], ℤ, pos, negsuc, ◌==◌, ◌||◌, Bool-cases, inl,
  inr,
}
use shade_os.Syscalls.{
  Machine, Reply, Call, read, write, open_call, close, getpid, exit, fork, execve, wait4, kill,
  chdir, getcwd, mkdir, rmdir, unlink, creat, access, brk, mmap, munmap, uname, gettimeofday,
  sched_yield, run, kill_process, sys_chdir, sys_mkdir, sys_unlink, sys_rmdir, sys_creat,
  sys_getcwd, sys_uname, sys_gettimeofday, sys_exit, sys_fork, as_i32,
}

-- The calls that may change the process table, the file system, and the caller's memory.
unfoldable pub changes_processes : Call → Bool
changes_processes exit = true
changes_processes fork = true
changes_processes kill = true
changes_processes _ = false

unfoldable pub changes_files : Call → Bool
changes_files mkdir = true
changes_files rmdir = true
changes_files unlink = true
changes_files creat = true
changes_files _ = false

unfoldable pub stores_memory : Call → Bool
stores_memory getcwd = true
stores_memory uname = true
stores_memory gettimeofday = true
stores_memory _ = false

-- What a call leaves alone.
pub record Frame (c : Call) (m : Machine) (r : Reply) : Type 0 where
  pub processes : changes_processes c ≡ false → r.machine.manager ≡ m.manager
  pub files : changes_files c ≡ false → r.machine.fs ≡ m.fs
  pub memory : stores_memory c ≡ false → r.stores ≡ []

kill_process-Frame : (m : Machine) (pid sig : ℤ) → Frame kill m (kill_process m pid sig)
unfolding kill_process changes_processes
kill_process-Frame m (negsuc n) sig = record {
  processes = λ h. refl;
  files = λ h. refl;
  memory = λ h. refl;
}
kill_process-Frame m (pos zero) sig = record {
  processes = λ h. refl;
  files = λ h. refl;
  memory = λ h. refl;
}
kill_process-Frame m (pos (suc n)) sig = record {
  processes = λ h. absurd (cc h);
  files = λ h. refl;
  memory = λ h. refl;
}

module _ (string_at : ℕ → List ℕ) (m : Machine) (a : ℕ) where
  sys_chdir-Frame : Frame chdir m (sys_chdir string_at m a)
  unfolding sys_chdir
  sys_chdir-Frame = elim (Bool-cases (a == 0)) [
    | inl e ↦ rw e (record { processes = λ h. refl; files = λ h. refl; memory = λ h. refl })
    | inr e ↦ rw e (record { processes = λ h. refl; files = λ h. refl; memory = λ h. refl })
  ]

  sys_mkdir-Frame : Frame mkdir m (sys_mkdir string_at m a)
  unfolding sys_mkdir changes_files
  sys_mkdir-Frame = elim (Bool-cases (a == 0)) [
    | inl e ↦ rw e (record { processes = λ h. refl; files = λ h. refl; memory = λ h. refl })
    | inr e ↦
        rw e (record { processes = λ h. refl; files = λ h. absurd (cc h); memory = λ h. refl })
  ]

  sys_unlink-Frame : Frame unlink m (sys_unlink string_at m a)
  unfolding sys_unlink changes_files
  sys_unlink-Frame = elim (Bool-cases (a == 0)) [
    | inl e ↦ rw e (record { processes = λ h. refl; files = λ h. refl; memory = λ h. refl })
    | inr e ↦
        rw e (record { processes = λ h. refl; files = λ h. absurd (cc h); memory = λ h. refl })
  ]

  sys_rmdir-Frame : Frame rmdir m (sys_rmdir string_at m a)
  unfolding sys_rmdir changes_files
  sys_rmdir-Frame = elim (Bool-cases (a == 0)) [
    | inl e ↦ rw e (record { processes = λ h. refl; files = λ h. refl; memory = λ h. refl })
    | inr e ↦
        rw e (record { processes = λ h. refl; files = λ h. absurd (cc h); memory = λ h. refl })
  ]

  sys_creat-Frame : Frame creat m (sys_creat string_at m a)
  unfolding sys_creat changes_files
  sys_creat-Frame = elim (Bool-cases (a == 0)) [
    | inl e ↦ rw e (record { processes = λ h. refl; files = λ h. refl; memory = λ h. refl })
    | inr e ↦
        rw e (record { processes = λ h. refl; files = λ h. absurd (cc h); memory = λ h. refl })
  ]

  sys_getcwd-Frame : (b : ℕ) → Frame getcwd m (sys_getcwd m a b)
  unfolding sys_getcwd stores_memory
  sys_getcwd-Frame b = elim (Bool-cases ((a == 0) || (b == 0))) [
    | inl e ↦ rw e (record { processes = λ h. refl; files = λ h. refl; memory = λ h. refl })
    | inr e ↦
        rw e (record { processes = λ h. refl; files = λ h. refl; memory = λ h. absurd (cc h) })
  ]

  sys_uname-Frame : Frame uname m (sys_uname m a)
  unfolding sys_uname stores_memory
  sys_uname-Frame = elim (Bool-cases (a == 0)) [
    | inl e ↦ rw e (record { processes = λ h. refl; files = λ h. refl; memory = λ h. refl })
    | inr e ↦
        rw e (record { processes = λ h. refl; files = λ h. refl; memory = λ h. absurd (cc h) })
  ]

  sys_gettimeofday-Frame : Frame gettimeofday m (sys_gettimeofday m a)
  unfolding sys_gettimeofday stores_memory
  sys_gettimeofday-Frame = elim (Bool-cases (a == 0)) [
    | inl e ↦ rw e (record { processes = λ h. refl; files = λ h. refl; memory = λ h. refl })
    | inr e ↦
        rw e (record { processes = λ h. refl; files = λ h. refl; memory = λ h. absurd (cc h) })
  ]

-- Only `exit`, `fork` and `kill` change the process table, only `mkdir`, `rmdir`, `unlink` and
-- `creat` the file system, and only `getcwd`, `uname` and `gettimeofday` store to the caller's memory.
pub run-Frame :
    (string_at : ℕ → List ℕ) (c : Call) (a1 a2 a3 : ℕ) (m : Machine)
    → Frame c m (run string_at c a1 a2 a3 m)
unfolding run changes_processes changes_files stores_memory sys_exit sys_fork
run-Frame string_at read a1 a2 a3 m = record {
  processes = λ h. refl;
  files = λ h. refl;
  memory = λ h. refl;
}
run-Frame string_at write a1 a2 a3 m = record {
  processes = λ h. refl;
  files = λ h. refl;
  memory = λ h. refl;
}
run-Frame string_at open_call a1 a2 a3 m = record {
  processes = λ h. refl;
  files = λ h. refl;
  memory = λ h. refl;
}
run-Frame string_at close a1 a2 a3 m = record {
  processes = λ h. refl;
  files = λ h. refl;
  memory = λ h. refl;
}
run-Frame string_at getpid a1 a2 a3 m = record {
  processes = λ h. refl;
  files = λ h. refl;
  memory = λ h. refl;
}
run-Frame string_at exit a1 a2 a3 m = record {
  processes = λ h. absurd (cc h);
  files = λ h. refl;
  memory = λ h. refl;
}
run-Frame string_at fork a1 a2 a3 m = record {
  processes = λ h. absurd (cc h);
  files = λ h. refl;
  memory = λ h. refl;
}
run-Frame string_at execve a1 a2 a3 m = record {
  processes = λ h. refl;
  files = λ h. refl;
  memory = λ h. refl;
}
run-Frame string_at wait4 a1 a2 a3 m = record {
  processes = λ h. refl;
  files = λ h. refl;
  memory = λ h. refl;
}
run-Frame string_at kill a1 a2 a3 m = kill_process-Frame m (as_i32 a1) (as_i32 a2)
run-Frame string_at chdir a1 a2 a3 m = sys_chdir-Frame string_at m a1
run-Frame string_at getcwd a1 a2 a3 m = sys_getcwd-Frame string_at m a1 a2
run-Frame string_at mkdir a1 a2 a3 m = sys_mkdir-Frame string_at m a1
run-Frame string_at rmdir a1 a2 a3 m = sys_rmdir-Frame string_at m a1
run-Frame string_at unlink a1 a2 a3 m = sys_unlink-Frame string_at m a1
run-Frame string_at creat a1 a2 a3 m = sys_creat-Frame string_at m a1
run-Frame string_at access a1 a2 a3 m = record {
  processes = λ h. refl;
  files = λ h. refl;
  memory = λ h. refl;
}
run-Frame string_at brk a1 a2 a3 m = record {
  processes = λ h. refl;
  files = λ h. refl;
  memory = λ h. refl;
}
run-Frame string_at mmap a1 a2 a3 m = record {
  processes = λ h. refl;
  files = λ h. refl;
  memory = λ h. refl;
}
run-Frame string_at munmap a1 a2 a3 m = record {
  processes = λ h. refl;
  files = λ h. refl;
  memory = λ h. refl;
}
run-Frame string_at uname a1 a2 a3 m = sys_uname-Frame string_at m a1
run-Frame string_at gettimeofday a1 a2 a3 m = sys_gettimeofday-Frame string_at m a1
run-Frame string_at sched_yield a1 a2 a3 m = record {
  processes = λ h. refl;
  files = λ h. refl;
  memory = λ h. refl;
}
