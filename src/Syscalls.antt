-- ===== src/Syscalls.antt =====
-- The system call handler, kernel-rs/src/syscalls.rs, over the process manager and the file system.
-- `string_at` gives the bytes before the zero at an address of the caller's memory. Stores to that
-- memory and the lines that reach the screen are part of the reply; messages on the serial line
-- are left out, but for the first, whose formatting may panic.
pub mod Panic
pub mod Frame
pub mod Files
pub mod Processes
pub mod Reach
mod Tests
use mathlib.Core.Option
use shade_os.Base.{
  ℕ, zero, suc, ◌+◌, ◌-◌, ◌/◌, ◌%◌, ◌^◌, ◌≡◌, Bool, true, false, not, ◌&&◌, ◌||◌, Option, none,
  some, List, [], ◌∷◌, ◌++◌, ltb, leb, ◌==◌, if◌then◌else◌, length, reverse, replicate, ℤ, pos,
  negsuc, eq_ℤ, signed32, signed64,
}
use shade_os.Process.{
  ProcessManager, rust_process_create, rust_process_terminate, rust_process_check_access,
  rust_process_get_current_pid,
}
use shade_os.Vfs.{Fs, create_file, create_directory, delete_file}
use shade_os.Vfs.Listing.{list_directory}

-- PROCESS_MANAGER and ROOT_FS.
pub record Machine : Type 0 where
  pub manager : Option ProcessManager
  pub fs : Fs

pub record Reply : Type 0 where
  pub machine : Machine
  pub answer : ℤ
  pub stores : List (ℕ × List ℕ)
  pub screen : List (List ℕ)

abbrev pub enoent : ℤ
enoent = negsuc 1

abbrev pub enoexec : ℤ
enoexec = negsuc 7

abbrev pub ebadf : ℤ
ebadf = negsuc 8

abbrev pub echild : ℤ
echild = negsuc 9

abbrev pub enomem : ℤ
enomem = negsuc 11

abbrev pub eacces : ℤ
eacces = negsuc 12

abbrev pub efault : ℤ
efault = negsuc 13

abbrev pub eexist : ℤ
eexist = negsuc 16

abbrev pub einval : ℤ
einval = negsuc 21

abbrev pub as_i32 : ℕ → ℤ
as_i32 a = signed32 (a % 2 ^ 32)

-- The calls that the handler knows, and their numbers, SYS_READ to SYS_GETTIMEOFDAY.
pub data Call : Type 0 where
  read write open_call close getpid exit fork execve wait4 kill chdir getcwd mkdir rmdir unlink
        creat access brk mmap munmap uname gettimeofday sched_yield :
      Call

abbrev pub call_numbers : List (ℕ × Call)
call_numbers =
    (0, read)
    ∷ (1, write)
    ∷ (2, open_call)
    ∷ (3, close)
    ∷ (9, mmap)
    ∷ (11, munmap)
    ∷ (12, brk)
    ∷ (21, access)
    ∷ (24, sched_yield)
    ∷ (39, getpid)
    ∷ (57, fork)
    ∷ (59, execve)
    ∷ (60, exit)
    ∷ (61, wait4)
    ∷ (62, kill)
    ∷ (63, uname)
    ∷ (79, getcwd)
    ∷ (80, chdir)
    ∷ (83, mkdir)
    ∷ (84, rmdir)
    ∷ (85, creat)
    ∷ (87, unlink)
    ∷ (96, gettimeofday)
    ∷ []

pub find_call : List (ℕ × Call) → ℕ → Option Call
find_call [] syscall_num = none
find_call ((number, call) ∷ rest) syscall_num =
    if number == syscall_num then some call else find_call rest syscall_num

pub decode : ℕ → Option Call
decode syscall_num = find_call call_numbers syscall_num

-- The check that `buf` may be accessed, for the current process.
abbrev pub allowed : Machine → ℕ → ℕ → Bool
allowed m addr access_type =
    rust_process_check_access (rust_process_get_current_pid m.manager) addr access_type m.manager

pub sys_read : Machine → ℤ → ℕ → ℕ → ℤ
sys_read m fd buf count =
    if (buf == 0) || (count == 0)
    then einval
    else if not (allowed m buf 2)
    then efault
    else if eq_ℤ fd (pos 0)
    then pos 0
    else ebadf

pub sys_write : Machine → ℤ → ℕ → ℕ → ℤ
sys_write m fd buf count =
    if (buf == 0) || (count == 0)
    then einval
    else if not (allowed m buf 1)
    then efault
    else if eq_ℤ fd (pos 1) || eq_ℤ fd (pos 2)
    then signed64 count
    else ebadf

pub sys_open : Machine → ℕ → ℤ
sys_open m pathname =
    if pathname == 0 then einval else if not (allowed m pathname 1) then efault else pos 3

pub sys_close : ℤ → ℤ
sys_close (pos fd) = if leb fd 2 then ebadf else pos 0
sys_close (negsuc fd) = pos 0

-- A reply that changes nothing but what it says.
abbrev pub answers : Machine → ℤ → Reply
answers m r = record { machine = m; answer = r; stores = []; screen = [] }

abbrev pub stores_to : Machine → ℤ → List (ℕ × List ℕ) → Reply
stores_to m r stores = record { machine = m; answer = r; stores = stores; screen = [] }

pub sys_exit : Machine → ℤ → Reply
sys_exit m status =
    answers
      (record m {
        manager = rust_process_terminate (rust_process_get_current_pid m.manager) status m.manager;
      })
      (pos 0)

pub sys_fork : Machine → Reply
sys_fork m =
    let (manager', new_pid) =
      rust_process_create (rust_process_get_current_pid m.manager) false m.manager in
    answers (record m { manager = manager' }) (if new_pid == 0 then enomem else pos new_pid)

abbrev pub sys_execve : ℕ → ℤ
sys_execve filename = if filename == 0 then einval else enoexec

-- `sys_kill` behind the casts.
pub kill_process : Machine → ℤ → ℤ → Reply
kill_process m (negsuc pid) sig = answers m einval
kill_process m (pos zero) sig = answers m einval
kill_process m (pos (suc pid)) sig =
    answers (record m { manager = rust_process_terminate (suc pid) sig m.manager }) (pos 0)

-- The arguments are the registers, cast to i32.
abbrev pub sys_kill : Machine → ℕ → ℕ → Reply
sys_kill m pid sig = kill_process m (as_i32 pid) (as_i32 sig)

module _ (string_at : ℕ → List ℕ) where
  -- The check of `sys_chdir` is a listing, which reaches the screen.
  pub sys_chdir : Machine → ℕ → Reply
  sys_chdir m path =
      if path == 0
      then answers m einval
      else let (result, lines) = list_directory (some (string_at path)) m.fs in
        record {
          machine = m;
          answer = if eq_ℤ result (pos 0) then pos 0 else enoent;
          stores = [];
          screen = lines;
        }

  pub sys_mkdir : Machine → ℕ → Reply
  sys_mkdir m pathname =
      if pathname == 0
      then answers m einval
      else let (fs', result) = create_directory (some (string_at pathname)) m.fs in
        answers (record m { fs = fs' }) (if eq_ℤ result (pos 0) then pos 0 else eexist)

  pub sys_unlink : Machine → ℕ → Reply
  sys_unlink m pathname =
      if pathname == 0
      then answers m einval
      else let (fs', result) = delete_file (some (string_at pathname)) m.fs in
        answers (record m { fs = fs' }) (if eq_ℤ result (pos 0) then pos 0 else enoent)

  pub sys_rmdir : Machine → ℕ → Reply
  sys_rmdir m pathname =
      if pathname == 0
      then answers m einval
      else let (fs', result) = delete_file (some (string_at pathname)) m.fs in
        answers (record m { fs = fs' }) (if eq_ℤ result (pos 0) then pos 0 else enoent)

  pub sys_creat : Machine → ℕ → Reply
  sys_creat m pathname =
      if pathname == 0
      then answers m einval
      else let (fs', result) = create_file (some (string_at pathname)) m.fs in
        answers (record m { fs = fs' })
          (if eq_ℤ result (pos 0) || eq_ℤ result eexist then pos 3 else eacces)

pub sys_getcwd : Machine → ℕ → ℕ → Reply
sys_getcwd m buf size =
    if (buf == 0) || (size == 0)
    then answers m einval
    else stores_to m (signed64 buf) ((buf, b'/' ∷ []) ∷ ((buf + 1) % 2 ^ 64, 0 ∷ []) ∷ [])

abbrev pub sys_access : ℕ → ℤ
sys_access pathname = if pathname == 0 then einval else pos 0

abbrev pub sys_brk : ℕ → ℤ
sys_brk addr = signed64 addr

-- The five fields of `uname_info`.
abbrev pub uname_info : List ℕ
uname_info =
    (b'S' ∷ b'h' ∷ b'a' ∷ b'd' ∷ b'e' ∷ b'O' ∷ b'S' ∷ replicate 9 0)
    ++ (b's' ∷ b'h' ∷ b'a' ∷ b'd' ∷ b'e' ∷ b'o' ∷ b's' ∷ replicate 9 0)
    ++ (b'1' ∷ b'.' ∷ b'0' ∷ b'.' ∷ b'0' ∷ replicate 12 0)
    ++ (b'#' ∷ b'1' ∷ b' ' ∷ b'S' ∷ b'M' ∷ b'P' ∷ replicate 10 0)
    ++ (b'x' ∷ b'8' ∷ b'6' ∷ b'_' ∷ b'6' ∷ b'4' ∷ replicate 10 0)

pub sys_uname : Machine → ℕ → Reply
sys_uname m buf =
    if buf == 0 then answers m einval else stores_to m (pos 0) ((buf, uname_info) ∷ [])

-- 1640995200 and 0, as the eight bytes of an i64 each.
abbrev seconds : List ℕ
seconds = 0x80 ∷ 0x99 ∷ 0xCF ∷ 0x61 ∷ 0 ∷ 0 ∷ 0 ∷ 0 ∷ []

pub sys_gettimeofday : Machine → ℕ → Reply
sys_gettimeofday m tv =
    if tv == 0
    then answers m einval
    else stores_to m (pos 0) ((tv, seconds) ∷ ((tv + 8) % 2 ^ 64, replicate 8 0) ∷ [])

-- The arms of the `match` of `rust_syscall_handler`, with its casts.
pub run : (ℕ → List ℕ) → Call → ℕ → ℕ → ℕ → Machine → Reply
run string_at read a1 a2 a3 m = answers m (sys_read m (as_i32 a1) a2 a3)
run string_at write a1 a2 a3 m = answers m (sys_write m (as_i32 a1) a2 a3)
run string_at open_call a1 a2 a3 m = answers m (sys_open m a1)
run string_at close a1 a2 a3 m = answers m (sys_close (as_i32 a1))
run string_at getpid a1 a2 a3 m = answers m (pos (rust_process_get_current_pid m.manager))
run string_at exit a1 a2 a3 m = sys_exit m (as_i32 a1)
run string_at fork a1 a2 a3 m = sys_fork m
run string_at execve a1 a2 a3 m = answers m (sys_execve a1)
run string_at wait4 a1 a2 a3 m = answers m echild
run string_at kill a1 a2 a3 m = sys_kill m a1 a2
run string_at chdir a1 a2 a3 m = sys_chdir string_at m a1
run string_at getcwd a1 a2 a3 m = sys_getcwd m a1 a2
run string_at mkdir a1 a2 a3 m = sys_mkdir string_at m a1
run string_at rmdir a1 a2 a3 m = sys_rmdir string_at m a1
run string_at unlink a1 a2 a3 m = sys_unlink string_at m a1
run string_at creat a1 a2 a3 m = sys_creat string_at m a1
run string_at access a1 a2 a3 m = answers m (sys_access a1)
run string_at brk a1 a2 a3 m = answers m (sys_brk a1)
run string_at mmap a1 a2 a3 m = answers m enomem
run string_at munmap a1 a2 a3 m = answers m (pos 0)
run string_at uname a1 a2 a3 m = sys_uname m a1
run string_at gettimeofday a1 a2 a3 m = sys_gettimeofday m a1
run string_at sched_yield a1 a2 a3 m = answers m (pos 0)

-- The whole `match`, by what the number decodes to.
pub reply : (ℕ → List ℕ) → Option Call → ℕ → ℕ → ℕ → Machine → Reply
reply string_at none a1 a2 a3 m = answers m einval
reply string_at (some call) a1 a2 a3 m = run string_at call a1 a2 a3 m

-- The loop that writes decimal digits into an array that has room for `room`, the last first;
-- none if it goes out of bounds, which panics.
pub log_digits : ℕ → ℕ → Option (List ℕ)
log_digits zero n = if n == 0 then some [] else none
log_digits (suc room) n =
    if n == 0
    then some []
    else Option.map (λ (ds : List ℕ). (b'0' + n % 10) ∷ ds) (log_digits room (n / 10))

-- The digits of a number in `digits`, which has ten places.
pub log_number : ℕ → Option (List ℕ)
log_number n = if n == 0 then some (b'0' ∷ []) else log_digits 10 n

-- The answer once both numbers are logged; none is a panic.
abbrev pub guarded : Option (List ℕ) → Option (List ℕ) → Reply → Option Reply
guarded none number_digits r = none
guarded (some pid_digits) none r = none
guarded (some pid_digits) (some number_digits) r = some r

-- The handler logs the process and the number, then calls.
pub rust_syscall_handler : (ℕ → List ℕ) → ℕ → ℕ → ℕ → ℕ → Machine → Option Reply
rust_syscall_handler string_at syscall_num a1 a2 a3 m =
    guarded (log_number (rust_process_get_current_pid m.manager)) (log_number syscall_num)
      (reply string_at (decode syscall_num) a1 a2 a3 m)
