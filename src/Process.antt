-- ===== src/Process.antt =====
-- The process manager, kernel-rs/src/process.rs. Process identifiers are u32, addresses u64. The
-- messages that `create_process` and `terminate_process` build are never written, and the listing
-- prints no process line: they are left out.
pub mod Table
pub mod Access
mod Tests
use shade_os.Base.{
  ℕ, ◌+◌, ◌*◌, ◌%◌, ◌^◌, ◌≡◌, Bool, true, false, not, ◌&&◌, Option, none, some, List, [], ◌∷◌, ◌++◌,
  ltb, leb, ◌==◌, if◌then◌else◌, bit_and, set, replicate, ℤ, pos,
}

pub data ProcessState : Type 0 where
  ready running blocked zombie terminated : ProcessState

pub data PrivilegeLevel : Type 0 where
  kernel user : PrivilegeLevel

pub data MemoryRegionType : Type 0 where
  code data_region stack heap shared : MemoryRegionType

-- Permissions are bits: read 1, write 2, execute 4.
pub record MemoryRegion : Type 0 where
  pub start_addr : ℕ
  pub end_addr : ℕ
  pub permissions : ℕ
  pub region_type : MemoryRegionType

-- The saved registers of a process.
pub record Registers : Type 0 where
  pub rax : ℕ
  pub rbx : ℕ
  pub rcx : ℕ
  pub rdx : ℕ
  pub rsi : ℕ
  pub rdi : ℕ
  pub rbp : ℕ
  pub rsp : ℕ
  pub r8 : ℕ
  pub r9 : ℕ
  pub r10 : ℕ
  pub r11 : ℕ
  pub r12 : ℕ
  pub r13 : ℕ
  pub r14 : ℕ
  pub r15 : ℕ
  pub rip : ℕ
  pub rflags : ℕ
  pub cs : ℕ
  pub ds : ℕ
  pub es : ℕ
  pub fs : ℕ
  pub gs : ℕ
  pub ss : ℕ

-- `struct ProcessControlBlock`, its register fields in a record of their own.
pub record ProcessControlBlock : Type 0 where
  pub pid : ℕ
  pub parent_pid : ℕ
  pub state : ProcessState
  pub privilege_level : PrivilegeLevel
  pub registers : Registers
  pub page_directory : ℕ
  pub memory_regions : List MemoryRegion
  pub heap_start : ℕ
  pub heap_end : ℕ
  pub stack_start : ℕ
  pub stack_end : ℕ
  pub fd_table : List (Option ℕ)
  pub cwd : List ℕ
  pub creation_time : ℕ
  pub cpu_time : ℕ
  pub priority : ℤ
  pub exit_code : ℤ

abbrev pub code_segment : PrivilegeLevel → ℕ
code_segment kernel = 0x08
code_segment user = 0x1B

abbrev pub data_segment : PrivilegeLevel → ℕ
data_segment kernel = 0x10
data_segment user = 0x23

-- `ProcessControlBlock::new`
pub new_pcb : ℕ → ℕ → PrivilegeLevel → ProcessControlBlock
new_pcb pid parent level = record {
  pid = pid;
  parent_pid = parent;
  state = ready;
  privilege_level = level;
  registers = record {
    rax = 0;
    rbx = 0;
    rcx = 0;
    rdx = 0;
    rsi = 0;
    rdi = 0;
    rbp = 0;
    rsp = 0;
    r8 = 0;
    r9 = 0;
    r10 = 0;
    r11 = 0;
    r12 = 0;
    r13 = 0;
    r14 = 0;
    r15 = 0;
    rip = 0;
    rflags = 0x202;
    cs = code_segment level;
    ds = data_segment level;
    es = 0;
    fs = 0;
    gs = 0;
    ss = data_segment level;
  };
  page_directory = 0;
  memory_regions = [];
  heap_start = 0;
  heap_end = 0;
  stack_start = 0;
  stack_end = 0;
  fd_table = replicate 256 none;
  cwd = replicate 256 0;
  creation_time = 0;
  cpu_time = 0;
  priority = pos 0;
  exit_code = pos 0;
}

pub add_memory_region : MemoryRegion → ProcessControlBlock → ProcessControlBlock
add_memory_region r p = record p { memory_regions = p.memory_regions ++ r ∷ [] }

-- The loop over the regions: the first that holds the address decides.
pub region_access : List MemoryRegion → ℕ → ℕ → Bool
region_access [] addr access = false
region_access (r ∷ rs) addr access =
    if leb r.start_addr addr && ltb addr r.end_addr
    then not (bit_and r.permissions access == 0)
    else region_access rs addr access

unfoldable pub check_memory_access : ProcessControlBlock → ℕ → ℕ → Bool
unfolding region_access
check_memory_access p addr access = region_access p.memory_regions addr access

pub record ProcessManager : Type 0 where
  pub processes : List ProcessControlBlock
  pub current_pid : ℕ
  pub next_pid : ℕ

abbrev pub new_manager : ProcessManager
new_manager = record { processes = []; current_pid = 0; next_pid = 1 }

abbrev pub region : ℕ → ℕ → ℕ → MemoryRegionType → MemoryRegion
region start end permissions kind = record {
  start_addr = start;
  end_addr = end;
  permissions = permissions;
  region_type = kind;
}

-- The `match` of `create_process` on the privilege level.
pub with_regions : PrivilegeLevel → ProcessControlBlock → ProcessControlBlock
unfolding add_memory_region
with_regions kernel p = add_memory_region (region 0 0xFFFF_FFFF_FFFF_FFFF 7 code) p
with_regions user p =
    let p1 = add_memory_region (region 0x0040_0000 0x0080_0000 5 code) p in
    let p2 = add_memory_region (region 0x0080_0000 0x00C0_0000 3 data_region) p1 in
    let p3 = add_memory_region (region 0x7FFF_FFF0_0000 0x8000_0000_0000 3 stack) p2 in
    record p3 {
      stack_start = 0x7FFF_FFF0_0000;
      stack_end = 0x8000_0000_0000;
      registers = record (p3.registers) { rsp = 0x7FFF_FFFF_F000 };
    }

-- The block that `create_process` stores.
unfoldable pub build_process : ℕ → ℕ → PrivilegeLevel → ProcessControlBlock
unfolding new_pcb with_regions
build_process pid parent level =
    let p = with_regions level (new_pcb pid parent level) in
    record p {
      cwd = set (set p.cwd 0 b'/') 1 0;
      fd_table = set (set (set p.fd_table 0 (some 0)) 1 (some 1)) 2 (some 2);
    }

-- `next_pid` wraps in a release build.
unfoldable pub create_process : ℕ → PrivilegeLevel → ProcessManager → ProcessManager × ℕ
unfolding build_process
create_process parent level m = (
  record m {
    next_pid = (m.next_pid + 1) % 2 ^ 32;
    processes = m.processes ++ build_process m.next_pid parent level ∷ [];
  },
  m.next_pid,
)

unfoldable pub find_pid : ℕ → List ProcessControlBlock → Option ProcessControlBlock
find_pid pid [] = none
find_pid pid (p ∷ ps) = if p.pid == pid then some p else find_pid pid ps

unfoldable pub get_process : ℕ → ProcessManager → Option ProcessControlBlock
unfolding find_pid
get_process pid m = find_pid pid m.processes

unfoldable pub get_current_process : ProcessManager → Option ProcessControlBlock
unfolding get_process
get_current_process m = if m.current_pid == 0 then none else get_process m.current_pid m

unfoldable pub set_current_process : ℕ → ProcessManager → ProcessManager
set_current_process pid m = record m { current_pid = pid }

-- The write through the reference that `get_process` returns: the first process with the pid.
pub update_pid :
    ℕ
    → (ProcessControlBlock → ProcessControlBlock)
    → List ProcessControlBlock
    → List ProcessControlBlock
update_pid pid f [] = []
update_pid pid f (p ∷ ps) = if p.pid == pid then f p ∷ ps else p ∷ update_pid pid f ps

abbrev pub killed : ℤ → ProcessControlBlock → ProcessControlBlock
killed status p = record p { state = terminated; exit_code = status }

pub terminate_process : ℕ → ℤ → ProcessManager → ProcessManager
unfolding update_pid
terminate_process pid status m = record m { processes = update_pid pid (killed status) m.processes }

-- The C interface works on PROCESS_MANAGER, which is none before `rust_process_init`.
unfoldable pub rust_process_init : ProcessManager
unfolding create_process set_current_process
rust_process_init = let (m, pid) = create_process 0 kernel new_manager in set_current_process pid m

unfoldable pub rust_process_create : ℕ → Bool → Option ProcessManager → Option ProcessManager × ℕ
rust_process_create parent is_kernel none = (none, 0)
rust_process_create parent is_kernel (some m) =
    let (m', pid) = create_process parent (if is_kernel then kernel else user) m in (some m', pid)

unfoldable pub rust_process_terminate : ℕ → ℤ → Option ProcessManager → Option ProcessManager
rust_process_terminate pid status none = none
rust_process_terminate pid status (some m) = some (terminate_process pid status m)

access_of : Option ProcessControlBlock → ℕ → ℕ → Bool
access_of none addr access = false
access_of (some p) addr access = check_memory_access p addr access

unfoldable pub rust_process_check_access : ℕ → ℕ → ℕ → Option ProcessManager → Bool
unfolding access_of
rust_process_check_access pid addr access none = false
rust_process_check_access pid addr access (some m) = access_of (get_process pid m) addr access

unfoldable pub rust_process_get_current_pid : Option ProcessManager → ℕ
rust_process_get_current_pid none = 0
rust_process_get_current_pid (some m) = m.current_pid
