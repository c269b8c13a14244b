-- ===== src/Process/Access.antt =====
-- Which memory a new process may touch. The access types are read 1, write 2 and execute 4.
use shade_os.Base.{ℕ, ◌-◌, ◌^◌, ◌≤◌, ◌<◌, ◌≡◌, ◌⊎◌, ◌↔◌, inl, inr, true, arith}
use shade_os.Process.{kernel, user, build_process, check_memory_access}

module _ (pid parent addr : ℕ) where
  user_writes : (check_memory_access (build_process pid parent user) addr 2 ≡ true) ↔ (
      (0x0080_0000 ≤ addr) × (addr < 0x00C0_0000)
      ⊎ (0x7FFF_FFF0_0000 ≤ addr) × (addr < 0x8000_0000_0000))
  unfolding check_memory_access build_process
  user_writes = (λ h. ground arith, λ h. ground arith)

  user_executes :
      (check_memory_access (build_process pid parent user) addr 4 ≡ true)
      ↔ ((0x0040_0000 ≤ addr) × (addr < 0x0080_0000))
  unfolding check_memory_access build_process
  user_executes = (λ h. ground arith, λ h. ground arith)

  user_reads : (check_memory_access (build_process pid parent user) addr 1 ≡ true) ↔ (
      (0x0040_0000 ≤ addr) × (addr < 0x00C0_0000)
      ⊎ (0x7FFF_FFF0_0000 ≤ addr) × (addr < 0x8000_0000_0000))
  unfolding check_memory_access build_process
  user_reads = (λ h. ground arith, λ h. ground arith)

  -- A kernel process may do everything at every address but the last one of the address space.
  pub kernel_access :
      (access : ℕ)
      → (access ≡ 1) ⊎ (access ≡ 2) ⊎ (access ≡ 4)
      → (check_memory_access (build_process pid parent kernel) addr access ≡ true)
        ↔ (addr < 2 ^ 64 - 1)
  unfolding check_memory_access build_process
  kernel_access access (inl e) = rw e (λ h. ground arith, λ h. ground arith)
  kernel_access access (inr (inl e)) = rw e (λ h. ground arith, λ h. ground arith)
  kernel_access access (inr (inr e)) = rw e (λ h. ground arith, λ h. ground arith)

  -- A new user process may write exactly to its data and stack regions, execute exactly its code
  -- region, and read exactly the three.
  pub user_access :
      ((check_memory_access (build_process pid parent user) addr 2 ≡ true) ↔ (
        (0x0080_0000 ≤ addr) × (addr < 0x00C0_0000)
        ⊎ (0x7FFF_FFF0_0000 ≤ addr) × (addr < 0x8000_0000_0000)))
      × ((check_memory_access (build_process pid parent user) addr 4 ≡ true)
          ↔ ((0x0040_0000 ≤ addr) × (addr < 0x0080_0000)))
      × ((check_memory_access (build_process pid parent user) addr 1 ≡ true) ↔ (
          (0x0040_0000 ≤ addr) × (addr < 0x00C0_0000)
          ⊎ (0x7FFF_FFF0_0000 ≤ addr) × (addr < 0x8000_0000_0000)))
  user_access = (user_writes, user_executes, user_reads)
