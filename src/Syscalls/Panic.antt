-- ===== src/Syscalls/Panic.antt =====
-- When the logging of a system call panics.
use shade_os.Base.{
  ℕ, zero, suc, ◌+◌, ◌/◌, ◌%◌, ◌^◌, ◌<◌, ◌≡◌, refl, some, List, [], ◌∷◌, arith, ◌==◌, Bool-cases,
  not_==→ne, inl, inr,
}
use shade_os.Process.{rust_process_get_current_pid}
use shade_os.Syscalls.{Machine, log_digits, log_number, decode, reply, rust_syscall_handler}

log_digits_fits : (room n : ℕ) → n < 10 ^ room → (ds : List ℕ) × (log_digits room n ≡ some ds)
unfolding log_digits
log_digits_fits zero n h = elim (Bool-cases (n == 0)) [
  | inl e ↦ ([], rw e refl)
  | inr e ↦ absurd (not_==→ne n 0 e (omega arith))
]
log_digits_fits (suc room) n h = elim (Bool-cases (n == 0)) [
  | inl e ↦ ([], rw e refl)
  | inr e ↦
      let (ds, ih) = log_digits_fits room (n / 10) (omega arith) in
      ((b'0' + n % 10) ∷ ds, rw (e, ih) refl)
]

log_number_fits : (n : ℕ) → n < 10 ^ 10 → (ds : List ℕ) × (log_number n ≡ some ds)
unfolding log_number
log_number_fits n h = elim (Bool-cases (n == 0)) [
  | inl e ↦ (b'0' ∷ [], rw e refl)
  | inr e ↦ rw e (log_digits_fits 10 n h)
]

module _ (string_at : ℕ → List ℕ) (syscall_num a1 a2 a3 : ℕ) (m : Machine)
    (pid_fits : rust_process_get_current_pid m.manager < 2 ^ 32) where
  pub handler_dispatches :
      syscall_num < 10 ^ 10
      → rust_syscall_handler string_at syscall_num a1 a2 a3 m
        ≡ some (reply string_at (decode syscall_num) a1 a2 a3 m)
  unfolding rust_syscall_handler
  handler_dispatches h =
      let (ds, e) = log_number_fits (rust_process_get_current_pid m.manager) (omega arith) in
      let (ns, e') = log_number_fits syscall_num h in rw (e, rust_syscall_handler, e')
