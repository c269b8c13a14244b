-- ===== src/Elf/Serial.antt =====
-- Numbers as text in kernel-rs/src/elf.rs.
use shade_os.Base.{
  ℕ, zero, suc, ◌+◌, ◌-◌, ◌*◌, ◌/◌, ◌%◌, ◌^◌, List, [], ◌∷◌, ltb, ◌==◌, if◌then◌else◌, reverse, set,
  replicate,
}

-- `b'0' + digit` or `b'A' + (digit - 10)`
abbrev pub hex_digit : ℕ → ℕ
hex_digit d = if ltb d 10 then 48 + d else 55 + d

-- The loop over the sixteen digits, of which only those before `buf.len() - 3` are stored.
abbrev hex_from : ℕ → ℕ → ℕ → List ℕ → List ℕ
hex_from zero i val buf = buf
hex_from (suc n) i val buf =
    hex_from n (suc i) val
      (if ltb i (18 - 3) then set buf (2 + i) (hex_digit (val / 2 ^ (60 - i * 4) % 16)) else buf)

-- The array `buf` of `serial_write_hex` as it is written.
pub serial_write_hex : ℕ → List ℕ
serial_write_hex val = set (hex_from 16 0 val (48 ∷ 120 ∷ replicate 16 0)) 17 0

-- The digits of a number below 10^20, the least first.
abbrev dec_digits : ℕ → ℕ → List ℕ
dec_digits zero n = []
dec_digits (suc fuel) n =
    let rest = dec_digits fuel (n / 10) in if n == 0 then [] else (48 + n % 10) ∷ rest

-- What `format!` writes for a number.
abbrev pub decimal : ℕ → List ℕ
decimal n = if n == 0 then 48 ∷ [] else reverse (dec_digits 20 n)
