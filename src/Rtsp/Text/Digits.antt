-- ===== src/Rtsp/Text/Digits.antt =====
-- What `%d` prints is digits.
use car_detect.Prelude.{
  ℕ, zero, suc, ◌+◌, ◌/◌, ◌%◌, ◌≤◌, [], ◌∷◌, ltb, arith, Bool-cases, inl, inr, ltb→lt, All,
  All-append,
}
use car_detect.Rtsp.Text.{print_digits, decimal}

abbrev pub IsDigit : ℕ → Type 0
IsDigit c = (b'0' ≤ c) × (c ≤ b'9')

print_digits-IsDigit : (digits n : ℕ) → All IsDigit (print_digits digits n)
unfolding print_digits
print_digits-IsDigit zero n = tt
print_digits-IsDigit (suc digits) n = elim (Bool-cases (ltb n 10)) [
  | inl small ↦ rw small ((omega arith, omega (arith, ltb→lt _ _ small)), tt)
  | inr large ↦ rw large (
      All-append IsDigit (print_digits digits (n / 10)) ((b'0' + n % 10) ∷ [])
        (print_digits-IsDigit digits (n / 10)) ((omega arith, omega arith), tt))
]

pub decimal-IsDigit : (n : ℕ) → All IsDigit (decimal n)
unfolding decimal
decimal-IsDigit n = print_digits-IsDigit 10 n
