-- ===== src/Prelude/Bits.antt =====
-- Laws of the native bit operations: low masks are remainders, for every number, and what the
-- code does to single bytes is checked on all 256 of them.
use Prim.Native.Nat.{
  ℕ, zero, suc, ◌+◌, ◌*◌, ◌/◌, ◌%◌, ◌^◌, ◌≤◌, ◌<◌, min, max, bit_and, bit_or, digits,
  bit_and-bitwise, bit_or-bitwise,
}
use native.Mathlib.Nat.{pow-suc}
use mathlib.Core.Path.{◌≡◌, refl, ap}
use mathlib.Core.Bool.{Bool, true, ◌&&◌}
use native.Mathlib.Omega.{arith}

-- `x >> k` of an unsigned value.
abbrev pub shr : ℕ → ℕ → ℕ
shr x k = x / 2 ^ k

-- Every value below a bound passes a test: a proof by evaluation.
unfoldable pub every : ℕ → (ℕ → Bool) → Bool
every zero p = true
every (suc n) p = every n p && p n

pub every_below : (n : ℕ) (p : ℕ → Bool) (x : ℕ) → x < n → every n p ≡ true → p x ≡ true
unfolding every
every_below zero p x lt h = absurd (omega arith)
every_below (suc n) p x lt h = ground (arith, every_below n p x)

-- The recursion that `bit_and` stands for gives the same at every sufficient fuel.
abbrev conj_digits : ℕ → ℕ → ℕ → ℕ
conj_digits fuel a b = digits (λ _. zero) min fuel a b

conj_digits-fuel : (f g a b : ℕ) → a ≤ f → a ≤ g → conj_digits f a b ≡ conj_digits g a b
conj_digits-fuel zero zero a b p q = refl
conj_digits-fuel zero (suc g) zero b p q = refl
conj_digits-fuel zero (suc g) (suc a) b p q = absurd (omega arith)
conj_digits-fuel (suc f) zero zero b p q = refl
conj_digits-fuel (suc f) zero (suc a) b p q = absurd (omega arith)
conj_digits-fuel (suc f) (suc g) zero b p q = refl
conj_digits-fuel (suc f) (suc g) (suc a) b p q =
    omega (arith, conj_digits-fuel f g (suc a / 2) (b / 2) (omega arith) (omega arith))

zero-bit_and : (b : ℕ) → bit_and 0 b ≡ 0
zero-bit_and b = bit_and-bitwise 0 b

-- One binary digit of `bit_and`.
bit_and_digit : (a b : ℕ) → bit_and a b ≡ bit_and (a / 2) (b / 2) * 2 + min (a % 2) (b % 2)
bit_and_digit zero b = omega (arith, zero-bit_and b, zero-bit_and (b / 2))
bit_and_digit (suc a) b = omega (
  arith,
  bit_and-bitwise (suc a) b,
  bit_and-bitwise (suc a / 2) (b / 2),
  conj_digits-fuel a (suc a / 2) (suc a / 2) (b / 2) (omega arith) (omega arith),
)

bit_and-zero_below : (bound a : ℕ) → a ≤ bound → bit_and a 0 ≡ 0
bit_and-zero_below bound zero h = refl
bit_and-zero_below zero (suc a) h = absurd (omega arith)
bit_and-zero_below (suc n) (suc a) h =
    omega (arith, bit_and_digit (suc a) 0, bit_and-zero_below n (suc a / 2) (omega arith))

low1 : (a : ℕ) → bit_and a 1 ≡ a % 2
low1 a = omega (arith, bit_and_digit a 1, bit_and-zero_below (a / 2) (a / 2) (omega arith))

low3 : (a : ℕ) → bit_and a 3 ≡ a % 4
low3 a = omega (arith, bit_and_digit a 3, low1 (a / 2))

low7 : (a : ℕ) → bit_and a 7 ≡ a % 8
low7 a = omega (arith, bit_and_digit a 7, low3 (a / 2))

low15 : (a : ℕ) → bit_and a 15 ≡ a % 16
low15 a = omega (arith, bit_and_digit a 15, low7 (a / 2))

pub bit_and_1f : (a : ℕ) → bit_and a 0x1f ≡ a % 32
bit_and_1f a = omega (arith, bit_and_digit a 0x1f, low15 (a / 2))

low63 : (a : ℕ) → bit_and a 63 ≡ a % 64
low63 a = omega (arith, bit_and_digit a 63, bit_and_1f (a / 2))

pub bit_and_7f : (a : ℕ) → bit_and a 0x7f ≡ a % 128
bit_and_7f a = omega (arith, bit_and_digit a 0x7f, low63 (a / 2))

pub bit_and_ff : (a : ℕ) → bit_and a 0xff ≡ a % 256
bit_and_ff a = omega (arith, bit_and_digit a 0xff, bit_and_7f (a / 2))

-- The same for `bit_or`.
abbrev disj_digits : ℕ → ℕ → ℕ → ℕ
disj_digits fuel a b = digits (λ b. b) max fuel a b

disj_digits-fuel : (f g a b : ℕ) → a ≤ f → a ≤ g → disj_digits f a b ≡ disj_digits g a b
disj_digits-fuel zero zero a b p q = refl
disj_digits-fuel zero (suc g) zero b p q = refl
disj_digits-fuel zero (suc g) (suc a) b p q = absurd (omega arith)
disj_digits-fuel (suc f) zero zero b p q = refl
disj_digits-fuel (suc f) zero (suc a) b p q = absurd (omega arith)
disj_digits-fuel (suc f) (suc g) zero b p q = refl
disj_digits-fuel (suc f) (suc g) (suc a) b p q =
    omega (arith, disj_digits-fuel f g (suc a / 2) (b / 2) (omega arith) (omega arith))

zero-bit_or : (b : ℕ) → bit_or 0 b ≡ b
zero-bit_or b = bit_or-bitwise 0 b

bit_or_digit : (a b : ℕ) → bit_or a b ≡ bit_or (a / 2) (b / 2) * 2 + max (a % 2) (b % 2)
bit_or_digit zero b = omega (arith, zero-bit_or b, zero-bit_or (b / 2))
bit_or_digit (suc a) b = omega (
  arith,
  bit_or-bitwise (suc a) b,
  bit_or-bitwise (suc a / 2) (b / 2),
  disj_digits-fuel a (suc a / 2) (suc a / 2) (b / 2) (omega arith) (omega arith),
)

bit_or-zero_below : (bound a : ℕ) → a ≤ bound → bit_or a 0 ≡ a
bit_or-zero_below bound zero h = refl
bit_or-zero_below zero (suc a) h = absurd (omega arith)
bit_or-zero_below (suc n) (suc a) h =
    omega (arith, bit_or_digit (suc a) 0, bit_or-zero_below n (suc a / 2) (omega arith))

bit_or_double : (n y : ℕ) → bit_or n (y / 2) ≡ n + y / 2 → bit_or (n * 2) y ≡ n * 2 + y
bit_or_double n y h =
    let half : n * 2 / 2 ≡ n = omega arith in omega (arith, rw half at (bit_or_digit (n * 2) y), h)

-- Fields that do not overlap: `(x << k) | y` is a sum.
pub bit_or_fields : (k x y : ℕ) → y < 2 ^ k → bit_or (x * 2 ^ k) y ≡ x * 2 ^ k + y
bit_or_fields zero x y h =
    let e : y ≡ 0 = omega arith in
    rw (e, bit_or-zero_below (x * 1) (x * 1) (omega arith)) (omega arith)
bit_or_fields (suc k) x y h =
    let e : x * 2 ^ suc k ≡ x * 2 ^ k * 2 = omega (arith, ap (λ (t : ℕ). x * t) (pow-suc 2 k)) in
    rw e (bit_or_double (x * 2 ^ k) y (bit_or_fields k x (y / 2) (omega (arith, pow-suc 2 k))))
