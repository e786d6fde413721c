-- ===== src/Rtsp/Text/Numerals.antt =====
-- `%d` and `strtol`, for camera/rtsp.c: numbers that are printed and read back.
use car_detect.Prelude.{
  ℕ, zero, suc, ◌+◌, ◌-◌, ◌*◌, ◌/◌, ◌%◌, ◌^◌, ◌<◌, ◌≡◌, refl, ap, ◌∙◌, true, false, ◌&&◌, [], ◌∷◌,
  ◌++◌, Bytes, ltb, arith, some, append_assoc, Bool-cases, inl, inr, ltb→lt, lt→ltb, leb,
}
use native.Mathlib.Nat.{pow-suc}
use car_detect.Rtsp.Text.{
  print_digits, decimal, is_digit, skip_spaces, digits_value, signed_u16, strtol_u16, strchr,
}

-- What stands behind the number.
abbrev pub NoDigit : Bytes → Type 0
NoDigit [] = Unit {0}
NoDigit (c ∷ cs) = is_digit c ≡ false

pub digits_value-NoDigit : (n : ℕ) (rest : Bytes) → NoDigit rest → digits_value n rest ≡ n
unfolding digits_value
digits_value-NoDigit n [] h = refl
digits_value-NoDigit n (c ∷ rest) h = rw h

-- One digit more.
digits_value-digit :
    (acc d : ℕ) (rest : Bytes)
    → d < 10
    → digits_value acc ((b'0' + d) ∷ rest) ≡ digits_value (acc * 10 + d) rest
unfolding digits_value is_digit
digits_value-digit acc d rest h =
    let e : b'0' + d - b'0' ≡ d = omega arith in
    let yes_digit : leb b'0' (b'0' + d) && leb (b'0' + d) b'9' ≡ true = ground arith in
    rw (yes_digit, e)

pub digits_value-print_digits :
    (digits n : ℕ) (rest : Bytes)
    → n < 10 ^ suc digits
    → digits_value 0 (print_digits (suc digits) n ++ rest) ≡ digits_value n rest
unfolding print_digits
digits_value-print_digits zero n rest h =
    rw (lt→ltb n 10 (omega arith)) (
      digits_value-digit 0 n rest (omega arith) ∙ ap (λ (k : ℕ). digits_value k rest) (omega arith))
digits_value-print_digits (suc digits) n rest h = elim (Bool-cases (ltb n 10)) [
  | inl small ↦ rw small (
      digits_value-digit 0 n rest (ltb→lt _ _ small)
      ∙ ap (λ (k : ℕ). digits_value k rest) (omega arith))
  | inr large ↦
      rw (large, append_assoc)
        (digits_value-print_digits digits (n / 10) ((b'0' + n % 10) ∷ rest)
            (omega (arith, pow-suc 10 (suc digits)))
          ∙ digits_value-digit (n / 10) (n % 10) rest (omega arith)
          ∙ ap (λ (k : ℕ). digits_value k rest) (omega arith))
]

-- A printed number begins with a digit.
pub first_digit :
    (digits n : ℕ)
    → (d : ℕ) × (cs : Bytes) × (print_digits (suc digits) n ≡ (b'0' + d) ∷ cs) × (d < 10)
unfolding print_digits
first_digit zero n = elim (Bool-cases (ltb n 10)) [
  | inl small ↦ (n, [], rw small, ltb→lt _ _ small)
  | inr large ↦ (n % 10, [], rw large, omega arith)
]
first_digit (suc digits) n = elim (Bool-cases (ltb n 10)) [
  | inl small ↦ (n, [], rw small, ltb→lt _ _ small)
  | inr large ↦
      let (d, cs, e, h) = first_digit digits (n / 10) in
      (d, cs ++ ((b'0' + n % 10) ∷ []), rw (large, e), h)
]

strtol_u16-digit :
    (d v : ℕ) (cs : Bytes)
    → d < 10
    → digits_value 0 ((b'0' + d) ∷ cs) ≡ v
    → v < 2 ^ 16
    → strtol_u16 ((b'0' + d) ∷ cs) ≡ v
unfolding strtol_u16 signed_u16 skip_spaces
strtol_u16-digit d v cs h e b = ground arith

-- `strtol` reads what `%d` printed, for a number of 16 bits.
pub strtol_u16-decimal :
    (n : ℕ) (rest : Bytes) → n < 2 ^ 16 → NoDigit rest → strtol_u16 (decimal n ++ rest) ≡ n
unfolding decimal
strtol_u16-decimal n rest h t =
    let (d, cs, e, hd) = first_digit 9 n in
    let value : digits_value 0 ((b'0' + d) ∷ (cs ++ rest)) ≡ n =
      rw e at (digits_value-print_digits 9 n rest (omega arith) ∙ digits_value-NoDigit n rest t) in
    rw e (strtol_u16-digit d n (cs ++ rest) hd value h)

-- No '-' stands in a number.
strchr-digit : (d : ℕ) (rest : Bytes) → d < 10 → strchr ((b'0' + d) ∷ rest) b'-' ≡ strchr rest b'-'
unfolding strchr
strchr-digit d rest h = ground arith

strchr-print_digits :
    (digits n : ℕ) (rest : Bytes) → strchr (print_digits digits n ++ rest) b'-' ≡ strchr rest b'-'
unfolding print_digits
strchr-print_digits zero n rest = refl
strchr-print_digits (suc digits) n rest = elim (Bool-cases (ltb n 10)) [
  | inl small ↦ rw small (strchr-digit n rest (ltb→lt _ _ small))
  | inr large ↦
      rw (large, append_assoc)
        (strchr-print_digits digits (n / 10) ((b'0' + n % 10) ∷ rest)
          ∙ strchr-digit (n % 10) rest (omega arith))
]

pub strchr-decimal :
    (n : ℕ) (rest : Bytes) → strchr (decimal n ++ (b'-' ∷ rest)) b'-' ≡ some (b'-' ∷ rest)
unfolding decimal
strchr-decimal n rest = strchr-print_digits 10 n (b'-' ∷ rest) ∙ (unfold strchr in refl)
