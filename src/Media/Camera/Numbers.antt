-- ===== src/Media/Camera/Numbers.antt =====
-- `std::stoul` and `std::atoi` of the server (media/RtspConnect.cc) on what `%d` of the camera
-- (camera/rtsp.c) has printed.
use car_detect.Prelude.{
  ℕ, ◌+◌, ◌-◌, ◌%◌, ◌^◌, ◌<◌, ◌==◌, ◌≡◌, refl, sym, ap, ◌∙◌, some, false, [], ◌∷◌, Bytes, ltb,
  arith, append-nil, Bool-cases, inl, inr, ltb_false→le,
}
use car_detect.Rtsp.Text.{
  print_digits, decimal, decimal_signed, is_digit, is_space, skip_spaces, digits_value,
}
use car_detect.Rtsp.Text.Numerals.{digits_value-NoDigit, digits_value-print_digits, first_digit}
use car_detect.Media.Text.{stoul, stoul_signed, stoul_digits, negated, atoi_u32, signed_u32}

-- The digits, read alone.
decimal_value :
    (n : ℕ)
    → n < 10 ^ 10
    → (d : ℕ) × (cs : Bytes) × (decimal n ≡ (b'0' + d) ∷ cs)
      × (d < 10)
      × (digits_value 0 ((b'0' + d) ∷ cs) ≡ n)
unfolding decimal
decimal_value n h =
    let (d, cs, e, small) = first_digit 9 n in
    (
      d,
      cs,
      e,
      small,
      ap (digits_value 0) (sym e ∙ sym (append-nil (print_digits 10 n)))
          ∙ digits_value-print_digits 9 n [] h
          ∙ digits_value-NoDigit n [] tt,
    )

stoul_digits-digit :
    (d n : ℕ) (cs : Bytes)
    → d < 10
    → digits_value 0 ((b'0' + d) ∷ cs) ≡ n
    → n < 2 ^ 64
    → stoul_digits ((b'0' + d) ∷ cs) ≡ some n
unfolding stoul_digits is_digit
stoul_digits-digit d n cs hd e h = ground arith

stoul-digit :
    (d : ℕ) (cs : Bytes) → d < 10 → stoul ((b'0' + d) ∷ cs) ≡ stoul_digits ((b'0' + d) ∷ cs)
unfolding stoul stoul_signed skip_spaces is_space
stoul-digit d cs hd =
    let no_space : is_space (b'0' + d) ≡ false = ground arith in
    let no_minus : (b'0' + d == b'-') ≡ false = ground arith in
    let no_plus : (b'0' + d == b'+') ≡ false = ground arith in rw (no_space, no_minus, no_plus) refl

stoul_digits-decimal : (n : ℕ) → n < 10 ^ 10 → stoul_digits (decimal n) ≡ some n
stoul_digits-decimal n h =
    let (d, cs, e, hd, value) = decimal_value n h in
    rw e (stoul_digits-digit d n cs hd value (omega arith))

pub stoul-decimal : (n : ℕ) → n < 10 ^ 10 → stoul (decimal n) ≡ some n
stoul-decimal n h =
    let (d, cs, e, hd, value) = decimal_value n h in
    rw e (stoul-digit d cs hd ∙ stoul_digits-digit d n cs hd value (omega arith))

stoul-minus : (s : Bytes) → stoul (b'-' ∷ s) ≡ negated (stoul_digits s)
unfolding stoul stoul_signed skip_spaces is_space
stoul-minus s = refl

-- The server reads the number of the KCP conversation that the camera prints as a signed one.
pub stoul-decimal_signed :
    (n : ℕ) → n < 2 ^ 32 → (m : ℕ) × (stoul (decimal_signed n) ≡ some m) × (m % 2 ^ 32 ≡ n)
unfolding decimal_signed
stoul-decimal_signed n h = elim (Bool-cases (ltb n (2 ^ 31))) [
  | inl low ↦ (n, rw low (stoul-decimal n (omega arith)), omega arith)
  | inr high ↦
      let up = ltb_false→le n (2 ^ 31) high in
      (
        (2 ^ 64 - (2 ^ 32 - n)) % 2 ^ 64,
        rw (high, stoul-minus, stoul_digits-decimal (2 ^ 32 - n) (omega arith)) refl,
        omega (arith, up),
      )
]

atoi_u32-digit :
    (d n : ℕ) (cs : Bytes)
    → d < 10
    → digits_value 0 ((b'0' + d) ∷ cs) ≡ n
    → n < 2 ^ 32
    → atoi_u32 ((b'0' + d) ∷ cs) ≡ n
unfolding atoi_u32 signed_u32 skip_spaces is_space
atoi_u32-digit d n cs hd e h =
    let no_space : is_space (b'0' + d) ≡ false = ground arith in
    let no_minus : (b'0' + d == b'-') ≡ false = ground arith in
    let no_plus : (b'0' + d == b'+') ≡ false = ground arith in
    rw (no_space, no_minus, no_plus, e) (omega arith)

pub atoi_u32-decimal : (n : ℕ) → n < 2 ^ 32 → atoi_u32 (decimal n) ≡ n
atoi_u32-decimal n h =
    let (d, cs, e, hd, value) = decimal_value n (omega arith) in
    rw e (atoi_u32-digit d n cs hd value h)

-- A printed number is made of digits.
