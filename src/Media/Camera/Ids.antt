-- ===== src/Media/Camera/Ids.antt =====
-- The session ids that media/SessionManager.cc gives, as `rtsp_parse_setup_response` of camera/rtsp.c sees them.
use car_detect.Prelude.{
  All-map, ℕ, zero, suc, ◌-◌, ◌/◌, ◌%◌, ◌^◌, ◌≤◌, ◌<◌, ◌≡◌, refl, ◌⊎◌, inl, inr, false, [], ◌∷◌,
  ◌++◌, Bytes, length, length-append, All, All-append, arith, ltb, if_cases, ◌==◌, Bool-cases,
  ltb→lt,
}
use car_detect.Rtsp.Text.{decimal, decimal_signed, is_space, to_lower}
use car_detect.Rtsp.Setup.{id_bytes, skip_blanks}
use car_detect.Rtsp.Setup.Transport.{IsIdByte}
use car_detect.Media.Sessions.{hex_digit, print_hex, session_id_of}
use car_detect.Rtsp.Text.Digits.{IsDigit, decimal-IsDigit}
use car_detect.Media.Camera.Search.{same_letter}

-- The bytes of the server's session ids: hexadecimal digits and '-'.
abbrev pub IsHexByte : ℕ → Type 0
IsHexByte c = (IsDigit c) ⊎ (((b'a' ≤ c) × (c ≤ b'f')) ⊎ (c ≡ b'-'))

hex_digit-IsHexByte : (n : ℕ) → n < 16 → IsHexByte (hex_digit n)
hex_digit-IsHexByte n h = elim (Bool-cases (ltb n 10)) [
  | inl low ↦ rw low (inl (omega arith, omega (arith, ltb→lt _ _ low)))
  | inr high ↦ rw high (inr (inl (omega arith, ground arith)))
]

print_hex-IsHexByte :
    (digits n : ℕ) → All IsHexByte (print_hex digits n) × (length (print_hex digits n) ≤ digits)
unfolding print_hex
print_hex-IsHexByte zero n = (tt, omega arith)
print_hex-IsHexByte (suc digits) n =
    let (hex, short) = print_hex-IsHexByte digits (n / 16) in
    elim (Bool-cases (ltb n 16)) [
      | inl low ↦ rw low ((hex_digit-IsHexByte n (ltb→lt _ _ low), tt), omega arith)
      | inr high ↦ rw high (
        All-append IsHexByte (print_hex digits (n / 16)) (hex_digit (n % 16) ∷ []) hex
            (hex_digit-IsHexByte (n % 16) (omega arith), tt),
        omega (arith, short, length-append (print_hex digits (n / 16)) (hex_digit (n % 16) ∷ [])),
      )
    ]

-- Every id that the server gives is of that form and fits the camera's array.
pub session_id_of-IsHexByte :
    (time counter : ℕ)
    → All IsHexByte (session_id_of time counter) × (length (session_id_of time counter) ≤ 25)
unfolding session_id_of
session_id_of-IsHexByte time counter =
    let (hex, short) = print_hex-IsHexByte 16 time in
    let (hex', short') = print_hex-IsHexByte 8 counter in
    (
      All-append IsHexByte (print_hex 16 time) (b'-' ∷ print_hex 8 counter) hex
          (inr (inr refl), hex'),
      omega (arith, short, short', length-append (print_hex 16 time) (b'-' ∷ print_hex 8 counter)),
    )

-- None of these bytes, and no digit, is an 's'.
digit_no_s : (c : ℕ) → IsDigit c → same_letter b's' c ≡ false
unfolding to_lower
digit_no_s c h = ground arith

pub hex_no_s : (c : ℕ) → IsHexByte c → same_letter b's' c ≡ false
unfolding to_lower
hex_no_s c h = ground arith

pub hex_id : (c : ℕ) → IsHexByte c → IsIdByte c
unfolding is_space
hex_id c h = ground arith

pub decimal_no_s : (n : ℕ) → All (λ c. same_letter b's' c ≡ false) (decimal n)
decimal_no_s n = All-map digit_no_s (decimal n) (decimal-IsDigit n)

pub decimal_signed_no_s : (n : ℕ) → All (λ c. same_letter b's' c ≡ false) (decimal_signed n)
unfolding decimal_signed to_lower
decimal_signed_no_s n =
    if_cases (All (λ c. same_letter b's' c ≡ false)) (ltb n (2 ^ 31)) _ _ (λ _. decimal_no_s n)
      (λ _. (refl, decimal_no_s (2 ^ 32 - n)))

pub id_bytes-IsIdByte_then :
    (room : ℕ) (sid rest : Bytes)
    → All IsIdByte sid
    → length sid < room
    → id_bytes room (sid ++ (b';' ∷ rest)) ≡ sid
unfolding id_bytes
id_bytes-IsIdByte_then zero sid rest h small = absurd (omega arith)
id_bytes-IsIdByte_then (suc room) [] rest h small = refl
id_bytes-IsIdByte_then (suc room) (c ∷ sid) rest (hc, hs) small =
    rw (hc, id_bytes-IsIdByte_then room sid rest hs (omega arith)) refl

id_no_blank : (c : ℕ) → IsIdByte c → (c == b' ') ≡ false
unfolding is_space
id_no_blank c h = ground arith

pub skip_blanks-IsIdByte :
    (sid rest : Bytes)
    → All IsIdByte sid
    → skip_blanks (sid ++ (b';' ∷ rest)) ≡ sid ++ (b';' ∷ rest)
unfolding skip_blanks
skip_blanks-IsIdByte [] rest h = refl
skip_blanks-IsIdByte (c ∷ sid) rest (hc, hs) = rw (id_no_blank c hc) refl
