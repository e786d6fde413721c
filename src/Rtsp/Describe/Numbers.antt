-- ===== src/Rtsp/Describe/Numbers.antt =====
-- The `sscanf` of camera/rtsp.c on what `%d` prints.
use car_detect.Prelude.{
  ℕ, zero, suc, ◌+◌, ◌^◌, ◌<◌, ◌≤◌, ◌≢◌, ◌≡◌, refl, ap, ◌∙◌, some, true, false, ◌==◌, leb, ◌&&◌, [],
  ◌∷◌, ◌++◌, Bytes, All, length, arith, append-nil, sym,
}
use car_detect.Rtsp.Text.{decimal, is_digit, is_space, skip_spaces, digits_value}
use car_detect.Rtsp.Text.Numerals.{
  NoDigit, digits_value-NoDigit, digits_value-print_digits, first_digit,
}
use car_detect.Rtsp.Text.Digits.{IsDigit, decimal-IsDigit}
use car_detect.Rtsp.Describe.Response.{
  skip_digits, scan_digits, scan_signed, scan_int, skip_name, scan_name, scan_slash, scan_rtpmap,
}

skip_digits-NoDigit : (rest : Bytes) → NoDigit rest → skip_digits rest ≡ rest
unfolding skip_digits
skip_digits-NoDigit [] h = refl
skip_digits-NoDigit (c ∷ rest) h = rw h refl

skip_digits-IsDigit :
    (w rest : Bytes) → All IsDigit w → NoDigit rest → skip_digits (w ++ rest) ≡ rest
unfolding skip_digits is_digit
skip_digits-IsDigit [] rest h none_left = skip_digits-NoDigit rest none_left
skip_digits-IsDigit (c ∷ w) rest (hc, h) none_left =
    let yes_digit : leb b'0' c && leb c b'9' ≡ true = ground arith in
    rw yes_digit (skip_digits-IsDigit w rest h none_left)

scan_int-digit :
    (d : ℕ) (cs : Bytes) → d < 10 → scan_int ((b'0' + d) ∷ cs) ≡ scan_digits false ((b'0' + d) ∷ cs)
unfolding scan_int scan_signed skip_spaces is_space
scan_int-digit d cs hd =
    let no_space : is_space (b'0' + d) ≡ false = ground arith in
    let no_minus : (b'0' + d == b'-') ≡ false = ground arith in
    let no_plus : (b'0' + d == b'+') ≡ false = ground arith in rw (no_space, no_minus, no_plus) refl

scan_digits-digit :
    (d n : ℕ) (cs rest : Bytes)
    → d < 10
    → digits_value 0 ((b'0' + d) ∷ cs) ≡ n
    → skip_digits ((b'0' + d) ∷ cs) ≡ rest
    → n < 2 ^ 31
    → scan_digits false ((b'0' + d) ∷ cs) ≡ some (n, rest)
unfolding scan_digits is_digit
scan_digits-digit d n cs rest hd e f h = ground arith

scan_int-decimal :
    (n : ℕ) (rest : Bytes)
    → n < 2 ^ 31
    → NoDigit rest
    → scan_int (decimal n ++ rest) ≡ some (n, rest)
unfolding decimal
scan_int-decimal n rest h t =
    let (d, cs, e, hd) = first_digit 9 n in
    let read : digits_value 0 ((b'0' + d) ∷ (cs ++ rest)) ≡ n =
      rw e at (digits_value-print_digits 9 n rest (omega arith) ∙ digits_value-NoDigit n rest t) in
    let behind : skip_digits ((b'0' + d) ∷ (cs ++ rest)) ≡ rest =
      rw e at (skip_digits-IsDigit (decimal n) rest (decimal-IsDigit n) t) in
    rw e
      (scan_int-digit d (cs ++ rest) hd ∙ scan_digits-digit d n (cs ++ rest) rest hd read behind h)

-- The bytes of the name of an encoding.
abbrev pub InName : ℕ → Type 0
InName c = (is_space c ≡ false) × (c ≢ b'/')

skip_name-InName :
    (room : ℕ) (w rest : Bytes)
    → All InName w
    → length w ≤ room
    → skip_name room (w ++ (b'/' ∷ rest)) ≡ b'/' ∷ rest
unfolding skip_name
skip_name-InName zero [] rest h fits = refl
skip_name-InName (suc room) [] rest h fits = refl
skip_name-InName zero (c ∷ w) rest h fits = absurd (omega arith)
skip_name-InName (suc room) (c ∷ w) rest ((hs, hc), h) fits =
    let other : (c == b'/') ≡ false = ground arith in
    rw other (skip_name-InName room w rest h (omega arith))

-- An encoding: one byte to 31.
abbrev pub IsEncoding : Bytes → Type 0
IsEncoding [] = ⊥
IsEncoding (c ∷ w) = InName c × (All InName w × (length w ≤ 30))

scan_name-IsEncoding :
    (enc rest : Bytes)
    → IsEncoding enc
    → scan_name (skip_spaces (b' ' ∷ (enc ++ (b'/' ∷ rest)))) ≡ some (b'/' ∷ rest)
unfolding scan_name skip_spaces
scan_name-IsEncoding [] rest h = elim h [ ]
scan_name-IsEncoding (c ∷ w) rest ((hs, hc), (h, fits)) =
    let other : (c == b'/') ≡ false = ground arith in
    rw (hs, other) (ap some (skip_name-InName 30 w rest h fits))

pub scan_rtpmap-decimal :
    (pt clock : ℕ) (enc : Bytes)
    → pt < 2 ^ 31
    → clock < 2 ^ 31
    → IsEncoding enc
    → scan_rtpmap (decimal pt ++ (b' ' ∷ (enc ++ (b'/' ∷ decimal clock)))) ≡ some (pt, clock)
unfolding scan_rtpmap scan_slash is_digit
scan_rtpmap-decimal pt clock enc hp hc he =
    let last : scan_int (decimal clock) ≡ some (clock, []) =
      ap scan_int (sym (append-nil (decimal clock))) ∙ scan_int-decimal clock [] hc tt in
    rw
      (
        scan_rtpmap,
        scan_int-decimal pt (b' ' ∷ (enc ++ (b'/' ∷ decimal clock))) hp refl,
        scan_name-IsEncoding enc (decimal clock) he,
        last,
      )
      refl
