-- ===== src/Rtsp/Text.antt =====
-- What camera/rtsp.c uses of the C library's strings: `%d`, `snprintf` into a fixed buffer,
-- `strcasestr`, `strstr`, `strchr`, `strtol`, `isspace`.
pub mod Numerals
pub mod Digits
use car_detect.Prelude.{
  ℕ, zero, suc, ◌+◌, ◌-◌, ◌*◌, ◌/◌, ◌%◌, ◌^◌, ◌≤◌, ◌<◌, ◌≡◌, refl, ap, ◌∙◌, Option, none, some,
  Bool, true, false, ◌&&◌, ◌||◌, [], ◌∷◌, ◌++◌, Bytes, length, take, ltb, leb, ◌==◌, if◌then◌else◌,
  codes, String, arith, length-append, append_assoc, Bool-cases, inl, inr, ltb→lt, ltb_false→le,
  le→ltb_false, min,
}

-- `%d` of a value that is not negative, in at most `digits` digits.
unfoldable pub print_digits : ℕ → ℕ → Bytes
print_digits zero n = []
print_digits (suc digits) n =
    let more = print_digits digits (n / 10) in
    if ltb n 10 then (b'0' + n) ∷ [] else more ++ ((b'0' + n % 10) ∷ [])

-- An `int` has at most ten digits.
unfoldable pub decimal : ℕ → Bytes
unfolding print_digits
decimal n = print_digits 10 n

-- `%d` of an `uint32_t`: the upper half prints as negative numbers.
unfoldable pub decimal_signed : ℕ → Bytes
decimal_signed n = if ltb n (2 ^ 31) then decimal n else b'-' ∷ decimal (2 ^ 32 - n)

length-print_digits : (digits n : ℕ) → length (print_digits digits n) ≤ digits
unfolding print_digits
length-print_digits zero n = omega arith
length-print_digits (suc digits) n = ground (
  arith,
  length-append (print_digits digits (n / 10)) ((b'0' + n % 10) ∷ []),
  length-print_digits digits (n / 10),
)

pub length-decimal : (n : ℕ) → length (decimal n) ≤ 10
unfolding decimal
length-decimal n = length-print_digits 10 n

pub length-decimal_signed : (n : ℕ) → length (decimal_signed n) ≤ 11
unfolding decimal_signed
length-decimal_signed n = ground (arith, length-decimal n, length-decimal (2 ^ 32 - n))

unfoldable pub is_digit : ℕ → Bool
is_digit c = leb b'0' c && leb c b'9'

-- ' ', \t, \n, \v, \f, \r.
unfoldable pub is_space : ℕ → Bool
is_space c = c == b' ' || (leb 9 c && leb c 13)

-- The digits at the front, onto a number.
unfoldable pub digits_value : ℕ → Bytes → ℕ
unfolding is_digit
digits_value acc [] = acc
digits_value acc (c ∷ cs) =
    let more = digits_value (acc * 10 + (c - b'0')) cs in if is_digit c then more else acc

unfoldable pub skip_spaces : Bytes → Bytes
unfolding is_space
skip_spaces [] = []
skip_spaces (c ∷ cs) = let rest = skip_spaces cs in if is_space c then rest else c ∷ cs

-- `(uint16_t)strtol(s, NULL, 10)`, for a `long` of 64 bits: what does not fit becomes LONG_MAX or
-- LONG_MIN.
unfoldable pub signed_u16 : Bytes → ℕ
signed_u16 [] = 0
signed_u16 (c ∷ cs) =
    if c == b'-'
    then (2 ^ 64 - min (digits_value 0 cs) (2 ^ 63)) % 2 ^ 16
    else if c == b'+'
    then min (digits_value 0 cs) (2 ^ 63 - 1) % 2 ^ 16
    else min (digits_value 0 (c ∷ cs)) (2 ^ 63 - 1) % 2 ^ 16

unfoldable pub strtol_u16 : Bytes → ℕ
strtol_u16 s = signed_u16 (skip_spaces s)

unfoldable pub to_lower : ℕ → ℕ
to_lower c = if leb b'A' c && leb c b'Z' then c + 32 else c

-- Whether a text begins with another, by `same` on bytes.
unfoldable pub begins : (ℕ → ℕ → Bool) → Bytes → Bytes → Bool
begins same [] s = true
begins same (p ∷ ps) [] = false
begins same (p ∷ ps) (c ∷ cs) = same p c && begins same ps cs

-- The first place where a text is found: the text from there on.
unfoldable pub search : (ℕ → ℕ → Bool) → Bytes → Bytes → Option Bytes
search same pat [] = if begins same pat [] then some [] else none
search same pat (c ∷ cs) =
    let later = search same pat cs in if begins same pat (c ∷ cs) then some (c ∷ cs) else later

unfoldable pub strcasestr : Bytes → Bytes → Option Bytes
unfolding search begins to_lower
strcasestr s pat = search (λ a b. to_lower a == to_lower b) pat s

unfoldable pub strstr : Bytes → Bytes → Option Bytes
unfolding search begins
strstr s pat = search ◌==◌ pat s

unfoldable pub strchr : Bytes → ℕ → Option Bytes
strchr [] c = none
strchr (a ∷ s) c = let later = strchr s c in if a == c then some (a ∷ s) else later

unfoldable pub starts_with : Bytes → Bytes → Bool
unfolding begins
starts_with s prefix = begins ◌==◌ prefix s
