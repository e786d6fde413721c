-- ===== src/Rtsp/Describe.antt =====
-- camera/rtsp.c: `trim_spaces` and `build_setup_url`, which the parsing of the DESCRIBE response uses.
pub mod Trim
pub mod Response
pub mod Numbers
pub mod Lines
pub mod Sdp
pub mod Parsed
use car_detect.Prelude.{
  ℕ, Bool, true, false, not, ◌&&◌, ◌||◌, [], ◌∷◌, ◌++◌, Bytes, take, ◌==◌, if◌then◌else◌, codes,
}
use car_detect.Rtsp.Session.{RtspSession}
use car_detect.Rtsp.Text.{starts_with}

abbrev pub is_empty : Bytes → Bool
is_empty [] = true
is_empty (c ∷ s) = false

-- What is cut off at the end: '\r', '\n', blanks and tabs.
abbrev pub is_end : ℕ → Bool
is_end c = c == 13 || c == 10 || c == b' ' || c == 9

-- What is cut off at the front: blanks and tabs.
abbrev pub is_blank : ℕ → Bool
is_blank c = c == b' ' || c == 9

unfoldable pub trim_end : Bytes → Bytes
trim_end [] = []
trim_end (c ∷ s) = let rest = trim_end s in if is_empty rest && is_end c then [] else c ∷ rest

unfoldable pub trim_start : Bytes → Bytes
trim_start [] = []
trim_start (c ∷ s) = let rest = trim_start s in if is_blank c then rest else c ∷ s

unfoldable pub trim_spaces : Bytes → Bytes
unfolding trim_end trim_start
trim_spaces s = trim_start (trim_end s)

-- Whether the text begins with the byte, or ends with it.
abbrev pub first_is : ℕ → Bytes → Bool
first_is c [] = false
first_is c (a ∷ s) = a == c

unfoldable pub last_is : ℕ → Bytes → Bool
last_is c [] = false
last_is c (a ∷ []) = a == c
last_is c (a ∷ b ∷ s) = last_is c (b ∷ s)

-- A control attribute that is an address of its own, or one relative to the base; `snprintf` cuts off
-- what does not fit `char setup_url[512]`.
unfoldable pub setup_url_for : Bytes → Bytes → Bytes
unfolding last_is
setup_url_for base ctrl =
    if starts_with ctrl (codes "rtsp://")
    then take 511 ctrl
    else if not (is_empty base)
        && (not (last_is b'/' base) && (not (is_empty ctrl) && not (first_is b'/' ctrl)))
    then take 511 (base ++ (b'/' ∷ ctrl))
    else take 511 (base ++ ctrl)

unfoldable pub build_setup_url : {K : Type 0} → RtspSession K → Bytes → RtspSession K
unfolding setup_url_for
build_setup_url s request_url =
    let base = if is_empty s.content_base then request_url else s.content_base in
    record s { setup_url = setup_url_for base s.control_attr }
