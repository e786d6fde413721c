-- ===== src/Monitor/Conversation/Lines.antt =====
-- The bytes of the lines that a viewer (car_detect_qt/monitorclientwidget.cpp) and the monitor server
-- (media/MonitorServer.cc) write.
use car_detect.Prelude.{
  All-map, ℕ, ◌≡◌, ◌≢◌, Bool, true, not, ◌&&◌, [], ◌∷◌, ◌++◌, Bytes, All, All-append, arith, ◌==◌,
  and_left, and_right,
}
use car_detect.Rtsp.Text.{decimal, is_space}
use car_detect.Rtsp.Text.Digits.{IsDigit, decimal-IsDigit}
use car_detect.Media.Camera.Lines.{InWord}
use car_detect.Media.Camera.Ids.{IsHexByte}
use car_detect.Monitor.Conversation.Texts.{Inside, IsLine}

-- A fixed text, by evaluation.
abbrev pub all_inside : Bytes → Bool
all_inside [] = true
all_inside (c ∷ s) = (not (c == 13) && not (c == 10)) && all_inside s

inside : (c : ℕ) → (not (c == 13) && not (c == 10)) ≡ true → Inside c
inside c h = ground arith

pub text-Inside : (s : Bytes) → all_inside s ≡ true → All Inside s
text-Inside [] h = tt
text-Inside (c ∷ s) h = (
  inside c (and_left (not (c == 13) && not (c == 10)) (all_inside s) h),
  text-Inside s (and_right (not (c == 13) && not (c == 10)) (all_inside s) h),
)

pub InWord→Inside : (c : ℕ) → InWord c → Inside c
unfolding is_space
InWord→Inside c h = ground arith

pub IsDigit→InWord : (c : ℕ) → IsDigit c → InWord c
unfolding is_space
IsDigit→InWord c h = ground arith

pub IsHexByte→InWord : (c : ℕ) → IsHexByte c → InWord c
unfolding is_space
IsHexByte→InWord c h = ground arith

pub decimal-InWord : (n : ℕ) → All InWord (decimal n)
decimal-InWord n = All-map IsDigit→InWord (decimal n) (decimal-IsDigit n)

pub InWord-other : (c : ℕ) → InWord c → c ≢ b' '
unfolding is_space
InWord-other c h = ground arith

-- A word behind a fixed text makes a line.
pub text-IsLine :
    (c : ℕ) (text w : Bytes)
    → Inside c
    → all_inside text ≡ true
    → All InWord w
    → IsLine ((c ∷ text) ++ w)
text-IsLine c text w hc ht hw =
    (hc, All-append Inside text w (text-Inside text ht) (All-map InWord→Inside w hw))
