-- ===== src/Rtsp/Describe/Sdp.antt =====
-- The SDP text of a DESCRIBE response, and what `rtsp_parse_describe_response` of camera/rtsp.c takes
-- from it.
use car_detect.Prelude.{
  ℕ, zero, suc, ◌^◌, ◌<◌, ◌≤◌, ◌≡◌, refl, ap, ◌∙◌, Bool, true, false, not, ◌&&◌, ◌==◌, and_right,
  List, [], ◌∷◌, ◌++◌, Bytes, All, All-append, All-map, length, length-append, take, arith, codes,
  take_all,
}
use car_detect.Rtsp.Session.{RtspSession}
use car_detect.Rtsp.Text.{decimal, begins, starts_with, length-decimal}
use car_detect.Rtsp.Text.Numerals.{first_digit}
use car_detect.Rtsp.Text.Digits.{IsDigit, decimal-IsDigit}
use car_detect.Rtsp.Describe.{is_empty, trim_end, trim_start}
use car_detect.Rtsp.Describe.Trim.{IsTrimmed}
use car_detect.Rtsp.Describe.Response.{with_rtpmap, take_line, parse_sdp}
use car_detect.Rtsp.Describe.Numbers.{IsEncoding, scan_rtpmap-decimal}
use car_detect.Rtsp.Describe.Lines.{
  is_empty-append, trim_end-stays, InRow, InAddress, InAddress→InRow, trim_end-front,
  trim_end-InAddress, InAddress-IsTrimmed, trim_spaces-IsTrimmed_same, parse_sdp-line,
}

-- The lines of an SDP text: the control attribute, the mapping of a payload type, and the others.
pub data SdpLine : Type 0 where
  control : Bytes → SdpLine
  rtpmap : ℕ → Bytes → ℕ → SdpLine
  other : Bytes → SdpLine

abbrev pub sdp_line : SdpLine → Bytes
sdp_line (control v) = codes "a=control:" ++ v
sdp_line (rtpmap pt enc clock) =
    codes "a=rtpmap:" ++ (decimal pt ++ (b' ' ∷ (enc ++ (b'/' ∷ decimal clock))))
sdp_line (other l) = l

abbrev pub sdp_text : List SdpLine → Bytes
sdp_text [] = []
sdp_text (l ∷ ls) = sdp_line l ++ (13 ∷ 10 ∷ sdp_text ls)

-- An address: no blanks, not empty, of at most so many bytes.
abbrev pub IsAddress : ℕ → Bytes → Type 0
IsAddress room v = All InAddress v × (is_empty v ≡ false) × (length v ≤ room)

abbrev pub IsSdpLine : SdpLine → Type 0
IsSdpLine (control v) = IsAddress 244 v
IsSdpLine (rtpmap pt enc clock) = (pt < 2 ^ 31) × (clock < 2 ^ 31) × IsEncoding enc × All InRow enc
IsSdpLine (other l) =
    IsTrimmed l
    × All InRow l
    × (length l ≤ 254)
    × (starts_with l (codes "a=control:") ≡ false)
    × (starts_with l (codes "a=rtpmap:") ≡ false)

-- What the last such line says.
abbrev pub last_control : Bytes → List SdpLine → Bytes
last_control v [] = v
last_control v (control v' ∷ ls) = last_control v' ls
last_control v (rtpmap pt enc clock ∷ ls) = last_control v ls
last_control v (other l ∷ ls) = last_control v ls

abbrev pub last_rtpmap : ℕ × ℕ → List SdpLine → ℕ × ℕ
last_rtpmap q [] = q
last_rtpmap q (control v ∷ ls) = last_rtpmap q ls
last_rtpmap q (rtpmap pt enc clock ∷ ls) = last_rtpmap (pt, clock) ls
last_rtpmap q (other l ∷ ls) = last_rtpmap q ls

-- A fixed text, by evaluation.
abbrev pub no_newline : Bytes → Bool
no_newline [] = true
no_newline (c ∷ s) = not (c == 10) && no_newline s

pub in_row : (s : Bytes) → no_newline s ≡ true → All InRow s
in_row [] h = tt
in_row (c ∷ s) h = (ground arith, in_row s (and_right (not (c == 10)) (no_newline s) h))

digit-InAddress : (c : ℕ) → IsDigit c → InAddress c
digit-InAddress c h = ground arith

trim_end-decimal : (n : ℕ) → trim_end (decimal n) ≡ decimal n
trim_end-decimal n =
    trim_end-InAddress (decimal n) (All-map digit-InAddress (decimal n) (decimal-IsDigit n))

is_empty-decimal : (n : ℕ) → is_empty (decimal n) ≡ false
unfolding decimal
is_empty-decimal n = let (d, cs, e, hd) = first_digit 9 n in rw e refl

trim_end-rtpmap :
    (pt clock : ℕ) (enc : Bytes)
    → trim_end (sdp_line (rtpmap pt enc clock)) ≡ sdp_line (rtpmap pt enc clock)
trim_end-rtpmap pt clock enc =
    let behind_slash =
      trim_end-stays b'/' (decimal clock) (trim_end-decimal clock) (is_empty-decimal clock) in
    let behind_blank =
      trim_end-stays b' ' (enc ++ (b'/' ∷ decimal clock))
        (trim_end-front enc (b'/' ∷ decimal clock) behind_slash refl)
        (is_empty-append enc b'/' (decimal clock)) in
    trim_end-front (codes "a=rtpmap:") (decimal pt ++ (b' ' ∷ (enc ++ (b'/' ∷ decimal clock))))
      (trim_end-front (decimal pt) (b' ' ∷ (enc ++ (b'/' ∷ decimal clock))) behind_blank refl)
      (is_empty-append (decimal pt) b' ' (enc ++ (b'/' ∷ decimal clock)))

sdp_line-IsTrimmed : (l : SdpLine) → IsSdpLine l → IsTrimmed (sdp_line l)
unfolding trim_start
sdp_line-IsTrimmed (control v) (h, full, fits) =
    (refl, trim_end-front (codes "a=control:") v (trim_end-InAddress v h) full)
sdp_line-IsTrimmed (rtpmap pt enc clock) (hp, hc, he, hr) = (refl, trim_end-rtpmap pt clock enc)
sdp_line-IsTrimmed (other l) (h, row, fits, no_control, no_rtpmap) = h

decimal-InRow : (n : ℕ) → All InRow (decimal n)
decimal-InRow n = All-map digit-InRow (decimal n) (decimal-IsDigit n)
  where
    digit-InRow : (c : ℕ) → IsDigit c → InRow c
    digit-InRow c h = omega arith

sdp_line-InRow : (l : SdpLine) → IsSdpLine l → All InRow (sdp_line l)
sdp_line-InRow (control v) (h, full, fits) =
    All-append InRow (codes "a=control:") v (in_row (codes "a=control:") refl)
      (All-map InAddress→InRow v h)
sdp_line-InRow (rtpmap pt enc clock) (hp, hc, he, hr) =
    All-append InRow (codes "a=rtpmap:") _ (in_row (codes "a=rtpmap:") refl) (
      All-append InRow (decimal pt) _ (decimal-InRow pt)
        (omega arith, All-append InRow enc _ hr (omega arith, decimal-InRow clock)))
sdp_line-InRow (other l) (h, row, fits, no_control, no_rtpmap) = row

length-IsEncoding : (enc : Bytes) → IsEncoding enc → length enc ≤ 31
length-IsEncoding [] h = elim h [ ]
length-IsEncoding (c ∷ w) (hc, (h, fits)) = omega arith

length-sdp_line : (l : SdpLine) → IsSdpLine l → length (sdp_line l) ≤ 254
length-sdp_line (control v) (h, full, fits) = omega arith
length-sdp_line (rtpmap pt enc clock) (hp, hc, he, hr) = omega (
  arith,
  length-append (decimal pt) (b' ' ∷ (enc ++ (b'/' ∷ decimal clock))),
  length-append enc (b'/' ∷ decimal clock),
  length-decimal pt,
  length-decimal clock,
  length-IsEncoding enc he,
)
length-sdp_line (other l) (h, row, fits, no_control, no_rtpmap) = fits

module _ {K : Type 0} where
  with_line : SdpLine → RtspSession K → RtspSession K
  with_line (control v) s = record s { control_attr = v }
  with_line (rtpmap pt enc clock) s = record s { payload_type = pt; clock_rate = clock }
  with_line (other l) s = s

  take_line-sdp_line :
      (l : SdpLine) (s : RtspSession K) → IsSdpLine l → take_line (sdp_line l) s ≡ with_line l s
  unfolding take_line with_rtpmap starts_with begins with_line
  take_line-sdp_line (control v) s (h, full, fits) =
      ap (λ v'. record s { control_attr = v' })
        (ap (take 255) (trim_spaces-IsTrimmed_same v (InAddress-IsTrimmed v h))
          ∙ take_all 255 v (omega arith))
  take_line-sdp_line (rtpmap pt enc clock) s (hp, hc, he, hr) =
      ap (λ o. with_rtpmap o s) (scan_rtpmap-decimal pt clock enc hp hc he)
  take_line-sdp_line (other []) s h = refl
  take_line-sdp_line (other (c ∷ l)) s (h, row, fits, no_control, no_rtpmap) =
      rw (take_line, no_control, no_rtpmap) refl

  -- A session that has read the lines.
  unfoldable pub described : List SdpLine → RtspSession K → RtspSession K
  described ls s = record s {
    control_attr = last_control s.control_attr ls;
    payload_type = (last_rtpmap (s.payload_type, s.clock_rate) ls).0;
    clock_rate = (last_rtpmap (s.payload_type, s.clock_rate) ls).1;
  }

  described-with_line :
      (l : SdpLine) (ls : List SdpLine) (s : RtspSession K)
      → described ls (with_line l s) ≡ described (l ∷ ls) s
  unfolding described with_line
  described-with_line (control v) ls s = refl
  described-with_line (rtpmap pt enc clock) ls s = refl
  described-with_line (other l) ls s = refl

  pub parse_sdp-sdp_text :
      (fuel : ℕ) (ls : List SdpLine) (s : RtspSession K)
      → All IsSdpLine ls
      → length (sdp_text ls) ≤ fuel
      → parse_sdp fuel (sdp_text ls) s ≡ described ls s
  unfolding parse_sdp described
  parse_sdp-sdp_text fuel [] s h enough = refl
  parse_sdp-sdp_text zero (l ∷ ls) s h enough =
      absurd (omega (arith, length-append (sdp_line l) (13 ∷ 10 ∷ sdp_text ls)))
  parse_sdp-sdp_text (suc fuel) (l ∷ ls) s (hl, h) enough =
      parse_sdp-line fuel (sdp_line l) (sdp_text ls) s (sdp_line-IsTrimmed l hl)
        (sdp_line-InRow l hl) (length-sdp_line l hl)
      ∙ ap (parse_sdp fuel (sdp_text ls)) (take_line-sdp_line l s hl)
      ∙ parse_sdp-sdp_text fuel ls (with_line l s) h
          (omega (arith, length-append (sdp_line l) (13 ∷ 10 ∷ sdp_text ls)))
      ∙ described-with_line l ls s
