-- ===== src/Rtsp/Describe/Lines.antt =====
-- The lines of an SDP text, as the loop of `rtsp_parse_describe_response` of camera/rtsp.c cuts and
-- trims them.
use car_detect.Prelude.{
  ℕ, zero, suc, ◌≤◌, ◌≢◌, ◌≡◌, refl, sym, ap, ◌∙◌, false, ◌==◌, [], ◌∷◌, ◌++◌, Bytes, All,
  All-append, length, length-append, arith, append_assoc,
}
use car_detect.Rtsp.Session.{RtspSession}
use car_detect.Rtsp.Describe.{is_empty, is_end, is_blank, trim_end, trim_start, trim_spaces}
use car_detect.Rtsp.Describe.Trim.{IsTrimmed}
use car_detect.Rtsp.Describe.Response.{cut_line, take_line, parse_sdp}

-- No '\n'.
abbrev pub InRow : ℕ → Type 0
InRow c = c ≢ 10

-- No blank, and no end of a line.
abbrev pub InAddress : ℕ → Type 0
InAddress c = is_end c ≡ false

pub InAddress→InRow : (c : ℕ) → InAddress c → InRow c
InAddress→InRow c h = ground arith

cut_line-InRow :
    (room : ℕ) (line rest : Bytes)
    → All InRow line
    → length line ≤ room
    → cut_line room (line ++ (10 ∷ rest)) ≡ (line, rest)
unfolding cut_line
cut_line-InRow zero [] rest h fits = refl
cut_line-InRow (suc room) [] rest h fits = refl
cut_line-InRow zero (c ∷ line) rest h fits = absurd (omega arith)
cut_line-InRow (suc room) (c ∷ line) rest (hc, h) fits =
    let other : (c == 10) ≡ false = ground arith in
    rw (other, cut_line-InRow room line rest h (omega arith)) refl

-- Cutting off at the end.
pub trim_end-stays :
    (c : ℕ) (s : Bytes) → trim_end s ≡ s → is_empty s ≡ false → trim_end (c ∷ s) ≡ c ∷ s
unfolding trim_end
trim_end-stays c s h some_left = rw (h, some_left) refl

pub trim_end-front :
    (w s : Bytes) → trim_end s ≡ s → is_empty s ≡ false → trim_end (w ++ s) ≡ w ++ s
trim_end-front [] s h some_left = h
trim_end-front (c ∷ []) s h some_left = trim_end-stays c s h some_left
trim_end-front (c ∷ d ∷ w) s h some_left =
    trim_end-stays c (d ∷ (w ++ s)) (trim_end-front (d ∷ w) s h some_left) refl

pub trim_end-InAddress : (s : Bytes) → All InAddress s → trim_end s ≡ s
unfolding trim_end
trim_end-InAddress [] h = refl
trim_end-InAddress (c ∷ []) (hc, h) = rw hc refl
trim_end-InAddress (c ∷ d ∷ s) (hc, h) =
    trim_end-stays c (d ∷ s) (trim_end-InAddress (d ∷ s) h) refl

trim_end-cr : (s : Bytes) → trim_end (s ++ (13 ∷ [])) ≡ trim_end s
unfolding trim_end
trim_end-cr [] = refl
trim_end-cr (c ∷ s) = rw (trim_end-cr s) refl

pub trim_spaces-cr : (s : Bytes) → IsTrimmed s → trim_spaces (s ++ (13 ∷ [])) ≡ s
unfolding trim_spaces
trim_spaces-cr s (front, back) = ap trim_start (trim_end-cr s ∙ back) ∙ front

-- A text without blanks.
pub InAddress-IsTrimmed : (s : Bytes) → All InAddress s → IsTrimmed s
unfolding trim_start
InAddress-IsTrimmed [] h = (refl, trim_end-InAddress [] h)
InAddress-IsTrimmed (c ∷ s) (hc, h) =
    let solid : is_blank c ≡ false = ground arith in
    (rw solid refl, trim_end-InAddress (c ∷ s) (hc, h))

pub trim_spaces-IsTrimmed_same : (s : Bytes) → IsTrimmed s → trim_spaces s ≡ s
unfolding trim_spaces
trim_spaces-IsTrimmed_same s (front, back) = ap trim_start back ∙ front

pub is_empty-append : (s : Bytes) (c : ℕ) (t : Bytes) → is_empty (s ++ (c ∷ t)) ≡ false
is_empty-append [] c t = refl
is_empty-append (d ∷ s) c t = refl

-- One round of the loop.
module _ {K : Type 0} where
  parse_sdp-Full :
      (fuel : ℕ) (text line rest : Bytes) (s : RtspSession K)
      → is_empty text ≡ false
      → cut_line 255 text ≡ (line, rest)
      → parse_sdp (suc fuel) text s ≡ parse_sdp fuel rest (take_line (trim_spaces line) s)
  unfolding parse_sdp
  parse_sdp-Full fuel [] line rest s h e = absurd (ground arith)
  parse_sdp-Full fuel (c ∷ p) line rest s h e =
      ap (λ (q : Bytes × Bytes). parse_sdp fuel q.1 (take_line (trim_spaces q.0) s)) e

  pub parse_sdp-line :
      (fuel : ℕ) (line rest : Bytes) (s : RtspSession K)
      → IsTrimmed line
      → All InRow line
      → length line ≤ 254
      → parse_sdp (suc fuel) (line ++ (13 ∷ 10 ∷ rest)) s ≡ parse_sdp fuel rest (take_line line s)
  parse_sdp-line fuel line rest s trimmed row fits =
      let shape : line ++ (13 ∷ 10 ∷ rest) ≡ (line ++ (13 ∷ [])) ++ (10 ∷ rest) =
        sym (append_assoc line (13 ∷ []) (10 ∷ rest)) in
      let row' : All InRow (line ++ (13 ∷ [])) =
        All-append InRow line (13 ∷ []) row (omega arith, tt) in
      parse_sdp-Full fuel (line ++ (13 ∷ 10 ∷ rest)) (line ++ (13 ∷ [])) rest s
        (is_empty-append line 13 (10 ∷ rest))
        (ap (cut_line 255) shape
          ∙ cut_line-InRow 255 (line ++ (13 ∷ [])) rest row'
              (omega (arith, length-append line (13 ∷ []))))
      ∙ ap (λ l. parse_sdp fuel rest (take_line l s)) (trim_spaces-cr line trimmed)
