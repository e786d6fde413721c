-- ===== src/Media/Camera/Lines.antt =====
-- How `parseRequest` of media/RtspConnect.cc reads the lines that camera/rtsp.c writes.
use car_detect.Prelude.{ℕ, ◌≡◌, ◌≢◌, refl, false, [], ◌∷◌, ◌++◌, Bytes, All, arith, ◌==◌}
use car_detect.Rtsp.Text.{is_space}
use car_detect.Media.Text.{lines, word_of, erase_front, erase_back, onto_kept, strip, is_blank4}

-- A byte of a line; one of a word, and of a value.
abbrev pub InLine : ℕ → Type 0
InLine c = c ≢ 10

abbrev pub InWord : ℕ → Type 0
InWord c = is_space c ≡ false

pub lines_line : (l rest : Bytes) → All InLine l → lines (l ++ (10 ∷ rest)) ≡ l ∷ lines rest
unfolding lines
lines_line [] rest h = refl
lines_line (c ∷ l) rest (hc, hl) =
    let other : (c == 10) ≡ false = ground arith in rw (other, lines_line l rest hl) refl

pub word_of_word : (s rest : Bytes) → All InWord s → word_of (s ++ (b' ' ∷ rest)) ≡ (s, b' ' ∷ rest)
unfolding word_of
word_of_word [] rest h = unfold is_space in refl
word_of_word (c ∷ s) rest (hc, hs) = rw (hc, word_of_word s rest hs) refl

-- A value has no blank at its end.
abbrev pub IsValue : ℕ → Type 0
IsValue c = is_blank4 c ≡ false

erase_back-IsValue : (v : Bytes) → All IsValue v → erase_back is_blank4 (v ++ (13 ∷ [])) ≡ v
unfolding erase_back
erase_back-IsValue [] h = refl
erase_back-IsValue (c ∷ v) (hc, hv) = rw (erase_back-IsValue v hv) (kept v)
  where
    kept : (u : Bytes) → onto_kept is_blank4 c u ≡ c ∷ u
    kept [] = rw hc refl
    kept (d ∷ u) = refl

-- What stands behind ": " in a line, read back.
pub strip-IsValue : (v : Bytes) → All IsValue v → strip is_blank4 (b' ' ∷ (v ++ (13 ∷ []))) ≡ v
unfolding strip erase_front erase_back
strip-IsValue [] h = refl
strip-IsValue (c ∷ v) (hc, hv) = rw hc (erase_back-IsValue (c ∷ v) (hc, hv))
