-- ===== src/Media/Camera/Search.antt =====
-- Where the camera (camera/rtsp.c, `strcasestr`) finds a keyword in a text of known pieces.
use car_detect.Prelude.{
  ℕ, ◌≡◌, refl, ◌∙◌, Bool, true, false, not, ◌&&◌, List, [], ◌∷◌, ◌++◌, Bytes, All, and_left,
  and_right, arith, ◌==◌,
}
use car_detect.Rtsp.Text.{begins, search, strcasestr, to_lower}

abbrev pub same_letter : ℕ → ℕ → Bool
same_letter a b = to_lower a == to_lower b

-- Whether a keyword may begin at the front of a piece, whatever follows the piece.
unfoldable pub may_begin : Bytes → Bytes → Bool
unfolding to_lower
may_begin [] s = true
may_begin (p ∷ ps) [] = true
may_begin (p ∷ ps) (c ∷ s) = same_letter p c && may_begin ps s

-- The keyword begins nowhere in the piece.
unfoldable pub is_clear : Bytes → Bytes → Bool
unfolding may_begin
is_clear pat [] = true
is_clear pat (c ∷ s) = not (may_begin pat (c ∷ s)) && is_clear pat s

begins-may_begin :
    (pat s rest : Bytes) → may_begin pat s ≡ false → begins same_letter pat (s ++ rest) ≡ false
unfolding begins may_begin
begins-may_begin [] s rest h = h
begins-may_begin (p ∷ ps) [] rest h = absurd (ground arith)
begins-may_begin (p ∷ ps) (c ∷ s) rest h = ground (arith, begins-may_begin ps s rest)

search-is_clear :
    (pat s rest : Bytes)
    → is_clear pat s ≡ true
    → search same_letter pat (s ++ rest) ≡ search same_letter pat rest
unfolding search is_clear
search-is_clear pat [] rest h = refl
search-is_clear pat (c ∷ s) rest h =
    let none_here : may_begin pat (c ∷ s) ≡ false =
      ground (arith, and_left (not (may_begin pat (c ∷ s))) (is_clear pat s) h) in
    rw (begins-may_begin pat (c ∷ s) rest none_here)
      (search-is_clear pat s rest (and_right (not (may_begin pat (c ∷ s))) (is_clear pat s) h))

-- Pieces one behind the other, and what follows.
abbrev pub pieces_then : List Bytes → Bytes → Bytes
pieces_then [] rest = rest
pieces_then (s ∷ ss) rest = s ++ pieces_then ss rest

pub strcasestr-pieces :
    (pat : Bytes) (ss : List Bytes) (rest : Bytes)
    → All (λ s. is_clear pat s ≡ true) ss
    → strcasestr (pieces_then ss rest) pat ≡ strcasestr rest pat
unfolding strcasestr
strcasestr-pieces pat [] rest h = refl
strcasestr-pieces pat (s ∷ ss) rest (hs, hss) =
    search-is_clear pat s (pieces_then ss rest) hs ∙ strcasestr-pieces pat ss rest hss

-- A piece of bytes that are not the keyword's first letter.
pub is_clear_first :
    (p : ℕ) (ps s : Bytes) → All (λ c. same_letter p c ≡ false) s → is_clear (p ∷ ps) s ≡ true
unfolding is_clear may_begin
is_clear_first p ps [] h = refl
is_clear_first p ps (c ∷ s) (hc, hs) = rw (hc, is_clear_first p ps s hs) refl
