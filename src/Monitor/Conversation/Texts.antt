-- ===== src/Monitor/Conversation/Texts.antt =====
-- The texts that the monitor server and the viewers exchange: lines that end in \r\n, and an empty one.
use car_detect.Prelude.{
  ℕ, ◌-◌, ◌≡◌, ◌≢◌, refl, sym, ap, ◌∙◌, some, false, List, [], ◌∷◌, ◌++◌, Bytes, All, length,
  length-append, take, take-length-append, append_assoc, append-nil, arith, ◌==◌,
}
use car_detect.Rtsp.Text.{begins, search, strstr}
use car_detect.Media.Text.{lines}
use car_detect.Viewer.Client.{unix_lines, ends_line, skip_empty}

abbrev pub blank_line : Bytes
blank_line = 13 ∷ 10 ∷ 13 ∷ 10 ∷ []

-- A byte of a line that has neither \r nor \n, and such a line.
abbrev pub Inside : ℕ → Type 0
Inside c = (c ≢ 13) × (c ≢ 10)

abbrev pub IsLine : Bytes → Type 0
IsLine [] = ⊥
IsLine (c ∷ l) = Inside c × All Inside l

-- More lines, each with the end of the one before it, and then nothing or the empty line.
abbrev pub more_lines : List Bytes → Bytes
more_lines [] = []
more_lines (m ∷ ls) = 13 ∷ 10 ∷ (m ++ more_lines ls)

abbrev pub to_the_end : List Bytes → Bytes
to_the_end [] = blank_line
to_the_end (m ∷ ls) = 13 ∷ 10 ∷ (m ++ to_the_end ls)

to_the_end-more_lines : (ls : List Bytes) → to_the_end ls ≡ more_lines ls ++ blank_line
to_the_end-more_lines [] = refl
to_the_end-more_lines (m ∷ ls) =
    ap (λ s. 13 ∷ 10 ∷ s)
      (ap (λ s. m ++ s) (to_the_end-more_lines ls)
        ∙ sym (append_assoc m (more_lines ls) blank_line))

-- A whole message, and what stands before its empty line.
abbrev pub message : Bytes → List Bytes → Bytes
message l ls = l ++ to_the_end ls

abbrev pub before_blank : Bytes → List Bytes → Bytes
before_blank l ls = l ++ more_lines ls

message-before_blank :
    (l : Bytes) (ls : List Bytes) → message l ls ≡ before_blank l ls ++ blank_line
message-before_blank l ls =
    ap (λ s. l ++ s) (to_the_end-more_lines ls) ∙ sym (append_assoc l (more_lines ls) blank_line)

pub IsLine→Inside : (l : Bytes) → IsLine l → All Inside l
IsLine→Inside [] h = tt
IsLine→Inside (c ∷ l) h = h

search-Inside :
    (l rest : Bytes)
    → All Inside l
    → search ◌==◌ blank_line (l ++ rest) ≡ search ◌==◌ blank_line rest
unfolding search begins
search-Inside [] rest h = refl
search-Inside (c ∷ l) rest ((hc, hd), hl) =
    let other : (13 == c) ≡ false = ground arith in rw other (search-Inside l rest hl)

search-next :
    (l rest : Bytes)
    → IsLine l
    → search ◌==◌ blank_line (13 ∷ 10 ∷ (l ++ rest)) ≡ search ◌==◌ blank_line (l ++ rest)
unfolding search begins
search-next [] rest h = elim h [ ]
search-next (c ∷ l) rest ((hc, hd), hl) =
    let other : (13 == c) ≡ false = ground arith in rw other refl

search-to_the_end :
    (ls : List Bytes) → All IsLine ls → search ◌==◌ blank_line (to_the_end ls) ≡ some blank_line
unfolding search begins
search-to_the_end [] h = refl
search-to_the_end (m ∷ ls) (hm, hls) =
    search-next m (to_the_end ls) hm
    ∙ search-Inside m (to_the_end ls) (IsLine→Inside m hm)
    ∙ search-to_the_end ls hls

-- The empty line is found at the end of the message.
pub strstr-message :
    (l : Bytes) (ls : List Bytes)
    → IsLine l
    → All IsLine ls
    → strstr (message l ls) blank_line ≡ some blank_line
unfolding strstr
strstr-message l ls h hs =
    search-Inside l (to_the_end ls) (IsLine→Inside l h) ∙ search-to_the_end ls hs

pub take-message :
    (l : Bytes) (ls : List Bytes)
    → take (length (message l ls) - 4) (message l ls) ≡ before_blank l ls
take-message l ls =
    rw (message-before_blank l ls, length-append (before_blank l ls) blank_line)
      (ap (λ n. take n (before_blank l ls ++ blank_line)) (omega arith)
        ∙ take-length-append (before_blank l ls) blank_line)

-- The lines as `std::getline` gives them: each but the last keeps its carriage return.
abbrev pub with_cr : Bytes → List Bytes → List Bytes
with_cr l [] = l ∷ []
with_cr l (m ∷ ls) = (l ++ (13 ∷ [])) ∷ with_cr m ls

lines-last : (l : Bytes) → IsLine l → lines l ≡ l ∷ []
unfolding lines
lines-last [] h = elim h [ ]
lines-last (c ∷ []) ((hc, hd), hl) = let other : (c == 10) ≡ false = ground arith in rw other refl
lines-last (c ∷ d ∷ l) ((hc, hd), hl) =
    let other : (c == 10) ≡ false = ground arith in rw (other, lines-last (d ∷ l) hl) refl

lines-Inside :
    (l rest : Bytes) → All Inside l → lines (l ++ (13 ∷ 10 ∷ rest)) ≡ (l ++ (13 ∷ [])) ∷ lines rest
unfolding lines
lines-Inside [] rest h = refl
lines-Inside (c ∷ l) rest ((hc, hd), hl) =
    let other : (c == 10) ≡ false = ground arith in rw (other, lines-Inside l rest hl) refl

pub lines-before_blank :
    (l : Bytes) (ls : List Bytes)
    → IsLine l
    → All IsLine ls
    → lines (before_blank l ls) ≡ with_cr l ls
lines-before_blank l [] h hs = ap lines (append-nil l) ∙ lines-last l h
lines-before_blank l (m ∷ ls) h (hm, hls) =
    lines-Inside l (m ++ more_lines ls) (IsLine→Inside l h)
    ∙ ap (◌∷◌ (l ++ (13 ∷ []))) (lines-before_blank m ls hm hls)

-- The lines as the viewer splits them.
ends_line-other : (c : ℕ) (s : Bytes) → c ≢ 13 → ends_line c s ≡ false
ends_line-other c [] h = refl
ends_line-other c (d ∷ s) h = let other : (c == 13) ≡ false = ground arith in rw other refl

unix_lines-Inside :
    (l rest : Bytes)
    → All Inside l
    → unix_lines (l ++ (13 ∷ 10 ∷ rest)) ≡ l ++ (10 ∷ unix_lines rest)
unfolding unix_lines
unix_lines-Inside [] rest h = rw (ends_line-other 10 rest (omega arith)) refl
unix_lines-Inside (c ∷ l) rest ((hc, hd), hl) =
    rw (ends_line-other c (l ++ (13 ∷ 10 ∷ rest)) hc) (ap (◌∷◌ c) (unix_lines-Inside l rest hl))

unix_lines-last : (l : Bytes) → All Inside l → unix_lines l ≡ l
unfolding unix_lines
unix_lines-last [] h = refl
unix_lines-last (c ∷ l) ((hc, hd), hl) =
    rw (ends_line-other c l hc) (ap (◌∷◌ c) (unix_lines-last l hl))

lines-feed : (l rest : Bytes) → All Inside l → lines (l ++ (10 ∷ rest)) ≡ l ∷ lines rest
unfolding lines
lines-feed [] rest h = refl
lines-feed (c ∷ l) rest ((hc, hd), hl) =
    let other : (c == 10) ≡ false = ground arith in rw (other, lines-feed l rest hl) refl

skip_empty-IsLine :
    (l : Bytes) (ls : List Bytes) → IsLine l → skip_empty (l ∷ ls) ≡ l ∷ skip_empty ls
unfolding skip_empty
skip_empty-IsLine [] ls h = elim h [ ]
skip_empty-IsLine (c ∷ l) ls h = refl

pub split-before_blank :
    (l : Bytes) (ls : List Bytes)
    → IsLine l
    → All IsLine ls
    → skip_empty (lines (unix_lines (before_blank l ls))) ≡ l ∷ ls
split-before_blank l [] h hs =
    ap (λ s. skip_empty (lines s))
      (ap unix_lines (append-nil l) ∙ unix_lines-last l (IsLine→Inside l h))
    ∙ ap skip_empty (lines-last l h)
    ∙ skip_empty-IsLine l [] h
    ∙ unfold skip_empty in refl
split-before_blank l (m ∷ ls) h (hm, hls) =
    ap (λ s. skip_empty (lines s)) (unix_lines-Inside l (m ++ more_lines ls) (IsLine→Inside l h))
    ∙ ap skip_empty (lines-feed l (unix_lines (m ++ more_lines ls)) (IsLine→Inside l h))
    ∙ skip_empty-IsLine l (lines (unix_lines (m ++ more_lines ls))) h
    ∙ ap (◌∷◌ l) (split-before_blank m ls hm hls)
