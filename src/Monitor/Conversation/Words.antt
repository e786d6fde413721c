-- ===== src/Monitor/Conversation/Words.antt =====
-- What the monitor server and the viewers make of the words in a line.
use car_detect.Prelude.{
  ℕ, ◌^◌, ◌<◌, ◌≡◌, ◌≢◌, refl, ap, ◌∙◌, some, Bool, true, false, [], ◌∷◌, ◌++◌, Bytes, All, arith,
  ◌==◌,
}
use car_detect.Rtsp.Text.{decimal}
use car_detect.Rtsp.Text.Numerals.{first_digit}
use car_detect.Media.Text.{erase_front, erase_back, onto_kept, strip, cut_at}
use car_detect.Media.Camera.Numbers.{stoul-decimal}
use car_detect.Rtsp.Text.Digits.{IsDigit, decimal-IsDigit}
use car_detect.Monitor.Viewers.{fields, number_at}

-- A text that is not empty.
abbrev pub Full : Bytes → Type 0
Full [] = ⊥
Full (c ∷ s) = Unit {0}

pub decimal-Full : (n : ℕ) → Full (decimal n)
unfolding decimal
decimal-Full n = let (d, cs, e, hd) = first_digit 9 n in rw e tt

module _ (p : ℕ → Bool) where
  -- It neither begins nor ends with a byte that is cut off.
  abbrev pub IsTight : Bytes → Type 0
  IsTight [] = ⊥
  IsTight (c ∷ s) = (p c ≡ false) × (erase_back p (c ∷ s) ≡ c ∷ s)

  erase_back-cut : (v e : Bytes) → All (λ c. p c ≡ true) e → erase_back p (v ++ e) ≡ erase_back p v
  unfolding erase_back
  erase_back-cut [] [] h = refl
  erase_back-cut [] (c ∷ e) (hc, h) = rw (erase_back-cut [] e h, hc) refl
  erase_back-cut (c ∷ v) e h = ap (onto_kept p c) (erase_back-cut v e h)

  erase_back-kept : (w : Bytes) → All (λ c. p c ≡ false) w → erase_back p w ≡ w
  unfolding erase_back
  erase_back-kept [] h = refl
  erase_back-kept (c ∷ []) (hc, h) = rw hc refl
  erase_back-kept (c ∷ d ∷ w) (hc, h) = ap (onto_kept p c) (erase_back-kept (d ∷ w) h)

  onto_kept-Full : (c : ℕ) (s : Bytes) → Full s → onto_kept p c s ≡ c ∷ s
  onto_kept-Full c [] h = elim h [ ]
  onto_kept-Full c (d ∷ s) h = refl

  Full-append : (u w : Bytes) → Full w → Full (u ++ w)
  Full-append [] w h = h
  Full-append (c ∷ u) w h = tt

  erase_back-append :
      (u w : Bytes) → Full w → All (λ c. p c ≡ false) w → erase_back p (u ++ w) ≡ u ++ w
  unfolding erase_back
  erase_back-append [] w f h = erase_back-kept w h
  erase_back-append (c ∷ u) w f h =
      ap (onto_kept p c) (erase_back-append u w f h) ∙ onto_kept-Full c (u ++ w) (Full-append u w f)

  pub word-IsTight : (w : Bytes) → Full w → All (λ c. p c ≡ false) w → IsTight w
  word-IsTight [] f h = elim f [ ]
  word-IsTight (c ∷ w) f (hc, h) = (hc, erase_back-kept (c ∷ w) (hc, h))

  pub append-IsTight :
      (c : ℕ) (u w : Bytes)
      → p c ≡ false
      → Full w
      → All (λ c. p c ≡ false) w
      → IsTight ((c ∷ u) ++ w)
  append-IsTight c u w hc f h = (hc, erase_back-append (c ∷ u) w f h)

  pub strip-IsTight : (v e : Bytes) → IsTight v → All (λ c. p c ≡ true) e → strip p (v ++ e) ≡ v
  unfolding strip erase_front
  strip-IsTight [] e h he = elim h [ ]
  strip-IsTight (c ∷ v) e (hc, h) he = rw hc (erase_back-cut (c ∷ v) e he ∙ h)

  pub strip-blank : (b : ℕ) (v : Bytes) → p b ≡ true → strip p (b ∷ v) ≡ strip p v
  unfolding strip erase_front
  strip-blank b v h = rw h refl

-- Words with one space between them.
pub fields-word :
    (l rest : Bytes) → All (λ c. c ≢ b' ') l → fields (l ++ (b' ' ∷ rest)) ≡ l ∷ fields rest
unfolding fields
fields-word [] rest h = refl
fields-word (c ∷ l) rest (hc, hl) =
    let other : (c == b' ') ≡ false = ground arith in rw (other, fields-word l rest hl) refl

pub fields-last : (l : Bytes) → Full l → All (λ c. c ≢ b' ') l → fields l ≡ l ∷ []
unfolding fields
fields-last [] f h = elim f [ ]
fields-last (c ∷ []) f (hc, hl) = let other : (c == b' ') ≡ false = ground arith in rw other refl
fields-last (c ∷ d ∷ l) f (hc, hl) =
    let other : (c == b' ') ≡ false = ground arith in rw (other, fields-last (d ∷ l) tt hl) refl

pub cut_at-name :
    (k rest : Bytes) → All (λ c. c ≢ b':') k → cut_at b':' (k ++ (b':' ∷ rest)) ≡ some (k, rest)
unfolding cut_at
cut_at-name [] rest h = refl
cut_at-name (c ∷ k) rest (hc, hk) =
    let other : (c == b':') ≡ false = ground arith in rw (other, cut_at-name k rest hk) refl

-- Three numbers in a line, as the viewer writes them and the server reads them.
abbrev pub three : ℕ → ℕ → ℕ → Bytes
three a b c = decimal a ++ (b' ' ∷ (decimal b ++ (b' ' ∷ decimal c)))

IsDigit-other : (s : Bytes) → All IsDigit s → All (λ c. c ≢ b' ') s
IsDigit-other [] h = tt
IsDigit-other (c ∷ s) (hc, h) = (omega arith, IsDigit-other s h)

fields-three : (a b c : ℕ) → fields (three a b c) ≡ decimal a ∷ decimal b ∷ decimal c ∷ []
fields-three a b c =
    fields-word (decimal a) (decimal b ++ (b' ' ∷ decimal c)) (IsDigit-other _ (decimal-IsDigit a))
    ∙ ap (◌∷◌ (decimal a)) (
        fields-word (decimal b) (decimal c) (IsDigit-other _ (decimal-IsDigit b))
        ∙ ap (◌∷◌ (decimal b))
            (fields-last (decimal c) (decimal-Full c) (IsDigit-other _ (decimal-IsDigit c))))

pub number_at-three :
    (a b c : ℕ)
    → a < 10 ^ 10
    → b < 10 ^ 10
    → c < 10 ^ 10
    → (number_at (fields (three a b c)) 0 ≡ some a)
      × (number_at (fields (three a b c)) 1 ≡ some b)
      × (number_at (fields (three a b c)) 2 ≡ some c)
unfolding number_at
number_at-three a b c ha hb hc =
    rw (fields-three a b c) (stoul-decimal a ha, stoul-decimal b hb, stoul-decimal c hc)
