-- ===== src/Rtsp/Describe/Trim.antt =====
-- What `trim_spaces` of camera/rtsp.c leaves.
use car_detect.Prelude.{
  ℕ, ◌≡◌, refl, ap, ◌∙◌, true, ◌&&◌, [], ◌∷◌, ◌++◌, Bytes, Bool-cases, inl, inr, All, append_assoc,
  and_left, and_right,
}
use car_detect.Rtsp.Describe.{is_empty, is_end, is_blank, trim_end, trim_start, trim_spaces}

-- No blank at the front, and none at the end.
abbrev pub IsTrimmed : Bytes → Type 0
IsTrimmed s = (trim_start s ≡ s) × (trim_end s ≡ s)

trim_start_idem : (s : Bytes) → trim_start (trim_start s) ≡ trim_start s
unfolding trim_start
trim_start_idem [] = refl
trim_start_idem (c ∷ s) = elim (Bool-cases (is_blank c)) [
  | inl blank ↦ rw blank (trim_start_idem s)
  | inr stays ↦ rw (stays, trim_start) (rw stays refl)
]

trim_end_idem : (s : Bytes) → trim_end (trim_end s) ≡ trim_end s
unfolding trim_end
trim_end_idem [] = refl
trim_end_idem (c ∷ s) = elim (Bool-cases (is_empty (trim_end s) && is_end c)) [
  | inl gone ↦ rw gone refl
  | inr stays ↦ rw stays (rw (trim_end_idem s, stays) refl)
]

-- What is behind the first byte of a text that ends well ends well.
trim_end-tail : (c : ℕ) (s : Bytes) → trim_end (c ∷ s) ≡ c ∷ s → trim_end s ≡ s
unfolding trim_end
trim_end-tail c s h = elim (Bool-cases (is_empty (trim_end s) && is_end c)) [
  | inl gone ↦ cc
  | inr stays ↦ cc
]

trim_end-trim_start : (s : Bytes) → trim_end s ≡ s → trim_end (trim_start s) ≡ trim_start s
unfolding trim_start
trim_end-trim_start [] h = h
trim_end-trim_start (c ∷ s) h = elim (Bool-cases (is_blank c)) [
  | inl blank ↦ rw blank (trim_end-trim_start s (trim_end-tail c s h))
  | inr stays ↦ rw stays h
]

trim_start-part :
    (s : Bytes) → (a : Bytes) × (s ≡ a ++ trim_start s) × All (λ c. is_blank c ≡ true) a
unfolding trim_start
trim_start-part [] = ([], refl, tt)
trim_start-part (c ∷ s) = elim (Bool-cases (is_blank c)) [
  | inl blank ↦ let (a, e, h) = trim_start-part s in rw blank (c ∷ a, ap (◌∷◌ c) e, (blank, h))
  | inr stays ↦ rw stays ([], refl, tt)
]

trim_end-nil : (t : Bytes) → is_empty t ≡ true → t ≡ []
trim_end-nil [] h = refl
trim_end-nil (c ∷ t) h = cc

trim_end-part : (s : Bytes) → (b : Bytes) × (s ≡ trim_end s ++ b) × All (λ c. is_end c ≡ true) b
unfolding trim_end
trim_end-part [] = ([], refl, tt)
trim_end-part (c ∷ s) =
    let (b, e, h) = trim_end-part s in
    elim (Bool-cases (is_empty (trim_end s) && is_end c)) [
      | inl gone ↦
          let nothing : trim_end s ≡ [] =
            trim_end-nil (trim_end s) (and_left (is_empty (trim_end s)) (is_end c) gone) in
          rw gone (
            c ∷ b,
            ap (◌∷◌ c) (e ∙ ap (λ (t : Bytes). t ++ b) nothing),
            (and_right (is_empty (trim_end s)) (is_end c) gone, h),
          )
      | inr stays ↦ rw stays (b, ap (◌∷◌ c) e, h)
    ]

-- What `trim_spaces` leaves is the text without some blanks and tabs at its front and some blanks,
-- tabs and line ends at its end, and has none of these left there.
trim_spaces-IsTrimmed :
    (s : Bytes)
    → IsTrimmed (trim_spaces s)
      × ((a b : Bytes) × (s ≡ a ++ (trim_spaces s ++ b))
          × All (λ c. is_blank c ≡ true) a
          × All (λ c. is_end c ≡ true) b)
unfolding trim_spaces
trim_spaces-IsTrimmed s =
    let (b, e, hb) = trim_end-part s in
    let (a, d, ha) = trim_start-part (trim_end s) in
    (
      (trim_start_idem (trim_end s), trim_end-trim_start (trim_end s) (trim_end_idem s)),
      (a, b, e ∙ ap (λ (t : Bytes). t ++ b) d ∙ append_assoc a (trim_start (trim_end s)) b, ha, hb),
    )
