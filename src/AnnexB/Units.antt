-- ===== src/AnnexB/Units.antt =====
-- Streams of NAL units, and how the loop of `split_annexb_nalus` (camera/rtsp_client.c) passes one.
use car_detect.Prelude.{
  ℕ, zero, suc, ◌+◌, ◌≤◌, ◌<◌, ◌≡◌, ◌≢◌, refl, ◌∙◌, Option, some, Bool, true, false, List, [], ◌∷◌,
  ◌++◌, Bytes, arith, length, drop, take, ltb, Bool-cases, inl, inr, ltb→lt, lt→ltb, le→ltb_false,
  ltb_false→le, append-nil,
}
use native.Mathlib.Numerals.{one-add}
use car_detect.AnnexB.{NaluView, is_start_code3, start_code, close_view, split_loop}

-- The bytes of a NAL unit: no start code inside, and the last byte is not zero (the trailing bits
-- of H.264 see to both).
abbrev pub IsNal : Bytes → Type 0
IsNal [] = ⊥
IsNal (a ∷ []) = a ≢ 0
IsNal (a ∷ b ∷ []) = b ≢ 0
IsNal (a ∷ b ∷ c ∷ rest) = (is_start_code3 (a ∷ b ∷ c ∷ []) ≡ false) × IsNal (b ∷ c ∷ rest)

-- A unit and whether its start code is the long one.
abbrev pub Unit4 : Type 0
Unit4 = Bool × Bytes

abbrev pub code_bytes : Bool → Bytes
code_bytes true = 0 ∷ 0 ∷ 0 ∷ 1 ∷ []
code_bytes false = 0 ∷ 0 ∷ 1 ∷ []

-- The byte stream of Annex B.
unfoldable pub join_units : List Unit4 → Bytes
join_units [] = []
join_units ((long, nal) ∷ units) = code_bytes long ++ (nal ++ join_units units)

-- The bytes that a view shows.
abbrev pub view_bytes : Bytes → NaluView → Bytes
view_bytes buf v = take v.len (drop v.ptr buf)

-- Where the units stand, from an offset on.
unfoldable pub places : ℕ → List Unit4 → List NaluView
places i [] = []
places i ((long, nal) ∷ units) =
    let ptr = i + length (code_bytes long) in
    record { ptr = ptr; len = length nal } ∷ places (ptr + length nal) units

start_code_first : (a : ℕ) (t : Bytes) → a ≢ 0 → start_code (a ∷ t) ≡ 0
unfolding start_code
start_code_first a [] h = refl
start_code_first a (x ∷ []) h = refl
start_code_first a (x ∷ y ∷ []) h = ground arith
start_code_first a (x ∷ y ∷ z ∷ t) h = ground arith

start_code_second : (a b : ℕ) (t : Bytes) → b ≢ 0 → start_code (a ∷ b ∷ t) ≡ 0
unfolding start_code
start_code_second a b [] h = refl
start_code_second a b (x ∷ []) h = ground arith
start_code_second a b (x ∷ y ∷ t) h = ground arith

-- Inside a unit no position holds a start code, whatever follows.
start_code-IsNal :
    (a : ℕ) (rest tail : Bytes) → IsNal (a ∷ rest) → start_code (a ∷ (rest ++ tail)) ≡ 0
unfolding start_code
start_code-IsNal a [] tail h = start_code_first a tail h
start_code-IsNal a (b ∷ []) tail h = start_code_second a b tail h
start_code-IsNal a (b ∷ c ∷ []) [] h = ground arith
start_code-IsNal a (b ∷ c ∷ []) (x ∷ tail) h = ground arith
start_code-IsNal a (b ∷ c ∷ d ∷ []) tail h = ground arith
start_code-IsNal a (b ∷ c ∷ d ∷ e ∷ rest) tail h = ground arith

IsNal-tail : (a b : ℕ) (rest : Bytes) → IsNal (a ∷ b ∷ rest) → IsNal (b ∷ rest)
IsNal-tail a b [] h = h
IsNal-tail a b (c ∷ rest) h = h.1

-- The loop goes over a unit with nothing found, up to what follows it.
module _ (len max_nalus : ℕ) where
  step_over :
      (rounds : ℕ) (p : Bytes) (i : ℕ) (start : Option ℕ) (out : List NaluView)
      → i + 3 < len
      → start_code p ≡ 0
      → split_loop (suc rounds) len max_nalus p i start out
        ≡ split_loop rounds len max_nalus (drop 1 p) (i + 1) start out
  unfolding split_loop
  step_over rounds p i start out h e = rw (lt→ltb (i + 3) len h, e, split_loop) refl

  pub step_code :
      (rounds : ℕ) (p : Bytes) (i k : ℕ) (start : Option ℕ) (out : List NaluView)
      → i + 3 < len
      → start_code p ≡ suc k
      → split_loop (suc rounds) len max_nalus p i start out
        ≡ split_loop rounds len max_nalus
            (drop (suc k) p)
            (i + suc k)
            (some (i + suc k))
            (close_view start i max_nalus out)
  unfolding split_loop
  step_code rounds p i k start out h e = rw (lt→ltb (i + 3) len h, e, split_loop) refl

  -- With less than four bytes left the loop ends.
  step_end :
      (rounds : ℕ) (p : Bytes) (i : ℕ) (start : Option ℕ) (out : List NaluView)
      → len ≤ i + 3
      → split_loop rounds len max_nalus p i start out ≡ (start, out)
  unfolding split_loop
  step_end zero p i start out h = refl
  step_end (suc rounds) p i start out h = rw (le→ltb_false (i + 3) len h, split_loop) refl

  pub over_nal :
      (a : ℕ) (nal tail : Bytes) (rounds i : ℕ) (start : Option ℕ) (out : List NaluView)
      → IsNal (a ∷ nal)
      → i + length (a ∷ nal) + 2 < len
      → split_loop (length (a ∷ nal) + rounds) len max_nalus (a ∷ (nal ++ tail)) i start out
        ≡ split_loop rounds len max_nalus tail (i + length (a ∷ nal)) start out
  over_nal a [] tail rounds i start out n h =
      rw one-add
        (step_over rounds (a ∷ tail) i start out (omega arith) (start_code-IsNal a [] tail n))
  over_nal a (b ∷ nal) tail rounds i start out n h =
      let e : suc (suc (length nal)) + rounds ≡ suc (suc (length nal) + rounds) = omega arith in
      let f : i + suc (suc (length nal)) ≡ (i + 1) + suc (length nal) = omega arith in
      rw (e, f)
        (step_over (suc (length nal) + rounds) (a ∷ b ∷ (nal ++ tail)) i start out (omega arith)
            (start_code-IsNal a (b ∷ nal) tail n)
          ∙ over_nal b nal tail rounds (i + 1) start out (IsNal-tail a b nal n) (omega arith))

  over_nothing :
      (rounds i : ℕ) (start : Option ℕ) (out : List NaluView)
      → split_loop rounds len max_nalus [] i start out ≡ (start, out)
  over_nothing zero i start out = unfold split_loop in refl
  over_nothing (suc rounds) i start out = elim (Bool-cases (ltb (i + 3) len)) [
    | inr over ↦ step_end (suc rounds) [] i start out (ltb_false→le _ _ over)
    | inl more ↦
        step_over rounds [] i start out (ltb→lt _ _ more) (unfold start_code in refl)
        ∙ over_nothing rounds (i + 1) start out
  ]

  -- The last unit runs to the end of the buffer.
  pub over_last :
      (a : ℕ) (nal : Bytes) (rounds i : ℕ) (start : Option ℕ) (out : List NaluView)
      → IsNal (a ∷ nal)
      → split_loop rounds len max_nalus (a ∷ nal) i start out ≡ (start, out)
  over_last a nal zero i start out n = unfold split_loop in refl
  over_last a [] (suc rounds) i start out n = elim (Bool-cases (ltb (i + 3) len)) [
    | inr over ↦ step_end (suc rounds) (a ∷ []) i start out (ltb_false→le _ _ over)
    | inl more ↦
        step_over rounds (a ∷ []) i start out (ltb→lt _ _ more) (start_code-IsNal a [] [] n)
        ∙ over_nothing rounds (i + 1) start out
  ]
  over_last a (b ∷ nal) (suc rounds) i start out n = elim (Bool-cases (ltb (i + 3) len)) [
    | inr over ↦ step_end (suc rounds) (a ∷ b ∷ nal) i start out (ltb_false→le _ _ over)
    | inl more ↦
        step_over rounds (a ∷ b ∷ nal) i start out (ltb→lt _ _ more)
          (rw append-nil at (start_code-IsNal a (b ∷ nal) [] n))
        ∙ over_last b nal rounds (i + 1) start out (IsNal-tail a b nal n)
  ]
