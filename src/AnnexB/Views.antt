-- ===== src/AnnexB/Views.antt =====
-- What holds of the views that `split_annexb_nalus` returns on any buffer.
use car_detect.Prelude.{
  ℕ, zero, suc, ◌+◌, ◌-◌, ◌≤◌, ◌<◌, ◌≡◌, refl, Option, none, some, List, [], ◌∷◌, ◌++◌, Bytes,
  arith, length, drop, ltb, length-append, ◌&&◌, and_left, and_right, ℕ-cases, Bool-cases, inl, inr,
  ltb→lt,
}
use car_detect.AnnexB.{NaluView, start_code, close_view, split_loop, close_last, split_annexb_nalus}

-- The views follow one another between two offsets, without overlap.
abbrev pub Between : ℕ → List NaluView → ℕ → Type 0
Between lo [] hi = lo ≤ hi
Between lo (v ∷ vs) hi = (lo ≤ v.ptr) × Between (v.ptr + v.len) vs hi

Between-append :
    (lo mid hi : ℕ) (vs : List NaluView) (v : NaluView)
    → Between lo vs mid
    → mid ≤ v.ptr
    → v.ptr + v.len ≤ hi
    → Between lo (vs ++ v ∷ []) hi
Between-append lo mid hi [] v h a b = (omega arith, b)
Between-append lo mid hi (u ∷ vs) v h a b =
    (h.0, Between-append (u.ptr + u.len) mid hi vs v h.1 a b)

Between-mono :
    (lo mid hi : ℕ) (vs : List NaluView) → Between lo vs mid → mid ≤ hi → Between lo vs hi
Between-mono lo mid hi [] h a = omega arith
Between-mono lo mid hi (u ∷ vs) h a = (h.0, Between-mono (u.ptr + u.len) mid hi vs h.1 a)

-- The loop's state: the views end before `start`, which is not behind `i`.
abbrev Start : ℕ → Option ℕ → List NaluView → Type 0
Start i none out = out ≡ []
Start i (some s) out = (s ≤ i) × Between 0 out s

abbrev Inv : ℕ → ℕ → ℕ → Option ℕ → List NaluView → Type 0
Inv len max_nalus i start out = (i ≤ len) × (length out ≤ max_nalus) × Start i start out

close_view-Inv :
    (len max_nalus i k : ℕ) (start : Option ℕ) (out : List NaluView)
    → i + k ≤ len
    → Inv len max_nalus i start out
    → Inv len max_nalus (i + k) (some (i + k)) (close_view start i max_nalus out)
unfolding close_view
close_view-Inv len max_nalus i k none out h (a, b, e) = (h, b, (omega arith, rw e (omega arith)))
close_view-Inv len max_nalus i k (some s) out h (a, b, (c, d)) =
    elim (Bool-cases (ltb (length out) max_nalus)) [
      | inl room ↦ rw room (
        h,
        omega (arith, ltb→lt _ _ room, length-append out (record { ptr = s; len = i - s } ∷ [])),
        (
          omega arith,
          Between-append 0 s (i + k) out (record { ptr = s; len = i - s }) d (omega arith)
              (omega arith),
        ),
      )
      | inr full ↦ rw full (h, b, (omega arith, Between-mono 0 s (i + k) out d (omega arith)))
    ]

start_code-le : (p : Bytes) → start_code p ≤ 4
unfolding start_code
start_code-le p = ground arith

step_Inv :
    (len max_nalus i : ℕ) (start : Option ℕ) (out : List NaluView)
    → i < len
    → Inv len max_nalus i start out
    → Inv len max_nalus (i + 1) start out
step_Inv len max_nalus i none out h (a, b, e) = (omega arith, b, e)
step_Inv len max_nalus i (some s) out h (a, b, (c, d)) = (omega arith, b, (omega arith, d))

split_loop-Inv :
    (rounds len max_nalus : ℕ) (p : Bytes) (i : ℕ) (start : Option ℕ) (out : List NaluView)
    → Inv len max_nalus i start out
    → let r = split_loop rounds len max_nalus p i start out in (j : ℕ) × Inv len max_nalus j r.0 r.1
unfolding split_loop
split_loop-Inv zero len max_nalus p i start out v = (i, v)
split_loop-Inv (suc rounds) len max_nalus p i start out v = elim (Bool-cases (ltb (i + 3) len)) [
  | inr over ↦ rw (over, split_loop) (i, v)
  | inl more ↦ elim (ℕ-cases (start_code p)) [
    | inl nothing ↦
        rw (more, nothing, split_loop)
          (split_loop-Inv rounds len max_nalus (drop 1 p) (i + 1) start out
            (step_Inv len max_nalus i start out (omega (arith, ltb→lt _ _ more)) v))
    | inr (k, found) ↦
        rw (more, found, split_loop)
          (split_loop-Inv rounds len max_nalus (drop (suc k) p) (i + suc k) (some (i + suc k))
            (close_view start i max_nalus out)
            (close_view-Inv len max_nalus i (suc k) start out
              (omega (arith, ltb→lt _ _ more, found, start_code-le p)) v))
  ]
]

close_last-Between :
    (len max_nalus j : ℕ) (start : Option ℕ) (out : List NaluView)
    → Inv len max_nalus j start out
    → Between 0 (close_last len max_nalus (start, out)) len
      × (length (close_last len max_nalus (start, out)) ≤ max_nalus)
unfolding close_last
close_last-Between len max_nalus j none out (a, b, e) = (rw e (omega arith), b)
close_last-Between len max_nalus j (some s) out (a, b, (c, d)) =
    elim (Bool-cases (ltb s len && ltb (length out) max_nalus)) [
      | inl room ↦ rw room (
        Between-append 0 s len out (record { ptr = s; len = len - s }) d (omega arith)
            (omega (arith, ltb→lt _ _ (and_left (ltb s len) (ltb (length out) max_nalus) room))),
        omega (
          arith,
          length-append out (record { ptr = s; len = len - s } ∷ []),
          ltb→lt _ _ (and_right (ltb s len) (ltb (length out) max_nalus) room),
        ),
      )
      | inr full ↦ rw full (Between-mono 0 s len out d (omega arith), b)
    ]

-- On any buffer, the views lie in the buffer one behind the other without overlap, and there are
-- no more of them than the array has places.
pub split_annexb_nalus-Between :
    (buf : Bytes) (max_nalus : ℕ)
    → let views = split_annexb_nalus buf max_nalus in
      Between 0 views (length buf) × (length views ≤ max_nalus)
unfolding split_annexb_nalus
split_annexb_nalus-Between buf max_nalus =
    let r = split_loop (length buf) (length buf) max_nalus buf 0 none [] in
    let (j, v) =
      split_loop-Inv (length buf) (length buf) max_nalus buf 0 none []
        (omega arith, omega arith, refl) in
    close_last-Between (length buf) max_nalus j r.0 r.1 v
