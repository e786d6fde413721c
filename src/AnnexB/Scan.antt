-- ===== src/AnnexB/Scan.antt =====
-- What `split_annexb_nalus` (camera/rtsp_client.c) makes of the units from a place on.
use car_detect.Prelude.{
  ℕ, zero, suc, ◌+◌, ◌-◌, ◌≤◌, ◌<◌, ◌≡◌, refl, ap, ◌∙◌, Option, none, some, Bool, true, false, List,
  [], ◌∷◌, ◌++◌, Bytes, arith, length, length-append, lt→ltb, All, append_assoc, append-nil,
}
use car_detect.AnnexB.{NaluView, start_code, close_view, split_loop, close_last}
use car_detect.AnnexB.Units.{
  IsNal, Unit4, code_bytes, join_units, places, step_code, over_nal, over_last,
}

module _ (len max_nalus : ℕ) where
  start_code-code_bytes :
      (long : Bool) (rest : Bytes) → start_code (code_bytes long ++ rest) ≡ length (code_bytes long)
  unfolding start_code
  start_code-code_bytes true rest = refl
  start_code-code_bytes false [] = refl
  start_code-code_bytes false (b ∷ rest) = refl

  -- What the loop and the code behind it return, from a place where a unit begins or the buffer
  -- ends: the unit that was open, and all that follow.
  unfoldable pub after_loop : ℕ → Bytes → ℕ → Option ℕ → List NaluView → List NaluView
  after_loop rounds p i start out =
      close_last len max_nalus (split_loop rounds len max_nalus p i start out)

  -- One unit that another follows.
  after_loop_unit :
      (rounds i : ℕ) (start : Option ℕ) (out : List NaluView) (long : Bool) (a : ℕ)
      (nal tail : Bytes)
      → IsNal (a ∷ nal)
      → i + length (code_bytes long) + length (a ∷ nal) + 2 < len
      → let at' = i + length (code_bytes long) in
        after_loop
          (suc (length (a ∷ nal) + rounds))
          (code_bytes long ++ (a ∷ nal ++ tail))
          i
          start
          out
        ≡ after_loop rounds tail
            (at' + length (a ∷ nal))
            (some at')
            (close_view start i max_nalus out)
  unfolding after_loop
  after_loop_unit rounds i start out true a nal tail n h = ap (close_last len max_nalus) (
      step_code len max_nalus (suc (length nal) + rounds) _ i 3 start out (omega arith)
        (start_code-code_bytes true (a ∷ nal ++ tail))
      ∙ over_nal len max_nalus a nal tail rounds (i + 4) (some (i + 4))
          (close_view start i max_nalus out) n (omega arith))
  after_loop_unit rounds i start out false a nal tail n h = ap (close_last len max_nalus) (
      step_code len max_nalus (suc (length nal) + rounds) _ i 2 start out (omega arith)
        (start_code-code_bytes false (a ∷ nal ++ tail))
      ∙ over_nal len max_nalus a nal tail rounds (i + 3) (some (i + 3))
          (close_view start i max_nalus out) n (omega arith))

  close_last_room :
      (s k : ℕ) (out : List NaluView)
      → s + suc k ≡ len
      → length out < max_nalus
      → close_last len max_nalus (some s, out) ≡ out ++ (record { ptr = s; len = suc k } ∷ [])
  unfolding close_last
  close_last_room s k out h room =
      let e : len - s ≡ suc k = omega arith in
      rw (lt→ltb s len (omega arith), lt→ltb (length out) max_nalus room, e)

  -- The last unit.
  after_loop_last :
      (rounds i : ℕ) (start : Option ℕ) (out : List NaluView) (long : Bool) (a : ℕ) (nal : Bytes)
      → IsNal (a ∷ nal)
      → i + length (code_bytes long) + length (a ∷ nal) ≡ len
      → length (close_view start i max_nalus out) < max_nalus
      → after_loop (suc rounds) (code_bytes long ++ (a ∷ nal)) i start out
        ≡ close_view start i max_nalus out
          ++ (record { ptr = i + length (code_bytes long); len = length (a ∷ nal) } ∷ [])
  unfolding after_loop
  after_loop_last rounds i start out true a nal n h room =
      ap (close_last len max_nalus) (
        step_code len max_nalus rounds _ i 3 start out (omega arith)
          (start_code-code_bytes true (a ∷ nal))
        ∙ over_last len max_nalus a nal rounds (i + 4) (some (i + 4))
            (close_view start i max_nalus out) n)
      ∙ close_last_room (i + 4) (length nal) (close_view start i max_nalus out) h room
  after_loop_last rounds i start out false a nal n h room =
      ap (close_last len max_nalus) (
        step_code len max_nalus rounds _ i 2 start out (omega arith)
          (start_code-code_bytes false (a ∷ nal))
        ∙ over_last len max_nalus a nal rounds (i + 3) (some (i + 3))
            (close_view start i max_nalus out) n)
      ∙ close_last_room (i + 3) (length nal) (close_view start i max_nalus out) h room

  length-join_units-pos :
      (u : Unit4) (us : List Unit4) → IsNal u.1 → 4 ≤ length (join_units (u ∷ us))
  length-join_units-pos (true, []) us n = elim n [ ]
  length-join_units-pos (false, []) us n = elim n [ ]
  length-join_units-pos (true, a ∷ nal) us n = unfold join_units in omega arith
  length-join_units-pos (false, a ∷ nal) us n = unfold join_units in omega arith

  length-close_view :
      (start : Option ℕ) (i : ℕ) (out : List NaluView)
      → length (close_view start i max_nalus out) ≤ length out + 1
  unfolding close_view
  length-close_view none i out = omega arith
  length-close_view (some s) i out =
      ground (arith, length-append out (record { ptr = s; len = i - s } ∷ []))

  close_view_room :
      (s k : ℕ) (out : List NaluView)
      → length out < max_nalus
      → close_view (some s) (s + k) max_nalus out ≡ out ++ (record { ptr = s; len = k } ∷ [])
  unfolding close_view
  close_view_room s k out room =
      let e : s + k - s ≡ k = omega arith in rw (lt→ltb (length out) max_nalus room, e)

  pub join_units-cons :
      (long : Bool) (nal : Bytes) (us : List Unit4)
      → join_units ((long, nal) ∷ us) ≡ code_bytes long ++ (nal ++ join_units us)
  unfolding join_units
  join_units-cons long nal us = refl

  length-code_bytes : (long : Bool) → 3 ≤ length (code_bytes long)
  length-code_bytes true = omega arith
  length-code_bytes false = omega arith

  length-join_units :
      (long : Bool) (nal : Bytes) (us : List Unit4)
      → length (join_units ((long, nal) ∷ us))
        ≡ length (code_bytes long) + length nal + length (join_units us)
  unfolding join_units
  length-join_units long nal us = omega (
    arith,
    length-append (code_bytes long) (nal ++ join_units us),
    length-append nal (join_units us),
  )

  -- All units from a place on, when there is room for their views.
  pub after_loop-units :
      (units : List Unit4) (u : Unit4) (rounds i : ℕ) (start : Option ℕ) (out : List NaluView)
      → All (λ u. IsNal u.1) (u ∷ units)
      → i + length (join_units (u ∷ units)) ≡ len
      → length (join_units (u ∷ units)) ≤ rounds
      → length (close_view start i max_nalus out) + length (u ∷ units) ≤ max_nalus
      → after_loop rounds (join_units (u ∷ units)) i start out
        ≡ close_view start i max_nalus out ++ places i (u ∷ units)
  after_loop-units [] (long, []) rounds i start out n h r room = elim n.0 [ ]
  after_loop-units (v ∷ units) (long, []) rounds i start out n h r room = elim n.0 [ ]
  after_loop-units [] (long, a ∷ nal) zero i start out n h r room =
      absurd (omega (arith, length-join_units long (a ∷ nal) []))
  after_loop-units [] (long, a ∷ nal) (suc rounds) i start out n h r room =
      unfold join_units places in
      rw append-nil (
        after_loop_last rounds i start out long a nal n.0
          (omega (arith, length-join_units long (a ∷ nal) [])) (omega arith))
  after_loop-units (v ∷ units) (long, a ∷ nal) rounds i start out n h r room =
      let tail = join_units (v ∷ units) in
      let at' : ℕ = i + length (code_bytes long) in
      let size : ℕ = suc (length nal) in
      let rest : ℕ = rounds - suc size in
      let total = length-join_units long (a ∷ nal) (v ∷ units) in
      let four = length-join_units-pos v units n.1.0 in
      let three = length-code_bytes long in
      let closed = close_view start i max_nalus out in
      let e : rounds ≡ suc (size + rest) = omega (arith, total, r, three) in
      rw (e, join_units-cons long (a ∷ nal) (v ∷ units))
        (after_loop_unit rest i start out long a nal tail n.0 (omega (arith, total, four, h))
          ∙ after_loop-units units v rest (at' + size) (some at') closed n.1
              (omega (arith, total, h)) (omega (arith, total, r, e, three))
              (omega (arith, room, length-close_view (some at') (at' + size) closed))
          ∙ rw (close_view_room at' size closed (omega (arith, room)), append_assoc)
              (unfold places in refl))
