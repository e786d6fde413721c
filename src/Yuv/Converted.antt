-- ===== src/Yuv/Converted.antt =====
-- What `yuv422p_to_yuv420p` of camera/v4l2.c makes of a picture.
use car_detect.Prelude.{
  ℕ, zero, suc, ◌+◌, ◌*◌, ◌/◌, ◌≤◌, ◌<◌, ◌≡◌, refl, sym, ap, ◌∙◌, ◌⊎◌, inl, inr, arith, Bool-cases,
  ltb, ltb→lt, ltb_false→le,
}
use native.Mathlib.Nat.{suc-mul}
use car_detect.Yuv.{Plane, put, fill_row, fill_rows, Planes, halved, yuv422p_to_yuv420p}

put-same : (m : Plane) (i v j : ℕ) → j ≡ i → put m i v j ≡ v
unfolding put
put-same m i v j h = ground arith

put-other : (m : Plane) (i v j : ℕ) → (j < i) ⊎ (i < j) → put m i v j ≡ m j
unfolding put
put-other m i v j h = ground arith

fill_row-in :
    (n at' : ℕ) (value : ℕ → ℕ) (dst : Plane) (x : ℕ)
    → x < n
    → fill_row n at' value dst (at' + x) ≡ value x
unfolding fill_row
fill_row-in zero at' value dst x h = absurd (omega arith)
fill_row-in (suc n) at' value dst x h = elim (Bool-cases (ltb x n)) [
  | inl before ↦
      put-other (fill_row n at' value dst) (at' + n) (value n) (at' + x)
        (inl (omega (arith, ltb→lt _ _ before)))
      ∙ fill_row-in n at' value dst x (ltb→lt _ _ before)
  | inr last ↦
      let e : x ≡ n = omega (arith, ltb_false→le _ _ last) in
      put-same (fill_row n at' value dst) (at' + n) (value n) (at' + x) (omega (arith, e))
      ∙ ap value (sym e)
]

fill_row-out :
    (n at' : ℕ) (value : ℕ → ℕ) (dst : Plane) (j : ℕ)
    → (j < at') ⊎ (at' + n ≤ j)
    → fill_row n at' value dst j ≡ dst j
unfolding fill_row
fill_row-out zero at' value dst j h = refl
fill_row-out (suc n) at' value dst j h =
    put-other (fill_row n at' value dst) (at' + n) (value n) j (ground arith)
    ∙ fill_row-out n at' value dst j (ground arith)

-- A row ends before a later one begins.
row_before : (y k stride : ℕ) → y < k → y * stride + stride ≤ k * stride
row_before y zero stride h = absurd (omega arith)
row_before y (suc k) stride h = elim (Bool-cases (ltb y k)) [
  | inl before ↦ omega (arith, suc-mul k stride, row_before y k stride (ltb→lt _ _ before))
  | inr last ↦
      let e : y ≡ k = omega (arith, ltb_false→le _ _ last) in rw e (omega (arith, suc-mul k stride))
]

fill_rows-in :
    (k stride n : ℕ) (value : ℕ → ℕ → ℕ) (dst : Plane) (y x : ℕ)
    → n ≤ stride
    → y < k
    → x < n
    → fill_rows k stride n value dst (y * stride + x) ≡ value y x
unfolding fill_rows
fill_rows-in zero stride n value dst y x hs hy hx = absurd (omega arith)
fill_rows-in (suc k) stride n value dst y x hs hy hx = elim (Bool-cases (ltb y k)) [
  | inl before ↦
      fill_row-out n (k * stride) (value k) (fill_rows k stride n value dst) (y * stride + x)
        (inl (omega (arith, row_before y k stride (ltb→lt _ _ before))))
      ∙ fill_rows-in k stride n value dst y x hs (ltb→lt _ _ before) hx
  | inr last ↦
      let e : y ≡ k = omega (arith, ltb_false→le _ _ last) in
      rw e (fill_row-in n (k * stride) (value k) (fill_rows k stride n value dst) x hx)
]

-- Where the rows of the target do not overlap, the brightness of the picture is copied, and each
-- byte of row y of its two colours is the average, rounded up, of those in the rows 2y and 2y + 1 of
-- the source.
pub yuv422p_to_yuv420p-halved :
    (src dst : Planes) (width height : ℕ)
    → width ≤ dst.stride_y
    → width / 2 ≤ dst.stride_u
    → width / 2 ≤ dst.stride_v
    → let out = yuv422p_to_yuv420p src dst width height in
      ((y x : ℕ)
        → y < height
        → x < width
        → out.y_plane (y * dst.stride_y + x) ≡ src.y_plane (y * src.stride_y + x))
      × ((y x : ℕ)
          → y < height / 2
          → x < width / 2
          → out.u_plane (y * dst.stride_u + x)
            ≡ (src.u_plane (2 * y * src.stride_u + x)
                + src.u_plane ((2 * y + 1) * src.stride_u + x)
                + 1)
              / 2)
      × ((y x : ℕ)
          → y < height / 2
          → x < width / 2
          → out.v_plane (y * dst.stride_v + x)
            ≡ (src.v_plane (2 * y * src.stride_v + x)
                + src.v_plane ((2 * y + 1) * src.stride_v + x)
                + 1)
              / 2)
unfolding yuv422p_to_yuv420p
yuv422p_to_yuv420p-halved src dst width height hy hu hv = (
  λ y x a b. fill_rows-in height dst.stride_y width _ dst.y_plane y x hy a b,
  λ y x a b.
      fill_rows-in (height / 2) dst.stride_u (width / 2) (halved src.u_plane src.stride_u)
        dst.u_plane y x hu a b,
  λ y x a b.
      fill_rows-in (height / 2) dst.stride_v (width / 2) (halved src.v_plane src.stride_v)
        dst.v_plane y x hv a b,
)
