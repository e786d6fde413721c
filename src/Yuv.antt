-- ===== src/Yuv.antt =====
-- camera/v4l2.c: `yuv422p_to_yuv420p`, between the decoder of the camera's pictures and the encoder.
pub mod Converted
use car_detect.Prelude.{ℕ, zero, suc, ◌+◌, ◌*◌, ◌/◌, ◌==◌, if◌then◌else◌}

-- What stands behind a pointer, byte by byte.
abbrev pub Plane : Type 0
Plane = ℕ → ℕ

unfoldable pub put : Plane → ℕ → ℕ → Plane
put m i v j = if j == i then v else m j

-- `for (x = 0; x < n; x++) dst[at + x] = value(x)`, which is also what `memcpy` of `n` bytes does.
pub fill_row : ℕ → ℕ → (ℕ → ℕ) → Plane → Plane
unfolding put
fill_row zero at' value dst = dst
fill_row (suc x) at' value dst = put (fill_row x at' value dst) (at' + x) (value x)

-- The same for each of some rows.
pub fill_rows : ℕ → ℕ → ℕ → (ℕ → ℕ → ℕ) → Plane → Plane
unfolding fill_row
fill_rows zero stride n value dst = dst
fill_rows (suc y) stride n value dst =
    fill_row n (y * stride) (value y) (fill_rows y stride n value dst)

-- Three planes that do not overlap.
pub record Planes : Type 0 where
  pub y_plane : Plane
  pub u_plane : Plane
  pub v_plane : Plane
  pub stride_y : ℕ
  pub stride_u : ℕ
  pub stride_v : ℕ

-- `(a + b + 1) >> 1`.
abbrev pub average : ℕ → ℕ → ℕ
average a b = (a + b + 1) / 2

-- The byte at `x` of row `y`: the average of those in the two rows of the source.
abbrev pub halved : Plane → ℕ → ℕ → ℕ → ℕ
halved src stride y x = average (src (2 * y * stride + x)) (src ((2 * y + 1) * stride + x))

-- U and V lie in planes of their own, so that the order of the writes to the two does not matter.
unfoldable pub yuv422p_to_yuv420p : Planes → Planes → ℕ → ℕ → Planes
unfolding fill_rows
yuv422p_to_yuv420p src dst width height = record dst {
  y_plane =
      fill_rows height dst.stride_y width (λ y x. src.y_plane (y * src.stride_y + x)) dst.y_plane;
  u_plane =
      fill_rows (height / 2) dst.stride_u (width / 2) (halved src.u_plane src.stride_u) dst.u_plane;
  v_plane =
      fill_rows (height / 2) dst.stride_v (width / 2) (halved src.v_plane src.stride_v) dst.v_plane;
}
