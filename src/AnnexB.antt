-- ===== src/AnnexB.antt =====
-- camera/rtsp_client.c: `split_annexb_nalus`, which cuts an H.264 byte stream at its start codes.
-- `Views` is about any buffer; `Units`, `Scan` and `RoundTrip` are about streams of NAL units.
pub mod Views
pub mod Units
mod Scan
pub mod RoundTrip
use car_detect.Prelude.{
  ℕ, zero, suc, ◌+◌, ◌-◌, Option, none, some, Bool, true, false, ◌&&◌, List, [], ◌∷◌, ◌++◌, Bytes,
  length, drop, ltb, ◌==◌, if◌then◌else◌,
}

-- `nalu_view_t`: the pointer is an offset into the buffer.
pub record NaluView : Type 0 where
  pub ptr : ℕ
  pub len : ℕ

-- The argument is what stands at the pointer; the loop's test leaves four bytes there at least.
unfoldable pub is_start_code3 : Bytes → Bool
is_start_code3 (a ∷ b ∷ c ∷ _) = a == 0 && (b == 0 && c == 1)
is_start_code3 _ = false

unfoldable pub is_start_code4 : Bytes → Bool
is_start_code4 (a ∷ b ∷ c ∷ d ∷ _) = a == 0 && (b == 0 && (c == 0 && d == 1))
is_start_code4 _ = false

-- The length of the start code at the pointer, or 0.
unfoldable pub start_code : Bytes → ℕ
unfolding is_start_code3 is_start_code4
start_code p = if is_start_code4 p then 4 else if is_start_code3 p then 3 else 0

-- `if (start >= 0 && cnt < max_nalus)`: the unit from `start` up to `i`. A negative `start` is `none`.
unfoldable pub close_view : Option ℕ → ℕ → ℕ → List NaluView → List NaluView
close_view none i max_nalus out = out
close_view (some start) i max_nalus out =
    if ltb (length out) max_nalus
    then out ++ (record { ptr = start; len = i - start } ∷ [])
    else out

-- The loop: `p` is what stands at `buf + i`. Each round takes a byte at least, so that as many
-- rounds as bytes are enough.
pub split_loop : ℕ → ℕ → ℕ → Bytes → ℕ → Option ℕ → List NaluView → Option ℕ × List NaluView
split_loop zero len max_nalus p i start out = (start, out)
split_loop (suc rounds) len max_nalus p i start out = elim (ltb (i + 3) len) [
  | false ↦ (start, out)
  | true ↦ elim (start_code p) [
    | zero ↦ split_loop rounds len max_nalus (drop 1 p) (i + 1) start out
    | suc k ↦
        split_loop rounds len max_nalus (drop (suc k) p) (i + suc k) (some (i + suc k))
          (close_view start i max_nalus out)
  ]
]

-- Behind the loop, the last unit runs to the end of the buffer.
unfoldable pub close_last : ℕ → ℕ → Option ℕ × List NaluView → List NaluView
close_last len max_nalus (none, out) = out
close_last len max_nalus (some start, out) =
    if ltb start len && ltb (length out) max_nalus
    then out ++ (record { ptr = start; len = len - start } ∷ [])
    else out

unfoldable pub split_annexb_nalus : Bytes → ℕ → List NaluView
unfolding split_loop close_last start_code close_view
split_annexb_nalus buf max_nalus =
    close_last (length buf) max_nalus (split_loop (length buf) (length buf) max_nalus buf 0 none [])
