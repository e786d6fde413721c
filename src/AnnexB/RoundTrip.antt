-- ===== src/AnnexB/RoundTrip.antt =====
-- `split_annexb_nalus` of camera/rtsp_client.c on a stream that an encoder has joined.
use car_detect.Prelude.{
  ℕ, ◌+◌, ◌≤◌, ◌≡◌, refl, sym, ◌∙◌, none, List, [], ◌∷◌, ◌++◌, map, Bytes, arith, length,
  length-append, All, ap₂, drop-length-append, take-length-append, append_assoc,
}
use car_detect.AnnexB.{close_view, split_loop, close_last, split_annexb_nalus}
use car_detect.AnnexB.Units.{IsNal, Unit4, code_bytes, join_units, view_bytes, places}
use car_detect.AnnexB.Scan.{after_loop, after_loop-units, join_units-cons}

split_annexb_nalus-places :
    (units : List Unit4) (max_nalus : ℕ)
    → All (λ u. IsNal u.1) units
    → length units ≤ max_nalus
    → split_annexb_nalus (join_units units) max_nalus ≡ places 0 units
unfolding split_annexb_nalus
split_annexb_nalus-places [] max_nalus n h = unfold join_units places split_loop close_last in refl
split_annexb_nalus-places (u ∷ units) max_nalus n h =
    unfold after_loop close_view in
    after_loop-units (length (join_units (u ∷ units))) max_nalus units u
      (length (join_units (u ∷ units))) 0 none [] n (omega arith) (omega arith) (omega arith)

view_bytes-middle :
    (before nal after : Bytes) (ptr : ℕ)
    → ptr ≡ length before
    → view_bytes (before ++ (nal ++ after)) (record { ptr = ptr; len = length nal }) ≡ nal
view_bytes-middle before nal after ptr e =
    rw (e, drop-length-append before (nal ++ after)) (take-length-append nal after)

-- What the places show, in a stream behind some other bytes.
map-view_bytes-places :
    (units : List Unit4) (before stream : Bytes) (i : ℕ)
    → stream ≡ before ++ join_units units
    → i ≡ length before
    → map (view_bytes stream) (places i units) ≡ map (λ u. u.1) units
unfolding places
map-view_bytes-places [] before stream i e h = refl
map-view_bytes-places ((long, nal) ∷ units) before stream i e h =
    let at' : ℕ = i + length (code_bytes long) in
    let joined : stream ≡ (before ++ code_bytes long) ++ (nal ++ join_units units) =
      e ∙ rw (join_units-cons, append_assoc) in
    let moved : stream ≡ ((before ++ code_bytes long) ++ nal) ++ join_units units =
      joined ∙ sym (append_assoc (before ++ code_bytes long) nal (join_units units)) in
    let here : at' ≡ length (before ++ code_bytes long) =
      omega (arith, h, length-append before (code_bytes long)) in
    ap₂ ◌∷◌
      (rw joined (view_bytes-middle (before ++ code_bytes long) nal (join_units units) at' here))
      (map-view_bytes-places units ((before ++ code_bytes long) ++ nal) stream (at' + length nal)
        moved (omega (arith, here, length-append (before ++ code_bytes long) nal)))

-- `split_annexb_nalus` finds the units of a stream again: the views that it returns show just the
-- units, in order, whichever start codes stand before them, if there are no more units than the
-- array has places, no unit holds a start code, and none ends in a zero byte or is empty.
pub split-join_units :
    (units : List Unit4) (max_nalus : ℕ)
    → All (λ u. IsNal u.1) units
    → length units ≤ max_nalus
    → map (view_bytes (join_units units)) (split_annexb_nalus (join_units units) max_nalus)
      ≡ map (λ u. u.1) units
split-join_units units max_nalus n h =
    rw (split_annexb_nalus-places units max_nalus n h)
      (map-view_bytes-places units [] (join_units units) 0 refl refl)
