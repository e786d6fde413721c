-- ===== src/Viewer/Reassembler/Runs.antt =====
-- `H264RtpReassembler` on the fragments of one NAL unit that arrive in order.
use car_detect.Prelude.{
  ℕ, suc, ◌+◌, ◌%◌, ◌^◌, ◌≤◌, ◌<◌, ◌≡◌, refl, ap, ap₂, ◌∙◌, inr, Bool, true, false, List, [], ◌∷◌,
  ◌++◌, Bytes, IsByte, length, bit_and, arith, length-append, append_assoc, append-nil,
}
use car_detect.Effect.{Outcome, done}
use car_detect.Rtp.Header.{IsU32}
use car_detect.Rtp.Send.{fu_indicator, fu_header}
use car_detect.Rtp.Packets.{fragment, fragments}
use car_detect.Rtp.Packets.Contents.{joined}
use car_detect.Viewer.Reassembler.{
  Reassembler, handle_rtp, handle_all, chain, add_outputs, process_rtp_nalu, fu_reset, deliver,
  add_nalu, check_and_save_sps_pps, start_code4,
}
use car_detect.Viewer.Reassembler.Fragments.{
  collecting, IsUnitType, process-first, process-middle, process-last,
}
use car_detect.Viewer.Reassembler.Arrivals.{
  Follows, handle_rtp-built, counted, handle_packet-Follows,
}

pub handle_all-cons :
    (p : Bytes) (ps : List Bytes) (r r1 r2 : Reassembler) (out out' : List Bytes)
    → handle_rtp p r ≡ done (r1, out)
    → handle_all ps r1 ≡ done (r2, out')
    → handle_all (p ∷ ps) r ≡ done (r2, out ++ out')
unfolding handle_all chain add_outputs
handle_all-cons p ps r r1 r2 out out' e f = rw (e, f) refl

pub handle_all-one :
    (p : Bytes) (r : Reassembler) (t : Reassembler × List Bytes)
    → handle_rtp p r ≡ done t
    → handle_all (p ∷ []) r ≡ done t
unfolding handle_all chain add_outputs
handle_all-one p r (r1, out) e = rw (e, append-nil) refl

handle_rtp-fragment :
    (timestamp ssrc h : ℕ) (is_start is_last : Bool) (seq q : ℕ) (piece : Bytes) (r : Reassembler)
    → IsU32 timestamp
    → IsU32 ssrc
    → seq % 2 ^ 16 ≡ q
    → Follows r.last_seq q
    → handle_rtp (fragment timestamp ssrc h is_start is_last seq piece) r
      ≡ done (
          counted q
            (process_rtp_nalu q is_last (fu_indicator h ∷ fu_header is_start is_last h ∷ piece) r))
unfolding fragment
handle_rtp-fragment timestamp ssrc h is_start is_last seq q piece r ht hs e follows = rw e (
    handle_rtp-built q timestamp ssrc is_last
      (fu_indicator h ∷ fu_header is_start is_last h ∷ piece) r (omega arith) ht hs
    ∙ ap done (
        handle_packet-Follows _ r (fu_indicator h) (fu_header is_start is_last h ∷ piece) refl
          follows))

-- A receiver with a number, and what it becomes with a unit.
abbrev pub seen : Reassembler → ℕ → Reassembler
seen r n = record r { last_seq = n }

-- The unit, behind a start code, joins the frame; with the marker the frame is handed on; `n` is the
-- number of the unit's last packet.
abbrev pub with_unit : ℕ → Bool → ℕ → Bytes → Reassembler → Reassembler × List Bytes
with_unit n marker h nal r =
    counted n (deliver marker (add_nalu (bit_and h 0x1f) (start_code4 ++ nal) r))

-- No fragments are waiting.
abbrev pub Idle : Reassembler → Type 0
Idle r =
    (r.fu_buffer ≡ []) × (r.fu_started ≡ false) × (r.fu_expected_seq ≡ 0) × (r.fu_start_seq ≡ 0)

pub fu_reset-Idle : (r : Reassembler) → Idle r → fu_reset r ≡ r
unfolding fu_reset
fu_reset-Idle r (e0, e1, e2, e3) = rw (e0, e1, e2, e3) refl

fu_reset-seen :
    (n l : ℕ) (nal_type : ℕ) (nalu : Bytes) (r : Reassembler)
    → counted n (deliver true (fu_reset (add_nalu nal_type nalu (seen r l))))
      ≡ counted n (deliver true (fu_reset (add_nalu nal_type nalu r)))
unfolding add_nalu fu_reset check_and_save_sps_pps deliver
fu_reset-seen n l nal_type nalu r = ground arith

pub add_nalu-Idle :
    (nal_type : ℕ) (nalu : Bytes) (r : Reassembler) → Idle r → Idle (add_nalu nal_type nalu r)
unfolding add_nalu check_and_save_sps_pps
add_nalu-Idle nal_type nalu r idle = ground arith

module _ (timestamp ssrc h : ℕ) (ht : IsU32 timestamp) (hs : IsU32 ssrc) (hb : IsByte h)
    (unit : IsUnitType (bit_and h 0x1f)) (q : ℕ) (r : Reassembler) where
  abbrev complete_with : ℕ → List Bytes → Outcome (Reassembler × List Bytes)
  complete_with n cs =
      done (
        counted n
          (deliver true (fu_reset (add_nalu (bit_and h 0x1f) (start_code4 ++ joined cs) r))))

  -- The fragments behind the first, `cs` having arrived.
  handle_all-rest :
      (ps : List Bytes) (p : Bytes) (cs : List Bytes) (seq l : ℕ)
      → seq < 2 ^ 64
      → seq % 2 ^ 16 ≡ q + length cs
      → q + length cs ≡ suc l
      → q + length cs + suc (length ps) < 2 ^ 16
      → length cs + length ps < 1024
      → handle_all (fragments timestamp ssrc h false seq (p ∷ ps)) (collecting (seen r l) q cs)
        ≡ complete_with (q + length cs + length ps) (cs ++ (p ∷ ps))
  unfolding fragments handle_all
  handle_all-rest [] p cs seq l small e el last room =
      handle_all-cons _ [] (collecting (seen r l) q cs) _ _ _ []
        (handle_rtp-fragment timestamp ssrc h false true seq (q + length cs) p
            (collecting (seen r l) q cs) ht hs e (inr (omega arith, omega arith))
          ∙ ap (λ (t : Reassembler × List Bytes). done (counted (q + length cs) t))
              (process-last q h p cs (seen r l) hb unit (omega arith) (omega arith))
          ∙ ap done (fu_reset-seen (q + length cs) l (bit_and h 0x1f) _ r))
        refl
      ∙ rw append-nil (ap (λ (n : ℕ). complete_with n (cs ++ (p ∷ []))) (omega arith))
  handle_all-rest (p' ∷ ps) p cs seq l small e el last room =
      let count : length (cs ++ (p ∷ [])) ≡ length cs + 1 =
        omega (arith, length-append cs (p ∷ [])) in
      handle_all-cons _ (fragments timestamp ssrc h false ((seq + 1) % 2 ^ 64) (p' ∷ ps))
        (collecting (seen r l) q cs) (collecting (seen r (q + length cs)) q (cs ++ (p ∷ []))) _ [] _
        (handle_rtp-fragment timestamp ssrc h false false seq (q + length cs) p
            (collecting (seen r l) q cs) ht hs e (inr (omega arith, omega arith))
          ∙ ap (λ (t : Reassembler × List Bytes). done (counted (q + length cs) t))
              (process-middle q h p cs (seen r l) hb unit (omega arith) (omega arith)))
        (handle_all-rest ps p' (cs ++ (p ∷ [])) ((seq + 1) % 2 ^ 64) (q + length cs) (omega arith)
          (omega (arith, count)) (omega (arith, count)) (omega (arith, count))
          (omega (arith, count)))
      ∙ ap₂ complete_with (omega (arith, count)) (append_assoc cs (p ∷ []) (p' ∷ ps))

  pub handle_all-fragments :
      (seq b : ℕ) (piece p : Bytes) (ps : List Bytes)
      → seq < 2 ^ 64
      → seq % 2 ^ 16 ≡ q
      → Follows r.last_seq q
      → q + 2 + length ps < 2 ^ 16
      → 2 + length ps ≤ 1024
      → handle_all (fragments timestamp ssrc h true seq ((b ∷ piece) ∷ p ∷ ps)) r
        ≡ complete_with (q + 1 + length ps) ((h ∷ b ∷ piece) ∷ p ∷ ps)
  unfolding fragments handle_all
  handle_all-fragments seq b piece p ps small e follows last room =
      handle_all-cons _ (fragments timestamp ssrc h false ((seq + 1) % 2 ^ 64) (p ∷ ps)) r
        (collecting (seen r q) q ((h ∷ b ∷ piece) ∷ [])) _ [] _
        (handle_rtp-fragment timestamp ssrc h true false seq q (b ∷ piece) r ht hs e follows
          ∙ ap (λ (t : Reassembler × List Bytes). done (counted q t))
              (process-first q h b piece r hb unit (omega arith)))
        (handle_all-rest ps p ((h ∷ b ∷ piece) ∷ []) ((seq + 1) % 2 ^ 64) q (omega arith)
          (omega arith) (omega arith) (omega arith) (omega arith))
