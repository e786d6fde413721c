-- ===== src/Rtp/Packets/Refinement.antt =====
-- `rtp_send_h264` of camera/rtsp.c and the description of its packets.
use car_detect.Prelude.{
  ℕ, zero, suc, ◌+◌, ◌-◌, ◌%◌, ◌^◌, ◌≤◌, ◌<◌, ◌≡◌, refl, sym, ap, ◌∙◌, Bool, true, false, List, [],
  ◌∷◌, ◌++◌, Bytes, arith, length, take, drop, ltb, leb, length-take, length-drop, inl, inr,
  Bool-cases, lt→ltb, le→leb, le→ltb_false, take_all, drop_all, drop-drop, ltb→lt, ltb_false→le,
  lt→leb_false, uncons,
}
use car_detect.Effect.{Action, pure, ◌>>=◌, ◌>>◌, bind_assoc}
use car_detect.Os.{Os}
use car_detect.Kcp.{KcpLib}
use car_detect.Rtsp.Session.{RtspSession}
use car_detect.Rtp.Header.{build_rtp_header, length-build_rtp_header}
use car_detect.Rtp.Send.{
  single_marker, fu_indicator, fu_header, fragment_len, packet_buffer, transmit, fu_loop,
  rtp_send_h264,
}
use car_detect.Rtp.Packets.{pieces, fragment, fragments, rtp_packets, advance, send_each, send_all}

pieces-nil : (k : ℕ) → pieces k [] ≡ []
unfolding pieces
pieces-nil zero = refl
pieces-nil (suc k) = refl

pieces_last : (k b : ℕ) (bs : Bytes) → length bs ≤ 1381 → pieces (suc k) (b ∷ bs) ≡ (b ∷ bs) ∷ []
unfolding pieces
pieces_last k b bs h = rw (take_all 1381 bs h, drop_all 1381 bs h, pieces-nil k) refl

pieces_more :
    (k b c : ℕ) (bs cs : Bytes)
    → drop 1381 bs ≡ c ∷ cs
    → pieces (suc k) (b ∷ bs) ≡ take 1382 (b ∷ bs) ∷ pieces k (c ∷ cs)
unfolding pieces
pieces_more k b c bs cs e = rw e refl

fragments_one :
    (timestamp ssrc nal_header : ℕ) (is_start : Bool) (seq : ℕ) (piece : Bytes)
    → fragments timestamp ssrc nal_header is_start seq (piece ∷ [])
      ≡ fragment timestamp ssrc nal_header is_start true seq piece ∷ []
unfolding fragments
fragments_one timestamp ssrc nal_header is_start seq piece = refl

fragments_more :
    (timestamp ssrc nal_header : ℕ) (is_start : Bool) (seq k c : ℕ) (piece cs : Bytes)
    → fragments timestamp ssrc nal_header is_start seq (piece ∷ pieces (suc k) (c ∷ cs))
      ≡ fragment timestamp ssrc nal_header is_start false seq piece
        ∷ fragments timestamp ssrc nal_header false ((seq + 1) % 2 ^ 64) (pieces (suc k) (c ∷ cs))
unfolding fragments pieces
fragments_more timestamp ssrc nal_header is_start seq k c piece cs = refl

module _ (os : Os) (lib : KcpLib (Os.World os)) where
  abbrev Session : Type 0
  Session = RtspSession (KcpLib.Kcb lib)

  abbrev bump : Session → Session
  bump s = record s { rtp_seq = (s.rtp_seq + 1) % 2 ^ 64 }

  -- The counter does not matter to what is sent.
  pub send_each-seq :
      (fuel : ℕ) (s : Session) (n : ℕ) (ps : List Bytes)
      → send_each os lib fuel (record s { rtp_seq = n }) ps ≡ send_each os lib fuel s ps
  unfolding send_each transmit
  send_each-seq fuel s n [] = refl
  send_each-seq fuel s n (p ∷ ps) =
      ap (λ (t : Action (Os.World os) (Unit {0})). transmit os lib fuel s p >> t)
        (send_each-seq fuel s n ps)

  pub send_all-nil : (fuel : ℕ) (s : Session) → send_all os lib fuel s [] ≡ pure s
  unfolding send_all send_each advance
  send_all-nil fuel s = refl

  -- One packet and the rest.
  send_all-cons :
      (fuel : ℕ) (s : Session) (p : Bytes) (ps : List Bytes)
      → let s' = bump s in
        (transmit os lib fuel s' p >> send_all os lib fuel s' ps) ≡ send_all os lib fuel s (p ∷ ps)
  unfolding send_all send_each advance transmit
  send_all-cons fuel s p ps =
      let after : Session = record s { rtp_seq = advance s.rtp_seq (suc (length ps)) } in
      ap (λ (t : Action (Os.World os) (Unit {0})). transmit os lib fuel s p >> (t >> pure after))
        (send_each-seq fuel s ((s.rtp_seq + 1) % 2 ^ 64) ps)
      ∙ sym (
          bind_assoc (transmit os lib fuel s p) (λ _. send_each os lib fuel s ps) (λ _. pure after))

  -- The buffer has room for what is put there.
  packet_buffer-fits :
      {A : Type 0} (p : Bytes) (next : Bytes → Action (Os.World os) A)
      → length p ≤ 1396
      → (packet_buffer p >>= next) ≡ next p
  packet_buffer-fits p next h = rw (le→leb (length p) 1396 h)

  fu_loop_end :
      (rounds fuel : ℕ) (s : Session) (timestamp nal_header : ℕ) (payload : Bytes) (pos : ℕ)
      → length payload ≤ pos
      → fu_loop os lib (suc rounds) fuel s timestamp nal_header payload pos false ≡ pure s
  unfolding fu_loop
  fu_loop_end rounds fuel s timestamp nal_header payload pos h =
      rw (le→ltb_false pos (length payload) h)

  -- One round, with what it computes named.
  fu_loop_round :
      (rounds fuel : ℕ) (s : Session) (timestamp nal_header : ℕ) (payload : Bytes) (pos len : ℕ)
      (is_start is_last : Bool) (piece : Bytes)
      → pos < length payload
      → fragment_len (length payload - pos) ≡ len
      → leb (length payload) (pos + len) ≡ is_last
      → take len (drop pos payload) ≡ piece
      → length piece ≤ 1382
      → let s' = bump s in
        fu_loop os lib (suc rounds) fuel s timestamp nal_header payload pos is_start ≡ (
          transmit os lib fuel s'
            (fragment timestamp s.rtp_ssrc nal_header is_start is_last s.rtp_seq piece)
          >> fu_loop os lib rounds fuel s' timestamp nal_header payload (pos + len) false)
  unfolding fu_loop fragment
  fu_loop_round rounds fuel s timestamp nal_header payload pos len is_start is_last piece h el e ep
        hp =
      rw (lt→ltb pos (length payload) h, el, e, ep)
        (packet_buffer-fits
          (fragment timestamp s.rtp_ssrc nal_header is_start is_last s.rtp_seq piece)
          (λ p.
            transmit os lib fuel (bump s) p
            >> fu_loop os lib rounds fuel (bump s) timestamp nal_header payload (pos + len) false)
          (omega (
            arith,
            length-build_rtp_header (s.rtp_seq % 2 ^ 16) timestamp s.rtp_ssrc 96 is_last
                (fu_indicator nal_header ∷ fu_header is_start is_last nal_header ∷ piece),
          )))

  fu_loop-fragments :
      (rounds fuel : ℕ) (s : Session) (timestamp nal_header : ℕ) (payload : Bytes) (pos : ℕ)
      (is_start : Bool) (k : ℕ) (b : ℕ) (bs : Bytes)
      → drop pos payload ≡ b ∷ bs
      → length bs < rounds
      → length bs < k
      → fu_loop os lib (suc rounds) fuel s timestamp nal_header payload pos is_start
        ≡ send_all os lib fuel s
            (fragments timestamp s.rtp_ssrc nal_header is_start s.rtp_seq (pieces k (b ∷ bs)))
  fu_loop-fragments zero fuel s timestamp nal_header payload pos is_start k b bs e h hk =
      absurd (omega arith)
  fu_loop-fragments (suc rounds) fuel s timestamp nal_header payload pos is_start zero b bs e h hk =
      absurd (omega arith)
  fu_loop-fragments (suc rounds) fuel s timestamp nal_header payload pos is_start (suc k) b bs e h
        hk =
      elim (Bool-cases (ltb 1381 (length bs))) [
        | inr fits ↦ one_left (ltb_false→le _ _ fits)
        | inl more ↦
            let (c, cs, ec) =
              uncons (drop 1381 bs) (omega (arith, length-drop 1381 bs, ltb→lt _ _ more)) in
            more_left k c cs ec
              (fu_loop-fragments rounds fuel (bump s) timestamp nal_header payload (pos + 1382)
                false)
              (ltb→lt _ _ more) hk
      ]
    where
      left : length payload - pos ≡ suc (length bs)
      left = sym (length-drop pos payload) ∙ ap length e

      packet : Bool → Bytes → Bytes
      packet is_last piece =
          fragment timestamp s.rtp_ssrc nal_header is_start is_last s.rtp_seq piece

      next : Bytes → Action (Os.World os) Session → Action (Os.World os) Session
      next p t = transmit os lib fuel (bump s) p >> t

      goal : List Bytes → Type 0
      goal ps =
          fu_loop os lib (suc (suc rounds)) fuel s timestamp nal_header payload pos is_start
          ≡ send_all os lib fuel s (fragments timestamp s.rtp_ssrc nal_header is_start s.rtp_seq ps)

      one_left : length bs ≤ 1381 → goal (pieces (suc k) (b ∷ bs))
      one_left fits =
          rw (pieces_last k b bs fits, fragments_one)
            (fu_loop_round (suc rounds) fuel s timestamp nal_header payload pos (suc (length bs))
                is_start true (b ∷ bs) (omega (arith, left)) (rw left (ground arith))
                (le→leb _ _ (omega (arith, left)))
                (rw e (take_all (suc (length bs)) (b ∷ bs) (omega arith))) (omega arith)
              ∙ ap (next (packet true (b ∷ bs))) (
                  fu_loop_end rounds fuel (bump s) timestamp nal_header payload
                    (pos + suc (length bs)) (omega (arith, left))
                  ∙ sym (send_all-nil fuel (bump s)))
              ∙ send_all-cons fuel s (packet true (b ∷ bs)) [])

      more_left :
          (k c : ℕ) (cs : Bytes)
          → drop 1381 bs ≡ c ∷ cs
          → ((j c : ℕ) (cs : Bytes)
              → drop (pos + 1382) payload ≡ c ∷ cs
              → length cs < rounds
              → length cs < j
              → fu_loop os lib
                  (suc rounds)
                  fuel
                  (bump s)
                  timestamp
                  nal_header
                  payload
                  (pos + 1382)
                  false
                ≡ send_all os lib fuel (bump s) (
                    fragments timestamp s.rtp_ssrc nal_header false
                      ((s.rtp_seq + 1) % 2 ^ 64)
                      (pieces j (c ∷ cs))))
          → 1381 < length bs
          → length bs < suc k
          → goal (pieces (suc k) (b ∷ bs))
      more_left zero c cs ec ih many hk = absurd (omega arith)
      more_left (suc k) c cs ec ih many hk =
          let shorter : suc (length cs) ≡ length bs - 1381 =
            sym (ap length ec) ∙ length-drop 1381 bs in
          rw (pieces_more (suc k) b c bs cs ec) (
            fu_loop_round (suc rounds) fuel s timestamp nal_header payload pos 1382 is_start false
              (take 1382 (b ∷ bs)) (omega (arith, left))
              (rw (left, lt→ltb 1382 (suc (length bs)) (omega arith)))
              (lt→leb_false (length payload) (pos + 1382) (omega (arith, left))) (rw e)
              (omega (arith, length-take 1381 bs))
            ∙ ap (next (packet false (take 1382 (b ∷ bs)))) (
                ih (suc k) c cs (sym (drop-drop pos 1382 payload) ∙ ap (drop 1382) e ∙ ec)
                  (omega arith) (omega arith))
            ∙ send_all-cons fuel s (packet false (take 1382 (b ∷ bs))) _
            ∙ ap (send_all os lib fuel s) (
                sym (
                  fragments_more timestamp s.rtp_ssrc nal_header is_start s.rtp_seq k c
                    (take 1382 (b ∷ bs)) cs)))

  single_packet :
      (fuel : ℕ) (s : Session) (timestamp h : ℕ) (rest : Bytes)
      → length rest ≤ 1383
      → let packet =
          build_rtp_header (s.rtp_seq % 2 ^ 16) timestamp s.rtp_ssrc 96 (single_marker h)
          ++ (h ∷ rest) in
        (packet_buffer packet >>= λ p. transmit os lib fuel (bump s) p >> pure (bump s))
        ≡ send_all os lib fuel s (packet ∷ [])
  single_packet fuel s timestamp h rest small =
      let packet =
        build_rtp_header (s.rtp_seq % 2 ^ 16) timestamp s.rtp_ssrc 96 (single_marker h)
        ++ (h ∷ rest) in
      packet_buffer-fits packet (λ p. transmit os lib fuel (bump s) p >> pure (bump s))
        (omega (
          arith,
          length-build_rtp_header (s.rtp_seq % 2 ^ 16) timestamp s.rtp_ssrc 96 (single_marker h)
              (h ∷ rest),
        ))
      ∙ ap (λ (t : Action (Os.World os) Session). transmit os lib fuel (bump s) packet >> t)
          (sym (send_all-nil fuel (bump s)))
      ∙ send_all-cons fuel s packet []

  -- `rtp_send_h264` is total: on any NAL unit, of any length, it sends the packets of the
  -- description, each once and in order, counts the sequence number on by their number, writes
  -- within its packet buffer, and ends.
  pub rtp_send_h264-send_all :
      (fuel : ℕ) (s : Session) (timestamp : ℕ) (nalu : Bytes)
      → rtp_send_h264 os lib fuel s timestamp nalu
        ≡ send_all os lib fuel s (rtp_packets s.rtp_seq timestamp s.rtp_ssrc nalu)
  unfolding rtp_send_h264 rtp_packets
  rtp_send_h264-send_all fuel s timestamp [] = sym (send_all-nil fuel s)
  rtp_send_h264-send_all fuel s timestamp (h ∷ []) =
      single_packet fuel s timestamp h [] (omega arith)
  rtp_send_h264-send_all fuel s timestamp (h ∷ b ∷ bs) = elim (Bool-cases (ltb 1382 (length bs))) [
    | inr fits ↦
        let small = ltb_false→le _ _ fits in
        rw
          (
            le→leb (4 + suc (suc (length bs)) + 12) 1400 (omega arith),
            le→leb (suc (length bs)) 1383 (omega arith),
          )
          (single_packet fuel s timestamp h (b ∷ bs) (omega arith))
    | inl more ↦
        let large = ltb→lt _ _ more in
        rw
          (
            lt→leb_false (4 + suc (suc (length bs)) + 12) 1400 (omega arith),
            lt→leb_false (suc (length bs)) 1383 (omega arith),
          )
          (fu_loop-fragments (suc (length bs)) fuel s timestamp h (b ∷ bs) 0 true (suc (length bs))
            b bs refl (omega arith) (omega arith))
  ]
