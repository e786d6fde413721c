-- ===== src/Rtsp/Setup/Transport.antt =====
-- What `rtsp_parse_setup_response` of camera/rtsp.c makes of a response.
use car_detect.Prelude.{
  ℕ, zero, suc, ◌≤◌, ◌<◌, ◌^◌, ◌≡◌, ◌↔◌, refl, ap, ap₂, ◌∙◌, none, some, false, ◌||◌, [], ◌∷◌, ◌++◌,
  Bytes, All, arith, length, drop, ◌==◌, codes, Bool-cases, Option-cases, inl, inr,
}
use car_detect.Tcp.{value, minus_one}
use car_detect.Rtsp.Session.{RtspSession}
use car_detect.Rtsp.Text.{decimal, is_digit, is_space, strcasestr}
use car_detect.Rtsp.Text.Numerals.{NoDigit, strtol_u16-decimal, strchr-decimal}
use car_detect.Rtsp.Setup.{
  skip_blanks, id_bytes, session_id_in, number_pair, after_dash, rtsp_parse_setup_response,
}

number_pair-decimal :
    (a b : ℕ) (rest : Bytes)
    → a < 2 ^ 16
    → b < 2 ^ 16
    → NoDigit rest
    → number_pair (decimal a ++ (b'-' ∷ (decimal b ++ rest))) ≡ (a, b)
unfolding number_pair
number_pair-decimal a b rest ha hb h =
    ap₂ (λ x y. (x, y)) (strtol_u16-decimal a (b'-' ∷ (decimal b ++ rest)) ha refl_digit)
      (ap after_dash (strchr-decimal a (decimal b ++ rest)) ∙ strtol_u16-decimal b rest hb h)
  where
    refl_digit : NoDigit (b'-' ∷ (decimal b ++ rest))
    refl_digit = unfold is_digit in refl

-- The bytes that a session id is made of.
abbrev pub IsIdByte : ℕ → Type 0
IsIdByte c = (c == 13 || c == b';' || is_space c) ≡ false

id_bytes-IsIdByte :
    (room : ℕ) (s : Bytes) → All IsIdByte (id_bytes room s) × (length (id_bytes room s) ≤ room)
unfolding id_bytes
id_bytes-IsIdByte zero s = (tt, omega arith)
id_bytes-IsIdByte (suc room) [] = (tt, omega arith)
id_bytes-IsIdByte (suc room) (c ∷ cs) = elim (Bool-cases (c == 13 || c == b';' || is_space c)) [
  | inl ends ↦ rw ends (tt, omega arith)
  | inr more ↦
      rw more ((more, (id_bytes-IsIdByte room cs).0), omega (arith, (id_bytes-IsIdByte room cs).1))
]

-- The session id fits its array of 64 bytes with the terminator, and holds no '\r', no ';' and no
-- white space, whatever the response is.
pub session_id_in-IsIdByte :
    (response : Bytes)
    → All IsIdByte (session_id_in response) × (length (session_id_in response) ≤ 63)
unfolding session_id_in
session_id_in-IsIdByte response = elim (Option-cases (strcasestr response (codes "Session:"))) [
  | inl e ↦ rw (e, session_id_in) (tt, omega arith)
  | inr (p, e) ↦ rw (e, session_id_in) (id_bytes-IsIdByte 63 (skip_blanks (drop 8 p)))
]

module _ {K : Type 0} (s : RtspSession K) (response : Bytes) where
  -- A response whose first "server_port=" is followed by two port numbers sets the session up for
  -- UDP: the result is 0, the ports are those numbers, and no channel is set.
  pub rtsp_parse_setup_response-udp :
      (a b : ℕ) (rest : Bytes)
      → strcasestr response (codes "server_port=")
        ≡ some (codes "server_port=" ++ (decimal a ++ (b'-' ∷ (decimal b ++ rest))))
      → a < 2 ^ 16
      → b < 2 ^ 16
      → NoDigit rest
      → let (s', r) = rtsp_parse_setup_response response s in
        (r ≡ value 0)
        × (s'.trans_type ≡ codes "udp")
        × (s'.server_rtp_port ≡ a)
        × (s'.server_rtcp_port ≡ b)
        × (s'.rtp_channel ≡ 0)
        × (s'.rtcp_channel ≡ 0)
        × (s'.session_id ≡ session_id_in response)
  unfolding rtsp_parse_setup_response
  rtsp_parse_setup_response-udp a b rest e ha hb h =
      rw (e, rtsp_parse_setup_response, number_pair-decimal a b rest ha hb h)
        (refl, refl, refl, refl, refl, refl, refl)

  -- A response with no "server_port=", whose first "interleaved=" is followed by two channel
  -- numbers, sets the session up for TCP: the result is 0, the channels are those numbers, and no
  -- port is set.
  pub rtsp_parse_setup_response-tcp :
      (a b : ℕ) (rest : Bytes)
      → strcasestr response (codes "server_port=") ≡ none
      → strcasestr response (codes "interleaved=")
        ≡ some (codes "interleaved=" ++ (decimal a ++ (b'-' ∷ (decimal b ++ rest))))
      → a < 2 ^ 16
      → b < 2 ^ 16
      → NoDigit rest
      → let (s', r) = rtsp_parse_setup_response response s in
        (r ≡ value 0)
        × (s'.trans_type ≡ codes "tcp")
        × (s'.rtp_channel ≡ a)
        × (s'.rtcp_channel ≡ b)
        × (s'.server_rtp_port ≡ 0)
        × (s'.server_rtcp_port ≡ 0)
        × (s'.session_id ≡ session_id_in response)
  unfolding rtsp_parse_setup_response
  rtsp_parse_setup_response-tcp a b rest n e ha hb h =
      rw (n, e, rtsp_parse_setup_response, number_pair-decimal a b rest ha hb h)
        (refl, refl, refl, refl, refl, refl, refl)

  -- It fails just when the response has neither keyword, and then no transport is chosen.
  pub rtsp_parse_setup_response-fails : ((rtsp_parse_setup_response response s).1 ≡ minus_one) ↔ (
      (strcasestr response (codes "server_port=") ≡ none)
      × (strcasestr response (codes "interleaved=") ≡ none)
      × ((rtsp_parse_setup_response response s).0.trans_type ≡ []))
  unfolding rtsp_parse_setup_response
  rtsp_parse_setup_response-fails =
      elim (Option-cases (strcasestr response (codes "server_port="))) [
        | inr (p, e) ↦ rw (e, rtsp_parse_setup_response) (λ h. cc, λ h. cc)
        | inl n ↦ elim (Option-cases (strcasestr response (codes "interleaved="))) [
          | inr (p, e) ↦ rw (n, e, rtsp_parse_setup_response) (λ h. cc, λ h. cc)
          | inl m ↦ rw (n, m, rtsp_parse_setup_response) (λ h. (refl, refl, refl), λ h. refl)
        ]
      ]

  -- What it does not touch, and the session id, which it always sets.
  pub rtsp_parse_setup_response-keeps :
      let s' = (rtsp_parse_setup_response response s).0 in
      (s'.state ≡ s.state)
      × (s'.kcp ≡ s.kcp)
      × (s'.cseq ≡ s.cseq)
      × (s'.session_id ≡ session_id_in response)
  unfolding rtsp_parse_setup_response
  rtsp_parse_setup_response-keeps =
      elim (Option-cases (strcasestr response (codes "server_port="))) [
        | inr (p, e) ↦ rw (e, rtsp_parse_setup_response) (refl, refl, refl, refl)
        | inl n ↦ elim (Option-cases (strcasestr response (codes "interleaved="))) [
          | inr (p, e) ↦ rw (n, e, rtsp_parse_setup_response) (refl, refl, refl, refl)
          | inl m ↦ rw (n, m, rtsp_parse_setup_response) (refl, refl, refl, refl)
        ]
      ]
