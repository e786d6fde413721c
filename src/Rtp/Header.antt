-- ===== src/Rtp/Header.antt =====
-- camera/rtsp.c: `build_rtp_header`; car_detect_qt/h264rtpreassembler.h: `parseRtp`.
use car_detect.Prelude.{
  ℕ, ◌+◌, ◌*◌, ◌/◌, ◌%◌, ◌^◌, ◌<◌, ◌≡◌, refl, Bool, true, false, not, Option, none, some, [], ◌∷◌,
  ◌++◌, arith, bit_and, bit_or, shr, if◌then◌else◌, ◌==◌, ◌&&◌, Bytes, length, every, every_below,
  bit_and_ff, bit_and_7f, bit_or_fields, ◌∙◌,
}

abbrev pub IsU16 : ℕ → Type 0
IsU16 n = n < 2 ^ 16

abbrev pub IsU32 : ℕ → Type 0
IsU32 n = n < 2 ^ 32

-- header[1]: the payload type, and the marker in the top bit.
marker_byte : ℕ → Bool → ℕ
marker_byte payload_type marker =
    let pt = bit_and payload_type 0x7f in if marker then bit_or pt 0x80 else pt

-- `header[2] = seq >> 8` stores into a byte, so it is reduced.
unfoldable pub build_rtp_header : ℕ → ℕ → ℕ → ℕ → Bool → Bytes
unfolding marker_byte
build_rtp_header seq timestamp ssrc payload_type marker =
    0x80
    ∷ marker_byte payload_type marker
    ∷ (shr seq 8 % 256)
    ∷ bit_and seq 0xff
    ∷ bit_and (shr timestamp 24) 0xff
    ∷ bit_and (shr timestamp 16) 0xff
    ∷ bit_and (shr timestamp 8) 0xff
    ∷ bit_and timestamp 0xff
    ∷ bit_and (shr ssrc 24) 0xff
    ∷ bit_and (shr ssrc 16) 0xff
    ∷ bit_and (shr ssrc 8) 0xff
    ∷ bit_and ssrc 0xff
    ∷ []

pub record RtpPacket : Type 0 where
  pub vpxcc : ℕ
  pub mpt : ℕ
  pub marker : Bool
  pub seq : ℕ
  pub timestamp : ℕ
  pub ssrc : ℕ
  pub payload : Bytes

-- `(a << 8) | b`, and the same for four bytes.
be16 : ℕ → ℕ → ℕ
be16 a b = bit_or (a * 2 ^ 8) b

be32 : ℕ → ℕ → ℕ → ℕ → ℕ
be32 a b c d = bit_or (bit_or (bit_or (a * 2 ^ 24) (b * 2 ^ 16)) (c * 2 ^ 8)) d

-- The source reads twelve bytes whatever the size; a QByteArray has a zero byte behind its last, and
-- `none` is a read behind that.
unfoldable pub parse_rtp : Bytes → Option RtpPacket
unfolding be16 be32
parse_rtp (b0 ∷ b1 ∷ b2 ∷ b3 ∷ b4 ∷ b5 ∷ b6 ∷ b7 ∷ b8 ∷ b9 ∷ b10 ∷ b11 ∷ payload) = some (record {
  vpxcc = b0;
  mpt = b1;
  marker = not (bit_and b1 0x80 == 0);
  seq = be16 b2 b3;
  timestamp = be32 b4 b5 b6 b7;
  ssrc = be32 b8 b9 b10 b11;
  payload = payload;
})
parse_rtp (b0 ∷ b1 ∷ b2 ∷ b3 ∷ b4 ∷ b5 ∷ b6 ∷ b7 ∷ b8 ∷ b9 ∷ b10 ∷ []) = some (record {
  vpxcc = b0;
  mpt = b1;
  marker = not (bit_and b1 0x80 == 0);
  seq = be16 b2 b3;
  timestamp = be32 b4 b5 b6 b7;
  ssrc = be32 b8 b9 b10 0;
  payload = [];
})
parse_rtp _ = none

pub length-build_rtp_header :
    (seq timestamp ssrc pt : ℕ) (marker : Bool) (payload : Bytes)
    → length (build_rtp_header seq timestamp ssrc pt marker ++ payload) ≡ 12 + length payload
unfolding build_rtp_header
length-build_rtp_header seq timestamp ssrc pt marker payload = omega arith

-- The marker byte holds both values, for all 128 payload types.
marker_table :
    (every 128 (λ pt. not (bit_and (bit_or pt 0x80) 0x80 == 0) && bit_or pt 0x80 == pt + 128)
      ≡ true)
    × (every 128 (λ pt. bit_and pt 0x80 == 0) ≡ true)
unfolding every
marker_table = (refl, refl)

marker_byte-eq :
    (pt : ℕ) (marker : Bool) → marker_byte pt marker ≡ pt % 128 + (if marker then 128 else 0)
unfolding marker_byte
marker_byte-eq pt true =
    ground (arith, bit_and_7f pt, every_below 128 _ (pt % 128) (omega arith) marker_table.0)
marker_byte-eq pt false = ground (arith, bit_and_7f pt)

marker_byte_bit :
    (pt : ℕ) (marker : Bool) → not (bit_and (marker_byte pt marker) 0x80 == 0) ≡ marker
unfolding marker_byte
marker_byte_bit pt true =
    ground (arith, bit_and_7f pt, every_below 128 _ (pt % 128) (omega arith) marker_table.0)
marker_byte_bit pt false =
    ground (arith, bit_and_7f pt, every_below 128 _ (pt % 128) (omega arith) marker_table.1)

be16-bytes : (n : ℕ) → IsU16 n → be16 (shr n 8 % 256) (bit_and n 0xff) ≡ n
unfolding be16
be16-bytes n h =
    rw bit_and_ff (bit_or_fields 8 (n / 256 % 256) (n % 256) (omega arith) ∙ omega arith)

be32_sum :
    (a b c d : ℕ)
    → b < 256
    → c < 256
    → d < 256
    → be32 a b c d ≡ a * 2 ^ 24 + b * 2 ^ 16 + c * 2 ^ 8 + d
unfolding be32
be32_sum a b c d hb hc hd =
    let first = bit_or_fields 24 a (b * 2 ^ 16) (omega arith) in
    let e1 : a * 2 ^ 24 + b * 2 ^ 16 ≡ (a * 256 + b) * 2 ^ 16 = omega arith in
    let second = bit_or_fields 16 (a * 256 + b) (c * 2 ^ 8) (omega arith) in
    let e2 : (a * 256 + b) * 2 ^ 16 + c * 2 ^ 8 ≡ ((a * 256 + b) * 256 + c) * 2 ^ 8 = omega arith in
    let third = bit_or_fields 8 ((a * 256 + b) * 256 + c) d (omega arith) in
    rw (first, e1, second, e2, third) (omega arith)

be32-bytes :
    (n : ℕ)
    → IsU32 n
    → be32
        (bit_and (shr n 24) 0xff)
        (bit_and (shr n 16) 0xff)
        (bit_and (shr n 8) 0xff)
        (bit_and n 0xff)
      ≡ n
be32-bytes n h = simp bit_and_ff (
    be32_sum (n / 2 ^ 24 % 256) (n / 2 ^ 16 % 256) (n / 2 ^ 8 % 256) (n % 256) (omega arith)
      (omega arith) (omega arith)
    ∙ omega arith)

-- What the viewer reads from a packet that the camera built.
pub parse-build_rtp_header :
    (seq timestamp ssrc pt : ℕ) (marker : Bool) (payload : Bytes)
    → IsU16 seq
    → IsU32 timestamp
    → IsU32 ssrc
    → pt < 128
    → parse_rtp (build_rtp_header seq timestamp ssrc pt marker ++ payload)
      ≡ some (record {
        vpxcc = 0x80;
        mpt = pt + (if marker then 128 else 0);
        marker = marker;
        seq = seq;
        timestamp = timestamp;
        ssrc = ssrc;
        payload = payload;
      })
unfolding build_rtp_header parse_rtp
parse-build_rtp_header seq timestamp ssrc pt marker payload hs ht hr hp =
    simp (be16-bytes seq hs, be32-bytes timestamp ht, be32-bytes ssrc hr, marker_byte_bit pt marker)
      (ground (arith, marker_byte-eq pt marker))
