-- ===== src/Viewer/Reassembler/Arrivals.antt =====
-- What `H264RtpReassembler` does with a packet that comes next: the bits of its FU bytes, the buffer of
-- fragments that arrive in order, and the checks of its number.
use car_detect.Prelude.{
  ℕ, suc, ◌+◌, ◌%◌, ◌^◌, ◌≤◌, ◌<◌, ◌≡◌, refl, ap, ◌∙◌, ◌⊎◌, inl, inr, Option, some, Bool, true,
  false, not, ◌&&◌, List, [], ◌∷◌, ◌++◌, Bytes, length, ltb, ◌==◌, if◌then◌else◌, bit_and, bit_or,
  arith, every, ℕ-cases,
}
use native.Mathlib.Nat.{add-zero}
use car_detect.Effect.{done}
use car_detect.Rtp.Header.{IsU16, IsU32, RtpPacket, build_rtp_header, parse-build_rtp_header}
use car_detect.Rtp.Send.{fu_indicator, fu_header}
use car_detect.Rtp.Packets.Contents.{joined}
use car_detect.Viewer.Reassembler.{
  Reassembler, insert, contiguous, values, handle_rtp, handle_parsed, handle_packet, is_duplicate,
  seq_gap, check_gap, process_rtp_nalu,
}

-- What the two FU bytes of a fragment hold, for one pair of flags and one header byte.
abbrev pub fu_bits : Bool → Bool → ℕ → Bool
fu_bits is_start is_last h =
    bit_and (fu_indicator h) 0x1f == 28
    && bit_and (fu_header is_start is_last h) 0x1f == bit_and h 0x1f
    && (if is_start
        then not (bit_and (fu_header is_start is_last h) 0x80 == 0)
        else bit_and (fu_header is_start is_last h) 0x80 == 0)
    && (if is_last
        then not (bit_and (fu_header is_start is_last h) 0x40 == 0)
        else bit_and (fu_header is_start is_last h) 0x40 == 0)
    && bit_or (bit_and (fu_indicator h) 0xe0) (bit_and h 0x1f) == h

pub fu_bits_table : (is_start is_last : Bool) → every 256 (fu_bits is_start is_last) ≡ true
unfolding every fu_indicator fu_header
fu_bits_table true true = refl
fu_bits_table true false = refl
fu_bits_table false true = refl
fu_bits_table false false = refl

-- The buffer that fragments leave which arrive in order.
unfoldable pub numbered : ℕ → List Bytes → List (ℕ × Bytes)
numbered q [] = []
numbered q (c ∷ cs) = (q, c) ∷ numbered (q + 1) cs

pub length-numbered : (q : ℕ) (cs : List Bytes) → length (numbered q cs) ≡ length cs
unfolding numbered
length-numbered q [] = refl
length-numbered q (c ∷ cs) = ap suc (length-numbered (q + 1) cs)

pub insert-numbered :
    (q : ℕ) (v : Bytes) (cs : List Bytes)
    → insert (q + length cs) v (numbered q cs) ≡ numbered q (cs ++ (v ∷ []))
unfolding numbered insert
insert-numbered q v [] = rw (add-zero) refl
insert-numbered q v (c ∷ cs) =
    let later : ltb (q + suc (length cs)) q ≡ false = ground arith in
    let other : ((q + suc (length cs)) == q) ≡ false = ground arith in
    let shift : q + suc (length cs) ≡ q + 1 + length cs = omega arith in
    rw (later, other)
      (ap (◌∷◌ (q, c))
        (ap (λ (n : ℕ). insert n v (numbered (q + 1) cs)) shift ∙ insert-numbered (q + 1) v cs))

pub contiguous-numbered :
    (q : ℕ) (cs : List Bytes)
    → q + length cs < 2 ^ 16
    → contiguous q (numbered q cs) ≡ some (q + length cs)
unfolding numbered contiguous
contiguous-numbered q [] h = ap some (omega arith)
contiguous-numbered q (c ∷ cs) h =
    let next : (q + 1) % 2 ^ 16 ≡ q + 1 = omega arith in
    let same : (q == q) ≡ true = ground arith in
    rw (next, same) (contiguous-numbered (q + 1) cs (omega arith) ∙ ap some (omega arith))

pub values-numbered : (q : ℕ) (cs : List Bytes) → values (numbered q cs) ≡ joined cs
unfolding numbered values
values-numbered q [] = refl
values-numbered q (c ∷ cs) = ap (◌++◌ c) (values-numbered (q + 1) cs)

-- The number of a packet that comes next: at most three behind the last one, or the first.
abbrev pub Follows : ℕ → ℕ → Type 0
Follows last q = (last ≡ 0) ⊎ ((last < q) × (q ≤ last + 3))

-- A packet that the camera built is parsed as it was built.
pub handle_rtp-built :
    (q timestamp ssrc : ℕ) (marker : Bool) (payload : Bytes) (r : Reassembler)
    → IsU16 q
    → IsU32 timestamp
    → IsU32 ssrc
    → handle_rtp (build_rtp_header q timestamp ssrc 96 marker ++ payload) r
      ≡ done (
          handle_packet
            (record {
              vpxcc = 0x80;
              mpt = 96 + (if marker then 128 else 0);
              marker = marker;
              seq = q;
              timestamp = timestamp;
              ssrc = ssrc;
              payload = payload;
            })
            r)
unfolding handle_rtp build_rtp_header handle_parsed
handle_rtp-built q timestamp ssrc marker payload r hq ht hs =
    ap (λ (o : Option RtpPacket). handle_parsed o r)
      (parse-build_rtp_header q timestamp ssrc 96 marker payload hq ht hs (omega arith))

abbrev pub counted : ℕ → Reassembler × List Bytes → Reassembler × List Bytes
counted q (r, out) = (record r { last_seq = q }, out)

is_duplicate-later : (last q : ℕ) → last < q → is_duplicate last q ≡ false
unfolding is_duplicate
is_duplicate-later last q more = ground arith

is_duplicate-Follows : (last q : ℕ) → Follows last q → is_duplicate last q ≡ false
unfolding is_duplicate
is_duplicate-Follows last q (inl first) = rw first refl
is_duplicate-Follows last q (inr (more, near)) = is_duplicate-later last q more

seq_gap-near : (last q : ℕ) → last < q → q ≤ last + 3 → ltb 3 (seq_gap last q) ≡ false
unfolding seq_gap
seq_gap-near last q more near =
    let forward : ltb q last ≡ false = ground arith in rw forward (ground arith)

check_gap-Follows : (q : ℕ) (r : Reassembler) → Follows r.last_seq q → check_gap q r ≡ r
unfolding check_gap
check_gap-Follows q r (inl first) = rw first refl
check_gap-Follows q r (inr (more, near)) = elim (ℕ-cases r.last_seq) [
  | inl first ↦ rw first refl
  | inr (k, later) ↦
      let nonzero : (r.last_seq == 0) ≡ false = ground arith in
      rw (nonzero, seq_gap-near r.last_seq q more near) refl
]

-- A packet that follows is neither a duplicate nor behind a gap.
pub handle_packet-Follows :
    (pkt : RtpPacket) (r : Reassembler) (b : ℕ) (bs : Bytes)
    → pkt.payload ≡ b ∷ bs
    → Follows r.last_seq pkt.seq
    → handle_packet pkt r ≡ counted pkt.seq (process_rtp_nalu pkt.seq pkt.marker (b ∷ bs) r)
unfolding handle_packet
handle_packet-Follows pkt r b bs e follows =
    rw (e, is_duplicate-Follows r.last_seq pkt.seq follows, check_gap-Follows pkt.seq r follows)
      refl
