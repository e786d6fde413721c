-- ===== src/Media/Connect/Answers.antt =====
-- What counts as an answer of media/RtspConnect.cc, and the answers to SETUP.
use car_detect.Prelude.{
  ℕ, ◌%◌, ◌^◌, ◌≡◌, refl, sym, ap, ap₂, ◌∙◌, Option, none, some, Bool, true, false, not, ◌&&◌, List,
  [], ◌∷◌, ◌++◌, Bytes, All, All-append, append_assoc, append-nil, if◌then◌else◌, if_cases, codes,
}
use car_detect.Rtsp.Session.{ready}
use car_detect.Media.Text.{map_find, stoul}
use car_detect.Media.Requests.{Headers}
use car_detect.Media.Transport.{Transport, has, parse_transport}
use car_detect.Media.Connect.{
  KcpPointer, unset, null, pointer, RtspConnect, Event, responded, udp_added, Server, emit,
  set_state, response_text, send_response,
}
use car_detect.Media.Connect.Setup.{
  open_track, set_up_done, set_up_udp, set_up_transport, udp_answer, tcp_answer, handle_setup,
  with_type, by_type_cases,
}
use car_detect.Media.Connect.Record.{names_session}
use car_detect.Media.Connect.Dispatch.{Method, record_, teardown}

-- Not a response.
abbrev pub IsSilent : Event → Type 0
IsSilent (responded text) = ⊥
IsSilent _ = Unit {0}

-- What happened between two states, no response among it.
abbrev pub Extends : Server → Server → Type 0
Extends w w' =
    (others : List Event) × (w'.events ≡ w.events ++ others)
    × All IsSilent others
    × (w'.connected ≡ w.connected)

-- One response, with the request's number, and it is the last thing that happened; where the TCP
-- connection has gone, none.
abbrev pub Answered : ℕ → Server → Server → Type 0
Answered cseq w w' =
    (status : ℕ) × (text : Bytes) × (extra : Headers) × (others : List Event) × (w'.events
      ≡ w.events
        ++ (others
            ++ (if w.connected then responded (response_text status text extra cseq) ∷ [] else [])))
    × All IsSilent others

-- The calls that come back, told from the request and the state. Not a RECORD whose number cannot be
-- read or given a control block, or without a number before the pointer to KCP was set, one when the
-- thread runs, or without a socket for the video; not a TEARDOWN before the pointer to KCP was set, or
-- one for which `removeCam` does not come back.
abbrev pub is_set : KcpPointer → Bool
is_set unset = false
is_set null = true
is_set (pointer k) = true

abbrev pub is_some : {A : Type 0} → Option A → Bool
is_some none = false
is_some (some a) = true

abbrev pub creates_some : (ℕ → Bool) → Option ℕ → Bool
creates_some creates none = false
creates_some creates (some n) = creates (n % 2 ^ 32)

abbrev pub kcp_ok : (ℕ → Bool) → Option Bytes → RtspConnect → Bool
kcp_ok creates none c = is_set c.cam_kcp
kcp_ok creates (some v) c = creates_some creates (stoul v)

abbrev pub record_ok : (ℕ → Bool) → Headers → RtspConnect → Bool
record_ok creates headers c =
    kcp_ok creates (map_find (codes "kcpid") headers) c
    && (not c.kcp_thread && is_some c.session.video_rtp_conn)

abbrev pub is_safe : (ℕ → Bool) → (Bytes → Bool) → Method → Headers → RtspConnect → Bool
is_safe creates removes record_ headers c =
    if names_session headers c.session then record_ok creates headers c else true
is_safe creates removes teardown headers c =
    if names_session headers c.session
    then removes c.session.session_id && is_set c.cam_kcp
    else true
is_safe creates removes _ headers c = true

pub Extends-refl : (w : Server) → Extends w w
Extends-refl w = ([], sym (append-nil w.events), tt, refl)

pub Extends-emit : (e : Event) (w w' : Server) → IsSilent e → Extends w w' → Extends w (emit e w')
Extends-emit e w w' silent (others, happened, quiet, same) = (
  others ++ (e ∷ []),
  ap (λ (l : List Event). l ++ (e ∷ [])) happened ∙ append_assoc w.events others (e ∷ []),
  All-append IsSilent others (e ∷ []) quiet (silent, tt),
  same,
)

emit_if :
    (b : Bool) (e : Event) (w : Server)
    → (if b then emit e w else w).events ≡ w.events ++ (if b then e ∷ [] else [])
emit_if true e w = refl
emit_if false e w = sym (append-nil w.events)

pub send_response-Answered :
    (status : ℕ) (text : Bytes) (extra : Headers) (cseq : ℕ) (w w' : Server)
    → Extends w w'
    → Answered cseq w (send_response status text extra cseq w')
unfolding send_response
send_response-Answered status text extra cseq w w' (others, happened, quiet, same) = (
  status,
  text,
  extra,
  others,
  emit_if w'.connected (responded (response_text status text extra cseq)) w'
      ∙ ap₂
          (λ (l : List Event) (b : Bool).
            l ++ (if b then responded (response_text status text extra cseq) ∷ [] else []))
          happened same
      ∙ append_assoc w.events others _,
  quiet,
)

-- SETUP.
open_track-Extends : (url : Bytes) (t : Transport) (w : Server) → Extends w (open_track url t w).1
unfolding open_track
open_track-Extends url t w =
    if_cases (λ (p : (ℕ × ℕ) × Server). Extends w p.1) (has url (codes "trackID=0")) _ _
      (λ _. (udp_added _ ∷ [], refl, (tt, tt), refl))
      λ _.
        if_cases (λ (p : (ℕ × ℕ) × Server). Extends w p.1) (has url (codes "trackID=1")) _ _
          (λ _. (udp_added _ ∷ [], refl, (tt, tt), refl)) (λ _. Extends-refl w)

set_up_done-Answered :
    (answer : Bytes) (cseq : ℕ) (w w' : Server)
    → Extends w w'
    → Answered cseq w (set_up_done answer cseq w')
unfolding set_up_done
set_up_done-Answered answer cseq w w' ext =
    send_response-Answered 200 (codes "OK")
      ((codes "Session", w'.connect.session.session_id ++ codes ";timeout=60")
        ∷ (codes "Transport", answer)
        ∷ [])
      cseq w (set_state ready w') ext

set_up_transport-Answered :
    (url : Bytes) (cseq : ℕ) (t : Transport) (w : Server)
    → Answered cseq w (set_up_transport url cseq t w)
unfolding set_up_transport set_up_udp
set_up_transport-Answered url cseq t w =
    by_type_cases (Answered cseq w) t.transport_type _ _
      (set_up_done-Answered (udp_answer t (open_track url t (with_type t w)).0) cseq w
        (open_track url t (with_type t w)).1 (open_track-Extends url t (with_type t w)))
      (set_up_done-Answered (tcp_answer t) cseq w (with_type t w) (Extends-refl w))

pub handle_setup-Answered :
    (url : Bytes) (headers : Headers) (cseq : ℕ) (w : Server)
    → Answered cseq w (handle_setup url headers cseq w)
unfolding handle_setup
handle_setup-Answered url headers cseq w = found (map_find (codes "transport") headers) refl
  where
    parsed :
        (v : Bytes) (t : Option Transport)
        → map_find (codes "transport") headers ≡ some v
        → parse_transport v ≡ t
        → Answered cseq w (handle_setup url headers cseq w)
    parsed v none e e' =
        rw (handle_setup, e, e')
          (send_response-Answered 400 (codes "Bad Request") [] cseq w w (Extends-refl w))
    parsed v (some t) e e' = rw (handle_setup, e, e') (set_up_transport-Answered url cseq t w)

    found :
        (o : Option Bytes)
        → map_find (codes "transport") headers ≡ o
        → Answered cseq w (handle_setup url headers cseq w)
    found none e =
        rw (handle_setup, e)
          (send_response-Answered 400 (codes "Bad Request") [] cseq w w (Extends-refl w))
    found (some v) e = parsed v (parse_transport v) e refl
