-- ===== src/Media/Connect/States.antt =====
-- The state machine of media/RtspConnect.h: how requests change `_state`.
use car_detect.Prelude.{
  ℕ, ◌%◌, ◌^◌, ◌≡◌, refl, sym, Option, none, some, Bool, true, [], Bytes, if_cases, codes,
}
use car_detect.Effect.{Outcome, done, crash, stuck}
use car_detect.Rtsp.Session.{RtspState, init, ready, playing}
use car_detect.Media.Text.{map_find, stoul}
use car_detect.Media.Requests.{Headers, Request, parse_request, extract_cseq}
use car_detect.Media.Transport.{Transport, parse_transport}
use car_detect.Media.Sessions.{UdpConnection, MediaSession}
use car_detect.Media.Connect.{
  KcpPointer, unset, null, pointer, RtspConnect, Server, emit, set_connect, send_response,
  handle_options, handle_announce, udp_listens,
}
use car_detect.Media.Connect.Setup.{
  set_up_done, set_up_udp, set_up_transport, handle_setup, by_type_cases,
}
use car_detect.Media.Connect.Record.{
  run_thread, names_session, init_cam_kcp, kcp_of_header, start_thread, record_state, listen,
  with_kcp, handle_record,
}
use car_detect.Media.Connect.Release.{
  remove_conn, begin_release, release_kcp, release_conns, map_done, release_session,
  handle_teardown,
}
use car_detect.Media.Connect.Dispatch.{
  Method, options, announce, setup, record_, teardown, other, method_of, dispatch, handle_request,
}

-- What a request of each method may do to the state.
pub data Step : Method → RtspState → RtspState → Type 0 where
  stays : {m : Method} {s : RtspState} → Step m s s
  sets_up : {s : RtspState} → Step setup s ready
  starts : Step record_ ready playing

abbrev state_of : Server → RtspState
state_of w = w.connect.state

-- The same of an outcome, if there is one.
abbrev Steps : Method → RtspState → Outcome Server → Type 0
Steps m s (done w) = Step m s (state_of w)
Steps m s crash = Unit {0}
Steps m s stuck = Unit {0}

send_response-state :
    (status : ℕ) (text : Bytes) (extra : Headers) (cseq : ℕ) (w : Server)
    → state_of (send_response status text extra cseq w) ≡ state_of w
unfolding send_response
send_response-state status text extra cseq w =
    if_cases (λ (w' : Server). state_of w' ≡ state_of w) w.connected _ _ (λ _. refl) (λ _. refl)

set_up_done-state :
    (answer : Bytes) (cseq : ℕ) (w : Server) → state_of (set_up_done answer cseq w) ≡ ready
unfolding set_up_done
set_up_done-state answer cseq w = rw send_response-state refl

set_up_transport-Step :
    (url : Bytes) (cseq : ℕ) (t : Transport) (w : Server)
    → Step setup (state_of w) (state_of (set_up_transport url cseq t w))
unfolding set_up_transport set_up_udp
set_up_transport-Step url cseq t w =
    by_type_cases (λ (w' : Server). Step setup (state_of w) (state_of w')) t.transport_type _ _
      (rw set_up_done-state sets_up) (rw set_up_done-state sets_up)

refused :
    (cseq : ℕ) (w : Server)
    → Step setup (state_of w) (state_of (send_response 400 (codes "Bad Request") [] cseq w))
refused cseq w = rw send_response-state stays

handle_setup-Step :
    (url : Bytes) (headers : Headers) (cseq : ℕ) (w : Server)
    → Step setup (state_of w) (state_of (handle_setup url headers cseq w))
unfolding handle_setup
handle_setup-Step url headers cseq w = found (map_find (codes "transport") headers) refl
  where
    parsed :
        (v : Bytes) (t : Option Transport)
        → map_find (codes "transport") headers ≡ some v
        → parse_transport v ≡ t
        → Step setup (state_of w) (state_of (handle_setup url headers cseq w))
    parsed v none e e' = rw (handle_setup, e, e') (refused cseq w)
    parsed v (some t) e e' = rw (handle_setup, e, e') (set_up_transport-Step url cseq t w)

    found :
        (o : Option Bytes)
        → map_find (codes "transport") headers ≡ o
        → Step setup (state_of w) (state_of (handle_setup url headers cseq w))
    found none e = rw (handle_setup, e) (refused cseq w)
    found (some v) e = parsed v (parse_transport v) e refl

record_state-Step :
    (cseq : ℕ) (w : Server) (st : RtspState)
    → state_of w ≡ st
    → Step record_ (state_of w) (state_of (record_state cseq w st))
unfolding record_state
record_state-Step cseq w init e = rw send_response-state stays
record_state-Step cseq w ready e = rw (send_response-state, e) starts
record_state-Step cseq w playing e = rw send_response-state stays

listen-Steps :
    (cseq : ℕ) (w : Server) (o : Option UdpConnection)
    → Steps record_ (state_of w) (listen cseq w o)
unfolding listen
listen-Steps cseq w none = tt
listen-Steps cseq w (some conn) =
    record_state-Step cseq (emit (udp_listens conn) w) (state_of w) refl

-- Setting KCP up does not touch the state.
abbrev SameState : RtspState → Outcome RtspConnect → Type 0
SameState s (done c) = c.state ≡ s
SameState s crash = Unit {0}
SameState s stuck = Unit {0}

kcp_of_header-SameState :
    (creates : ℕ → Bool) (o : Option Bytes) (c : RtspConnect)
    → SameState c.state (kcp_of_header creates o c)
unfolding kcp_of_header init_cam_kcp
kcp_of_header-SameState creates none c = refl
kcp_of_header-SameState creates (some v) c = number (stoul v) refl
  where
    number : (n : Option ℕ) → stoul v ≡ n → SameState c.state (kcp_of_header creates (some v) c)
    number none e = rw (kcp_of_header, e) tt
    number (some n) e =
        rw (kcp_of_header, e)
          (if_cases (SameState c.state) (creates (n % 2 ^ 32)) _ _ (λ _. refl) (λ _. tt))

run_thread-Steps :
    (cseq : ℕ) (w : Server) (p : KcpPointer) (c : RtspConnect)
    → c.state ≡ state_of w
    → Steps record_ (state_of w) (with_kcp cseq w (run_thread p c))
unfolding with_kcp run_thread
run_thread-Steps cseq w unset c same = tt
run_thread-Steps cseq w null c same = rw (sym same) (
    listen-Steps cseq (set_connect (record c { kcp_running = true; kcp_thread = true }) w)
      c.session.video_rtp_conn)
run_thread-Steps cseq w (pointer k) c same = rw (sym same) (
    listen-Steps cseq (set_connect (record c { kcp_running = true; kcp_thread = true }) w)
      c.session.video_rtp_conn)

with_kcp-Steps :
    (cseq : ℕ) (w : Server) (o : Outcome RtspConnect)
    → SameState (state_of w) o
    → Steps record_ (state_of w) (with_kcp cseq w (start_thread o))
unfolding with_kcp start_thread
with_kcp-Steps cseq w crash same = tt
with_kcp-Steps cseq w stuck same = tt
with_kcp-Steps cseq w (done c) same =
    if_cases (λ (o : Outcome RtspConnect). Steps record_ (state_of w) (with_kcp cseq w o))
      c.kcp_thread crash (run_thread c.cam_kcp c) (λ _. tt)
      λ _. run_thread-Steps cseq w c.cam_kcp c same

handle_record-Steps :
    (creates : ℕ → Bool) (headers : Headers) (cseq : ℕ) (w : Server)
    → Steps record_ (state_of w) (handle_record creates headers cseq w)
unfolding handle_record
handle_record-Steps creates headers cseq w =
    if_cases (Steps record_ (state_of w)) (names_session headers w.connect.session) _ _
      (λ _.
        with_kcp-Steps cseq w _
          (kcp_of_header-SameState creates (map_find (codes "kcpid") headers) w.connect))
      (λ _. rw send_response-state stays)

remove_conn-state :
    (o : Option UdpConnection) (w : Server) → state_of (remove_conn o w) ≡ state_of w
unfolding remove_conn
remove_conn-state none w = refl
remove_conn-state (some conn) w = refl

release_kcp-Steps :
    (status : ℕ) (text : Bytes) (extra : Headers) (cseq : ℕ) (s : MediaSession) (p : KcpPointer)
    (w : Server)
    → Steps teardown (state_of w) (
        map_done
          (send_response status text extra cseq)
          (map_done (release_conns s) (release_kcp p w)))
unfolding release_kcp release_conns
release_kcp-Steps status text extra cseq s unset w = tt
release_kcp-Steps status text extra cseq s null w =
    rw
      (
        send_response-state, remove_conn-state, remove_conn-state, remove_conn-state,
        remove_conn-state,
      )
      stays
release_kcp-Steps status text extra cseq s (pointer k) w =
    rw
      (
        send_response-state, remove_conn-state, remove_conn-state, remove_conn-state,
        remove_conn-state,
      )
      stays

handle_teardown-Steps :
    (removes : Bytes → Bool) (headers : Headers) (cseq : ℕ) (w : Server)
    → Steps teardown (state_of w) (handle_teardown removes headers cseq w)
unfolding handle_teardown release_session
handle_teardown-Steps removes headers cseq w =
    if_cases (Steps teardown (state_of w)) (names_session headers w.connect.session) _ _
      (λ _.
        if_cases
          (λ o. Steps teardown (state_of w) (map_done (send_response 200 (codes "OK") [] cseq) o))
          (removes w.connect.session.session_id) _ stuck
          (λ _.
            release_kcp-Steps 200 (codes "OK") [] cseq w.connect.session w.connect.cam_kcp
              (begin_release w))
          (λ _. tt))
      (λ _. rw send_response-state stays)

dispatch-Steps :
    (creates : ℕ → Bool) (removes : Bytes → Bool) (m : Method) (request : Bytes) (r : Request)
    (w : Server)
    → Steps m (state_of w) (dispatch creates removes m request r w)
unfolding dispatch handle_options handle_announce
dispatch-Steps creates removes options request r w = rw send_response-state stays
dispatch-Steps creates removes announce request r w = rw send_response-state stays
dispatch-Steps creates removes setup request r w =
    handle_setup-Step r.url r.headers (extract_cseq r.headers) w
dispatch-Steps creates removes record_ request r w =
    handle_record-Steps creates r.headers (extract_cseq r.headers) w
dispatch-Steps creates removes teardown request r w =
    handle_teardown-Steps removes r.headers (extract_cseq r.headers) w
dispatch-Steps creates removes other request r w = rw send_response-state stays

-- A request that is handled to the end leaves the state of the connection as it is, or it is a SETUP
-- and the state is READY, or it is a RECORD that finds READY and leaves PLAYING: there is no way to
-- PLAYING but a RECORD in the state READY.
pub handle_request-Step :
    (creates : ℕ → Bool) (removes : Bytes → Bool) (request : Bytes) (w w' : Server)
    → handle_request creates removes request w ≡ done w'
    → Step (method_of (parse_request request).method) w.connect.state w'.connect.state
unfolding handle_request
handle_request-Step creates removes request w w' e =
    let r = parse_request request in
    rw e at (dispatch-Steps creates removes (method_of r.method) request r w)
