-- ===== src/Media/Connect/Crashes.antt =====
-- The requests on which `handleRequest` of media/RtspConnect.cc is undefined, ends the program, or does
-- not come back.
use car_detect.Prelude.{
  [], ap, ◌∙◌, if_cases, ℕ, ◌≡◌, refl, Option, none, some, Bool, true, false, not, ◌&&◌, Bytes,
  if◌then◌else◌, codes, Bool-cases, inl, inr, arith,
}
use car_detect.Effect.{Outcome, stuck, done, crash}
use car_detect.Media.Text.{map_find, stoul}
use car_detect.Media.Requests.{Headers, Request, parse_request, extract_cseq}
use car_detect.Media.Sessions.{UdpConnection}
use car_detect.Media.Connect.{
  send_response, KcpPointer, unset, null, pointer, RtspConnect, Server, set_connect,
}
use car_detect.Media.Connect.Record.{
  run_thread, names_session, init_cam_kcp, kcp_of_header, start_thread, listen, with_kcp,
  handle_record,
}
use car_detect.Media.Connect.Release.{
  release_conns, map_done, begin_release, release_kcp, release_session, handle_teardown,
}
use car_detect.Media.Connect.Dispatch.{
  Method, options, announce, setup, record_, teardown, other, method_of, dispatch, handle_request,
}
use car_detect.Media.Connect.Answers.{is_set, is_some, kcp_ok, is_safe}
use car_detect.Media.Connect.Replies.{run_thread-set, kcp_of_header-ok}

run_thread-bad : (p : KcpPointer) (c : RtspConnect) → is_set p ≡ false → run_thread p c ≡ crash
unfolding run_thread
run_thread-bad unset c bad = refl
run_thread-bad null c bad = absurd (ground arith)
run_thread-bad (pointer k) c bad = absurd (ground arith)

-- How a request fails: a TEARDOWN waits for ever if removeCam does.
abbrev pub failure : Method → Bool → Outcome Server
failure teardown false = stuck
failure _ _ = crash

start_thread-bad :
    (creates : ℕ → Bool) (o : Option Bytes) (c : RtspConnect)
    → kcp_ok creates o c ≡ false
    → start_thread (kcp_of_header creates o c) ≡ crash
unfolding kcp_of_header init_cam_kcp start_thread
start_thread-bad creates none c bad =
    if_cases (λ (r : Outcome RtspConnect). r ≡ crash) c.kcp_thread crash (run_thread c.cam_kcp c)
      (λ _. refl) (λ _. run_thread-bad c.cam_kcp c bad)
start_thread-bad creates (some v) c bad = number (stoul v) refl
  where
    number : (n : Option ℕ) → stoul v ≡ n → start_thread (kcp_of_header creates (some v) c) ≡ crash
    number none e = rw (kcp_of_header, e) refl
    number (some n) e = rw (kcp_of_header, e, rw e at bad) refl

listen-bad :
    (cseq : ℕ) (w : Server) (o : Option UdpConnection) → is_some o ≡ false → listen cseq w o ≡ crash
unfolding listen
listen-bad cseq w none bad = refl
listen-bad cseq w (some conn) bad = absurd (ground arith)

with_kcp-bad :
    (cseq : ℕ) (w : Server) (c : RtspConnect) (runs : Bool)
    → not runs && is_some c.session.video_rtp_conn ≡ false
    → with_kcp cseq w
        (if runs then crash else done (record c { kcp_running = true; kcp_thread = true }))
      ≡ crash
unfolding with_kcp
with_kcp-bad cseq w c true bad = refl
with_kcp-bad cseq w c false bad =
    listen-bad cseq (set_connect (record c { kcp_running = true; kcp_thread = true }) w)
      c.session.video_rtp_conn bad

handle_record-bad :
    (creates : ℕ → Bool) (removes : Bytes → Bool) (headers : Headers) (cseq : ℕ) (w : Server)
    → is_safe creates removes record_ headers w.connect ≡ false
    → handle_record creates headers cseq w ≡ crash
unfolding handle_record start_thread
handle_record-bad creates removes headers cseq w unsafe =
    elim (Bool-cases (names_session headers w.connect.session)) [
      | inr unknown ↦ absurd (ground (arith, rw unknown at unsafe))
      | inl known ↦
          elim (Bool-cases (kcp_ok creates (map_find (codes "kcpid") headers) w.connect)) [
            | inr bad ↦
                rw
                  (known, start_thread-bad creates (map_find (codes "kcpid") headers) w.connect bad)
                  refl
            | inl good ↦
                let (k, made, set) =
                  kcp_of_header-ok creates (map_find (codes "kcpid") headers) w.connect good in
                let c : RtspConnect = record w.connect { cam_kcp = k } in
                let step : (if w.connect.kcp_thread then crash else run_thread k c) ≡ (
                    if w.connect.kcp_thread
                    then crash
                    else done (record c { kcp_running = true; kcp_thread = true })) =
                  ap (λ o. if w.connect.kcp_thread then crash else o) (run_thread-set k c set) in
                rw (known, made)
                  (ap (with_kcp cseq w) step
                    ∙ with_kcp-bad cseq w (record w.connect { cam_kcp = k }) w.connect.kcp_thread
                        (rw (known, good) at unsafe))
          ]
    ]

release_kcp-bad : (p : KcpPointer) (w : Server) → is_set p ≡ false → release_kcp p w ≡ crash
unfolding release_kcp
release_kcp-bad unset w bad = refl
release_kcp-bad null w bad = absurd (ground arith)
release_kcp-bad (pointer k) w bad = absurd (ground arith)

-- The release, by whether removeCam comes back.
removal-bad :
    (cseq : ℕ) (w : Server) (b : Bool)
    → b && is_set w.connect.cam_kcp ≡ false
    → map_done (send_response 200 (codes "OK") [] cseq) (
        if b
        then map_done
            (release_conns w.connect.session)
            (release_kcp w.connect.cam_kcp (begin_release w))
        else stuck)
      ≡ failure teardown b
removal-bad cseq w true bad = rw (release_kcp-bad w.connect.cam_kcp (begin_release w) bad) refl
removal-bad cseq w false bad = refl

handle_teardown-bad :
    (creates : ℕ → Bool) (removes : Bytes → Bool) (headers : Headers) (cseq : ℕ) (w : Server)
    → is_safe creates removes teardown headers w.connect ≡ false
    → handle_teardown removes headers cseq w
      ≡ failure teardown (removes w.connect.session.session_id)
unfolding handle_teardown release_session
handle_teardown-bad creates removes headers cseq w unsafe =
    elim (Bool-cases (names_session headers w.connect.session)) [
      | inr unknown ↦ absurd (ground (arith, rw unknown at unsafe))
      | inl known ↦
          rw known (removal-bad cseq w (removes w.connect.session.session_id) (rw known at unsafe))
    ]

dispatch-bad :
    (creates : ℕ → Bool) (removes : Bytes → Bool) (m : Method) (request : Bytes) (r : Request)
    (w : Server)
    → is_safe creates removes m r.headers w.connect ≡ false
    → dispatch creates removes m request r w ≡ failure m (removes w.connect.session.session_id)
unfolding dispatch
dispatch-bad creates removes options request r w bad = absurd (ground arith)
dispatch-bad creates removes announce request r w bad = absurd (ground arith)
dispatch-bad creates removes setup request r w bad = absurd (ground arith)
dispatch-bad creates removes record_ request r w bad =
    handle_record-bad creates removes r.headers (extract_cseq r.headers) w bad
dispatch-bad creates removes teardown request r w bad =
    handle_teardown-bad creates removes r.headers (extract_cseq r.headers) w bad
dispatch-bad creates removes other request r w bad = absurd (ground arith)

-- The other requests are undefined behaviour, an exception that nothing catches, or the end of the
-- program: a RECORD of the session with a KcpId that cannot be read or for which no control block is
-- had, one without a KcpId while the pointer to KCP was never set, one while the thread runs, or one
-- without a socket for the video, as after a SETUP for TCP; and a TEARDOWN of the session while the
-- pointer to KCP was never set. But a TEARDOWN of the session for which removeCam of the monitor server
-- does not come back waits for ever.
pub handle_request-crash :
    (creates : ℕ → Bool) (removes : Bytes → Bool) (request : Bytes) (w : Server)
    → let r = parse_request request in
      is_safe creates removes (method_of r.method) r.headers w.connect ≡ false
      → handle_request creates removes request w
        ≡ failure (method_of r.method) (removes w.connect.session.session_id)
unfolding handle_request
handle_request-crash creates removes request w unsafe =
    let r = parse_request request in
    dispatch-bad creates removes (method_of r.method) request r w unsafe
