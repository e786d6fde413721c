-- ===== src/Client/Handshake/Cleanup.antt =====
-- What the cleanup of camera/rtsp_client.c does, from each state.
use car_detect.Prelude.{
  ℕ, ◌+◌, ◌≤◌, ◌≡◌, ◌≢◌, refl, sym, ◌∙◌, Option, none, some, Bytes, length, arith, Option-cases,
  inl, inr,
}
use mathlib.Core.Path.{subst}
use car_detect.Effect.{
  Action, done, stuck, bind-done, ◌>>◌, Outcome, crash, pure, Ends, Ends-bind, Ends-done, ◌>>=◌,
}
use car_detect.Os.{Os, interrupted}
use car_detect.Tcp.{TcpClient, tcp_write, tcp_close_client}
use car_detect.Tcp.Write.{tcp_write-Ends}
use car_detect.Udp.{UdpSocket, udp_close}
use car_detect.Kcp.{KcpLib, act}
use car_detect.Rtsp.Session.{RtspSession, RtspState, init, ready, playing, rtsp_session_cleanup}
use car_detect.Rtsp.Requests.{rtsp_client_teardown, rtsp_client_read_response, teardown_request}
use car_detect.Rtsp.Requests.Lengths.{length-teardown_request}
use car_detect.Rtsp.Requests.Whole.{teardown-Whole}
use car_detect.Client.Handshake.{
  Options, rtsp_url, Device, farewell, tear_down, release, join_video, close_all, cleanup,
}
use car_detect.Client.Handshake.Stages.{Held, length-rtsp_url, read_response-Ends}

module _ (os : Os) (lib : KcpLib (Os.World os)) (o : Options) (dev : Device (Os.World os)) where
  abbrev Session : Type 0
  Session = RtspSession (KcpLib.Kcb lib)

  -- Both descriptors are given up, and the session is as it began.
  abbrev pub Closed : Session → Type 0
  Closed s = (s.state ≡ init) × (s.client.fd ≡ none) × (s.rtp_socket.fd ≡ none)

  -- It comes back just when the join of the video thread does, and then all is closed.
  abbrev pub AsJoin : Outcome (Unit {0} × Os.World os) → Outcome (Session × Os.World os) → Type 0
  AsJoin (done u) r = Ends Closed r
  AsJoin crash r = r ≡ crash
  AsJoin stuck r = r ≡ stuck

  AsJoin-bind :
      (f : Unit {0} → Action (Os.World os) Session) (o : Outcome (Unit {0} × Os.World os))
      → ((u : Unit {0}) (v : Os.World os) → Ends Closed (f u v))
      → AsJoin o (elim o [ done (u, v) ↦ f u v | crash ↦ crash | stuck ↦ stuck ])
  AsJoin-bind f (done (u, v)) h = h u v
  AsJoin-bind f crash h = refl
  AsJoin-bind f stuck h = refl

  -- How the cleanup ends, by the state that it begins in.
  abbrev pub CleanedUp : RtspState → Outcome (Session × Os.World os) → Type 0
  CleanedUp init r = r ≡ crash
  CleanedUp ready r = Ends Closed r
  CleanedUp playing r = (v : Os.World os) × AsJoin (Device.pthread_join dev v) r

  udp_close-Ends :
      (udp : UdpSocket) (w : Os.World os) → Ends (λ u. u.fd ≡ none) (udp_close os udp w)
  unfolding udp_close
  udp_close-Ends udp w = elim (Option-cases udp.fd) [ inl e ↦ rw e refl | inr (fd, e) ↦ rw e refl ]

  tcp_close_client-Ends :
      (c : TcpClient) (w : Os.World os) → Ends (λ u. u.fd ≡ none) (tcp_close_client os c w)
  unfolding tcp_close_client
  tcp_close_client-Ends c w = elim (Option-cases c.fd) [
    | inl e ↦ rw e refl
    | inr (fd, e) ↦ rw e refl
  ]

  rtsp_session_cleanup-Closed :
      (s : Session) (w : Os.World os)
      → Ends (λ s'. Closed s' × (s'.kcp ≡ s.kcp)) (rtsp_session_cleanup os s w)
  unfolding rtsp_session_cleanup
  rtsp_session_cleanup-Closed s w =
      Ends-bind (λ u. u.fd ≡ none) (λ s'. Closed s' × (s'.kcp ≡ s.kcp)) (udp_close os s.rtp_socket)
        _ w (udp_close-Ends s.rtp_socket w)
        (λ u v eu.
          Ends-bind (λ c. c.fd ≡ none) (λ s'. Closed s' × (s'.kcp ≡ s.kcp))
            (tcp_close_client os s.client) _ v (tcp_close_client-Ends s.client v)
            (λ c x ec. ((refl, ec, eu), refl)))

  -- What follows the join.
  behind_join : Session → Action (Os.World os) Session
  behind_join s = do
    act (Device.h264_encoder_cleanup dev)
    act (Device.v4l2_stream_off dev)
    act (Device.v4l2_cleanup dev)
    s' ← rtsp_session_cleanup os s
    release os lib o s'.kcp
    pure s'

  behind_join-Closed :
      (s : Session) (k : KcpLib.Kcb lib) (w : Os.World os)
      → s.kcp ≡ some k
      → Ends Closed (behind_join s w)
  unfolding behind_join
  behind_join-Closed s k w e =
      Ends-bind (λ s'. Closed s' × (s'.kcp ≡ s.kcp)) Closed (rtsp_session_cleanup os s) _ _
        (rtsp_session_cleanup-Closed s _)
        (λ s' x (closed, same). unfold release in rw (same ∙ e) closed)

  close_all-ready :
      (s : Session) (k : KcpLib.Kcb lib) (w : Os.World os)
      → s.state ≡ ready
      → s.kcp ≡ some k
      → Ends Closed (close_all os lib o dev s w)
  unfolding close_all join_video behind_join rtsp_session_cleanup
  close_all-ready s k w es e = rw (close_all, es) (behind_join-Closed s k w e)

  close_all-AsJoin :
      (s : Session) (k : KcpLib.Kcb lib) (w : Os.World os)
      → s.state ≡ playing
      → s.kcp ≡ some k
      → AsJoin (Device.pthread_join dev w) (close_all os lib o dev s w)
  unfolding close_all join_video behind_join rtsp_session_cleanup
  close_all-AsJoin s k w es e =
      rw (close_all, es)
        (AsJoin-bind (λ u. behind_join s) (Device.pthread_join dev w)
          (λ u v. behind_join-Closed s k v e))

  join_video-init : (st : RtspState) → st ≡ init → join_video os lib o dev st ≡ pure tt
  unfolding join_video
  join_video-init st e = rw e refl

  release-crash :
      (kcp : Option (KcpLib.Kcb lib)) (w : Os.World os)
      → kcp ≡ none
      → release os lib o kcp w ≡ crash
  unfolding release
  release-crash kcp w e = rw e refl

  close_all-crash :
      (s : Session) (w : Os.World os)
      → s.state ≡ init
      → s.kcp ≡ none
      → close_all os lib o dev s w ≡ crash
  unfolding close_all
  close_all-crash s w es e =
      let off =
        Device.v4l2_cleanup dev (Device.v4l2_stream_off dev (Device.h264_encoder_cleanup dev w)) in
      let (s', x, eq, (closed, same)) =
        Ends-done (λ s'. Closed s' × (s'.kcp ≡ s.kcp)) (rtsp_session_cleanup os s off)
          (rtsp_session_cleanup-Closed s off) in
      rw (join_video-init s.state es, ◌>>=◌, eq, release-crash s'.kcp x (same ∙ e)) refl

  module _
      (quiet : (fd : Option ℕ) (buf : Bytes) (w : Os.World os)
        → (Os.write os fd buf w).0 ≢ interrupted) where
    farewell-Ends :
        (s : Session) (k : KcpLib.Kcb lib) (response : Bytes) (w : Os.World os)
        → s.kcp ≡ some k
        → length s.session_id ≤ 63
        → Ends
            (λ s'. (s'.kcp ≡ some k) × (s'.state ≡ s.state))
            (farewell os lib o 1024 s response w)
    unfolding farewell
    farewell-Ends s k response w ek id =
        let url = rtsp_url o in
        let text = teardown_request url (s.cseq + 1) s.session_id in
        let short = length-teardown_request url s.session_id (s.cseq + 1) (length-rtsp_url o) id in
        let Kept : Session → Type 0 = λ s'. (s'.kcp ≡ some k) × (s'.state ≡ s.state) in
        Ends-bind (λ r. Kept r.0) Kept (rtsp_client_teardown os lib 1024 s url) _ w
          (rw (teardown-Whole os lib 1024 s url (length-rtsp_url o) id) (
            Ends-bind (λ r. Unit {0}) (λ r. Kept r.0) (tcp_write os 1024 s.client text) _ w
              (tcp_write-Ends os quiet 1024 s.client text w (omega (arith, short)))
              (λ r v t. (ek, refl))))
          (λ (s1, r) v e1.
            Ends-bind (λ r. Unit {0}) Kept (rtsp_client_read_response os lib s1 response 2048) _ v
              (read_response-Ends os lib o s1 response v) (λ a x t. e1))

    -- The cleanup of a session that has a KCP control block just when it is past the initial state,
    -- with no `write` interrupted. From the state ready it comes back, with both descriptors given up
    -- and the session in its initial state. From the state playing it does so just when the join of
    -- the video thread comes back: where that waits for ever, or is undefined since the thread was
    -- never made, so does or is the cleanup. From the initial state, that is after a handshake that
    -- failed before KCP was created, it ends the program: `ikcp_release` asserts that its argument,
    -- the null pointer, is none.
    pub cleanup-CleanedUp :
        (s : Session) (response : Bytes) (w : Os.World os)
        → Held s.state s.kcp
        → length s.session_id ≤ 63
        → CleanedUp s.state (cleanup os lib o dev 1024 s response w)
    unfolding cleanup
    cleanup-CleanedUp s response w held id = from s.state refl held
      where
        from :
            (st : RtspState)
            → s.state ≡ st
            → Held st s.kcp
            → CleanedUp st ((tear_down os lib o st 1024 s response >>= close_all os lib o dev) w)
        from init e h = unfold tear_down in close_all-crash s w e h
        from ready e (k, ek) =
            unfold tear_down in
            Ends-bind (λ s'. (s'.kcp ≡ some k) × (s'.state ≡ s.state)) Closed
              (farewell os lib o 1024 s response) _ w (farewell-Ends s k response w ek id)
              (λ s' v (ek', es'). close_all-ready s' k v (es' ∙ e) ek')
        from playing e (k, ek) =
            let (s', v, ran, (ek', es')) =
              Ends-done (λ s'. (s'.kcp ≡ some k) × (s'.state ≡ s.state))
                (farewell os lib o 1024 s response w) (farewell-Ends s k response w ek id) in
            unfold tear_down in
            (
              v,
              subst (AsJoin (Device.pthread_join dev v))
                  (sym (
                    bind-done (farewell os lib o 1024 s response) (close_all os lib o dev) w v s'
                      ran))
                  (close_all-AsJoin s' k v (es' ∙ e) ek'),
            )
