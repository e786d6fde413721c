-- ===== src/Client/Handshake/Media.antt =====
-- What camera/rtsp_client.c does between the SETUP response and RECORD.
use car_detect.Prelude.{
  ℕ, ◌+◌, ◌*◌, ◌%◌, ◌^◌, ◌≡◌, refl, sym, ◌∙◌, some, Bool, true, false, Bytes, arith, Option-cases,
  inl, inr,
}
use Prim.Native.Nat.{bit_xor}
use car_detect.Effect.{Action, Ends, Ends-bind}
use car_detect.Os.{Os}
use car_detect.Tcp.{Ret, value, minus_one}
use car_detect.Udp.{UdpSocket, udp_init}
use car_detect.Kcp.{KcpLib, kcp_init}
use car_detect.Rtsp.Session.{RtspSession, init, ready}
use car_detect.Rtsp.Setup.{rtsp_parse_setup_response}
use car_detect.Rtsp.Setup.Transport.{session_id_in-IsIdByte, rtsp_parse_setup_response-keeps}
use car_detect.Client.Loop.{c_string}
use car_detect.Client.Handshake.{Options, go_on, start_kcp, open_socket, open_media}
use car_detect.Client.Handshake.Stages.{init_playing, At, Reached}

module _ (os : Os) (lib : KcpLib (Os.World os)) (o : Options) where
  abbrev Session : Type 0
  Session = RtspSession (KcpLib.Kcb lib)

  udp_init-Ends :
      (udp : UdpSocket) (ip : Bytes) (port : ℕ) (w : Os.World os)
      → Ends (λ r. Unit {0}) (udp_init os udp (some ip) port w)
  unfolding udp_init
  udp_init-Ends udp ip port w = elim (Option-cases (Os.socket os w).0) [
    | inl e ↦ rw (e, udp_init) tt
    | inr (fd, e) ↦ elim (Option-cases (Os.inet_aton os ip)) [
      | inl bad ↦ rw (e, bad, udp_init) tt
      | inr (a, good) ↦ rw (e, good, udp_init) tt
    ]
  ]

  -- Behind the SETUP response the session is ready, or as before.
  abbrev pub Opened : ℕ → Session × Bytes × Bool → Type 0
  Opened c (s, response, true) = At os lib o ready c s
  Opened c (s, response, false) = At os lib o init c s

  module _
      (creates : (conv : ℕ) (udp : UdpSocket) (w : Os.World os)
        → (k : KcpLib.Kcb lib) × ((KcpLib.ikcp_create lib conv udp w).0 ≡ some k)) where
    kcp_init-Ends :
        (udp : UdpSocket) (w : Os.World os) → Ends (λ r. Unit {0}) (kcp_init os lib udp w)
    unfolding kcp_init
    kcp_init-Ends udp w =
        let (a, w1) = Os.rand os w in
        let (b, w2) = Os.rand os w1 in
        let conv : ℕ = bit_xor (a * 2 ^ 16 % 2 ^ 32) (b % 2 ^ 32) in
        rw ((creates conv udp w2).1, kcp_init, Ends) tt

    start_kcp-Opened :
        (c : ℕ) (s : Session) (response : Bytes) (udp : UdpSocket) (r : Ret) (w : Os.World os)
        → At os lib o init c s
        → Ends (Opened c) (start_kcp os lib o s response udp r w)
    unfolding start_kcp
    start_kcp-Opened c s response udp minus_one w at' = at'
    start_kcp-Opened c s response udp (value n) w (e, held, m, id) =
        Ends-bind (λ k. Unit {0}) (Opened c) (kcp_init os lib udp) _ w (kcp_init-Ends udp w)
          (λ k v t. (refl, (k, refl), m, id))

    open_socket-Opened :
        (c : ℕ) (s : Session) (response : Bytes) (r : Ret) (w : Os.World os)
        → At os lib o init c s
        → Ends (Opened c) (open_socket os lib o s response r w)
    unfolding open_socket
    open_socket-Opened c s response minus_one w at' = at'
    open_socket-Opened c s response (value n) w at' =
        Ends-bind (λ r. Unit {0}) (Opened c)
          (udp_init os s.rtp_socket (some o.server_ip) s.server_rtp_port) _ w
          (udp_init-Ends s.rtp_socket o.server_ip s.server_rtp_port w)
          (λ (udp, r) v t. start_kcp-Opened c s response udp r v at')

    pub open_media-Opened :
        (c : ℕ) (s : Session) (response : Bytes) (w : Os.World os)
        → At os lib o init c s
        → Ends (Opened c) (open_media os lib o s response w)
    unfolding open_media
    open_media-Opened c s response w (e, held, n, id) =
        let text = c_string response in
        let (s1, r) = rtsp_parse_setup_response text s in
        let (es, ek, en, ei) = rtsp_parse_setup_response-keeps s text in
        open_socket-Opened c s1 response r w
          (es ∙ e, ek ∙ held, en ∙ n, rw ei (session_id_in-IsIdByte text).1)

    pub go_on-Opened :
        (c : ℕ) (next : Session → Bytes → Action (Os.World os) (Session × Bytes × Bool))
        (s : Session) (response : Bytes) (ok : Bool) (w : Os.World os)
        → Opened (c + 3) (s, response, ok)
        → (At os lib o ready (c + 3) s → Ends (Reached os lib o c) (next s response w))
        → Ends (Reached os lib o c) (go_on os lib o next s response ok w)
    unfolding go_on
    go_on-Opened c next s response true w at' k = k at'
    go_on-Opened c next s response false w (e, held, n, id) k =
        (λ p. init_playing (sym e ∙ p), rw e held, omega (arith, n), omega (arith, n), id)
