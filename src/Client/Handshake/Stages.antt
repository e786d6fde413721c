-- ===== src/Client/Handshake/Stages.antt =====
-- The stages of the handshake of camera/rtsp_client.c, and what a request makes of one.
use car_detect.Prelude.{
  ℕ, ◌+◌, ◌≤◌, ◌<◌, ◌≡◌, ◌≢◌, refl, sym, ◌∙◌, Option, none, some, Bool, true, false, [], ◌∷◌, ◌++◌,
  Bytes, length, codes, str_eq, arith, length-take, length-append, Bool-cases, Option-cases, inl,
  inr,
}
use car_detect.Effect.{Action, Ends, Ends-bind}
use car_detect.Os.{Os, RecvResult, received, no_data, recv_failed}
use car_detect.Tcp.{Ret, value, minus_one, TcpClient, tcp_read, tcp_write}
use car_detect.Kcp.{KcpLib}
use car_detect.Rtsp.Session.{RtspSession, RtspState, init, ready, playing}
use car_detect.Rtsp.Text.{decimal, length-decimal}
use car_detect.Rtsp.Requests.{rtsp_client_read_response}
use car_detect.Rtsp.Requests.Whole.{Whole}
use car_detect.Client.Handshake.{
  Options, rtsp_url, transport_of, answered, exchange, go_on, and_then,
}

-- A session has a KCP control block just when it is past its initial state.
abbrev pub Held : {K : Type 0} → RtspState → Option K → Type 0
Held init kcp = kcp ≡ none
Held {K = K} ready kcp = (k : K) × (kcp ≡ some k)
Held {K = K} playing kcp = (k : K) × (kcp ≡ some k)

pub length-rtsp_url : (o : Options) → length (rtsp_url o) ≤ 255
unfolding rtsp_url
length-rtsp_url o = omega (
  arith,
  length-take 255 (codes "rtsp://" ++ (o.server_ip ++ (b':' ∷ (decimal o.server_port ++ o.url)))),
)

pub length-transport_of : (o : Options) → length (transport_of o) ≤ 64
unfolding transport_of
length-transport_of o = elim (Bool-cases (str_eq o.trans_type (codes "tcp"))) [
  | inl tcp ↦ rw tcp (omega arith)
  | inr udp ↦ rw udp (
      omega (
        arith,
        length-append (decimal o.rtp_port) (b'-' ∷ decimal o.rtcp_port),
        length-decimal o.rtp_port,
        length-decimal o.rtcp_port,
      ))
]

pub init_playing : init ≢ playing
init_playing p = cc

pub ready_playing : ready ≢ playing
ready_playing p = cc

module _ (os : Os) (lib : KcpLib (Os.World os)) (o : Options) where
  abbrev Session : Type 0
  Session = RtspSession (KcpLib.Kcb lib)

  -- A stage of the handshake: the state, and the number of requests so far.
  abbrev pub At : RtspState → ℕ → Session → Type 0
  At st c s = (s.state ≡ st) × Held st s.kcp × (s.cseq ≡ c) × (length s.session_id ≤ 63)

  -- The end of a handshake that began at the number `c`.
  abbrev pub Reached : ℕ → Session × Bytes × Bool → Type 0
  Reached c (s, response, true) = At playing (c + 4) s
  Reached c (s, response, false) =
      (s.state ≢ playing)
      × Held s.state s.kcp
      × (c < s.cseq)
      × (s.cseq ≤ c + 4)
      × (length s.session_id ≤ 63)

  tcp_read-Ends :
      (client : TcpClient) (fd : ℕ) (response : Bytes) (w : Os.World os) (r : RecvResult)
      → client.fd ≡ some fd
      → (Os.recv os (some fd) 2047 w).0 ≡ r
      → Ends (λ r. Unit {0}) (tcp_read os client response 2048 w)
  unfolding tcp_read
  tcp_read-Ends client fd response w (received []) e h = rw (e, h) tt
  tcp_read-Ends client fd response w (received (b ∷ bs)) e h = rw (e, h) tt
  tcp_read-Ends client fd response w no_data e h = rw (e, h) tt
  tcp_read-Ends client fd response w recv_failed e h = rw (e, h) tt

  -- Reading a response always comes back.
  pub read_response-Ends :
      (s : Session) (response : Bytes) (w : Os.World os)
      → Ends (λ r. Unit {0}) (rtsp_client_read_response os lib s response 2048 w)
  unfolding rtsp_client_read_response
  read_response-Ends s response w = elim (Option-cases s.client.fd) [
    | inl e ↦ unfold tcp_read in rw e tt
    | inr (fd, e) ↦ tcp_read-Ends s.client fd response w _ e refl
  ]

  answered-At :
      (st : RtspState) (c : ℕ) (s : Session) (response : Bytes) (r : Ret) (w : Os.World os)
      → At st c s
      → Ends (λ r. At st c r.0) (answered os lib o s response r w)
  unfolding answered
  answered-At st c s response minus_one w h = h
  answered-At st c s response (value n) w h =
      Ends-bind (λ a. Unit {0}) (λ a. At st c a.0)
        (rtsp_client_read_response os lib s response 2048) _ w (read_response-Ends s response w)
        (λ a v t. h)

  pub exchange-At :
      (st : RtspState) (c : ℕ) (request : Action (Os.World os) (Session × Ret)) (response : Bytes)
      (w : Os.World os)
      → Ends (λ r. At st c r.0) (request w)
      → Ends (λ r. At st c r.0) (exchange os lib o request response w)
  unfolding exchange
  exchange-At st c request response w h =
      Ends-bind (λ r. At st c r.0) (λ r. At st c r.0) request _ w h
        (λ (s, r) v at'. answered-At st c s response r v at')

  pub go_on-Reached :
      (c d : ℕ) (st : RtspState)
      (next : Session → Bytes → Action (Os.World os) (Session × Bytes × Bool)) (s : Session)
      (response : Bytes) (ok : Bool) (w : Os.World os)
      → st ≢ playing
      → c < d
      → d ≤ c + 4
      → At st d s
      → Ends (Reached c) (next s response w)
      → Ends (Reached c) (go_on os lib o next s response ok w)
  unfolding go_on
  go_on-Reached c d st next s response true w np lo hi h k = k
  go_on-Reached c d st next s response false w np lo hi (e, held, n, id) k =
      (λ p. np (sym e ∙ p), rw e held, omega (arith, n), omega (arith, n), id)

  pub and_then-Reached :
      (c d : ℕ) (st : RtspState) (step : Action (Os.World os) (Session × Bytes × Bool))
      (next : Session → Bytes → Action (Os.World os) (Session × Bytes × Bool)) (w : Os.World os)
      → st ≢ playing
      → c < d
      → d ≤ c + 4
      → Ends (λ r. At st d r.0) (step w)
      → ((s : Session) (response : Bytes) (v : Os.World os)
          → At st d s
          → Ends (Reached c) (next s response v))
      → Ends (Reached c) (and_then os lib o step next w)
  unfolding and_then
  and_then-Reached c d st step next w np lo hi h k =
      Ends-bind (λ r. At st d r.0) (Reached c) step _ w h
        λ (s, response, ok) v at'.
          go_on-Reached c d st next s response ok v np lo hi at' (k s response v at')

  -- A whole request, where `tcp_write` comes back.
  pub Whole-At :
      (st : RtspState) (c fuel : ℕ) (s : Session) (text : Bytes)
      (send : Action (Os.World os) (Session × Ret)) (w : Os.World os)
      → Whole os lib fuel s text send
      → Ends (λ r. Unit {0}) (tcp_write os fuel s.client text w)
      → At st c s
      → Ends (λ r. At st (c + 1) r.0) (send w)
  Whole-At st c fuel s text send w e back (se, held, n, id) = rw e (
      Ends-bind (λ r. Unit {0}) (λ r. At st (c + 1) r.0) (tcp_write os fuel s.client text) _ w back
        (λ r v t. (se, held, omega (arith, n), id)))
