-- ===== src/Client/Loop.antt =====
-- camera/rtsp_client.c, lines 415 to 519: the event loop of `main`, one round as a function.
pub mod Laws
use car_detect.Prelude.{
  ℕ, zero, suc, ◌+◌, ◌-◌, ◌*◌, ◌/◌, ◌%◌, ◌^◌, Option, none, some, Bool, true, false, ◌||◌, [], ◌∷◌,
  Bytes, length, ltb, leb, if◌then◌else◌, codes,
}
use car_detect.Effect.{Action, pure, faults, spins, call, ◌>>=◌, ◌>>◌}
use car_detect.Os.{
  Os, Activity, select_failed, timed_out, readable, RecvResult, received, no_data, recv_failed,
}
use car_detect.Tcp.{Ret, value, minus_one}
use car_detect.Udp.{udp_recv}
use car_detect.Kcp.{KcpLib, act, iclock}
use car_detect.Rtsp.Session.{RtspSession}
use car_detect.Rtsp.Requests.{rtsp_client_read_response}
use car_detect.Rtsp.Text.{strstr}

abbrev pub max_buffer_size : ℕ
max_buffer_size = 2048

-- The bytes up to the terminator.
unfoldable pub c_string : Bytes → Bytes
c_string [] = []
c_string (zero ∷ s) = []
c_string (suc c ∷ s) = suc c ∷ c_string s

-- How long `select` waits, in milliseconds.
unfoldable pub wait_ms : ℕ → ℕ → ℕ
wait_ms next_update now =
    if ltb now next_update
    then (if ltb 1000 (next_update - now) then 1000 else next_update - now)
    else 1

abbrev pub found : Option Bytes → Bool
found none = false
found (some p) = true

-- What the loop does with a message, or the lack of one, from the RTSP connection: whether the
-- client goes on.
unfoldable pub control_message : Ret → Bytes → Bool → Bool → Bool
control_message (value zero) response eagain running = false
control_message (value (suc n)) response eagain running =
    if found (strstr (c_string response) (codes "TEARDOWN"))
      || found (strstr (c_string response) (codes "400"))
    then false
    else running
control_message minus_one response eagain running = if eagain then running else false

module _ (os : Os) (lib : KcpLib (Os.World os)) where
  open os use {World, mutex_lock, mutex_unlock, select}
  open lib use {Kcb}

  pub record LoopState : Type 0 where
    pub running : Bool
    pub next_update : ℕ
    pub session : RtspSession Kcb
    pub response : Bytes

  -- Drive KCP when its time has come: the time of the next update.
  unfoldable pub drive : Kcb → ℕ → ℕ → Action World ℕ
  drive kcp next_update now =
      if leb next_update now
      then (do
        act mutex_lock
        act (KcpLib.ikcp_update lib kcp now)
        act mutex_unlock
        call (λ w. (KcpLib.ikcp_check lib kcp now w, w)))
      else pure next_update

  -- Read datagrams and hand them to KCP, until there is none; `fuel` bounds their number.
  pub drain : ℕ → RtspSession Kcb → Kcb → Action World (Unit {0})
  drain zero s kcp = spins
  drain (suc fuel) s kcp = do
    r ← udp_recv os s.rtp_socket max_buffer_size
    elim r [
      | received bytes ↦ elim bytes [
        | [] ↦ pure tt
        | b ∷ bs ↦ do
          act mutex_lock
          act (KcpLib.ikcp_input lib kcp (b ∷ bs))
          act mutex_unlock
          drain fuel s kcp
      ]
      | no_data ↦ pure tt
      | recv_failed ↦ pure tt
    ]

  -- The RTSP connection can be read.
  unfoldable pub on_control : LoopState → Action World LoopState
  on_control l = do
    (n, response, eagain) ← rtsp_client_read_response os lib l.session l.response 2048
    pure (record l { running = control_message n response eagain l.running; response = response })

  -- What follows `select`: the state, and whether the loop is left by `break`.
  unfoldable pub on_activity : ℕ → Kcb → LoopState → Activity → Action World (LoopState × Bool)
  unfolding on_control drain
  on_activity fuel kcp l select_failed = pure (l, true)
  on_activity fuel kcp l timed_out = pure (l, false)
  on_activity fuel kcp l (readable tcp udp) = do
    l' ← if tcp then on_control l else pure l
    if udp then drain fuel l.session kcp else pure tt
    pure (l', false)

  -- One round, with a KCP control block.
  unfoldable pub turn : ℕ → LoopState → Kcb → Action World (LoopState × Bool)
  unfolding drive on_activity
  turn fuel l kcp = do
    now ← iclock os lib
    next ← drive kcp l.next_update now
    let wait = wait_ms next now
    activity ← call (select (wait / 1000) (wait % 1000 * 1000))
    on_activity fuel kcp (record l { next_update = next }) activity

  -- One round. The pointer to the control block is dereferenced.
  unfoldable pub round : ℕ → LoopState → Action World (LoopState × Bool)
  unfolding turn
  round fuel l = elim l.session.kcp [ none ↦ faults | some kcp ↦ turn fuel l kcp ]

  -- `while (running)`, for a number of rounds.
  unfoldable pub event_loop : ℕ → ℕ → LoopState → Action World LoopState
  unfolding round
  event_loop zero fuel l = spins
  event_loop (suc rounds) fuel l = elim l.running [
    | false ↦ pure l
    | true ↦ do
      (l', left) ← round fuel l
      elim left [ true ↦ pure l' | false ↦ event_loop rounds fuel l' ]
  ]
