-- ===== src/Kcp.antt =====
-- camera/kcp.c. The KCP library (ikcp.c) is a parameter: its control block is a type, and its
-- functions change the world.
use car_detect.Prelude.{ℕ, ◌+◌, ◌*◌, ◌/◌, ◌%◌, ◌^◌, Option, none, some, [], ◌∷◌, Bytes}
use Prim.Native.Nat.{bit_xor}
use car_detect.Effect.{Action, pure, faults, call, ◌>>=◌, ◌>>◌}
use car_detect.Os.{Os}
use car_detect.Udp.{UdpSocket}

pub record KcpLib (W : Type 0) : Type 1 where
  pub Kcb : Type 0
  pub conv : Kcb → ℕ
  pub ikcp_create : ℕ → UdpSocket → W → Option Kcb × W
  pub set_output : Kcb → W → W
  pub ikcp_nodelay : Kcb → ℕ → ℕ → ℕ → ℕ → W → W
  pub ikcp_wndsize : Kcb → ℕ → ℕ → W → W
  pub ikcp_setmtu : Kcb → ℕ → W → W
  pub ikcp_send : Kcb → Bytes → W → W
  pub ikcp_flush : Kcb → W → W
  pub ikcp_update : Kcb → ℕ → W → W
  pub ikcp_check : Kcb → ℕ → W → ℕ
  pub ikcp_input : Kcb → Bytes → W → W
  pub ikcp_release : Kcb → W → W

abbrev pub kcp_mtu : ℕ
kcp_mtu = 1450

abbrev pub kcp_interval : ℕ
kcp_interval = 10

abbrev pub kcp_wndsize : ℕ
kcp_wndsize = 256

-- A call that returns nothing of interest.
abbrev pub act : {W : Type 0} → (W → W) → Action W (Unit {0})
act f = call (λ w. (tt, f w))

module _ (os : Os) (lib : KcpLib (Os.World os)) where
  open os use {World, rand}
  open lib use {Kcb}

  -- `((uint32_t)rand() << 16) ^ (uint32_t)rand()`
  unfoldable pub rand_u32 : Action World ℕ
  rand_u32 = do a ← call rand; b ← call rand; pure (bit_xor (a * 2 ^ 16 % 2 ^ 32) (b % 2 ^ 32))

  -- The clock in milliseconds, in 32 bits.
  unfoldable pub iclock : Action World ℕ
  iclock = do (sec, usec) ← call (Os.gettimeofday os); pure ((sec * 1000 + usec / 1000) % 2 ^ 32)

  -- `kcp->output = …` is a fault when `ikcp_create` returned a null pointer.
  unfoldable pub kcp_init : UdpSocket → Action World Kcb
  unfolding rand_u32
  kcp_init udp = do
    conv ← rand_u32
    made ← call (KcpLib.ikcp_create lib conv udp)
    elim made [
      | none ↦ faults
      | some kcp ↦ do
        act (KcpLib.set_output lib kcp)
        act (KcpLib.ikcp_nodelay lib kcp 1 kcp_interval 2 0)
        act (KcpLib.ikcp_wndsize lib kcp kcp_wndsize kcp_wndsize)
        act (KcpLib.ikcp_setmtu lib kcp kcp_mtu)
        pure kcp
    ]

  unfoldable pub send_rtp_over_kcp : Bytes → Option Kcb → Action World (Unit {0})
  send_rtp_over_kcp rtp_data none = pure tt
  send_rtp_over_kcp [] (some kcp) = pure tt
  send_rtp_over_kcp (b ∷ rtp_data) (some kcp) = act (KcpLib.ikcp_send lib kcp (b ∷ rtp_data))
