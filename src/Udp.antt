-- ===== src/Udp.antt =====
-- camera/udp.c.
use car_detect.Prelude.{ℕ, ◌%◌, ◌^◌, Option, none, some, Bytes}
use car_detect.Effect.{Action, pure, call, ◌>>=◌, ◌>>◌}
use car_detect.Os.{Os, SockAddr, RecvResult}
use car_detect.Tcp.{Ret, value, minus_one}

pub record UdpSocket : Type 0 where
  pub fd : Option ℕ
  pub addr : SockAddr

module _ (os : Os) where
  open os use {World, socket, inet_aton, close, sendto, recv}

  -- The address for a text, or INADDR_ANY for a null pointer.
  udp_address : Option Bytes → Option ℕ
  udp_address none = some 0
  udp_address (some text) = inet_aton text

  -- On a bad address the descriptor is closed, and stays in `udp->fd`.
  unfoldable pub udp_init : UdpSocket → Option Bytes → ℕ → Action World (UdpSocket × Ret)
  unfolding udp_address
  udp_init udp ip port = do
    made ← call socket
    elim made [
      | none ↦ pure (record udp { fd = none }, minus_one)
      | some fd ↦ elim (udp_address ip) [
        | none ↦ do
          call (λ w. (tt, close fd w))
          pure (record { fd = some fd; addr = record { ip = 0; port = port % 2 ^ 16 } }, minus_one)
        | some ip ↦
            pure (record { fd = some fd; addr = record { ip = ip; port = port % 2 ^ 16 } }, value 0)
      ]
    ]

  unfoldable pub udp_send : UdpSocket → Bytes → Action World Ret
  udp_send udp buf = do
    n ← call (sendto udp.fd udp.addr buf)
    elim n [ none ↦ pure minus_one | some n ↦ pure (value n) ]

  unfoldable pub udp_recv : UdpSocket → ℕ → Action World RecvResult
  udp_recv udp len = call (recv udp.fd len)

  unfoldable pub udp_close : UdpSocket → Action World UdpSocket
  udp_close udp = elim udp.fd [
    | none ↦ pure udp
    | some fd ↦ do call (λ w. (tt, close fd w)); pure (record udp { fd = none })
  ]
