-- ===== src/Tcp.antt =====
-- camera/tcp.c. `tcp_write` has its proofs in `Write`, the connection's in `Connection`.
pub mod Write
pub mod Connection
use car_detect.Prelude.{
  ℕ, zero, suc, ◌-◌, ◌%◌, ◌^◌, Option, none, some, Bool, true, false, [], ◌∷◌, ◌++◌, Bytes, length,
  drop, ◌==◌, if◌then◌else◌,
}
use car_detect.Effect.{Outcome, done, stuck, Action, pure, spins, call, ◌>>=◌, ◌>>◌}
use car_detect.Os.{
  Os, SockAddr, WriteResult, wrote, interrupted, would_block, write_failed, RecvResult, received,
  no_data, recv_failed,
}

-- An `int` that is a count, or -1.
pub data Ret : Type 0 where
  value : ℕ → Ret
  minus_one : Ret

pub record TcpClient : Type 0 where
  pub fd : Option ℕ
  pub addr : SockAddr

-- What the loop of `tcp_write` does with the result of a `write`: `rest` is `pstr` and `left`
-- before the call, and `next` is the next round.
unfoldable pub on_write :
    {W : Type 0} → ℕ → Bytes → (Bytes → Action W Ret) → WriteResult → Action W Ret
on_write len rest next (wrote zero) = pure (value (len - length rest))
on_write len rest next (wrote (suc m)) = next (drop (suc m) rest)
on_write len rest next interrupted = next rest
on_write len rest next would_block = pure (value (len - length rest))
on_write len rest next write_failed = pure minus_one

module _ (os : Os) where
  open os use {World, socket, connect, inet_aton, close, write, recv}

  -- `fuel` bounds the calls of `write`.
  unfoldable pub tcp_write_loop : ℕ → Option ℕ → ℕ → Bytes → Action World Ret
  unfolding on_write
  tcp_write_loop zero fd len rest = spins
  tcp_write_loop (suc fuel) fd len [] = pure (value len)
  tcp_write_loop (suc fuel) fd len (b ∷ rest) = do
    r ← call (write fd (b ∷ rest))
    on_write len (b ∷ rest) (tcp_write_loop fuel fd len) r

  unfoldable pub tcp_write : ℕ → TcpClient → Bytes → Action World Ret
  unfolding tcp_write_loop
  tcp_write fuel client buf = tcp_write_loop fuel client.fd (length buf) buf

  -- `recv(fd, buf, len - 1)`. The second result is the string that `buf` holds afterwards: with
  -- no data it keeps what it held. The third is the errno test of the callers (EAGAIN).
  unfoldable pub tcp_read : TcpClient → Bytes → ℕ → Action World (Ret × Bytes × Bool)
  tcp_read client buf len = elim client.fd [
    | none ↦ pure (minus_one, buf, false)
    | some fd ↦ do
      r ← call (recv (some fd) (len - 1))
      elim r [
        | received bytes ↦ elim bytes [
          | [] ↦ pure (value 0, buf, false)
          | b ∷ bs ↦ pure (value (length (b ∷ bs)), b ∷ bs, false)
        ]
        | no_data ↦ pure (minus_one, buf, true)
        | recv_failed ↦ pure (minus_one, buf, false)
      ]
  ]

  unfoldable pub tcp_close_client : TcpClient → Action World TcpClient
  tcp_close_client client = elim client.fd [
    | none ↦ pure client
    | some fd ↦ do call (λ w. (tt, close fd w)); pure (record client { fd = none })
  ]

  -- `close(client->fd); client->fd = -1; return -1;`
  give_up : TcpClient → ℕ → Action World (TcpClient × Ret)
  give_up client fd = do call (λ w. (tt, close fd w)); pure (record client { fd = none }, minus_one)

  -- `htons` keeps 16 bits of the port.
  unfoldable pub tcp_client_connect : TcpClient → Bytes → ℕ → Action World (TcpClient × Ret)
  unfolding give_up
  tcp_client_connect client server_ip port = do
    made ← call socket
    elim made [
      | none ↦ pure (record client { fd = none }, minus_one)
      | some fd ↦ elim (inet_aton server_ip) [
        | none ↦
            give_up (record client { fd = some fd; addr = record { ip = 0; port = port % 2 ^ 16 } })
              fd
        | some ip ↦ do
          let there : TcpClient = record {
            fd = some fd;
            addr = record { ip = ip; port = port % 2 ^ 16 };
          }
          up ← call (connect fd there.addr)
          if up then pure (there, value 0) else give_up there fd
      ]
    ]
