-- ===== src/Reactor/Sending.antt =====
-- reactor/TcpConnection.cc: `send` and `handleWriteCallback`, over `writen` of reactor/SocketIO.cc. A
-- message has fewer than 2 ^ 31 bytes, and `epoll_ctl` succeeds.
pub mod Stream
use car_detect.Prelude.{
  ℕ, Option, some, Bool, true, false, not, ◌&&◌, List, [], ◌∷◌, ◌++◌, Bytes, length, drop, ltb,
  if◌then◌else◌,
}
use car_detect.Effect.{Action, pure, faults, ◌>>=◌, ◌>>◌}
use car_detect.Os.{Os}
use car_detect.Tcp.{Ret, value, minus_one, tcp_write_loop}

-- `write_events` is whether epoll also waits until the socket can be written; `closed` is whether
-- the close callback has run.
pub record SendState : Type 0 where
  pub send_buffer : Bytes
  pub is_writing : Bool
  pub write_events : Bool
  pub closed : Bool

abbrev pub holds_none : Bytes → Bool
holds_none [] = true
holds_none (b ∷ bs) = false

abbrev pub new_sender : SendState
new_sender = record { send_buffer = []; is_writing = false; write_events = false; closed = false }

-- The rest of a message that was not written whole.
abbrev pub buffered : Bytes → SendState → SendState
buffered rest c = record c { send_buffer = rest; is_writing = true; write_events = true }

-- `_sendBuffer += msg`
abbrev pub appended : Bytes → SendState → SendState
appended msg c = record c {
  send_buffer = c.send_buffer ++ msg;
  is_writing = true;
  write_events = if c.is_writing then c.write_events else true;
}

abbrev pub all_sent : SendState → SendState
all_sent c = record c { send_buffer = []; is_writing = false; write_events = false }

-- What is called on a connection: `send`, or `handleWriteCallback` by the event loop.
pub data Call : Type 0 where
  sends : Bytes → Call
  can_write : Call

module _ (os : Os) where
  open os use {World}

  -- The loop of `writen` is that of `tcp_write` in camera/tcp.c, statement for statement.
  unfoldable pub writen : ℕ → ℕ → Bytes → Action World Ret
  writen fuel fd buf = tcp_write_loop os fuel (some fd) (length buf) buf

  -- `msg.substr(-1)` throws.
  unfoldable pub after_send : Bytes → SendState → Ret → Action World SendState
  after_send msg c minus_one = faults
  after_send msg c (value n) = pure (if ltb n (length msg) then buffered (drop n msg) c else c)

  unfoldable pub send : ℕ → ℕ → Bytes → SendState → Action World SendState
  unfolding writen after_send
  send fuel fd msg c =
      if holds_none c.send_buffer && not c.is_writing
      then writen fuel fd msg >>= after_send msg c
      else pure (appended msg c)

  unfoldable pub after_write : SendState → Ret → Action World SendState
  after_write c minus_one = pure (record c { closed = true })
  after_write c (value n) =
      let rest = drop n c.send_buffer in
      pure (if holds_none rest then all_sent c else record c { send_buffer = rest })

  unfoldable pub handle_write_callback : ℕ → ℕ → SendState → Action World SendState
  unfolding writen after_write
  handle_write_callback fuel fd c =
      if holds_none c.send_buffer
      then pure (all_sent c)
      else writen fuel fd c.send_buffer >>= after_write c

  unfoldable pub run : ℕ → ℕ → List Call → SendState → Action World SendState
  unfolding send handle_write_callback
  run fuel fd [] c = pure c
  run fuel fd (sends msg ∷ calls) c = send fuel fd msg c >>= run fuel fd calls
  run fuel fd (can_write ∷ calls) c = handle_write_callback fuel fd c >>= run fuel fd calls
