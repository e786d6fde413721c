-- ===== src/Os.antt =====
-- What the camera calls and does not implement: the system calls, as an interface that the other
-- modules take as a parameter, and what the manual pages promise of them, as laws over it.
use car_detect.Prelude.{
  ℕ, ◌≤◌, ◌≡◌, ◌++◌, Option, none, some, Bool, false, not, ◌&&◌, ◌||◌, ◌==◌, Bytes, length, take,
}

-- What `write` returns, with errno: a count, EINTR, EAGAIN or EWOULDBLOCK, any other error.
pub data WriteResult : Type 0 where
  wrote : ℕ → WriteResult
  interrupted would_block write_failed : WriteResult

-- What `recv` returns: bytes (none at the end of the stream), EAGAIN or EWOULDBLOCK, any other error.
pub data RecvResult : Type 0 where
  received : Bytes → RecvResult
  no_data recv_failed : RecvResult

-- struct sockaddr_in: the address and the port, of 16 bits.
pub record SockAddr : Type 0 where
  pub ip : ℕ
  pub port : ℕ

-- What `select` on the two sockets returns: an error, a timeout, or which of them can be read.
pub data Activity : Type 0 where
  select_failed timed_out : Activity
  readable : Bool → Bool → Activity

-- `select` takes `tv_sec` and `tv_usec`. A descriptor is `none` where the C variable is negative.
pub record Os : Type 1 where
  pub World : Type 0
  pub socket : World → Option ℕ × World
  pub connect : ℕ → SockAddr → World → Bool × World
  pub inet_aton : Bytes → Option ℕ
  pub close : ℕ → World → World
  pub write : Option ℕ → Bytes → World → WriteResult × World
  pub recv : Option ℕ → ℕ → World → RecvResult × World
  pub sendto : Option ℕ → SockAddr → Bytes → World → Option ℕ × World
  pub malloc : ℕ → World → Bool × World
  pub mutex_lock : World → World
  pub mutex_unlock : World → World
  pub rand : World → ℕ × World
  pub gettimeofday : World → (ℕ × ℕ) × World
  pub select : ℕ → ℕ → World → Activity × World

-- The bytes that a `write` took.
abbrev pub accepted : WriteResult → ℕ
accepted (wrote n) = n
accepted interrupted = 0
accepted would_block = 0
accepted write_failed = 0

-- write(2): what it takes is a prefix of what it was given, and goes behind what was taken before.
-- `taken` is the stream of bytes that the peer will read.
pub record WriteLaws (os : Os) : Type 0 where
  pub taken : Os.World os → Option ℕ → Bytes
  pub at_most :
      (fd : Option ℕ) (buf : Bytes) (w : Os.World os)
      → accepted (Os.write os fd buf w).0 ≤ length buf
  pub in_order :
      (fd : Option ℕ) (buf : Bytes) (w : Os.World os)
      → taken (Os.write os fd buf w).1 fd
        ≡ taken w fd ++ take (accepted (Os.write os fd buf w).0) buf

-- Which descriptors are open: `socket` gives a fresh one, `close` ends one, `connect` changes none.
pub record FdLaws (os : Os) : Type 0 where
  pub is_open : Os.World os → ℕ → Bool
  pub socket_none :
      (w : Os.World os) (n : ℕ)
      → (Os.socket os w).0 ≡ none
      → is_open (Os.socket os w).1 n ≡ is_open w n
  pub socket_some :
      (w : Os.World os) (fd : ℕ)
      → (Os.socket os w).0 ≡ some fd
      → (is_open w fd ≡ false) × ((n : ℕ) → is_open (Os.socket os w).1 n ≡ (n == fd || is_open w n))
  pub connect_keeps :
      (fd : ℕ) (a : SockAddr) (w : Os.World os) (n : ℕ)
      → is_open (Os.connect os fd a w).1 n ≡ is_open w n
  pub close_lem :
      (fd : ℕ) (w : Os.World os) (n : ℕ)
      → is_open (Os.close os fd w) n ≡ (not (n == fd) && is_open w n)
