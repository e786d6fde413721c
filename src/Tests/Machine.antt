-- ===== src/Tests/Machine.antt =====
-- A system in memory: one socket, which takes five bytes at a time and is interrupted as often as
-- signals are pending, a list of waiting datagrams, and a KCP library that keeps what it is given.
use car_detect.Prelude.{
  ℕ, zero, suc, ◌+◌, ◌≤◌, ◌<◌, ◌≡◌, ◌≢◌, codes, refl, ap, ◌⊎◌, Option, none, some, Bool, true,
  false, not, ◌&&◌, ◌||◌, ◌==◌, List, [], ◌∷◌, ◌++◌, Bytes, length, take, min, arith, inl, inr,
  append-nil,
}
use car_detect.Effect.{done}
use car_detect.Os.{
  Os, WriteResult, wrote, interrupted, write_failed, RecvResult, received, no_data, readable,
  WriteLaws, FdLaws, accepted,
}
use car_detect.Kcp.{KcpLib}
use car_detect.Udp.{UdpSocket}
use car_detect.Client.Handshake.{Device, Options}
use car_detect.Tcp.Write.{IsReliable}
use car_detect.Rtsp.Session.{RtspSession, rtsp_session_init}
use car_detect.Client.Loop.Laws.{DatagramLaws}

pub record Machine : Type 0 where
  pub is_open : ℕ → Bool
  pub signals : ℕ
  pub stream : Bytes
  pub queue : List Bytes
  pub fed : List Bytes

abbrev pub socket_of : Bool → Machine → Option ℕ × Machine
socket_of true m = (none, m)
socket_of false m = (some 3, record m { is_open = λ n. n == 3 || m.is_open n })

abbrev pub write_of : ℕ → Bytes → Machine → WriteResult × Machine
write_of zero buf m =
    (wrote (min 5 (length buf)), record m { stream = m.stream ++ take (min 5 (length buf)) buf })
write_of (suc n) buf m = (interrupted, record m { signals = n })

abbrev pub recv_of : ℕ → List Bytes → Machine → RecvResult × Machine
recv_of len [] m = (no_data, m)
recv_of len (d ∷ ds) m = (received (take len d), record m { queue = ds })

abbrev pub machine_os : Os
machine_os = record {
  World = Machine;
  socket = λ m. socket_of (m.is_open 3) m;
  connect = λ fd a m. (true, m);
  inet_aton = λ text. some 1;
  close = λ fd m. record m { is_open = λ n. not (n == fd) && m.is_open n };
  write = λ fd buf m. elim fd [ none ↦ (write_failed, m) | some n ↦ write_of m.signals buf m ];
  recv = λ fd n m. recv_of n m.queue m;
  sendto = λ fd a buf m. (some (length buf), m);
  malloc = λ n m. (true, m);
  mutex_lock = λ m. m;
  mutex_unlock = λ m. m;
  rand = λ m. (7, m);
  gettimeofday = λ m. ((0, 0), m);
  select = λ sec usec m. (readable false true, m);
}

-- A control block is its conversation number.
abbrev pub machine_kcp : KcpLib Machine
machine_kcp = record {
  Kcb = ℕ;
  conv = λ k. k;
  ikcp_create = λ conv udp m. (some conv, m);
  set_output = λ k m. m;
  ikcp_nodelay = λ k a b c d m. m;
  ikcp_wndsize = λ k a b m. m;
  ikcp_setmtu = λ k n m. m;
  ikcp_send = λ k d m. m;
  ikcp_flush = λ k m. m;
  ikcp_update = λ k now m. m;
  ikcp_check = λ k now m. now + 10;
  ikcp_input = λ k d m. record m { fed = m.fed ++ (d ∷ []) };
  ikcp_release = λ k m. m;
}

abbrev pub idle : Machine
idle = record {
  is_open = λ n. false;
  signals = 2;
  stream = [];
  queue = (1 ∷ 2 ∷ []) ∷ (3 ∷ []) ∷ [];
  fed = [];
}

abbrev pub pushing : RtspSession ℕ
pushing = record rtsp_session_init {
  client = record { fd = some 3; addr = record { ip = 1; port = 8554 } };
  kcp = some 77;
}

write_of-at_most : (n : ℕ) (buf : Bytes) (m : Machine) → accepted (write_of n buf m).0 ≤ length buf
write_of-at_most zero buf m = omega arith
write_of-at_most (suc n) buf m = omega arith

write_of-in_order :
    (n : ℕ) (buf : Bytes) (m : Machine)
    → (write_of n buf m).1.stream ≡ m.stream ++ take (accepted (write_of n buf m).0) buf
write_of-in_order zero buf m = refl
write_of-in_order (suc n) buf m = rw append-nil

write-at_most :
    (fd : Option ℕ) (buf : Bytes) (m : Machine)
    → accepted (Os.write machine_os fd buf m).0 ≤ length buf
write-at_most none buf m = omega arith
write-at_most (some n) buf m = write_of-at_most m.signals buf m

write-in_order :
    (fd : Option ℕ) (buf : Bytes) (m : Machine)
    → (Os.write machine_os fd buf m).1.stream
      ≡ m.stream ++ take (accepted (Os.write machine_os fd buf m).0) buf
write-in_order none buf m = rw append-nil
write-in_order (some n) buf m = write_of-in_order m.signals buf m

unfoldable pub machine_WriteLaws : WriteLaws machine_os
unfolding write-at_most write-in_order write_of-at_most write_of-in_order
machine_WriteLaws = record {
  taken = λ m fd. m.stream;
  at_most = write-at_most;
  in_order = write-in_order;
}

pub write_of-moves :
    (n b : ℕ) (rest : Bytes) (m : Machine)
    → m.signals ≡ n
    → let (r, m') = write_of n (b ∷ rest) m in
      ((r ≡ interrupted) × (m'.signals < m.signals))
      ⊎ ((k : ℕ) × (r ≡ wrote (suc k)) × (m'.signals ≤ m.signals))
write_of-moves zero b rest m e = inr (min 4 (length rest), ap wrote (ground arith), omega arith)
write_of-moves (suc n) b rest m e = inl (refl, omega arith)

unfoldable pub machine_IsReliable : IsReliable machine_os machine_WriteLaws (some 3)
unfolding write_of-moves
machine_IsReliable = record {
  pending = λ m. m.signals;
  moves = λ b rest m. write_of-moves m.signals b rest m refl;
}

socket_of-none :
    (b : Bool) (m : Machine) (n : ℕ)
    → (socket_of b m).0 ≡ none
    → (socket_of b m).1.is_open n ≡ m.is_open n
socket_of-none true m n e = refl
socket_of-none false m n e = cc

socket_of-some :
    (b : Bool) (m : Machine) (fd : ℕ)
    → m.is_open 3 ≡ b
    → (socket_of b m).0 ≡ some fd
    → (m.is_open fd ≡ false) × ((n : ℕ) → (socket_of b m).1.is_open n ≡ (n == fd || m.is_open n))
socket_of-some true m fd h e = cc
socket_of-some false m fd h e = let same : fd ≡ 3 = cc in rw (same) (h, λ n. refl)

unfoldable pub machine_FdLaws : FdLaws machine_os
unfolding socket_of-none socket_of-some
machine_FdLaws = record {
  is_open = λ m n. m.is_open n;
  socket_none = λ m n e. socket_of-none (m.is_open 3) m n e;
  socket_some = λ m fd e. socket_of-some (m.is_open 3) m fd refl e;
  connect_keeps = λ fd a m n. refl;
  close_lem = λ fd m n. refl;
}

recv_of-next :
    (len : ℕ) (q : List Bytes) (m : Machine) (d : Bytes) (ds : List Bytes)
    → q ≡ d ∷ ds
    → ((recv_of len q m).0 ≡ received (take len d))
      × ((recv_of len q m).1.queue ≡ ds)
      × ((recv_of len q m).1.fed ≡ m.fed)
recv_of-next len [] m d ds e = cc
recv_of-next len (d' ∷ ds') m d ds e = (cc, cc, refl)

recv_of-empty :
    (len : ℕ) (q : List Bytes) (m : Machine)
    → m.queue ≡ q
    → q ≡ []
    → ((recv_of len q m).0 ≡ no_data)
      × ((recv_of len q m).1.queue ≡ [])
      × ((recv_of len q m).1.fed ≡ m.fed)
recv_of-empty len [] m h e = (refl, h, refl)
recv_of-empty len (d' ∷ ds') m h e = cc

unfoldable pub machine_DatagramLaws : DatagramLaws machine_os machine_kcp pushing 77
unfolding recv_of-next recv_of-empty
machine_DatagramLaws = record {
  queue = λ m. m.queue;
  fed = λ m. m.fed;
  recv_next = λ len m d ds e. recv_of-next len m.queue m d ds e;
  recv_empty = λ len m e. recv_of-empty len m.queue m refl e;
  lock_keeps = λ m. (refl, refl);
  unlock_keeps = λ m. (refl, refl);
  input_feeds = λ d m. (refl, refl);
}

-- The same system with no signal in the way.
abbrev pub quiet_os : Os
quiet_os = record machine_os {
  write = λ fd buf m. elim fd [ none ↦ (write_failed, m) | some n ↦ write_of 0 buf m ];
}

pub quiet_os-quiet :
    (fd : Option ℕ) (buf : Bytes) (m : Machine) → (Os.write quiet_os fd buf m).0 ≢ interrupted
quiet_os-quiet none buf m p = cc
quiet_os-quiet (some n) buf m p = cc

pub machine_kcp-creates :
    (conv : ℕ) (udp : UdpSocket) (m : Machine)
    → (k : ℕ) × ((KcpLib.ikcp_create machine_kcp conv udp m).0 ≡ some k)
machine_kcp-creates conv udp m = (conv, refl)

abbrev pub machine_device : Device Machine
machine_device = record {
  pthread_join = λ m. done (tt, m);
  h264_encoder_cleanup = λ m. m;
  v4l2_stream_off = λ m. m;
  v4l2_cleanup = λ m. m;
}

abbrev pub options : Options
options = record {
  server_ip = codes "10.0.0.1";
  server_port = 8554;
  url = codes "/stream";
  trans_type = codes "udp";
  rtp_port = 5004;
  rtcp_port = 5005;
}
