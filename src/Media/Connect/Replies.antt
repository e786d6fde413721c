-- ===== src/Media/Connect/Replies.antt =====
-- What `handleRequest` of media/RtspConnect.cc answers.
use car_detect.Prelude.{ℕ, ◌%◌, ◌^◌, ◌≡◌, refl, Option, none, some, Bool, true, Bytes, arith}
use car_detect.Effect.{Outcome, done}
use car_detect.Media.Text.{stoul}
use car_detect.Media.Connect.{KcpPointer, unset, null, pointer, RtspConnect, Server}
use car_detect.Media.Connect.Record.{run_thread, cam_kcp_for, init_cam_kcp, kcp_of_header}
use car_detect.Media.Connect.Answers.{Answered, is_set, kcp_ok}

-- RECORD.
pub kcp_of_header-ok :
    (creates : ℕ → Bool) (o : Option Bytes) (c : RtspConnect)
    → kcp_ok creates o c ≡ true
    → (k : KcpPointer) × (kcp_of_header creates o c ≡ done (record c { cam_kcp = k }))
      × (is_set k ≡ true)
unfolding kcp_of_header init_cam_kcp
kcp_of_header-ok creates none c ok = (c.cam_kcp, refl, ok)
kcp_of_header-ok creates (some v) c ok = number (stoul v) refl
  where
    number :
        (n : Option ℕ)
        → stoul v ≡ n
        → (k : KcpPointer) × (kcp_of_header creates (some v) c ≡ done (record c { cam_kcp = k }))
          × (is_set k ≡ true)
    number none e = absurd (ground (arith, rw e at ok))
    number (some n) e =
        (pointer (cam_kcp_for (n % 2 ^ 32) c), rw (kcp_of_header, e, rw e at ok) refl, refl)

pub run_thread-set :
    (p : KcpPointer) (c : RtspConnect)
    → is_set p ≡ true
    → run_thread p c ≡ done (record c { kcp_running = true; kcp_thread = true })
unfolding run_thread
run_thread-set unset c ok = absurd (ground arith)
run_thread-set null c ok = refl
run_thread-set (pointer k) c ok = refl

-- The handler returns, and its answer is as described.
abbrev pub Returns : ℕ → Server → Outcome Server → Type 0
Returns cseq w o = (w' : Server) × (o ≡ done w') × Answered cseq w w'
