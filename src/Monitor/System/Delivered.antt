-- ===== src/Monitor/System/Delivered.antt =====
-- Where a datagram of a viewer goes (media/MonitorServer.cc).
use car_detect.Prelude.{ℕ, ◌≡◌, ◌≢◌, Option, none, some, List, [], ◌∷◌, ◌++◌, Bytes, All, ◌⊎◌}
use car_detect.Effect.{Outcome, done, crash}
use car_detect.Monitor.{ViewerKcp, UdpSession, QtClient, kcp_input, MonitorServer, perform}

-- All sessions, in the order of the viewers and of the ids.
abbrev pub sessions_in : List (Bytes × UdpSession) → List UdpSession
sessions_in [] = []
sessions_in ((id, s) ∷ more) = s ∷ sessions_in more

abbrev pub all_sessions : List (ℕ × QtClient) → List UdpSession
all_sessions [] = []
all_sessions ((fd, c) ∷ more) = sessions_in c.session_map ++ all_sessions more

-- The first with the number, or that there is none.
abbrev pub First : ℕ → List UdpSession → Option UdpSession → Type 0
First conv ss none = All (λ s. s.conv ≢ conv) ss
First conv ss (some s) =
    (before : List UdpSession) × (after : List UdpSession) × (ss ≡ before ++ (s ∷ after))
    × All (λ t. t.conv ≢ conv) before
    × (s.conv ≡ conv)

-- What becomes of a datagram: it is given to the control block of the first session that has its
-- number, and to nothing else; or no session has it, and the server goes through a null pointer.
abbrev pub Delivered : ℕ → Bytes → MonitorServer → Outcome MonitorServer → Type 0
Delivered conv d m o =
    ((s : UdpSession) × (k : ViewerKcp) × First conv (all_sessions m.qt_clients) (some s)
      × (s.ikcp ≡ some k)
      × (k.conv ≡ conv)
      × (o ≡ done (perform (kcp_input k d ∷ []) m)))
    ⊎ (First conv (all_sessions m.qt_clients) none × (o ≡ crash))
