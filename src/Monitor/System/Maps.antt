-- ===== src/Monitor/System/Maps.antt =====
-- What is said of the outcomes and of the maps of media/MonitorServer.cc.
use car_detect.Prelude.{
  ℕ, ◌≡◌, some, Bool, true, false, List, [], ◌∷◌, Bytes, All, ltb, ◌==◌, if◌then◌else◌, Bool-cases,
  inl, inr, str_eq,
}
use car_detect.Effect.{Outcome, done, crash, stuck, on_done}
use car_detect.Media.Text.{map_set, map_erase, less}
use car_detect.Monitor.{ViewerKcp, UdpSession, QtClient, MonitorServer, fd_set, fd_erase}

-- It comes back with `P`, or it is undefined behaviour; it never hangs.
abbrev pub Safely : {A : Type 0} → (A → Type 0) → Outcome A → Type 0
Safely P (done a) = P a
Safely P crash = Unit {0}
Safely P stuck = ⊥

pub on_done-Safely :
    {A B : Type 0} (P : A → Type 0) (Q : B → Type 0) (o : Outcome A) (k : A → Outcome B)
    → Safely P o
    → ((a : A) → P a → Safely Q (k a))
    → Safely Q (on_done o k)
on_done-Safely P Q (done a) k h next = next a h
on_done-Safely P Q crash k h next = tt
on_done-Safely P Q stuck k h next = elim h [ ]

pub if-Safely :
    {A : Type 0} (P : A → Type 0) (b : Bool) (x y : Outcome A)
    → Safely P x
    → Safely P y
    → Safely P (if b then x else y)
if-Safely P true x y hx hy = hx
if-Safely P false x y hx hy = hy

-- The session's control block has its number, and its thread runs.
abbrev pub Live : UdpSession → Type 0
Live s =
    (k : ViewerKcp) × (s.ikcp ≡ some k)
    × (k.conv ≡ s.conv)
    × (s.kcp_running ≡ true)
    × (s.kcp_thread ≡ true)

-- A viewer stands under its own descriptor, and all its sessions are live.
abbrev pub Served : ℕ × QtClient → Type 0
Served p = (p.1.tcp_fd ≡ p.0) × All (λ (q : Bytes × UdpSession). Live q.1) p.1.session_map

abbrev pub WellServed : MonitorServer → Type 0
WellServed m = All Served m.qt_clients

module _ {A : Type 0} (P : A → Type 0) where
  pub map_set-All :
      (k : Bytes) (v : A) (m : List (Bytes × A))
      → P v
      → All (λ (q : Bytes × A). P q.1) m
      → All (λ (q : Bytes × A). P q.1) (map_set k v m)
  map_set-All k v [] hv h = (hv, tt)
  map_set-All k v ((j, w) ∷ m) hv (hw, hm) = elim (Bool-cases (str_eq k j)) [
    | inl e ↦ rw e (hv, hm)
    | inr e ↦ elim (Bool-cases (less k j)) [
      | inl l ↦ rw (e, l) (hv, (hw, hm))
      | inr l ↦ rw (e, l) (hw, map_set-All k v m hv hm)
    ]
  ]

  pub map_erase-All :
      (k : Bytes) (m : List (Bytes × A))
      → All (λ (q : Bytes × A). P q.1) m
      → All (λ (q : Bytes × A). P q.1) (map_erase k m)
  map_erase-All k [] h = tt
  map_erase-All k ((j, w) ∷ m) (hw, hm) = elim (Bool-cases (str_eq k j)) [
    | inl e ↦ rw e hm
    | inr e ↦ rw e (hw, map_erase-All k m hm)
  ]

module _ {A : Type 0} (P : ℕ × A → Type 0) where
  pub fd_set-All : (k : ℕ) (v : A) (m : List (ℕ × A)) → P (k, v) → All P m → All P (fd_set k v m)
  fd_set-All k v [] hv h = (hv, tt)
  fd_set-All k v ((j, w) ∷ m) hv (hw, hm) = elim (Bool-cases (k == j)) [
    | inl e ↦ rw e (hv, hm)
    | inr e ↦ elim (Bool-cases (ltb k j)) [
      | inl l ↦ rw (e, l) (hv, (hw, hm))
      | inr l ↦ rw (e, l) (hw, fd_set-All k v m hv hm)
    ]
  ]

  pub fd_erase-All : (k : ℕ) (m : List (ℕ × A)) → All P m → All P (fd_erase k m)
  fd_erase-All k [] h = tt
  fd_erase-All k ((j, w) ∷ m) (hw, hm) = elim (Bool-cases (k == j)) [
    | inl e ↦ rw e hm
    | inr e ↦ rw e (hw, fd_erase-All k m hm)
  ]
