-- ===== src/Monitor/System/Readable.antt =====
-- The sessions of the viewers (media/MonitorServer.cc) when something comes from them.
use car_detect.Prelude.{
  ℕ, ◌%◌, ◌^◌, ◌+◌, refl, Option, none, some, Bool, List, [], ◌∷◌, ◌++◌, Bytes, All, ◌==◌,
  Bool-cases, inl, inr, str_eq, arith, codes, ◌||◌, map,
}
use car_detect.Effect.{done, crash}
use car_detect.Os.{RecvResult, received, no_data, recv_failed}
use car_detect.Rtsp.Text.{to_lower}
use car_detect.Media.Text.{map_set, cut_at, lines, strip, is_blank4}
use car_detect.Media.Requests.{Headers, Request, is_last_line}
use car_detect.Monitor.{QtClient, MonitorServer, fd_find, set_client}
use car_detect.Monitor.Requests.{add_field, read_fields, parse_message, parse_text}
use car_detect.Monitor.Viewers.{
  kcp_init, session_for, session_of_ports, add_session, add_sessions, handle_method, take_request,
  on_bytes, close_client, on_recv, on_readable, fields, number_at,
}
use car_detect.Monitor.System.Maps.{
  Safely, on_done-Safely, if-Safely, Live, Served, WellServed, map_set-All, fd_set-All,
  fd_erase-All,
}

abbrev pub Found : ℕ → Option QtClient → Type 0
Found fd none = Unit {0}
Found fd (some c) = Served (fd, c)

pub fd_find-Found : (fd : ℕ) (m : List (ℕ × QtClient)) → All Served m → Found fd (fd_find fd m)
fd_find-Found fd [] h = tt
fd_find-Found fd ((j, c) ∷ m) ((hj, hs), hm) = elim (Bool-cases (fd == j)) [
  | inl e ↦ rw e (ground (arith, e), hs)
  | inr e ↦ rw e (fd_find-Found fd m hm)
]

session_of_ports-Live :
    (creates : ℕ → Bool) (ip : Bytes) (rtp rtcp conv : Option ℕ)
    → Safely Live (session_of_ports creates ip rtp rtcp conv)
unfolding session_of_ports session_for kcp_init
session_of_ports-Live creates ip none rtcp conv = tt
session_of_ports-Live creates ip (some rtp) none conv = tt
session_of_ports-Live creates ip (some rtp) (some rtcp) none = tt
session_of_ports-Live creates ip (some rtp) (some rtcp) (some conv) =
    elim (Bool-cases (creates (conv % 2 ^ 32))) [
      | inl e ↦ rw e (_, refl, refl, refl, refl)
      | inr e ↦ rw e tt
    ]

add_session-Served :
    (creates : ℕ → Bool) (fd : ℕ) (id ports : Bytes) (c : QtClient)
    → Served (fd, c)
    → Safely (λ (c' : QtClient). Served (fd, c')) (add_session creates id ports c)
unfolding add_session
add_session-Served creates fd id ports c (hf, hs) =
    if-Safely (λ (c' : QtClient). Served (fd, c')) _ crash _ tt
      (on_done-Safely Live (λ (c' : QtClient). Served (fd, c')) _ _
        (session_of_ports-Live creates c.client_ip (number_at (fields ports) 0)
          (number_at (fields ports) 1) (number_at (fields ports) 2))
        (λ s hl. (hf, map_set-All Live id s c.session_map hl hs)))

add_sessions-Served :
    (creates : ℕ → Bool) (fd : ℕ) (headers : Headers) (c : QtClient)
    → Served (fd, c)
    → Safely (λ (c' : QtClient). Served (fd, c')) (add_sessions creates headers c)
unfolding add_sessions
add_sessions-Served creates fd [] c h = h
add_sessions-Served creates fd ((id, ports) ∷ more) c h =
    if-Safely (λ (c' : QtClient). Served (fd, c')) (str_eq id (codes "cseq")) _ _
      (add_sessions-Served creates fd more c h)
      (on_done-Safely (λ (c' : QtClient). Served (fd, c')) (λ (c' : QtClient). Served (fd, c'))
        (add_session creates id ports c) (add_sessions creates more)
        (add_session-Served creates fd id ports c h)
        (λ c' h'. add_sessions-Served creates fd more c' h'))

-- Parsing does not hang.
abbrev Any : {A : Type 0} → A → Type 0
Any a = Unit {0}

add_field-Any : (l : Bytes) (headers : Headers) → Safely Any (add_field l headers)
unfolding add_field
add_field-Any l headers = on_cut (cut_at b':' l)
  where
    on_cut :
        (o : Option (Bytes × Bytes))
        → Safely Any (elim o [
          | none ↦ done headers
          | some (key, behind) ↦ elim behind [
            | [] ↦ crash
            | c ∷ val ↦
                done (map_set (map to_lower (strip is_blank4 key)) (strip is_blank4 val) headers)
          ]
        ])
    on_cut none = tt
    on_cut (some (key, [])) = tt
    on_cut (some (key, c ∷ val)) = tt

read_fields-Any : (ls : List Bytes) (headers : Headers) → Safely Any (read_fields ls headers)
unfolding read_fields
read_fields-Any [] headers = tt
read_fields-Any (l ∷ ls) headers = if-Safely Any (is_last_line l) (done headers) _ tt (
    on_done-Safely Any Any (add_field l headers) (read_fields ls) (add_field-Any l headers)
      (λ h u. read_fields-Any ls h))

parse_text-Any : (text : Bytes) → Safely Any (parse_text text)
unfolding parse_text parse_message
parse_text-Any text = on_lines (lines text)
  where
    on_lines : (ls : List Bytes) → Safely Any (parse_message ls)
    on_lines [] = tt
    on_lines (l ∷ ls) =
        on_done-Safely Any Any (read_fields ls []) _ (read_fields-Any ls []) (λ h u. tt)

handle_method-Safely :
    (creates : ℕ → Bool) (fd : ℕ) (c : QtClient) (r : Request) (m : MonitorServer)
    → Served (fd, c)
    → WellServed m
    → Safely WellServed (handle_method creates fd c r m)
unfolding handle_method
handle_method-Safely creates fd c r m hc h =
    if-Safely WellServed (str_eq r.method (codes "SETUP")) (done _) _ h (
      if-Safely WellServed (str_eq r.method (codes "MESSAGE") || str_eq r.method (codes "ADDCAM")) _
        (done m)
        (on_done-Safely (λ (c' : QtClient). Served (fd, c')) WellServed
          (add_sessions creates r.headers c) _ (add_sessions-Served creates fd r.headers c hc)
          (λ c' hc'. fd_set-All Served fd c' m.qt_clients hc' h))
        h)

on_recv-Safely :
    (creates : ℕ → Bool) (fd : ℕ) (c : QtClient) (r : RecvResult) (m : MonitorServer)
    → Served (fd, c)
    → WellServed m
    → Safely WellServed (on_recv creates fd c r m)
unfolding on_recv on_bytes close_client
on_recv-Safely creates fd c no_data m hc h = tt
on_recv-Safely creates fd c recv_failed m hc h = tt
on_recv-Safely creates fd c (received []) m hc h = fd_erase-All Served fd m.qt_clients h
on_recv-Safely creates fd c (received (b ∷ bs)) m hc h =
    let (request, rest) = take_request (c.buffer ++ (b ∷ bs)) in
    let c' : QtClient = record c { buffer = rest; cseq = c.cseq + 1 } in
    on_done-Safely Any WellServed (parse_text request) _ (parse_text-Any request) (λ r u.
      handle_method-Safely creates fd c' r (set_client fd c' m) hc
        (fd_set-All Served fd c' m.qt_clients hc h))

pub on_readable-Safely :
    (creates : ℕ → Bool) (fd : ℕ) (r : RecvResult) (m : MonitorServer)
    → WellServed m
    → Safely WellServed (on_readable creates fd r m)
unfolding on_readable
on_readable-Safely creates fd r m h =
    on_found (fd_find fd m.qt_clients) (fd_find-Found fd m.qt_clients h)
  where
    on_found :
        (o : Option QtClient)
        → Found fd o
        → Safely WellServed (elim o [ none ↦ done m | some c ↦ on_recv creates fd c r m ])
    on_found none hc = h
    on_found (some c) hc = on_recv-Safely creates fd c r m hc h
