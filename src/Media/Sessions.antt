-- ===== src/Media/Sessions.antt =====
-- media/SessionManager.h and .cc: the sessions of the server. The time of a session's last activity,
-- which nothing reads, is left out.
pub mod Ids
use car_detect.Prelude.{
  ℕ, zero, suc, ◌+◌, ◌-◌, ◌/◌, ◌%◌, ◌^◌, Option, List, [], ◌∷◌, ◌++◌, Bytes, ltb, if◌then◌else◌,
}
use car_detect.Media.Text.{map_set, map_find, map_erase}

-- A UdpConnection: the addresses that it was made with. Sockets are reactor/UdpSocket.cc.
pub record UdpConnection : Type 0 where
  pub local_ip : Bytes
  pub local_port : ℕ
  pub peer_ip : Bytes
  pub peer_port : ℕ

pub record MediaSession : Type 0 where
  pub session_id : Bytes
  pub video_rtp_conn : Option UdpConnection
  pub video_rtcp_conn : Option UdpConnection
  pub audio_rtp_conn : Option UdpConnection
  pub audio_rtcp_conn : Option UdpConnection
  pub transport_type : Bytes
  pub stream_name : Bytes

-- `next_udp_port` is an `int`, the counter has 32 bits.
pub record SessionManager : Type 0 where
  pub sessions : List (Bytes × MediaSession)
  pub next_udp_port : ℕ
  pub session_counter : ℕ

unfoldable pub new_manager : SessionManager
new_manager = record { sessions = []; next_udp_port = 10000; session_counter = 0 }

abbrev pub hex_digit : ℕ → ℕ
hex_digit n = if ltb n 10 then b'0' + n else b'a' + (n - 10)

-- `std::hex`, in at most `digits` digits.
unfoldable pub print_hex : ℕ → ℕ → Bytes
print_hex zero n = []
print_hex (suc digits) n =
    let more = print_hex digits (n / 16) in
    if ltb n 16 then hex_digit n ∷ [] else more ++ (hex_digit (n % 16) ∷ [])

-- The time has 64 bits, so 16 digits; the counter 8.
unfoldable pub session_id_of : ℕ → ℕ → Bytes
unfolding print_hex
session_id_of time counter = print_hex 16 time ++ (b'-' ∷ print_hex 8 counter)

abbrev pub counted : SessionManager → SessionManager
counted m = record m { session_counter = (m.session_counter + 1) % 2 ^ 32 }

unfoldable pub generate_session_id : ℕ → SessionManager → Bytes × SessionManager
unfolding session_id_of
generate_session_id time m = let m' = counted m in (session_id_of time m'.session_counter, m')

unfoldable pub add_session : MediaSession → SessionManager → SessionManager
add_session s m = counted (record m { sessions = map_set s.session_id s m.sessions })

unfoldable pub remove_session : Bytes → SessionManager → SessionManager
remove_session id m = record m { sessions = map_erase id m.sessions }

unfoldable pub get_session : Bytes → SessionManager → Option MediaSession
get_session id m = map_find id m.sessions

-- The port is returned in 16 bits; none is ever given back.
unfoldable pub allocate_udp_ports : SessionManager → ℕ × SessionManager
allocate_udp_ports m = (m.next_udp_port % 2 ^ 16, record m { next_udp_port = m.next_udp_port + 2 })
