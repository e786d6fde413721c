-- ===== src/Media/Connect/Setup.antt =====
-- media/RtspConnect.cc: `handleSetup`.
use car_detect.Prelude.{
  ℕ, ◌+◌, ◌%◌, ◌^◌, none, some, ◌&&◌, [], ◌∷◌, ◌++◌, Bytes, ◌==◌, if◌then◌else◌, codes,
}
use car_detect.Rtsp.Session.{ready}
use car_detect.Rtsp.Text.{decimal}
use car_detect.Media.Text.{map_find}
use car_detect.Media.Requests.{Headers}
use car_detect.Media.Transport.{Transport, TransportType, udp, tcp, has, parse_transport}
use car_detect.Media.Sessions.{UdpConnection, SessionManager, allocate_udp_ports}
use car_detect.Media.Connect.{udp_added, Server, emit, set_session, set_state, send_response}

-- The ports that the client asks for, or two that the manager gives; `offset` is 2 for sound.
unfoldable pub choose_ports : ℕ → Transport → SessionManager → (ℕ × ℕ) × SessionManager
unfolding allocate_udp_ports
choose_ports offset t m =
    if t.server_rtp_port == 0
    then (let (base, m') = allocate_udp_ports m in
        (((base + offset) % 2 ^ 16, (base + offset + 1) % 2 ^ 16), m'))
    else ((t.server_rtp_port, t.server_rtcp_port), m)

abbrev pub connection_to : Server → ℕ → ℕ → UdpConnection
connection_to w local_port peer_port = record {
  local_ip = w.connect.server_ip;
  local_port = local_port;
  peer_ip = w.connect.client_ip;
  peer_port = peer_port;
}

-- The socket for one of the two tracks, and the ports that are answered.
unfoldable pub open_track : Bytes → Transport → Server → (ℕ × ℕ) × Server
unfolding choose_ports
open_track url t w =
    if has url (codes "trackID=0")
    then (let (ports, m) = choose_ports 0 t w.manager in
        let conn = connection_to w ports.0 t.client_rtp_port in
        (
          ports,
          emit (udp_added conn) (
              set_session (record w.connect.session { video_rtp_conn = some conn })
                (record w { manager = m })),
        ))
    else if has url (codes "trackID=1")
    then (let (ports, m) = choose_ports 2 t w.manager in
        let conn = connection_to w ports.0 t.client_rtp_port in
        (
          ports,
          emit (udp_added conn) (
              set_session (record w.connect.session { audio_rtp_conn = some conn })
                (record w { manager = m })),
        ))
    else ((t.server_rtp_port, t.server_rtcp_port), w)

unfoldable pub udp_answer : Transport → ℕ × ℕ → Bytes
udp_answer t (rtp, rtcp) =
    codes "RTP/AVP/UDP;unicast;client_port="
    ++ (decimal t.client_rtp_port
        ++ (b'-' ∷ decimal t.client_rtcp_port
            ++ (codes ";server_port=" ++ (decimal rtp ++ (b'-' ∷ decimal rtcp)))))

-- Where no channels are asked for, they are 0 and 1.
unfoldable pub tcp_answer : Transport → Bytes
tcp_answer t =
    let rtcp = if t.rtp_channel == 0 && t.rtcp_channel == 0 then 1 else t.rtcp_channel in
    codes "RTP/AVP/TCP;unicast;interleaved=" ++ (decimal t.rtp_channel ++ (b'-' ∷ decimal rtcp))

-- The end of a SETUP that succeeds. The map's order puts "Session" first.
unfoldable pub set_up_done : Bytes → ℕ → Server → Server
unfolding send_response
set_up_done answer cseq w =
    send_response 200 (codes "OK")
      ((codes "Session", w.connect.session.session_id ++ codes ";timeout=60")
        ∷ (codes "Transport", answer)
        ∷ [])
      cseq (set_state ready w)

abbrev pub type_name : TransportType → Bytes
type_name udp = codes "UDP"
type_name tcp = codes "TCP"

abbrev pub with_type : Transport → Server → Server
with_type t w =
    set_session (record w.connect.session { transport_type = type_name t.transport_type }) w

abbrev pub by_type : TransportType → Server → Server → Server
by_type udp for_udp for_tcp = for_udp
by_type tcp for_udp for_tcp = for_tcp

pub by_type_cases :
    (P : Server → Type 0) (kind : TransportType) (for_udp for_tcp : Server)
    → P for_udp
    → P for_tcp
    → P (by_type kind for_udp for_tcp)
by_type_cases P udp for_udp for_tcp h k = h
by_type_cases P tcp for_udp for_tcp h k = k

unfoldable pub set_up_udp : Bytes → ℕ → Transport → Server → Server
unfolding open_track udp_answer set_up_done
set_up_udp url cseq t w =
    let (ports, w') = open_track url t w in set_up_done (udp_answer t ports) cseq w'

-- `parseTransport` tells of no third type, so the answer 461 is never sent.
unfoldable pub set_up_transport : Bytes → ℕ → Transport → Server → Server
unfolding set_up_udp tcp_answer set_up_done
set_up_transport url cseq t w =
    by_type t.transport_type (set_up_udp url cseq t (with_type t w))
      (set_up_done (tcp_answer t) cseq (with_type t w))

unfoldable pub handle_setup : Bytes → Headers → ℕ → Server → Server
unfolding send_response set_up_transport
handle_setup url headers cseq w = elim (map_find (codes "transport") headers) [
  | none ↦ send_response 400 (codes "Bad Request") [] cseq w
  | some transport ↦ elim (parse_transport transport) [
    | none ↦ send_response 400 (codes "Bad Request") [] cseq w
    | some t ↦ set_up_transport url cseq t w
  ]
]
