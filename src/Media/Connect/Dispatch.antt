-- ===== src/Media/Connect/Dispatch.antt =====
-- media/RtspConnect.cc: `handleRequest`.
use car_detect.Prelude.{ℕ, Bool, [], Bytes, if◌then◌else◌, codes, str_eq}
use car_detect.Effect.{Outcome, done}
use car_detect.Media.Requests.{Request, parse_request, extract_cseq}
use car_detect.Media.Connect.{Server, send_response, handle_options, handle_announce}
use car_detect.Media.Connect.Setup.{handle_setup}
use car_detect.Media.Connect.Record.{handle_record}
use car_detect.Media.Connect.Release.{handle_teardown}

-- The methods that are told apart.
pub data Method : Type 0 where
  options announce setup record_ teardown other : Method

unfoldable pub method_of : Bytes → Method
method_of m =
    if str_eq m (codes "OPTIONS")
    then options
    else if str_eq m (codes "ANNOUNCE")
    then announce
    else if str_eq m (codes "SETUP")
    then setup
    else if str_eq m (codes "RECORD")
    then record_
    else if str_eq m (codes "TEARDOWN")
    then teardown
    else other

unfoldable pub dispatch :
    (ℕ → Bool) → (Bytes → Bool) → Method → Bytes → Request → Server → Outcome Server
unfolding handle_options handle_announce handle_setup handle_record handle_teardown send_response
dispatch creates removes options request r w = done (handle_options (extract_cseq r.headers) w)
dispatch creates removes announce request r w =
    done (handle_announce request r.headers (extract_cseq r.headers) w)
dispatch creates removes setup request r w =
    done (handle_setup r.url r.headers (extract_cseq r.headers) w)
dispatch creates removes record_ request r w =
    handle_record creates r.headers (extract_cseq r.headers) w
dispatch creates removes teardown request r w =
    handle_teardown removes r.headers (extract_cseq r.headers) w
dispatch creates removes other request r w =
    done (send_response 501 (codes "Not Implemented") [] (extract_cseq r.headers) w)

-- `handleRequest`.
unfoldable pub handle_request : (ℕ → Bool) → (Bytes → Bool) → Bytes → Server → Outcome Server
unfolding dispatch method_of
handle_request creates removes request w =
    let r = parse_request request in dispatch creates removes (method_of r.method) request r w
