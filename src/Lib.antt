-- ===== src/Lib.antt =====
-- A verification library for car_detect: the program in camera/ that takes pictures, encodes them and
-- pushes them as H.264 over RTP to an RTSP server, that server's connections in media/, and the
-- viewer's reassembly of the pictures in car_detect_qt/.
--
-- The parts, from below:
-- - Os: the system calls as an interface, and the laws of write(2) and of descriptors. Effect: what
--   code with effects is, an action on the outside world that ends in `done`, in `crash` (undefined
--   behaviour, or the end of the program) or in `stuck` (out of rounds, or a call that waits for ever).
-- - Tcp, Udp, Kcp: camera/tcp.c, camera/udp.c and camera/kcp.c, function by function. The KCP
--   library (camera/ikcp.c, a copy of another project's) is an interface, `KcpLib`.
-- - Rtsp: camera/rtsp.c and camera/rtsp.h. `Session` has the session and its state, `Text` what the
--   code uses of the C library's string functions, `Requests` the texts and the sending of the six
--   requests, `Setup` the parsing of the SETUP response, `Describe` that of the
--   DESCRIBE response, whose loop has a round of fuel for each byte and takes one at least in each.
-- - Rtp: camera/rtsp.c. `Header` has build_rtp_header, and parseRtp of
--   car_detect_qt/h264rtpreassembler.h; `Send` has send_rtp_over_tcp and rtp_send_h264; `Packets` is
--   a description of the packets of a NAL unit that the sending code implements.
-- - AnnexB: split_annexb_nalus of camera/rtsp_client.c.
-- - Client: camera/rtsp_client.c. `Handshake` has the handshake and the cleanup of `main`, `Loop` its
--   event loop, and `Video` the thread that sends the pictures.
-- - Viewer: H264RtpReassembler of car_detect_qt/h264rtpreassembler.h and .cpp, with one child module for
--   single packets, one for the packets of a unit, one for those of a picture, and one for its state
--   between packets; `Delivery` puts it behind the camera's sending thread. `Client` is the viewer's side
--   of the conversation with the monitor server, car_detect_qt/monitorclientwidget.h and .cpp.
-- - Media: media/RtspConnect.h and .cc and media/SessionManager.h and .cc. `Text` has what they use of
--   the C++ library, `Requests` parseRequest, extractCSeq and extractBody, `Transport` parseTransport,
--   `Sessions` the session manager, and `Connect` the connection: its construction and responses, and
--   in children `Setup`, `Record`, `Release` and `Dispatch` the requests. `Camera` has the camera's
--   texts as the server reads them, and the other way round.
-- - Reactor: `Framing` is recvOneItem of reactor/TcpConnection.cc, which cuts a connection's bytes into
--   requests and packets; `Timers` is reactor/TimerManager.h and .cc; `Pool` is
--   reactor/TaskQueue.h and .cc and reactor/ThreadPool.h and .cc, whose threads take turns; `Sending`
--   is send and handleWriteCallback of reactor/TcpConnection.cc, over writen of reactor/SocketIO.cc.
-- - Monitor: media/MonitorServer.h and .cc, the server of the viewers: in children `Requests` its
--   parseRequest and sendRespond, `Viewers` acceptLoop on the viewers' connections, `Cameras` addCam and
--   removeCam, `Datagrams` the datagrams, onNaluUdp and onNaluTcp, `Joining` the end of a KCP thread.
--   `System` puts them together, and `Conversation` puts the server and a viewer together.
-- - Yuv: yuv422p_to_yuv420p of camera/v4l2.c.
-- - Tests: a system in memory on which the theorems are tried.
--
-- The video thread splits what the encoder returns (AnnexB), sends the units (Rtp) over TCP or KCP,
-- while `main` drives KCP and reads the RTSP connection and the datagrams (Client). The server answers
-- the requests of the handshake (Media), and the viewer puts together what has been sent (Viewer). The
-- server tells the monitor server of the cameras that come and go, which tells the viewers and sends
-- them the video (Monitor).
--
-- Names are those of the C code. An `int` that is a length or -1 is a `Ret`; a descriptor that may be
-- negative is an `Option ℕ`; a byte is a number, and what the C code cuts to 8, 16 or 32 bits is
-- written with `%`. A string stands without its terminator.
--
-- Loops have fuel. `tcp_write_loop`, `drain`, `event_loop` and `video_loop` wait for the outside
-- world, and their fuel is a parameter: a write needs a round for each byte and each signal, the
-- reading of datagrams one more than datagrams wait, and the two main loops run until they are told
-- to stop. `fu_loop`, `split_loop` and `print_digits` take a byte or a digit in each round, and their
-- callers give as many rounds as there are bytes or digits.
--
-- A connection of the server is its object, the shared session manager, and a list of what it has done
-- to the outside (`Event`); a handler is a function from that state to the next, or ends in `crash`
-- where the C++ code reads what was never set, goes through a null pointer, throws, or ends the program.
-- `ikcp_create` is a test that tells for which numbers it gives a control block, and removeCam of the
-- monitor server one that tells for which sessions it comes back. A `std::map` is a list
-- in the order of its keys, a stream the bytes that are left.
--
-- The monitor server is its maps and a list of what it has done (`Effect`). Its threads are modelled
-- where one waits for another: two of them take turns, in any order. removeCam is given the viewers
-- whose threads are at their locks, for which it waits for ever. The join of the camera's video thread,
-- in the cleanup, may come back, wait for ever, or be undefined.
--
-- Not modelled: printing and logging; the rest of the camera and the encoder (camera/v4l2.c), which
-- are the interfaces `Device` and `Camera`; the command line and the start of `main`; the
-- interleaving of the other threads, of the camera and of the server; the Qt viewer but for the
-- reassembly and the conversation with the monitor server; the threads and callbacks that drive KCP in
-- the server and in the monitor server; the sockets of the monitor server (media/MonitorServer.cc) and
-- the wait for them; the rest of the reactor (reactor/), its event loops and sockets, and the server's
-- `main` (RtspServer.cc).
pub mod Prelude
pub mod Effect
pub mod Os
pub mod Tcp
pub mod Udp
pub mod Kcp
pub mod Rtsp
pub mod Rtp
pub mod AnnexB
pub mod Client
pub mod Viewer
pub mod Media
pub mod Reactor
pub mod Yuv
pub mod Monitor
pub mod Tests
