-- ===== src/Client.antt =====
-- camera/rtsp_client.c: `main` and `video_stream_thread`.
pub mod Loop
pub mod Handshake
pub mod Video
