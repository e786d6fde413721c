-- ===== src/Rtsp.antt =====
-- The RTSP client of camera/rtsp.c and camera/rtsp.h.
pub mod Session
pub mod Text
pub mod Requests
pub mod Setup
pub mod Describe
