-- ===== src/Rtp.antt =====
-- RTP packets: camera/rtsp.c builds them (`Header`, `Send`), car_detect_qt/h264rtpreassembler.h
-- reads them (`Header`); `Packets` describes them without the sending.
pub mod Header
pub mod Send
pub mod Packets
