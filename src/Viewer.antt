-- ===== src/Viewer.antt =====
-- car_detect_qt/: the viewer.
pub mod Reassembler
pub mod Delivery
pub mod Client
