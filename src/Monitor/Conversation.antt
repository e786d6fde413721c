-- ===== src/Monitor/Conversation.antt =====
-- The conversation of the monitor server (media/MonitorServer.cc) and a viewer
-- (car_detect_qt/monitorclientwidget.cpp) about a camera.
pub mod Texts
pub mod Words
pub mod Lines
pub mod ByViewer
pub mod Reply
pub mod ByServer
pub mod Agreed
