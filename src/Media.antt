-- ===== src/Media.antt =====
-- media/: the server that the camera pushes to.
pub mod Text
pub mod Requests
pub mod Transport
pub mod Sessions
pub mod Connect
pub mod Camera
