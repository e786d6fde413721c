-- ===== src/Media/Camera.antt =====
-- What the server in media/ makes of what the camera in camera/ sends, and the other way round.
pub mod Numbers
pub mod Lines
pub mod Recording
pub mod Accepted
pub mod Search
pub mod Ids
pub mod Answers
pub mod Agreed
