-- ===== src/Reactor.antt =====
-- reactor/: the event loops below the media server.
pub mod Framing
pub mod Timers
pub mod Pool
pub mod Sending
