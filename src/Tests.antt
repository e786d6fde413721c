-- ===== src/Tests.antt =====
-- A small system to run the camera on, and the theorems at concrete inputs.
mod Machine
mod Examples
mod Requests
mod Viewing
mod Serving
mod Reacting
mod Sending
mod Monitoring
