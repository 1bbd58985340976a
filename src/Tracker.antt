-- ===== src/Tracker.antt =====
-- core/tracker: the announces to a tracker.
pub mod Udp
pub mod Announcer
pub mod Requests
