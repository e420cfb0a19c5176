-- ===== src/Session.antt =====
-- src/session.h, src/session.cpp: Session Manager.
pub mod Outbox
pub mod Start
pub mod Control
pub mod Data
pub mod Sending
pub mod Handshaking
pub mod Bridging
