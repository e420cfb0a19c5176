-- ===== src/Mgs.antt =====
-- src/mgs.cpp: the binary `AgentMessage` of the Message Gateway Service.
pub mod Uuid
pub mod Message
pub mod Channel
pub mod RoundTrip
