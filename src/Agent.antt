-- ===== src/Agent.antt =====
-- src/main.cpp: the message loop of the agent.
pub mod Seen
pub mod InFlight
pub mod Handle
pub mod Once
pub mod Reached
pub mod Order
pub mod Worker
pub mod Options
pub mod Threads
