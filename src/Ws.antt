-- ===== src/Ws.antt =====
-- src/websocket.cpp: the RFC 6455 client.
pub mod Frame
pub mod RoundTrip
pub mod Stream
pub mod Upgrade
pub mod Client
