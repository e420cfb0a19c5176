-- ===== src/Util.antt =====
-- src/util.cpp: encoders, time, strings and versions.
pub mod Text
pub mod Number
pub mod Time
pub mod Pieces
pub mod Codec
pub mod Version
