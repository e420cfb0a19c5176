-- ===== src/Json.antt =====
-- src/json.h, src/json.cpp: the JSON values, the parser and the serializer.
pub mod Value
pub mod Strings
pub mod Parser
pub mod Dump
pub mod Errors
