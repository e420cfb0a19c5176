-- ===== src/Runner.antt =====
-- src/runner.cpp: documents, their parameters and their steps.
pub mod Output
pub mod Params
pub mod Document
pub mod Reply
