-- ===== src/Patch.antt =====
-- src/patch.h, src/patch.cpp: Patch Manager over pkgman.
pub mod Transaction
pub mod Inventory
pub mod Baseline
pub mod Steps
