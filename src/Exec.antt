-- ===== src/Exec.antt =====
-- src/exec.cpp: `run_shell` in the parent, from the fork to the result.
pub mod Loop
pub mod Capture
pub mod Escalation
pub mod Reap
pub mod Ends
