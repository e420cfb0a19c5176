-- ===== src/Tests.antt =====
-- Runs of the model on concrete inputs.
mod Data
mod Wire
mod Documents
mod Loop
mod Network
mod Process
