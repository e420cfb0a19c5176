-- ===== src/Exec/Escalation.antt =====
-- How `run_shell` stops a child: SIGTERM, five seconds of grace, SIGKILL.
use haiku_mgmt_agent.Prelude.{ℕ, ◌+◌, ◌≤◌, ◌<◌, ◌≡◌, ◌⊎◌, Bool, true, false, List, [], ◌∷◌}
use haiku_mgmt_agent.Exec.Loop.{grace_ms, Signal, sigterm, sigkill, Shell}
use haiku_mgmt_agent.Exec.Reap.{Wait, not_yet, Reaped, given_up}

-- The signals that were sent, with what the result says of them: none; a SIGTERM at or behind the
-- deadline, of a command that timed out; a SIGTERM for a cancelled command; and behind either a SIGKILL,
-- not before the grace is over.
pub data Stopped (deadline : ℕ) : List (Signal × ℕ) → Bool → Bool → Type 0 where
  undisturbed : Stopped deadline [] false false
  late : {t : ℕ} → deadline ≤ t → Stopped deadline ((sigterm, t) ∷ []) true false
  on_request : {t : ℕ} → Stopped deadline ((sigterm, t) ∷ []) false true
  late_killed :
      {t u : ℕ}
      → deadline ≤ t
      → t + grace_ms ≤ u
      → Stopped deadline ((sigterm, t) ∷ (sigkill, u) ∷ []) true false
  request_killed :
      {t u : ℕ} → t + grace_ms ≤ u → Stopped deadline ((sigterm, t) ∷ (sigkill, u) ∷ []) false true

-- The same with the flags of the loop: `killed_term`, `killed_kill`, the deadline of the SIGKILL.
data Stage (deadline : ℕ) : Bool → Bool → ℕ → List (Signal × ℕ) → Bool → Bool → Type 0 where
  waiting : {k : ℕ} → Stage deadline false false k [] false false
  termed_late :
      {t : ℕ}
      → deadline ≤ t
      → Stage deadline true false (t + grace_ms) ((sigterm, t) ∷ []) true false
  termed_request : {t : ℕ} → Stage deadline true false (t + grace_ms) ((sigterm, t) ∷ []) false true
  killed_late :
      {t u : ℕ}
      → deadline ≤ t
      → t + grace_ms ≤ u
      → Stage deadline true true (t + grace_ms) ((sigterm, t) ∷ (sigkill, u) ∷ []) true false
  killed_request :
      {t u : ℕ}
      → t + grace_ms ≤ u
      → Stage deadline true true (t + grace_ms) ((sigterm, t) ∷ (sigkill, u) ∷ []) false true

abbrev IsStaged : ℕ → Shell → Type 0
IsStaged deadline s =
    Stage deadline s.killed_term s.killed_kill s.kill_deadline s.signals s.timed_out s.cancelled

abbrev pub IsIn : Wait → List Wait → Type 0
IsIn w [] = ⊥
IsIn w (v ∷ vs) = (w ≡ v) ⊎ IsIn w vs

-- The SIGKILL of the reaping: a child that a call of `::waitpid` left unreaped behind the reap deadline.
abbrev pub Lingered : ℕ → List Wait → Reaped → Type 0
Lingered reap_deadline waits (given_up e true) =
    (now : ℕ) × ((reap_deadline < now) × IsIn (not_yet now) waits)
Lingered reap_deadline waits _ = Unit
