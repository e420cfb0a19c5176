-- ===== src/Exec/Reap.antt =====
-- src/exec.cpp: the truncation marks, the reaping of the child, and the result.
use haiku_mgmt_agent.Prelude.{ℕ, ◌+◌, Bool, true, false, List, [], ◌∷◌, ◌++◌, if◌then◌else◌, ltb}
use haiku_mgmt_agent.Prelude.Int.{ℤ, pos, negsuc}
use haiku_mgmt_agent.Prelude.Text.{Bytes, codes}
use haiku_mgmt_agent.Exec.Loop.{Capture, Shell}

-- The status that `::waitpid` stores.
pub data WaitStatus : Type 0 where
  exited : ℕ → WaitStatus
  killed_by : ℕ → WaitStatus
  other_status : WaitStatus

-- One call of `::waitpid` with WNOHANG, and the clock behind it where it is read.
pub data Wait : Type 0 where
  reaped : WaitStatus → Wait
  wait_interrupted : Wait
  wait_failed : Bytes → Wait
  not_yet : ℕ → Wait

-- `waited` has the status; `given_up` the error of a child that could not be reaped, and whether it was
-- sent a last SIGKILL.
pub data Reaped : Type 0 where
  waited : WaitStatus → Reaped
  given_up : Bytes → Bool → Reaped
  still_waiting : Reaped

abbrev pub reap_ms : ℕ
reap_ms = 10000

abbrev pub not_reaped : Bytes
not_reaped = codes "child did not reap within 10s after exit/kill (see TESTING.md, open question 5)"

unfoldable pub reap : ℕ → List Wait → Reaped
reap reap_deadline [] = still_waiting
reap reap_deadline (reaped status ∷ more) = waited status
reap reap_deadline (wait_interrupted ∷ more) = reap reap_deadline more
reap reap_deadline (wait_failed e ∷ more) = given_up (codes "waitpid: " ++ e) false
reap reap_deadline (not_yet now ∷ more) =
    let later = reap reap_deadline more in
    if ltb reap_deadline now then given_up not_reaped true else later

pub record Result : Type 0 where
  pub exit_code : ℤ
  pub timed_out : Bool
  pub cancelled : Bool
  pub signalled : Bool
  pub signal_number : ℕ
  pub stdout_data : Bytes
  pub stderr_data : Bytes
  pub error : Bytes

unfoldable pub mark_clipped : Capture → Bytes
mark_clipped c = if c.clipped then c.held ++ codes "\n--output truncated--" else c.held

-- The result before the child is reaped.
unfoldable pub before_reap : Shell → Result
unfolding mark_clipped
before_reap s = record {
  exit_code = negsuc 0;
  timed_out = s.timed_out;
  cancelled = s.cancelled;
  signalled = false;
  signal_number = 0;
  stdout_data = mark_clipped s.out;
  stderr_data = mark_clipped s.err;
  error = s.error;
}

unfoldable pub with_status : WaitStatus → Result → Result
with_status (exited code) r = record r { exit_code = pos code }
with_status (killed_by signal) r = record r {
  signalled = true;
  signal_number = signal;
  exit_code = pos (128 + signal);
}
with_status other_status r = r

unfoldable pub finish : Shell → Reaped → Result
unfolding before_reap with_status
finish s (waited status) = with_status status (before_reap s)
finish s (given_up e killed) = record (before_reap s) { error = e }
finish s still_waiting = before_reap s
