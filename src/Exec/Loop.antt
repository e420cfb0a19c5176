-- ===== src/Exec/Loop.antt =====
-- src/exec.cpp: the loop that reads the two pipes and stops a child that runs too long.
use haiku_mgmt_agent.Prelude.{
  ℕ, ◌+◌, ◌-◌, ◌*◌, min, Bool, true, false, not, ◌&&◌, ◌||◌, List, [], ◌∷◌, ◌++◌, if◌then◌else◌,
  ltb, leb, length, take,
}
use haiku_mgmt_agent.Prelude.Int.{ℤ, pos}
use haiku_mgmt_agent.Prelude.Text.{Bytes, codes}

abbrev pub default_timeout_seconds : ℕ
default_timeout_seconds = 3600

abbrev pub grace_ms : ℕ
grace_ms = 5 * 1000

-- `timeout_seconds <= 0` means the default.
unfoldable pub timeout_or_default : ℤ → ℕ
timeout_or_default (pos n) = if leb n 0 then default_timeout_seconds else n
timeout_or_default _ = default_timeout_seconds

-- What `::read` gives on a descriptor that `::poll` reports: a byte and more, the end (or an error), or an
-- interruption; `quiet` is a descriptor without an event, or one that is not polled.
pub data Event : Type 0 where
  quiet : Event
  got : ℕ → Bytes → Event
  again : Event
  ended : Event

-- What one `::poll` returns: an error that is not EINTR, nothing, or the events of the two pipes.
pub data Polled : Type 0 where
  poll_failed : Bytes → Polled
  nothing : Polled
  ready : Event → Event → Polled

-- One pass of the loop: what `::poll` returns, the clock behind the reads, and whether a cancel is
-- requested then.
pub record Pass : Type 0 where
  pub polled : Polled
  pub now : ℕ
  pub requested : Bool

-- A stream as it is captured; `clipped` is set when bytes were dropped.
pub record Capture : Type 0 where
  pub held : Bytes
  pub clipped : Bool
  pub is_open : Bool

pub data Signal : Type 0 where
  sigterm sigkill : Signal

-- The locals of the loop. `signals` are the signals sent to the process group, with their times,
-- oldest first; `broke` is set where the code leaves the loop by `break`.
pub record Shell : Type 0 where
  pub out : Capture
  pub err : Capture
  pub killed_term : Bool
  pub killed_kill : Bool
  pub kill_deadline : ℕ
  pub timed_out : Bool
  pub cancelled : Bool
  pub error : Bytes
  pub signals : List (Signal × ℕ)
  pub broke : Bool

abbrev pub fresh : Capture
fresh = record { held = []; clipped = false; is_open = true }

abbrev pub started : Shell
started = record {
  out = fresh;
  err = fresh;
  killed_term = false;
  killed_kill = false;
  kill_deadline = 0;
  timed_out = false;
  cancelled = false;
  error = [];
  signals = [];
  broke = false;
}

-- The timeout of `::poll`.
unfoldable pub wait_ms : ℕ → Shell → ℕ → ℕ
wait_ms deadline s now = min 1000 ((if s.killed_term then s.kill_deadline else deadline) - now)

-- `sink->append(...)` within `max_capture_bytes`.
unfoldable pub keep : ℕ → Bytes → Capture → Capture
keep max_capture s c =
    let room = max_capture - length c.held in
    if ltb (length c.held) max_capture
    then record c {
      held = c.held ++ take (min room (length s)) s;
      clipped = c.clipped || ltb room (length s);
    }
    else record c { clipped = true }

-- A pipe that is closed is not polled any more.
unfoldable pub on_event : ℕ → Event → Capture → Capture
unfolding keep
on_event max_capture quiet c = c
on_event max_capture (got b s) c = if c.is_open then keep max_capture (b ∷ s) c else c
on_event max_capture again c = c
on_event max_capture ended c = record c { is_open = false }

-- The deadlines and the cancel flag, behind the reads.
unfoldable pub check_deadlines : ℕ → ℕ → Bool → Shell → Shell
check_deadlines deadline now requested s =
    let cancel_now = requested && not s.killed_term in
    if cancel_now || (not s.killed_term && leb deadline now)
    then record s {
      cancelled = s.cancelled || cancel_now;
      timed_out = s.timed_out || not cancel_now;
      killed_term = true;
      kill_deadline = now + grace_ms;
      signals = s.signals ++ ((sigterm, now) ∷ []);
    }
    else if s.killed_term && (not s.killed_kill && leb s.kill_deadline now)
    then record s { killed_kill = true; signals = s.signals ++ ((sigkill, now) ∷ []); broke = true }
    else s

-- The reads on what `::poll` returned, and the checks behind them.
unfoldable pub pass_on : ℕ → ℕ → Polled → ℕ → Bool → Shell → Shell
unfolding on_event check_deadlines
pass_on max_capture deadline (poll_failed e) now requested s = record s {
  error = codes "poll: " ++ e;
  broke = true;
}
pass_on max_capture deadline nothing now requested s = check_deadlines deadline now requested s
pass_on max_capture deadline (ready o e) now requested s =
    check_deadlines deadline now requested
      (record s { out = on_event max_capture o s.out; err = on_event max_capture e s.err })

unfoldable pub pass : ℕ → ℕ → Pass → Shell → Shell
unfolding pass_on
pass max_capture deadline p s = pass_on max_capture deadline p.polled p.now p.requested s

-- `while (out_open || err_open)`
unfoldable pub is_running : Shell → Bool
is_running s = not s.broke && (s.out.is_open || s.err.is_open)

-- The loop over the passes the system gives it; it stands still once it has ended.
unfoldable pub run : ℕ → ℕ → List Pass → Shell → Shell
unfolding is_running pass
run max_capture deadline [] s = s
run max_capture deadline (p ∷ ps) s =
    let next = run max_capture deadline ps (pass max_capture deadline p s) in
    if is_running s then next else s
