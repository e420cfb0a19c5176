-- ===== src/Session/Outbox.antt =====
-- src/session.h, src/session.cpp: the retransmission buffer.
pub mod Laws
use haiku_mgmt_agent.Prelude.{
  ℕ, suc, ◌+◌, ◌-◌, Bool, true, false, Option, none, some, List, [], ◌∷◌, ◌++◌, leb, ltb,
  if◌then◌else◌, length, drop,
}
use haiku_mgmt_agent.Prelude.Int.{ℤ, pos, leb_ℤ}
use haiku_mgmt_agent.Prelude.Text.{Bytes}

-- Times are milliseconds since the epoch, sequence numbers `int64_t`.
pub record Entry : Type 0 where
  pub seq : ℤ
  pub frame : Bytes
  pub last_sent_ms : ℕ
  pub resends : ℕ

abbrev pub Outbox : Type 0
Outbox = List Entry

abbrev pub resend_interval_ms : ℕ
resend_interval_ms = 250

abbrev pub max_resends : ℕ
max_resends = 240

unfoldable pub max_buffered : ℕ
max_buffered = 8192

unfoldable pub add : Outbox → ℤ → Bytes → ℕ → Outbox
add buf seq frame now_ms =
    let kept = if leb max_buffered (length buf) then drop 1 buf else buf in
    kept ++ (record { seq = seq; frame = frame; last_sent_ms = now_ms; resends = 0 } ∷ [])

unfoldable pub ack : Outbox → ℤ → Outbox
ack [] seq = []
ack (e ∷ buf) seq = let rest = ack buf seq in if leb_ℤ e.seq seq then rest else e ∷ buf

-- The frame to send again, if any, the flag `dead`, and the buffer with the resend recorded.
pub record Due : Type 0 where
  pub resend : Option Bytes
  pub dead : Bool
  pub buffer : Outbox

unfoldable pub due_resend : Outbox → ℕ → Due
due_resend [] now_ms = record { resend = none; dead = false; buffer = [] }
due_resend (front ∷ buf) now_ms =
    if ltb now_ms (front.last_sent_ms + resend_interval_ms)
    then record { resend = none; dead = false; buffer = front ∷ buf }
    else if leb max_resends front.resends
    then record { resend = none; dead = true; buffer = front ∷ buf }
    else record {
      resend = some front.frame;
      dead = false;
      buffer = record front { last_sent_ms = now_ms; resends = front.resends + 1 } ∷ buf;
    }
