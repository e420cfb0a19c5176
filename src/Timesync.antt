-- ===== src/Timesync.antt =====
-- src/timesync.cpp: `ensure_clock`.
use haiku_mgmt_agent.Prelude.{Bool, true, false, not, ◌&&◌, Option, none, some, if◌then◌else◌}
use haiku_mgmt_agent.Prelude.Int.{ℤ, pos, pos_part, neg_part, sub_ℕ, add_ℤ, ltb_ℤ}
use haiku_mgmt_agent.Aws.Imds.{server_time}
use haiku_mgmt_agent.Http.{Response}

pub record Result : Type 0 where
  pub checked : Bool
  pub adjusted : Bool
  pub drift : ℤ

abbrev pub negate : ℤ → ℤ
negate n = sub_ℕ (neg_part n) (pos_part n)

-- The clock's new value, where it is set, and the result. `settable` says whether `clock_settime` succeeds.
unfoldable pub ensure_clock : Response → ℤ → Bool → ℤ → Bool → Option ℤ × Result
unfolding server_time
ensure_clock answer local allow_set max_drift settable = elim (server_time answer) [
  | none ↦ (none, record { checked = false; adjusted = false; drift = pos 0 })
  | some reference ↦
      let drift = add_ℤ reference (negate local) in
      let kept : Result = record { checked = true; adjusted = false; drift = drift } in
      if ltb_ℤ (negate max_drift) drift && ltb_ℤ drift max_drift
      then (none, kept)
      else if not allow_set
      then (none, kept)
      else if not settable
      then (none, kept)
      else (some reference, record kept { adjusted = true })
]
