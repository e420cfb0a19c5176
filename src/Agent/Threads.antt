-- ===== src/Agent/Threads.antt =====
-- src/main.cpp: the loops that `main` starts around the agent.
use haiku_mgmt_agent.Prelude.{
  ℕ, ◌+◌, ◌*◌, ◌%◌, ◌≤◌, arith, min, Bool, true, false, not, ◌||◌, Option, none, some, List, [],
  ◌∷◌, if◌then◌else◌, ltb, leb, All, by_test,
}
use haiku_mgmt_agent.Aws.Imds.{InstanceIdentity, is_valid}

abbrev pub identity_attempts : ℕ
identity_attempts = 20

-- The attempts to read the identity: what each gives, and whether the stop flag is set before it.
unfoldable pub identify : ℕ → List (Bool × InstanceIdentity) → Option InstanceIdentity
unfolding is_valid
identify attempts [] = none
identify attempts ((stopping, id) ∷ rest) =
    let later = identify (attempts + 1) rest in
    if stopping || not (leb attempts identity_attempts)
    then none
    else if is_valid id
    then some id
    else later

-- One return of `session::run`, and the stop flag behind it.
pub record Ran : Type 0 where
  pub ok : Bool
  pub stopping : Bool

-- The seconds that the session thread waits after each return, from this backoff on.
unfoldable pub session_waits : ℕ → List Ran → List ℕ
session_waits backoff [] = []
session_waits backoff (r ∷ rest) =
    let later = session_waits (if r.ok then 2 else min (backoff * 2) 60) rest in
    if r.stopping then [] else (if r.ok then 2 else backoff) ∷ later

-- The pause of the poll loop behind `poll_once`, in milliseconds; `random` is what `rand_r` gives.
unfoldable pub poll_pause : (elapsed random : ℕ) → ℕ
poll_pause elapsed random = if ltb elapsed 1000 then 2000 + random % 500 else 0

abbrev pub health_interval : ℕ
health_interval = 300

abbrev pub update_interval : ℕ
update_interval = 3600

-- The rounds of the health and the updater threads, one for each reading of the clock (and the one behind
-- the work): whether the work is done in each.
unfoldable pub schedule : ℕ → ℕ → List (ℕ × ℕ) → List Bool
schedule interval next [] = []
schedule interval next ((now, after) ∷ rest) =
    let done = schedule interval (after + interval) rest in
    let waited = schedule interval next rest in if leb next now then true ∷ done else false ∷ waited

-- The session thread never reconnects at once, and never waits longer than a minute.
pub session_waits_bounded :
    (backoff : ℕ) (rs : List Ran)
    → 2 ≤ backoff
    → backoff ≤ 60
    → All (λ (n : ℕ). (2 ≤ n) × (n ≤ 60)) (session_waits backoff rs)
unfolding session_waits
session_waits_bounded backoff [] lo hi = tt
session_waits_bounded backoff (r ∷ rest) lo hi =
    by_test (All (λ (n : ℕ). (2 ≤ n) × (n ≤ 60))) r.stopping _ _ (λ stop. tt)
      (λ go. (
        by_test (λ n. (2 ≤ n) × (n ≤ 60)) r.ok _ _ (λ ok. (omega arith, omega arith))
            (λ bad. (lo, hi)),
        session_waits_bounded (if r.ok then 2 else min (backoff * 2) 60) rest
            (by_test (λ n. 2 ≤ n) r.ok _ _ (λ ok. omega arith) (λ bad. omega arith))
            (by_test (λ n. n ≤ 60) r.ok _ _ (λ ok. omega arith) (λ bad. omega arith)),
      ))
