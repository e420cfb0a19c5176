-- ===== src/Tests/Process.antt =====
-- Runs of the script runner, the clock's arithmetic, the metadata service and the session handshake.
use haiku_mgmt_agent.Prelude.{
  ℕ, ◌+◌, ◌≤◌, ◌<◌, ◌≡◌, refl, arith, Bool, true, false, Option, none, some, List, [], ◌∷◌, ◌++◌,
  replicate,
}
use haiku_mgmt_agent.Prelude.Int.{pos, increment}
use haiku_mgmt_agent.Prelude.Text.{Bytes, codes}
use haiku_mgmt_agent.Util.Time.{Tm, days_from_civil}
use haiku_mgmt_agent.Util.Time.Civil.{IsDate, next_day, days_of, days_from_civil_next}
use haiku_mgmt_agent.Util.Time.Parse.{parse_http_date}
use haiku_mgmt_agent.Exec.Loop.{quiet, got, ended, nothing, ready, Pass, started, is_running, run}
use haiku_mgmt_agent.Exec.Capture.{Holds, all_out, all_err, run_captures}
use haiku_mgmt_agent.Exec.Ends.{run_ends}
use haiku_mgmt_agent.Exec.Reap.{Wait, reap_ms, not_reaped, not_yet, given_up, reap}
use haiku_mgmt_agent.Aws.Imds.{Imds, Network, get_token, IsGood, get_token-IsGood}
use haiku_mgmt_agent.Mgs.Message.{AgentMessage, serialize}
use haiku_mgmt_agent.Session.Handshaking
use haiku_mgmt_agent.Session.Handshaking.{
  frame, Turn, Completed, await_response, await_response-Completed,
}
use haiku_mgmt_agent.Tests.Data.{whole_numbers}

-- Two reads in time, a pass at the deadline, and one that is five seconds late.
abbrev in_time : Pass
in_time = record { polled = ready (got b'a' (codes "bc")) quiet; now = 10; requested = false }

abbrev due : Pass
due = record { polled = ready (got b'd' []) ended; now = 1000; requested = false }

abbrev last : Pass
last = record { polled = nothing; now = 6000; requested = true }

run_captures_example :
    Holds 3
      (run 3 1000 (in_time ∷ due ∷ last ∷ []) started).out
      (all_out 3 1000 (in_time ∷ due ∷ last ∷ []) started)
    × Holds 3
        (run 3 1000 (in_time ∷ due ∷ last ∷ []) started).err
        (all_err 3 1000 (in_time ∷ due ∷ last ∷ []) started)
run_captures_example = run_captures 3 1000 (in_time ∷ due ∷ last ∷ [])

kept : (run 3 1000 (in_time ∷ due ∷ last ∷ []) started).out.held ≡ codes "abc"
unfolding run
kept = refl

-- A script that closes both its streams and works on for ten seconds is killed, long before its deadline.
abbrev closing : Pass
closing = record { polled = ready ended ended; now = 10; requested = false }

closed_streams :
    (is_running (run 3 3600000 (closing ∷ []) started) ≡ false)
    × (reap (10 + reap_ms) (not_yet 5000 ∷ not_yet 10011 ∷ []) ≡ given_up not_reaped true)
unfolding is_running run reap
closed_streams = (refl, refl)

abbrev waits : List Wait
waits = not_yet 7000 ∷ not_yet 16001 ∷ []

run_ends_example :
    is_running (run 3 1000 ((in_time ∷ []) ++ ((due ∷ []) ++ (last ∷ []))) started) ≡ false
run_ends_example =
    run_ends 3 1000 (in_time ∷ []) [] due last (omega arith, tt) (omega arith) (omega arith)

epoch : days_of (1970, 1, 1) ≡ pos 0
unfolding days_from_civil
epoch = refl

leap_day : IsDate 2024 2 28
leap_day = (omega arith, (omega arith, (omega arith, (omega arith, omega arith))))

days_from_civil_next_example : days_of (next_day (2024, 2, 28)) ≡ increment (days_of (2024, 2, 28))
days_from_civil_next_example = days_from_civil_next 2024 2 28 leap_day

abbrev moment : Tm
moment = record { year = 2026; month = 8; day = 21; hour = 1; minute = 8; second = 55 }

http_date : parse_http_date (codes "Fri, 21 Aug 2026 01:08:55 GMT") ≡ pos 1787274535
unfolding parse_http_date haiku_mgmt_agent.Prelude.Text.bytes_eq
http_date = refl

abbrev network : Network
network = λ n req. record {
  status = pos 200;
  headers = [];
  body = codes "tok\n";
  sink_bytes = 4;
  error = [];
}

abbrev new_imds : Imds
new_imds = record { token = []; token_expires_at = 0; requests = 0 }

get_token-IsGood_example : IsGood 100 (get_token network 100 new_imds)
get_token-IsGood_example = get_token-IsGood network 100 new_imds

abbrev wait : Handshaking.Wait
wait = record { channel = record { out_seq = 1; outbox = []; sent = [] }; acked = [] }

-- The client accepts the session's one action.
abbrev response : AgentMessage
response = record {
  message_type = codes "input_stream_data";
  schema_version = 1;
  created_ms = 0;
  sequence = 0;
  flags = 0;
  message_id = codes "00000000-0000-0000-0000-000000000000";
  payload_type = 6;
  payload = codes "{\"ProcessedClientActions\":[{\"ActionStatus\":\"1\"}]}";
}

abbrev turns : List Turn
turns =
    record { stopping = false; now = 1; now_ms = 1000; inbound = frame (codes "short") }
    ∷ record {
      stopping = false;
      now = 2;
      now_ms = 2000;
      inbound = frame (serialize (λ s. replicate 32 0) response);
    }
    ∷ []

await_response-Completed_example :
    Completed whole_numbers (λ n. n) (await_response whole_numbers (λ n. n) 20 turns wait)
await_response-Completed_example = await_response-Completed whole_numbers (λ n. n) 20 turns wait
