-- ===== src/Runner/Reply.antt =====
-- src/runner.h, src/runner.cpp: `reply_payload`, what is sent of a document's outcome.
use haiku_mgmt_agent.Prelude.{Option, some, List, [], ◌∷◌, true}
use haiku_mgmt_agent.Prelude.Int.{ℤ, pos, increment}
use haiku_mgmt_agent.Prelude.Text.{Bytes, codes}
use haiku_mgmt_agent.Json.Value.{Doubles, Value, Fields, num, str, obj, end, insert, lookup}
use haiku_mgmt_agent.Json.Dump.{dump}
use haiku_mgmt_agent.Runner.Document.{
  Status, success, failed, timed_out, cancelled, skipped, StepResult,
}

pub record AgentInfo : Type 0 where
  pub name : Bytes
  pub version : Bytes
  pub lang : Bytes
  pub os : Bytes
  pub os_ver : Bytes

unfoldable pub status_name : Status → Bytes
status_name success = codes "Success"
status_name failed = codes "Failed"
status_name timed_out = codes "TimedOut"
status_name cancelled = codes "Cancelled"
status_name skipped = codes "Skipped"

-- An object from its members, in the order in which the source assigns them.
abbrev pub members : List (Bytes × Value) → Fields → Fields
members [] fs = fs
members (m ∷ ms) fs = members ms (insert m.0 m.1 fs)

abbrev pub object : List (Bytes × Value) → Value
object ms = obj (members ms end)

module _ (fp : Doubles) where
  -- `json::num` of an `int`.
  abbrev pub integer : ℤ → Value
  integer n = num (fp.of_int n) true

  -- `static_cast<int>(it->second.number)`, 0 where there is no member yet, and one more.
  abbrev pub one_more : Option Value → ℤ
  one_more (some (num d integral)) = increment (fp.to_int d)
  one_more _ = pos 1

  unfoldable pub status_counts : List StepResult → Fields → Fields
  status_counts [] counts = counts
  status_counts (s ∷ ss) counts =
      let status = status_name s.status in
      status_counts ss (insert status (integer (one_more (lookup status counts))) counts)

  unfoldable pub step_status : StepResult → Value
  step_status s = object (
      (codes "status", str (status_name s.status))
      ∷ (codes "code", integer s.code)
      ∷ (codes "name", str s.action)
      ∷ (codes "output", str s.output)
      ∷ (codes "startDateTime", str s.start_time)
      ∷ (codes "endDateTime", str s.end_time)
      ∷ (codes "outputS3BucketName", str s.output_s3_bucket)
      ∷ (codes "outputS3KeyPrefix", str s.output_s3_key_prefix)
      ∷ (codes "stepName", str s.plugin_id)
      ∷ (codes "standardOutput", str s.standard_output)
      ∷ (codes "standardError", str s.standard_error)
      ∷ [])

  -- A later step with the same id replaces an earlier one.
  unfoldable pub runtime_status : List StepResult → Fields → Fields
  unfolding step_status
  runtime_status [] fs = fs
  runtime_status (s ∷ ss) fs = runtime_status ss (insert s.plugin_id (step_status s) fs)

  -- `date_time` and `run_id` are the two texts of the clock.
  unfoldable pub reply_payload :
      AgentInfo
      → (date_time run_id : Bytes) → (document_status trace : Bytes) → List StepResult
      → Bytes
  unfolding status_counts runtime_status
  reply_payload agent date_time run_id document_status trace steps =
      let agent_obj = object (
        (codes "lang", str agent.lang)
        ∷ (codes "name", str agent.name)
        ∷ (codes "os", str agent.os)
        ∷ (codes "osver", str agent.os_ver)
        ∷ (codes "ver", str agent.version)
        ∷ []) in
      let additional = object (
        (codes "agent", agent_obj)
        ∷ (codes "dateTime", str date_time)
        ∷ (codes "runId", str run_id)
        ∷ (codes "runtimeStatusCounts", obj (status_counts steps end))
        ∷ []) in
      dump fp (
        object (
          (codes "additionalInfo", additional)
          ∷ (codes "documentStatus", str document_status)
          ∷ (codes "documentTraceOutput", str trace)
          ∷ (codes "runtimeStatus", obj (runtime_status steps end))
          ∷ []))
