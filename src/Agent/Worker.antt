-- ===== src/Agent/Worker.antt =====
-- src/main.cpp: the worker thread of a command, and the upload of its output.
use haiku_mgmt_agent.Prelude.{
  ◌≡◌, refl, ap, Bool, true, not, ◌&&◌, ◌||◌, List, [], ◌∷◌, ◌++◌, if◌then◌else◌, map, by_test,
}
use haiku_mgmt_agent.Prelude.Int.{ℤ}
use haiku_mgmt_agent.Prelude.Text.{Bytes, codes}
use haiku_mgmt_agent.Json.Value.{Doubles}
use haiku_mgmt_agent.Prelude.Text.{is_empty}
use haiku_mgmt_agent.Http.{Response, succeeded}
use haiku_mgmt_agent.Runner.Document.{Status, StepResult, DocumentOutcome, Machine, run_document}
use haiku_mgmt_agent.Runner.Output.{max_stdout_length}
use haiku_mgmt_agent.Runner.Reply.{AgentInfo, reply_payload, status_name}
use haiku_mgmt_agent.Patch.Steps.{Host}
use haiku_mgmt_agent.Patch.Transaction.{is_patch_document}
use haiku_mgmt_agent.Patch.Baseline.{run_baseline}
use haiku_mgmt_agent.Agent.InFlight.{done}
use haiku_mgmt_agent.Agent.Handle.{Agent, Command, Service, send_reply}

-- `s3::put` of a body under a key of a bucket.
abbrev pub Put : Type 0
Put = (bucket key body : Bytes) → Response

unfoldable pub key_prefix : (command_id instance_id prefix plugin_id : Bytes) → Bytes
key_prefix command_id instance_id prefix plugin_id =
    (if is_empty prefix then [] else prefix ++ codes "/")
    ++ (command_id ++ (codes "/" ++ (instance_id ++ (codes "/awsrunShellScript/" ++ plugin_id))))

-- One stream: whether it is there and its upload succeeded.
unfoldable pub stream_landed : Put → (bucket key body : Bytes) → Bool
stream_landed put bucket key body = not (is_empty body) && succeeded (put bucket key body)

-- One step of the loop: the prefix is recorded if at least one stream landed.
unfoldable pub upload_step : Put → (bucket prefix : Bytes) → StepResult → StepResult
upload_step put bucket prefix s =
    if stream_landed put bucket (prefix ++ codes "/stdout") s.full_stdout
      || stream_landed put bucket (prefix ++ codes "/stderr") s.full_stderr
    then record s { output_s3_bucket = bucket; output_s3_key_prefix = prefix }
    else s

unfoldable pub upload_steps :
    Put → (command_id instance_id bucket prefix : Bytes) → List StepResult → List StepResult
unfolding key_prefix
upload_steps put command_id instance_id bucket prefix [] = []
upload_steps put command_id instance_id bucket prefix (s ∷ ss) =
    upload_step put bucket (key_prefix command_id instance_id prefix s.plugin_id) s
    ∷ upload_steps put command_id instance_id bucket prefix ss

unfoldable pub upload_outputs :
    Put → (command_id instance_id bucket prefix : Bytes) → DocumentOutcome → DocumentOutcome
upload_outputs put command_id instance_id bucket prefix outcome =
    if is_empty bucket then outcome else record outcome {
      steps = upload_steps put command_id instance_id bucket prefix outcome.steps;
    }

module _ (fp : Doubles) (service : Service) (info : AgentInfo) (os : Machine) (host : Host)
    (put : Put) (instance_id : Bytes) where
  unfoldable pub command_outcome : Command → DocumentOutcome
  command_outcome c =
      let max_capture = if is_empty c.s3_bucket then max_stdout_length else 8388608 in
      if is_patch_document c.document_name
      then run_baseline host c.command_id true c.parameters
      else run_document fp os c.document c.parameters max_capture

  -- The thread's body; the agent's state is what it finds when it replies.
  unfoldable pub worker : Command → Agent → Agent
  worker c a =
      let outcome =
        upload_outputs put c.command_id instance_id c.s3_bucket c.s3_prefix (command_outcome c) in
      let payload =
        reply_payload fp info (service.date_time a.attempts) (service.run_id a.attempts)
          (status_name outcome.status) outcome.trace outcome.steps in
      let replied = send_reply fp service info c.message_id payload a in
      record replied { inflight = done replied.inflight c.command_id }

-- What the reply's verdict rests on.
abbrev pub status_and_code : StepResult → Status × ℤ
status_and_code s = (s.status, s.code)

upload_step-status :
    (put : Put) (bucket prefix : Bytes) (s : StepResult)
    → status_and_code (upload_step put bucket prefix s) ≡ status_and_code s
unfolding upload_step
upload_step-status put bucket prefix s =
    by_test (λ r. status_and_code r ≡ status_and_code s) _
      (record s { output_s3_bucket = bucket; output_s3_key_prefix = prefix }) s (λ e. refl)
      (λ e. refl)

upload_steps-status :
    (put : Put) (command_id instance_id bucket prefix : Bytes) (ss : List StepResult)
    → map status_and_code (upload_steps put command_id instance_id bucket prefix ss)
      ≡ map status_and_code ss
unfolding upload_steps
upload_steps-status put command_id instance_id bucket prefix [] = refl
upload_steps-status put command_id instance_id bucket prefix (s ∷ ss) =
    rw (upload_step-status put bucket (key_prefix command_id instance_id prefix s.plugin_id) s) (
      ap (◌∷◌ (status_and_code s))
        (upload_steps-status put command_id instance_id bucket prefix ss))

-- The upload of the output changes no result: the document's status and trace, and the status and the
-- code of every step in order, are as before, whatever the uploads come to.
pub upload_outputs-status :
    (put : Put) (command_id instance_id bucket prefix : Bytes) (outcome : DocumentOutcome)
    → ((upload_outputs put command_id instance_id bucket prefix outcome).status ≡ outcome.status)
      × (((upload_outputs put command_id instance_id bucket prefix outcome).trace ≡ outcome.trace)
          × (map status_and_code
                (upload_outputs put command_id instance_id bucket prefix outcome).steps
              ≡ map status_and_code outcome.steps))
unfolding upload_outputs
upload_outputs-status put command_id instance_id bucket prefix outcome =
    by_test
      (λ o.
        (o.status ≡ outcome.status)
        × ((o.trace ≡ outcome.trace)
            × (map status_and_code o.steps ≡ map status_and_code outcome.steps)))
      (is_empty bucket) outcome
      (record outcome {
        steps = upload_steps put command_id instance_id bucket prefix outcome.steps;
      })
      (λ e. (refl, (refl, refl)))
      (λ e.
        (refl, (refl, upload_steps-status put command_id instance_id bucket prefix outcome.steps)))
