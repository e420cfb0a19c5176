-- ===== src/Runner/Document.antt =====
-- src/runner.h, src/runner.cpp: `run_document`.
pub mod Verdict
use haiku_mgmt_agent.Prelude.{
  ℕ, zero, suc, ◌+◌, ◌-◌, ◌*◌, Bool, true, false, not, ◌&&◌, ◌||◌, Option, none, some, List, [],
  ◌∷◌, ◌++◌, max, if◌then◌else◌, length,
}
use haiku_mgmt_agent.Prelude.Int.{ℤ, pos, negsuc, eqb_ℤ}
use haiku_mgmt_agent.Prelude.Text.{Bytes, codes, bytes_eq}
use haiku_mgmt_agent.Util.Text.{trim, join, clip}
use haiku_mgmt_agent.Json.Value
use haiku_mgmt_agent.Json.Value.{
  Doubles, Value, Items, Fields, null, arr, obj, nil, cons, end, field, str_at, str_at_or, num_at,
}
use haiku_mgmt_agent.Prelude.Text.{is_empty}
use haiku_mgmt_agent.Runner.Output.{truncate_output, max_plugin_output_size, max_stdout_length}
use haiku_mgmt_agent.Runner.Params.{resolve, command_lines, precondition_excludes_step}

-- `exec::Result`, as far as the runner reads it.
pub record ExecResult : Type 0 where
  pub exit_code : ℤ
  pub timed_out : Bool
  pub cancelled : Bool
  pub stdout_data : Bytes
  pub stderr_data : Bytes
  pub error : Bytes

pub data Status : Type 0 where
  success failed timed_out cancelled skipped : Status

pub record StepResult : Type 0 where
  pub plugin_id : Bytes
  pub action : Bytes
  pub status : Status
  pub code : ℤ
  pub output : Bytes
  pub standard_output : Bytes
  pub standard_error : Bytes
  pub full_stdout : Bytes
  pub full_stderr : Bytes
  pub output_s3_bucket : Bytes
  pub output_s3_key_prefix : Bytes
  pub start_time : Bytes
  pub end_time : Bytes

pub record DocumentOutcome : Type 0 where
  pub status : Status
  pub steps : List StepResult
  pub trace : Bytes

pub record Step : Type 0 where
  pub plugin_id : Bytes
  pub action : Bytes
  pub inputs : Value
  pub precondition : Value

abbrev pub or_null : Option Value → Value
or_null none = null
or_null (some v) = v

-- Schema 2.x: the elements of `mainSteps`.
unfoldable pub main_steps : Items → List Step
main_steps nil = []
main_steps (cons s xs) =
    let action = str_at s (codes "action") in
    record {
      plugin_id = str_at_or s (codes "name") action;
      action = action;
      inputs = or_null (Value.find s (codes "inputs"));
      precondition = or_null (Value.find s (codes "precondition"));
    }
    ∷ main_steps xs

-- The first of the properties, or the properties where they are no list or an empty one.
unfoldable pub first_property : Value → Value
first_property (arr (cons x xs)) = x
first_property v = v

-- Schema 1.2: the members of `runtimeConfig`.
unfoldable pub runtime_steps : Fields → List Step
unfolding first_property
runtime_steps end = []
runtime_steps (field k v fs) =
    record {
      plugin_id = k;
      action = k;
      inputs = elim (Value.find v (codes "properties")) [ none ↦ null | some p ↦ first_property p ];
      precondition = null;
    }
    ∷ runtime_steps fs

unfoldable pub runtime_config : Option Value → List Step
unfolding runtime_steps
runtime_config (some (obj fs)) = runtime_steps fs
runtime_config _ = []

unfoldable pub document_steps : Value → List Step
unfolding main_steps runtime_config
document_steps document = elim (Value.find document (codes "mainSteps")) [
  | some (arr xs) ↦ main_steps xs
  | _ ↦ runtime_config (Value.find document (codes "runtimeConfig"))
]

unfoldable pub run_shell_script : Bytes
run_shell_script = codes "aws:runShellScript"

-- A result with nothing but its step, its status and its two times.
abbrev pub blank_result : Step → Status → ℤ → Bytes → Bytes → StepResult
blank_result st status code start finish = record {
  plugin_id = st.plugin_id;
  action = st.action;
  status = status;
  code = code;
  output = [];
  standard_output = [];
  standard_error = [];
  full_stdout = [];
  full_stderr = [];
  output_s3_bucket = [];
  output_s3_key_prefix = [];
  start_time = start;
  end_time = finish;
}

unfoldable pub skipped_result : Step → Bytes → Bytes → StepResult
skipped_result st start finish =
    let text =
      codes
        "Step execution skipped due to unsatisfied preconditions: '\"StringEquals\": [platformType, Linux]'." in
    record (blank_result st skipped (pos 0) start finish) { output = text; standard_output = text }

unfoldable pub unsupported_result : Step → Bytes → Bytes → StepResult
unsupported_result st start finish =
    let text =
      codes "plugin '"
      ++ (st.action
          ++ (codes "' is not supported on Haiku. haiku-mgmt-agent implements "
              ++ (run_shell_script
                  ++ codes
                      " only (see BRIEF.md section 2: Session Manager, inventory and self-update are out of scope)."))) in
    record (blank_result st failed (pos 1) start finish) { output = text; standard_error = text }

unfoldable pub no_commands_result : Step → Bytes → Bytes → StepResult
no_commands_result st start finish =
    let text = codes "no commands to run (runCommand resolved to empty)" in
    record (blank_result st failed (pos 1) start finish) { output = text; standard_error = text }

-- `if (sr.code == 0) sr.code = 1`
abbrev pub at_least_one : ℤ → ℤ
at_least_one code = if eqb_ℤ code (pos 0) then pos 1 else code

-- The status, the code and the text that a harness error adds, in the order of the tests.
unfoldable pub exec_status : ExecResult → Status
exec_status er =
    if er.cancelled
    then cancelled
    else if not (is_empty er.error)
    then failed
    else if er.timed_out
    then timed_out
    else if eqb_ℤ er.exit_code (pos 0)
    then success
    else failed

unfoldable pub exec_code : ExecResult → ℤ
exec_code er =
    if er.cancelled || not (is_empty er.error) || er.timed_out
    then at_least_one er.exit_code
    else er.exit_code

unfoldable pub exec_stderr : ExecResult → Bytes
exec_stderr er =
    let kept = clip er.stderr_data max_stdout_length [] in
    if not er.cancelled && not (is_empty er.error)
    then kept ++ ((if is_empty kept then [] else codes "\n") ++ er.error)
    else kept

unfoldable pub ran_result : Step → ExecResult → Bytes → Bytes → StepResult
unfolding exec_status exec_code exec_stderr
ran_result st er start finish =
    let out = clip er.stdout_data max_stdout_length [] in
    record (blank_result st (exec_status er) (exec_code er) start finish) {
      output = truncate_output out (exec_stderr er) max_plugin_output_size;
      standard_output = out;
      standard_error = exec_stderr er;
      full_stdout = er.stdout_data;
      full_stderr = er.stderr_data;
    }

-- The document's status behind a step that ran.
unfoldable pub combine : Status → Status → Status
combine cancelled document = cancelled
combine success document = document
combine step cancelled = cancelled
combine step document = failed

-- What one step does: the result, the document's status behind it, and whether the loop ends.
pub record StepOutcome : Type 0 where
  pub result : StepResult
  pub document : Status
  pub stops : Bool

-- The operating system behind `exec::run_shell` and the clock: what the i-th step's script does, and
-- the times at which it starts and ends.
pub record Machine : Type 0 where
  pub run_shell : ℕ → (script : Bytes) (timeout : ℤ) (workdir : Bytes) (capture : ℕ) → ExecResult
  pub started : ℕ → Bytes
  pub ended : ℕ → Bytes

module _ (fp : Doubles) (os : Machine) (max_capture : ℕ) (parameters doc_parameters : Value) where
  abbrev pub step_script : Step → Bytes
  step_script st =
      join (command_lines (resolve fp st.inputs parameters doc_parameters)) (codes "\n")

  -- The call of `exec::run_shell` for the i-th step.
  abbrev pub step_run : ℕ → Step → ExecResult
  step_run i st =
      let inputs = resolve fp st.inputs parameters doc_parameters in
      let timeout = fp.to_int (num_at fp inputs (codes "timeoutSeconds") (fp.of_int (pos 3600))) in
      os.run_shell i (step_script st) timeout (str_at inputs (codes "workingDirectory"))
        (max max_capture max_stdout_length)

  unfoldable pub run_step : ℕ → Status → Step → StepOutcome
  unfolding ran_result combine no_commands_result unsupported_result skipped_result
  run_step i status st =
      let er = step_run i st in
      if precondition_excludes_step st.precondition
      then record {
        result = skipped_result st (os.started i) (os.ended i);
        document = status;
        stops = false;
      }
      else if not (bytes_eq st.action run_shell_script)
      then record {
        result = unsupported_result st (os.started i) (os.ended i);
        document = failed;
        stops = false;
      }
      else if is_empty (trim (step_script st))
      then record {
        result = no_commands_result st (os.started i) (os.ended i);
        document = failed;
        stops = false;
      }
      else record {
        result = ran_result st er (os.started i) (os.ended i);
        document = combine (exec_status er) status;
        stops = er.cancelled;
      }

  unfoldable pub run_steps : ℕ → Status → List Step → List StepResult × Status
  run_steps i status [] = ([], status)
  run_steps i status (st ∷ sts) =
      let o = run_step i status st in
      let rest = run_steps (suc i) o.document sts in
      if o.stops then (o.result ∷ [], o.document) else (o.result ∷ rest.0, rest.1)

module _ (fp : Doubles) (os : Machine) where
  unfoldable pub run_document : Value → Value → ℕ → DocumentOutcome
  unfolding document_steps
  run_document document parameters max_capture =
      let doc_parameters = or_null (Value.find document (codes "parameters")) in
      elim (document_steps document) [
        | [] ↦ record {
          status = failed;
          steps = [];
          trace = codes "document contains no runnable steps (no mainSteps or runtimeConfig)";
        }
        | st ∷ sts ↦
            let done = run_steps fp os max_capture parameters doc_parameters 0 success (st ∷ sts) in
            record { status = done.1; steps = done.0; trace = [] }
      ]
