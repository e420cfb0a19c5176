-- ===== src/Tests/Documents.antt =====
-- Runs of the documents, the patch baseline, the self-update and the smaller parts.
use haiku_mgmt_agent.Prelude.{◌≤◌, ◌≡◌, All, refl, arith, true, false, some, [], ◌∷◌, length}
use haiku_mgmt_agent.Prelude.Int.{ℤ, pos}
use haiku_mgmt_agent.Prelude.Text.{Bytes, codes, find_byte, bytes_eq, starts_with}
use haiku_mgmt_agent.Json.Value
use haiku_mgmt_agent.Json.Value.{Value, str, arr, obj, nil, cons, end, field, lookup}
use haiku_mgmt_agent.Json.Parser.{parse}
use haiku_mgmt_agent.Json.Errors.{error_of, value_of}
use haiku_mgmt_agent.Http.{Response, succeeded}
use haiku_mgmt_agent.Runner.Output.{truncate_output}
use haiku_mgmt_agent.Runner.Output.Bounds.{truncate_output_fits}
use haiku_mgmt_agent.Runner.Document.{
  ExecResult, Machine, Step, document_steps, run_document, success,
}
use haiku_mgmt_agent.Runner.Document.Verdict.{OutcomeFits, run_document_verdict}
use haiku_mgmt_agent.Patch.Transaction.{
  parse_params, param_str, parse_pkgman_transaction, transaction_lines, transaction_kind, Update,
  accepted, scan,
}
use haiku_mgmt_agent.Patch.Inventory.{count_pending, needs_reboot}
use haiku_mgmt_agent.Patch.Steps.{
  refresh, sh, scan_updates, apply_updates, report_missing, note_reboot, count_installed,
  report_inventory, Host,
}
use haiku_mgmt_agent.Patch.Baseline.{work, run_baseline, IsHarmless, scan_installs_nothing}
use haiku_mgmt_agent.Patch.Baseline.Reported.{Reported, run_baseline-Reported}
use haiku_mgmt_agent.Util.Version.{compare_parts, version_compare, Verdict, version_compare-Verdict}
use haiku_mgmt_agent.Selfupdate.{
  apply_text, apply_read, apply_manifest, install_package, install_binary, swap_in, is_hpkg,
  artifact_of, System, Manifest, read_manifest, IsNewer, HasDigest, installs, check_and_apply,
  installs_checked,
}
use haiku_mgmt_agent.Util.Text.{
  split, split_loop, lower, lower_byte, trim, find_first_not_blank, find_last_not_blank, is_blank,
}
use haiku_mgmt_agent.Tests.Data.{digits_value, whole_numbers}

abbrev step_value : Value
step_value = obj (
    field (codes "action") (str (codes "aws:runShellScript"))
      (field (codes "name") (str (codes "s")) end))

abbrev document : Value
document = obj (field (codes "mainSteps") (arr (cons step_value nil)) end)

abbrev quiet : ExecResult
quiet = record {
  exit_code = pos 0;
  timed_out = false;
  cancelled = false;
  stdout_data = [];
  stderr_data = [];
  error = [];
}

abbrev machine : Machine
machine = record {
  run_shell = λ i script timeout workdir capture. quiet;
  started = λ i. [];
  ended = λ i. [];
}

abbrev first_step : Step
first_step = record {
  plugin_id = codes "s";
  action = codes "aws:runShellScript";
  inputs = Value.null;
  precondition = Value.null;
}

document_first : document_steps document ≡ first_step ∷ []
unfolding document_steps Value.find lookup bytes_eq Value.str_at Value.str_at_or Value.str_or
document_first = refl

run_document_verdict_example :
    OutcomeFits (run_document whole_numbers machine document Value.null 24000) 1
run_document_verdict_example =
    run_document_verdict whole_numbers machine document Value.null 24000 first_step []
      document_first

truncate_output_fits_example : length (truncate_output (codes "out") (codes "err") 2500) ≤ 2500
truncate_output_fits_example =
    truncate_output_fits (codes "out") (codes "err") 2500 (omega arith) (omega arith)

abbrev accepts : Response
accepts = record { status = pos 200; headers = []; body = []; sink_bytes = 0; error = [] }

abbrev host : Host
host = record {
  run = λ call script timeout. quiet;
  put_inventory = λ items. some accepts;
  atoi = λ s. pos 0;
  begin_seconds = [];
  finish_seconds = [];
  begin_time = [];
  finish_time = [];
}

scan_installs_nothing_example :
    All IsHarmless (work host (codes "c") true (accepted scan true [])).scripts
scan_installs_nothing_example = scan_installs_nothing host (codes "c") [] true true

abbrev scan_parameters : Value
scan_parameters = obj (field (codes "Operation") (str (codes "Scan")) end)

scan_succeeds : (run_baseline host (codes "c") true scan_parameters).status ≡ success
unfolding run_baseline work parse_params param_str lower lower_byte trim find_first_not_blank
    find_last_not_blank is_blank Value.find lookup bytes_eq Value.str_or refresh sh scan_updates
    apply_updates report_missing note_reboot count_installed report_inventory count_pending
    needs_reboot succeeded parse_pkgman_transaction transaction_lines transaction_kind split
    split_loop find_byte starts_with
scan_succeeds = refl

run_baseline-Reported_example : Reported host (codes "c") (parse_params scan_parameters)
run_baseline-Reported_example = run_baseline-Reported host (codes "c") scan_parameters scan_succeeds

abbrev update : Update
update = record { kind = codes "upgrade"; name = codes "haiku"; from = codes "1"; to = codes "2" }

abbrev strtol : Bytes → ℤ
strtol s = pos (digits_value 0 s)

newer_1 : version_compare strtol (codes "0.4.1") (codes "0.4") ≡ pos 1
unfolding version_compare compare_parts split split_loop find_byte
newer_1 = refl

newer_2 : version_compare strtol (codes "0.4") (codes "0.3") ≡ pos 1
unfolding version_compare compare_parts split split_loop find_byte
newer_2 = refl

version_compare-Verdict_example :
    Verdict strtol
      (version_compare strtol (codes "0.4") (codes "0.4.1"))
      (split (codes "0.4") b'.')
      (split (codes "0.4.1") b'.')
version_compare-Verdict_example = version_compare-Verdict strtol (codes "0.4") (codes "0.4.1")

abbrev system : System
system = record {
  manifest_text = some (codes "{\"version\":\"1\",\"sha256\":\"ab\",\"url\":\"x.hpkg\"}");
  download = λ url. true;
  sha256_file_hex = λ path. codes "ab";
  pkgman = λ artifact. pos 0;
  copy = λ artifact. pos 0;
  stage_rename = true;
  swap_rename = true;
  backup_rename = true;
  restore_rename = true;
}

system-installs :
    installs (check_and_apply whole_numbers strtol system (codes "0.4") (codes "/bin/a")).1 ≡ true
unfolding check_and_apply apply_text apply_read apply_manifest install_package install_binary
    swap_in read_manifest is_hpkg artifact_of version_compare compare_parts split split_loop
    find_byte parse error_of value_of haiku_mgmt_agent.Json.Parser.value
    haiku_mgmt_agent.Json.Parser.start haiku_mgmt_agent.Json.Parser.skip_ws
    haiku_mgmt_agent.Json.Parser.member_key haiku_mgmt_agent.Json.Strings.string_
    haiku_mgmt_agent.Json.Strings.string_loop haiku_mgmt_agent.Json.Strings.string_round
    haiku_mgmt_agent.Json.Parser.scalar haiku_mgmt_agent.Json.Parser.separator Value.is_obj
    Value.str_at Value.insert bytes_eq lower trim
system-installs = refl

installs_checked_example :
    (body : Bytes) × ((m : Manifest) × ((system.manifest_text ≡ some body)
        × ((read_manifest whole_numbers body ≡ some m)
            × (IsNewer strtol (codes "0.4") m × HasDigest system m))))
installs_checked_example =
    installs_checked whole_numbers strtol system (codes "0.4") (codes "/bin/a") system-installs
