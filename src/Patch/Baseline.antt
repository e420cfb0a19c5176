-- ===== src/Patch/Baseline.antt =====
-- src/patch.cpp: `run_baseline`.
pub mod Reported
use haiku_mgmt_agent.Prelude.{
  ◌≡◌, ◌⊎◌, inl, inr, refl, arith, subst, sym, All, by_test, length, not, ◌==◌, Bool, true, false,
  ◌||◌, List, [], ◌∷◌, ◌++◌, if◌then◌else◌,
}
use haiku_mgmt_agent.Prelude.Int.{pos}
use haiku_mgmt_agent.Prelude.Text.{Bytes, codes, is_empty}
use haiku_mgmt_agent.Util.Text.{clip}
use haiku_mgmt_agent.Json.Value.{Value}
use haiku_mgmt_agent.Runner.Output.{truncate_output, max_plugin_output_size, max_stdout_length}
use haiku_mgmt_agent.Runner.Document.{
  Status, success, failed, cancelled, StepResult, DocumentOutcome, run_shell_script,
}
use haiku_mgmt_agent.Patch.Transaction.{
  Update, Operation, scan, PatchParams, accepted, rejected, parse_params,
}
use haiku_mgmt_agent.Patch.Inventory.{Report, operation_name, reboot_option}
use haiku_mgmt_agent.Patch.Steps.{
  Host, Progress, say, fail_with, sh, refresh, scan_updates, apply_updates, report_missing,
  note_reboot, count_installed, report_inventory, list_script,
}

module _ (host : Host) where
  abbrev pub blank_report : Report
  blank_report = record {
    operation = scan;
    operation_start = [];
    operation_end = [];
    snapshot_id = [];
    execution_id = [];
    no_reboot = false;
    installed_count = pos 0;
    missing = [];
    installed = [];
  }

  abbrev pub beginning : Progress
  beginning = record {
    out = [];
    errout = [];
    has_failed = false;
    was_cancelled = false;
    scripts = [];
    report = blank_report;
  }

  abbrev pub announced : Bytes → Operation → Bool → Bytes → Progress
  announced command_id operation no_reboot snapshot_id =
      say
        (codes "Haiku patch baseline via pkgman: operation="
          ++ (operation_name operation
              ++ (codes " reboot-option=" ++ (reboot_option no_reboot ++ codes "\n"))))
        (record beginning {
          report = record blank_report {
            operation = operation;
            operation_start = host.begin_seconds;
            snapshot_id = snapshot_id;
            execution_id = command_id;
            no_reboot = no_reboot;
          };
        })

  -- The work, up to the step result.
  unfoldable pub work : Bytes → Bool → PatchParams → Progress
  work command_id enabled (rejected error) = fail_with (error ++ codes "\n") beginning
  work command_id enabled (accepted operation no_reboot snapshot_id) =
      report_inventory host enabled (
        count_installed host (
          note_reboot host (
            apply_updates host operation (
              scan_updates host
                (refresh host (announced command_id operation no_reboot snapshot_id))))))

  abbrev pub progress_status : Progress → Status
  progress_status p =
      if p.was_cancelled then cancelled else if p.has_failed then failed else success

  unfoldable pub step_of : Progress → StepResult
  step_of p =
      let kept_out = clip p.out max_stdout_length [] in
      let kept_err = clip p.errout max_stdout_length [] in
      record {
        plugin_id = codes "PatchLinux";
        action = run_shell_script;
        status = progress_status p;
        code = if p.was_cancelled || p.has_failed then pos 1 else pos 0;
        output = truncate_output kept_out kept_err max_plugin_output_size;
        standard_output = kept_out;
        standard_error = kept_err;
        full_stdout = p.out;
        full_stderr = p.errout;
        output_s3_bucket = [];
        output_s3_key_prefix = [];
        start_time = host.begin_time;
        end_time = host.finish_time;
      }

  unfoldable pub run_baseline : Bytes → Bool → Value → DocumentOutcome
  unfolding step_of
  run_baseline command_id enabled parameters =
      let p = work command_id enabled (parse_params parameters) in
      record { status = progress_status p; steps = step_of p ∷ []; trace = [] }

-- The scripts that install nothing: the refresh of the repositories, the dry run, whose question is
-- answered with no, and the count of the packages.
abbrev pub IsHarmless : Bytes → Type 0
IsHarmless script =
    (script ≡ codes "pkgman refresh")
    ⊎ ((script ≡ codes "echo n | pkgman update")
        ⊎ (script ≡ codes "ls -1 /system/packages 2>/dev/null | grep -c '\\.hpkg$'"))

abbrev Clean : Progress → Type 0
Clean p = All IsHarmless p.scripts

pub refresh-scripts :
    (host : Host) (p : Progress) → (refresh host p).scripts ≡ codes "pkgman refresh" ∷ p.scripts
unfolding refresh sh
refresh-scripts host p = ground arith

Clean-refresh : (host : Host) (p : Progress) → Clean p → Clean (refresh host p)
Clean-refresh host p h = subst (All IsHarmless) (sym (refresh-scripts host p)) (inl refl, h)

Clean-scan_updates : (host : Host) (p : Progress) → Clean p → Clean (scan_updates host p).0
unfolding scan_updates sh
Clean-scan_updates host p h =
    let P = λ (r : Progress × List Update). Clean r.0 in
    by_test P p.was_cancelled _ _ (λ stop. h)
      (λ on.
        by_test P (p.was_cancelled || (host.run (length p.scripts) list_script 600).cancelled) _ _
          (λ stop. (inr (inl refl), h))
          (λ ran.
            by_test P (not (is_empty (host.run (length p.scripts) list_script 600).error)) _ _
              (λ bad. (inr (inl refl), h)) (λ ok. (inr (inl refl), h))))

Clean-apply_updates :
    (host : Host) (p : Progress × List Update) → Clean p.0 → Clean (apply_updates host scan p)
unfolding apply_updates report_missing
Clean-apply_updates host (p, available) h =
    by_test Clean (p.was_cancelled || p.has_failed) _ _ (λ stop. h)
      (λ on. by_test Clean (length available == 0) _ _ (λ none'. h) (λ some'. h))

note_reboot-scripts : (host : Host) (p : Progress) → (note_reboot host p).scripts ≡ p.scripts
unfolding note_reboot
note_reboot-scripts host p = ground arith

Clean-count_installed : (host : Host) (p : Progress) → Clean p → Clean (count_installed host p)
unfolding count_installed sh
Clean-count_installed host p h =
    by_test Clean p.was_cancelled _ _ (λ stop. h) (λ on. (inr (inr refl), h))

report_inventory-scripts :
    (host : Host) (enabled : Bool) (p : Progress)
    → (report_inventory host enabled p).scripts ≡ p.scripts
unfolding report_inventory
report_inventory-scripts host enabled p = ground arith

-- Whatever the commands print and the service answers, a scan runs no script but the refresh of the
-- repositories, the dry run of an update, whose question is answered with no, and the count of the
-- installed packages.
pub scan_installs_nothing :
    (host : Host) (command_id snapshot_id : Bytes) (enabled no_reboot : Bool)
    → All IsHarmless (work host command_id enabled (accepted scan no_reboot snapshot_id)).scripts
unfolding work
scan_installs_nothing host command_id snapshot_id enabled no_reboot =
    subst (All IsHarmless) (sym (report_inventory-scripts host enabled _)) (
      Clean-count_installed host _ (
        subst (All IsHarmless) (sym (note_reboot-scripts host _)) (
          Clean-apply_updates host _ (
            Clean-scan_updates host _
              (Clean-refresh host (announced host command_id scan no_reboot snapshot_id) tt)))))
