-- ===== src/Patch/Steps.antt =====
-- src/patch.cpp: the stages of `run_baseline`.
use haiku_mgmt_agent.Prelude.{
  ℕ, zero, suc, Bool, true, false, not, ◌||◌, Option, none, some, List, [], ◌∷◌, ◌++◌,
  if◌then◌else◌, length, ◌==◌,
}
use haiku_mgmt_agent.Prelude.Int.{ℤ, pos, eqb_ℤ}
use haiku_mgmt_agent.Prelude.Text.{Bytes, codes, decimal}
use haiku_mgmt_agent.Util.Text.{trim, clip}
use haiku_mgmt_agent.Json.Value.{Value}
use haiku_mgmt_agent.Prelude.Text.{is_empty}
use haiku_mgmt_agent.Http.{Response, succeeded}
use haiku_mgmt_agent.Runner.Document.{ExecResult}
use haiku_mgmt_agent.Patch.Transaction.{Update, parse_pkgman_transaction, Operation, install}
use haiku_mgmt_agent.Patch.Inventory.{Report, decimal_ℤ, count_pending, inventory_items}

-- The surroundings: `exec::run_shell` and `aws::put_inventory` (none without credentials), `std::atoi`
-- and the clock's texts.
pub record Host : Type 0 where
  pub run : (call : ℕ) (script : Bytes) (timeout : ℕ) → ExecResult
  pub put_inventory : Value → Option Response
  pub atoi : Bytes → ℤ
  pub begin_seconds : Bytes
  pub finish_seconds : Bytes
  pub begin_time : Bytes
  pub finish_time : Bytes

-- The locals of the function; `scripts` is what was run so far, the latest first.
pub record Progress : Type 0 where
  pub out : Bytes
  pub errout : Bytes
  pub has_failed : Bool
  pub was_cancelled : Bool
  pub scripts : List Bytes
  pub report : Report

unfoldable pub list_updates : List Update → Bytes
list_updates [] = []
list_updates (u ∷ us) =
    codes "  "
    ++ (u.name
        ++ (codes ": "
            ++ ((if is_empty u.from then [] else u.from ++ codes " -> ")
                ++ (u.to ++ (codes "\n" ++ list_updates us)))))

abbrev pub say : Bytes → Progress → Progress
say text p = record p { out = p.out ++ text }

abbrev pub warn : Bytes → Progress → Progress
warn text p = record p { errout = p.errout ++ text }

abbrev pub fail_with : Bytes → Progress → Progress
fail_with text p = record p { errout = p.errout ++ text; has_failed = true }

abbrev pub list_script : Bytes
list_script = codes "echo n | pkgman update"

abbrev pub install_script : Bytes
install_script = codes "pkgman update -y"

module _ (host : Host) where
  -- The lambda `sh`.
  unfoldable pub sh : Bytes → ℕ → Progress → Progress × ExecResult
  sh script timeout p =
      let r = host.run (length p.scripts) script timeout in
      (record p { was_cancelled = p.was_cancelled || r.cancelled; scripts = script ∷ p.scripts }, r)

  unfoldable pub refresh : Progress → Progress
  refresh p =
      let (q, r) = sh (codes "pkgman refresh") 300 p in
      if q.was_cancelled
      then q
      else if eqb_ℤ r.exit_code (pos 0)
      then say (codes "repositories refreshed\n") q
      else warn
          (codes "warning: pkgman refresh failed (exit "
            ++ (decimal_ℤ r.exit_code
                ++ (codes "): "
                    ++ (clip (trim r.stderr_data) 300 (codes "...")
                        ++ codes "; scanning against cached repository data\n"))))
          q

  -- The dry run, with the updates that it lists.
  unfoldable pub scan_updates : Progress → Progress × List Update
  scan_updates p =
      let (q, r) = sh list_script 600 p in
      if p.was_cancelled
      then (p, [])
      else if q.was_cancelled
      then (q, [])
      else if not (is_empty r.error)
      then (fail_with (codes "could not list available updates: " ++ (r.error ++ codes "\n")) q, [])
      else (q, parse_pkgman_transaction (r.stdout_data ++ (codes "\n" ++ r.stderr_data)))

  unfoldable pub rescan : Progress → Progress
  rescan p =
      let (q, r) = sh list_script 600 p in
      if q.was_cancelled then q else record q {
        report = record q.report {
          missing = parse_pkgman_transaction (r.stdout_data ++ (codes "\n" ++ r.stderr_data));
        };
      }

  unfoldable pub install_updates : List Update → Progress → Progress
  install_updates available p =
      let (q, r) = sh install_script 3300 (
        say
          (decimal (length available)
            ++ (codes " update(s) to install:\n" ++ list_updates available))
          p) in
      if q.was_cancelled
      then q
      else rescan (
          if eqb_ℤ r.exit_code (pos 0)
          then say (codes "installed " ++ (decimal (length available) ++ codes " update(s)\n"))
              (record q { report = record q.report { installed = available } })
          else fail_with
              (codes "pkgman update failed (exit "
                ++ (decimal_ℤ r.exit_code
                    ++ (codes "): "
                        ++ (clip (trim (r.stdout_data ++ r.stderr_data)) 800 (codes "...")
                            ++ codes "\n"))))
              q)

  unfoldable pub report_missing : List Update → Progress → Progress
  report_missing available p =
      let q = record p { report = record p.report { missing = available } } in
      if length available == 0
      then say (codes "no updates available; system is up to date\n") q
      else say
          (decimal (length available)
            ++ (codes " update(s) available (Missing):\n" ++ list_updates available))
          q

  abbrev pub wants_install : Operation → List Update → Bool
  wants_install install (u ∷ us) = true
  wants_install _ _ = false

  unfoldable pub apply_updates : Operation → Progress × List Update → Progress
  apply_updates operation (p, available) =
      if p.was_cancelled || p.has_failed
      then p
      else if wants_install operation available
      then install_updates available p
      else report_missing available p

  unfoldable pub note_reboot : Progress → Progress
  note_reboot p = elim (count_pending p.report.installed) [
    | zero ↦ p
    | suc n ↦
        warn
          (codes
            "note: a haiku system package was updated; it takes effect on the next reboot (reported as InstalledPendingReboot; the agent does not reboot the instance)\n")
          p
  ]

  unfoldable pub count_installed : Progress → Progress
  count_installed p =
      let (q, r) = sh (codes "ls -1 /system/packages 2>/dev/null | grep -c '\\.hpkg$'") 60 p in
      if p.was_cancelled then p else record q {
        report = record q.report {
          installed_count = host.atoi (trim r.stdout_data);
          operation_end = host.finish_seconds;
        };
      }

  abbrev pub response_or_none : Option Response → Response
  response_or_none (some r) = r
  response_or_none none = record {
    status = pos 0;
    headers = [];
    body = [];
    sink_bytes = 0;
    error = codes "no credentials available";
  }

  unfoldable pub report_inventory : Bool → Progress → Progress
  report_inventory enabled p =
      let r =
        response_or_none (host.put_inventory (inventory_items p.report p.report.operation_end)) in
      if p.was_cancelled || not enabled
      then p
      else if succeeded r
      then say
          (codes "compliance reported to SSM inventory (AWS:PatchSummary: "
            ++ (decimal (length p.report.missing)
                ++ (codes " missing, "
                    ++ (decimal (length p.report.installed) ++ codes " installed this run)\n"))))
          p
      else fail_with
          (codes "PutInventory failed: status="
            ++ (decimal_ℤ r.status
                ++ (codes " "
                    ++ (r.error ++ (codes " " ++ (clip r.body 400 (codes "...") ++ codes "\n"))))))
          p
