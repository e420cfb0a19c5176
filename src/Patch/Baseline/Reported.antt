-- ===== src/Patch/Baseline/Reported.antt =====
-- What a run of `run_baseline` that succeeds has reported.
use haiku_mgmt_agent.Prelude.{
  ℕ, suc, ◌≡◌, ◌∙◌, ap, sym, refl, arith, true, false, Option, none, some, List, [], ◌∷◌, ◌++◌,
  length, subst, Bool-cases, inl, inr,
}
use haiku_mgmt_agent.Prelude.Text.{Bytes, codes}
use haiku_mgmt_agent.Json.Value.{Value}
use haiku_mgmt_agent.Http.{Response, succeeded}
use haiku_mgmt_agent.Runner.Document.{success, ExecResult}
use haiku_mgmt_agent.Patch.Transaction.{
  Update, parse_pkgman_transaction, Operation, scan, install, PatchParams, accepted, rejected,
  parse_params,
}
use haiku_mgmt_agent.Patch.Inventory.{Report, inventory_items}
use haiku_mgmt_agent.Patch.Steps.{
  Host, Progress, sh, refresh, scan_updates, rescan, install_updates, report_missing, apply_updates,
  note_reboot, count_installed, report_inventory, response_or_none,
}
use haiku_mgmt_agent.Patch.Baseline.{
  announced, work, progress_status, run_baseline, refresh-scripts,
}

-- The updates that a dry run lists, on both its streams.
abbrev pub listed : ExecResult → List Update
listed r = parse_pkgman_transaction (r.stdout_data ++ (codes "\n" ++ r.stderr_data))

abbrev pub dry_run : Host → ℕ → List Update
dry_run host n = listed (host.run n (codes "echo n | pkgman update") 600)

-- A report of an installing run: of nothing to do, or of what was available, now installed, and what a
-- second dry run still lists.
abbrev pub Installs : Host → List Update → Report → Type 0
Installs host [] r = (r.installed ≡ []) × (r.missing ≡ [])
Installs host (u ∷ us) r = (r.installed ≡ u ∷ us) × (r.missing ≡ dry_run host 3)

-- What a report of the operation says, where these updates were available.
abbrev pub Done : Host → Operation → List Update → Report → Type 0
Done host scan available r = (r.installed ≡ []) × (r.missing ≡ available)
Done host install available r = Installs host available r

-- The service took the inventory items of this report.
abbrev pub IsTaken : Host → Report → Type 0
IsTaken host report =
    (r : Response) × ((host.put_inventory (inventory_items report report.operation_end) ≡ some r)
      × (succeeded r ≡ true))

abbrev IsFine : Progress → Type 0
IsFine p = (p.was_cancelled ≡ false) × (p.has_failed ≡ false)

module _ (host : Host) where
  success-IsFine : (p : Progress) → progress_status host p ≡ success → IsFine p
  success-IsFine p h = (ground (arith, h), ground (arith, h))

  taken :
      (o : Option Response)
      → succeeded (response_or_none host o) ≡ true
      → (r : Response) × ((o ≡ some r) × (succeeded r ≡ true))
  unfolding succeeded
  taken none h = absurd (ground (arith, h))
  taken (some r) h = (r, (refl, h))

  -- A fine end of a stage had a fine beginning; what each stage leaves of the report.
  inventory-IsFine :
      (p : Progress)
      → IsFine (report_inventory host true p)
      → IsFine p
        × (((report_inventory host true p).report ≡ p.report)
            × (succeeded (
                  response_or_none host
                    (host.put_inventory (inventory_items p.report p.report.operation_end)))
                ≡ true))
  unfolding report_inventory
  inventory-IsFine p (c, f) =
      ((ground (arith, c, f), ground (arith, c, f)), (ground (arith, c, f), ground (arith, c, f)))

  count-IsFine :
      (p : Progress)
      → IsFine (count_installed host p)
      → IsFine p
        × (((count_installed host p).report.missing ≡ p.report.missing)
            × ((count_installed host p).report.installed ≡ p.report.installed))
  unfolding count_installed sh
  count-IsFine p (c, f) =
      ((ground (arith, c, f), ground (arith, c, f)), (ground (arith, c, f), ground (arith, c, f)))

  reboot-IsFine :
      (p : Progress)
      → IsFine (note_reboot host p)
      → IsFine p × ((note_reboot host p).report ≡ p.report)
  unfolding note_reboot
  reboot-IsFine p (c, f) = ((ground (arith, c, f), ground (arith, c, f)), ground (arith, c, f))

  missing_reports :
      (p : Progress) (available : List Update)
      → p.report.installed ≡ []
      → ((report_missing host available p).report.installed ≡ [])
        × ((report_missing host available p).report.missing ≡ available)
  unfolding report_missing
  missing_reports p available e = (ground (arith, e), ground arith)

  install_reports :
      (p : Progress) (available : List Update)
      → length p.scripts ≡ 2
      → IsFine (install_updates host available p)
      → ((install_updates host available p).report.installed ≡ available)
        × ((install_updates host available p).report.missing ≡ dry_run host 3)
  unfolding install_updates rescan sh
  install_reports p available n (c, f) = (ground (arith, c, f, n), ground (arith, c, f, n))

  apply-IsFine :
      (op : Operation) (p : Progress) (available : List Update)
      → IsFine (apply_updates host op (p, available))
      → IsFine p
  unfolding apply_updates
  apply-IsFine op p available (c, f) = (fine c f).0
    where
      fine :
          (apply_updates host op (p, available)).was_cancelled ≡ false
          → (apply_updates host op (p, available)).has_failed ≡ false
          → IsFine p × Unit {0}
      fine c f = elim (Bool-cases p.was_cancelled) [
        | inl stop ↦ absurd (ground (arith, c, f, stop))
        | inr on ↦ elim (Bool-cases p.has_failed) [
          | inl bad ↦ absurd (ground (arith, c, f, on, bad))
          | inr good ↦ ((on, good), tt)
        ]
      ]

  apply_scan :
      (p : Progress) (available : List Update)
      → IsFine p
      → apply_updates host scan (p, available) ≡ report_missing host available p
  unfolding apply_updates
  apply_scan p available (c, f) = ground (arith, c, f)

  apply_none :
      (p : Progress) → IsFine p → apply_updates host install (p, []) ≡ report_missing host [] p
  unfolding apply_updates
  apply_none p (c, f) = ground (arith, c, f)

  apply_some :
      (p : Progress) (u : Update) (us : List Update)
      → IsFine p
      → apply_updates host install (p, u ∷ us) ≡ install_updates host (u ∷ us) p
  unfolding apply_updates
  apply_some p u us (c, f) = ground (arith, c, f)

  apply_reports :
      (op : Operation) (p : Progress) (available : List Update)
      → p.report.installed ≡ []
      → length p.scripts ≡ 2
      → IsFine (apply_updates host op (p, available))
      → Done host op available (apply_updates host op (p, available)).report
  apply_reports scan p available blank two' h =
      rw (apply_scan p available (apply-IsFine scan p available h))
        (missing_reports p available blank)
  apply_reports install p [] blank two' h =
      rw (apply_none p (apply-IsFine install p [] h)) (missing_reports p [] blank)
  apply_reports install p (u ∷ us) blank two' h =
      let e = apply_some p u us (apply-IsFine install p (u ∷ us) h) in
      rw e (install_reports p (u ∷ us) two' (subst IsFine e h))

  scan_fine :
      (p : Progress)
      → IsFine (scan_updates host p).0
      → ((scan_updates host p).1 ≡ dry_run host (length p.scripts))
        × (((scan_updates host p).0.report ≡ p.report)
            × (length (scan_updates host p).0.scripts ≡ suc (length p.scripts)))
  unfolding scan_updates sh
  scan_fine p (c, f) = (ground (arith, c, f), (ground (arith, c, f), ground (arith, c, f)))

  refresh-report : (p : Progress) → (refresh host p).report ≡ p.report
  unfolding refresh sh
  refresh-report p = ground arith

  Done-same :
      (op : Operation) (available : List Update) (r s : Report)
      → r.installed ≡ s.installed
      → r.missing ≡ s.missing
      → Done host op available s
      → Done host op available r
  Done-same scan available r s i m d = (i ∙ d.0, m ∙ d.1)
  Done-same install [] r s i m d = (i ∙ d.0, m ∙ d.1)
  Done-same install (u ∷ us) r s i m d = (i ∙ d.0, m ∙ d.1)

  -- What a run leaves, by its parameters.
  abbrev pub Reported : Bytes → PatchParams → Type 0
  Reported command_id (rejected error) = ⊥
  Reported command_id (accepted op no_reboot snapshot_id) =
      let final = work host command_id true (accepted op no_reboot snapshot_id) in
      IsTaken host final.report × Done host op (dry_run host 1) final.report

  work-Reported :
      (command_id : Bytes) (params : PatchParams)
      → progress_status host (work host command_id true params) ≡ success
      → Reported command_id params
  unfolding work
  work-Reported command_id (rejected error) h = absurd (ground (arith, h))
  work-Reported command_id (accepted op no_reboot snapshot_id) h =
      let (fine, (same, accepts)) =
        inventory-IsFine counted (success-IsFine (report_inventory host true counted) h) in
      let (fine4, (missing, installed)) = count-IsFine noted fine in
      let (fine3, same3) = reboot-IsFine applied fine4 in
      let fine2 = apply-IsFine op scanned.0 scanned.1 fine3 in
      let (lists, (same2, more)) = scan_fine refreshed fine2 in
      let one : length refreshed.scripts ≡ 1 =
        ap (λ (l : List Bytes). length l) (refresh-scripts host begun) in
      let blank : scanned.0.report.installed ≡ [] =
        ap (λ (r : Report). r.installed) (same2 ∙ refresh-report begun) in
      let made = apply_reports op scanned.0 scanned.1 blank (more ∙ ap suc one) fine3 in
      (
        subst (IsTaken host) (sym same) (taken _ accepts),
        subst (λ (l : List Update). Done host op l (report_inventory host true counted).report)
            (lists ∙ ap (dry_run host) one)
            (Done-same op scanned.1 _ applied.report
              (ap (λ (r : Report). r.installed) same
                ∙ installed
                ∙ ap (λ (r : Report). r.installed) same3)
              (ap (λ (r : Report). r.missing) same ∙ missing ∙ ap (λ (r : Report). r.missing) same3)
              made),
      )
    where
      begun : Progress
      begun = announced host command_id op no_reboot snapshot_id

      refreshed : Progress
      refreshed = refresh host begun

      scanned : Progress × List Update
      scanned = scan_updates host refreshed

      applied : Progress
      applied = apply_updates host op scanned

      noted : Progress
      noted = note_reboot host applied

      counted : Progress
      counted = count_installed host noted

  -- A run that is to report its result and ends with Success was given parameters that it accepts, and
  -- the service took the inventory items of its report. A scan reports nothing installed, and as missing
  -- what its dry run listed. An installing run reports as installed what its dry run listed, and as
  -- missing what a second dry run listed behind the installation; or nothing where there was nothing
  -- to install.
  pub run_baseline-Reported :
      (command_id : Bytes) (parameters : Value)
      → (run_baseline host command_id true parameters).status ≡ success
      → Reported command_id (parse_params parameters)
  unfolding run_baseline
  run_baseline-Reported command_id parameters h =
      work-Reported command_id (parse_params parameters) h
