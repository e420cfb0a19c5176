-- ===== src/Patch/Inventory.antt =====
-- src/patch.h, src/patch.cpp: the report and its inventory items.
use haiku_mgmt_agent.Prelude.{
  ℕ, suc, ◌+◌, ◌≤◌, ◌≡◌, min, arith, inl, inr, Bool, true, false, ◌||◌, List, [], ◌∷◌, ◌++◌,
  if◌then◌else◌, leb, length, Bool-cases, length-append, ◌∙◌,
}
use haiku_mgmt_agent.Prelude.Int.{ℤ, pos, negsuc}
use haiku_mgmt_agent.Prelude.Text.{Bytes, codes, bytes_eq, decimal}
use haiku_mgmt_agent.Json.Value.{Value, Items, str, arr, nil, cons}
use haiku_mgmt_agent.Runner.Reply.{object}
use haiku_mgmt_agent.Patch.Transaction.{Update, Operation, scan, install}

pub record Report : Type 0 where
  pub operation : Operation
  pub operation_start : Bytes
  pub operation_end : Bytes
  pub snapshot_id : Bytes
  pub execution_id : Bytes
  pub no_reboot : Bool
  pub installed_count : ℤ
  pub missing : List Update
  pub installed : List Update

unfoldable pub operation_name : Operation → Bytes
operation_name scan = codes "Scan"
operation_name install = codes "Install"

unfoldable pub reboot_option : Bool → Bytes
reboot_option true = codes "NoReboot"
reboot_option false = codes "RebootIfNeeded"

-- `std::to_string` of an `int`.
unfoldable pub decimal_ℤ : ℤ → Bytes
decimal_ℤ (pos n) = decimal n
decimal_ℤ (negsuc n) = b'-' ∷ decimal (suc n)

unfoldable pub max_compliance_rows : ℕ
max_compliance_rows = 1000

unfoldable pub needs_reboot : Bytes → Bool
needs_reboot name = bytes_eq name (codes "haiku") || bytes_eq name (codes "haiku_loader")

unfoldable pub count_pending : List Update → ℕ
count_pending [] = 0
count_pending (u ∷ us) =
    let rest = count_pending us in if needs_reboot u.name then suc rest else rest

unfoldable pub compliance_row : Update → Bytes → Bytes → Value
compliance_row u state installed_time = object (
    (codes "Title", str (u.name ++ (codes "-" ++ u.to)))
    ∷ (codes "KBId", str u.name)
    ∷ (codes "Classification", str [])
    ∷ (codes "Severity", str [])
    ∷ (codes "State", str state)
    ∷ (codes "InstalledTime", str installed_time)
    ∷ [])

-- The loop over `r.installed`: the rows behind those that are there, up to the bound.
unfoldable pub installed_rows : Bytes → List Update → List Value → List Value
installed_rows capture_time [] rows = rows
installed_rows capture_time (u ∷ us) rows =
    let state = if needs_reboot u.name then codes "InstalledPendingReboot" else codes "Installed" in
    let rest =
      installed_rows capture_time us (rows ++ (compliance_row u state capture_time ∷ [])) in
    if leb max_compliance_rows (length rows) then rows else rest

-- The loop over `r.missing`.
unfoldable pub missing_rows : List Update → List Value → List Value
missing_rows [] rows = rows
missing_rows (u ∷ us) rows =
    let rest = missing_rows us (rows ++ (compliance_row u (codes "Missing") [] ∷ [])) in
    if leb max_compliance_rows (length rows) then rows else rest

unfoldable pub compliance_rows : Report → Bytes → List Value
unfolding installed_rows missing_rows
compliance_rows r capture_time = missing_rows r.missing (installed_rows capture_time r.installed [])

abbrev pub array : List Value → Items
array [] = nil
array (v ∷ vs) = cons v (array vs)

unfoldable pub patch_summary : Report → Value
patch_summary r = object (
    (codes "BaselineId", str (codes "haiku-pkgman"))
    ∷ (codes "SnapshotId", str r.snapshot_id)
    ∷ (codes "PatchGroup", str [])
    ∷ (codes "InstalledCount", str (decimal_ℤ r.installed_count))
    ∷ (codes "InstalledOtherCount", str (codes "0"))
    ∷ (codes "InstalledPendingRebootCount", str (decimal (count_pending r.installed)))
    ∷ (codes "InstalledRejectedCount", str (codes "0"))
    ∷ (codes "NotApplicableCount", str (codes "0"))
    ∷ (codes "MissingCount", str (decimal (length r.missing)))
    ∷ (codes "FailedCount", str (codes "0"))
    ∷ (codes "OperationType", str (operation_name r.operation))
    ∷ (codes "OperationStartTime", str r.operation_start)
    ∷ (codes "OperationEndTime", str r.operation_end)
    ∷ (codes "RebootOption", str (reboot_option r.no_reboot))
    ∷ (codes "ExecutionId", str r.execution_id)
    ∷ [])

unfoldable pub inventory_items : Report → Bytes → Value
inventory_items r capture_time =
    let item = λ (type_name : Bytes). λ (content : Items). object (
      (codes "TypeName", str type_name)
      ∷ (codes "SchemaVersion", str (codes "1.0"))
      ∷ (codes "CaptureTime", str capture_time)
      ∷ (codes "Content", arr content)
      ∷ []) in
    arr (
      cons (item (codes "AWS:PatchSummary") (cons (patch_summary r) nil))
        (cons (item (codes "AWS:PatchCompliance") (array (compliance_rows r capture_time))) nil))

length-installed_rows :
    (t : Bytes) (us : List Update) (rows : List Value)
    → length rows ≤ 1000
    → length (installed_rows t us rows) ≡ min 1000 (length rows + length us)
unfolding installed_rows max_compliance_rows
length-installed_rows t [] rows h = omega (arith, h)
length-installed_rows t (u ∷ us) rows h = elim (Bool-cases (leb 1000 (length rows))) [
  | inl e ↦ rw e (ground (arith, e, h))
  | inr e ↦ rw e (
      length-installed_rows t us (rows ++ (row ∷ []))
        (ground (arith, e, length-append rows (row ∷ [])))
      ∙ ground (arith, length-append rows (row ∷ [])))
]
  where
    row : Value
    row =
        compliance_row u
          (if needs_reboot u.name then codes "InstalledPendingReboot" else codes "Installed") t

length-missing_rows :
    (us : List Update) (rows : List Value)
    → length rows ≤ 1000
    → length (missing_rows us rows) ≡ min 1000 (length rows + length us)
unfolding missing_rows max_compliance_rows
length-missing_rows [] rows h = omega (arith, h)
length-missing_rows (u ∷ us) rows h = elim (Bool-cases (leb 1000 (length rows))) [
  | inl e ↦ rw e (ground (arith, e, h))
  | inr e ↦ rw e (
      length-missing_rows us (rows ++ (row ∷ [])) (ground (arith, e, length-append rows (row ∷ [])))
      ∙ ground (arith, length-append rows (row ∷ [])))
]
  where
    row : Value
    row = compliance_row u (codes "Missing") []

-- There is one compliance row for each installed and each missing update, up to 1000 in all.
pub length-compliance_rows :
    (r : Report) (t : Bytes)
    → length (compliance_rows r t) ≡ min 1000 (length r.installed + length r.missing)
unfolding compliance_rows
length-compliance_rows r t = omega (
  arith,
  length-installed_rows t r.installed [] (omega arith),
  length-missing_rows r.missing (installed_rows t r.installed [])
      (omega (arith, length-installed_rows t r.installed [] (omega arith))),
)
