-- ===== src/Patch/Transaction.antt =====
-- src/patch.cpp: what pkgman prints of a transaction, and the parameters of the document.
use haiku_mgmt_agent.Prelude.{
  ℕ, ◌+◌, ◌≡◌, refl, arith, Bool, ◌||◌, Option, none, some, List, [], ◌∷◌, ◌++◌, if◌then◌else◌,
  length, take, drop, take-append, drop-append, drop-drop, ap, ◌∙◌,
}
use haiku_mgmt_agent.Prelude.Text
use haiku_mgmt_agent.Prelude.Text.{Bytes, codes, bytes_eq, starts_with, find_byte}
use haiku_mgmt_agent.Util.Text.{split, trim, lower}
use haiku_mgmt_agent.Json.Value
use haiku_mgmt_agent.Json.Value.{Value, arr, nil, cons, str_or}
use haiku_mgmt_agent.Prelude.Text.{is_empty}

pub record Update : Type 0 where
  pub kind : Bytes
  pub name : Bytes
  pub from : Bytes
  pub to : Bytes

unfoldable pub is_patch_document : Bytes → Bool
is_patch_document name =
    bytes_eq name (codes "AWS-RunPatchBaseline")
    || bytes_eq name (codes "AWS-RunPatchBaselineAssociation")

-- The name and the version, which the first dash separates.
unfoldable pub split_name_version : Bytes → Bytes × Bytes
split_name_version s = elim (find_byte b'-' s) [
  | none ↦ (s, [])
  | some dash ↦ (take dash s, drop (dash + 1) s)
]

-- The first of the three kinds with whose words the line starts, and what stands behind them.
unfoldable pub transaction_kind : List Bytes → Bytes → Option (Bytes × Bytes)
transaction_kind [] line = none
transaction_kind (k ∷ ks) line =
    let prefix = k ++ codes " package " in
    if starts_with line prefix
    then some (k, drop (length prefix) line)
    else transaction_kind ks line

-- Where the right-hand side stands: its position and the length of the words before it.
unfoldable pub find_to : Bytes → Option (ℕ × ℕ)
find_to line = elim (Text.find (codes " to version ") line) [
  | some at ↦ some (at, 12)
  | none ↦ elim (Text.find (codes " to ") line) [ some at ↦ some (at, 4) | none ↦ none ]
]

unfoldable pub update_of : Bytes → Bytes → Update
unfolding find_to
update_of kind line = elim (find_to line) [
  | none ↦
      let (name, version) = split_name_version line in
      record { kind = kind; name = name; from = []; to = version }
  | some at ↦
      let (name, version) = split_name_version (trim (take at.0 line)) in
      let to = trim (drop (at.0 + at.1) line) in
      record {
        kind = kind;
        name = name;
        from = version;
        to =
            if starts_with to (name ++ codes "-") then drop (length (name ++ codes "-")) to else to;
      }
]

unfoldable pub without_repository : Bytes → Bytes
without_repository line = elim (Text.find (codes " from repository ") line) [
  | none ↦ line
  | some at ↦ take at line
]

unfoldable pub transaction_lines : List Bytes → List Update
unfolding transaction_kind
transaction_lines [] = []
transaction_lines (line ∷ lines) =
    let rest = transaction_lines lines in
    elim (transaction_kind (codes "upgrade" ∷ codes "install" ∷ codes "downgrade" ∷ [])
      (trim line)) [
        | none ↦ rest
        | some k ↦
            let u = update_of k.0 (trim (without_repository k.1)) in
            if is_empty u.name then rest else u ∷ rest
      ]

unfoldable pub parse_pkgman_transaction : Bytes → List Update
unfolding transaction_lines
parse_pkgman_transaction output = transaction_lines (split output b'\n')

-- `parameters.find(key)`: the string, or the first of a list.
unfoldable pub param_str : Value → Bytes → Bytes
param_str parameters key = elim (Value.find parameters key) [
  | none ↦ []
  | some (arr nil) ↦ []
  | some (arr (cons v vs)) ↦ str_or v []
  | some v ↦ str_or v []
]

pub data Operation : Type 0 where
  scan install : Operation

-- `error` is the text of an operation that is none.
pub data PatchParams : Type 0 where
  rejected : (error : Bytes) → PatchParams
  accepted : Operation → (no_reboot : Bool) (snapshot_id : Bytes) → PatchParams

unfoldable pub parse_params : Value → PatchParams
parse_params parameters =
    let op = lower (trim (param_str parameters (codes "Operation"))) in
    let reboot = lower (trim (param_str parameters (codes "RebootOption"))) in
    let no_reboot = bytes_eq reboot (codes "noreboot") in
    let snapshot_id = param_str parameters (codes "SnapshotId") in
    if bytes_eq op (codes "scan")
    then accepted scan no_reboot snapshot_id
    else if bytes_eq op (codes "install")
    then accepted install no_reboot snapshot_id
    else rejected (
        codes "Operation must be Scan or Install (got '"
        ++ (param_str parameters (codes "Operation") ++ codes "')"))

-- The first dash of `name ++ "-" ++ version` where the name has none.
find_byte-append :
    (b : ℕ) (name rest : Bytes)
    → find_byte b name ≡ none
    → find_byte b (name ++ (b ∷ rest)) ≡ some (length name)
unfolding find_byte
find_byte-append b [] rest h = ground arith
find_byte-append b (c ∷ name) rest h =
    rw (find_byte-append b name rest (ground arith)) (ground arith)

-- A name without a dash and any version are read back from the text that joins them with a dash.
pub split_name_version-join :
    (name version : Bytes)
    → find_byte b'-' name ≡ none
    → split_name_version (name ++ (b'-' ∷ version)) ≡ (name, version)
unfolding split_name_version
split_name_version-join name version h =
    rw (find_byte-append b'-' name version h, split_name_version)
      (rw (take-append (length name) name (b'-' ∷ version) refl) (rw behind refl))
  where
    behind : drop (length name + 1) (name ++ (b'-' ∷ version)) ≡ version
    behind =
        drop-drop (length name) 1 (name ++ (b'-' ∷ version))
        ∙ ap (drop 1) (drop-append (length name) name (b'-' ∷ version) refl)
