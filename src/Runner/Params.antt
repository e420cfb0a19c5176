-- ===== src/Runner/Params.antt =====
-- src/runner.cpp: `substitute_scalar`, `parameter_table`, `resolve`, `command_lines` and
-- `precondition_excludes_step`.
use haiku_mgmt_agent.Prelude.{
  ℕ, zero, suc, ◌+◌, ◌-◌, Bool, false, not, ◌&&◌, Option, none, some, List, [], ◌∷◌, ◌++◌, ltb,
  if◌then◌else◌, length, take, drop,
}
use haiku_mgmt_agent.Prelude.Text.{Bytes, codes, bytes_eq, starts_with, find}
use haiku_mgmt_agent.Util.Text.{trim, join, lower}
use haiku_mgmt_agent.Json.Value
use haiku_mgmt_agent.Json.Value.{
  Doubles, Value, Items, Fields, null, boolean, num, str, arr, obj, nil, cons, end, field, is_obj,
  is_arr, lookup, insert, str_or, items,
}
use haiku_mgmt_agent.Json.Dump.{dump}

-- `e.str()` of each element.
unfoldable pub strings : Items → List Bytes
strings nil = []
strings (cons v xs) = str_or v [] ∷ strings xs

unfoldable pub fields : Value → Fields
fields (obj fs) = fs
fields _ = end

-- The defaults of the document's parameters.
unfoldable pub defaults : Fields → Fields → Fields
defaults end table = table
defaults (field k v fs) table =
    defaults fs
      (elim (Value.find v (codes "default")) [ none ↦ table | some def ↦ insert k def table ])

unfoldable pub overrides : Fields → Fields → Fields
overrides end table = table
overrides (field k v fs) table = overrides fs (insert k v table)

unfoldable pub parameter_table : Value → Value → Fields
unfolding defaults overrides fields
parameter_table parameters doc_parameters =
    overrides (fields parameters) (defaults (fields doc_parameters) end)

-- `s.rfind("}}") == s.size() - 2`: the last occurrence stands at the end.
unfoldable pub ends_braces : Bytes → Bool
ends_braces s = starts_with (drop (length s - 2) s) (codes "}}")

-- A string that is exactly one placeholder, and its key.
unfoldable pub whole_placeholder : Bytes → Option Bytes
unfolding ends_braces
whole_placeholder text =
    let s = trim text in
    if ltb 4 (length s) && starts_with s (codes "{{") && ends_braces s
    then some (trim (take (length s - 4) (drop 2 s)))
    else none

-- The list that a placeholder names, if it names one.
unfoldable pub named_list : Fields → Option Bytes → Option Value
named_list table none = none
named_list table (some key) = elim (lookup key table) [
  | none ↦ none
  | some v ↦ if is_arr v then some v else none
]

module _ (fp : Doubles) where
  -- What a placeholder becomes; `whole` is its own text.
  unfoldable pub replacement : Bytes → Option Value → Bytes
  replacement whole none = whole
  replacement whole (some (arr xs)) = join (strings xs) (codes "\n")
  replacement whole (some (num d integral)) = dump fp (num d integral)
  replacement whole (some v) = str_or v []

  -- The loop of `substitute_scalar` on the text that is left.
  unfoldable pub substitute_loop : ℕ → Fields → Bytes → Bytes
  substitute_loop zero params s = []
  substitute_loop (suc fuel) params s = elim (find (codes "{{") s) [
    | none ↦ s
    | some left ↦ elim (find (codes "}}") (drop left s)) [
      | none ↦ s
      | some right ↦
          take left s
          ++ (replacement (take (right + 2) (drop left s))
                (lookup (trim (take (right - 2) (drop (left + 2) s))) params)
              ++ substitute_loop fuel params (drop (left + right + 2) s))
    ]
  ]

  -- Each round takes two bytes at least.
  unfoldable pub substitute_scalar : Bytes → Fields → Bytes
  substitute_scalar s params = substitute_loop (suc (length s)) params s

  unfoldable mutual
    pub walk : Fields → Value → Value
    walk table (str s) = elim (named_list table (whole_placeholder s)) [
      | some v ↦ v
      | none ↦ str (substitute_scalar s table)
    ]
    walk table (arr xs) = arr (walk_items table xs)
    walk table (obj fs) = obj (walk_fields table fs end)
    walk table null = null
    walk table (boolean b) = boolean b
    walk table (num d integral) = num d integral

    pub walk_items : Fields → Items → Items
    walk_items table nil = nil
    walk_items table (cons v xs) = cons (walk table v) (walk_items table xs)

    -- `out.object[kv.first] = walk(kv.second)`
    pub walk_fields : Fields → Fields → Fields → Fields
    walk_fields table end out = out
    walk_fields table (field k v fs) out = walk_fields table fs (insert k (walk table v) out)

  unfoldable pub resolve : Value → Value → Value → Value
  unfolding walk
  resolve node parameters doc_parameters = walk (parameter_table parameters doc_parameters) node

unfoldable pub command_lines : Value → List Bytes
unfolding strings
command_lines inputs = elim (Value.find inputs (codes "runCommand")) [
  | none ↦ []
  | some (arr xs) ↦ strings xs
  | some (str s) ↦ s ∷ []
  | some v ↦ []
]

-- The two strings of `StringEquals`, trimmed and in lower case.
unfoldable pub equal_pair : Value → Option (Bytes × Bytes)
equal_pair precondition = elim (Value.find precondition (codes "StringEquals")) [
  | some (arr (cons a (cons b nil))) ↦ some (lower (trim (str_or a [])), lower (trim (str_or b [])))
  | _ ↦ none
]

unfoldable pub excludes_pair : Bytes → Bytes → Bool
excludes_pair var val =
    if not (bytes_eq var (codes "platformtype"))
      && not (bytes_eq var (codes "{{platformtype}}"))
      && not (bytes_eq var (codes "{{ platformtype }}"))
    then false
    else not (bytes_eq val (codes "linux"))

unfoldable pub precondition_excludes_step : Value → Bool
unfolding equal_pair excludes_pair
precondition_excludes_step precondition = elim (equal_pair precondition) [
  | none ↦ false
  | some (var, val) ↦
      if bytes_eq val (codes "platformtype") then excludes_pair val var else excludes_pair var val
]
