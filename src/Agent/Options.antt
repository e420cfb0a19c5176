-- ===== src/Agent/Options.antt =====
-- src/main.cpp: the command line of `main` and of its subcommands.
use haiku_mgmt_agent.Prelude.{
  Bool, true, false, ◌&&◌, ◌||◌, Option, none, some, List, [], ◌∷◌, if◌then◌else◌,
}
use haiku_mgmt_agent.Prelude.Text.{Bytes, is_empty, bytes_eq, codes}

pub data Level : Type 0 where
  debug info warn error : Level

pub record Options : Type 0 where
  pub log_path : Bytes
  pub level : Level
  pub foreground : Bool
  pub ping_once : Bool
  pub poll_once : Bool
  pub time_sync : Bool
  pub session_manager : Bool
  pub update_manifest : Bytes
  pub binary_path : Bytes

unfoldable pub default_binary_path : Bytes
default_binary_path = codes "/boot/system/non-packaged/bin/haiku-mgmt-agent"

unfoldable pub default_options : Options
unfolding default_binary_path
default_options = record {
  log_path = codes "/var/log/haiku-mgmt-agent.log";
  level = info;
  foreground = false;
  ping_once = false;
  poll_once = false;
  time_sync = true;
  session_manager = true;
  update_manifest = [];
  binary_path = default_binary_path;
}

unfoldable pub level_of : Bytes → Level
level_of l =
    if bytes_eq l (codes "debug")
    then debug
    else if bytes_eq l (codes "warn")
    then warn
    else if bytes_eq l (codes "error")
    then error
    else info

-- The loop goes on with these options, or `main` returns: 0 for help and version, 2 for another argument.
pub data Parsing : Type 0 where
  options : Options → Parsing
  help version : Parsing
  unknown : Bytes → Parsing

-- An argument without a value.
unfoldable pub set_flag : Bytes → Options → Parsing
set_flag a o =
    if bytes_eq a (codes "--help") || bytes_eq a (codes "-h")
    then help
    else if bytes_eq a (codes "--version")
    then version
    else if bytes_eq a (codes "--foreground")
    then options (record o { foreground = true })
    else if bytes_eq a (codes "--ping-once")
    then options (record o { ping_once = true; foreground = true })
    else if bytes_eq a (codes "--poll-once")
    then options (record o { poll_once = true; foreground = true })
    else if bytes_eq a (codes "--no-time-sync")
    then options (record o { time_sync = false })
    else if bytes_eq a (codes "--no-session-manager")
    then options (record o { session_manager = false })
    else unknown a

-- An argument that takes the next one as its value, if it is one.
unfoldable pub set_value : Bytes → Bytes → Options → Option Options
unfolding level_of
set_value a v o =
    if bytes_eq a (codes "--update-manifest")
    then some (record o { update_manifest = v })
    else if bytes_eq a (codes "--binary-path")
    then some (record o { binary_path = v })
    else if bytes_eq a (codes "--log-file")
    then some (record o { log_path = v })
    else if bytes_eq a (codes "--log-level")
    then some (record o { level = level_of v })
    else none

unfoldable pub then_options : (Options → Parsing) → Parsing → Parsing
then_options again (options o) = again o
then_options again help = help
then_options again version = version
then_options again (unknown a) = unknown a

-- The arguments behind the program's name. The names of the two kinds differ, so the order of the tests
-- of an argument does not matter.
unfoldable pub parse_options : List Bytes → Options → Parsing
unfolding set_flag set_value then_options
parse_options [] o = options o
parse_options (a ∷ []) o = set_flag a o
parse_options (a ∷ v ∷ rest) o =
    let flagged = then_options (parse_options (v ∷ rest)) (set_flag a o) in
    let valued : Option Parsing = elim (set_value a v o) [
      | none ↦ none
      | some p ↦ some (parse_options rest p)
    ] in
    elim valued [ none ↦ flagged | some p ↦ p ]

-- `patch scan|install [--no-report]`: the operation and whether to report, or the exit code 2.
unfoldable pub parse_patch : List Bytes → Bytes → Bool → Option (Bytes × Bool)
parse_patch [] operation report = if is_empty operation then none else some (operation, report)
parse_patch (a ∷ rest) operation report =
    let quiet = parse_patch rest operation false in
    let chosen = parse_patch rest a report in
    if bytes_eq a (codes "--no-report")
    then quiet
    else if is_empty operation && (bytes_eq a (codes "scan") || bytes_eq a (codes "install"))
    then chosen
    else none

-- `self-update`: the manifest, the path of the binary and whether to restart, or the exit code 2.
pub record UpdateArguments : Type 0 where
  pub manifest : Bytes
  pub path : Bytes
  pub restart : Bool

unfoldable pub parse_self_update : List Bytes → UpdateArguments → Option UpdateArguments
parse_self_update [] u = if is_empty u.manifest then none else some u
parse_self_update (a ∷ []) u =
    let done = if is_empty u.manifest then none else some (record u { restart = true }) in
    if bytes_eq a (codes "--restart") then done else none
parse_self_update (a ∷ v ∷ rest) u =
    let with_manifest = parse_self_update rest (record u { manifest = v }) in
    let with_path = parse_self_update rest (record u { path = v }) in
    let restarted = parse_self_update (v ∷ rest) (record u { restart = true }) in
    if bytes_eq a (codes "--manifest")
    then with_manifest
    else if bytes_eq a (codes "--binary-path")
    then with_path
    else if bytes_eq a (codes "--restart")
    then restarted
    else none
