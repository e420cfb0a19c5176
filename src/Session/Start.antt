-- ===== src/Session/Start.antt =====
-- src/session.cpp: `parse_start_request`, `build_handshake_request`, `handshake_response_ok`.
use haiku_mgmt_agent.Prelude.{Bool, false, ◌||◌, Option, none, some, [], ◌++◌, if◌then◌else◌, ◌==◌}
use haiku_mgmt_agent.Prelude.Int.{pos}
use haiku_mgmt_agent.Prelude.Text.{Bytes, is_empty, codes, bytes_eq}
use haiku_mgmt_agent.Util.Text.{lower}
use haiku_mgmt_agent.Json.Value.{
  Doubles, Value, Items, str, arr, obj, nil, cons, end, is_obj, is_arr, find, str_at, bl, num_at,
  items, insert,
}
use haiku_mgmt_agent.Json.Parser.{Result, parsed, parse}
use haiku_mgmt_agent.Json.Dump.{dump}

-- Why a request is rejected; `none` is the empty `error`.
pub data Rejection : Type 0 where
  envelope_not_json : Rejection
  content_not_json : Rejection
  no_session_id : Rejection

pub record StartRequest : Type 0 where
  pub session_id : Bytes
  pub document_name : Bytes
  pub session_type : Bytes
  pub kms_key_id : Bytes
  pub run_as_enabled : Bool
  pub run_as_user : Bytes
  pub shell_commands : Bytes
  pub error : Option Rejection

abbrev pub empty_request : StartRequest
empty_request = record {
  session_id = [];
  document_name = [];
  session_type = [];
  kms_key_id = [];
  run_as_enabled = false;
  run_as_user = [];
  shell_commands = [];
  error = none;
}

-- The object of a parse that succeeded.
abbrev pub as_object : Result → Option Value
as_object (parsed v) = if is_obj v then some v else none
as_object _ = none

-- A member that is an object.
abbrev pub object_at : Value → Bytes → Option Value
object_at v key = elim (find v key) [ none ↦ none | some w ↦ if is_obj w then some w else none ]

unfoldable pub read_inputs : StartRequest → Value → StartRequest
read_inputs sr inputs =
    let profile = object_at inputs (codes "shellProfile") in
    record sr {
      kms_key_id = str_at inputs (codes "kmsKeyId");
      run_as_enabled = elim (find inputs (codes "runAsEnabled")) [
        | none ↦ sr.run_as_enabled
        | some rae ↦ bl rae false
      ];
      run_as_user = str_at inputs (codes "runAsDefaultUser");
      shell_commands = elim profile [
        | none ↦ sr.shell_commands
        | some p ↦ str_at p (codes "linux")
      ];
    }

unfoldable pub read_document : StartRequest → Value → StartRequest
unfolding read_inputs
read_document sr doc =
    let typed = record sr { session_type = str_at doc (codes "sessionType") } in
    elim (object_at doc (codes "inputs")) [ none ↦ typed | some inputs ↦ read_inputs typed inputs ]

unfoldable pub read_task : Value → StartRequest
unfolding read_document
read_task task =
    let named = record empty_request {
      session_id = str_at task (codes "SessionId");
      document_name = str_at task (codes "DocumentName");
    } in
    let filled : StartRequest = elim (object_at task (codes "DocumentContent")) [
      | none ↦ named
      | some doc ↦ read_document named doc
    ] in
    if is_empty filled.session_id then record filled { error = some no_session_id } else filled

-- The result of `handshake_response_ok`, with what it stores.
pub data Handshake : Type 0 where
  accepted : (client_version : Bytes) → Handshake
  rejected : (client_version reason : Bytes) → Handshake
  not_json : Handshake
  no_actions : (client_version : Bytes) → Handshake

module _ (fp : Doubles) where
  -- The inner document stands under "content", or under "Content" where that is absent or empty.
  unfoldable pub parse_start_request : Bytes → StartRequest
  unfolding read_task
  parse_start_request mgs_payload = elim (as_object (parse fp mgs_payload)) [
    | none ↦ record empty_request { error = some envelope_not_json }
    | some envelope ↦
        let lower_inner = str_at envelope (codes "content") in
        let inner =
          if is_empty lower_inner then str_at envelope (codes "Content") else lower_inner in
        elim (as_object (parse fp inner)) [
          | none ↦ record empty_request { error = some content_not_json }
          | some task ↦ read_task task
        ]
  ]

  unfoldable pub build_handshake_request : Bytes → Bytes → Value → Bytes
  build_handshake_request agent_version session_type properties =
      let params =
        insert (codes "Properties") properties
          (insert (codes "SessionType") (str session_type) end) in
      let action =
        insert (codes "ActionParameters") (obj params)
          (insert (codes "ActionType") (str (codes "SessionType")) end) in
      let req =
        insert (codes "RequestedClientActions") (arr (cons (obj action) nil))
          (insert (codes "AgentVersion") (str agent_version) end) in
      dump fp (obj req)

  -- "1", "success" in any case, or the number 1; the number is read from a string too.
  unfoldable pub action_ok : Value → Bool
  action_ok a =
      let status = str_at a (codes "ActionStatus") in
      bytes_eq status (codes "1")
      || bytes_eq (lower status) (codes "success")
      || num_at fp a (codes "ActionStatus") (fp.of_int (pos 0)) == fp.of_int (pos 1)

  -- The message of the first action that failed.
  unfoldable pub failed_action : Items → Option Bytes
  unfolding action_ok
  failed_action nil = none
  failed_action (cons a rest) =
      let later = failed_action rest in
      if action_ok a
      then later
      else some (
          str_at a (codes "ActionType")
          ++ (codes " failed on client: " ++ str_at a (codes "Error")))

  unfoldable pub handshake_response_ok : Bytes → Handshake
  unfolding failed_action
  handshake_response_ok response_json = elim (as_object (parse fp response_json)) [
    | none ↦ not_json
    | some v ↦
        let version = str_at v (codes "ClientVersion") in
        elim (find v (codes "ProcessedClientActions")) [
          | none ↦ no_actions version
          | some actions ↦
              if is_arr actions
              then elim (failed_action (items actions)) [
                | none ↦ accepted version
                | some reason ↦ rejected version reason
              ]
              else no_actions version
        ]
  ]
