-- ===== src/Agent/Handle.antt =====
-- src/main.cpp: the handlers of `Agent`, up to the start of the worker.
use haiku_mgmt_agent.Prelude.{
  ℕ, suc, Bool, not, ◌&&◌, ◌||◌, Option, none, some, List, [], ◌∷◌, ◌++◌, if◌then◌else◌,
}
use haiku_mgmt_agent.Prelude.Int.{pos, eqb_ℤ}
use haiku_mgmt_agent.Prelude.Text
use haiku_mgmt_agent.Prelude.Text.{Bytes, codes, starts_with}
use haiku_mgmt_agent.Util.Text.{split}
use haiku_mgmt_agent.Json.Value
use haiku_mgmt_agent.Json.Value.{Doubles, Value, Items, nil, cons, arr, null, is_obj, str_at}
use haiku_mgmt_agent.Json.Parser.{parse}
use haiku_mgmt_agent.Json.Errors.{error_of, value_of}
use haiku_mgmt_agent.Prelude.Text.{is_empty}
use haiku_mgmt_agent.Http.{Response, succeeded}
use haiku_mgmt_agent.Runner.Reply.{AgentInfo, reply_payload}
use haiku_mgmt_agent.Agent.Seen.{SeenCommands, seen}
use haiku_mgmt_agent.Agent.Seen
use haiku_mgmt_agent.Agent.InFlight
use haiku_mgmt_agent.Agent.InFlight.{InFlight, add_command}

-- aws.ssm.<command-id>.<instance-id>: the second part from the end, of the parts between the dots.
unfoldable pub last_but_one : Bytes → List Bytes → Bytes
last_but_one whole [] = whole
last_but_one whole (p ∷ []) = whole
last_but_one whole (p ∷ q ∷ []) = p
last_but_one whole (p ∷ q ∷ r ∷ parts) = last_but_one whole (q ∷ r ∷ parts)

unfoldable pub command_id_from : Bytes → Bytes
command_id_from message_id = last_but_one message_id (split message_id b'.')

-- What the worker's thread is given.
pub record Command : Type 0 where
  pub message_id : Bytes
  pub command_id : Bytes
  pub document : Value
  pub parameters : Value
  pub s3_bucket : Bytes
  pub s3_prefix : Bytes
  pub document_name : Bytes
  pub token : ℕ

-- What the agent does to its surroundings: a call of the service, a drop of the cached credentials, or
-- the start of a worker.
pub data Call : Type 0 where
  get_messages : Call
  replied : (message_id payload : Bytes) → Call
  acknowledged : (message_id : Bytes) → Call
  failed_message : (message_id failure_type : Bytes) → Call
  invalidated : Call
  started : Command → Call

-- The service and the clock: what the n-th attempt at a call meets, none where there are no credentials
-- to sign it, and the two texts of the clock in the n-th payload.
pub record Service : Type 0 where
  pub respond : ℕ → Option Response
  pub date_time : ℕ → Bytes
  pub run_id : ℕ → Bytes

-- `calls` is what was done so far, the latest first.
pub record Agent : Type 0 where
  pub seen : SeenCommands
  pub inflight : InFlight
  pub attempts : ℕ
  pub calls : List Call

abbrev pub internal_handler_exception : Bytes
internal_handler_exception = codes "InternalHandlerException"

-- `check_auth_failure`, for a response that is no success.
unfoldable pub auth_expired : Response → Bool
auth_expired r =
    (eqb_ℤ r.status (pos 403) || eqb_ℤ r.status (pos 400))
    && (Text.contains_text r.body (codes "ExpiredToken")
        || (Text.contains_text r.body (codes "InvalidSignature")
            || Text.contains_text r.body (codes "InvalidClientTokenId")))

unfoldable pub check_auth_failure : Response → Agent → Agent
check_auth_failure r a =
    if succeeded r
    then a
    else if auth_expired r
    then record a { calls = invalidated ∷ a.calls }
    else a

-- `aws::Credentials c; if (creds->get(c)) r = <call>;`
unfoldable pub attempt : Service → Call → Agent → Agent × Option Response
attempt service call a = elim (service.respond a.attempts) [
  | none ↦ (record a { attempts = suc a.attempts }, none)
  | some r ↦ (record a { attempts = suc a.attempts; calls = call ∷ a.calls }, some r)
]

-- What the handlers do with the response of a reply or of an acknowledgement.
unfoldable pub checked : Agent × Option Response → Agent
checked (a, none) = a
checked (a, some r) = check_auth_failure r a

module _ (fp : Doubles) (service : Service) (info : AgentInfo) where
  unfoldable pub send_reply : Bytes → Bytes → Agent → Agent
  send_reply message_id payload a = checked (attempt service (replied message_id payload) a)

  -- The reply and the FailMessage for a payload that cannot be run.
  unfoldable pub reject : Bytes → Bytes → Agent → Agent
  unfolding send_reply
  reject message_id trace a =
      let payload =
        reply_payload fp info (service.date_time a.attempts) (service.run_id a.attempts)
          (codes "Failed") trace [] in
      (attempt service (failed_message message_id internal_handler_exception)
        (send_reply message_id payload a)).0

  -- The reply InProgress, the acknowledgement, and the start of the worker.
  unfoldable pub start_command : Bytes → Bytes → Value → Value → Agent → Agent
  unfolding send_reply
  start_command message_id command_id payload document a =
      let in_progress =
        reply_payload fp info (service.date_time a.attempts) (service.run_id a.attempts)
          (codes "InProgress") [] [] in
      let acked =
        checked (attempt service (acknowledged message_id) (send_reply message_id in_progress a)) in
      let (inflight, token) = add_command acked.inflight command_id in
      let command : Command = record {
        message_id = message_id;
        command_id = command_id;
        document = document;
        parameters = elim (Value.find payload (codes "Parameters")) [ none ↦ null | some p ↦ p ];
        s3_bucket = str_at payload (codes "OutputS3BucketName");
        s3_prefix = str_at payload (codes "OutputS3KeyPrefix");
        document_name = str_at payload (codes "DocumentName");
        token = token;
      } in
      record acked { inflight = inflight; calls = started command ∷ acked.calls }

  unfoldable pub handle_new_command : Bytes → Bytes → Value → Bytes → Agent → Agent
  handle_new_command message_id command_id payload err a =
      if not (is_empty err) || not (is_obj payload)
      then reject message_id
          (codes "haiku-mgmt-agent could not parse the document payload: " ++ err) a
      else elim (Value.find payload (codes "DocumentContent")) [
        | none ↦ reject message_id (codes "document payload has no DocumentContent object") a
        | some document ↦
            if is_obj document
            then start_command message_id command_id payload document a
            else reject message_id (codes "document payload has no DocumentContent object") a
      ]

  unfoldable pub handle_send_command : Value → Agent → Agent
  handle_send_command msg a =
      let message_id = str_at msg (codes "MessageId") in
      let command_id = command_id_from message_id in
      let payload = parse fp (str_at msg (codes "Payload")) in
      if seen a.seen command_id
      then (attempt service (acknowledged message_id) a).0
      else handle_new_command message_id command_id (value_of payload) (error_of payload)
          (record a { seen = Seen.add a.seen command_id })

  unfoldable pub cancel_target : Value → Bytes
  cancel_target msg =
      let message_id = str_at msg (codes "MessageId") in
      let payload = value_of (parse fp (str_at msg (codes "Payload"))) in
      let target = if is_obj payload then str_at payload (codes "CancelMessageId") else [] in
      command_id_from (if is_empty target then message_id else target)

  unfoldable pub handle_cancel_command : Value → Agent → Agent
  handle_cancel_command msg a =
      (attempt service (acknowledged (str_at msg (codes "MessageId")))
        (record a { inflight = (InFlight.cancel a.inflight (cancel_target msg)).0 })).0

  unfoldable pub handle_message : Value → Agent → Agent
  handle_message msg a =
      let message_id = str_at msg (codes "MessageId") in
      let topic = str_at msg (codes "Topic") in
      if is_empty message_id || is_empty topic
      then a
      else if starts_with topic (codes "aws.ssm.sendCommand")
      then handle_send_command msg a
      else if starts_with topic (codes "aws.ssm.cancelCommand")
      then handle_cancel_command msg a
      else (attempt service (failed_message message_id internal_handler_exception) a).0

  -- The messages of one batch, while no stop is requested.
  unfoldable pub handle_messages : Items → (stop : ℕ → Bool) → ℕ → Agent → Agent
  handle_messages nil stop i a = a
  handle_messages (cons m ms) stop i a =
      let rest = handle_messages ms stop (suc i) (handle_message m a) in if stop i then a else rest

  unfoldable pub handle_response : (stop : ℕ → Bool) → Response → Agent → Agent
  handle_response stop r a =
      let body = parse fp r.body in
      if not (succeeded r)
      then check_auth_failure r a
      else if not (is_empty (error_of body))
      then a
      else elim (Value.find (value_of body) (codes "Messages")) [
        | some (arr ms) ↦ handle_messages ms stop 0 a
        | _ ↦ a
      ]

  -- One GetMessages cycle; `stop i` is what `g_stop` holds before the i-th message.
  unfoldable pub poll_once : (stop : ℕ → Bool) → Agent → Agent
  poll_once stop a =
      let (a', response) = attempt service get_messages a in
      elim response [ none ↦ a' | some r ↦ handle_response stop r a' ]
