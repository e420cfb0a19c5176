-- ===== src/Agent/Order.antt =====
-- src/main.cpp: what the service sees of one delivered command, and in which order.
use haiku_mgmt_agent.Prelude.{
  ℕ, suc, ◌≡◌, refl, inl, inr, true, false, Option, none, some, [], ◌∷◌, if◌then◌else◌, Bool-cases,
  Option-cases,
}
use haiku_mgmt_agent.Prelude.Text.{Bytes, codes}
use haiku_mgmt_agent.Json.Value
use haiku_mgmt_agent.Json.Value.{Doubles, Value, is_obj, str_at}
use haiku_mgmt_agent.Json.Parser.{Result, parse}
use haiku_mgmt_agent.Json.Errors.{error_of, value_of}
use haiku_mgmt_agent.Prelude.Text.{is_empty}
use haiku_mgmt_agent.Http.{Response, succeeded}
use haiku_mgmt_agent.Runner.Reply.{AgentInfo, reply_payload}
use haiku_mgmt_agent.Agent.Seen
use haiku_mgmt_agent.Agent.Seen.{SeenCommands, seen}
use haiku_mgmt_agent.Agent.InFlight.{add_command, token_of, token_of-added}
use haiku_mgmt_agent.Agent.Handle.{
  Agent, Call, Command, replied, acknowledged, failed_message, started, Service, attempt, checked,
  check_auth_failure, send_reply, reject, start_command, handle_new_command, handle_send_command,
  command_id_from, internal_handler_exception,
}

-- The service answers every call, and with a success.
abbrev pub Answers : Service → Type 0
Answers service = (n : ℕ) → (r : Response) × ((service.respond n ≡ some r) × (succeeded r ≡ true))

attempt_calls :
    (service : Service) (c : Call) (a : Agent)
    → Answers service
    → (attempt service c a).0 ≡ record a { attempts = suc a.attempts; calls = c ∷ a.calls }
unfolding attempt
attempt_calls service c a h = rw ((h a.attempts).1.0, attempt) refl

checked_calls :
    (service : Service) (c : Call) (a : Agent)
    → Answers service
    → checked (attempt service c a) ≡ record a { attempts = suc a.attempts; calls = c ∷ a.calls }
unfolding attempt checked check_auth_failure
checked_calls service c a h = rw ((h a.attempts).1.0, attempt) (rw ((h a.attempts).1.1) refl)

-- The document that a payload carries: the object `DocumentContent` of an object.
abbrev pub document_content : Value → Option Value
document_content payload =
    if is_obj payload
    then elim (Value.find payload (codes "DocumentContent")) [
      | none ↦ none
      | some d ↦ if is_obj d then some d else none
    ]
    else none

module _ (fp : Doubles) (service : Service) (info : AgentInfo) where
  -- The reply of a command with this status, by the clock's texts at its attempt.
  abbrev pub reply_with : Bytes → Bytes → Agent → Bytes
  reply_with status trace a =
      reply_payload fp info (service.date_time a.attempts) (service.run_id a.attempts) status trace
        []

  -- A rejected command: the reply Failed with a reason, then the FailMessage, and nothing else.
  abbrev pub Rejects : Bytes → Agent → Agent → Type 0
  Rejects id a b =
      (b.inflight ≡ a.inflight)
      × ((trace : Bytes) × ((is_empty trace ≡ false)
            × (b.calls
                ≡ failed_message id internal_handler_exception
                  ∷ replied id (reply_with (codes "Failed") trace a)
                  ∷ a.calls)))

  -- A command that is run: the reply InProgress, the acknowledgement, and the start of a worker, which
  -- has the document and the token under which the command can be cancelled.
  abbrev pub Starts : Bytes → Value → Agent → Agent → Type 0
  Starts id document a b =
      (c : Command) × ((b.calls
          ≡ started c
            ∷ acknowledged id
            ∷ replied id (reply_with (codes "InProgress") [] a)
            ∷ a.calls)
        × ((c.document ≡ document)
            × ((c.command_id ≡ command_id_from id)
                × (token_of b.inflight.running (command_id_from id) ≡ some c.token))))

module _ (fp : Doubles) (service : Service) (info : AgentInfo) (h : Answers service) where
  reject_calls :
      (id trace : Bytes) (a : Agent)
      → is_empty trace ≡ false
      → Rejects fp service info id a (reject fp service info id trace a)
  unfolding reject send_reply
  reject_calls id trace a reason =
      rw (checked_calls service (replied id payload) a h, reject)
        (rw
          (attempt_calls service (failed_message id internal_handler_exception)
            (record a { attempts = suc a.attempts; calls = replied id payload ∷ a.calls }) h)
          (refl, (trace, (reason, refl))))
    where
      payload : Bytes
      payload =
          reply_payload fp info (service.date_time a.attempts) (service.run_id a.attempts)
            (codes "Failed") trace []

  start_calls :
      (id : Bytes) (payload document : Value) (a : Agent)
      → Starts fp service info id document a
          (start_command fp service info id (command_id_from id) payload document a)
  unfolding start_command send_reply add_command
  start_calls id payload document a = rw (checked_calls service (replied id in_progress) a h) (
      rw
        (checked_calls service (acknowledged id)
          (record a { attempts = suc a.attempts; calls = replied id in_progress ∷ a.calls }) h)
        (_, (refl, (refl, (refl, token_of-added a.inflight (command_id_from id))))))
    where
      in_progress : Bytes
      in_progress =
          reply_payload fp info (service.date_time a.attempts) (service.run_id a.attempts)
            (codes "InProgress") [] []

  abbrev pub Outcome : Bytes → Option Value → Agent → Agent → Type 0
  Outcome id none a b = Rejects fp service info id a b
  Outcome id (some d) a b = Starts fp service info id d a b

  new_command_calls :
      (id : Bytes) (payload : Value) (err : Bytes) (a : Agent)
      → Outcome id
          (if is_empty err then document_content payload else none)
          a
          (handle_new_command fp service info id (command_id_from id) payload err a)
  unfolding handle_new_command
  new_command_calls id payload err a = elim (Bool-cases (is_empty err)) [
    | inr e ↦ rw (e, handle_new_command) (reject_calls id _ a refl)
    | inl e ↦ elim (Bool-cases (is_obj payload)) [
      | inr o ↦ rw (e, o, handle_new_command) (reject_calls id _ a refl)
      | inl o ↦ elim (Option-cases (Value.find payload (codes "DocumentContent"))) [
        | inl f ↦ rw (e, o, f, handle_new_command) (reject_calls id _ a refl)
        | inr (d, f) ↦ elim (Bool-cases (is_obj d)) [
          | inl k ↦ rw (e, o, f, k, handle_new_command) (start_calls id payload d a)
          | inr k ↦ rw (e, o, f, k, handle_new_command) (reject_calls id _ a refl)
        ]
      ]
    ]
  ]

  -- The outcome does not read the history.
  outcome_added :
      (id : Bytes) (o : Option Value) (a b : Agent) (s : SeenCommands)
      → Outcome id o (record a { seen = s }) b
      → Outcome id o a b
  outcome_added id none a b s p = p
  outcome_added id (some d) a b s p = p

  -- Where the service answers every call with a success, a delivery of a command that was not seen before
  -- makes exactly these calls: with a payload that parses to an object with an object `DocumentContent`,
  -- a reply with the status InProgress, then the acknowledgement, then the start of one worker with that
  -- document and a token under which the command can be cancelled; with any other payload, a reply with
  -- the status Failed and a reason, then the FailMessage, and nothing is put in flight.
  pub handle_send_command_calls :
      (msg : Value) (a : Agent)
      → seen a.seen (command_id_from (str_at msg (codes "MessageId"))) ≡ false
      → Outcome
          (str_at msg (codes "MessageId"))
          (if is_empty (error_of (parse fp (str_at msg (codes "Payload"))))
            then document_content (value_of (parse fp (str_at msg (codes "Payload"))))
            else none)
          a
          (handle_send_command fp service info msg a)
  unfolding handle_send_command
  handle_send_command_calls msg a new =
      rw (new, handle_send_command)
        (outcome_added id _ a _ (Seen.add a.seen (command_id_from id)) (
          new_command_calls id (value_of payload) (error_of payload)
            (record a { seen = Seen.add a.seen (command_id_from id) })))
    where
      id : Bytes
      id = str_at msg (codes "MessageId")

      payload : Result
      payload = parse fp (str_at msg (codes "Payload"))
