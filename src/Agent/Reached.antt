-- ===== src/Agent/Reached.antt =====
-- src/main.cpp: the states that the agent reaches, and what holds of all of them.
use haiku_mgmt_agent.Prelude.{
  ℕ, suc, ◌<◌, ◌≡◌, refl, arith, inl, inr, Bool, true, false, not, ◌||◌, Option, some, List, [],
  ◌∷◌, length, Bool-cases, Option-cases,
}
use haiku_mgmt_agent.Prelude.Text.{Bytes, codes, contains, starts_with}
use haiku_mgmt_agent.Json.Value
use haiku_mgmt_agent.Json.Value.{Doubles, Value, Items, nil, cons, arr, is_obj, str_at}
use haiku_mgmt_agent.Json.Parser.{parse}
use haiku_mgmt_agent.Json.Errors.{error_of, value_of}
use haiku_mgmt_agent.Prelude.Text.{is_empty}
use haiku_mgmt_agent.Http.{Response, succeeded}
use haiku_mgmt_agent.Runner.Reply.{AgentInfo, reply_payload}
use haiku_mgmt_agent.Agent.Seen
use haiku_mgmt_agent.Agent.Seen.{SeenCommands, Distinct, seen, none_seen, dedup_history}
use haiku_mgmt_agent.Agent.InFlight
use haiku_mgmt_agent.Agent.InFlight.{InFlight, idle, add_command}
use haiku_mgmt_agent.Agent.Handle.{
  Agent, Call, get_messages, acknowledged, failed_message, Service, attempt, checked,
  check_auth_failure, send_reply, reject, start_command, handle_new_command, handle_send_command,
  handle_cancel_command, handle_message, handle_messages, handle_response, poll_once,
  command_id_from, internal_handler_exception, cancel_target,
}
use haiku_mgmt_agent.Agent.Once.{
  started_ids, same_trans, same-attempt, same-attempt-checked, same-check_auth_failure,
  same-send_reply, same-reject, Once, Once-same, Once-start, Once-add,
}

module _ (fp : Doubles) (service : Service) (info : AgentInfo) where
  Once-start_command :
      (id command_id : Bytes) (payload document : Value) (a : Agent)
      → seen a.seen command_id ≡ false
      → Once a
      → Once (
          start_command fp service info id command_id payload document
            (record a { seen = Seen.add a.seen command_id }))
  unfolding start_command
  Once-start_command id command_id payload document a fresh o =
      Once-start a acked _
        (same_trans added (send_reply fp service info id in_progress added) acked
          (same-send_reply fp service info id in_progress added)
          (same-attempt-checked fp service info (acknowledged id)
            (send_reply fp service info id in_progress added) (λ cs. refl)))
        fresh o (add_command acked.inflight command_id).0
    where
      added : Agent
      added = record a { seen = Seen.add a.seen command_id }

      in_progress : Bytes
      in_progress =
          reply_payload fp info (service.date_time a.attempts) (service.run_id a.attempts)
            (codes "InProgress") [] []

      acked : Agent
      acked =
          checked
            (attempt service (acknowledged id) (send_reply fp service info id in_progress added))

  Once-rejected :
      (id command_id trace : Bytes) (a : Agent)
      → Once a
      → Once (reject fp service info id trace (record a { seen = Seen.add a.seen command_id }))
  Once-rejected id command_id trace a o =
      Once-add a (reject fp service info id trace (record a { seen = Seen.add a.seen command_id }))
        command_id
        (same-reject fp service info id trace (record a { seen = Seen.add a.seen command_id })) o

  Once-handle_new_command :
      (id command_id : Bytes) (payload : Value) (err : Bytes) (a : Agent)
      → seen a.seen command_id ≡ false
      → Once a
      → Once (
          handle_new_command fp service info id command_id payload err
            (record a { seen = Seen.add a.seen command_id }))
  unfolding handle_new_command
  Once-handle_new_command id command_id payload err a fresh o =
      elim (Bool-cases (not (is_empty err) || not (is_obj payload))) [
        | inl bad ↦ rw (bad, handle_new_command) (Once-rejected id command_id _ a o)
        | inr good ↦ elim (Option-cases (Value.find payload (codes "DocumentContent"))) [
          | inl e ↦ rw (good, e, handle_new_command) (Once-rejected id command_id _ a o)
          | inr (d, e) ↦ elim (Bool-cases (is_obj d)) [
            | inl k ↦
                rw (good, e, k, handle_new_command)
                  (Once-start_command id command_id payload d a fresh o)
            | inr k ↦ rw (good, e, k, handle_new_command) (Once-rejected id command_id _ a o)
          ]
        ]
      ]

  Once-attempt :
      (c : Call) (a : Agent)
      → ((cs : List Call) → started_ids (c ∷ cs) ≡ started_ids cs)
      → Once a
      → Once (attempt service c a).0
  Once-attempt c a q o = Once-same a (attempt service c a).0 (same-attempt service c a q) o

  Once-handle_send_command :
      (msg : Value) (a : Agent) → Once a → Once (handle_send_command fp service info msg a)
  unfolding handle_send_command
  Once-handle_send_command msg a o =
      elim (Bool-cases (seen a.seen (command_id_from (str_at msg (codes "MessageId"))))) [
        | inl e ↦
            rw (e, handle_send_command)
              (Once-attempt (acknowledged (str_at msg (codes "MessageId"))) a (λ cs. refl) o)
        | inr e ↦
            rw (e, handle_send_command)
              (Once-handle_new_command (str_at msg (codes "MessageId"))
                (command_id_from (str_at msg (codes "MessageId"))) _ _ a e o)
      ]

  Once-handle_cancel_command :
      (msg : Value) (a : Agent) → Once a → Once (handle_cancel_command fp service info msg a)
  unfolding handle_cancel_command
  Once-handle_cancel_command msg a o =
      Once-attempt (acknowledged (str_at msg (codes "MessageId")))
        (record a { inflight = (InFlight.cancel a.inflight (cancel_target fp service info msg)).0 })
        (λ cs. refl) (Once-same a _ (refl, refl) o)

  Once-handle_message :
      (msg : Value) (a : Agent) → Once a → Once (handle_message fp service info msg a)
  unfolding handle_message
  Once-handle_message msg a o =
      elim (Bool-cases
        (is_empty (str_at msg (codes "MessageId")) || is_empty (str_at msg (codes "Topic")))) [
          | inl e ↦ rw (e, handle_message) o
          | inr e ↦
              elim (Bool-cases
                (starts_with (str_at msg (codes "Topic")) (codes "aws.ssm.sendCommand"))) [
                  | inl k ↦ rw (e, k, handle_message) (Once-handle_send_command msg a o)
                  | inr k ↦
                      elim (Bool-cases (
                        starts_with (str_at msg (codes "Topic")) (codes "aws.ssm.cancelCommand"))) [
                          | inl c ↦
                              rw (e, k, c, handle_message) (Once-handle_cancel_command msg a o)
                          | inr c ↦
                              rw (e, k, c, handle_message)
                                (Once-attempt
                                  (failed_message (str_at msg (codes "MessageId"))
                                    internal_handler_exception)
                                  a (λ cs. refl) o)
                        ]
                ]
        ]

  Once-handle_messages :
      (ms : Items) (stop : ℕ → Bool) (i : ℕ) (a : Agent)
      → Once a
      → Once (handle_messages fp service info ms stop i a)
  unfolding handle_messages
  Once-handle_messages nil stop i a o = o
  Once-handle_messages (cons m ms) stop i a o = elim (Bool-cases (stop i)) [
    | inl e ↦ rw (e, handle_messages) o
    | inr e ↦
        rw (e, handle_messages)
          (Once-handle_messages ms stop (suc i) (handle_message fp service info m a)
            (Once-handle_message m a o))
  ]

  Once-messages_of :
      (v : Option Value) (stop : ℕ → Bool) (a : Agent)
      → Once a
      → Once (elim v [ some (arr ms) ↦ handle_messages fp service info ms stop 0 a | _ ↦ a ])
  Once-messages_of (some (arr ms)) stop a o = Once-handle_messages ms stop 0 a o
  Once-messages_of _ stop a o = o

  Once-handle_response :
      (stop : ℕ → Bool) (r : Response) (a : Agent)
      → Once a
      → Once (handle_response fp service info stop r a)
  unfolding handle_response
  Once-handle_response stop r a o = elim (Bool-cases (not (succeeded r))) [
    | inl e ↦
        rw (e, handle_response)
          (Once-same a (check_auth_failure r a) (same-check_auth_failure r a) o)
    | inr e ↦ elim (Bool-cases (not (is_empty (error_of (parse fp r.body))))) [
      | inl k ↦ rw (e, k, handle_response) o
      | inr k ↦
          rw (e, k, handle_response)
            (Once-messages_of (Value.find (value_of (parse fp r.body)) (codes "Messages")) stop a o)
    ]
  ]

  Once-poll_once : (stop : ℕ → Bool) (a : Agent) → Once a → Once (poll_once fp service info stop a)
  unfolding poll_once
  Once-poll_once stop a o = elim (Option-cases (attempt service get_messages a).1) [
    | inl e ↦ rw (e, poll_once) (Once-attempt get_messages a (λ cs. refl) o)
    | inr (r, e) ↦
        rw (e, poll_once)
          (Once-handle_response stop r (attempt service get_messages a).0
            (Once-attempt get_messages a (λ cs. refl) o))
  ]

-- The agent before its first poll.
unfoldable pub fresh_agent : Agent
fresh_agent = record { seen = none_seen; inflight = idle; attempts = 0; calls = [] }

-- The poll loop's rounds, and the worker threads that end and send their last reply between them.
pub data Reached (fp : Doubles) (service : Service) (info : AgentInfo) : Agent → Type 0 where
  fresh : Reached fp service info fresh_agent
  polled :
      (stop : ℕ → Bool) (a : Agent)
      → Reached fp service info a
      → Reached fp service info (poll_once fp service info stop a)
  ended :
      (message_id payload command_id : Bytes) (a : Agent)
      → Reached fp service info a
      → Reached fp service info (record (send_reply fp service info message_id payload a) {
        inflight =
            InFlight.done (send_reply fp service info message_id payload a).inflight command_id;
      })

Once-Reached :
    (fp : Doubles) (service : Service) (info : AgentInfo) (a : Agent)
    → Reached fp service info a
    → Once a
unfolding fresh_agent none_seen contains
Once-Reached fp service info _ fresh = record {
  valid = record { same = λ id. refl; distinct = tt; bounded = ground arith };
  once = λ room. tt;
  known = λ room y k. absurd (ground (arith, k));
}
Once-Reached fp service info _ (polled stop a r) =
    Once-poll_once fp service info stop a (Once-Reached fp service info a r)
Once-Reached fp service info _ (ended id payload c a r) =
    Once-same a _ (same-send_reply fp service info id payload a) (Once-Reached fp service info a r)

-- Whatever is delivered, however often, and whichever workers end in between: as long as fewer than 512
-- ids stand in the history, no command id was started twice.
pub Reached-once :
    (fp : Doubles) (service : Service) (info : AgentInfo) (a : Agent)
    → Reached fp service info a
    → length a.seen.order < dedup_history
    → Distinct (started_ids a.calls)
Reached-once fp service info a r room = (Once-Reached fp service info a r).once room

-- In every state that the agent reaches with fewer than 512 ids in the history, another delivery of a
-- command that was started does what the acknowledgement alone does: it starts nothing, and leaves the
-- history and the commands in flight as they are.
pub redelivery_acknowledged :
    (fp : Doubles) (service : Service) (info : AgentInfo) (a : Agent) (msg : Value)
    → Reached fp service info a
    → length a.seen.order < dedup_history
    → contains (started_ids a.calls) (command_id_from (str_at msg (codes "MessageId"))) ≡ true
    → handle_send_command fp service info msg a
      ≡ (attempt service (acknowledged (str_at msg (codes "MessageId"))) a).0
unfolding handle_send_command
redelivery_acknowledged fp service info a msg r room k =
    rw
      (
        (Once-Reached fp service info a r).known room
            (command_id_from (str_at msg (codes "MessageId"))) k,
        handle_send_command,
      )
      refl
