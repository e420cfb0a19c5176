-- ===== src/Agent/Once.antt =====
-- src/main.cpp: no command is started twice, whatever is delivered and in whatever order.
use haiku_mgmt_agent.Prelude.{
  ◌<◌, ◌≡◌, refl, sym, subst, ◌∙◌, arith, inl, inr, true, false, Option, none, some, List, [], ◌∷◌,
  length, Bool-cases, Option-cases,
}
use haiku_mgmt_agent.Prelude.Text.{Bytes, codes, contains}
use haiku_mgmt_agent.Json.Value.{Doubles}
use haiku_mgmt_agent.Http.{Response}
use haiku_mgmt_agent.Runner.Reply.{AgentInfo, reply_payload}
use haiku_mgmt_agent.Agent.Seen
use haiku_mgmt_agent.Agent.Seen.{
  SeenCommands, IsValid, Distinct, seen, add-IsValid, seen-add, room_before, none_seen,
  dedup_history, evict,
}
use haiku_mgmt_agent.Agent.InFlight.{InFlight}
use haiku_mgmt_agent.Agent.Handle.{
  Agent, Call, Command, replied, failed_message, started, Service, attempt, checked,
  check_auth_failure, send_reply, reject, internal_handler_exception,
}

-- The commands that were started, the latest first.
abbrev pub started_ids : List Call → List Bytes
started_ids [] = []
started_ids (started c ∷ cs) = c.command_id ∷ started_ids cs
started_ids (_ ∷ cs) = started_ids cs

-- Nothing was started and the history is as before.
abbrev pub SameStarts : Agent → Agent → Type 0
SameStarts a b = (started_ids b.calls ≡ started_ids a.calls) × (b.seen ≡ a.seen)

pub same_trans : (a b c : Agent) → SameStarts a b → SameStarts b c → SameStarts a c
same_trans a b c p q = (q.0 ∙ p.0, q.1 ∙ p.1)

-- A call that starts nothing.
abbrev IsQuiet : Call → Type 0
IsQuiet c = (cs : List Call) → started_ids (c ∷ cs) ≡ started_ids cs

pub same-attempt :
    (service : Service) (c : Call) (a : Agent) → IsQuiet c → SameStarts a (attempt service c a).0
unfolding attempt
same-attempt service c a q = elim (Option-cases (service.respond a.attempts)) [
  | inl e ↦ rw (e, attempt) (refl, refl)
  | inr (r, e) ↦ rw (e, attempt) (q a.calls, refl)
]

pub same-check_auth_failure : (r : Response) (a : Agent) → SameStarts a (check_auth_failure r a)
unfolding check_auth_failure
same-check_auth_failure r a = (ground arith, ground arith)

same-checked : (p : Agent × Option Response) → SameStarts p.0 (checked p)
unfolding checked
same-checked (a, none) = (refl, refl)
same-checked (a, some r) = same-check_auth_failure r a

module _ (fp : Doubles) (service : Service) (info : AgentInfo) where
  pub same-attempt-checked :
      (c : Call) (a : Agent) → IsQuiet c → SameStarts a (checked (attempt service c a))
  same-attempt-checked c a q =
      same_trans a (attempt service c a).0 (checked (attempt service c a))
        (same-attempt service c a q) (same-checked (attempt service c a))

  pub same-send_reply :
      (id payload : Bytes) (a : Agent) → SameStarts a (send_reply fp service info id payload a)
  unfolding send_reply
  same-send_reply id payload a = same-attempt-checked (replied id payload) a (λ cs. refl)

  pub same-reject :
      (id trace : Bytes) (a : Agent) → SameStarts a (reject fp service info id trace a)
  unfolding reject
  same-reject id trace a =
      same_trans a answered
        (attempt service (failed_message id internal_handler_exception) answered).0
        (same-send_reply id payload a)
        (same-attempt service (failed_message id internal_handler_exception) answered (λ cs. refl))
    where
      payload : Bytes
      payload =
          reply_payload fp info (service.date_time a.attempts) (service.run_id a.attempts)
            (codes "Failed") trace []

      answered : Agent
      answered = send_reply fp service info id payload a

-- What holds of every state: the history is valid, and while it has room no command was started twice
-- and every command that was started is in it.
pub record Once (a : Agent) : Type 0 where
  pub valid : IsValid a.seen
  pub once : length a.seen.order < dedup_history → Distinct (started_ids a.calls)
  pub known :
      length a.seen.order < dedup_history
      → (y : Bytes) → contains (started_ids a.calls) y ≡ true
      → seen a.seen y ≡ true

pub Once-same : (a b : Agent) → SameStarts a b → Once a → Once b
Once-same a b h o = record {
  valid = subst IsValid (sym h.1) o.valid;
  once = λ room.
      subst Distinct (sym h.0) (o.once (subst (λ s. length s.order < dedup_history) h.1 room));
  known = λ room y k.
      subst (λ s. seen s y ≡ true) (sym h.1)
        (o.known (subst (λ s. length s.order < dedup_history) h.1 room) y
          (subst (λ ids. contains ids y ≡ true) h.0 k));
}

-- Starting a command whose id was just added, and was not in the history before.
module _ (a b : Agent) (c : Command)
    (h : SameStarts (record a { seen = Seen.add a.seen c.command_id }) b)
    (fresh : seen a.seen c.command_id ≡ false) (o : Once a) where
  room_then : length b.seen.order < dedup_history → length a.seen.order < dedup_history
  room_then room =
      room_before a.seen c.command_id o.valid (subst (λ s. length s.order < dedup_history) h.1 room)

  never_started :
      length a.seen.order < dedup_history → contains (started_ids a.calls) c.command_id ≡ false
  never_started room = elim (Bool-cases (contains (started_ids a.calls) c.command_id)) [
    | inl e ↦ ground (arith, o.known room c.command_id e, fresh)
    | inr e ↦ e
  ]

  known_start :
      length a.seen.order < dedup_history
      → (y : Bytes) → contains (c.command_id ∷ started_ids a.calls) y ≡ true
      → seen (Seen.add a.seen c.command_id) y ≡ true
  unfolding contains
  known_start room y k =
      rw (seen-add a.seen c.command_id y room) (ground (arith, o.known room y, k))

  pub Once-start : (f : InFlight) → Once (record b { inflight = f; calls = started c ∷ b.calls })
  Once-start f = record {
    valid = subst IsValid (sym h.1) (add-IsValid a.seen c.command_id o.valid);
    once = λ room.
        subst (λ ids. (contains ids c.command_id ≡ false) × Distinct ids) (sym h.0)
          (never_started (room_then room), o.once (room_then room));
    known = λ room y k.
        subst (λ s. seen s y ≡ true) (sym h.1)
          (known_start (room_then room) y
            (subst (λ ids. contains (c.command_id ∷ ids) y ≡ true) h.0 k));
  }

-- Adding an id without a start.
pub Once-add :
    (a b : Agent) (id : Bytes)
    → SameStarts (record a { seen = Seen.add a.seen id }) b
    → Once a
    → Once b
Once-add a b id h o = record {
  valid = subst IsValid (sym h.1) (add-IsValid a.seen id o.valid);
  once = λ room. subst Distinct (sym h.0) (o.once (room_then room));
  known = λ room y k.
      subst (λ s. seen s y ≡ true) (sym h.1)
        (rw (seen-add a.seen id y (room_then room)) (
          ground (arith, o.known (room_then room) y (subst (λ ids. contains ids y ≡ true) h.0 k))));
}
  where
    room_then : length b.seen.order < dedup_history → length a.seen.order < dedup_history
    room_then room =
        room_before a.seen id o.valid (subst (λ s. length s.order < dedup_history) h.1 room)
