-- ===== src/Session/Sending.antt =====
-- src/session.cpp: `send_stream`, `pump_outbox`, `send_control` and `send_ack`.
use haiku_mgmt_agent.Prelude.{
  ℕ, suc, Bool, true, false, none, some, List, [], ◌∷◌, ◌++◌, if◌then◌else◌, ◌==◌,
}
use haiku_mgmt_agent.Prelude.Int.{pos}
use haiku_mgmt_agent.Prelude.Text.{Bytes, codes}
use haiku_mgmt_agent.Json.Value.{Doubles, str, num, boolean, obj, end, insert}
use haiku_mgmt_agent.Json.Dump.{dump}
use haiku_mgmt_agent.Mgs.Message.{AgentMessage, serialize}
use haiku_mgmt_agent.Session.Outbox.{Outbox, add, due_resend}

-- The sending side of a data channel: the next number, the outbox, and the frames given to `ws.send`.
pub record Channel : Type 0 where
  pub out_seq : ℕ
  pub outbox : Outbox
  pub sent : List Bytes

unfoldable pub stream_message : (payload_type : ℕ) → Bytes → (seq now_ms : ℕ) → Bytes → AgentMessage
stream_message payload_type text seq now_ms uuid = record {
  message_type = codes "output_stream_data";
  schema_version = 1;
  created_ms = now_ms;
  sequence = seq;
  flags = if seq == 0 then 1 else 0;
  message_id = uuid;
  payload_type = payload_type;
  payload = text;
}

unfoldable pub control_message : Bytes → Bytes → ℕ → Bytes → AgentMessage
control_message message_type json_payload now_ms uuid = record {
  message_type = message_type;
  schema_version = 1;
  created_ms = now_ms;
  sequence = 0;
  flags = 3;
  message_id = uuid;
  payload_type = 0;
  payload = json_payload;
}

-- False when the peer has stopped acknowledging; else the outbox and the frame that is sent again.
unfoldable pub pump_outbox : ℕ → Channel → Bool × Channel
unfolding due_resend
pump_outbox now_ms ch =
    let due = due_resend ch.outbox now_ms in
    let pumped = record ch { outbox = due.buffer } in
    if due.dead then (false, pumped) else elim due.resend [
      | none ↦ (true, pumped)
      | some f ↦ (true, record pumped { sent = ch.sent ++ (f ∷ []) })
    ]

module _ (sha256_raw : Bytes → Bytes) where
  unfoldable pub send_stream : (payload_type : ℕ) → Bytes → (now_ms : ℕ) → Bytes → Channel → Channel
  unfolding stream_message serialize add
  send_stream payload_type text now_ms uuid ch =
      let f = serialize sha256_raw (stream_message payload_type text ch.out_seq now_ms uuid) in
      record {
        out_seq = suc ch.out_seq;
        outbox = add ch.outbox (pos ch.out_seq) f now_ms;
        sent = ch.sent ++ (f ∷ []);
      }

  unfoldable pub send_control : Bytes → Bytes → ℕ → Bytes → Channel → Channel
  unfolding control_message serialize
  send_control message_type json_payload now_ms uuid ch =
      let f = serialize sha256_raw (control_message message_type json_payload now_ms uuid) in
      record ch { sent = ch.sent ++ (f ∷ []) }

  -- `to_double` stands for the cast of the number, an `int64_t`.
  unfoldable pub send_ack : Doubles → (ℕ → ℕ) → AgentMessage → ℕ → Bytes → Channel → Channel
  unfolding send_control insert dump
  send_ack fp to_double m now_ms uuid ch =
      let body = insert (codes "IsSequentialMessage") (boolean true) (
        insert (codes "AcknowledgedMessageSequenceNumber") (num (to_double m.sequence) false) (
          insert (codes "AcknowledgedMessageId") (str m.message_id)
            (insert (codes "AcknowledgedMessageType") (str m.message_type) end))) in
      send_control (codes "acknowledge") (dump fp (obj body)) now_ms uuid ch
