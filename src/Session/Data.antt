-- ===== src/Session/Data.antt =====
-- src/session.cpp: what `run_session` does with a frame of the data channel once the shell runs.
pub mod Ordered
use haiku_mgmt_agent.Prelude.{
  ℕ, zero, suc, ◌+◌, ◌-◌, ◌%◌, ◌^◌, ◌==◌, Bool, true, false, not, Option, none, some, List, [], ◌∷◌,
  ◌++◌, if◌then◌else◌, length, take, drop, min, ltb,
}
use haiku_mgmt_agent.Prelude.Int.{ℤ, pos, negsuc}
use haiku_mgmt_agent.Prelude.Text.{Bytes, codes, bytes_eq}
use haiku_mgmt_agent.Json.Value.{Doubles, Value, null, is_obj, num_at}
use haiku_mgmt_agent.Json.Parser.{Result, parsed, malformed, trailing_data, parse}
use haiku_mgmt_agent.Mgs.Message.{
  AgentMessage, Deserialized, ok, too_short, bad_header_length, throws_out_of_range, deserialize,
}
use haiku_mgmt_agent.Session.Outbox.{Outbox, ack}

-- The state of the bridge: the next inbound number (a 64-bit pattern), the outbox, what was written to the
-- shell, the window sizes that were set, the messages that were acknowledged, and whether the loop goes on.
pub record Bridge : Type 0 where
  pub next_expected : ℕ
  pub outbox : Outbox
  pub typed : Bytes
  pub sizes : List (ℕ × ℕ)
  pub acked : List AgentMessage
  pub running : Bool

-- What `write` on the pty returns; the size is the number of bytes taken, at least one.
pub data Written : Type 0 where
  took : ℕ → Written
  try_again : Written
  failed : Written

-- The loop that writes the keystrokes, over what the calls return; the calls behind the list take all.
-- It returns what reached the shell and whether the loop of the session goes on.
unfoldable pub write_keys : List Written → Bytes → Bytes × Bool
write_keys outcomes [] = ([], true)
write_keys [] (c ∷ keys) = (c ∷ keys, true)
write_keys (failed ∷ outcomes) (c ∷ keys) = ([], false)
write_keys (try_again ∷ outcomes) (c ∷ keys) = write_keys outcomes (c ∷ keys)
write_keys (took n ∷ outcomes) (c ∷ keys) =
    let rest = write_keys outcomes (drop n keys) in (c ∷ (take n keys ++ rest.0), rest.1)

module _ (fp : Doubles) (to_u32 : ℕ → ℕ) where
  -- `handle_ack`
  unfoldable pub handle_ack : AgentMessage → Outbox → Outbox
  handle_ack m outbox = elim (parse fp m.payload) [
    | parsed v ↦
        if is_obj v
        then ack outbox (
            fp.to_int
              (num_at fp v (codes "AcknowledgedMessageSequenceNumber") (fp.of_int (negsuc 0))))
        else outbox
    | _ ↦ outbox
  ]

  -- A resize or keystrokes, in order.
  unfoldable pub apply_input : List Written → AgentMessage → Bridge → Bridge
  apply_input outcomes m b =
      if m.payload_type == 3
      then elim (parse fp m.payload) [
        | parsed v ↦ record b {
          sizes =
              b.sizes
              ++ ((
                to_u32 (num_at fp v (codes "cols") (fp.of_int (pos 80))),
                to_u32 (num_at fp v (codes "rows") (fp.of_int (pos 24))),
              )
                  ∷ []);
        }
        | _ ↦ b
      ]
      else if m.payload_type == 1
      then (let (sent, alive) = write_keys outcomes m.payload in
          record b { typed = b.typed ++ sent; running = if alive then b.running else false })
      else b

  unfoldable pub handle_input : List Written → AgentMessage → Bridge → Bridge
  handle_input outcomes m b =
      let seen = record b { acked = b.acked ++ (m ∷ []) } in
      if m.sequence == b.next_expected
      then apply_input outcomes m (record seen { next_expected = (b.next_expected + 1) % 2 ^ 64 })
      else seen

  unfoldable pub handle_message : List Written → AgentMessage → Bridge → Bridge
  unfolding handle_ack apply_input handle_input
  handle_message outcomes m b =
      if bytes_eq m.message_type (codes "channel_closed")
      then record b { running = false }
      else if bytes_eq m.message_type (codes "acknowledge")
      then record b { outbox = handle_ack m b.outbox }
      else if not (bytes_eq m.message_type (codes "input_stream_data"))
      then record b { acked = b.acked ++ (m ∷ []) }
      else handle_input outcomes m b
