-- ===== src/Session/Handshaking.antt =====
-- src/session.cpp: the loop of `run_session` that waits for the handshake response.
use haiku_mgmt_agent.Prelude.{
  ℕ, ◌<◌, ◌≡◌, refl, arith, Bool, true, false, ◌&&◌, List, [], ◌∷◌, ◌++◌, if◌then◌else◌, ltb, ◌==◌,
  by_test,
}
use haiku_mgmt_agent.Prelude.Text.{Bytes, codes, bytes_eq, bytes_eq_iff}
use haiku_mgmt_agent.Json.Value.{Doubles}
use haiku_mgmt_agent.Mgs.Message.{
  AgentMessage, Deserialized, ok, too_short, bad_header_length, throws_out_of_range, deserialize,
}
use haiku_mgmt_agent.Session.Start.{Handshake, accepted, handshake_response_ok}
use haiku_mgmt_agent.Session.Data.{handle_ack}
use haiku_mgmt_agent.Session.Sending.{Channel, pump_outbox}

-- What `ws.recv` returns: 0, -1, or 1 with a frame.
pub data Inbound : Type 0 where
  quiet : Inbound
  lost : Inbound
  frame : Bytes → Inbound

-- One turn of the loop: the stop flag, the two readings of the clock, what is received.
pub record Turn : Type 0 where
  pub stopping : Bool
  pub now : ℕ
  pub now_ms : ℕ
  pub inbound : Inbound

-- How the loop ends: with the response's number, or for a reason; `waiting` when it goes on.
pub data Handshaken : Type 0 where
  completed : ℕ → Handshaken
  timed_out peer_gone channel_lost rejected_by_client terminated stopped crashed waiting :
      Handshaken

-- The channel, and the messages that `send_ack` answered.
pub record Wait : Type 0 where
  pub channel : Channel
  pub acked : List AgentMessage

abbrev pub Step : Type 0
Step = Wait × Handshaken

unfoldable pub is_accepted : Handshake → Bool
is_accepted (accepted version) = true
is_accepted _ = false

abbrev pub is_response : AgentMessage → Bool
is_response m = bytes_eq m.message_type (codes "input_stream_data") && m.payload_type == 6

module _ (fp : Doubles) (to_u32 : ℕ → ℕ) where
  unfoldable pub on_reply : AgentMessage → Wait → Step
  unfolding handle_ack is_accepted handshake_response_ok
  on_reply m w =
      let answered = record w { acked = w.acked ++ (m ∷ []) } in
      let cleared = record w.channel { outbox = handle_ack fp to_u32 m w.channel.outbox } in
      if bytes_eq m.message_type (codes "acknowledge")
      then (record w { channel = cleared }, waiting)
      else if is_response m
      then (if is_accepted (handshake_response_ok fp m.payload)
          then (answered, completed m.sequence)
          else (answered, rejected_by_client))
      else if bytes_eq m.message_type (codes "channel_closed")
      then (w, terminated)
      else (answered, waiting)

  unfoldable pub on_deserialized : Deserialized → Wait → Step
  unfolding on_reply
  on_deserialized (ok m) w = on_reply m w
  on_deserialized throws_out_of_range w = (w, crashed)
  on_deserialized (too_short n) w = (w, waiting)
  on_deserialized (bad_header_length n) w = (w, waiting)

  unfoldable pub on_inbound : Inbound → Wait → Step
  unfolding on_deserialized
  on_inbound quiet w = (w, waiting)
  on_inbound lost w = (w, channel_lost)
  on_inbound (frame payload) w = on_deserialized (deserialize payload) w

  unfoldable pub turn : ℕ → Turn → Wait → Step
  unfolding pump_outbox on_inbound
  turn deadline t w =
      let (alive, channel) = pump_outbox t.now_ms w.channel in
      if t.stopping
      then (w, stopped)
      else if ltb deadline t.now
      then (w, timed_out)
      else if alive
      then on_inbound t.inbound (record w { channel = channel })
      else (record w { channel = channel }, peer_gone)

  -- `again` is the rest of the loop.
  unfoldable pub unless_ended : (Wait → Step) → Step → Step
  unless_ended again (w, waiting) = again w
  unless_ended again (w, how) = (w, how)

  unfoldable pub await_response : ℕ → List Turn → Wait → Step
  unfolding turn unless_ended
  await_response deadline [] w = (w, waiting)
  await_response deadline (t ∷ ts) w = unless_ended (await_response deadline ts) (turn deadline t w)

  -- The response that completed the handshake: the last message that was acknowledged.
  abbrev pub Completed : Step → Type 0
  Completed (w, completed n) =
      (m : AgentMessage) × ((before : List AgentMessage) × ((w.acked ≡ before ++ (m ∷ []))
          × ((m.message_type ≡ codes "input_stream_data")
              × ((m.payload_type ≡ 6)
                  × ((m.sequence ≡ n)
                      × (is_accepted (handshake_response_ok fp m.payload) ≡ true))))))
  Completed (w, _) = Unit

  is_response-type :
      (m : AgentMessage) → is_response m ≡ true → m.message_type ≡ codes "input_stream_data"
  is_response-type m h = ground (arith, h, bytes_eq_iff m.message_type (codes "input_stream_data"))

  is_response-payload : (m : AgentMessage) → is_response m ≡ true → m.payload_type ≡ 6
  is_response-payload m h = ground (arith, h)

  on_reply-Completed : (m : AgentMessage) (w : Wait) → Completed (on_reply m w)
  unfolding on_reply
  on_reply-Completed m w =
      by_test Completed (bytes_eq m.message_type (codes "acknowledge")) _ _ (λ ack. tt)
        (λ other.
          by_test Completed (is_response m) _ _
            (λ response.
              by_test Completed (is_accepted (handshake_response_ok fp m.payload)) _ _
                (λ yes. (
                  m,
                  (
                    w.acked,
                    (
                      refl,
                      (is_response-type m response, (is_response-payload m response, (refl, yes))),
                    ),
                  ),
                ))
                (λ no. tt))
            (λ rest.
              by_test Completed (bytes_eq m.message_type (codes "channel_closed")) _ _ (λ gone. tt)
                (λ any. tt)))

  on_deserialized-Completed : (d : Deserialized) (w : Wait) → Completed (on_deserialized d w)
  unfolding on_deserialized
  on_deserialized-Completed (ok m) w = on_reply-Completed m w
  on_deserialized-Completed throws_out_of_range w = tt
  on_deserialized-Completed (too_short n) w = tt
  on_deserialized-Completed (bad_header_length n) w = tt

  on_inbound-Completed : (i : Inbound) (w : Wait) → Completed (on_inbound i w)
  unfolding on_inbound
  on_inbound-Completed quiet w = tt
  on_inbound-Completed lost w = tt
  on_inbound-Completed (frame payload) w = on_deserialized-Completed (deserialize payload) w

  turn-Completed : (deadline : ℕ) (t : Turn) (w : Wait) → Completed (turn deadline t w)
  unfolding turn
  turn-Completed deadline t w =
      let pumped : Wait = record w { channel = (pump_outbox t.now_ms w.channel).1 } in
      by_test Completed t.stopping _ _ (λ stop. tt)
        (λ go.
          by_test Completed (ltb deadline t.now) _ _ (λ late. tt)
            (λ early.
              by_test Completed (pump_outbox t.now_ms w.channel).0 _ _
                (λ alive. on_inbound-Completed t.inbound pumped) (λ dead. tt)))

  unless_ended-Completed :
      (again : Wait → Step) (s : Step)
      → ((w : Wait) → Completed (again w))
      → Completed s
      → Completed (unless_ended again s)
  unfolding unless_ended
  unless_ended-Completed again (w, waiting) ih h = ih w
  unless_ended-Completed again (w, completed n) ih h = h
  unless_ended-Completed again (w, timed_out) ih h = h
  unless_ended-Completed again (w, peer_gone) ih h = h
  unless_ended-Completed again (w, channel_lost) ih h = h
  unless_ended-Completed again (w, rejected_by_client) ih h = h
  unless_ended-Completed again (w, terminated) ih h = h
  unless_ended-Completed again (w, stopped) ih h = h
  unless_ended-Completed again (w, crashed) ih h = h

  -- The wait ends well only with a handshake response of the client: the last message that was
  -- acknowledged, an `input_stream_data` message of payload type 6, whose number is the one the session
  -- goes on from, and whose payload `handshake_response_ok` accepts.
  pub await_response-Completed :
      (deadline : ℕ) (ts : List Turn) (w : Wait) → Completed (await_response deadline ts w)
  unfolding await_response
  await_response-Completed deadline [] w = tt
  await_response-Completed deadline (t ∷ ts) w =
      unless_ended-Completed (await_response deadline ts) (turn deadline t w)
        (await_response-Completed deadline ts) (turn-Completed deadline t w)

  abbrev pub HasEnded : Step → Type 0
  HasEnded (w, waiting) = ⊥
  HasEnded (w, _) = Unit

  turn_late :
      (deadline : ℕ) (again : Wait → Step) (t : Turn) (w : Wait)
      → deadline < t.now
      → HasEnded (unless_ended again (turn deadline t w))
  unfolding turn unless_ended
  turn_late deadline again t w h =
      by_test (λ s. HasEnded (unless_ended again s)) t.stopping _ _ (λ stop. tt)
        (λ go.
          by_test (λ s. HasEnded (unless_ended again s)) (ltb deadline t.now) _ _ (λ late. tt)
            (λ early. absurd (ground (arith, h, early))))

  unless_ended_ends :
      (again : Wait → Step) (s : Step)
      → ((w : Wait) → HasEnded (again w))
      → HasEnded (unless_ended again s)
  unfolding unless_ended
  unless_ended_ends again (w, waiting) ih = ih w
  unless_ended_ends again (w, completed n) ih = tt
  unless_ended_ends again (w, timed_out) ih = tt
  unless_ended_ends again (w, peer_gone) ih = tt
  unless_ended_ends again (w, channel_lost) ih = tt
  unless_ended_ends again (w, rejected_by_client) ih = tt
  unless_ended_ends again (w, terminated) ih = tt
  unless_ended_ends again (w, stopped) ih = tt
  unless_ended_ends again (w, crashed) ih = tt

  -- The wait does not go on behind its deadline: once a turn reads a clock past it, the loop has ended.
  pub await_response_ends :
      (deadline : ℕ) (before after : List Turn) (late : Turn) (w : Wait)
      → deadline < late.now
      → HasEnded (await_response deadline (before ++ (late ∷ after)) w)
  unfolding await_response
  await_response_ends deadline [] after late w h =
      turn_late deadline (await_response deadline after) late w h
  await_response_ends deadline (t ∷ before) after late w h =
      unless_ended_ends (await_response deadline (before ++ (late ∷ after))) (turn deadline t w)
        (λ v. await_response_ends deadline before after late v h)
