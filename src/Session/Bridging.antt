-- ===== src/Session/Bridging.antt =====
-- src/session.cpp: the loop of `run_session` between the shell and the data channel.
use haiku_mgmt_agent.Prelude.{
  ℕ, ◌+◌, ◌*◌, Bool, true, false, not, ◌&&◌, List, [], ◌∷◌, if◌then◌else◌, ltb,
}
use haiku_mgmt_agent.Prelude.Text.{Bytes}
use haiku_mgmt_agent.Json.Value.{Doubles}
use haiku_mgmt_agent.Mgs.Message.{
  AgentMessage, Deserialized, ok, too_short, bad_header_length, throws_out_of_range, deserialize,
}
use haiku_mgmt_agent.Session.Data.{Bridge, Written, handle_message}
use haiku_mgmt_agent.Session.Sending.{Channel, pump_outbox, send_stream}
use haiku_mgmt_agent.Session.Handshaking.{Inbound, quiet, lost, frame}

abbrev pub idle_timeout_seconds : ℕ
idle_timeout_seconds = 20 * 60

-- What one `read` on the pty gives: bytes, with the clock, a fresh id and whether `ws.send` took them; no
-- more data now; or the end of the shell.
pub data PtyRead : Type 0 where
  output : Bytes → (now_ms : ℕ) → (uuid : Bytes) → (delivers : Bool) → PtyRead
  no_more : PtyRead
  shell_gone : PtyRead

-- One turn of the loop; `active` is the clock behind a frame that was read.
pub record Tick : Type 0 where
  pub stopping : Bool
  pub now : ℕ
  pub now_ms : ℕ
  pub reads : List PtyRead
  pub inbound : Inbound
  pub active : ℕ
  pub outcomes : List Written

pub record Live : Type 0 where
  pub channel : Channel
  pub bridge : Bridge
  pub last_activity : ℕ

-- The loop goes on, or it is left: for a stop, a peer that is gone, an idle client, the shell or a send,
-- the channel, or the client's request.
pub data Left : Type 0 where
  goes_on stopped peer_gone idle shell_ended channel_lost terminated crashed : Left

abbrev pub Turned : Type 0
Turned = Live × Left

module _ (sha256_raw : Bytes → Bytes) where
  -- All output there is, and whether the loop goes on: a send that fails does not stop the reading.
  unfoldable pub drain : List PtyRead → Bool → Channel → Bool × Channel
  unfolding send_stream
  drain [] running ch = (running, ch)
  drain (no_more ∷ rest) running ch = (running, ch)
  drain (shell_gone ∷ rest) running ch = (false, ch)
  drain (output s now_ms uuid delivers ∷ rest) running ch =
      drain rest (running && delivers) (send_stream sha256_raw 1 s now_ms uuid ch)

module _ (fp : Doubles) (to_u32 : ℕ → ℕ) where
  -- A message: the outbox is the channel's.
  unfoldable pub bridge_message : List Written → ℕ → AgentMessage → Live → Turned
  unfolding handle_message
  bridge_message outcomes active m s =
      let b = handle_message fp to_u32 outcomes m (record s.bridge { outbox = s.channel.outbox }) in
      (
        record {
          channel = record s.channel { outbox = b.outbox };
          bridge = b;
          last_activity = active;
        },
        if b.running then goes_on else terminated,
      )

  unfoldable pub bridge_frame : List Written → ℕ → Deserialized → Live → Turned
  unfolding bridge_message
  bridge_frame outcomes active (ok m) s = bridge_message outcomes active m s
  bridge_frame outcomes active throws_out_of_range s = (s, crashed)
  bridge_frame outcomes active (too_short n) s = (s, goes_on)
  bridge_frame outcomes active (bad_header_length n) s = (s, goes_on)

  unfoldable pub bridge_inbound : List Written → ℕ → Inbound → Live → Turned
  unfolding bridge_frame
  bridge_inbound outcomes active quiet s = (s, goes_on)
  bridge_inbound outcomes active lost s = (s, channel_lost)
  bridge_inbound outcomes active (frame payload) s =
      bridge_frame outcomes active (deserialize payload) s

  unfoldable pub tick : (Bytes → Bytes) → Tick → Live → Turned
  unfolding pump_outbox drain bridge_inbound
  tick sha256_raw t s =
      let (alive, pumped) = pump_outbox t.now_ms s.channel in
      let kept : Live = record s { channel = pumped } in
      let (running, drained) = drain sha256_raw t.reads true pumped in
      let ready : Live = record s { channel = drained } in
      if t.stopping
      then (s, stopped)
      else if not alive
      then (kept, peer_gone)
      else if ltb (s.last_activity + idle_timeout_seconds) t.now
      then (kept, idle)
      else if not running
      then (ready, shell_ended)
      else bridge_inbound t.outcomes t.active t.inbound ready

  unfoldable pub unless_left : (Live → Turned) → Turned → Turned
  unless_left again (s, goes_on) = again s
  unless_left again (s, how) = (s, how)

  unfoldable pub run_bridge : (Bytes → Bytes) → List Tick → Live → Turned
  unfolding tick unless_left
  run_bridge sha256_raw [] s = (s, goes_on)
  run_bridge sha256_raw (t ∷ ts) s = unless_left (run_bridge sha256_raw ts) (tick sha256_raw t s)
