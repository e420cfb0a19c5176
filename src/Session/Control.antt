-- ===== src/Session/Control.antt =====
-- src/session.cpp: what `run` does with a frame of the control channel, and the loop over the frames.
pub mod Safety
use haiku_mgmt_agent.Prelude.{
  ℕ, ◌+◌, Bool, true, false, not, ◌&&◌, ◌||◌, Option, none, some, List, [], ◌∷◌, ◌++◌,
  if◌then◌else◌,
}
use haiku_mgmt_agent.Prelude.Text.{contains, Bytes, is_empty, codes, bytes_eq}
use haiku_mgmt_agent.Json.Value.{Doubles}
use haiku_mgmt_agent.Mgs.Message.{
  AgentMessage, Deserialized, ok, too_short, bad_header_length, throws_out_of_range, deserialize,
}
use haiku_mgmt_agent.Session.Start.{StartRequest, Rejection, parse_start_request}

-- Go on, start a worker for a session, or leave the loop; `crash` is the exception of `deserialize`.
pub data Action : Type 0 where
  continue : Action
  spawn : StartRequest → Action
  close : Action
  crash : Action

-- The type is empty or "Standard_Stream", and no encryption key is asked for.
unfoldable pub is_supported : StartRequest → Bool
is_supported sr =
    (is_empty sr.session_type || bytes_eq sr.session_type (codes "Standard_Stream"))
    && is_empty sr.kms_key_id

-- The checks on a request that was parsed; `insert` reports whether the id is new.
unfoldable pub accept_session : List Bytes → StartRequest → Action × List Bytes
accept_session seen sr =
    if not (is_supported sr)
    then (continue, seen)
    else if contains seen sr.session_id
    then (continue, seen)
    else (spawn sr, sr.session_id ∷ seen)

abbrev pub unless_rejected {ℓ} : {A : Type ℓ} → Option Rejection → A → A → A
unless_rejected none x y = x
unless_rejected (some why) x y = y

unfoldable pub start_session : List Bytes → StartRequest → Action × List Bytes
start_session seen sr = unless_rejected sr.error (accept_session seen sr) (continue, seen)

module _ (fp : Doubles) where
  unfoldable pub on_message : List Bytes → AgentMessage → Action × List Bytes
  unfolding start_session
  on_message seen m =
      if bytes_eq m.message_type (codes "interactive_shell")
      then start_session seen (parse_start_request fp m.payload)
      else if bytes_eq m.message_type (codes "channel_closed")
      then (close, seen)
      else (continue, seen)

  -- One frame of the channel.
  unfoldable pub on_frame : List Bytes → Bytes → Action × List Bytes
  on_frame seen payload = elim (deserialize payload) [
    | ok m ↦ on_message seen m
    | throws_out_of_range ↦ (crash, seen)
    | _ ↦ (continue, seen)
  ]

  -- The sessions that are started while the frames arrive, up to the one that ends the loop.
  unfoldable pub run_control : List Bytes → List Bytes → List StartRequest
  run_control seen [] = []
  run_control seen (payload ∷ rest) =
      let (action, seen') = on_frame seen payload in
      elim action [
        | continue ↦ run_control seen' rest
        | spawn sr ↦ sr ∷ run_control seen' rest
        | close ↦ []
        | crash ↦ []
      ]
