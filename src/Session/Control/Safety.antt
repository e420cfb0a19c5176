-- ===== src/Session/Control/Safety.antt =====
-- Which sessions the control channel starts.
use haiku_mgmt_agent.Prelude.{
  ◌≡◌, ◌⊎◌, refl, arith, true, false, inl, inr, Option, none, some, List, [], ◌∷◌, Bool-cases,
  subst,
}
use haiku_mgmt_agent.Prelude.Text.{contains, Bytes, codes, bytes_eq, bytes_eq_iff, is_empty}
use haiku_mgmt_agent.Json.Value.{Doubles}
use haiku_mgmt_agent.Mgs.Message.{
  AgentMessage, Deserialized, ok, too_short, bad_header_length, throws_out_of_range, deserialize,
}
use haiku_mgmt_agent.Session.Start.{StartRequest, Rejection, parse_start_request}
use haiku_mgmt_agent.Session.Control.{
  Action, continue, spawn, close, crash, is_supported, accept_session, unless_rejected,
  start_session, on_message, on_frame, run_control,
}

-- What a started session satisfies: its request was not rejected, its type is empty or the standard
-- stream, it asks for no encryption key, and its id is none of `seen`.
abbrev pub MayStart : List Bytes → StartRequest → Type 0
MayStart seen sr =
    (sr.error ≡ none)
    × (((sr.session_type ≡ []) ⊎ (sr.session_type ≡ codes "Standard_Stream"))
        × ((sr.kms_key_id ≡ []) × (contains seen sr.session_id ≡ false)))

abbrev pub ids : List StartRequest → List Bytes
ids [] = []
ids (sr ∷ rest) = sr.session_id ∷ ids rest

-- What one frame may do to the set of seen sessions.
abbrev Effect : List Bytes → Action → List Bytes → Type 0
Effect seen (spawn sr) seen' = MayStart seen sr × (seen' ≡ sr.session_id ∷ seen)
Effect seen _ seen' = seen' ≡ seen

is_empty-nil : (s : Bytes) → is_empty s ≡ true → s ≡ []
is_empty-nil [] h = refl
is_empty-nil (c ∷ s) h = absurd cc

supported_type :
    (sr : StartRequest)
    → is_supported sr ≡ true
    → (sr.session_type ≡ []) ⊎ (sr.session_type ≡ codes "Standard_Stream")
unfolding is_supported
supported_type sr h = elim (Bool-cases (is_empty sr.session_type)) [
  | inl e ↦ inl (is_empty-nil sr.session_type e)
  | inr n ↦ inr (ground (arith, h, n, bytes_eq_iff sr.session_type (codes "Standard_Stream")))
]

supported_key : (sr : StartRequest) → is_supported sr ≡ true → sr.kms_key_id ≡ []
unfolding is_supported
supported_key sr h = is_empty-nil sr.kms_key_id (ground (arith, h))

accept_session-Effect :
    (seen : List Bytes) (sr : StartRequest)
    → sr.error ≡ none
    → Effect seen (accept_session seen sr).0 (accept_session seen sr).1
unfolding accept_session
accept_session-Effect seen sr e = elim (Bool-cases (is_supported sr)) [
  | inr bad ↦ rw bad refl
  | inl good ↦ rw good (elim (Bool-cases (contains seen sr.session_id)) [
    | inl old ↦ rw old refl
    | inr new ↦ rw new ((e, (supported_type sr good, (supported_key sr good, new))), refl)
  ])
]

chosen_effect :
    (seen : List Bytes) (r : Option Rejection) (go : Action × List Bytes)
    → (r ≡ none → Effect seen go.0 go.1)
    → Effect seen
        (unless_rejected r go (continue, seen)).0
        (unless_rejected r go (continue, seen)).1
chosen_effect seen none go h = h refl
chosen_effect seen (some why) go h = refl

start_session-Effect :
    (seen : List Bytes) (sr : StartRequest)
    → Effect seen (start_session seen sr).0 (start_session seen sr).1
unfolding start_session
start_session-Effect seen sr =
    chosen_effect seen sr.error (accept_session seen sr) (accept_session-Effect seen sr)

module _ (fp : Doubles) where
  on_message-Effect :
      (seen : List Bytes) (m : AgentMessage)
      → Effect seen (on_message fp seen m).0 (on_message fp seen m).1
  unfolding on_message
  on_message-Effect seen m =
      elim (Bool-cases (bytes_eq m.message_type (codes "interactive_shell"))) [
        | inl shell ↦ rw shell (start_session-Effect seen (parse_start_request fp m.payload))
        | inr other ↦
            rw other (elim (Bool-cases (bytes_eq m.message_type (codes "channel_closed"))) [
              | inl closed ↦ rw closed refl
              | inr neither ↦ rw neither refl
            ])
      ]

  frame_effect :
      (seen : List Bytes) (payload : Bytes) (d : Deserialized)
      → deserialize payload ≡ d
      → Effect seen (on_frame fp seen payload).0 (on_frame fp seen payload).1
  unfolding on_frame
  frame_effect seen payload (ok m) e = rw (e, on_frame) (on_message-Effect seen m)
  frame_effect seen payload (too_short n) e = rw (e, on_frame) refl
  frame_effect seen payload (bad_header_length n) e = rw (e, on_frame) refl
  frame_effect seen payload throws_out_of_range e = rw (e, on_frame) refl

  -- Sessions that are started, each new and supported when it is.
  abbrev pub AllMayStart : List Bytes → List StartRequest → Type 0
  AllMayStart seen [] = Unit
  AllMayStart seen (sr ∷ rest) = MayStart seen sr × AllMayStart (sr.session_id ∷ seen) rest

  step_safe :
      (seen seen' : List Bytes) (action : Action) (more : List StartRequest)
      → Effect seen action seen'
      → AllMayStart seen' more
      → AllMayStart seen
          (elim action [ continue ↦ more | spawn sr ↦ sr ∷ more | close ↦ [] | crash ↦ [] ])
  step_safe seen seen' continue more e h = subst (λ s. AllMayStart s more) e h
  step_safe seen seen' (spawn sr) more e h = (e.0, subst (λ s. AllMayStart s more) e.1 h)
  step_safe seen seen' close more e h = tt
  step_safe seen seen' crash more e h = tt

  -- Whatever frames the control channel delivers, every session that `run` starts comes from a request
  -- that was not rejected, is of an empty or the standard stream type, asks for no encryption key, and
  -- has an id that is neither in `seen` nor that of a session started before it.
  pub run_control_safe : (seen frames : List Bytes) → AllMayStart seen (run_control fp seen frames)
  unfolding run_control
  run_control_safe seen [] = tt
  run_control_safe seen (payload ∷ rest) =
      step_safe seen (on_frame fp seen payload).1 (on_frame fp seen payload).0
        (run_control fp (on_frame fp seen payload).1 rest)
        (frame_effect seen payload (deserialize payload) refl)
        (run_control_safe (on_frame fp seen payload).1 rest)
