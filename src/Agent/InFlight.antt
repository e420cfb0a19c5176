-- ===== src/Agent/InFlight.antt =====
-- src/main.cpp: `InFlight`, the commands that run on worker threads, and their cancel tokens.
use haiku_mgmt_agent.Prelude.{
  ℕ, zero, suc, ◌≡◌, ◌≢◌, ◌∙◌, ap, inl, inr, Option-cases, ◌<◌, refl, arith, Bool, true, false,
  Option, none, some, List, [], ◌∷◌, ◌++◌, if◌then◌else◌, length, get_or, length-append, ◌==◌,
}
use haiku_mgmt_agent.Prelude.Int.{ℤ, pos, eqb_ℤ, increment, decrement}
use haiku_mgmt_agent.Prelude.Text.{Bytes, bytes_eq, bytes_eq_iff, bytes_eq_refl}

-- `std::shared_ptr<exec::Cancel>`: a position in the store of the flags.
pub record Slot : Type 0 where
  pub command_id : Bytes
  pub token : ℕ

-- `map_`, `count_`, and the flags `requested` of all tokens made so far.
pub record InFlight : Type 0 where
  pub running : List Slot
  pub count : ℤ
  pub requested : List Bool

unfoldable pub idle : InFlight
idle = record { running = []; count = pos 0; requested = [] }

-- `map_.find(command_id)`
unfoldable pub token_of : List Slot → Bytes → Option ℕ
token_of [] id = none
token_of (s ∷ ss) id = if bytes_eq s.command_id id then some s.token else token_of ss id

-- `map_[command_id] = token`
unfoldable pub assign : List Slot → Bytes → ℕ → List Slot
assign [] id t = record { command_id = id; token = t } ∷ []
assign (s ∷ ss) id t =
    let rest = assign ss id t in
    if bytes_eq s.command_id id then record { command_id = id; token = t } ∷ ss else s ∷ rest

-- `map_.erase(command_id)`
unfoldable pub map_erase : List Slot → Bytes → List Slot
map_erase [] id = []
map_erase (s ∷ ss) id =
    let rest = map_erase ss id in if bytes_eq s.command_id id then ss else s ∷ rest

-- `request()`: the flag at the position is set.
unfoldable pub request_token : List Bool → ℕ → List Bool
request_token [] i = []
request_token (b ∷ bs) zero = true ∷ bs
request_token (b ∷ bs) (suc i) = b ∷ request_token bs i

-- `InFlight::add`, with the new token.
unfoldable pub add_command : InFlight → Bytes → InFlight × ℕ
add_command f id =
    let token = length f.requested in
    (
      record {
        running = assign f.running id token;
        count = increment f.count;
        requested = f.requested ++ (false ∷ []);
      },
      token,
    )

unfoldable pub done : InFlight → Bytes → InFlight
done f id = record f { running = map_erase f.running id; count = decrement f.count }

unfoldable pub cancel : InFlight → Bytes → InFlight × Bool
cancel f id = elim (token_of f.running id) [
  | none ↦ (f, false)
  | some t ↦ (record f { requested = request_token f.requested t }, true)
]

unfoldable pub request_all : List Slot → List Bool → List Bool
unfolding request_token
request_all [] flags = flags
request_all (s ∷ ss) flags = request_all ss (request_token flags s.token)

unfoldable pub cancel_all : InFlight → InFlight
unfolding request_all
cancel_all f = record f { requested = request_all f.running f.requested }

-- What `drain` waits for.
unfoldable pub drained : InFlight → Bool
drained f = eqb_ℤ f.count (pos 0)

-- Whether a worker's command is to stop: what `exec::run_shell` reads through its token.
unfoldable pub is_cancelled : InFlight → ℕ → Bool
is_cancelled f t = get_or f.requested t false

-- Requesting one token sets its flag and no other.
get_or-request_token :
    (flags : List Bool) (t u : ℕ)
    → t < length flags
    → get_or (request_token flags t) u false ≡ (if u == t then true else get_or flags u false)
unfolding request_token
get_or-request_token [] t u h = absurd (omega arith)
get_or-request_token (b ∷ bs) zero zero h = refl
get_or-request_token (b ∷ bs) zero (suc u) h = ground arith
get_or-request_token (b ∷ bs) (suc t) zero h = ground arith
get_or-request_token (b ∷ bs) (suc t) (suc u) h =
    ground (arith, get_or-request_token bs t u (omega arith))

token_of-assign :
    (ss : List Slot) (id other : Bytes) (t : ℕ)
    → token_of (assign ss id t) other ≡ (if bytes_eq id other then some t else token_of ss other)
unfolding token_of assign
token_of-assign [] id other t = refl
token_of-assign (s ∷ ss) id other t = ground (
  arith,
  token_of-assign ss id other t,
  bytes_eq_iff s.command_id id,
  bytes_eq_iff s.command_id other,
  bytes_eq_iff id other,
)

pub token_of-added :
    (f : InFlight) (id : Bytes)
    → token_of (assign f.running id (length f.requested)) id ≡ some (length f.requested)
token_of-added f id =
    rw (token_of-assign f.running id id (length f.requested), bytes_eq_refl id) refl

token_of-map_erase :
    (ss : List Slot) (other id : Bytes)
    → bytes_eq other id ≡ false
    → token_of (map_erase ss other) id ≡ token_of ss id
unfolding token_of map_erase
token_of-map_erase [] other id h = refl
token_of-map_erase (s ∷ ss) other id h = ground (
  arith,
  h,
  token_of-map_erase ss other id h,
  bytes_eq_iff s.command_id other,
  bytes_eq_iff s.command_id id,
  bytes_eq_iff other id,
)

length-request_token : (flags : List Bool) (t : ℕ) → length (request_token flags t) ≡ length flags
unfolding request_token
length-request_token [] t = refl
length-request_token (b ∷ bs) zero = refl
length-request_token (b ∷ bs) (suc t) = ap suc (length-request_token bs t)

-- What may happen while the command `id` runs: other commands are added and done, and any command is
-- cancelled.
pub data Meanwhile (id : Bytes) : InFlight → InFlight → Type 0 where
  nothing : {f : InFlight} → Meanwhile id f f
  added :
      {f g : InFlight}
      → (other : Bytes) → bytes_eq other id ≡ false
      → Meanwhile id (add_command f other).0 g
      → Meanwhile id f g
  finished :
      {f g : InFlight}
      → (other : Bytes) → bytes_eq other id ≡ false
      → Meanwhile id (done f other) g
      → Meanwhile id f g
  cancelled : {f g : InFlight} → (any : Bytes) → Meanwhile id (cancel f any).0 g → Meanwhile id f g

-- The token `t` of the command `id` is in the map, and its flag in the store.
abbrev Runs : Bytes → ℕ → InFlight → Type 0
Runs id t f = (token_of f.running id ≡ some t) × (t < length f.requested)

Runs-cancel : (id any : Bytes) (t : ℕ) (f : InFlight) → Runs id t f → Runs id t (cancel f any).0
unfolding cancel
Runs-cancel id any t f h = elim (Option-cases (token_of f.running any)) [
  | inl e ↦ rw (e, cancel) h
  | inr (u, e) ↦ rw (e, cancel) (h.0, omega (arith, h.1, length-request_token f.requested u))
]

Meanwhile-Runs :
    (id : Bytes) (t : ℕ) (f g : InFlight) → Meanwhile id f g → Runs id t f → Runs id t g
unfolding add_command done
Meanwhile-Runs id t f g nothing h = h
Meanwhile-Runs id t f g (added other ne later) h =
    Meanwhile-Runs id t (add_command f other).0 g later (
      token_of-assign f.running other id (length f.requested) ∙ rw ne h.0,
      omega (arith, h.1, length-append f.requested (false ∷ [])),
    )
Meanwhile-Runs id t f g (finished other ne later) h =
    Meanwhile-Runs id t (done f other) g later (token_of-map_erase f.running other id ne ∙ h.0, h.1)
Meanwhile-Runs id t f g (cancelled any later) h =
    Meanwhile-Runs id t (cancel f any).0 g later (Runs-cancel id any t f h)

-- A command that was added can be cancelled until it is done, whatever other commands were added and done
-- in between and whatever was cancelled: the cancel finds it, sets the flag of the token that its
-- worker holds, and leaves the flag of every other token `u`.
pub cancel_in_flight :
    (f g : InFlight) (id : Bytes) (u : ℕ)
    → Meanwhile id (add_command f id).0 g
    → u ≢ (add_command f id).1
    → ((cancel g id).1 ≡ true)
      × ((is_cancelled (cancel g id).0 (add_command f id).1 ≡ true)
          × (is_cancelled (cancel g id).0 u ≡ is_cancelled g u))
unfolding cancel add_command is_cancelled
cancel_in_flight f g id u between other =
    let (found, room) =
      Meanwhile-Runs id (length f.requested) (add_command f id).0 g between
        (token_of-added f id, omega (arith, length-append f.requested (false ∷ []))) in
    rw (found, cancel)
      (
        refl,
        (
          ground (
            arith,
            get_or-request_token g.requested (length f.requested) (length f.requested) room,
          ),
          ground (arith, get_or-request_token g.requested (length f.requested) u room, other),
        ),
      )
