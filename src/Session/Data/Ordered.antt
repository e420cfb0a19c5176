-- ===== src/Session/Data/Ordered.antt =====
-- The keystrokes reach the shell in order and once each.
use haiku_mgmt_agent.Prelude.{
  subst, ℕ, zero, suc, ◌+◌, ◌%◌, ◌^◌, ◌≤◌, ◌<◌, ◌≡◌, ◌≢◌, inl, inr, Bool-cases, ◌==◌, All, length,
  refl, ap, ◌∙◌, sym, arith, Bool, true, false, not, List, [], ◌∷◌, ◌++◌, if◌then◌else◌,
  append_assoc, append-nil,
}
use haiku_mgmt_agent.Prelude.Text.{Bytes, codes, bytes_eq}
use haiku_mgmt_agent.Json.Value.{Doubles}
use haiku_mgmt_agent.Mgs.Message.{AgentMessage}
use haiku_mgmt_agent.Session.Data.{Bridge, write_keys, handle_input, handle_message, apply_input}

abbrev pub IsInput : AgentMessage → Type 0
IsInput m = m.message_type ≡ codes "input_stream_data"

-- Messages as the loop takes them while it runs; every write goes through.
module _ (fp : Doubles) (to_u32 : ℕ → ℕ) where
  unfoldable pub handle_all : List AgentMessage → Bridge → Bridge
  handle_all [] b = b
  handle_all (m ∷ ms) b = handle_all ms (handle_message fp to_u32 [] m b)

-- An input message that carries the keystrokes of its number.
abbrev pub IsKeystroke : (ℕ → Bytes) → AgentMessage → Type 0
IsKeystroke key m = IsInput m × ((m.payload_type ≡ 1) × (m.payload ≡ key m.sequence))

-- The keystrokes of so many numbers, from `next` on.
abbrev pub keystrokes : (ℕ → Bytes) → ℕ → ℕ → Bytes
keystrokes key next zero = []
keystrokes key next (suc n) = key next ++ keystrokes key (suc next) n

-- The `n` numbers from `next` on are among the messages in their order, whatever else is between them.
pub data InTurn : ℕ → ℕ → List AgentMessage → Type 0 where
  nothing_due : {next : ℕ} {ms : List AgentMessage} → InTurn next zero ms
  due :
      {next n : ℕ} {m : AgentMessage} {ms : List AgentMessage}
      → m.sequence ≡ next
      → InTurn (suc next) n ms
      → InTurn next (suc n) (m ∷ ms)
  between :
      {next n : ℕ} {m : AgentMessage} {ms : List AgentMessage}
      → InTurn next n ms
      → InTurn next n (m ∷ ms)

-- Without the first of the numbers.
InTurn-later :
    (next n : ℕ) (ms : List AgentMessage) → InTurn next (suc n) ms → InTurn (suc next) n ms
InTurn-later next n [] t = elim t [ ]
InTurn-later next n (m ∷ ms) (due e t) = between t
InTurn-later next n (m ∷ ms) (between t) = between (InTurn-later next n ms t)

InTurn-taken :
    (next n : ℕ) (m : AgentMessage) (ms : List AgentMessage)
    → InTurn next (suc n) (m ∷ ms)
    → InTurn (suc next) n ms
InTurn-taken next n m ms (due e t) = t
InTurn-taken next n m ms (between t) = InTurn-later next n ms t

-- Without a message that is not due.
InTurn-other :
    (next n : ℕ) (m : AgentMessage) (ms : List AgentMessage)
    → m.sequence ≢ next
    → InTurn next n (m ∷ ms)
    → InTurn next n ms
InTurn-other next n m ms other nothing_due = nothing_due
InTurn-other next n m ms other (due e t) = absurd (other e)
InTurn-other next n m ms other (between t) = t

-- What the shell has, behind what it had: the keystrokes of the numbers that were due, at least `n` of
-- them, each once and in order; every message is acknowledged and the session goes on.
abbrev pub Typed : (ℕ → Bytes) → ℕ → List AgentMessage → Bridge → Bridge → Type 0
Typed key n ms b b' =
    (count : ℕ) × ((n ≤ count)
      × ((b'.typed ≡ b.typed ++ keystrokes key b.next_expected count)
          × ((b'.next_expected ≡ b.next_expected + count)
              × ((b'.acked ≡ b.acked ++ ms) × (b'.running ≡ b.running)))))

write_all : (s : Bytes) → write_keys [] s ≡ (s, true)
unfolding write_keys
write_all [] = refl
write_all (c ∷ s) = refl

input_not_closed : bytes_eq (codes "input_stream_data") (codes "channel_closed") ≡ false
unfolding bytes_eq
input_not_closed = refl

input_not_ack : bytes_eq (codes "input_stream_data") (codes "acknowledge") ≡ false
unfolding bytes_eq
input_not_ack = refl

input_is_input : bytes_eq (codes "input_stream_data") (codes "input_stream_data") ≡ true
unfolding bytes_eq
input_is_input = refl

by_type {ℓ} :
    {A : Type ℓ} (c a i : Bool) (x y z w : A)
    → c ≡ false
    → a ≡ false
    → i ≡ true
    → (if c then x else if a then y else if not i then z else w) ≡ w
by_type c a i x y z w hc ha hi = ground arith

module _ (fp : Doubles) (to_u32 : ℕ → ℕ) where
  -- An input message goes to `handle_input`.
  input_dispatch :
      (m : AgentMessage) (b : Bridge)
      → IsInput m
      → handle_message fp to_u32 [] m b ≡ handle_input fp to_u32 [] m b
  unfolding handle_message
  input_dispatch m b h =
      by_type (bytes_eq m.message_type (codes "channel_closed"))
        (bytes_eq m.message_type (codes "acknowledge"))
        (bytes_eq m.message_type (codes "input_stream_data")) _ _ _ _
        (ap (λ t. bytes_eq t (codes "channel_closed")) h ∙ input_not_closed)
        (ap (λ t. bytes_eq t (codes "acknowledge")) h ∙ input_not_ack)
        (ap (λ t. bytes_eq t (codes "input_stream_data")) h ∙ input_is_input)

  repeated_input :
      (m : AgentMessage) (b : Bridge)
      → m.sequence ≢ b.next_expected
      → handle_input fp to_u32 [] m b ≡ record b { acked = b.acked ++ (m ∷ []) }
  unfolding handle_input
  repeated_input m b h = ground arith

  next_input :
      (m : AgentMessage) (b : Bridge)
      → m.sequence ≡ b.next_expected
      → m.payload_type ≡ 1
      → handle_input fp to_u32 [] m b ≡ record b {
        next_expected = (b.next_expected + 1) % 2 ^ 64;
        typed = b.typed ++ m.payload;
        acked = b.acked ++ (m ∷ []);
      }
  unfolding handle_input apply_input
  next_input m b h k = ground (arith, write_all m.payload)

  abbrev took : AgentMessage → Bridge → Bridge
  took m b = record b {
    next_expected = suc b.next_expected;
    typed = b.typed ++ m.payload;
    acked = b.acked ++ (m ∷ []);
  }

  took_next :
      (m : AgentMessage) (b : Bridge)
      → m.sequence ≡ b.next_expected
      → m.payload_type ≡ 1
      → suc b.next_expected < 2 ^ 64
      → handle_input fp to_u32 [] m b ≡ took m b
  took_next m b h k room =
      next_input m b h k
      ∙ ap
          (λ (n : ℕ). record b {
            next_expected = n;
            typed = b.typed ++ m.payload;
            acked = b.acked ++ (m ∷ []);
          })
          (omega (arith, room))

  Typed-took :
      (key : ℕ → Bytes) (n : ℕ) (m : AgentMessage) (ms : List AgentMessage) (b b' : Bridge)
      → m.payload ≡ key b.next_expected
      → Typed key n ms (took m b) b'
      → Typed key (suc n) (m ∷ ms) b b'
  Typed-took key n m ms b b' e (count, (many, (typed, (next, (acked, running))))) = (
    suc count,
    (
      omega (arith, many),
      (
        typed
            ∙ append_assoc b.typed m.payload (keystrokes key (suc b.next_expected) count)
            ∙ ap (λ (s : Bytes). b.typed ++ (s ++ keystrokes key (suc b.next_expected) count)) e,
        (omega (arith, next), (acked ∙ append_assoc b.acked (m ∷ []) ms, running)),
      ),
    ),
  )

  Typed-fewer :
      (key : ℕ → Bytes) (ms : List AgentMessage) (b b' : Bridge)
      → Typed key 1 ms b b'
      → Typed key 0 ms b b'
  Typed-fewer key ms b b' (count, (many, rest)) = (count, (omega arith, rest))

  ne :
      (m : AgentMessage) (b : Bridge)
      → (m.sequence == b.next_expected) ≡ false
      → m.sequence ≢ b.next_expected
  ne m b e q = absurd (ground (arith, e, q))

  Typed-here :
      (key : ℕ → Bytes) (n : ℕ) (m : AgentMessage) (ms : List AgentMessage) (b : Bridge)
      → IsKeystroke key m
      → m.sequence ≡ b.next_expected
      → suc b.next_expected < 2 ^ 64
      → Typed key n ms (took m b) (handle_all fp to_u32 ms (took m b))
      → Typed key (suc n) (m ∷ ms) b (handle_all fp to_u32 ms (handle_message fp to_u32 [] m b))
  Typed-here key n m ms b (input, (kind, carries)) now room ih =
      subst (λ (s : Bridge). Typed key (suc n) (m ∷ ms) b (handle_all fp to_u32 ms s))
        (sym (input_dispatch m b input ∙ took_next m b now kind room))
        (Typed-took key n m ms b (handle_all fp to_u32 ms (took m b)) (carries ∙ ap key now) ih)

  abbrev passed : AgentMessage → Bridge → Bridge
  passed m b = record b { acked = b.acked ++ (m ∷ []) }

  Typed-other :
      (key : ℕ → Bytes) (n : ℕ) (m : AgentMessage) (ms : List AgentMessage) (b : Bridge)
      → IsInput m
      → m.sequence ≢ b.next_expected
      → Typed key n ms (passed m b) (handle_all fp to_u32 ms (passed m b))
      → Typed key n (m ∷ ms) b (handle_all fp to_u32 ms (handle_message fp to_u32 [] m b))
  Typed-other key n m ms b input other (count, (many, (typed, (next, (acked, running))))) =
      subst (λ (s : Bridge). Typed key n (m ∷ ms) b (handle_all fp to_u32 ms s))
        (sym (input_dispatch m b input ∙ repeated_input m b other))
        (count, (many, (typed, (next, (acked ∙ append_assoc b.acked (m ∷ []) ms, running)))))

  -- While every write goes through, the messages are keystrokes, and the expected number with one more for
  -- each message stays below 2 ^ 64: however they are repeated, reordered or lost, the shell receives the keystrokes of the next numbers
  -- without a gap, each once and in order, and the session's number goes on by as many. Where the
  -- next `n` numbers are among the messages in their order, they all arrive. Every message is
  -- acknowledged, and the session goes on.
  pub handle_all-Typed :
      (key : ℕ → Bytes) (ms : List AgentMessage) (b : Bridge) (n : ℕ)
      → All (IsKeystroke key) ms
      → b.next_expected + length ms < 2 ^ 64
      → InTurn b.next_expected n ms
      → Typed key n ms b (handle_all fp to_u32 ms b)
  unfolding handle_all
  handle_all-Typed key [] b zero all room turn = (
    0,
    (omega arith, (sym (append-nil b.typed), (omega arith, (sym (append-nil b.acked), refl)))),
  )
  handle_all-Typed key [] b (suc n) all room turn = elim turn [ ]
  handle_all-Typed key (m ∷ ms) b zero (stroke, all) room turn =
      elim (Bool-cases (m.sequence == b.next_expected)) [
        | inl e ↦
            Typed-fewer key (m ∷ ms) b (handle_all fp to_u32 ms (handle_message fp to_u32 [] m b)) (
              Typed-here key 0 m ms b stroke (ground (arith, e)) (omega (arith, room))
                (handle_all-Typed key ms (took m b) 0 all (omega (arith, room)) nothing_due))
        | inr e ↦
            Typed-other key 0 m ms b stroke.0 (ne m b e)
              (handle_all-Typed key ms (passed m b) 0 all (omega (arith, room)) nothing_due)
      ]
  handle_all-Typed key (m ∷ ms) b (suc n) (stroke, all) room turn =
      elim (Bool-cases (m.sequence == b.next_expected)) [
        | inl e ↦ Typed-here key n m ms b stroke (ground (arith, e)) (omega (arith, room)) (
            handle_all-Typed key ms (took m b) n all (omega (arith, room))
              (InTurn-taken b.next_expected n m ms turn))
        | inr e ↦ Typed-other key (suc n) m ms b stroke.0 (ne m b e) (
            handle_all-Typed key ms (passed m b) (suc n) all (omega (arith, room))
              (InTurn-other b.next_expected (suc n) m ms (ne m b e) turn))
      ]
