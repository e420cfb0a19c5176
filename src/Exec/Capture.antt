-- ===== src/Exec/Capture.antt =====
-- What `run_shell` keeps of the two streams.
use haiku_mgmt_agent.Prelude.{
  ℕ, ◌-◌, ◌≤◌, ◌≡◌, refl, ap, ◌∙◌, sym, subst, min, arith, Bool, true, false, not, ◌&&◌, ◌||◌, List,
  [], ◌∷◌, ◌++◌, if◌then◌else◌, ltb, leb, length, take, drop, append_assoc, append-nil,
  length-append, length-take, take-append_le, take-append, drop-append, take-split, take_all,
  by_test, Bool-cases, inl, inr,
}
use haiku_mgmt_agent.Prelude.Text.{Bytes}
use haiku_mgmt_agent.Exec.Loop.{
  Event, quiet, got, again, ended, Polled, poll_failed, nothing, ready, Pass, Capture, Shell, fresh,
  started, keep, on_event, check_deadlines, pass_on, pass, is_running, run,
}

-- The bytes that one event delivers on a pipe.
abbrev read_of : Event → Bool → Bytes
read_of (got b s) true = b ∷ s
read_of _ _ = []

abbrev out_of : Polled → Shell → Bytes
out_of (ready o e) s = read_of o s.out.is_open
out_of _ s = []

abbrev err_of : Polled → Shell → Bytes
err_of (ready o e) s = read_of e s.err.is_open
err_of _ s = []

-- Everything that the loop reads from the two pipes, kept or not.
unfoldable pub all_out : ℕ → ℕ → List Pass → Shell → Bytes
all_out max_capture deadline [] s = []
all_out max_capture deadline (p ∷ ps) s =
    let more = all_out max_capture deadline ps (pass max_capture deadline p s) in
    if is_running s then out_of p.polled s ++ more else []

unfoldable pub all_err : ℕ → ℕ → List Pass → Shell → Bytes
all_err max_capture deadline [] s = []
all_err max_capture deadline (p ∷ ps) s =
    let more = all_err max_capture deadline ps (pass max_capture deadline p s) in
    if is_running s then err_of p.polled s ++ more else []

-- A capture holds the first `max_capture` bytes of `all`, and is clipped when there are more.
abbrev pub Holds : ℕ → Capture → Bytes → Type 0
Holds max_capture c all =
    (c.held ≡ take max_capture all) × (c.clipped ≡ ltb max_capture (length all))

take-min : (n : ℕ) (s : Bytes) → take (min n (length s)) s ≡ take n s
take-min n s = elim (Bool-cases (leb n (length s))) [
  | inl h ↦ ap (λ k. take k s) (min_is_left h)
  | inr h ↦
      take_all (min n (length s)) s (min_is_right h).0
      ∙ sym (take_all n s (omega (arith, min_is_right h)))
]
  where
    min_is_left : leb n (length s) ≡ true → min n (length s) ≡ n
    min_is_left h = ground arith

    min_is_right : leb n (length s) ≡ false → (length s ≤ min n (length s)) × (length s ≤ n)
    min_is_right h = ground arith

take-append_ge :
    (n : ℕ) (all s : Bytes) → length all ≤ n → take n (all ++ s) ≡ all ++ take (n - length all) s
take-append_ge n all s h =
    take-split (length all) n (all ++ s) h
    ∙ (ap (λ t. t ++ take (n - length all) (drop (length all) (all ++ s)))
          (take-append (length all) all s refl)
        ∙ ap (λ t. all ++ take (n - length all) t) (drop-append (length all) all s refl))

keep-Holds :
    (max_capture b : ℕ) (s : Bytes) (c : Capture) (all : Bytes)
    → Holds max_capture c all
    → Holds max_capture (keep max_capture (b ∷ s) c) (all ++ (b ∷ s))
unfolding keep
keep-Holds m b s c all h =
    by_test (λ (k : Capture). Holds m k (all ++ (b ∷ s))) (ltb (length c.held) m)
      (record c {
        held = c.held ++ take (min (m - length c.held) (length (b ∷ s))) (b ∷ s);
        clipped = c.clipped || ltb (m - length c.held) (length (b ∷ s));
      })
      (record c { clipped = true }) (λ room. (held_room room, clipped_room room))
      (λ full. (
        h.0 ∙ sym (take-append_le m all (b ∷ s) (ground (arith, h.0, length-take m all))),
        ground (arith, ap length h.0, length-take m all, length-append all (b ∷ s)),
      ))
  where
    kept : length c.held ≡ min m (length all)
    kept = ap length h.0 ∙ length-take m all

    whole : ltb (length c.held) m ≡ true → c.held ≡ all
    whole room = h.0 ∙ take_all m all (ground (arith, kept))

    held_room :
        ltb (length c.held) m ≡ true
        → c.held ++ take (min (m - length c.held) (length (b ∷ s))) (b ∷ s)
          ≡ take m (all ++ (b ∷ s))
    held_room room =
        ap (λ t. c.held ++ t) (take-min (m - length c.held) (b ∷ s))
        ∙ (ap (λ t. t ++ take (m - length t) (b ∷ s)) (whole room)
            ∙ sym (take-append_ge m all (b ∷ s) (ground (arith, kept))))

    clipped_room :
        ltb (length c.held) m ≡ true
        → (c.clipped || ltb (m - length c.held) (length (b ∷ s))) ≡ ltb m (length (all ++ (b ∷ s)))
    clipped_room room = ground (arith, h.1, kept, length-append all (b ∷ s))

got-Holds :
    (m b : ℕ) (s : Bytes) (c : Capture) (all : Bytes) (opened : Bool)
    → Holds m c all
    → Holds m (if opened then keep m (b ∷ s) c else c) (all ++ read_of (got b s) opened)
got-Holds m b s c all true h = keep-Holds m b s c all h
got-Holds m b s c all false h = subst (Holds m c) (sym (append-nil all)) h

on_event-Holds :
    (m : ℕ) (e : Event) (c : Capture) (all : Bytes)
    → Holds m c all
    → Holds m (on_event m e c) (all ++ read_of e c.is_open)
unfolding on_event
on_event-Holds m quiet c all h = subst (Holds m c) (sym (append-nil all)) h
on_event-Holds m again c all h = subst (Holds m c) (sym (append-nil all)) h
on_event-Holds m ended c all h = subst (Holds m c) (sym (append-nil all)) h
on_event-Holds m (got b s) c all h = got-Holds m b s c all c.is_open h

-- The two streams of a shell, with all that was read of them.
abbrev BothHold : ℕ → Shell → Bytes → Bytes → Type 0
BothHold m s a b = Holds m s.out a × Holds m s.err b

check_deadlines-BothHold :
    (m deadline now : ℕ) (requested : Bool) (s : Shell) (a b : Bytes)
    → BothHold m s a b
    → BothHold m (check_deadlines deadline now requested s) a b
unfolding check_deadlines
check_deadlines-BothHold m deadline now requested s a b h =
    let P = λ (t : Shell). BothHold m t a b in
    let cancel_now = requested && not s.killed_term in
    by_test P (cancel_now || (not s.killed_term && leb deadline now)) _ _ (λ term. h)
      (λ quiet.
        by_test P (s.killed_term && (not s.killed_kill && leb s.kill_deadline now)) _ _ (λ kill. h)
          (λ none. h))

pass_on-BothHold :
    (m deadline : ℕ) (q : Polled) (now : ℕ) (requested : Bool) (s : Shell) (a b : Bytes)
    → BothHold m s a b
    → BothHold m (pass_on m deadline q now requested s) (a ++ out_of q s) (b ++ err_of q s)
unfolding pass_on
pass_on-BothHold m deadline (poll_failed e) now requested s a b h =
    subst (λ t. BothHold m s t (b ++ [])) (sym (append-nil a))
      (subst (BothHold m s a) (sym (append-nil b)) h)
pass_on-BothHold m deadline nothing now requested s a b h =
    check_deadlines-BothHold m deadline now requested s (a ++ []) (b ++ []) (
      subst (λ t. BothHold m s t (b ++ [])) (sym (append-nil a))
        (subst (BothHold m s a) (sym (append-nil b)) h))
pass_on-BothHold m deadline (ready o e) now requested s a b h =
    check_deadlines-BothHold m deadline now requested
      (record s { out = on_event m o s.out; err = on_event m e s.err })
      (a ++ read_of o s.out.is_open) (b ++ read_of e s.err.is_open)
      (on_event-Holds m o s.out a h.0, on_event-Holds m e s.err b h.1)

run-BothHold :
    (m deadline : ℕ) (ps : List Pass) (s : Shell) (a b : Bytes)
    → BothHold m s a b
    → BothHold m (run m deadline ps s) (a ++ all_out m deadline ps s) (b ++ all_err m deadline ps s)
unfolding run all_out all_err pass
run-BothHold m deadline [] s a b h =
    subst (λ t. BothHold m s t (b ++ [])) (sym (append-nil a))
      (subst (BothHold m s a) (sym (append-nil b)) h)
run-BothHold m deadline (p ∷ ps) s a b h = elim (Bool-cases (is_running s)) [
  | inl on ↦
      let t = pass m deadline p s in
      rw on (
        rw
          (
            append_assoc a (out_of p.polled s) (all_out m deadline ps t),
            append_assoc b (err_of p.polled s) (all_err m deadline ps t),
          )
          at
          (run-BothHold m deadline ps t (a ++ out_of p.polled s) (b ++ err_of p.polled s)
            (pass_on-BothHold m deadline p.polled p.now p.requested s a b h)))
  | inr off ↦ rw (off, append-nil a, append-nil b) h
]

-- However the pipes deliver and whatever cuts the loop short, `run_shell` holds the first
-- `max_capture_bytes` bytes of all it read of each stream, and marks a stream as clipped exactly when it
-- read more of it.
pub run_captures :
    (max_capture deadline : ℕ) (ps : List Pass)
    → Holds max_capture
        (run max_capture deadline ps started).out
        (all_out max_capture deadline ps started)
      × Holds max_capture
          (run max_capture deadline ps started).err
          (all_err max_capture deadline ps started)
run_captures m deadline ps = run-BothHold m deadline ps started [] [] (empty, empty)
  where
    empty : Holds m fresh []
    empty = (sym (take_all m [] (omega arith)), ground arith)
