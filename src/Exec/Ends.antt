-- ===== src/Exec/Ends.antt =====
-- `run_shell` does not run for ever: its loop ends when the deadline and the grace are over.
use haiku_mgmt_agent.Prelude.{
  ℕ, ◌+◌, ◌≤◌, ◌≡◌, refl, sym, arith, Bool, true, false, List, [], ◌∷◌, ◌++◌, by_test, Bool-cases,
  inl, inr, All,
}
use haiku_mgmt_agent.Prelude.Text.{Bytes}
use haiku_mgmt_agent.Exec.Loop.{
  grace_ms, Polled, poll_failed, nothing, ready, Pass, Capture, Shell, started, on_event,
  check_deadlines, pass_on, pass, is_running, run,
}

-- While the loop goes on there was no SIGKILL, and it is due by `last + grace_ms` once there was a
-- SIGTERM.
abbrev IsDue : ℕ → Shell → Type 0
IsDue last s =
    s.broke ≡ false
    → (s.killed_kill ≡ false) × (s.killed_term ≡ true → s.kill_deadline ≤ last + grace_ms)

-- The SIGTERM was sent, or the loop is over.
abbrev IsTermed : ℕ → Shell → Type 0
IsTermed last s =
    s.broke ≡ false
    → (s.killed_kill ≡ false) × ((s.killed_term ≡ true) × (s.kill_deadline ≤ last + grace_ms))

check-broke :
    (deadline now : ℕ) (requested : Bool) (s : Shell)
    → (check_deadlines deadline now requested s).broke ≡ false
    → s.broke ≡ false
unfolding check_deadlines
check-broke deadline now requested s = ground arith

check-IsDue :
    (deadline last now : ℕ) (requested : Bool) (s : Shell)
    → now ≤ last
    → IsDue last s
    → IsDue last (check_deadlines deadline now requested s)
unfolding check_deadlines
check-IsDue deadline last now requested s early h on =
    ground (arith, early, on, h (check-broke deadline now requested s on))

check-IsTermed :
    (deadline last now : ℕ) (requested : Bool) (s : Shell)
    → now ≤ last
    → deadline ≤ now
    → IsDue last s
    → IsTermed last (check_deadlines deadline now requested s)
unfolding check_deadlines
check-IsTermed deadline last now requested s early due h on =
    ground (arith, early, due, on, h (check-broke deadline now requested s on))

-- A SIGTERM that was sent stays, and its SIGKILL's deadline with it.
check-stays :
    (deadline last now : ℕ) (requested : Bool) (s : Shell)
    → IsTermed last s
    → IsTermed last (check_deadlines deadline now requested s)
unfolding check_deadlines
check-stays deadline last now requested s h on =
    ground (arith, on, h (check-broke deadline now requested s on))

check-kills :
    (deadline last now : ℕ) (requested : Bool) (s : Shell)
    → IsTermed last s
    → last + grace_ms ≤ now
    → (check_deadlines deadline now requested s).broke ≡ true
unfolding check_deadlines
check-kills deadline last now requested s h over = elim (Bool-cases s.broke) [
  | inl ended ↦ ground (arith, ended)
  | inr on ↦ ground (arith, h on, over)
]

module _ (m deadline last : ℕ) (q : Polled) (now : ℕ) (requested : Bool) (s : Shell) where
  -- What holds behind the checks, and of a loop that a failing poll ends, holds behind the pass.
  by_check :
      (P : Shell → Type 0)
      → ((e : Bytes) → P (record s { error = e; broke = true }))
      → ((out err : Capture)
          → P (check_deadlines deadline now requested (record s { out = out; err = err })))
      → P (pass_on m deadline q now requested s)
  unfolding pass_on
  by_check P failed checked = elim q as (λ q. P (pass_on m deadline q now requested s)) [
    | poll_failed e ↦ failed _
    | nothing ↦ checked s.out s.err
    | ready o e ↦ checked (on_event m o s.out) (on_event m e s.err)
  ]

  pass_on-IsDue : now ≤ last → IsDue last s → IsDue last (pass_on m deadline q now requested s)
  pass_on-IsDue early h =
      by_check (IsDue last) (λ e on. absurd cc)
        (λ out err.
          check-IsDue deadline last now requested (record s { out = out; err = err }) early h)

  pass_on-IsTermed :
      now ≤ last
      → deadline ≤ now
      → IsDue last s
      → IsTermed last (pass_on m deadline q now requested s)
  pass_on-IsTermed early due h =
      by_check (IsTermed last) (λ e on. absurd cc)
        (λ out err.
          check-IsTermed deadline last now requested (record s { out = out; err = err }) early due
            h)

  pass_on-stays : IsTermed last s → IsTermed last (pass_on m deadline q now requested s)
  pass_on-stays h =
      by_check (IsTermed last) (λ e on. absurd cc)
        (λ out err. check-stays deadline last now requested (record s { out = out; err = err }) h)

  pass_on-kills :
      IsTermed last s → last + grace_ms ≤ now → (pass_on m deadline q now requested s).broke ≡ true
  pass_on-kills h over =
      by_check (λ t. t.broke ≡ true) (λ e. refl)
        (λ out err.
          check-kills deadline last now requested (record s { out = out; err = err }) h over)

module _ (m deadline last : ℕ) where
  run-IsDue :
      (ps : List Pass) (s : Shell)
      → All (λ (p : Pass). p.now ≤ last) ps
      → IsDue last s
      → IsDue last (run m deadline ps s)
  unfolding run pass
  run-IsDue [] s early h = h
  run-IsDue (p ∷ ps) s early h =
      by_test (IsDue last) (is_running s) (run m deadline ps (pass m deadline p s)) s
        (λ on.
          run-IsDue ps (pass m deadline p s) early.1
            (pass_on-IsDue m deadline last p.polled p.now p.requested s early.0 h))
        (λ off. h)

  run-stays : (ps : List Pass) (s : Shell) → IsTermed last s → IsTermed last (run m deadline ps s)
  unfolding run pass
  run-stays [] s h = h
  run-stays (p ∷ ps) s h =
      by_test (IsTermed last) (is_running s) (run m deadline ps (pass m deadline p s)) s
        (λ on.
          run-stays ps (pass m deadline p s)
            (pass_on-stays m deadline last p.polled p.now p.requested s h))
        (λ off. h)

  run_over : (ps : List Pass) (s : Shell) → is_running s ≡ false → run m deadline ps s ≡ s
  unfolding run
  run_over [] s off = refl
  run_over (p ∷ ps) s off = rw off refl

  run-append :
      (ps qs : List Pass) (s : Shell)
      → run m deadline (ps ++ qs) s ≡ run m deadline qs (run m deadline ps s)
  unfolding run
  run-append [] qs s = refl
  run-append (p ∷ ps) qs s = elim (Bool-cases (is_running s)) [
    | inl on ↦ rw on (run-append ps qs (pass m deadline p s))
    | inr off ↦ rw off (sym (run_over qs s off))
  ]

  run-on :
      (p : Pass) (ps : List Pass) (s : Shell)
      → is_running s ≡ true
      → run m deadline (p ∷ ps) s
        ≡ run m deadline ps (pass_on m deadline p.polled p.now p.requested s)
  unfolding run pass
  run-on p ps s on = rw on refl

not_running : (s : Shell) → s.broke ≡ true → is_running s ≡ false
unfolding is_running
not_running s h = rw h refl

-- The pass that comes when the SIGKILL is due ends the loop.
last_pass :
    (m deadline last : ℕ) (p : Pass) (s : Shell)
    → IsTermed last s
    → last + grace_ms ≤ p.now
    → is_running (run m deadline (p ∷ []) s) ≡ false
unfolding run
last_pass m deadline last p s h over = elim (Bool-cases (is_running s)) [
  | inl on ↦ rw (run-on m deadline last p [] s on) (
      not_running (pass_on m deadline p.polled p.now p.requested s)
        (pass_on-kills m deadline last p.polled p.now p.requested s h over))
  | inr off ↦ rw (run_over m deadline last (p ∷ []) s off) off
]

after_due :
    (m deadline : ℕ) (between : List Pass) (due last : Pass) (s : Shell)
    → IsDue due.now s
    → deadline ≤ due.now
    → due.now + grace_ms ≤ last.now
    → is_running (run m deadline ((due ∷ between) ++ (last ∷ [])) s) ≡ false
after_due m deadline between due last s h late over = elim (Bool-cases (is_running s)) [
  | inl on ↦
      let t = pass_on m deadline due.polled due.now due.requested s in
      rw
        (
          run-on m deadline due.now due (between ++ (last ∷ [])) s on,
          run-append m deadline due.now between (last ∷ []) t,
        )
        (last_pass m deadline due.now last (run m deadline between t)
          (run-stays m deadline due.now between t (
            pass_on-IsTermed m deadline due.now due.polled due.now due.requested s (omega arith)
              late h))
          over)
  | inr off ↦ rw (run_over m deadline due.now ((due ∷ between) ++ (last ∷ [])) s off) off
]

-- Once a pass behind the deadline is followed, however much later, by one that is at least the five
-- seconds of grace behind it, the loop of `run_shell` is over, whatever the child does with its pipes, provided
-- that the clock does not stand above that pass's time before it.
pub run_ends :
    (max_capture deadline : ℕ) (before between : List Pass) (due last : Pass)
    → All (λ (p : Pass). p.now ≤ due.now) before
    → deadline ≤ due.now
    → due.now + grace_ms ≤ last.now
    → is_running (run max_capture deadline (before ++ ((due ∷ between) ++ (last ∷ []))) started)
      ≡ false
run_ends m deadline before between due last early late over =
    rw (run-append m deadline due.now before ((due ∷ between) ++ (last ∷ [])) started) (
      after_due m deadline between due last (run m deadline before started)
        (run-IsDue m deadline due.now before started early (λ on. (refl, λ no. absurd cc))) late
        over)
