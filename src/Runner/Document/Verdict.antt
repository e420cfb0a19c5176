-- ===== src/Runner/Document/Verdict.antt =====
-- src/runner.cpp: what the status and the codes of a document say of its steps.
use haiku_mgmt_agent.Prelude.{
  ℕ, suc, ◌≤◌, ◌≡◌, refl, ap, arith, Bool, true, false, ◌↔◌, ◌⊎◌, inl, inr, List, [], ◌∷◌,
  if◌then◌else◌, length, All, Bool-cases,
}
use haiku_mgmt_agent.Prelude.Int.{pos}
use haiku_mgmt_agent.Prelude.Text.{Bytes, codes, bytes_eq}
use haiku_mgmt_agent.Util.Text.{trim}
use haiku_mgmt_agent.Json.Value
use haiku_mgmt_agent.Json.Value.{Doubles, Value, str_at, num_at}
use haiku_mgmt_agent.Prelude.Text.{is_empty}
use haiku_mgmt_agent.Runner.Params.{precondition_excludes_step}
use haiku_mgmt_agent.Runner.Document.{
  ExecResult, Status, success, failed, timed_out, cancelled, skipped, StepResult, Step, StepOutcome,
  Machine, skipped_result, unsupported_result, no_commands_result, exec_status, exec_code,
  ran_result, combine, DocumentOutcome, document_steps, run_document, or_null, run_step, run_steps,
  run_shell_script, step_script, step_run,
}

-- The status that a list of step results stands for: one cancelled step cancels the document, one step
-- that neither succeeded nor was skipped fails it, and else it succeeds.
abbrev pub any_cancelled : List StepResult → Bool
any_cancelled [] = false
any_cancelled (r ∷ rs) = elim r.status [ cancelled ↦ true | _ ↦ any_cancelled rs ]

abbrev pub any_failed : List StepResult → Bool
any_failed [] = false
any_failed (r ∷ rs) = elim r.status [ failed ↦ true | timed_out ↦ true | _ ↦ any_failed rs ]

abbrev pub verdict : Bool → Bool → Status
verdict true f = cancelled
verdict false true = failed
verdict false false = success

-- A code is 0 exactly for a step that succeeded or was skipped.
abbrev pub CodeFits : StepResult → Type 0
CodeFits r = (r.code ≡ pos 0) ↔ ((r.status ≡ success) ⊎ (r.status ≡ skipped))

-- What one step makes of the document's status, given that no step was cancelled before it.
record StepFits (before : Status) (o : StepOutcome) : Type 0 where
  code_fits : CodeFits o.result
  stops_cancelled : o.stops ≡ any_cancelled (o.result ∷ [])
  status_fits :
      o.document
      ≡ (if o.stops then cancelled else if any_failed (o.result ∷ []) then failed else before)

ran-CodeFits : (st : Step) (er : ExecResult) (a b : Bytes) → CodeFits (ran_result st er a b)
unfolding ran_result exec_status exec_code
ran-CodeFits st er a b = (λ h. ground arith, λ h. ground arith)

-- A property of both branches holds of the conditional.
either_branch {ℓ κ} :
    {A : Type ℓ} (P : A → Type κ) (b : Bool) (x y : A) → P x → P y → P (if b then x else y)
either_branch P true x y p q = p
either_branch P false x y p q = q

abbrev Running : Status → Type 0
Running s = (s ≡ success) ⊎ (s ≡ failed)

abbrev ran_outcome : Status → Step → ExecResult → Bytes → Bytes → StepOutcome
ran_outcome before st er a b = record {
  result = ran_result st er a b;
  document = combine (exec_status er) before;
  stops = er.cancelled;
}

ran_fits :
    (before : Status) (st : Step) (er : ExecResult) (a b : Bytes)
    → Running before
    → StepFits before (ran_outcome before st er a b)
unfolding ran_result combine exec_status
ran_fits before st er a b h = record {
  code_fits = ran-CodeFits st er a b;
  stops_cancelled = ground arith;
  status_fits = ground arith;
}

skipped_fits :
    (before : Status) (st : Step) (a b : Bytes)
    → StepFits before (record { result = skipped_result st a b; document = before; stops = false })
unfolding skipped_result
skipped_fits before st a b = record {
  code_fits = (λ e. inr refl, λ e. refl);
  stops_cancelled = refl;
  status_fits = refl;
}

unsupported_fits :
    (before : Status) (st : Step) (a b : Bytes)
    → StepFits before
        (record { result = unsupported_result st a b; document = failed; stops = false })
unfolding unsupported_result
unsupported_fits before st a b = record {
  code_fits = (λ e. ground arith, λ e. ground arith);
  stops_cancelled = refl;
  status_fits = refl;
}

no_commands_fits :
    (before : Status) (st : Step) (a b : Bytes)
    → StepFits before
        (record { result = no_commands_result st a b; document = failed; stops = false })
unfolding no_commands_result
no_commands_fits before st a b = record {
  code_fits = (λ e. ground arith, λ e. ground arith);
  stops_cancelled = refl;
  status_fits = refl;
}

module _ (fp : Doubles) (os : Machine) (max_capture : ℕ) (parameters doc_parameters : Value) where
  run_step_fits :
      (i : ℕ) (before : Status) (st : Step)
      → Running before
      → StepFits before (run_step fp os max_capture parameters doc_parameters i before st)
  unfolding run_step
  run_step_fits i before st h = elim (Bool-cases (precondition_excludes_step st.precondition)) [
    | inl e ↦ rw e (skipped_fits before st (os.started i) (os.ended i))
    | inr e ↦ rw e (elim (Bool-cases (bytes_eq st.action run_shell_script)) [
      | inr a ↦ rw a (unsupported_fits before st (os.started i) (os.ended i))
      | inl a ↦
          rw a
            (elim (Bool-cases
              (is_empty (trim (step_script fp os max_capture parameters doc_parameters st)))) [
                | inl b ↦ rw b (no_commands_fits before st (os.started i) (os.ended i))
                | inr b ↦ rw b (
                    ran_fits before st (step_run fp os max_capture parameters doc_parameters i st)
                      (os.started i) (os.ended i) h)
              ])
    ])
  ]

-- The status behind `rs` where the document stood at `before`.
abbrev after : Status → List StepResult → Status
after before rs = elim before [
  | failed ↦ verdict (any_cancelled rs) true
  | _ ↦ verdict (any_cancelled rs) (any_failed rs)
]

abbrev continued : StepOutcome → List StepResult × Status → List StepResult × Status
continued o rest = if o.stops then (o.result ∷ [], o.document) else (o.result ∷ rest.0, rest.1)

after_step :
    (before : Status) (o : StepOutcome) (rest : List StepResult × Status)
    → Running before
    → StepFits before o
    → (Running o.document → rest.1 ≡ after o.document rest.0)
    → (continued o rest).1 ≡ after before (continued o rest).0
after_step before o rest h f later = ground (arith, f.stops_cancelled, f.status_fits)

still-Running :
    (before : Status) (o : StepOutcome)
    → Running before
    → StepFits before o
    → o.stops ≡ false
    → Running o.document
still-Running before o h f e = ground (arith, f.status_fits)

continued_codes :
    (before : Status) (o : StepOutcome) (rest : List StepResult × Status)
    → Running before
    → StepFits before o
    → (Running o.document → All CodeFits rest.0)
    → All CodeFits (continued o rest).0
continued_codes before o rest h f later = elim (Bool-cases o.stops) [
  | inl e ↦ rw e (f.code_fits, tt)
  | inr e ↦ rw e (f.code_fits, later (still-Running before o h f e))
]

-- A result for each step, or for the steps up to the one that was cancelled.
abbrev Covers : List StepResult → ℕ → Type 0
Covers rs n = (length rs ≡ n) ⊎ ((any_cancelled rs ≡ true) × (length rs ≤ n))

continued-Covers :
    (before : Status) (o : StepOutcome) (rest : List StepResult × Status) (n : ℕ)
    → Running before
    → StepFits before o
    → (Running o.document → Covers rest.0 n)
    → Covers (continued o rest).0 (suc n)
continued-Covers before o rest n h f later = elim (Bool-cases o.stops) [
  | inl e ↦ rw e (inr (ground (arith, f.stops_cancelled), ground arith))
  | inr e ↦ rw e (covers_later (later (still-Running before o h f e)))
]
  where
    cancelled_later : any_cancelled rest.0 ≡ true → any_cancelled (o.result ∷ rest.0) ≡ true
    cancelled_later e = ground (arith, e)

    covers_later : Covers rest.0 n → Covers (o.result ∷ rest.0) (suc n)
    covers_later (inl e) = inl (ap suc e)
    covers_later (inr e) = inr (cancelled_later e.0, omega (arith, e.1))

module _ (fp : Doubles) (os : Machine) (max_capture : ℕ) (parameters doc_parameters : Value) where
  abbrev ran : ℕ → Status → List Step → List StepResult × Status
  ran i before sts = run_steps fp os max_capture parameters doc_parameters i before sts

  run_steps_after :
      (i : ℕ) (before : Status) (sts : List Step)
      → Running before
      → (ran i before sts).1 ≡ after before (ran i before sts).0
  unfolding run_steps
  run_steps_after i before [] h = ground arith
  run_steps_after i before (st ∷ sts) h =
      after_step before o (ran (suc i) o.document sts) h
        (run_step_fits fp os max_capture parameters doc_parameters i before st h)
        (run_steps_after (suc i) o.document sts)
    where
      o : StepOutcome
      o = run_step fp os max_capture parameters doc_parameters i before st

  run_steps_codes :
      (i : ℕ) (before : Status) (sts : List Step)
      → Running before
      → All CodeFits (ran i before sts).0
  unfolding run_steps
  run_steps_codes i before [] h = tt
  run_steps_codes i before (st ∷ sts) h =
      continued_codes before o (ran (suc i) o.document sts) h
        (run_step_fits fp os max_capture parameters doc_parameters i before st h)
        (run_steps_codes (suc i) o.document sts)
    where
      o : StepOutcome
      o = run_step fp os max_capture parameters doc_parameters i before st

  run_steps-Covers :
      (i : ℕ) (before : Status) (sts : List Step)
      → Running before
      → Covers (ran i before sts).0 (length sts)
  unfolding run_steps
  run_steps-Covers i before [] h = inl refl
  run_steps-Covers i before (st ∷ sts) h =
      continued-Covers before o (ran (suc i) o.document sts) (length sts) h
        (run_step_fits fp os max_capture parameters doc_parameters i before st h)
        (run_steps-Covers (suc i) o.document sts)
    where
      o : StepOutcome
      o = run_step fp os max_capture parameters doc_parameters i before st

-- What a document's outcome says of its `n` steps.
abbrev pub OutcomeFits : DocumentOutcome → ℕ → Type 0
OutcomeFits o n =
    (o.status ≡ verdict (any_cancelled o.steps) (any_failed o.steps))
    × (All CodeFits o.steps × Covers o.steps n)

module _ (fp : Doubles) (os : Machine) where
  -- A document with at least one step: its status is the verdict on the results (cancelled where a step
  -- was cancelled, else failed where one failed or timed out, else success); a result's code is 0 just
  -- where its step succeeded or was skipped; and each step has a result, unless one was cancelled, where
  -- there are no more results than steps.
  pub run_document_verdict :
      (document parameters : Value) (max_capture : ℕ) (st : Step) (sts : List Step)
      → document_steps document ≡ st ∷ sts
      → OutcomeFits (run_document fp os document parameters max_capture) (suc (length sts))
  unfolding run_document
  run_document_verdict document parameters max_capture st sts h =
      rw (h, run_document)
        (
          run_steps_after fp os max_capture parameters doc_parameters 0 success (st ∷ sts)
              (inl refl),
          (
            run_steps_codes fp os max_capture parameters doc_parameters 0 success (st ∷ sts)
                (inl refl),
            run_steps-Covers fp os max_capture parameters doc_parameters 0 success (st ∷ sts)
                (inl refl),
          ),
        )
    where
      doc_parameters : Value
      doc_parameters = or_null (Value.find document (codes "parameters"))
