-- ===== src/Local/Retry/Ends.antt =====
-- How the retry loop ends, and that it does.
use queue.Prelude.{
  ℕ, zero, suc, ◌+◌, ◌-◌, ◌<◌, ◌≤◌, ◌≡◌, ◌≢◌, refl, ◌⊎◌, inl, inr, arith, true, false, Option, none,
  some, Option-cases, Bool-cases, leb,
}
use queue.Prelude.Int.{ℤ}
use queue.Delivery.Failure.{
  Failure, is_uncommitted, is_permanent, is_uncommitted_failure, is_permanent_failure,
}
use queue.Delivery.Attempt.{
  AttemptDecision, attempt_succeeded, attempt_retry, attempt_failed, attempt_redeliver,
  classify_attempt, exhausted,
}
use queue.Delivery.Context.{Context}
use queue.Job.{Job, JobOptions}
use queue.Local.Retry.{
  Surroundings, local_redelivery_backoff, retry_budget, job_for_run, retry_delay, delivery_of,
  answer, ended, Outcome, run_attempts, run_with_retry,
}

abbrev decision : ℕ → ℕ → Option Failure → AttemptDecision
decision budget attempt failure = classify_attempt (delivery_of budget attempt) failure

-- The four decisions with what each one says of the handler's answer.
decision_cases :
    (budget attempt : ℕ) (failure : Option Failure)
    → ((failure ≡ none) × (decision budget attempt failure ≡ attempt_succeeded))
      ⊎ ((is_uncommitted failure ≡ true) × (decision budget attempt failure ≡ attempt_redeliver))
      ⊎ ((is_uncommitted failure ≡ false)
          × (decision budget attempt failure ≡ attempt_failed)
          × ((is_permanent failure ≡ true) ⊎ (budget ≤ attempt)))
      ⊎ ((failure ≢ none)
          × (is_uncommitted failure ≡ false)
          × (is_permanent failure ≡ false)
          × (decision budget attempt failure ≡ attempt_retry)
          × (attempt < budget))
unfolding classify_attempt delivery_of exhausted is_uncommitted is_permanent
decision_cases budget attempt none = inl (refl, refl)
decision_cases budget attempt (some e) = elim (Bool-cases (is_uncommitted_failure e)) [
  | inl again ↦ inr (inl (again, ground (arith, again)))
  | inr committed ↦ elim (Bool-cases (is_permanent_failure e)) [
    | inl final ↦ inr (inr (inl (committed, ground (arith, committed, final), inl final)))
    | inr transient ↦ elim (Bool-cases (leb budget attempt)) [
      | inl spent ↦
          inr (inr (inl (committed, ground (arith, committed, spent), inr (ground arith))))
      | inr left ↦ inr (
          inr (
            inr (
              (λ nothing. cc),
              committed,
              transient,
              ground (arith, committed, transient, left),
              ground arith,
            )))
    ]
  ]
]

module _ (w : Surroundings) (ctx : Option Context) (job : Job) (backoff : Option ℤ)
    (budget : ℕ) where
  -- What the loop waits for after an answer: nothing where it ends, the redelivery of a failure that is
  -- not committed, or the next attempt of a failure that is committed, not permanent and within the
  -- budget.
  pub data Waits (attempt n : ℕ) : ℤ → Type 0 where
    redelivery :
        is_uncommitted (answer w ctx job budget attempt n) ≡ true
        → Waits attempt n local_redelivery_backoff
    next_attempt :
        answer w ctx job budget attempt n ≢ none
        → is_uncommitted (answer w ctx job budget attempt n) ≡ false
        → is_permanent (answer w ctx job budget attempt n) ≡ false
        → attempt < budget
        → Waits attempt n (retry_delay backoff)

  -- Why the loop ended: the handler succeeded, its failure is permanent or came on the last attempt
  -- and is committed, or the context was done in the wait that its last answer called for. No attempt is
  -- beyond the budget.
  pub record Explained (out : Outcome) : Type 0 where
    bounded : out.last_attempt ≤ budget
    reason :
        ((answer w ctx job budget out.last_attempt out.last ≡ none) × (out.result ≡ none))
        ⊎ ((answer w ctx job budget out.last_attempt out.last ≡ out.result)
            × (is_uncommitted out.result ≡ false)
            × ((is_permanent out.result ≡ true) ⊎ (out.last_attempt ≡ budget)))
        ⊎ ((e : Failure) × (d : ℤ) × Waits out.last_attempt out.last d
            × (w.wait_for_local_retry out.last d ≡ some e)
            × (out.result ≡ some e))

  waited :
      (attempt n : ℕ) (d : ℤ) (e : Failure)
      → attempt ≤ budget
      → Waits attempt n d
      → w.wait_for_local_retry n d ≡ some e
      → Explained (record { result = some e; last = n; last_attempt = attempt })
  waited attempt n d e bound called h = record {
    bounded = bound;
    reason = inr (inr (e, d, called, h, refl));
  }

  -- The loop returns, for a reason, once the handler commits every answer from invocation k on.
  run_attempts-returns :
      (k fuel attempt n : ℕ)
      → ((a i : ℕ) → k ≤ i → is_uncommitted (answer w ctx job budget a i) ≡ false)
      → attempt ≤ budget
      → (k - n) + (budget - attempt) < fuel
      → (out : Outcome) × (run_attempts fuel w ctx job backoff budget attempt n ≡ some out)
        × Explained out
  unfolding run_attempts ended
  run_attempts-returns k zero attempt n committed bound enough = absurd (omega arith)
  run_attempts-returns k (suc fuel) attempt n committed bound enough =
      elim (decision_cases budget attempt (answer w ctx job budget attempt n)) [
        | inl (success, decided) ↦ (
          record { result = none; last = n; last_attempt = attempt },
          ground (arith, decided),
          record { bounded = bound; reason = inl (success, refl) },
        )
        | inr (inl (again, decided)) ↦
            elim (Option-cases (w.wait_for_local_retry n local_redelivery_backoff)) [
              | inr (e, done) ↦ (
                _,
                ground (arith, decided, done),
                waited attempt n local_redelivery_backoff e bound (redelivery again) done,
              )
              | inl waits ↦
                  let below : n < k = ground (arith, again, committed attempt n) in
                  let (out, returns, why) =
                    run_attempts-returns k fuel attempt (n + 1) committed bound (omega arith) in
                  (out, ground (arith, decided, waits, returns), why)
            ]
        | inr (inr (inl (final, decided, why))) ↦
            let failure = answer w ctx job budget attempt n in
            (
              record { result = failure; last = n; last_attempt = attempt },
              ground (arith, decided),
              record {
                bounded = bound;
                reason = inr (
                    inl (
                      refl,
                      final,
                      elim why [
                        | inl permanently ↦ inl permanently
                        | inr spent ↦ inr (omega (arith, spent, bound))
                      ],
                    ));
              },
            )
        | inr (inr (inr (something, committed_now, transient, decided, left))) ↦
            elim (Option-cases (w.wait_for_local_retry n (retry_delay backoff))) [
              | inr (e, done) ↦ (
                _,
                ground (arith, decided, done),
                waited attempt n (retry_delay backoff) e bound
                    (next_attempt something committed_now transient left) done,
              )
              | inl waits ↦
                  let (out, returns, why) =
                    run_attempts-returns k fuel (attempt + 1) (n + 1) committed
                      (omega (arith, left)) (omega (arith, left, enough)) in
                  (out, ground (arith, decided, waits, returns), why)
            ]
      ]

-- A job whose handler commits its answers from invocation k on is run to an end within k + budget + 1
-- invocations. The loop ends for one of three reasons: the handler returned nil, and so does the loop;
-- the handler returned a committed failure that is permanent or came on the last attempt of the
-- budget, and the loop returns it; or the context was done in the wait that the handler's answer called
-- for, the redelivery of a failure that is not committed or the next attempt of one that is committed,
-- not permanent and within the budget, and the loop returns the context's error. No attempt is beyond
-- the budget.
pub run_with_retry-returns :
    (w : Surroundings) (ctx : Option Context) (job : Job) (parsed : JobOptions) (k : ℕ)
    → ((a i : ℕ)
        → k ≤ i
        → is_uncommitted (answer w ctx (job_for_run job parsed) (retry_budget parsed.max_retry) a i)
          ≡ false)
    → (out : Outcome) × (run_with_retry (k + retry_budget parsed.max_retry + 1) w ctx job parsed
        ≡ some out)
      × Explained w ctx (job_for_run job parsed) parsed.backoff (retry_budget parsed.max_retry) out
unfolding run_with_retry
run_with_retry-returns w ctx job parsed k committed =
    run_attempts-returns w ctx (job_for_run job parsed) parsed.backoff
      (retry_budget parsed.max_retry) k (k + retry_budget parsed.max_retry + 1) 0 0 committed
      (omega arith) (omega arith)
