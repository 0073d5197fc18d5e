-- ===== src/Workflow/Memory/Errors.antt =====
-- The error paths of `memoryStore` of internal/workflow/store_memory.go.
use queue.Prelude.{
  ◌≡◌, refl, ap, ℕ, Bool, true, false, String, Option, none, some, Result, ok, err, Result-cases,
  Option-cases, inl, inr, arith,
}
use queue.Workflow.Types.{BatchJobOutcome, succeeded, failed, other, Error}
use queue.Workflow.Validate.{validate_chain_record, validate_batch_record}
use queue.Workflow.Receipt.{TransitionClaim}
use queue.Workflow.Memory.Store.{MemoryStore}
use queue.Workflow.Memory.Chains.{
  create_chain, advance_chain_outcome, fail_chain_outcome, fail_claimed, fail_chain,
}
use queue.Workflow.Memory.Chains.Cases.{advance_cases, fail_cases}
use queue.Workflow.Memory.Chains.Outcomes.{advanced}
use queue.Workflow.Memory.Batches.{
  create_batch, mark_batch_job_started, settle_batch_outcome, cancel_batch,
}
use queue.Workflow.Memory.Batches.Cases.{Requests, success, failure, settle_cases}
use queue.Workflow.Memory.Calls.{
  Call, creates_chain, advances, fails_node, fails, creates_batch, starts, settles, cancels,
  perform,
}

abbrev pub error_of {ℓ} : {E A : Type ℓ} → Result E A → Option E
error_of (ok a) = none
error_of (err e) = some e

-- The error that a call returns.
unfoldable pub failure_of : MemoryStore → Call → Option Error
failure_of m (creates_chain r now) = error_of (create_chain m r now).0
failure_of m (advances c n claim now later) =
    error_of (advance_chain_outcome m c n claim now later).0
failure_of m (fails_node c n cause claim now later) =
    error_of (fail_chain_outcome m c n cause claim now later).0
failure_of m (fails c cause now) = error_of (fail_chain m c cause now).0
failure_of m (creates_batch r now) = error_of (create_batch m r now).0
failure_of m (starts id job now) = error_of (mark_batch_job_started m id job now).0
failure_of m (settles id job outcome claim now later) =
    error_of (settle_batch_outcome m id job outcome claim now later).0
failure_of m (cancels id now) = error_of (cancel_batch m id now).0
failure_of m _ = none

module _ (m : MemoryStore) where
  advance_error :
      (c n : String) (claim : TransitionClaim) (now later : ℕ) (e : Error)
      → (advance_chain_outcome m c n claim now later).0 ≡ err e
      → (advance_chain_outcome m c n claim now later).1 ≡ m
  advance_error c n claim now later e h = elim (advance_cases m c n claim now later) [
    | inl same ↦ same
    | inr (ch, (claims, eq)) ↦
        absurd
          (cc (h, ap (λ p. p.0) eq, (advanced m ch c n claim now later claims.current).returns))
  ]

  fail_error :
      (c n : String) (cause : Option String) (claim : TransitionClaim) (now later : ℕ) (e : Error)
      → (fail_chain_outcome m c n cause claim now later).0 ≡ err e
      → (fail_chain_outcome m c n cause claim now later).1 ≡ m
  fail_error c n cause claim now later e h = elim (fail_cases m c n cause claim now later) [
    | inl same ↦ same
    | inr (ch, (claims, eq)) ↦ absurd (unfold fail_claimed in cc (h, ap (λ p. p.0) eq))
  ]

  settle_error :
      (id job : String) (outcome : BatchJobOutcome) (flag : Bool) (claim : TransitionClaim)
      (now later : ℕ) (e : Error)
      → Requests outcome flag
      → (settle_batch_outcome m id job outcome claim now later).0 ≡ err e
      → (settle_batch_outcome m id job outcome claim now later).1 ≡ m
  settle_error id job outcome flag claim now later e q h =
      elim (settle_cases m id job claim now later q) [
        | inl same ↦ same
        | inr (inl (b, js, again)) ↦ absurd (cc (h, ap (λ p. p.0) again.answers))
        | inr (inr (b, js, first)) ↦ absurd (cc (h, ap (λ p. p.0) first.answers))
      ]

  -- A call that returns an error, whichever it is, leaves the store as it was.
  pub error-perform : (call : Call) (e : Error) → failure_of m call ≡ some e → perform m call ≡ m
  unfolding failure_of perform
  error-perform (creates_chain r now) e h =
      unfold create_chain in ground (arith, Result-cases (validate_chain_record r))
  error-perform (advances c n claim now later) e h =
      advance_error c n claim now later e (ground arith)
  error-perform (fails_node c n cause claim now later) e h =
      fail_error c n cause claim now later e (ground arith)
  error-perform (fails c cause now) e h =
      unfold fail_chain in ground (arith, Option-cases (m.chains c))
  error-perform (creates_batch r now) e h =
      unfold create_batch in ground (arith, Result-cases (validate_batch_record r))
  error-perform (starts id job now) e h =
      unfold mark_batch_job_started in ground (arith, Option-cases (m.batch id))
  error-perform (settles id job succeeded claim now later) e h =
      settle_error id job succeeded false claim now later e success (ground arith)
  error-perform (settles id job failed claim now later) e h =
      settle_error id job failed true claim now later e failure (ground arith)
  error-perform (settles id job (other text) claim now later) e h =
      unfold settle_batch_outcome in refl
  error-perform (cancels id now) e h =
      unfold cancel_batch in ground (arith, Option-cases (m.batch id))
  error-perform _ e h = cc
