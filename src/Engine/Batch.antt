-- ===== src/Engine/Batch.antt =====
-- `handleInternalBatchJob` of internal/workflow/batch.go, over the built-in store.
use queue.Prelude.{
  ℕ, Bool, true, false, not, ◌&&◌, Option, none, some, ◌==◌, eqb, eqb_Bool, Result, if◌then◌else◌,
}
use queue.Delivery.Failure.{Failure}
use queue.Delivery.Attempt.{classify_attempt}
use queue.Delivery.Context.{Context}
use queue.Workflow.Types.{BatchState, BatchJobOutcome, succeeded, failed, other}
use queue.Workflow.Receipt.{supported}
use queue.Workflow.Memory.Batches.{
  BatchSettlementResult, mark_batch_job_started, settle_batch_outcome,
}
use queue.Engine.Types.{
  Envelope, StoredJobOutcome, event_batch_progressed, event_batch_completed, event_batch_failed,
  event_batch_cancelled,
}
use queue.Engine.World.{Action, pure, gets, ◌>>=◌, ◌>>◌, on_option, on_result}
use queue.Engine.Runtime.{
  Runtime, on_store, now, store_failure, uncommitted_mutation_error, recovered_delivery_provenance,
  apply_delivery_attempt, mark_delivery_transition_committed, run_ephemeral_callback,
}
use queue.Engine.Execute.{emit_new, emit_fact, execute_stored_job_attempt, emit_stored_job_outcome}
use queue.Engine.Evidence.{transition_claim_from_outcome}
use queue.Engine.Closures.{
  is_some, batch_closures, prepare_batch_terminal_callbacks, cleanup_batch_callbacks,
  dispatch_callback,
}
use queue.Engine.BatchRecovery.{
  batch_fact_id, emit_committed_batch_success_facts, recover_committed_batch_transition,
}
use queue.Engine.Chain.{or_handled, by_decision}

abbrev pub same_outcome : BatchJobOutcome → BatchJobOutcome → Bool
same_outcome succeeded succeeded = true
same_outcome failed failed = true
same_outcome (other a) (other b) = a == b
same_outcome _ _ = false

-- `st.Failed == 1`
unfoldable pub is_first_failure : BatchState → Bool
is_first_failure st = eqb st.failed 1

-- `batchSettlementOwnsTerminal`
unfoldable pub batch_settlement_owns_terminal : BatchSettlementResult → BatchJobOutcome → Bool
unfolding supported
batch_settlement_owns_terminal settled outcome =
    if not settled.state.completed then false else elim settled.receipt [
      | none ↦ true
      | some receipt ↦
          supported receipt
          && same_outcome receipt.outcome outcome
          && receipt.aggregate_completed
          && eqb_Bool receipt.aggregate_cancelled settled.state.cancelled
    ]

unfoldable pub dispatch_batch_terminal_callbacks :
    Runtime → Envelope → BatchState → Action (Unit {0})
dispatch_batch_terminal_callbacks r env st = do
  prepare_batch_terminal_callbacks env.batch_id (st.completed && not st.cancelled)
      (not (eqb st.failed 0))
  (if st.completed && not st.cancelled
      then dispatch_callback r env "batch_then" none
      else pure none)
  dispatch_callback r env "batch_finally" none
  cleanup_batch_callbacks env.batch_id

unfoldable pub dispatch_batch_terminal :
    Runtime → Option Context → Envelope → BatchState → Action (Unit {0})
unfolding batch_fact_id
dispatch_batch_terminal r ctx env st = do
  (if st.completed && not st.cancelled
      then emit_fact r ctx event_batch_completed (batch_fact_id r event_batch_completed env) env
          none
      else pure tt)
  dispatch_batch_terminal_callbacks r env st

-- `settleBatchJob` on the built-in store.
unfoldable pub settle_batch_member :
    Runtime
    → Option Context
    → Envelope
    → BatchJobOutcome
    → StoredJobOutcome
    → Action (Result queue.Workflow.Types.Error BatchSettlementResult)
settle_batch_member r ctx env kind outcome = do
  time ← now r
  later ← now r
  on_store r (λ m.
      settle_batch_outcome m env.batch_id env.job_id kind
        (transition_claim_from_outcome r ctx outcome) time later)

-- `invokeBatchProgress`, with the closure that was there when the delivery began.
unfoldable pub invoke_batch_progress : Runtime → BatchState → Option ℕ → Action (Unit {0})
invoke_batch_progress r st progress =
    on_option progress (pure tt)
      (λ callback. do run_ephemeral_callback (r.call_batch callback st none); pure tt)

abbrev pub when : Bool → Action (Unit {0}) → Action (Unit {0})
when b m = if b then m else pure tt

-- The branch of a failure that is claimed now.
unfoldable pub publish_batch_failure :
    Runtime
    → Option Context
    → Envelope
    → StoredJobOutcome
    → BatchState
    → Bool
    → Option ℕ
    → Action (Option Failure)
unfolding batch_fact_id
publish_batch_failure r ctx env outcome st owns_terminal progress = do
  emit_stored_job_outcome r ctx outcome
  emit_fact r ctx event_batch_progressed (batch_fact_id r event_batch_progressed env) env
      outcome.failure
  when (owns_terminal && st.cancelled) (do
    emit_new r ctx event_batch_failed env outcome.failure
    emit_new r ctx event_batch_cancelled env none)
  (if is_first_failure st then dispatch_callback r env "batch_catch" outcome.failure else pure none)
  invoke_batch_progress r st progress
  when owns_terminal (dispatch_batch_terminal r ctx env st)
  pure outcome.failure

-- A failure that an earlier delivery has claimed.
unfoldable pub repeat_batch_failure :
    Runtime
    → Option Context
    → Envelope
    → StoredJobOutcome
    → BatchState
    → Bool
    → Action (Option Failure)
repeat_batch_failure r ctx env outcome st owns_terminal =
    if is_some (recovered_delivery_provenance ctx) then pure none else do
      (if is_first_failure st
          then dispatch_callback r env "batch_catch" outcome.failure
          else pure none)
      when owns_terminal (dispatch_batch_terminal_callbacks r env st)
      pure none

-- `case busruntime.AttemptFailed`
unfoldable pub fail_member :
    Runtime → Option Context → Envelope → Option ℕ → StoredJobOutcome → Action (Option Failure)
fail_member r ctx env progress outcome = do
  marked ← settle_batch_member r ctx env failed outcome
  on_result marked
      (λ e. pure (uncommitted_mutation_error "mark batch job failed" (store_failure r e)))
      (λ settled. do
        mark_delivery_transition_committed ctx settled.claimed_now (is_some settled.receipt)
        if not settled.owned
            then (if is_some (recovered_delivery_provenance ctx)
                then (do
                  recovered ← recover_committed_batch_transition r ctx outcome.env
                  pure recovered.1)
                else pure none)
            else if not settled.claimed_now
            then repeat_batch_failure r ctx env outcome settled.state
                (batch_settlement_owns_terminal settled failed)
            else publish_batch_failure r ctx env outcome settled.state
                (batch_settlement_owns_terminal settled failed) progress)

-- The rest of the handler after a success.
unfoldable pub succeed_member :
    Runtime → Option Context → Envelope → Option ℕ → StoredJobOutcome → Action (Option Failure)
succeed_member r ctx env progress outcome = do
  marked ← settle_batch_member r ctx env succeeded outcome
  on_result marked
      (λ e. pure (uncommitted_mutation_error "mark batch job succeeded" (store_failure r e)))
      (λ settled. do
        mark_delivery_transition_committed ctx settled.claimed_now (is_some settled.receipt)
        if not settled.owned
            then pure none
            else if not settled.claimed_now
            then (if is_some (recovered_delivery_provenance ctx)
                then (do
                  recovered ← recover_committed_batch_transition r ctx outcome.env
                  pure recovered.1)
                else (do
                  when (batch_settlement_owns_terminal settled succeeded)
                      (dispatch_batch_terminal_callbacks r env settled.state)
                  pure none))
            else do
              emit_committed_batch_success_facts r ctx env outcome
              invoke_batch_progress r settled.state progress
              when (batch_settlement_owns_terminal settled succeeded)
                  (dispatch_batch_terminal r ctx env settled.state)
              pure none)

unfoldable pub run_batch_job : Runtime → Option Context → Envelope → Action (Option Failure)
unfolding classify_attempt batch_closures
run_batch_job r ctx env = do
  progress ← gets (λ w. (batch_closures w env.batch_id).progress)
  time ← now r
  started ← on_store r (λ m. mark_batch_job_started m env.batch_id env.job_id time)
  on_result started
      (λ e. pure (uncommitted_mutation_error "mark batch job started" (store_failure r e)))
      (λ _. do
        outcome ← execute_stored_job_attempt r ctx env
        by_decision (classify_attempt outcome.attempt outcome.failure) (pure outcome.failure)
            (fail_member r ctx env progress outcome) (succeed_member r ctx env progress outcome))

-- `handleInternalBatchJob`; the argument is what `Bind` gives.
unfoldable pub handle_internal_batch_job :
    Runtime → Option Context → Result Failure Envelope → Action (Option Failure)
unfolding apply_delivery_attempt
handle_internal_batch_job r ctx job =
    on_result job (λ e. pure (some e))
      (λ bound.
        if is_some (recovered_delivery_provenance ctx)
        then (let env = (apply_delivery_attempt ctx bound).1 in
            or_handled (recover_committed_batch_transition r ctx env) (run_batch_job r ctx env))
        else run_batch_job r ctx bound)
