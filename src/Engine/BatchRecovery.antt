-- ===== src/Engine/BatchRecovery.antt =====
-- What a batch member delivery does when its queue row was reclaimed:
-- `recoverCommittedBatchTransition` and its checks of internal/workflow/batch.go.
use Prim.Native.String.{◌++◌ as concat}
use queue.Prelude.{
  ℕ, ◌+◌, Bool, true, false, not, ◌&&◌, ◌||◌, String, [], ◌∷◌, Option, none, some, ◌==◌, eqb,
  eqb_Bool, ltb, if◌then◌else◌,
}
use queue.Prelude.Int.{ℤ, pos, negsuc, eqb_ℤ, ltb_ℤ}
use queue.Delivery.Failure.{Failure, leaf, permanent}
use queue.Delivery.Context.{Context, DeliveryProvenance}
use queue.Workflow.Types.{BatchState, BatchJobOutcome, succeeded, failed, other}
use queue.Workflow.Receipt.{TransitionReceipt, batch_transition_kind}
use queue.Workflow.Memory.Batches.{get_batch, batch_transition_receipt}
use queue.Engine.Types.{
  Envelope, EventKind, StoredJobOutcome, event_batch_progressed, event_batch_completed,
}
use queue.Engine.World.{Action, pure, ◌>>=◌, ◌>>◌, on_option, on_result}
use queue.Engine.Runtime.{
  Runtime, text_of, quoted, on_store, now, store_failure, recovered_delivery_provenance,
  stored_job_event_key, stable_workflow_fact_id,
}
use queue.Engine.Execute.{emit_fact, emit_stored_job_outcome}
use queue.Engine.Evidence.{
  is_failed_outcome, validate_recovered_transition_receipt, transition_receipt_owns_recovered_facts,
  recovered_stored_job_success,
}
use queue.Engine.ChainRecovery.{refuse}

unfoldable pub batch_fact_id : Runtime → EventKind → Envelope → String
unfolding stable_workflow_fact_id stored_job_event_key
batch_fact_id r kind env = stable_workflow_fact_id r kind (
    text_of env.dispatch_id
    ∷ text_of env.batch_id
    ∷ text_of env.job_id
    ∷ text_of env.job.type
    ∷ text_of (stored_job_event_key r env.job)
    ∷ text_of env.job.options.queue_name
    ∷ [])

-- The sum of `Pending`, which is not negative here, and `Processed`.
abbrev pub plus : ℤ → ℕ → ℤ
plus (pos a) b = pos (a + b)
plus (negsuc a) b = negsuc a

-- `validateRecoveredBatchState`; `Total`, `Processed` and `Failed` are natural numbers.
unfoldable pub validate_recovered_batch_state : Runtime → Envelope → BatchState → Option Failure
validate_recovered_batch_state r env state =
    if not (state.batch_id == env.batch_id)
    then some (
        leaf (
          concat (quoted r "requested batch " env.batch_id " returned state for ")
            (r.quote state.batch_id)))
    else if not (state.dispatch_id == "")
        && not (env.dispatch_id == "")
        && not (state.dispatch_id == env.dispatch_id)
    then some (leaf (quoted r "batch " env.batch_id " dispatch mismatch"))
    else if eqb state.total 0
        || ltb_ℤ state.pending (pos 0)
        || not (eqb_ℤ (plus state.pending state.processed) (pos state.total))
        || ltb state.processed state.failed
    then some (leaf (quoted r "batch " env.batch_id " has inconsistent counters"))
    else if not state.completed && eqb_ℤ state.pending (pos 0)
    then some
        (leaf (quoted r "batch " env.batch_id " exhausted pending members without completing"))
    else if state.completed && not state.cancelled && not (eqb_ℤ state.pending (pos 0))
    then some (leaf (quoted r "batch " env.batch_id " completed with pending members"))
    else none

unfoldable pub validate_recovered_batch_receipt_shape :
    BatchState → TransitionReceipt → Option Failure
validate_recovered_batch_receipt_shape state receipt =
    if receipt.aggregate_cancelled && not receipt.aggregate_completed
    then some (leaf "batch transition receipt cancellation is not completed")
    else if receipt.aggregate_cancelled && not (is_failed_outcome receipt.outcome)
    then some (leaf "batch transition receipt cancellation does not own failure")
    else if not receipt.aggregate_completed
    then none
    else if not state.completed
    then some (leaf "batch transition receipt owns completion for nonterminal state")
    else if not (eqb_Bool receipt.aggregate_cancelled state.cancelled)
    then some (leaf "batch transition receipt cancellation does not match aggregate state")
    else none

-- `emitCommittedBatchSuccessFacts`
unfoldable pub emit_committed_batch_success_facts :
    Runtime → Option Context → Envelope → StoredJobOutcome → Action (Unit {0})
unfolding batch_fact_id
emit_committed_batch_success_facts r ctx env outcome = do
  emit_stored_job_outcome r ctx (record outcome { failure = none })
  emit_fact r ctx event_batch_progressed (batch_fact_id r event_batch_progressed env) env none

-- The receipt names this use of the batch, and this member.
unfoldable pub matches_batch : Envelope → BatchState → TransitionReceipt → Bool
matches_batch env state receipt =
    receipt.workflow_kind == batch_transition_kind
    && receipt.workflow_id == env.batch_id
    && receipt.member_id == env.job_id
    && receipt.workflow_dispatch_id == state.dispatch_id
    && eqb receipt.workflow_created_at state.created_at

abbrev pub recovering_transition : String
recovering_transition = "recover committed batch transition"

-- The completion of the batch, where the receipt says that this member's transition made it.
unfoldable pub publish_recovered_completion :
    Runtime → Option Context → Envelope → BatchState → TransitionReceipt → Bool → Action (Unit {0})
unfolding batch_fact_id
publish_recovered_completion r ctx env state receipt owner =
    if owner
      && receipt.aggregate_completed
      && not receipt.aggregate_cancelled
      && eqb_ℤ state.pending (pos 0)
      && state.completed
      && not state.cancelled
    then emit_fact r ctx event_batch_completed (batch_fact_id r event_batch_completed env) env none
    else pure tt

-- From the outcome of a receipt that passed its checks.
unfoldable pub settle_recovered :
    Runtime
    → Option Context
    → Envelope
    → BatchState
    → TransitionReceipt
    → Bool
    → BatchJobOutcome
    → Action (Bool × Option Failure)
settle_recovered r ctx env state receipt owner succeeded =
    if not owner then pure (true, none) else do
      observed ← now r
      on_result (recovered_stored_job_success r env receipt observed)
          (λ e. refuse recovering_transition e)
          (λ outcome. do
            emit_committed_batch_success_facts r ctx env outcome
            publish_recovered_completion r ctx env state receipt owner
            pure (true, none))
settle_recovered r ctx env state receipt owner failed = do
  publish_recovered_completion r ctx env state receipt owner
  pure (
    true,
    permanent (
        some (
          leaf (
            concat (quoted r "batch " env.batch_id " member ") (
              concat (r.quote env.job_id)
                " was already committed as failed; original cause was not persisted")))),
  )
settle_recovered r ctx env state receipt owner (other outcome) =
    refuse recovering_transition
      (leaf (quoted r "unsupported transition receipt outcome " outcome ""))

unfoldable pub recover_batch_by_receipt :
    Runtime
    → Option Context
    → Envelope
    → DeliveryProvenance
    → BatchState
    → Option TransitionReceipt
    → Action (Bool × Option Failure)
unfolding matches_batch transition_receipt_owns_recovered_facts
recover_batch_by_receipt r ctx env provenance state found =
    on_option found (pure (false, none)) (λ receipt.
      if not (matches_batch env state receipt)
      then refuse recovering_transition (leaf "transition receipt does not match batch state")
      else on_option (validate_recovered_transition_receipt r env receipt true)
          (on_option (validate_recovered_batch_receipt_shape state receipt)
            (settle_recovered r ctx env state receipt
              (transition_receipt_owns_recovered_facts env receipt provenance) receipt.outcome)
            (λ e. refuse recovering_transition e))
          (λ e. refuse recovering_transition e))

unfoldable pub recover_committed_batch_transition :
    Runtime → Option Context → Envelope → Action (Bool × Option Failure)
recover_committed_batch_transition r ctx env =
    on_option (recovered_delivery_provenance ctx) (pure (false, none)) (λ provenance. do
      read ← on_store r (λ m. (get_batch m env.batch_id, m))
      on_result read (λ e. refuse recovering_transition (store_failure r e))
          (λ state.
            on_option (validate_recovered_batch_state r env state)
              (do
                receipt ← on_store r (λ m. (batch_transition_receipt m env.batch_id env.job_id, m))
                on_result receipt (λ e. refuse recovering_transition (store_failure r e))
                    (λ found. recover_batch_by_receipt r ctx env provenance state found))
              (λ e. refuse recovering_transition e)))
