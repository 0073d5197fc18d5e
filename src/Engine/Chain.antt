-- ===== src/Engine/Chain.antt =====
-- `handleInternalChainNode` of internal/workflow/chain.go, over the built-in store.
use queue.Prelude.{Bool, false, not, ◌&&◌, ◌||◌, Option, none, some, ◌==◌, Result, if◌then◌else◌}
use queue.Prelude.Equality.{string_eq}
use queue.Delivery.Failure.{Failure, leaf, permanent, is_permanent, error_text}
use queue.Delivery.Attempt.{
  AttemptDecision, attempt_succeeded, attempt_retry, attempt_failed, attempt_redeliver,
  classify_attempt,
}
use queue.Delivery.Context.{Context}
use queue.Workflow.Types.{StoredJob, ChainNode, ChainState}
use queue.Workflow.Chain.{chain_node_position}
use queue.Workflow.Memory.Chains.{
  ChainAdvanceResult, ChainFailureResult, advance_chain_outcome, fail_chain_outcome,
}
use queue.Engine.Types.{
  Envelope, StoredJobOutcome, event_chain_advanced, event_chain_completed, event_chain_failed,
}
use queue.Engine.World.{Action, pure, ◌>>=◌, ◌>>◌, on_option, on_result}
use queue.Engine.Runtime.{
  Runtime, on_store, now, store_failure, uncommitted_mutation_error, recovered_delivery_provenance,
  apply_delivery_attempt, mark_delivery_transition_committed,
}
use queue.Engine.Execute.{emit_new, emit_fact, execute_stored_job_attempt, emit_stored_job_outcome}
use queue.Engine.Evidence.{transition_claim_from_outcome}
use queue.Engine.Closures.{
  is_some, prepare_chain_success_callbacks, cleanup_chain_callbacks, dispatch_callback,
}
use queue.Engine.ChainRecovery.{
  is_final_node, chain_fact_id, dispatch_chain_successor, recover_committed_chain_success,
  recover_committed_chain_failure,
}

-- `failChainNodeOutcome` on the built-in store.
unfoldable pub fail_chain_node_outcome :
    Runtime
    → Option Context
    → Envelope
    → StoredJobOutcome
    → Action (Result queue.Workflow.Types.Error ChainFailureResult)
unfolding error_text
fail_chain_node_outcome r ctx env outcome = do
  time ← now r
  later ← now r
  on_store r (λ m.
      fail_chain_outcome m env.chain_id env.node_id
        (elim outcome.failure [ none ↦ none | some e ↦ some (error_text e) ])
        (transition_claim_from_outcome r ctx outcome) time later)

-- `advanceChainNode` on the built-in store.
unfoldable pub advance_chain_node :
    Runtime
    → Option Context
    → Envelope
    → StoredJobOutcome
    → Action (Result queue.Workflow.Types.Error ChainAdvanceResult)
advance_chain_node r ctx env outcome = do
  time ← now r
  later ← now r
  on_store r (λ m.
      advance_chain_outcome m env.chain_id env.node_id (transition_claim_from_outcome r ctx outcome)
        time later)

-- `observedChainFailure`: the committed cause, with the classification of the current one.
unfoldable pub observed_chain_failure : ChainState → Option Failure → Option Failure
unfolding error_text permanent is_permanent
observed_chain_failure state current =
    if state.failure == ""
      || (elim current [ none ↦ false | some e ↦ error_text e == state.failure ])
    then current
    else if is_permanent current
    then permanent (some (leaf state.failure))
    else some (leaf state.failure)

-- Runs the second recovery only where the first neither handled the delivery nor failed.
unfoldable pub or_handled :
    Action (Bool × Option Failure) → Action (Option Failure) → Action (Option Failure)
or_handled recovery rest = do
  result ← recovery
  if is_some result.1 || result.0 then pure result.1 else rest

-- The branch of a failure that is claimed now.
unfoldable pub publish_chain_failure :
    Runtime → Option Context → Envelope → StoredJobOutcome → ChainState → Action (Option Failure)
unfolding observed_chain_failure
publish_chain_failure r ctx env outcome state =
    let observed = observed_chain_failure state outcome.failure in
    do
      emit_stored_job_outcome r ctx (record outcome { failure = observed })
      emit_new r ctx event_chain_failed env observed
      catch ← dispatch_callback r env "chain_catch" observed
      finally ← dispatch_callback r env "chain_finally" none
      cleanup_chain_callbacks env.chain_id
      pure outcome.failure

-- `case busruntime.AttemptFailed`
unfoldable pub fail_node :
    Runtime → Option Context → Envelope → StoredJobOutcome → Action (Option Failure)
fail_node r ctx env outcome = do
  marked ← fail_chain_node_outcome r ctx env outcome
  on_result marked (λ e. pure (uncommitted_mutation_error "fail chain" (store_failure r e)))
      (λ failed. do
        mark_delivery_transition_committed ctx failed.claimed_now (is_some failed.receipt)
        if not failed.owned
            then (if is_some (recovered_delivery_provenance ctx)
                then or_handled (recover_committed_chain_failure r ctx outcome.env)
                    (or_handled (recover_committed_chain_success r ctx outcome.env) (pure none))
                else pure none)
            else if not failed.claimed_now
            then (if is_some (recovered_delivery_provenance ctx)
                then or_handled (recover_committed_chain_failure r ctx outcome.env)
                    (pure outcome.failure)
                else pure none)
            else if failed.state.completed
            then pure none
            else if not failed.state.failed
            then pure (
                uncommitted_mutation_error "confirm chain failure"
                  (leaf "chain store accepted failure without terminal state"))
            else publish_chain_failure r ctx env outcome failed.state)

-- A success that an earlier delivery has claimed.
unfoldable pub settle_claimed_success :
    Runtime
    → Option Context
    → Envelope
    → StoredJobOutcome
    → ChainAdvanceResult
    → Action (Option Failure)
settle_claimed_success r ctx env outcome advance =
    if not advance.success_owned
    then pure none
    else if is_some (recovered_delivery_provenance ctx)
    then or_handled (recover_committed_chain_success r ctx outcome.env) (
        pure (
          uncommitted_mutation_error "recover committed chain success"
            (leaf "store reported success ownership without advanced state")))
    else if advance.done
    then on_option (chain_node_position advance.state.nodes env.node_id) (pure none) (λ index.
      if advance.state.completed && is_final_node advance.state index
      then (do
        prepare_chain_success_callbacks env.chain_id
        finally ← dispatch_callback r env "chain_finally" none
        cleanup_chain_callbacks env.chain_id
        pure none)
      else pure none)
    else dispatch_chain_successor r env advance.next

-- The last node's success, claimed now. The built-in store always returns the chain's state.
unfoldable pub publish_completion :
    Runtime → Option Context → Envelope → StoredJobOutcome → ChainState → Action (Option Failure)
unfolding chain_fact_id
publish_completion r ctx env outcome state =
    if not state.completed && state.failed
    then pure none
    else if not state.completed
    then pure (
        uncommitted_mutation_error "confirm chain completion"
          (leaf "chain store returned done without terminal state"))
    else on_option (chain_node_position state.nodes env.node_id)
        (pure (
          uncommitted_mutation_error "confirm chain completion"
            (leaf "chain store returned done for an unknown node")))
        (λ index. if not (is_final_node state index) then pure none else do
          emit_stored_job_outcome r ctx outcome
          prepare_chain_success_callbacks env.chain_id
          emit_fact r ctx event_chain_completed (chain_fact_id r event_chain_completed env) env none
          finally ← dispatch_callback r env "chain_finally" none
          cleanup_chain_callbacks env.chain_id
          pure none)

-- The rest of the handler after a success.
unfoldable pub advance_node :
    Runtime → Option Context → Envelope → StoredJobOutcome → Action (Option Failure)
unfolding chain_fact_id
advance_node r ctx env outcome = do
  advanced ← advance_chain_node r ctx env outcome
  on_result advanced (λ e. pure (uncommitted_mutation_error "advance chain" (store_failure r e)))
      (λ advance. do
        mark_delivery_transition_committed ctx advance.claimed_now (is_some advance.receipt)
        if not advance.claimed_now
            then settle_claimed_success r ctx env outcome advance
            else if advance.done
            then publish_completion r ctx env outcome advance.state
            else do
              emit_stored_job_outcome r ctx outcome
              emit_fact r ctx event_chain_advanced (chain_fact_id r event_chain_advanced env) env
                  none
              dispatch_chain_successor r env advance.next)

-- What the worker does with the outcome of an attempt: a retry or a redelivery returns the error, a
-- failure and a success settle.
unfoldable pub by_decision :
    AttemptDecision
    → Action (Option Failure)
    → Action (Option Failure)
    → Action (Option Failure)
    → Action (Option Failure)
by_decision attempt_retry again fails succeeds = again
by_decision attempt_redeliver again fails succeeds = again
by_decision attempt_failed again fails succeeds = fails
by_decision attempt_succeeded again fails succeeds = succeeds

unfoldable pub run_chain_node : Runtime → Option Context → Envelope → Action (Option Failure)
unfolding classify_attempt
run_chain_node r ctx env = do
  outcome ← execute_stored_job_attempt r ctx env
  by_decision (classify_attempt outcome.attempt outcome.failure) (pure outcome.failure)
      (fail_node r ctx env outcome) (advance_node r ctx env outcome)

-- `handleInternalChainNode`; the argument is what `Bind` gives.
unfoldable pub handle_internal_chain_node :
    Runtime → Option Context → Result Failure Envelope → Action (Option Failure)
unfolding apply_delivery_attempt
handle_internal_chain_node r ctx job =
    on_result job (λ e. pure (some e))
      (λ bound.
        if is_some (recovered_delivery_provenance ctx)
        then (let env = (apply_delivery_attempt ctx bound).1 in
            or_handled (recover_committed_chain_failure r ctx env)
              (or_handled (recover_committed_chain_success r ctx env) (run_chain_node r ctx env)))
        else run_chain_node r ctx bound)
