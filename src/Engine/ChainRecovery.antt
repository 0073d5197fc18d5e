-- ===== src/Engine/ChainRecovery.antt =====
-- What a chain node delivery does when its queue row was reclaimed after its transition may have
-- committed: `recoverCommittedChainSuccess`, `recoverCommittedChainFailure` and
-- `dispatchChainSuccessor` of internal/workflow/chain.go. The first result is `handled`. An index that
-- Go would fault on ends the delivery with an error.
use Prim.Native.String.{◌++◌ as concat}
use queue.Prelude.{
  ℕ, ◌+◌, Bool, true, false, not, ◌&&◌, ◌||◌, String, List, [], ◌∷◌, Option, none, some, ◌==◌, eqb,
  eqb_Bool, length, if◌then◌else◌,
}
use queue.Prelude.Int.{pos, eqb_ℤ}
use queue.Delivery.Failure.{Failure, leaf, permanent}
use queue.Delivery.Context.{Context, DeliveryProvenance}
use queue.Workflow.Types.{StoredJob, JobOptions, ChainNode, ChainState}
use queue.Workflow.Chain.{
  chain_node_position, node_at, chain_node_success_disposition, chain_node_failure_disposition,
}
use queue.Workflow.Receipt.{TransitionReceipt, chain_transition_kind}
use queue.Workflow.Memory.Chains.{get_chain, chain_transition_receipt}
use queue.Engine.Types.{
  Envelope, EventKind, event_chain_advanced, event_chain_completed, protocol_schema_version,
  chain_node_delivery_type,
}
use queue.Engine.World.{Action, pure, ◌>>=◌, ◌>>◌, on_option, on_result, modify}
use queue.Engine.Runtime.{
  Runtime, text_of, quoted, on_store, now, new_id, store_failure, uncommitted_mutation_error,
  recovered_delivery_provenance, stored_job_event_key, stable_workflow_fact_id,
  accepted_dispatch_execution_error, dispatch_envelope,
}
use queue.Engine.Execute.{emit_fact, emit_stored_job_outcome}
use queue.Engine.Evidence.{
  is_succeeded, is_failed_outcome, validate_recovered_transition_receipt,
  transition_receipt_owns_recovered_facts, recovered_stored_job_success,
}

-- `bytes.Equal`
unfoldable pub equal_bytes : List ℕ → List ℕ → Bool
equal_bytes [] [] = true
equal_bytes [] (b ∷ bs) = false
equal_bytes (a ∷ rest) [] = false
equal_bytes (a ∷ rest) (b ∷ bs) = eqb a b && equal_bytes rest bs

unfoldable pub equal_options : JobOptions → JobOptions → Bool
equal_options a b =
    a.queue_name == b.queue_name
    && eqb_ℤ a.delay b.delay
    && eqb_ℤ a.timeout b.timeout
    && eqb_ℤ a.retry b.retry
    && eqb_ℤ a.backoff b.backoff
    && eqb_ℤ a.unique_for b.unique_for

unfoldable pub stored_jobs_equal : StoredJob → StoredJob → Bool
unfolding equal_bytes equal_options
stored_jobs_equal left right =
    left.type == right.type
    && equal_bytes left.payload right.payload
    && equal_options left.options right.options

unfoldable pub chain_fact_id : Runtime → EventKind → Envelope → String
unfolding stable_workflow_fact_id stored_job_event_key
chain_fact_id r kind env = stable_workflow_fact_id r kind (
    text_of env.dispatch_id
    ∷ text_of env.chain_id
    ∷ text_of env.node_id
    ∷ text_of env.job_id
    ∷ text_of env.job.type
    ∷ text_of (stored_job_event_key r env.job)
    ∷ text_of env.job.options.queue_name
    ∷ [])

unfoldable pub successor_envelope : Envelope → String → ChainNode → Envelope
successor_envelope env id next = record {
  schema_version = protocol_schema_version;
  dispatch_id = env.dispatch_id;
  kind = "chain_node";
  job_id = id;
  chain_id = env.chain_id;
  batch_id = "";
  node_id = next.node_id;
  attempt = pos 0;
  job = next.job;
  callback_kind = "";
  failure = "";
}

-- `recordSynchronousChainError`: the recorder keeps its first error.
unfoldable pub record_synchronous_chain_error : Failure → Action (Unit {0})
record_synchronous_chain_error e = modify (λ w. elim w.chain_result [
  | none ↦ w
  | some first ↦ record w { chain_result = some (elim first [ none ↦ some e | some f ↦ some f ]) }
])

unfoldable pub dispatch_chain_successor :
    Runtime → Envelope → Option ChainNode → Action (Option Failure)
unfolding successor_envelope
dispatch_chain_successor r env next =
    on_option next
      (pure (
        uncommitted_mutation_error "dispatch next chain node"
          (leaf "chain store omitted successor")))
      (λ node. do
        id ← new_id r "job"
        failure ← dispatch_envelope r chain_node_delivery_type (successor_envelope env id node)
        on_option (accepted_dispatch_execution_error failure)
            (on_option failure (pure none)
              (λ e. pure (uncommitted_mutation_error "dispatch next chain node" e)))
            (λ executed. do record_synchronous_chain_error executed; pure none))

-- Returns a handled result with an error of the named recovery.
abbrev pub refuse : String → Failure → Action (Bool × Option Failure)
refuse operation e = pure (true, uncommitted_mutation_error operation e)

abbrev pub handled : Action (Option Failure) → Action (Bool × Option Failure)
handled m = do failure ← m; pure (true, failure)

-- `state.Nodes[state.NextIndex]`, and its dispatch.
unfoldable pub dispatch_next_node : Runtime → Envelope → ChainState → Action (Option Failure)
dispatch_next_node r env state =
    on_result (node_at state.nodes state.next_index) (λ e. pure (some (store_failure r e)))
      (λ next. dispatch_chain_successor r env (some next))

unfoldable pub recover_committed_chain_successor :
    Runtime → Envelope → ChainState → ℕ → Action (Option Failure)
recover_committed_chain_successor r env state index =
    if state.completed || state.failed || not (eqb_ℤ state.next_index (pos (index + 1)))
    then pure none
    else dispatch_next_node r env state

-- `index == len(state.Nodes)-1`
unfoldable pub is_final_node : ChainState → ℕ → Bool
is_final_node state index = eqb (index + 1) (length state.nodes)

-- The receipt names this use of the chain, and this node.
unfoldable pub matches_chain : Envelope → ChainState → TransitionReceipt → Bool
matches_chain env state receipt =
    receipt.workflow_kind == chain_transition_kind
    && receipt.workflow_id == env.chain_id
    && receipt.member_id == env.node_id
    && receipt.workflow_dispatch_id == state.dispatch_id
    && eqb receipt.workflow_created_at state.created_at

unfoldable pub dispatch_mismatch : ChainState → Envelope → Bool
dispatch_mismatch state env =
    not (state.dispatch_id == "")
    && not (env.dispatch_id == "")
    && not (state.dispatch_id == env.dispatch_id)

abbrev pub recovering_success : String
recovering_success = "recover committed chain success"

-- The facts of a success whose receipt this delivery's earlier generation owns.
unfoldable pub publish_recovered_success :
    Runtime
    → Option Context
    → Envelope
    → ChainState
    → ℕ
    → TransitionReceipt
    → Action (Bool × Option Failure)
unfolding chain_fact_id
publish_recovered_success r ctx env state index receipt = do
  observed ← now r
  on_result (recovered_stored_job_success r env receipt observed) (λ e. refuse recovering_success e)
      (λ outcome.
        if is_final_node state index
        then (do
          emit_stored_job_outcome r ctx outcome
          emit_fact r ctx event_chain_completed (chain_fact_id r event_chain_completed env) env none
          pure (true, none))
        else (do
          emit_stored_job_outcome r ctx outcome
          emit_fact r ctx event_chain_advanced (chain_fact_id r event_chain_advanced env) env none
          if not state.completed && not state.failed && eqb_ℤ state.next_index (pos (index + 1))
              then handled (dispatch_next_node r env state)
              else pure (true, none)))

-- From the receipt on.
unfoldable pub recover_success_by_receipt :
    Runtime
    → Option Context
    → Envelope
    → DeliveryProvenance
    → ChainState
    → ℕ
    → Option TransitionReceipt
    → Action (Bool × Option Failure)
recover_success_by_receipt r ctx env provenance state index found =
    on_option found (handled (recover_committed_chain_successor r env state index)) (λ receipt.
      if not (matches_chain env state receipt)
      then refuse recovering_success (leaf "transition receipt does not match chain state")
      else on_option (validate_recovered_transition_receipt r env receipt false)
          (if not (is_succeeded receipt.outcome)
            then refuse recovering_success (leaf "transition receipt does not own success")
            else if receipt.aggregate_cancelled
            then refuse recovering_success (leaf "successful chain receipt cannot own cancellation")
            else if not (eqb_Bool receipt.aggregate_completed (is_final_node state index))
            then refuse recovering_success
                (leaf "transition receipt completion does not match chain node position")
            else if not (transition_receipt_owns_recovered_facts env receipt provenance)
            then handled (recover_committed_chain_successor r env state index)
            else publish_recovered_success r ctx env state index receipt)
          (λ e. refuse recovering_success e))

unfoldable pub recover_success_from :
    Runtime
    → Option Context
    → Envelope
    → DeliveryProvenance
    → ChainState
    → Action (Bool × Option Failure)
recover_success_from r ctx env provenance state =
    if not (state.chain_id == env.chain_id)
    then refuse recovering_success (
        leaf (
          concat (quoted r "requested chain " env.chain_id " returned state for ")
            (r.quote state.chain_id)))
    else if dispatch_mismatch state env
    then refuse recovering_success (leaf (quoted r "chain " env.chain_id " dispatch mismatch"))
    else on_option (chain_node_position state.nodes env.node_id)
        (refuse recovering_success (
          leaf (
            concat (quoted r "chain " env.chain_id " does not contain node ")
              (r.quote env.node_id))))
        (λ index.
          on_result (chain_node_success_disposition state env.node_id)
            (λ e. refuse recovering_success (store_failure r e))
            (λ owned.
              on_result (node_at state.nodes (pos index))
                (λ e. refuse recovering_success (store_failure r e))
                (λ node.
                  if not (stored_jobs_equal node.job env.job)
                  then refuse recovering_success (
                      leaf (
                        concat (quoted r "chain " env.chain_id " node ")
                          (concat (r.quote env.node_id) " job mismatch")))
                  else if not owned
                  then pure (false, none)
                  else do
                    receipt ←
                        on_store r (λ m. (chain_transition_receipt m env.chain_id env.node_id, m))
                    on_result receipt (λ e. refuse recovering_success (store_failure r e))
                        (λ found.
                          recover_success_by_receipt r ctx env provenance state index found))))

unfoldable pub recover_committed_chain_success :
    Runtime → Option Context → Envelope → Action (Bool × Option Failure)
recover_committed_chain_success r ctx env =
    on_option (recovered_delivery_provenance ctx) (pure (false, none)) (λ provenance. do
      found ← on_store r (λ m. (get_chain m env.chain_id, m))
      on_result found (λ e. refuse recovering_success (store_failure r e))
          (λ state. recover_success_from r ctx env provenance state))

abbrev pub recovering_failure : String
recovering_failure = "recover committed chain failure"

unfoldable pub recover_failure_by_receipt :
    Runtime → Envelope → ChainState → Option TransitionReceipt → Action (Bool × Option Failure)
recover_failure_by_receipt r env state found = on_option found (pure (false, none)) (λ receipt.
    if not (matches_chain env state receipt)
    then refuse recovering_failure (leaf "transition receipt does not match chain state")
    else if not (is_failed_outcome receipt.outcome)
    then refuse recovering_failure (leaf "transition receipt does not own failure")
    else if receipt.aggregate_completed || receipt.aggregate_cancelled
    then refuse recovering_failure (leaf "failed chain receipt cannot own completion")
    else on_option (validate_recovered_transition_receipt r env receipt false)
        (if state.failure == ""
          then pure (
            true,
            permanent (
                some (
                  leaf (
                    concat (quoted r "chain " env.chain_id " node ") (
                      concat (r.quote env.node_id)
                        " was already committed as failed; original cause was empty")))),
          )
          else pure (true, permanent (some (leaf state.failure))))
        (λ e. refuse recovering_failure e))

unfoldable pub recover_failure_from :
    Runtime → Envelope → ChainState → Action (Bool × Option Failure)
recover_failure_from r env state =
    if not (state.chain_id == env.chain_id)
    then refuse recovering_failure (
        leaf (
          concat (quoted r "requested chain " env.chain_id " returned state for ")
            (r.quote state.chain_id)))
    else if dispatch_mismatch state env
    then refuse recovering_failure (leaf (quoted r "chain " env.chain_id " dispatch mismatch"))
    else if not state.failed || state.completed
    then pure (false, none)
    else on_option (chain_node_position state.nodes env.node_id)
        (refuse recovering_failure (
          leaf (
            concat (quoted r "chain " env.chain_id " does not contain node ")
              (r.quote env.node_id))))
        (λ index.
          on_result (chain_node_failure_disposition state env.node_id)
            (λ e. refuse recovering_failure (store_failure r e))
            (λ d.
              if not d.owned
              then pure (false, none)
              else on_result (node_at state.nodes (pos index))
                  (λ e. refuse recovering_failure (store_failure r e))
                  (λ node.
                    if not (stored_jobs_equal node.job env.job)
                    then refuse recovering_failure (
                        leaf (
                          concat (quoted r "chain " env.chain_id " node ")
                            (concat (r.quote env.node_id) " job mismatch")))
                    else do
                      receipt ←
                          on_store r (λ m. (chain_transition_receipt m env.chain_id env.node_id, m))
                      on_result receipt (λ e. refuse recovering_failure (store_failure r e))
                          (λ found. recover_failure_by_receipt r env state found))))

unfoldable pub recover_committed_chain_failure :
    Runtime → Option Context → Envelope → Action (Bool × Option Failure)
recover_committed_chain_failure r ctx env =
    on_option (recovered_delivery_provenance ctx) (pure (false, none)) (λ provenance. do
      found ← on_store r (λ m. (get_chain m env.chain_id, m))
      on_result found (λ e. refuse recovering_failure (store_failure r e))
          (λ state. recover_failure_from r env state))
