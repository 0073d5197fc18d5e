-- ===== src/Engine/Invariant/OfChains.antt =====
-- A chain node delivery keeps what the methods of the store keep.
use queue.Prelude.{Option, Result}
use queue.Delivery.Failure.{Failure}
use queue.Delivery.Context.{Context}
use queue.Workflow.Types.{ChainState}
use queue.Workflow.Memory.Store.{MemoryStore}
use queue.Engine.Types.{Envelope, StoredJobOutcome}
use queue.Engine.World.Keeps.{Keeps, Keeps-bind, keeps_rules}
use queue.Engine.Runtime.{Runtime}
use queue.Engine.Outside.{
  OnStore, KeptOutside, Keeps-on_store, Keeps-now, Keeps-mark_delivery_transition_committed,
  Keeps-prepare_chain_success_callbacks, Keeps-cleanup_chain_callbacks, Keeps-emit_new,
  Keeps-emit_fact, Keeps-execute_stored_job_attempt, Keeps-emit_stored_job_outcome,
  Keeps-dispatch_callback,
}
use queue.Engine.Invariant.{
  KeptByDeliveries, Keeps-by_decision, Keeps-or_handled, Keeps-dispatch_chain_successor,
  Keeps-recover_committed_chain_success, Keeps-recover_committed_chain_failure,
}
use queue.Workflow.Memory.Chains.{ChainAdvanceResult}
use queue.Engine.Chain.{
  fail_chain_node_outcome, advance_chain_node, publish_chain_failure, fail_node,
  settle_claimed_success, publish_completion, advance_node, run_chain_node,
  handle_internal_chain_node,
}

module _ {Q : MemoryStore → Type 0} (r : Runtime) (kept : KeptOutside Q r) where
  pub Keeps-publish_chain_failure :
      (ctx : Option Context) (env : Envelope) (outcome : StoredJobOutcome) (state : ChainState)
      → Keeps (OnStore Q) (publish_chain_failure r ctx env outcome state)
  unfolding publish_chain_failure
  Keeps-publish_chain_failure ctx env outcome state =
      search
        (
          keeps_rules,
          Keeps-emit_stored_job_outcome r kept,
          Keeps-emit_new r kept,
          Keeps-dispatch_callback r kept,
          Keeps-cleanup_chain_callbacks,
        )
        depth 12

  pub Keeps-settle_claimed_success :
      (ctx : Option Context) (env : Envelope) (outcome : StoredJobOutcome)
      (advance : ChainAdvanceResult)
      → Keeps (OnStore Q) (settle_claimed_success r ctx env outcome advance)
  unfolding settle_claimed_success
  Keeps-settle_claimed_success ctx env outcome advance =
      search
        (
          keeps_rules,
          Keeps-or_handled,
          Keeps-recover_committed_chain_success r kept,
          Keeps-prepare_chain_success_callbacks,
          Keeps-dispatch_callback r kept,
          Keeps-cleanup_chain_callbacks,
          Keeps-dispatch_chain_successor r kept,
        )
        depth 14

  pub Keeps-publish_completion :
      (ctx : Option Context) (env : Envelope) (outcome : StoredJobOutcome) (state : ChainState)
      → Keeps (OnStore Q) (publish_completion r ctx env outcome state)
  unfolding publish_completion
  Keeps-publish_completion ctx env outcome state =
      search
        (
          keeps_rules,
          Keeps-emit_stored_job_outcome r kept,
          Keeps-prepare_chain_success_callbacks,
          Keeps-emit_fact r kept,
          Keeps-dispatch_callback r kept,
          Keeps-cleanup_chain_callbacks,
        )
        depth 14

module _ {Q : MemoryStore → Type 0} (r : Runtime) (kept : KeptOutside Q r)
    (calls : KeptByDeliveries Q) where
  Keeps-fail_chain_node_outcome :
      (ctx : Option Context) (env : Envelope) (outcome : StoredJobOutcome)
      → Keeps (OnStore Q) (fail_chain_node_outcome r ctx env outcome)
  unfolding fail_chain_node_outcome
  Keeps-fail_chain_node_outcome ctx env outcome = Keeps-bind _ _ (Keeps-now r kept) λ time.
      Keeps-bind _ _ (Keeps-now r kept)
        λ later. Keeps-on_store r kept _ (λ m h. calls.fail _ _ _ _ time later m h)

  Keeps-advance_chain_node :
      (ctx : Option Context) (env : Envelope) (outcome : StoredJobOutcome)
      → Keeps (OnStore Q) (advance_chain_node r ctx env outcome)
  unfolding advance_chain_node
  Keeps-advance_chain_node ctx env outcome = Keeps-bind _ _ (Keeps-now r kept) λ time.
      Keeps-bind _ _ (Keeps-now r kept)
        λ later. Keeps-on_store r kept _ (λ m h. calls.advance _ _ _ time later m h)

  Keeps-fail_node :
      (ctx : Option Context) (env : Envelope) (outcome : StoredJobOutcome)
      → Keeps (OnStore Q) (fail_node r ctx env outcome)
  unfolding fail_node
  Keeps-fail_node ctx env outcome =
      search
        (
          keeps_rules,
          Keeps-fail_chain_node_outcome,
          Keeps-publish_chain_failure r kept,
          Keeps-mark_delivery_transition_committed,
          Keeps-or_handled,
          Keeps-recover_committed_chain_success r kept,
          Keeps-recover_committed_chain_failure r kept,
        )
        depth 14

  Keeps-advance_node :
      (ctx : Option Context) (env : Envelope) (outcome : StoredJobOutcome)
      → Keeps (OnStore Q) (advance_node r ctx env outcome)
  unfolding advance_node
  Keeps-advance_node ctx env outcome =
      search
        (
          keeps_rules,
          Keeps-advance_chain_node,
          Keeps-settle_claimed_success r kept,
          Keeps-publish_completion r kept,
          Keeps-mark_delivery_transition_committed,
          Keeps-emit_stored_job_outcome r kept,
          Keeps-emit_fact r kept,
          Keeps-dispatch_chain_successor r kept,
        )
        depth 14

  Keeps-run_chain_node :
      (ctx : Option Context) (env : Envelope) → Keeps (OnStore Q) (run_chain_node r ctx env)
  unfolding run_chain_node
  Keeps-run_chain_node ctx env =
      search
        (
          keeps_rules,
          Keeps-fail_node,
          Keeps-advance_node,
          Keeps-by_decision,
          Keeps-execute_stored_job_attempt r kept,
        )
        depth 12

  pub Keeps-handle_internal_chain_node :
      (ctx : Option Context) (job : Result Failure Envelope)
      → Keeps (OnStore Q) (handle_internal_chain_node r ctx job)
  unfolding handle_internal_chain_node
  Keeps-handle_internal_chain_node ctx job =
      search
        (
          keeps_rules,
          Keeps-run_chain_node,
          Keeps-or_handled,
          Keeps-recover_committed_chain_success r kept,
          Keeps-recover_committed_chain_failure r kept,
        )
        depth 12
