-- ===== src/Engine/Invariant.antt =====
-- Deliveries keep what the store's methods keep: the shared parts, and the recovery of a chain node.
pub mod OfChains
pub mod OfBatches
pub mod OfCallbacks
pub mod OfDispatch
pub mod Calls
use queue.Prelude.{
  inl, inr, Option-cases, ℕ, Bool, true, false, String, List, [], ◌∷◌, Option, none, some, Result,
  ok, err, ◌≡◌, arith, if◌then◌else◌,
}
use queue.Delivery.Failure.{Failure}
use queue.Delivery.Attempt.{
  AttemptDecision, attempt_succeeded, attempt_retry, attempt_failed, attempt_redeliver,
}
use queue.Delivery.Context.{Context, DeliveryProvenance}
use queue.Workflow.Types.{
  ChainNode, ChainState, BatchState, BatchJobOutcome, succeeded, failed, other,
}
use queue.Workflow.Receipt.{TransitionReceipt, TransitionClaim}
use queue.Workflow.Memory.Store.{MemoryStore}
use queue.Workflow.Memory.Chains.{advance_chain_outcome, fail_chain_outcome, ChainAdvanceResult}
use queue.Workflow.Memory.Batches.{mark_batch_job_started, settle_batch_outcome}
use queue.Workflow.Memory.Retention.{mark_callback_invoked}
use queue.Engine.Types.{Envelope, StoredJobOutcome, CallbackResult}
use queue.Engine.World.{World, Action, pure, ◌>>=◌, ◌>>◌}
use queue.Engine.World.Keeps.{
  Keeps, Keeps-pure, Keeps-bind, Keeps-then, Keeps-if, Keeps-on_result, keeps_rules,
}
use queue.Engine.Runtime.{Runtime}
use queue.Engine.Outside.{
  OnStore, KeptOutside, Keeps-on_store, Keeps-now, Keeps-new_id, Keeps-emit, Keeps-modify,
  Keeps-mark_delivery_transition_committed, Keeps-prepare_chain_success_callbacks,
  Keeps-cleanup_chain_callbacks, Keeps-finish_chain_callback,
  Keeps-prepare_batch_terminal_callbacks, Keeps-finish_batch_callback,
  Keeps-cleanup_batch_callbacks, Keeps-run_ephemeral_callback, Keeps-dispatch_envelope,
  Keeps-emit_new, Keeps-emit_fact, Keeps-execute_stored_job_attempt, Keeps-emit_stored_job_outcome,
  Keeps-dispatch_callback,
}
use queue.Engine.ChainRecovery.{
  record_synchronous_chain_error, dispatch_chain_successor, dispatch_next_node,
  recover_committed_chain_successor, publish_recovered_success, recover_success_by_receipt,
  recover_success_from, recover_committed_chain_success, recover_failure_by_receipt,
  recover_failure_from, recover_committed_chain_failure,
}
use queue.Engine.Chain.{
  fail_chain_node_outcome, advance_chain_node, or_handled, publish_chain_failure, fail_node,
  settle_claimed_success, publish_completion, advance_node, by_decision, run_chain_node,
  handle_internal_chain_node,
}

-- The methods that deliveries call keep the property.
pub record KeptByDeliveries (Q : MemoryStore → Type 0) : Type 0 where
  pub advance :
      (c n : String) (claim : TransitionClaim) (time later : ℕ) (m : MemoryStore)
      → Q m
      → Q (advance_chain_outcome m c n claim time later).1
  pub fail :
      (c n : String) (cause : Option String) (claim : TransitionClaim) (time later : ℕ)
      (m : MemoryStore)
      → Q m
      → Q (fail_chain_outcome m c n cause claim time later).1
  pub start :
      (id job : String) (time : ℕ) (m : MemoryStore)
      → Q m
      → Q (mark_batch_job_started m id job time).1
  pub settle :
      (id job : String) (kind : BatchJobOutcome) (claim : TransitionClaim) (time later : ℕ)
      (m : MemoryStore)
      → Q m
      → Q (settle_batch_outcome m id job kind claim time later).1
  pub invoke :
      (key : String) (time : ℕ) (m : MemoryStore) → Q m → Q (mark_callback_invoked m key time).1

pub Keeps-by_decision :
    {P : World → Type 0} (d : AttemptDecision) (again fails succeeds : Action (Option Failure))
    → Keeps P again
    → Keeps P fails
    → Keeps P succeeds
    → Keeps P (by_decision d again fails succeeds)
unfolding by_decision
Keeps-by_decision attempt_retry a f s ka kf ks = ka
Keeps-by_decision attempt_redeliver a f s ka kf ks = ka
Keeps-by_decision attempt_failed a f s ka kf ks = kf
Keeps-by_decision attempt_succeeded a f s ka kf ks = ks

pub Keeps-or_handled :
    {P : World → Type 0} (recovery : Action (Bool × Option Failure))
    (rest : Action (Option Failure))
    → Keeps P recovery
    → Keeps P rest
    → Keeps P (or_handled recovery rest)
unfolding or_handled
Keeps-or_handled recovery rest h k = search keeps_rules

pub Keeps-record_synchronous_chain_error :
    {Q : MemoryStore → Type 0} (e : Failure) → Keeps (OnStore Q) (record_synchronous_chain_error e)
unfolding record_synchronous_chain_error
Keeps-record_synchronous_chain_error e = Keeps-modify _ (λ w. elim (Option-cases w.chain_result) [
  | inl absent ↦ ground (arith, absent)
  | inr (first, there) ↦ ground (arith, there)
])

module _ {Q : MemoryStore → Type 0} (r : Runtime) (kept : KeptOutside Q r) where
  -- A read of the store.
  pub Keeps-read :
      {A : Type 0} (f : MemoryStore → A)
      → Keeps (OnStore Q) (queue.Engine.Runtime.on_store r (λ m. (f m, m)))
  Keeps-read f = Keeps-on_store r kept (λ m. (f m, m)) (λ m h. h)

  pub Keeps-dispatch_chain_successor :
      (env : Envelope) (next : Option ChainNode)
      → Keeps (OnStore Q) (dispatch_chain_successor r env next)
  unfolding dispatch_chain_successor
  Keeps-dispatch_chain_successor env next =
      search
        (
          keeps_rules,
          Keeps-record_synchronous_chain_error,
          Keeps-new_id r kept,
          Keeps-dispatch_envelope r kept,
        )
        depth 9

  pub Keeps-dispatch_next_node :
      (env : Envelope) (state : ChainState) → Keeps (OnStore Q) (dispatch_next_node r env state)
  unfolding dispatch_next_node
  Keeps-dispatch_next_node env state = search (keeps_rules, Keeps-dispatch_chain_successor) depth 9

  pub Keeps-recover_committed_chain_successor :
      (env : Envelope) (state : ChainState) (index : ℕ)
      → Keeps (OnStore Q) (recover_committed_chain_successor r env state index)
  unfolding recover_committed_chain_successor
  Keeps-recover_committed_chain_successor env state index =
      search (keeps_rules, Keeps-dispatch_next_node) depth 9

  pub Keeps-publish_recovered_success :
      (ctx : Option Context) (env : Envelope) (state : ChainState) (index : ℕ)
      (receipt : TransitionReceipt)
      → Keeps (OnStore Q) (publish_recovered_success r ctx env state index receipt)
  unfolding publish_recovered_success
  Keeps-publish_recovered_success ctx env state index receipt =
      Keeps-bind _ _ (Keeps-now r kept) λ observed.
        Keeps-on_result _ _ _ (λ e _. Keeps-pure _)
          λ outcome _.
            Keeps-if (queue.Engine.ChainRecovery.is_final_node state index) _ _
              (λ _.
                search
                  (
                    keeps_rules,
                    Keeps-emit_stored_job_outcome r kept,
                    Keeps-emit_fact r kept,
                    Keeps-dispatch_next_node,
                  )
                  depth 12)
              (λ _.
                search
                  (
                    keeps_rules,
                    Keeps-emit_stored_job_outcome r kept,
                    Keeps-emit_fact r kept,
                    Keeps-dispatch_next_node,
                  )
                  depth 12)

  pub Keeps-recover_success_by_receipt :
      (ctx : Option Context) (env : Envelope) (provenance : DeliveryProvenance) (state : ChainState)
      (index : ℕ) (found : Option TransitionReceipt)
      → Keeps (OnStore Q) (recover_success_by_receipt r ctx env provenance state index found)
  unfolding recover_success_by_receipt
  Keeps-recover_success_by_receipt ctx env provenance state index found =
      search (keeps_rules, Keeps-recover_committed_chain_successor, Keeps-publish_recovered_success)
        depth 14

  pub Keeps-recover_success_from :
      (ctx : Option Context) (env : Envelope) (provenance : DeliveryProvenance) (state : ChainState)
      → Keeps (OnStore Q) (recover_success_from r ctx env provenance state)
  unfolding recover_success_from
  Keeps-recover_success_from ctx env provenance state =
      search (keeps_rules, Keeps-read, Keeps-recover_success_by_receipt) depth 14

  pub Keeps-recover_committed_chain_success :
      (ctx : Option Context) (env : Envelope)
      → Keeps (OnStore Q) (recover_committed_chain_success r ctx env)
  unfolding recover_committed_chain_success
  Keeps-recover_committed_chain_success ctx env =
      search (keeps_rules, Keeps-read, Keeps-recover_success_from) depth 12

  pub Keeps-recover_failure_by_receipt :
      (env : Envelope) (state : ChainState) (found : Option TransitionReceipt)
      → Keeps (OnStore Q) (recover_failure_by_receipt r env state found)
  unfolding recover_failure_by_receipt
  Keeps-recover_failure_by_receipt env state found = search (keeps_rules, Keeps-read) depth 14

  pub Keeps-recover_failure_from :
      (env : Envelope) (state : ChainState) → Keeps (OnStore Q) (recover_failure_from r env state)
  unfolding recover_failure_from
  Keeps-recover_failure_from env state =
      search (keeps_rules, Keeps-read, Keeps-recover_failure_by_receipt) depth 14

  pub Keeps-recover_committed_chain_failure :
      (ctx : Option Context) (env : Envelope)
      → Keeps (OnStore Q) (recover_committed_chain_failure r ctx env)
  unfolding recover_committed_chain_failure
  Keeps-recover_committed_chain_failure ctx env =
      search (keeps_rules, Keeps-read, Keeps-recover_failure_from) depth 12
