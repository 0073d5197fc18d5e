-- ===== src/Engine/Invariant/OfBatches.antt =====
-- A batch member delivery keeps what the methods of the store keep.
use queue.Prelude.{ℕ, Bool, not, Option, Result}
use queue.Delivery.Failure.{Failure}
use queue.Delivery.Context.{Context, DeliveryProvenance}
use queue.Workflow.Types.{BatchState, BatchJobOutcome, succeeded, failed, other}
use queue.Workflow.Receipt.{TransitionReceipt}
use queue.Workflow.Memory.Store.{MemoryStore}
use queue.Engine.Types.{Envelope, StoredJobOutcome}
use queue.Engine.World.Keeps.{Keeps, Keeps-bind, Keeps-pure, Keeps-if, Keeps-on_result, keeps_rules}
use queue.Engine.Runtime.{Runtime}
use queue.Engine.Outside.{
  OnStore, KeptOutside, Keeps-on_store, Keeps-now, Keeps-mark_delivery_transition_committed,
  Keeps-prepare_batch_terminal_callbacks, Keeps-cleanup_batch_callbacks,
  Keeps-run_ephemeral_callback, Keeps-emit_new, Keeps-emit_fact, Keeps-execute_stored_job_attempt,
  Keeps-emit_stored_job_outcome, Keeps-dispatch_callback,
}
use queue.Engine.Invariant.{KeptByDeliveries, Keeps-by_decision, Keeps-or_handled, Keeps-read}
use queue.Engine.BatchRecovery.{
  emit_committed_batch_success_facts, publish_recovered_completion, settle_recovered,
  recover_batch_by_receipt, recover_committed_batch_transition,
}
use queue.Engine.Batch.{
  dispatch_batch_terminal_callbacks, dispatch_batch_terminal, settle_batch_member,
  invoke_batch_progress, publish_batch_failure, repeat_batch_failure, fail_member, succeed_member,
  run_batch_job, handle_internal_batch_job,
}

module _ {Q : MemoryStore → Type 0} (r : Runtime) (kept : KeptOutside Q r)
    (calls : KeptByDeliveries Q) where
  Keeps-emit_committed_batch_success_facts :
      (ctx : Option Context) (env : Envelope) (outcome : StoredJobOutcome)
      → Keeps (OnStore Q) (emit_committed_batch_success_facts r ctx env outcome)
  unfolding emit_committed_batch_success_facts
  Keeps-emit_committed_batch_success_facts ctx env outcome =
      search (keeps_rules, Keeps-emit_stored_job_outcome r kept, Keeps-emit_fact r kept) depth 12

  Keeps-publish_recovered_completion :
      (ctx : Option Context) (env : Envelope) (st : BatchState) (receipt : TransitionReceipt)
      (owner : Bool)
      → Keeps (OnStore Q) (publish_recovered_completion r ctx env st receipt owner)
  unfolding publish_recovered_completion
  Keeps-publish_recovered_completion ctx env st receipt owner =
      search (keeps_rules, Keeps-emit_fact r kept) depth 12

  Keeps-settle_recovered :
      (ctx : Option Context) (env : Envelope) (st : BatchState) (receipt : TransitionReceipt)
      (owner : Bool) (kind : BatchJobOutcome)
      → Keeps (OnStore Q) (settle_recovered r ctx env st receipt owner kind)
  unfolding settle_recovered
  Keeps-settle_recovered ctx env st receipt owner succeeded =
      Keeps-if (not owner) _ _ (λ _. Keeps-pure _)
        λ _. Keeps-bind _ _ (Keeps-now r kept) λ observed.
          Keeps-on_result _ _ _ (λ e _. Keeps-pure _)
            λ outcome _. search (
              keeps_rules, Keeps-emit_committed_batch_success_facts,
              Keeps-publish_recovered_completion,
            )
  Keeps-settle_recovered ctx env st receipt owner failed =
      search (keeps_rules, Keeps-publish_recovered_completion)
  Keeps-settle_recovered ctx env st receipt owner (other kind) = search keeps_rules

  Keeps-recover_batch_by_receipt :
      (ctx : Option Context) (env : Envelope) (provenance : DeliveryProvenance) (st : BatchState)
      (found : Option TransitionReceipt)
      → Keeps (OnStore Q) (recover_batch_by_receipt r ctx env provenance st found)
  unfolding recover_batch_by_receipt
  Keeps-recover_batch_by_receipt ctx env provenance st found =
      search (keeps_rules, Keeps-settle_recovered) depth 14

  Keeps-recover_committed_batch_transition :
      (ctx : Option Context) (env : Envelope)
      → Keeps (OnStore Q) (recover_committed_batch_transition r ctx env)
  unfolding recover_committed_batch_transition
  Keeps-recover_committed_batch_transition ctx env =
      search (keeps_rules, Keeps-read r kept, Keeps-recover_batch_by_receipt) depth 14

  Keeps-dispatch_batch_terminal_callbacks :
      (env : Envelope) (st : BatchState)
      → Keeps (OnStore Q) (dispatch_batch_terminal_callbacks r env st)
  unfolding dispatch_batch_terminal_callbacks
  Keeps-dispatch_batch_terminal_callbacks env st =
      search
        (
          keeps_rules,
          Keeps-prepare_batch_terminal_callbacks,
          Keeps-dispatch_callback r kept,
          Keeps-cleanup_batch_callbacks,
        )
        depth 12

  Keeps-dispatch_batch_terminal :
      (ctx : Option Context) (env : Envelope) (st : BatchState)
      → Keeps (OnStore Q) (dispatch_batch_terminal r ctx env st)
  unfolding dispatch_batch_terminal
  Keeps-dispatch_batch_terminal ctx env st =
      search (keeps_rules, Keeps-emit_fact r kept, Keeps-dispatch_batch_terminal_callbacks) depth 12

  Keeps-settle_batch_member :
      (ctx : Option Context) (env : Envelope) (kind : BatchJobOutcome) (outcome : StoredJobOutcome)
      → Keeps (OnStore Q) (settle_batch_member r ctx env kind outcome)
  unfolding settle_batch_member
  Keeps-settle_batch_member ctx env kind outcome = Keeps-bind _ _ (Keeps-now r kept) λ time.
      Keeps-bind _ _ (Keeps-now r kept)
        λ later. Keeps-on_store r kept _ (λ m h. calls.settle _ _ kind _ time later m h)

  Keeps-invoke_batch_progress :
      (st : BatchState) (progress : Option ℕ)
      → Keeps (OnStore Q) (invoke_batch_progress r st progress)
  unfolding invoke_batch_progress
  Keeps-invoke_batch_progress st progress =
      search (keeps_rules, Keeps-run_ephemeral_callback, kept.call_batch) depth 12

  Keeps-publish_batch_failure :
      (ctx : Option Context) (env : Envelope) (outcome : StoredJobOutcome) (st : BatchState)
      (owns : Bool) (progress : Option ℕ)
      → Keeps (OnStore Q) (publish_batch_failure r ctx env outcome st owns progress)
  unfolding publish_batch_failure
  Keeps-publish_batch_failure ctx env outcome st owns progress =
      search
        (
          keeps_rules,
          Keeps-emit_stored_job_outcome r kept,
          Keeps-emit_fact r kept,
          Keeps-emit_new r kept,
          Keeps-dispatch_callback r kept,
          Keeps-invoke_batch_progress,
          Keeps-dispatch_batch_terminal,
        )
        depth 16

  Keeps-repeat_batch_failure :
      (ctx : Option Context) (env : Envelope) (outcome : StoredJobOutcome) (st : BatchState)
      (owns : Bool)
      → Keeps (OnStore Q) (repeat_batch_failure r ctx env outcome st owns)
  unfolding repeat_batch_failure
  Keeps-repeat_batch_failure ctx env outcome st owns =
      search (keeps_rules, Keeps-dispatch_callback r kept, Keeps-dispatch_batch_terminal_callbacks)
        depth 16

  Keeps-fail_member :
      (ctx : Option Context) (env : Envelope) (progress : Option ℕ) (outcome : StoredJobOutcome)
      → Keeps (OnStore Q) (fail_member r ctx env progress outcome)
  unfolding fail_member
  Keeps-fail_member ctx env progress outcome =
      search
        (
          keeps_rules, Keeps-settle_batch_member, Keeps-recover_committed_batch_transition,
          Keeps-repeat_batch_failure, Keeps-publish_batch_failure,
          Keeps-mark_delivery_transition_committed,
        )
        depth 16

  Keeps-succeed_member :
      (ctx : Option Context) (env : Envelope) (progress : Option ℕ) (outcome : StoredJobOutcome)
      → Keeps (OnStore Q) (succeed_member r ctx env progress outcome)
  unfolding succeed_member
  Keeps-succeed_member ctx env progress outcome =
      search
        (
          keeps_rules, Keeps-settle_batch_member, Keeps-recover_committed_batch_transition,
          Keeps-dispatch_batch_terminal_callbacks, Keeps-emit_committed_batch_success_facts,
          Keeps-invoke_batch_progress, Keeps-dispatch_batch_terminal,
          Keeps-mark_delivery_transition_committed,
        )
        depth 16

  Keeps-run_batch_job :
      (ctx : Option Context) (env : Envelope) → Keeps (OnStore Q) (run_batch_job r ctx env)
  unfolding run_batch_job
  Keeps-run_batch_job ctx env = Keeps-bind _ _ (search keeps_rules) λ progress.
      Keeps-bind _ _ (Keeps-now r kept) λ time.
        Keeps-bind _ _ (Keeps-on_store r kept _ (λ m h. calls.start _ _ time m h)) λ started.
          search
            (
              keeps_rules,
              Keeps-execute_stored_job_attempt r kept,
              Keeps-by_decision,
              Keeps-fail_member,
              Keeps-succeed_member,
            )
            depth 12

  pub Keeps-handle_internal_batch_job :
      (ctx : Option Context) (job : Result Failure Envelope)
      → Keeps (OnStore Q) (handle_internal_batch_job r ctx job)
  unfolding handle_internal_batch_job
  Keeps-handle_internal_batch_job ctx job =
      search
        (
          keeps_rules, Keeps-run_batch_job, Keeps-recover_committed_batch_transition,
          Keeps-or_handled,
        )
        depth 12
