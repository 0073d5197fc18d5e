-- ===== src/Engine/Refusals.antt =====
-- What a handler does when the store refuses its transition.
use queue.Prelude.{◌≡◌, refl, ℕ, true, String, Option, none, some, err, Result, arith}
use queue.Delivery.Failure.{Failure, is_uncommitted, uncommitted_marks}
use queue.Delivery.Attempt.{DeliveryAttempt, classify_attempt, attempt_redeliver}
use queue.Delivery.Context.{Context}
use queue.Workflow.Types.{Error, succeeded, failed}
use queue.Engine.Types.{Envelope, StoredJobOutcome}
use queue.Engine.World.{World, Action, ◌>>=◌, on_result, pure}
use queue.Engine.Runtime.{Runtime, uncommitted_mutation_error, store_failure, annotated}
use queue.Engine.Chain.{advance_chain_node, fail_chain_node_outcome, advance_node, fail_node}
use queue.Engine.Batch.{settle_batch_member, fail_member, succeed_member}

-- The answer is redelivered whatever the attempt, and nothing happened but the refused call.
pub record IsRedelivered (answer : Option Failure × World) (left : World) : Type 0 where
  pub again : (a : DeliveryAttempt) → classify_attempt a answer.0 ≡ attempt_redeliver
  pub untouched : answer.1 ≡ left

uncommitted-redelivered :
    (a : DeliveryAttempt) (e : Option Failure)
    → is_uncommitted e ≡ true
    → classify_attempt a e ≡ attempt_redeliver
unfolding classify_attempt is_uncommitted
uncommitted-redelivered a none h = cc
uncommitted-redelivered a (some e) h = ground (arith, h)

answered-IsRedelivered :
    {A : Type 0} (r : Runtime) (operation : String) (m : Action (Result Error A))
    (f : A → Action (Option Failure)) (w : World) (e : Error)
    → (m w).0 ≡ err e
    → IsRedelivered
        ((m >>= λ x.
            on_result x (λ e. pure (uncommitted_mutation_error operation (store_failure r e))) f)
          w)
        (m w).1
unfolding ◌>>=◌ on_result pure uncommitted_mutation_error
answered-IsRedelivered r operation m f w e refused = rw (refused) (record {
  again = λ a.
      uncommitted-redelivered a (uncommitted_mutation_error operation (store_failure r e))
        (uncommitted_marks (annotated operation (store_failure r e)));
  untouched = refl;
})

-- The store refuses a transition: the answer and the world that the rest of the handler makes of it,
-- and the world that the refused call left.
pub data Refused (r : Runtime) (ctx : Option Context) (env : Envelope) (outcome : StoredJobOutcome)
    (w : World) : Option Failure × World → World → Type 0 where
  refused_advance :
      (e : Error)
      → (advance_chain_node r ctx env outcome w).0 ≡ err e
      → Refused r ctx env outcome w
          (advance_node r ctx env outcome w)
          (advance_chain_node r ctx env outcome w).1
  refused_failure :
      (e : Error)
      → (fail_chain_node_outcome r ctx env outcome w).0 ≡ err e
      → Refused r ctx env outcome w
          (fail_node r ctx env outcome w)
          (fail_chain_node_outcome r ctx env outcome w).1
  refused_member_success :
      (progress : Option ℕ) (e : Error)
      → (settle_batch_member r ctx env succeeded outcome w).0 ≡ err e
      → Refused r ctx env outcome w
          (succeed_member r ctx env progress outcome w)
          (settle_batch_member r ctx env succeeded outcome w).1
  refused_member_failure :
      (progress : Option ℕ) (e : Error)
      → (settle_batch_member r ctx env failed outcome w).0 ≡ err e
      → Refused r ctx env outcome w
          (fail_member r ctx env progress outcome w)
          (settle_batch_member r ctx env failed outcome w).1

-- Where the store refuses to advance or fail a chain's node, or to settle a batch's member, the
-- handler's answer is redelivered whatever the attempt is, and after the refused call it has published
-- nothing, scheduled nothing and changed nothing.
pub refused-IsRedelivered :
    (r : Runtime) (ctx : Option Context) (env : Envelope) (outcome : StoredJobOutcome) (w : World)
    {answer : Option Failure × World} {left : World}
    → Refused r ctx env outcome w answer left
    → IsRedelivered answer left
unfolding advance_node fail_node succeed_member fail_member
refused-IsRedelivered r ctx env outcome w (refused_advance e h) =
    answered-IsRedelivered r "advance chain" (advance_chain_node r ctx env outcome) _ w e h
refused-IsRedelivered r ctx env outcome w (refused_failure e h) =
    answered-IsRedelivered r "fail chain" (fail_chain_node_outcome r ctx env outcome) _ w e h
refused-IsRedelivered r ctx env outcome w (refused_member_success progress e h) =
    answered-IsRedelivered r "mark batch job succeeded"
      (settle_batch_member r ctx env succeeded outcome) _ w e h
refused-IsRedelivered r ctx env outcome w (refused_member_failure progress e h) =
    answered-IsRedelivered r "mark batch job failed" (settle_batch_member r ctx env failed outcome)
      _ w e h
