-- ===== src/Engine/Transition.antt =====
-- What one delivery of a chain node does to the store: `handleInternalChainNode` of
-- internal/workflow/chain.go.
use queue.Prelude.{◌≡◌, refl, ap, ◌∙◌, subst, sym, ◌+◌, ℕ, Option, none, some}
use queue.Delivery.Failure.{error_text}
use queue.Delivery.Attempt.{
  AttemptDecision, attempt_succeeded, attempt_retry, attempt_failed, attempt_redeliver,
  classify_attempt,
}
use queue.Delivery.Context.{Context}
use queue.Workflow.Memory.Store.{MemoryStore}
use queue.Workflow.Memory.Chains.{advance_chain_outcome, fail_chain_outcome}
use queue.Engine.Types.{Envelope, StoredJobOutcome}
use queue.Engine.World.{World, Action, pure, ◌>>=◌, tick}
use queue.Engine.World.Keeps.{Keeps, Keeps-pure, Keeps-on_result, keeps_rules}
use queue.Engine.Runtime.{Runtime, on_store, now}
use queue.Engine.Outside.{
  OnStore, KeptOutside, Keeps-mark_delivery_transition_committed, Keeps-emit_fact,
  Keeps-execute_stored_job_attempt, Keeps-emit_stored_job_outcome,
}
use queue.Engine.Evidence.{transition_claim_from_outcome}
use queue.Engine.Execute.{execute_stored_job_attempt}
use queue.Engine.Chain.{
  fail_chain_node_outcome, advance_chain_node, fail_node, advance_node, by_decision, run_chain_node,
}
use queue.Engine.Invariant.{
  Keeps-or_handled, Keeps-dispatch_chain_successor, Keeps-recover_committed_chain_success,
  Keeps-recover_committed_chain_failure,
}
use queue.Engine.Invariant.OfChains.{
  Keeps-publish_chain_failure, Keeps-settle_claimed_success, Keeps-publish_completion,
}

-- The store is this one.
unfoldable pub Stays : MemoryStore → MemoryStore → Type 0
Stays m s = s ≡ m

-- The transition of a chain node that a decision on its attempt calls for.
pub data Transits (r : Runtime) (ctx : Option Context) (env : Envelope) (outcome : StoredJobOutcome)
    : AttemptDecision → MemoryStore → MemoryStore → Type 0 where
  retries : (m : MemoryStore) → Transits r ctx env outcome attempt_retry m m
  redelivers : (m : MemoryStore) → Transits r ctx env outcome attempt_redeliver m m
  fails :
      (m : MemoryStore) (n : ℕ)
      → Transits r ctx env outcome attempt_failed m
          (fail_chain_outcome m env.chain_id env.node_id
            (elim outcome.failure [ none ↦ none | some e ↦ some (error_text e) ])
            (transition_claim_from_outcome r ctx outcome)
            (r.clock n)
            (r.clock (n + 1))).1
  advances :
      (m : MemoryStore) (n : ℕ)
      → Transits r ctx env outcome attempt_succeeded m
          (advance_chain_outcome m env.chain_id env.node_id
            (transition_claim_from_outcome r ctx outcome)
            (r.clock n)
            (r.clock (n + 1))).1

-- What follows an action leaves the store as the action left it.
after-bind :
    {A B : Type 0} (m : Action A) (f : A → Action B) (w : World)
    → ((a : A) → Keeps (OnStore (Stays (m w).1.store)) (f a))
    → ((m >>= f) w).1.store ≡ (m w).1.store
unfolding ◌>>=◌ Stays
after-bind m f w kf = ((kf (m w).0).at (m w).1 (record { holds = refl })).holds

module _ (r : Runtime) (apart : (m : MemoryStore) → KeptOutside (Stays m) r) (ctx : Option Context)
    (env : Envelope) (outcome : StoredJobOutcome) (w : World) where
  fail_node-store :
      (fail_node r ctx env outcome w).1.store
      ≡ (fail_chain_node_outcome r ctx env outcome w).1.store
  unfolding fail_node
  fail_node-store =
      let kept = apart (fail_chain_node_outcome r ctx env outcome w).1.store in
      after-bind (fail_chain_node_outcome r ctx env outcome) _ w (λ marked.
        Keeps-on_result marked _ _ (λ e _. Keeps-pure _)
          (λ failed _.
            search
              (
                keeps_rules,
                Keeps-publish_chain_failure r kept,
                Keeps-mark_delivery_transition_committed,
                Keeps-or_handled,
                Keeps-recover_committed_chain_success r kept,
                Keeps-recover_committed_chain_failure r kept,
              )
              depth 14))

  advance_node-store :
      (advance_node r ctx env outcome w).1.store ≡ (advance_chain_node r ctx env outcome w).1.store
  unfolding advance_node
  advance_node-store =
      let kept = apart (advance_chain_node r ctx env outcome w).1.store in
      after-bind (advance_chain_node r ctx env outcome) _ w (λ marked.
        Keeps-on_result marked _ _ (λ e _. Keeps-pure _)
          (λ advance _.
            search
              (
                keeps_rules,
                Keeps-settle_claimed_success r kept,
                Keeps-publish_completion r kept,
                Keeps-mark_delivery_transition_committed,
                Keeps-emit_stored_job_outcome r kept,
                Keeps-emit_fact r kept,
                Keeps-dispatch_chain_successor r kept,
              )
              depth 14))

module _ (r : Runtime) (apart : (m : MemoryStore) → KeptOutside (Stays m) r) where
  -- A method of the store acts on the store as it was.
  on_store_lem :
      {A : Type 0} (f : MemoryStore → A × MemoryStore) (w : World)
      → (on_store r f w).1.store ≡ (f w.store).1
  unfolding on_store Stays
  on_store_lem f w =
      ap (λ m. (f m).1) (((apart w.store).others.at w (record { holds = refl })).holds)

  attempt-store :
      (ctx : Option Context) (env : Envelope) (w : World)
      → (execute_stored_job_attempt r ctx env w).1.store ≡ w.store
  unfolding Stays
  attempt-store ctx env w =
      ((Keeps-execute_stored_job_attempt r (apart w.store) ctx env).at w
        (record { holds = refl })).holds

  fails_at :
      (ctx : Option Context) (env : Envelope) (outcome : StoredJobOutcome) (w : World)
      → Transits r ctx env outcome attempt_failed w.store (fail_node r ctx env outcome w).1.store
  unfolding fail_chain_node_outcome ◌>>=◌ now tick pure
  fails_at ctx env outcome w =
      subst (Transits r ctx env outcome attempt_failed w.store)
        (sym (fail_node-store r apart ctx env outcome w ∙ on_store_lem _ _))
        (fails w.store w.readings)

  advances_at :
      (ctx : Option Context) (env : Envelope) (outcome : StoredJobOutcome) (w : World)
      → Transits r ctx env outcome attempt_succeeded w.store
          (advance_node r ctx env outcome w).1.store
  unfolding advance_chain_node ◌>>=◌ now tick pure
  advances_at ctx env outcome w =
      subst (Transits r ctx env outcome attempt_succeeded w.store)
        (sym (advance_node-store r apart ctx env outcome w ∙ on_store_lem _ _))
        (advances w.store w.readings)

  settles :
      (d : AttemptDecision) (ctx : Option Context) (env : Envelope) (outcome : StoredJobOutcome)
      (w : World)
      → Transits r ctx env outcome d w.store
          (by_decision d
            (pure outcome.failure)
            (fail_node r ctx env outcome)
            (advance_node r ctx env outcome)
            w).1.store
  unfolding by_decision pure
  settles attempt_retry ctx env outcome w = retries w.store
  settles attempt_redeliver ctx env outcome w = redelivers w.store
  settles attempt_failed ctx env outcome w = fails_at ctx env outcome w
  settles attempt_succeeded ctx env outcome w = advances_at ctx env outcome w

-- One delivery of a chain's node makes exactly the transition of the store that the outcome of its
-- attempt calls for, with every fact, callback and successor that follows: a retry and a redelivery
-- leave the store as it is, a failure fails the node once and a success advances it once, under the
-- claim of that outcome, with the error's text and at two readings of the clock in a row. The condition is that the code outside the engine
-- leaves the store alone while the delivery runs.
pub run_chain_node-Transits :
    (r : Runtime) (apart : (m : MemoryStore) → KeptOutside (Stays m) r) (ctx : Option Context)
    (env : Envelope) (w : World)
    → let o = (execute_stored_job_attempt r ctx env w).0 in
      Transits r ctx env o
        (classify_attempt o.attempt o.failure)
        w.store
        (run_chain_node r ctx env w).1.store
unfolding run_chain_node ◌>>=◌
run_chain_node-Transits r apart ctx env w =
    let (o, after) = execute_stored_job_attempt r ctx env w in
    subst
      (λ m.
        Transits r ctx env o (classify_attempt o.attempt o.failure) m
          (run_chain_node r ctx env w).1.store)
      (attempt-store r apart ctx env w)
      (settles r apart (classify_attempt o.attempt o.failure) ctx env o after)
