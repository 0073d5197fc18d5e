-- ===== src/Engine/Outside.antt =====
-- A property of the store, as an invariant of the engine's actions: what the code outside has to keep,
-- and that the shared functions of the engine keep it.
use queue.Prelude.{
  ℕ, Bool, String, List, [], ◌∷◌, Option, some, ok, err, ◌≡◌, arith, Bool-cases, Option-cases, inl,
  inr,
}
use queue.Delivery.Failure.{Failure}
use queue.Delivery.Settlement.{defer_until_delivery_committed}
use queue.Delivery.Context.{Context, DeliveryMetadata}
use queue.Workflow.Types.{JobOptions, ChainState, BatchState}
use queue.Workflow.Memory.Store.{MemoryStore}
use queue.Engine.Types.{
  Envelope, JobContext, Event, EventKind, CallbackResult, event_waits_for_delivery_settlement,
  event_job_succeeded, StoredJobOutcome,
}
use queue.Engine.World.{World, Action, pure, modify}
use queue.Engine.World.Keeps.{Keeps, Keeps-pure, Steady, keeps_rules}
use queue.Engine.Runtime.{
  Runtime, on_store, now, new_id, safe_observe, emit, mark_delivery_transition_committed,
  run_ephemeral_callback, dispatch_envelope,
}
use queue.Engine.Execute.{
  emit_new, emit_fact, chain_middleware, execute_stored_job_attempt, stored_job_outcome_fact_id,
  emit_outcome, emit_stored_job_outcome, execute_stored_job,
}
use queue.Engine.Closures.{
  prepare_chain_success_callbacks, finish_chain_callback, cleanup_chain_callbacks,
  prepare_batch_terminal_callbacks, finish_batch_callback, cleanup_batch_callbacks,
  callback_envelope, dispatch_callback,
}

-- The store has the property.
pub record OnStore (Q : MemoryStore → Type 0) (w : World) : Type 0 where
  pub holds : Q w.store

-- The store after a fact is emitted.
emit-store :
    (ctx : Option Context) (event : Event) (w : World) → (emit ctx event w).1.store ≡ w.store
unfolding emit safe_observe modify
emit-store ctx event w = elim (Bool-cases (event_waits_for_delivery_settlement event.kind)) [
  | inr now_told ↦ ground (arith, now_told)
  | inl waits ↦ elim (Bool-cases (defer_until_delivery_committed w.settlement ctx (some event)).0) [
    | inl deferred ↦ ground (arith, waits, deferred)
    | inr told ↦ ground (arith, waits, told)
  ]
]

-- Handlers, middleware, callbacks, the queue and other deliveries change the store only so that the
-- property stays.
pub record KeptOutside (Q : MemoryStore → Type 0) (r : Runtime) : Type 0 where
  pub others : Keeps (OnStore Q) r.others
  pub handle : (h : ℕ) (jc : JobContext) → Keeps (OnStore Q) (r.handle h jc)
  pub handle_middleware :
      (m : ℕ) (jc : JobContext) (next : Action (Option Failure))
      → Keeps (OnStore Q) next
      → Keeps (OnStore Q) (r.handle_middleware m jc next)
  pub bus_dispatch :
      (type : String) (payload : List ℕ) (o : JobOptions)
      → Keeps (OnStore Q) (r.bus_dispatch type payload o)
  pub bus_dispatch_direct :
      (send : String → List ℕ → DeliveryMetadata → JobOptions → Action (Option Failure))
      → r.bus_dispatch_direct ≡ some send
      → (type : String) (payload : List ℕ) (d : DeliveryMetadata) (o : JobOptions)
      → Keeps (OnStore Q) (send type payload d o)
  pub call_chain :
      (c : ℕ) (s : ChainState) (e : Option Failure) → Keeps (OnStore Q) (r.call_chain c s e)
  pub call_batch :
      (c : ℕ) (s : BatchState) (e : Option Failure) → Keeps (OnStore Q) (r.call_batch c s e)

module _ {Q : MemoryStore → Type 0} where
  pub OnStore-Steady : Steady (OnStore Q)
  OnStore-Steady = record { ticked = λ w h. record { holds = h.holds } }

  -- A change of anything but the store.
  pub Keeps-modify :
      (f : World → World) → ((w : World) → (f w).store ≡ w.store) → Keeps (OnStore Q) (modify f)
  unfolding modify
  Keeps-modify f same = record { at = λ w h. record { holds = rw (same w) h.holds } }

module _ {Q : MemoryStore → Type 0} where
  pub Keeps-emit : (ctx : Option Context) (event : Event) → Keeps (OnStore Q) (emit ctx event)
  unfolding emit safe_observe modify
  Keeps-emit ctx event = record {
    at = λ w h. record { holds = rw (emit-store ctx event w) h.holds };
  }

  pub Keeps-mark_delivery_transition_committed :
      (ctx : Option Context) (claimed known : Bool)
      → Keeps (OnStore Q) (mark_delivery_transition_committed ctx claimed known)
  unfolding mark_delivery_transition_committed
  Keeps-mark_delivery_transition_committed ctx claimed known = search (keeps_rules, Keeps-modify)

  pub Keeps-prepare_chain_success_callbacks :
      (id : String) → Keeps (OnStore Q) (prepare_chain_success_callbacks id)
  unfolding prepare_chain_success_callbacks
  Keeps-prepare_chain_success_callbacks id = Keeps-modify _ (λ w.
      elim (Option-cases (w.chain_callbacks id)) [
        | inl absent ↦ ground (arith, absent)
        | inr (c, there) ↦ ground (arith, there)
      ])

  pub Keeps-finish_chain_callback :
      (id kind : String) → Keeps (OnStore Q) (finish_chain_callback id kind)
  unfolding finish_chain_callback
  Keeps-finish_chain_callback id kind = Keeps-modify _ (λ w.
      elim (Option-cases (w.chain_callbacks id)) [
        | inl absent ↦ ground (arith, absent)
        | inr (c, there) ↦ ground (arith, there)
      ])

  pub Keeps-cleanup_chain_callbacks : (id : String) → Keeps (OnStore Q) (cleanup_chain_callbacks id)
  unfolding cleanup_chain_callbacks
  Keeps-cleanup_chain_callbacks id = Keeps-modify _ (λ w.
      elim (Option-cases (w.chain_callbacks id)) [
        | inl absent ↦ ground (arith, absent)
        | inr (c, there) ↦ ground (arith, there)
      ])

  pub Keeps-prepare_batch_terminal_callbacks :
      (id : String) (succeeded failures : Bool)
      → Keeps (OnStore Q) (prepare_batch_terminal_callbacks id succeeded failures)
  unfolding prepare_batch_terminal_callbacks
  Keeps-prepare_batch_terminal_callbacks id succeeded failures = Keeps-modify _ (λ w.
      elim (Option-cases (w.batch_callbacks id)) [
        | inl absent ↦ ground (arith, absent)
        | inr (c, there) ↦ ground (arith, there)
      ])

  pub Keeps-finish_batch_callback :
      (id kind : String) → Keeps (OnStore Q) (finish_batch_callback id kind)
  unfolding finish_batch_callback
  Keeps-finish_batch_callback id kind = Keeps-modify _ (λ w.
      elim (Option-cases (w.batch_callbacks id)) [
        | inl absent ↦ ground (arith, absent)
        | inr (c, there) ↦ ground (arith, there)
      ])

  pub Keeps-cleanup_batch_callbacks : (id : String) → Keeps (OnStore Q) (cleanup_batch_callbacks id)
  unfolding cleanup_batch_callbacks
  Keeps-cleanup_batch_callbacks id = Keeps-modify _ (λ w.
      elim (Option-cases (w.batch_callbacks id)) [
        | inl absent ↦ ground (arith, absent)
        | inr (c, there) ↦ ground (arith, there)
      ])

  pub Keeps-run_ephemeral_callback :
      (callback : Action CallbackResult)
      → Keeps (OnStore Q) callback
      → Keeps (OnStore Q) (run_ephemeral_callback callback)
  unfolding run_ephemeral_callback
  Keeps-run_ephemeral_callback callback h = search keeps_rules

module _ {Q : MemoryStore → Type 0} (r : Runtime) (kept : KeptOutside Q r) where
  -- A method of the store that keeps the property.
  pub Keeps-on_store :
      {A : Type 0} (f : MemoryStore → A × MemoryStore)
      → ((m : MemoryStore) → Q m → Q (f m).1)
      → Keeps (OnStore Q) (on_store r f)
  unfolding on_store
  Keeps-on_store f step = record {
    at = λ w h. record { holds = step (r.others w).1.store (kept.others.at w h).holds };
  }

  pub Keeps-now : Keeps (OnStore Q) (now r)
  unfolding now
  Keeps-now = search (keeps_rules, OnStore-Steady)

  pub Keeps-new_id : (prefix : String) → Keeps (OnStore Q) (new_id r prefix)
  unfolding new_id
  Keeps-new_id prefix = search (keeps_rules, OnStore-Steady)

  pub Keeps-dispatch_envelope :
      (type : String) (env : Envelope) → Keeps (OnStore Q) (dispatch_envelope r type env)
  unfolding dispatch_envelope
  Keeps-dispatch_envelope type env =
      elim (r.marshal env)
        as (λ encoded. Keeps (OnStore Q) (elim encoded as (λ _. Action (Option Failure)) [
          | err e ↦ pure (some e)
          | ok payload ↦ r.bus_dispatch type payload env.job.options
        ])) [
          | err e ↦ Keeps-pure (some e)
          | ok payload ↦ kept.bus_dispatch type payload env.job.options
        ]

  pub Keeps-emit_new :
      (ctx : Option Context) (kind : EventKind) (env : Envelope) (e : Option Failure)
      → Keeps (OnStore Q) (emit_new r ctx kind env e)
  unfolding emit_new
  Keeps-emit_new ctx kind env e = search (keeps_rules, Keeps-now, Keeps-new_id, Keeps-emit)

  pub Keeps-emit_fact :
      (ctx : Option Context) (kind : EventKind) (id : String) (env : Envelope) (e : Option Failure)
      → Keeps (OnStore Q) (emit_fact r ctx kind id env e)
  unfolding emit_fact
  Keeps-emit_fact ctx kind id env e = search (keeps_rules, Keeps-now, Keeps-emit)

  Keeps-chain_middleware :
      (ms : List ℕ) (jc : JobContext) (final : Action (Option Failure))
      → Keeps (OnStore Q) final
      → Keeps (OnStore Q) (chain_middleware r ms jc final)
  unfolding chain_middleware
  Keeps-chain_middleware [] jc final h = h
  Keeps-chain_middleware (m ∷ ms) jc final h =
      kept.handle_middleware m jc _ (Keeps-chain_middleware ms jc final h)

  pub Keeps-execute_stored_job_attempt :
      (ctx : Option Context) (env : Envelope)
      → Keeps (OnStore Q) (execute_stored_job_attempt r ctx env)
  unfolding execute_stored_job_attempt
  Keeps-execute_stored_job_attempt ctx env =
      search (keeps_rules, Keeps-now, Keeps-new_id, Keeps-emit, Keeps-chain_middleware, kept.handle)
        depth 12

  Keeps-stored_job_outcome_fact_id :
      (kind : EventKind) (outcome : StoredJobOutcome)
      → Keeps (OnStore Q) (stored_job_outcome_fact_id r kind outcome)
  unfolding stored_job_outcome_fact_id
  Keeps-stored_job_outcome_fact_id event_job_succeeded outcome = search (keeps_rules, Keeps-new_id)
  Keeps-stored_job_outcome_fact_id _ outcome = Keeps-new_id "evt"

  Keeps-emit_outcome :
      (ctx : Option Context) (kind : EventKind) (outcome : StoredJobOutcome)
      → Keeps (OnStore Q) (emit_outcome r ctx kind outcome)
  unfolding emit_outcome
  Keeps-emit_outcome ctx kind outcome =
      search (keeps_rules, Keeps-stored_job_outcome_fact_id, Keeps-emit)

  pub Keeps-emit_stored_job_outcome :
      (ctx : Option Context) (outcome : StoredJobOutcome)
      → Keeps (OnStore Q) (emit_stored_job_outcome r ctx outcome)
  unfolding emit_stored_job_outcome
  Keeps-emit_stored_job_outcome ctx outcome = search (keeps_rules, Keeps-emit_outcome)

  pub Keeps-execute_stored_job :
      (ctx : Option Context) (env : Envelope) → Keeps (OnStore Q) (execute_stored_job r ctx env)
  unfolding execute_stored_job
  Keeps-execute_stored_job ctx env =
      search (keeps_rules, Keeps-execute_stored_job_attempt, Keeps-emit_stored_job_outcome)

  pub Keeps-callback_envelope :
      (base : Envelope) (kind : String) (e : Option Failure)
      → Keeps (OnStore Q) (callback_envelope r base kind e)
  unfolding callback_envelope
  Keeps-callback_envelope base kind e = search (keeps_rules, Keeps-new_id)

  pub Keeps-dispatch_callback :
      (base : Envelope) (kind : String) (e : Option Failure)
      → Keeps (OnStore Q) (dispatch_callback r base kind e)
  unfolding dispatch_callback
  Keeps-dispatch_callback base kind e =
      search (keeps_rules, Keeps-callback_envelope, Keeps-dispatch_envelope)
