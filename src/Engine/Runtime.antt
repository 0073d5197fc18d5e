-- ===== src/Engine/Runtime.antt =====
-- `runtime` of internal/workflow/runtime.go, with the code outside the repository as fields, and the
-- small functions that the handlers share.
use Prim.Native.String.{◌++◌ as concat}
use queue.Prelude.{
  ◌++◌, ℕ, Bool, ◌&&◌, String, List, [], ◌∷◌, Option, none, some, eqb, Result, ok, err,
  if◌then◌else◌,
}
use queue.Prelude.Int.{ℤ, pos}
use queue.Prelude.Table.{Table}
use queue.Delivery.Failure.{
  Failure, leaf, wrapped, uncommitted, accepted_execution_error, error_text,
}
use queue.Delivery.Attempt.{DeliveryAttempt}
use queue.Delivery.Context.{
  Context, DeliveryProvenance, DeliveryMetadata, delivery_attempt_from_context,
  delivery_provenance_from_context,
}
use queue.Delivery.Settlement.{
  defer_until_delivery_committed, mark_delivery_application_state_committed,
}
use queue.Workflow.Types.{StoredJob, JobOptions, ChainState, BatchState, Error}
use queue.Workflow.Memory.Store.{MemoryStore}
use queue.Engine.Types.{
  Envelope, JobContext, Event, EventKind, kind_text, event_waits_for_delivery_settlement,
  CallbackResult, returned, panicked_error, panicked,
}
use queue.Engine.World.{Action, pure, ◌>>=◌, modify, tick}

-- What a hash is taken of: texts, bytes and decimal numbers, each framed by its length.
pub data Framed : Type 0 where
  text_of : String → Framed
  bytes_of : List ℕ → Framed
  number_of : ℤ → Framed

-- The outside code: the clock and the random source by reading, SHA-256 as a hexadecimal text of its
-- first bytes, SHA-1 of a job's type and payload, the texts of the store's errors, the JSON of an
-- envelope, the quoting of a text, the queue, the application's handlers, middleware and callbacks by name, and what other
-- deliveries do between two calls of the store.
pub record Runtime : Type 0 where
  pub clock : ℕ → ℕ
  pub entropy : ℕ → String
  pub sha256 : ℕ → List Framed → String
  pub sha1 : String → List ℕ → String
  pub store_error_text : Error → String
  pub quote : String → String
  pub marshal : Envelope → Result Failure (List ℕ)
  pub bus_dispatch : String → List ℕ → JobOptions → Action (Option Failure)
  pub bus_dispatch_direct :
      Option (String → List ℕ → DeliveryMetadata → JobOptions → Action (Option Failure))
  pub handlers : Table String ℕ
  pub handle : ℕ → JobContext → Action (Option Failure)
  pub middlewares : List ℕ
  pub handle_middleware : ℕ → JobContext → Action (Option Failure) → Action (Option Failure)
  pub call_chain : ℕ → ChainState → Option Failure → Action CallbackResult
  pub call_batch : ℕ → BatchState → Option Failure → Action CallbackResult
  pub others : Action (Unit {0})
  pub ephemeral_callbacks_disabled : Bool

-- A method of the store, after what the other deliveries do.
unfoldable pub on_store : {A : Type 0} → Runtime → (MemoryStore → A × MemoryStore) → Action A
on_store r f w = let (u, w') = r.others w in let (a, m) = f w'.store in (a, record w' { store = m })

-- A text with a quoted name in it, as `%q` writes it.
unfoldable pub quoted : Runtime → String → String → String → String
quoted r before name after = concat before (concat (r.quote name) after)

-- `r.now()`
unfoldable pub now : Runtime → Action ℕ
now r = do n ← tick; pure (r.clock n)

unfoldable pub new_id : Runtime → String → Action String
new_id r prefix = do n ← tick; pure (concat prefix (concat "_" (r.entropy n)))

-- The message of a store's error, which wraps no other.
unfoldable pub store_failure : Runtime → Error → Failure
store_failure r e = leaf (r.store_error_text e)

-- `fmt.Errorf("%s: %w", operation, err)`
unfoldable pub annotated : String → Failure → Failure
unfolding error_text
annotated operation e = wrapped (concat operation (concat ": " (error_text e))) e

unfoldable pub uncommitted_mutation_error : String → Failure → Option Failure
unfolding uncommitted annotated
uncommitted_mutation_error operation e = uncommitted (some (annotated operation e))

unfoldable pub canonical_payload : List ℕ → List ℕ
canonical_payload [] = []
canonical_payload (a ∷ b ∷ c ∷ d ∷ []) =
    if eqb a b'n' && eqb b b'u' && eqb c b'l' && eqb d b'l' then [] else a ∷ b ∷ c ∷ d ∷ []
canonical_payload (a ∷ rest) = a ∷ rest

unfoldable pub stored_job_event_key : Runtime → StoredJob → String
unfolding canonical_payload
stored_job_event_key r job = r.sha1 job.type (canonical_payload job.payload)

unfoldable pub stored_job_receipt_fingerprint : Runtime → StoredJob → String
stored_job_receipt_fingerprint r job =
    let o = job.options in
    r.sha256 32 (
      text_of job.type
      ∷ bytes_of job.payload
      ∷ text_of o.queue_name
      ∷ number_of o.delay
      ∷ number_of o.timeout
      ∷ number_of o.retry
      ∷ number_of o.backoff
      ∷ number_of o.unique_for
      ∷ [])

unfoldable pub stable_workflow_fact_id : Runtime → EventKind → List Framed → String
unfolding kind_text
stable_workflow_fact_id r kind identity =
    concat "evt_" (r.sha256 16 (number_of (pos 1) ∷ text_of (kind_text kind) ∷ identity))

unfoldable pub recovered_delivery_provenance : Option Context → Option DeliveryProvenance
unfolding delivery_provenance_from_context
recovered_delivery_provenance ctx = elim (delivery_provenance_from_context ctx) [
  | none ↦ none
  | some provenance ↦ if provenance.recovered then some provenance else none
]

-- `applyDeliveryAttempt`, with the envelope that it changes.
unfoldable pub apply_delivery_attempt : Option Context → Envelope → DeliveryAttempt × Envelope
unfolding delivery_attempt_from_context
apply_delivery_attempt ctx env = elim (delivery_attempt_from_context ctx) [
  | some attempt ↦ (attempt, record env { attempt = attempt.number })
  | none ↦ (record { number = env.attempt; max_retry = env.job.options.retry }, env)
]

-- `safeObserve`, which recovers from the observer's panics.
unfoldable pub safe_observe : Event → Action (Unit {0})
safe_observe event = modify (λ w. record w { observed = w.observed ++ event ∷ [] })

-- `emit`: some kinds wait for the settlement of the delivery, if the context carries one.
unfoldable pub emit : Option Context → Event → Action (Unit {0})
unfolding event_waits_for_delivery_settlement defer_until_delivery_committed safe_observe
emit ctx event =
    if event_waits_for_delivery_settlement event.kind
    then (λ w.
        let (deferred, settlement) = defer_until_delivery_committed w.settlement ctx (some event) in
        if deferred then (tt, record w { settlement = settlement }) else safe_observe event w)
    else safe_observe event

unfoldable pub mark_delivery_transition_committed : Option Context → Bool → Bool → Action (Unit {0})
unfolding mark_delivery_application_state_committed
mark_delivery_transition_committed ctx claimed_now receipt_known =
    if claimed_now && receipt_known
    then modify (λ w. record w {
      settlement = (mark_delivery_application_state_committed w.settlement ctx).1;
    })
    else pure tt

-- `acceptedDispatchExecutionError` as `errors.As` finds it.
unfoldable pub accepted_cause : Failure → Option Failure
accepted_cause (leaf t) = none
accepted_cause (wrapped t cause) = accepted_cause cause
accepted_cause (Failure.joined t first second) =
    let later = accepted_cause second in
    elim (accepted_cause first) [ some cause ↦ some cause | none ↦ later ]
accepted_cause (Failure.permanent_error cause) = accepted_cause cause
accepted_cause (Failure.uncommitted_error cause) = accepted_cause cause
accepted_cause (accepted_execution_error cause) = some cause

unfoldable pub accepted_dispatch_execution_error : Option Failure → Option Failure
unfolding accepted_cause
accepted_dispatch_execution_error none = none
accepted_dispatch_execution_error (some e) = accepted_cause e

-- `runEphemeralCallback` turns a panic into an error.
unfoldable pub run_ephemeral_callback : Action CallbackResult → Action (Option Failure)
run_ephemeral_callback callback = do
  result ← callback
  pure (elim result [
    | returned failure ↦ failure
    | panicked_error e ↦ some (annotated "workflow callback panicked" e)
    | panicked value ↦ some (leaf (concat "workflow callback panicked: " value))
  ])

-- `dispatchEnvelope`
unfoldable pub dispatch_envelope : Runtime → String → Envelope → Action (Option Failure)
dispatch_envelope r job_type env = elim (r.marshal env) [
  | err e ↦ pure (some e)
  | ok payload ↦ r.bus_dispatch job_type payload env.job.options
]
