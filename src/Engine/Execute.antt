-- ===== src/Engine/Execute.antt =====
-- The execution of one job: `executeStoredJobAttempt`, `emitStoredJobOutcome` and their helpers of
-- internal/workflow/runtime.go, `chainMiddleware` of middleware.go, and `NewContext` of types.go.
use Prim.Native.String.{◌++◌ as concat}
use queue.Prelude.{
  ℕ, Bool, true, false, ◌||◌, String, List, [], ◌∷◌, ◌++◌, Option, none, some, ◌==◌, Result,
  if◌then◌else◌,
}
use queue.Prelude.Int.{pos}
use queue.Delivery.Failure.{Failure, leaf}
use queue.Delivery.Attempt.{
  AttemptDecision, attempt_failed, attempt_retry, attempt_succeeded, attempt_redeliver,
  classify_attempt,
}
use queue.Delivery.Context.{
  Context, no_metadata, delivery_metadata_from_context, delivery_attempt_from_context,
}
use queue.Workflow.Receipt.{event_schema_version}
use queue.Engine.Types.{
  Envelope, JobContext, Event, EventKind, event_job_started, event_job_succeeded, event_job_failed,
  StoredJobOutcome, protocol_schema_version,
}
use queue.Engine.World.{Action, pure, ◌>>=◌, ◌>>◌, on_option, on_result}
use queue.Engine.Runtime.{
  Runtime, text_of, number_of, now, new_id, stored_job_event_key, stable_workflow_fact_id,
  apply_delivery_attempt, emit,
}

-- The fields that every event of a delivery has.
unfoldable pub event_of : Runtime → EventKind → String → Envelope → ℕ → Option Failure → Event
unfolding stored_job_event_key
event_of r kind id env time failure = record {
  schema_version = event_schema_version;
  event_id = id;
  kind = kind;
  dispatch_id = env.dispatch_id;
  job_id = env.job_id;
  chain_id = env.chain_id;
  batch_id = env.batch_id;
  attempt = pos 0;
  job_type = env.job.type;
  job_key = stored_job_event_key r env.job;
  queue_name = env.job.options.queue_name;
  duration = (0, 0);
  time = time;
  failure = failure;
}

-- `r.emit(ctx, Event{… EventID: newID("evt") … Time: r.now() …})`
unfoldable pub emit_new :
    Runtime → Option Context → EventKind → Envelope → Option Failure → Action (Unit {0})
emit_new r ctx kind env failure = do
  id ← new_id r "evt"
  time ← now r
  emit ctx (event_of r kind id env time failure)

-- `r.emit` of a fact whose identifier is given.
unfoldable pub emit_fact :
    Runtime → Option Context → EventKind → String → Envelope → Option Failure → Action (Unit {0})
emit_fact r ctx kind id env failure = do
  time ← now r
  emit ctx (event_of r kind id env time failure)

unfoldable pub job_context : Envelope → JobContext
job_context env = record {
  schema_version = protocol_schema_version;
  dispatch_id = env.dispatch_id;
  job_id = env.job_id;
  chain_id = env.chain_id;
  batch_id = env.batch_id;
  attempt = env.attempt;
  job_type = env.job.type;
  payload = [] ++ env.job.payload;
}

-- `chainMiddleware`: the first middleware is the outermost.
unfoldable pub chain_middleware :
    Runtime → List ℕ → JobContext → Action (Option Failure) → Action (Option Failure)
chain_middleware r [] jc final = final
chain_middleware r (m ∷ ms) jc final =
    let next = chain_middleware r ms jc final in r.handle_middleware m jc next

unfoldable pub execute_stored_job_attempt :
    Runtime → Option Context → Envelope → Action StoredJobOutcome
unfolding apply_delivery_attempt event_of job_context chain_middleware
execute_stored_job_attempt r ctx given =
    let attempt = (apply_delivery_attempt ctx given).0 in
    let env = (apply_delivery_attempt ctx given).1 in
    do
      started ← now r
      id ← new_id r "evt"
      emit ctx (record (event_of r event_job_started id env started none) { attempt = env.attempt })
      on_option (r.handlers env.job.type)
          (do
            finished ← now r
            pure (record {
              env = env;
              attempt = attempt;
              started = started;
              finished = finished;
              failure =
                  some (leaf (concat "bus handler not registered for " (r.quote env.job.type)));
            }))
          (λ handler. do
            failure ←
                chain_middleware r r.middlewares (job_context env)
                  (r.handle handler (job_context env))
            finished ← now r
            pure (record {
              env = env;
              attempt = attempt;
              started = started;
              finished = finished;
              failure = failure;
            }))

-- The framed identity of a success that has a stable identifier.
unfoldable pub stored_job_outcome_fact_id : Runtime → EventKind → StoredJobOutcome → Action String
unfolding stable_workflow_fact_id stored_job_event_key
stored_job_outcome_fact_id r event_job_succeeded outcome =
    let env = outcome.env in
    if env.dispatch_id == "" || env.job_id == ""
    then new_id r "evt"
    else pure (
        stable_workflow_fact_id r event_job_succeeded (
          text_of env.dispatch_id
          ∷ text_of env.job_id
          ∷ text_of env.chain_id
          ∷ text_of env.batch_id
          ∷ text_of env.job.type
          ∷ text_of (stored_job_event_key r env.job)
          ∷ text_of env.job.options.queue_name
          ∷ number_of env.attempt
          ∷ []))
stored_job_outcome_fact_id r _ outcome = new_id r "evt"

abbrev pub is_failed : AttemptDecision → Bool
is_failed attempt_failed = true
is_failed _ = false

unfoldable pub emit_outcome :
    Runtime → Option Context → EventKind → StoredJobOutcome → Action (Unit {0})
unfolding event_of
emit_outcome r ctx kind outcome = do
  id ← stored_job_outcome_fact_id r kind outcome
  emit ctx (record (event_of r kind id outcome.env outcome.finished outcome.failure) {
    attempt = outcome.env.attempt;
    duration = (outcome.started, outcome.finished);
  })

-- `emitStoredJobOutcome`
unfoldable pub emit_stored_job_outcome :
    Runtime → Option Context → StoredJobOutcome → Action (Unit {0})
unfolding classify_attempt
emit_stored_job_outcome r ctx outcome =
    on_option outcome.failure (emit_outcome r ctx event_job_succeeded outcome) (λ e.
      if is_failed (classify_attempt outcome.attempt (some e))
      then emit_outcome r ctx event_job_failed outcome
      else pure tt)

unfoldable pub execute_stored_job : Runtime → Option Context → Envelope → Action (Option Failure)
execute_stored_job r ctx env = do
  outcome ← execute_stored_job_attempt r ctx env
  emit_stored_job_outcome r ctx outcome
  pure outcome.failure

-- `handleInternalJob`; the argument is what `Bind` gives.
unfoldable pub handle_internal_job :
    Runtime → Option Context → Result Failure Envelope → Action (Option Failure)
handle_internal_job r ctx job =
    on_result job (λ e. pure (some e)) (λ env. execute_stored_job r ctx env)

-- `handleDirectJob`
unfoldable pub handle_direct_job :
    Runtime → Option Context → String → List ℕ → Action (Option Failure)
unfolding delivery_metadata_from_context delivery_attempt_from_context
handle_direct_job r ctx job_type payload =
    let metadata =
      elim (delivery_metadata_from_context ctx) as (λ _. queue.Delivery.Context.DeliveryMetadata) [
        | none ↦ no_metadata
        | some m ↦ m
      ] in
    let attempt =
      elim (delivery_attempt_from_context ctx) as (λ _. queue.Delivery.Attempt.DeliveryAttempt) [
        | none ↦ record { number = pos 0; max_retry = pos 0 }
        | some a ↦ a
      ] in
    execute_stored_job r ctx (record {
      schema_version = protocol_schema_version;
      dispatch_id = metadata.dispatch_id;
      kind = "job";
      job_id = metadata.job_id;
      chain_id = metadata.chain_id;
      batch_id = metadata.batch_id;
      node_id = "";
      attempt = attempt.number;
      job = record {
        type = job_type;
        payload = payload;
        options = record {
          queue_name = metadata.queue_name;
          delay = pos 0;
          timeout = pos 0;
          retry = attempt.max_retry;
          backoff = pos 0;
          unique_for = pos 0;
        };
      };
      callback_kind = "";
      failure = "";
    })
