-- ===== src/Engine/Dispatch.antt =====
-- The dispatch of one job: `dispatch`, `dispatchDirectEnvelope` and `toStoredJob` of
-- internal/workflow/runtime.go.
use queue.Prelude.{
  ℕ, Bool, true, false, String, List, Option, none, some, ◌==◌, Result, ok, err, if◌then◌else◌,
}
use queue.Prelude.Int.{pos}
use queue.Delivery.Failure.{Failure, leaf}
use queue.Delivery.Context.{Context, delivery_metadata_version}
use queue.Workflow.Types.{StoredJob, JobOptions}
use queue.Engine.Types.{
  Envelope, protocol_schema_version, direct_delivery_type, is_delivery_type, event_dispatch_started,
  event_dispatch_succeeded, event_dispatch_failed,
}
use queue.Engine.World.{Action, pure, ◌>>=◌, ◌>>◌, on_option, on_result}
use queue.Engine.Runtime.{Runtime, new_id, accepted_dispatch_execution_error, dispatch_envelope}
use queue.Engine.Execute.{emit_new}

-- `Job` of types.go, with what `json.Marshal` gives for its payload.
pub record ApplicationJob : Type 0 where
  pub type : String
  pub payload : Result Failure (List ℕ)
  pub options : JobOptions

unfoldable pub to_stored_job : ApplicationJob → Result Failure StoredJob
to_stored_job job =
    if job.type == "" then err (leaf "bus job type is required") else elim job.payload [
      | err e ↦ err e
      | ok payload ↦ ok (record { type = job.type; payload = payload; options = job.options })
    ]

-- An envelope with the fields that dispatches set.
unfoldable pub envelope_of : String → String → String → String → String → StoredJob → Envelope
envelope_of kind dispatch_id chain_id batch_id job_id job = record {
  schema_version = protocol_schema_version;
  dispatch_id = dispatch_id;
  kind = kind;
  job_id = job_id;
  chain_id = chain_id;
  batch_id = batch_id;
  node_id = "";
  attempt = pos 0;
  job = job;
  callback_kind = "";
  failure = "";
}

-- `dispatchDirectEnvelope`
unfoldable pub dispatch_direct_envelope : Runtime → Envelope → Action (Option Failure)
unfolding is_delivery_type
dispatch_direct_envelope r env =
    on_option r.bus_dispatch_direct (dispatch_envelope r direct_delivery_type env) (λ direct.
      if is_delivery_type env.job.type
      then dispatch_envelope r direct_delivery_type env
      else direct env.job.type env.job.payload
          (record {
            schema_version = delivery_metadata_version;
            dispatch_id = env.dispatch_id;
            job_id = env.job_id;
            chain_id = env.chain_id;
            batch_id = env.batch_id;
            queue_name = env.job.options.queue_name;
          })
          env.job.options)

unfoldable pub route : Runtime → Bool → Envelope → Action (Option Failure)
route r direct env =
    if direct then dispatch_direct_envelope r env else dispatch_envelope r direct_delivery_type env

-- `dispatch`: the receipt and the error. An error of the job that the queue had accepted is no
-- rejection.
unfoldable pub dispatch :
    Runtime → Option Context → StoredJob → Bool → Action (String × Option Failure)
unfolding envelope_of
dispatch r ctx job direct = do
  id ← new_id r "dsp"
  job_id ← new_id r "job"
  let env = envelope_of "job" id "" "" job_id job
  emit_new r ctx event_dispatch_started env none
  failure ← route r direct env
  on_option failure (do emit_new r ctx event_dispatch_succeeded env none; pure (id, none))
      (λ e.
        on_option (accepted_dispatch_execution_error (some e))
          (do emit_new r ctx event_dispatch_failed env (some e); pure (id, some e))
          (λ executed. do
            emit_new r ctx event_dispatch_succeeded env none
            pure (id, some executed)))

-- `Dispatch`
unfoldable pub dispatch_job :
    Runtime → Option Context → ApplicationJob → Action (String × Option Failure)
unfolding to_stored_job
dispatch_job r ctx job =
    on_result (to_stored_job job) (λ e. pure ("", some e)) (λ stored. dispatch r ctx stored false)

-- `DispatchDirect`
unfoldable pub dispatch_direct :
    Runtime → Option Context → StoredJob → Action (String × Option Failure)
dispatch_direct r ctx job =
    if job.type == ""
    then pure ("", some (leaf "bus job type is required"))
    else dispatch r ctx job true
