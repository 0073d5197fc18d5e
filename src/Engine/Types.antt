-- ===== src/Engine/Types.antt =====
-- `envelope`, `Event`, `Context` and the other records of internal/workflow/runtime.go, events.go and
-- types.go, and protocol.go's names.
use queue.Prelude.{ℕ, Bool, true, false, ◌||◌, String, List, Option, ◌==◌}
use queue.Prelude.Int.{ℤ, pos}
use queue.Delivery.Failure.{Failure}
use queue.Delivery.Attempt.{DeliveryAttempt}
use queue.Workflow.Types.{StoredJob}

abbrev pub protocol_schema_version : ℤ
protocol_schema_version = pos 1

abbrev pub direct_delivery_type : String
direct_delivery_type = "bus:job"

abbrev pub chain_node_delivery_type : String
chain_node_delivery_type = "bus:chain:node"

abbrev pub batch_job_delivery_type : String
batch_job_delivery_type = "bus:batch:job"

abbrev pub callback_delivery_type : String
callback_delivery_type = "bus:callback"

unfoldable pub is_delivery_type : String → Bool
is_delivery_type type =
    type == direct_delivery_type
    || type == chain_node_delivery_type
    || type == batch_job_delivery_type
    || type == callback_delivery_type

pub record Envelope : Type 0 where
  pub schema_version : ℤ
  pub dispatch_id : String
  pub kind : String
  pub job_id : String
  pub chain_id : String
  pub batch_id : String
  pub node_id : String
  pub attempt : ℤ
  pub job : StoredJob
  pub callback_kind : String
  pub failure : String

-- `Context`, which a handler gets of its job.
pub record JobContext : Type 0 where
  pub schema_version : ℤ
  pub dispatch_id : String
  pub job_id : String
  pub chain_id : String
  pub batch_id : String
  pub attempt : ℤ
  pub job_type : String
  pub payload : List ℕ

pub data EventKind : Type 0 where
  event_dispatch_started event_dispatch_succeeded event_dispatch_failed : EventKind
  event_job_started event_job_succeeded event_job_failed : EventKind
  event_chain_started event_chain_advanced event_chain_completed event_chain_failed : EventKind
  event_batch_started event_batch_progressed event_batch_completed event_batch_failed : EventKind
  event_batch_cancelled : EventKind
  event_callback_started event_callback_succeeded event_callback_failed : EventKind

-- The kinds' texts.
unfoldable pub kind_text : EventKind → String
kind_text event_dispatch_started = "dispatch_started"
kind_text event_dispatch_succeeded = "dispatch_succeeded"
kind_text event_dispatch_failed = "dispatch_failed"
kind_text event_job_started = "job_started"
kind_text event_job_succeeded = "job_succeeded"
kind_text event_job_failed = "job_failed"
kind_text event_chain_started = "chain_started"
kind_text event_chain_advanced = "chain_advanced"
kind_text event_chain_completed = "chain_completed"
kind_text event_chain_failed = "chain_failed"
kind_text event_batch_started = "batch_started"
kind_text event_batch_progressed = "batch_progressed"
kind_text event_batch_completed = "batch_completed"
kind_text event_batch_failed = "batch_failed"
kind_text event_batch_cancelled = "batch_cancelled"
kind_text event_callback_started = "callback_started"
kind_text event_callback_succeeded = "callback_succeeded"
kind_text event_callback_failed = "callback_failed"

unfoldable pub event_waits_for_delivery_settlement : EventKind → Bool
event_waits_for_delivery_settlement event_job_succeeded = true
event_waits_for_delivery_settlement event_chain_advanced = true
event_waits_for_delivery_settlement event_chain_completed = true
event_waits_for_delivery_settlement event_batch_progressed = true
event_waits_for_delivery_settlement event_batch_completed = true
event_waits_for_delivery_settlement event_callback_succeeded = true
event_waits_for_delivery_settlement _ = false

-- `duration` is kept as the two readings of the clock that it lies between.
pub record Event : Type 0 where
  pub schema_version : ℕ
  pub event_id : String
  pub kind : EventKind
  pub dispatch_id : String
  pub job_id : String
  pub chain_id : String
  pub batch_id : String
  pub attempt : ℤ
  pub job_type : String
  pub job_key : String
  pub queue_name : String
  pub duration : ℕ × ℕ
  pub time : ℕ
  pub failure : Option Failure

-- The closures of a workflow, by name.
pub record ChainCallbacks : Type 0 where
  pub catch : Option ℕ
  pub finally : Option ℕ

pub record BatchCallbacks : Type 0 where
  pub progress : Option ℕ
  pub then_ : Option ℕ
  pub catch : Option ℕ
  pub finally : Option ℕ

pub record StoredJobOutcome : Type 0 where
  pub env : Envelope
  pub attempt : DeliveryAttempt
  pub started : ℕ
  pub finished : ℕ
  pub failure : Option Failure

-- What a callback does: it returns, or panics with an error or another value.
pub data CallbackResult : Type 0 where
  returned : Option Failure → CallbackResult
  panicked_error : Failure → CallbackResult
  panicked : String → CallbackResult
