-- ===== src/Job.antt =====
-- `Job` and `jobOptions` of job.go, with the builders, the validation and the functions for drivers. A
-- payload is the list of its bytes, a duration a number of nanoseconds, and a pointer that may be nil
-- an `Option`. The copies of payload slices are the identity on values.
pub mod Build
pub mod Metadata
mod Tests
use queue.Prelude.{
  Bool, true, false, ℕ, String, List, [], ◌++◌, Option, none, some, ◌==◌, Result, ok, err,
  if◌then◌else◌, not,
}
use queue.Prelude.Int.{ℤ, pos, ltb_ℤ, eqb_ℤ}
use queue.Delivery.Failure.{Failure, leaf, wrapped}
use queue.Delivery.Context.{DeliveryMetadata, no_metadata, delivery_metadata_version}

pub record JobOptions : Type 0 where
  pub queue_name : String
  pub timeout : Option ℤ
  pub max_retry : Option ℤ
  pub attempt : ℤ
  pub backoff : Option ℤ
  pub delay : ℤ
  pub unique_ttl : ℤ
  pub logical_type : String
  pub logical_payload : List ℕ
  pub logical_set : Bool
  pub metadata : DeliveryMetadata

pub record Job : Type 0 where
  pub type : String
  pub payload : List ℕ
  pub options : JobOptions
  pub build_err : Option Failure

-- `jobOptions{}`
abbrev pub no_options : JobOptions
no_options = record {
  queue_name = "";
  timeout = none;
  max_retry = none;
  attempt = pos 0;
  backoff = none;
  delay = pos 0;
  unique_ttl = pos 0;
  logical_type = "";
  logical_payload = [];
  logical_set = false;
  metadata = no_metadata;
}

unfoldable pub new_job : String → Job
new_job type = record { type = type; payload = []; options = no_options; build_err = none }

-- A payload as the type switch of `encodePayload` sees it: `marshaler` has the answer of the value's
-- own `MarshalJSON`, and `value` that of encoding/json. Both may be an error.
pub data Payload : Type 0 where
  nil_payload : Payload
  bytes : List ℕ → Payload
  marshaler : Result Failure (List ℕ) → Payload
  value : Result Failure (List ℕ) → Payload

-- `fmt.Errorf("marshal payload json: %w", err)`
abbrev pub marshal_failure : Failure → Failure
marshal_failure e = wrapped "marshal payload json" e

unfoldable pub encode_payload : Payload → Result Failure (List ℕ)
encode_payload nil_payload = ok []
encode_payload (bytes data_bytes) = ok ([] ++ data_bytes)
encode_payload (marshaler (ok encoded)) = ok encoded
encode_payload (marshaler (err e)) = err (marshal_failure e)
encode_payload (value (ok encoded)) = ok encoded
encode_payload (value (err e)) = err (marshal_failure e)

unfoldable pub with_payload : Job → Payload → Job
unfolding encode_payload
with_payload t payload = elim (encode_payload payload) [
  | err e ↦ record t { build_err = some e }
  | ok encoded ↦ record t { payload = encoded }
]

unfoldable pub with_build_err : Job → Failure → Job
with_build_err t e = elim t.build_err [ none ↦ record t { build_err = some e } | some first ↦ t ]

unfoldable pub on_queue : Job → String → Job
on_queue t name = record t { options = record t.options { queue_name = name } }

unfoldable pub timeout : Job → ℤ → Job
unfolding with_build_err
timeout t d =
    if ltb_ℤ d (pos 0)
    then with_build_err t (leaf "timeout must be >= 0")
    else record t { options = record t.options { timeout = some d } }

unfoldable pub retry : Job → ℤ → Job
unfolding with_build_err
retry t n =
    if ltb_ℤ n (pos 0)
    then with_build_err t (leaf "retry must be >= 0")
    else record t { options = record t.options { max_retry = some n } }

unfoldable pub backoff : Job → ℤ → Job
unfolding with_build_err
backoff t d =
    if ltb_ℤ d (pos 0)
    then with_build_err t (leaf "backoff must be >= 0")
    else record t { options = record t.options { backoff = some d } }

unfoldable pub delay : Job → ℤ → Job
unfolding with_build_err
delay t d =
    if ltb_ℤ d (pos 0)
    then with_build_err t (leaf "delay must be >= 0")
    else record t { options = record t.options { delay = d } }

unfoldable pub unique_for : Job → ℤ → Job
unfolding with_build_err
unique_for t ttl =
    if ltb_ℤ ttl (pos 0)
    then with_build_err t (leaf "unique ttl must be >= 0")
    else record t { options = record t.options { unique_ttl = ttl } }

unfoldable pub validate : Job → Option Failure
validate t = elim t.build_err [
  | some e ↦ some e
  | none ↦ if t.type == "" then some (leaf "job type is required") else none
]

unfoldable pub driver_metadata : Job → DeliveryMetadata
driver_metadata job =
    if not (eqb_ℤ job.options.metadata.schema_version delivery_metadata_version)
    then no_metadata
    else job.options.metadata

unfoldable pub driver_with_metadata : Job → DeliveryMetadata → Job
driver_with_metadata job metadata =
    if not (eqb_ℤ metadata.schema_version delivery_metadata_version)
    then job
    else record job { options = record job.options { metadata = metadata } }

unfoldable pub with_attempt : Job → ℤ → Job
with_attempt t attempt = record t { options = record t.options { attempt = attempt } }

unfoldable pub with_logical_identity : Job → String → List ℕ → Job
with_logical_identity t job_type payload = record t {
  options = record t.options {
    logical_type = job_type;
    logical_payload = [] ++ payload;
    logical_set = true;
  };
}
