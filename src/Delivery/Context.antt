-- ===== src/Delivery/Context.antt =====
-- The values that busruntime/runtime.go and delivery_settlement.go keep in a context.Context: one
-- field for each private key, with `none` where the key is absent. A pointer is the number of its
-- object, and a context is `none` where it is nil.
use queue.Prelude.{ℕ, Bool, String, List, [], Option, none, some}
use queue.Prelude.Int.{ℤ, pos, eqb_ℤ}
use queue.Prelude.{if◌then◌else◌}
use queue.Delivery.Attempt.{DeliveryAttempt}

pub record DeliveryMetadata : Type 0 where
  pub schema_version : ℤ
  pub dispatch_id : String
  pub job_id : String
  pub chain_id : String
  pub batch_id : String
  pub queue_name : String

-- `DeliveryMetadata{}`
abbrev pub no_metadata : DeliveryMetadata
no_metadata = record {
  schema_version = pos 0;
  dispatch_id = "";
  job_id = "";
  chain_id = "";
  batch_id = "";
  queue_name = "";
}

abbrev pub delivery_metadata_version : ℤ
delivery_metadata_version = pos 1

pub record DeliveryProvenance : Type 0 where
  pub generation_id : String
  pub recovered_generation_id : String
  pub recovered : Bool

pub record Context : Type 0 where
  pub settlement : Option ℕ
  pub provenance : Option DeliveryProvenance
  pub attempt : Option DeliveryAttempt
  pub metadata : Option DeliveryMetadata
  pub permits : List ℕ

-- `context.Background()`
abbrev pub background : Context
background = record {
  settlement = none;
  provenance = none;
  attempt = none;
  metadata = none;
  permits = [];
}

unfoldable pub or_background : Option Context → Context
or_background none = background
or_background (some ctx) = ctx

unfoldable pub with_delivery_attempt : Option Context → DeliveryAttempt → Context
unfolding or_background
with_delivery_attempt ctx attempt = record (or_background ctx) { attempt = some attempt }

unfoldable pub delivery_attempt_from_context : Option Context → Option DeliveryAttempt
delivery_attempt_from_context none = none
delivery_attempt_from_context (some ctx) = ctx.attempt

unfoldable pub with_delivery_provenance : Option Context → DeliveryProvenance → Context
unfolding or_background
with_delivery_provenance ctx provenance = record (or_background ctx) {
  provenance = some provenance;
}

unfoldable pub delivery_provenance_from_context : Option Context → Option DeliveryProvenance
delivery_provenance_from_context none = none
delivery_provenance_from_context (some ctx) = ctx.provenance

unfoldable pub with_delivery_metadata : Option Context → DeliveryMetadata → Context
unfolding or_background
with_delivery_metadata ctx metadata = record (or_background ctx) { metadata = some metadata }

-- `none` stands for a zero value with `false`.
unfoldable pub delivery_metadata_from_context : Option Context → Option DeliveryMetadata
delivery_metadata_from_context none = none
delivery_metadata_from_context (some ctx) = elim ctx.metadata [
  | none ↦ none
  | some metadata ↦
      if eqb_ℤ metadata.schema_version delivery_metadata_version then some metadata else none
]

unfoldable pub delivery_settlement_from_context : Option Context → Option ℕ
delivery_settlement_from_context none = none
delivery_settlement_from_context (some ctx) = ctx.settlement
