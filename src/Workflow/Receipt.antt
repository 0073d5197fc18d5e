-- ===== src/Workflow/Receipt.antt =====
-- `transitionClaim`, `transitionReceipt` and their checks of internal/workflow/store.go: durable
-- evidence of the delivery that committed a transition.
use queue.Prelude.{
  ℕ, Bool, true, ◌≡◌, ◌↔◌, not, ◌&&◌, String, Result, ok, err, eqb, ◌==◌, eq_iff, arith,
  if◌then◌else◌,
}
use queue.Prelude.Int.{ℤ, pos, leb_ℤ}
use queue.Prelude.Equality.{Eq}
use queue.Workflow.Types.{BatchJobOutcome, Error, unsupported_receipt}

pub record TransitionClaim : Type 0 where
  pub delivery_id : String
  pub attempt : ℤ
  pub dispatch_id : String
  pub job_id : String
  pub job_fingerprint : String

-- `transitionClaim{}`
abbrev pub no_claim : TransitionClaim
no_claim = record {
  delivery_id = "";
  attempt = pos 0;
  dispatch_id = "";
  job_id = "";
  job_fingerprint = "";
}

unfoldable pub is_valid : TransitionClaim → Bool
is_valid c =
    not (c.delivery_id == "")
    && leb_ℤ (pos 0) c.attempt
    && not (c.dispatch_id == "")
    && not (c.job_id == "")
    && not (c.job_fingerprint == "")

pub record TransitionReceipt : Type 0 where
  pub version : ℕ
  pub event_schema_version : ℕ
  pub workflow_kind : String
  pub workflow_id : String
  pub workflow_dispatch_id : String
  pub workflow_created_at : ℕ
  pub member_id : String
  pub outcome : BatchJobOutcome
  pub owner : TransitionClaim
  pub aggregate_completed : Bool
  pub aggregate_cancelled : Bool
  pub created_at : ℕ

pub record TransitionReceiptKey : Type 0 where
  pub workflow_kind : String
  pub workflow_id : String
  pub member_id : String

abbrev pub transition_receipt_version : ℕ
transition_receipt_version = 1

-- `observation.EventSchemaVersion`
abbrev pub event_schema_version : ℕ
event_schema_version = 1

abbrev pub chain_transition_kind : String
chain_transition_kind = "chain"

abbrev pub batch_transition_kind : String
batch_transition_kind = "batch"

abbrev pub key_eq : TransitionReceiptKey → TransitionReceiptKey → Bool
key_eq a b =
    a.workflow_kind == b.workflow_kind
    && a.workflow_id == b.workflow_id
    && a.member_id == b.member_id

pub key_eq_iff : (a b : TransitionReceiptKey) → (key_eq a b ≡ true) ↔ (a ≡ b)
key_eq_iff a b = ground (
  arith,
  eq_iff a.workflow_kind b.workflow_kind,
  eq_iff a.workflow_id b.workflow_id,
  eq_iff a.member_id b.member_id,
)

instance abbrev pub receipt_key_eq : Eq TransitionReceiptKey
receipt_key_eq = record { beq = key_eq; beq_iff = key_eq_iff }

unfoldable pub supported : TransitionReceipt → Bool
supported r =
    eqb r.version transition_receipt_version && eqb r.event_schema_version event_schema_version

unfoldable pub validate_transition_receipt_support : TransitionReceipt → Result Error (Unit {0})
unfolding supported
validate_transition_receipt_support r =
    if supported r then ok tt else err (unsupported_receipt r.version r.event_schema_version)
