-- ===== src/Engine/Evidence.antt =====
-- What a reclaimed delivery is checked against: `validateRecoveredTransitionReceipt`,
-- `transitionReceiptOwnsRecoveredFacts`, `transitionClaimFromOutcome` and `recoveredStoredJobSuccess` of
-- internal/workflow/runtime.go. An error is `none` where it is nil.
use queue.Prelude.{
  ℕ, Bool, true, false, not, ◌&&◌, Option, none, some, ◌==◌, Result, ok, err, if◌then◌else◌,
}
use queue.Prelude.Int.{ℤ, eqb_ℤ}
use queue.Delivery.Failure.{Failure, leaf}
use queue.Delivery.Context.{Context, DeliveryProvenance, delivery_provenance_from_context}
use queue.Workflow.Types.{BatchJobOutcome, succeeded, failed}
use queue.Workflow.Receipt.{
  TransitionReceipt, TransitionClaim, is_valid, validate_transition_receipt_support,
}
use queue.Engine.Types.{Envelope, StoredJobOutcome}
use queue.Engine.Runtime.{Runtime, store_failure, stored_job_receipt_fingerprint}

abbrev pub is_succeeded : BatchJobOutcome → Bool
is_succeeded succeeded = true
is_succeeded _ = false

abbrev pub is_failed_outcome : BatchJobOutcome → Bool
is_failed_outcome failed = true
is_failed_outcome _ = false

unfoldable pub validate_recovered_transition_receipt :
    Runtime → Envelope → TransitionReceipt → Bool → Option Failure
unfolding validate_transition_receipt_support is_valid store_failure stored_job_receipt_fingerprint
validate_recovered_transition_receipt r env receipt require_owner_job_id =
    elim (validate_transition_receipt_support receipt) [
      | err e ↦ some (store_failure r e)
      | ok _ ↦
          if not (is_valid receipt.owner)
          then some (leaf "transition receipt has incomplete owner identity")
          else if env.dispatch_id == ""
          then some (leaf "delivery dispatch id is required")
          else if env.job_id == ""
          then some (leaf "delivery job id is required")
          else if not (receipt.owner.dispatch_id == env.dispatch_id)
          then some (leaf "transition receipt dispatch does not match delivery")
          else if not (receipt.owner.job_fingerprint == stored_job_receipt_fingerprint r env.job)
          then some (leaf "transition receipt job fingerprint does not match delivery")
          else if require_owner_job_id && not (receipt.owner.job_id == env.job_id)
          then some (leaf "transition receipt member job id does not match delivery")
          else none
    ]

unfoldable pub validate_recovered_transition_fact_identity :
    Runtime → Envelope → TransitionReceipt → Option Failure
unfolding validate_recovered_transition_receipt
validate_recovered_transition_fact_identity r env receipt =
    elim (validate_recovered_transition_receipt r env receipt true) [
      | some e ↦ some e
      | none ↦
          if not (eqb_ℤ receipt.owner.attempt env.attempt)
          then some (leaf "transition receipt attempt does not match delivery attempt")
          else none
    ]

unfoldable pub transition_receipt_owns_recovered_facts :
    Envelope → TransitionReceipt → DeliveryProvenance → Bool
transition_receipt_owns_recovered_facts env receipt provenance =
    not (provenance.recovered_generation_id == "")
    && receipt.owner.delivery_id == provenance.recovered_generation_id
    && eqb_ℤ receipt.owner.attempt env.attempt
    && receipt.owner.job_id == env.job_id

unfoldable pub transition_claim_from_outcome :
    Runtime → Option Context → StoredJobOutcome → TransitionClaim
unfolding delivery_provenance_from_context stored_job_receipt_fingerprint
transition_claim_from_outcome r ctx outcome = record {
  delivery_id = elim (delivery_provenance_from_context ctx) [
    | none ↦ ""
    | some provenance ↦ provenance.generation_id
  ];
  attempt = outcome.env.attempt;
  dispatch_id = outcome.env.dispatch_id;
  job_id = outcome.env.job_id;
  job_fingerprint = stored_job_receipt_fingerprint r outcome.env.job;
}

-- `recoveredStoredJobSuccess` of `storedJobOutcome{env: env}`, whose attempt has no retry budget.
unfoldable pub recovered_stored_job_success :
    Runtime → Envelope → TransitionReceipt → ℕ → Result Failure StoredJobOutcome
unfolding validate_recovered_transition_fact_identity
recovered_stored_job_success r env receipt observed =
    if not (is_succeeded receipt.outcome)
    then err (leaf "transition receipt does not own success")
    else elim (validate_recovered_transition_fact_identity r env receipt) [
      | some e ↦ err e
      | none ↦ ok (record {
        env = env;
        attempt = record { number = receipt.owner.attempt; max_retry = ℤ.pos 0 };
        started = observed;
        finished = observed;
        failure = none;
      })
    ]
