-- ===== src/Workflow/Memory/Callbacks.antt =====
-- The claims of callbacks in `memoryStore` of internal/workflow/store_memory.go: no method but
-- `MarkCallbackInvoked` makes one, and no method but `Prune` removes one.
use queue.Prelude.{
  ◌≡◌, refl, ap, ◌∙◌, ℕ, Bool, String, Option, some, arith, Bool-cases, Option-cases, Result-cases,
  inl, inr, eq_iff,
}
use queue.Prelude.Equality.{string_eq}
use queue.Workflow.Types.{ChainRecord, BatchRecord, BatchJobOutcome, succeeded, failed, other}
use queue.Workflow.Validate.{validate_chain_record, validate_batch_record}
use queue.Workflow.Receipt.{TransitionClaim, TransitionReceipt, is_valid}
use queue.Workflow.Memory.Store.{
  MemoryStore, MemoryBatch, BatchJobStatus, dispatch_conflict, record_transition_receipt,
  delete_transition_receipts,
}
use queue.Workflow.Memory.Chains.{
  create_chain, put_chain, commit_node, fail_claimed, advance_chain_outcome, fail_chain_outcome,
}
use queue.Workflow.Memory.Chains.Cases.{advance_cases, fail_cases}
use queue.Workflow.Memory.Chains.Outcomes.{advanced}
use queue.Workflow.Memory.Batches.{
  create_batch, put_batch, find_job, mark_batch_job_started, settle_again, settle_claimed,
  settle_batch_outcome, cancel_batch,
}
use queue.Workflow.Memory.Batches.Cases.{Requests, settle_cases, success, failure}
use queue.Workflow.Memory.Retention.{mark_callback_invoked}

-- The callback is claimed.
pub record IsClaimed (key : String) (m : MemoryStore) : Type 0 where
  pub time : ℕ
  pub claimed : m.callbacks key ≡ some time

recorded-callbacks :
    (m : MemoryStore) (r : TransitionReceipt)
    → (record_transition_receipt m r).1.callbacks ≡ m.callbacks
unfolding record_transition_receipt
recorded-callbacks m r = elim (Bool-cases (is_valid r.owner)) [
  | inl h ↦ rw h refl
  | inr h ↦ rw h refl
]

module _ (m : MemoryStore) where
  pub create_chain-callbacks :
      (r : ChainRecord) (now : ℕ) → (create_chain m r now).1.callbacks ≡ m.callbacks
  unfolding create_chain delete_transition_receipts
  create_chain-callbacks r now = elim (Result-cases (validate_chain_record r)) [
    | inl (e, h) ↦ rw (h, create_chain) refl
    | inr (u, h) ↦ rw (h, create_chain) refl
  ]

  pub create_batch-callbacks :
      (r : BatchRecord) (now : ℕ) → (create_batch m r now).1.callbacks ≡ m.callbacks
  unfolding create_batch delete_transition_receipts
  create_batch-callbacks r now = elim (Result-cases (validate_batch_record r)) [
    | inl (e, h) ↦ rw (h, create_batch) refl
    | inr (u, h) ↦ rw (h, create_batch) refl
  ]

  pub cancel_batch-callbacks :
      (id : String) (now : ℕ) → (cancel_batch m id now).1.callbacks ≡ m.callbacks
  unfolding cancel_batch put_batch
  cancel_batch-callbacks id now = elim (Option-cases (m.batch id)) [
    | inl h ↦ rw (h, cancel_batch) refl
    | inr (b, h) ↦ rw (h, cancel_batch) refl
  ]

  pub start-callbacks :
      (id job : String) (now : ℕ) → (mark_batch_job_started m id job now).1.callbacks ≡ m.callbacks
  unfolding mark_batch_job_started put_batch
  start-callbacks id job now = elim (Option-cases (m.batch id)) [
    | inl h ↦ rw (h, mark_batch_job_started) refl
    | inr (b, h) ↦ elim (Option-cases (find_job b.jobs job)) [
      | inl f ↦ rw (h, mark_batch_job_started) (rw f refl)
      | inr (js, f) ↦ rw (h, mark_batch_job_started) (rw f refl)
    ]
  ]

  pub advance-callbacks :
      (c n : String) (claim : TransitionClaim) (now later : ℕ)
      → (advance_chain_outcome m c n claim now later).1.callbacks ≡ m.callbacks
  unfolding put_chain
  advance-callbacks c n claim now later = elim (advance_cases m c n claim now later) [
    | inl same ↦ ap (λ s. s.callbacks) same
    | inr (ch, (claims, eq)) ↦
        ap (λ s. s.callbacks)
          (ap (λ p. p.1) eq ∙ (advanced m ch c n claim now later claims.current).stored)
        ∙ recorded-callbacks (put_chain m c (commit_node ch n now)) _
  ]

  pub fail-callbacks :
      (c n : String) (cause : Option String) (claim : TransitionClaim) (now later : ℕ)
      → (fail_chain_outcome m c n cause claim now later).1.callbacks ≡ m.callbacks
  unfolding put_chain fail_claimed
  fail-callbacks c n cause claim now later = elim (fail_cases m c n cause claim now later) [
    | inl same ↦ ap (λ s. s.callbacks) same
    | inr (ch, (claims, eq)) ↦ ap (λ p. p.1.callbacks) eq ∙ recorded-callbacks (put_chain m c _) _
  ]

  pub invoke-callbacks :
      (key other_key : String) (now : ℕ)
      → IsClaimed key m
      → IsClaimed key (mark_callback_invoked m other_key now).1
  unfolding mark_callback_invoked
  invoke-callbacks key other_key now h = elim (Option-cases (m.callbacks other_key)) [
    | inl absent ↦ record {
      time = h.time;
      claimed = ground (arith, absent, h.claimed, eq_iff other_key key);
    }
    | inr (t, there) ↦ rw (there, mark_callback_invoked) h
  ]

  again-callbacks :
      (b : MemoryBatch) (js : BatchJobStatus) (id job : String) (flag : Bool)
      (claim : TransitionClaim) (now : ℕ)
      → (settle_again m b js id job flag claim now).1.callbacks ≡ m.callbacks
  unfolding settle_again put_batch
  again-callbacks b js id job flag claim now =
      elim (Bool-cases (dispatch_conflict b.state.dispatch_id claim)) [
        | inl h ↦ rw (h, settle_again) refl
        | inr h ↦ rw (h, settle_again) refl
      ]

  settles-callbacks :
      (id job : String) (claim : TransitionClaim) (now later : ℕ) {outcome : BatchJobOutcome}
      {flag : Bool}
      → Requests outcome flag
      → (settle_batch_outcome m id job outcome claim now later).1.callbacks ≡ m.callbacks
  unfolding settle_claimed put_batch
  settles-callbacks id job claim now later {outcome} {flag} q =
      elim (settle_cases m id job claim now later q) [
        | inl same ↦ ap (λ s. s.callbacks) same
        | inr (inl (b, js, again)) ↦
            ap (λ p. p.1.callbacks) again.answers ∙ again-callbacks b js id job flag claim now
        | inr (inr (b, js, first)) ↦
            ap (λ p. p.1.callbacks) first.answers ∙ recorded-callbacks (put_batch m id _) _
      ]

  pub settle-callbacks :
      (id job : String) (outcome : BatchJobOutcome) (claim : TransitionClaim) (now later : ℕ)
      → (settle_batch_outcome m id job outcome claim now later).1.callbacks ≡ m.callbacks
  settle-callbacks id job succeeded claim now later =
      settles-callbacks id job claim now later success
  settle-callbacks id job failed claim now later = settles-callbacks id job claim now later failure
  settle-callbacks id job (other text) claim now later = unfold settle_batch_outcome in refl
