-- ===== src/Workflow/Memory/Invariant/OfBatches.antt =====
-- The batch methods of internal/workflow/store_memory.go keep the invariant of the store.
use mathlib.Core.Path.{subst₂}
use queue.Prelude.{
  ◌==◌, eq_iff, ◌≡◌, refl, ap, sym, subst, ℕ, Bool, true, false, ◌&&◌, String, Option, none, some,
  ok, ◌≢◌, Result-cases, arith, if◌then◌else◌, Bool-cases, Option-cases, inl, inr,
}
use queue.Prelude.Equality.{string_eq}
use queue.Prelude.Table.{update, remove, update_cases, remove_if_cases}
use queue.Workflow.Types.{BatchRecord, BatchJobOutcome, succeeded, failed, other}
use queue.Workflow.Validate.{validate_batch_record}
use queue.Workflow.Receipt.{
  TransitionClaim, TransitionReceipt, receipt_key_eq, supported, batch_transition_kind,
  chain_transition_kind,
}
use queue.Workflow.Memory.Store.{
  BatchJobStatus, MemoryBatch, MemoryStore, new_receipt, dispatch_conflict,
  record_transition_receipt, delete_transition_receipts,
}
use queue.Workflow.Memory.Batches.{
  find_job, new_batch, create_batch, put_batch, mark_batch_job_started, start_member, touch,
  settle_again, settle_claimed, settle_member, settle_batch_outcome, cancel_state, cancel_batch,
  discard_batch,
}
use queue.Workflow.Memory.Batches.Cases.{Requests, success, failure, settle_cases}
use queue.Workflow.Memory.Batches.Invariant.{
  BatchInv, new_batch-BatchInv, touch-BatchInv, cancel_state-BatchInv, start_member-BatchInv,
  settle_member-BatchInv,
}
use queue.Workflow.Memory.Invariant.{
  StoreInv, origin, batch_origin, put_batch-StoreInv, record_receipt-StoreInv, Keeps-StoreInv,
  Keeps, forget_batch-origin,
}

module _ (m : MemoryStore) (inv : StoreInv m) where
  -- The store without the receipts of a batch, and with another entry for it.
  forget-Keeps :
      (id : String) (entry : Option MemoryBatch)
      → Keeps m inv (record (delete_transition_receipts m batch_transition_kind id) {
        batch = λ d. if id == d then entry else m.batch d;
      })
  unfolding delete_transition_receipts origin
  forget-Keeps id entry key r h =
      let (there, apart) =
        remove_if_cases
          (λ key _. key.workflow_kind == batch_transition_kind && key.workflow_id == id) m.receipts
          key r h in
      (there, forget_batch-origin m id entry key apart)

  created :
      (r : BatchRecord) (now : ℕ)
      → (u : Unit {0}) → validate_batch_record r ≡ ok u
      → StoreInv (create_batch m r now).1
  unfolding create_batch
  created r now tt h =
      rw (h, create_batch)
        (Keeps-StoreInv m inv _ inv.chains entries
          (forget-Keeps r.batch_id (some (new_batch r now))))
    where
      entries :
          (id : String) (b : MemoryBatch)
          → update m.batch r.batch_id (new_batch r now) id ≡ some b
          → BatchInv id b
      entries id b e = elim (update_cases m.batch r.batch_id id (new_batch r now) b e) [
        | inl (p, q) ↦ subst₂ BatchInv p q (new_batch-BatchInv r now h)
        | inr e' ↦ inv.batches id b e'
      ]

  pub create_batch-StoreInv : (r : BatchRecord) (now : ℕ) → StoreInv (create_batch m r now).1
  unfolding create_batch
  create_batch-StoreInv r now = elim (Result-cases (validate_batch_record r)) [
    | inl (e, h) ↦ rw (h, create_batch) inv
    | inr (u, h) ↦ created r now u h
  ]

  pub discard_batch-StoreInv : (id : String) → StoreInv (discard_batch m id)
  unfolding discard_batch delete_transition_receipts
  discard_batch-StoreInv id = Keeps-StoreInv m inv _ inv.chains entries (forget-Keeps id none)
    where
      entries : (d : String) (b : MemoryBatch) → remove m.batch id d ≡ some b → BatchInv d b
      entries d b e = elim (Bool-cases (id == d)) [
        | inl same ↦ absurd (ground arith)
        | inr apart ↦ inv.batches d b (ground arith)
      ]

  pub cancel_batch-StoreInv : (id : String) (now : ℕ) → StoreInv (cancel_batch m id now).1
  unfolding cancel_batch
  cancel_batch-StoreInv id now = elim (Option-cases (m.batch id)) [
    | inl e ↦ rw (e, cancel_batch) inv
    | inr (b, e) ↦
        rw (e, cancel_batch)
          (put_batch-StoreInv m inv id b (cancel_state b now) e
            (cancel_state-BatchInv id b (inv.batches id b e) now) (unfold cancel_state in refl))
  ]

  pub start-StoreInv :
      (id job : String) (now : ℕ) → StoreInv (mark_batch_job_started m id job now).1
  unfolding mark_batch_job_started
  start-StoreInv id job now = elim (Option-cases (m.batch id)) [
    | inl e ↦ rw (e, mark_batch_job_started) inv
    | inr (b, e) ↦ elim (Option-cases (find_job b.jobs job)) [
      | inl f ↦ rw (e, mark_batch_job_started) (rw f inv)
      | inr (js, f) ↦
          rw (e, mark_batch_job_started)
            (rw f (
              put_batch-StoreInv m inv id b (start_member b job js now) e
                (start_member-BatchInv id b (inv.batches id b e) now job js f)
                (unfold start_member in refl)))
    ]
  ]

  settled-StoreInv :
      (id : String) (old b : MemoryBatch) (r : TransitionReceipt)
      → m.batch id ≡ some old
      → BatchInv id b
      → batch_origin (some b) ≡ batch_origin (some old)
      → r.workflow_kind ≡ batch_transition_kind
      → r.workflow_id ≡ id
      → supported r ≡ true
      → batch_origin (some b) ≡ some (r.workflow_dispatch_id, r.workflow_created_at)
      → StoreInv (record_transition_receipt (put_batch m id b) r).1
  settled-StoreInv id old b r there good same kind named readable from =
      record_receipt-StoreInv (put_batch m id b) (put_batch-StoreInv m inv id old b there good same)
        r readable
        (unfold origin put_batch in
          ground (
            arith,
            eq_iff id r.workflow_id,
            eq_iff r.workflow_kind batch_transition_kind,
            eq_iff r.workflow_kind chain_transition_kind,
            apart,
          ))
    where
      apart : batch_transition_kind ≢ chain_transition_kind
      apart = ground (arith, eq_iff batch_transition_kind chain_transition_kind)

  module _ (id job : String) (claim : TransitionClaim) (now later : ℕ) where
    again_stores :
        (b : MemoryBatch) (js : BatchJobStatus) (flag : Bool)
        → dispatch_conflict b.state.dispatch_id claim ≡ false
        → (settle_again m b js id job flag claim now).1 ≡ put_batch m id (touch b now)
    unfolding settle_again
    again_stores b js flag e = rw (e, settle_again)

    first_settles :
        (b : MemoryBatch) (js : BatchJobStatus) (outcome : BatchJobOutcome) (flag : Bool)
        → m.batch id ≡ some b
        → find_job b.jobs job ≡ some js
        → js.done ≡ false
        → StoreInv (settle_claimed m b js id job outcome flag claim now later).1
    unfolding settle_claimed
    first_settles b js outcome flag e f undone =
        settled-StoreInv id b (settle_member b job js flag now) _ e
          (settle_member-BatchInv id b (inv.batches id b e) now job js f flag undone)
          (unfold settle_member in refl) (unfold new_receipt in refl) (unfold new_receipt in refl)
          (unfold new_receipt supported in refl) (unfold new_receipt settle_member in refl)

    settles :
        {outcome : BatchJobOutcome} {flag : Bool}
        → Requests outcome flag
        → StoreInv (settle_batch_outcome m id job outcome claim now later).1
    settles {outcome} {flag} q = elim (settle_cases m id job claim now later q) [
      | inl same ↦ subst StoreInv (sym same) inv
      | inr (inl (b, js, again)) ↦ subst StoreInv (sym (ap (λ p. p.1) again.answers)) (
          subst StoreInv (sym (again_stores b js flag again.agrees)) (
            put_batch-StoreInv m inv id b (touch b now) again.known.entry
              (touch-BatchInv id b (inv.batches id b again.known.entry) now)
              (unfold touch in refl)))
      | inr (inr (b, js, first)) ↦
          subst StoreInv (sym (ap (λ p. p.1) first.answers))
            (first_settles b js outcome flag first.known.entry first.known.member first.undone)
    ]

    pub settle-StoreInv :
        (outcome : BatchJobOutcome)
        → StoreInv (settle_batch_outcome m id job outcome claim now later).1
    settle-StoreInv succeeded = settles success
    settle-StoreInv failed = settles failure
    settle-StoreInv (other text) = unfold settle_batch_outcome in inv
