-- ===== src/Workflow/Memory/Batches/Cases.antt =====
-- What `settleBatchOutcome` of internal/workflow/store_memory.go does, by case.
use queue.Prelude.{
  ◌≡◌, sym, subst, ℕ, Bool, true, false, String, some, Result, ok, Option-cases, Bool-cases, inl,
  inr, ◌⊎◌, arith,
}
use queue.Workflow.Types.{BatchJobOutcome, succeeded, failed, Error}
use queue.Workflow.Receipt.{TransitionClaim}
use queue.Workflow.Memory.Store.{BatchJobStatus, MemoryBatch, MemoryStore, dispatch_conflict}
use queue.Workflow.Memory.Batches.{
  find_job, BatchSettlementResult, settle_again, settle_claimed, settle_known, settle_member_of,
  settle_batch_outcome,
}

-- The outcome is one of the two that the package declares; the flag is `requestedFailure`.
pub data Requests : BatchJobOutcome → Bool → Type 0 where
  success : Requests succeeded false
  failure : Requests failed true

module _ (m : MemoryStore) (id job : String) (claim : TransitionClaim) where
  -- The member is in the store.
  pub record Known (b : MemoryBatch) (js : BatchJobStatus) : Type 0 where
    pub entry : m.batch id ≡ some b
    pub member : find_job b.jobs job ≡ some js

  module _ (now later : ℕ) (outcome : BatchJobOutcome) (flag : Bool) (b : MemoryBatch)
      (js : BatchJobStatus) where
    -- The member was settled before, by a delivery of the same dispatch as far as is known.
    pub record Again (answer : Result Error BatchSettlementResult × MemoryStore) : Type 0 where
      pub known : Known b js
      pub done : js.done ≡ true
      pub agrees : dispatch_conflict b.state.dispatch_id claim ≡ false
      pub answers : answer ≡ (
        ok (settle_again m b js id job flag claim now).0,
        (settle_again m b js id job flag claim now).1,
      )

    -- The delivery is the first to settle the member.
    pub record First (answer : Result Error BatchSettlementResult × MemoryStore) : Type 0 where
      pub known : Known b js
      pub undone : js.done ≡ false
      pub agrees : dispatch_conflict b.state.dispatch_id claim ≡ false
      pub answers : answer ≡ (
        ok (settle_claimed m b js id job outcome flag claim now later).0,
        (settle_claimed m b js id job outcome flag claim now later).1,
      )

  module _ (now later : ℕ) (outcome : BatchJobOutcome) (flag : Bool) where
    abbrev pub Settles : Result Error BatchSettlementResult × MemoryStore → Type 0
    Settles answer =
        (answer.1 ≡ m)
        ⊎ ((b : MemoryBatch) × (js : BatchJobStatus) × Again now later outcome flag b js answer)
        ⊎ ((b : MemoryBatch) × (js : BatchJobStatus) × First now later outcome flag b js answer)

    settle_known_cases :
        (b : MemoryBatch) (js : BatchJobStatus)
        → Known b js
        → Settles (settle_known m b js id job outcome flag claim now later)
    unfolding settle_known
    settle_known_cases b js k = elim (Bool-cases js.done) [
      | inl d ↦ elim (Bool-cases (dispatch_conflict b.state.dispatch_id claim)) [
        | inl c ↦ inl (ground arith)
        | inr c ↦
            inr (inl (b, js, record { known = k; done = d; agrees = c; answers = ground arith }))
      ]
      | inr d ↦ elim (Bool-cases (dispatch_conflict b.state.dispatch_id claim)) [
        | inl c ↦ inl (ground arith)
        | inr c ↦
            inr (inr (b, js, record { known = k; undone = d; agrees = c; answers = ground arith }))
      ]
    ]

    member_found :
        (b : MemoryBatch) (js : BatchJobStatus)
        → Known b js
        → settle_member_of m id job outcome flag claim now later
          ≡ settle_known m b js id job outcome flag claim now later
    unfolding settle_member_of
    member_found b js k = rw (k.entry, settle_member_of) (rw k.member)

    member_cases : Settles (settle_member_of m id job outcome flag claim now later)
    unfolding settle_member_of
    member_cases = elim (Option-cases (m.batch id)) [
      | inl e ↦ inl (ground arith)
      | inr (b, e) ↦ elim (Option-cases (find_job b.jobs job)) [
        | inl f ↦ inl (ground arith)
        | inr (js, f) ↦
            let k : Known b js = record { entry = e; member = f } in
            subst Settles (sym (member_found b js k)) (settle_known_cases b js k)
      ]
    ]

  -- A call leaves the store as it was, or repeats a settlement, or is the first to settle the member.
  pub settle_cases :
      (now later : ℕ) {outcome : BatchJobOutcome} {flag : Bool}
      → Requests outcome flag
      → Settles now later outcome flag (settle_batch_outcome m id job outcome claim now later)
  unfolding settle_batch_outcome
  settle_cases now later success = member_cases now later succeeded false
  settle_cases now later failure = member_cases now later failed true
