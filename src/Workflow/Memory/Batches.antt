-- ===== src/Workflow/Memory/Batches.antt =====
-- The batch methods of `memoryStore` of internal/workflow/store_memory.go.
pub mod Tally
pub mod Cases
pub mod Invariant
use queue.Prelude.{
  ◌==◌, eqb, not, ◌&&◌, ◌||◌, ◌>>◌, ℕ, ◌+◌, Bool, true, false, String, List, [], ◌∷◌, Option, none,
  some, Result, ok, err, length, eqb_Bool, if◌then◌else◌,
}
use queue.Prelude.Equality.{string_eq}
use queue.Prelude.Int.{pos, leb_ℤ, pred_ℤ}
use queue.Prelude.Table.{update, remove}
use queue.Workflow.Types.{
  BatchJob, BatchRecord, BatchState, BatchJobOutcome, succeeded, failed, other, Error, not_found,
  batch_dispatch_mismatch, batch_receipt_mismatch, unsupported_outcome,
}
use queue.Workflow.Validate.{validate_batch_record}
use queue.Workflow.Receipt.{
  TransitionClaim, no_claim, TransitionReceipt, batch_transition_kind,
  validate_transition_receipt_support,
}
use queue.Workflow.Memory.Store.{
  BatchJobStatus, MemoryBatch, MemoryStore, dispatch_conflict, new_receipt,
  record_transition_receipt, transition_receipt, delete_transition_receipts,
}

-- `b.jobs[id]`
unfoldable pub find_job : List (String × BatchJobStatus) → String → Option BatchJobStatus
find_job [] id = none
find_job ((j, status) ∷ jobs) id = if j == id then some status else find_job jobs id

-- `b.jobs[id] = status`
unfoldable pub set_job :
    List (String × BatchJobStatus) → String → BatchJobStatus → List (String × BatchJobStatus)
set_job [] id status = (id, status) ∷ []
set_job ((j, old) ∷ jobs) id status =
    if j == id then (j, status) ∷ jobs else (j, old) ∷ set_job jobs id status

abbrev pub fresh : BatchJobStatus
fresh = record { started = false; done = false; failed = false }

-- The loop that enters every member into the map.
unfoldable pub fresh_jobs :
    List (String × BatchJobStatus) → List BatchJob → List (String × BatchJobStatus)
unfolding set_job
fresh_jobs entries [] = entries
fresh_jobs entries (job ∷ jobs) = fresh_jobs (set_job entries job.job_id fresh) jobs

unfoldable pub new_batch : BatchRecord → ℕ → MemoryBatch
unfolding fresh_jobs
new_batch r now = record {
  state = record {
    batch_id = r.batch_id;
    dispatch_id = r.dispatch_id;
    name = r.name;
    queue_name = r.queue_name;
    allow_failed = r.allow_failed;
    total = length r.jobs;
    pending = pos (length r.jobs);
    processed = 0;
    failed = 0;
    cancelled = false;
    completed = false;
    created_at = r.created_at;
    updated_at = now;
  };
  jobs = fresh_jobs [] r.jobs;
}

unfoldable pub create_batch : MemoryStore → BatchRecord → ℕ → Result Error (Unit {0}) × MemoryStore
unfolding new_batch delete_transition_receipts
create_batch m r now = elim (validate_batch_record r) [
  | err e ↦ (err e, m)
  | ok _ ↦
      let m' = delete_transition_receipts m batch_transition_kind r.batch_id in
      (ok tt, record m' { batch = update m'.batch r.batch_id (new_batch r now) })
]

unfoldable pub put_batch : MemoryStore → String → MemoryBatch → MemoryStore
put_batch m batch_id b = record m { batch = update m.batch batch_id b }

unfoldable pub start_member : MemoryBatch → String → BatchJobStatus → ℕ → MemoryBatch
unfolding set_job
start_member b job_id js now = record {
  state = record b.state { updated_at = now };
  jobs = set_job b.jobs job_id (record js { started = true });
}

unfoldable pub mark_batch_job_started :
    MemoryStore → String → String → ℕ → Result Error (Unit {0}) × MemoryStore
unfolding find_job start_member put_batch
mark_batch_job_started m batch_id job_id now = elim (m.batch batch_id) [
  | none ↦ (err not_found, m)
  | some b ↦ elim (find_job b.jobs job_id) [
    | none ↦ (err not_found, m)
    | some js ↦ (ok tt, put_batch m batch_id (start_member b job_id js now))
  ]
]

-- `batchSettlementResult`
pub record BatchSettlementResult : Type 0 where
  pub state : BatchState
  pub owned : Bool
  pub claimed_now : Bool
  pub receipt : Option TransitionReceipt

unfoldable pub touch : MemoryBatch → ℕ → MemoryBatch
touch b now = record b { state = record b.state { updated_at = now } }

-- A delivery whose member has been settled before.
unfoldable pub settle_again :
    MemoryStore
    → MemoryBatch
    → BatchJobStatus
    → String
    → String
    → Bool
    → TransitionClaim
    → ℕ
    → BatchSettlementResult × MemoryStore
unfolding touch put_batch dispatch_conflict transition_receipt
settle_again m b js batch_id job_id failure claim now =
    if dispatch_conflict b.state.dispatch_id claim
    then (record { state = b.state; owned = false; claimed_now = false; receipt = none }, m)
    else (let b' = touch b now in
        (
          record {
            state = b'.state;
            owned = eqb_Bool js.failed failure;
            claimed_now = false;
            receipt = transition_receipt m batch_transition_kind batch_id job_id;
          },
          put_batch m batch_id b',
        ))

-- The aggregate with one more member settled.
unfoldable pub settle_state : BatchState → Bool → ℕ → BatchState
settle_state s failure now =
    let pending = pred_ℤ s.pending in
    let cancels = failure && not s.allow_failed in
    record s {
      pending = pending;
      processed = s.processed + 1;
      failed = if failure then s.failed + 1 else s.failed;
      cancelled = if cancels then true else s.cancelled;
      completed = if cancels then true else if leb_ℤ pending (pos 0) then true else s.completed;
      updated_at = now;
    }

unfoldable pub settle_member : MemoryBatch → String → BatchJobStatus → Bool → ℕ → MemoryBatch
unfolding settle_state set_job
settle_member b job_id js failure now = record {
  state = settle_state b.state failure now;
  jobs = set_job b.jobs job_id (record js { done = true; failed = failure });
}

unfoldable pub settle_claimed :
    MemoryStore
    → MemoryBatch
    → BatchJobStatus
    → String
    → String
    → BatchJobOutcome
    → Bool
    → TransitionClaim
    → ℕ
    → ℕ
    → BatchSettlementResult × MemoryStore
unfolding settle_member put_batch new_receipt record_transition_receipt
settle_claimed m b js batch_id job_id outcome failure claim now later =
    let b' = settle_member b job_id js failure now in
    let aggregate_completed = not b.state.completed && b'.state.completed in
    let (receipt, m') = record_transition_receipt (put_batch m batch_id b') (
      new_receipt batch_transition_kind batch_id b'.state.dispatch_id b'.state.created_at job_id
        outcome claim aggregate_completed (aggregate_completed && b'.state.cancelled) later) in
    (record { state = b'.state; owned = true; claimed_now = true; receipt = receipt }, m')

pub settle_known :
    MemoryStore
    → MemoryBatch
    → BatchJobStatus
    → String
    → String
    → BatchJobOutcome
    → Bool
    → TransitionClaim
    → ℕ
    → ℕ
    → Result Error BatchSettlementResult × MemoryStore
unfolding settle_again settle_claimed dispatch_conflict
settle_known m b js batch_id job_id outcome failure claim now later =
    if js.done
    then (let (result, m') = settle_again m b js batch_id job_id failure claim now in
        (ok result, m'))
    else if dispatch_conflict b.state.dispatch_id claim
    then (err (batch_dispatch_mismatch batch_id), m)
    else (let (result, m') =
          settle_claimed m b js batch_id job_id outcome failure claim now later in
        (ok result, m'))

pub settle_member_of :
    MemoryStore
    → String
    → String
    → BatchJobOutcome
    → Bool
    → TransitionClaim
    → ℕ
    → ℕ
    → Result Error BatchSettlementResult × MemoryStore
unfolding find_job settle_known
settle_member_of m batch_id job_id outcome failure claim now later = elim (m.batch batch_id) [
  | none ↦ (err not_found, m)
  | some b ↦ elim (find_job b.jobs job_id) [
    | none ↦ (err not_found, m)
    | some js ↦ settle_known m b js batch_id job_id outcome failure claim now later
  ]
]

-- `settleBatchOutcome`; the cause of a failure is not kept.
unfoldable pub settle_batch_outcome :
    MemoryStore
    → String
    → String
    → BatchJobOutcome
    → TransitionClaim
    → ℕ
    → ℕ
    → Result Error BatchSettlementResult × MemoryStore
unfolding settle_member_of
settle_batch_outcome m batch_id job_id (other text) claim now later =
    (err (unsupported_outcome (other text)), m)
settle_batch_outcome m batch_id job_id succeeded claim now later =
    settle_member_of m batch_id job_id succeeded false claim now later
settle_batch_outcome m batch_id job_id failed claim now later =
    settle_member_of m batch_id job_id failed true claim now later

-- `SettleBatchJob` answers with the aggregate and whether the outcome owns the member.
unfoldable pub settle_batch_job :
    MemoryStore
    → String
    → String
    → BatchJobOutcome
    → ℕ
    → ℕ
    → Result Error (BatchState × Bool) × MemoryStore
unfolding settle_batch_outcome
settle_batch_job m batch_id job_id outcome now later =
    let (result, m') = settle_batch_outcome m batch_id job_id outcome no_claim now later in
    (elim result [ err e ↦ err e | ok r ↦ ok (r.state, r.owned) ], m')

unfoldable pub mark_batch_job_succeeded :
    MemoryStore → String → String → ℕ → ℕ → Result Error (BatchState × Bool) × MemoryStore
unfolding settle_batch_job
mark_batch_job_succeeded m batch_id job_id now later =
    let (result, m') = settle_batch_job m batch_id job_id succeeded now later in
    (elim result [ err e ↦ err e | ok (s, _) ↦ ok (s, s.completed) ], m')

unfoldable pub mark_batch_job_failed :
    MemoryStore → String → String → ℕ → ℕ → Result Error (BatchState × Bool) × MemoryStore
unfolding settle_batch_job
mark_batch_job_failed m batch_id job_id now later =
    let (result, m') = settle_batch_job m batch_id job_id failed now later in
    (elim result [ err e ↦ err e | ok (s, _) ↦ ok (s, s.completed) ], m')

unfoldable pub cancel_state : MemoryBatch → ℕ → MemoryBatch
cancel_state b now = record b {
  state = record b.state { cancelled = true; completed = true; updated_at = now };
}

unfoldable pub cancel_batch : MemoryStore → String → ℕ → Result Error (Unit {0}) × MemoryStore
unfolding cancel_state put_batch
cancel_batch m batch_id now = elim (m.batch batch_id) [
  | none ↦ (err not_found, m)
  | some b ↦ (ok tt, put_batch m batch_id (cancel_state b now))
]

unfoldable pub get_batch : MemoryStore → String → Result Error BatchState
get_batch m batch_id = elim (m.batch batch_id) [ none ↦ err not_found | some b ↦ ok b.state ]

unfoldable pub discard_batch : MemoryStore → String → MemoryStore
unfolding delete_transition_receipts
discard_batch m batch_id =
    delete_transition_receipts (record m { batch = remove m.batch batch_id }) batch_transition_kind
      batch_id

-- `batchTransitionReceipt`; `ok none` when no receipt is known.
unfoldable pub batch_transition_receipt :
    MemoryStore → String → String → Result Error (Option TransitionReceipt)
unfolding transition_receipt
batch_transition_receipt m batch_id job_id = elim (m.batch batch_id) [
  | none ↦ err not_found
  | some b ↦ elim (transition_receipt m batch_transition_kind batch_id job_id) [
    | none ↦ ok none
    | some r ↦
        if not (r.workflow_dispatch_id == b.state.dispatch_id)
          || not (eqb r.workflow_created_at b.state.created_at)
        then err (batch_receipt_mismatch batch_id)
        else do validate_transition_receipt_support r; ok (some r)
  ]
]
