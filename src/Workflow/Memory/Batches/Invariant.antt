-- ===== src/Workflow/Memory/Batches/Invariant.antt =====
-- The invariant of one batch that `memoryStore` of internal/workflow/store_memory.go keeps.
use queue.Prelude.{
  ◌≡◌, ◌≢◌, refl, sym, ap, ℕ, suc, ◌<◌, Bool, true, false, not, ◌&&◌, String, List, [], ◌∷◌, some,
  ok, arith, length,
}
use queue.Prelude.Int.{pos, pred_ℤ}
use queue.Workflow.Types.{BatchJob, BatchRecord}
use queue.Workflow.Validate.{validate_batch_record}
use queue.Workflow.Validate.Exact.{validate_batch_record-exact}
use queue.Workflow.Memory.Store.{BatchJobStatus, MemoryBatch}
use queue.Workflow.Memory.Batches.{
  find_job, set_job, new_batch, settle_member, start_member, cancel_state, touch,
}
use queue.Workflow.Memory.Batches.Tally.{
  Jobs, tally, tally-set_job, length-set_job, fresh_jobs-eq, tally-entries, length-entries,
}

-- Counters that count the members, and flags that agree with the counters.
pub record BatchInv (batch_id : String) (b : MemoryBatch) : Type 0 where
  pub keyed : b.state.batch_id ≡ batch_id
  pub members : b.state.total ≡ length b.jobs
  pub waiting : b.state.pending ≡ pos (tally (λ s. not s.done) b.jobs)
  pub settled : b.state.processed ≡ tally (λ s. s.done) b.jobs
  pub failures : b.state.failed ≡ tally (λ s. s.done && s.failed) b.jobs
  pub filled : 0 < length b.jobs
  pub cancels : b.state.cancelled ≡ true → b.state.completed ≡ true
  pub ends : b.state.pending ≡ pos 0 → b.state.completed ≡ true
  pub drained : b.state.completed ≡ true → b.state.cancelled ≡ false → b.state.pending ≡ pos 0
  pub fail_fast : b.state.allow_failed ≡ false → 0 < b.state.failed → b.state.cancelled ≡ true

some_job : (jobs : List BatchJob) → jobs ≢ [] → 0 < length jobs
some_job [] h = absurd (h refl)
some_job (job ∷ jobs) h = omega arith

pub new_batch-BatchInv :
    (r : BatchRecord) (now : ℕ)
    → validate_batch_record r ≡ ok tt
    → BatchInv r.batch_id (new_batch r now)
unfolding new_batch
new_batch-BatchInv r now h =
    let valid = (validate_batch_record-exact r).0 h in
    let same = fresh_jobs-eq r.jobs valid.2.1 in
    record {
      keyed = refl;
      members = rw same (sym (length-entries r.jobs));
      waiting = rw same (ap pos (sym (tally-entries (λ s. not s.done) r.jobs)));
      settled = rw same (sym (tally-entries (λ s. s.done) r.jobs));
      failures = rw same (sym (tally-entries (λ s. s.done && s.failed) r.jobs));
      filled = rw (same, length-entries r.jobs) (some_job r.jobs valid.1);
      cancels = λ e. cc;
      ends = λ e. ground (arith, some_job r.jobs valid.1);
      drained = λ e _. cc;
      fail_fast = λ _ e. absurd (omega arith);
    }

module _ (batch_id : String) (b : MemoryBatch) (inv : BatchInv batch_id b) (now : ℕ) where
  pub touch-BatchInv : BatchInv batch_id (touch b now)
  unfolding touch
  touch-BatchInv = record {
    keyed = inv.keyed;
    members = inv.members;
    waiting = inv.waiting;
    settled = inv.settled;
    failures = inv.failures;
    filled = inv.filled;
    cancels = inv.cancels;
    ends = inv.ends;
    drained = inv.drained;
    fail_fast = inv.fail_fast;
  }

  pub cancel_state-BatchInv : BatchInv batch_id (cancel_state b now)
  unfolding cancel_state
  cancel_state-BatchInv = record {
    keyed = inv.keyed;
    members = inv.members;
    waiting = inv.waiting;
    settled = inv.settled;
    failures = inv.failures;
    filled = inv.filled;
    cancels = λ _. refl;
    ends = λ _. refl;
    drained = λ _ e. cc;
    fail_fast = λ _ _. refl;
  }

  module _ (id : String) (js : BatchJobStatus) (found : find_job b.jobs id ≡ some js) where
    abbrev began : BatchJobStatus
    began = record js { started = true }

    pub start_member-BatchInv : BatchInv batch_id (start_member b id js now)
    unfolding start_member
    start_member-BatchInv = record {
      keyed = inv.keyed;
      members = ground (arith, inv.members, length-set_job b.jobs id js began found);
      waiting =
          ground (arith, inv.waiting, tally-set_job (λ s. not s.done) b.jobs id js began found);
      settled = ground (arith, inv.settled, tally-set_job (λ s. s.done) b.jobs id js began found);
      failures =
          ground
            (arith, inv.failures, tally-set_job (λ s. s.done && s.failed) b.jobs id js began found);
      filled = omega (arith, inv.filled, length-set_job b.jobs id js began found);
      cancels = inv.cancels;
      ends = inv.ends;
      drained = inv.drained;
      fail_fast = inv.fail_fast;
    }

    module _ (failure : Bool) (undone : js.done ≡ false) where
      abbrev settled_job : BatchJobStatus
      settled_job = record js { done = true; failed = failure }

      abbrev after : Jobs
      after = set_job b.jobs id settled_job

      one_less : tally (λ s. not s.done) b.jobs ≡ suc (tally (λ s. not s.done) after)
      one_less = ground (arith, tally-set_job (λ s. not s.done) b.jobs id js settled_job found)

      pending_eq : pred_ℤ b.state.pending ≡ pos (tally (λ s. not s.done) after)
      pending_eq = rw (inv.waiting, one_less)

      drained_after :
          (settle_member b id js failure now).state.completed ≡ true
          → (settle_member b id js failure now).state.cancelled ≡ false
          → (settle_member b id js failure now).state.pending ≡ pos 0
      unfolding settle_member
      drained_after e f = ground (arith, inv.drained, inv.waiting, one_less, pending_eq)

      pub settle_member-BatchInv : BatchInv batch_id (settle_member b id js failure now)
      unfolding settle_member
      settle_member-BatchInv = record {
        keyed = inv.keyed;
        members = ground (arith, inv.members, length-set_job b.jobs id js settled_job found);
        waiting = pending_eq;
        settled =
            ground (arith, inv.settled, tally-set_job (λ s. s.done) b.jobs id js settled_job found);
        failures = ground (
          arith,
          inv.failures,
          tally-set_job (λ s. s.done && s.failed) b.jobs id js settled_job found,
        );
        filled = omega (arith, inv.filled, length-set_job b.jobs id js settled_job found);
        cancels = ground (arith, inv.cancels);
        ends = ground (arith, pending_eq);
        drained = λ e f. drained_after e f;
        fail_fast = ground (arith, inv.fail_fast);
      }
