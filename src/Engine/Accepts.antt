-- ===== src/Engine/Accepts.antt =====
-- The recovery of a batch member accepts what the built-in store says of a batch.
use queue.Prelude.{
  eq_iff, eqb, ltb, ◌||◌, ◌==◌, sym, ◌∙◌, subst, ◌≡◌, ◌+◌, ◌<◌, ◌≤◌, ℕ, true, false, not, ◌&&◌,
  none, ok, arith, Option-cases, inl, inr, ◌⊎◌,
}
use queue.Prelude.Int.{pos, ltb_ℤ, eqb_ℤ}
use queue.Workflow.Types.{BatchState}
use queue.Workflow.Memory.Store.{MemoryStore}
use queue.Workflow.Memory.Batches.{get_batch}
use queue.Workflow.Memory.Batches.Tally.{tally, done_or_waiting, failed_are_done}
use queue.Workflow.Memory.Invariant.{StoreInv}
use queue.Engine.Types.{Envelope}
use queue.Engine.Runtime.{Runtime}
use queue.Engine.BatchRecovery.{plus, validate_recovered_batch_state}

module _ (r : Runtime) (env : Envelope) (state : BatchState) (p n : ℕ)
    (named : state.batch_id ≡ env.batch_id)
    (same : (env.dispatch_id ≡ "") ⊎ (env.dispatch_id ≡ state.dispatch_id))
    (waiting : state.pending ≡ pos p) (settled : state.processed ≡ n)
    (members : state.total ≡ p + n) (filled : 0 < p + n) (failures : state.failed ≤ n) where
  dispatch_agrees :
      not (state.dispatch_id == "")
        && not (env.dispatch_id == "")
        && not (state.dispatch_id == env.dispatch_id)
      ≡ false
  dispatch_agrees =
      ground (arith, same, eq_iff env.dispatch_id "", eq_iff state.dispatch_id env.dispatch_id)

  counters_agree :
      eqb state.total 0
        || ltb_ℤ state.pending (pos 0)
        || not (eqb_ℤ (plus state.pending state.processed) (pos state.total))
        || ltb state.processed state.failed
      ≡ false
  counters_agree = ground (arith, waiting, settled, members, filled, failures)

  state_accepted :
      (state.pending ≡ pos 0 → state.completed ≡ true)
      → (state.completed ≡ true → state.cancelled ≡ false → state.pending ≡ pos 0)
      → validate_recovered_batch_state r env state ≡ none
  unfolding validate_recovered_batch_state
  state_accepted ends drained = ground (
    arith,
    eq_iff state.batch_id env.batch_id,
    named,
    dispatch_agrees,
    counters_agree,
    waiting,
    ends,
    drained,
  )

-- On a well formed store, the checks that a recovered member delivery makes of its batch's state pass,
-- for a delivery of the batch's dispatch or of none.
pub validate_recovered_batch_state-accepts :
    (r : Runtime) (m : MemoryStore) (inv : StoreInv m) (env : Envelope) (state : BatchState)
    → get_batch m env.batch_id ≡ ok state
    → (env.dispatch_id ≡ "") ⊎ (env.dispatch_id ≡ state.dispatch_id)
    → validate_recovered_batch_state r env state ≡ none
unfolding get_batch
validate_recovered_batch_state-accepts r m inv env state found same =
    elim (Option-cases (m.batch env.batch_id)) [
      | inl absent ↦ ground (arith, absent, found)
      | inr (b, there) ↦
          let i = inv.batches env.batch_id b there in
          let is_state : b.state ≡ state = ground (arith, there, found) in
          subst (λ s. validate_recovered_batch_state r env s ≡ none) is_state
            (state_accepted r env b.state (tally (λ s. not s.done) b.jobs)
              (tally (λ s. s.done) b.jobs) i.keyed
              (subst (λ s. (env.dispatch_id ≡ "") ⊎ (env.dispatch_id ≡ s.dispatch_id))
                (sym is_state) same)
              i.waiting i.settled (i.members ∙ sym (done_or_waiting b.jobs))
              (rw (done_or_waiting b.jobs) i.filled) (rw (i.failures) (failed_are_done b.jobs))
              i.ends i.drained)
    ]
