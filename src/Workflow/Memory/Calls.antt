-- ===== src/Workflow/Memory/Calls.antt =====
-- Every method of `memoryStore` of internal/workflow/store_memory.go that changes it, as a call, and
-- the histories of calls. The mutex makes a history of a concurrent run a list of calls.
use queue.Prelude.{ℕ, String, List, [], ◌∷◌, Option}
use queue.Workflow.Types.{ChainRecord, BatchRecord, BatchJobOutcome}
use queue.Workflow.Receipt.{TransitionClaim}
use queue.Workflow.Memory.Store.{MemoryStore, new_memory_store}
use queue.Workflow.Memory.Chains.{
  create_chain, advance_chain_outcome, fail_chain_outcome, fail_chain, discard_chain,
}
use queue.Workflow.Memory.Batches.{
  create_batch, mark_batch_job_started, settle_batch_outcome, cancel_batch, discard_batch,
}
use queue.Workflow.Memory.Retention.{mark_callback_invoked, prune}
use queue.Workflow.Memory.Invariant.{StoreInv, new_memory_store-StoreInv}
use queue.Workflow.Memory.Invariant.OfChains.{
  create_chain-StoreInv, advance-StoreInv, fail-StoreInv, fail_chain-StoreInv,
  discard_chain-StoreInv,
}
use queue.Workflow.Memory.Invariant.OfBatches.{
  create_batch-StoreInv, start-StoreInv, settle-StoreInv, cancel_batch-StoreInv,
  discard_batch-StoreInv,
}
use queue.Workflow.Memory.Invariant.OfPrune.{callback-StoreInv, prune-StoreInv}

pub data Call : Type 0 where
  creates_chain : ChainRecord → ℕ → Call
  advances : String → String → TransitionClaim → ℕ → ℕ → Call
  fails_node : String → String → Option String → TransitionClaim → ℕ → ℕ → Call
  fails : String → Option String → ℕ → Call
  discards_chain : String → Call
  creates_batch : BatchRecord → ℕ → Call
  starts : String → String → ℕ → Call
  settles : String → String → BatchJobOutcome → TransitionClaim → ℕ → ℕ → Call
  cancels : String → ℕ → Call
  discards_batch : String → Call
  invokes : String → ℕ → Call
  prunes : ℕ → Call

unfoldable pub perform : MemoryStore → Call → MemoryStore
perform m (creates_chain r now) = (create_chain m r now).1
perform m (advances c n claim now later) = (advance_chain_outcome m c n claim now later).1
perform m (fails_node c n cause claim now later) =
    (fail_chain_outcome m c n cause claim now later).1
perform m (fails c cause now) = (fail_chain m c cause now).1
perform m (discards_chain c) = discard_chain m c
perform m (creates_batch r now) = (create_batch m r now).1
perform m (starts id job now) = (mark_batch_job_started m id job now).1
perform m (settles id job outcome claim now later) =
    (settle_batch_outcome m id job outcome claim now later).1
perform m (cancels id now) = (cancel_batch m id now).1
perform m (discards_batch id) = discard_batch m id
perform m (invokes key now) = (mark_callback_invoked m key now).1
perform m (prunes before) = prune m before

unfoldable pub run : MemoryStore → List Call → MemoryStore
unfolding perform
run m [] = m
run m (call ∷ calls) = run (perform m call) calls

pub perform-StoreInv : (m : MemoryStore) (call : Call) → StoreInv m → StoreInv (perform m call)
unfolding perform
perform-StoreInv m (creates_chain r now) inv = create_chain-StoreInv m inv r now
perform-StoreInv m (advances c n claim now later) inv = advance-StoreInv m inv c n claim now later
perform-StoreInv m (fails_node c n cause claim now later) inv =
    fail-StoreInv m inv c n cause claim now later
perform-StoreInv m (fails c cause now) inv = fail_chain-StoreInv m inv c cause now
perform-StoreInv m (discards_chain c) inv = discard_chain-StoreInv m inv c
perform-StoreInv m (creates_batch r now) inv = create_batch-StoreInv m inv r now
perform-StoreInv m (starts id job now) inv = start-StoreInv m inv id job now
perform-StoreInv m (settles id job outcome claim now later) inv =
    settle-StoreInv m inv id job claim now later outcome
perform-StoreInv m (cancels id now) inv = cancel_batch-StoreInv m inv id now
perform-StoreInv m (discards_batch id) inv = discard_batch-StoreInv m inv id
perform-StoreInv m (invokes key now) inv = callback-StoreInv m inv key now
perform-StoreInv m (prunes before) inv = prune-StoreInv m inv before

pub run-StoreInv : (m : MemoryStore) (calls : List Call) → StoreInv m → StoreInv (run m calls)
unfolding run
run-StoreInv m [] inv = inv
run-StoreInv m (call ∷ calls) inv =
    run-StoreInv (perform m call) calls (perform-StoreInv m call inv)

-- After any history of calls on a new store, every chain it holds is well formed, is not both
-- completed and failed, and has committed its first nodes in order; every batch has counters that
-- count its members and flags that agree with them; and every receipt stands under its own key, is
-- readable and complete, and belongs to the workflow that the store now holds under its identifier.
pub run-new-StoreInv : (calls : List Call) → StoreInv (run new_memory_store calls)
run-new-StoreInv calls = run-StoreInv new_memory_store calls new_memory_store-StoreInv
