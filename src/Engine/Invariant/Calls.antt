-- ===== src/Engine/Invariant/Calls.antt =====
-- The engine's calls, in any order: the dispatches of an application, the deliveries of the bus, and a
-- pruning.
use queue.Prelude.{All, ℕ, Option, none, String, List, [], ◌∷◌, Result}
use queue.Delivery.Failure.{Failure}
use queue.Delivery.Context.{Context}
use queue.Workflow.Types.{StoredJob}
use queue.Workflow.Memory.Store.{MemoryStore}
use queue.Workflow.Memory.Retention.{prune}
use queue.Workflow.Memory.Invariant.{StoreInv}
use queue.Workflow.Memory.Invariant.OfChains.{
  create_chain-StoreInv, advance-StoreInv, fail-StoreInv,
}
use queue.Workflow.Memory.Invariant.OfBatches.{
  create_batch-StoreInv, cancel_batch-StoreInv, start-StoreInv, settle-StoreInv,
}
use queue.Workflow.Memory.Invariant.OfPrune.{callback-StoreInv, prune-StoreInv}
use queue.Engine.Types.{Envelope}
use queue.Engine.World.{World, Action, pure, ◌>>=◌, ◌>>◌}
use queue.Engine.World.Keeps.{Keeps, Keeps-pure, Keeps-bind, Keeps-then, keeps_rules}
use queue.Engine.Runtime.{Runtime, on_store}
use queue.Engine.Outside.{OnStore, KeptOutside, Keeps-on_store, Keeps-execute_stored_job}
use queue.Engine.Execute.{handle_internal_job, handle_direct_job}
use queue.Engine.Dispatch.{ApplicationJob, dispatch_job, dispatch_direct}
use queue.Engine.Chain.{handle_internal_chain_node}
use queue.Engine.Batch.{handle_internal_batch_job}
use queue.Engine.Callback.{handle_internal_callback}
use queue.Engine.Builders.{ChainBuilder, BatchBuilder, dispatch_chain, dispatch_batch}
use queue.Engine.Invariant.{KeptByDeliveries}
use queue.Engine.Invariant.OfChains.{Keeps-handle_internal_chain_node}
use queue.Engine.Invariant.OfBatches.{Keeps-handle_internal_batch_job}
use queue.Engine.Invariant.OfCallbacks.{Keeps-handle_internal_callback}
use queue.Engine.Invariant.OfDispatch.{
  KeptByDispatch, Keeps-dispatch_job, Keeps-dispatch_direct, Keeps-dispatch_chain,
  Keeps-dispatch_batch,
}

-- A dispatch, or a delivery with what `Bind` gives.
pub data EngineCall : Type 0 where
  dispatches : Option Context → ApplicationJob → EngineCall
  dispatches_directly : Option Context → StoredJob → EngineCall
  dispatches_chain : Option Context → ChainBuilder → EngineCall
  dispatches_batch : Option Context → BatchBuilder → EngineCall
  delivers_job : Option Context → Result Failure Envelope → EngineCall
  delivers_directly : Option Context → String → List ℕ → EngineCall
  delivers_chain_node : Option Context → Result Failure Envelope → EngineCall
  delivers_batch_job : Option Context → Result Failure Envelope → EngineCall
  delivers_callback : Option Context → Result Failure Envelope → EngineCall
  prunes : ℕ → EngineCall

-- The handlers are those that `NewWithStore` and `Register` give the bus.
unfoldable pub run_call : Runtime → EngineCall → Action (Option Failure)
run_call r (dispatches ctx job) = do result ← dispatch_job r ctx job; pure result.1
run_call r (dispatches_directly ctx job) = do result ← dispatch_direct r ctx job; pure result.1
run_call r (dispatches_chain ctx b) = do result ← dispatch_chain r ctx b; pure result.1
run_call r (dispatches_batch ctx b) = do result ← dispatch_batch r ctx b; pure result.1
run_call r (delivers_job ctx job) = handle_internal_job r ctx job
run_call r (delivers_directly ctx type payload) = handle_direct_job r ctx type payload
run_call r (delivers_chain_node ctx job) = handle_internal_chain_node r ctx job
run_call r (delivers_batch_job ctx job) = handle_internal_batch_job r ctx job
run_call r (delivers_callback ctx job) = handle_internal_callback r ctx job
run_call r (prunes before) = do on_store r (λ m. (tt, prune m before)); pure none

-- What a pruning has to keep, if the call is one.
unfoldable pub PruneKeeps : (MemoryStore → Type 0) → EngineCall → Type 0
PruneKeeps Q (prunes before) = (m : MemoryStore) → Q m → Q (prune m before)
PruneKeeps Q _ = Unit {0}

-- Calls, one after another; what runs between the store's calls of one of them is `others`.
unfoldable pub run_calls : Runtime → List EngineCall → Action (Unit {0})
run_calls r [] = pure tt
run_calls r (c ∷ cs) = do run_call r c; run_calls r cs

module _ {Q : MemoryStore → Type 0} (r : Runtime) (kept : KeptOutside Q r)
    (calls : KeptByDeliveries Q) (creates : KeptByDispatch Q) where
  Keeps-run_call : (c : EngineCall) → PruneKeeps Q c → Keeps (OnStore Q) (run_call r c)
  unfolding run_call handle_internal_job handle_direct_job PruneKeeps
  Keeps-run_call (dispatches ctx job) pruned =
      Keeps-bind _ _ (Keeps-dispatch_job r kept calls creates ctx job) (λ result. Keeps-pure _)
  Keeps-run_call (dispatches_directly ctx job) pruned =
      Keeps-bind _ _ (Keeps-dispatch_direct r kept calls creates ctx job) (λ result. Keeps-pure _)
  Keeps-run_call (dispatches_chain ctx b) pruned =
      Keeps-bind _ _ (Keeps-dispatch_chain r kept calls creates ctx b) (λ result. Keeps-pure _)
  Keeps-run_call (dispatches_batch ctx b) pruned =
      Keeps-bind _ _ (Keeps-dispatch_batch r kept calls creates ctx b) (λ result. Keeps-pure _)
  Keeps-run_call (delivers_job ctx job) pruned =
      search (keeps_rules, Keeps-execute_stored_job r kept)
  Keeps-run_call (delivers_directly ctx type payload) pruned = Keeps-execute_stored_job r kept ctx _
  Keeps-run_call (delivers_chain_node ctx job) pruned =
      Keeps-handle_internal_chain_node r kept calls ctx job
  Keeps-run_call (delivers_batch_job ctx job) pruned =
      Keeps-handle_internal_batch_job r kept calls ctx job
  Keeps-run_call (delivers_callback ctx job) pruned =
      Keeps-handle_internal_callback r kept calls ctx job
  Keeps-run_call (prunes before) pruned =
      Keeps-then _ _ (Keeps-on_store r kept (λ m. (tt, prune m before)) pruned) (Keeps-pure none)

  -- Every property of the store that the store's methods and the code outside keep is an invariant of
  -- the engine.
  pub Keeps-run_calls :
      (cs : List EngineCall) → All (PruneKeeps Q) cs → Keeps (OnStore Q) (run_calls r cs)
  unfolding run_calls
  Keeps-run_calls [] _ = Keeps-pure tt
  Keeps-run_calls (c ∷ cs) (p, ps) = Keeps-then _ _ (Keeps-run_call c p) (Keeps-run_calls cs ps)

module _ (Q : MemoryStore → Type 0)
    (pruned : (before : ℕ) (m : MemoryStore) → Q m → Q (prune m before)) where
  prune_at : (call : EngineCall) → PruneKeeps Q call
  unfolding PruneKeeps
  prune_at (prunes before) = pruned before
  prune_at (dispatches ctx job) = tt
  prune_at (dispatches_directly ctx job) = tt
  prune_at (dispatches_chain ctx b) = tt
  prune_at (dispatches_batch ctx b) = tt
  prune_at (delivers_job ctx job) = tt
  prune_at (delivers_directly ctx type payload) = tt
  prune_at (delivers_chain_node ctx job) = tt
  prune_at (delivers_batch_job ctx job) = tt
  prune_at (delivers_callback ctx job) = tt

  pub every_prune : (cs : List EngineCall) → All (PruneKeeps Q) cs
  every_prune [] = tt
  every_prune (c ∷ cs) = (prune_at c, every_prune cs)

StoreInv-KeptByDeliveries : KeptByDeliveries StoreInv
StoreInv-KeptByDeliveries = record {
  advance = λ c n claim time later m inv. advance-StoreInv m inv c n claim time later;
  fail = λ c n cause claim time later m inv. fail-StoreInv m inv c n cause claim time later;
  start = λ id job time m inv. start-StoreInv m inv id job time;
  settle = λ id job kind claim time later m inv. settle-StoreInv m inv id job claim time later kind;
  invoke = λ key time m inv. callback-StoreInv m inv key time;
}

StoreInv-KeptByDispatch : KeptByDispatch StoreInv
StoreInv-KeptByDispatch = record {
  create_chain = λ rec time m inv. create_chain-StoreInv m inv rec time;
  create_batch = λ rec time m inv. create_batch-StoreInv m inv rec time;
  cancel = λ id time m inv. cancel_batch-StoreInv m inv id time;
}

-- Whatever the application dispatches, the bus delivers and a pruning removes, in any order, a store
-- that was well formed stays well formed, as long as the code that the engine calls and the code that
-- runs between its calls of the store keep it so.
pub run_calls-StoreInv :
    (r : Runtime) (kept : KeptOutside StoreInv r) (cs : List EngineCall) (w : World)
    → StoreInv w.store
    → StoreInv (run_calls r cs w).1.store
run_calls-StoreInv r kept cs w inv =
    let all =
      Keeps-run_calls r kept StoreInv-KeptByDeliveries StoreInv-KeptByDispatch cs
        (every_prune StoreInv (λ before m h. prune-StoreInv m h before) cs) in
    (all.at w (record { holds = inv })).holds
