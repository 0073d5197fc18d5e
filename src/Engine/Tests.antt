-- ===== src/Engine/Tests.antt =====
-- Runs of the engine on a chain of two nodes, with a queue that accepts every delivery.
use queue.Prelude.{
  ◌↔◌, ◌==◌, eqb, if◌then◌else◌, ◌≡◌, refl, true, false, List, [], ◌∷◌, none, some, ok, inr,
}
use queue.Prelude.Int.{pos}
use queue.Delivery.Failure.{leaf}
use queue.Delivery.Settlement.{new_settlement}
use queue.Workflow.Types.{JobOptions, StoredJob, ChainState, BatchRecord, BatchState, not_found}
use queue.Workflow.Memory.Store.{MemoryStore, new_memory_store}
use queue.Workflow.Memory.Chains.{advance_chain_outcome}
use queue.Workflow.Memory.Batches.{create_batch, get_batch}
use queue.Workflow.Validate.{validate_batch_record}
use queue.Workflow.Memory.Calls.{creates_batch, run, run-new-StoreInv}
use queue.Workflow.Memory.Callbacks.{IsClaimed}
use queue.Workflow.Memory.Invariant.{StoreInv, new_memory_store-StoreInv}
use queue.Engine.Types.{Envelope, StoredJobOutcome, returned, batch_job_delivery_type}
use queue.Engine.World.{World, pure, ◌>>=◌, tick}
use queue.Engine.World.Keeps.{Keeps-pure}
use queue.Engine.Runtime.{Runtime, on_store, now}
use queue.Engine.Outside.{KeptOutside}
use queue.Engine.Dispatch.{ApplicationJob, envelope_of}
use queue.Engine.Builders.{ChainBuilder}
use queue.Engine.Invariant.Calls.{
  EngineCall, dispatches_chain, delivers_chain_node, PruneKeeps, run_calls, run_calls-StoreInv,
}
use queue.Engine.Chain.{advance_chain_node, advance_node, run_chain_node}
use queue.Engine.Execute.{execute_stored_job_attempt}
use queue.Delivery.Attempt.{classify_attempt}
use queue.Engine.Transition.{Stays, Transits, run_chain_node-Transits}
use queue.Engine.Callback.{already_invoked, finished, callback_not_ready}
use queue.Engine.BatchRecovery.{validate_recovered_batch_state}
use queue.Engine.Refusals.{IsRedelivered, refused_advance, refused-IsRedelivered}
use queue.Engine.Accepts.{validate_recovered_batch_state-accepts}
use queue.Engine.Protocol.{logical, resolve_delivery, Resolves, resolve_delivery-exact}
use queue.Engine.ChainRecovery.{stored_jobs_equal}
use queue.Engine.SameJob.{stored_jobs_equal-exact}
use queue.Engine.Once.{at_store}
use queue.Engine.Once.Kinds.{
  runs_batch_catch, run_callback, is_ready, claim_of, same_batch_catch, run_callback-once,
}

abbrev plain : JobOptions
plain = record {
  queue_name = "";
  delay = pos 0;
  timeout = pos 0;
  retry = pos 3;
  backoff = pos 0;
  unique_for = pos 0;
}

abbrev send : StoredJob
send = record { type = "send"; payload = 1 ∷ 2 ∷ []; options = plain }

-- Jobs of the type "send" succeed, and no other type has a handler.
abbrev quiet : Runtime
quiet = record {
  clock = λ n. n;
  entropy = λ n. if eqb n 0 then "zero" else if eqb n 3 then "three" else "other";
  sha256 = λ n f. "hash";
  sha1 = λ t p. "key";
  store_error_text = λ e. "store error";
  quote = λ t. t;
  marshal = λ env. ok [];
  bus_dispatch = λ t p o. pure none;
  bus_dispatch_direct = none;
  handlers = λ t. if t == "send" then some 0 else none;
  handle = λ h jc. pure none;
  middlewares = [];
  handle_middleware = λ m jc next. next;
  call_chain = λ c s e. pure (returned none);
  call_batch = λ c s e. pure (returned none);
  others = pure tt;
  ephemeral_callbacks_disabled = false;
}

module _ (Q : MemoryStore → Type 0) where
  quiet-KeptOutside : KeptOutside Q quiet
  quiet-KeptOutside = record {
    others = Keeps-pure tt;
    handle = λ h jc. Keeps-pure none;
    handle_middleware = λ m jc next h. h;
    bus_dispatch = λ t p o. Keeps-pure none;
    bus_dispatch_direct = λ send e. cc;
    call_chain = λ c s e. Keeps-pure (returned none);
    call_batch = λ c s e. Keeps-pure (returned none);
  }

abbrev start : World
start = record {
  store = new_memory_store;
  chain_callbacks = λ c. none;
  batch_callbacks = λ c. none;
  settlement = new_settlement;
  observed = [];
  chain_result = none;
  readings = 0;
}

abbrev sends : ApplicationJob
sends = record { type = "send"; payload = ok (1 ∷ 2 ∷ []); options = plain }

abbrev two_nodes : ChainBuilder
two_nodes = record { jobs = sends ∷ sends ∷ []; queue_name = "mail"; catch = some 1; done = some 2 }

-- The delivery of the first of them, whose identifier has the third reading.
abbrev first_node : Envelope
first_node = record (envelope_of "chain_node" "dsp_other" "chn_zero" "" "job_other" send) {
  node_id = "chn_zero_n_other";
}

abbrev calls : List EngineCall
calls = dispatches_chain none two_nodes ∷ delivers_chain_node none (ok first_node) ∷ []

run_calls-StoreInv_example : StoreInv (run_calls quiet calls start).1.store
run_calls-StoreInv_example =
    run_calls-StoreInv quiet (quiet-KeptOutside StoreInv) calls start new_memory_store-StoreInv

-- A delivery of a chain that the store does not have.
abbrev outcome : StoredJobOutcome
outcome = record {
  env = first_node;
  attempt = record { number = pos 0; max_retry = pos 3 };
  started = 1;
  finished = 2;
  failure = none;
}

abbrev two_members : BatchRecord
two_members = record {
  batch_id = "k";
  dispatch_id = "d";
  name = "import";
  queue_name = "default";
  allow_failed = true;
  jobs = record { job_id = "x"; job = send } ∷ record { job_id = "y"; job = send } ∷ [];
  created_at = 5;
}

abbrev chain_state : ChainState
chain_state = record {
  chain_id = "c";
  dispatch_id = "d";
  queue_name = "";
  nodes = [];
  next_index = pos 0;
  completed = false;
  failed = true;
  failure = "";
  created_at = 1;
  updated_at = 1;
}

refused-IsRedelivered_example :
    IsRedelivered
      (advance_node quiet none first_node outcome start)
      (advance_chain_node quiet none first_node outcome start).1
unfolding ◌>>=◌ on_store advance_chain_outcome pure now tick new_memory_store advance_chain_node
refused-IsRedelivered_example =
    refused-IsRedelivered quiet none first_node outcome start (refused_advance not_found refl)

abbrev batched : MemoryStore
batched = run new_memory_store (creates_batch two_members 6 ∷ [])

abbrev member : Envelope
member = envelope_of "batch_job" "d" "" "k" "x" send

abbrev batch_state : BatchState
batch_state = record {
  batch_id = "k";
  dispatch_id = "d";
  name = "import";
  queue_name = "default";
  allow_failed = true;
  total = 2;
  pending = pos 2;
  processed = 0;
  failed = 0;
  cancelled = false;
  completed = false;
  created_at = 5;
  updated_at = 6;
}

validate_recovered_batch_state-accepts_example :
    validate_recovered_batch_state quiet member batch_state ≡ none
unfolding get_batch create_batch validate_batch_record envelope_of run
validate_recovered_batch_state-accepts_example =
    validate_recovered_batch_state-accepts quiet batched
      (run-new-StoreInv (creates_batch two_members 6 ∷ [])) member batch_state refl (inr refl)

-- The batch failed, and has moved on when its failure callback is delivered again.
abbrev failed_batch : BatchState
failed_batch = record batch_state { processed = 1; pending = pos 1; failed = 1 }

abbrev later_batch : BatchState
later_batch = record batch_state { processed = 2; pending = pos 0; failed = 2; completed = true }

run_callback-once_example :
    let w =
      (run_calls quiet calls
        (run_callback quiet none member 0
          (runs_batch_catch (some (leaf "smtp")) failed_batch)
          start).1).1 in
    run_callback quiet none first_node 9 (runs_batch_catch none later_batch) w ≡ (
      if is_ready (runs_batch_catch none later_batch)
      then ((9, already_invoked), at_store quiet w)
      else ((9, finished (some callback_not_ready)), w))
unfolding is_ready
run_callback-once_example =
    run_callback-once quiet none member 0 (runs_batch_catch (some (leaf "smtp")) failed_batch) refl
      (quiet-KeptOutside
        (IsClaimed (claim_of (runs_batch_catch (some (leaf "smtp")) failed_batch))))
      calls (unfold PruneKeeps in (tt, (tt, tt))) start none first_node 9
      (runs_batch_catch none later_batch)
      (same_batch_catch (some (leaf "smtp")) none failed_batch later_batch refl)

resolve_delivery-exact_example :
    Resolves
      (λ p. ok member)
      batch_job_delivery_type
      (1 ∷ [])
      (resolve_delivery (λ p. ok member) batch_job_delivery_type (1 ∷ []))
resolve_delivery-exact_example =
    resolve_delivery-exact (λ p. ok member) batch_job_delivery_type (1 ∷ [])

member_resolved : resolve_delivery (λ p. ok member) batch_job_delivery_type (1 ∷ []) ≡ record {
  job_type = "send";
  payload = 1 ∷ 2 ∷ [];
  dispatch_id = "d";
  job_id = "x";
  chain_id = "";
  batch_id = "k";
}
unfolding envelope_of resolve_delivery logical
member_resolved = refl

stored_jobs_equal-exact_example : (stored_jobs_equal send send ≡ true) ↔ (send ≡ send)
stored_jobs_equal-exact_example = stored_jobs_equal-exact send send

-- The first node of a chain that was dispatched is delivered.
abbrev dispatched : World
dispatched = (run_calls quiet (dispatches_chain none two_nodes ∷ []) start).1

run_chain_node-Transits_example :
    let o = (execute_stored_job_attempt quiet none first_node dispatched).0 in
    Transits quiet none first_node o
      (classify_attempt o.attempt o.failure)
      dispatched.store
      (run_chain_node quiet none first_node dispatched).1.store
run_chain_node-Transits_example =
    run_chain_node-Transits quiet (λ m. quiet-KeptOutside (Stays m)) none first_node dispatched
