-- ===== src/Workflow/Tests.antt =====
-- Runs of the workflow store on a chain of two nodes and a batch of two members.
use queue.Prelude.{◌≡◌, ◌↔◌, ◌⊎◌, ◌≢◌, refl, true, false, List, [], ◌∷◌, some, ok}
use queue.Prelude.Int.{pos}
use queue.Workflow.Types.{
  JobOptions, StoredJob, ChainRecord, ChainState, BatchRecord, succeeded, failed, node_missing,
}
use queue.Workflow.Validate.{validate_chain_record, validate_batch_record, node_ids, job_ids}
use queue.Workflow.Validate.Exact.{
  IsIdentifying, validate_chain_record-exact, validate_batch_record-exact,
}
use queue.Workflow.Chain.{
  validate_chain_state, chain_node_success_disposition, chain_node_advance_disposition,
  chain_node_failure_disposition,
}
use queue.Workflow.Chain.State.{IsWellFormed, validate_chain_state-exact}
use queue.Workflow.Chain.Agreement.{Refused, Accepted, dispositions_agree}
use queue.Workflow.Receipt.{TransitionClaim}
use queue.Workflow.Memory.Store.{MemoryStore, new_memory_store}
use queue.Workflow.Memory.Calls.{
  perform, Call, creates_chain, advances, fails_node, creates_batch, starts, settles, invokes,
  prunes, run, run-new-StoreInv,
}
use queue.Workflow.Memory.Chains.{create_chain, advance_chain_outcome, fail_chain_outcome}
use queue.Workflow.Memory.Errors.{failure_of, error-perform}
use queue.Workflow.Memory.Once.{Claiming, succeeding, Claiming-once}
use queue.Workflow.Memory.Invariant.{StoreInv}

abbrev plain : JobOptions
plain = record {
  queue_name = "default";
  delay = pos 0;
  timeout = pos 0;
  retry = pos 3;
  backoff = pos 0;
  unique_for = pos 0;
}

abbrev send : StoredJob
send = record { type = "send"; payload = 1 ∷ 2 ∷ []; options = plain }

abbrev two_nodes : ChainRecord
two_nodes = record {
  chain_id = "c";
  dispatch_id = "d";
  queue_name = "default";
  nodes = record { node_id = "a"; job = send } ∷ record { node_id = "b"; job = send } ∷ [];
  created_at = 5;
}

abbrev two_members : BatchRecord
two_members = record {
  batch_id = "k";
  dispatch_id = "d";
  name = "import";
  queue_name = "default";
  allow_failed = true;
  jobs = record { job_id = "x"; job = send } ∷ record { job_id = "y"; job = send } ∷ [];
  created_at = 5;
}

abbrev first_done : ChainState
first_done = record {
  chain_id = "c";
  dispatch_id = "d";
  queue_name = "default";
  nodes = two_nodes.nodes;
  next_index = pos 1;
  completed = false;
  failed = false;
  failure = "";
  created_at = 5;
  updated_at = 9;
}

abbrev delivery : TransitionClaim
delivery = record {
  delivery_id = "g1";
  attempt = pos 0;
  dispatch_id = "d";
  job_id = "j";
  job_fingerprint = "f";
}

abbrev script : List Call
script =
    creates_chain two_nodes 6
    ∷ advances "c" "a" delivery 7 8
    ∷ fails_node "c" "b" (some "boom") delivery 9 10
    ∷ creates_batch two_members 11
    ∷ starts "k" "x" 12
    ∷ settles "k" "x" failed delivery 13 14
    ∷ settles "k" "y" succeeded delivery 15 16
    ∷ invokes "c:catch" 17
    ∷ prunes 10
    ∷ []

validate_chain_record-exact_example : (validate_chain_record two_nodes ≡ ok tt) ↔ (
    (two_nodes.chain_id ≢ "") × (two_nodes.nodes ≢ []) × IsIdentifying (node_ids two_nodes.nodes))
validate_chain_record-exact_example = validate_chain_record-exact two_nodes

validate_batch_record-exact_example : (validate_batch_record two_members ≡ ok tt) ↔ (
    (two_members.batch_id ≢ "")
    × (two_members.jobs ≢ [])
    × IsIdentifying (job_ids two_members.jobs))
validate_batch_record-exact_example = validate_batch_record-exact two_members

validate_chain_state-exact_example :
    (validate_chain_state first_done ≡ ok tt) ↔ IsWellFormed first_done
validate_chain_state-exact_example = validate_chain_state-exact first_done

first_done_valid : validate_chain_state first_done ≡ ok tt
unfolding validate_chain_state validate_chain_record
first_done_valid = refl

dispositions_agree_example : Refused first_done "a" ⊎ Accepted first_done "a"
dispositions_agree_example = dispositions_agree first_done "a" first_done_valid

run-new-StoreInv_example : StoreInv (run new_memory_store script)
run-new-StoreInv_example = run-new-StoreInv script

-- What the calls of `after_a` compute with.
abbrev after_a : MemoryStore
unfolding run new_memory_store create_chain validate_chain_record advance_chain_outcome
    fail_chain_outcome chain_node_success_disposition chain_node_advance_disposition
    chain_node_failure_disposition validate_chain_state
after_a = run new_memory_store (creates_chain two_nodes 6 ∷ advances "c" "a" delivery 7 8 ∷ [])

error-perform_example : perform after_a (advances "c" "z" delivery 20 21) ≡ after_a
unfolding queue.Workflow.Receipt.is_valid after_a failure_of run new_memory_store create_chain
    validate_chain_record advance_chain_outcome chain_node_success_disposition
    chain_node_advance_disposition validate_chain_state
error-perform_example =
    error-perform after_a (advances "c" "z" delivery 20 21) (node_missing "c" "z") refl

-- The first delivery of node a, after the chain was created.
created_store : MemoryStore
unfolding run new_memory_store create_chain validate_chain_record
created_store = run new_memory_store (creates_chain two_nodes 6 ∷ [])

advances_a :
    Claiming created_store "c" "a" (advance_chain_outcome created_store "c" "a" delivery 7 8).1
unfolding created_store run new_memory_store create_chain validate_chain_record
    advance_chain_outcome fail_chain_outcome chain_node_success_disposition
    chain_node_advance_disposition chain_node_failure_disposition validate_chain_state
advances_a = succeeding delivery 7 8 _ refl refl

Claiming-once_example :
    ¬ Claiming
      (run
        (advance_chain_outcome created_store "c" "a" delivery 7 8).1
        (advances "c" "b" delivery 9 10 ∷ []))
      "c"
      "a"
      new_memory_store
Claiming-once_example =
    Claiming-once created_store (advance_chain_outcome created_store "c" "a" delivery 7 8).1
      new_memory_store "c" "a" (advances "c" "b" delivery 9 10 ∷ []) advances_a (tt, tt)
