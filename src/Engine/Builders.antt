-- ===== src/Engine/Builders.antt =====
-- The builders' `Dispatch` of internal/workflow/chain.go and batch.go, over the built-in store.
use Prim.Native.String.{◌++◌ as concat}
use queue.Prelude.{
  ℕ, Bool, true, false, not, ◌&&◌, ◌||◌, String, List, [], ◌∷◌, Option, none, some, ◌==◌, eqb,
  Result, ok, err, if◌then◌else◌,
}
use queue.Prelude.Int.{pos}
use queue.Prelude.Equality.{string_eq}
use queue.Prelude.Table.{update}
use queue.Delivery.Failure.{Failure, leaf, joined, error_text, is_uncommitted}
use queue.Delivery.Context.{Context}
use queue.Workflow.Types.{StoredJob, ChainNode, BatchJob, BatchState}
use queue.Workflow.Memory.Chains.{create_chain, fail_chain_node, get_chain}
use queue.Workflow.Memory.Batches.{create_batch, cancel_batch, get_batch}
use queue.Engine.Types.{
  Envelope, chain_node_delivery_type, batch_job_delivery_type, event_chain_started,
  event_chain_failed, event_batch_started, event_batch_failed, event_batch_cancelled,
}
use queue.Engine.World.{Action, pure, ◌>>=◌, ◌>>◌, on_option, on_result, modify}
use queue.Engine.Runtime.{
  Runtime, on_store, now, new_id, store_failure, uncommitted_mutation_error, dispatch_envelope,
  accepted_dispatch_execution_error,
}
use queue.Engine.Execute.{emit_new}
use queue.Engine.Closures.{
  is_some, cleanup_chain_callbacks, prepare_batch_terminal_callbacks, cleanup_batch_callbacks,
}
use queue.Engine.Callback.{invoke_callback_inline}
use queue.Engine.Dispatch.{ApplicationJob, to_stored_job, envelope_of}

-- The builders, with their closures by name.
pub record ChainBuilder : Type 0 where
  pub jobs : List ApplicationJob
  pub queue_name : String
  pub catch : Option ℕ
  pub done : Option ℕ

pub record BatchBuilder : Type 0 where
  pub jobs : List ApplicationJob
  pub name : String
  pub queue_name : String
  pub allow_failed : Bool
  pub progress : Option ℕ
  pub then_ : Option ℕ
  pub catch : Option ℕ
  pub finally : Option ℕ

-- `errors.Join` of two errors.
unfoldable pub join : Option Failure → Option Failure → Option Failure
unfolding error_text
join none second = second
join (some first) none = some first
join (some first) (some second) =
    some (joined (concat (error_text first) (concat "\n" (error_text second))) first second)

-- The builder's queue is for jobs that name none.
unfoldable pub on_default_queue : String → StoredJob → StoredJob
on_default_queue queue_name job =
    if not (queue_name == "") && job.options.queue_name == ""
    then record job { options = record job.options { queue_name = queue_name } }
    else job

unfoldable pub node_id : Runtime → String → Action String
node_id r chain_id = do id ← new_id r "n"; pure (concat chain_id (concat "_" id))

-- The loops over the builder's jobs.
unfoldable pub chain_nodes :
    Runtime → String → String → List ApplicationJob → Action (Result Failure (List ChainNode))
unfolding to_stored_job on_default_queue
chain_nodes r chain_id queue_name [] = pure (ok [])
chain_nodes r chain_id queue_name (job ∷ jobs) =
    on_result (to_stored_job job) (λ e. pure (err e))
      (λ stored. do
        id ← node_id r chain_id
        rest ← chain_nodes r chain_id queue_name jobs
        on_result rest (λ e. pure (err e))
            (λ nodes.
              pure
                (ok (record { node_id = id; job = on_default_queue queue_name stored } ∷ nodes))))

unfoldable pub batch_jobs :
    Runtime → String → List ApplicationJob → Action (Result Failure (List BatchJob))
unfolding to_stored_job on_default_queue
batch_jobs r queue_name [] = pure (ok [])
batch_jobs r queue_name (job ∷ jobs) =
    on_result (to_stored_job job) (λ e. pure (err e))
      (λ stored. do
        id ← new_id r "job"
        rest ← batch_jobs r queue_name jobs
        on_result rest (λ e. pure (err e))
            (λ members.
              pure
                (ok (record { job_id = id; job = on_default_queue queue_name stored } ∷ members))))

unfoldable pub has_chain_closures : Runtime → ChainBuilder → Bool
has_chain_closures r b = not r.ephemeral_callbacks_disabled && (is_some b.catch || is_some b.done)

unfoldable pub has_batch_closures : Runtime → BatchBuilder → Bool
has_batch_closures r b =
    not r.ephemeral_callbacks_disabled
    && (is_some b.progress || is_some b.then_ || is_some b.catch || is_some b.finally)

unfoldable pub keep_chain_closures : Runtime → ChainBuilder → String → Action (Unit {0})
keep_chain_closures r b id =
    if has_chain_closures r b
    then modify (λ w. record w {
      chain_callbacks = update w.chain_callbacks id (record { catch = b.catch; finally = b.done });
    })
    else pure tt

unfoldable pub keep_batch_closures : Runtime → BatchBuilder → String → Action (Unit {0})
keep_batch_closures r b id =
    if has_batch_closures r b
    then modify (λ w. record w {
      batch_callbacks =
          update w.batch_callbacks id (record {
            progress = b.progress;
            then_ = b.then_;
            catch = b.catch;
            finally = b.finally;
          });
    })
    else pure tt

-- `envelope{DispatchID: …, Job: …}`, which only names the workflow for its callbacks and facts.
unfoldable pub base_of : String → String → String → String → StoredJob → Envelope
unfolding envelope_of
base_of dispatch_id chain_id batch_id job_id job =
    record (envelope_of "" dispatch_id chain_id batch_id job_id job) { schema_version = pos 0 }

-- The queue rejected the chain's first delivery.
unfoldable pub reject_chain :
    Runtime → Option Context → Envelope → Failure → Action (Option Failure)
unfolding base_of error_text join
reject_chain r ctx env e = do
  time ← now r
  later ← now r
  failed ←
      on_store r (λ m. fail_chain_node m env.chain_id env.node_id (some (error_text e)) time later)
  on_result failed
      (λ f. pure (elim (join (some e) (some (store_failure r f))) [
        | none ↦ none
        | some both ↦ uncommitted_mutation_error "fail chain after initial dispatch rejection" both
      ]))
      (λ found. if not found.1 then pure (some e) else do
        let base = base_of env.dispatch_id env.chain_id "" "" env.job
        emit_new r ctx event_chain_failed base (some e)
        read ← on_store r (λ m. (get_chain m env.chain_id, m))
        on_result read
            (λ f. pure (
              join (some e) (
                uncommitted_mutation_error "read chain after initial dispatch rejection"
                  (store_failure r f))))
            (λ state. do
              catch ← invoke_callback_inline r ctx base "chain_catch" (some e)
              finally ← invoke_callback_inline r ctx base "chain_finally" none
              cleanup_chain_callbacks env.chain_id
              pure (join (join (some e) catch) finally)))

-- From the recorded chain on: its closures, the fact, and the first delivery. Validation has refused a
-- chain without nodes.
unfoldable pub start_chain :
    Runtime
    → Option Context
    → ChainBuilder
    → String
    → String
    → List ChainNode
    → Action (Option Failure)
unfolding envelope_of base_of
start_chain r ctx b chain_id dispatch_id [] = pure (some (leaf "index out of range"))
start_chain r ctx b chain_id dispatch_id (first ∷ nodes) = do
  keep_chain_closures r b chain_id
  emit_new r ctx event_chain_started (base_of dispatch_id chain_id "" "" first.job) none
  job_id ← new_id r "job"
  let env = record (envelope_of "chain_node" dispatch_id chain_id "" job_id first.job) {
    node_id = first.node_id;
  }
  failure ← dispatch_envelope r chain_node_delivery_type env
  on_option failure (pure none) (λ e.
      on_option (accepted_dispatch_execution_error (some e)) (reject_chain r ctx env e)
        (λ executed. pure (some executed)))

-- A new recorder for the deliveries that run inline, and its first error where the dispatch has none.
unfoldable pub with_synchronous_chain_result :
    Action (String × Option Failure) → Action (String × Option Failure)
with_synchronous_chain_result body w =
    let ((id, failure), w') = body (record w { chain_result = some none }) in
    let recorded = (elim w'.chain_result as (λ _. Option Failure) [ none ↦ none | some e ↦ e ]) in
    (
      (id, (elim failure as (λ _. Option Failure) [ some e ↦ some e | none ↦ recorded ])),
      record w' { chain_result = w.chain_result },
    )

-- `len(b.jobs) == 0`
unfoldable pub is_empty : List ApplicationJob → Bool
is_empty [] = true
is_empty (job ∷ jobs) = false

-- `chainBuilder.Dispatch`: the chain's identifier and the error.
unfoldable pub dispatch_chain :
    Runtime → Option Context → ChainBuilder → Action (String × Option Failure)
dispatch_chain r ctx b =
    if is_empty b.jobs
    then pure ("", some (leaf "chain requires at least one job"))
    else with_synchronous_chain_result (do
      chain_id ← new_id r "chn"
      dispatch_id ← new_id r "dsp"
      built ← chain_nodes r chain_id b.queue_name b.jobs
      on_result built (λ e. pure ("", some e))
          (λ nodes. do
            time ← now r
            later ← now r
            created ← on_store r (λ m.
                create_chain m
                  (record {
                    chain_id = chain_id;
                    dispatch_id = dispatch_id;
                    queue_name = b.queue_name;
                    nodes = nodes;
                    created_at = time;
                  })
                  later)
            on_result created (λ e. pure ("", some (store_failure r e)))
                (λ _. do
                  failure ← start_chain r ctx b chain_id dispatch_id nodes
                  pure (chain_id, failure))))

-- The queue rejected a member's delivery, and the batch has no result yet.
unfoldable pub cancel_rejected :
    Runtime → Option Context → Envelope → Failure → Action (Option Failure)
unfolding base_of join
cancel_rejected r ctx env e = do
  time ← now r
  cancelled ← on_store r (λ m. cancel_batch m env.batch_id time)
  on_result cancelled
      (λ f. pure (elim (join (some e) (some (store_failure r f))) [
        | none ↦ none
        | some both ↦
            uncommitted_mutation_error "cancel batch after initial dispatch rejection" both
      ]))
      (λ _. do
        emit_new r ctx event_batch_failed env (some e)
        emit_new r ctx event_batch_cancelled env none
        let base = base_of env.dispatch_id "" env.batch_id "" env.job
        read ← on_store r (λ m. (get_batch m env.batch_id, m))
        on_result read
            (λ f. pure (
              join (some e) (
                uncommitted_mutation_error "read batch after initial dispatch rejection"
                  (store_failure r f))))
            (λ state. do
              prepare_batch_terminal_callbacks env.batch_id false (not (eqb state.failed 0))
              catch ← invoke_callback_inline r ctx base "batch_catch" (some e)
              finally ← invoke_callback_inline r ctx base "batch_finally" none
              cleanup_batch_callbacks env.batch_id
              pure (join (join (some e) catch) finally)))

unfoldable pub has_result : BatchState → Bool
has_result state = state.completed || not (eqb state.processed 0) || not (eqb state.failed 0)

unfoldable pub reject_member :
    Runtime → Option Context → Envelope → Failure → Action (Option Failure)
unfolding has_result
reject_member r ctx env e = do
  read ← on_store r (λ m. (get_batch m env.batch_id, m))
  on_result read (λ f. cancel_rejected r ctx env e)
      (λ state. if has_result state then pure (some e) else cancel_rejected r ctx env e)

-- The loop over the members, with the first error of a member that ran inline.
unfoldable pub dispatch_members :
    Runtime
    → Option Context
    → Bool
    → String
    → String
    → Option Failure
    → List BatchJob
    → Action (Option Failure)
unfolding envelope_of is_uncommitted
dispatch_members r ctx allow_failed batch_id dispatch_id first [] = pure first
dispatch_members r ctx allow_failed batch_id dispatch_id first (job ∷ jobs) =
    let env = envelope_of "batch_job" dispatch_id "" batch_id job.job_id job.job in
    do
      failure ← dispatch_envelope r batch_job_delivery_type env
      on_option failure (dispatch_members r ctx allow_failed batch_id dispatch_id first jobs) (λ e.
          on_option (accepted_dispatch_execution_error (some e)) (reject_member r ctx env e)
            (λ executed.
              if allow_failed && not (is_uncommitted (some executed))
              then dispatch_members r ctx allow_failed batch_id dispatch_id
                  (some (elim first [ none ↦ executed | some f ↦ f ])) jobs
              else pure (some executed)))

-- From the recorded batch on.
unfoldable pub start_batch :
    Runtime
    → Option Context
    → BatchBuilder
    → String
    → String
    → List BatchJob
    → Action (Option Failure)
unfolding base_of
start_batch r ctx b batch_id dispatch_id [] = pure (some (leaf "index out of range"))
start_batch r ctx b batch_id dispatch_id (first ∷ jobs) = do
  keep_batch_closures r b batch_id
  emit_new r ctx event_batch_started (base_of dispatch_id "" batch_id "" first.job) none
  dispatch_members r ctx b.allow_failed batch_id dispatch_id none (first ∷ jobs)

-- `batchBuilder.Dispatch`: the batch's identifier and the error.
unfoldable pub dispatch_batch :
    Runtime → Option Context → BatchBuilder → Action (String × Option Failure)
dispatch_batch r ctx b =
    if is_empty b.jobs then pure ("", some (leaf "batch requires at least one job")) else (do
      batch_id ← new_id r "bat"
      dispatch_id ← new_id r "dsp"
      built ← batch_jobs r b.queue_name b.jobs
      on_result built (λ e. pure ("", some e))
          (λ members. do
            time ← now r
            later ← now r
            created ← on_store r (λ m.
                create_batch m
                  (record {
                    batch_id = batch_id;
                    dispatch_id = dispatch_id;
                    name = b.name;
                    queue_name = b.queue_name;
                    allow_failed = b.allow_failed;
                    jobs = members;
                    created_at = time;
                  })
                  later)
            on_result created (λ e. pure ("", some (store_failure r e)))
                (λ _. do
                  failure ← start_batch r ctx b batch_id dispatch_id members
                  pure (batch_id, failure))))
