-- ===== src/Engine/Invariant/OfDispatch.antt =====
-- A dispatch of a job, a chain or a batch keeps what the methods of the store keep.
use queue.Prelude.{refl, ◌==◌, ℕ, Bool, true, not, String, List, [], ◌∷◌, Option, none, some, ◌&&◌}
use queue.Delivery.Failure.{Failure, is_uncommitted, error_text}
use queue.Delivery.Context.{Context}
use queue.Workflow.Types.{StoredJob, ChainNode, ChainRecord, BatchJob, BatchRecord}
use queue.Workflow.Receipt.{no_claim}
use queue.Workflow.Memory.Store.{MemoryStore}
use queue.Workflow.Memory.Chains.{create_chain, fail_chain_node, get_chain}
use queue.Workflow.Memory.Batches.{create_batch, cancel_batch, get_batch}
use queue.Engine.Types.{Envelope, is_delivery_type}
use queue.Engine.World.{Action}
use queue.Engine.World.Keeps.{
  Keeps, Keeps-bind, Keeps-then, Keeps-pure, Keeps-if, Keeps-on_option, Keeps-on_result,
  keeps_rules,
}
use queue.Engine.Runtime.{Runtime}
use queue.Engine.Outside.{
  OnStore, KeptOutside, Keeps-on_store, Keeps-now, Keeps-new_id, Keeps-modify, Keeps-emit_new,
  Keeps-dispatch_envelope, Keeps-cleanup_chain_callbacks, Keeps-prepare_batch_terminal_callbacks,
  Keeps-cleanup_batch_callbacks,
}
use queue.Engine.Dispatch.{
  ApplicationJob, dispatch_direct_envelope, route, dispatch, dispatch_job, dispatch_direct,
}
use queue.Engine.Builders.{
  ChainBuilder, BatchBuilder, node_id, chain_nodes, batch_jobs, has_chain_closures,
  has_batch_closures, keep_chain_closures, keep_batch_closures, reject_chain, start_chain,
  with_synchronous_chain_result, dispatch_chain, is_empty, cancel_rejected, reject_member,
  has_result, dispatch_members, start_batch, dispatch_batch,
}
use queue.Engine.Invariant.{KeptByDeliveries, Keeps-read}
use queue.Engine.Invariant.OfCallbacks.{Keeps-invoke_callback_inline}

-- The methods that dispatches call keep the property.
pub record KeptByDispatch (Q : MemoryStore → Type 0) : Type 0 where
  pub create_chain :
      (rec : ChainRecord) (time : ℕ) (m : MemoryStore) → Q m → Q (create_chain m rec time).1
  pub create_batch :
      (rec : BatchRecord) (time : ℕ) (m : MemoryStore) → Q m → Q (create_batch m rec time).1
  pub cancel : (id : String) (time : ℕ) (m : MemoryStore) → Q m → Q (cancel_batch m id time).1

module _ {Q : MemoryStore → Type 0} (r : Runtime) (kept : KeptOutside Q r)
    (calls : KeptByDeliveries Q) (creates : KeptByDispatch Q) where
  Keeps-dispatch_direct_envelope :
      (env : Envelope) → Keeps (OnStore Q) (dispatch_direct_envelope r env)
  unfolding dispatch_direct_envelope
  Keeps-dispatch_direct_envelope env =
      Keeps-on_option r.bus_dispatch_direct _ _ (λ _. Keeps-dispatch_envelope r kept _ env)
        λ send found.
          Keeps-if (is_delivery_type env.job.type) _ _ (λ _. Keeps-dispatch_envelope r kept _ env)
            (λ _. kept.bus_dispatch_direct send found _ _ _ _)

  Keeps-route : (direct : Bool) (env : Envelope) → Keeps (OnStore Q) (route r direct env)
  unfolding route
  Keeps-route direct env =
      Keeps-if direct _ _ (λ _. Keeps-dispatch_direct_envelope env)
        (λ _. Keeps-dispatch_envelope r kept _ env)

  Keeps-dispatch :
      (ctx : Option Context) (job : StoredJob) (direct : Bool)
      → Keeps (OnStore Q) (dispatch r ctx job direct)
  unfolding dispatch
  Keeps-dispatch ctx job direct = Keeps-bind _ _ (Keeps-new_id r kept "dsp") λ id.
      Keeps-bind _ _ (Keeps-new_id r kept "job") λ job_id.
        Keeps-then _ _ (Keeps-emit_new r kept ctx _ _ none) (
          Keeps-bind _ _ (Keeps-route direct _)
            λ failure. search (keeps_rules, Keeps-emit_new r kept) depth 12)

  pub Keeps-dispatch_job :
      (ctx : Option Context) (job : ApplicationJob) → Keeps (OnStore Q) (dispatch_job r ctx job)
  unfolding dispatch_job
  Keeps-dispatch_job ctx job = search (keeps_rules, Keeps-dispatch)

  pub Keeps-dispatch_direct :
      (ctx : Option Context) (job : StoredJob) → Keeps (OnStore Q) (dispatch_direct r ctx job)
  unfolding dispatch_direct
  Keeps-dispatch_direct ctx job =
      Keeps-if (job.type == "") _ _ (λ _. Keeps-pure _) (λ _. Keeps-dispatch ctx job true)

  Keeps-chain_nodes :
      (id queue_name : String) (jobs : List ApplicationJob)
      → Keeps (OnStore Q) (chain_nodes r id queue_name jobs)
  unfolding chain_nodes node_id
  Keeps-chain_nodes id queue_name [] = Keeps-pure _
  Keeps-chain_nodes id queue_name (job ∷ jobs) =
      let rest = Keeps-chain_nodes id queue_name jobs in
      Keeps-on_result _ _ _ (λ e _. Keeps-pure _)
        λ stored _. Keeps-bind _ _ (Keeps-bind _ _ (Keeps-new_id r kept "n") λ n. Keeps-pure _) λ n.
          Keeps-bind _ _ rest
            λ built. Keeps-on_result built _ _ (λ e _. Keeps-pure _) (λ nodes _. Keeps-pure _)

  Keeps-batch_jobs :
      (queue_name : String) (jobs : List ApplicationJob)
      → Keeps (OnStore Q) (batch_jobs r queue_name jobs)
  unfolding batch_jobs
  Keeps-batch_jobs queue_name [] = Keeps-pure _
  Keeps-batch_jobs queue_name (job ∷ jobs) =
      let rest = Keeps-batch_jobs queue_name jobs in
      Keeps-on_result _ _ _ (λ e _. Keeps-pure _)
        λ stored _. Keeps-bind _ _ (Keeps-new_id r kept "job") λ n.
          Keeps-bind _ _ rest
            λ built. Keeps-on_result built _ _ (λ e _. Keeps-pure _) (λ members _. Keeps-pure _)

  Keeps-keep_chain_closures :
      (b : ChainBuilder) (id : String) → Keeps (OnStore Q) (keep_chain_closures r b id)
  unfolding keep_chain_closures
  Keeps-keep_chain_closures b id =
      Keeps-if (has_chain_closures r b) _ _ (λ _. Keeps-modify _ (λ w. refl)) (λ _. Keeps-pure tt)

  Keeps-keep_batch_closures :
      (b : BatchBuilder) (id : String) → Keeps (OnStore Q) (keep_batch_closures r b id)
  unfolding keep_batch_closures
  Keeps-keep_batch_closures b id =
      Keeps-if (has_batch_closures r b) _ _ (λ _. Keeps-modify _ (λ w. refl)) (λ _. Keeps-pure tt)

  fail_chain_node-kept :
      (c n : String) (cause : Option String) (time later : ℕ) (m : MemoryStore)
      → Q m
      → Q (fail_chain_node m c n cause time later).1
  unfolding fail_chain_node
  fail_chain_node-kept c n cause time later m h = calls.fail c n cause no_claim time later m h

  Keeps-reject_chain :
      (ctx : Option Context) (env : Envelope) (e : Failure)
      → Keeps (OnStore Q) (reject_chain r ctx env e)
  unfolding reject_chain
  Keeps-reject_chain ctx env e = Keeps-bind _ _ (Keeps-now r kept) λ time.
      Keeps-bind _ _ (Keeps-now r kept) λ later.
        Keeps-bind _ _
          (Keeps-on_store r kept _
            (fail_chain_node-kept env.chain_id env.node_id (some (error_text e)) time later))
          λ failed.
            Keeps-on_result failed _ _ (λ f _. Keeps-pure _)
              λ found _.
                Keeps-if (not found.1) _ _ (λ _. Keeps-pure _)
                  λ _. Keeps-then _ _ (Keeps-emit_new r kept ctx _ _ _) (
                    Keeps-bind _ _ (Keeps-read r kept (λ m. get_chain m env.chain_id)) λ read.
                      Keeps-on_result read _ _ (λ f _. Keeps-pure _)
                        λ state _. search (
                          keeps_rules,
                          Keeps-invoke_callback_inline r kept calls,
                          Keeps-cleanup_chain_callbacks,
                        ))

  Keeps-start_chain :
      (ctx : Option Context) (b : ChainBuilder) (chain_id dispatch_id : String)
      (nodes : List ChainNode)
      → Keeps (OnStore Q) (start_chain r ctx b chain_id dispatch_id nodes)
  unfolding start_chain
  Keeps-start_chain ctx b chain_id dispatch_id [] = Keeps-pure _
  Keeps-start_chain ctx b chain_id dispatch_id (first ∷ nodes) =
      Keeps-then _ _ (Keeps-keep_chain_closures b chain_id) (
        Keeps-then _ _ (Keeps-emit_new r kept ctx _ _ none) (
          Keeps-bind _ _ (Keeps-new_id r kept "job") λ job_id.
            Keeps-bind _ _ (Keeps-dispatch_envelope r kept _ _) λ failure.
              Keeps-on_option failure _ _ (λ _. Keeps-pure _)
                λ e _.
                  Keeps-on_option _ _ _ (λ _. Keeps-reject_chain ctx _ e) (λ x _. Keeps-pure _)))

  Keeps-with_synchronous_chain_result :
      (body : Action (String × Option Failure))
      → Keeps (OnStore Q) body
      → Keeps (OnStore Q) (with_synchronous_chain_result body)
  unfolding with_synchronous_chain_result
  Keeps-with_synchronous_chain_result body h = record {
    at = λ w q. record {
      holds = (h.at (record w { chain_result = some none }) (record { holds = q.holds })).holds;
    };
  }

  pub Keeps-dispatch_chain :
      (ctx : Option Context) (b : ChainBuilder) → Keeps (OnStore Q) (dispatch_chain r ctx b)
  unfolding dispatch_chain
  Keeps-dispatch_chain ctx b =
      Keeps-if (is_empty b.jobs) _ _ (λ _. Keeps-pure _)
        (λ _.
          (Keeps-with_synchronous_chain_result _ (
            Keeps-bind _ _ (Keeps-new_id r kept "chn") λ chain_id.
              Keeps-bind _ _ (Keeps-new_id r kept "dsp") λ dispatch_id.
                Keeps-bind _ _ (Keeps-chain_nodes chain_id b.queue_name _) λ built.
                  Keeps-on_result built _ _ (λ e _. Keeps-pure _)
                    λ nodes _. Keeps-bind _ _ (Keeps-now r kept) λ time.
                      Keeps-bind _ _ (Keeps-now r kept) λ later.
                        Keeps-bind _ _
                          (Keeps-on_store r kept _ (λ m h. creates.create_chain _ later m h))
                          λ created.
                            Keeps-on_result created _ _ (λ e _. Keeps-pure _)
                              λ _ _.
                                Keeps-bind _ _ (Keeps-start_chain ctx b chain_id dispatch_id nodes)
                                  (λ failure. Keeps-pure _))))

  Keeps-cancel_rejected :
      (ctx : Option Context) (env : Envelope) (e : Failure)
      → Keeps (OnStore Q) (cancel_rejected r ctx env e)
  unfolding cancel_rejected
  Keeps-cancel_rejected ctx env e = Keeps-bind _ _ (Keeps-now r kept) λ time.
      Keeps-bind _ _ (Keeps-on_store r kept _ (λ m h. creates.cancel env.batch_id time m h))
        λ cancelled.
          Keeps-on_result cancelled _ _ (λ f _. Keeps-pure _)
            λ done _. Keeps-then _ _ (Keeps-emit_new r kept ctx _ _ _) (
              Keeps-then _ _ (Keeps-emit_new r kept ctx _ _ _) (
                Keeps-bind _ _ (Keeps-read r kept (λ m. get_batch m env.batch_id)) λ read.
                  Keeps-on_result read _ _ (λ f _. Keeps-pure _)
                    λ state _. search (
                      keeps_rules,
                      Keeps-invoke_callback_inline r kept calls,
                      Keeps-prepare_batch_terminal_callbacks,
                      Keeps-cleanup_batch_callbacks,
                    )))

  Keeps-reject_member :
      (ctx : Option Context) (env : Envelope) (e : Failure)
      → Keeps (OnStore Q) (reject_member r ctx env e)
  unfolding reject_member
  Keeps-reject_member ctx env e =
      Keeps-bind _ _ (Keeps-read r kept (λ m. get_batch m env.batch_id)) λ read.
        Keeps-on_result read _ _ (λ f _. Keeps-cancel_rejected ctx env e)
          λ state _.
            Keeps-if (has_result state) _ _ (λ _. Keeps-pure _)
              (λ _. Keeps-cancel_rejected ctx env e)

  Keeps-dispatch_members :
      (ctx : Option Context) (allow : Bool) (batch_id dispatch_id : String) (first : Option Failure)
      (jobs : List BatchJob)
      → Keeps (OnStore Q) (dispatch_members r ctx allow batch_id dispatch_id first jobs)
  unfolding dispatch_members
  Keeps-dispatch_members ctx allow batch_id dispatch_id first [] = Keeps-pure _
  Keeps-dispatch_members ctx allow batch_id dispatch_id first (job ∷ jobs) =
      let rest : (o : Option Failure)
          → Keeps (OnStore Q) (dispatch_members r ctx allow batch_id dispatch_id o jobs) =
        λ o. Keeps-dispatch_members ctx allow batch_id dispatch_id o jobs in
      Keeps-bind _ _ (Keeps-dispatch_envelope r kept _ _) λ failure.
        Keeps-on_option failure _ _ (λ _. rest first)
          λ e _.
            Keeps-on_option _ _ _ (λ _. Keeps-reject_member ctx _ e)
              λ executed _.
                Keeps-if (allow && not (is_uncommitted (some executed))) _ _ (λ _. rest _)
                  (λ _. Keeps-pure _)

  Keeps-start_batch :
      (ctx : Option Context) (b : BatchBuilder) (batch_id dispatch_id : String)
      (jobs : List BatchJob)
      → Keeps (OnStore Q) (start_batch r ctx b batch_id dispatch_id jobs)
  unfolding start_batch
  Keeps-start_batch ctx b batch_id dispatch_id [] = Keeps-pure _
  Keeps-start_batch ctx b batch_id dispatch_id (first ∷ jobs) =
      Keeps-then _ _ (Keeps-keep_batch_closures b batch_id) (
        Keeps-then _ _ (Keeps-emit_new r kept ctx _ _ none)
          (Keeps-dispatch_members ctx b.allow_failed batch_id dispatch_id none (first ∷ jobs)))

  pub Keeps-dispatch_batch :
      (ctx : Option Context) (b : BatchBuilder) → Keeps (OnStore Q) (dispatch_batch r ctx b)
  unfolding dispatch_batch
  Keeps-dispatch_batch ctx b =
      Keeps-if (is_empty b.jobs) _ _ (λ _. Keeps-pure _)
        (λ _.
          (Keeps-bind _ _ (Keeps-new_id r kept "bat") λ batch_id.
            Keeps-bind _ _ (Keeps-new_id r kept "dsp") λ dispatch_id.
              Keeps-bind _ _ (Keeps-batch_jobs b.queue_name _) λ built.
                Keeps-on_result built _ _ (λ e _. Keeps-pure _)
                  λ members _. Keeps-bind _ _ (Keeps-now r kept) λ time.
                    Keeps-bind _ _ (Keeps-now r kept) λ later.
                      Keeps-bind _ _
                        (Keeps-on_store r kept _ (λ m h. creates.create_batch _ later m h))
                        λ created.
                          Keeps-on_result created _ _ (λ e _. Keeps-pure _)
                            λ _ _.
                              Keeps-bind _ _ (Keeps-start_batch ctx b batch_id dispatch_id members)
                                (λ failure. Keeps-pure _)))
