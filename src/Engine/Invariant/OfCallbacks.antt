-- ===== src/Engine/Invariant/OfCallbacks.antt =====
-- A callback delivery keeps what the methods of the store keep.
use queue.Prelude.{ℕ, Bool, not, String, Option, Result}
use queue.Delivery.Failure.{Failure}
use queue.Delivery.Context.{Context}
use queue.Workflow.Types.{ChainState, BatchState}
use queue.Workflow.Memory.Store.{MemoryStore}
use queue.Engine.Types.{Envelope, CallbackResult}
use queue.Engine.World.{World, Action}
use queue.Engine.World.Keeps.{
  Keeps, Keeps-bind, Keeps-then, Keeps-pure, Keeps-gets, Keeps-if, Keeps-on_option, keeps_rules,
}
use queue.Engine.Runtime.{Runtime}
use queue.Engine.Outside.{
  OnStore, KeptOutside, Keeps-on_store, Keeps-now, Keeps-new_id, Keeps-emit,
  Keeps-finish_chain_callback, Keeps-finish_batch_callback, Keeps-run_ephemeral_callback,
  Keeps-callback_envelope,
}
use queue.Engine.Invariant.{KeptByDeliveries, Keeps-read}
use queue.Engine.Callback.{
  Invocation, already_invoked, finished, callback_once, on_claimed, settle_claim, invoke_observed,
  invoke_chain_catch_observed, invoke_chain_finally_observed, invoke_batch_catch_observed,
  invoke_batch_then_observed, invoke_batch_finally_observed, with_chain, with_batch,
  invoke_callback, publish_callback, settle_callback, handle_callback_envelope,
  handle_internal_callback, invoke_callback_inline,
}

module _ {Q : MemoryStore → Type 0} (r : Runtime) (kept : KeptOutside Q r)
    (calls : KeptByDeliveries Q) where
  Keeps-callback_once : (key : String) → Keeps (OnStore Q) (callback_once r key)
  unfolding callback_once
  Keeps-callback_once key =
      Keeps-bind _ _ (Keeps-now r kept)
        λ time. Keeps-on_store r kept _ (λ m h. calls.invoke key time m h)

  Keeps-on_claimed :
      (ctx : Option Context) (env : Envelope) → Keeps (OnStore Q) (on_claimed r ctx env)
  unfolding on_claimed
  Keeps-on_claimed ctx env = Keeps-bind _ _ (Keeps-now r kept) λ start.
      Keeps-bind _ _ (Keeps-new_id r kept "evt")
        λ id. Keeps-then _ _ (Keeps-emit ctx _) (Keeps-pure start)

  -- What an invocation does after its claim.
  pub Keeps-settle_claim :
      (ctx : Option Context) (env : Envelope) (begun : ℕ) (closure : World → Option ℕ)
      (call : ℕ → Action CallbackResult) (finish : Action (Unit {0})) (marked : Bool)
      → ((c : ℕ) → Keeps (OnStore Q) (call c))
      → Keeps (OnStore Q) finish
      → Keeps (OnStore Q) (settle_claim r ctx env begun closure call finish marked)
  unfolding settle_claim
  Keeps-settle_claim ctx env begun closure call finish marked kc kf =
      Keeps-if (not marked) _ _ (λ _. Keeps-pure _)
        λ _. Keeps-bind _ _ (Keeps-on_claimed ctx env) λ start.
          Keeps-bind _ _ (Keeps-gets closure) λ found.
            Keeps-on_option found _ _ (λ _. Keeps-pure _)
              λ callback _.
                Keeps-bind _ _ (Keeps-run_ephemeral_callback (call callback) (kc callback))
                  λ failure. Keeps-then _ _ kf (Keeps-pure _)

  Keeps-invoke_observed :
      (ctx : Option Context) (env : Envelope) (begun : ℕ) (ready : Bool) (key : String)
      (closure : World → Option ℕ) (call : ℕ → Action CallbackResult) (finish : Action (Unit {0}))
      → ((c : ℕ) → Keeps (OnStore Q) (call c))
      → Keeps (OnStore Q) finish
      → Keeps (OnStore Q) (invoke_observed r ctx env begun ready key closure call finish)
  unfolding invoke_observed
  Keeps-invoke_observed ctx env begun ready key closure call finish kc kf =
      Keeps-if (not ready) _ _ (λ _. Keeps-pure _)
        λ _.
          Keeps-bind _ _ (Keeps-callback_once key)
            λ marked. Keeps-settle_claim ctx env begun closure call finish marked kc kf

  Keeps-invoke_chain_catch_observed :
      (ctx : Option Context) (env : Envelope) (begun : ℕ) (e : Option Failure) (state : ChainState)
      → Keeps (OnStore Q) (invoke_chain_catch_observed r ctx env begun e state)
  unfolding invoke_chain_catch_observed
  Keeps-invoke_chain_catch_observed ctx env begun e state =
      search (keeps_rules, Keeps-invoke_observed, kept.call_chain, Keeps-finish_chain_callback)
        depth 12

  Keeps-invoke_chain_finally_observed :
      (ctx : Option Context) (env : Envelope) (begun : ℕ) (state : ChainState)
      → Keeps (OnStore Q) (invoke_chain_finally_observed r ctx env begun state)
  unfolding invoke_chain_finally_observed
  Keeps-invoke_chain_finally_observed ctx env begun state =
      search (keeps_rules, Keeps-invoke_observed, kept.call_chain, Keeps-finish_chain_callback)
        depth 12

  Keeps-invoke_batch_catch_observed :
      (ctx : Option Context) (env : Envelope) (begun : ℕ) (e : Option Failure) (st : BatchState)
      → Keeps (OnStore Q) (invoke_batch_catch_observed r ctx env begun e st)
  unfolding invoke_batch_catch_observed
  Keeps-invoke_batch_catch_observed ctx env begun e st =
      search (keeps_rules, Keeps-invoke_observed, kept.call_batch, Keeps-finish_batch_callback)
        depth 12

  Keeps-invoke_batch_then_observed :
      (ctx : Option Context) (env : Envelope) (begun : ℕ) (st : BatchState)
      → Keeps (OnStore Q) (invoke_batch_then_observed r ctx env begun st)
  unfolding invoke_batch_then_observed
  Keeps-invoke_batch_then_observed ctx env begun st =
      search (keeps_rules, Keeps-invoke_observed, kept.call_batch, Keeps-finish_batch_callback)
        depth 12

  Keeps-invoke_batch_finally_observed :
      (ctx : Option Context) (env : Envelope) (begun : ℕ) (st : BatchState)
      → Keeps (OnStore Q) (invoke_batch_finally_observed r ctx env begun st)
  unfolding invoke_batch_finally_observed
  Keeps-invoke_batch_finally_observed ctx env begun st =
      search (keeps_rules, Keeps-invoke_observed, kept.call_batch, Keeps-finish_batch_callback)
        depth 12

  Keeps-with_chain :
      (env : Envelope) (begun : ℕ) (invoke : ChainState → Action (ℕ × Invocation))
      → ((st : ChainState) → Keeps (OnStore Q) (invoke st))
      → Keeps (OnStore Q) (with_chain r env begun invoke)
  unfolding with_chain
  Keeps-with_chain env begun invoke h = search (keeps_rules, Keeps-read r kept, h) depth 12

  Keeps-with_batch :
      (env : Envelope) (begun : ℕ) (invoke : BatchState → Action (ℕ × Invocation))
      → ((st : BatchState) → Keeps (OnStore Q) (invoke st))
      → Keeps (OnStore Q) (with_batch r env begun invoke)
  unfolding with_batch
  Keeps-with_batch env begun invoke h = search (keeps_rules, Keeps-read r kept, h) depth 12

  Keeps-invoke_callback :
      (ctx : Option Context) (env : Envelope) (begun : ℕ)
      → Keeps (OnStore Q) (invoke_callback r ctx env begun)
  unfolding invoke_callback
  Keeps-invoke_callback ctx env begun =
      search
        (
          keeps_rules, Keeps-with_chain, Keeps-with_batch, Keeps-invoke_chain_catch_observed,
          Keeps-invoke_chain_finally_observed, Keeps-invoke_batch_catch_observed,
          Keeps-invoke_batch_then_observed, Keeps-invoke_batch_finally_observed,
        )
        depth 14

  Keeps-publish_callback :
      (ctx : Option Context) (env : Envelope) (start : ℕ) (e : Option Failure)
      → Keeps (OnStore Q) (publish_callback r ctx env start e)
  unfolding publish_callback
  Keeps-publish_callback ctx env start e = Keeps-bind _ _ (Keeps-new_id r kept "evt") λ id.
      Keeps-bind _ _ (Keeps-now r kept) λ finish.
        Keeps-bind _ _ (Keeps-now r kept) λ time. Keeps-then _ _ (Keeps-emit ctx _) (Keeps-pure e)

  Keeps-settle_callback :
      (ctx : Option Context) (env : Envelope) (start : ℕ) (i : Invocation)
      → Keeps (OnStore Q) (settle_callback r ctx env start i)
  unfolding settle_callback
  Keeps-settle_callback ctx env start already_invoked = search keeps_rules
  Keeps-settle_callback ctx env start (finished e) = search (keeps_rules, Keeps-publish_callback)

  pub Keeps-handle_callback_envelope :
      (ctx : Option Context) (env : Envelope)
      → Keeps (OnStore Q) (handle_callback_envelope r ctx env)
  unfolding handle_callback_envelope
  Keeps-handle_callback_envelope ctx env = Keeps-bind _ _ (Keeps-now r kept) λ begun.
      Keeps-bind _ _ (Keeps-invoke_callback ctx env begun)
        λ result. Keeps-settle_callback ctx env result.0 result.1

  pub Keeps-handle_internal_callback :
      (ctx : Option Context) (job : Result Failure Envelope)
      → Keeps (OnStore Q) (handle_internal_callback r ctx job)
  unfolding handle_internal_callback
  Keeps-handle_internal_callback ctx job =
      search (keeps_rules, Keeps-handle_callback_envelope) depth 12

  pub Keeps-invoke_callback_inline :
      (ctx : Option Context) (base : Envelope) (kind : String) (e : Option Failure)
      → Keeps (OnStore Q) (invoke_callback_inline r ctx base kind e)
  unfolding invoke_callback_inline
  Keeps-invoke_callback_inline ctx base kind e =
      Keeps-bind _ _ (Keeps-callback_envelope r kept base kind e) λ callback.
        Keeps-on_option callback _ _ (λ _. Keeps-pure _)
          λ env _. Keeps-handle_callback_envelope ctx env
