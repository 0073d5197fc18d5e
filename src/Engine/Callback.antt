-- ===== src/Engine/Callback.antt =====
-- Callback deliveries: `handleCallbackEnvelope` and the five `invoke…Observed` of
-- internal/workflow/chain.go and batch.go. A callback is claimed in the store before it runs.
use Prim.Native.String.{◌++◌ as concat}
use queue.Prelude.{
  ℕ, Bool, not, ◌&&◌, ◌||◌, String, Option, none, some, ◌==◌, eqb, Result, if◌then◌else◌,
}
use queue.Delivery.Failure.{Failure, leaf, is_uncommitted}
use queue.Delivery.Context.{Context}
use queue.Workflow.Types.{ChainState, BatchState}
use queue.Workflow.Memory.Chains.{get_chain}
use queue.Workflow.Memory.Batches.{get_batch}
use queue.Workflow.Memory.Retention.{mark_callback_invoked}
use queue.Engine.Types.{
  Envelope, CallbackResult, event_callback_started, event_callback_succeeded, event_callback_failed,
}
use queue.Engine.World.{World, Action, pure, gets, ◌>>=◌, ◌>>◌, on_option, on_result}
use queue.Engine.Runtime.{
  Runtime, on_store, now, new_id, store_failure, uncommitted_mutation_error, run_ephemeral_callback,
  emit,
}
use queue.Engine.Execute.{event_of}
use queue.Engine.Closures.{
  chain_closures, batch_closures, finish_chain_callback, finish_batch_callback, callback_envelope,
}

-- `errCallbackAlreadyInvoked` and every other error that an invocation returns.
pub data Invocation : Type 0 where
  already_invoked : Invocation
  finished : Option Failure → Invocation

abbrev pub callback_not_ready : Failure
callback_not_ready = leaf "workflow callback state is not ready"

abbrev pub callback_unavailable : Failure
callback_unavailable = leaf "workflow callback is unavailable"

-- `callbackOnce`; the built-in store's `MarkCallbackInvoked` does not fail.
unfoldable pub callback_once : Runtime → String → Action Bool
callback_once r key = do time ← now r; on_store r (λ m. mark_callback_invoked m key time)

-- `onClaimed`, which answers with the callback's start.
unfoldable pub on_claimed : Runtime → Option Context → Envelope → Action ℕ
unfolding event_of
on_claimed r ctx env = do
  start ← now r
  id ← new_id r "evt"
  emit ctx (event_of r event_callback_started id env start none)
  pure start

-- What an invocation does after its claim: nothing if the callback was claimed before.
unfoldable pub settle_claim :
    Runtime
    → Option Context
    → Envelope
    → ℕ
    → (World → Option ℕ)
    → (ℕ → Action CallbackResult)
    → Action (Unit {0})
    → Bool
    → Action (ℕ × Invocation)
settle_claim r ctx env begun closure call finish marked =
    if not marked then pure (begun, already_invoked) else do
      start ← on_claimed r ctx env
      found ← gets closure
      on_option found (pure (start, finished (some callback_unavailable))) (λ callback. do
        failure ← run_ephemeral_callback (call callback)
        finish
        pure (start, finished failure))

-- What the five invocations share: the state's test, the claim, the closure, its run, and the end of
-- it. The answer has the callback's start, which is `begun` unless it was claimed.
unfoldable pub invoke_observed :
    Runtime
    → Option Context
    → Envelope
    → ℕ
    → Bool
    → String
    → (World → Option ℕ)
    → (ℕ → Action CallbackResult)
    → Action (Unit {0})
    → Action (ℕ × Invocation)
invoke_observed r ctx env begun ready key closure call finish =
    if not ready
    then pure (begun, finished (some callback_not_ready))
    else do marked ← callback_once r key; settle_claim r ctx env begun closure call finish marked

unfoldable pub invoke_chain_catch_observed :
    Runtime → Option Context → Envelope → ℕ → Option Failure → ChainState → Action (ℕ × Invocation)
unfolding chain_closures
invoke_chain_catch_observed r ctx env begun e st =
    invoke_observed r ctx env begun (st.failed && not st.completed)
      (concat "chain_catch:" st.chain_id) (λ w. (chain_closures w st.chain_id).catch)
      (λ callback. r.call_chain callback st e) (finish_chain_callback st.chain_id "catch")

unfoldable pub invoke_chain_finally_observed :
    Runtime → Option Context → Envelope → ℕ → ChainState → Action (ℕ × Invocation)
unfolding chain_closures
invoke_chain_finally_observed r ctx env begun st =
    invoke_observed r ctx env begun (st.failed || st.completed)
      (concat "chain_finally:" st.chain_id) (λ w. (chain_closures w st.chain_id).finally)
      (λ callback. r.call_chain callback st none) (finish_chain_callback st.chain_id "finally")

unfoldable pub invoke_batch_catch_observed :
    Runtime → Option Context → Envelope → ℕ → Option Failure → BatchState → Action (ℕ × Invocation)
unfolding batch_closures
invoke_batch_catch_observed r ctx env begun e st =
    invoke_observed r ctx env begun (not (eqb st.failed 0) || st.cancelled)
      (concat "batch_catch:" st.batch_id) (λ w. (batch_closures w st.batch_id).catch)
      (λ callback. r.call_batch callback st e) (finish_batch_callback st.batch_id "catch")

unfoldable pub invoke_batch_then_observed :
    Runtime → Option Context → Envelope → ℕ → BatchState → Action (ℕ × Invocation)
unfolding batch_closures
invoke_batch_then_observed r ctx env begun st =
    invoke_observed r ctx env begun (st.completed && not st.cancelled)
      (concat "batch_then:" st.batch_id) (λ w. (batch_closures w st.batch_id).then_)
      (λ callback. r.call_batch callback st none) (finish_batch_callback st.batch_id "then")

unfoldable pub invoke_batch_finally_observed :
    Runtime → Option Context → Envelope → ℕ → BatchState → Action (ℕ × Invocation)
unfolding batch_closures
invoke_batch_finally_observed r ctx env begun st =
    invoke_observed r ctx env begun st.completed (concat "batch_finally:" st.batch_id)
      (λ w. (batch_closures w st.batch_id).finally) (λ callback. r.call_batch callback st none)
      (finish_batch_callback st.batch_id "finally")

-- A callback of a chain: its identifier is required, then its state is read.
unfoldable pub with_chain :
    Runtime → Envelope → ℕ → (ChainState → Action (ℕ × Invocation)) → Action (ℕ × Invocation)
with_chain r env begun invoke =
    if env.chain_id == ""
    then pure (begun, finished (some (leaf "chain callback requires chain_id")))
    else do
      read ← on_store r (λ m. (get_chain m env.chain_id, m))
      on_result read
          (λ e. pure (
            begun,
            finished (uncommitted_mutation_error "read chain callback state" (store_failure r e)),
          ))
          invoke

unfoldable pub with_batch :
    Runtime → Envelope → ℕ → (BatchState → Action (ℕ × Invocation)) → Action (ℕ × Invocation)
with_batch r env begun invoke =
    if env.batch_id == ""
    then pure (begun, finished (some (leaf "batch callback requires batch_id")))
    else do
      read ← on_store r (λ m. (get_batch m env.batch_id, m))
      on_result read
          (λ e. pure (
            begun,
            finished (uncommitted_mutation_error "read batch callback state" (store_failure r e)),
          ))
          invoke

unfoldable pub callback_error : Envelope → Option Failure
callback_error env = if env.failure == "" then none else some (leaf env.failure)

-- The switch on the callback's kind.
unfoldable pub invoke_callback : Runtime → Option Context → Envelope → ℕ → Action (ℕ × Invocation)
unfolding callback_error
invoke_callback r ctx env begun =
    if env.callback_kind == "chain_catch"
    then with_chain r env begun (invoke_chain_catch_observed r ctx env begun (callback_error env))
    else if env.callback_kind == "chain_finally"
    then with_chain r env begun (invoke_chain_finally_observed r ctx env begun)
    else if env.callback_kind == "batch_catch"
    then with_batch r env begun (invoke_batch_catch_observed r ctx env begun (callback_error env))
    else if env.callback_kind == "batch_then"
    then with_batch r env begun (invoke_batch_then_observed r ctx env begun)
    else if env.callback_kind == "batch_finally"
    then with_batch r env begun (invoke_batch_finally_observed r ctx env begun)
    else pure (begun, finished (some (leaf "unknown callback kind")))

-- The end of `handleCallbackEnvelope`, which reads the clock for the duration and again for the time.
unfoldable pub publish_callback :
    Runtime → Option Context → Envelope → ℕ → Option Failure → Action (Option Failure)
unfolding event_of
publish_callback r ctx env start failure = do
  id ← new_id r "evt"
  finish ← now r
  time ← now r
  emit ctx
      (record (event_of r (on_failure failure) id env time failure) { duration = (start, finish) })
  pure failure
  where
    on_failure : Option Failure → queue.Engine.Types.EventKind
    on_failure none = event_callback_succeeded
    on_failure (some e) = event_callback_failed

unfoldable pub settle_callback :
    Runtime → Option Context → Envelope → ℕ → Invocation → Action (Option Failure)
unfolding is_uncommitted
settle_callback r ctx env start already_invoked = pure none
settle_callback r ctx env start (finished failure) =
    if is_uncommitted failure then pure failure else publish_callback r ctx env start failure

unfoldable pub handle_callback_envelope :
    Runtime → Option Context → Envelope → Action (Option Failure)
handle_callback_envelope r ctx env = do
  begun ← now r
  result ← invoke_callback r ctx env begun
  settle_callback r ctx env result.0 result.1

-- `handleInternalCallback`; the argument is what `Bind` gives.
unfoldable pub handle_internal_callback :
    Runtime → Option Context → Result Failure Envelope → Action (Option Failure)
handle_internal_callback r ctx job =
    on_result job (λ e. pure (some e)) (λ env. handle_callback_envelope r ctx env)

-- `invokeCallbackInline`
unfoldable pub invoke_callback_inline :
    Runtime → Option Context → Envelope → String → Option Failure → Action (Option Failure)
invoke_callback_inline r ctx base kind e = do
  callback ← callback_envelope r base kind e
  on_option callback (pure none) (λ env. handle_callback_envelope r ctx env)
