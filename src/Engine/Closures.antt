-- ===== src/Engine/Closures.antt =====
-- The closures of workflows, which live in the engine and not in the store: the maps
-- `chainCallbacks` and `batchCallbacks` of internal/workflow/chain.go and batch.go, and the callback
-- deliveries of runtime.go.
use queue.Prelude.{
  Bool, true, false, not, ◌&&◌, String, [], ◌++◌, Option, none, some, ◌==◌, if◌then◌else◌,
}
use queue.Prelude.Int.{pos}
use queue.Prelude.Equality.{string_eq}
use queue.Prelude.Table.{Table, update, remove}
use queue.Delivery.Failure.{Failure, error_text}
use queue.Engine.Types.{
  Envelope, ChainCallbacks, BatchCallbacks, protocol_schema_version, callback_delivery_type,
}
use queue.Engine.World.{World, Action, pure, gets, ◌>>=◌, on_option, modify}
use queue.Engine.Runtime.{Runtime, new_id, dispatch_envelope}

abbrev pub is_none {ℓ} : {A : Type ℓ} → Option A → Bool
is_none none = true
is_none (some a) = false

abbrev pub is_some {ℓ} : {A : Type ℓ} → Option A → Bool
is_some none = false
is_some (some a) = true

-- `if callbacks, ok := m[id]; ok { … }` with the entry deleted where no closure is left.
unfoldable pub keep_chain :
    Table String ChainCallbacks → String → ChainCallbacks → Table String ChainCallbacks
keep_chain table id c =
    if is_none c.catch && is_none c.finally then remove table id else update table id c

unfoldable pub prepare_chain_success_callbacks : String → Action (Unit {0})
prepare_chain_success_callbacks chain_id = modify (λ w. elim (w.chain_callbacks chain_id) [
  | none ↦ w
  | some c ↦ record w {
    chain_callbacks = update w.chain_callbacks chain_id (record c { catch = none });
  }
])

unfoldable pub finish_chain_callback : String → String → Action (Unit {0})
unfolding keep_chain
finish_chain_callback chain_id kind = modify (λ w. elim (w.chain_callbacks chain_id) [
  | none ↦ w
  | some c ↦ record w {
    chain_callbacks = keep_chain w.chain_callbacks chain_id (
        if kind == "catch"
        then record c { catch = none }
        else if kind == "finally"
        then record c { finally = none }
        else c);
  }
])

unfoldable pub cleanup_chain_callbacks : String → Action (Unit {0})
cleanup_chain_callbacks chain_id = modify (λ w. elim (w.chain_callbacks chain_id) [
  | none ↦ w
  | some c ↦ record w {
    chain_callbacks =
        if is_none c.catch && is_none c.finally
        then remove w.chain_callbacks chain_id
        else w.chain_callbacks;
  }
])

unfoldable pub without_closures : BatchCallbacks → Bool
without_closures c = is_none c.progress && is_none c.then_ && is_none c.catch && is_none c.finally

unfoldable pub keep_batch :
    Table String BatchCallbacks → String → BatchCallbacks → Table String BatchCallbacks
unfolding without_closures
keep_batch table id c = if without_closures c then remove table id else update table id c

unfoldable pub prepare_batch_terminal_callbacks : String → Bool → Bool → Action (Unit {0})
unfolding keep_batch
prepare_batch_terminal_callbacks batch_id succeeded has_failures = modify (λ w.
    elim (w.batch_callbacks batch_id) [
      | none ↦ w
      | some c ↦ record w {
        batch_callbacks = keep_batch w.batch_callbacks batch_id (record c {
          progress = none;
          catch = if succeeded && not has_failures then none else c.catch;
          then_ = if not succeeded then none else c.then_;
        });
      }
    ])

unfoldable pub finish_batch_callback : String → String → Action (Unit {0})
unfolding keep_batch
finish_batch_callback batch_id kind = modify (λ w. elim (w.batch_callbacks batch_id) [
  | none ↦ w
  | some c ↦ record w {
    batch_callbacks = keep_batch w.batch_callbacks batch_id (
        if kind == "then"
        then record c { then_ = none }
        else if kind == "catch"
        then record c { catch = none }
        else if kind == "finally"
        then record c { finally = none }
        else c);
  }
])

unfoldable pub cleanup_batch_callbacks : String → Action (Unit {0})
unfolding without_closures
cleanup_batch_callbacks batch_id = modify (λ w. elim (w.batch_callbacks batch_id) [
  | none ↦ w
  | some c ↦ record w {
    batch_callbacks =
        if without_closures c then remove w.batch_callbacks batch_id else w.batch_callbacks;
  }
])

-- The entry of a workflow, which reads as the zero value where it is absent.
unfoldable pub chain_closures : World → String → ChainCallbacks
chain_closures w id = elim (w.chain_callbacks id) [
  | none ↦ record { catch = none; finally = none }
  | some c ↦ c
]

unfoldable pub batch_closures : World → String → BatchCallbacks
batch_closures w id = elim (w.batch_callbacks id) [
  | none ↦ record { progress = none; then_ = none; catch = none; finally = none }
  | some c ↦ c
]

unfoldable pub callback_configured : Envelope → String → World → Bool
unfolding chain_closures batch_closures
callback_configured base kind w =
    if kind == "chain_catch"
    then is_some (chain_closures w base.chain_id).catch
    else if kind == "chain_finally"
    then is_some (chain_closures w base.chain_id).finally
    else if kind == "batch_catch"
    then is_some (batch_closures w base.batch_id).catch
    else if kind == "batch_then"
    then is_some (batch_closures w base.batch_id).then_
    else if kind == "batch_finally"
    then is_some (batch_closures w base.batch_id).finally
    else false

unfoldable pub callback_envelope :
    Runtime → Envelope → String → Option Failure → Action (Option Envelope)
unfolding callback_configured error_text
callback_envelope r base kind failure = do
  configured ← gets (callback_configured base kind)
  if not configured then pure none else do
    id ← new_id r "job"
    pure (
        some (record {
          schema_version = protocol_schema_version;
          dispatch_id = base.dispatch_id;
          kind = "callback";
          job_id = id;
          chain_id = base.chain_id;
          batch_id = base.batch_id;
          node_id = "";
          attempt = pos 0;
          job = record {
            type = base.job.type;
            payload = [] ++ base.job.payload;
            options = record {
              queue_name = base.job.options.queue_name;
              delay = pos 0;
              timeout = pos 0;
              retry = pos 0;
              backoff = pos 0;
              unique_for = pos 0;
            };
          };
          callback_kind = kind;
          failure = elim failure [ none ↦ "" | some e ↦ error_text e ];
        }))

unfoldable pub dispatch_callback :
    Runtime → Envelope → String → Option Failure → Action (Option Failure)
dispatch_callback r base kind failure = do
  callback ← callback_envelope r base kind failure
  on_option callback (pure none) (λ env. dispatch_envelope r callback_delivery_type env)
