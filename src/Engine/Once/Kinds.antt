-- ===== src/Engine/Once/Kinds.antt =====
-- The five callbacks of workflows, and that none of them runs twice: the `invoke…Observed` of
-- internal/workflow/chain.go and batch.go.
use Prim.Native.String.{◌++◌ as concat}
use queue.Prelude.{
  ◌≡◌, refl, ap, ◌∙◌, subst, sym, ◌+◌, ℕ, Bool, true, not, ◌&&◌, ◌||◌, eqb, String, List, Option,
  none, some, All, inl, inr, Bool-cases, if◌then◌else◌,
}
use queue.Delivery.Failure.{Failure}
use queue.Workflow.Types.{ChainState, BatchState}
use queue.Delivery.Context.{Context}
use queue.Workflow.Memory.Store.{MemoryStore}
use queue.Workflow.Memory.Callbacks.{IsClaimed}
use queue.Engine.Types.{Envelope, CallbackResult}
use queue.Engine.World.{World, Action}
use queue.Engine.World.Keeps.{Keeps}
use queue.Engine.Runtime.{Runtime}
use queue.Engine.Outside.{
  OnStore, KeptOutside, Keeps-finish_chain_callback, Keeps-finish_batch_callback,
}
use queue.Engine.Closures.{
  chain_closures, batch_closures, finish_chain_callback, finish_batch_callback,
}
use queue.Engine.Callback.{
  Invocation, already_invoked, finished, callback_not_ready, invoke_observed,
  invoke_chain_catch_observed, invoke_chain_finally_observed, invoke_batch_catch_observed,
  invoke_batch_then_observed, invoke_batch_finally_observed,
}
use queue.Engine.Invariant.Calls.{EngineCall, PruneKeeps, run_calls, Keeps-run_calls}
use queue.Engine.Once.{
  IsClaimed-KeptByDeliveries, IsClaimed-KeptByDispatch, at_store, claimed-already_invoked,
  invoked-IsClaimed, unready-invoke_observed,
}

-- One of the five invocations, with the state that it reads and the error that it passes on.
pub data CallbackRun : Type 0 where
  runs_chain_catch : Option Failure → ChainState → CallbackRun
  runs_chain_finally : ChainState → CallbackRun
  runs_batch_catch : Option Failure → BatchState → CallbackRun
  runs_batch_then : BatchState → CallbackRun
  runs_batch_finally : BatchState → CallbackRun

unfoldable pub run_callback :
    Runtime → Option Context → Envelope → ℕ → CallbackRun → Action (ℕ × Invocation)
unfolding invoke_chain_catch_observed invoke_chain_finally_observed invoke_batch_catch_observed
    invoke_batch_then_observed invoke_batch_finally_observed
run_callback r ctx env begun (runs_chain_catch e st) =
    invoke_chain_catch_observed r ctx env begun e st
run_callback r ctx env begun (runs_chain_finally st) =
    invoke_chain_finally_observed r ctx env begun st
run_callback r ctx env begun (runs_batch_catch e st) =
    invoke_batch_catch_observed r ctx env begun e st
run_callback r ctx env begun (runs_batch_then st) = invoke_batch_then_observed r ctx env begun st
run_callback r ctx env begun (runs_batch_finally st) =
    invoke_batch_finally_observed r ctx env begun st

-- The states in which a callback may run.
unfoldable pub is_ready : CallbackRun → Bool
is_ready (runs_chain_catch e st) = st.failed && not st.completed
is_ready (runs_chain_finally st) = st.failed || st.completed
is_ready (runs_batch_catch e st) = not (eqb st.failed 0) || st.cancelled
is_ready (runs_batch_then st) = st.completed && not st.cancelled
is_ready (runs_batch_finally st) = st.completed

-- The claim that stands for the callback in the store: one for each kind and workflow.
unfoldable pub claim_of : CallbackRun → String
claim_of (runs_chain_catch e st) = concat "chain_catch:" st.chain_id
claim_of (runs_chain_finally st) = concat "chain_finally:" st.chain_id
claim_of (runs_batch_catch e st) = concat "batch_catch:" st.batch_id
claim_of (runs_batch_then st) = concat "batch_then:" st.batch_id
claim_of (runs_batch_finally st) = concat "batch_finally:" st.batch_id

-- The same callback of the same workflow, in states and with errors that may differ.
pub data SameCallback : CallbackRun → CallbackRun → Type 0 where
  same_chain_catch :
      (e e' : Option Failure) (st st' : ChainState)
      → st.chain_id ≡ st'.chain_id
      → SameCallback (runs_chain_catch e st) (runs_chain_catch e' st')
  same_chain_finally :
      (st st' : ChainState)
      → st.chain_id ≡ st'.chain_id
      → SameCallback (runs_chain_finally st) (runs_chain_finally st')
  same_batch_catch :
      (e e' : Option Failure) (st st' : BatchState)
      → st.batch_id ≡ st'.batch_id
      → SameCallback (runs_batch_catch e st) (runs_batch_catch e' st')
  same_batch_then :
      (st st' : BatchState)
      → st.batch_id ≡ st'.batch_id
      → SameCallback (runs_batch_then st) (runs_batch_then st')
  same_batch_finally :
      (st st' : BatchState)
      → st.batch_id ≡ st'.batch_id
      → SameCallback (runs_batch_finally st) (runs_batch_finally st')

SameCallback-claim_of : (k k' : CallbackRun) → SameCallback k k' → claim_of k ≡ claim_of k'
unfolding claim_of
SameCallback-claim_of _ _ (same_chain_catch e e' st st' h) = ap (concat "chain_catch:") h
SameCallback-claim_of _ _ (same_chain_finally st st' h) = ap (concat "chain_finally:") h
SameCallback-claim_of _ _ (same_batch_catch e e' st st' h) = ap (concat "batch_catch:") h
SameCallback-claim_of _ _ (same_batch_then st st' h) = ap (concat "batch_then:") h
SameCallback-claim_of _ _ (same_batch_finally st st' h) = ap (concat "batch_finally:") h

-- How an invocation is made of the shared one.
record Observed (r : Runtime) (Q : MemoryStore → Type 0) (k : CallbackRun) : Type 0 where
  closure : World → Option ℕ
  call : ℕ → Action CallbackResult
  finish : Action (Unit {0})
  keeps_call : (c : ℕ) → Keeps (OnStore Q) (call c)
  keeps_finish : Keeps (OnStore Q) finish
  same :
      (ctx : Option Context) (env : Envelope) (begun : ℕ)
      → run_callback r ctx env begun k
        ≡ invoke_observed r ctx env begun (is_ready k) (claim_of k) closure call finish

observed :
    (r : Runtime) {Q : MemoryStore → Type 0} (kept : KeptOutside Q r) (k : CallbackRun)
    → Observed r Q k
unfolding run_callback invoke_chain_catch_observed invoke_chain_finally_observed
    invoke_batch_catch_observed invoke_batch_then_observed invoke_batch_finally_observed is_ready
    claim_of
observed r kept (runs_chain_catch e st) = record {
  closure = λ w. (chain_closures w st.chain_id).catch;
  call = λ c. r.call_chain c st e;
  finish = finish_chain_callback st.chain_id "catch";
  keeps_call = λ c. kept.call_chain c st e;
  keeps_finish = Keeps-finish_chain_callback st.chain_id "catch";
  same = λ ctx env begun. refl;
}
observed r kept (runs_chain_finally st) = record {
  closure = λ w. (chain_closures w st.chain_id).finally;
  call = λ c. r.call_chain c st none;
  finish = finish_chain_callback st.chain_id "finally";
  keeps_call = λ c. kept.call_chain c st none;
  keeps_finish = Keeps-finish_chain_callback st.chain_id "finally";
  same = λ ctx env begun. refl;
}
observed r kept (runs_batch_catch e st) = record {
  closure = λ w. (batch_closures w st.batch_id).catch;
  call = λ c. r.call_batch c st e;
  finish = finish_batch_callback st.batch_id "catch";
  keeps_call = λ c. kept.call_batch c st e;
  keeps_finish = Keeps-finish_batch_callback st.batch_id "catch";
  same = λ ctx env begun. refl;
}
observed r kept (runs_batch_then st) = record {
  closure = λ w. (batch_closures w st.batch_id).then_;
  call = λ c. r.call_batch c st none;
  finish = finish_batch_callback st.batch_id "then";
  keeps_call = λ c. kept.call_batch c st none;
  keeps_finish = Keeps-finish_batch_callback st.batch_id "then";
  same = λ ctx env begun. refl;
}
observed r kept (runs_batch_finally st) = record {
  closure = λ w. (batch_closures w st.batch_id).finally;
  call = λ c. r.call_batch c st none;
  finish = finish_batch_callback st.batch_id "finally";
  keeps_call = λ c. kept.call_batch c st none;
  keeps_finish = Keeps-finish_batch_callback st.batch_id "finally";
  same = λ ctx env begun. refl;
}

-- A ready invocation leaves its claim in the store.
run_callback-IsClaimed :
    (r : Runtime) (ctx : Option Context) (env : Envelope) (begun : ℕ) (k : CallbackRun)
    → is_ready k ≡ true
    → KeptOutside (IsClaimed (claim_of k)) r
    → (w : World) → IsClaimed (claim_of k) (run_callback r ctx env begun k w).1.store
run_callback-IsClaimed r ctx env begun k ready kept w =
    let o = observed r kept k in
    subst (λ m. IsClaimed (claim_of k) (m w).1.store)
      (sym (
        o.same ctx env begun
        ∙ ap (λ b. invoke_observed r ctx env begun b (claim_of k) o.closure o.call o.finish) ready))
      (invoked-IsClaimed r ctx env begun (claim_of k) o.closure o.call o.finish kept o.keeps_call
        o.keeps_finish w)

-- What an invocation of a claimed callback does.
claimed-run_callback :
    (r : Runtime) (ctx : Option Context) (env : Envelope) (begun : ℕ) (k : CallbackRun)
    → KeptOutside (IsClaimed (claim_of k)) r
    → (w : World) → IsClaimed (claim_of k) w.store
    → run_callback r ctx env begun k w ≡ (
        if is_ready k
        then ((begun, already_invoked), at_store r w)
        else ((begun, finished (some callback_not_ready)), w))
claimed-run_callback r ctx env begun k kept w claimed =
    let o = observed r kept k in
    ap (λ m. m w) (o.same ctx env begun) ∙ elim (Bool-cases (is_ready k)) [
      | inl ready ↦ rw (ready) (
          claimed-already_invoked r ctx env begun (claim_of k) o.closure o.call o.finish w
            (kept.others.at (record w { readings = w.readings + 1 })
              (record { holds = claimed })).holds)
      | inr unready ↦
          rw (unready)
            (unready-invoke_observed r ctx env begun (claim_of k) o.closure o.call o.finish w)
    ]

-- Once a catch, then or finally callback of a workflow was invoked in a state in which it may run, no
-- later invocation of that callback of that workflow runs it, whatever the application dispatches and
-- the bus delivers in between, and whatever the workflow's state and the error are by then: where the
-- state allows the callback it answers that the callback was invoked, and else that it is not ready, and
-- it emits nothing, runs no closure, and, but for a reading of the clock and what other goroutines do
-- before its call of the store, changes nothing. The condition is that no pruning and no code outside
-- removes the claim.
pub run_callback-once :
    (r : Runtime) (ctx : Option Context) (env : Envelope) (begun : ℕ) (k : CallbackRun)
    → is_ready k ≡ true
    → KeptOutside (IsClaimed (claim_of k)) r
    → (cs : List EngineCall) → All (PruneKeeps (IsClaimed (claim_of k))) cs
    → (w : World) (ctx' : Option Context) (env' : Envelope) (begun' : ℕ) (k' : CallbackRun)
    → SameCallback k k'
    → let w' = (run_calls r cs (run_callback r ctx env begun k w).1).1 in
      run_callback r ctx' env' begun' k' w' ≡ (
        if is_ready k'
        then ((begun', already_invoked), at_store r w')
        else ((begun', finished (some callback_not_ready)), w'))
run_callback-once r ctx env begun k ready kept cs spared w ctx' env' begun' k' same =
    let key = claim_of k in
    let first = (run_callback r ctx env begun k w).1 in
    let later =
      (Keeps-run_calls r kept (IsClaimed-KeptByDeliveries key) (IsClaimed-KeptByDispatch key) cs
          spared).at
        first (record { holds = run_callback-IsClaimed r ctx env begun k ready kept w }) in
    let one = SameCallback-claim_of k k' same in
    claimed-run_callback r ctx' env' begun' k' (subst (λ n. KeptOutside (IsClaimed n) r) one kept)
      (run_calls r cs first).1
      (subst (λ n. IsClaimed n (run_calls r cs first).1.store) one later.holds)
