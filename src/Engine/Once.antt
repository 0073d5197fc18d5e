-- ===== src/Engine/Once.antt =====
-- A claim of a callback: `callbackOnce` of internal/workflow/batch.go, and what an invocation that has
-- asked it does.
pub mod Kinds
use Prim.Native.String.{◌++◌ as concat}
use queue.Prelude.{
  ◌≡◌, refl, ap, ◌∙◌, subst, sym, ◌+◌, ℕ, Bool, true, false, not, ◌&&◌, ◌||◌, eqb, String, List,
  Option, none, some, All, inl, inr, Option-cases, Bool-cases, arith, eq_iff, if◌then◌else◌,
}
use queue.Delivery.Failure.{Failure}
use queue.Workflow.Types.{ChainState, BatchState}
use queue.Delivery.Context.{Context}
use queue.Workflow.Memory.Store.{MemoryStore}
use queue.Workflow.Memory.Retention.{mark_callback_invoked}
use queue.Workflow.Memory.Callbacks.{
  IsClaimed, create_chain-callbacks, create_batch-callbacks, cancel_batch-callbacks,
  start-callbacks, advance-callbacks, fail-callbacks, invoke-callbacks, settle-callbacks,
}
use queue.Engine.Types.{Envelope, CallbackResult}
use queue.Engine.World.{World, Action, pure, ◌>>=◌, tick}
use queue.Engine.World.Keeps.{Keeps}
use queue.Engine.Runtime.{Runtime, on_store, now}
use queue.Engine.Outside.{
  OnStore, KeptOutside, Keeps-finish_chain_callback, Keeps-finish_batch_callback,
}
use queue.Engine.Closures.{
  chain_closures, batch_closures, finish_chain_callback, finish_batch_callback,
}
use queue.Engine.Callback.{
  Invocation, already_invoked, finished, callback_not_ready, callback_once, settle_claim,
  invoke_observed, invoke_chain_catch_observed, invoke_chain_finally_observed,
  invoke_batch_catch_observed, invoke_batch_then_observed, invoke_batch_finally_observed,
}
use queue.Engine.Invariant.{KeptByDeliveries}
use queue.Engine.Invariant.OfDispatch.{KeptByDispatch}
use queue.Engine.Invariant.OfCallbacks.{Keeps-settle_claim}
use queue.Engine.Invariant.Calls.{EngineCall, PruneKeeps, run_calls, Keeps-run_calls}

module _ (key : String) where
  same_claims :
      (m m' : MemoryStore) → m'.callbacks ≡ m.callbacks → IsClaimed key m → IsClaimed key m'
  same_claims m m' same h = record { time = h.time; claimed = ap (λ t. t key) same ∙ h.claimed }

  pub IsClaimed-KeptByDeliveries : KeptByDeliveries (IsClaimed key)
  IsClaimed-KeptByDeliveries = record {
    advance = λ c n claim time later m. same_claims m _ (advance-callbacks m c n claim time later);
    fail = λ c n cause claim time later m.
        same_claims m _ (fail-callbacks m c n cause claim time later);
    start = λ id job time m. same_claims m _ (start-callbacks m id job time);
    settle = λ id job kind claim time later m.
        same_claims m _ (settle-callbacks m id job kind claim time later);
    invoke = λ other_key time m. invoke-callbacks m key other_key time;
  }

  pub IsClaimed-KeptByDispatch : KeptByDispatch (IsClaimed key)
  IsClaimed-KeptByDispatch = record {
    create_chain = λ rec time m. same_claims m _ (create_chain-callbacks m rec time);
    create_batch = λ rec time m. same_claims m _ (create_batch-callbacks m rec time);
    cancel = λ id time m. same_claims m _ (cancel_batch-callbacks m id time);
  }

-- The world once the clock has been read and the other deliveries have run, as a method of the store
-- finds it.
abbrev pub at_store : Runtime → World → World
at_store r w = (r.others (record w { readings = w.readings + 1 })).1

-- The claim's answer says whether the callback was claimed before, and it is claimed now.
marked-IsClaimed :
    (m : MemoryStore) (key : String) (time : ℕ) → IsClaimed key (mark_callback_invoked m key time).1
unfolding mark_callback_invoked
marked-IsClaimed m key time = elim (Option-cases (m.callbacks key)) [
  | inl absent ↦ record { time = time; claimed = ground (arith, absent, eq_iff key key) }
  | inr (t, there) ↦ record { time = t; claimed = ground (arith, there) }
]

callback_once-IsClaimed :
    (r : Runtime) (key : String) (w : World) → IsClaimed key (callback_once r key w).1.store
unfolding callback_once on_store now ◌>>=◌ pure tick
callback_once-IsClaimed r key w = marked-IsClaimed (at_store r w).store key (r.clock w.readings)

claimed-mark :
    (m : MemoryStore) (key : String) (time : ℕ)
    → IsClaimed key m
    → mark_callback_invoked m key time ≡ (false, m)
unfolding mark_callback_invoked
claimed-mark m key time h = rw (h.claimed, mark_callback_invoked) refl

claimed-callback_once :
    (r : Runtime) (key : String) (w : World)
    → IsClaimed key (at_store r w).store
    → callback_once r key w ≡ (false, at_store r w)
unfolding callback_once on_store now ◌>>=◌ pure tick
claimed-callback_once r key w h =
    ap (λ p. (p.0, record (at_store r w) { store = p.1 }))
      (claimed-mark (at_store r w).store key (r.clock w.readings) h)

-- A claimed callback is not run again.
pub claimed-already_invoked :
    (r : Runtime) (ctx : Option Context) (env : Envelope) (begun : ℕ) (key : String)
    (closure : World → Option ℕ) (call : ℕ → Action CallbackResult) (finish : Action (Unit {0}))
    (w : World)
    → IsClaimed key (at_store r w).store
    → invoke_observed r ctx env begun true key closure call finish w
      ≡ ((begun, already_invoked), at_store r w)
unfolding invoke_observed ◌>>=◌ pure settle_claim
claimed-already_invoked r ctx env begun key closure call finish w h =
    rw (claimed-callback_once r key w h) refl

-- Whether the claim was new or not, the callback is claimed when an invocation of it that was ready ends.
pub invoked-IsClaimed :
    (r : Runtime) (ctx : Option Context) (env : Envelope) (begun : ℕ) (key : String)
    (closure : World → Option ℕ) (call : ℕ → Action CallbackResult) (finish : Action (Unit {0}))
    (kept : KeptOutside (IsClaimed key) r)
    → ((c : ℕ) → Keeps (OnStore (IsClaimed key)) (call c))
    → Keeps (OnStore (IsClaimed key)) finish
    → (w : World)
    → IsClaimed key (invoke_observed r ctx env begun true key closure call finish w).1.store
unfolding invoke_observed ◌>>=◌
invoked-IsClaimed r ctx env begun key closure call finish kept kc kf w =
    let (marked, w') = callback_once r key w in
    ((Keeps-settle_claim r kept (IsClaimed-KeptByDeliveries key) ctx env begun closure call finish
        marked kc kf).at
      w' (record { holds = callback_once-IsClaimed r key w })).holds

-- A callback that is not ready runs nothing either.
pub unready-invoke_observed :
    (r : Runtime) (ctx : Option Context) (env : Envelope) (begun : ℕ) (key : String)
    (closure : World → Option ℕ) (call : ℕ → Action CallbackResult) (finish : Action (Unit {0}))
    (w : World)
    → invoke_observed r ctx env begun false key closure call finish w
      ≡ ((begun, finished (some callback_not_ready)), w)
unfolding invoke_observed pure
unready-invoke_observed r ctx env begun key closure call finish w = refl
