-- ===== src/Acceptance/AsSettlement.antt =====
-- A dispatch acceptance takes the steps of a delivery settlement, so what is proved of one holds for
-- the other.
use queue.Prelude.{
  sym, subst, ap, ◌∙◌, false, List, [], ◌∷◌, Option, none, some, ◌≡◌, refl, arith, inl, inr,
  Bool-cases, List-cases,
}
use queue.Prelude.Equality.{Eq, count}
use queue.Delivery.Context.{Context, background}
use queue.Delivery.Settlement.{
  DeliverySettlement, new_settlement, Event, defer_event, commit_event, publish_event, step,
  run_events, deferred, defer_until_delivery_committed,
}
use queue.Delivery.Settlement.Publication.{Accounts, run_events-new-Accounts}
use queue.Acceptance.{DispatchAcceptance, new_acceptance, on_accepted, mark_accepted, release_next}

-- A call of a method, or one pass of the loop of a running `markAccepted`.
pub data Call {ℓ} (C : Type ℓ) : Type ℓ where
  on_call : Option C → Call C
  mark_call : Call C
  release_call : Call C

-- A context with a settlement.
abbrev settled : Option Context
settled = some (record background { settlement = some 0 })

module _ {ℓ} {C : Type ℓ} where
  -- The settlement with the same flags and functions.
  abbrev pub as_settlement : DispatchAcceptance C → DeliverySettlement C
  as_settlement a = record {
    committed = a.accepted;
    application_state_committed = false;
    callbacks = a.callbacks;
    publishing = a.releasing;
    published = a.invoked;
  }

  unfoldable pub perform_call : DispatchAcceptance C → Call C → DispatchAcceptance C
  unfolding on_accepted mark_accepted release_next
  perform_call a (on_call callback) = on_accepted a callback
  perform_call a mark_call = mark_accepted a
  perform_call a release_call = release_next a

  unfoldable pub run_calls : DispatchAcceptance C → List (Call C) → DispatchAcceptance C
  unfolding perform_call
  run_calls a [] = a
  run_calls a (call ∷ calls) = run_calls (perform_call a call) calls

  -- The callbacks that the calls register.
  unfoldable pub registered : List (Call C) → List C
  registered [] = []
  registered (on_call none ∷ calls) = registered calls
  registered (on_call (some callback) ∷ calls) = callback ∷ registered calls
  registered (mark_call ∷ calls) = registered calls
  registered (release_call ∷ calls) = registered calls

  as_event : Call C → Event C
  as_event (on_call callback) = defer_event settled callback
  as_event mark_call = commit_event
  as_event release_call = publish_event

  as_events : List (Call C) → List (Event C)
  unfolding as_event
  as_events [] = []
  as_events (call ∷ calls) = as_event call ∷ as_events calls

  as_settlement-perform_call :
      (a : DispatchAcceptance C) (call : Call C)
      → as_settlement (perform_call a call) ≡ step (as_settlement a) (as_event call)
  unfolding perform_call as_event step defer_until_delivery_committed
  as_settlement-perform_call a (on_call none) = refl
  as_settlement-perform_call a (on_call (some callback)) = elim (Bool-cases a.accepted) [
    | inl done ↦ ground (arith, done)
    | inr waits ↦ ground (arith, waits)
  ]
  as_settlement-perform_call a mark_call = elim (Bool-cases a.accepted) [
    | inl done ↦ ground (arith, done)
    | inr waits ↦ ground (arith, waits)
  ]
  as_settlement-perform_call a release_call = elim (List-cases a.releasing) [
    | inl empty ↦ ground (arith, empty)
    | inr (callback, rest, more) ↦ ground (arith, more)
  ]

  as_settlement-run_calls :
      (calls : List (Call C)) (a : DispatchAcceptance C)
      → as_settlement (run_calls a calls) ≡ run_events (as_settlement a) (as_events calls)
  unfolding run_calls run_events as_events
  as_settlement-run_calls [] a = refl
  as_settlement-run_calls (call ∷ calls) a =
      as_settlement-run_calls calls (perform_call a call)
      ∙ ap (λ s. run_events s (as_events calls)) (as_settlement-perform_call a call)

  deferred-as_events : (calls : List (Call C)) → deferred (as_events calls) ≡ registered calls
  unfolding deferred as_events registered
  deferred-as_events [] = refl
  deferred-as_events (on_call none ∷ calls) = deferred-as_events calls
  deferred-as_events (on_call (some callback) ∷ calls) =
      ap (λ cs. callback ∷ cs) (deferred-as_events calls)
  deferred-as_events (mark_call ∷ calls) = deferred-as_events calls
  deferred-as_events (release_call ∷ calls) = deferred-as_events calls

module _ {ℓ} {C : Type ℓ} ⦃e : Eq C⦄ where
  -- After any calls and interleavings on a new acceptance, every registered callback is waiting, about
  -- to run, or has run, together as often as it was registered; before acceptance none has run, and
  -- after it none waits.
  pub run_calls-new-Accounts :
      (calls : List (Call C))
      → Accounts (as_settlement (run_calls new_acceptance calls)) (λ c. count c (registered calls))
  run_calls-new-Accounts calls =
      subst (λ s. Accounts s (λ c. count c (registered calls)))
        (sym (as_settlement-run_calls calls new_acceptance))
        (subst (λ cs. Accounts (run_events new_settlement (as_events calls)) (λ c. count c cs))
          (deferred-as_events calls) (run_events-new-Accounts (as_events calls)))
