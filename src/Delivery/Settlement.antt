-- ===== src/Delivery/Settlement.antt =====
-- `DeliverySettlement` of busruntime/delivery_settlement.go. A deferred function is a value of C, and
-- an invocation of it a record in `published`. `Commit` takes the functions under the mutex and then
-- runs them one by one, so other calls can come between: `publishing` holds those it still has to run.
pub mod Publication
use queue.Prelude.{Bool, true, false, List, [], ◌∷◌, ◌++◌, Option, none, some, if◌then◌else◌}
use queue.Delivery.Context.{Context, delivery_settlement_from_context}

pub record DeliverySettlement {ℓ} (C : Type ℓ) : Type ℓ where
  pub committed : Bool
  pub application_state_committed : Bool
  pub callbacks : List C
  pub publishing : List C
  pub published : List C

-- A call of a method by any goroutine, or one pass of a running `Commit`.
pub data Event {ℓ} (C : Type ℓ) : Type ℓ where
  defer_event : Option Context → Option C → Event C
  mark_event : Option Context → Event C
  commit_event : Event C
  publish_event : Event C

module _ {ℓ} {C : Type ℓ} where
  -- `&DeliverySettlement{}`
  abbrev pub new_settlement : DeliverySettlement C
  new_settlement = record {
    committed = false;
    application_state_committed = false;
    callbacks = [];
    publishing = [];
    published = [];
  }

  -- `invokeDeliveryCommit` recovers from a panic, so it always returns.
  unfoldable pub invoke_delivery_commit : DeliverySettlement C → C → DeliverySettlement C
  invoke_delivery_commit s fn = record s { published = s.published ++ fn ∷ [] }

  unfoldable pub defer_commit : DeliverySettlement C → C → DeliverySettlement C
  unfolding invoke_delivery_commit
  defer_commit s fn =
      if s.committed
      then invoke_delivery_commit s fn
      else record s { callbacks = s.callbacks ++ fn ∷ [] }

  -- `DeferUntilDeliveryCommitted` for the settlement that the context carries.
  unfoldable pub defer_until_delivery_committed :
      DeliverySettlement C → Option Context → Option C → Bool × DeliverySettlement C
  unfolding defer_commit delivery_settlement_from_context
  defer_until_delivery_committed s ctx none = (false, s)
  defer_until_delivery_committed s ctx (some fn) = elim (delivery_settlement_from_context ctx) [
    | none ↦ (false, s)
    | some address ↦ (true, defer_commit s fn)
  ]

  unfoldable pub mark_delivery_application_state_committed :
      DeliverySettlement C → Option Context → Bool × DeliverySettlement C
  unfolding delivery_settlement_from_context
  mark_delivery_application_state_committed s ctx = elim (delivery_settlement_from_context ctx) [
    | none ↦ (false, s)
    | some address ↦ (true, record s { application_state_committed = true })
  ]

  unfoldable pub application_state_committed : Option (DeliverySettlement C) → Bool
  application_state_committed none = false
  application_state_committed (some s) = s.application_state_committed

  -- `Commit` up to its unlock.
  unfoldable pub commit : DeliverySettlement C → DeliverySettlement C
  commit s =
      if s.committed
      then s
      else record s { committed = true; callbacks = []; publishing = s.callbacks }

  -- One pass of the loop of `Commit`.
  unfoldable pub publish_next : DeliverySettlement C → DeliverySettlement C
  unfolding invoke_delivery_commit
  publish_next s = elim s.publishing [
    | [] ↦ s
    | fn ∷ rest ↦ invoke_delivery_commit (record s { publishing = rest }) fn
  ]

  unfoldable pub step : DeliverySettlement C → Event C → DeliverySettlement C
  unfolding defer_until_delivery_committed mark_delivery_application_state_committed commit
      publish_next
  step s (defer_event ctx fn) = (defer_until_delivery_committed s ctx fn).1
  step s (mark_event ctx) = (mark_delivery_application_state_committed s ctx).1
  step s commit_event = commit s
  step s publish_event = publish_next s

  unfoldable pub run_events : DeliverySettlement C → List (Event C) → DeliverySettlement C
  unfolding step
  run_events s [] = s
  run_events s (event ∷ events) = run_events (step s event) events

  -- The functions whose deferral answered `true`.
  unfoldable pub deferred : List (Event C) → List C
  unfolding delivery_settlement_from_context
  deferred [] = []
  deferred (defer_event ctx none ∷ events) = deferred events
  deferred (defer_event ctx (some fn) ∷ events) = elim (delivery_settlement_from_context ctx) [
    | none ↦ deferred events
    | some address ↦ fn ∷ deferred events
  ]
  deferred (mark_event ctx ∷ events) = deferred events
  deferred (commit_event ∷ events) = deferred events
  deferred (publish_event ∷ events) = deferred events
