-- ===== src/Engine/World.antt =====
-- What the engine's functions act on: the store, the closures of workflows, the settlement of the
-- delivery at hand, the facts that its observer has, and a count of the readings of the clock and of
-- the random source. `chain_result` is the recorder of the chain dispatch that waits for this delivery,
-- if its context carries one, with the first error that it has.
pub mod Keeps
use queue.Prelude.{
  ℕ, ◌+◌, String, List, [], ◌∷◌, ◌++◌, Bool, Option, none, some, Result, ok, err, if◌then◌else◌,
}
use queue.Prelude.Table.{Table}
use queue.Delivery.Settlement.{DeliverySettlement}
use queue.Workflow.Memory.Store.{MemoryStore}
use queue.Delivery.Failure.{Failure}
use queue.Engine.Types.{Event, ChainCallbacks, BatchCallbacks}

pub record World : Type 0 where
  pub store : MemoryStore
  pub chain_callbacks : Table String ChainCallbacks
  pub batch_callbacks : Table String BatchCallbacks
  pub settlement : DeliverySettlement Event
  pub observed : List Event
  pub chain_result : Option (Option Failure)
  pub readings : ℕ

-- A function with effects. It always returns: an error is a part of its result.
abbrev pub Action : Type 0 → Type 0
Action A = World → A × World

module _ {A : Type 0} where
  unfoldable pub pure : A → Action A
  pure a w = (a, w)

  unfoldable pub gets : (World → A) → Action A
  gets f w = (f w, w)

module _ {A B : Type 0} where
  infixl 5 ◌>>=◌ ◌>>◌
  unfoldable pub ◌>>=◌ : Action A → (A → Action B) → Action B
  ◌>>=◌ m f w = let (a, w') = m w in f a w'

  unfoldable pub ◌>>◌ : Action A → Action B → Action B
  ◌>>◌ m k w = let (a, w') = m w in k w'

  -- `if v, ok := …; ok`
  unfoldable pub on_option : Option A → Action B → (A → Action B) → Action B
  on_option none m f = m
  on_option (some a) m f = f a

  -- `if err != nil`
  unfoldable pub on_result : {E : Type 0} → Result E A → (E → Action B) → (A → Action B) → Action B
  on_result (err e) m f = m e
  on_result (ok a) m f = f a

unfoldable pub modify : (World → World) → Action (Unit {0})
modify f w = (tt, f w)

unfoldable pub tick : Action ℕ
tick w = (w.readings, record w { readings = w.readings + 1 })
