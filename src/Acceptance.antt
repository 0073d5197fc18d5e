-- ===== src/Acceptance.antt =====
-- `dispatchAcceptance` of dispatch_acceptance.go: the moment from which a dispatch counts as accepted.
-- A callback is a value of C and its invocation an entry of `invoked`; callbacks return. As in the
-- delivery settlement, `releasing` holds those that a running `markAccepted` has taken.
pub mod AsSettlement
mod Tests
use queue.Prelude.{ℕ, Bool, true, false, List, [], ◌∷◌, ◌++◌, Option, none, some, if◌then◌else◌}

pub record DispatchAcceptance {ℓ} (C : Type ℓ) : Type ℓ where
  pub accepted : Bool
  pub callbacks : List C
  pub releasing : List C
  pub invoked : List C

-- The part of a context that holds the address of an acceptance.
abbrev pub AcceptanceContext : Type 0
AcceptanceContext = Option ℕ

-- `dispatchAcceptanceFromContext`; the outer `none` is a nil context.
unfoldable pub dispatch_acceptance_from_context : Option AcceptanceContext → Option ℕ
dispatch_acceptance_from_context none = none
dispatch_acceptance_from_context (some acceptance) = acceptance

-- `ensureDispatchAcceptance` for the address that an allocation would give: the context's key, the
-- acceptance, and whether it is new.
unfoldable pub ensure_dispatch_acceptance :
    Option AcceptanceContext → ℕ → AcceptanceContext × ℕ × Bool
unfolding dispatch_acceptance_from_context
ensure_dispatch_acceptance ctx fresh = elim (dispatch_acceptance_from_context ctx) [
  | none ↦ (some fresh, fresh, true)
  | some current ↦ (some current, current, false)
]

module _ {ℓ} {C : Type ℓ} where
  -- `&dispatchAcceptance{}`
  abbrev pub new_acceptance : DispatchAcceptance C
  new_acceptance = record { accepted = false; callbacks = []; releasing = []; invoked = [] }

  -- `onAccepted`; a nil callback is `none`.
  unfoldable pub on_accepted : DispatchAcceptance C → Option C → DispatchAcceptance C
  on_accepted a none = a
  on_accepted a (some callback) =
      if a.accepted
      then record a { invoked = a.invoked ++ callback ∷ [] }
      else record a { callbacks = a.callbacks ++ callback ∷ [] }

  -- `markAccepted` up to its second unlock.
  unfoldable pub mark_accepted : DispatchAcceptance C → DispatchAcceptance C
  mark_accepted a =
      if a.accepted
      then a
      else record a { accepted = true; callbacks = []; releasing = [] ++ a.callbacks }

  -- One pass of its loop.
  unfoldable pub release_next : DispatchAcceptance C → DispatchAcceptance C
  release_next a = elim a.releasing [
    | [] ↦ a
    | callback ∷ rest ↦ record a { releasing = rest; invoked = a.invoked ++ callback ∷ [] }
  ]

  -- `isAccepted`; a nil acceptance is `none`.
  unfoldable pub is_accepted : Option (DispatchAcceptance C) → Bool
  is_accepted none = false
  is_accepted (some a) = a.accepted
