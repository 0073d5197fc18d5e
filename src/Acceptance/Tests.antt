-- ===== src/Acceptance/Tests.antt =====
-- A callback before acceptance and one after it.
use queue.Prelude.{ℕ, List, [], ◌∷◌, some, ◌≡◌, refl}
use queue.Prelude.Equality.{count, nat_eq}
use queue.Delivery.Settlement.Publication.{Accounts}
use queue.Acceptance.{new_acceptance}
use queue.Acceptance.AsSettlement.{
  Call, on_call, mark_call, release_call, as_settlement, run_calls, registered,
  run_calls-new-Accounts,
}

abbrev some_calls : List (Call ℕ)
some_calls = on_call (some 3) ∷ mark_call ∷ on_call (some 4) ∷ release_call ∷ mark_call ∷ []

invoked_once : (run_calls new_acceptance some_calls).invoked ≡ 4 ∷ 3 ∷ []
unfolding run_calls
invoked_once = refl

run_calls-new-Accounts_example :
    Accounts
      (as_settlement (run_calls new_acceptance some_calls))
      (λ c. count c (registered some_calls))
run_calls-new-Accounts_example = run_calls-new-Accounts some_calls
