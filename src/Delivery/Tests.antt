-- ===== src/Delivery/Tests.antt =====
-- Runs of the delivery model on small inputs.
use queue.Prelude.{arith, ℕ, List, [], ◌∷◌, Option, none, some, ◌≡◌, refl, length, ◌||◌, eqb}
use queue.Prelude.Equality.{count, nat_eq}
use queue.Delivery.Context.{Context, background, or_background}
use queue.Delivery.Settlement.{
  Event, new_settlement, defer_event, commit_event, publish_event, commit, run_events, deferred,
}
use queue.Delivery.Settlement.Publication.{
  Accounts, run_events-new-Accounts, publish_all, commit-publishes,
}
use queue.Delivery.Permits.{
  PermitHeap, continuation_permits, permit_of, release, owns, preserve_delivery_context,
}
use queue.Delivery.Permits.Ownership.{permit_of-release, owns-preserve_delivery_context}

abbrev settled_context : Option Context
settled_context = some (record background { settlement = some 0 })

-- A function is deferred before the commit, one while it publishes, and one without a settlement.
abbrev history : List (Event ℕ)
history =
    defer_event settled_context (some 7)
    ∷ defer_event none (some 8)
    ∷ commit_event
    ∷ defer_event settled_context (some 9)
    ∷ publish_event
    ∷ []

history_published : (run_events new_settlement history).published ≡ 9 ∷ 7 ∷ []
unfolding run_events
history_published = refl

run_events-new-Accounts_example :
    Accounts (run_events new_settlement history) (λ c. count c (deferred history))
run_events-new-Accounts_example = run_events-new-Accounts history

commit-publishes_example :
    count 7
      (publish_all
        (length (commit (run_events new_settlement history)).publishing)
        (commit (run_events new_settlement history))).published
    ≡ count 7 (deferred history)
commit-publishes_example = commit-publishes history 7

abbrev no_permits : PermitHeap
no_permits = record { next = 0; permit = λ p. none }

abbrev owned_context : Option Context
owned_context = some ((permit_of no_permits (some 5) none).0)

abbrev one_permit : PermitHeap
one_permit = (permit_of no_permits (some 5) none).2

permit_of-release_example :
    (owns
        (permit_of one_permit (some 6) owned_context).2
        (some 5)
        (some (permit_of one_permit (some 6) owned_context).0)
      ≡ (owns one_permit (some 5) owned_context || eqb 6 5))
    × (owns
          (release
            (permit_of one_permit (some 6) owned_context).2
            (permit_of one_permit (some 6) owned_context).1)
          (some 5)
          (some (permit_of one_permit (some 6) owned_context).0)
        ≡ owns one_permit (some 5) owned_context)
unfolding continuation_permits permit_of or_background
permit_of-release_example = permit_of-release one_permit 6 owned_context 5 (omega arith, tt)

owns-preserve_delivery_context_example :
    owns
      (permit_of no_permits (some 5) none).2
      (some 5)
      (some (preserve_delivery_context owned_context (some background)))
    ≡ (owns (permit_of no_permits (some 5) none).2 (some 5) (some background)
        || owns (permit_of no_permits (some 5) none).2 (some 5) owned_context)
owns-preserve_delivery_context_example =
    owns-preserve_delivery_context (permit_of no_permits (some 5) none).2 (some 5) owned_context
      (some background)
