-- ===== src/Delivery/Settlement/Publication.antt =====
-- Deferred functions of a delivery settlement, from their registration to their invocation.
use queue.Prelude.{
  ℕ, true, false, List, [], ◌∷◌, none, some, ◌+◌, ◌≡◌, refl, subst, ◌∙◌, arith, length, zero, suc,
  inl, inr, Bool-cases, Option-cases, List-cases,
}
use queue.Prelude.Equality.{Eq, count, count-append}
use queue.Delivery.Context.{delivery_settlement_from_context}
use queue.Delivery.Settlement.{
  DeliverySettlement, new_settlement, Event, defer_event, mark_event, commit_event, publish_event,
  invoke_delivery_commit, defer_commit, defer_until_delivery_committed,
  mark_delivery_application_state_committed, commit, publish_next, step, run_events, deferred,
}

module _ {ℓ} {C : Type ℓ} ⦃e : Eq C⦄ where
  -- Every deferred function is registered, about to run, or has run, and none runs before the commit.
  pub record Accounts (s : DeliverySettlement C) (total : C → ℕ) : Type ℓ where
    once : (c : C) → count c s.published + count c s.publishing + count c s.callbacks ≡ total c
    before : s.committed ≡ false → (s.published ≡ []) × (s.publishing ≡ [])
    after : s.committed ≡ true → s.callbacks ≡ []

  defer_commit-Accounts :
      (s : DeliverySettlement C) (fn : C) (total : C → ℕ)
      → Accounts s total
      → Accounts (defer_commit s fn) (λ c. total c + count c (fn ∷ []))
  unfolding defer_commit invoke_delivery_commit
  defer_commit-Accounts s fn total inv = elim (Bool-cases s.committed) [
    | inl done ↦ record {
      once = λ c. ground (arith, done, inv.once c, count-append c s.published (fn ∷ []));
      before = λ h. absurd (ground (arith, done, h));
      after = λ h. ground (arith, done, inv.after done);
    }
    | inr open_still ↦ record {
      once = λ c. ground (arith, open_still, inv.once c, count-append c s.callbacks (fn ∷ []));
      before = λ h. (
        ground (arith, open_still, inv.before open_still),
        ground (arith, open_still, inv.before open_still),
      );
      after = λ h. absurd (ground (arith, open_still, h));
    }
  ]

  commit-Accounts :
      (s : DeliverySettlement C) (total : C → ℕ) → Accounts s total → Accounts (commit s) total
  unfolding commit
  commit-Accounts s total inv = elim (Bool-cases s.committed) [
    | inl done ↦ record {
      once = λ c. ground (arith, done, inv.once c);
      before = λ h. absurd (ground (arith, done, h));
      after = λ h. ground (arith, done, inv.after done);
    }
    | inr open_still ↦ record {
      once = λ c. ground (arith, open_still, inv.once c, inv.before open_still);
      before = λ h. absurd (ground (arith, open_still, h));
      after = λ h. ground (arith, open_still);
    }
  ]

  publish_next-Accounts :
      (s : DeliverySettlement C) (total : C → ℕ)
      → Accounts s total
      → Accounts (publish_next s) total
  unfolding publish_next invoke_delivery_commit
  publish_next-Accounts s total inv = elim (List-cases s.publishing) [
    | inl done ↦ record {
      once = λ c. ground (arith, done, inv.once c);
      before = λ h. (ground (arith, done, h, inv.before), ground (arith, done, h, inv.before));
      after = λ h. ground (arith, done, h, inv.after);
    }
    | inr (fn, rest, more) ↦ record {
      once = λ c. ground (arith, more, inv.once c, count-append c s.published (fn ∷ []));
      before = λ h. absurd (ground (arith, more, h, inv.before));
      after = λ h. ground (arith, more, h, inv.after);
    }
  ]

  -- Functions deferred by one event.
  abbrev deferred_now : Event C → List C
  deferred_now event = deferred (event ∷ [])

  deferred_cons :
      (event : Event C) (events : List (Event C)) (c : C)
      → count c (deferred (event ∷ events))
        ≡ count c (deferred_now event) + count c (deferred events)
  unfolding deferred
  deferred_cons (defer_event ctx none) events c = omega arith
  deferred_cons (defer_event ctx (some fn)) events c =
      elim (Option-cases (delivery_settlement_from_context ctx)) [
        | inl absent ↦ ground (arith, absent)
        | inr (address, there) ↦ ground (arith, there)
      ]
  deferred_cons (mark_event ctx) events c = omega arith
  deferred_cons commit_event events c = omega arith
  deferred_cons publish_event events c = omega arith

  Accounts-ext :
      (s : DeliverySettlement C) (f g : C → ℕ) → ((c : C) → f c ≡ g c) → Accounts s f → Accounts s g
  Accounts-ext s f g h inv = record {
    once = λ c. omega (arith, inv.once c, h c);
    before = inv.before;
    after = inv.after;
  }

  mark-Accounts :
      (s : DeliverySettlement C) (total : C → ℕ)
      → Accounts s total
      → Accounts (record s { application_state_committed = true }) total
  mark-Accounts s total inv = record { once = inv.once; before = inv.before; after = inv.after }

  Accounts-at : (s s' : DeliverySettlement C) (f : C → ℕ) → s ≡ s' → Accounts s f → Accounts s' f
  Accounts-at s s' f same inv = subst (λ x. Accounts x f) same inv

  step-Accounts :
      (s : DeliverySettlement C) (event : Event C) (total : C → ℕ)
      → Accounts s total
      → Accounts (step s event) (λ c. total c + count c (deferred_now event))
  unfolding step deferred defer_until_delivery_committed mark_delivery_application_state_committed
  step-Accounts s (defer_event ctx none) total inv = Accounts-ext s total _ (λ c. omega arith) inv
  step-Accounts s (defer_event ctx (some fn)) total inv =
      elim (Option-cases (delivery_settlement_from_context ctx)) [
        | inl absent ↦
            Accounts-at s _ _ (ground (arith, absent))
              (Accounts-ext s total _ (λ c. ground (arith, absent)) inv)
        | inr (address, there) ↦ Accounts-at (defer_commit s fn) _ _ (ground (arith, there)) (
            Accounts-ext (defer_commit s fn) (λ c. total c + count c (fn ∷ [])) _
              (λ c. ground (arith, there)) (defer_commit-Accounts s fn total inv))
      ]
  step-Accounts s (mark_event ctx) total inv =
      elim (Option-cases (delivery_settlement_from_context ctx)) [
        | inl absent ↦
            Accounts-at s _ _ (ground (arith, absent))
              (Accounts-ext s total _ (λ c. omega arith) inv)
        | inr (address, there) ↦
            Accounts-at (record s { application_state_committed = true }) _ _
              (ground (arith, there))
              (Accounts-ext _ total _ (λ c. omega arith) (mark-Accounts s total inv))
      ]
  step-Accounts s commit_event total inv =
      Accounts-ext (commit s) total _ (λ c. omega arith) (commit-Accounts s total inv)
  step-Accounts s publish_event total inv =
      Accounts-ext (publish_next s) total _ (λ c. omega arith) (publish_next-Accounts s total inv)

  run_events-Accounts :
      (events : List (Event C)) (s : DeliverySettlement C) (total : C → ℕ)
      → Accounts s total
      → Accounts (run_events s events) (λ c. total c + count c (deferred events))
  unfolding run_events deferred
  run_events-Accounts [] s total inv = Accounts-ext s total _ (λ c. ground arith) inv
  run_events-Accounts (event ∷ events) s total inv =
      Accounts-ext _ _ _ (λ c. omega (arith, deferred_cons event events c))
        (run_events-Accounts events (step s event) _ (step-Accounts s event total inv))

  -- After any history of calls and interleavings on a new settlement, every function whose deferral
  -- answered true is registered, about to run, or has run, together as often as it was deferred; as
  -- long as the delivery is not committed none has run; once it is, none is left registered.
  pub run_events-new-Accounts :
      (events : List (Event C))
      → Accounts (run_events new_settlement events) (λ c. count c (deferred events))
  run_events-new-Accounts events =
      Accounts-ext _ _ _ (λ c. omega arith)
        (run_events-Accounts events new_settlement (λ c. 0)
          (record { once = λ c. refl; before = λ h. (refl, refl); after = λ h. refl }))

  -- The rest of the loop of `Commit`.
  unfoldable pub publish_all : ℕ → DeliverySettlement C → DeliverySettlement C
  unfolding publish_next
  publish_all zero s = s
  publish_all (suc n) s = publish_all n (publish_next s)

  publish_all-empties :
      (n : ℕ) (s : DeliverySettlement C)
      → length s.publishing ≡ n
      → (publish_all n s).publishing ≡ []
  unfolding publish_all publish_next invoke_delivery_commit
  publish_all-empties zero s h = elim (List-cases s.publishing) [
    | inl done ↦ done
    | inr (fn, rest, more) ↦ absurd (ground (arith, more))
  ]
  publish_all-empties (suc n) s h = elim (List-cases s.publishing) [
    | inl done ↦ absurd (ground (arith, done))
    | inr (fn, rest, more) ↦ publish_all-empties n (publish_next s) (ground (arith, more))
  ]

  publish_all-Accounts :
      (n : ℕ) (s : DeliverySettlement C) (total : C → ℕ)
      → Accounts s total
      → Accounts (publish_all n s) total
  unfolding publish_all
  publish_all-Accounts zero s total inv = inv
  publish_all-Accounts (suc n) s total inv =
      publish_all-Accounts n (publish_next s) total (publish_next-Accounts s total inv)

  publish_all-committed :
      (n : ℕ) (s : DeliverySettlement C) → (publish_all n s).committed ≡ s.committed
  unfolding publish_all publish_next invoke_delivery_commit
  publish_all-committed zero s = refl
  publish_all-committed (suc n) s = elim (List-cases s.publishing) [
    | inl done ↦ ground (arith, done, publish_all-committed n (publish_next s))
    | inr (fn, rest, more) ↦ ground (arith, more, publish_all-committed n (publish_next s))
  ]

  commit-committed : (s : DeliverySettlement C) → (commit s).committed ≡ true
  unfolding commit
  commit-committed s = elim (Bool-cases s.committed) [
    | inl done ↦ ground (arith, done)
    | inr open_still ↦ ground (arith, open_still)
  ]

  -- After any history, a call of `Commit` and the end of the loop leave each function invoked exactly
  -- as often as its deferral answered true.
  pub commit-publishes :
      (events : List (Event C)) (c : C)
      → let s = commit (run_events new_settlement events) in
        count c (publish_all (length s.publishing) s).published ≡ count c (deferred events)
  commit-publishes events c =
      let s = commit (run_events new_settlement events) in
      let n = length s.publishing in
      let inv =
        publish_all-Accounts n s _
          (commit-Accounts (run_events new_settlement events) _ (run_events-new-Accounts events)) in
      let committed =
        publish_all-committed n s ∙ commit-committed (run_events new_settlement events) in
      let empty = publish_all-empties n s refl in
      ground (arith, inv.once c, inv.after committed, empty)
