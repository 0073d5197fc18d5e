-- ===== src/Workflow/Memory/Chains/Cases.antt =====
-- What the chain methods of internal/workflow/store_memory.go do, by case: a call either leaves the
-- store as it was, or commits or fails the current node of a running chain.
use queue.Prelude.{
  Bool, true, Result, ok, err, ◌≡◌, ℕ, false, String, Option, some, Result-cases, Option-cases,
  Bool-cases, inl, inr, ◌⊎◌, arith,
}
use queue.Workflow.Types.{Error}
use queue.Workflow.Chain.{
  chain_node_success_disposition, chain_node_advance_disposition, chain_node_failure_disposition,
}
use queue.Workflow.Chain.Decisions.{
  IsCurrent, advance_claims, failure_claims, current_advances, current_fails,
}
use queue.Workflow.Chain.State.{IsWellFormed}
use queue.Workflow.Chain.Agreement.{success_due}
use queue.Workflow.Receipt.{TransitionClaim}
use queue.Workflow.Memory.Store.{MemoryChain, MemoryStore, dispatch_conflict}
use queue.Workflow.Memory.Chains.{
  ChainAdvanceResult, ChainFailureResult, advance_settled, fail_settled, advance_claimed,
  advance_known, advance_chain_outcome, fail_claimed, fail_known, fail_chain_outcome, fail_chain,
  put_chain, fail_state,
}

abbrev advance_says : Result Error ChainAdvanceResult → Bool
advance_says (err e) = false
advance_says (ok r) = r.claimed_now

abbrev fail_says : Result Error ChainFailureResult → Bool
fail_says (err e) = false
fail_says (ok r) = r.claimed_now

module _ (m : MemoryStore) (c n : String) (claim : TransitionClaim) (now later : ℕ) where
  -- The call claims the current node of the chain.
  pub record Claims (ch : MemoryChain) : Type 0 where
    pub entry : m.chains c ≡ some ch
    pub current : IsCurrent ch.state n
    pub agrees : dispatch_conflict ch.state.dispatch_id claim ≡ false

  abbrev pub AdvanceClaims : MemoryChain → Type 0
  AdvanceClaims ch =
      Claims ch
      × (advance_chain_outcome m c n claim now later ≡ advance_claimed m ch c n claim now later)

  advance_known_cases :
      (ch : MemoryChain)
      → m.chains c ≡ some ch
      → ((advance_known m ch c n claim now later).1 ≡ m)
          × (advance_says (advance_known m ch c n claim now later).0 ≡ false)
        ⊎ (Claims ch
            × (advance_known m ch c n claim now later ≡ advance_claimed m ch c n claim now later))
  unfolding advance_known advance_settled
  advance_known_cases ch e = elim (Result-cases (chain_node_success_disposition ch.state n)) [
    | inl (x, f) ↦ inl (ground arith, ground arith)
    | inr (owned, f) ↦ elim (Result-cases (chain_node_advance_disposition ch.state n)) [
      | inl (x, g) ↦ inl (ground arith, ground arith)
      | inr (d, g) ↦ elim (Bool-cases d.claimable) [
        | inr k ↦ inl (ground arith, ground arith)
        | inl k ↦ elim (Bool-cases (dispatch_conflict ch.state.dispatch_id claim)) [
          | inl l ↦ inl (ground arith, ground arith)
          | inr l ↦ inr (
            record { entry = e; current = advance_claims ch.state n d g k; agrees = l },
            ground arith,
          )
        ]
      ]
    ]
  ]

  -- `AdvanceChain` leaves the store as it was, or the delivery claims the current node.
  pub advance_cases :
      ((advance_chain_outcome m c n claim now later).1 ≡ m)
      ⊎ ((ch : MemoryChain) × AdvanceClaims ch)
  unfolding advance_chain_outcome
  advance_cases = elim (Option-cases (m.chains c)) [
    | inl e ↦ inl (ground arith)
    | inr (ch, e) ↦ elim (advance_known_cases ch e) [
      | inl (same, _) ↦ inl (ground arith)
      | inr (claims, eq) ↦ inr (ch, (claims, ground arith))
    ]
  ]

  -- A result that says so comes of a claim.
  pub advance_claimed_now :
      (r : ChainAdvanceResult)
      → (advance_chain_outcome m c n claim now later).0 ≡ ok r
      → r.claimed_now ≡ true
      → (ch : MemoryChain) × AdvanceClaims ch
  unfolding advance_chain_outcome
  advance_claimed_now r h claimed = elim (Option-cases (m.chains c)) [
    | inl e ↦ absurd (ground arith)
    | inr (ch, e) ↦ elim (advance_known_cases ch e) [
      | inl (same, unclaimed) ↦ absurd (ground arith)
      | inr (claims, eq) ↦ (ch, (claims, ground arith))
    ]
  ]

  -- The converse: a delivery of the current node that names no other dispatch claims it.
  pub advances : (ch : MemoryChain) → IsWellFormed ch.state → Claims ch → AdvanceClaims ch
  unfolding advance_chain_outcome advance_known
  advances ch w k = (
    k,
    ground (
      arith,
      k.entry,
      success_due ch.state n w k.current.index k.current.found (ground (arith, w.at, k.current.at)),
      current_advances ch.state n k.current,
    ),
  )

module _ (m : MemoryStore) (c n : String) (cause : Option String) (claim : TransitionClaim)
    (now later : ℕ) where
  abbrev pub FailClaims : MemoryChain → Type 0
  FailClaims ch =
      Claims m c n claim now later ch
      × (fail_chain_outcome m c n cause claim now later
          ≡ fail_claimed m ch c n cause claim now later)

  fail_known_cases :
      (ch : MemoryChain)
      → m.chains c ≡ some ch
      → ((fail_known m ch c n cause claim now later).1 ≡ m)
          × (fail_says (fail_known m ch c n cause claim now later).0 ≡ false)
        ⊎ (Claims m c n claim now later ch
            × (fail_known m ch c n cause claim now later
                ≡ fail_claimed m ch c n cause claim now later))
  unfolding fail_known fail_settled
  fail_known_cases ch e = elim (Result-cases (chain_node_failure_disposition ch.state n)) [
    | inl (x, g) ↦ inl (ground arith, ground arith)
    | inr (d, g) ↦ elim (Bool-cases d.claimable) [
      | inr k ↦ inl (ground arith, ground arith)
      | inl k ↦ elim (Bool-cases (dispatch_conflict ch.state.dispatch_id claim)) [
        | inl l ↦ inl (ground arith, ground arith)
        | inr l ↦ inr (
          record { entry = e; current = failure_claims ch.state n d g k; agrees = l },
          ground arith,
        )
      ]
    ]
  ]

  -- `FailChainNode` leaves the store as it was, or the delivery claims the current node.
  pub fail_cases :
      ((fail_chain_outcome m c n cause claim now later).1 ≡ m)
      ⊎ ((ch : MemoryChain) × FailClaims ch)
  unfolding fail_chain_outcome
  fail_cases = elim (Option-cases (m.chains c)) [
    | inl e ↦ inl (ground arith)
    | inr (ch, e) ↦ elim (fail_known_cases ch e) [
      | inl (same, _) ↦ inl (ground arith)
      | inr (claims, eq) ↦ inr (ch, (claims, ground arith))
    ]
  ]

  -- A result that says so comes of a claim.
  pub fail_claimed_now :
      (r : ChainFailureResult)
      → (fail_chain_outcome m c n cause claim now later).0 ≡ ok r
      → r.claimed_now ≡ true
      → (ch : MemoryChain) × FailClaims ch
  unfolding fail_chain_outcome
  fail_claimed_now r h claimed = elim (Option-cases (m.chains c)) [
    | inl e ↦ absurd (ground arith)
    | inr (ch, e) ↦ elim (fail_known_cases ch e) [
      | inl (same, unclaimed) ↦ absurd (ground arith)
      | inr (claims, eq) ↦ (ch, (claims, ground arith))
    ]
  ]

  pub fails : (ch : MemoryChain) → Claims m c n claim now later ch → FailClaims ch
  unfolding fail_chain_outcome fail_known
  fails ch k = (k, ground (arith, k.entry, current_fails ch.state n k.current))

-- `FailChain` fails a chain that is still open.
pub fail_chain-open :
    (m : MemoryStore) (c : String) (ch : MemoryChain) (cause : Option String) (now : ℕ)
    → m.chains c ≡ some ch
    → ch.state.completed ≡ false
    → ch.state.failed ≡ false
    → (fail_chain m c cause now).1 ≡ put_chain m c (fail_state ch cause now)
unfolding fail_chain
fail_chain-open m c ch cause now e f g = ground arith
