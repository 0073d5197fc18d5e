-- ===== src/Workflow/Chain/Decisions.antt =====
-- When the dispositions of internal/workflow/store.go let a delivery claim its node, and how the
-- three of them agree.
use queue.Prelude.{
  ◌≡◌, sym, ◌∙◌, ◌<◌, refl, ℕ, true, false, String, none, some, ok, Result-cases, Option-cases, inl,
  inr, arith, length,
}
use queue.Prelude.Int.{ℤ, pos, negsuc}
use queue.Workflow.Types.{ChainState}
use queue.Workflow.Chain.{
  position, node_at, AdvanceDisposition, chain_node_advance_disposition, advance_at, failure_at,
  FailureDisposition, chain_node_failure_disposition,
}
use queue.Workflow.Chain.Order.{position_bound}

-- The node is the current one of a chain that is still running.
pub record IsCurrent (s : ChainState) (id : String) : Type 0 where
  pub index : ℕ
  pub found : position s.nodes id ≡ some index
  pub at : s.next_index ≡ pos index
  pub within : index < length s.nodes
  pub open_ : s.completed ≡ false
  pub healthy : s.failed ≡ false

module _ (s : ChainState) (id : String) where
  advance_claims_at :
      (z : ℤ) (i : ℕ) (d : AdvanceDisposition)
      → s.next_index ≡ z
      → position s.nodes id ≡ some i
      → advance_at s id i ≡ ok d
      → d.claimable ≡ true
      → IsCurrent s id
  unfolding advance_at
  advance_claims_at (negsuc n) i d e f h c = absurd (ground arith)
  advance_claims_at (pos n) i d e f h c = elim (Result-cases (node_at s.nodes s.next_index)) [
    | inl (x, b) ↦ record {
      index = i;
      found = f;
      at = ground arith;
      within = position_bound s.nodes id i f;
      open_ = ground arith;
      healthy = ground arith;
    }
    | inr (x, b) ↦ record {
      index = i;
      found = f;
      at = ground arith;
      within = position_bound s.nodes id i f;
      open_ = ground arith;
      healthy = ground arith;
    }
  ]

  failure_claims_at :
      (z : ℤ) (i : ℕ) (d : FailureDisposition)
      → s.next_index ≡ z
      → position s.nodes id ≡ some i
      → failure_at s id i ≡ ok d
      → d.claimable ≡ true
      → IsCurrent s id
  unfolding failure_at
  failure_claims_at (negsuc n) i d e f h c = absurd (ground arith)
  failure_claims_at (pos n) i d e f h c = elim (Result-cases (node_at s.nodes s.next_index)) [
    | inl (x, b) ↦ record {
      index = i;
      found = f;
      at = ground arith;
      within = position_bound s.nodes id i f;
      open_ = ground arith;
      healthy = ground arith;
    }
    | inr (x, b) ↦ record {
      index = i;
      found = f;
      at = ground arith;
      within = position_bound s.nodes id i f;
      open_ = ground arith;
      healthy = ground arith;
    }
  ]

  pub advance_found :
      (i : ℕ)
      → position s.nodes id ≡ some i
      → chain_node_advance_disposition s id ≡ advance_at s id i
  unfolding chain_node_advance_disposition
  advance_found i e = rw (e, chain_node_advance_disposition)

  pub failure_found :
      (i : ℕ)
      → position s.nodes id ≡ some i
      → chain_node_failure_disposition s id ≡ failure_at s id i
  unfolding chain_node_failure_disposition
  failure_found i e = rw (e, chain_node_failure_disposition)

  pub advance_claims :
      (d : AdvanceDisposition)
      → chain_node_advance_disposition s id ≡ ok d
      → d.claimable ≡ true
      → IsCurrent s id
  unfolding chain_node_advance_disposition
  advance_claims d h c = elim (Option-cases (position s.nodes id)) [
    | inl e ↦ absurd (ground arith)
    | inr (i, e) ↦ advance_claims_at s.next_index i d refl e (sym (advance_found i e) ∙ h) c
  ]

  pub failure_claims :
      (d : FailureDisposition)
      → chain_node_failure_disposition s id ≡ ok d
      → d.claimable ≡ true
      → IsCurrent s id
  unfolding chain_node_failure_disposition
  failure_claims d h c = elim (Option-cases (position s.nodes id)) [
    | inl e ↦ absurd (ground arith)
    | inr (i, e) ↦ failure_claims_at s.next_index i d refl e (sym (failure_found i e) ∙ h) c
  ]

  pub current_advances :
      (c : IsCurrent s id)
      → chain_node_advance_disposition s id
        ≡ ok (record { next = none; done = false; claimable = true })
  unfolding chain_node_advance_disposition
  current_advances c = rw (advance_found c.index c.found) (ground arith)

  pub current_fails :
      (c : IsCurrent s id)
      → chain_node_failure_disposition s id ≡ ok (record { owned = false; claimable = true })
  unfolding chain_node_failure_disposition
  current_fails c = rw (failure_found c.index c.found) (ground arith)
