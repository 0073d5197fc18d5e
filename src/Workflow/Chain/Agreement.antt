-- ===== src/Workflow/Chain/Agreement.antt =====
-- The three dispositions of internal/workflow/store.go on one state: which deliveries they accept,
-- and whose outcome they say won. No index that they read is out of range.
use queue.Prelude.{
  ◌≡◌, ◌≤◌, ◌<◌, refl, ℕ, Bool, true, false, ◌&&◌, String, none, some, ok, err, Option-cases,
  Bool-cases, inl, inr, arith, length, ltb, eqb, get_elem?-some, ◌⊎◌,
}
use native.Mathlib.Decide.{dec_lt}
use queue.Prelude.Int.{pos}
use queue.Workflow.Types.{
  ChainNode, ChainState, Error, node_missing, node_before, node_after_failure,
}
use queue.Workflow.Chain.{
  position, node_at, validate_chain_state, chain_node_success_disposition, AdvanceDisposition,
  chain_node_advance_disposition, FailureDisposition, chain_node_failure_disposition,
}
use queue.Workflow.Chain.Order.{position_bound}
use queue.Workflow.Chain.State.{IsWellFormed, validate_chain_state-exact}
use queue.Workflow.Chain.Decisions.{advance_found, failure_found}

-- The current node, of a chain with nodes left.
current_node :
    (s : ChainState) (n : ℕ)
    → s.next_index ≡ pos n
    → n < length s.nodes
    → (node : ChainNode) × (node_at s.nodes s.next_index ≡ ok node)
current_node s n e h = let (node, at) = get_elem?-some s.nodes n h in (node, ground arith)

-- All three refuse the node.
abbrev pub Refused : ChainState → String → Type 0
Refused s id =
    ((e : Error) × (chain_node_success_disposition s id ≡ err e))
    × ((e : Error) × (chain_node_advance_disposition s id ≡ err e))
    × ((e : Error) × (chain_node_failure_disposition s id ≡ err e))

-- All three accept the node, at most one outcome owns it, and it can be claimed for either outcome
-- just where it can be claimed for the other and neither owns it.
pub record Accepted (s : ChainState) (id : String) : Type 0 where
  pub succeeded : Bool
  pub advance : AdvanceDisposition
  pub failure : FailureDisposition
  pub success_eq : chain_node_success_disposition s id ≡ ok succeeded
  pub advance_eq : chain_node_advance_disposition s id ≡ ok advance
  pub failure_eq : chain_node_failure_disposition s id ≡ ok failure
  pub same_claim : advance.claimable ≡ failure.claimable
  pub one_owner : succeeded && failure.owned ≡ false
  pub unowned : advance.claimable ≡ true → (succeeded ≡ false) × (failure.owned ≡ false)

module _ (s : ChainState) (id : String) (w : IsWellFormed s) where
  success_early :
      (i : ℕ) (node : ChainNode)
      → position s.nodes id ≡ some i
      → w.index < i
      → node_at s.nodes s.next_index ≡ ok node
      → (e : Error) × (chain_node_success_disposition s id ≡ err e)
  unfolding chain_node_success_disposition
  success_early i node e h k =
      (node_before s.chain_id id node.node_id, ground (arith, (validate_chain_state-exact s).1 w))

  advance_early :
      (i : ℕ) (node : ChainNode)
      → position s.nodes id ≡ some i
      → w.index < i
      → i < length s.nodes
      → node_at s.nodes s.next_index ≡ ok node
      → (e : Error) × (chain_node_advance_disposition s id ≡ err e)
  unfolding chain_node_advance_disposition
  advance_early i node e h l k = elim (Bool-cases s.failed) [
    | inl f ↦
        (node_after_failure s.chain_id id node.node_id, rw (advance_found s id i e) (ground arith))
    | inr f ↦ (node_before s.chain_id id node.node_id, rw (advance_found s id i e) (ground arith))
  ]

  failure_early :
      (i : ℕ) (node : ChainNode)
      → position s.nodes id ≡ some i
      → w.index < i
      → i < length s.nodes
      → node_at s.nodes s.next_index ≡ ok node
      → (e : Error) × (chain_node_failure_disposition s id ≡ err e)
  unfolding chain_node_failure_disposition
  failure_early i node e h l k = elim (Bool-cases s.failed) [
    | inl f ↦
        (node_after_failure s.chain_id id node.node_id, rw (failure_found s id i e) (ground arith))
    | inr f ↦ (node_before s.chain_id id node.node_id, rw (failure_found s id i e) (ground arith))
  ]

  pub success_due :
      (i : ℕ)
      → position s.nodes id ≡ some i
      → i ≤ w.index
      → chain_node_success_disposition s id ≡ ok (ltb i w.index)
  unfolding chain_node_success_disposition
  success_due i e h = ground (arith, (validate_chain_state-exact s).1 w)

  abbrev closed : AdvanceDisposition
  closed = record { next = none; done = true; claimable = false }

  Accepted-completed :
      (i : ℕ) → position s.nodes id ≡ some i → i ≤ w.index → s.completed ≡ true → Accepted s id
  unfolding chain_node_advance_disposition chain_node_failure_disposition
  Accepted-completed i e h c = record {
    succeeded = ltb i w.index;
    advance = closed;
    failure = record { owned = false; claimable = false };
    success_eq = success_due i e h;
    advance_eq = rw (advance_found s id i e) (ground arith);
    failure_eq = rw (failure_found s id i e) (ground arith);
    same_claim = refl;
    one_owner = ground arith;
    unowned = λ f. cc;
  }

  Accepted-failed :
      (i : ℕ)
      → position s.nodes id ≡ some i
      → i ≤ w.index
      → s.completed ≡ false
      → s.failed ≡ true
      → Accepted s id
  unfolding chain_node_advance_disposition chain_node_failure_disposition
  Accepted-failed i e h c f = record {
    succeeded = ltb i w.index;
    advance = closed;
    failure = record { owned = eqb i w.index; claimable = false };
    success_eq = success_due i e h;
    advance_eq = rw (advance_found s id i e) (ground arith);
    failure_eq = rw (failure_found s id i e) (ground arith);
    same_claim = refl;
    one_owner = ground arith;
    unowned = λ f. cc;
  }

  Accepted-current :
      (i : ℕ)
      → position s.nodes id ≡ some i
      → i ≡ w.index
      → s.completed ≡ false
      → s.failed ≡ false
      → Accepted s id
  unfolding chain_node_advance_disposition chain_node_failure_disposition
  Accepted-current i e h c f = record {
    succeeded = ltb i w.index;
    advance = record { next = none; done = false; claimable = true };
    failure = record { owned = false; claimable = true };
    success_eq = success_due i e (omega arith);
    advance_eq = rw (advance_found s id i e) (ground arith);
    failure_eq = rw (failure_found s id i e) (ground arith);
    same_claim = refl;
    one_owner = ground arith;
    unowned = λ _. (ground arith, refl);
  }

  Accepted-past :
      (i : ℕ) (node : ChainNode)
      → position s.nodes id ≡ some i
      → i < w.index
      → node_at s.nodes s.next_index ≡ ok node
      → s.completed ≡ false
      → s.failed ≡ false
      → Accepted s id
  unfolding chain_node_advance_disposition chain_node_failure_disposition
  Accepted-past i node e h k c f = record {
    succeeded = ltb i w.index;
    advance = record { next = some node; done = false; claimable = false };
    failure = record { owned = false; claimable = false };
    success_eq = success_due i e (omega arith);
    advance_eq = rw (advance_found s id i e) (ground arith);
    failure_eq = rw (failure_found s id i e) (ground arith);
    same_claim = refl;
    one_owner = ground arith;
    unowned = λ f. cc;
  }

  running_current :
      s.completed ≡ false → (node : ChainNode) × (node_at s.nodes s.next_index ≡ ok node)
  running_current c = current_node s w.index w.at (ground arith)

  accepted : (i : ℕ) → position s.nodes id ≡ some i → i ≤ w.index → Accepted s id
  accepted i e h = elim (Bool-cases s.completed) [
    | inl c ↦ Accepted-completed i e h c
    | inr c ↦ elim (Bool-cases s.failed) [
      | inl f ↦ Accepted-failed i e h c f
      | inr f ↦ elim (dec_lt i w.index) [
        | yes l ↦ let (node, k) = running_current c in Accepted-past i node e l k c f
        | no l ↦ Accepted-current i e (omega arith) c f
      ]
    ]
  ]

  refused : (i : ℕ) → position s.nodes id ≡ some i → w.index < i → Refused s id
  refused i e h =
      let bound = position_bound s.nodes id i e in
      let (node, k) = current_node s w.index w.at (omega arith) in
      (
        success_early i node e h k,
        advance_early i node e h bound k,
        failure_early i node e h bound k,
      )

  missing : position s.nodes id ≡ none → Refused s id
  unfolding chain_node_success_disposition chain_node_advance_disposition
      chain_node_failure_disposition
  missing e = (
    (node_missing s.chain_id id, ground (arith, (validate_chain_state-exact s).1 w)),
    (node_missing s.chain_id id, ground arith),
    (node_missing s.chain_id id, ground arith),
  )

-- For a state that validation accepts, the three dispositions all refuse a delivery or all accept
-- it. Where they accept, success and failure never both own the node, advancement and failure can
-- claim it on the same terms, and a node that can be claimed is owned by neither outcome.
pub dispositions_agree :
    (s : ChainState) (id : String) → validate_chain_state s ≡ ok tt → Refused s id ⊎ Accepted s id
dispositions_agree s id valid =
    let w = (validate_chain_state-exact s).0 valid in
    elim (Option-cases (position s.nodes id)) [
      | inl e ↦ inl (missing s id w e)
      | inr (i, e) ↦ elim (dec_lt w.index i) [
        | yes l ↦ inl (refused s id w i e l)
        | no l ↦ inr (accepted s id w i e (omega arith))
      ]
    ]
