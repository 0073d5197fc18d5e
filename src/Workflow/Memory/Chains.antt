-- ===== src/Workflow/Memory/Chains.antt =====
-- The chain methods of `memoryStore` of internal/workflow/store_memory.go.
pub mod Cases
pub mod Outcomes
pub mod Invariant
use queue.Prelude.{
  ◌==◌, eqb, not, ◌&&◌, ◌||◌, ◌>>◌, ℕ, Bool, true, false, String, [], ◌∷◌, Option, none, some,
  Result, ok, err, length, if◌then◌else◌,
}
use queue.Prelude.Equality.{string_eq}
use queue.Prelude.Int.{pos, leb_ℤ, suc_ℤ}
use queue.Prelude.Table.{update, remove}
use queue.Workflow.Types.{
  ChainNode, ChainRecord, ChainState, Error, not_found, chain_dispatch_mismatch,
  chain_receipt_mismatch, succeeded, failed,
}
use queue.Workflow.Validate.{validate_chain_record}
use queue.Workflow.Chain.{
  node_at, chain_node_success_disposition, AdvanceDisposition, chain_node_advance_disposition,
  chain_node_failure_disposition, clone_chain_node, clone_chain_nodes,
}
use queue.Workflow.Receipt.{
  TransitionClaim, no_claim, TransitionReceipt, chain_transition_kind,
  validate_transition_receipt_support,
}
use queue.Workflow.Memory.Store.{
  MemoryChain, MemoryStore, dispatch_conflict, new_receipt, record_transition_receipt,
  transition_receipt, delete_transition_receipts,
}

unfoldable pub new_chain : ChainRecord → ℕ → MemoryChain
unfolding clone_chain_nodes
new_chain r now = record {
  state = record {
    chain_id = r.chain_id;
    dispatch_id = r.dispatch_id;
    queue_name = r.queue_name;
    nodes = clone_chain_nodes r.nodes;
    next_index = pos 0;
    completed = false;
    failed = false;
    failure = "";
    created_at = r.created_at;
    updated_at = now;
  };
  completed_node = [];
}

unfoldable pub create_chain : MemoryStore → ChainRecord → ℕ → Result Error (Unit {0}) × MemoryStore
unfolding new_chain delete_transition_receipts
create_chain m r now = elim (validate_chain_record r) [
  | err e ↦ (err e, m)
  | ok _ ↦
      let m' = delete_transition_receipts m chain_transition_kind r.chain_id in
      (ok tt, record m' { chains = update m'.chains r.chain_id (new_chain r now) })
]

-- A copy of the state that shares no node with the store.
snapshot : ChainState → ChainState
unfolding clone_chain_nodes
snapshot s = record s { nodes = clone_chain_nodes s.nodes }

-- `chainAdvanceResult`; `receipt` is `none` when the receipt is not known.
pub record ChainAdvanceResult : Type 0 where
  pub state : ChainState
  pub next : Option ChainNode
  pub done : Bool
  pub success_owned : Bool
  pub claimed_now : Bool
  pub receipt : Option TransitionReceipt

-- A delivery whose node has been settled before.
advance_settled :
    MemoryStore
    → MemoryChain
    → String
    → String
    → TransitionClaim
    → Bool
    → AdvanceDisposition
    → ChainAdvanceResult
unfolding snapshot dispatch_conflict transition_receipt clone_chain_node
advance_settled m ch chain_id node claim owned d =
    if dispatch_conflict ch.state.dispatch_id claim
    then record {
      state = snapshot ch.state;
      next = none;
      done = false;
      success_owned = false;
      claimed_now = false;
      receipt = none;
    }
    else record {
      state = snapshot ch.state;
      next = elim d.next [ none ↦ none | some node ↦ some (clone_chain_node node) ];
      done = d.done;
      success_owned = owned;
      claimed_now = false;
      receipt = transition_receipt m chain_transition_kind chain_id node;
    }

-- The chain with its current node committed.
unfoldable pub commit_node : MemoryChain → String → ℕ → MemoryChain
commit_node ch node now =
    let next = suc_ℤ ch.state.next_index in
    record {
      state = record ch.state {
        next_index = next;
        updated_at = now;
        completed = if leb_ℤ (pos (length ch.state.nodes)) next then true else ch.state.completed;
      };
      completed_node = node ∷ ch.completed_node;
    }

unfoldable pub put_chain : MemoryStore → String → MemoryChain → MemoryStore
put_chain m chain_id ch = record m { chains = update m.chains chain_id ch }

unfoldable pub advance_receipt :
    MemoryChain → String → String → TransitionClaim → Bool → ℕ → TransitionReceipt
unfolding new_receipt
advance_receipt ch chain_id node claim completed now =
    new_receipt chain_transition_kind chain_id ch.state.dispatch_id ch.state.created_at node
      succeeded claim completed false now

-- The result of the delivery that committed the node.
unfoldable pub claimed_result :
    MemoryChain → Option ChainNode → Bool → Option TransitionReceipt → ChainAdvanceResult
unfolding snapshot
claimed_result ch next done receipt = record {
  state = snapshot ch.state;
  next = next;
  done = done;
  success_owned = true;
  claimed_now = true;
  receipt = receipt;
}

-- The first delivery of the current node.
unfoldable pub advance_claimed :
    MemoryStore
    → MemoryChain
    → String
    → String
    → TransitionClaim
    → ℕ
    → ℕ
    → Result Error ChainAdvanceResult × MemoryStore
unfolding commit_node put_chain advance_receipt claimed_result clone_chain_node
    record_transition_receipt
advance_claimed m ch chain_id node claim now later =
    let ch' = commit_node ch node now in
    let m' = put_chain m chain_id ch' in
    if leb_ℤ (pos (length ch.state.nodes)) ch'.state.next_index
    then (let (receipt, m″) =
          record_transition_receipt m' (advance_receipt ch' chain_id node claim true later) in
        (ok (claimed_result ch' none true receipt), m″))
    else elim (node_at ch'.state.nodes ch'.state.next_index) [
      | err e ↦ (err e, m')
      | ok next ↦
          let (receipt, m″) =
            record_transition_receipt m' (advance_receipt ch' chain_id node claim false later) in
          (ok (claimed_result ch' (some (clone_chain_node next)) false receipt), m″)
    ]

advance_known :
    MemoryStore
    → MemoryChain
    → String
    → String
    → TransitionClaim
    → ℕ
    → ℕ
    → Result Error ChainAdvanceResult × MemoryStore
unfolding advance_settled advance_claimed dispatch_conflict
advance_known m ch chain_id node claim now later =
    elim (chain_node_success_disposition ch.state node) [
      | err e ↦ (err e, m)
      | ok owned ↦ elim (chain_node_advance_disposition ch.state node) [
        | err e ↦ (err e, m)
        | ok d ↦
            if d.claimable
            then if dispatch_conflict ch.state.dispatch_id claim
              then (err (chain_dispatch_mismatch chain_id), m)
              else advance_claimed m ch chain_id node claim now later
            else (ok (advance_settled m ch chain_id node claim owned d), m)
      ]
    ]

-- `advanceChainOutcome`: `now` dates the state, and `later` the receipt.
unfoldable pub advance_chain_outcome :
    MemoryStore
    → String
    → String
    → TransitionClaim
    → ℕ
    → ℕ
    → Result Error ChainAdvanceResult × MemoryStore
unfolding advance_known
advance_chain_outcome m chain_id node claim now later = elim (m.chains chain_id) [
  | none ↦ (err not_found, m)
  | some ch ↦ advance_known m ch chain_id node claim now later
]

-- `AdvanceChain` answers with the next node and whether the chain is done.
unfoldable pub advance_chain :
    MemoryStore → String → String → ℕ → ℕ → Result Error (Option ChainNode × Bool) × MemoryStore
unfolding advance_chain_outcome
advance_chain m chain_id node now later =
    let (result, m') = advance_chain_outcome m chain_id node no_claim now later in
    (elim result [ err e ↦ err e | ok r ↦ ok (r.next, r.done) ], m')

-- `chainFailureResult`
pub record ChainFailureResult : Type 0 where
  pub state : ChainState
  pub owned : Bool
  pub claimed_now : Bool
  pub receipt : Option TransitionReceipt

fail_settled :
    MemoryStore → MemoryChain → String → String → TransitionClaim → Bool → ChainFailureResult
unfolding snapshot dispatch_conflict transition_receipt
fail_settled m ch chain_id node claim owned =
    if dispatch_conflict ch.state.dispatch_id claim
    then record { state = snapshot ch.state; owned = false; claimed_now = false; receipt = none }
    else record {
      state = snapshot ch.state;
      owned = owned;
      claimed_now = false;
      receipt = transition_receipt m chain_transition_kind chain_id node;
    }

-- The chain with its failure; the text of a `nil` cause leaves the old one.
unfoldable pub fail_state : MemoryChain → Option String → ℕ → MemoryChain
fail_state ch cause now = record ch {
  state = record ch.state {
    failed = true;
    failure = elim cause [ none ↦ ch.state.failure | some text ↦ text ];
    updated_at = now;
  };
}

unfoldable pub fail_claimed :
    MemoryStore
    → MemoryChain
    → String
    → String
    → Option String
    → TransitionClaim
    → ℕ
    → ℕ
    → Result Error ChainFailureResult × MemoryStore
unfolding fail_state put_chain new_receipt snapshot record_transition_receipt
fail_claimed m ch chain_id node cause claim now later =
    let ch' = fail_state ch cause now in
    let (receipt, m') = record_transition_receipt (put_chain m chain_id ch') (
      new_receipt chain_transition_kind chain_id ch'.state.dispatch_id ch'.state.created_at node
        failed claim false false later) in
    (
      ok (record {
        state = snapshot ch'.state;
        owned = true;
        claimed_now = true;
        receipt = receipt;
      }),
      m',
    )

fail_known :
    MemoryStore
    → MemoryChain
    → String
    → String
    → Option String
    → TransitionClaim
    → ℕ
    → ℕ
    → Result Error ChainFailureResult × MemoryStore
unfolding fail_settled fail_claimed dispatch_conflict
fail_known m ch chain_id node cause claim now later =
    elim (chain_node_failure_disposition ch.state node) [
      | err e ↦ (err e, m)
      | ok d ↦
          if d.claimable
          then if dispatch_conflict ch.state.dispatch_id claim
            then (err (chain_dispatch_mismatch chain_id), m)
            else fail_claimed m ch chain_id node cause claim now later
          else (ok (fail_settled m ch chain_id node claim d.owned), m)
    ]

-- `failChainOutcome`
unfoldable pub fail_chain_outcome :
    MemoryStore
    → String
    → String
    → Option String
    → TransitionClaim
    → ℕ
    → ℕ
    → Result Error ChainFailureResult × MemoryStore
unfolding fail_known
fail_chain_outcome m chain_id node cause claim now later = elim (m.chains chain_id) [
  | none ↦ (err not_found, m)
  | some ch ↦ fail_known m ch chain_id node cause claim now later
]

-- `FailChainNode` answers with the state and whether failure owns the node.
unfoldable pub fail_chain_node :
    MemoryStore
    → String
    → String
    → Option String
    → ℕ
    → ℕ
    → Result Error (ChainState × Bool) × MemoryStore
unfolding fail_chain_outcome
fail_chain_node m chain_id node cause now later =
    let (result, m') = fail_chain_outcome m chain_id node cause no_claim now later in
    (elim result [ err e ↦ err e | ok r ↦ ok (r.state, r.owned) ], m')

unfoldable pub fail_chain :
    MemoryStore → String → Option String → ℕ → Result Error (Unit {0}) × MemoryStore
unfolding fail_state put_chain
fail_chain m chain_id cause now = elim (m.chains chain_id) [
  | none ↦ (err not_found, m)
  | some ch ↦
      if not ch.state.completed && not ch.state.failed
      then (ok tt, put_chain m chain_id (fail_state ch cause now))
      else (ok tt, m)
]

unfoldable pub get_chain : MemoryStore → String → Result Error ChainState
unfolding snapshot
get_chain m chain_id = elim (m.chains chain_id) [
  | none ↦ err not_found
  | some ch ↦ ok (snapshot ch.state)
]

unfoldable pub discard_chain : MemoryStore → String → MemoryStore
unfolding delete_transition_receipts
discard_chain m chain_id =
    delete_transition_receipts (record m { chains = remove m.chains chain_id })
      chain_transition_kind chain_id

-- `chainTransitionReceipt`; `ok none` when no receipt is known.
unfoldable pub chain_transition_receipt :
    MemoryStore → String → String → Result Error (Option TransitionReceipt)
unfolding transition_receipt
chain_transition_receipt m chain_id node = elim (m.chains chain_id) [
  | none ↦ err not_found
  | some ch ↦ elim (transition_receipt m chain_transition_kind chain_id node) [
    | none ↦ ok none
    | some r ↦
        if not (r.workflow_dispatch_id == ch.state.dispatch_id)
          || not (eqb r.workflow_created_at ch.state.created_at)
        then err (chain_receipt_mismatch chain_id)
        else do validate_transition_receipt_support r; ok (some r)
  ]
]
