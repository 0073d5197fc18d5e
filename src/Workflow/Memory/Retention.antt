-- ===== src/Workflow/Memory/Retention.antt =====
-- `MarkCallbackInvoked` and `Prune` of internal/workflow/store_memory.go.
use queue.Prelude.{◌==◌, ◌&&◌, ◌||◌, ℕ, Bool, true, false, String, none, some, ltb}
use queue.Prelude.Equality.{string_eq}
use queue.Prelude.Table.{Table, update, remove_if}
use queue.Workflow.Receipt.{TransitionReceiptKey, chain_transition_kind, batch_transition_kind}
use queue.Workflow.Memory.Store.{MemoryChain, MemoryBatch, MemoryStore}

-- True for the call that reserved the key.
unfoldable pub mark_callback_invoked : MemoryStore → String → ℕ → Bool × MemoryStore
mark_callback_invoked m key now = elim (m.callbacks key) [
  | some _ ↦ (false, m)
  | none ↦ (true, record m { callbacks = update m.callbacks key now })
]

unfoldable pub chain_expired : ℕ → MemoryChain → Bool
chain_expired before ch = (ch.state.completed || ch.state.failed) && ltb ch.state.updated_at before

unfoldable pub batch_expired : ℕ → MemoryBatch → Bool
batch_expired before b = b.state.completed && ltb b.state.updated_at before

-- Whether the loops delete the entry of a key.
abbrev deletes {ℓ} : {V : Type ℓ} → (V → Bool) → Table String V → String → Bool
deletes test m id = elim (m id) [ none ↦ false | some v ↦ test v ]

-- The receipts that the two loops delete beside a workflow.
unfoldable pub receipt_expired : MemoryStore → ℕ → TransitionReceiptKey → Bool
receipt_expired m before key =
    (key.workflow_kind == chain_transition_kind
      && deletes (chain_expired before) m.chains key.workflow_id)
    || (key.workflow_kind == batch_transition_kind
        && deletes (batch_expired before) m.batch key.workflow_id)

unfoldable pub prune : MemoryStore → ℕ → MemoryStore
unfolding receipt_expired chain_expired batch_expired
prune m before = record {
  chains = remove_if (λ _ ch. chain_expired before ch) m.chains;
  batch = remove_if (λ _ b. batch_expired before b) m.batch;
  callbacks = remove_if (λ _ created_at. ltb created_at before) m.callbacks;
  receipts = remove_if (λ key _. receipt_expired m before key) m.receipts;
}
