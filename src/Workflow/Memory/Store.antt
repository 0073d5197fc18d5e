-- ===== src/Workflow/Memory/Store.antt =====
-- The state of `memoryStore` of internal/workflow/store_memory.go, and its receipts.
use queue.Prelude.{ℕ, Bool, not, ◌&&◌, String, List, Option, none, some, ◌==◌, if◌then◌else◌}
use queue.Prelude.Equality.{string_eq}
use queue.Prelude.Table.{Table, empty, update, remove_if}
use queue.Workflow.Types.{ChainState, BatchState, BatchJobOutcome}
use queue.Workflow.Receipt.{
  TransitionClaim, is_valid, TransitionReceipt, TransitionReceiptKey, transition_receipt_version,
  event_schema_version, receipt_key_eq,
}

-- The map `completedNode` only ever gains keys: it is the list of them, the latest first.
pub record MemoryChain : Type 0 where
  pub state : ChainState
  pub completed_node : List String

pub record BatchJobStatus : Type 0 where
  pub started : Bool
  pub done : Bool
  pub failed : Bool

-- The map `jobs`, whose keys are fixed when the batch is created, is the list of its entries.
pub record MemoryBatch : Type 0 where
  pub state : BatchState
  pub jobs : List (String × BatchJobStatus)

pub record MemoryStore : Type 0 where
  pub chains : Table String MemoryChain
  pub batch : Table String MemoryBatch
  pub callbacks : Table String ℕ
  pub receipts : Table TransitionReceiptKey TransitionReceipt

unfoldable pub new_memory_store : MemoryStore
new_memory_store = record { chains = empty; batch = empty; callbacks = empty; receipts = empty }

-- Both sides name a dispatch, and not the same one.
unfoldable pub dispatch_conflict : String → TransitionClaim → Bool
dispatch_conflict dispatch_id claim =
    not (dispatch_id == "")
    && not (claim.dispatch_id == "")
    && not (dispatch_id == claim.dispatch_id)

-- The receipt that a transition of a workflow leaves, when its claim is complete.
unfoldable pub new_receipt :
    String
    → String
    → String
    → ℕ
    → String
    → BatchJobOutcome
    → TransitionClaim
    → Bool
    → Bool
    → ℕ
    → TransitionReceipt
new_receipt kind workflow_id dispatch_id created_at member outcome claim completed cancelled now =
    record {
      version = transition_receipt_version;
      event_schema_version = event_schema_version;
      workflow_kind = kind;
      workflow_id = workflow_id;
      workflow_dispatch_id = dispatch_id;
      workflow_created_at = created_at;
      member_id = member;
      outcome = outcome;
      owner = claim;
      aggregate_completed = completed;
      aggregate_cancelled = cancelled;
      created_at = now;
    }

abbrev pub receipt_key : TransitionReceipt → TransitionReceiptKey
receipt_key r = record {
  workflow_kind = r.workflow_kind;
  workflow_id = r.workflow_id;
  member_id = r.member_id;
}

-- `recordTransitionReceipt`, with the receipt that it would build; `none` for `false`.
unfoldable pub record_transition_receipt :
    MemoryStore → TransitionReceipt → Option TransitionReceipt × MemoryStore
record_transition_receipt m r =
    if is_valid r.owner
    then (some r, record m { receipts = update m.receipts (receipt_key r) r })
    else (none, m)

unfoldable pub transition_receipt :
    MemoryStore → String → String → String → Option TransitionReceipt
transition_receipt m kind workflow_id member =
    m.receipts (record { workflow_kind = kind; workflow_id = workflow_id; member_id = member })

unfoldable pub delete_transition_receipts : MemoryStore → String → String → MemoryStore
delete_transition_receipts m kind workflow_id = record m {
  receipts =
      remove_if (λ key _. key.workflow_kind == kind && key.workflow_id == workflow_id) m.receipts;
}
