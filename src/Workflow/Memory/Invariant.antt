-- ===== src/Workflow/Memory/Invariant.antt =====
-- The invariant of the whole `memoryStore` of internal/workflow/store_memory.go, and how the parts
-- of its methods keep it.
pub mod OfChains
pub mod OfBatches
pub mod OfPrune
use mathlib.Core.Path.{subst₂}
use queue.Prelude.{
  ◌≡◌, ◌≢◌, refl, sym, ap, ◌∙◌, ℕ, Bool, true, false, not, ◌&&◌, ◌||◌, ◌==◌, eq_iff, String, Option,
  none, some, arith, if◌then◌else◌, Bool-cases, Option-cases, inl, inr, ◌⊎◌,
}
use queue.Prelude.Equality.{string_eq}
use queue.Prelude.Table.{Table, update, update_cases, remove_if_cases}
use queue.Workflow.Receipt.{
  TransitionReceipt, TransitionReceiptKey, receipt_key_eq, key_eq, key_eq_iff, supported, is_valid,
  chain_transition_kind, batch_transition_kind,
}
use queue.Workflow.Memory.Store.{
  MemoryChain, MemoryBatch, MemoryStore, new_memory_store, receipt_key, record_transition_receipt,
  delete_transition_receipts,
}
use queue.Workflow.Memory.Chains.{put_chain}
use queue.Workflow.Memory.Chains.Invariant.{ChainInv}
use queue.Workflow.Memory.Batches.{put_batch}
use queue.Workflow.Memory.Batches.Invariant.{BatchInv}

-- The dispatch and the creation time that tell one use of a workflow identifier from another.
abbrev pub chain_origin : Option MemoryChain → Option (String × ℕ)
chain_origin none = none
chain_origin (some ch) = some (ch.state.dispatch_id, ch.state.created_at)

abbrev pub batch_origin : Option MemoryBatch → Option (String × ℕ)
batch_origin none = none
batch_origin (some b) = some (b.state.dispatch_id, b.state.created_at)

-- The origin of the workflow that a receipt key names.
pub origin : MemoryStore → TransitionReceiptKey → Option (String × ℕ)
origin m key =
    if key.workflow_kind == chain_transition_kind
    then chain_origin (m.chains key.workflow_id)
    else if key.workflow_kind == batch_transition_kind
    then batch_origin (m.batch key.workflow_id)
    else none

-- A receipt stands under its own key, is readable and complete, and belongs to the workflow that
-- the store holds now.
pub record ReceiptInv (m : MemoryStore) (key : TransitionReceiptKey) (r : TransitionReceipt)
    : Type 0 where
  pub keyed : receipt_key r ≡ key
  pub readable : supported r ≡ true
  pub complete : is_valid r.owner ≡ true
  pub current : origin m key ≡ some (r.workflow_dispatch_id, r.workflow_created_at)

pub record StoreInv (m : MemoryStore) : Type 0 where
  pub chains : (c : String) (ch : MemoryChain) → m.chains c ≡ some ch → ChainInv c ch
  pub batches : (id : String) (b : MemoryBatch) → m.batch id ≡ some b → BatchInv id b
  pub receipts :
      (key : TransitionReceiptKey) (r : TransitionReceipt)
      → m.receipts key ≡ some r
      → ReceiptInv m key r

pub new_memory_store-StoreInv : StoreInv new_memory_store
unfolding new_memory_store
new_memory_store-StoreInv = record {
  chains = λ c ch h. cc;
  batches = λ id b h. cc;
  receipts = λ key r h. cc;
}

-- A receipt that the store keeps stays good while its workflow keeps its origin.
keep_receipt :
    (m m' : MemoryStore) (key : TransitionReceiptKey) (r : TransitionReceipt)
    → origin m' key ≡ origin m key
    → ReceiptInv m key r
    → ReceiptInv m' key r
keep_receipt m m' key r same inv = record {
  keyed = inv.keyed;
  readable = inv.readable;
  complete = inv.complete;
  current = same ∙ inv.current;
}

module _ (m : MemoryStore) (inv : StoreInv m) where
  module _ (c : String) (old ch : MemoryChain) (there : m.chains c ≡ some old)
      (good : ChainInv c ch) (same : chain_origin (some ch) ≡ chain_origin (some old)) where
    put_chain-origin : (key : TransitionReceiptKey) → origin (put_chain m c ch) key ≡ origin m key
    unfolding origin put_chain
    put_chain-origin key = ground (arith, eq_iff c key.workflow_id)

    -- The entry of a chain is replaced by a later one of the same chain.
    pub put_chain-StoreInv : StoreInv (put_chain m c ch)
    unfolding put_chain
    put_chain-StoreInv = record {
      chains = λ d x h. elim (update_cases m.chains c d ch x h) [
        | inl (p, q) ↦ subst₂ ChainInv p q good
        | inr h' ↦ inv.chains d x h'
      ];
      batches = inv.batches;
      receipts = λ key r h.
          keep_receipt m (put_chain m c ch) key r (put_chain-origin key) (inv.receipts key r h);
    }

  module _ (id : String) (old b : MemoryBatch) (there : m.batch id ≡ some old)
      (good : BatchInv id b) (same : batch_origin (some b) ≡ batch_origin (some old)) where
    put_batch-origin : (key : TransitionReceiptKey) → origin (put_batch m id b) key ≡ origin m key
    unfolding origin put_batch
    put_batch-origin key = ground (arith, eq_iff id key.workflow_id)

    pub put_batch-StoreInv : StoreInv (put_batch m id b)
    unfolding put_batch
    put_batch-StoreInv = record {
      chains = inv.chains;
      batches = λ d x h. elim (update_cases m.batch id d b x h) [
        | inl (p, q) ↦ subst₂ BatchInv p q good
        | inr h' ↦ inv.batches d x h'
      ];
      receipts = λ key r h.
          keep_receipt m (put_batch m id b) key r (put_batch-origin key) (inv.receipts key r h);
    }

  module _ (r : TransitionReceipt) (readable : supported r ≡ true)
      (complete : is_valid r.owner ≡ true)
      (current : origin m (receipt_key r)
        ≡ some (r.workflow_dispatch_id, r.workflow_created_at)) where
    abbrev recorded : MemoryStore
    recorded = record m { receipts = update m.receipts (receipt_key r) r }

    recorded-StoreInv : StoreInv recorded
    unfolding origin
    recorded-StoreInv = record {
      chains = inv.chains;
      batches = inv.batches;
      receipts = λ key x h. elim (update_cases m.receipts (receipt_key r) key r x h) [
        | inl (p, q) ↦
            subst₂ (ReceiptInv recorded) p q
              (record { keyed = refl; readable = readable; complete = complete; current = current })
        | inr h' ↦ keep_receipt m recorded key x refl (inv.receipts key x h')
      ];
    }

  -- A receipt is recorded of a workflow that the store holds.
  pub record_receipt-StoreInv :
      (r : TransitionReceipt)
      → supported r ≡ true
      → origin m (receipt_key r) ≡ some (r.workflow_dispatch_id, r.workflow_created_at)
      → StoreInv (record_transition_receipt m r).1
  unfolding record_transition_receipt
  record_receipt-StoreInv r readable current = elim (Bool-cases (is_valid r.owner)) [
    | inr e ↦ rw e inv
    | inl e ↦ rw e (recorded-StoreInv r readable e current)
  ]

  -- A receipt that is left was there, and its workflow still has the origin that it had.
  abbrev pub Keeps : MemoryStore → Type 0
  Keeps m' =
      (key : TransitionReceiptKey) (r : TransitionReceipt)
      → m'.receipts key ≡ some r
      → (m.receipts key ≡ some r) × (origin m' key ≡ origin m key)

  pub Keeps-StoreInv :
      (m' : MemoryStore)
      → ((c : String) (ch : MemoryChain) → m'.chains c ≡ some ch → ChainInv c ch)
      → ((id : String) (b : MemoryBatch) → m'.batch id ≡ some b → BatchInv id b)
      → Keeps m'
      → StoreInv m'
  Keeps-StoreInv m' chains batches keeps = record {
    chains = chains;
    batches = batches;
    receipts = λ key r h.
        let (h', same) = keeps key r h in keep_receipt m m' key r same (inv.receipts key r h');
  }

-- Receipts of one chain are deleted, and then only the entry of that chain changes.
pub forget_chain-origin :
    (m : MemoryStore) (c : String) (entry : Option MemoryChain) (key : TransitionReceiptKey)
    → (key.workflow_kind == chain_transition_kind && key.workflow_id == c) ≡ false
    → origin (record m { chains = λ d. if c == d then entry else m.chains d }) key ≡ origin m key
unfolding origin
forget_chain-origin m c entry key h =
    ground (arith, eq_iff c key.workflow_id, eq_iff key.workflow_id c)

pub forget_batch-origin :
    (m : MemoryStore) (id : String) (entry : Option MemoryBatch) (key : TransitionReceiptKey)
    → (key.workflow_kind == batch_transition_kind && key.workflow_id == id) ≡ false
    → origin (record m { batch = λ d. if id == d then entry else m.batch d }) key ≡ origin m key
unfolding origin
forget_batch-origin m id entry key h =
    ground (arith, eq_iff id key.workflow_id, eq_iff key.workflow_id id)
