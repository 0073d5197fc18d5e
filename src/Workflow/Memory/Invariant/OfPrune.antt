-- ===== src/Workflow/Memory/Invariant/OfPrune.antt =====
-- `MarkCallbackInvoked` and `Prune` of internal/workflow/store_memory.go keep the invariant.
use queue.Prelude.{◌≡◌, refl, ℕ, false, String, arith, Option-cases, inl, inr}
use queue.Prelude.Table.{remove_if_cases}
use queue.Workflow.Receipt.{TransitionReceiptKey}
use queue.Workflow.Memory.Store.{MemoryStore}
use queue.Workflow.Memory.Retention.{
  mark_callback_invoked, chain_expired, batch_expired, receipt_expired, prune,
}
use queue.Workflow.Memory.Invariant.{StoreInv, origin, Keeps-StoreInv}

module _ (m : MemoryStore) (inv : StoreInv m) where
  pub callback-StoreInv : (key : String) (now : ℕ) → StoreInv (mark_callback_invoked m key now).1
  unfolding mark_callback_invoked
  callback-StoreInv key now = elim (Option-cases (m.callbacks key)) [
    | inr (v, e) ↦ rw (e, mark_callback_invoked) inv
    | inl e ↦
        rw (e, mark_callback_invoked)
          (Keeps-StoreInv m inv _ inv.chains inv.batches (λ k r h. (h, unfold origin in refl)))
  ]

  -- A workflow whose receipts are kept is kept.
  prune-origin :
      (before : ℕ) (key : TransitionReceiptKey)
      → receipt_expired m before key ≡ false
      → origin (prune m before) key ≡ origin m key
  unfolding origin prune receipt_expired
  prune-origin before key h = ground arith

  pub prune-StoreInv : (before : ℕ) → StoreInv (prune m before)
  unfolding prune
  prune-StoreInv before =
      Keeps-StoreInv m inv (prune m before)
        (λ c ch h.
          inv.chains c ch (remove_if_cases (λ _ x. chain_expired before x) m.chains c ch h).0)
        (λ id b h.
          inv.batches id b (remove_if_cases (λ _ x. batch_expired before x) m.batch id b h).0)
        (λ key r h.
          let (there, kept) =
            remove_if_cases (λ k _. receipt_expired m before k) m.receipts key r h in
          (there, prune-origin before key kept))
