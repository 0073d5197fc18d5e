-- ===== src/Workflow/Memory/Invariant/OfChains.antt =====
-- The chain methods of internal/workflow/store_memory.go keep the invariant of the store.
use mathlib.Core.Path.{subst₂}
use queue.Prelude.{
  ◌≡◌, refl, subst, sym, ap, ◌∙◌, ℕ, true, false, ◌&&◌, ◌==◌, eq_iff, String, Option, none, some,
  ok, Result-cases, arith, if◌then◌else◌, Bool-cases, Option-cases, inl, inr,
}
use queue.Prelude.Equality.{string_eq}
use queue.Prelude.Table.{update, remove, update_cases, remove_if_cases}
use queue.Workflow.Types.{ChainRecord, failed}
use queue.Workflow.Validate.{validate_chain_record}
use queue.Workflow.Receipt.{
  TransitionClaim, TransitionReceipt, receipt_key_eq, supported, chain_transition_kind,
}
use queue.Workflow.Memory.Store.{
  MemoryChain, MemoryStore, new_receipt, record_transition_receipt, delete_transition_receipts,
}
use queue.Workflow.Memory.Chains.{
  new_chain, create_chain, commit_node, put_chain, advance_receipt, advance_chain_outcome,
  fail_state, fail_claimed, fail_chain_outcome, fail_chain, discard_chain,
}
use queue.Workflow.Memory.Chains.Cases.{fail_chain-open, advance_cases, fail_cases}
use queue.Workflow.Memory.Chains.Outcomes.{advanced, last}
use queue.Workflow.Memory.Chains.Invariant.{
  ChainInv, new_chain-ChainInv, commit_node-ChainInv, fail_state-ChainInv,
}
use queue.Workflow.Memory.Invariant.{
  StoreInv, origin, chain_origin, put_chain-StoreInv, record_receipt-StoreInv, Keeps-StoreInv,
  Keeps, forget_chain-origin,
}

module _ (m : MemoryStore) (inv : StoreInv m) where
  -- The store without the receipts of a chain, and with another entry for it.
  forget-Keeps :
      (c : String) (entry : Option MemoryChain)
      → Keeps m inv (record (delete_transition_receipts m chain_transition_kind c) {
        chains = λ d. if c == d then entry else m.chains d;
      })
  unfolding delete_transition_receipts origin
  forget-Keeps c entry key r h =
      let (there, apart) =
        remove_if_cases
          (λ key _. key.workflow_kind == chain_transition_kind && key.workflow_id == c) m.receipts
          key r h in
      (there, forget_chain-origin m c entry key apart)

  created :
      (r : ChainRecord) (now : ℕ)
      → validate_chain_record r ≡ ok tt
      → StoreInv (create_chain m r now).1
  unfolding create_chain
  created r now h =
      rw (h, create_chain)
        (Keeps-StoreInv m inv _ entries inv.batches
          (forget-Keeps r.chain_id (some (new_chain r now))))
    where
      entries :
          (c : String) (ch : MemoryChain)
          → update m.chains r.chain_id (new_chain r now) c ≡ some ch
          → ChainInv c ch
      entries c ch e = elim (update_cases m.chains r.chain_id c (new_chain r now) ch e) [
        | inl (p, q) ↦ subst₂ ChainInv p q (new_chain-ChainInv r now h)
        | inr e' ↦ inv.chains c ch e'
      ]

  pub create_chain-StoreInv : (r : ChainRecord) (now : ℕ) → StoreInv (create_chain m r now).1
  unfolding create_chain
  create_chain-StoreInv r now = elim (Result-cases (validate_chain_record r)) [
    | inl (e, h) ↦ rw (h, create_chain) inv
    | inr (u, h) ↦ created r now h
  ]

  pub discard_chain-StoreInv : (c : String) → StoreInv (discard_chain m c)
  unfolding discard_chain delete_transition_receipts
  discard_chain-StoreInv c = Keeps-StoreInv m inv _ entries inv.batches (forget-Keeps c none)
    where
      entries : (d : String) (ch : MemoryChain) → remove m.chains c d ≡ some ch → ChainInv d ch
      entries d ch e = elim (Bool-cases (c == d)) [
        | inl same ↦ absurd (ground arith)
        | inr apart ↦ inv.chains d ch (ground arith)
      ]

  pub fail_chain-StoreInv :
      (c : String) (cause : Option String) (now : ℕ) → StoreInv (fail_chain m c cause now).1
  unfolding fail_chain
  fail_chain-StoreInv c cause now = elim (Option-cases (m.chains c)) [
    | inl e ↦ rw (e, fail_chain) inv
    | inr (ch, e) ↦ elim (Bool-cases ch.state.completed) [
      | inl f ↦ rw (e, fail_chain) (rw f inv)
      | inr f ↦ elim (Bool-cases ch.state.failed) [
        | inl g ↦ rw (e, fail_chain) (rw (f, g) inv)
        | inr g ↦ subst StoreInv (sym (fail_chain-open m c ch cause now e f g)) (
            put_chain-StoreInv m inv c ch (fail_state ch cause now) e
              (fail_state-ChainInv c ch cause now (inv.chains c ch e) f)
              (unfold fail_state in refl))
      ]
    ]
  ]

  -- A chain and the receipt of its transition are stored together.
  settled-StoreInv :
      (c : String) (old ch : MemoryChain) (r : TransitionReceipt)
      → m.chains c ≡ some old
      → ChainInv c ch
      → chain_origin (some ch) ≡ chain_origin (some old)
      → r.workflow_kind ≡ chain_transition_kind
      → r.workflow_id ≡ c
      → supported r ≡ true
      → chain_origin (some ch) ≡ some (r.workflow_dispatch_id, r.workflow_created_at)
      → StoreInv (record_transition_receipt (put_chain m c ch) r).1
  settled-StoreInv c old ch r there good same kind named readable from =
      record_receipt-StoreInv (put_chain m c ch) (put_chain-StoreInv m inv c old ch there good same)
        r readable
        (unfold origin put_chain in
          ground (arith, eq_iff c r.workflow_id, eq_iff r.workflow_kind chain_transition_kind))

  pub advance-StoreInv :
      (c n : String) (claim : TransitionClaim) (now later : ℕ)
      → StoreInv (advance_chain_outcome m c n claim now later).1
  advance-StoreInv c n claim now later = elim (advance_cases m c n claim now later) [
    | inl same ↦ subst StoreInv (sym same) inv
    | inr (ch, (claims, eq)) ↦
        subst StoreInv
          (sym (ap (λ p. p.1) eq ∙ (advanced m ch c n claim now later claims.current).stored))
          (settled-StoreInv c ch (commit_node ch n now)
            (advance_receipt (commit_node ch n now) c n claim
              (last m ch c n claim now later claims.current) later)
            claims.entry
            (commit_node-ChainInv c ch n now (inv.chains c ch claims.entry) claims.current)
            (unfold commit_node in refl) (unfold advance_receipt new_receipt in refl)
            (unfold advance_receipt new_receipt in refl)
            (unfold advance_receipt new_receipt supported in refl)
            (unfold advance_receipt new_receipt commit_node in refl))
  ]

  pub fail-StoreInv :
      (c n : String) (cause : Option String) (claim : TransitionClaim) (now later : ℕ)
      → StoreInv (fail_chain_outcome m c n cause claim now later).1
  fail-StoreInv c n cause claim now later = elim (fail_cases m c n cause claim now later) [
    | inl same ↦ subst StoreInv (sym same) inv
    | inr (ch, (claims, eq)) ↦ subst StoreInv (sym (ap (λ p. p.1) eq)) (
        unfold fail_claimed in
        settled-StoreInv c ch (fail_state ch cause now)
          (new_receipt chain_transition_kind c (fail_state ch cause now).state.dispatch_id
            (fail_state ch cause now).state.created_at n failed claim false false later)
          claims.entry
          (fail_state-ChainInv c ch cause now (inv.chains c ch claims.entry) claims.current.open_)
          (unfold fail_state in refl) (unfold new_receipt in refl) (unfold new_receipt in refl)
          (unfold new_receipt supported in refl) (unfold new_receipt fail_state in refl))
  ]
