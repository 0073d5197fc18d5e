-- ===== src/Workflow/Memory/Progress.antt =====
-- One chain of `memoryStore` of internal/workflow/store_memory.go under the calls of all
-- deliveries: it moves by committing or failing its current node, and by nothing else.
use queue.Prelude.{
  ◌==◌, eq_iff, ◌≡◌, ◌≢◌, refl, ap, ◌∙◌, subst, ℕ, Bool, true, false, String, Option, some,
  Result-cases, Option-cases, Bool-cases, inl, inr, arith,
}
use queue.Prelude.Equality.{string_eq}
use queue.Prelude.Table.{update}
use queue.Workflow.Types.{ChainRecord, BatchJobOutcome, succeeded, failed, other}
use queue.Workflow.Validate.{validate_chain_record, validate_batch_record}
use queue.Workflow.Chain.Decisions.{IsCurrent}
use queue.Workflow.Receipt.{TransitionClaim, TransitionReceipt, is_valid}
use queue.Workflow.Memory.Store.{
  MemoryChain, MemoryBatch, BatchJobStatus, MemoryStore, dispatch_conflict,
  record_transition_receipt, delete_transition_receipts,
}
use queue.Workflow.Memory.Chains.{
  create_chain, commit_node, put_chain, fail_state, fail_claimed, advance_chain_outcome,
  fail_chain_outcome, fail_chain, discard_chain,
}
use queue.Workflow.Memory.Chains.Cases.{
  AdvanceClaims, FailClaims, advance_cases, fail_cases, fail_chain-open,
}
use queue.Workflow.Memory.Chains.Outcomes.{advanced}
use queue.Workflow.Memory.Batches.{
  put_batch, create_batch, mark_batch_job_started, settle_batch_outcome, cancel_batch,
  discard_batch, settle_again, settle_member, settle_claimed,
}
use queue.Workflow.Memory.Batches.Cases.{Requests, success, failure, settle_cases}
use queue.Workflow.Memory.Retention.{mark_callback_invoked}
use queue.Workflow.Memory.Calls.{
  Call, creates_chain, advances, fails_node, fails, discards_chain, creates_batch, starts, settles,
  cancels, discards_batch, invokes, prunes, perform,
}

-- The moves of a chain.
pub data ChainStep (ch : MemoryChain) : MemoryChain → Type 0 where
  stays : ChainStep ch ch
  commits : (n : String) (now : ℕ) → IsCurrent ch.state n → ChainStep ch (commit_node ch n now)
  breaks :
      (cause : Option String) (now : ℕ)
      → ch.state.completed ≡ false
      → ch.state.failed ≡ false
      → ChainStep ch (fail_state ch cause now)

-- The call neither creates nor removes the chain.
abbrev pub Spares : String → Call → Type 0
Spares c (creates_chain r now) = r.chain_id ≢ c
Spares c (discards_chain d) = d ≢ c
Spares c (prunes before) = ⊥
Spares c _ = Unit

abbrev Moves : String → MemoryChain → MemoryStore → Type 0
Moves c ch m' = (ch' : MemoryChain) × (m'.chains c ≡ some ch') × ChainStep ch ch'

-- Recording a receipt leaves the chains alone.
chains-record :
    (m : MemoryStore) (r : TransitionReceipt) → (record_transition_receipt m r).1.chains ≡ m.chains
unfolding record_transition_receipt
chains-record m r = ground (arith, Bool-cases (is_valid r.owner))

chains-put :
    (m : MemoryStore) (d : String) (ch : MemoryChain)
    → (put_chain m d ch).chains ≡ update m.chains d ch
unfolding put_chain
chains-put m d ch = refl

chains-record-put :
    (m : MemoryStore) (d : String) (ch : MemoryChain) (r : TransitionReceipt)
    → (record_transition_receipt (put_chain m d ch) r).1.chains ≡ update m.chains d ch
chains-record-put m d ch r = chains-record (put_chain m d ch) r ∙ chains-put m d ch

chains-fail_claimed :
    (m : MemoryStore) (old : MemoryChain) (d n : String) (cause : Option String)
    (claim : TransitionClaim) (now later : ℕ)
    → (fail_claimed m old d n cause claim now later).1.chains
      ≡ update m.chains d (fail_state old cause now)
unfolding fail_claimed
chains-fail_claimed m old d n cause claim now later =
    chains-record-put m d (fail_state old cause now) _

-- The chains after a delivery that claims its node for success, and for failure.
pub chains-advanced :
    (m : MemoryStore) (c n : String) (claim : TransitionClaim) (now later : ℕ) (ch : MemoryChain)
    → AdvanceClaims m c n claim now later ch
    → (advance_chain_outcome m c n claim now later).1.chains
      ≡ update m.chains c (commit_node ch n now)
chains-advanced m c n claim now later ch (claims, eq) =
    ap (λ p. p.1.chains) eq
    ∙ ap (λ s. s.chains) (advanced m ch c n claim now later claims.current).stored
    ∙ chains-record-put m c (commit_node ch n now) _

pub chains-failed :
    (m : MemoryStore) (c n : String) (cause : Option String) (claim : TransitionClaim)
    (now later : ℕ) (ch : MemoryChain)
    → FailClaims m c n cause claim now later ch
    → (fail_chain_outcome m c n cause claim now later).1.chains
      ≡ update m.chains c (fail_state ch cause now)
chains-failed m c n cause claim now later ch (claims, eq) =
    ap (λ p. p.1.chains) eq ∙ chains-fail_claimed m ch c n cause claim now later

batch_chains-put :
    (m : MemoryStore) (id : String) (b : MemoryBatch) → (put_batch m id b).chains ≡ m.chains
unfolding put_batch
batch_chains-put m id b = refl

chains-settle_claimed :
    (m : MemoryStore) (b : MemoryBatch) (js : BatchJobStatus) (id job : String)
    (outcome : BatchJobOutcome) (flag : Bool) (claim : TransitionClaim) (now later : ℕ)
    → (settle_claimed m b js id job outcome flag claim now later).1.chains ≡ m.chains
unfolding settle_claimed
chains-settle_claimed m b js id job outcome flag claim now later =
    chains-record (put_batch m id (settle_member b job js flag now)) _
    ∙ batch_chains-put m id (settle_member b job js flag now)

module _ (m : MemoryStore) (c : String) (ch : MemoryChain) (there : m.chains c ≡ some ch) where
  same_chains : (m' : MemoryStore) → m'.chains c ≡ m.chains c → Moves c ch m'
  same_chains m' e = (ch, e ∙ there, stays)

  -- Another chain is put, or a later one under the same key.
  put-Moves :
      (m' : MemoryStore) (d : String) (old ch' : MemoryChain)
      → m.chains d ≡ some old
      → ChainStep old ch'
      → m'.chains ≡ update m.chains d ch'
      → Moves c ch m'
  put-Moves m' d old ch' known step e = elim (Bool-cases (d == c)) [
    | inl same ↦ (
      ch',
      ap (λ t. t c) e ∙ ground (arith, same),
      subst (λ o. ChainStep o ch') (same_old same) step,
    )
    | inr apart ↦ same_chains m' (ap (λ t. t c) e ∙ ground (arith, apart))
  ]
    where
      same_old : (d == c) ≡ true → old ≡ ch
      same_old same = ground (arith, eq_iff d c)

  settle_chains :
      (id job : String) (outcome : BatchJobOutcome) (flag : Bool) (claim : TransitionClaim)
      (now later : ℕ)
      → Requests outcome flag
      → (settle_batch_outcome m id job outcome claim now later).1.chains ≡ m.chains
  settle_chains id job outcome flag claim now later q =
      elim (settle_cases m id job claim now later q) [
        | inl same ↦ ap (λ s. s.chains) same
        | inr (inl (b, js, again)) ↦ ap (λ p. p.1.chains) again.answers ∙ again_chains b js
        | inr (inr (b, js, first)) ↦
            ap (λ p. p.1.chains) first.answers
            ∙ chains-settle_claimed m b js id job outcome flag claim now later
      ]
    where
      again_chains :
          (b : MemoryBatch) (js : BatchJobStatus)
          → (settle_again m b js id job flag claim now).1.chains ≡ m.chains
      again_chains b js =
          unfold settle_again put_batch in
          ground (arith, Bool-cases (dispatch_conflict b.state.dispatch_id claim))

  advance-Moves :
      (d n : String) (claim : TransitionClaim) (now later : ℕ)
      → Moves c ch (advance_chain_outcome m d n claim now later).1
  advance-Moves d n claim now later = elim (advance_cases m d n claim now later) [
    | inl same ↦ same_chains answered (ap (λ s. s.chains c) same)
    | inr (old, (claims, eq)) ↦
        put-Moves answered d old (commit_node old n now) claims.entry (commits n now claims.current)
          (chains-advanced m d n claim now later old (claims, eq))
  ]
    where
      answered : MemoryStore
      answered = (advance_chain_outcome m d n claim now later).1

  fail-Moves :
      (d n : String) (cause : Option String) (claim : TransitionClaim) (now later : ℕ)
      → Moves c ch (fail_chain_outcome m d n cause claim now later).1
  fail-Moves d n cause claim now later = elim (fail_cases m d n cause claim now later) [
    | inl same ↦ same_chains answered (ap (λ s. s.chains c) same)
    | inr (old, (claims, eq)) ↦
        put-Moves answered d old (fail_state old cause now) claims.entry
          (breaks cause now claims.current.open_ claims.current.healthy)
          (chains-failed m d n cause claim now later old (claims, eq))
  ]
    where
      answered : MemoryStore
      answered = (fail_chain_outcome m d n cause claim now later).1

  fail_chain-Moves :
      (d : String) (cause : Option String) (now : ℕ) → Moves c ch (fail_chain m d cause now).1
  unfolding fail_chain
  fail_chain-Moves d cause now = elim (Option-cases (m.chains d)) [
    | inl e ↦ same_chains answered (ground arith)
    | inr (old, e) ↦ elim (Bool-cases old.state.completed) [
      | inl f ↦ same_chains answered (ground arith)
      | inr f ↦ elim (Bool-cases old.state.failed) [
        | inl g ↦ same_chains answered (ground arith)
        | inr g ↦ put-Moves answered d old (fail_state old cause now) e (breaks cause now f g) (
            ap (λ s. s.chains) (fail_chain-open m d old cause now e f g)
            ∙ (chains-put m d (fail_state old cause now)))
      ]
    ]
  ]
    where
      answered : MemoryStore
      answered = (fail_chain m d cause now).1

  created_apart :
      (r : ChainRecord) (now : ℕ) → r.chain_id ≢ c → (create_chain m r now).1.chains c ≡ m.chains c
  unfolding create_chain delete_transition_receipts
  created_apart r now h =
      ground (arith, eq_iff r.chain_id c, Result-cases (validate_chain_record r))

  -- A call that neither creates nor removes the chain makes one of its moves.
  pub perform-ChainStep :
      (call : Call)
      → Spares c call
      → (ch' : MemoryChain) × ((perform m call).chains c ≡ some ch') × ChainStep ch ch'
  unfolding perform
  perform-ChainStep (creates_chain r now) h =
      same_chains (create_chain m r now).1 (created_apart r now h)
  perform-ChainStep (advances d n claim now later) h = advance-Moves d n claim now later
  perform-ChainStep (fails_node d n cause claim now later) h = fail-Moves d n cause claim now later
  perform-ChainStep (fails d cause now) h = fail_chain-Moves d cause now
  perform-ChainStep (discards_chain d) h =
      same_chains (discard_chain m d)
        (unfold discard_chain delete_transition_receipts in ground (arith, eq_iff d c))
  perform-ChainStep (creates_batch r now) h = same_chains (create_batch m r now).1 (
      unfold create_batch delete_transition_receipts in
      ground (arith, Result-cases (validate_batch_record r)))
  perform-ChainStep (starts id job now) h =
      same_chains (mark_batch_job_started m id job now).1
        (unfold mark_batch_job_started put_batch in ground (arith, Option-cases (m.batch id)))
  perform-ChainStep (settles id job succeeded claim now later) h =
      same_chains (settle_batch_outcome m id job succeeded claim now later).1
        (ap (λ t. t c) (settle_chains id job succeeded false claim now later success))
  perform-ChainStep (settles id job failed claim now later) h =
      same_chains (settle_batch_outcome m id job failed claim now later).1
        (ap (λ t. t c) (settle_chains id job failed true claim now later failure))
  perform-ChainStep (settles id job (other text) claim now later) h =
      unfold settle_batch_outcome in same_chains m refl
  perform-ChainStep (cancels id now) h =
      same_chains (cancel_batch m id now).1
        (unfold cancel_batch put_batch in ground (arith, Option-cases (m.batch id)))
  perform-ChainStep (discards_batch id) h =
      same_chains (discard_batch m id) (unfold discard_batch delete_transition_receipts in refl)
  perform-ChainStep (invokes key now) h =
      same_chains (mark_callback_invoked m key now).1
        (unfold mark_callback_invoked in ground (arith, Option-cases (m.callbacks key)))
  perform-ChainStep (prunes before) h = absurd h
