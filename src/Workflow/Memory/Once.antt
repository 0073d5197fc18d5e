-- ===== src/Workflow/Memory/Once.antt =====
-- The first outcome of a node is final in `memoryStore` of internal/workflow/store_memory.go:
-- whatever other deliveries do, no later delivery of the node claims it.
use queue.Prelude.{
  ◌≡◌, refl, ap, ◌∙◌, subst, ℕ, suc, ◌<◌, true, String, List, [], ◌∷◌, Option, some, ok, inl, inr,
  ◌⊎◌, arith, All,
}
use queue.Prelude.Int.{pos}
use queue.Workflow.Types.{ChainState}
use queue.Workflow.Chain.{position}
use queue.Workflow.Chain.Decisions.{IsCurrent}
use queue.Workflow.Receipt.{TransitionClaim}
use queue.Workflow.Memory.Store.{MemoryChain, MemoryStore}
use queue.Workflow.Memory.Chains.{
  ChainAdvanceResult, ChainFailureResult, commit_node, fail_state, advance_chain_outcome,
  fail_chain_outcome,
}
use queue.Prelude.Equality.{string_eq}
use queue.Prelude.Table.{update_self}
use queue.Workflow.Memory.Chains.Cases.{advance_claimed_now, fail_claimed_now}
use queue.Workflow.Memory.Calls.{Call, perform, run}
use queue.Workflow.Memory.Progress.{
  ChainStep, stays, commits, breaks, Spares, perform-ChainStep, chains-advanced, chains-failed,
}

-- The node is before the chain's index, or the chain has failed.
pub record IsSettled (s : ChainState) (n : String) : Type 0 where
  pub place : ℕ
  pub found : position s.nodes n ≡ some place
  pub index : ℕ
  pub at : s.next_index ≡ pos index
  pub over : (place < index) ⊎ (s.failed ≡ true)

settled_apart : (s : ChainState) (n : String) → IsSettled s n → ¬ IsCurrent s n
settled_apart s n h k = ground (arith, h.over, h.found, h.at, k.found, k.at, k.healthy)

ChainStep-IsSettled :
    (n : String) {ch ch' : MemoryChain}
    → ChainStep ch ch'
    → IsSettled ch.state n
    → IsSettled ch'.state n
unfolding commit_node fail_state
ChainStep-IsSettled n stays h = h
ChainStep-IsSettled n (commits other now k) h = record {
  place = h.place;
  found = h.found;
  index = suc k.index;
  at = ground (arith, k.at);
  over = ground (arith, h.over, h.at, k.at, k.healthy);
}
ChainStep-IsSettled n (breaks cause now open_ healthy) h = record {
  place = h.place;
  found = h.found;
  index = h.index;
  at = h.at;
  over = inr refl;
}

committed-IsSettled :
    (n : String) (ch : MemoryChain) (now : ℕ)
    → IsCurrent ch.state n
    → IsSettled (commit_node ch n now).state n
unfolding commit_node
committed-IsSettled n ch now k = record {
  place = k.index;
  found = k.found;
  index = suc k.index;
  at = ground (arith, k.at);
  over = inl (omega arith);
}

failed-IsSettled :
    (n : String) (ch : MemoryChain) (cause : Option String) (now : ℕ)
    → IsCurrent ch.state n
    → IsSettled (fail_state ch cause now).state n
unfolding fail_state
failed-IsSettled n ch cause now k = record {
  place = k.index;
  found = k.found;
  index = k.index;
  at = k.at;
  over = inr refl;
}

-- The store holds the chain, and has settled the node.
pub record Holds (m : MemoryStore) (c n : String) : Type 0 where
  pub chain : MemoryChain
  pub entry : m.chains c ≡ some chain
  pub settled : IsSettled chain.state n

-- A delivery of the node that claims it for success or for failure, and the store that it leaves.
pub data Claiming (m : MemoryStore) (c n : String) : MemoryStore → Type 0 where
  succeeding :
      (claim : TransitionClaim) (now later : ℕ) (r : ChainAdvanceResult)
      → (advance_chain_outcome m c n claim now later).0 ≡ ok r
      → r.claimed_now ≡ true
      → Claiming m c n (advance_chain_outcome m c n claim now later).1
  failing :
      (cause : Option String) (claim : TransitionClaim) (now later : ℕ) (r : ChainFailureResult)
      → (fail_chain_outcome m c n cause claim now later).0 ≡ ok r
      → r.claimed_now ≡ true
      → Claiming m c n (fail_chain_outcome m c n cause claim now later).1

run-Holds :
    (c n : String) (m : MemoryStore) (calls : List Call)
    → All (Spares c) calls
    → Holds m c n
    → Holds (run m calls) c n
unfolding run
run-Holds c n m [] s h = h
run-Holds c n m (call ∷ calls) s h =
    let (ch', there, step) = perform-ChainStep m c h.chain h.entry call s.0 in
    run-Holds c n (perform m call) calls s.1
      (record { chain = ch'; entry = there; settled = ChainStep-IsSettled n step h.settled })

Claiming-Holds :
    (m : MemoryStore) (c n : String) {m' : MemoryStore} → Claiming m c n m' → Holds m' c n
Claiming-Holds m c n (succeeding claim now later r h claimed) =
    let (ch, both) = advance_claimed_now m c n claim now later r h claimed in
    record {
      chain = commit_node ch n now;
      entry =
          ap (λ t. t c) (chains-advanced m c n claim now later ch both)
          ∙ update_self m.chains c (commit_node ch n now);
      settled = committed-IsSettled n ch now both.0.current;
    }
Claiming-Holds m c n (failing cause claim now later r h claimed) =
    let (ch, both) = fail_claimed_now m c n cause claim now later r h claimed in
    record {
      chain = fail_state ch cause now;
      entry =
          ap (λ t. t c) (chains-failed m c n cause claim now later ch both)
          ∙ update_self m.chains c (fail_state ch cause now);
      settled = failed-IsSettled n ch cause now both.0.current;
    }

same_chain :
    (m : MemoryStore) (c : String) (a b : MemoryChain)
    → m.chains c ≡ some a
    → m.chains c ≡ some b
    → a ≡ b
same_chain m c a b p q = ground arith

Claiming-apart :
    (m : MemoryStore) (c n : String) {m' : MemoryStore} → Holds m c n → ¬ Claiming m c n m'
Claiming-apart m c n h (succeeding claim now later r e claimed) =
    let (ch, both) = advance_claimed_now m c n claim now later r e claimed in
    settled_apart h.chain.state n h.settled (
      subst (λ x. IsCurrent x.state n) (same_chain m c ch h.chain both.0.entry h.entry)
        both.0.current)
Claiming-apart m c n h (failing cause claim now later r e claimed) =
    let (ch, both) = fail_claimed_now m c n cause claim now later r e claimed in
    settled_apart h.chain.state n h.settled (
      subst (λ x. IsCurrent x.state n) (same_chain m c ch h.chain both.0.entry h.entry)
        both.0.current)

-- Once a delivery has claimed a node, for success or for failure, no later delivery of that node
-- claims it for either, whatever calls come between, as long as none of them creates or discards
-- the chain or prunes the store.
pub Claiming-once :
    (m m' m″ : MemoryStore) (c n : String) (calls : List Call)
    → Claiming m c n m'
    → All (Spares c) calls
    → ¬ Claiming (run m' calls) c n m″
Claiming-once m m' m″ c n calls first s second =
    Claiming-apart (run m' calls) c n (run-Holds c n m' calls s (Claiming-Holds m c n first)) second
