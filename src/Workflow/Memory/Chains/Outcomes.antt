-- ===== src/Workflow/Memory/Chains/Outcomes.antt =====
-- The result and the store of a delivery that claims its node, for the chain methods of
-- internal/workflow/store_memory.go.
use queue.Prelude.{
  ◌≡◌, refl, ℕ, ◌+◌, ◌<◌, Bool, true, false, String, none, some, ok, arith, length, eqb,
  get_elem?-some,
}
use native.Mathlib.Decide.{dec_lt}
use queue.Workflow.Chain.{clone_chain_node}
use queue.Workflow.Chain.Decisions.{IsCurrent}
use queue.Workflow.Receipt.{TransitionClaim}
use queue.Workflow.Memory.Store.{MemoryChain, MemoryStore, record_transition_receipt}
use queue.Workflow.Memory.Chains.{
  ChainAdvanceResult, advance_claimed, commit_node, put_chain, advance_receipt, claimed_result,
}

module _ (m : MemoryStore) (ch : MemoryChain) (c n : String) (claim : TransitionClaim)
    (now later : ℕ) (k : IsCurrent ch.state n) where
  -- The delivery of the last node ends the chain.
  abbrev pub last : Bool
  last = eqb (k.index + 1) (length ch.state.nodes)

  pub record Advanced : Type 0 where
    pub result : ChainAdvanceResult
    pub returns : (advance_claimed m ch c n claim now later).0 ≡ ok result
    pub claimed : result.claimed_now ≡ true
    pub owned : result.success_owned ≡ true
    pub ends : result.done ≡ last
    pub stored :
        (advance_claimed m ch c n claim now later).1
        ≡ (record_transition_receipt
            (put_chain m c (commit_node ch n now))
            (advance_receipt (commit_node ch n now) c n claim last later)).1

  abbrev after : MemoryChain
  after = commit_node ch n now

  advanced_last : k.index + 1 ≡ length ch.state.nodes → Advanced
  unfolding advance_claimed
  advanced_last h = record {
    result =
        claimed_result after none true
          (record_transition_receipt (put_chain m c after)
            (advance_receipt after c n claim true later)).0;
    returns = ground (arith, k.at);
    claimed = refl;
    owned = refl;
    ends = ground arith;
    stored = ground (arith, k.at);
  }

  advanced_next : k.index + 1 < length ch.state.nodes → Advanced
  unfolding advance_claimed
  advanced_next h =
      let (next, at) = get_elem?-some ch.state.nodes (k.index + 1) h in
      record {
        result =
            claimed_result after (some (clone_chain_node next)) false
              (record_transition_receipt (put_chain m c after)
                (advance_receipt after c n claim false later)).0;
        returns = ground (arith, k.at);
        claimed = refl;
        owned = refl;
        ends = ground arith;
        stored = ground (arith, k.at);
      }

  pub advanced : Advanced
  advanced = elim (dec_lt (k.index + 1) (length ch.state.nodes)) [
    | yes h ↦ advanced_next h
    | no h ↦ advanced_last (omega (arith, k.within))
  ]
