-- ===== src/Workflow/Memory/Chains/Invariant.antt =====
-- The invariant of one chain that `memoryStore` of internal/workflow/store_memory.go keeps.
use mathlib.Core.List.{reverse-append}
use queue.Prelude.{
  ◌≡◌, ◌≢◌, refl, ap, ℕ, zero, suc, false, ◌&&◌, String, List, [], ◌∷◌, reverse, Option, some, ok,
  eqb, arith, length, take, take-suc, get_elem?, map_id_of,
}
use queue.Workflow.Types.{ChainNode, ChainRecord}
use queue.Workflow.Validate.{node_ids, validate_chain_record}
use queue.Workflow.Validate.Exact.{validate_chain_record-exact}
use queue.Workflow.Chain.{clone_chain_node, clone_chain_nodes}
use queue.Workflow.Chain.Order.{position_finds}
use queue.Workflow.Chain.State.{IsWellFormed}
use queue.Workflow.Chain.Decisions.{IsCurrent}
use queue.Workflow.Memory.Store.{MemoryChain}
use queue.Workflow.Memory.Chains.{new_chain, commit_node, fail_state}

-- The first `i` nodes, the latest first.
abbrev pub committed : ℕ → List ChainNode → List String
committed i nodes = reverse (take i (node_ids nodes))

-- The chain of the key `c` is well formed, is not both completed and failed, and has committed its
-- first nodes, in order, up to its index.
pub record ChainInv (c : String) (ch : MemoryChain) : Type 0 where
  pub keyed : ch.state.chain_id ≡ c
  pub well : IsWellFormed ch.state
  pub exclusive : ch.state.completed && ch.state.failed ≡ false
  pub in_order : ch.completed_node ≡ committed well.index ch.state.nodes

clone_chain_node-id : (node : ChainNode) → clone_chain_node node ≡ node
unfolding clone_chain_node
clone_chain_node-id node = refl

-- A copy holds what was copied.
pub clone_chain_nodes-id : (nodes : List ChainNode) → clone_chain_nodes nodes ≡ nodes
unfolding clone_chain_nodes
clone_chain_nodes-id nodes = map_id_of clone_chain_node clone_chain_node-id nodes

not_done : (nodes : List ChainNode) → nodes ≢ [] → false ≡ eqb 0 (length nodes)
not_done [] h = absurd (h refl)
not_done (x ∷ nodes) h = ground arith

pub new_chain-ChainInv :
    (r : ChainRecord) (now : ℕ)
    → validate_chain_record r ≡ ok tt
    → ChainInv r.chain_id (new_chain r now)
unfolding new_chain
new_chain-ChainInv r now h =
    let (named, filled, identifying) = (validate_chain_record-exact r).0 h in
    let same = clone_chain_nodes-id r.nodes in
    record {
      keyed = refl;
      well = record {
        named = named;
        filled = rw same filled;
        identifying = rw same identifying;
        index = 0;
        at = refl;
        within = omega arith;
        finished = rw same (not_done r.nodes filled);
      };
      exclusive = refl;
      in_order = refl;
    }

take_map :
    (xs : List ChainNode) (i : ℕ) (node : ChainNode)
    → get_elem? xs i ≡ some node
    → get_elem? (node_ids xs) i ≡ some node.node_id
take_map [] i node h = cc
take_map (x ∷ xs) zero node h = ground arith
take_map (x ∷ xs) (suc i) node h = take_map xs i node h

module _ (c : String) (ch : MemoryChain) (n : String) (now : ℕ) (inv : ChainInv c ch)
    (k : IsCurrent ch.state n) where
  index_eq : inv.well.index ≡ k.index
  index_eq = ground (arith, inv.well.at, k.at)

  commits : n ∷ ch.completed_node ≡ committed (suc k.index) ch.state.nodes
  commits =
      let (node, at, same) = position_finds ch.state.nodes n k.index k.found in
      let ids = node_ids ch.state.nodes in
      let step = take-suc ids k.index node.node_id (take_map ch.state.nodes k.index node at) in
      let turn = reverse-append (take k.index ids) (node.node_id ∷ []) in
      ground (arith, same, ap reverse step, turn, inv.in_order, index_eq)

  pub commit_node-ChainInv : ChainInv c (commit_node ch n now)
  unfolding commit_node
  commit_node-ChainInv = record {
    keyed = inv.keyed;
    well = record {
      named = inv.well.named;
      filled = inv.well.filled;
      identifying = inv.well.identifying;
      index = suc k.index;
      at = ground (arith, k.at);
      within = omega (arith, k.within);
      finished = ground (arith, k.at, k.within, k.open_);
    };
    exclusive = ground (arith, k.healthy);
    in_order = commits;
  }

-- A failure is recorded of a chain that is not completed.
pub fail_state-ChainInv :
    (c : String) (ch : MemoryChain) (cause : Option String) (now : ℕ)
    → ChainInv c ch
    → ch.state.completed ≡ false
    → ChainInv c (fail_state ch cause now)
unfolding fail_state
fail_state-ChainInv c ch cause now inv unfinished = record {
  keyed = inv.keyed;
  well = record {
    named = inv.well.named;
    filled = inv.well.filled;
    identifying = inv.well.identifying;
    index = inv.well.index;
    at = inv.well.at;
    within = inv.well.within;
    finished = inv.well.finished;
  };
  exclusive = ground arith;
  in_order = inv.in_order;
}
