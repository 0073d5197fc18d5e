-- ===== src/Workflow/Chain.antt =====
-- The order of a chain's nodes: `chainNodePosition`, `validateChainState` and the three
-- dispositions of internal/workflow/store.go, which both stores consult before they mutate.
pub mod Order
pub mod State
pub mod Decisions
pub mod Agreement
use queue.Prelude.{
  ◌==◌, eqb_Bool, ℕ, suc, Bool, true, false, ◌||◌, String, List, [], ◌∷◌, ◌++◌, Option, none, some,
  Result, ok, err, ◌>>=◌, ◌>>◌, length, get_elem?, if◌then◌else◌, map,
}
use queue.Prelude.Int.{ℤ, pos, negsuc, leb_ℤ, ltb_ℤ, eqb_ℤ}
use queue.Workflow.Types.{
  ChainNode, ChainState, Error, invalid_next_index, completion_mismatch, node_missing, node_before,
  node_after_failure, index_out_of_range,
}
use queue.Workflow.Validate.{validate_chain_record}

-- The index at which a loop over the node identifiers stops.
pub position : List ChainNode → String → Option ℕ
position [] id = none
position (node ∷ nodes) id =
    if node.node_id == id
    then some 0
    else elim (position nodes id) [ none ↦ none | some i ↦ some (suc i) ]

unfoldable pub chain_node_position : List ChainNode → String → Option ℕ
unfolding position
chain_node_position nodes id = position nodes id

-- `nodes[i]`, with Go's check of the bounds.
abbrev pub node_at : List ChainNode → ℤ → Result Error ChainNode
node_at nodes (negsuc i) = err index_out_of_range
node_at nodes (pos i) = elim (get_elem? nodes i) [
  | none ↦ err index_out_of_range
  | some node ↦ ok node
]

unfoldable pub validate_chain_state : ChainState → Result Error (Unit {0})
validate_chain_state s = do
  validate_chain_record (record {
    chain_id = s.chain_id;
    dispatch_id = "";
    queue_name = "";
    nodes = s.nodes;
    created_at = 0;
  })
  if ltb_ℤ s.next_index (pos 0) || ltb_ℤ (pos (length s.nodes)) s.next_index
      then err (invalid_next_index s.chain_id s.next_index)
      else if eqb_Bool s.completed (eqb_ℤ s.next_index (pos (length s.nodes)))
      then ok tt
      else err (completion_mismatch s.chain_id s.next_index)

-- `chainNodeSuccessDisposition`: whether the persisted order proves that the node's success won.
unfoldable pub chain_node_success_disposition : ChainState → String → Result Error Bool
unfolding chain_node_position
chain_node_success_disposition s id = do
  validate_chain_state s
  elim (chain_node_position s.nodes id) [
    | none ↦ err (node_missing s.chain_id id)
    | some index ↦
        if ltb_ℤ s.next_index (pos index)
        then (do
          expected ← node_at s.nodes s.next_index
          err (node_before s.chain_id id expected.node_id))
        else ok (ltb_ℤ (pos index) s.next_index)
  ]

-- The results of `chainNodeAdvanceDisposition` beside its error.
pub record AdvanceDisposition : Type 0 where
  pub next : Option ChainNode
  pub done : Bool
  pub claimable : Bool

pub advance_at : ChainState → String → ℕ → Result Error AdvanceDisposition
advance_at s id index =
    if s.completed
    then ok (record { next = none; done = true; claimable = false })
    else if ltb_ℤ s.next_index (pos 0) || leb_ℤ (pos (length s.nodes)) s.next_index
    then err (invalid_next_index s.chain_id s.next_index)
    else if s.failed
    then (if ltb_ℤ s.next_index (pos index)
        then (do
          expected ← node_at s.nodes s.next_index
          err (node_after_failure s.chain_id id expected.node_id))
        else ok (record { next = none; done = true; claimable = false }))
    else if ltb_ℤ s.next_index (pos index)
    then (do
      expected ← node_at s.nodes s.next_index
      err (node_before s.chain_id id expected.node_id))
    else if eqb_ℤ (pos index) s.next_index
    then ok (record { next = none; done = false; claimable = true })
    else (do
      node ← node_at s.nodes s.next_index
      ok (record { next = some node; done = false; claimable = false }))

unfoldable pub chain_node_advance_disposition :
    ChainState → String → Result Error AdvanceDisposition
unfolding chain_node_position advance_at
chain_node_advance_disposition s id = elim (chain_node_position s.nodes id) [
  | none ↦ err (node_missing s.chain_id id)
  | some index ↦ advance_at s id index
]

-- The results of `chainNodeFailureDisposition` beside its error.
pub record FailureDisposition : Type 0 where
  pub owned : Bool
  pub claimable : Bool

pub failure_at : ChainState → String → ℕ → Result Error FailureDisposition
failure_at s id index =
    if s.completed
    then ok (record { owned = false; claimable = false })
    else if ltb_ℤ s.next_index (pos 0) || leb_ℤ (pos (length s.nodes)) s.next_index
    then err (invalid_next_index s.chain_id s.next_index)
    else if s.failed
    then (if ltb_ℤ s.next_index (pos index)
        then (do
          expected ← node_at s.nodes s.next_index
          err (node_after_failure s.chain_id id expected.node_id))
        else ok (record { owned = eqb_ℤ (pos index) s.next_index; claimable = false }))
    else if ltb_ℤ (pos index) s.next_index
    then ok (record { owned = false; claimable = false })
    else if ltb_ℤ s.next_index (pos index)
    then (do
      expected ← node_at s.nodes s.next_index
      err (node_before s.chain_id id expected.node_id))
    else ok (record { owned = false; claimable = true })

unfoldable pub chain_node_failure_disposition :
    ChainState → String → Result Error FailureDisposition
unfolding chain_node_position failure_at
chain_node_failure_disposition s id = elim (chain_node_position s.nodes id) [
  | none ↦ err (node_missing s.chain_id id)
  | some index ↦ failure_at s id index
]

-- `cloneChainNode` copies the payload's bytes, and `cloneChainNodes` every node.
unfoldable pub clone_chain_node : ChainNode → ChainNode
clone_chain_node node = record node { job = record job { payload = [] ++ job.payload } }
  where
    open node use {job}

unfoldable pub clone_chain_nodes : List ChainNode → List ChainNode
unfolding clone_chain_node
clone_chain_nodes nodes = map clone_chain_node nodes
