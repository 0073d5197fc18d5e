-- ===== src/Workflow/Chain/State.antt =====
-- What `validateChainState` of internal/workflow/store.go accepts.
use queue.Prelude.{◌≡◌, ◌≢◌, ◌≤◌, ◌↔◌, refl, ℕ, [], ok, eqb, arith, length, Result-cases}
use queue.Prelude.Int.{ℤ, pos, negsuc}
use queue.Workflow.Types.{ChainState, ChainRecord}
use queue.Workflow.Validate.{validate_chain_record, node_ids}
use queue.Workflow.Validate.Exact.{IsIdentifying, validate_chain_record-exact}
use queue.Workflow.Chain.{validate_chain_state}

-- The order is unambiguous, the index is a count of committed nodes, and `completed` says that all
-- of them are.
pub record IsWellFormed (s : ChainState) : Type 0 where
  pub named : s.chain_id ≢ ""
  pub filled : s.nodes ≢ []
  pub identifying : IsIdentifying (node_ids s.nodes)
  pub index : ℕ
  pub at : s.next_index ≡ pos index
  pub within : index ≤ length s.nodes
  pub finished : s.completed ≡ eqb index (length s.nodes)

-- The record that is built for the check.
abbrev record_of : ChainState → ChainRecord
record_of s = record {
  chain_id = s.chain_id;
  dispatch_id = "";
  queue_name = "";
  nodes = s.nodes;
  created_at = 0;
}

at_index :
    (s : ChainState) (z : ℤ) → s.next_index ≡ z → validate_chain_state s ≡ ok tt → IsWellFormed s
unfolding validate_chain_state
at_index s (negsuc n) e h =
    absurd (ground (arith, Result-cases (validate_chain_record (record_of s))))
at_index s (pos n) e h = record {
  named = checked.0;
  filled = checked.1;
  identifying = checked.2;
  index = n;
  at = e;
  within = ground (arith, Result-cases (validate_chain_record (record_of s)));
  finished = ground (arith, Result-cases (validate_chain_record (record_of s)));
}
  where
    recorded : validate_chain_record (record_of s) ≡ ok tt
    recorded = ground (arith, Result-cases (validate_chain_record (record_of s)))

    checked : (s.chain_id ≢ "") × (s.nodes ≢ []) × IsIdentifying (node_ids s.nodes)
    checked = (validate_chain_record-exact (record_of s)).0 recorded

accepts : (s : ChainState) → IsWellFormed s → validate_chain_state s ≡ ok tt
unfolding validate_chain_state
accepts s w =
    ground (arith, (validate_chain_record-exact (record_of s)).1 (w.named, w.filled, w.identifying))

-- A chain state is accepted exactly when it names the chain, its nodes are at least one and have
-- distinct identifiers that are not empty, its next index is from zero to the number of nodes, and
-- it is marked completed just where the index is that number.
pub validate_chain_state-exact :
    (s : ChainState) → (validate_chain_state s ≡ ok tt) ↔ IsWellFormed s
validate_chain_state-exact s = (at_index s s.next_index refl, accepts s)
