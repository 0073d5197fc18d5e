-- ===== src/Workflow/Chain/Order.antt =====
-- `chainNodePosition` of internal/workflow/store.go finds the one node of an identifier.
use queue.Prelude.{
  ◌==◌, eq_iff, ◌≡◌, ◌≢◌, ◌<◌, ℕ, zero, suc, String, List, [], ◌∷◌, some, All, arith, Bool-cases,
  Option-cases, inl, inr, length, get_elem?,
}
use queue.Workflow.Types.{ChainNode}
use queue.Workflow.Validate.{node_ids}
use queue.Workflow.Validate.Exact.{IsDistinct}
use queue.Workflow.Chain.{position}

pub position_bound :
    (nodes : List ChainNode) (id : String) (i : ℕ) → position nodes id ≡ some i → i < length nodes
unfolding position
position_bound [] id i h = cc
position_bound (x ∷ nodes) id zero h = omega arith
position_bound (x ∷ nodes) id (suc i) h = elim (Option-cases (position nodes id)) [
  | inl e ↦ absurd (ground arith)
  | inr (j, e) ↦ ground (arith, position_bound nodes id j e)
]

pub position_finds :
    (nodes : List ChainNode) (id : String) (i : ℕ)
    → position nodes id ≡ some i
    → (node : ChainNode) × (get_elem? nodes i ≡ some node) × (node.node_id ≡ id)
unfolding position
position_finds [] id i h = absurd (ground arith)
position_finds (x ∷ nodes) id i h = elim (Bool-cases (x.node_id == id)) [
  | inl e ↦ (x, ground arith, ground (arith, eq_iff x.node_id id))
  | inr e ↦ elim (Option-cases (position nodes id)) [
    | inl f ↦ absurd (ground arith)
    | inr (j, f) ↦ let (node, at, same) = position_finds nodes id j f in (node, ground arith, same)
  ]
]

absent :
    (x : String) (nodes : List ChainNode) (i : ℕ) (node : ChainNode)
    → All (λ y. x ≢ y) (node_ids nodes)
    → get_elem? nodes i ≡ some node
    → x ≢ node.node_id
absent x [] i node h at = cc
absent x (y ∷ nodes) zero node h at = ground arith
absent x (y ∷ nodes) (suc i) node h at = absent x nodes i node h.1 at

pub position_of :
    (nodes : List ChainNode) (i : ℕ) (node : ChainNode)
    → IsDistinct (node_ids nodes)
    → get_elem? nodes i ≡ some node
    → position nodes node.node_id ≡ some i
unfolding position
position_of [] i node d at = cc
position_of (y ∷ nodes) zero node d at = ground (arith, eq_iff y.node_id node.node_id)
position_of (y ∷ nodes) (suc i) node d at = ground (
  arith,
  eq_iff y.node_id node.node_id,
  absent y.node_id nodes i node d.0 at,
  position_of nodes i node d.1 at,
)
