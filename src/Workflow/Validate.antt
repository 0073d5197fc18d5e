-- ===== src/Workflow/Validate.antt =====
-- `validateChainRecord` and `validateBatchRecord` of internal/workflow/store.go.
pub mod Exact
use queue.Prelude.{
  ◌==◌, Bool, true, false, ◌||◌, String, List, [], ◌∷◌, map, Result, ok, err, if◌then◌else◌,
}
use queue.Workflow.Types.{
  ChainNode, ChainRecord, BatchJob, BatchRecord, Error, chain_id_required, chain_nodes_required,
  chain_node_id_required, duplicate_node, batch_id_required, batch_jobs_required,
  batch_job_id_required, duplicate_job,
}

-- The look-up in the map `seen`.
pub contains : List String → String → Bool
contains [] a = false
contains (x ∷ xs) a = x == a || contains xs a

-- The loop over the identifiers, with the map of those seen before.
pub check_ids : Error → (String → Error) → List String → List String → Result Error (Unit {0})
unfolding contains
check_ids missing duplicate seen [] = ok tt
check_ids missing duplicate seen (x ∷ xs) =
    let rest = check_ids missing duplicate (x ∷ seen) xs in
    if x == "" then err missing else if contains seen x then err (duplicate x) else rest

abbrev is_empty {ℓ} : {A : Type ℓ} → List A → Bool
is_empty [] = true
is_empty (x ∷ xs) = false

abbrev pub node_ids : List ChainNode → List String
node_ids = map (λ node. node.node_id)

abbrev pub job_ids : List BatchJob → List String
job_ids = map (λ job. job.job_id)

unfoldable pub validate_chain_record : ChainRecord → Result Error (Unit {0})
unfolding check_ids
validate_chain_record r =
    if r.chain_id == ""
    then err chain_id_required
    else if is_empty r.nodes
    then err chain_nodes_required
    else check_ids chain_node_id_required duplicate_node [] (node_ids r.nodes)

unfoldable pub validate_batch_record : BatchRecord → Result Error (Unit {0})
unfolding check_ids
validate_batch_record r =
    if r.batch_id == ""
    then err batch_id_required
    else if is_empty r.jobs
    then err batch_jobs_required
    else check_ids batch_job_id_required duplicate_job [] (job_ids r.jobs)
