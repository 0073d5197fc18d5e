-- ===== src/Workflow/Types.antt =====
-- Records of internal/workflow/store.go, types.go and runtime.go: what a workflow store keeps.
-- Times are counts of nanoseconds, and a payload is the list of its bytes.
use queue.Prelude.{ℕ, Bool, String, List}
use queue.Prelude.Int.{ℤ}

pub record JobOptions : Type 0 where
  pub queue_name : String
  pub delay : ℤ
  pub timeout : ℤ
  pub retry : ℤ
  pub backoff : ℤ
  pub unique_for : ℤ

pub record StoredJob : Type 0 where
  pub type : String
  pub payload : List ℕ
  pub options : JobOptions

pub record ChainNode : Type 0 where
  pub node_id : String
  pub job : StoredJob

pub record ChainRecord : Type 0 where
  pub chain_id : String
  pub dispatch_id : String
  pub queue_name : String
  pub nodes : List ChainNode
  pub created_at : ℕ

pub record ChainState : Type 0 where
  pub chain_id : String
  pub dispatch_id : String
  pub queue_name : String
  pub nodes : List ChainNode
  pub next_index : ℤ
  pub completed : Bool
  pub failed : Bool
  pub failure : String
  pub created_at : ℕ
  pub updated_at : ℕ

pub record BatchJob : Type 0 where
  pub job_id : String
  pub job : StoredJob

pub record BatchRecord : Type 0 where
  pub batch_id : String
  pub dispatch_id : String
  pub name : String
  pub queue_name : String
  pub allow_failed : Bool
  pub jobs : List BatchJob
  pub created_at : ℕ

-- `BatchJobOutcome` is a string type with two declared values; any other text is `other`.
pub data BatchJobOutcome : Type 0 where
  succeeded : BatchJobOutcome
  failed : BatchJobOutcome
  other : String → BatchJobOutcome

pub record BatchState : Type 0 where
  pub batch_id : String
  pub dispatch_id : String
  pub name : String
  pub queue_name : String
  pub allow_failed : Bool
  pub total : ℕ
  pub pending : ℤ
  pub processed : ℕ
  pub failed : ℕ
  pub cancelled : Bool
  pub completed : Bool
  pub created_at : ℕ
  pub updated_at : ℕ

-- One constructor for each error value or message that the package builds, and one for the run-time
-- fault of an index out of range.
pub data Error : Type 0 where
  not_found : Error
  chain_id_required : Error
  chain_nodes_required : Error
  chain_node_id_required : Error
  duplicate_node : String → Error
  batch_id_required : Error
  batch_jobs_required : Error
  batch_job_id_required : Error
  duplicate_job : String → Error
  invalid_next_index : String → ℤ → Error
  completion_mismatch : String → ℤ → Error
  node_missing : String → String → Error
  node_before : String → String → String → Error
  node_after_failure : String → String → String → Error
  chain_dispatch_mismatch : String → Error
  batch_dispatch_mismatch : String → Error
  unsupported_outcome : BatchJobOutcome → Error
  chain_receipt_mismatch : String → Error
  batch_receipt_mismatch : String → Error
  unsupported_receipt : ℕ → ℕ → Error
  index_out_of_range : Error
