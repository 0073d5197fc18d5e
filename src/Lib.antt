-- ===== src/Lib.antt =====
-- goforj/queue: a Go library that dispatches jobs to workers over in-memory, SQL and broker drivers, and
-- runs workflows (chains and batches of jobs) on top of them.
--
-- A job (job.go) is built, validated and handed to a driver. The local driver (queue_local.go) runs its
-- handler in a loop that busruntime/runtime.go decides: success, retry, failure, or redelivery where
-- the outcome is not committed. The context of an attempt carries what busruntime keeps for it: the
-- attempt, its metadata, the settlement on which facts are deferred until the delivery is settled, and
-- the permits that let a handler dispatch while the queue drains. A workflow store
-- (internal/workflow/store.go and store_memory.go) records which node of a chain and which member of a
-- batch each delivery has committed, so that a duplicate delivery claims nothing twice.
--
-- Which file models which part:
--   Prelude           names of the libraries, Boolean tests, results, maps, signed integers
--   Workflow/Types, Validate, Chain, Receipt
--                     internal/workflow/store.go: records and their validation
--                     (validateChainRecord, validateBatchRecord), the dispositions of a delivery within
--                     a chain (chainNodeSuccessDisposition, chainNodeAdvanceDisposition,
--                     chainNodeFailureDisposition), claims and receipts
--   Workflow/Memory   internal/workflow/store_memory.go: Store the state, Chains, Batches and Retention
--                     its methods; Calls the histories of calls. Invariant and its children, Errors,
--                     Progress and Once hold the proofs
--   Delivery          busruntime/runtime.go and delivery_settlement.go: Failure the errors, Attempt
--                     ClassifyAttempt, Context the values of a context, Permits ContinuationScope and
--                     PreserveDeliveryContext, Settlement DeliverySettlement
--   Job               job.go: builders, validation, metadata for drivers
--   Local             queue_local.go: Retry is runWithRetry; Queue the registration, the pauses, and the
--                     reservations of reserveWorkerQueue and reserveSyncWork with the drain that
--                     waits for them
--   Acceptance        dispatch_acceptance.go: dispatchAcceptance, shown to take the steps of a
--                     DeliverySettlement
--   History           history_timeline.go: the points of a queue and the windows on them
--   Engine            internal/workflow/runtime.go, chain.go, batch.go, events.go, middleware.go and
--                     protocol.go, over the built-in store: Types the records, World the state
--                     and the actions on it, Runtime the code outside and the shared functions, Execute
--                     executeStoredJobAttempt and its facts, Evidence the checks of a receipt, Closures
--                     chainCallbacks and batchCallbacks, Chain and ChainRecovery
--                     handleInternalChainNode, Batch and BatchRecovery handleInternalBatchJob, Callback
--                     handleCallbackEnvelope, Dispatch and Builders the dispatches, Protocol
--                     ResolveDelivery. Outside, Invariant and its children, Once, Refusals,
--                     Transition, Accepts and SameJob hold the proofs
--   Tests in each     concrete runs
--
-- How the state is modelled. A method of a type with a mutex is one step from state to state; the
-- settlement's Commit, which runs functions after its unlock, is several. A Go map is the function from
-- keys to entries that are present; the members of a batch are a list of entries. A method that returns
-- an error returns a Result beside the state, with one constructor of Error for each error value or
-- text. A read of the clock is an argument: a method of the memory store that reads it twice has `now`
-- and `later`. Times and durations are exact: a wait, a retention or a window is compared without the
-- overflow of a 64-bit number. Counters are natural numbers, and integers that the code can take below
-- zero are ℤ. An index that Go would fault on is the error index_out_of_range. Copies of slices and
-- nodes are the identity on values. What Go keeps in an error tree is the type Failure.
--
-- An engine function is an action on a World: the store, the closures, the settlement of the delivery at
-- hand, and what the observer was told. The record Runtime holds what is outside: the clock and the random
-- source by the number of readings, hashes and JSON, the queue, handlers, middleware and closures by name,
-- and `others`, which is what other goroutines do before each call of the store. A dispatch that the
-- queue runs inline is an effect of the queue's action; `chain_result` is the recorder that the context
-- of such a dispatch carries.
--
-- The retry loop runs on fuel, since a handler whose outcome is never committed is redelivered without
-- end. Where the outcome is committed from invocation k on, k plus the retry budget plus one is enough.
--
-- Not modelled: the SQL store, the engine's fallbacks for stores without receipts, dispatch and worker
-- goroutines of the local queue, the statistics collector, and the drivers, which are statements and
-- calls for servers; cancellation and deadlines of contexts, which are parameters where the code reads
-- them; JSON, whose results are given.
mod Prelude
pub mod Workflow
pub mod Delivery
pub mod Job
pub mod Local
pub mod History
pub mod Acceptance
pub mod Engine
