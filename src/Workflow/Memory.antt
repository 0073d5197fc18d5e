-- ===== src/Workflow/Memory.antt =====
-- `memoryStore` of internal/workflow/store_memory.go: its state, its receipts and its callbacks.
-- Every method holds the mutex from its first read to its return, so that a method is one step from
-- a store to a store; `now` is what `time.Now()` returns in it.
pub mod Chains
pub mod Batches
pub mod Retention
pub mod Invariant
pub mod Calls
pub mod Callbacks
pub mod Errors
pub mod Progress
pub mod Once
pub mod Store
