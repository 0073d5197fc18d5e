-- ===== src/Engine.antt =====
-- internal/workflow: the engine that runs deliveries over a workflow store. Every function of it that
-- has effects is an action on the world of World.
pub mod Types
pub mod World
pub mod Runtime
pub mod Outside
pub mod Execute
pub mod Evidence
pub mod Closures
pub mod ChainRecovery
pub mod Chain
pub mod BatchRecovery
pub mod Batch
pub mod Callback
pub mod Dispatch
pub mod Builders
pub mod Protocol
pub mod Invariant
pub mod Refusals
pub mod Accepts
pub mod SameJob
pub mod Transition
pub mod Once
mod Tests
