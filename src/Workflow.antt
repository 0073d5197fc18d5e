-- ===== src/Workflow.antt =====
-- Durable workflow state: internal/workflow.
pub mod Types
pub mod Validate
pub mod Chain
pub mod Receipt
pub mod Memory
mod Tests
