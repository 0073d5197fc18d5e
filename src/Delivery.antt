-- ===== src/Delivery.antt =====
-- busruntime/runtime.go and delivery_settlement.go: what a worker tells a handler of a delivery, and
-- what it does with the answer.
pub mod Failure
pub mod Attempt
pub mod Context
pub mod Permits
pub mod Settlement
mod Tests
