-- ===== src/Executor.antt =====
-- The DAG executor (packages/runtime/src/dag-executor.ts).
pub mod Outcome
pub mod Order
pub mod Validate
pub mod Derive
pub mod Effects
pub mod Prompt
pub mod Reply
pub mod Fingerprint
pub mod Emit
pub mod Nodes
pub mod Progress
pub mod Attempts
pub mod Run
pub mod Respects
pub mod Ensures
pub mod Returns
pub mod Appended
pub mod Traversal
pub mod Log
pub mod Dependencies
pub mod Tests
