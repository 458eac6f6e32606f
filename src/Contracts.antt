-- ===== src/Contracts.antt =====
-- The shared contracts (packages/contracts/src): data of DAGs and of run events.
pub mod EventTypes
pub mod Json
pub mod Numbers
pub mod Dag
pub mod Events
