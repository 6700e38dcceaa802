-- ===== src/WorkPlan.antt =====
-- internal/workplan: the plan of a living Saga.
pub mod Records
pub mod Graph
pub mod Nodes
pub mod Checks
pub mod Revisions
pub mod Readiness
pub mod Items
pub mod Contracts
pub mod Conditions
pub mod Plans
pub mod Load
pub mod Mutations
pub mod Dag
pub mod Dependencies
pub mod Urns
