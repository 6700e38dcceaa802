-- ===== src/Tests.antt =====
-- Runs of the definitions at fixed inputs, and the theorems at inputs that meet their hypotheses.
mod LivingId
mod SagaRef
mod DiffUri
mod Repositories
mod LocalFiles
mod GitDiff
mod Coverage
mod ChangeSets
mod WorkPlan
mod Mutations
mod Dependencies
mod Readiness
mod Impact
mod Load
