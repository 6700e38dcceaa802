-- ===== src/SagaRef.antt =====
-- internal/sagaref: portable references to targets in another Saga.
pub mod Target
