-- ===== src/Impact.antt =====
-- internal/impact/impact.go: what an incoming comparison touches of a documented baseline.
pub mod Records
pub mod Owners
pub mod Targets
pub mod Analyze
mod Marks
pub mod Accounts
pub mod Kinds
pub mod Summarised
pub mod Accumulated
pub mod Updates
pub mod Mentions
pub mod Sourced
pub mod Origins
