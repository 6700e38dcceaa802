-- ===== src/Coverage.antt =====
-- internal/coverage/coverage.go: which atoms of a comparison the document's evidence covers.
pub mod Index
pub mod Visit
pub mod Report
