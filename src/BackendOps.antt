-- ===== src/BackendOps.antt =====
-- The verdict on test-backend-ops: harness/backend-ops/summary.mjs.
pub mod Patterns
pub mod Summary
