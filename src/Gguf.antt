-- ===== src/Gguf.antt =====
-- The GGUF header reader: scripts/lib/gguf-header.mjs, and the byte sources of
-- scripts/probe-gguf-header.mjs.
pub mod Program
pub mod Header
pub mod Sources
pub mod Summary
pub mod Probe
