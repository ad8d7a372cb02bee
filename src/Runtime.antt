-- ===== src/Runtime.antt =====
-- runtime/llmlet-runtime.js: the browser glue, one child for each of its parts.
pub mod Deferred
pub mod Arguments
pub mod Peer
pub mod Requester
pub mod Model
pub mod Source
pub mod ChunkCache
pub mod Setup
pub mod Output
pub mod Requirements
