-- ===== src/Upstream.antt =====
-- src/upstream: from the bytes of the upstream response to the generation result.
pub mod EventStream
pub mod ToolState
pub mod Json
pub mod Transport
pub mod Request
pub mod Integrity
pub mod Accumulator
