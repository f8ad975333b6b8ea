-- ===== src/Http/Responses.antt =====
-- src/http/responses: the OpenAI Responses protocol.
pub mod State
pub mod Items
pub mod Emitted
pub mod Live
pub mod Close
pub mod Stream
pub mod Finished
pub mod FinishedEvents
pub mod Replay
pub mod Announced
pub mod WellFormed
pub mod Announcing
pub mod Ordered
pub mod Sequence
pub mod Replayed
