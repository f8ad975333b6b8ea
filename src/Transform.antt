-- ===== src/Transform.antt =====
-- src/transform: what the gateway does to text and stop reasons between upstream and client.
pub mod Truncation
pub mod Converter
