-- ===== src/Http.antt =====
-- src/http: the streams that the gateway answers with.
pub mod Responses
