-- ===== src/ResponseStore.antt =====
-- src/response_store: the store of Responses objects. The database is its four tables (see
-- migrations/002_response_store_v2.sql), and a method gives the new database first.
pub mod Model
pub mod Sqlite
pub mod Service
