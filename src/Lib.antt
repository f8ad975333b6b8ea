-- ===== src/Lib.antt =====
-- A model of kiro-gateway, a gateway that offers the Anthropic Messages, OpenAI Chat Completions and
-- OpenAI Responses protocols in front of one upstream service, and theorems about it.
--
-- How the parts work together. A request to the upstream service is made at most twice. It is
-- answered with a stream of binary frames or with a JSON body. The event stream decoder cuts the
-- frames into messages, from which generation events are read; of a JSON body a bounded search
-- finds them. A live response turns the events, as they come, into the numbered events of the
-- Responses protocol. The accumulator folds the events into a generation result: it passes text through the leak filter,
-- assembles tool calls and keeps the last usage and stop reason. The converters turn the result
-- into the response of each protocol, and the error type into its error envelope. The response
-- store keeps Responses objects and their events in a database that one actor owns. The token
-- manager keeps the upstream credential fresh, the model catalog caches what models there are,
-- administrators have sessions, and the configuration sets all of them up.
--
-- Files and sources:
--   Common: shared names, and what the code uses of the standard library and of serde_json: texts
--     (lists of scalar values), JSON values, maps, results, UTF-8
--   Error: src/error.rs
--   Generation: src/generation/domain.rs; its stop reasons are in Generation/StopReasons
--   Transform/Truncation: XmlLeakFilter of src/transform/truncation.rs
--   Transform/Converter: src/transform/converter.rs
--   Upstream/EventStream: EventStreamDecoder and parse_headers of src/upstream/event_stream.rs, the
--     format of headers in Upstream/EventStream/Headers, and src/upstream/error.rs
--   Upstream/ToolState: ToolCallAccumulator of src/upstream/tool_state.rs
--   Upstream/Integrity, Upstream/Accumulator: src/upstream/integrity.rs, src/upstream/accumulator.rs
--   Upstream/EventStream/Events: decode_generation_events of src/upstream/event_stream.rs
--   Upstream/Json, with Nodes, ToolCalls and Shape: src/upstream/json.rs
--   Upstream/Transport, Upstream/Request: src/upstream/transport.rs, src/upstream/request.rs
--   Http/Responses/State: src/http/responses/state.rs
--   Http/Responses/Items: the items and payloads of src/http/responses/live.rs and payload.rs
--   Http/Responses/Emitted, Live, Close, Stream: responses_live_stream of
--     src/http/responses/live.rs, by its events, the handling of one generation event, the loop and
--     what closes the items, and the numbering and storing; attach_sequence of
--     src/http/responses/events.rs
--   Http/Responses/Finished, Replay: responses_payload_with_tools of src/http/responses/payload.rs
--     and responses_stream_events of src/http/responses/events.rs
--   Admin/Session: src/admin/session.rs
--   ModelCatalog: src/model_catalog.rs
--   ResponseStore/Model, Sqlite, Service: the files of these names in src/response_store
--   Auth: src/auth/model.rs
--   TokenManager: src/credential/token_manager.rs
--   Config, Config/Wire, Config/Validate: src/config.rs
--   Redaction: redact_json of src/common/redaction.rs
--   Tests: runs on concrete inputs
--
-- How state is modelled. A struct is a record, and a method with `&mut self` is a function that
-- gives the new state beside its result. A transaction is a function on the four tables; on an
-- error the tables stay as they were. The actor handles one command after another, so a run is a
-- list of commands. The functions of the model have the names of the source; a helper of the model
-- stands for a part of a function and is named for it.
--
-- Parameters. The checksum of frames, the JSON library, the scheme of a URL, the message of a
-- violated constraint, the making private of the files beside the database, the exchange of tokens
-- with the server, the file that keeps the credential, the outcome of sending a request, the UUIDs,
-- what the response store answers to a live response, and the clock and the tokens of sessions are
-- arguments of the definitions, as are the answers to model requests and their decoder. The theorems
-- that rely on the JSON library say which values it must read back as it printed them.
--
-- Bounds and fuel. The loops of the decoder and of the leak filter run on fuel that is the length of
-- the input and one more, that of the headers on the number of their bytes: each round but the last
-- takes at least one byte or one character away, so the fuel does not run out. Sequence numbers are `i64` and saturate at
-- 2^63 - 1, in a live response at 2^64 - 1. The search of a JSON value goes to depth 8 and to 512
-- nodes, and ends because it follows the value. Times are counted from 1970 and end with the last
-- date of the chrono library, those of sessions in nanoseconds.
--
-- Simplifications. The refresh margin is not negative, which the validation of the configuration
-- ensures. What other callers do to the token manager during a refresh is left out. A live response
-- first gathers the events of a step and then stores and sends them; its state is not looked at in
-- between. The n-th item of a live response bears the n-th UUID.
-- The next sequence number of a stored response is not bounded; from 2^63 - 1 on the sum in the
-- database leaves the integers and the reading of it fails. Where a key of a JSON value is set, the
-- value is an object that the code has made itself; a value that is none stays as it is, where the
-- source panics.
--
-- Not modelled: the HTTP server and its handlers, the parsing of requests, the construction of
-- upstream requests and the sending of them, the snapshot that a disconnected live response leaves
-- and the record that a failure of the store writes, model requests that run at once, the check of
-- administration requests, the sources of credentials and of settings, and the schema of the
-- database. They are input and output for the most part; the others are left for later.
pub mod Common
pub mod Error
pub mod Generation
pub mod Transform
pub mod Admin
pub mod ModelCatalog
pub mod Http
pub mod Upstream
pub mod ResponseStore
pub mod Auth
pub mod TokenManager
pub mod Redaction
pub mod Config
pub mod Tests
