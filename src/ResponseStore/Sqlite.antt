-- ===== src/ResponseStore/Sqlite.antt =====
-- src/response_store/sqlite.rs, the transactions. A transaction works on a copy of the database,
-- which replaces it on commit and is dropped on an error.
pub mod Sequence
pub mod Numbered
pub mod Atomic
pub mod Terminal
pub mod Listing
pub mod RoundTrip
pub mod Delete
use kiro_gateway.Common.{
  ℕ, suc, ◌+◌, ◌-◌, ◌^◌, Bool, true, false, not, List, [], ◌∷◌, ◌++◌, Option, none, some, is_some,
  if◌then◌else◌, leb, ◌==◌, ◌&&◌, ◌||◌,
}
use Prim.Native.Nat.{max, min}
use kiro_gateway.Common.Text.{Text, codes, text_eq}
use kiro_gateway.Common.Json.{Value, str, obj, num, pos_int, JsonCodec}
use kiro_gateway.Common.Json
use kiro_gateway.Common.Result.{Result, ok, err, ◌>>=◌, ◌>>◌}
use kiro_gateway.Common.Dict.{Dict, lookup, insert, remove, contains_key}
use kiro_gateway.Error.{AppError, storage}
use kiro_gateway.ResponseStore.Model.{
  ResponseStatus, in_progress, DateTime, Times, ResponseRecord, ResponseEvent, ResponseRow,
  EventRow, Database, seconds, timestamp, encode_status, decode_status, decode_json, split_payload,
  join_payload,
}

-- What the store takes from outside: the JSON library, the message of a violated constraint, and
-- the outcome of making the files beside the database private, which is tried after each commit.
pub record Env : Type 0 where
  pub codec : JsonCodec
  pub constraint_message : Text
  pub harden : Result (Unit {0}) AppError

module _ (env : Env) where
  abbrev violated : AppError
  violated = storage (env.constraint_message)

  unfoldable pub insert_record : ResponseRecord → Database → Result Database AppError
  insert_record r db =
      if contains_key r.id db.responses
      then err violated
      else ok (record db {
        responses =
            insert r.id
              (record {
                object = r.object;
                status = encode_status env.codec r.status;
                model = r.model;
                created_at = seconds r.created_at;
                updated_at = seconds r.updated_at;
              })
              db.responses;
      })

  abbrev updated_row : ResponseRecord → ResponseRow → ResponseRow
  updated_row r row = record row {
    object = r.object;
    status = encode_status env.codec r.status;
    model = r.model;
    updated_at = seconds r.updated_at;
  }

  unfoldable pub update_record : ResponseRecord → Database → Result Database AppError
  update_record r db = elim (lookup r.id db.responses) [
    | none ↦ err (storage (codes "response " ++ r.id ++ codes " does not exist"))
    | some row ↦ ok (record db { responses = insert r.id (updated_row r row) db.responses })
  ]

  abbrev pub write_snapshot : Text → Option Value → Database → Database
  write_snapshot id none db = record db { snapshots = remove id db.snapshots }
  write_snapshot id (some v) db = record db {
    snapshots = insert id (env.codec.to_string v) db.snapshots;
  }

  -- The foreign keys refuse a payload of a response that is not there.
  unfoldable pub write_payload_parts : Text → Value → Database → Result Database AppError
  write_payload_parts id payload db =
      let parts = split_payload payload in
      if contains_key id db.responses
      then ok (
          write_snapshot id parts.1
            (record db { requests = insert id (env.codec.to_string parts.0) db.requests }))
      else err violated

  -- `COALESCE(MAX(sequence_number) + 1, 0)` over the events of a response.
  unfoldable pub next_sequence : Text → List EventRow → ℕ
  next_sequence id [] = 0
  next_sequence id (row ∷ rows) =
      let rest = next_sequence id rows in
      if text_eq row.response_id id then max (row.sequence_number + 1) rest else rest

  -- What `append_events` adds to a payload that is an object.
  unfoldable pub stamped : Text → ℕ → Value → Value
  stamped event_type sequence (obj fs) = obj (
      Json.insert (codes "sequence_number") (num (pos_int sequence))
        (Json.insert (codes "type") (str event_type) fs))
  stamped event_type sequence v = v

  abbrev event_row : Text → ℕ → DateTime → Text × Value → EventRow
  event_row id sequence now e = record {
    response_id = id;
    sequence_number = sequence;
    event_type = e.0;
    payload = env.codec.to_string (stamped e.0 sequence e.1);
    created_at = seconds now;
  }

  abbrev stored_event : Text → ℕ → DateTime → Text × Value → ResponseEvent
  stored_event id sequence now e = record {
    response_id = id;
    sequence_number = sequence;
    event_type = e.0;
    payload = stamped e.0 sequence e.1;
    created_at = now;
  }

  -- `sequence.saturating_add(1)` on an `i64`.
  abbrev pub after_sequence : ℕ → ℕ
  after_sequence s = min (s + 1) (2 ^ 63 - 1)

  -- Whether the pair of a response and a sequence number is in the table.
  unfoldable pub sequence_used : Text → ℕ → List EventRow → Bool
  sequence_used id n [] = false
  sequence_used id n (row ∷ rows) =
      (text_eq row.response_id id && (row.sequence_number == n)) || sequence_used id n rows

  -- The loop of `append_events`: the rows to add and the events to report. A sequence number that
  -- is in use violates the uniqueness constraint.
  unfoldable pub append_loop :
      Text
      → Times
      → ℕ
      → List (Text × Value)
      → List EventRow
      → Result (List EventRow × List ResponseEvent) AppError
  append_loop id now sequence [] rows = ok (rows, [])
  append_loop id now sequence (e ∷ es) rows =
      let rest =
        append_loop id now (after_sequence sequence) es
          (rows ++ event_row id sequence (now.written sequence) e ∷ []) in
      if sequence_used id sequence rows
      then err violated
      else (do r ← rest; ok (r.0, stored_event id sequence (now.written sequence) e ∷ r.1))

  unfoldable pub append_events :
      Text
      → Times
      → List (Text × Value)
      → Database
      → Result (Database × List ResponseEvent) AppError
  append_events id now [] db = ok (db, [])
  append_events id now (e ∷ es) db =
      if contains_key id db.responses
      then (do
        r ← append_loop id now (next_sequence id db.events) (e ∷ es) db.events
        ok (record db { events = r.0 }, r.1))
      else err violated

  -- A transaction: on an error the database stays; after the commit the files are made private,
  -- and a failure of that is reported although the change is kept.
  abbrev pub transact {ℓ} :
      {A : Type ℓ} → Database → Result (Database × A) AppError → Database × Result A AppError
  transact db (err e) = (db, err e)
  transact db (ok (db', a)) = (db', (env.harden >> ok a))

  unfoldable pub create : ResponseRecord → Database → Database × Result (Unit {0}) AppError
  create r db =
      transact db
        (do db1 ← insert_record r db; db2 ← write_payload_parts r.id r.payload db1; ok (db2, tt))

  -- `now` is what the clock says.
  unfoldable pub transition :
      Times
      → ResponseRecord
      → List (Text × Value)
      → Database
      → Database × Result (List ResponseEvent) AppError
  transition now r events db = transact db (do
    db1 ← update_record r db
    db2 ← write_payload_parts r.id r.payload db1
    append_events r.id now events db2)

  abbrev pub is_in_progress : ResponseStatus → Bool
  is_in_progress in_progress = true
  is_in_progress _ = false

  unfoldable pub transition_in_progress :
      Times
      → Text
      → ResponseStatus
      → Value
      → List (Text × Value)
      → ResponseRow
      → Database
      → Result (Database × Bool) AppError
  transition_in_progress now id status payload events row db = do
    db1 ← write_payload_parts id payload (record db {
      responses =
          insert id
            (record row { status = encode_status env.codec status; updated_at = seconds now.now })
            db.responses;
    })
    r ← append_events id now events db1
    ok (r.0, true)

  unfoldable pub transition_if_in_progress :
      Times
      → Text
      → ResponseStatus
      → Value
      → List (Text × Value)
      → Database
      → Database × Result Bool AppError
  transition_if_in_progress now id status payload events db = elim (lookup id db.responses) [
    | none ↦ (db, ok false)
    | some row ↦ elim (decode_status env.codec row.status) [
      | err e ↦ (db, err e)
      | ok current ↦
          if is_in_progress current
          then transact db (transition_in_progress now id status payload events row db)
          else (db, ok false)
    ]
  ]

  abbrev pub snapshot_value : Option Text → Result (Option Value) AppError
  snapshot_value none = ok none
  snapshot_value (some t) = do v ← decode_json env.codec t (codes "response snapshot"); ok (some v)

  -- The join of `get`, on the rows that it finds.
  unfoldable pub read_record :
      Text → ResponseRow → Text → Option Text → Result (Option ResponseRecord) AppError
  read_record id row request snapshot = do
    q ← decode_json env.codec request (codes "response request")
    s ← snapshot_value snapshot
    status ← decode_status env.codec row.status
    created ← timestamp row.created_at
    updated ← timestamp row.updated_at
    ok (
        some (record {
          id = id;
          object = row.object;
          status = status;
          model = row.model;
          payload = join_payload q s;
          created_at = created;
          updated_at = updated;
        }))

  unfoldable pub get : Text → Database → Result (Option ResponseRecord) AppError
  get id db = elim (lookup id db.responses) [
    | none ↦ ok none
    | some row ↦ elim (lookup id db.requests) [
      | none ↦ ok none
      | some request ↦ read_record id row request (lookup id db.snapshots)
    ]
  ]

  unfoldable pub without_events : Text → List EventRow → List EventRow
  without_events id [] = []
  without_events id (row ∷ rows) =
      if text_eq row.response_id id then without_events id rows else row ∷ without_events id rows

  -- The foreign keys cascade: what refers to the response goes with it.
  unfoldable pub delete : Text → Database → Database × Result Bool AppError
  delete id db =
      if contains_key id db.responses
      then (
        record {
          responses = remove id db.responses;
          requests = remove id db.requests;
          snapshots = remove id db.snapshots;
          events = without_events id db.events;
        },
        env.harden >> ok true,
      )
      else (db, ok false)

  abbrev last_event : List ResponseEvent → Result ResponseEvent AppError
  last_event [] = err (storage (codes "response event was not stored"))
  last_event (e ∷ []) = ok e
  last_event (e ∷ es) = last_event es

  unfoldable pub add_event :
      Times → Text → Text → Value → Database → Database × Result ResponseEvent AppError
  add_event now id event_type payload db =
      let r = transact db (append_events id now ((event_type, payload) ∷ []) db) in
      (r.0, (r.1 >>= last_event))

  unfoldable pub event_of_row : EventRow → Result ResponseEvent AppError
  event_of_row row = do
    v ← decode_json env.codec row.payload (codes "response event")
    created ← timestamp row.created_at
    ok (record {
      response_id = row.response_id;
      sequence_number = row.sequence_number;
      event_type = row.event_type;
      payload = v;
      created_at = created;
    })

  unfoldable pub rows_of : Text → List EventRow → List EventRow
  rows_of id [] = []
  rows_of id (row ∷ rows) =
      if text_eq row.response_id id then row ∷ rows_of id rows else rows_of id rows

  -- `ORDER BY sequence_number ASC`
  unfoldable pub place : EventRow → List EventRow → List EventRow
  place row [] = row ∷ []
  place row (r ∷ rows) =
      if leb row.sequence_number r.sequence_number then row ∷ r ∷ rows else r ∷ place row rows

  unfoldable pub in_order : List EventRow → List EventRow
  in_order [] = []
  in_order (row ∷ rows) = place row (in_order rows)

  unfoldable pub events_of_rows : List EventRow → Result (List ResponseEvent) AppError
  events_of_rows [] = ok []
  events_of_rows (row ∷ rows) = do e ← event_of_row row; es ← events_of_rows rows; ok (e ∷ es)

  unfoldable pub events : Text → Database → Result (List ResponseEvent) AppError
  events id db = events_of_rows (in_order (rows_of id db.events))
