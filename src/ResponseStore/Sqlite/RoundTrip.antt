-- ===== src/ResponseStore/Sqlite/RoundTrip.antt =====
-- What src/response_store/sqlite.rs reads back of a response that it has created.
use kiro_gateway.Common.{
  ◌*◌, ◌≤◌, ◌≡◌, refl, ap, ◌∙◌, false, Option, none, some, Option-cases, inl, inr, arith,
}
use kiro_gateway.Common.Text.{Text, codes, text_eq_iff, text_eq_refl}
use kiro_gateway.Common.Json.{Value, null, bool, num, str, arr, obj, get}
use kiro_gateway.Common.Json
use kiro_gateway.Common.Result.{ok}
use kiro_gateway.Common.Dict.{lookup, insert, contains_key, lookup-insert, lookup-remove}
use kiro_gateway.ResponseStore.Model.{
  DateTime, seconds, timestamp, decode_json, Database, ResponseRow, ResponseStatus, ResponseRecord,
  encode_status, decode_status, status_name, split_payload, join_payload,
}
use kiro_gateway.ResponseStore.Sqlite.{
  Env, insert_record, write_payload_parts, write_snapshot, snapshot_value, create, read_record,
  delete, events, without_events, rows_of, events_of_rows, in_order,
}
use kiro_gateway.ResponseStore.Sqlite
use kiro_gateway.ResponseStore.Sqlite.Terminal.{status_of_name-status_name}

absent :
    (q k : Text) (fs : Json.Fields)
    → Json.lookup q fs ≡ none
    → Json.lookup k (Json.remove q fs) ≡ Json.lookup k fs
absent q k fs e = ground (arith, Json.lookup-remove q k fs, text_eq_iff q k)

present :
    (q k : Text) (v : Value) (fs : Json.Fields)
    → Json.lookup q fs ≡ some v
    → Json.lookup k (Json.insert q v (Json.remove q fs)) ≡ Json.lookup k fs
present q k v fs e =
    ground (
      arith,
      Json.lookup-insert q k v (Json.remove q fs),
      Json.lookup-remove q k fs,
      text_eq_iff q k,
    )

-- Splitting off the snapshot and joining it again keeps what each key holds.
get-join_payload :
    (k : Text) (payload : Value)
    → get k (join_payload ((split_payload payload).0) ((split_payload payload).1)) ≡ get k payload
unfolding get split_payload join_payload
get-join_payload k null = refl
get-join_payload k (bool b) = refl
get-join_payload k (num n) = refl
get-join_payload k (str t) = refl
get-join_payload k (arr vs) = refl
get-join_payload k (obj fs) = elim (Option-cases (Json.lookup (codes "response") fs)) [
  | inl e ↦ rw e (absent (codes "response") k fs e)
  | inr (v, e) ↦ rw e (present (codes "response") k v fs e)
]

module _ (env : Env) where
  -- The row of a record, and the record with its times in whole seconds and its payload joined.
  abbrev pub row_of : ResponseRecord → ResponseRow
  row_of r = record {
    object = r.object;
    status = encode_status env.codec r.status;
    model = r.model;
    created_at = seconds r.created_at;
    updated_at = seconds r.updated_at;
  }

  abbrev pub as_read : ResponseRecord → ResponseRecord
  as_read r = record r {
    payload = join_payload ((split_payload r.payload).0) ((split_payload r.payload).1);
    created_at = seconds r.created_at * 1_000_000_000;
    updated_at = seconds r.updated_at * 1_000_000_000;
  }

  printed_snapshot : Option Value → Option Text
  printed_snapshot none = none
  printed_snapshot (some v) = some (env.codec.to_string v)

  write_snapshot-snapshots :
      (id : Text) (v : Option Value) (db : Database)
      → lookup id ((write_snapshot env id v db).snapshots) ≡ printed_snapshot v
  unfolding printed_snapshot
  write_snapshot-snapshots id none db = lookup-remove id id db.snapshots ∙ rw (text_eq_refl id) refl
  write_snapshot-snapshots id (some v) db =
      lookup-insert id id (env.codec.to_string v) db.snapshots ∙ rw (text_eq_refl id) refl

  write_snapshot-rest :
      (id : Text) (v : Option Value) (db : Database)
      → ((write_snapshot env id v db).responses ≡ db.responses)
        × ((write_snapshot env id v db).requests ≡ db.requests)
  write_snapshot-rest id none db = (refl, refl)
  write_snapshot-rest id (some v) db = (refl, refl)

  pub get-rows :
      (id : Text) (row : ResponseRow) (request : Text) (db : Database)
      → lookup id db.responses ≡ some row
      → lookup id db.requests ≡ some request
      → Sqlite.get env id db ≡ read_record env id row request (lookup id db.snapshots)
  unfolding Sqlite.get
  get-rows id row request db e e' = rw (e, e', Sqlite.get) refl

  -- The JSON library reads back a value that it has printed, and a snapshot, if there is one.
  abbrev pub ReadBack : Value → Type 0
  ReadBack v = env.codec.from_str (env.codec.to_string v) ≡ ok v

  abbrev pub SnapshotReadBack : Option Value → Type 0
  SnapshotReadBack none = Unit
  SnapshotReadBack (some v) = ReadBack v

  snapshot_value-printed :
      (v : Option Value) → SnapshotReadBack v → snapshot_value env (printed_snapshot v) ≡ ok v
  unfolding printed_snapshot decode_json
  snapshot_value-printed none printed = refl
  snapshot_value-printed (some v) printed = rw printed refl

  timestamp-seconds :
      (t : DateTime)
      → seconds t ≤ 8_210_266_876_799
      → timestamp (seconds t) ≡ ok (seconds t * 1_000_000_000)
  unfolding timestamp
  timestamp-seconds t h = ground arith

  decode_status-encode_status :
      (s : ResponseStatus)
      → ReadBack (str (status_name s))
      → decode_status env.codec (encode_status env.codec s) ≡ ok s
  unfolding decode_status encode_status
  decode_status-encode_status s printed = rw (printed, decode_status) (status_of_name-status_name s)

  read_record-row_of :
      (r : ResponseRecord)
      → ReadBack ((split_payload r.payload).0)
      → SnapshotReadBack ((split_payload r.payload).1)
      → ReadBack (str (status_name r.status))
      → seconds r.created_at ≤ 8_210_266_876_799
      → seconds r.updated_at ≤ 8_210_266_876_799
      → read_record env r.id
          (row_of r)
          (env.codec.to_string ((split_payload r.payload).0))
          (printed_snapshot ((split_payload r.payload).1))
        ≡ ok (some (as_read r))
  unfolding read_record decode_json
  read_record-row_of r request_read snapshot_read status_read c u =
      rw
        (
          request_read,
          snapshot_value-printed ((split_payload r.payload).1) snapshot_read,
          decode_status-encode_status r.status status_read,
          timestamp-seconds r.created_at c,
          timestamp-seconds r.updated_at u,
        )
        refl

  -- Where the JSON library reads back what is stored of a record, the files beside the database can be made
  -- private and the times are before the year 262143: a record with a new id is created, and it is
  -- then read back with its times in whole seconds and, under every key, what its payload holds.
  pub get-create :
      (r : ResponseRecord) (db : Database)
      → ReadBack ((split_payload r.payload).0)
      → SnapshotReadBack ((split_payload r.payload).1)
      → ReadBack (str (status_name r.status))
      → env.harden ≡ ok tt
      → seconds r.created_at ≤ 8_210_266_876_799
      → seconds r.updated_at ≤ 8_210_266_876_799
      → contains_key r.id db.responses ≡ false
      → ((create env r db).1 ≡ ok tt)
        × ((Sqlite.get env r.id ((create env r db).0) ≡ ok (some (as_read r)))
            × ((k : Text) → get k ((as_read r).payload) ≡ get k r.payload))
  unfolding create insert_record write_payload_parts
  get-create r db request_read snapshot_read status_read hardened c u fresh =
      let request = env.codec.to_string ((split_payload r.payload).0) in
      let db1 : Database = record db { responses = insert r.id (row_of r) db.responses } in
      let db2 : Database = record db1 { requests = insert r.id request db.requests } in
      let db3 = write_snapshot env r.id ((split_payload r.payload).1) db2 in
      let in_responses : lookup r.id (insert r.id (row_of r) db.responses) ≡ some (row_of r) =
        lookup-insert r.id r.id (row_of r) db.responses ∙ rw (text_eq_refl r.id) refl in
      let in_requests : lookup r.id (insert r.id request db.requests) ≡ some request =
        lookup-insert r.id r.id request db.requests ∙ rw (text_eq_refl r.id) refl in
      let (same_responses, same_requests) =
        write_snapshot-rest r.id ((split_payload r.payload).1) db2 in
      let made : create env r db ≡ (db3, ok tt) = rw (fresh, in_responses, hardened) refl in
      (
        ap (λ p. p.1) made,
        (
          ap (λ p. Sqlite.get env r.id p.0) made
              ∙ get-rows r.id (row_of r) request db3
                  (ap (lookup r.id) same_responses ∙ in_responses)
                  (ap (lookup r.id) same_requests ∙ in_requests)
              ∙ ap (read_record env r.id (row_of r) request)
                  (write_snapshot-snapshots r.id ((split_payload r.payload).1) db2)
              ∙ read_record-row_of r request_read snapshot_read status_read c u,
          λ k. get-join_payload k r.payload,
        ),
      )
