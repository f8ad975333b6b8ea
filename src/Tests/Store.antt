-- ===== src/Tests/Store.antt =====
-- Runs of the response store.
use kiro_gateway.Common.{
  ℕ, ◌≡◌, refl, List, [], ◌∷◌, none, some, true, false, arith, Bool-cases, inl, inr,
}
use kiro_gateway.Common.Text.{Text, codes, text_eq}
use kiro_gateway.Common.Json.{Value, null, str, obj, get}
use kiro_gateway.Common.Json
use kiro_gateway.Common.Result.{ok}
use kiro_gateway.Common.Dict.{lookup, insert, contains_key}
use kiro_gateway.ResponseStore.Model.{
  ResponseRecord, ResponseEvent, ResponseRow, Database, Times, empty_database, in_progress,
  completed, incomplete, encode_status, decode_status, split_payload, decode_json, timestamp,
}
use kiro_gateway.ResponseStore.Sqlite.{
  Env, append_events, next_sequence, transition_if_in_progress, create, events, delete,
  insert_record, write_payload_parts, append_loop, transition_in_progress, sequence_used,
  events_of_rows, event_of_row, in_order, place, rows_of, stamped,
}
use kiro_gateway.ResponseStore.Sqlite
use kiro_gateway.ResponseStore.Sqlite.Sequence.{IsNumbered, reported}
use kiro_gateway.ResponseStore.Sqlite.Listing.{events-append_events, whole_seconds}
use kiro_gateway.ResponseStore.Sqlite.Listing
use kiro_gateway.ResponseStore.Sqlite.RoundTrip.{get-create, as_read, ReadBack, SnapshotReadBack}
use kiro_gateway.ResponseStore.Sqlite.Delete.{get-delete}
use kiro_gateway.ResponseStore.Service.{Command, Reply, handle, run_actor}
use kiro_gateway.ResponseStore.Service
use kiro_gateway.ResponseStore.Service.Final.{run_actor-final}
use kiro_gateway.ResponseStore.Service.Laws.{has_failed, run_actor-IsNumbered, handle-failed}
use kiro_gateway.Tests.{test_codec, known}

-- A clock that stands.
abbrev stands : ℕ → Times
stands t = record { now = t; written = λ n. t }

abbrev test_env : Env
test_env = record { codec = test_codec; constraint_message = codes "UNIQUE"; harden = ok tt }

abbrev resp_1 : ResponseRecord
resp_1 = record {
  id = codes "resp_1";
  object = codes "response";
  status = in_progress;
  model = codes "m";
  payload = obj known;
  created_at = 5_000_000_001;
  updated_at = 5_000_000_001;
}

read_request : ReadBack test_env ((split_payload (obj known)).0)
unfolding split_payload Json.lookup Json.remove text_eq
read_request = refl

read_snapshot : SnapshotReadBack test_env ((split_payload (obj known)).1)
unfolding split_payload Json.lookup Json.remove text_eq
read_snapshot = tt

get-create_example :
    ((create test_env resp_1 empty_database).1 ≡ ok tt)
    × ((Sqlite.get test_env (codes "resp_1") ((create test_env resp_1 empty_database).0)
          ≡ ok (some (as_read test_env resp_1)))
        × ((k : Text) → get k ((as_read test_env resp_1).payload) ≡ get k (obj known)))
get-create_example =
    get-create test_env resp_1 empty_database read_request read_snapshot refl refl (omega arith)
      (omega arith) (unfold lookup in refl)

-- A database with two responses in progress, the first of which has an event.
abbrev row_1 : ResponseRow
row_1 = record {
  object = codes "response";
  status = 115 ∷ codes "in_progress";
  model = codes "m";
  created_at = 5;
  updated_at = 5;
}

abbrev stored : Database
stored = record {
  responses = (codes "resp_1", row_1) ∷ (codes "resp_2", row_1) ∷ [];
  requests = (codes "resp_1", codes "{") ∷ (codes "resp_2", codes "{") ∷ [];
  snapshots = [];
  events =
      (record {
        response_id = codes "resp_1";
        sequence_number = 0;
        event_type = codes "done";
        payload = codes "{";
        created_at = 5;
      })
      ∷ [];
}

resp_1_there : contains_key (codes "resp_1") stored.responses ≡ true
unfolding lookup text_eq
resp_1_there = refl

resp_2_other : text_eq (codes "resp_1") (codes "resp_2") ≡ false
unfolding text_eq
resp_2_other = refl

stored_IsNumbered : IsNumbered test_env stored.events
unfolding rows_of
stored_IsNumbered id = elim (Bool-cases (text_eq (codes "resp_1") id)) [
  | inl e ↦ rw e (refl, tt)
  | inr e ↦ rw e tt
]

get-delete_example :
    (Sqlite.get test_env (codes "resp_1") ((delete test_env (codes "resp_1") stored).0) ≡ ok none)
    × ((events test_env (codes "resp_1") ((delete test_env (codes "resp_1") stored).0) ≡ ok [])
        × ((Sqlite.get test_env (codes "resp_2") ((delete test_env (codes "resp_1") stored).0)
              ≡ Sqlite.get test_env (codes "resp_2") stored)
            × (events test_env (codes "resp_2") ((delete test_env (codes "resp_1") stored).0)
                ≡ events test_env (codes "resp_2") stored)))
get-delete_example =
    get-delete test_env (codes "resp_1") (codes "resp_2") stored resp_1_there resp_2_other

abbrev stopped : List (Text × Value)
stopped = (codes "response.incomplete", str (codes "x")) ∷ []

abbrev after_stop : Database
after_stop =
    (transition_if_in_progress test_env (stands 9_000_000_000) (codes "resp_1") incomplete
      (obj known) stopped stored).0

stop_stored :
    transition_if_in_progress test_env
      (stands 9_000_000_000)
      (codes "resp_1")
      incomplete
      (obj known)
      stopped
      stored
    ≡ (after_stop, ok true)
unfolding transition_if_in_progress transition_in_progress decode_status encode_status
    write_payload_parts append_events append_loop lookup insert text_eq split_payload Json.lookup
    Json.remove next_sequence sequence_used
stop_stored = refl

-- Commands in between: the response is read and gets an event, and another one is deleted.
abbrev between : List (Times × Command)
between =
    (stands 9_100_000_000, Service.get (codes "resp_1"))
    ∷ (stands 9_200_000_000, Service.append_event (codes "resp_1") (codes "late") (obj known))
    ∷ (stands 9_300_000_000, Service.delete (codes "resp_2"))
    ∷ []

abbrev after_between : Database
after_between = (run_actor test_env between after_stop).0

run_actor-final_example :
    transition_if_in_progress test_env
      (stands 9_500_000_000)
      (codes "resp_1")
      completed
      (obj known)
      []
      after_between
    ≡ (after_between, ok false)
unfolding text_eq
run_actor-final_example =
    run_actor-final test_env (stands 9_000_000_000) (stands 9_500_000_000) (codes "resp_1")
      incomplete completed (obj known) (obj known) stopped [] stored after_stop between refl refl
      stop_stored refl

next_is_one : next_sequence test_env (codes "resp_1") stored.events ≡ 1
unfolding next_sequence text_eq
next_is_one = refl

abbrev first_event : ResponseEvent
first_event = record {
  response_id = codes "resp_1";
  sequence_number = 0;
  event_type = codes "done";
  payload = obj known;
  created_at = 5_000_000_000;
}

stored_listed : events test_env (codes "resp_1") stored ≡ ok (first_event ∷ [])
unfolding events events_of_rows event_of_row in_order place rows_of decode_json timestamp text_eq
stored_listed = refl

delta_ReadBack :
    Listing.ReadBack test_env (next_sequence test_env (codes "resp_1") stored.events) stopped
unfolding stamped
delta_ReadBack = (refl, tt)

events-append_events_example :
    (db' : Database) × ((append_events test_env
          (codes "resp_1")
          (stands 9_000_000_000)
          stopped
          stored
        ≡ ok (
          db',
          reported test_env
              (codes "resp_1")
              (stands 9_000_000_000)
              (next_sequence test_env (codes "resp_1") stored.events)
              stopped,
        ))
      × ((events test_env (codes "resp_1") db'
            ≡ ok (
                first_event
                ∷ reported test_env
                    (codes "resp_1")
                    (stands 9_000_000_000)
                    (next_sequence test_env (codes "resp_1") stored.events)
                    stopped))
          × (events test_env (codes "resp_2") db' ≡ events test_env (codes "resp_2") stored)))
events-append_events_example =
    events-append_events test_env (codes "resp_1") (codes "resp_2") (stands 9_000_000_000)
      (codes "response.incomplete", str (codes "x")) [] stored (first_event ∷ []) delta_ReadBack
      stored_IsNumbered resp_1_there (omega (arith, next_is_one)) (λ m. omega arith) stored_listed
      resp_2_other

abbrev three_commands : List (Times × Command)
three_commands =
    (
      (stands 6_000_000_000),
      Service.append_event (codes "resp_1") (codes "delta") (str (codes "x")),
    )
    ∷ ((stands 7_000_000_000), Service.create resp_1)
    ∷ ((stands 8_000_000_000), Service.delete (codes "resp_2"))
    ∷ []

run_actor-IsNumbered_example :
    IsNumbered test_env ((run_actor test_env three_commands stored).0.events)
run_actor-IsNumbered_example = run_actor-IsNumbered test_env three_commands stored stored_IsNumbered

resp_1_again :
    has_failed ((handle test_env (stands 7_000_000_000) (Service.create resp_1) stored).1) ≡ true
unfolding handle create insert_record lookup text_eq
resp_1_again = refl

handle-failed_example :
    (handle test_env (stands 7_000_000_000) (Service.create resp_1) stored).0 ≡ stored
handle-failed_example =
    handle-failed test_env (stands 7_000_000_000) (Service.create resp_1) stored refl resp_1_again
