-- ===== src/ResponseStore/Sqlite/Delete.antt =====
-- What is left of a response that src/response_store/sqlite.rs has deleted.
use kiro_gateway.Common.{
  ◌≡◌, refl, sym, ap, ◌∙◌, true, false, List, [], none, some, Option-cases, inl, inr,
}
use kiro_gateway.Common.Text.{Text, text_eq, text_eq_refl}
use kiro_gateway.Common.Result.{Result, ok}
use kiro_gateway.Common.Dict.{lookup, remove, contains_key, lookup-remove}
use kiro_gateway.Error.{AppError}
use kiro_gateway.ResponseStore.Model.{Database, ResponseRow, EventRow, ResponseEvent}
use kiro_gateway.ResponseStore.Sqlite.{
  Env, read_record, delete, events, without_events, rows_of, events_of_rows, in_order,
}
use kiro_gateway.ResponseStore.Sqlite
use kiro_gateway.ResponseStore.Sqlite.Numbered.{rows_of-without_events}
use kiro_gateway.ResponseStore.Sqlite.RoundTrip.{get-rows}

module _ (env : Env) where
  get-absent :
      (id : Text) (db : Database) → lookup id db.responses ≡ none → Sqlite.get env id db ≡ ok none
  unfolding Sqlite.get
  get-absent id db e = rw (e, Sqlite.get) refl

  get-without_request :
      (id : Text) (row : ResponseRow) (db : Database)
      → lookup id db.responses ≡ some row
      → lookup id db.requests ≡ none
      → Sqlite.get env id db ≡ ok none
  unfolding Sqlite.get
  get-without_request id row db e e' = rw (e, e', Sqlite.get) refl

  get-same :
      (id : Text) (db db' : Database)
      → lookup id db'.responses ≡ lookup id db.responses
      → lookup id db'.requests ≡ lookup id db.requests
      → lookup id db'.snapshots ≡ lookup id db.snapshots
      → Sqlite.get env id db' ≡ Sqlite.get env id db
  get-same id db db' r q s = elim (Option-cases (lookup id db.responses)) [
    | inl e ↦ get-absent id db' (r ∙ e) ∙ sym (get-absent id db e)
    | inr (row, e) ↦ elim (Option-cases (lookup id db.requests)) [
      | inl e' ↦
          get-without_request id row db' (r ∙ e) (q ∙ e') ∙ sym (get-without_request id row db e e')
      | inr (request, e') ↦
          get-rows env id row request db' (r ∙ e) (q ∙ e')
          ∙ ap (read_record env id row request) s
          ∙ sym (get-rows env id row request db e e')
    ]
  ]

  -- A response that the store has is deleted with all of its events; what is read and listed of
  -- every other response stays.
  pub get-delete :
      (id j : Text) (db : Database)
      → contains_key id db.responses ≡ true
      → text_eq id j ≡ false
      → (Sqlite.get env id ((delete env id db).0) ≡ ok none)
        × ((events env id ((delete env id db).0) ≡ ok [])
            × ((Sqlite.get env j ((delete env id db).0) ≡ Sqlite.get env j db)
                × (events env j ((delete env id db).0) ≡ events env j db)))
  unfolding delete events
  get-delete id j db there other =
      let left : Database = record {
        responses = remove id db.responses;
        requests = remove id db.requests;
        snapshots = remove id db.snapshots;
        events = without_events env id db.events;
      } in
      let gone : (delete env id db).0 ≡ left = rw there refl in
      let list : List EventRow → Result (List ResponseEvent) AppError =
        λ rows. events_of_rows env (in_order env rows) in
      let nothing : events_of_rows env (in_order env []) ≡ ok [] =
        unfold events_of_rows in_order in refl in
      (
        ap (Sqlite.get env id) gone
            ∙ get-absent id left (lookup-remove id id db.responses ∙ rw (text_eq_refl id) refl),
        (
          ap (events env id) gone
              ∙ ap list (rows_of-without_events env id id db.events ∙ rw (text_eq_refl id) refl)
              ∙ nothing,
          (
            ap (Sqlite.get env j) gone
                ∙ get-same j db left (lookup-remove id j db.responses ∙ rw other refl)
                    (lookup-remove id j db.requests ∙ rw other refl)
                    (lookup-remove id j db.snapshots ∙ rw other refl),
            ap (events env j) gone
                ∙ ap list (rows_of-without_events env id j db.events ∙ rw other refl),
          ),
        ),
      )
