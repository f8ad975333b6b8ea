-- ===== src/ResponseStore/Service/Final.antt =====
-- The end of a response in the runs of the actor of src/response_store/service.rs.
use kiro_gateway.Common.{
  ◌≡◌, sym, ap, ◌∙◌, Bool, true, false, not, List, [], ◌∷◌, some, all, Bool-cases, Option-cases,
  inl, inr, subst, and_true_left, and_true_right, not-true,
}
use kiro_gateway.Common.Text.{Text, text_eq, text_eq_iff}
use kiro_gateway.Common.Json.{Value, str}
use kiro_gateway.Common.Result.{Result, ok, err, OnOk, bind-OnOk, Result-cases}
use kiro_gateway.Common.Dict.{lookup, insert, contains_key, remove, lookup-insert, lookup-remove}
use kiro_gateway.Error.{AppError}
use kiro_gateway.ResponseStore.Model.{
  Times, Database, ResponseRow, ResponseRecord, ResponseStatus, status_name, decode_status,
}
use kiro_gateway.ResponseStore.Sqlite.{
  Env, is_in_progress, transact, insert_record, update_record, write_payload_parts, append_events,
  transition_in_progress, transition_if_in_progress,
}
use kiro_gateway.ResponseStore.Sqlite
use kiro_gateway.ResponseStore.Sqlite.Terminal.{
  Settled, SettledIn, write_payload_parts-Settled, append_events-Settled, transitioned-Settled,
  Settled-refused,
}
use kiro_gateway.ResponseStore.Service.{
  Command, create, transition, transition_if_in_progress as wait, get, delete, append_event, events,
  handle, run_actor,
}

-- Whether a command neither deletes the response nor gives it a status without a condition.
abbrev pub spares : Text → Times × Command → Bool
spares id (now, transition r es) = not (text_eq r.id id)
spares id (now, delete j) = not (text_eq j id)
spares id (now, command) = true

module _ (env : Env) (id : Text) (status : ResponseStatus) where
  insert-Settled :
      (j : Text) (row : ResponseRow) (db : Database)
      → text_eq j id ≡ false
      → Settled env id status db
      → Settled env id status (record db { responses = insert j row db.responses })
  insert-Settled j row db other (old, (there, stored)) =
      (old, (lookup-insert j id row db.responses ∙ rw other there, stored))

  remove-there :
      (j : Text) (db : Database)
      → text_eq j id ≡ false
      → Settled env id status db
      → Settled env id status (record db { responses = remove j db.responses })
  remove-there j db other (old, (there, stored)) =
      (old, (lookup-remove j id db.responses ∙ rw other there, stored))

  transact-Settled {ℓ} :
      {A : Type ℓ} (db : Database) (m : Result (Database × A) AppError)
      → Settled env id status db
      → OnOk (SettledIn env id status) m
      → Settled env id status ((transact env db m).0)
  transact-Settled db (ok (db', a)) h p = p
  transact-Settled db (err e) h p = h

  -- A response that is there cannot be created again.
  insert_record-Settled :
      (r : ResponseRecord) (db : Database)
      → Settled env id status db
      → OnOk (Settled env id status) (insert_record env r db)
  unfolding insert_record
  insert_record-Settled r db (row, (there, stored)) = elim (Bool-cases (text_eq r.id id)) [
    | inl same ↦
        let found : lookup r.id db.responses ≡ some row =
          ap (λ k. lookup k db.responses) ((text_eq_iff r.id id).0 same) ∙ there in
        rw (found, insert_record) tt
    | inr other ↦ elim (Bool-cases (contains_key r.id db.responses)) [
      | inl taken ↦ rw (taken, insert_record) tt
      | inr free ↦ rw (free, insert_record) (insert-Settled r.id _ db other (row, (there, stored)))
    ]
  ]

  create-Settled :
      (r : ResponseRecord) (db : Database)
      → Settled env id status db
      → Settled env id status ((Sqlite.create env r db).0)
  unfolding Sqlite.create
  create-Settled r db h = transact-Settled db _ h (
      bind-OnOk (Settled env id status) (SettledIn env id status) (insert_record env r db) _
        (insert_record-Settled r db h)
        (λ db1 p.
          bind-OnOk (Settled env id status) (SettledIn env id status)
            (write_payload_parts env r.id r.payload db1) _
            (write_payload_parts-Settled env r.id id status r.payload db1 p) (λ db2 q. q)))

  update_record-Settled :
      (r : ResponseRecord) (db : Database)
      → text_eq r.id id ≡ false
      → Settled env id status db
      → OnOk (Settled env id status) (update_record env r db)
  unfolding update_record
  update_record-Settled r db other h = elim (Option-cases (lookup r.id db.responses)) [
    | inl e ↦ rw (e, update_record) tt
    | inr (row, e) ↦ rw (e, update_record) (insert-Settled r.id _ db other h)
  ]

  transition-Settled :
      (now : Times) (r : ResponseRecord) (es : List (Text × Value)) (db : Database)
      → text_eq r.id id ≡ false
      → Settled env id status db
      → Settled env id status ((Sqlite.transition env now r es db).0)
  unfolding Sqlite.transition
  transition-Settled now r es db other h = transact-Settled db _ h (
      bind-OnOk (Settled env id status) (SettledIn env id status) (update_record env r db) _
        (update_record-Settled r db other h)
        (λ db1 p.
          bind-OnOk (Settled env id status) (SettledIn env id status)
            (write_payload_parts env r.id r.payload db1) _
            (write_payload_parts-Settled env r.id id status r.payload db1 p)
            (λ db2 q. append_events-Settled env r.id id status now es db2 q)))

  delete-Settled :
      (j : Text) (db : Database)
      → text_eq j id ≡ false
      → Settled env id status db
      → Settled env id status ((Sqlite.delete env j db).0)
  unfolding Sqlite.delete
  delete-Settled j db other h = elim (Bool-cases (contains_key j db.responses)) [
    | inl e ↦ rw (e, Sqlite.delete) (remove-there j db other h)
    | inr e ↦ rw (e, Sqlite.delete) h
  ]

  add_event-Settled :
      (now : Times) (j t : Text) (p : Value) (db : Database)
      → Settled env id status db
      → Settled env id status ((Sqlite.add_event env now j t p db).0)
  unfolding Sqlite.add_event
  add_event-Settled now j t p db h =
      transact-Settled db _ h (append_events-Settled env j id status now ((t, p) ∷ []) db h)

  transition_in_progress-other :
      (now : Times) (j : Text) (s : ResponseStatus) (payload : Value) (es : List (Text × Value))
      (row : ResponseRow) (db : Database)
      → text_eq j id ≡ false
      → Settled env id status db
      → OnOk (SettledIn env id status) (transition_in_progress env now j s payload es row db)
  unfolding transition_in_progress
  transition_in_progress-other now j s payload es row db other h =
      bind-OnOk (Settled env id status) (SettledIn env id status)
        (write_payload_parts env j payload _) _
        (write_payload_parts-Settled env j id status payload _ (insert-Settled j _ db other h))
        (λ db1 p.
          bind-OnOk (SettledIn env id status) (SettledIn env id status)
            (append_events env j now es db1) _ (append_events-Settled env j id status now es db1 p)
            (λ r q. q))

  wait-other :
      (now : Times) (j : Text) (s : ResponseStatus) (payload : Value) (es : List (Text × Value))
      (db : Database)
      → text_eq j id ≡ false
      → Settled env id status db
      → Settled env id status ((transition_if_in_progress env now j s payload es db).0)
  unfolding transition_if_in_progress
  wait-other now j s payload es db other h = elim (Option-cases (lookup j db.responses)) [
    | inl e ↦ rw (e, transition_if_in_progress) h
    | inr (row, e) ↦ elim (Result-cases (decode_status env.codec row.status)) [
      | inl (bad, e') ↦ rw (e, e', transition_if_in_progress) h
      | inr (current, e') ↦ elim (Bool-cases (is_in_progress env current)) [
        | inr k ↦ rw (e, e', k, transition_if_in_progress) h
        | inl k ↦
            rw (e, e', k, transition_if_in_progress)
              (transact-Settled db _ h
                (transition_in_progress-other now j s payload es row db other h))
      ]
    ]
  ]

  module _
      (printed : env.codec.from_str (env.codec.to_string (str (status_name status)))
        ≡ ok (str (status_name status)))
      (terminal : is_in_progress env status ≡ false) where
    wait-Settled :
        (now : Times) (j : Text) (s : ResponseStatus) (payload : Value) (es : List (Text × Value))
        (db : Database)
        → Settled env id status db
        → Settled env id status ((transition_if_in_progress env now j s payload es db).0)
    wait-Settled now j s payload es db h = elim (Bool-cases (text_eq j id)) [
      | inr other ↦ wait-other now j s payload es db other h
      | inl same ↦
          let refused : transition_if_in_progress env now j s payload es db ≡ (db, ok false) =
            ap (λ k. transition_if_in_progress env now k s payload es db)
              ((text_eq_iff j id).0 same)
            ∙ Settled-refused env now id status s payload es db printed terminal h in
          subst (Settled env id status) (ap (λ r. r.0) (sym refused)) h
    ]

    handle-Settled :
        (now : Times) (command : Command) (db : Database)
        → spares id (now, command) ≡ true
        → Settled env id status db
        → Settled env id status ((handle env now command db).0)
    unfolding handle
    handle-Settled now (create r) db k h = create-Settled r db h
    handle-Settled now (transition r es) db k h =
        transition-Settled now r es db (not-true (text_eq r.id id) k) h
    handle-Settled now (wait j s p es) db k h = wait-Settled now j s p es db h
    handle-Settled now (get j) db k h = h
    handle-Settled now (delete j) db k h = delete-Settled j db (not-true (text_eq j id) k) h
    handle-Settled now (append_event j t p) db k h = add_event-Settled now j t p db h
    handle-Settled now (events j) db k h = h

    run_actor-Settled :
        (commands : List (Times × Command)) (db : Database)
        → all (spares id) commands ≡ true
        → Settled env id status db
        → Settled env id status ((run_actor env commands db).0)
    unfolding run_actor
    run_actor-Settled [] db k h = h
    run_actor-Settled ((now, command) ∷ rest) db k h =
        run_actor-Settled rest ((handle env now command db).0) (and_true_right _ _ k)
          (handle-Settled now command db (and_true_left _ _ k) h)

-- Where the JSON library reads back the status that it has printed: once a transition that waits
-- for a response in progress has given it another status, every such transition of the response is
-- refused and leaves the database as it is, whatever commands the actor handles in between, as long
-- as none of them deletes the response or gives it a status without that condition.
pub run_actor-final :
    (env : Env) (now now' : Times) (id : Text) (status status' : ResponseStatus)
    (payload payload' : Value) (es es' : List (Text × Value)) (db db' : Database)
    (between : List (Times × Command))
    → env.codec.from_str (env.codec.to_string (str (status_name status)))
      ≡ ok (str (status_name status))
    → is_in_progress env status ≡ false
    → transition_if_in_progress env now id status payload es db ≡ (db', ok true)
    → all (spares id) between ≡ true
    → transition_if_in_progress env now' id status' payload' es' ((run_actor env between db').0)
      ≡ ((run_actor env between db').0, ok false)
run_actor-final env now now' id status status' payload payload' es es' db db' between printed
      terminal h spared =
    Settled-refused env now' id status status' payload' es' _ printed terminal (
      run_actor-Settled env id status printed terminal between db' spared
        (transitioned-Settled env now id status payload es db db' h))
