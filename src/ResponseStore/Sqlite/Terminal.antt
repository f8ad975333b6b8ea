-- ===== src/ResponseStore/Sqlite/Terminal.antt =====
-- The transitions of src/response_store/sqlite.rs that wait for a response in progress.
use kiro_gateway.Common.{
  ◌≡◌, refl, sym, ap, ◌∙◌, Bool, true, false, List, [], ◌∷◌, Option, none, some, Bool-cases,
  Option-cases, inl, inr, subst,
}
use kiro_gateway.Common.Text.{Text, text_eq_refl}
use kiro_gateway.Common.Json.{Value, str}
use kiro_gateway.Common.Result.{Result, ok, err, OnOk, bind-OnOk, if-OnOk, Result-cases}
use kiro_gateway.Common.Dict.{lookup, insert, contains_key, lookup-insert}
use kiro_gateway.Error.{AppError}
use kiro_gateway.ResponseStore.Model.{
  Times, seconds, Database, ResponseRow, ResponseStatus, in_progress, completed, incomplete, failed,
  EventRow, ResponseEvent, encode_status, decode_status, status_name, status_of_name, split_payload,
}
use kiro_gateway.ResponseStore.Sqlite.{
  Env, is_in_progress, transact, append_loop, append_events, next_sequence, write_snapshot,
  write_payload_parts, transition_in_progress, transition_if_in_progress,
}

pub status_of_name-status_name : (s : ResponseStatus) → status_of_name (status_name s) ≡ ok s
unfolding status_of_name
status_of_name-status_name in_progress = refl
status_of_name-status_name completed = refl
status_of_name-status_name incomplete = refl
status_of_name-status_name failed = refl

module _ (env : Env) where
  -- The response has a row with the status.
  abbrev pub Settled : Text → ResponseStatus → Database → Type 0
  Settled id status db =
      (row : ResponseRow) × ((lookup id db.responses ≡ some row)
        × (row.status ≡ encode_status env.codec status))

  abbrev pub SettledIn {ℓ} : {A : Type ℓ} → Text → ResponseStatus → Database × A → Type 0
  SettledIn id status r = Settled id status (r.0)

  write_snapshot-Settled :
      (id j : Text) (status : ResponseStatus) (v : Option Value) (db : Database)
      → Settled j status db
      → Settled j status (write_snapshot env id v db)
  write_snapshot-Settled id j status none db h = h
  write_snapshot-Settled id j status (some v) db h = h

  pub write_payload_parts-Settled :
      (id j : Text) (status : ResponseStatus) (payload : Value) (db : Database)
      → Settled j status db
      → OnOk (Settled j status) (write_payload_parts env id payload db)
  unfolding write_payload_parts
  write_payload_parts-Settled id j status payload db h =
      if-OnOk (Settled j status) (contains_key id db.responses) _ _
        (write_snapshot-Settled id j status (split_payload payload).1 _ h) tt

  pub append_events-Settled :
      (id j : Text) (status : ResponseStatus) (now : Times) (es : List (Text × Value))
      (db : Database)
      → Settled j status db
      → OnOk (SettledIn j status) (append_events env id now es db)
  unfolding append_events
  append_events-Settled id j status now [] db h = h
  append_events-Settled id j status now (e ∷ es) db h =
      if-OnOk (SettledIn j status) (contains_key id db.responses) _ _
        (bind-OnOk (λ _. Unit {0}) (SettledIn j status)
          (append_loop env id now (next_sequence env id db.events) (e ∷ es) db.events) _
          (any_result (append_loop env id now (next_sequence env id db.events) (e ∷ es) db.events))
          (λ r _. h))
        tt
    where
      any_result :
          (m : Result (List EventRow × List ResponseEvent) AppError) → OnOk (λ _. Unit {0}) m
      any_result (ok a) = tt
      any_result (err e) = tt

  transition_in_progress-Settled :
      (now : Times) (id : Text) (status : ResponseStatus) (payload : Value)
      (es : List (Text × Value)) (row : ResponseRow) (db : Database)
      → OnOk (SettledIn id status) (transition_in_progress env now id status payload es row db)
  unfolding transition_in_progress
  transition_in_progress-Settled now id status payload es row db =
      let row' : ResponseRow = record row {
        status = encode_status env.codec status;
        updated_at = seconds now.now;
      } in
      let there : lookup id (insert id row' db.responses) ≡ some row' =
        lookup-insert id id row' db.responses ∙ rw (text_eq_refl id) refl in
      bind-OnOk (Settled id status) (SettledIn id status) (write_payload_parts env id payload _) _
        (write_payload_parts-Settled id id status payload _ (row', (there, refl)))
        (λ db1 p.
          bind-OnOk (SettledIn id status) (SettledIn id status) (append_events env id now es db1) _
            (append_events-Settled id id status now es db1 p) (λ r q. q))

  transact-Settled :
      (id : Text) (status : ResponseStatus) (db db' : Database)
      (m : Result (Database × Bool) AppError)
      → OnOk (SettledIn id status) m
      → transact env db m ≡ (db', ok true)
      → Settled id status db'
  transact-Settled id status db db' (err e) p h = absurd cc
  transact-Settled id status db db' (ok (db1, a)) p h =
      subst (Settled id status) (ap (λ r. r.0) h) p

  pub transitioned-Settled :
      (now : Times) (id : Text) (status : ResponseStatus) (payload : Value)
      (es : List (Text × Value)) (db db' : Database)
      → transition_if_in_progress env now id status payload es db ≡ (db', ok true)
      → Settled id status db'
  unfolding transition_if_in_progress
  transitioned-Settled now id status payload es db db' h =
      elim (Option-cases (lookup id db.responses)) [
        | inl e ↦
            let none_there : transition_if_in_progress env now id status payload es db
                ≡ (db, ok false) =
              rw (e, transition_if_in_progress) refl in
            absurd cc
        | inr (row, e) ↦ elim (Result-cases (decode_status env.codec row.status)) [
          | inl (bad, e') ↦
              let unreadable : transition_if_in_progress env now id status payload es db
                  ≡ (db, err bad) =
                rw (e, e', transition_if_in_progress) refl in
              absurd cc
          | inr (current, e') ↦ elim (Bool-cases (is_in_progress env current)) [
            | inr other ↦
                let refused : transition_if_in_progress env now id status payload es db
                    ≡ (db, ok false) =
                  rw (e, e', other, transition_if_in_progress) refl in
                absurd cc
            | inl running ↦
                let m = transition_in_progress env now id status payload es row db in
                let done : transition_if_in_progress env now id status payload es db
                    ≡ transact env db m =
                  rw (e, e', running, transition_if_in_progress) refl in
                transact-Settled id status db db' m
                  (transition_in_progress-Settled now id status payload es row db) (sym done ∙ h)
          ]
        ]
      ]

  -- A transition that waits for a settled response to be in progress is refused.
  pub Settled-refused :
      (now : Times) (id : Text) (status status' : ResponseStatus) (payload : Value)
      (es : List (Text × Value)) (db : Database)
      → env.codec.from_str (env.codec.to_string (str (status_name status)))
        ≡ ok (str (status_name status))
      → is_in_progress env status ≡ false
      → Settled id status db
      → transition_if_in_progress env now id status' payload es db ≡ (db, ok false)
  unfolding transition_if_in_progress decode_status encode_status
  Settled-refused now id status status' payload es db printed terminal (row, (there, stored)) =
      let known : decode_status env.codec row.status ≡ ok status =
        ap (decode_status env.codec) stored
        ∙ rw (printed, decode_status) (status_of_name-status_name status) in
      rw (there, known, terminal, transition_if_in_progress) refl
