-- ===== src/ResponseStore/Sqlite/Atomic.antt =====
-- The transactions of src/response_store/sqlite.rs that fail.
use kiro_gateway.Common.{
  ◌≡◌, refl, sym, ap, ◌∙◌, Bool, true, false, List, [], ◌∷◌, ◌++◌, Bool-cases, Option-cases, ◌⊎◌,
  inl, inr,
}
use kiro_gateway.Common.Text.{Text}
use kiro_gateway.Common.Json.{Value}
use kiro_gateway.Common.Result.{Result, ok, err, ◌>>◌, Result-cases}
use kiro_gateway.Common.Dict.{lookup, contains_key}
use kiro_gateway.Error.{AppError}
use kiro_gateway.ResponseStore.Model.{
  Times, Database, decode_status, ResponseRecord, ResponseEvent, ResponseStatus,
}
use kiro_gateway.ResponseStore.Sqlite.{
  Env, transition_in_progress, violated, is_in_progress, transact, append_events, append_loop,
  next_sequence, sequence_used, stored_event, event_row, create, transition,
  transition_if_in_progress, delete, add_event,
}

-- Whether a result is an error.
abbrev pub is_err {ℓ} : {A : Type ℓ} → Result A AppError → Bool
is_err (ok a) = false
is_err (err e) = true

module _ (env : Env) (hardened : env.harden ≡ ok tt) where
  transact-failed {ℓ} :
      {A : Type ℓ} (db : Database) (r : Result (Database × A) AppError)
      → is_err ((transact env db r).1) ≡ true
      → (transact env db r).0 ≡ db
  transact-failed db (err e) f = refl
  transact-failed db (ok (db', a)) f =
      let fine : is_err (env.harden >> ok a) ≡ false = rw hardened refl in absurd cc

  pub create-failed :
      (r : ResponseRecord) (db : Database)
      → is_err ((create env r db).1) ≡ true
      → (create env r db).0 ≡ db
  unfolding create
  create-failed r db f = transact-failed db _ f

  pub transition-failed :
      (now : Times) (r : ResponseRecord) (es : List (Text × Value)) (db : Database)
      → is_err ((transition env now r es db).1) ≡ true
      → (transition env now r es db).0 ≡ db
  unfolding transition
  transition-failed now r es db f = transact-failed db _ f

  transition_if_in_progress-cases :
      (now : Times) (id : Text) (status : ResponseStatus) (payload : Value)
      (es : List (Text × Value)) (db : Database)
      → ((transition_if_in_progress env now id status payload es db).0 ≡ db)
        ⊎ ((m : Result (Database × Bool) AppError) × (transition_if_in_progress env now id status
                payload es db
              ≡ transact env db m))
  unfolding transition_if_in_progress
  transition_if_in_progress-cases now id status payload es db =
      elim (Option-cases (lookup id db.responses)) [
        | inl e ↦ inl (rw (e, transition_if_in_progress) refl)
        | inr (row, e) ↦ elim (Result-cases (decode_status env.codec row.status)) [
          | inl (bad, e') ↦ inl (rw (e, e', transition_if_in_progress) refl)
          | inr (current, e') ↦ elim (Bool-cases (is_in_progress env current)) [
            | inr other ↦ inl (rw (e, e', other, transition_if_in_progress) refl)
            | inl running ↦ inr (
              transition_in_progress env now id status payload es row db,
              rw (e, e', running, transition_if_in_progress) refl,
            )
          ]
        ]
      ]

  pub transition_if_in_progress-failed :
      (now : Times) (id : Text) (status : ResponseStatus) (payload : Value)
      (es : List (Text × Value)) (db : Database)
      → is_err ((transition_if_in_progress env now id status payload es db).1) ≡ true
      → (transition_if_in_progress env now id status payload es db).0 ≡ db
  transition_if_in_progress-failed now id status payload es db f =
      elim (transition_if_in_progress-cases now id status payload es db) [
        | inl e ↦ e
        | inr (m, e) ↦ ap (λ p. p.0) e ∙ transact-failed db m (ap (λ p. is_err p.1) (sym e) ∙ f)
      ]

  pub delete-failed :
      (id : Text) (db : Database) → is_err ((delete env id db).1) ≡ true → (delete env id db).0 ≡ db
  unfolding delete
  delete-failed id db f = elim (Bool-cases (contains_key id db.responses)) [
    | inr absent ↦ rw absent refl
    | inl there ↦
        let fine : is_err ((delete env id db).1) ≡ false = rw (there, hardened) refl in absurd cc
  ]

  append_events-one :
      (id : Text) (now : Times) (e : Text × Value) (db : Database)
      → ((x : AppError) × (append_events env id now (e ∷ []) db ≡ err x))
        ⊎ ((db' : Database) × ((stored : ResponseEvent) × (append_events env id now (e ∷ []) db
                ≡ ok (db', stored ∷ []))))
  unfolding append_events append_loop
  append_events-one id now e db = elim (Bool-cases (contains_key id db.responses)) [
    | inr absent ↦ inl (violated env, rw absent refl)
    | inl there ↦
        elim (Bool-cases (sequence_used env id (next_sequence env id db.events) db.events)) [
          | inl used ↦ inl (violated env, rw (there, used) refl)
          | inr free ↦
              let n = next_sequence env id db.events in
              inr (
                record db { events = db.events ++ event_row env id n (now.written n) e ∷ [] },
                (stored_event env id n (now.written n) e, rw (there, free) refl),
              )
        ]
  ]

  pub add_event-failed :
      (now : Times) (id event_type : Text) (payload : Value) (db : Database)
      → is_err ((add_event env now id event_type payload db).1) ≡ true
      → (add_event env now id event_type payload db).0 ≡ db
  unfolding add_event
  add_event-failed now id event_type payload db f =
      elim (append_events-one id now (event_type, payload) db) [
        | inl (x, e) ↦ rw e refl
        | inr (db', (stored, e)) ↦
            let fine : is_err ((add_event env now id event_type payload db).1) ≡ false =
              rw (e, hardened) refl in
            absurd cc
      ]
