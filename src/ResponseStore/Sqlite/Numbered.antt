-- ===== src/ResponseStore/Sqlite/Numbered.antt =====
-- The numbering of the events under each transaction of src/response_store/sqlite.rs.
use kiro_gateway.Common.{
  ℕ, suc, ◌+◌, ◌-◌, ◌^◌, ◌≤◌, ◌<◌, ◌≡◌, refl, sym, ap, ◌∙◌, Bool, true, false, List, [], ◌∷◌, ◌++◌,
  if◌then◌else◌, arith, length, ltb, ltb→lt, ltb→ge, subst, Bool-cases, Option-cases, inl, inr,
  ◌==◌, ◌&&◌, ◌||◌, Option, none, some,
}
use kiro_gateway.Common.Text.{Text, text_eq, text_eq_iff}
use kiro_gateway.Common.Json.{Value}
use kiro_gateway.Common.Result.{Result, ok, err, OnOk, bind-OnOk, if-OnOk, Result-cases}
use kiro_gateway.Common.Dict.{contains_key, lookup}
use kiro_gateway.Error.{AppError}
use kiro_gateway.ResponseStore.Model.{
  Times, ResponseRecord, ResponseEvent, ResponseRow, EventRow, Database, decode_status,
  split_payload, ResponseStatus,
}
use kiro_gateway.ResponseStore.Sqlite.{
  Env, is_in_progress, write_snapshot, transact, violated, event_row, stored_event, after_sequence,
  next_sequence, sequence_used, append_loop, append_events, without_events, rows_of, insert_record,
  update_record, write_payload_parts, create, transition, transition_in_progress,
  transition_if_in_progress, delete, add_event,
}
use kiro_gateway.ResponseStore.Sqlite.Sequence.{
  IsCounting, IsNumbered, snoc-IsNumbered, length-snoc, next_sequence-eq-length,
}

module _ (env : Env) where
  used-counting :
      (id : Text) (n m : ℕ) (rows : List EventRow)
      → IsCounting n (rows_of env id rows)
      → n ≤ m
      → m < n + length (rows_of env id rows)
      → sequence_used env id m rows ≡ true
  unfolding sequence_used rows_of
  used-counting id n m [] c a b = absurd (omega arith)
  used-counting id n m (row ∷ rows) c a b =
      go (text_eq row.response_id id) (λ k c a b. used-counting id k m rows c a b) c b
    where
      go :
          (same : Bool)
          → ((k : ℕ)
              → IsCounting k (rows_of env id rows)
              → k ≤ m
              → m < k + length (rows_of env id rows)
              → sequence_used env id m rows ≡ true)
          → IsCounting n (if same then row ∷ rows_of env id rows else rows_of env id rows)
          → m < n + length (if same then row ∷ rows_of env id rows else rows_of env id rows)
          → ((same && (row.sequence_number == m)) || sequence_used env id m rows) ≡ true
      go false rec c b = rec n c a b
      go true rec (e, c) b = ground (arith, rec (suc n) c)

  -- A list of rows whose events are numbered.
  abbrev Numbered : List EventRow × List ResponseEvent → Type 0
  Numbered r = IsNumbered env r.0

  -- The loop adds nothing that breaks the numbering, also where it reaches the largest number: the
  -- number is then in use, and the loop fails.
  stuck :
      (id : Text) (now : Times) (n : ℕ) (es : List (Text × Value)) (rows : List EventRow)
      → sequence_used env id n rows ≡ true
      → IsNumbered env rows
      → OnOk Numbered (append_loop env id now n es rows)
  unfolding append_loop
  stuck id now n [] rows u h = h
  stuck id now n (x ∷ es) rows u h = rw u tt

  append_loop-IsNumbered :
      (id : Text) (now : Times) (n : ℕ) (es : List (Text × Value)) (rows : List EventRow)
      → IsNumbered env rows
      → n ≡ length (rows_of env id rows)
      → OnOk Numbered (append_loop env id now n es rows)
  unfolding append_loop
  append_loop-IsNumbered id now n [] rows h e = h
  append_loop-IsNumbered id now n (x ∷ es) rows h e =
      let rows' = rows ++ event_row env id n (now.written n) x ∷ [] in
      let numbered : IsNumbered env rows' =
        subst (λ m. IsNumbered env (rows ++ event_row env id m (now.written n) x ∷ [])) (sym e)
          (snoc-IsNumbered env id (now.written n) x rows h) in
      let count : n + 1 ≡ length (rows_of env id rows') =
        ap (λ m. m + 1) e ∙ sym (length-snoc env id (now.written n) n x rows) in
      let rest : OnOk Numbered (append_loop env id now (after_sequence env n) es rows') =
        elim (Bool-cases (ltb n (2 ^ 63 - 1))) [
          | inl small ↦
              let next : after_sequence env n ≡ n + 1 =
                omega (arith, ltb→lt n (2 ^ 63 - 1) small) in
              subst (λ m. OnOk Numbered (append_loop env id now m es rows')) (sym next)
                (append_loop-IsNumbered id now (n + 1) es rows' numbered count)
          | inr large ↦
              let last : 2 ^ 63 - 1 ≤ n = ltb→ge n (2 ^ 63 - 1) large in
              stuck id now (after_sequence env n) es rows'
                (used-counting id 0 (after_sequence env n) rows' (numbered id) (omega arith)
                  (omega arith))
                numbered
        ] in
      if-OnOk Numbered (sequence_used env id n rows) (err (violated env)) _ tt (
        bind-OnOk Numbered Numbered (append_loop env id now (after_sequence env n) es rows')
          (λ r. ok (r.0, stored_event env id n (now.written n) x ∷ r.1)) rest (λ r p. p))

  -- The database of a transaction's value.
  abbrev DbNumbered {ℓ} : {A : Type ℓ} → Database × A → Type 0
  DbNumbered r = IsNumbered env (r.0.events)

  abbrev EventsKept : Database → Database → Type 0
  EventsKept db db' = db'.events ≡ db.events

  append_events-IsNumbered :
      (id : Text) (now : Times) (es : List (Text × Value)) (db : Database)
      → IsNumbered env db.events
      → OnOk DbNumbered (append_events env id now es db)
  unfolding append_events
  append_events-IsNumbered id now [] db h = h
  append_events-IsNumbered id now (e ∷ es) db h =
      if-OnOk DbNumbered (contains_key id db.responses) _ _
        (bind-OnOk Numbered DbNumbered
          (append_loop env id now (next_sequence env id db.events) (e ∷ es) db.events)
          (λ r. ok (record db { events = r.0 }, r.1))
          (append_loop-IsNumbered id now (next_sequence env id db.events) (e ∷ es) db.events h
            (next_sequence-eq-length env id db.events h))
          (λ r p. p))
        tt

  insert_record-events :
      (r : ResponseRecord) (db : Database) → OnOk (EventsKept db) (insert_record env r db)
  unfolding insert_record
  insert_record-events r db = if-OnOk (EventsKept db) (contains_key r.id db.responses) _ _ tt refl

  update_record-events :
      (r : ResponseRecord) (db : Database) → OnOk (EventsKept db) (update_record env r db)
  unfolding update_record
  update_record-events r db = elim (Option-cases (lookup r.id db.responses)) [
    | inl e ↦ rw (e, update_record, OnOk) tt
    | inr (row, e) ↦ rw (e, update_record, OnOk) refl
  ]

  write_snapshot-events :
      (id : Text) (v : Option Value) (db : Database) → EventsKept db (write_snapshot env id v db)
  write_snapshot-events id none db = refl
  write_snapshot-events id (some v) db = refl

  write_payload_parts-events :
      (id : Text) (payload : Value) (db : Database)
      → OnOk (EventsKept db) (write_payload_parts env id payload db)
  unfolding write_payload_parts
  write_payload_parts-events id payload db =
      if-OnOk (EventsKept db) (contains_key id db.responses) _ _
        (write_snapshot-events id (split_payload payload).1 _) tt

  transact-IsNumbered {ℓ} :
      {A : Type ℓ} (db : Database) (r : Result (Database × A) AppError)
      → IsNumbered env db.events
      → OnOk DbNumbered r
      → IsNumbered env ((transact env db r).0.events)
  transact-IsNumbered db (err e) h p = h
  transact-IsNumbered db (ok (db', a)) h p = p

  keep :
      (db db' : Database) → EventsKept db db' → IsNumbered env db.events → IsNumbered env db'.events
  keep db db' e h = subst (IsNumbered env) (sym e) h

  KeptNumbered : Database → Type 0
  KeptNumbered db = IsNumbered env db.events

  write_payload_parts-IsNumbered :
      (id : Text) (payload : Value) (db : Database)
      → IsNumbered env db.events
      → OnOk KeptNumbered (write_payload_parts env id payload db)
  unfolding KeptNumbered
  write_payload_parts-IsNumbered id payload db h =
      keep-OnOk db (write_payload_parts env id payload db) h
        (write_payload_parts-events id payload db)
    where
      keep-OnOk :
          (db : Database) (m : Result Database AppError)
          → IsNumbered env db.events
          → OnOk (EventsKept db) m
          → OnOk KeptNumbered m
      keep-OnOk db (ok db') h e = keep db db' e h
      keep-OnOk db (err e) h _ = tt

  pub create-IsNumbered :
      (r : ResponseRecord) (db : Database)
      → IsNumbered env db.events
      → IsNumbered env ((create env r db).0.events)
  unfolding create KeptNumbered
  create-IsNumbered r db h = transact-IsNumbered db _ h (
      bind-OnOk (EventsKept db) DbNumbered (insert_record env r db) _ (insert_record-events r db)
        (λ db1 e1.
          bind-OnOk KeptNumbered DbNumbered (write_payload_parts env r.id r.payload db1) _
            (write_payload_parts-IsNumbered r.id r.payload db1 (keep db db1 e1 h)) (λ db2 p. p)))

  pub transition-IsNumbered :
      (now : Times) (r : ResponseRecord) (es : List (Text × Value)) (db : Database)
      → IsNumbered env db.events
      → IsNumbered env ((transition env now r es db).0.events)
  unfolding transition KeptNumbered
  transition-IsNumbered now r es db h = transact-IsNumbered db _ h (
      bind-OnOk (EventsKept db) DbNumbered (update_record env r db) _ (update_record-events r db)
        (λ db1 e1.
          bind-OnOk KeptNumbered DbNumbered (write_payload_parts env r.id r.payload db1) _
            (write_payload_parts-IsNumbered r.id r.payload db1 (keep db db1 e1 h))
            (λ db2 p. append_events-IsNumbered r.id now es db2 p)))

  transition_in_progress-IsNumbered :
      (now : Times) (id : Text) (status : ResponseStatus) (payload : Value)
      (es : List (Text × Value)) (row : ResponseRow) (db : Database)
      → IsNumbered env db.events
      → OnOk DbNumbered (transition_in_progress env now id status payload es row db)
  unfolding transition_in_progress KeptNumbered
  transition_in_progress-IsNumbered now id status payload es row db h =
      bind-OnOk KeptNumbered DbNumbered (write_payload_parts env id payload _) _
        (write_payload_parts-IsNumbered id payload _ h)
        (λ db1 p.
          bind-OnOk DbNumbered DbNumbered (append_events env id now es db1) _
            (append_events-IsNumbered id now es db1 p) (λ r q. q))

  pub transition_if_in_progress-IsNumbered :
      (now : Times) (id : Text) (status : ResponseStatus) (payload : Value)
      (es : List (Text × Value)) (db : Database)
      → IsNumbered env db.events
      → IsNumbered env ((transition_if_in_progress env now id status payload es db).0.events)
  unfolding transition_if_in_progress
  transition_if_in_progress-IsNumbered now id status payload es db h =
      elim (Option-cases (lookup id db.responses)) [
        | inl e ↦ rw (e, transition_if_in_progress) h
        | inr (row, e) ↦
            rw (e, transition_if_in_progress)
              (elim (Result-cases (decode_status env.codec row.status)) [
                | inl (bad, e') ↦ rw e' h
                | inr (current, e') ↦ rw e' (elim (Bool-cases (is_in_progress env current)) [
                  | inr other ↦ rw other h
                  | inl now_running ↦ rw now_running (
                      transact-IsNumbered db _ h
                        (transition_in_progress-IsNumbered now id status payload es row db h))
                ])
              ])
      ]

  pub add_event-IsNumbered :
      (now : Times) (id event_type : Text) (payload : Value) (db : Database)
      → IsNumbered env db.events
      → IsNumbered env ((add_event env now id event_type payload db).0.events)
  unfolding add_event
  add_event-IsNumbered now id event_type payload db h =
      transact-IsNumbered db _ h (append_events-IsNumbered id now ((event_type, payload) ∷ []) db h)

  pub rows_of-without_events :
      (id j : Text) (rows : List EventRow)
      → rows_of env j (without_events env id rows)
        ≡ (if text_eq id j then [] else rows_of env j rows)
  unfolding rows_of without_events
  rows_of-without_events id j [] = ground arith
  rows_of-without_events id j (row ∷ rows) = ground (
    arith,
    text_eq_iff row.response_id id,
    text_eq_iff row.response_id j,
    text_eq_iff id j,
    rows_of-without_events id j rows,
  )

  pub delete-IsNumbered :
      (id : Text) (db : Database)
      → IsNumbered env db.events
      → IsNumbered env ((delete env id db).0.events)
  unfolding delete
  delete-IsNumbered id db h = elim (Bool-cases (contains_key id db.responses)) [
    | inr absent ↦ rw absent h
    | inl there ↦ rw there (λ j.
        rw (rows_of-without_events id j db.events)
          (elim (Bool-cases (text_eq id j)) [ inl e ↦ rw e tt | inr e ↦ rw e (h j) ]))
  ]
