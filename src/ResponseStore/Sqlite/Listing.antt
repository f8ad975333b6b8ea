-- ===== src/ResponseStore/Sqlite/Listing.antt =====
-- What src/response_store/sqlite.rs lists after it has stored events.
use kiro_gateway.Common.{
  ℕ, suc, ◌+◌, ◌-◌, ◌*◌, ◌^◌, ◌≤◌, ◌≡◌, refl, sym, ap, ◌∙◌, true, false, List, [], ◌∷◌, ◌++◌,
  if◌then◌else◌, arith, length, leb, append-nil,
}
use kiro_gateway.Common.Text.{Text, text_eq, text_eq_refl}
use kiro_gateway.Common.Json.{Value}
use kiro_gateway.Common.Result.{Result, ok, err, ◌>>=◌}
use kiro_gateway.Common.Dict.{contains_key}
use kiro_gateway.Error.{AppError}
use kiro_gateway.ResponseStore.Model.{
  DateTime, Times, seconds, timestamp, decode_json, ResponseEvent, EventRow, Database,
}
use kiro_gateway.ResponseStore.Sqlite.{
  Env, event_row, stored_event, stamped, next_sequence, append_events, rows_of, place, in_order,
  event_of_row, events_of_rows, events,
}
use kiro_gateway.ResponseStore.Sqlite.Sequence.{
  IsCounting, IsNumbered, appended, reported, rows_of-append, append_loop-appended,
  next_sequence-eq-length,
}

module _ (env : Env) where
  in_order-counting : (n : ℕ) (rows : List EventRow) → IsCounting n rows → in_order env rows ≡ rows
  unfolding in_order place
  in_order-counting n [] c = refl
  in_order-counting n (row ∷ []) c = refl
  in_order-counting n (row ∷ row' ∷ rows) (e, (e', c)) =
      ap (place env row) (in_order-counting (suc n) (row' ∷ rows) (e', c)) ∙ ground arith

  rows_of-appended :
      (id j : Text) (now : Times) (n : ℕ) (es : List (Text × Value))
      → rows_of env j (appended env id now n es)
        ≡ (if text_eq id j then appended env id now n es else [])
  unfolding rows_of appended
  rows_of-appended id j now n [] = ground arith
  rows_of-appended id j now n (e ∷ es) = ground (arith, rows_of-appended id j now (n + 1) es)

  events_of_rows-append :
      (xs ys : List EventRow) (b : List ResponseEvent)
      → events_of_rows env ys ≡ ok b
      → events_of_rows env (xs ++ ys) ≡ (events_of_rows env xs >>= λ a. ok (a ++ b))
  unfolding events_of_rows
  events_of_rows-append [] ys b e = e
  events_of_rows-append (x ∷ xs) ys b e =
      ap
        (λ (m : Result (List ResponseEvent) AppError).
          (event_of_row env x >>= λ v. (m >>= λ vs. ok (v ∷ vs))))
        (events_of_rows-append xs ys b e)
      ∙ regroup (event_of_row env x) (events_of_rows env xs)
    where
      regroup :
          (m : Result ResponseEvent AppError) (k : Result (List ResponseEvent) AppError)
          → (m >>= λ v. ((k >>= λ a. ok (a ++ b)) >>= λ vs. ok (v ∷ vs)))
            ≡ ((m >>= λ v. (k >>= λ vs. ok (v ∷ vs))) >>= λ a. ok (a ++ b))
      regroup (err f) k = refl
      regroup (ok v) (err f) = refl
      regroup (ok v) (ok vs) = refl

  -- A time as it is read back: in whole seconds.
  abbrev pub whole_seconds : Times → Times
  whole_seconds now = record {
    now = seconds now.now * 1_000_000_000;
    written = λ n. seconds (now.written n) * 1_000_000_000;
  }

  -- The JSON library reads back the payloads that it has printed for events from a number on.
  abbrev pub ReadBack : ℕ → List (Text × Value) → Type 0
  ReadBack n [] = Unit
  ReadBack n (e ∷ es) =
      (env.codec.from_str (env.codec.to_string (stamped env e.0 n e.1))
        ≡ ok (stamped env e.0 n e.1))
      × ReadBack (n + 1) es

  event_of_row-event_row :
      (id : Text) (now : DateTime) (n : ℕ) (e : Text × Value)
      → env.codec.from_str (env.codec.to_string (stamped env e.0 n e.1))
        ≡ ok (stamped env e.0 n e.1)
      → seconds now ≤ 8_210_266_876_799
      → event_of_row env (event_row env id n now e)
        ≡ ok (stored_event env id n (seconds now * 1_000_000_000) e)
  unfolding event_of_row timestamp decode_json
  event_of_row-event_row id now n e printed valid =
      let fits : leb (seconds now) 8_210_266_876_799 ≡ true = ground arith in
      rw (printed, fits) refl

  events_of_rows-appended :
      (id : Text) (now : Times) (n : ℕ) (es : List (Text × Value))
      → ReadBack n es
      → ((m : ℕ) → seconds (now.written m) ≤ 8_210_266_876_799)
      → events_of_rows env (appended env id now n es)
        ≡ ok (reported env id (whole_seconds now) n es)
  unfolding events_of_rows appended reported
  events_of_rows-appended id now n [] printed valid = refl
  events_of_rows-appended id now n (e ∷ es) (printed, rest) valid =
      rw
        (
          event_of_row-event_row id (now.written n) n e printed (valid n),
          events_of_rows-appended id now (n + 1) es rest valid,
        )
        refl

  -- Where the JSON library reads back the payloads that are stored, the events of each response are numbered
  -- from 0 without a gap, the response exists, its events fit an `i64` and the times are before the
  -- year 262143: events that are appended are stored and reported, with the next numbers; listing
  -- the response then gives the events that it gave before and these after them, with the time in
  -- whole seconds; listing any other response gives what it gave before.
  pub events-append_events :
      (id j : Text) (now : Times) (e : Text × Value) (es : List (Text × Value)) (db : Database)
      (before : List ResponseEvent)
      → ReadBack (next_sequence env id db.events) (e ∷ es)
      → IsNumbered env db.events
      → contains_key id db.responses ≡ true
      → next_sequence env id db.events + suc (length es) ≤ 2 ^ 63 - 1
      → ((m : ℕ) → seconds (now.written m) ≤ 8_210_266_876_799)
      → events env id db ≡ ok before
      → text_eq id j ≡ false
      → (db' : Database) × ((append_events env id now (e ∷ es) db
            ≡ ok (db', reported env id now (next_sequence env id db.events) (e ∷ es)))
          × ((events env id db'
                ≡ ok (
                    before
                    ++ reported env id
                        (whole_seconds now)
                        (next_sequence env id db.events)
                        (e ∷ es)))
              × (events env j db' ≡ events env j db)))
  unfolding append_events events
  events-append_events id j now e es db before printed numbered there fits valid listed other =
      let n = next_sequence env id db.events in
      let db' : Database = record db { events = db.events ++ appended env id now n (e ∷ es) } in
      let (run, after) =
        append_loop-appended env id now n (e ∷ es) db.events numbered
          (next_sequence-eq-length env id db.events numbered) fits in
      let in_place : (j : Text) → events env j db' ≡ events_of_rows env (rows_of env j db'.events) =
        λ j. ap (events_of_rows env) (in_order-counting 0 (rows_of env j db'.events) (after j)) in
      let was_in_place : (j : Text)
          → events env j db ≡ events_of_rows env (rows_of env j db.events) =
        λ j. ap (events_of_rows env) (in_order-counting 0 (rows_of env j db.events) (numbered j)) in
      let rows : (j : Text)
          → rows_of env j db'.events
            ≡ rows_of env j db.events
              ++ (if text_eq id j then appended env id now n (e ∷ es) else []) =
        λ j.
          rows_of-append env j db.events (appended env id now n (e ∷ es))
          ∙ ap (λ more. rows_of env j db.events ++ more) (rows_of-appended id j now n (e ∷ es)) in
      (
        db',
        (
          rw (there, run) refl,
          (
            in_place id
                ∙ ap (events_of_rows env) (rows id ∙ rw (text_eq_refl id) refl)
                ∙ events_of_rows-append (rows_of env id db.events) (appended env id now n (e ∷ es))
                    _ (events_of_rows-appended id now n (e ∷ es) printed valid)
                ∙ ap
                    (λ (m : Result (List ResponseEvent) AppError).
                      (m >>= λ a. ok (a ++ reported env id (whole_seconds now) n (e ∷ es))))
                    (sym (was_in_place id) ∙ listed),
            in_place j
                ∙ ap (events_of_rows env) (rows j ∙ rw other (append-nil (rows_of env j db.events)))
                ∙ sym (was_in_place j),
          ),
        ),
      )
