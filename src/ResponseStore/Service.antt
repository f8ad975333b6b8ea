-- ===== src/ResponseStore/Service.antt =====
-- src/response_store/service.rs, the actor that owns the store: its commands, one step per command
-- and the loop. The commands of all clients reach it in one order.
pub mod Laws
pub mod Final
use kiro_gateway.Common.{List, [], ◌∷◌, Option, Bool}
use kiro_gateway.Common.Text.{Text}
use kiro_gateway.Common.Json.{Value}
use kiro_gateway.Common.Result.{Result, ok, err, ◌>>=◌}
use kiro_gateway.Error.{AppError}
use kiro_gateway.ResponseStore.Model.{
  ResponseStatus, Times, ResponseRecord, ResponseEvent, Database,
}
use kiro_gateway.ResponseStore.Sqlite.{Env}
use kiro_gateway.ResponseStore.Sqlite

pub data Command : Type 0 where
  create : ResponseRecord → Command
  transition : ResponseRecord → List (Text × Value) → Command
  transition_if_in_progress : Text → ResponseStatus → Value → List (Text × Value) → Command
  get : Text → Command
  delete : Text → Command
  append_event : Text → Text → Value → Command
  events : Text → Command

-- What the actor answers. A dropped stream's transition has no reply channel; its result is logged
-- when it is an error.
pub data Reply : Type 0 where
  created : Result ResponseRecord AppError → Reply
  transitioned : Result (ResponseRecord × List ResponseEvent) AppError → Reply
  logged : Result Bool AppError → Reply
  found : Result (Option ResponseRecord) AppError → Reply
  deleted : Result Bool AppError → Reply
  appended : Result ResponseEvent AppError → Reply
  listed : Result (List ResponseEvent) AppError → Reply

-- One turn of the actor's loop; `now` is what the clock says during the turn.
unfoldable pub handle : Env → Times → Command → Database → Database × Reply
handle env now (create r) db =
    let done = Sqlite.create env r db in (done.0, created (done.1 >>= λ _. ok r))
handle env now (transition r es) db =
    let done = Sqlite.transition env now r es db in
    (done.0, transitioned (done.1 >>= λ stored. ok (r, stored)))
handle env now (transition_if_in_progress id status payload es) db =
    let done = Sqlite.transition_if_in_progress env now id status payload es db in
    (done.0, logged done.1)
handle env now (get id) db = (db, found (Sqlite.get env id db))
handle env now (delete id) db = let done = Sqlite.delete env id db in (done.0, deleted done.1)
handle env now (append_event id event_type payload) db =
    let done = Sqlite.add_event env now id event_type payload db in (done.0, appended done.1)
handle env now (events id) db = (db, listed (Sqlite.events env id db))

-- The commands that are received, each with what the clock says during its turn.
unfoldable pub run_actor : Env → List (Times × Command) → Database → Database × List Reply
run_actor env [] db = (db, [])
run_actor env ((now, command) ∷ rest) db =
    let step = handle env now command db in
    let after = run_actor env rest step.0 in (after.0, step.1 ∷ after.1)
