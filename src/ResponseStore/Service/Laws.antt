-- ===== src/ResponseStore/Service/Laws.antt =====
-- Runs of the actor of src/response_store/service.rs, and its failed commands.
use kiro_gateway.Common.{◌≡◌, refl, sym, ◌∙◌, Bool, true, List, [], ◌∷◌}
use kiro_gateway.Common.Result.{Result, ok, err, ◌>>=◌}
use kiro_gateway.Error.{AppError}
use kiro_gateway.ResponseStore.Model.{Times, Database}
use kiro_gateway.ResponseStore.Sqlite.{Env}
use kiro_gateway.ResponseStore.Sqlite.Sequence.{IsNumbered}
use kiro_gateway.ResponseStore.Sqlite.Numbered.{
  create-IsNumbered, transition-IsNumbered, transition_if_in_progress-IsNumbered, delete-IsNumbered,
  add_event-IsNumbered,
}
use kiro_gateway.ResponseStore.Sqlite.Atomic.{
  is_err, create-failed, transition-failed, transition_if_in_progress-failed, delete-failed,
  add_event-failed,
}
use kiro_gateway.ResponseStore.Service.{
  Command, create, transition, transition_if_in_progress, get, delete, append_event, events, Reply,
  created, transitioned, logged, found, deleted, appended, listed, handle, run_actor,
}

-- Whether the answer is an error.
abbrev pub has_failed : Reply → Bool
has_failed (created r) = is_err r
has_failed (transitioned r) = is_err r
has_failed (logged r) = is_err r
has_failed (found r) = is_err r
has_failed (deleted r) = is_err r
has_failed (appended r) = is_err r
has_failed (listed r) = is_err r

module _ (env : Env) where
  handle-IsNumbered :
      (now : Times) (command : Command) (db : Database)
      → IsNumbered env db.events
      → IsNumbered env ((handle env now command db).0.events)
  unfolding handle
  handle-IsNumbered now (create r) db h = create-IsNumbered env r db h
  handle-IsNumbered now (transition r es) db h = transition-IsNumbered env now r es db h
  handle-IsNumbered now (transition_if_in_progress id s p es) db h =
      transition_if_in_progress-IsNumbered env now id s p es db h
  handle-IsNumbered now (get id) db h = h
  handle-IsNumbered now (delete id) db h = delete-IsNumbered env id db h
  handle-IsNumbered now (append_event id t p) db h = add_event-IsNumbered env now id t p db h
  handle-IsNumbered now (events id) db h = h

  -- Whatever commands the actor handles, the events of each response stay numbered from 0 without
  -- a gap, in the order in which they were stored.
  pub run_actor-IsNumbered :
      (commands : List (Times × Command)) (db : Database)
      → IsNumbered env db.events
      → IsNumbered env ((run_actor env commands db).0.events)
  unfolding run_actor
  run_actor-IsNumbered [] db h = h
  run_actor-IsNumbered ((now, command) ∷ rest) db h =
      run_actor-IsNumbered rest ((handle env now command db).0) (handle-IsNumbered now command db h)

  bind_ok {ℓ κ} :
      {A : Type ℓ} {B : Type κ} (f : A → B) (m : Result A AppError)
      → is_err (m >>= λ a. ok (f a)) ≡ is_err m
  bind_ok f (ok a) = refl
  bind_ok f (err e) = refl

  -- Where the files beside the database can be made private: a command whose answer is an error,
  -- or whose logged result is one, leaves the database as it was.
  pub handle-failed :
      (now : Times) (command : Command) (db : Database)
      → env.harden ≡ ok tt
      → has_failed ((handle env now command db).1) ≡ true
      → (handle env now command db).0 ≡ db
  unfolding handle
  handle-failed now (create r) db h f = create-failed env h r db (sym (bind_ok (λ _. r) _) ∙ f)
  handle-failed now (transition r es) db h f =
      transition-failed env h now r es db (sym (bind_ok (λ stored. (r, stored)) _) ∙ f)
  handle-failed now (transition_if_in_progress id s p es) db h f =
      transition_if_in_progress-failed env h now id s p es db f
  handle-failed now (get id) db h f = refl
  handle-failed now (delete id) db h f = delete-failed env h id db f
  handle-failed now (append_event id t p) db h f = add_event-failed env h now id t p db f
  handle-failed now (events id) db h f = refl
