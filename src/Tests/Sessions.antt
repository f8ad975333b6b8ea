-- ===== src/Tests/Sessions.antt =====
-- Runs of the sessions of administrators and of the model catalog.
use kiro_gateway.Common.{ℕ, ◌≡◌, refl, List, [], ◌∷◌, none, some, arith}
use Prim.Native.Nat.{min}
use kiro_gateway.Common.Text.{Text, codes}
use kiro_gateway.Common.Result.{Result, ok}
use kiro_gateway.ModelCatalog.{Answer, ModelCatalog, get}
use kiro_gateway.Admin.Session.{default_store, create, get as get_session}
use kiro_gateway.Admin.Session.Refinement.{
  Use, created, found, removed, cleaned, answers, view_answers, answers-eq-view_answers,
}
use kiro_gateway.Admin.Session.Laws.{Login, allowed, calls, allowed_lem, still_live-create}

still_live-create_example :
    (get_session 150 (codes "t") ((create 99 100 (codes "t") (codes "c") 60 default_store).0)).1
    ≡ some ((create 99 100 (codes "t") (codes "c") 60 default_store).1)
still_live-create_example =
    still_live-create 99 100 150 (codes "t") (codes "c") 60 default_store (omega arith)

abbrev login_at : ℕ → Text → Login
login_at now key = record { cleaned = now; now = now; key = key }

-- Three logins with one key and one with another, within two nanoseconds.
abbrev logins : List Login
logins =
    login_at 5 (codes "a")
    ∷ login_at 5 (codes "b")
    ∷ login_at 6 (codes "a")
    ∷ login_at 7 (codes "a")
    ∷ []

allowed_lem_example :
    allowed 2 (codes "a") logins (record { sessions = []; attempts = [] })
    ≡ min 2 (calls (codes "a") logins)
allowed_lem_example = allowed_lem 5 2 (codes "a") logins [] refl

-- A catalog that is empty, and a service that refuses every region.
abbrev empty_catalog : ModelCatalog Text
empty_catalog = record { ttl = 60; max_body_bytes = 100; cache = none }

abbrev refuse_region : Text → Text → Result Answer Text
refuse_region region token = ok (record {
  status = 403;
  status_text = codes "403 Forbidden";
  content_length = none;
  chunks = [];
})

abbrev no_models : List ℕ → Result (List Text) Text
no_models bytes = ok []

-- A session that is found while it lives and not afterwards.
abbrev uses : List Use
uses =
    created 1 2 (codes "t") (codes "c") 10
    ∷ found 5 (codes "t")
    ∷ cleaned 6
    ∷ found 20 (codes "t")
    ∷ removed (codes "t")
    ∷ []

answers-eq-view_answers_example :
    answers uses (record { sessions = []; attempts = [] }) ≡ view_answers uses (λ k. none)
answers-eq-view_answers_example = answers-eq-view_answers uses [] refl
