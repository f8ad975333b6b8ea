-- ===== src/Admin/Session/Refinement.antt =====
-- The session store of src/admin/session.rs answers as a map without clean-ups does.
use kiro_gateway.Common.{
  ℕ, ◌+◌, ◌≤◌, ◌≡◌, refl, ap, ◌∙◌, Bool, true, false, not, ◌&&◌, List, [], ◌∷◌, Option, none, some,
  leb, is_some, if◌then◌else◌, arith, Bool-cases, inl, inr,
}
use kiro_gateway.Common.Text.{Text, text_eq, text_eq_iff}
use kiro_gateway.Common.Dict
use kiro_gateway.Common.Dict.{Dict, lookup, insert, retain, lookup-insert, lookup-remove}
use kiro_gateway.Admin.Session.{
  Session, SessionStore, is_live, cleanup_expired, create, get, remove, still_live,
}

-- A map in which no key is bound twice.
abbrev uniq : Dict Session → Bool
uniq [] = true
uniq ((k, s) ∷ d) = not (is_some (lookup k d)) && uniq d

lookup-retain_absent :
    (k : Text) (p : Session → Bool) (d : Dict Session)
    → is_some (lookup k d) ≡ false
    → is_some (lookup k (retain p d)) ≡ false
unfolding lookup retain
lookup-retain_absent k p [] h = refl
lookup-retain_absent k p ((j, s) ∷ d) h = ground (arith, h, lookup-retain_absent k p d)

uniq-retain : (p : Session → Bool) (d : Dict Session) → uniq d ≡ true → uniq (retain p d) ≡ true
unfolding lookup retain
uniq-retain p [] h = refl
uniq-retain p ((k, s) ∷ d) h = ground (arith, h, lookup-retain_absent k p d, uniq-retain p d)

lookup-same : (j k : Text) (d : Dict Session) → text_eq j k ≡ true → lookup j d ≡ lookup k d
lookup-same j k d h = ap (λ i. lookup i d) ((text_eq_iff j k).0 h)

uniq-insert :
    (k : Text) (s : Session) (d : Dict Session) → uniq d ≡ true → uniq (insert k s d) ≡ true
unfolding lookup insert
uniq-insert k s [] h = refl
uniq-insert k s ((j, r) ∷ d) h = ground (
  arith,
  h,
  uniq-insert k s d,
  lookup-insert k j s d,
  text_eq_iff j k,
  text_eq_iff k j,
  lookup-same j k d,
)

uniq-remove : (k : Text) (d : Dict Session) → uniq d ≡ true → uniq (Dict.remove k d) ≡ true
unfolding lookup Dict.remove
uniq-remove k [] h = refl
uniq-remove k ((j, r) ∷ d) h =
    ground (arith, h, uniq-remove k d, lookup-remove k j d, text_eq_iff j k, text_eq_iff k j)

none_of : (o : Option Session) → is_some o ≡ false → o ≡ none
none_of none h = refl
none_of (some s) h = absurd (ground (arith, h))

-- A clean-up changes nothing of what is live at a later time.
still_live-retain :
    (now later : ℕ) (k : Text) (d : Dict Session)
    → now ≤ later
    → uniq d ≡ true
    → still_live later (lookup k (retain (is_live now) d)) ≡ still_live later (lookup k d)
unfolding lookup retain
still_live-retain now later k [] h u = refl
still_live-retain now later k ((j, s) ∷ d) h u = elim (Bool-cases (text_eq j k)) [
  | inl e ↦ elim (Bool-cases (is_live now s)) [
    | inl l ↦ rw (l, e, retain) refl
    | inr l ↦ rw (l, e, retain, dead l, absent e) refl
  ]
  | inr e ↦ elim (Bool-cases (is_live now s)) [
    | inl l ↦ rw (l, e, retain) (still_live-retain now later k d h (ground (arith, u)))
    | inr l ↦ rw (l, e, retain) (still_live-retain now later k d h (ground (arith, u)))
  ]
]
  where
    dead : is_live now s ≡ false → is_live later s ≡ false
    dead l = ground (arith, h, l)

    absent : text_eq j k ≡ true → lookup k (retain (is_live now) d) ≡ none
    absent e =
        none_of _ (lookup-retain_absent k (is_live now) d (ground (arith, u, lookup-same j k d, e)))

-- What the sessions are at a time, as the map from tokens that the interface promises.
abbrev pub View : Type 0
View = Text → Option Session

-- A use of the store, with the time at which it looks at the clock first and, for a creation, then.
pub data Use : Type 0 where
  created : ℕ → ℕ → Text → Text → ℕ → Use
  found : ℕ → Text → Use
  removed : Text → Use
  cleaned : ℕ → Use

-- The uses of the store, one after another, and what they find.
unfoldable pub answers : List Use → SessionStore → List (Option Session)
answers [] store = []
answers (created first now token csrf_token ttl ∷ us) store =
    answers us ((create first now token csrf_token ttl store).0)
answers (found now token ∷ us) store =
    (get now token store).1 ∷ answers us ((get now token store).0)
answers (removed token ∷ us) store = answers us (remove token store)
answers (cleaned now ∷ us) store = answers us (cleanup_expired now store)

-- The same of a map that nothing is cleaned out of.
unfoldable pub view_answers : List Use → View → List (Option Session)
view_answers [] v = []
view_answers (created first now token csrf_token ttl ∷ us) v = view_answers us (λ k.
    if text_eq token k
    then some (record { token = token; csrf_token = csrf_token; expires_at = now + ttl })
    else v k)
view_answers (found now token ∷ us) v = still_live now (v token) ∷ view_answers us v
view_answers (removed token ∷ us) v = view_answers us (λ k. if text_eq token k then none else v k)
view_answers (cleaned now ∷ us) v = view_answers us v

-- The clock does not run backwards.
abbrev pub in_order : ℕ → List Use → Bool
in_order from [] = true
in_order from (created first now token csrf_token ttl ∷ us) = leb from first && in_order first us
in_order from (found now token ∷ us) = leb from now && in_order now us
in_order from (removed token ∷ us) = in_order from us
in_order from (cleaned now ∷ us) = leb from now && in_order now us

-- The store shows the map to whoever looks from a time on.
record Shows (from : ℕ) (store : SessionStore) (v : View) : Type 0 where
  pub unique : uniq store.sessions ≡ true
  pub shown :
      (later : ℕ) (k : Text)
      → from ≤ later
      → still_live later (lookup k store.sessions) ≡ still_live later (v k)

cleanup-Shows :
    (from now : ℕ) (store : SessionStore) (v : View)
    → from ≤ now
    → Shows from store v
    → Shows now (cleanup_expired now store) v
unfolding cleanup_expired
cleanup-Shows from now store v h w = record {
  unique = uniq-retain (is_live now) store.sessions w.unique;
  shown = λ later k l.
      still_live-retain now later k store.sessions l w.unique
      ∙ w.shown later k (omega (arith, h, l));
}

create-Shows :
    (from now : ℕ) (token : Text) (s : Session) (store : SessionStore) (v : View)
    → Shows from store v
    → Shows from
        (record store { sessions = insert token s store.sessions })
        (λ k. if text_eq token k then some s else v k)
create-Shows from now token s store v w = record {
  unique = uniq-insert token s store.sessions w.unique;
  shown = λ later k l. elim (Bool-cases (text_eq token k)) [
    | inl e ↦ rw (lookup-insert token k s store.sessions, e) refl
    | inr e ↦ rw (lookup-insert token k s store.sessions, e) (w.shown later k l)
  ];
}

remove-Shows :
    (from : ℕ) (token : Text) (store : SessionStore) (v : View)
    → Shows from store v
    → Shows from (remove token store) (λ k. if text_eq token k then none else v k)
unfolding remove
remove-Shows from token store v w = record {
  unique = uniq-remove token store.sessions w.unique;
  shown = λ later k l. elim (Bool-cases (text_eq token k)) [
    | inl e ↦ rw (lookup-remove token k store.sessions, e) refl
    | inr e ↦ rw (lookup-remove token k store.sessions, e) (w.shown later k l)
  ];
}

answers-Shows :
    (from : ℕ) (us : List Use) (store : SessionStore) (v : View)
    → in_order from us ≡ true
    → Shows from store v
    → answers us store ≡ view_answers us v
unfolding answers view_answers create get
answers-Shows from [] store v h w = refl
answers-Shows from (created first now token csrf_token ttl ∷ us) store v h w =
    answers-Shows first us _ _ (ground (arith, h))
      (create-Shows first now token _ _ v (cleanup-Shows from first store v (ground (arith, h)) w))
answers-Shows from (found now token ∷ us) store v h w =
    ap (λ o. o ∷ answers us (cleanup_expired now store)) (cleaned_up.shown now token (omega arith))
    ∙ ap (λ l. still_live now (v token) ∷ l)
        (answers-Shows now us (cleanup_expired now store) v (ground (arith, h)) cleaned_up)
  where
    cleaned_up : Shows now (cleanup_expired now store) v
    cleaned_up = cleanup-Shows from now store v (ground (arith, h)) w
answers-Shows from (removed token ∷ us) store v h w =
    answers-Shows from us _ _ h (remove-Shows from token store v w)
answers-Shows from (cleaned now ∷ us) store v h w =
    answers-Shows now us _ _ (ground (arith, h))
      (cleanup-Shows from now store v (ground (arith, h)) w)

-- From an empty store and while the clock does not run backwards, creations, look-ups, removals and
-- clean-ups find what they would find in a map that nothing is cleaned out of, where a session that
-- has expired is not found.
pub answers-eq-view_answers :
    (us : List Use) (attempts : Dict (ℕ × ℕ))
    → in_order 0 us ≡ true
    → answers us (record { sessions = []; attempts = attempts }) ≡ view_answers us (λ k. none)
unfolding lookup
answers-eq-view_answers us attempts h =
    answers-Shows 0 us _ _ h (record { unique = refl; shown = λ later k l. refl })
