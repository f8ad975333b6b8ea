-- ===== src/Admin/Session/Laws.antt =====
-- How long a session of src/admin/session.rs is found, and how many logins its limit lets through.
use kiro_gateway.Common.{
  ℕ, ◌+◌, ◌-◌, ◌≤◌, ◌<◌, ◌≡◌, refl, ap, ◌∙◌, Bool, true, false, ◌&&◌, all, List, [], ◌∷◌, Option,
  none, some, ltb, leb, if◌then◌else◌, arith, lt→ltb, Bool-cases, inl, inr,
}
use Prim.Native.Nat.{min}
use kiro_gateway.Common.Text.{Text, text_eq, text_eq_iff}
use kiro_gateway.Common.Dict.{Dict, lookup, insert, retain, lookup-insert}
use kiro_gateway.Admin.Session.{
  Session, SessionStore, is_live, cleanup_expired, create, get, still_live, window, is_recent,
  entry, count_login, attempt, allow_login,
}

-- Keeping the live sessions keeps a live one.
still-retain :
    (now : ℕ) (key : Text) (v : Session) (d : Dict Session)
    → is_live now v ≡ true
    → lookup key d ≡ some v
    → lookup key (retain (is_live now) d) ≡ some v
unfolding lookup retain
still-retain now key v [] h k = k
still-retain now key v ((j, w) ∷ d) h k = ground (arith, h, k, still-retain now key v d h)

-- A session that is created is found under its token at every time before it expires.
pub still_live-create :
    (cleaned now later : ℕ) (token csrf_token : Text) (ttl : ℕ) (store : SessionStore)
    → later < now + ttl
    → (get later token ((create cleaned now token csrf_token ttl store).0)).1
      ≡ some ((create cleaned now token csrf_token ttl store).1)
unfolding get create cleanup_expired
still_live-create cleaned now later token csrf_token ttl store h =
    ap (still_live later) (
      still-retain later token made _ (lt→ltb later (now + ttl) h) (
        lookup-insert token token made (retain (is_live cleaned) store.sessions)
        ∙ found _ (text_eq token token) ((text_eq_iff token token).1 refl)))
    ∙ found none (ltb later (now + ttl)) (lt→ltb later (now + ttl) h)
  where
    made : Session
    made = record { token = token; csrf_token = csrf_token; expires_at = now + ttl }

    found : (o : Option Session) (b : Bool) → b ≡ true → (if b then some made else o) ≡ some made
    found o b h = rw (h) refl

-- A call of `allow_login`.
pub record Login : Type 0 where
  pub cleaned : ℕ
  pub now : ℕ
  pub key : Text

-- The number of logins with a key that a run of calls lets through, and that of the calls.
abbrev pub count_if : Bool → ℕ → ℕ
count_if b n = if b then n + 1 else n

unfoldable pub allowed : ℕ → Text → List Login → SessionStore → ℕ
allowed limit key [] store = 0
allowed limit key (l ∷ ls) store =
    let (store', passed) = allow_login l.cleaned l.now l.key limit store in
    count_if (passed && text_eq l.key key) (allowed limit key ls store')

unfoldable pub calls : Text → List Login → ℕ
calls key [] = 0
calls key (l ∷ ls) = count_if (text_eq l.key key) (calls key ls)

-- Calls within 60 seconds from a time.
abbrev pub is_within : ℕ → Login → Bool
is_within start l = leb start l.now && ltb l.now (start + window)

-- An entry that was started from then on and keeps the limit.
abbrev is_open : ℕ → ℕ → Text × (ℕ × ℕ) → Bool
is_open start limit (key, (started, count)) = leb start started && leb count limit

retain-recent :
    (start limit now : ℕ) (d : Dict (ℕ × ℕ))
    → now < start + window
    → all (is_open start limit) d ≡ true
    → retain (is_recent now) d ≡ d
unfolding retain
retain-recent start limit now [] h k = refl
retain-recent start limit now ((key, (started, count)) ∷ d) h k =
    rw (recent, retain-recent start limit now d h (ground (arith, k))) refl
  where
    recent : ltb (now - started) window ≡ true
    recent = ground (arith, h, k)

-- The count of an entry.
abbrev counted : Option (ℕ × ℕ) → ℕ
counted none = 0
counted (some (started, count)) = count

insert-is_open :
    (start limit : ℕ) (key : Text) (e : ℕ × ℕ) (d : Dict (ℕ × ℕ))
    → is_open start limit (key, e) ≡ true
    → all (is_open start limit) d ≡ true
    → all (is_open start limit) (insert key e d) ≡ true
unfolding insert
insert-is_open start limit key e [] h k = ground (arith, h)
insert-is_open start limit key e ((j, w) ∷ d) h k =
    ground (arith, h, k, insert-is_open start limit key e d h)

-- What an attempt starts from.
abbrev entry_of : ℕ → Option (ℕ × ℕ) → ℕ × ℕ
entry_of now none = (now, 0)
entry_of now (some e) = e

lookup-entry :
    (start limit now : ℕ) (key : Text) (d : Dict (ℕ × ℕ))
    → leb start now ≡ true
    → ltb now (start + window) ≡ true
    → all (is_open start limit) d ≡ true
    → (entry now (lookup key d) ≡ entry_of now (lookup key d))
      × (is_open start limit (key, entry_of now (lookup key d)) ≡ true)
unfolding lookup
lookup-entry start limit now key [] h k l = (refl, ground (arith, h))
lookup-entry start limit now key ((j, (started, count)) ∷ d) h k l =
    elim (Bool-cases (text_eq j key)) [
      | inl t ↦ rw (t) (rw (young) refl, ground (arith, l))
      | inr t ↦ rw (t) (lookup-entry start limit now key d h k (ground (arith, l)))
    ]
  where
    young : leb window (now - started) ≡ false
    young = ground (arith, h, k, l)

-- The counts after an entry is written.
counted-insert :
    (key j : Text) (started n : ℕ) (d : Dict (ℕ × ℕ))
    → counted (lookup j (insert key (started, n) d))
      ≡ (if text_eq key j then n else counted (lookup j d))
counted-insert key j started n d = elim (Bool-cases (text_eq key j)) [
  | inl t ↦ rw (lookup-insert key j (started, n) d, t) refl
  | inr t ↦ rw (lookup-insert key j (started, n) d, t) refl
]

-- What an attempt of a time from then on does: whether it passes, the counts that it leaves and
-- that the entries stay open.
record Attempted (start limit : ℕ) (key : Text) (d : Dict (ℕ × ℕ)) (after : Dict (ℕ × ℕ))
    (passed : Bool) : Type 0 where
  pub passes : passed ≡ ltb (counted (lookup key d)) limit
  pub opens : all (is_open start limit) after ≡ true
  pub counts :
      (j : Text)
      → counted (lookup j after) ≡ count_if (passed && text_eq key j) (counted (lookup j d))

count_login-Attempted :
    (start limit : ℕ) (key : Text) (started count : ℕ) (d : Dict (ℕ × ℕ))
    → is_open start limit (key, (started, count)) ≡ true
    → count ≡ counted (lookup key d)
    → all (is_open start limit) d ≡ true
    → Attempted start limit key d
        ((count_login limit key (started, count) d).0)
        ((count_login limit key (started, count) d).1)
unfolding count_login
count_login-Attempted start limit key started count d h c k = elim (Bool-cases (leb limit count)) [
  | inl l ↦
      rw (l, count_login)
        (record {
          passes = ground (arith, l, c);
          opens = insert-is_open start limit key (started, count) d h k;
          counts = λ j. counted-insert key j started count d ∙ ground (arith, before j);
        })
  | inr l ↦
      rw (l, count_login)
        (record {
          passes = ground (arith, l, c);
          opens = insert-is_open start limit key (started, count + 1) d (ground (arith, h, l)) k;
          counts = λ j. counted-insert key j started (count + 1) d ∙ ground (arith, before j);
        })
]
  where
    before : (j : Text) → text_eq key j ≡ true → count ≡ counted (lookup j d)
    before j t = c ∙ ap (λ i. counted (lookup i d)) ((text_eq_iff key j).0 t)

attempt-Attempted :
    (start limit now : ℕ) (key : Text) (d : Dict (ℕ × ℕ))
    → leb start now ≡ true
    → ltb now (start + window) ≡ true
    → all (is_open start limit) d ≡ true
    → Attempted start limit key d ((attempt now key limit d).0) ((attempt now key limit d).1)
unfolding attempt
attempt-Attempted start limit now key d h k l =
    rw
      (
        retain-recent start limit now d (ground (arith, k)) l,
        (lookup-entry start limit now key d h k l).0,
      )
      (count_login-Attempted start limit key _ _ d (lookup-entry start limit now key d h k l).1
        (of (lookup key d)) l)
  where
    of : (o : Option (ℕ × ℕ)) → (entry_of now o).1 ≡ counted o
    of none = refl
    of (some e) = refl

-- One attempt, in numbers: `n` of the key before and `n'` after it, `m` of the attempt's key, and
-- what the calls after it add.
counts-step :
    (limit : ℕ) (eq passed : Bool) (n n' m more calls : ℕ)
    → n ≤ limit
    → passed ≡ ltb m limit
    → n' ≡ count_if (passed && eq) n
    → (eq ≡ true → m ≡ n)
    → (n' ≤ limit → more + n' ≡ min limit (calls + n'))
    → count_if (passed && eq) more + n ≡ min limit (count_if eq calls + n)
counts-step limit true true n n' m more calls c p e s ih =
    cs (s refl) (ih (ground (arith, c, p, e, s refl)))
  where
    cs : m ≡ n → more + n' ≡ min limit (calls + n') → more + 1 + n ≡ min limit (calls + 1 + n)
    cs t i = omega (arith, e, i)
counts-step limit true false n n' m more calls c p e s ih =
    cs (s refl) (ih (ground (arith, c, p, e, s refl)))
  where
    cs : m ≡ n → more + n' ≡ min limit (calls + n') → more + n ≡ min limit (calls + 1 + n)
    cs t i = ground (arith, c, e, p, i, t)
counts-step limit false true n n' m more calls c p e s ih =
    omega (arith, e, ih (omega (arith, c, e)))
counts-step limit false false n n' m more calls c p e s ih =
    omega (arith, e, ih (omega (arith, c, e)))

allowed-counted :
    (start limit : ℕ) (key : Text) (ls : List Login) (store : SessionStore)
    → all (is_within start) ls ≡ true
    → all (is_open start limit) store.attempts ≡ true
    → counted (lookup key store.attempts) ≤ limit
    → allowed limit key ls store + counted (lookup key store.attempts)
      ≡ min limit (calls key ls + counted (lookup key store.attempts))
unfolding allowed calls allow_login cleanup_expired
allowed-counted start limit key [] store h k c = omega (arith, c)
allowed-counted start limit key (l ∷ ls) store h k c =
    counts-step limit (text_eq l.key key) _ _ _ _ _ _ c a.passes (a.counts key) same
      (allowed-counted start limit key ls _ (ground (arith, h)) a.opens)
  where
    a :
        Attempted start limit l.key store.attempts
          ((attempt l.now l.key limit store.attempts).0)
          ((attempt l.now l.key limit store.attempts).1)
    a =
        attempt-Attempted start limit l.now l.key store.attempts (ground (arith, h))
          (ground (arith, h)) k

    same :
        text_eq l.key key ≡ true
        → counted (lookup l.key store.attempts) ≡ counted (lookup key store.attempts)
    same t = ap (λ i. counted (lookup i store.attempts)) ((text_eq_iff l.key key).0 t)

-- From a store without attempts, of calls within 60 seconds with a limit, as many logins with a key
-- pass as there are calls with it, and no more than the limit.
pub allowed_lem :
    (start limit : ℕ) (key : Text) (ls : List Login) (sessions : Dict Session)
    → all (is_within start) ls ≡ true
    → allowed limit key ls (record { sessions = sessions; attempts = [] })
      ≡ min limit (calls key ls)
unfolding lookup
allowed_lem start limit key ls sessions h = omega (
  arith,
  allowed-counted start limit key ls (record { sessions = sessions; attempts = [] }) h refl
      (omega arith),
)
