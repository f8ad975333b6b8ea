-- ===== src/TokenManager/Laws.antt =====
-- What the state of src/credential/token_manager.rs says after a refresh.
use kiro_gateway.Common.{
  ℕ, ◌≡◌, refl, Bool, true, false, not, ◌&&◌, ◌||◌, List, [], ◌∷◌, is_some, none, some,
  Option-cases, Bool-cases, inl, inr,
}
use kiro_gateway.Common.Result.{Result, ok, err, Result-cases}
use kiro_gateway.Error.{AppError, to_string}
use kiro_gateway.Auth.{Credential, needs_refresh, is_api_key}
use kiro_gateway.TokenManager.{
  Manager, World, replace_credential, conclude, exchanged, refresh, ensure_fresh, started,
}

-- The state after a refresh that has run: it is over, and the last error is that of the answer.
abbrev pub Settled : Manager × Result (Unit {0}) AppError → Type 0
Settled (m, ok _) = (m.state.refreshing ≡ false) × (m.state.last_error ≡ none)
Settled (m, err e) = (m.state.refreshing ≡ false) × (m.state.last_error ≡ some (to_string e))

conclude-Settled :
    (w : World) (r : Result (Unit {0}) AppError) (m : Manager) → Settled (conclude w r m)
unfolding conclude
conclude-Settled w (err e) m = (refl, refl)
conclude-Settled w (ok _) m = elim (Option-cases (w.write)) [
  | inl e ↦ rw (e, conclude) (refl, refl)
  | inr (write, e) ↦ elim (Result-cases (write m.credential)) [
    | inl (f, e') ↦ rw (e, conclude) (rw e' (refl, refl))
    | inr (_, e') ↦ rw (e, conclude) (rw e' (refl, refl))
  ]
]

exchanged-Settled :
    (w : World) (m : Manager) (c : Credential) (r : Result (Unit {0}) AppError)
    → w.exchange m.credential ≡ some (c, r)
    → Settled (exchanged w m)
unfolding exchanged
exchanged-Settled w m c (ok x) e =
    rw (e, exchanged) (conclude-Settled w (ok tt) (replace_credential c m))
exchanged-Settled w m c (err f) e = rw (e, exchanged) (conclude-Settled w (err f) m)

-- A refresh that is needed and whose exchange answers before the timeout, with a credential or an
-- error, is over when it returns: the state does not say `refreshing`, and its last error is that
-- of the result, or none where the result is none.
pub refresh-Settled :
    (w : World) (m : Manager) (answer : Credential × Result (Unit {0}) AppError)
    → needs_refresh m.credential w.now m.early_secs ≡ true
    → w.exchange m.credential ≡ some answer
    → Settled (refresh w m)
unfolding refresh
refresh-Settled w m (c, r) needed answered =
    rw needed (elim (Bool-cases (is_api_key (m.credential.auth_method))) [
      | inl key ↦ rw key (conclude-Settled w (ok tt) (started w.attempted_at m))
      | inr other ↦ rw other (exchanged-Settled w (started w.attempted_at m) c r answered)
    ])

-- A caller of `ensure_fresh`: the time of its first check, and what its refresh meets.
abbrev pub Call : Type 0
Call = ℕ × World

-- The callers come one after another, as the refresh lock lets them through.
unfoldable pub ensure_fresh_all : List Call → Manager → Manager
unfolding ensure_fresh
ensure_fresh_all [] m = m
ensure_fresh_all ((checked, w) ∷ calls) m = ensure_fresh_all calls ((ensure_fresh checked w m).0)

-- Whether the call finds at both checks that the credential must be refreshed.
abbrev pub is_due : Credential → ℕ → Call → Bool
is_due c early (checked, w) = needs_refresh c checked early && needs_refresh c w.now early

-- Whether the server gives a credential no answer before the timeout.
abbrev pub is_silent : Credential → Call → Bool
is_silent c (checked, w) = not (is_some (w.exchange c))

-- What stays, and what the state says.
abbrev pub Stuck : Bool → Manager → Manager → Type 0
Stuck due m m' =
    (m'.credential ≡ m.credential)
    × ((m'.early_secs ≡ m.early_secs)
        × ((m'.state.last_error ≡ m.state.last_error)
            × ((m'.state.last_success ≡ m.state.last_success)
                × (m'.state.refreshing ≡ (m.state.refreshing || due)))))
