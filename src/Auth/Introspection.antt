-- ===== src/Auth/Introspection.antt =====
-- The two readers of an access token agree: `introspectToken` and `authenticateAccessToken`
-- (packages/auth-core/src/auth-service.ts).
use id_provider.Base.{
  ◌≡◌, sym, ap, ◌∙◌, Bool, true, false, String, str_eq, eq_iff, Option, none, some, List, [], ◌∷◌,
  All, find, arith, inl, inr, Bool-cases, Option-cases,
}
use id_provider.Base.Unique.{find_sound, find_only, All-map, find-none}
use id_provider.Store.{UserSession, World, Result, ok, err}
use id_provider.Store.Env.{Env}
use id_provider.Auth.Event.{hash_token}
use id_provider.Auth.Session.{
  authenticate, accepts, introspect, Introspection, inactive, active, is_live, Principal,
}
use id_provider.Auth.Revocation.{authenticate_refused}
use id_provider.Auth.Creation.{authenticate_found, principal}
use id_provider.Auth.Invariant.{IsWellFormed}

-- The principal that an introspection speaks of.
abbrev pub introspected : Introspection → Option Principal
introspected inactive = none
introspected (active user_id session_id expiry claims) = some (principal user_id session_id)

-- The result of `authenticateAccessToken`, without the reason of a refusal.
abbrev pub authenticated : Result Principal → Option Principal
authenticated (ok p) = some p
authenticated (err f) = none

-- a stronger test finds the row that the weaker one finds, if it holds there
find_stronger :
    {A : Type 0} (q p : A → Bool)
    → ((x : A) → q x ≡ false → p x ≡ false)
    → (xs : List A) (s : A) → find q xs ≡ some s
    → p s ≡ true
    → find p xs ≡ some s
find_stronger q p h [] s f t = cc
find_stronger q p h (x ∷ xs) s f t = elim (Bool-cases (q x)) [
  | inl y ↦ let e : x ≡ s = ground arith in rw (e, t)
  | inr n ↦ rw (h x n) (find_stronger q p h xs s (rw n at f) t)
]

find-none-All :
    {A : Type 0} (q : A → Bool) (xs : List A) → find q xs ≡ none → All (λ x. q x ≡ false) xs
find-none-All q [] f = tt
find-none-All q (x ∷ xs) f = elim (Bool-cases (q x)) [
  | inl y ↦ ground arith
  | inr n ↦ (n, find-none-All q xs (rw n at f))
]

module _ (e : Env) (token : String) (w : World) where
  abbrev carries : UserSession → Bool
  carries s = str_eq s.access_token_hash (hash_token e token)

  weaker : (x : UserSession) → carries x ≡ false → accepts e.now (hash_token e token) x ≡ false
  weaker x h = rw h

  introspected_live :
      (s : UserSession)
      → find carries w.db.sessions ≡ some s
      → is_live e.now s ≡ true
      → introspected (introspect e token w.db) ≡ some (principal s.user_id s.id)
  unfolding introspect
  introspected_live s found live = ground arith

  introspected_dead :
      (s : UserSession)
      → find carries w.db.sessions ≡ some s
      → is_live e.now s ≡ false
      → introspected (introspect e token w.db) ≡ none
  unfolding introspect
  introspected_dead s found dead = ground arith

  introspected_missing :
      find carries w.db.sessions ≡ none → introspected (introspect e token w.db) ≡ none
  unfolding introspect
  introspected_missing missing = ground arith

  agree_live :
      (s : UserSession)
      → find carries w.db.sessions ≡ some s
      → is_live e.now s ≡ true
      → introspected (introspect e token w.db) ≡ authenticated (authenticate e token w).0
  agree_live s found live =
      let c = find_sound carries w.db.sessions s found in
      let accepted =
        find_stronger carries (accepts e.now (hash_token e token)) weaker w.db.sessions s found
          (rw (c, live)) in
      introspected_live s found live
      ∙ sym (ap authenticated (authenticate_found e token w s accepted))

  agree_dead :
      (s : UserSession)
      → IsWellFormed w.db
      → find carries w.db.sessions ≡ some s
      → is_live e.now s ≡ false
      → introspected (introspect e token w.db) ≡ authenticated (authenticate e token w).0
  agree_dead s valid found dead =
      let c = find_sound carries w.db.sessions s found in
      let gone = find-none (accepts e.now (hash_token e token)) w.db.sessions (
        All-map (λ (x : UserSession). x.access_token_hash ≡ s.access_token_hash → x ≡ s)
          (λ x. accepts e.now (hash_token e token) x ≡ false) (λ x o. refused x o) w.db.sessions
          (find_only (λ (x : UserSession). x.access_token_hash) carries w.db.sessions s
            valid.sessions.access_hashes found)) in
      introspected_dead s found dead
      ∙ sym (ap (λ r. authenticated r.0) (authenticate_refused e token w gone))
    where
      refused :
          (x : UserSession)
          → (x.access_token_hash ≡ s.access_token_hash → x ≡ s)
          → accepts e.now (hash_token e token) x ≡ false
      refused x o = elim (Bool-cases (carries x)) [
        | inl y ↦
            let mine = find_sound carries w.db.sessions s found in
            let h : x ≡ s = o (
              (eq_iff x.access_token_hash (hash_token e token)).0 y
              ∙ sym ((eq_iff s.access_token_hash (hash_token e token)).0 mine)) in
            rw (y, h, dead)
        | inr n ↦ rw n
      ]

-- From a well-formed database, `introspectToken` reports a token as active exactly when
-- `authenticateAccessToken` accepts it at the same instant, and for the same user and session.
pub introspect-authenticate :
    (e : Env) (token : String) (w : World)
    → IsWellFormed w.db
    → introspected (introspect e token w.db) ≡ authenticated (authenticate e token w).0
introspect-authenticate e token w valid =
    elim (Option-cases (find (carries e token w) w.db.sessions)) [
      | inl missing ↦
          let gone = find-none (accepts e.now (hash_token e token)) w.db.sessions (
            All-map (λ x. carries e token w x ≡ false)
              (λ x. accepts e.now (hash_token e token) x ≡ false) (weaker e token w) w.db.sessions
              (find-none-All (carries e token w) w.db.sessions missing)) in
          introspected_missing e token w missing
          ∙ sym (ap (λ r. authenticated r.0) (authenticate_refused e token w gone))
      | inr (s, found) ↦ elim (Bool-cases (is_live e.now s)) [
        | inl live ↦ agree_live e token w s found live
        | inr dead ↦ agree_dead e token w s valid found dead
      ]
    ]
