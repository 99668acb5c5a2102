-- ===== src/Auth/Rotation.antt =====
-- A session is rotated so that its new tokens work and its old one does not
-- (`refresh` of packages/auth-core/src/auth-service.ts).
use id_provider.Base.{
  ℕ, ◌<◌, suc, ◌≡◌, refl, sym, ap, ◌∙◌, ◌≢◌, Bool, true, false, not, ◌&&◌, ◌||◌, String, str_eq,
  eq_iff, eq_refl, some, All, any, find, update, arith, inl, inr, Bool-cases, Option-cases,
}
use id_provider.Base.Unique.{
  All-map, All-update_rows, any-eq-false, find_sound, find-none, find-any, find_only, find_updated,
}
use id_provider.Store.{UserSession, World, ok, err, unique_violation, ◌>>=◌}
use id_provider.Store.Env.{Env, at_time}
use id_provider.Store.Laws.{ok_injective}
use mathlib.Core.Bool.{false≢true}
use id_provider.Auth.Event.{hash_token, opaque_token}
use id_provider.Auth.Session.{
  bundle, authenticate, accepts, refreshes, rotate, is_rotated, rotation_clash, access_expiry,
  refresh, Refreshed,
}
use id_provider.Auth.Revocation.{refresh_refused, refresh_failure}
use id_provider.Auth.Invariant.{IsWellFormed}
use id_provider.Auth.Creation.{principal, authenticate_found}

module _ (e : Env) (token : String) (w : World) where
  abbrev access_hash : String
  access_hash = hash_token e (opaque_token e "at" w.draws)

  abbrev refresh_hash : String
  refresh_hash = hash_token e (opaque_token e "rt" (suc w.draws))

  -- the state after `refresh` has rotated the session `s`
  abbrev refreshed : UserSession → World
  refreshed s = record w {
    db = record (w.db) {
      sessions =
          update (is_rotated s.id (hash_token e token)) (rotate e access_hash refresh_hash)
            w.db.sessions;
    };
    draws = suc (suc w.draws);
  }

  abbrev clashes : UserSession → Bool
  clashes s = rotation_clash s.id (hash_token e token) access_hash refresh_hash w.db

  found_is_rotated :
      (s : UserSession)
      → find (refreshes e.now (hash_token e token)) w.db.sessions ≡ some s
      → is_rotated s.id (hash_token e token) s ≡ true
  found_is_rotated s found =
      let t = find_sound (refreshes e.now (hash_token e token)) w.db.sessions s found in
      ground arith

  refresh_lem :
      (s : UserSession)
      → find (refreshes e.now (hash_token e token)) w.db.sessions ≡ some s
      → clashes s ≡ false
      → refresh e token w ≡ (
        ok (record {
          user_id = s.user_id;
          tokens = bundle e s.user_id w.draws (suc w.draws) (refreshed s).db;
        }),
        refreshed s,
      )
  unfolding refresh ◌>>=◌
  refresh_lem s found free =
      let hit =
        find-any (refreshes e.now (hash_token e token)) (is_rotated s.id (hash_token e token))
          w.db.sessions s found (found_is_rotated s found) in
      ground arith

  -- a refresh that meets a clash of hashes fails
  refresh_clash :
      (s : UserSession)
      → find (refreshes e.now (hash_token e token)) w.db.sessions ≡ some s
      → clashes s ≡ true
      → (refresh e token w).0 ≡ err unique_violation
  unfolding refresh ◌>>=◌
  refresh_clash s found clash = ground arith

  -- what a refresh that returns has found
  refresh_found :
      (r : Refreshed)
      → (refresh e token w).0 ≡ ok r
      → (s : UserSession) × (find (refreshes e.now (hash_token e token)) w.db.sessions ≡ some s)
        × (clashes s ≡ false)
  refresh_found r h =
      elim (Option-cases (find (refreshes e.now (hash_token e token)) w.db.sessions)) [
        | inl unknown ↦ cc (ap (λ r. r.0) (refresh_refused e token w unknown))
        | inr (s, found) ↦ elim (Bool-cases (clashes s)) [
          | inl clash ↦ cc (refresh_clash s found clash)
          | inr free ↦ (s, found, free)
        ]
      ]

  module _ (s : UserSession)
      (found : find (refreshes e.now (hash_token e token)) w.db.sessions ≡ some s)
      (valid : IsWellFormed w.db) where
    -- the update hits the row that was found, and no other
    rotated_only : All (λ x. is_rotated s.id (hash_token e token) x ≡ true → x ≡ s) w.db.sessions
    rotated_only =
        All-map (λ (x : UserSession). x.id ≡ s.id → x ≡ s)
          (λ x. is_rotated s.id (hash_token e token) x ≡ true → x ≡ s) (λ x o t. o (ground arith))
          w.db.sessions
          (find_only (λ (x : UserSession). x.id) (refreshes e.now (hash_token e token))
            w.db.sessions s valid.sessions.ids found)

    rotated_accepted :
        (now : ℕ)
        → now < access_expiry e
        → accepts now access_hash (rotate e access_hash refresh_hash s) ≡ true
    rotated_accepted now live =
        let t = find_sound (refreshes e.now (hash_token e token)) w.db.sessions s found in
        ground (arith, eq_refl access_hash)

    others_refused :
        (now : ℕ)
        → clashes s ≡ false
        → All
            (λ x.
              is_rotated s.id (hash_token e token) x ≡ false → accepts now access_hash x ≡ false)
            w.db.sessions
    others_refused now free =
        All-map
          (λ x.
            (not (is_rotated s.id (hash_token e token) x)
              && (str_eq x.access_token_hash access_hash
                  || str_eq x.refresh_token_hash refresh_hash))
            ≡ false)
          (λ x. is_rotated s.id (hash_token e token) x ≡ false → accepts now access_hash x ≡ false)
          (λ x n m. ground arith) w.db.sessions (any-eq-false _ w.db.sessions no_other)
      where
        hit : any (is_rotated s.id (hash_token e token)) w.db.sessions ≡ true
        hit =
            find-any (refreshes e.now (hash_token e token)) (is_rotated s.id (hash_token e token))
              w.db.sessions s found (found_is_rotated s found)

        no_other :
            any
              (λ x.
                not (is_rotated s.id (hash_token e token) x)
                && (str_eq x.access_token_hash access_hash
                    || str_eq x.refresh_token_hash refresh_hash))
              w.db.sessions
            ≡ false
        no_other = rw hit at free

    not_refreshed :
        (now : ℕ) (x : UserSession)
        → (x.refresh_token_hash ≡ s.refresh_token_hash → x ≡ s)
        → is_rotated s.id (hash_token e token) x ≡ false
        → refreshes now (hash_token e token) x ≡ false
    not_refreshed now x o n = elim (Bool-cases (str_eq x.refresh_token_hash (hash_token e token))) [
      | inl same ↦
          let t = found_is_rotated s found in
          let mine : str_eq s.refresh_token_hash (hash_token e token) ≡ true = ground arith in
          let h : x ≡ s = o (
            (eq_iff _ _).0 same
            ∙ sym ((eq_iff s.refresh_token_hash (hash_token e token)).0 mine)) in
          absurd (false≢true (sym n ∙ (rw h t)))
      | inr other ↦ rw other
    ]

    old_rows :
        (now : ℕ)
        → refresh_hash ≢ hash_token e token
        → All (λ x. refreshes now (hash_token e token) x ≡ false) (refreshed s).db.sessions
    old_rows now other =
        All-update_rows (λ x. refreshes now (hash_token e token) x ≡ false)
          (λ x. x.refresh_token_hash ≡ s.refresh_token_hash → x ≡ s)
          (is_rotated s.id (hash_token e token)) (rotate e access_hash refresh_hash)
          (λ x o t. ground (arith, eq_iff refresh_hash (hash_token e token)))
          (λ x o n. not_refreshed now x o n) w.db.sessions
          (find_only (λ (x : UserSession). x.refresh_token_hash)
            (refreshes e.now (hash_token e token)) w.db.sessions s valid.sessions.refresh_hashes
            found)

    -- the old refresh token is in no row any more, unless it has been drawn again
    old_refused :
        (now : ℕ)
        → refresh_hash ≢ hash_token e token
        → (refresh (at_time e now) token (refreshed s)).0 ≡ err (refresh_failure e token)
    old_refused now other =
        ap (λ r. r.0)
          (refresh_refused (at_time e now) token (refreshed s)
            (find-none (refreshes now (hash_token e token)) _ (old_rows now other)))

    refreshed-authenticate :
        (now : ℕ)
        → clashes s ≡ false
        → now < access_expiry e
        → (authenticate (at_time e now) (opaque_token e "at" w.draws) (refreshed s)).0
          ≡ ok (principal s.user_id s.id)
    refreshed-authenticate now free live =
        authenticate_found (at_time e now) (opaque_token e "at" w.draws) (refreshed s)
          (rotate e access_hash refresh_hash s)
          (find_updated (refreshes e.now (hash_token e token)) (accepts now access_hash)
            (is_rotated s.id (hash_token e token)) (rotate e access_hash refresh_hash) w.db.sessions
            s found (found_is_rotated s found) (rotated_accepted now live) rotated_only
            (others_refused now free))

-- From a well-formed database, a `refresh` that returns has found a live session with the refresh
-- token. The new access token authenticates as the same user and the same session at an instant
-- before its expiry, and the old refresh token is refused at any instant, with 401 unless the
-- listener throws another error at the security event, provided that its hash is not that of the
-- new one.
pub refresh_rotates :
    (e : Env) (token : String) (w : World) (r : Refreshed) (now later : ℕ)
    → IsWellFormed w.db
    → (refresh e token w).0 ≡ ok r
    → now < access_expiry e
    → hash_token e r.tokens.refresh_token ≢ hash_token e token
    → let w' = (refresh e token w).1 in
      (s : UserSession) × (find (refreshes e.now (hash_token e token)) w.db.sessions ≡ some s)
      × (r.user_id ≡ s.user_id)
      × ((authenticate (at_time e now) r.tokens.access_token w').0 ≡ ok (principal s.user_id s.id))
      × ((refresh (at_time e later) token w').0 ≡ err (refresh_failure e token))
refresh_rotates e token w r now later valid h live other =
    let (s, found, free) = refresh_found e token w r h in
    let eq = refresh_lem e token w s found free in
    let same : r ≡ record {
      user_id = s.user_id;
      tokens = bundle e s.user_id w.draws (suc w.draws) (refreshed e token w s).db;
    } =
      ok_injective (sym h ∙ ap (λ x. x.0) eq) in
    let other' : refresh_hash e token w ≢ hash_token e token = rw same at other in
    rw (eq, same)
      (
        s,
        found,
        refl,
        refreshed-authenticate e token w s found valid now free live,
        old_refused e token w s found valid later other',
      )
