-- ===== src/Auth/Creation.antt =====
-- A new session works with its tokens, until they expire
-- (`createSession` of packages/auth-core/src/auth-service.ts).
use id_provider.Base.{
  ℕ, ◌<◌, suc, ◌≡◌, refl, true, false, String, eq_refl, Option, some, ◌∷◌, any, find, arith,
}
use id_provider.Store.{UserSession, World, ok, ◌>>=◌, has_user, same_session}
use id_provider.Store.Env.{Env, at_time}
use id_provider.Auth.Event.{hash_token, opaque_token}
use id_provider.Auth.Session.{
  create_session, new_session, bundle, authenticate, accepts, access_expiry, Principal,
}

abbrev pub principal : ℕ → ℕ → Principal
principal user_id session_id = record { user_id = user_id; session_id = session_id }

-- A query that finds a session returns it.
pub authenticate_found :
    (e : Env) (token : String) (w : World) (s : UserSession)
    → find (accepts e.now (hash_token e token)) w.db.sessions ≡ some s
    → (authenticate e token w).0 ≡ ok (principal s.user_id s.id)
unfolding authenticate ◌>>=◌
authenticate_found e token w s h = ground arith

-- the state after `createSession` has drawn three random values and written the row
abbrev pub created : Env → ℕ → Option String → Option String → World → World
created e user_id ip ua w = record w {
  db = record (w.db) {
    sessions =
        new_session e user_id ip ua w.draws (suc w.draws) (suc (suc w.draws)) ∷ w.db.sessions;
  };
  draws = suc (suc (suc w.draws));
}

module _ (e : Env) (user_id : ℕ) (ip ua : Option String) (w : World) where
  -- no session has the new id or one of the new hashes
  abbrev pub IsFresh : Type 0
  IsFresh =
      any (same_session (new_session e user_id ip ua w.draws (suc w.draws) (suc (suc w.draws))))
        w.db.sessions
      ≡ false

  pub create_session_lem :
      has_user user_id w.db ≡ true
      → IsFresh
      → create_session e user_id ip ua w ≡ (
        ok (bundle e user_id w.draws (suc w.draws) (created e user_id ip ua w).db),
        created e user_id ip ua w,
      )
  unfolding create_session ◌>>=◌
  create_session_lem known fresh = rw (fresh, known)

  created-authenticate :
      (now : ℕ)
      → now < access_expiry e
      → (authenticate (at_time e now) (opaque_token e "at" w.draws) (created e user_id ip ua w)).0
        ≡ ok (principal user_id (e.random_uuid (suc (suc w.draws))))
  created-authenticate now live =
      authenticate_found (at_time e now) (opaque_token e "at" w.draws) (created e user_id ip ua w)
        (new_session e user_id ip ua w.draws (suc w.draws) (suc (suc w.draws)))
        (ground (arith, eq_refl (hash_token e (opaque_token e "at" w.draws))))

-- `createSession` for a user, when no session has the new id or a new hash, returns tokens, and the
-- access token authenticates as that user and as the new session, at every instant before its
-- expiry.
pub create_session-authenticate :
    (e : Env) (user_id now : ℕ) (ip ua : Option String) (w : World)
    → has_user user_id w.db ≡ true
    → IsFresh e user_id ip ua w
    → now < access_expiry e
    → let (r, w') = create_session e user_id ip ua w in
      (r ≡ ok (bundle e user_id w.draws (suc w.draws) w'.db))
      × ((authenticate (at_time e now) (opaque_token e "at" w.draws) w').0
          ≡ ok (principal user_id (e.random_uuid (suc (suc w.draws)))))
create_session-authenticate e user_id now ip ua w known fresh live =
    rw (create_session_lem e user_id ip ua w known fresh)
      (refl, created-authenticate e user_id ip ua w now live)
