-- ===== src/Auth/Credentials.antt =====
-- Passwords and closed accounts (packages/auth-core/src/auth-service.ts).
use id_provider.Base.{
  ℕ, ◌==◌, ◌≡◌, refl, ◌≢◌, true, false, String, none, some, List, ◌∷◌, All, find, update, arith,
  inl, inr, Bool-cases, Option-cases,
}
use id_provider.Base.Unique.{All-update_hit, find_sound, find-All, find-update}
use id_provider.Store.{UserSession, UserPassword, World, ok, err, ◌>>=◌}
use id_provider.Store.Env.{Env}
use id_provider.Auth.Event.{hash_token}
use id_provider.Auth.Session.{authenticate, accepts, refreshes, revoke, Principal, refresh}
use id_provider.Auth.Revoke.{is_open}
use id_provider.Auth.Password.{verify_current_password, change_password, with_hash}
use id_provider.Auth.Revocation.{authenticate_row, refresh_refused, refresh_failure, reuse_event}

-- `refresh` with a token that no live session has: the error, which is 401 unless the listener
-- throws another, undoes the row of the security event that was written before it. Only the
-- listener has seen the event.
pub refresh_unknown :
    (e : Env) (token : String) (w : World)
    → find (refreshes e.now (hash_token e token)) w.db.sessions ≡ none
    → refresh e token w
      ≡ (err (refresh_failure e token), record w { notified = reuse_event e token ∷ w.notified })
refresh_unknown = refresh_refused

-- A user whose sessions are all revoked: no access token authenticates as that user.
pub closed-authenticate :
    (e : Env) (user_id : ℕ) (token : String) (w : World) (p : Principal)
    → All (λ s. is_open user_id s ≡ false) w.db.sessions
    → (authenticate e token w).0 ≡ ok p
    → p.user_id ≢ user_id
closed-authenticate e user_id token w p closed h =
    let (s, found, owner, _) = authenticate_row e token w p h in
    let accepted = find_sound (accepts e.now (hash_token e token)) w.db.sessions s found in
    let shut =
      find-All (λ s. is_open user_id s ≡ false) (accepts e.now (hash_token e token)) w.db.sessions s
        closed found in
    ground arith

module _ (e : Env) (user_id : ℕ) where
  -- the revoking update leaves the user no open session
  pub closed_rows :
      (ss : List UserSession)
      → All (λ s. is_open user_id s ≡ false) (update (is_open user_id) (revoke e.now) ss)
  closed_rows ss =
      All-update_hit (λ s. is_open user_id s ≡ false) (is_open user_id) (revoke e.now)
        (λ s h. ground arith) (λ s h. h) ss

  -- a `changePassword` that returns: the sessions and the passwords that it leaves
  change_password-db :
      (current new : String) (w : World)
      → (change_password e user_id current new w).0 ≡ ok tt
      → ((change_password e user_id current new w).1.db.sessions
          ≡ update (is_open user_id) (revoke e.now) w.db.sessions)
        × ((change_password e user_id current new w).1.db.passwords
            ≡ update
                (λ p. p.user_id == user_id)
                (with_hash e.now (e.argon2_hash w.draws new))
                w.db.passwords)
        × ((p : UserPassword) × (find (λ p. p.user_id == user_id) w.db.passwords ≡ some p)
            × (e.argon2_verify p.password_hash current ≡ true))
  unfolding change_password ◌>>=◌
  change_password-db current new w h =
      elim (Option-cases (find (λ p. p.user_id == user_id) w.db.passwords)) [
        | inl missing ↦ ground arith
        | inr (p, found) ↦ elim (Bool-cases (e.argon2_verify p.password_hash current)) [
          | inl good ↦ (ground arith, ground arith, (p, found, good))
          | inr bad ↦ ground arith
        ]
      ]

  -- the password that a query finds after it has been set
  set_password-verify :
      (salt : ℕ) (new : String) (p : UserPassword) (w w' : World)
      → find (λ p. p.user_id == user_id) w.db.passwords ≡ some p
      → w'.db.passwords
        ≡ update
            (λ p. p.user_id == user_id)
            (with_hash e.now (e.argon2_hash salt new))
            w.db.passwords
      → e.argon2_verify (e.argon2_hash salt new) new ≡ true
      → (verify_current_password e user_id new w').0 ≡ ok tt
  unfolding verify_current_password ◌>>=◌
  set_password-verify salt new p w w' found same good =
      let found' =
        find-update (λ p. p.user_id == user_id) (with_hash e.now (e.argon2_hash salt new))
          (λ x. refl) w.db.passwords p found in
      rw (same, found', good)

-- A `changePassword` that returns was given the password in force. Afterwards
-- `verifyCurrentPassword` accepts the new password, if argon2 accepts it against its own hash, and
-- every session of the user is revoked.
pub change_password_replaces :
    (e : Env) (user_id : ℕ) (current new : String) (w : World)
    → (change_password e user_id current new w).0 ≡ ok tt
    → e.argon2_verify (e.argon2_hash w.draws new) new ≡ true
    → let w' = (change_password e user_id current new w).1 in
      ((verify_current_password e user_id current w).0 ≡ ok tt)
      × ((verify_current_password e user_id new w').0 ≡ ok tt)
      × All (λ s. is_open user_id s ≡ false) w'.db.sessions
unfolding verify_current_password ◌>>=◌
change_password_replaces e user_id current new w h good =
    let (sessions, passwords, (row, found, valid)) = change_password-db e user_id current new w h in
    (
      rw (found, valid),
      set_password-verify e user_id w.draws new row w (change_password e user_id current new w).1
          found passwords good,
      rw sessions (closed_rows e user_id w.db.sessions),
    )
