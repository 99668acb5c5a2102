-- ===== src/Server/Spending.antt =====
-- What becomes of a one-time token of the server (apps/idp-server/src/modules/auth/auth.service.ts).
use id_provider.Base.{
  ℕ, suc, ◌∷◌, ◌+◌, ◌*◌, ◌==◌, ltb, leb, ◌≡◌, refl, sym, ap, ◌∙◌, true, false, String, str_eq,
  eq_refl, Option, none, some, List, find, update, arith, inl, inr, Option-cases,
}
use id_provider.Base.Unique.{All-update_hit, find-none, find_sound}
use id_provider.Store.{OneTimeToken, User, UserEmail, World, Database, ok, err, api, ◌>>=◌}
use id_provider.Store.Env.{Env, at_time}
use id_provider.Auth.Event.{hash_token, opaque_token}
use id_provider.Auth.Password.{is_usable, consume, with_hash}
use id_provider.Server.Confirm.{
  find_by_email, find_by_id, active_user, request_password_reset, confirm_password_reset,
  confirm_email_verification, joined_user, new_token, issue_reset_token,
}

-- no token of the hash is in force after those in force have been consumed
spent_rows :
    (now later : ℕ) (hash : String) (ts : List OneTimeToken)
    → leb now later ≡ true
    → find (is_usable later hash) (update (is_usable now hash) (consume now) ts) ≡ none
spent_rows now later hash ts after = find-none (is_usable later hash) _ (
    All-update_hit (λ x. is_usable later hash x ≡ false) (is_usable now hash) (consume now)
      (λ x h. ground arith) (λ x h. ground arith) ts)

module _ (e : Env) (token : String) (w : World) where
  abbrev hash : String
  hash = hash_token e token

  confirm_password_reset-tokens :
      (new : String)
      → (confirm_password_reset e token new w).1.db.reset_tokens
        ≡ update (is_usable e.now hash) (consume e.now) w.db.reset_tokens
  unfolding confirm_password_reset ◌>>=◌
  confirm_password_reset-tokens new = ground arith

  confirm_email_verification-tokens :
      (confirm_email_verification e token w).1.db.verification_tokens
      ≡ update (is_usable e.now hash) (consume e.now) w.db.verification_tokens
  unfolding confirm_email_verification ◌>>=◌
  confirm_email_verification-tokens = ground arith

  confirm_password_reset_refused :
      (new : String)
      → find (is_usable e.now hash) w.db.reset_tokens ≡ none
      → (confirm_password_reset e token new w).0 ≡ err (api 400 "invalid_token")
  unfolding confirm_password_reset ◌>>=◌
  confirm_password_reset_refused new h = ground arith

  confirm_email_verification_refused :
      find (is_usable e.now hash) w.db.verification_tokens ≡ none
      → (confirm_email_verification e token w).0 ≡ err (api 400 "invalid_token")
  unfolding confirm_email_verification ◌>>=◌
  confirm_email_verification_refused h = ground arith

-- Whatever a password reset answers, a second one with the same token answers 400 at the same or any
-- later instant, for any new password.
pub confirm_password_reset_spends :
    (e : Env) (token new again : String) (w : World) (later : ℕ)
    → leb e.now later ≡ true
    → (confirm_password_reset
        (at_time e later)
        token
        again
        (confirm_password_reset e token new w).1).0
      ≡ err (api 400 "invalid_token")
confirm_password_reset_spends e token new again w later after =
    confirm_password_reset_refused (at_time e later) token (confirm_password_reset e token new w).1
      again
      (ap (find (is_usable later (hash_token e token)))
          (confirm_password_reset-tokens e token w new)
        ∙ spent_rows e.now later (hash_token e token) w.db.reset_tokens after)

-- Whatever the confirmation of an address answers, a second one with the same token answers 400 at
-- the same or any later instant.
pub confirm_email_verification_spends :
    (e : Env) (token : String) (w : World) (later : ℕ)
    → leb e.now later ≡ true
    → (confirm_email_verification
        (at_time e later)
        token
        (confirm_email_verification e token w).1).0
      ≡ err (api 400 "invalid_token")
confirm_email_verification_spends e token w later after =
    confirm_email_verification_refused (at_time e later) token
      (confirm_email_verification e token w).1
      (ap (find (is_usable later (hash_token e token)))
          (confirm_email_verification-tokens e token w)
        ∙ spent_rows e.now later (hash_token e token) w.db.verification_tokens after)

-- A password reset that returns was given a token in force of an active user, and gives the
-- passwords of this user the new hash and no other; the sessions stay as they were, so that none
-- is revoked.
pub confirm_password_reset_changes :
    (e : Env) (token new : String) (w : World)
    → (confirm_password_reset e token new w).0 ≡ ok tt
    → let w' = (confirm_password_reset e token new w).1 in
      (t : OneTimeToken) × (u : User) × (find
          (is_usable e.now (hash_token e token))
          w.db.reset_tokens
        ≡ some t)
      × (active_user (find_by_id t.user_id w.db) ≡ some u)
      × (w'.db.passwords
          ≡ update
              (λ p. p.user_id == t.user_id)
              (with_hash e.now (e.argon2_hash w.draws new))
              w.db.passwords)
      × (w'.db.sessions ≡ w.db.sessions)
unfolding confirm_password_reset ◌>>=◌
confirm_password_reset_changes e token new w h =
    elim (Option-cases (find (is_usable e.now (hash_token e token)) w.db.reset_tokens)) [
      | inl missing ↦ ground arith
      | inr (t, found) ↦ elim (Option-cases (active_user (find_by_id t.user_id w.db))) [
        | inl missing ↦ ground arith
        | inr (u, active) ↦ (t, u, found, active, ground arith, ground arith)
      ]
    ]

joined_user-found :
    (d : Database) (m : Option UserEmail) (u : User)
    → joined_user d m ≡ some u
    → find_by_id u.id d ≡ some u
joined_user-found d none u h = cc
joined_user-found d (some m) u h =
    let same = find_sound (λ (x : User). x.id == m.user_id) d.users u h in
    let e : u.id ≡ m.user_id = ground (arith, same) in
    ap (λ n. find (λ (x : User). x.id == n) d.users) e ∙ h

issue_reset_token_lem :
    (e : Env) (u : User) (token : String) (w : World)
    → (issue_reset_token e (some u) w).0 ≡ ok (some token)
    → let w' = (issue_reset_token e (some u) w).1 in
      let t = opaque_token e "pr" w.draws in
      (t ≡ token)
      × (w'.db.reset_tokens ≡ new_token e u.id t (suc w.draws) ∷ w.db.reset_tokens)
      × (w'.db.users ≡ w.db.users)
unfolding issue_reset_token ◌>>=◌
issue_reset_token_lem e u token w h = (ground arith, ground arith, ground arith)

active_user_same : (v u : User) → active_user (some v) ≡ some u → v ≡ u
active_user_same v u h = ground arith

active_user-joined_user :
    (d : Database) (m : Option UserEmail) (u : User)
    → active_user (joined_user d m) ≡ some u
    → active_user (find_by_id u.id d) ≡ some u
active_user-joined_user d m u active = elim (Option-cases (joined_user d m)) [
  | inl missing ↦ ground arith
  | inr (v, found) ↦
      let shown = ap active_user (sym found) ∙ active in
      let same : v ≡ u = active_user_same v u shown in
      ap active_user (joined_user-found d m u (found ∙ ap some same))
      ∙ (ap active_user (ap some (sym same)) ∙ shown)
]

-- what a request that returns a token has found and leaves
request_password_reset-issues :
    (e : Env) (email token : String) (w : World)
    → (request_password_reset e email w).0 ≡ ok (some token)
    → let d = (request_password_reset e email w).1.db in
      (u : User) × (id : ℕ) × (active_user (find_by_id u.id d) ≡ some u)
      × (d.reset_tokens ≡ new_token e u.id token id ∷ w.db.reset_tokens)
unfolding request_password_reset find_by_email ◌>>=◌
request_password_reset-issues e email token w h =
    elim (Option-cases
      (active_user (joined_user w.db (find (λ m. str_eq m.email email) w.db.emails)))) [
        | inl missing ↦
            let step : request_password_reset e email w ≡ (ok none, w) =
              ap (λ a. issue_reset_token e a w) missing in
            ground arith
        | inr (u, active) ↦
            let step : request_password_reset e email w ≡ issue_reset_token e (some u) w =
              ap (λ a. issue_reset_token e a w) active in
            let (same, added, users) =
              issue_reset_token_lem e u token w (ap (λ r. r.0) (sym step) ∙ h) in
            (
              u,
              suc w.draws,
              ap (λ r. active_user (find_by_id u.id r.1.db)) step
                  ∙ (ap (λ us. active_user (find (λ (x : User). x.id == u.id) us)) users
                      ∙ active_user-joined_user w.db (find (λ m. str_eq m.email email) w.db.emails)
                          u active),
              ap (λ r. r.1.db.reset_tokens) step
                  ∙ (added ∙ ap (λ t. new_token e u.id t (suc w.draws) ∷ w.db.reset_tokens) same),
            )
      ]

confirm_password_reset-ok :
    (e : Env) (token new : String) (w : World) (t : OneTimeToken) (u : User)
    → find (is_usable e.now (hash_token e token)) w.db.reset_tokens ≡ some t
    → active_user (find_by_id t.user_id w.db) ≡ some u
    → (confirm_password_reset e token new w).0 ≡ ok tt
unfolding confirm_password_reset ◌>>=◌
confirm_password_reset-ok e token new w t u found active = ground arith

-- A password reset with a token that was issued for an address returns, for any new password, if it
-- comes within the hour and nothing happens between.
pub request_password_reset-confirm_password_reset :
    (e : Env) (email token new : String) (w : World) (now : ℕ)
    → (request_password_reset e email w).0 ≡ ok (some token)
    → ltb now (e.now + 60 * 60 * 1000) ≡ true
    → (confirm_password_reset (at_time e now) token new (request_password_reset e email w).1).0
      ≡ ok tt
request_password_reset-confirm_password_reset e email token new w now h early =
    let w' = (request_password_reset e email w).1 in
    let (u, id, active, added) = request_password_reset-issues e email token w h in
    let t = new_token e u.id token id in
    let usable : is_usable now (hash_token e token) t ≡ true =
      rw (eq_refl (hash_token e token), early) refl in
    confirm_password_reset-ok (at_time e now) token new w' t u
      (ap (find (is_usable now (hash_token e token))) added ∙ rw usable refl) active
