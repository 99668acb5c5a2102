-- ===== src/Auth/Tokens.antt =====
-- One-time tokens work once: `confirmPasswordReset` and `confirmEmailVerification` (packages/auth-core/src/auth-service.ts).
use id_provider.Base.{
  ℕ, ◌==◌, ◌≡◌, sym, ap, ◌∙◌, true, false, not, ◌||◌, String, str_eq, eq_iff, none, some, List, All,
  find, update, arith, inl, inr, Bool-cases, Option-cases,
}
use id_provider.Base.Unique.{
  IsUnique, All-update_hit, All-update_rows, find_sound, find-none, find_only,
}
use id_provider.Store.{OneTimeToken, World, ok, err, api, ◌>>=◌}
use id_provider.Store.Env.{Env, at_time}
use id_provider.Auth.Event.{hash_token}
use id_provider.Auth.Session.{revoke}
use id_provider.Auth.Revoke.{is_open}
use id_provider.Auth.Password.{with_hash, confirm_password_reset, is_usable, consume}
use id_provider.Auth.Email.{confirm_email_verification, is_primary_of, verify}
use id_provider.Auth.Invariant.{IsWellFormed}
use id_provider.Auth.Credentials.{closed_rows}

-- the rows of a token table after the one that was found has been consumed
consumed_rows :
    (e : Env) (now : ℕ) (hash : String) (t : OneTimeToken) (ts : List OneTimeToken)
    → IsUnique (λ (x : OneTimeToken). x.token_hash) ts
    → find (is_usable e.now hash) ts ≡ some t
    → All (λ x. is_usable now hash x ≡ false) (update (λ x. x.id == t.id) (consume e.now) ts)
consumed_rows e now hash t ts unique found =
    All-update_rows (λ x. is_usable now hash x ≡ false) (λ x. x.token_hash ≡ t.token_hash → x ≡ t)
      (λ x. x.id == t.id) (consume e.now) (λ x o h. ground arith) (λ x o n. unused now x o n) ts
      (find_only (λ (x : OneTimeToken). x.token_hash) (is_usable e.now hash) ts t unique found)
  where
    mine : t.token_hash ≡ hash
    mine =
        let u = find_sound (is_usable e.now hash) ts t found in
        (eq_iff t.token_hash hash).0 (ground arith)

    unused :
        (now : ℕ) (x : OneTimeToken)
        → (x.token_hash ≡ t.token_hash → x ≡ t)
        → (x.id == t.id) ≡ false
        → is_usable now hash x ≡ false
    unused now x o n = elim (Bool-cases (str_eq x.token_hash hash)) [
      | inl same ↦
          let h : x ≡ t = o ((eq_iff x.token_hash hash).0 same ∙ sym mine) in
          let i : x.id ≡ t.id = ap (λ y. y.id) h in ground arith
      | inr other ↦ rw other
    ]

module _ (e : Env) (token new : String) (w : World) where
  abbrev hash : String
  hash = hash_token e token

  -- what a `confirmPasswordReset` that returns has found and leaves
  confirm_reset-db :
      (confirm_password_reset e token new w).0 ≡ ok tt
      → (t : OneTimeToken) × (find (is_usable e.now hash) w.db.reset_tokens ≡ some t)
        × ((confirm_password_reset e token new w).1.db.sessions
            ≡ update (is_open t.user_id) (revoke e.now) w.db.sessions)
        × ((confirm_password_reset e token new w).1.db.reset_tokens
            ≡ update (λ x. x.id == t.id) (consume e.now) w.db.reset_tokens)
        × ((confirm_password_reset e token new w).1.db.passwords
            ≡ update
                (λ p. p.user_id == t.user_id)
                (with_hash e.now (e.argon2_hash w.draws new))
                w.db.passwords)
  unfolding confirm_password_reset ◌>>=◌
  confirm_reset-db h = elim (Option-cases (find (is_usable e.now hash) w.db.reset_tokens)) [
    | inl missing ↦ ground arith
    | inr (t, found) ↦ (t, found, ground arith, ground arith, ground arith)
  ]

reset_refused :
    (e : Env) (token new : String) (w : World)
    → find (is_usable e.now (hash_token e token)) w.db.reset_tokens ≡ none
    → (confirm_password_reset e token new w).0 ≡ err (api 400 "invalid_reset_token")
unfolding confirm_password_reset ◌>>=◌
reset_refused e token new w h = ground arith

-- From a well-formed database, a `confirmPasswordReset` that returns has found a token in force.
-- Afterwards the token is refused at every instant, every session of its user is revoked, and the
-- password of the user, if there is one, has the new hash, while no other has changed.
pub confirm_password_reset_once :
    (e : Env) (token new again : String) (w : World) (now : ℕ)
    → IsWellFormed w.db
    → (confirm_password_reset e token new w).0 ≡ ok tt
    → let w' = (confirm_password_reset e token new w).1 in
      (t : OneTimeToken) × (find (is_usable e.now (hash_token e token)) w.db.reset_tokens ≡ some t)
      × ((confirm_password_reset (at_time e now) token again w').0
          ≡ err (api 400 "invalid_reset_token"))
      × All (λ s. is_open t.user_id s ≡ false) w'.db.sessions
      × (w'.db.passwords
          ≡ update
              (λ p. p.user_id == t.user_id)
              (with_hash e.now (e.argon2_hash w.draws new))
              w.db.passwords)
confirm_password_reset_once e token new again w now valid h =
    let w' = (confirm_password_reset e token new w).1 in
    let (t, found, sessions, tokens, passwords) = confirm_reset-db e token new w h in
    let consumed =
      consumed_rows e now (hash_token e token) t w.db.reset_tokens valid.resets.hashes found in
    let gone : find (is_usable now (hash_token e token)) w'.db.reset_tokens ≡ none =
      rw tokens (find-none (is_usable now (hash_token e token)) _ consumed) in
    (
      t,
      found,
      reset_refused (at_time e now) token again w' gone,
      rw sessions (closed_rows e t.user_id w.db.sessions),
      passwords,
    )

verification_refused :
    (e : Env) (token : String) (w : World)
    → find (is_usable e.now (hash_token e token)) w.db.verification_tokens ≡ none
    → (confirm_email_verification e token w).0 ≡ err (api 400 "invalid_verification_token")
unfolding confirm_email_verification ◌>>=◌
verification_refused e token w h = ground arith

confirm_email-db :
    (e : Env) (token : String) (w : World)
    → (confirm_email_verification e token w).0 ≡ ok tt
    → (t : OneTimeToken) × (find (is_usable e.now (hash_token e token)) w.db.verification_tokens
        ≡ some t)
      × ((confirm_email_verification e token w).1.db.emails
          ≡ update (is_primary_of t.user_id) verify w.db.emails)
      × ((confirm_email_verification e token w).1.db.verification_tokens
          ≡ update (λ x. x.id == t.id) (consume e.now) w.db.verification_tokens)
unfolding confirm_email_verification ◌>>=◌
confirm_email-db e token w h =
    elim (Option-cases (find (is_usable e.now (hash_token e token)) w.db.verification_tokens)) [
      | inl missing ↦ ground arith
      | inr (t, found) ↦ (t, found, ground arith, ground arith)
    ]

-- From a well-formed database, a `confirmEmailVerification` that returns has found a token in force.
-- Afterwards every primary address of its user is verified, and the token is refused at every
-- instant.
pub confirm_email_verification_once :
    (e : Env) (token : String) (w : World) (now : ℕ)
    → IsWellFormed w.db
    → (confirm_email_verification e token w).0 ≡ ok tt
    → let w' = (confirm_email_verification e token w).1 in
      (t : OneTimeToken) × (find (is_usable e.now (hash_token e token)) w.db.verification_tokens
        ≡ some t)
      × All (λ m. not (is_primary_of t.user_id m) || m.is_verified ≡ true) w'.db.emails
      × ((confirm_email_verification (at_time e now) token w').0
          ≡ err (api 400 "invalid_verification_token"))
confirm_email_verification_once e token w now valid h =
    let w' = (confirm_email_verification e token w).1 in
    let (t, found, emails, tokens) = confirm_email-db e token w h in
    let consumed =
      consumed_rows e now (hash_token e token) t w.db.verification_tokens valid.verifications.hashes
        found in
    let gone : find (is_usable now (hash_token e token)) w'.db.verification_tokens ≡ none =
      rw tokens (find-none (is_usable now (hash_token e token)) _ consumed) in
    (
      t,
      found,
      rw emails (
          All-update_hit (λ m. not (is_primary_of t.user_id m) || m.is_verified ≡ true)
            (is_primary_of t.user_id) verify (λ m k. ground arith) (λ m k. ground arith)
            w.db.emails),
      verification_refused (at_time e now) token w' gone,
    )
