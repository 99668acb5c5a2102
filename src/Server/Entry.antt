-- ===== src/Server/Entry.antt =====
-- A login of the server that returns a session (apps/idp-server/src/modules/auth/auth.service.ts).
use id_provider.Base.{
  ℕ, ◌≡◌, refl, sym, ap, ◌∙◌, inl, inr, Bool, true, false, not, ◌&&◌, String, str_eq, eq_iff,
  Option, none, some, ◌∷◌, is_some, Bool-cases, Option-cases, arith, if◌then◌else◌,
}
use id_provider.Store.{Database, UserSession, World, ok, ◌>>=◌}
use id_provider.Server.Settings.{ServerEnv, env_of}
use id_provider.Server.Rate.{given}
use id_provider.Server.Risk.{Risk, build_session_user_agent, assess_adaptive_risk}
use id_provider.Server.Factor.{has_enabled_mfa}
use id_provider.Store.Env.{Env}
use id_provider.Server.Login.{
  no_risk, LoginInput, Row, LoginResult, Tokens, logged_in, is_high, is_medium,
  find_with_password_by_email, verify_password, verified_row, login_assessed, login_verified,
  login_from, refuse_credentials, refuse_inactive, record_attempt, login,
}
use id_provider.Server.Check.{Accepted, enforce_mfa_for_login-ok}
use id_provider.Server.Admission.{login_assessed-Admitted}

verified_row-some :
    (e : Env) (password : String) (o : Option Row) (row : Row)
    → verified_row e password o ≡ some row
    → (o ≡ some row) × (verify_password e password row.password_hash ≡ true)
verified_row-some e password none row h = cc
verified_row-some e password (some r) row h =
    elim (Bool-cases (verify_password e password r.password_hash)) [
      | inl t ↦ let q : r ≡ row = ground arith in (ap some q, rw q at t)
      | inr f ↦ ground arith
    ]

module _ (e : ServerEnv) (input : LoginInput) where
  -- the risk that the login reads
  abbrev pub risk_in : ℕ → Database → Risk
  risk_in user_id d =
      if e.adaptive_mfa_enabled
      then assess_adaptive_risk e user_id input.ip_address
          (build_session_user_agent e input.user_agent input.device_id) d
      else no_risk

  login_verified_path :
      (row : Row) (w : World)
      → login_verified e input row w
        ≡ login_assessed e input row.user_id
            (build_session_user_agent e input.user_agent input.device_id)
            (has_enabled_mfa row.user_id w.db)
            (risk_in row.user_id w.db)
            w
  unfolding login_verified ◌>>=◌
  login_verified_path row w = refl

  -- the state after the attempt is recorded
  abbrev pub recorded : World → World
  recorded w = (record_attempt (env_of e) input true w).1

  recorded-db :
      (w : World)
      → ((recorded w).db.sessions ≡ w.db.sessions)
        × ((recorded w).db.factors ≡ w.db.factors)
        × ((recorded w).db.recovery_codes ≡ w.db.recovery_codes)
  unfolding record_attempt ◌>>=◌
  recorded-db w = (refl, refl, refl)

  -- a login that returns has passed the password and the status
  login_path :
      (w : World) (r : LoginResult)
      → (login e input w).0 ≡ ok r
      → (row : Row) × (find_with_password_by_email input.email w.db ≡ some row)
        × (verify_password (env_of e) input.password row.password_hash ≡ true)
        × (row.status ≡ "active")
        × ((is_some (given input.mfa.mfa_code) && is_some (given input.mfa.mfa_recovery_code))
            ≡ false)
        × (login e input w ≡ login_verified e input row (recorded w))
  unfolding login login_from record_attempt refuse_credentials refuse_inactive ◌>>=◌
  login_path w r h =
      let found = find_with_password_by_email input.email w.db in
      let conflict =
        is_some (given input.mfa.mfa_code) && is_some (given input.mfa.mfa_recovery_code) in
      elim (Bool-cases conflict) [
        | inl t ↦ let h' = rw t at h in cc
        | inr one ↦ elim (Option-cases (verified_row (env_of e) input.password found)) [
          | inl nobody ↦ let h' = rw (one, nobody) at h in cc
          | inr (row, verified) ↦ elim (Bool-cases (str_eq row.status "active")) [
            | inl active ↦
                let (f, v) = verified_row-some (env_of e) input.password found row verified in
                (
                  row,
                  f,
                  v,
                  (eq_iff row.status "active").0 active,
                  one,
                  rw (one, verified, active) refl,
                )
            | inr inactive ↦ let h' = rw (one, verified, inactive) at h in cc
          ]
        ]
      ]

  -- A login that returns a session was made with one method of a second factor at most, and with
  -- the password, under argon2, of an account that is active. The risk that is reported is the one
  -- assessed after the attempt was recorded; it is not high, and not medium where that requires a
  -- second factor and the account has none. If the account has a second factor in force, then a
  -- code fits the secret of one of its factors, or `consumeCode` has accepted a recovery code at a
  -- state with the same database. The login adds one session, of that account, and no other.
  pub login_admits :
      (w : World) (u : ℕ) (tk : Tokens) (m : Bool) (rk : Risk)
      → (login e input w).0 ≡ ok (logged_in u tk m rk)
      → let w1 = recorded w in
        (row : Row) × (find_with_password_by_email input.email w.db ≡ some row)
        × (verify_password (env_of e) input.password row.password_hash ≡ true)
        × (row.status ≡ "active")
        × ((is_some (given input.mfa.mfa_code) && is_some (given input.mfa.mfa_recovery_code))
            ≡ false)
        × (u ≡ row.user_id)
        × (rk ≡ risk_in row.user_id w1.db)
        × (is_high rk.level ≡ false)
        × ((is_medium rk.level && (not m && e.require_for_medium)) ≡ false)
        × (m ≡ has_enabled_mfa row.user_id w1.db)
        × (m ≡ true → Accepted e row.user_id input w1)
        × (s : UserSession) × (s.user_id ≡ row.user_id)
        × ((login e input w).1.db.sessions ≡ s ∷ w.db.sessions)
  login_admits w u tk m rk h =
      let (row, found, password, active, one_method, p) = login_path w (logged_in u tk m rk) h in
      let w1 = recorded w in
      let q = p ∙ login_verified_path row w1 in
      let mfa = has_enabled_mfa row.user_id w1.db in
      let risk = risk_in row.user_id w1.db in
      let (a, b, c, adm) =
        login_assessed-Admitted e input u tk m rk row.user_id
          (build_session_user_agent e input.user_agent input.device_id) mfa risk w1
          (ap (λ r. r.0) (sym q) ∙ h) in
      (
        row,
        found,
        password,
        active,
        one_method,
        a,
        c,
        ap (λ (r : Risk). is_high r.level) c ∙ adm.not_high,
        rw (c, b) adm.not_medium,
        b,
        λ t.
            let on : mfa ≡ true = sym b ∙ t in
            let (x, accepted) = adm.checked on in
            enforce_mfa_for_login-ok e row.user_id input w1 x on accepted,
        adm.session,
        adm.owner,
        ap (λ r. r.1.db.sessions) q ∙ (adm.added ∙ ap (λ ss. adm.session ∷ ss) (recorded-db w).0),
      )
