-- ===== src/Server/Admission.antt =====
-- What the server's login asks for (apps/idp-server/src/modules/auth/auth.service.ts).
use id_provider.Base.{
  some, ℕ, suc, ◌≡◌, ◌≢◌, refl, sym, ap, ◌∙◌, inl, inr, Bool, true, false, not, ◌&&◌, String,
  Option, ◌∷◌, is_none, Bool-cases, arith, if◌then◌else◌,
}
use id_provider.Store.{UserSession, World, Action, Failure, ok, raise, ◌>>=◌}
use id_provider.Base.Json.{Fields}
use id_provider.Store.Laws.{>>=_path, pure-eq-ok}
use id_provider.Auth.Event.{opaque_token}
use id_provider.Auth.Session.{new_session}
use id_provider.Server.Settings.{ServerEnv, env_of}
use id_provider.Server.Rate.{given}
use id_provider.Server.Risk.{Risk}
use id_provider.Server.Factor.{enforce_mfa_for_login}
use id_provider.Server.Login.{
  LoginInput, LoginResult, Tokens, logged_in, is_high, is_medium, complete_login, login_assessed,
  security_event, risk_payload,
}
use id_provider.Server.Check.{enforce_mfa_for_login-sessions}

module _ (e : ServerEnv) where
  -- what a login that gets this far and returns has done
  complete_login-ok :
      (input : LoginInput) (user_id : ℕ) (agent : Option String) (mfa : Bool) (risk : Risk)
      (w : World) (r : LoginResult)
      → (complete_login e input user_id agent mfa risk w).0 ≡ ok r
      → (s : UserSession) × (tokens : Tokens) × (r ≡ logged_in user_id tokens mfa risk)
        × (s.user_id ≡ user_id)
        × ((complete_login e input user_id agent mfa risk w).1.db.sessions ≡ s ∷ w.db.sessions)
  unfolding complete_login ◌>>=◌
  complete_login-ok input user_id agent mfa risk w r h =
      let s =
        new_session (env_of e) user_id input.ip_address agent w.draws (suc w.draws)
          (suc (suc w.draws)) in
      let tokens : Tokens = record {
        access_token = opaque_token (env_of e) "at" w.draws;
        refresh_token = opaque_token (env_of e) "rt" (suc w.draws);
      } in
      (s, tokens, ground arith, refl, ground arith)

  -- What holds when a session has been created below the assessment of the risk.
  pub record Admitted (input : LoginInput) (user_id : ℕ) (mfa : Bool) (risk : Risk) (w w' : World)
      : Type 0 where
    pub not_high : is_high risk.level ≡ false
    pub not_medium : (is_medium risk.level && (not mfa && e.require_for_medium)) ≡ false
    pub checked :
        mfa ≡ true
        → (b : Bool) × ((enforce_mfa_for_login e user_id input.ip_address input.mfa w).0 ≡ ok b)
    pub session : UserSession
    pub owner : session.user_id ≡ user_id
    pub added : w'.db.sessions ≡ session ∷ w.db.sessions

  event_raises :
      (event_type : String) (user_id : Option ℕ) (payload : Fields) (f : Failure) (w : World)
      (r : LoginResult)
      → ((security_event event_type user_id payload >>= λ _. raise f) w).0 ≢ ok r
  unfolding security_event ◌>>=◌
  event_raises event_type user_id payload f w r h = cc

  module _ (input : LoginInput) (u : ℕ) (tk : Tokens) (m : Bool) (rk : Risk) where
    assessed_result :
        (user_id : ℕ) (agent : Option String) (mfa : Bool) (risk : Risk) (w : World)
        → (complete_login e input user_id agent mfa risk w).0 ≡ ok (logged_in u tk m rk)
        → (u ≡ user_id)
          × (m ≡ mfa)
          × (rk ≡ risk)
          × (s : UserSession) × (s.user_id ≡ user_id)
          × ((complete_login e input user_id agent mfa risk w).1.db.sessions ≡ s ∷ w.db.sessions)
    assessed_result user_id agent mfa risk w h =
        let (s, tokens, r, owner, added) = complete_login-ok input user_id agent mfa risk w _ h in
        (ground arith, ground arith, ground arith, s, owner, added)

    -- the check of the second factor, where there is one, and the session
    abbrev checked_login : ℕ → Option String → Bool → Risk → Action LoginResult
    checked_login user_id agent mfa risk =
        if mfa
        then (enforce_mfa_for_login e user_id input.ip_address input.mfa >>= λ checked.
            complete_login e input user_id agent mfa risk)
        else complete_login e input user_id agent mfa risk

    checked_result :
        (user_id : ℕ) (agent : Option String) (mfa : Bool) (risk : Risk) (w : World)
        → (checked_login user_id agent mfa risk w).0 ≡ ok (logged_in u tk m rk)
        → (u ≡ user_id)
          × (m ≡ mfa)
          × (rk ≡ risk)
          × (mfa ≡ true
              → (b : Bool) × ((enforce_mfa_for_login e user_id input.ip_address input.mfa w).0
                  ≡ ok b))
          × (s : UserSession) × (s.user_id ≡ user_id)
          × ((checked_login user_id agent mfa risk w).1.db.sessions ≡ s ∷ w.db.sessions)
    checked_result user_id agent true risk w h =
        let enforce = enforce_mfa_for_login e user_id input.ip_address input.mfa in
        let (b, w1, p, q) =
          >>=_path enforce (λ checked. complete_login e input user_id agent true risk) w h in
        let (a1, a2, a3, s, owner, added) =
          assessed_result user_id agent true risk w1 (ap (λ r. r.0) (sym q) ∙ h) in
        let same =
          ap (λ r. r.1.db.sessions) (sym p)
          ∙ enforce_mfa_for_login-sessions e user_id input.ip_address input.mfa w in
        (
          a1,
          a2,
          a3,
          λ t. (b, ap (λ r. r.0) p),
          s,
          owner,
          ap (λ r. r.1.db.sessions) q ∙ (added ∙ ap (λ ss. s ∷ ss) same),
        )
    checked_result user_id agent false risk w h =
        let (a1, a2, a3, s, owner, added) = assessed_result user_id agent false risk w h in
        (a1, a2, a3, λ t. cc, s, owner, added)

    pub login_assessed-Admitted :
        (user_id : ℕ) (agent : Option String) (mfa : Bool) (risk : Risk) (w : World)
        → (login_assessed e input user_id agent mfa risk w).0 ≡ ok (logged_in u tk m rk)
        → (u ≡ user_id)
          × (m ≡ mfa)
          × (rk ≡ risk)
          × Admitted input user_id mfa risk w (login_assessed e input user_id agent mfa risk w).1
    unfolding login_assessed
    login_assessed-Admitted user_id agent mfa risk w h =
        let high_test = is_high risk.level in
        let medium_test = is_medium risk.level && (not mfa && e.require_for_medium) in
        let bare =
          mfa
          && (is_none (given input.mfa.mfa_code) && is_none (given input.mfa.mfa_recovery_code)) in
        elim (Bool-cases high_test) [
          | inl t ↦ absurd (
              event_raises "adaptive_mfa.blocked" (some user_id) (risk_payload input risk) _ w _
                (rw t at h))
          | inr nh ↦ elim (Bool-cases medium_test) [
            | inl t ↦ absurd (
                event_raises "adaptive_mfa.enrollment_required" (some user_id)
                  (risk_payload input risk) _ w _ (rw (nh, t) at h))
            | inr nm ↦ elim (Bool-cases bare) [
              | inl t ↦ let h' = rw (nh, nm, t) at h in let q = pure-eq-ok _ _ w h' in cc
              | inr nb ↦
                  let p : login_assessed e input user_id agent mfa risk w
                      ≡ checked_login user_id agent mfa risk w =
                    rw (nh, nm, nb) refl in
                  let (a1, a2, a3, c, s, owner, added) =
                    checked_result user_id agent mfa risk w (ap (λ r. r.0) (sym p) ∙ h) in
                  (
                    a1,
                    a2,
                    a3,
                    record {
                      not_high = nh;
                      not_medium = nm;
                      checked = c;
                      session = s;
                      owner = owner;
                      added = ap (λ r. r.1.db.sessions) p ∙ added;
                    },
                  )
            ]
          ]
        ]
