-- ===== src/Server/Check.antt =====
-- What a second factor that the server's login accepts has shown (apps/idp-server/src/modules/auth/auth.service.ts).
use id_provider.Base.{
  ℕ, ◌==◌, ◌≡◌, ◌⊎◌, refl, ap, ◌∙◌, inl, inr, Bool, true, false, not, ◌||◌, String, Option, none,
  some, find, Bool-cases, Option-cases, arith, if◌then◌else◌,
}
use id_provider.Store.{Database, World, Failure, ok, api, gets, pure, raise_if, ◌>>=◌}
use id_provider.Store.Laws.{>>=-eq-ok, >>=-keeps, pure-db}
use id_provider.Recovery.Service.{consume_code}
use id_provider.Recovery.Spent.{consume_code-cases}
use id_provider.Recovery.Batch.{mark_used}
use id_provider.Recovery.Recording.{record_use-kept}
use id_provider.Server.Settings.{ServerEnv, env_of}
use id_provider.Server.Rate.{consume, given}
use id_provider.Server.Limit.{is_allowed}
use id_provider.Server.Factor.{
  MfaInput, has_enabled_mfa, totp_secret, verify_mfa, rate_of_user, rate_of_ip, by_method,
  enforce_recovery_code, enforce_code, enforce_mfa_for_login,
}
use id_provider.Server.Login.{LoginInput}

module _ (e : ServerEnv) where
  -- `consumeCode` writes no session
  consume_code-sessions :
      (user_id : ℕ) (code : String) (w : World)
      → (consume_code e.recovery user_id code w).1.db.sessions ≡ w.db.sessions
  unfolding mark_used
  consume_code-sessions user_id code w = elim (consume_code-cases e.recovery user_id code w) [
    | inl refused ↦ ap (λ x. x.1.db.sessions) refused
    | inr (r, found, valid, p) ↦
        ap (λ x. x.1.db.sessions) p
        ∙ ap (λ x. x.1.0) (record_use-kept e.recovery user_id (mark_used e.recovery r.id w).1)
  ]

  -- the second factor that a check accepted, at a state with the same database
  abbrev pub Accepted : ℕ → LoginInput → World → Type 0
  Accepted user_id input w =
      ((factor_id : ℕ) × (code : String) × (secret : String) × (given input.mfa.mfa_code
          ≡ some code)
        × (totp_secret user_id (find (λ f. f.id == factor_id) w.db.factors) ≡ some secret)
        × ((env_of e).totp_check code secret ≡ true))
      ⊎ ((code : String) × (left : ℕ) × (w' : World) × (given input.mfa.mfa_recovery_code
            ≡ some code)
          × (w'.db ≡ w.db)
          × ((consume_code e.recovery user_id code w').0 ≡ ok left))

  enforce_code-ok :
      (user_id : ℕ) (input : LoginInput) (w : World)
      → (enforce_code e user_id (given input.mfa.mfa_code) input.mfa.mfa_factor_id w).0 ≡ ok tt
      → Accepted user_id input w
  unfolding enforce_code verify_mfa ◌>>=◌
  enforce_code-ok user_id input w h = elim (Option-cases (given input.mfa.mfa_code)) [
    | inl missing ↦ ground arith
    | inr (code, c) ↦ elim (Option-cases input.mfa.mfa_factor_id) [
      | inl missing ↦ ground arith
      | inr (id, f) ↦
          elim (Option-cases (totp_secret user_id (find (λ f. f.id == id) w.db.factors))) [
            | inl missing ↦ ground arith
            | inr (secret, held) ↦ inl (id, code, secret, c, held, ground arith)
          ]
    ]
  ]

  enforce_code-sessions :
      (user_id : ℕ) (code : Option String) (factor_id : Option ℕ) (w : World)
      → (enforce_code e user_id code factor_id w).1.db ≡ w.db
  unfolding enforce_code verify_mfa ◌>>=◌
  enforce_code-sessions user_id none factor_id w = refl
  enforce_code-sessions user_id (some code) none w = refl
  enforce_code-sessions user_id (some code) (some id) w = ground arith

  enforce_recovery_code-ok :
      (user_id : ℕ) (input : LoginInput) (code : String) (w : World)
      → given input.mfa.mfa_recovery_code ≡ some code
      → (enforce_recovery_code e user_id input.ip_address code w).0 ≡ ok tt
      → Accepted user_id input w
  unfolding enforce_recovery_code consume ◌>>=◌
  enforce_recovery_code-ok user_id input code w c h =
      let (a, w1) = rate_of_user e user_id w in
      let (b, w2) = rate_of_ip e input.ip_address w1 in
      let refused = not (is_allowed a) || not (is_allowed b) in
      elim (Bool-cases refused) [
        | inl too_many ↦ ground arith
        | inr in_time ↦
            let h' : ((consume_code e.recovery user_id code >>= λ left. pure tt) w2).0 ≡ ok tt =
              rw in_time at h in
            let (left, w3, p, q) =
              >>=-eq-ok (consume_code e.recovery user_id code) (λ left. pure tt) w2 h' in
            inr (code, left, w2, c, refl, ap (λ y. y.0) p)
      ]

  rate_of_user-sessions :
      (user_id : ℕ) (w : World) → (rate_of_user e user_id w).1.db.sessions ≡ w.db.sessions
  unfolding consume
  rate_of_user-sessions user_id w = refl

  rate_of_ip-sessions :
      (ip : Option String) (w : World) → (rate_of_ip e ip w).1.db.sessions ≡ w.db.sessions
  unfolding consume
  rate_of_ip-sessions ip w = refl

  gets-sessions : (f : Database → Bool) (w : World) → (gets f w).1.db.sessions ≡ w.db.sessions
  unfolding ◌>>=◌
  gets-sessions f w = refl

  raise_if-sessions :
      (c : Bool) (f : Failure) (w : World) → (raise_if c f w).1.db.sessions ≡ w.db.sessions
  unfolding ◌>>=◌
  raise_if-sessions c f w = refl

  enforce_recovery_code-sessions :
      (user_id : ℕ) (ip : Option String) (code : String) (w : World)
      → (enforce_recovery_code e user_id ip code w).1.db.sessions ≡ w.db.sessions
  unfolding enforce_recovery_code
  enforce_recovery_code-sessions user_id ip code w =
      let g = λ (d : Database). d.sessions in
      >>=-keeps g (rate_of_user e user_id) _ w (rate_of_user-sessions user_id w) (λ a w1.
        >>=-keeps g (rate_of_ip e ip) _ w1 (rate_of_ip-sessions ip w1) (λ b w2.
          >>=-keeps g (raise_if (not a.allowed || not b.allowed) (api 429 "rate_limited")) _ w2
            (raise_if-sessions _ _ w2)
            (λ x w3.
              >>=-keeps g (consume_code e.recovery user_id code) _ w3
                (consume_code-sessions user_id code w3) (λ n w4. ap g (pure-db tt w4)))))

  -- The check of a second factor, for a user who has one in force.
  pub enforce_mfa_for_login-ok :
      (user_id : ℕ) (input : LoginInput) (w : World) (b : Bool)
      → has_enabled_mfa user_id w.db ≡ true
      → (enforce_mfa_for_login e user_id input.ip_address input.mfa w).0 ≡ ok b
      → Accepted user_id input w
  unfolding enforce_mfa_for_login ◌>>=◌
  enforce_mfa_for_login-ok user_id input w b on h =
      elim (Option-cases (given input.mfa.mfa_recovery_code)) [
        | inl no_code ↦
            let h' : ((enforce_code e user_id (given input.mfa.mfa_code) input.mfa.mfa_factor_id
                    >>= λ _. pure true)
                  w).0
                ≡ ok b =
              rw (on, no_code) at h in
            let (x, w1, p, q) =
              >>=-eq-ok (enforce_code e user_id (given input.mfa.mfa_code) input.mfa.mfa_factor_id)
                (λ _. pure true) w h' in
            enforce_code-ok user_id input w (ap (λ y. y.0) p)
        | inr (code, c) ↦
            let h' : ((enforce_recovery_code e user_id input.ip_address code >>= λ _. pure true)
                  w).0
                ≡ ok b =
              rw (on, c) at h in
            let (x, w1, p, q) =
              >>=-eq-ok (enforce_recovery_code e user_id input.ip_address code) (λ _. pure true) w
                h' in
            enforce_recovery_code-ok user_id input code w c (ap (λ y. y.0) p)
      ]

  method-sessions :
      (user_id : ℕ) (ip : Option String) (mfa : MfaInput) (code : Option String) (w : World)
      → (by_method e user_id ip mfa code w).1.db.sessions ≡ w.db.sessions
  method-sessions user_id ip mfa none w =
      ap (λ (d : Database). d.sessions)
        (enforce_code-sessions user_id (given mfa.mfa_code) mfa.mfa_factor_id w)
  method-sessions user_id ip mfa (some code) w = enforce_recovery_code-sessions user_id ip code w

  pub enforce_mfa_for_login-sessions :
      (user_id : ℕ) (ip : Option String) (mfa : MfaInput) (w : World)
      → (enforce_mfa_for_login e user_id ip mfa w).1.db.sessions ≡ w.db.sessions
  unfolding enforce_mfa_for_login
  enforce_mfa_for_login-sessions user_id ip mfa w =
      let g = λ (d : Database). d.sessions in
      let check = by_method e user_id ip mfa (given mfa.mfa_recovery_code) in
      >>=-keeps g (gets (has_enabled_mfa user_id)) _ w (gets-sessions (has_enabled_mfa user_id) w)
        (λ on w1. branch on w1)
    where
      branch :
          (on : Bool) (w1 : World)
          → ((if on
                then by_method e user_id ip mfa (given mfa.mfa_recovery_code) >>= (λ _. pure true)
                else pure false)
              w1).1.db.sessions
            ≡ w1.db.sessions
      branch true w1 =
          >>=-keeps (λ (d : Database). d.sessions)
            (by_method e user_id ip mfa (given mfa.mfa_recovery_code)) (λ _. pure true) w1
            (method-sessions user_id ip mfa (given mfa.mfa_recovery_code) w1)
            (λ x w2. ap (λ d. d.sessions) (pure-db true w2))
      branch false w1 = ap (λ (d : Database). d.sessions) (pure-db false w1)
