-- ===== src/Auth/Admission.antt =====
-- Who gets in: what a login that returns has checked, and what one that throws leaves behind
-- (`login` of packages/auth-core/src/auth-service.ts).
use id_provider.Base.{
  ℕ, ◌≡◌, refl, ap, ◌∙◌, Bool, true, String, Option, none, some, List, [], ◌∷◌, arith, inl, inr,
  Bool-cases, Option-cases,
}
use id_provider.Store.{Database, MfaFactor, World, ok, Failure, gets, ◌>>=◌}
use id_provider.Store.Env.{Env}
use id_provider.Store.Laws.{>>=-eq-ok, ok_injective}
use id_provider.Auth.Mfa.{enabled_factors, assert_valid_totp, check_factor, select_factor, given}
use id_provider.Auth.Login.{
  LoginInput, LoginRow, LoggedIn, login, login_row, login_from, login_found, login_verified,
  login_mfa, complete_login, refuse,
}

-- The second factor of a login: the account has none enabled, or the code fits the secret of the
-- factor that was selected.
pub data PassesMfa (e : Env) (fs : List MfaFactor) (code : Option String) (id : Option ℕ)
    : Type 0 where
  no_factor : fs ≡ [] → PassesMfa e fs code id
  checked :
      (f : MfaFactor) (secret c : String)
      → code ≡ some c
      → select_factor id fs ≡ some f
      → f.secret ≡ some secret
      → e.totp_check c secret ≡ true
      → PassesMfa e fs code id

given-eq-some : (o : Option String) (s : String) → given o ≡ some s → o ≡ some s
given-eq-some none s h = cc
given-eq-some (some t) s h = ground arith

check_factor-ok :
    (e : Env) (code : String) (o : Option MfaFactor) (w : World) (id : ℕ)
    → (check_factor e code o w).0 ≡ ok id
    → (f : MfaFactor) × (secret : String) × (o ≡ some f)
      × (f.secret ≡ some secret)
      × (e.totp_check code secret ≡ true)
unfolding check_factor ◌>>=◌
check_factor-ok e code none w id h = cc
check_factor-ok e code (some f) w id h = elim (Option-cases (given f.secret)) [
  | inl missing ↦ ground arith
  | inr (secret, found) ↦ (f, secret, refl, given-eq-some f.secret secret found, ground arith)
]

pub assert_valid_totp-PassesMfa :
    (e : Env) (fs : List MfaFactor) (code : Option String) (id : Option ℕ) (w : World) (n : ℕ)
    → (assert_valid_totp e fs code id w).0 ≡ ok n
    → PassesMfa e fs code id
unfolding assert_valid_totp ◌>>=◌
assert_valid_totp-PassesMfa e fs code id w n h = elim (Option-cases (given code)) [
  | inl missing ↦ ground arith
  | inr (c, found) ↦
      let (f, secret, selected, has, good) =
        check_factor-ok e c (select_factor id fs) w n (rw found at h) in
      checked f secret c (given-eq-some code c found) selected has good
]

login_mfa-PassesMfa :
    (e : Env) (input : LoginInput) (user_id : ℕ) (fs : List MfaFactor) (w : World) (b : Bool)
    → (login_mfa e input user_id fs w).0 ≡ ok b
    → PassesMfa e fs input.mfa_code input.mfa_factor_id
unfolding login_mfa
login_mfa-PassesMfa e input user_id [] w b h = no_factor refl
login_mfa-PassesMfa e input user_id (f ∷ fs) w b h =
    let (n, w', ran, _) =
      >>=-eq-ok (assert_valid_totp e (f ∷ fs) input.mfa_code input.mfa_factor_id) _ w h in
    assert_valid_totp-PassesMfa e (f ∷ fs) input.mfa_code input.mfa_factor_id w n
      (ap (λ r. r.0) ran)

complete_login-user :
    (e : Env) (input : LoginInput) (user_id : ℕ) (b : Bool) (w : World) (r : LoggedIn)
    → (complete_login e input user_id b w).0 ≡ ok r
    → r.user_id ≡ user_id
unfolding complete_login ◌>>=◌
complete_login-user e input user_id b w r h = ground arith

gets-value :
    {A : Type 0} (f : Database → A) (w : World) (a : A) (w' : World)
    → gets f w ≡ (ok a, w')
    → f w.db ≡ a
unfolding ◌>>=◌
gets-value f w a w' h = ok_injective (ap (λ r. r.0) h)

gets-world :
    {A : Type 0} (f : Database → A) (w : World) (a : A) (w' : World)
    → gets f w ≡ (ok a, w')
    → w ≡ w'
unfolding ◌>>=◌
gets-world f w a w' h = ap (λ r. r.1) h

refuse_not_ok :
    {A : Type 0} (e : Env) (input : LoginInput) (reason : String) (f : Failure) (w : World) (a : A)
    → ¬ ((refuse e input reason f w).0 ≡ ok a)
unfolding refuse ◌>>=◌
refuse_not_ok e input reason f w a h = cc

login_found-tests :
    (e : Env) (input : LoginInput) (row : LoginRow) (w : World) (r : LoggedIn)
    → (login_found e input row w).0 ≡ ok r
    → (e.argon2_verify row.password_hash input.password ≡ true)
      × (row.email_verified ≡ true)
      × ((login_verified e input row.user_id w).0 ≡ ok r)
unfolding login_found
login_found-tests e input row w r h =
    elim (Bool-cases (e.argon2_verify row.password_hash input.password)) [
      | inl good ↦ elim (Bool-cases row.email_verified) [
        | inl verified ↦ (good, verified, rw (good, verified) at h)
        | inr unverified ↦ absurd (refuse_not_ok e input _ _ w r (rw (good, unverified) at h))
      ]
      | inr bad ↦ absurd (refuse_not_ok e input _ _ w r (rw bad at h))
    ]

login_verified-ok :
    (e : Env) (input : LoginInput) (user_id : ℕ) (w : World) (r : LoggedIn)
    → (login_verified e input user_id w).0 ≡ ok r
    → (r.user_id ≡ user_id)
      × PassesMfa e (enabled_factors user_id w.db) input.mfa_code input.mfa_factor_id
unfolding login_verified
login_verified-ok e input user_id w r h =
    let (fs, w1, got, h1) = >>=-eq-ok (gets (enabled_factors user_id)) _ w h in
    let (b, w2, ran, h2) = >>=-eq-ok (login_mfa e input user_id fs) _ w1 h1 in
    let passed = login_mfa-PassesMfa e input user_id fs w1 b (ap (λ x. x.0) ran) in
    let same : enabled_factors user_id w.db ≡ fs =
      gets-value (enabled_factors user_id) w fs w1 got in
    (complete_login-user e input user_id b w2 r h2, rw same passed)

login_found-ok :
    (e : Env) (input : LoginInput) (row : LoginRow) (w : World) (r : LoggedIn)
    → (login_found e input row w).0 ≡ ok r
    → (e.argon2_verify row.password_hash input.password ≡ true)
      × (row.email_verified ≡ true)
      × PassesMfa e (enabled_factors row.user_id w.db) input.mfa_code input.mfa_factor_id
      × (r.user_id ≡ row.user_id)
login_found-ok e input row w r h =
    let (good, verified, inner) = login_found-tests e input row w r h in
    let (owner, passed) = login_verified-ok e input row.user_id w r inner in
    (good, verified, passed, owner)

login_from-ok :
    (e : Env) (input : LoginInput) (o : Option LoginRow) (w : World) (r : LoggedIn)
    → (login_from e input o w).0 ≡ ok r
    → (row : LoginRow) × (o ≡ some row)
      × (e.argon2_verify row.password_hash input.password ≡ true)
      × (row.email_verified ≡ true)
      × PassesMfa e (enabled_factors row.user_id w.db) input.mfa_code input.mfa_factor_id
      × (r.user_id ≡ row.user_id)
unfolding login_from
login_from-ok e input none w r h = absurd (refuse_not_ok e input _ _ w r h)
login_from-ok e input (some row) w r h =
    let (good, verified, passed, owner) = login_found-ok e input row w r h in
    (row, refl, good, verified, passed, owner)

-- A login that returns has found an account with the address, whose password argon2 accepts and
-- whose address is verified; where the account has an enabled factor, the code fits the secret of
-- the factor selected. It answers for that account.
pub login_checks :
    (e : Env) (input : LoginInput) (w : World) (r : LoggedIn)
    → (login e input w).0 ≡ ok r
    → (row : LoginRow) × (login_row input.email w.db ≡ some row)
      × (e.argon2_verify row.password_hash input.password ≡ true)
      × (row.email_verified ≡ true)
      × PassesMfa e (enabled_factors row.user_id w.db) input.mfa_code input.mfa_factor_id
      × (r.user_id ≡ row.user_id)
unfolding login
login_checks e input w r h =
    let (o, w', got, h1) = >>=-eq-ok (gets (login_row input.email)) _ w h in
    let same : login_row input.email w.db ≡ o = gets-value (login_row input.email) w o w' got in
    let same_world : w ≡ w' = gets-world (login_row input.email) w o w' got in
    let (row, is_row, good, verified, passed, owner) = login_from-ok e input o w' r h1 in
    (row, same ∙ is_row, good, verified, rw same_world passed, owner)
