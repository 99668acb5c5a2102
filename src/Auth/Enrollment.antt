-- ===== src/Auth/Enrollment.antt =====
-- New accounts and new factors: `signup` and `verifyMfa`
-- (packages/auth-core/src/auth-service.ts).
use id_provider.Base.{
  if◌then◌else◌, ℕ, suc, ◌≡◌, Bool, true, false, String, str_eq, some, List, [], ◌∷◌, any, find,
  update, arith, inl, inr, Bool-cases, Option-cases,
}
use id_provider.Auth.Login.{is_unique_code}
use id_provider.Store.{
  Database, UserEmail, MfaFactor, World, ok, err, api, unique_violation, same_email, ◌>>=◌,
  transaction,
}
use id_provider.Store.Env.{Env}
use id_provider.Auth.Login.{SignupInput, signup, signup_body}
use id_provider.Auth.Mfa.{verify_mfa, is_six_digits, is_factor, enable, given}

abbrev has_email : String → Database → Bool
has_email email d = any (λ m. str_eq m.email email) d.emails

email_clash :
    (m : UserEmail) (ms : List UserEmail)
    → any (λ r. str_eq r.email m.email) ms ≡ true
    → any (same_email m) ms ≡ true
email_clash m [] h = h
email_clash m (r ∷ ms) h = elim (Bool-cases (str_eq r.email m.email)) [
  | inl t ↦ ground arith
  | inr f ↦ let rest = email_clash m ms (rw f at h) in ground arith
]

abbrev new_email : Env → String → World → UserEmail
new_email e email w = record {
  id = e.random_uuid (suc w.draws);
  user_id = e.random_uuid w.draws;
  email = email;
  is_primary = true;
  is_verified = false;
  created_at = e.now;
}

signup_body_taken :
    (e : Env) (input : SignupInput) (w : World)
    → any (same_email (new_email e input.email w)) w.db.emails ≡ true
    → (signup_body e input w).0 ≡ err unique_violation
unfolding signup_body ◌>>=◌
signup_body_taken e input w h = ground arith

-- `signup` with an address that an account has throws, and leaves the database as it was. The
-- answer is 409 exactly if the error that drizzle-orm throws for a broken unique constraint has the
-- property `code` with the value 23505; otherwise that error is thrown on.
pub signup_taken :
    (e : Env) (input : SignupInput) (w : World)
    → any (λ m. str_eq m.email input.email) w.db.emails ≡ true
    → ((signup e input w).0
        ≡ err (
            if is_unique_code e.unique_violation_code
            then api 409 "email_already_exists"
            else unique_violation))
      × ((signup e input w).1.db ≡ w.db)
unfolding signup transaction
signup_taken e input w h =
    let r = signup_body_taken e input w (email_clash (new_email e input.email w) w.db.emails h) in
    ground arith

-- A `verifyMfa` that returns was given a six-digit code that fits the secret of a factor of the
-- user, and it enables that factor and no other.
pub verify_mfa_checks :
    (e : Env) (user_id factor_id : ℕ) (code : String) (w : World)
    → (verify_mfa e user_id factor_id code w).0 ≡ ok tt
    → (f : MfaFactor) × (secret : String) × (find (is_factor factor_id user_id) w.db.factors
        ≡ some f)
      × (given f.secret ≡ some secret)
      × (is_six_digits code ≡ true)
      × (e.totp_check code secret ≡ true)
      × ((verify_mfa e user_id factor_id code w).1.db.factors
          ≡ update (is_factor factor_id user_id) enable w.db.factors)
unfolding verify_mfa ◌>>=◌
verify_mfa_checks e user_id factor_id code w h =
    elim (Option-cases (find (is_factor factor_id user_id) w.db.factors)) [
      | inl missing ↦ ground arith
      | inr (f, found) ↦ elim (Option-cases (given f.secret)) [
        | inl empty ↦ ground arith
        | inr (secret, held) ↦ (f, secret, found, held, ground arith, ground arith, ground arith)
      ]
    ]
