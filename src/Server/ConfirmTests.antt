-- ===== src/Server/ConfirmTests.antt =====
-- One-time tokens of a small database (apps/idp-server/src/modules/auth/auth.service.ts).
use id_provider.Base.{◌+◌, ◌==◌, ◌≡◌, refl, some, [], ◌∷◌, find, update, false, true, none}
use id_provider.Store.{User, UserEmail, UserPassword, OneTimeToken, World, ok, err, api, ◌>>=◌}
use id_provider.Store.Env.{at_time}
use id_provider.Store.Sample.{env, empty_database}
use id_provider.Auth.Event.{hash_token, opaque_token}
use id_provider.Auth.Password.{is_usable, with_hash}
use id_provider.Server.Confirm.{
  find_by_id, active_user, request_password_reset, confirm_password_reset,
  request_email_verification, confirm_email_verification,
}
use id_provider.Server.Spending.{
  confirm_password_reset_spends, confirm_email_verification_spends, confirm_password_reset_changes,
  request_password_reset-confirm_password_reset,
}

abbrev user : User
user = record {
  id = 7;
  status = "active";
  deleted_at = none;
  deletion_requested_at = none;
  deletion_due_at = none;
  created_at = 0;
}

abbrev email : UserEmail
email = record {
  id = 1;
  user_id = 7;
  email = "a@x.org";
  is_primary = true;
  is_verified = false;
  created_at = 0;
}

abbrev password : UserPassword
password = record { user_id = 7; password_hash = "$argon2-secret"; updated_at = 0 }

abbrev world : World
world = record {
  db = record empty_database { users = user ∷ []; emails = email ∷ []; passwords = password ∷ [] };
  draws = 0;
  notified = [];
  counters = [];
}

-- the database after a request for a reset, and for a confirmation
abbrev asked : World
asked = (request_password_reset env "a@x.org" world).1

abbrev invited : World
invited = (request_email_verification env "a@x.org" world).1

issued : (request_password_reset env "a@x.org" world).0 ≡ ok (some "pr_")
unfolding request_password_reset ◌>>=◌ opaque_token
issued = refl

reset : (confirm_password_reset env "pr_" "new" asked).0 ≡ ok tt
unfolding confirm_password_reset ◌>>=◌ request_password_reset opaque_token
reset = refl

confirmed : (confirm_email_verification env "ev_" invited).0 ≡ ok tt
unfolding confirm_email_verification ◌>>=◌ request_email_verification opaque_token
confirmed = refl

confirm_password_reset_spends_example :
    (confirm_password_reset
      (at_time env (env.now + 5))
      "pr_"
      "newer"
      (confirm_password_reset env "pr_" "new" asked).1).0
    ≡ err (api 400 "invalid_token")
confirm_password_reset_spends_example =
    confirm_password_reset_spends env "pr_" "new" "newer" asked (env.now + 5) refl

confirm_email_verification_spends_example :
    (confirm_email_verification
      (at_time env (env.now + 5))
      "ev_"
      (confirm_email_verification env "ev_" invited).1).0
    ≡ err (api 400 "invalid_token")
confirm_email_verification_spends_example =
    confirm_email_verification_spends env "ev_" invited (env.now + 5) refl

confirm_password_reset_changes_example :
    let w' = (confirm_password_reset env "pr_" "new" asked).1 in
    (t : OneTimeToken) × (u : User) × (find
        (is_usable env.now (hash_token env "pr_"))
        asked.db.reset_tokens
      ≡ some t)
    × (active_user (find_by_id t.user_id asked.db) ≡ some u)
    × (w'.db.passwords
        ≡ update
            (λ p. p.user_id == t.user_id)
            (with_hash env.now (env.argon2_hash asked.draws "new"))
            asked.db.passwords)
    × (w'.db.sessions ≡ asked.db.sessions)
confirm_password_reset_changes_example = confirm_password_reset_changes env "pr_" "new" asked reset

request_password_reset-confirm_password_reset_example :
    (confirm_password_reset (at_time env (env.now + 5)) "pr_" "new" asked).0 ≡ ok tt
request_password_reset-confirm_password_reset_example =
    request_password_reset-confirm_password_reset env "a@x.org" "pr_" "new" world (env.now + 5)
      issued refl
