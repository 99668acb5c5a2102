-- ===== src/Recovery/Tests.antt =====
-- Recovery codes of a small database (apps/idp-server/src/modules/mfa).
use id_provider.Base.{◌≡◌, refl, inl, inr, true, none, some, String, eq_refl, [], ◌∷◌, arith}
use id_provider.Store.{User, RecoveryCode, World, ok, err, api, ◌>>=◌}
use id_provider.Store.Env.{at_time}
use id_provider.Store.Sample.{env, empty_database}
use id_provider.Base.Unique.{IsUnique}
use id_provider.Recovery.Code.{
  RecoveryEnv, normalize_code, lookup_hash, grouped, text_length, generate_plain_code,
}
use id_provider.Recovery.Format.{IsPlain}
use id_provider.Recovery.Batch.{find_active_by_lookup_hash, count_active_by_user_id}
use id_provider.Recovery.Service.{
  Generated, generate_codes, generate_codes_if_missing, regenerate_codes, consume_code,
}
use id_provider.Recovery.Generation.{
  generate_plain_code-normalize_code, generate_plain_code_returns,
}
use id_provider.Recovery.Spent.{hash_key, consume_code_once}
use id_provider.Recovery.Validity.{generate_codes-consume_code, regenerate_codes_refuses}

abbrev settings : RecoveryEnv
settings = record {
  env = env;
  code_count = 2;
  code_length = 6;
  pepper = "pepper";
  random_byte = λ n. n;
  hmac_sha256 = λ k s. s;
  upper = λ s. s;
  byte_fuel = 10;
}

abbrev user : User
user = record {
  id = 7;
  status = "active";
  deleted_at = none;
  deletion_requested_at = none;
  deletion_due_at = none;
  created_at = 0;
}

abbrev world : World
world = record {
  db = record empty_database { users = user ∷ [] };
  draws = 0;
  notified = [];
  counters = [];
}

abbrev batch : Generated
batch = record { batch_id = 1; recovery_codes = "BCDEF-G" ∷ "HJKLM-N" ∷ [] }

first_batch : (generate_codes settings 7 "initial_mfa_setup" world).0 ≡ ok batch
unfolding generate_codes ◌>>=◌
first_batch = refl

-- a second call gives out no codes
not_missing :
    (generate_codes_if_missing settings 7 "initial_mfa_setup"
      (generate_codes settings 7 "initial_mfa_setup" world).1).0
    ≡ ok []
unfolding generate_codes_if_missing generate_codes ◌>>=◌
not_missing = refl

abbrev code : RecoveryCode
code = record {
  id = 3;
  user_id = 7;
  batch_id = 2;
  lookup_hash = "ABCDEF";
  code_hash = "ABCDEF";
  last_chars = "ABCDEF";
  used_at = none;
  revoked_at = none;
  created_at = 0;
}

abbrev held : World
held = record world { db = record world.db { recovery_codes = code ∷ [] } }

consumed : (consume_code settings 7 "abc DEF" held).0 ≡ err (api 401 "invalid_mfa_recovery_code")
unfolding consume_code ◌>>=◌
consumed = refl

consume_code_once_example :
    let w' = (consume_code settings 7 "ABCDE-F" held).1 in
    (r : RecoveryCode) × (find_active_by_lookup_hash
        (lookup_hash settings (normalize_code settings "ABCDE-F"))
        held.db
      ≡ some r)
    × (r.user_id ≡ 7)
    × (settings.env.argon2_verify r.code_hash (normalize_code settings "ABCDE-F") ≡ true)
    × (consume_code (record settings { env = at_time env 2000 }) 8 "ABC DEF" w'
        ≡ (err (api 401 "invalid_mfa_recovery_code"), w'))
unfolding consume_code lookup_hash ◌>>=◌
consume_code_once_example =
    consume_code_once settings 7 8 "ABCDE-F" "ABC DEF" 2000 0 held (tt, tt) refl refl

generate_plain_code-normalize_code_example :
    (raw : String) × (◌≡◌ {A = String} "ABCDE-F" (grouped 5 raw))
    × IsPlain raw
    × (text_length raw ≡ 6)
    × (normalize_code settings "ABCDE-F" ≡ raw)
    × (normalize_code settings raw ≡ raw)
unfolding generate_plain_code ◌>>=◌
generate_plain_code-normalize_code_example =
    generate_plain_code-normalize_code settings world "ABCDE-F" (λ s p. refl) refl

generate_plain_code_returns_example : (c : String) × ((generate_plain_code settings world).0 ≡ ok c)
generate_plain_code_returns_example =
    generate_plain_code_returns settings 9 world refl (omega arith)

generate_codes-consume_code_example :
    let w' = (generate_codes settings 7 "initial_mfa_setup" world).1 in
    let later = record settings { env = at_time env 2000 } in
    IsUnique hash_key w'.db.recovery_codes
    × ((consume_code later 7 "HJKLM-N" w').0
        ≡ ok (count_active_by_user_id 7 (consume_code later 7 "HJKLM-N" w').1.db))
generate_codes-consume_code_example =
    generate_codes-consume_code settings 7 "initial_mfa_setup" "HJKLM-N" 2000 world batch tt
      (λ n s. eq_refl s) (λ s p. refl) first_batch (inr (inl refl))

renewed : (regenerate_codes settings 7 held).0 ≡ ok batch
unfolding regenerate_codes ◌>>=◌
renewed = refl

regenerate_codes_refuses_example :
    let w' = (regenerate_codes settings 7 held).1 in
    consume_code (record settings { env = at_time env 2000 }) 7 "ABCDE-F" w'
    ≡ (err (api 401 "invalid_mfa_recovery_code"), w')
unfolding find_active_by_lookup_hash lookup_hash
regenerate_codes_refuses_example =
    regenerate_codes_refuses settings 7 7 "ABCDE-F" 2000 held batch code (tt, tt) refl refl renewed
