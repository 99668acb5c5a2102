-- ===== src/Recovery/Batch.antt =====
-- The table of recovery codes (apps/idp-server/src/modules/mfa/mfa-recovery.repository.ts,
-- packages/db/src/schema.ts).
use id_provider.Base.{
  ℕ, ◌==◌, Bool, ◌&&◌, ◌||◌, String, str_eq, Option, some, List, [], ◌∷◌, any, find, select, update,
  length, is_none,
}
use id_provider.Store.{
  Database, RecoveryCode, Action, ok, draw, modify, pure, constrained, lacks_user, transaction,
  ◌>>=◌, ◌>>◌,
}
use id_provider.Recovery.Code.{RecoveryEnv}

-- `MfaRecoveryCodeRecord`
pub record CodeRecord : Type 0 where
  pub lookup_hash : String
  pub code_hash : String
  pub last_chars : String

-- `isNull(usedAt)` and `isNull(revokedAt)`
abbrev pub is_active : RecoveryCode → Bool
is_active c = is_none c.used_at && is_none c.revoked_at

abbrev pub is_active_of : ℕ → RecoveryCode → Bool
is_active_of user_id c = c.user_id == user_id && is_active c

abbrev pub is_found_by : String → RecoveryCode → Bool
is_found_by hash c = str_eq c.lookup_hash hash && is_active c

-- the primary key and the unique constraint on `lookup_hash`
abbrev pub same_code : RecoveryCode → RecoveryCode → Bool
same_code c r = r.id == c.id || str_eq r.lookup_hash c.lookup_hash

abbrev pub revoke_code : ℕ → RecoveryCode → RecoveryCode
revoke_code now c = record c { revoked_at = some now }

abbrev pub use_code : ℕ → RecoveryCode → RecoveryCode
use_code now c = record c { used_at = some now }

unfoldable pub find_active_by_lookup_hash : String → Database → Option RecoveryCode
find_active_by_lookup_hash hash d = find (is_found_by hash) d.recovery_codes

-- `markUsed`: whether a row was updated
unfoldable pub mark_used : RecoveryEnv → ℕ → Action Bool
mark_used e id w =
    let hit = λ (c : RecoveryCode). c.id == id && is_active c in
    (
      ok (any hit w.db.recovery_codes),
      record w {
        db = record w.db { recovery_codes = update hit (use_code e.env.now) w.db.recovery_codes };
      },
    )

unfoldable pub revoke_active_by_user_id : RecoveryEnv → ℕ → Action (Unit {0})
revoke_active_by_user_id e user_id = modify (λ d. record d {
  recovery_codes = update (is_active_of user_id) (revoke_code e.env.now) d.recovery_codes;
})

unfoldable pub count_active_by_user_id : ℕ → Database → ℕ
count_active_by_user_id user_id d = length (select (is_active_of user_id) d.recovery_codes)

abbrev pub new_code : RecoveryEnv → ℕ → ℕ → CodeRecord → ℕ → RecoveryCode
new_code e user_id batch_id r id = record {
  id = id;
  user_id = user_id;
  batch_id = batch_id;
  lookup_hash = r.lookup_hash;
  code_hash = r.code_hash;
  last_chars = r.last_chars;
  used_at = Option.none;
  revoked_at = Option.none;
  created_at = e.env.now;
}

unfoldable pub insert_code : RecoveryCode → Action (Unit {0})
insert_code c =
    constrained (λ d. any (same_code c) d.recovery_codes) (lacks_user c.user_id)
      (λ d. record d { recovery_codes = c ∷ d.recovery_codes })

-- one `insert` of all rows, which the transaction around it undoes if one of them is refused
unfoldable pub insert_codes : RecoveryEnv → ℕ → ℕ → List CodeRecord → Action (Unit {0})
unfolding insert_code
insert_codes e user_id batch_id [] = pure tt
insert_codes e user_id batch_id (r ∷ rs) = do
  n ← draw
  insert_code (new_code e user_id batch_id r (e.env.random_uuid n))
  insert_codes e user_id batch_id rs

unfoldable pub create_batch : RecoveryEnv → ℕ → ℕ → List CodeRecord → Action (Unit {0})
unfolding revoke_active_by_user_id insert_codes transaction
create_batch e user_id batch_id codes =
    transaction do revoke_active_by_user_id e user_id; insert_codes e user_id batch_id codes
