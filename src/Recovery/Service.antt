-- ===== src/Recovery/Service.antt =====
-- `MfaRecoveryService` (apps/idp-server/src/modules/mfa/mfa-recovery.service.ts).
use id_provider.Base.{
  ℕ, zero, suc, ◌==◌, leb, ltb, Bool, not, ◌&&◌, String, Option, none, some, List, [], ◌∷◌, length,
  if◌then◌else◌,
}
use id_provider.Base.Json.{num, str, Fields, field, end}
use id_provider.Store.{
  RecoveryCode, SecurityEvent, Action, api, draw, gets, insert_event, pure, raise_if, or_raise,
  ◌>>=◌, ◌>>◌,
}
use id_provider.Audit.Log.{AuditInput, write_audit_log}
use id_provider.Recovery.Code.{
  RecoveryEnv, normalize_code, lookup_hash, last_eight, generate_plain_code,
}
use id_provider.Recovery.Batch.{
  CodeRecord, create_batch, find_active_by_lookup_hash, mark_used, count_active_by_user_id,
}

-- `createSecurityEvent` of the server's audit repository
unfoldable pub create_security_event : String → ℕ → Fields → Action (Unit {0})
unfolding insert_event
create_security_event event_type user_id payload =
    let ev : SecurityEvent = record {
      user_id = some user_id;
      event_type = event_type;
      payload = payload;
    } in
    insert_event ev

abbrev pub user_log : RecoveryEnv → ℕ → String → Fields → AuditInput
user_log e user_id action payload = record {
  actor_user_id = some user_id;
  action = action;
  resource_type = "user";
  resource_id = some (e.env.uuid_text user_id);
  payload = payload;
}

unfoldable pub plain_codes : RecoveryEnv → ℕ → Action (List String)
unfolding generate_plain_code
plain_codes e zero = pure []
plain_codes e (suc n) = do
  code ← generate_plain_code e
  codes ← plain_codes e n
  pure (code ∷ codes)

abbrev pub record_of : RecoveryEnv → String → ℕ → CodeRecord
record_of e code salt = record {
  lookup_hash = lookup_hash e code;
  code_hash = e.env.argon2_hash salt (normalize_code e code);
  last_chars = last_eight (normalize_code e code);
}

unfoldable pub code_records : RecoveryEnv → List String → Action (List CodeRecord)
unfolding lookup_hash
code_records e [] = pure []
code_records e (code ∷ codes) = do
  salt ← draw
  records ← code_records e codes
  pure (record_of e code salt ∷ records)

pub record Generated : Type 0 where
  pub batch_id : ℕ
  pub recovery_codes : List String

-- the audit log and the event of a batch, and the result
unfoldable pub announce : RecoveryEnv → ℕ → ℕ → String → List String → ℕ → Action Generated
unfolding write_audit_log create_security_event
announce e user_id batch_id reason codes count = do
  let payload =
      field "batchId" (str (e.env.uuid_text batch_id))
        (field "count" (num count) (field "reason" (str reason) end))
  write_audit_log e.env (user_log e user_id "mfa.recovery_codes.generated" payload)
  create_security_event "mfa.recovery_codes.generated" user_id payload
  pure (record { batch_id = batch_id; recovery_codes = codes })

-- the records of the codes, and their batch
unfoldable pub store_codes : RecoveryEnv → ℕ → ℕ → String → List String → Action Generated
unfolding code_records create_batch announce
store_codes e user_id batch_id reason codes = do
  records ← code_records e codes
  create_batch e user_id batch_id records
  announce e user_id batch_id reason codes (length records)

unfoldable pub generate_codes : RecoveryEnv → ℕ → String → Action Generated
unfolding plain_codes store_codes
generate_codes e user_id reason = do
  n ← draw
  codes ← plain_codes e e.code_count
  store_codes e user_id (e.env.random_uuid n) reason codes

unfoldable pub generate_codes_if_missing : RecoveryEnv → ℕ → String → Action (List String)
unfolding generate_codes count_active_by_user_id
generate_codes_if_missing e user_id reason = do
  count ← gets (count_active_by_user_id user_id)
  let generated = generate_codes e user_id reason >>= λ g. pure g.recovery_codes
  if ltb 0 count then pure [] else generated

unfoldable pub regenerate_codes : RecoveryEnv → ℕ → Action Generated
unfolding generate_codes create_security_event
regenerate_codes e user_id = do
  create_security_event "mfa.recovery_codes.revoked" user_id
      (field "reason" (str "regenerated") end)
  generate_codes e user_id "regenerated"

-- `record?.userId === userId ? await argon2.verify(…) : false`
abbrev pub is_valid : RecoveryEnv → ℕ → String → RecoveryCode → Bool
is_valid e user_id normalized r = r.user_id == user_id && e.env.argon2_verify r.code_hash normalized

-- the record, if it is there and valid
abbrev pub valid_record : RecoveryEnv → ℕ → String → Option RecoveryCode → Option RecoveryCode
valid_record e user_id normalized none = none
valid_record e user_id normalized (some r) =
    if is_valid e user_id normalized r then some r else none

-- the log and the events of a code that was used, with the number of codes that are left
unfoldable pub record_use : RecoveryEnv → ℕ → Action ℕ
unfolding count_active_by_user_id write_audit_log create_security_event
record_use e user_id = do
  remaining ← gets (count_active_by_user_id user_id)
  let payload = field "remainingCount" (num remaining) end
  write_audit_log e.env (user_log e user_id "mfa.recovery_code.used" payload)
  create_security_event "mfa.recovery_code.used" user_id payload
  let low = create_security_event "mfa.recovery_codes.low" user_id payload
  if leb remaining 2 then low else pure tt
  pure remaining

-- the number of codes that are left, with the status "verified"
unfoldable pub consume_code : RecoveryEnv → ℕ → String → Action ℕ
unfolding normalize_code lookup_hash find_active_by_lookup_hash mark_used record_use
consume_code e user_id code = do
  let normalized = normalize_code e code
  found ← gets (find_active_by_lookup_hash (lookup_hash e normalized))
  r ← or_raise (valid_record e user_id normalized found) (api 401 "invalid_mfa_recovery_code")
  used ← mark_used e r.id
  raise_if (not used) (api 401 "invalid_mfa_recovery_code")
  record_use e user_id
