-- ===== src/Audit/Log.antt =====
-- `writeAuditLog`: a plain row, or a row of the hash chain for an action of an administrator.
-- An advisory lock makes the chained writes one after another.
use id_provider.Base.{
  ℕ, ◌==◌, ltb, Bool, ◌&&◌, ◌||◌, String, Option, none, some, List, [], ◌∷◌, select, if◌then◌else◌,
}
use id_provider.Base.Json.{Json, null, str, obj, Fields, field, end, stored_fields}
use id_provider.Store.{AuditLog, Action, draw, insert_audit_log, ◌>>=◌}
use mathlib.Core.Option
use id_provider.Store.Env.{Env}
use id_provider.Audit.Canonical.{canonicalize}
use text.Mathlib.Text.{starts_with}

pub record AuditInput : Type 0 where
  pub actor_user_id : Option ℕ
  pub action : String
  pub resource_type : String
  pub resource_id : Option String
  pub payload : Fields

abbrev pub version_none : ℕ
version_none = 0

abbrev pub version_chained : ℕ
version_chained = 1

abbrev pub should_use_hash_chain : String → Bool
should_use_hash_chain action = starts_with action "admin."

-- `.orderBy(desc(createdAt), desc(id))`: `a` stands before `b`
abbrev pub later : AuditLog → AuditLog → Bool
later a b = ltb b.created_at a.created_at || (b.created_at == a.created_at && ltb b.id a.id)

abbrev pub is_chained : AuditLog → Bool
is_chained r = r.integrity_version == version_chained

-- the first row of a table in that order
unfoldable pub last_row : List AuditLog → Option AuditLog
last_row [] = none
last_row (x ∷ xs) = elim (last_row xs) [
  | none ↦ some x
  | some y ↦ some (if later y x then y else x)
]

-- `row?.entryHash ?? null`
abbrev pub hash_of : Option AuditLog → Option String
hash_of none = none
hash_of (some r) = r.entry_hash

abbrev nullable : Option String → Json
nullable none = null
nullable (some s) = str s

-- the object that is hashed, from the columns of a row
abbrev pub entry_json : Env → AuditLog → Json
entry_json e r = obj (
    field "id" (str (e.uuid_text r.id)) (
      field "createdAt" (str (e.iso_text r.created_at)) (
        field "actorUserId" (nullable (Option.map e.uuid_text r.actor_user_id)) (
          field "action" (str r.action) (
            field "resourceType" (str r.resource_type) (
              field "resourceId" (nullable r.resource_id) (
                field "payload" (obj r.payload) (field "prevHash" (nullable r.prev_hash) end))))))))

-- `buildEntryHash`
unfoldable pub entry_hash : Env → AuditLog → String
unfolding canonicalize
entry_hash e r = e.sha256_hex (canonicalize e (entry_json e r))

-- the row, whose payload is what jsonb keeps
abbrev pub plain_row : Env → AuditInput → ℕ → AuditLog
plain_row e input id = record {
  id = e.random_uuid id;
  actor_user_id = input.actor_user_id;
  action = input.action;
  resource_type = input.resource_type;
  resource_id = input.resource_id;
  payload = stored_fields e.iso_text input.payload;
  prev_hash = none;
  entry_hash = none;
  integrity_version = version_none;
  created_at = e.now;
}

-- the row of a chained entry whose predecessor has the hash `prev`; the hash is that of the payload
-- before it is stored
unfoldable pub chained_row : Env → AuditInput → ℕ → Option String → AuditLog
chained_row e input id prev =
    let bare = record (plain_row e input id) {
      prev_hash = prev;
      integrity_version = version_chained;
    } in
    record bare { entry_hash = some (entry_hash e (record bare { payload = input.payload })) }

abbrev pub prev_hash_in : List AuditLog → Option String
prev_hash_in rows = hash_of (last_row (select is_chained rows))

-- the row that a call writes
unfoldable pub audit_row : Env → AuditInput → ℕ → List AuditLog → AuditLog
unfolding chained_row last_row
audit_row e input id rows =
    if should_use_hash_chain input.action
    then chained_row e input id (prev_hash_in rows)
    else plain_row e input id

unfoldable pub write_audit_log : Env → AuditInput → Action (Unit {0})
unfolding insert_audit_log
write_audit_log e input = do id ← draw; insert_audit_log input.actor_user_id (audit_row e input id)
