-- ===== src/Retention/Rows.antt =====
-- The tables that the retention job reads and writes, and the rows that each pass selects
-- (apps/idp-server/src/jobs/data-retention.ts, packages/db/src/schema.ts).
use id_provider.Base.{
  ℕ, ◌-◌, ◌*◌, ltb, ◌==◌, Bool, true, false, not, ◌&&◌, ◌||◌, String, Option, none, some, List, any,
  is_some,
}
use id_provider.Base.Json.{Fields, end}
use id_provider.Store.{UserSession, AuditLog}

pub record LegalHold : Type 0 where
  pub id : ℕ
  pub user_id : ℕ
  pub reason : String
  pub expires_at : Option ℕ
  pub created_at : ℕ

-- a row of `security_events`, with the columns that the job reads
pub record EventRow : Type 0 where
  pub id : ℕ
  pub user_id : Option ℕ
  pub event_type : String
  pub payload : Fields
  pub created_at : ℕ

pub record Tables : Type 0 where
  pub sessions : List UserSession
  pub events : List EventRow
  pub audit_logs : List AuditLog
  pub holds : List LegalHold

-- The instant of the run, the settings `RETENTION_*`, the uuid that the database gives to the
-- row written at the end, and `now.toISOString()`.
pub record RetentionEnv : Type 0 where
  pub now : ℕ
  pub chunk_size : ℕ
  pub session_anonymize_days : ℕ
  pub session_delete_days : ℕ
  pub event_anonymize_days : ℕ
  pub event_delete_days : ℕ
  pub audit_anonymize_days : ℕ
  pub audit_delete_days : ℕ
  pub row_id : ℕ
  pub iso_now : String

-- `subtractDays`: an instant before 1970 is as good as 1970, since no row is older
abbrev pub subtract_days : ℕ → ℕ → ℕ
subtract_days base days = base - days * 24 * 60 * 60 * 1000

-- `buildActiveLegalHoldPredicate`
abbrev pub is_active_hold : ℕ → LegalHold → Bool
is_active_hold now h = elim h.expires_at [ none ↦ true | some t ↦ ltb now t ]

-- the left join finds an active hold of the user
unfoldable pub is_held : ℕ → List LegalHold → ℕ → Bool
is_held now holds user = any (λ h. h.user_id == user && is_active_hold now h) holds

-- a row without a user joins no hold
unfoldable pub is_held? : ℕ → List LegalHold → Option ℕ → Bool
is_held? now holds none = false
is_held? now holds (some user) = is_held now holds user

module _ (e : RetentionEnv) (holds : List LegalHold) where
  unfoldable pub sessions_to_anonymize : UserSession → Bool
  sessions_to_anonymize s =
      ltb s.refresh_expires_at (subtract_days e.now e.session_anonymize_days)
      && ((is_some s.ip_address || is_some s.user_agent) && not (is_held e.now holds s.user_id))

  unfoldable pub sessions_to_delete : UserSession → Bool
  sessions_to_delete s =
      ltb s.refresh_expires_at (subtract_days e.now e.session_delete_days)
      && not (is_held e.now holds s.user_id)

  unfoldable pub events_to_anonymize : EventRow → Bool
  events_to_anonymize v =
      ltb v.created_at (subtract_days e.now e.event_anonymize_days)
      && not (is_held? e.now holds v.user_id)

  unfoldable pub events_to_delete : EventRow → Bool
  events_to_delete v =
      ltb v.created_at (subtract_days e.now e.event_delete_days)
      && not (is_held? e.now holds v.user_id)

  unfoldable pub logs_to_anonymize : AuditLog → Bool
  logs_to_anonymize r =
      ltb r.created_at (subtract_days e.now e.audit_anonymize_days)
      && not (is_held? e.now holds r.actor_user_id)

  unfoldable pub logs_to_delete : AuditLog → Bool
  logs_to_delete r =
      ltb r.created_at (subtract_days e.now e.audit_delete_days)
      && not (is_held? e.now holds r.actor_user_id)

-- `.set({ ipAddress: null, userAgent: null })`
abbrev pub anonymize_session : UserSession → UserSession
anonymize_session s = record s { ip_address = none; user_agent = none }

-- `.set({ userId: null, payload: {} })`
abbrev pub anonymize_event : EventRow → EventRow
anonymize_event v = record v { user_id = none; payload = end }

-- `.set({ actorUserId: null, resourceId: null, payload: {} })`
abbrev pub anonymize_log : AuditLog → AuditLog
anonymize_log r = record r { actor_user_id = none; resource_id = none; payload = end }
