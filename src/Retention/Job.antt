-- ===== src/Retention/Job.antt =====
-- `runDataRetentionJob` (apps/idp-server/src/jobs/data-retention.ts): six passes, and an audit
-- log of the run. Each pass has the fuel given; the job is `none` if one runs out of it.
use id_provider.Base.{ℕ, Bool, Option, none, some, ◌∷◌, if◌then◌else◌}
use id_provider.Base.Json.{Json, bool, num, str, obj, field, end}
use id_provider.Store.{AuditLog}
use id_provider.Retention.Rows.{
  Tables, RetentionEnv, sessions_to_anonymize, sessions_to_delete, events_to_anonymize,
  events_to_delete, logs_to_anonymize, logs_to_delete, anonymize_session, anonymize_event,
  anonymize_log,
}
use id_provider.Retention.Loop.{anonymize_pass, delete_pass}

pub record Counts : Type 0 where
  pub anonymized : ℕ
  pub deleted : ℕ

-- `DataRetentionRunSummary`
pub record Summary : Type 0 where
  pub dry_run : Bool
  pub audit_logs : Counts
  pub events : Counts
  pub sessions : Counts

abbrev counts_json : Counts → Json
counts_json c = obj (field "anonymized" (num c.anonymized) (field "deleted" (num c.deleted) end))

abbrev pub summary_json : Summary → Json
summary_json s = obj (
    field "dryRun" (bool s.dry_run) (
      field "auditLogs" (counts_json s.audit_logs) (
        field "securityEvents" (counts_json s.events)
          (field "sessions" (counts_json s.sessions) end))))

-- the row that records a run
abbrev pub run_log : RetentionEnv → Summary → AuditLog
run_log e summary = record {
  id = e.row_id;
  actor_user_id = none;
  action = "system.retention.execute";
  resource_type = "retention_job";
  resource_id = none;
  payload = field "executedAt" (str e.iso_now) (field "summary" (summary_json summary) end);
  prev_hash = none;
  entry_hash = none;
  integrity_version = 0;
  created_at = e.now;
}

infixl 5 ◌>>=◌
abbrev pub ◌>>=◌ : {A B : Type 0} → Option A → (A → Option B) → Option B
none >>= k = none
some a >>= k = k a

unfoldable pub run_data_retention_job : ℕ → RetentionEnv → Bool → Tables → Option (Summary × Tables)
run_data_retention_job fuel e dry_run t = do
  (session_anonymized, sessions) ←
      anonymize_pass (λ s. s.id) (sessions_to_anonymize e t.holds) fuel e.chunk_size dry_run
        anonymize_session t.sessions
  (event_anonymized, events) ←
      anonymize_pass (λ v. v.id) (events_to_anonymize e t.holds) fuel e.chunk_size dry_run
        anonymize_event t.events
  (log_anonymized, logs) ←
      anonymize_pass (λ r. r.id) (logs_to_anonymize e t.holds) fuel e.chunk_size dry_run
        anonymize_log t.audit_logs
  (session_deleted, sessions') ←
      delete_pass (λ s. s.id) (sessions_to_delete e t.holds) fuel e.chunk_size dry_run sessions
  (event_deleted, events') ←
      delete_pass (λ v. v.id) (events_to_delete e t.holds) fuel e.chunk_size dry_run events
  (log_deleted, logs') ←
      delete_pass (λ r. r.id) (logs_to_delete e t.holds) fuel e.chunk_size dry_run logs
  let summary : Summary = record {
    dry_run = dry_run;
    audit_logs = record { anonymized = log_anonymized; deleted = log_deleted };
    events = record { anonymized = event_anonymized; deleted = event_deleted };
    sessions = record { anonymized = session_anonymized; deleted = session_deleted };
  }
  some (
    summary,
    record t {
      sessions = sessions';
      events = events';
      audit_logs = if dry_run then logs' else run_log e summary ∷ logs';
    },
  )
