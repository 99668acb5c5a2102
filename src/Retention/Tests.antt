-- ===== src/Retention/Tests.antt =====
-- Runs of the retention job over small tables (apps/idp-server/src/jobs/data-retention.ts).
use id_provider.Base.{◌*◌, ℕ, ◌≡◌, refl, true, false, none, some, [], ◌∷◌, In, arith}
use id_provider.Base.Json.{end}
use id_provider.Store.{UserSession, AuditLog}
use id_provider.Retention.Rows.{
  Tables, LegalHold, RetentionEnv, EventRow, is_held, is_held?, events_to_anonymize,
  logs_to_anonymize, sessions_to_anonymize, sessions_to_delete, events_to_delete,
}
use id_provider.Retention.Loop.{anonymize_pass, delete_pass}
use id_provider.Retention.Job.{Summary, run_log, run_data_retention_job}
use id_provider.Retention.Run.{
  swept, swept_tables, run_data_retention_job_ends, run_data_retention_job_dry,
  run_data_retention_job_stuck,
}
use id_provider.Retention.Held.{run_data_retention_job_holds}
use id_provider.Retention.Turns.{Turns, all_turns, tables_after}

abbrev day : ℕ
day = 86400000

abbrev env : RetentionEnv
env = record {
  now = 40 * day;
  chunk_size = 1;
  session_anonymize_days = 10;
  session_delete_days = 20;
  event_anonymize_days = 10;
  event_delete_days = 20;
  audit_anonymize_days = 10;
  audit_delete_days = 20;
  row_id = 99;
  iso_now = "1970-02-10T00:00:00.000Z";
}

-- a session of a user, with its refresh token's expiry
abbrev session : ℕ → ℕ → ℕ → UserSession
session id user expiry = record {
  id = id;
  user_id = user;
  access_token_hash = "a";
  refresh_token_hash = "r";
  ip_address = some "::1";
  user_agent = none;
  expires_at = 0;
  refresh_expires_at = expiry;
  revoked_at = none;
  last_seen_at = 0;
  created_at = 0;
}

abbrev event : ℕ → ℕ → ℕ → EventRow
event id user created = record {
  id = id;
  user_id = some user;
  event_type = "login.success";
  payload = end;
  created_at = created;
}

abbrev hold : LegalHold
hold = record { id = 1; user_id = 7; reason = "case"; expires_at = none; created_at = 0 }

-- sessions to delete, to anonymize and to leave alone, one of them held; a recent event
abbrev tables : Tables
tables = record {
  sessions =
      session 1 7 (5 * day)
      ∷ session 2 8 (5 * day)
      ∷ session 3 8 (25 * day)
      ∷ session 4 8 (35 * day)
      ∷ [];
  events = event 1 8 (39 * day) ∷ [];
  audit_logs = [];
  holds = hold ∷ [];
}

-- the sessions of a run that returns
swept_sessions :
    run_data_retention_job 9 env false tables
    ≡ some (
      swept env tables false,
      record tables {
        sessions =
            session 1 7 (5 * day)
            ∷ record (session 3 8 (25 * day)) { ip_address = none }
            ∷ session 4 8 (35 * day)
            ∷ [];
        audit_logs = run_log env (swept env tables false) ∷ [];
      },
    )
unfolding run_data_retention_job anonymize_pass delete_pass sessions_to_anonymize sessions_to_delete
    is_held events_to_anonymize events_to_delete
swept_sessions = refl

run_data_retention_job_ends_example :
    run_data_retention_job 9 env false tables
    ≡ some (swept env tables false, swept_tables env tables)
unfolding events_to_anonymize
run_data_retention_job_ends_example =
    run_data_retention_job_ends env tables 9 (omega arith) refl refl (omega arith)

run_data_retention_job_dry_example :
    (summary : Summary) × (t' : Tables) × (run_data_retention_job 9 env false tables
      ≡ some (summary, t'))
    × (run_data_retention_job 0 env true tables ≡ some (record summary { dry_run = true }, tables))
unfolding events_to_anonymize
run_data_retention_job_dry_example =
    run_data_retention_job_dry env tables 0 9 (omega arith) refl refl (omega arith)

-- an event of a day that is to be anonymized
abbrev old_event : Tables
old_event = record tables { events = event 1 8 (25 * day) ∷ [] }

run_data_retention_job_stuck_example : run_data_retention_job 1000 env false old_event ≡ none
unfolding events_to_anonymize logs_to_anonymize is_held? is_held
run_data_retention_job_stuck_example =
    run_data_retention_job_stuck env old_event 1000 (omega arith) refl

-- a held session beside an event at which the job never ends: two turns of the second loop
abbrev stuck_tables : Tables
stuck_tables = record tables { events = event 1 8 (25 * day) ∷ [] }

abbrev turns : Turns
turns = record (all_turns 0) { anonymize_sessions = 9; anonymize_events = 2 }

run_data_retention_job_holds_example :
    let t' = tables_after env turns stuck_tables in
    ((s : UserSession) → In s tables.sessions → s.user_id ≡ 7 → In s t'.sessions)
    × ((v : EventRow) → In v stuck_tables.events → v.user_id ≡ some 7 → In v t'.events)
    × ((r : AuditLog) → In r tables.audit_logs → r.actor_user_id ≡ some 7 → In r t'.audit_logs)
unfolding is_held
run_data_retention_job_holds_example =
    run_data_retention_job_holds env turns stuck_tables 7 (omega arith) (omega arith) tt refl
