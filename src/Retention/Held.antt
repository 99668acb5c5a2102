-- ===== src/Retention/Held.antt =====
-- Legal holds: what a run of the retention job keeps
-- (apps/idp-server/src/jobs/data-retention.ts).
use id_provider.Base.{ℕ, ◌≡◌, refl, ap, ◌∙◌, true, false, some, List, In, arith}
use id_provider.Base.Unique.{IsUnique}
use id_provider.Store.{UserSession, AuditLog}
use id_provider.Retention.Rows.{
  Tables, LegalHold, RetentionEnv, EventRow, is_held, is_held?, sessions_to_anonymize,
  sessions_to_delete, events_to_anonymize, events_to_delete, logs_to_anonymize, logs_to_delete,
  anonymize_session, anonymize_event, anonymize_log,
}
use id_provider.Retention.Turns.{Turns, tables_after}
use id_provider.Retention.Keeping.{loops_keep}

module _ (e : RetentionEnv) (holds : List LegalHold) where
  session_spared :
      (s : UserSession) (user : ℕ)
      → s.user_id ≡ user
      → is_held e.now holds user ≡ true
      → (sessions_to_anonymize e holds s ≡ false) × (sessions_to_delete e holds s ≡ false)
  unfolding sessions_to_anonymize sessions_to_delete
  session_spared s user o h =
      let h' : is_held e.now holds s.user_id ≡ true = ap (is_held e.now holds) o ∙ h in ground arith

  event_spared :
      (v : EventRow) (user : ℕ)
      → v.user_id ≡ some user
      → is_held e.now holds user ≡ true
      → (events_to_anonymize e holds v ≡ false) × (events_to_delete e holds v ≡ false)
  unfolding events_to_anonymize events_to_delete is_held?
  event_spared v user o h =
      let h' : is_held? e.now holds v.user_id ≡ true = ap (is_held? e.now holds) o ∙ h in
      ground arith

  log_spared :
      (r : AuditLog) (user : ℕ)
      → r.actor_user_id ≡ some user
      → is_held e.now holds user ≡ true
      → (logs_to_anonymize e holds r ≡ false) × (logs_to_delete e holds r ≡ false)
  unfolding logs_to_anonymize logs_to_delete is_held?
  log_spared r user o h =
      let h' : is_held? e.now holds r.actor_user_id ≡ true = ap (is_held? e.now holds) o ∙ h in
      ground arith

-- At every point of a run, and so also of one that never ends: after any number of turns of each of
-- the six loops, every session, event and audit log of a user under an active legal hold is in its
-- table unchanged, if the ids of each table are unique.
pub run_data_retention_job_holds :
    (e : RetentionEnv) (n : Turns) (t : Tables) (user : ℕ)
    → IsUnique (λ (s : UserSession). s.id) t.sessions
    → IsUnique (λ (v : EventRow). v.id) t.events
    → IsUnique (λ (r : AuditLog). r.id) t.audit_logs
    → is_held e.now t.holds user ≡ true
    → let t' = tables_after e n t in
      ((s : UserSession) → In s t.sessions → s.user_id ≡ user → In s t'.sessions)
      × ((v : EventRow) → In v t.events → v.user_id ≡ some user → In v t'.events)
      × ((r : AuditLog) → In r t.audit_logs → r.actor_user_id ≡ some user → In r t'.audit_logs)
unfolding tables_after
run_data_retention_job_holds e n t user us uv ur held = (
  λ s i o.
      let (a, d) = session_spared e t.holds s user o held in
      loops_keep (λ s. s.id) (sessions_to_anonymize e t.holds) (sessions_to_delete e t.holds) s a d
        anonymize_session (λ s. refl) n.anonymize_sessions n.delete_sessions e.chunk_size t.sessions
        i us,
  λ v i o.
      let (a, d) = event_spared e t.holds v user o held in
      loops_keep (λ v. v.id) (events_to_anonymize e t.holds) (events_to_delete e t.holds) v a d
        anonymize_event (λ v. refl) n.anonymize_events n.delete_events e.chunk_size t.events i uv,
  λ r i o.
      let (a, d) = log_spared e t.holds r user o held in
      loops_keep (λ r. r.id) (logs_to_anonymize e t.holds) (logs_to_delete e t.holds) r a d
        anonymize_log (λ r. refl) n.anonymize_logs n.delete_logs e.chunk_size t.audit_logs i ur,
)
