-- ===== src/Retention/Run.antt =====
-- The retention job as a whole: when it ends, what it has then done, when it never ends, and
-- what a dry run says (apps/idp-server/src/jobs/data-retention.ts).
use id_provider.Base.{
  ℕ, zero, suc, ◌+◌, ◌<◌, ◌≤◌, ◌||◌, ◌≡◌, refl, ap, inl, inr, Bool, true, false, Option, none, some,
  List, [], ◌∷◌, any, select, update, delete, length, Bool-cases, Option-cases, arith,
}
use id_provider.Base.Unique.{IsUnique, update-IsUnique}
use id_provider.Store.{UserSession, AuditLog}
use id_provider.Retention.Rows.{
  Tables, RetentionEnv, EventRow, is_held?, sessions_to_anonymize, sessions_to_delete,
  events_to_anonymize, events_to_delete, logs_to_anonymize, logs_to_delete, anonymize_session,
  anonymize_event, anonymize_log,
}
use id_provider.Retention.Loop.{anonymize_pass, delete_pass}
use id_provider.Retention.Pass.{
  delete_pass_ends, anonymize_pass_ends, anonymize_pass_idle, anonymize_pass_stuck,
}
use id_provider.Retention.Job.{Summary, run_log, run_data_retention_job}

length-select-le : {A : Type 0} (p : A → Bool) (xs : List A) → length (select p xs) ≤ length xs
length-select-le p [] = omega arith
length-select-le p (x ∷ xs) = ground (arith, length-select-le p xs)

length-update :
    {A : Type 0} (p : A → Bool) (f : A → A) (xs : List A) → length (update p f xs) ≡ length xs
length-update p f [] = refl
length-update p f (x ∷ xs) = ap suc (length-update p f xs)

length-select-update :
    {A : Type 0} (p q : A → Bool) (f : A → A)
    → ((x : A) → p (f x) ≡ p x)
    → (xs : List A) → length (select p (update q f xs)) ≡ length (select p xs)
length-select-update p q f h [] = refl
length-select-update p q f h (x ∷ xs) = ground (arith, h x, length-select-update p q f h xs)

-- no row fits, so none is selected
select_none : {A : Type 0} (p : A → Bool) (xs : List A) → any p xs ≡ false → select p xs ≡ []
select_none p [] h = refl
select_none p (x ∷ xs) h =
    let off : p x ≡ false = ground arith in rw off (select_none p xs (rw off at h))

module _ (e : RetentionEnv) (t : Tables) where
  -- the counts of a run in which no event and no audit log is anonymized
  abbrev pub swept : Bool → Summary
  swept dry_run = record {
    dry_run = dry_run;
    audit_logs = record {
      anonymized = 0;
      deleted = length (select (logs_to_delete e t.holds) t.audit_logs);
    };
    events = record {
      anonymized = 0;
      deleted = length (select (events_to_delete e t.holds) t.events);
    };
    sessions = record {
      anonymized = length (select (sessions_to_anonymize e t.holds) t.sessions);
      deleted = length (select (sessions_to_delete e t.holds) t.sessions);
    };
  }

  -- the tables after it
  abbrev pub swept_tables : Tables
  swept_tables = record t {
    sessions =
        delete (sessions_to_delete e t.holds)
          (update (sessions_to_anonymize e t.holds) anonymize_session t.sessions);
    events = delete (events_to_delete e t.holds) t.events;
    audit_logs = run_log e (swept false) ∷ delete (logs_to_delete e t.holds) t.audit_logs;
  }

  -- The settings let the loop advance, and the ids of each table are unique.
  abbrev pub IsRunnable : Type 0
  IsRunnable =
      (0 < e.chunk_size)
      × IsUnique (λ (s : UserSession). s.id) t.sessions
      × IsUnique (λ (v : EventRow). v.id) t.events
      × IsUnique (λ (r : AuditLog). r.id) t.audit_logs

  abbrev pub rows_in_all : ℕ
  rows_in_all = length t.sessions + length t.events + length t.audit_logs

  session_anonymized :
      (s : UserSession) → sessions_to_anonymize e t.holds (anonymize_session s) ≡ false
  unfolding sessions_to_anonymize
  session_anonymized s = ground arith

  session_deleted :
      (s : UserSession)
      → sessions_to_delete e t.holds (anonymize_session s) ≡ sessions_to_delete e t.holds s
  unfolding sessions_to_delete
  session_deleted s = refl

  event_selected_again :
      (v : EventRow)
      → events_to_anonymize e t.holds v ≡ true
      → events_to_anonymize e t.holds (anonymize_event v) ≡ true
  unfolding events_to_anonymize is_held?
  event_selected_again v h = ground arith

  log_selected_again :
      (r : AuditLog)
      → logs_to_anonymize e t.holds r ≡ true
      → logs_to_anonymize e t.holds (anonymize_log r) ≡ true
  unfolding logs_to_anonymize is_held?
  log_selected_again r h = ground arith

  -- A run returns on any fuel above the number of rows, if the chunk size is positive, ids are
  -- unique and no event and no audit log is to be anonymized. Every session, event and audit log
  -- that is to be deleted is gone, the sessions that remain to be anonymized have lost address
  -- and agent, all else is as it was, and a row with the true counts is written to the audit log.
  pub run_data_retention_job_ends :
      (fuel : ℕ)
      → IsRunnable
      → any (events_to_anonymize e t.holds) t.events ≡ false
      → any (logs_to_anonymize e t.holds) t.audit_logs ≡ false
      → rows_in_all < fuel
      → run_data_retention_job fuel e false t ≡ some (swept false, swept_tables)
  unfolding run_data_retention_job
  run_data_retention_job_ends zero r no_event no_log h = absurd (omega arith)
  run_data_retention_job_ends (suc fuel) (z, us, uv, ur) no_event no_log h =
      let anonymized =
        anonymize_pass_ends (λ s. s.id) (sessions_to_anonymize e t.holds) anonymize_session
          (suc fuel) e.chunk_size t.sessions session_anonymized (λ s. refl) z
          (omega (arith, length-select-le (sessions_to_anonymize e t.holds) t.sessions)) us in
      let events =
        anonymize_pass_idle (λ v. v.id) (events_to_anonymize e t.holds) anonymize_event fuel
          e.chunk_size t.events no_event in
      let logs =
        anonymize_pass_idle (λ r. r.id) (logs_to_anonymize e t.holds) anonymize_log fuel
          e.chunk_size t.audit_logs no_log in
      let rest = update (sessions_to_anonymize e t.holds) anonymize_session t.sessions in
      let same_length : length rest ≡ length t.sessions =
        length-update (sessions_to_anonymize e t.holds) anonymize_session t.sessions in
      let deleted =
        delete_pass_ends (λ s. s.id) (sessions_to_delete e t.holds) (suc fuel) e.chunk_size rest z
          (omega (arith, same_length, length-select-le (sessions_to_delete e t.holds) rest))
          (update-IsUnique (λ s. s.id) (sessions_to_anonymize e t.holds) anonymize_session
            (λ s. refl) t.sessions us) in
      let events_deleted =
        delete_pass_ends (λ v. v.id) (events_to_delete e t.holds) (suc fuel) e.chunk_size t.events z
          (omega (arith, length-select-le (events_to_delete e t.holds) t.events)) uv in
      let logs_deleted =
        delete_pass_ends (λ r. r.id) (logs_to_delete e t.holds) (suc fuel) e.chunk_size t.audit_logs
          z (omega (arith, length-select-le (logs_to_delete e t.holds) t.audit_logs)) ur in
      let same_count =
        length-select-update (sessions_to_delete e t.holds) (sessions_to_anonymize e t.holds)
          anonymize_session session_deleted t.sessions in
      rw (anonymized, events, logs, deleted, events_deleted, logs_deleted, same_count) refl

  -- A dry run returns at once, on any fuel: it changes no table, and it counts what a run with
  -- enough fuel deletes and anonymizes, if ids are unique, the chunk size is positive, and no event
  -- and no audit log is to be anonymized.
  pub run_data_retention_job_dry :
      (fuel enough : ℕ)
      → IsRunnable
      → any (events_to_anonymize e t.holds) t.events ≡ false
      → any (logs_to_anonymize e t.holds) t.audit_logs ≡ false
      → rows_in_all < enough
      → (summary : Summary) × (t' : Tables) × (run_data_retention_job enough e false t
          ≡ some (summary, t'))
        × (run_data_retention_job fuel e true t ≡ some (record summary { dry_run = true }, t))
  unfolding run_data_retention_job anonymize_pass delete_pass
  run_data_retention_job_dry fuel enough r no_event no_log h = (
    swept false,
    swept_tables,
    run_data_retention_job_ends enough r no_event no_log h,
    rw
        (
          select_none (events_to_anonymize e t.holds) t.events no_event,
          select_none (logs_to_anonymize e t.holds) t.audit_logs no_log,
        )
        refl,
  )

  -- A run over tables in which some event or audit log is to be anonymized never returns: it is
  -- out of fuel whatever fuel it has, since the rows are selected again after they are anonymized.
  pub run_data_retention_job_stuck :
      (fuel : ℕ)
      → 0 < e.chunk_size
      → any (events_to_anonymize e t.holds) t.events
          || any (logs_to_anonymize e t.holds) t.audit_logs
        ≡ true
      → run_data_retention_job fuel e false t ≡ none
  unfolding run_data_retention_job
  run_data_retention_job_stuck fuel z h = elim (Option-cases sessions_pass) [
    | inl out ↦ rw out refl
    | inr (done, went) ↦ elim (Bool-cases (any (events_to_anonymize e t.holds) t.events)) [
      | inl some_event ↦
          rw
            (
              went,
              anonymize_pass_stuck (λ v. v.id) (events_to_anonymize e t.holds) anonymize_event fuel
                  e.chunk_size t.events event_selected_again z some_event,
            )
            refl
      | inr no_event ↦ elim (Option-cases events_pass) [
        | inl out ↦ rw (went, out) refl
        | inr (done', went') ↦
            rw
              (
                went,
                went',
                anonymize_pass_stuck (λ r. r.id) (logs_to_anonymize e t.holds) anonymize_log fuel
                    e.chunk_size t.audit_logs log_selected_again z (rw no_event at h),
              )
              refl
      ]
    ]
  ]
    where
      sessions_pass : Option (ℕ × List UserSession)
      sessions_pass =
          anonymize_pass (λ s. s.id) (sessions_to_anonymize e t.holds) fuel e.chunk_size false
            anonymize_session t.sessions

      events_pass : Option (ℕ × List EventRow)
      events_pass =
          anonymize_pass (λ v. v.id) (events_to_anonymize e t.holds) fuel e.chunk_size false
            anonymize_event t.events
