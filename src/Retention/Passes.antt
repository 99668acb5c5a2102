-- ===== src/Retention/Passes.antt =====
-- A run of the retention job that is not dry and returns, taken apart into its passes
-- (apps/idp-server/src/jobs/data-retention.ts).
use id_provider.Base.{ℕ, ◌≡◌, refl, false, Option, none, some, List, ◌∷◌}
use mathlib.Core.Path.{subst}
use id_provider.Store.{UserSession, AuditLog}
use id_provider.Retention.Rows.{
  Tables, RetentionEnv, EventRow, sessions_to_anonymize, sessions_to_delete, events_to_anonymize,
  events_to_delete, logs_to_anonymize, logs_to_delete, anonymize_session, anonymize_event,
  anonymize_log,
}
use id_provider.Retention.Loop.{anonymize_pass, delete_pass}
use id_provider.Retention.Job.{Summary, run_log, ◌>>=◌, run_data_retention_job}

-- what the six passes of a run that returns have returned
pub record Passes (fuel : ℕ) (e : RetentionEnv) (t t' : Tables) (summary : Summary) : Type 0 where
  pub sessions : List UserSession
  pub events : List EventRow
  pub logs : List AuditLog
  pub logs' : List AuditLog
  pub counts : ℕ × ℕ × ℕ × ℕ × ℕ × ℕ
  pub sessions_first :
      anonymize_pass
        (λ s. s.id)
        (sessions_to_anonymize e t.holds)
        fuel
        e.chunk_size
        false
        anonymize_session
        t.sessions
      ≡ some (counts.0, sessions)
  pub events_first :
      anonymize_pass
        (λ v. v.id)
        (events_to_anonymize e t.holds)
        fuel
        e.chunk_size
        false
        anonymize_event
        t.events
      ≡ some (counts.1, events)
  pub logs_first :
      anonymize_pass
        (λ r. r.id)
        (logs_to_anonymize e t.holds)
        fuel
        e.chunk_size
        false
        anonymize_log
        t.audit_logs
      ≡ some (counts.2, logs)
  pub sessions_then :
      delete_pass (λ s. s.id) (sessions_to_delete e t.holds) fuel e.chunk_size false sessions
      ≡ some (counts.3, t'.sessions)
  pub events_then :
      delete_pass (λ v. v.id) (events_to_delete e t.holds) fuel e.chunk_size false events
      ≡ some (counts.4, t'.events)
  pub logs_then :
      delete_pass (λ r. r.id) (logs_to_delete e t.holds) fuel e.chunk_size false logs
      ≡ some (counts.5, logs')
  pub logs_left : t'.audit_logs ≡ run_log e summary ∷ logs'

-- a chain that has a result has one at its first link
bind-some :
    {A B : Type 0} (m : Option A) (k : A → Option B) (b : B)
    → m >>= k ≡ some b
    → (a : A) × (m ≡ some a) × (k a ≡ some b)
bind-some none k b h = cc
bind-some (some a) k b h = (a, refl, h)

some_injective : {A : Type 0} (a b : A) → ◌≡◌ {A = Option A} (some a) (some b) → a ≡ b
some_injective a b h = cc

pub run_data_retention_job-Passes :
    (fuel : ℕ) (e : RetentionEnv) (t t' : Tables) (summary : Summary)
    → run_data_retention_job fuel e false t ≡ some (summary, t')
    → Passes fuel e t t' summary
unfolding run_data_retention_job
run_data_retention_job-Passes fuel e t t' summary h =
    let ((n0, ss), a, h0) =
      bind-some
        (anonymize_pass (λ s. s.id) (sessions_to_anonymize e t.holds) fuel e.chunk_size false
          anonymize_session t.sessions)
        _ (summary, t') h in
    let ((n1, vs), b, h1) =
      bind-some
        (anonymize_pass (λ v. v.id) (events_to_anonymize e t.holds) fuel e.chunk_size false
          anonymize_event t.events)
        _ (summary, t') h0 in
    let ((n2, rs), c, h2) =
      bind-some
        (anonymize_pass (λ r. r.id) (logs_to_anonymize e t.holds) fuel e.chunk_size false
          anonymize_log t.audit_logs)
        _ (summary, t') h1 in
    let ((n3, ss'), d, h3) =
      bind-some (delete_pass (λ s. s.id) (sessions_to_delete e t.holds) fuel e.chunk_size false ss)
        _ (summary, t') h2 in
    let ((n4, vs'), f, h4) =
      bind-some (delete_pass (λ v. v.id) (events_to_delete e t.holds) fuel e.chunk_size false vs) _
        (summary, t') h3 in
    let ((n5, rs'), g, h5) =
      bind-some (delete_pass (λ r. r.id) (logs_to_delete e t.holds) fuel e.chunk_size false rs) _
        (summary, t') h4 in
    subst (λ (u : Summary × Tables). Passes fuel e t u.1 u.0) (some_injective _ (summary, t') h5)
      (record {
        sessions = ss;
        events = vs;
        logs = rs;
        logs' = rs';
        counts = (n0, n1, n2, n3, n4, n5);
        sessions_first = a;
        events_first = b;
        logs_first = c;
        sessions_then = d;
        events_then = f;
        logs_then = g;
        logs_left = refl;
      })
