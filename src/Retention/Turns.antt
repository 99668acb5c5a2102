-- ===== src/Retention/Turns.antt =====
-- The tables in the middle of a run of the retention job: after any number of turns of each of its
-- six loops (apps/idp-server/src/jobs/data-retention.ts).
use id_provider.Base.{
  ℕ, zero, suc, ◌≡◌, refl, ◌∙◌, ◌+◌, Bool, false, Option, some, List, [], ◌∷◌, update, delete,
  length, inl, inr, arith,
}
use id_provider.Retention.Rows.{
  Tables, RetentionEnv, sessions_to_anonymize, sessions_to_delete, events_to_anonymize,
  events_to_delete, logs_to_anonymize, logs_to_delete, anonymize_session, anonymize_event,
  anonymize_log,
}
use id_provider.Retention.Loop.{has_id, chunk_ids, chunks, anonymize_pass, delete_pass}
use id_provider.Retention.Sweep.{List-cases, chunks_end, chunks_turn}

-- The table after some turns of the `while (true)` loop, or at its end if that is earlier.
unfoldable pub chunks_after : {S : Type 0} → ℕ → (S → List ℕ) → (List ℕ → S → ℕ × S) → S → S
chunks_after zero select_ids process_ids s = s
chunks_after (suc n) select_ids process_ids s = elim (select_ids s) [
  | [] ↦ s
  | i ∷ is ↦ chunks_after n select_ids process_ids (process_ids (i ∷ is) s).1
]

module _ {A : Type 0} (id : A → ℕ) (matches : A → Bool) where
  unfoldable pub anonymize_after : ℕ → ℕ → (A → A) → List A → List A
  unfolding chunks_after
  anonymize_after n size set rows =
      chunks_after n (chunk_ids id matches size)
        (λ ids rs. (length ids, update (λ r. has_id ids (id r)) set rs)) rows

  unfoldable pub delete_after : ℕ → ℕ → List A → List A
  unfolding chunks_after
  delete_after n size rows =
      chunks_after n (chunk_ids id matches size)
        (λ ids rs. (length ids, delete (λ r. has_id ids (id r)) rs)) rows

-- the turns of the six loops, in the order of the job
pub record Turns : Type 0 where
  pub anonymize_sessions : ℕ
  pub anonymize_events : ℕ
  pub anonymize_logs : ℕ
  pub delete_sessions : ℕ
  pub delete_events : ℕ
  pub delete_logs : ℕ

abbrev pub all_turns : ℕ → Turns
all_turns n = record {
  anonymize_sessions = n;
  anonymize_events = n;
  anonymize_logs = n;
  delete_sessions = n;
  delete_events = n;
  delete_logs = n;
}

-- The tables after these turns: the loops over one table follow one another, and no loop reads
-- another table than its own and the holds. A loop that has not begun has made no turn.
unfoldable pub tables_after : RetentionEnv → Turns → Tables → Tables
unfolding anonymize_after delete_after
tables_after e n t = record t {
  sessions =
      delete_after (λ s. s.id) (sessions_to_delete e t.holds) n.delete_sessions e.chunk_size
        (anonymize_after (λ s. s.id) (sessions_to_anonymize e t.holds) n.anonymize_sessions
          e.chunk_size anonymize_session t.sessions);
  events =
      delete_after (λ v. v.id) (events_to_delete e t.holds) n.delete_events e.chunk_size
        (anonymize_after (λ v. v.id) (events_to_anonymize e t.holds) n.anonymize_events e.chunk_size
          anonymize_event t.events);
  audit_logs =
      delete_after (λ r. r.id) (logs_to_delete e t.holds) n.delete_logs e.chunk_size
        (anonymize_after (λ r. r.id) (logs_to_anonymize e t.holds) n.anonymize_logs e.chunk_size
          anonymize_log t.audit_logs);
}

module _ {S : Type 0} (select_ids : S → List ℕ) (process_ids : List ℕ → S → ℕ × S) where
  pub chunks_after_end :
      (n : ℕ) (s : S) → select_ids s ≡ [] → chunks_after (suc n) select_ids process_ids s ≡ s
  unfolding chunks_after
  chunks_after_end n s h = rw (h, chunks_after) refl

  pub chunks_after_turn :
      (n : ℕ) (s : S) (i : ℕ) (is : List ℕ)
      → select_ids s ≡ i ∷ is
      → chunks_after (suc n) select_ids process_ids s
        ≡ chunks_after n select_ids process_ids (process_ids (i ∷ is) s).1
  unfolding chunks_after
  chunks_after_turn n s i is h = rw (h, chunks_after) refl

  -- a loop that ends within its fuel ends at the table after as many turns
  chunks-after :
      (fuel total n : ℕ) (s s' : S)
      → chunks fuel select_ids process_ids total s ≡ some (n, s')
      → chunks_after fuel select_ids process_ids s ≡ s'
  unfolding chunks
  chunks-after zero total n s s' h = cc
  chunks-after (suc fuel) total n s s' h = elim (List-cases (select_ids s)) [
    | inl e ↦
        let same : ◌≡◌ {A = Option (ℕ × S)} (some (total, s)) (some (n, s')) =
          rw (chunks_end select_ids process_ids fuel total s e) at h in
        chunks_after_end fuel s e ∙ second total n s s' same
    | inr (i, is, e) ↦
        chunks_after_turn fuel s i is e
        ∙ chunks-after fuel (total + (process_ids (i ∷ is) s).0) n (process_ids (i ∷ is) s).1 s'
            (rw (chunks_turn select_ids process_ids fuel total s i is e) at h)
  ]
    where
      second : (a b : ℕ) (x y : S) → ◌≡◌ {A = Option (ℕ × S)} (some (a, x)) (some (b, y)) → x ≡ y
      second a b x y h = ground arith

module _ {A : Type 0} (id : A → ℕ) (matches : A → Bool) where
  pub anonymize_pass-after :
      (fuel size n : ℕ) (set : A → A) (xs ys : List A)
      → anonymize_pass id matches fuel size false set xs ≡ some (n, ys)
      → anonymize_after id matches fuel size set xs ≡ ys
  unfolding anonymize_pass anonymize_after
  anonymize_pass-after fuel size n set xs ys h = chunks-after _ _ fuel 0 n xs ys h

  pub delete_pass-after :
      (fuel size n : ℕ) (xs ys : List A)
      → delete_pass id matches fuel size false xs ≡ some (n, ys)
      → delete_after id matches fuel size xs ≡ ys
  unfolding delete_pass delete_after
  delete_pass-after fuel size n xs ys h = chunks-after _ _ fuel 0 n xs ys h
