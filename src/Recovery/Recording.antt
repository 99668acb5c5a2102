-- ===== src/Recovery/Recording.antt =====
-- What the logs and events of the recovery codes leave as it was
-- (apps/idp-server/src/modules/mfa/mfa-recovery.service.ts).
use id_provider.Base.{
  ℕ, suc, leb, any, ◌==◌, some, if◌then◌else◌, ◌≡◌, refl, sym, ap, ◌∙◌, not, false, true, String,
  List, inl, inr, arith, Bool-cases,
}
use id_provider.Base.Json.{Fields, num, field, end, str}
use id_provider.Store.{
  Database, User, UserSession, RecoveryCode, AuditLog, World, ok, has_user, lacks_nullable_user,
  insert_audit_log, draw, gets, pure,
}
use id_provider.Store.Laws.{
  >>=-keeps, >>=_step, >>=_path, constrained-keeps, constrained_returns, constrained_dangling,
  draw-db, pure-db, pure-eq-ok, draw_lem, gets_lem, pure_lem, gets-db, pure_returns,
}
use id_provider.Audit.Log.{audit_row, write_audit_log}
use id_provider.Recovery.Code.{RecoveryEnv}
use id_provider.Recovery.Batch.{count_active_by_user_id}
use id_provider.Recovery.Service.{Generated, create_security_event, announce, record_use, user_log}

abbrev pub kept : Database → List RecoveryCode × (List UserSession × List User)
kept d = (d.recovery_codes, (d.sessions, d.users))

module _ (user_id : ℕ) where
  pub create_security_event-kept :
      (event_type : String) (payload : Fields) (w : World)
      → kept (create_security_event event_type user_id payload w).1.db ≡ kept w.db
  unfolding create_security_event
  create_security_event-kept event_type payload w = constrained-keeps kept _ _ _ (λ d. refl) w

  create_security_event_returns :
      (event_type : String) (payload : Fields) (w : World)
      → has_user user_id w.db ≡ true
      → (w' : World) × (create_security_event event_type user_id payload w ≡ (ok tt, w'))
        × (has_user user_id w'.db ≡ true)
  unfolding create_security_event
  create_security_event_returns event_type payload w known =
      (_, constrained_returns _ _ _ w refl (ap not known), known)

module _ (e : RecoveryEnv) (user_id : ℕ) where
  write_audit_log-kept :
      (action : String) (payload : Fields) (w : World)
      → kept (write_audit_log e.env (user_log e user_id action payload) w).1.db ≡ kept w.db
  unfolding write_audit_log
  write_audit_log-kept action payload w =
      >>=-keeps kept draw _ w (ap kept (draw-db w))
        (λ n w'. constrained-keeps kept _ _ _ (λ d. refl) w')

  insert_audit_log_returns :
      (row : List AuditLog → AuditLog) (w : World)
      → has_user user_id w.db ≡ true
      → (w' : World) × (insert_audit_log (some user_id) row w ≡ (ok tt, w'))
        × (has_user user_id w'.db ≡ true)
  unfolding insert_audit_log
  insert_audit_log_returns row w known = (_, constrained_returns _ _ _ w refl (ap not known), known)

  insert_audit_log_known :
      (row : List AuditLog → AuditLog) (w : World)
      → (insert_audit_log (some user_id) row w).0 ≡ ok tt
      → has_user user_id w.db ≡ true
  unfolding insert_audit_log
  insert_audit_log_known row w h =
      let o = constrained_dangling (λ d. false) (lacks_nullable_user (some user_id)) _ w h in
      ground arith

  write_audit_log_returns :
      (action : String) (payload : Fields) (w : World)
      → has_user user_id w.db ≡ true
      → (w' : World) × (write_audit_log e.env (user_log e user_id action payload) w ≡ (ok tt, w'))
        × (has_user user_id w'.db ≡ true)
  unfolding write_audit_log
  write_audit_log_returns action payload w known =
      let w1 = record w { draws = suc w.draws } in
      let input = user_log e user_id action payload in
      let (w', done, known') = insert_audit_log_returns (audit_row e.env input w.draws) w1 known in
      (w', >>=_step draw _ w w1 w.draws (draw_lem w) ∙ done, known')

  -- a log that is written has its user
  write_audit_log_known :
      (action : String) (payload : Fields) (w : World)
      → (write_audit_log e.env (user_log e user_id action payload) w).0 ≡ ok tt
      → has_user user_id w.db ≡ true
  unfolding write_audit_log
  write_audit_log_known action payload w h =
      let (n, w1, a, p) = >>=_path draw _ w h in
      let known =
        insert_audit_log_known (audit_row e.env (user_log e user_id action payload) n) w1
          (ap (λ r. r.0) (sym p) ∙ h) in
      ap (has_user user_id) (sym (draw-db w) ∙ ap (λ r. r.1.db) a) ∙ known

  pub record_use-kept : (w : World) → kept (record_use e user_id w).1.db ≡ kept w.db
  unfolding record_use
  record_use-kept w =
      >>=-keeps kept (gets (count_active_by_user_id user_id)) _ w (ap kept (gets-db _ w)) (λ n w1.
        >>=-keeps kept _ _ w1 (write_audit_log-kept _ _ w1) (λ _ w2.
          >>=-keeps kept _ _ w2 (create_security_event-kept user_id _ _ w2)
            (λ _ w3. >>=-keeps kept _ _ w3 (low n w3) (λ _ w4. ap kept (pure-db n w4)))))
    where
      low :
          (n : ℕ) (v : World)
          → kept
              ((if leb n 2
                  then create_security_event "mfa.recovery_codes.low" user_id
                      (field "remainingCount" (num n) end)
                  else pure tt)
                v).1.db
            ≡ kept v.db
      low n v = elim (Bool-cases (leb n 2)) [
        | inl few ↦ rw few (create_security_event-kept user_id _ _ v)
        | inr many ↦ rw many (ap kept (pure-db tt v))
      ]

  pub record_use_returns :
      (w : World)
      → has_user user_id w.db ≡ true
      → (record_use e user_id w).0 ≡ ok (count_active_by_user_id user_id w.db)
  unfolding record_use
  record_use_returns w known =
      let n = count_active_by_user_id user_id w.db in
      let payload = field "remainingCount" (num n) end in
      let (w1, a, known1) = write_audit_log_returns "mfa.recovery_code.used" payload w known in
      let (w2, b, known2) =
        create_security_event_returns user_id "mfa.recovery_code.used" payload w1 known1 in
      let (w3, c) = low n w2 known2 in
      ap (λ r. r.0)
        (>>=_step (gets (count_active_by_user_id user_id)) _ w w n (gets_lem _ w)
          ∙ (>>=_step _ _ w w1 tt a ∙ (>>=_step _ _ w1 w2 tt b ∙ (>>=_step _ _ w2 w3 tt c))))
      ∙ pure_returns n w3
    where
      low :
          (n : ℕ) (v : World)
          → has_user user_id v.db ≡ true
          → (v' : World) × ((if leb n 2
                  then create_security_event "mfa.recovery_codes.low" user_id
                      (field "remainingCount" (num n) end)
                  else pure tt)
                v
              ≡ (ok tt, v'))
      low n v h = elim (Bool-cases (leb n 2)) [
        | inl few ↦
            let (v', d, _) =
              create_security_event_returns user_id "mfa.recovery_codes.low"
                (field "remainingCount" (num n) end) v h in
            (v', rw few d)
        | inr many ↦ (v, rw many (pure_lem tt v))
      ]

  -- the log and the event of a batch leave the table of codes alone, and need a user
  pub announce-ok :
      (batch_id count : ℕ) (reason : String) (cs : List String) (w : World) (g : Generated)
      → (announce e user_id batch_id reason cs count w).0 ≡ ok g
      → let w' = (announce e user_id batch_id reason cs count w).1 in
        (record { batch_id = batch_id; recovery_codes = cs } ≡ g)
        × (w'.db.recovery_codes ≡ w.db.recovery_codes)
        × (has_user user_id w'.db ≡ true)
  unfolding announce
  announce-ok batch_id count reason cs w g h =
      let payload =
        field "batchId" (str (e.env.uuid_text batch_id))
          (field "count" (num count) (field "reason" (str reason) end)) in
      let (_, w1, a, p) = >>=_path _ _ w h in
      let h1 = ap (λ r. r.0) (sym p) ∙ h in
      let (_, w2, b, q) = >>=_path _ _ w1 h1 in
      let known =
        write_audit_log_known "mfa.recovery_codes.generated" payload w (ap (λ r. r.0) a) in
      let same : kept w2.db ≡ kept w.db =
        ap (λ r. kept r.1.db) (sym b)
        ∙ (create_security_event-kept user_id _ payload w1
            ∙ (ap (λ r. kept r.1.db) (sym a) ∙ write_audit_log-kept _ payload w)) in
      let whole = p ∙ q in
      let same' = ap (λ r. kept r.1.db) whole ∙ (ap kept (pure-db _ w2) ∙ same) in
      (
        pure-eq-ok _ g w2 (ap (λ r. r.0) (sym whole) ∙ h),
        ap (λ x. x.0) same',
        ap
              (λ (x : List RecoveryCode × (List UserSession × List User)).
                any (λ u. u.id == user_id) x.1.1)
              same'
            ∙ known,
      )
