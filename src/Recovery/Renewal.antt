-- ===== src/Recovery/Renewal.antt =====
-- A new batch of recovery codes: its codes work, and the codes before it do not
-- (apps/idp-server/src/modules/mfa/mfa-recovery.service.ts).
use id_provider.Base.{ℕ, ◌≡◌, refl, sym, ap, ◌∙◌, String, List, length, update, true}
use mathlib.Core.Path.{subst}
use id_provider.Store.{
  Database, World, has_user, Result, ok, err, transaction, rollback, draw, ◌>>=◌,
}
use id_provider.Store.Laws.{>>=_path, draw-db}
use id_provider.Recovery.Code.{RecoveryEnv}
use id_provider.Recovery.Batch.{
  CodeRecord, is_active_of, revoke_code, revoke_active_by_user_id, insert_codes, create_batch,
}
use id_provider.Recovery.Recording.{announce-ok}
use id_provider.Recovery.Service.{Generated, plain_codes, code_records, store_codes, generate_codes}
use id_provider.Recovery.Drawing.{plain_codes-db, code_records-db}

rollback_ok :
    {A : Type 0} (d : Database) (r : Result A × World) (a : A)
    → (rollback d r).0 ≡ ok a
    → (r.0 ≡ ok a) × (rollback d r ≡ r)
rollback_ok d (ok b, w) a h = (h, refl)
rollback_ok d (err f, w) a h = cc

-- What a generation that returns has done: the codes and records drawn, and the table of codes
-- before the batch is put in and after.
pub record Batch (e : RecoveryEnv) (user_id : ℕ) (g : Generated) (w w' : World) : Type 0 where
  pub drawn : World
  pub codes_drawn : (plain_codes e e.code_count drawn).0 ≡ ok g.recovery_codes
  pub records : List CodeRecord
  pub salted : World
  pub records_made : (code_records e g.recovery_codes salted).0 ≡ ok records
  pub revoked : World
  pub active_revoked :
      revoked.db.recovery_codes
      ≡ update (is_active_of user_id) (revoke_code e.env.now) w.db.recovery_codes
  pub inserted : (insert_codes e user_id g.batch_id records revoked).0 ≡ ok tt
  pub left :
      w'.db.recovery_codes ≡ (insert_codes e user_id g.batch_id records revoked).1.db.recovery_codes
  -- the log of the batch names its user
  pub known : has_user user_id w'.db ≡ true

create_batch-ok :
    (e : RecoveryEnv) (user_id batch_id : ℕ) (rs : List CodeRecord) (w : World)
    → (create_batch e user_id batch_id rs w).0 ≡ ok tt
    → let w1 = (revoke_active_by_user_id e user_id w).1 in
      ((insert_codes e user_id batch_id rs w1).0 ≡ ok tt)
      × ((create_batch e user_id batch_id rs w).1 ≡ (insert_codes e user_id batch_id rs w1).1)
unfolding create_batch transaction ◌>>=◌
create_batch-ok e user_id batch_id rs w h =
    let w1 = (revoke_active_by_user_id e user_id w).1 in
    let (done, same) = rollback_ok w.db (insert_codes e user_id batch_id rs w1) tt h in
    (done, ap (λ r. r.1) same)

module _ (e : RecoveryEnv) (user_id : ℕ) where
  revoke_active-codes :
      (w : World)
      → (revoke_active_by_user_id e user_id w).1.db.recovery_codes
        ≡ update (is_active_of user_id) (revoke_code e.env.now) w.db.recovery_codes
  unfolding revoke_active_by_user_id ◌>>=◌
  revoke_active-codes w = refl

  store_codes-Batch :
      (batch_id : ℕ) (reason : String) (cs : List String) (w w2 drawn : World) (g : Generated)
      → w2.db ≡ w.db
      → (plain_codes e e.code_count drawn).0 ≡ ok cs
      → (store_codes e user_id batch_id reason cs w2).0 ≡ ok g
      → Batch e user_id g w (store_codes e user_id batch_id reason cs w2).1
  unfolding store_codes
  store_codes-Batch batch_id reason cs w w2 drawn g same a h =
      let (rs, w3, c, p3) = >>=_path (code_records e cs) _ w2 h in
      let (x, w4, d, p4) =
        >>=_path (create_batch e user_id batch_id rs) _ w3 (ap (λ r. r.0) (sym p3) ∙ h) in
      let p = p3 ∙ p4 in
      let (done, world) = create_batch-ok e user_id batch_id rs w3 (ap (λ r. r.0) d) in
      let (q, unchanged, known) =
        announce-ok e user_id batch_id (length rs) reason cs w4 g (ap (λ r. r.0) (sym p) ∙ h) in
      rw p (
        rw (← q) (record {
          drawn = drawn;
          codes_drawn = a;
          records = rs;
          salted = w2;
          records_made = ap (λ r. r.0) c;
          revoked = (revoke_active_by_user_id e user_id w3).1;
          active_revoked =
              revoke_active-codes w3
              ∙ ap (λ d. update (is_active_of user_id) (revoke_code e.env.now) d.recovery_codes)
                  (ap (λ r. r.1.db) (sym c) ∙ (code_records-db e cs w2 ∙ same));
          inserted = done;
          left = unchanged ∙ ap (λ v. v.db.recovery_codes) (ap (λ r. r.1) (sym d) ∙ world);
          known = known;
        }))

  pub generate_codes-Batch :
      (reason : String) (w : World) (g : Generated)
      → (generate_codes e user_id reason w).0 ≡ ok g
      → Batch e user_id g w (generate_codes e user_id reason w).1
  unfolding generate_codes
  generate_codes-Batch reason w g h =
      let (n, w1, a, p1) = >>=_path draw _ w h in
      let (cs, w2, b, p2) =
        >>=_path (plain_codes e e.code_count) _ w1 (ap (λ r. r.0) (sym p1) ∙ h) in
      let p = p1 ∙ p2 in
      let same : w2.db ≡ w.db =
        ap (λ r. r.1.db) (sym b)
        ∙ (plain_codes-db e e.code_count w1 ∙ (ap (λ r. r.1.db) (sym a) ∙ draw-db w)) in
      let made =
        store_codes-Batch (e.env.random_uuid n) reason cs w w2 w1 g same (ap (λ r. r.0) b)
          (ap (λ r. r.0) (sym p) ∙ h) in
      subst (λ v. Batch e user_id g w v) (ap (λ r. r.1) (sym p)) made
