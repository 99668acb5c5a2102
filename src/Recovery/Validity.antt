-- ===== src/Recovery/Validity.antt =====
-- Which recovery codes are accepted after a new batch
-- (apps/idp-server/src/modules/mfa/mfa-recovery.service.ts).
use id_provider.Base.{
  ℕ, ==_refl, ==_iff, ◌≡◌, refl, sym, ap, ◌∙◌, true, false, String, str_eq, eq_iff, eq_refl, none,
  some, List, All, In, any, find, update, arith, inl, inr, Bool-cases,
}
use id_provider.Base.Unique.{
  IsUnique, All-update_rows, update-IsUnique, find_sound, find-none, find_only, find-any,
  any-update,
}
use id_provider.Base.Json.{field, str, end}
use id_provider.Store.{RecoveryCode, World, ok, err, api}
use id_provider.Store.Laws.{>>=_path}
use id_provider.Store.Env.{at_time}
use id_provider.Recovery.Code.{RecoveryEnv, normalize_code, lookup_hash}
use id_provider.Recovery.Format.{IsPlain}
use id_provider.Recovery.Generation.{generate_plain_code-normalize_code}
use id_provider.Recovery.Batch.{
  new_code, is_found_by, is_active_of, revoke_code, find_active_by_lookup_hash,
  count_active_by_user_id,
}
use id_provider.Recovery.Service.{
  Generated, record_of, create_security_event, generate_codes, regenerate_codes, is_valid,
  consume_code,
}
use id_provider.Recovery.Spent.{hash_key, hash_used, consume_code_refused}
use id_provider.Recovery.Insertion.{insert_codes-find, insert_codes-IsUnique, insert_codes-In}
use id_provider.Recovery.Drawing.{plain_codes-In, code_records-In}
use id_provider.Recovery.Recording.{create_security_event-kept}
use id_provider.Recovery.Renewal.{Batch, generate_codes-Batch}
use id_provider.Recovery.Acceptance.{find_unique, consume_code_accepts}

module _ (e : RecoveryEnv) (user_id : ℕ) where
  -- the table before a batch is put in still has unique hashes
  Batch-IsUnique :
      (g : Generated) (w w' : World) (b : Batch e user_id g w w')
      → IsUnique hash_key w.db.recovery_codes
      → IsUnique hash_key b.revoked.db.recovery_codes
  Batch-IsUnique g w w' b u = rw b.active_revoked (
      update-IsUnique hash_key (is_active_of user_id) (revoke_code e.env.now) (λ c. refl)
        w.db.recovery_codes u)

  -- After a generation that returns, each code that it gives out is accepted at every instant from
  -- its user, with the number of codes in force that are then left, and lookup hashes are unique
  -- again. The conditions: they were unique before, argon2 accepts a text against its own hash,
  -- and `toUpperCase` leaves digits and upper-case letters as they are.
  pub generate_codes-consume_code :
      (reason code : String) (now : ℕ) (w : World) (g : Generated)
      → IsUnique hash_key w.db.recovery_codes
      → ((n : ℕ) (s : String) → e.env.argon2_verify (e.env.argon2_hash n s) s ≡ true)
      → ((s : String) → IsPlain s → e.upper s ≡ s)
      → (generate_codes e user_id reason w).0 ≡ ok g
      → In code g.recovery_codes
      → let w' = (generate_codes e user_id reason w).1 in
        let later = record e { env = at_time e.env now } in
        IsUnique hash_key w'.db.recovery_codes
        × ((consume_code later user_id code w').0
            ≡ ok (count_active_by_user_id user_id (consume_code later user_id code w').1.db))
  unfolding lookup_hash normalize_code
  generate_codes-consume_code reason code now w g u argon upper h i =
      let w' = (generate_codes e user_id reason w).1 in
      let b = generate_codes-Batch e user_id reason w g h in
      let (drawn, made) =
        plain_codes-In e e.code_count g.recovery_codes b.drawn code b.codes_drawn i in
      let (raw, grouped_raw, plain, long, once, twice) =
        generate_plain_code-normalize_code e drawn code upper made in
      let (salt, j) = code_records-In e g.recovery_codes b.records b.salted code b.records_made i in
      let (id, k) =
        insert_codes-In e user_id g.batch_id (record_of e code salt) b.records b.revoked j
          b.inserted in
      let row = new_code e user_id g.batch_id (record_of e code salt) id in
      let unique : IsUnique hash_key w'.db.recovery_codes = rw b.left (
        insert_codes-IsUnique e user_id g.batch_id b.records b.revoked (Batch-IsUnique g w w' b u)
          b.inserted) in
      let twice_same : normalize_code e (normalize_code e code) ≡ normalize_code e code =
        ap (normalize_code e) once ∙ (twice ∙ sym once) in
      let same : hash_used e user_id code w' ≡ row.lookup_hash =
        ap (e.hmac_sha256 e.pepper) twice_same in
      let fits : is_found_by (hash_used e user_id code w') row ≡ true =
        rw same (rw (eq_refl row.lookup_hash) refl) in
      let found =
        find_unique (hash_used e user_id code w') w'.db.recovery_codes row unique (rw b.left k)
          fits in
      let valid : is_valid e user_id (normalize_code e code) row ≡ true =
        rw (==_refl user_id, argon salt (normalize_code e code)) refl in
      (
        unique,
        consume_code_accepts (record e { env = at_time e.env now }) user_id code w' row found valid
            b.known,
      )

  -- the rows after the codes of a user were revoked
  revoked_rows :
      (now : ℕ) (hash : String) (r : RecoveryCode) (cs : List RecoveryCode)
      → IsUnique hash_key cs
      → find (is_found_by hash) cs ≡ some r
      → r.user_id ≡ user_id
      → All (λ x. is_found_by hash x ≡ false) (update (is_active_of user_id) (revoke_code now) cs)
  revoked_rows now hash r cs u found owner =
      All-update_rows (λ x. is_found_by hash x ≡ false) (λ x. x.lookup_hash ≡ r.lookup_hash → x ≡ r)
        (is_active_of user_id) (revoke_code now) (λ x o h. ground arith) (λ x o n. left x o n) cs
        (find_only hash_key (is_found_by hash) cs r u found)
    where
      mine : r.lookup_hash ≡ hash
      mine =
          let fits = find_sound (is_found_by hash) cs r found in
          (eq_iff r.lookup_hash hash).0 (ground arith)

      left :
          (x : RecoveryCode)
          → (x.lookup_hash ≡ r.lookup_hash → x ≡ r)
          → is_active_of user_id x ≡ false
          → is_found_by hash x ≡ false
      left x o n = elim (Bool-cases (str_eq x.lookup_hash hash)) [
        | inl same ↦
            let h : x ≡ r = o ((eq_iff x.lookup_hash hash).0 same ∙ sym mine) in
            let i : x.user_id ≡ user_id = ap (λ y. y.user_id) h ∙ owner in
            ground (arith, (==_iff x.user_id user_id).1 i)
        | inr other ↦ rw other
      ]

  generate_codes_revokes :
      (reason hash : String) (w : World) (g : Generated) (r : RecoveryCode)
      → IsUnique hash_key w.db.recovery_codes
      → find (is_found_by hash) w.db.recovery_codes ≡ some r
      → r.user_id ≡ user_id
      → (generate_codes e user_id reason w).0 ≡ ok g
      → find (is_found_by hash) (generate_codes e user_id reason w).1.db.recovery_codes ≡ none
  generate_codes_revokes reason hash w g r u found owner h =
      let b = generate_codes-Batch e user_id reason w g h in
      let fits = find_sound (is_found_by hash) w.db.recovery_codes r found in
      let has_hash = λ (c : RecoveryCode). str_eq c.lookup_hash hash in
      let held : any has_hash b.revoked.db.recovery_codes ≡ true = rw b.active_revoked (
        any-update has_hash (is_active_of user_id) (revoke_code e.env.now) (λ c t. t)
          w.db.recovery_codes
          (find-any (is_found_by hash) has_hash w.db.recovery_codes r found (ground arith))) in
      let gone : find (is_found_by hash) b.revoked.db.recovery_codes ≡ none = rw b.active_revoked (
        find-none (is_found_by hash) _
          (revoked_rows e.env.now hash r w.db.recovery_codes u found owner)) in
      rw b.left
        (insert_codes-find e user_id g.batch_id hash b.records b.revoked held b.inserted ∙ gone)

  -- A code that was in force for a user before a `regenerateCodes` of that user that returns is
  -- refused after it, at every instant and to every user, without any write, if lookup hashes
  -- were unique.
  pub regenerate_codes_refuses :
      (other : ℕ) (code : String) (now : ℕ) (w : World) (g : Generated) (r : RecoveryCode)
      → IsUnique hash_key w.db.recovery_codes
      → find_active_by_lookup_hash (lookup_hash e (normalize_code e code)) w.db ≡ some r
      → r.user_id ≡ user_id
      → (regenerate_codes e user_id w).0 ≡ ok g
      → let w' = (regenerate_codes e user_id w).1 in
        consume_code (record e { env = at_time e.env now }) other code w'
        ≡ (err (api 401 "invalid_mfa_recovery_code"), w')
  unfolding regenerate_codes find_active_by_lookup_hash lookup_hash
  regenerate_codes_refuses other code now w g r u found owner h =
      let (x, w1, a, p) =
        >>=_path
          (create_security_event "mfa.recovery_codes.revoked" user_id
            (field "reason" (str "regenerated") end))
          _ w h in
      let same : w1.db.recovery_codes ≡ w.db.recovery_codes =
        ap (λ r. r.1.db.recovery_codes) (sym a)
        ∙ ap (λ x. x.0) (create_security_event-kept user_id _ _ w) in
      let gone =
        generate_codes_revokes "regenerated" (hash_used e user_id code w) w1 g r (rw same u)
          (rw same found) owner (ap (λ r. r.0) (sym p) ∙ h) in
      rw p (
        consume_code_refused (record e { env = at_time e.env now }) other code
          (generate_codes e user_id "regenerated" w1).1 gone)
