-- ===== src/Recovery/Spent.antt =====
-- A recovery code is used once (apps/idp-server/src/modules/mfa/mfa-recovery.service.ts).
use id_provider.Base.{
  ℕ, ◌==◌, ==_iff, ==_refl, ◌⊎◌, ◌≡◌, refl, sym, ap, ◌∙◌, true, false, ◌&&◌, String, str_eq, eq_iff,
  none, some, List, All, find, update, arith, inl, inr, Bool-cases, Option-cases,
}
use id_provider.Base.Unique.{IsUnique, All-update_rows, find-any, find_sound, find-none, find_only}
use id_provider.Store.{RecoveryCode, World, ok, err, api, ◌>>=◌}
use id_provider.Store.Env.{at_time}
use id_provider.Recovery.Code.{RecoveryEnv, normalize_code, lookup_hash}
use id_provider.Recovery.Batch.{
  is_active, is_found_by, use_code, find_active_by_lookup_hash, mark_used,
}
use id_provider.Recovery.Recording.{record_use-kept}
use id_provider.Recovery.Service.{is_valid, record_use, consume_code}

abbrev pub hash_key : RecoveryCode → String
hash_key c = c.lookup_hash

-- the rows after one of them has been used
used_rows :
    (now : ℕ) (hash : String) (r : RecoveryCode) (cs : List RecoveryCode)
    → IsUnique hash_key cs
    → find (is_found_by hash) cs ≡ some r
    → All
        (λ x. is_found_by hash x ≡ false)
        (update (λ c. c.id == r.id && is_active c) (use_code now) cs)
used_rows now hash r cs unique found =
    All-update_rows (λ x. is_found_by hash x ≡ false) (λ x. x.lookup_hash ≡ r.lookup_hash → x ≡ r)
      (λ c. c.id == r.id && is_active c) (use_code now) (λ x o h. ground arith)
      (λ x o n. left x o n) cs (find_only hash_key (is_found_by hash) cs r unique found)
  where
    mine : r.lookup_hash ≡ hash
    mine =
        let u = find_sound (is_found_by hash) cs r found in
        (eq_iff r.lookup_hash hash).0 (ground arith)

    left :
        (x : RecoveryCode)
        → (x.lookup_hash ≡ r.lookup_hash → x ≡ r)
        → (x.id == r.id && is_active x) ≡ false
        → is_found_by hash x ≡ false
    left x o n = elim (Bool-cases (str_eq x.lookup_hash hash)) [
      | inl same ↦
          let h : x ≡ r = o ((eq_iff x.lookup_hash hash).0 same ∙ sym mine) in
          let i : x.id ≡ r.id = ap (λ y. y.id) h in ground arith
      | inr other ↦ rw other
    ]

module _ (e : RecoveryEnv) (user_id : ℕ) (code : String) (w : World) where
  abbrev pub hash_used : String
  hash_used = lookup_hash e (normalize_code e code)

  pub consume_code_refused :
      find_active_by_lookup_hash hash_used w.db ≡ none
      → consume_code e user_id code w ≡ (err (api 401 "invalid_mfa_recovery_code"), w)
  unfolding consume_code ◌>>=◌
  consume_code_refused h = rw h refl

  -- a code that is found and valid is marked, and its use recorded
  pub consume_code_path :
      (r : RecoveryCode)
      → find (is_found_by hash_used) w.db.recovery_codes ≡ some r
      → is_valid e user_id (normalize_code e code) r ≡ true
      → consume_code e user_id code w ≡ record_use e user_id (mark_used e r.id w).1
  unfolding consume_code mark_used find_active_by_lookup_hash ◌>>=◌
  consume_code_path r found valid =
      let s = find_sound (is_found_by hash_used) w.db.recovery_codes r found in
      let fits : (r.id == r.id && is_active r) ≡ true = ground (arith, ==_refl r.id) in
      let hit =
        find-any (is_found_by hash_used) (λ c. c.id == r.id && is_active c) w.db.recovery_codes r
          found fits in
      rw (found, valid, hit) refl

  consume_code_invalid :
      (r : RecoveryCode)
      → find (is_found_by hash_used) w.db.recovery_codes ≡ some r
      → is_valid e user_id (normalize_code e code) r ≡ false
      → consume_code e user_id code w ≡ (err (api 401 "invalid_mfa_recovery_code"), w)
  unfolding consume_code find_active_by_lookup_hash ◌>>=◌
  consume_code_invalid r found invalid = rw (found, invalid) refl

  -- what a call has found: no valid code, and nothing is written, or one that is marked
  pub consume_code-cases :
      (consume_code e user_id code w ≡ (err (api 401 "invalid_mfa_recovery_code"), w))
      ⊎ ((r : RecoveryCode) × (find_active_by_lookup_hash hash_used w.db ≡ some r)
          × (is_valid e user_id (normalize_code e code) r ≡ true)
          × (consume_code e user_id code w ≡ record_use e user_id (mark_used e r.id w).1))
  unfolding find_active_by_lookup_hash
  consume_code-cases = elim (Option-cases (find (is_found_by hash_used) w.db.recovery_codes)) [
    | inl missing ↦ inl (consume_code_refused missing)
    | inr (r, found) ↦ elim (Bool-cases (is_valid e user_id (normalize_code e code) r)) [
      | inl valid ↦ inr (r, found, valid, consume_code_path r found valid)
      | inr invalid ↦ inl (consume_code_invalid r found invalid)
    ]
  ]

  marked :
      (id : ℕ)
      → (mark_used e id w).1.db.recovery_codes
        ≡ update (λ c. c.id == id && is_active c) (use_code e.env.now) w.db.recovery_codes
  unfolding mark_used
  marked id = refl

  -- what a `consumeCode` that returns has found and leaves
  consume_code-db :
      (n : ℕ)
      → (consume_code e user_id code w).0 ≡ ok n
      → (r : RecoveryCode) × (find_active_by_lookup_hash hash_used w.db ≡ some r)
        × (is_valid e user_id (normalize_code e code) r ≡ true)
        × ((consume_code e user_id code w).1.db.recovery_codes
            ≡ update (λ c. c.id == r.id && is_active c) (use_code e.env.now) w.db.recovery_codes)
  consume_code-db n h = elim consume_code-cases [
    | inl refused ↦ cc (ap (λ x. x.0) refused)
    | inr (r, found, valid, p) ↦ (
      r,
      found,
      valid,
      ap (λ x. x.1.db.recovery_codes) p
          ∙ (ap (λ x. x.0) (record_use-kept e user_id (mark_used e r.id w).1) ∙ marked r.id),
    )
  ]

-- A `consumeCode` that returns was given a code in force of that user, which argon2 accepts.
-- Afterwards the code, or any with the same digest, is refused at every instant and to every
-- user, without any write, if lookup hashes were unique.
pub consume_code_once :
    (e : RecoveryEnv) (user_id other : ℕ) (code again : String) (now n : ℕ) (w : World)
    → IsUnique hash_key w.db.recovery_codes
    → (consume_code e user_id code w).0 ≡ ok n
    → lookup_hash e (normalize_code e again) ≡ lookup_hash e (normalize_code e code)
    → let w' = (consume_code e user_id code w).1 in
      (r : RecoveryCode) × (find_active_by_lookup_hash (lookup_hash e (normalize_code e code)) w.db
        ≡ some r)
      × (r.user_id ≡ user_id)
      × (e.env.argon2_verify r.code_hash (normalize_code e code) ≡ true)
      × (consume_code (record e { env = at_time e.env now }) other again w'
          ≡ (err (api 401 "invalid_mfa_recovery_code"), w'))
unfolding find_active_by_lookup_hash lookup_hash
consume_code_once e user_id other code again now n w unique h same =
    let w' = (consume_code e user_id code w).1 in
    let (r, found, valid, codes) = consume_code-db e user_id code w n h in
    let gone : find (is_found_by (hash_used e user_id code w)) w'.db.recovery_codes ≡ none =
      rw codes (
        find-none (is_found_by (hash_used e user_id code w)) _
          (used_rows e.env.now (hash_used e user_id code w) r w.db.recovery_codes unique found)) in
    (
      r,
      found,
      ground (arith, ==_iff r.user_id user_id),
      ground arith,
      consume_code_refused (record e { env = at_time e.env now }) other again w' (rw same gone),
    )
