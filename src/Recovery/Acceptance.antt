-- ===== src/Recovery/Acceptance.antt =====
-- A recovery code in force is accepted
-- (apps/idp-server/src/modules/mfa/mfa-recovery.service.ts).
use id_provider.Base.{
  ℕ, length, select, ◌≡◌, sym, ap, ◌∙◌, true, String, eq_iff, none, some, List, [], ◌∷◌, In, find,
  arith, inl, inr, Bool-cases, Option-cases,
}
use id_provider.Base.Unique.{IsUnique, find_sound, find_only}
use id_provider.Base.Members.{All-In}
use id_provider.Store.{RecoveryCode, World, has_user, ok}
use id_provider.Recovery.Code.{RecoveryEnv, normalize_code}
use id_provider.Recovery.Batch.{is_active_of, is_found_by, mark_used, count_active_by_user_id}
use id_provider.Recovery.Recording.{record_use_returns, record_use-kept}
use id_provider.Recovery.Service.{is_valid, consume_code}
use id_provider.Recovery.Spent.{hash_key, hash_used, consume_code_path}

-- a query by a unique key finds the row that it fits
pub find_unique :
    (hash : String) (cs : List RecoveryCode) (r : RecoveryCode)
    → IsUnique hash_key cs
    → In r cs
    → is_found_by hash r ≡ true
    → find (is_found_by hash) cs ≡ some r
find_unique hash cs r u i t = elim (Option-cases (find (is_found_by hash) cs)) [
  | inl nothing ↦ absurd (none_fits cs i nothing)
  | inr (s, found) ↦
      let fs = find_sound (is_found_by hash) cs s found in
      let same : r.lookup_hash ≡ s.lookup_hash =
        (eq_iff r.lookup_hash hash).0 (ground arith)
        ∙ sym ((eq_iff s.lookup_hash hash).0 (ground arith)) in
      let e : r ≡ s = All-In _ cs r (find_only hash_key (is_found_by hash) cs s u found) i same in
      rw e found
]
  where
    none_fits : (xs : List RecoveryCode) → In r xs → find (is_found_by hash) xs ≡ none → ⊥
    none_fits [] j n = j
    none_fits (x ∷ xs) j n = elim (Bool-cases (is_found_by hash x)) [
      | inl yes_ ↦ let n' : some x ≡ none = rw yes_ at n in cc
      | inr no_ ↦ elim j [
        | inl same ↦
            let e : is_found_by hash r ≡ is_found_by hash x = ap (is_found_by hash) same in cc
        | inr later ↦ none_fits xs later (rw no_ at n)
      ]
    ]

-- marking a code as used leaves the users
mark_used_known :
    (e : RecoveryEnv) (user_id id : ℕ) (w : World)
    → has_user user_id w.db ≡ true
    → has_user user_id (mark_used e id w).1.db ≡ true
unfolding mark_used
mark_used_known e user_id id w known = known

-- a code that is found, valid and active is accepted from a user of the table of users
pub consume_code_accepts :
    (e : RecoveryEnv) (user_id : ℕ) (code : String) (w : World) (r : RecoveryCode)
    → find (is_found_by (hash_used e user_id code w)) w.db.recovery_codes ≡ some r
    → is_valid e user_id (normalize_code e code) r ≡ true
    → has_user user_id w.db ≡ true
    → (consume_code e user_id code w).0
      ≡ ok (count_active_by_user_id user_id (consume_code e user_id code w).1.db)
unfolding count_active_by_user_id
consume_code_accepts e user_id code w r found valid known =
    let p = consume_code_path e user_id code w r found valid in
    let w1 = (mark_used e r.id w).1 in
    let counted = λ (cs : List RecoveryCode). length (select (is_active_of user_id) cs) in
    let same : counted w1.db.recovery_codes
        ≡ counted (consume_code e user_id code w).1.db.recovery_codes =
      ap counted (
        sym (ap (λ x. x.0) (record_use-kept e user_id w1))
        ∙ ap (λ x. x.1.db.recovery_codes) (sym p)) in
    ap (λ x. x.0) p
    ∙ (record_use_returns e user_id w1 (mark_used_known e user_id r.id w known) ∙ ap ok same)
