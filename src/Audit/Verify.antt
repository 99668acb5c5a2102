-- ===== src/Audit/Verify.antt =====
-- `verifyIntegrityRange` (apps/idp-server/src/modules/audit/audit.repository.ts).
use id_provider.Base.{
  ℕ, leb, Bool, true, false, ◌&&◌, String, str_eq, Option, none, some, List, [], ◌∷◌, select,
  length, if◌then◌else◌,
}
use id_provider.Store.{AuditLog}
use id_provider.Store.Env.{Env}
use id_provider.Audit.Log.{later, is_chained, last_row, hash_of, entry_hash}

pub data Break : Type 0 where
  prev_hash_mismatch entry_hash_mismatch : Break

-- `checked`, `firstId`, `lastId`, and the row at which the chain is broken with the reason
pub record Report : Type 0 where
  pub checked : ℕ
  pub first_id : Option ℕ
  pub last_id : Option ℕ
  pub broken : Option (ℕ × Break)

-- `!==` on nullable texts, negated
abbrev pub same_text : Option String → Option String → Bool
same_text none none = true
same_text (some a) (some b) = str_eq a b
same_text _ _ = false

abbrev pub insert_row : AuditLog → List AuditLog → List AuditLog
insert_row x [] = x ∷ []
insert_row x (y ∷ ys) = if later x y then y ∷ insert_row x ys else x ∷ y ∷ ys

-- `.orderBy(asc(createdAt), asc(id))`
unfoldable pub ascending : List AuditLog → List AuditLog
ascending [] = []
ascending (x ∷ xs) = insert_row x (ascending xs)

-- the loop over the rows
unfoldable pub check_rows : Env → Option String → List AuditLog → Option (ℕ × Break)
check_rows e expected [] = none
check_rows e expected (row ∷ rows) =
    let rest = check_rows e row.entry_hash rows in
    if same_text row.prev_hash expected
    then if same_text row.entry_hash (some (entry_hash e row))
      then rest
      else some (row.id, entry_hash_mismatch)
    else some (row.id, prev_hash_mismatch)

-- the condition `createdAt >= from and createdAt <= to`, each part where it is given
abbrev pub in_range : Option ℕ → Option ℕ → AuditLog → Bool
in_range from to r =
    elim from [ none ↦ true | some t ↦ leb t r.created_at ]
    && elim to [ none ↦ true | some t ↦ leb r.created_at t ]

-- the hash of the last chained row before the first of the range
abbrev pub hash_before : AuditLog → List AuditLog → Option String
hash_before first rows = hash_of (last_row (select (λ r. is_chained r && later first r) rows))

-- `rows.slice(-1)`
abbrev pub last_of : AuditLog → List AuditLog → AuditLog
last_of r [] = r
last_of r (s ∷ ss) = last_of s ss

abbrev pub report_on : Env → List AuditLog → List AuditLog → Report
report_on e all [] = record { checked = 0; first_id = none; last_id = none; broken = none }
report_on e all (first ∷ rest) = record {
  checked = length (first ∷ rest);
  first_id = some first.id;
  last_id = some (last_of first rest).id;
  broken = check_rows e (hash_before first all) (first ∷ rest);
}

unfoldable pub verify_integrity_range : Env → Option ℕ → Option ℕ → List AuditLog → Report
unfolding ascending check_rows last_row
verify_integrity_range e from to rows =
    report_on e rows (ascending (select (λ r. is_chained r && in_range from to r) rows))
