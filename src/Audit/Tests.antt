-- ===== src/Audit/Tests.antt =====
-- A small audit log, and the theorem there
-- (apps/idp-server/src/modules/audit/audit.repository.ts).
use id_provider.Base.{ℕ, ◌≡◌, refl, true, false, str_eq, none, some, List, [], ◌∷◌}
use id_provider.Base.Json.{obj, field, end, bool, arr, cons, nil, null, other, stored_fields}
use id_provider.Audit.{canonicalize}
use id_provider.Store.{AuditLog}
use id_provider.Store.Env.{Env, at_time}
use id_provider.Store.Sample.{env}
use id_provider.Audit.Log.{AuditInput, should_use_hash_chain, audit_row, entry_hash}
use id_provider.Audit.Verify.{prev_hash_mismatch, entry_hash_mismatch, verify_integrity_range}

abbrev input : AuditInput
input = record {
  actor_user_id = none;
  action = "admin.update";
  resource_type = "user";
  resource_id = none;
  payload = end;
}

-- two entries, with the numbers of their random values, at two instants
abbrev rows : ℕ → ℕ → ℕ → ℕ → List AuditLog
rows t n u m =
    let one = audit_row (at_time env t) input n [] ∷ [] in
    audit_row (at_time env u) input m one ∷ one

-- in the same millisecond, the second entry may stand before the first
same_millisecond :
    (verify_integrity_range env none none (rows 10 4 10 2)).broken ≡ some (3, prev_hash_mismatch)
unfolding verify_integrity_range audit_row entry_hash
same_millisecond = refl

-- an action of an administrator is chained, another is not
chained :
    (should_use_hash_chain "admin.update" ≡ true) × (should_use_hash_chain "user.admin." ≡ false)
chained = (refl, refl)

-- the entries are checked from the first to the last
ends :
    ((verify_integrity_range env none none (rows 10 4 11 2)).first_id ≡ some 5)
    × ((verify_integrity_range env none none (rows 10 4 11 2)).last_id ≡ some 3)
unfolding verify_integrity_range audit_row
ends = (refl, refl)

-- the keys of an object in order
abbrev in_order : Env
in_order = record env { locale_le = λ a b. str_eq a "a" }

canonical :
    canonicalize in_order (obj (field "b" (bool true) (field "a" (arr (cons null nil)) end)))
    ≡ "{a:[null],b:true}"
unfolding canonicalize
canonical = refl

-- a field that is `undefined` is hashed, and not stored: the intact log is reported as broken
abbrev undefined_input : AuditInput
undefined_input = record input { payload = field "x" (other "undefined") end }

undefined_field :
    (verify_integrity_range env none none (audit_row env undefined_input 4 [] ∷ [])).broken
    ≡ some (5, entry_hash_mismatch)
unfolding verify_integrity_range audit_row entry_hash stored_fields
undefined_field = refl
