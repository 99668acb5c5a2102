-- ===== src/Audit/Stored.antt =====
-- What a jsonb column keeps of a payload, and its hash
-- (apps/idp-server/src/modules/audit/audit.repository.ts).
use id_provider.Base.{◌≡◌, refl, String}
use id_provider.Base.Json.{
  Json, null, bool, num, str, arr, obj, date, other, Items, nil, cons, Fields, field, end,
  put_field, stored, stored_items, stored_fields,
}
use id_provider.Store.{AuditLog}
use id_provider.Store.Env.{Env}
use id_provider.Audit.Canonical.{canonicalize, canonical_items, canonical_fields}
use id_provider.Audit.Log.{entry_hash}

-- no part is a value that JSON does not have
unfoldable mutual
  pub IsPlainJson : Json → Type 0
  IsPlainJson (arr xs) = ArePlainItems xs
  IsPlainJson (obj fs) = ArePlainFields fs
  IsPlainJson (other text) = ⊥
  IsPlainJson v = Unit

  pub ArePlainItems : Items → Type 0
  ArePlainItems nil = Unit
  ArePlainItems (cons x xs) = IsPlainJson x × ArePlainItems xs

  pub ArePlainFields : Fields → Type 0
  ArePlainFields end = Unit
  ArePlainFields (field k v fs) = IsPlainJson v × ArePlainFields fs

put_field_plain :
    (k : String) (v kept : Json) (fs : Fields)
    → IsPlainJson v
    → put_field k v kept fs ≡ field k kept fs
unfolding IsPlainJson
put_field_plain k null kept fs p = refl
put_field_plain k (bool b) kept fs p = refl
put_field_plain k (num n) kept fs p = refl
put_field_plain k (str s) kept fs p = refl
put_field_plain k (arr xs) kept fs p = refl
put_field_plain k (obj gs) kept fs p = refl
put_field_plain k (date t) kept fs p = refl
put_field_plain k (other text) kept fs p = absurd p

mutual
  unfolding canonicalize stored IsPlainJson

  canonicalize-stored :
      (e : Env) (v : Json) → IsPlainJson v → canonicalize e (stored e.iso_text v) ≡ canonicalize e v
  canonicalize-stored e null p = refl
  canonicalize-stored e (bool b) p = refl
  canonicalize-stored e (num n) p = refl
  canonicalize-stored e (str s) p = refl
  canonicalize-stored e (date t) p = refl
  canonicalize-stored e (other text) p = absurd p
  canonicalize-stored e (arr xs) p = rw (canonical_items-stored e xs p) refl
  canonicalize-stored e (obj fs) p = rw (canonical_fields-stored e fs p) refl

  canonical_items-stored :
      (e : Env) (xs : Items)
      → ArePlainItems xs
      → canonical_items e (stored_items e.iso_text xs) ≡ canonical_items e xs
  canonical_items-stored e nil p = refl
  canonical_items-stored e (cons x xs) (p, q) =
      rw (canonicalize-stored e x p, canonical_items-stored e xs q) refl

  canonical_fields-stored :
      (e : Env) (fs : Fields)
      → ArePlainFields fs
      → canonical_fields e (stored_fields e.iso_text fs) ≡ canonical_fields e fs
  canonical_fields-stored e end p = refl
  canonical_fields-stored e (field k v fs) (p, q) =
      rw
        (
          put_field_plain k v (stored e.iso_text v) (stored_fields e.iso_text fs) p,
          canonicalize-stored e v p,
          canonical_fields-stored e fs q,
        )
        refl

-- the hash of an entry is that of the row that is read back
pub entry_hash-stored :
    (e : Env) (r : AuditLog) (payload : Fields)
    → ArePlainFields payload
    → entry_hash e (record r { payload = payload })
      ≡ entry_hash e (record r { payload = stored_fields e.iso_text payload })
unfolding entry_hash canonicalize
entry_hash-stored e r payload p = rw (entry_hash, canonical_fields-stored e payload p) refl
