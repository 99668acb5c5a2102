-- ===== src/Audit/Instant.antt =====
-- The hash of an audit entry does not depend on the instant at which it is computed
-- (`buildEntryHash` of apps/idp-server/src/modules/audit/audit.repository.ts).
use id_provider.Base.{ℕ, ◌≡◌, refl, ap, String, List, [], ◌∷◌}
use id_provider.Base.Json.{
  Json, null, bool, num, str, arr, obj, date, other, Items, nil, cons, Fields, field, end,
}
use id_provider.Store.{AuditLog}
use id_provider.Store.Env.{Env, at_time}
use id_provider.Audit.Canonical.{
  canonicalize, canonical_items, canonical_fields, insert_entry, sort_entries,
}
use id_provider.Audit.Log.{entry_json, entry_hash}

insert_entry-at_time :
    (e : Env) (t : ℕ) (x : String × String) (xs : List (String × String))
    → insert_entry (at_time e t) x xs ≡ insert_entry e x xs
unfolding insert_entry
insert_entry-at_time e t x [] = refl
insert_entry-at_time e t x (y ∷ ys) = rw (insert_entry-at_time e t x ys) refl

sort_entries-at_time :
    (e : Env) (t : ℕ) (xs : List (String × String))
    → sort_entries (at_time e t) xs ≡ sort_entries e xs
unfolding sort_entries
sort_entries-at_time e t [] = refl
sort_entries-at_time e t (x ∷ xs) =
    rw (sort_entries-at_time e t xs) (insert_entry-at_time e t x (sort_entries e xs))

mutual
  unfolding canonicalize

  canonicalize-at_time :
      (e : Env) (t : ℕ) (j : Json) → canonicalize (at_time e t) j ≡ canonicalize e j
  canonicalize-at_time e t null = refl
  canonicalize-at_time e t (bool b) = refl
  canonicalize-at_time e t (num n) = refl
  canonicalize-at_time e t (str s) = refl
  canonicalize-at_time e t (date d) = refl
  canonicalize-at_time e t (other text) = refl
  canonicalize-at_time e t (arr xs) = rw (canonical_items-at_time e t xs) refl
  canonicalize-at_time e t (obj fs) =
      rw (canonical_fields-at_time e t fs, sort_entries-at_time e t (canonical_fields e fs)) refl

  canonical_items-at_time :
      (e : Env) (t : ℕ) (xs : Items) → canonical_items (at_time e t) xs ≡ canonical_items e xs
  canonical_items-at_time e t nil = refl
  canonical_items-at_time e t (cons x xs) =
      rw (canonicalize-at_time e t x, canonical_items-at_time e t xs) refl

  canonical_fields-at_time :
      (e : Env) (t : ℕ) (fs : Fields) → canonical_fields (at_time e t) fs ≡ canonical_fields e fs
  canonical_fields-at_time e t end = refl
  canonical_fields-at_time e t (field k v fs) =
      rw (canonicalize-at_time e t v, canonical_fields-at_time e t fs) refl

pub entry_hash-at_time :
    (e : Env) (t : ℕ) (r : AuditLog) → entry_hash (at_time e t) r ≡ entry_hash e r
unfolding entry_hash
entry_hash-at_time e t r = ap e.sha256_hex (canonicalize-at_time e t (entry_json e r))
