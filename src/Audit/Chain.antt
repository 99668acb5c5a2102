-- ===== src/Audit/Chain.antt =====
-- `writeAuditLog` extends the hash chain
-- (packages/auth-core/src/auth-service.ts, apps/idp-server/src/modules/audit/audit.repository.ts).
use id_provider.Base.{
  ℕ, ◌<◌, ◌≡◌, refl, ap, ◌∙◌, Bool, false, Option, none, some, List, [], ◌∷◌, All, select, arith,
  inl, inr, Bool-cases,
}
use id_provider.Store.{AuditLog}
use id_provider.Store.Env.{Env, at_time}
use id_provider.Audit.Log.{
  AuditInput, should_use_hash_chain, later, is_chained, last_row, hash_of, entry_hash, chained_row,
  prev_hash_in, audit_row,
}
use id_provider.Audit.Instant.{entry_hash-at_time}
use id_provider.Audit.Stored.{ArePlainFields, entry_hash-stored}

-- A log that is written entry by entry, each at an instant later than those before it, with payloads
-- that JSON has.
pub data Logged (e : Env) : List AuditLog → Type 0 where
  start : Logged e []
  write :
      (rows : List AuditLog) (t id : ℕ) (input : AuditInput)
      → Logged e rows
      → ArePlainFields input.payload
      → All (λ r. r.created_at < t) rows
      → Logged e (audit_row (at_time e t) input id rows ∷ rows)

abbrev pub latest_of : List AuditLog → Option AuditLog
latest_of [] = none
latest_of (r ∷ rs) = some r

-- the chained rows, newest first: each names the hash of the one before it
pub data IsChain (e : Env) : List AuditLog → Type 0 where
  empty : IsChain e []
  entry :
      (r : AuditLog) (rs : List AuditLog)
      → IsChain e rs
      → r.prev_hash ≡ hash_of (latest_of rs)
      → r.entry_hash ≡ some (entry_hash e r)
      → All (λ x. x.created_at < r.created_at) rs
      → IsChain e (r ∷ rs)

All-select :
    (P : AuditLog → Type 0) (p : AuditLog → Bool) (rs : List AuditLog)
    → All P rs
    → All P (select p rs)
All-select P p [] h = tt
All-select P p (r ∷ rs) (h, hs) = elim (Bool-cases (p r)) [
  | inl t ↦ rw t (h, All-select P p rs hs)
  | inr f ↦ rw f (All-select P p rs hs)
]

-- the last row of a chain by the order of the query is its newest
last_row-chain : (e : Env) (rs : List AuditLog) → IsChain e rs → last_row rs ≡ latest_of rs
unfolding last_row
last_row-chain e _ empty = refl
last_row-chain e _ (entry r [] c p h o) = refl
last_row-chain e _ (entry r (s ∷ rs) c p h (older, o)) =
    let ih = last_row-chain e (s ∷ rs) c in
    let young : later s r ≡ false = ground arith in rw (ih, young) refl

-- `writeAuditLog` extends the chain
pub Logged-IsChain :
    (e : Env) (rows : List AuditLog) → Logged e rows → IsChain e (select is_chained rows)
unfolding audit_row entry_hash
Logged-IsChain e _ start = empty
Logged-IsChain e _ (write rows t id input log plain_payload older) =
    let c = Logged-IsChain e rows log in
    elim (Bool-cases (should_use_hash_chain input.action)) [
      | inl chained ↦ rw chained (
          entry (chained_row (at_time e t) input id (prev_hash_in rows)) (select is_chained rows) c
            (ap hash_of (last_row-chain e (select is_chained rows) c))
            (ap some (
              entry_hash-at_time e t
                (record (chained_row (at_time e t) input id (prev_hash_in rows)) {
                  payload = input.payload;
                })
              ∙ entry_hash-stored e (chained_row (at_time e t) input id (prev_hash_in rows))
                  input.payload plain_payload))
            (All-select (λ x. x.created_at < t) is_chained rows older))
      | inr plain ↦ rw plain c
    ]
