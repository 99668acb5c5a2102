-- ===== src/Audit/Intact.antt =====
-- An audit log that `writeAuditLog` has written passes `verifyIntegrityRange`
-- (packages/auth-core/src/auth-service.ts, apps/idp-server/src/modules/audit/audit.repository.ts).
use id_provider.Base.{◌<◌, String, Option, List, [], ◌∷◌, All}
use id_provider.Store.{AuditLog}
use id_provider.Store.Env.{Env}
use id_provider.Audit.Log.{entry_hash}

-- the hash that the loop expects after the rows
abbrev expected_after : Option String → List AuditLog → Option String
expected_after h [] = h
expected_after h (y ∷ ys) = expected_after y.entry_hash ys

abbrev Descending : List AuditLog → Type 0
Descending [] = Unit
Descending (r ∷ rs) = All (λ x. x.created_at < r.created_at) rs × Descending rs
