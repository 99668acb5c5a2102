-- ===== src/Auth/Event.antt =====
-- Tokens and security events: private helpers of `AuthService`
-- (packages/auth-core/src/auth-service.ts).
use id_provider.Base.{ℕ, String, Option, none, some, ◌∷◌}
use id_provider.Base.Json.{Fields}
use id_provider.Store.{SecurityEvent, Action, ok, err, insert_event, ◌>>◌}
use id_provider.Store.Env.{Env}
use Prim.Native.String

-- `createOpaqueToken`, at the n-th random value
unfoldable pub opaque_token : Env → String → ℕ → String
opaque_token e prefix n = String.◌++◌ prefix (String.◌++◌ "_" (e.random_text n))

-- `hashOpaqueToken`
abbrev pub hash_token : Env → String → String
hash_token e token = e.sha256_hex token

-- `onSecurityEvent`, which is awaited
unfoldable pub notify : Env → SecurityEvent → Action (Unit {0})
notify e ev w = (
  elim (e.on_security_event ev) [ none ↦ ok tt | some f ↦ err f ],
  record w { notified = ev ∷ w.notified },
)

-- `writeSecurityEvent`: the row is written, then the listener is called
unfoldable pub write_security_event : Env → String → Option ℕ → Fields → Action (Unit {0})
unfolding notify insert_event
write_security_event e event_type user_id payload = do
  let ev : SecurityEvent = record { user_id = user_id; event_type = event_type; payload = payload }
  insert_event ev
  notify e ev
