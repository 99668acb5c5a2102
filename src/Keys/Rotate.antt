-- ===== src/Keys/Rotate.antt =====
-- `getCurrentActiveKey`, `ensureKeyExists`, `rotateNow` and `rotateIfDue`
-- (packages/auth-core/src/key-store-service.ts).
use id_provider.Base.{
  ℕ, ◌+◌, ◌*◌, ◌==◌, ltb, Bool, true, false, not, ◌&&◌, String, Option, none, some, List, ◌∷◌, any,
  select, update, newest, is_none, if◌then◌else◌,
}
use id_provider.Store.{
  Database, SigningKey, Action, fault, draw, gets, pure, or_raise, constrained, transaction, User,
  ◌>>=◌, ◌>>◌,
}

-- What the service takes from outside: its options, the instant of the call, and the random values
-- of node:crypto by their number.
pub record KeyEnv : Type 0 where
  pub now : ℕ
  pub rotation_interval_hours : ℕ
  pub grace_period_hours : ℕ
  pub random_uuid : ℕ → ℕ
  pub private_key_pem : ℕ → String
  pub public_key_pem : ℕ → String

pub data RotationReason : Type 0 where
  scheduled manual emergency : RotationReason

abbrev pub reason_text : RotationReason → String
reason_text scheduled = "scheduled"
reason_text manual = "manual"
reason_text emergency = "emergency"

abbrev pub now_plus_hours : KeyEnv → ℕ → ℕ
now_plus_hours e hours = e.now + hours * 60 * 60 * 1000

-- the condition of `getCurrentActiveKey`
abbrev pub is_current : SigningKey → Bool
is_current k = k.is_active && (is_none k.expires_at && is_none k.revoked_at)

unfoldable pub get_current_active_key : Database → Option SigningKey
get_current_active_key d = newest (λ k. k.created_at) (select is_current d.signing_keys)

-- the foreign key `rotated_by` has no row
abbrev pub is_missing : Option ℕ → List User → Bool
is_missing none us = false
is_missing (some u) us = not (any (λ r. r.id == u) us)

abbrev pub lacks_actor : Option ℕ → Database → Bool
lacks_actor actor d = is_missing actor d.users

unfoldable pub insert_key : SigningKey → Action (Unit {0})
insert_key k =
    constrained (λ d. any (λ r. r.kid == k.kid) d.signing_keys) (lacks_actor k.rotated_by)
      (λ d. record d { signing_keys = k ∷ d.signing_keys })

-- the row of a new key, from the numbers of its random values
abbrev pub new_key : KeyEnv → ℕ → ℕ → Option ℕ → String → Option ℕ → SigningKey
new_key e pair id previous reason actor = record {
  kid = e.random_uuid id;
  alg = "RS256";
  private_key_pem = e.private_key_pem pair;
  public_key_pem = e.public_key_pem pair;
  is_active = true;
  rotated_from_kid = previous;
  rotation_reason = some reason;
  rotated_by = actor;
  created_at = e.now;
  expires_at = none;
  revoked_at = none;
}

-- `if (current)`
unfoldable pub ensure_from : KeyEnv → Option SigningKey → Action SigningKey
unfolding insert_key
ensure_from e (some k) = pure k
ensure_from e none = do
  pair ← draw
  id ← draw
  insert_key (new_key e pair id none "bootstrap" none)
  or_raise (← gets get_current_active_key) (fault "failed_to_create_signing_key")

unfoldable pub ensure_key_exists : KeyEnv → Action SigningKey
unfolding ensure_from
ensure_key_exists e = do current ← gets get_current_active_key; ensure_from e current

-- `deactivateSet`
abbrev pub deactivate : KeyEnv → RotationReason → Option ℕ → SigningKey → SigningKey
deactivate e emergency actor k = record k {
  is_active = false;
  expires_at = some e.now;
  revoked_at = some e.now;
  rotation_reason = some "emergency";
  rotated_by = actor;
}
deactivate e reason actor k = record k {
  is_active = false;
  expires_at = some (now_plus_hours e e.grace_period_hours);
  rotation_reason = some (reason_text reason);
  rotated_by = actor;
}

-- the row that the update hits
abbrev pub is_replaced : ℕ → SigningKey → Bool
is_replaced kid k = k.kid == kid && (k.is_active && is_none k.revoked_at)

pub data Rotation : Type 0 where
  rotated : ℕ → ℕ → RotationReason → Rotation
  kept : ℕ → RotationReason → Rotation

-- below `if (updated.length === 0)`
unfoldable pub add_next :
    KeyEnv → RotationReason → Option ℕ → ℕ → ℕ → ℕ → Bool → Action (Option Rotation)
unfolding insert_key
add_next e reason actor kid pair id false = pure none
add_next e reason actor kid pair id true = do
  insert_key (new_key e pair id (some kid) (reason_text reason) actor)
  pure (some (rotated (e.random_uuid id) kid reason))

-- the handler that `rotateNow` runs in a transaction
unfoldable pub rotate_body :
    KeyEnv → RotationReason → Option ℕ → ℕ → ℕ → ℕ → Action (Option Rotation)
unfolding add_next
rotate_body e reason actor kid pair id = do
  hit ← gets (λ d. any (is_replaced kid) d.signing_keys)
  constrained (λ d. false) (λ d. hit && lacks_actor actor d)
      (λ d. record d {
        signing_keys = update (is_replaced kid) (deactivate e reason actor) d.signing_keys;
      })
  add_next e reason actor kid pair id hit

-- `if (!rotated)`
unfoldable pub rotation_or_latest : KeyEnv → RotationReason → Option Rotation → Action Rotation
unfolding ensure_key_exists
rotation_or_latest e reason (some r) = pure r
rotation_or_latest e reason none = do latest ← ensure_key_exists e; pure (kept latest.kid reason)

-- below the query for the active key
unfoldable pub rotate_from : KeyEnv → RotationReason → Option ℕ → SigningKey → Action Rotation
unfolding transaction rotate_body rotation_or_latest
rotate_from e reason actor active = do
  pair ← draw
  id ← draw
  r ← transaction (rotate_body e reason actor active.kid pair id)
  rotation_or_latest e reason r

-- `rotateManual` and `rotateEmergency` are this with their reason
unfoldable pub rotate_now : KeyEnv → RotationReason → Option ℕ → Action Rotation
unfolding ensure_key_exists rotate_from
rotate_now e reason actor = do active ← ensure_key_exists e; rotate_from e reason actor active

unfoldable pub rotate_unless_early : KeyEnv → SigningKey → Action Rotation
unfolding rotate_now
rotate_unless_early e active =
    if ltb e.now (active.created_at + e.rotation_interval_hours * 60 * 60 * 1000)
    then pure (kept active.kid scheduled)
    else rotate_now e scheduled none

unfoldable pub rotate_if_due : KeyEnv → Action Rotation
unfolding ensure_key_exists rotate_unless_early
rotate_if_due e = do active ← ensure_key_exists e; rotate_unless_early e active
