-- ===== src/Access/Check.antt =====
-- `entitlementCheck` (packages/auth-core/src/auth-service.ts).
use id_provider.Base.{ℕ, leb, Bool, true, false, String, str_eq, Option, none, some, if◌then◌else◌}
use id_provider.Base.Json.{Json, bool, num, Fields, field, end}
use id_provider.Store.{Database}
use id_provider.Access.Permission.{Context}
use id_provider.Access.Entitlement.{
  EntitlementValue, switch, settings, Scope, nowhere, Resolved, resolve_entitlement,
}

pub data Reason : Type 0 where
  not_found enabled disabled within_limit limit_exceeded : Reason

pub record Grant : Type 0 where
  pub granted : Bool
  pub key : String
  pub source : Scope
  pub value : Option EntitlementValue
  pub reason : Reason

-- `value[name]`: the last of the fields of that name, as `JSON.parse` keeps it
unfoldable pub member : String → Fields → Option Json
member name end = none
member name (field k v rest) = elim (member name rest) [
  | none ↦ if str_eq k name then some v else none
  | some w ↦ some w
]

-- `typeof x === "number" ? x : undefined`
abbrev pub as_number : Option Json → Option ℕ
as_number (some (num n)) = some n
as_number _ = none

-- `typeof x === "boolean" ? x : true`
abbrev pub as_switch : Option Json → Bool
as_switch (some (bool b)) = b
as_switch _ = true

-- the rows below `const quantityLimit`, by the limit and the quantity
unfoldable pub grant_settings : String → Scope → Fields → Option ℕ → Option ℕ → Grant
grant_settings key s fs (some limit) (some quantity) =
    let granted = leb quantity limit in
    record {
      granted = granted;
      key = key;
      source = s;
      value = some (settings fs);
      reason = if granted then within_limit else limit_exceeded;
    }
grant_settings key s fs _ _ =
    let granted = as_switch (member "enabled" fs) in
    record {
      granted = granted;
      key = key;
      source = s;
      value = some (settings fs);
      reason = if granted then enabled else disabled;
    }

unfoldable pub grant : String → Option ℕ → Option Resolved → Grant
unfolding grant_settings
grant key quantity none = record {
  granted = false;
  key = key;
  source = nowhere;
  value = none;
  reason = not_found;
}
grant key quantity (some r) = elim r.value [
  | switch b ↦ record {
    granted = b;
    key = key;
    source = r.scope;
    value = some (switch b);
    reason = if b then enabled else disabled;
  }
  | settings fs ↦ grant_settings key r.scope fs (as_number (member "max" fs)) quantity
]

unfoldable pub entitlement_check : Database → ℕ → ℕ → String → Context → Option ℕ → Grant
entitlement_check d now user key c quantity =
    grant key quantity (resolve_entitlement d now user key c)
