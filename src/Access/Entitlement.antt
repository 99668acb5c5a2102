-- ===== src/Access/Entitlement.antt =====
-- `resolveEntitlementForKey` and `getAuthorizationSnapshot`
-- (packages/auth-core/src/auth-service.ts).
use id_provider.Base.{
  ℕ, ◌==◌, ltb, Bool, true, false, ◌&&◌, String, str_eq, Option, none, some, List, [], ◌∷◌, map,
  select, any, newest, distinct, if◌then◌else◌,
}
use id_provider.Base.Json.{Json, obj, bool, Fields, field, end}
use id_provider.Store.{Database, Entitlement}
use id_provider.Access.Permission.{Context, member_groups, list_permission_keys}

-- `EntitlementValue`
pub data EntitlementValue : Type 0 where
  switch : Bool → EntitlementValue
  settings : Fields → EntitlementValue

pub data Scope : Type 0 where
  user group organization nowhere : Scope

-- `isEntitlementActive`, and the condition `isActive` of the queries
unfoldable pub is_active : ℕ → Option ℕ → Bool
is_active now none = true
is_active now (some at) = ltb now at

unfoldable pub normalize_value : Json → EntitlementValue
normalize_value (bool b) = switch b
normalize_value (obj fs) = settings fs
normalize_value v = settings (field "value" v end)

pub record Resolved : Type 0 where
  pub value : EntitlementValue
  pub scope : Scope

-- `eq(column, x)` on a nullable column
abbrev pub is_id : Option ℕ → ℕ → Bool
is_id none x = false
is_id (some y) x = y == x

-- an enabled entitlement for the key that has not expired
unfoldable pub is_live : ℕ → String → Entitlement → Bool
unfolding is_active
is_live now key e = str_eq e.key key && (e.enabled && is_active now e.expires_at)

abbrev pub latest : List Entitlement → Option Entitlement
latest rows = newest (λ e. e.created_at) rows

unfoldable pub user_rows : Database → ℕ → ℕ → String → List Entitlement
user_rows d now uid key = select (λ e. is_id e.user_id uid && is_live now key e) d.entitlements

-- the entitlements of the groups that the user belongs to
unfoldable pub group_rows : Database → ℕ → ℕ → String → Context → List Entitlement
group_rows d now uid key c =
    select (λ e. any (λ g. is_id e.group_id g.id) (member_groups d uid c) && is_live now key e)
      d.entitlements

-- `organizationMembershipRows.length > 0`
unfoldable pub is_org_member : Database → ℕ → ℕ → Bool
is_org_member d uid org =
    any (λ g. true) (member_groups d uid (record { organization_id = some org; group_id = none }))

unfoldable pub organization_rows : Database → ℕ → String → ℕ → List Entitlement
organization_rows d now key org =
    select
      (λ e.
        is_id e.organization_id org
        && (any (λ o. o.id == org) d.organizations && is_live now key e))
      d.entitlements

-- a query's first row, kept if it is active
unfoldable pub pick : ℕ → Scope → Option Entitlement → Option Resolved
unfolding is_active normalize_value
pick now s none = none
pick now s (some e) =
    if is_active now e.expires_at
    then some (record { value = normalize_value e.value; scope = s })
    else none

unfoldable pub from_organization : Database → ℕ → ℕ → String → Option ℕ → Option Resolved
from_organization d now uid key none = none
from_organization d now uid key (some org) =
    if is_org_member d uid org
    then pick now organization (latest (organization_rows d now key org))
    else none

abbrev pub or_else : {A : Type 0} → Option A → Option A → Option A
or_else none b = b
or_else (some a) b = some a

unfoldable pub resolve_entitlement : Database → ℕ → ℕ → String → Context → Option Resolved
resolve_entitlement d now u key c = or_else (pick now user (latest (user_rows d now u key))) (
    or_else (pick now group (latest (group_rows d now u key c)))
      (from_organization d now u key c.organization_id))

pub record Snapshot : Type 0 where
  pub permissions : List String
  pub entitlements : List (String × EntitlementValue)

abbrev add_resolved :
    String → Option Resolved → List (String × EntitlementValue) → List (String × EntitlementValue)
add_resolved key none rest = rest
add_resolved key (some r) rest = (key, r.value) ∷ rest

unfoldable pub entitlement_map :
    Database → ℕ → ℕ → Context → List String → List (String × EntitlementValue)
entitlement_map d now uid c [] = []
entitlement_map d now uid c (key ∷ keys) =
    add_resolved key (resolve_entitlement d now uid key c) (entitlement_map d now uid c keys)

unfoldable pub authorization_snapshot : Database → ℕ → ℕ → Context → Snapshot
unfolding list_permission_keys entitlement_map
authorization_snapshot d now uid c = record {
  permissions = list_permission_keys d uid c;
  entitlements =
      entitlement_map d now uid c
        (distinct (map (λ e. e.key) (select (λ e. e.enabled) d.entitlements)));
}
