-- ===== src/Access/Permission.antt =====
-- `listPermissionKeys` and `authorizationCheck` (packages/auth-core/src/auth-service.ts).
use id_provider.Base.{
  ℕ, ◌==◌, Bool, true, ◌&&◌, String, Option, none, some, List, ◌++◌, map, flat_map, select,
  distinct, has_text, if◌then◌else◌,
}
use id_provider.Store.{Database, Group}
use Prim.Native.String

-- The optional organization and group that a check is made in; an absent one is `none`.
pub record Context : Type 0 where
  pub organization_id : Option ℕ
  pub group_id : Option ℕ

abbrev pub no_context : Context
no_context = record { organization_id = none; group_id = none }

-- `x ? eq(column, x) : undefined` as a condition of a query
abbrev pub fits : Option ℕ → ℕ → Bool
fits none column = true
fits (some x) column = column == x

-- the two innermost joins: the permissions of a role
unfoldable pub role_keys : Database → ℕ → List String
role_keys d role =
    flat_map (λ rp. map (λ p. p.key) (select (λ p. p.id == rp.permission_id) d.permissions))
      (select (λ rp. rp.role_id == role) d.role_permissions)

-- `directRows`
unfoldable pub direct_keys : Database → ℕ → List String
unfolding role_keys
direct_keys d user =
    flat_map (λ ur. role_keys d ur.role_id) (select (λ ur. ur.user_id == user) d.user_roles)

-- the groups that a user belongs to and that fit the context
unfoldable pub member_groups : Database → ℕ → Context → List Group
member_groups d user c =
    flat_map
      (λ m.
        select
          (λ g.
            g.id == m.group_id
            && (fits c.group_id g.id && fits c.organization_id g.organization_id))
          d.groups)
      (select (λ m. m.user_id == user) d.memberships)

-- `groupRows`
unfoldable pub group_keys : Database → ℕ → Context → List String
unfolding role_keys member_groups
group_keys d user c =
    flat_map
      (λ g.
        flat_map (λ gr. role_keys d gr.role_id) (select (λ gr. gr.group_id == g.id) d.group_roles))
      (member_groups d user c)

unfoldable pub list_permission_keys : Database → ℕ → Context → List String
unfolding direct_keys group_keys
list_permission_keys d user c = distinct (direct_keys d user ++ group_keys d user c)

pub record Authorization : Type 0 where
  pub allowed : Bool
  pub permission_key : String
  pub source : String

abbrev pub permission_key_of : String → String → String
permission_key_of resource action = String.◌++◌ resource (String.◌++◌ ":" action)

unfoldable pub authorization_check : Database → ℕ → String → String → Context → Authorization
authorization_check d user action resource c =
    let key = permission_key_of resource action in
    let allowed = has_text key (list_permission_keys d user c) in
    record { allowed = allowed; permission_key = key; source = if allowed then "role" else "none" }
