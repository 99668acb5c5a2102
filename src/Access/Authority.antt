-- ===== src/Access/Authority.antt =====
-- Who holds a permission (`listPermissionKeys` and `authorizationCheck` of
-- packages/auth-core/src/auth-service.ts).
use id_provider.Base.{ℕ, ◌≡◌, sym, ◌∙◌, ◌↔◌, true, String, ◌++◌, In, has_text, arith, inl, inr}
use id_provider.Base.Members.{
  In-select, select-In, In-flat_map, flat_map-In, In-map, map-In, In-++, ++-left, ++-right,
  has_text-distinct, has_text-In, In-has_text,
}
use id_provider.Store.{
  Database, Permission, RolePermission, UserRole, Group, GroupMembership, GroupRole,
}
use id_provider.Access.Permission.{
  Context, fits, role_keys, direct_keys, member_groups, group_keys, list_permission_keys,
  permission_key_of, authorization_check,
}

-- a role carries a permission with the key
pub data Carries (d : Database) (role : ℕ) (key : String) : Type 0 where
  carries :
      (rp : RolePermission) (p : Permission)
      → In rp d.role_permissions
      → In p d.permissions
      → rp.role_id ≡ role
      → p.id ≡ rp.permission_id
      → p.key ≡ key
      → Carries d role key

-- the user is a member of a group that fits the context
pub data Belongs (d : Database) (user : ℕ) (c : Context) (g : Group) : Type 0 where
  belongs :
      (m : GroupMembership)
      → In m d.memberships
      → In g d.groups
      → m.user_id ≡ user
      → g.id ≡ m.group_id
      → fits c.group_id g.id ≡ true
      → fits c.organization_id g.organization_id ≡ true
      → Belongs d user c g

-- The user has a role with the key, or a group of the user in the context has one.
pub data Holds (d : Database) (user : ℕ) (c : Context) (key : String) : Type 0 where
  by_role :
      (ur : UserRole)
      → In ur d.user_roles
      → ur.user_id ≡ user
      → Carries d ur.role_id key
      → Holds d user c key
  by_group :
      (g : Group) (gr : GroupRole)
      → Belongs d user c g
      → In gr d.group_roles
      → gr.group_id ≡ g.id
      → Carries d gr.role_id key
      → Holds d user c key

module _ (d : Database) where
  role_keys-Carries : (role : ℕ) (key : String) → In key (role_keys d role) → Carries d role key
  unfolding role_keys
  role_keys-Carries role key h =
      let (rp, i, j) = In-flat_map _ _ key h in
      let (i', has_role) = In-select _ d.role_permissions rp i in
      let (p, k, e) = In-map _ _ key j in
      let (k', has_id) = In-select _ d.permissions p k in
      carries rp p i' k' (ground arith) (ground arith) (sym e)

  Carries-role_keys : (role : ℕ) (key : String) → Carries d role key → In key (role_keys d role)
  unfolding role_keys
  Carries-role_keys role key (carries rp p i k r q e) =
      flat_map-In _ _ rp key (select-In _ d.role_permissions rp i (ground arith))
        (rw (sym e) (map-In (λ p. p.key) _ p (select-In _ d.permissions p k (ground arith))))

  member_groups-Belongs :
      (user : ℕ) (c : Context) (g : Group) → In g (member_groups d user c) → Belongs d user c g
  unfolding member_groups
  member_groups-Belongs user c g h =
      let (m, i, j) = In-flat_map _ _ g h in
      let (i', mine) = In-select _ d.memberships m i in
      let (j', t) = In-select _ d.groups g j in
      belongs m i' j' (ground arith) (ground arith) (ground arith) (ground arith)

  Belongs-member_groups :
      (user : ℕ) (c : Context) (g : Group) → Belongs d user c g → In g (member_groups d user c)
  unfolding member_groups
  Belongs-member_groups user c g (belongs m i j u e f o) =
      flat_map-In _ _ m g (select-In _ d.memberships m i (ground arith))
        (select-In _ d.groups g j (ground arith))

  direct_keys-Holds :
      (user : ℕ) (c : Context) (key : String) → In key (direct_keys d user) → Holds d user c key
  unfolding direct_keys
  direct_keys-Holds user c key h =
      let (ur, i, j) = In-flat_map _ _ key h in
      let (i', mine) = In-select _ d.user_roles ur i in
      by_role ur i' (ground arith) (role_keys-Carries ur.role_id key j)

  group_keys-Holds :
      (user : ℕ) (c : Context) (key : String) → In key (group_keys d user c) → Holds d user c key
  unfolding group_keys
  group_keys-Holds user c key h =
      let (g, i, j) = In-flat_map _ _ key h in
      let (gr, k, l) = In-flat_map _ _ key j in
      let (k', mine) = In-select _ d.group_roles gr k in
      by_group g gr (member_groups-Belongs user c g i) k' (ground arith)
        (role_keys-Carries gr.role_id key l)

  Holds-keys :
      (user : ℕ) (c : Context) (key : String)
      → Holds d user c key
      → In key (direct_keys d user ++ group_keys d user c)
  unfolding direct_keys group_keys
  Holds-keys user c key (by_role ur i u r) =
      ++-left (direct_keys d user) (group_keys d user c) key (
        flat_map-In _ _ ur key (select-In _ d.user_roles ur i (ground arith))
          (Carries-role_keys ur.role_id key r))
  Holds-keys user c key (by_group g gr b i e r) =
      ++-right (direct_keys d user) (group_keys d user c) key (
        flat_map-In _ _ g key (Belongs-member_groups user c g b) (
          flat_map-In _ _ gr key (select-In _ d.group_roles gr i (ground arith))
            (Carries-role_keys gr.role_id key r)))

  keys-Holds :
      (user : ℕ) (c : Context) (key : String)
      → In key (direct_keys d user ++ group_keys d user c)
      → Holds d user c key
  keys-Holds user c key h = elim (In-++ (direct_keys d user) (group_keys d user c) key h) [
    | inl i ↦ direct_keys-Holds user c key i
    | inr j ↦ group_keys-Holds user c key j
  ]

  allowed-has_text :
      (user : ℕ) (action resource : String) (c : Context)
      → (authorization_check d user action resource c).allowed
        ≡ has_text (permission_key_of resource action) (direct_keys d user ++ group_keys d user c)
  unfolding authorization_check list_permission_keys
  allowed-has_text user action resource c =
      has_text-distinct (direct_keys d user ++ group_keys d user c)
        (permission_key_of resource action)

-- `authorizationCheck` allows an action on a resource exactly when the user holds the permission
-- `resource:action`: by a role of the user, or by a role of a group that the user belongs to and
-- that fits the organization and the group of the check.
pub authorization_check-Holds :
    (d : Database) (user : ℕ) (action resource : String) (c : Context)
    → ((authorization_check d user action resource c).allowed ≡ true)
      ↔ Holds d user c (permission_key_of resource action)
authorization_check-Holds d user action resource c =
    let key = permission_key_of resource action in
    let keys = direct_keys d user ++ group_keys d user c in
    (
      λ h.
          keys-Holds d user c key
            (has_text-In key keys (sym (allowed-has_text d user action resource c) ∙ h)),
      λ h.
          allowed-has_text d user action resource c
          ∙ In-has_text key keys (Holds-keys d user c key h),
    )
