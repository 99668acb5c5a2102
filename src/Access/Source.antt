-- ===== src/Access/Source.antt =====
-- Where an entitlement comes from (`resolveEntitlementForKey` of
-- packages/auth-core/src/auth-service.ts).
use id_provider.Base.{
  ℕ, ◌==◌, ◌≡◌, refl, ◌⊎◌, true, String, str_eq, Option, none, some, In, any, arith, inl, inr,
  Bool-cases,
}
use id_provider.Base.Members.{In-select, any-In, newest-In}
use id_provider.Store.{Database, Entitlement, Group}
use id_provider.Access.Permission.{Context, member_groups}
use id_provider.Access.Entitlement.{
  Scope, user, group, organization, is_active, normalize_value, is_live, is_id, Resolved, latest,
  user_rows, group_rows, is_org_member, organization_rows, pick, from_organization, or_else,
  resolve_entitlement,
}

-- The entitlement reaches the user in the context, in a scope.
pub data Reaches (d : Database) (uid : ℕ) (c : Context) (x : Entitlement) : Scope → Type 0 where
  by_user : is_id x.user_id uid ≡ true → Reaches d uid c x user
  by_group :
      (g : Group)
      → In g (member_groups d uid c)
      → is_id x.group_id g.id ≡ true
      → Reaches d uid c x group
  by_organization :
      (org : ℕ)
      → c.organization_id ≡ some org
      → is_org_member d uid org ≡ true
      → any (λ o. o.id == org) d.organizations ≡ true
      → is_id x.organization_id org ≡ true
      → Reaches d uid c x organization

-- a row of the table for the key, enabled and not expired, that reaches the user in the scope and
-- has the value
pub record Source (d : Database) (now uid : ℕ) (key : String) (c : Context) (r : Resolved)
    : Type 0 where
  pub row : Entitlement
  pub listed : In row d.entitlements
  pub key_fits : str_eq row.key key ≡ true
  pub is_enabled : row.enabled ≡ true
  pub unexpired : is_active now row.expires_at ≡ true
  pub reaches : Reaches d uid c row r.scope
  pub same_value : r.value ≡ normalize_value row.value

pub pick-eq-some :
    (now : ℕ) (s : Scope) (o : Option Entitlement) (r : Resolved)
    → pick now s o ≡ some r
    → (x : Entitlement) × (o ≡ some x) × (r.scope ≡ s) × (r.value ≡ normalize_value x.value)
unfolding pick
pick-eq-some now s none r h = cc
pick-eq-some now s (some x) r h = elim (Bool-cases (is_active now x.expires_at)) [
  | inl t ↦ (x, refl, ground arith, ground arith)
  | inr f ↦ ground arith
]

module _ (d : Database) (now uid : ℕ) (key : String) (c : Context) where
  live_parts :
      (x : Entitlement)
      → is_live now key x ≡ true
      → (str_eq x.key key ≡ true) × (x.enabled ≡ true) × (is_active now x.expires_at ≡ true)
  unfolding is_live
  live_parts x h = (ground arith, ground arith, ground arith)

  source :
      (s : Scope) (x : Entitlement) (r : Resolved)
      → In x d.entitlements
      → is_live now key x ≡ true
      → Reaches d uid c x s
      → r.scope ≡ s
      → r.value ≡ normalize_value x.value
      → Source d now uid key c r
  source s x r i live reach e v =
      let (k, on, unexpired) = live_parts x live in
      record {
        row = x;
        listed = i;
        key_fits = k;
        is_enabled = on;
        unexpired = unexpired;
        reaches = rw e reach;
        same_value = v;
      }

  user-Source :
      (r : Resolved)
      → pick now user (latest (user_rows d now uid key)) ≡ some r
      → Source d now uid key c r
  unfolding user_rows
  user-Source r h =
      let (x, found, e, v) = pick-eq-some now user _ r h in
      let (i, t) = In-select _ d.entitlements x (newest-In _ _ x found) in
      source user x r i (ground arith) (by_user (ground arith)) e v

  group-Source :
      (r : Resolved)
      → pick now group (latest (group_rows d now uid key c)) ≡ some r
      → Source d now uid key c r
  unfolding group_rows
  group-Source r h =
      let (x, found, e, v) = pick-eq-some now group _ r h in
      let (i, t) = In-select _ d.entitlements x (newest-In _ _ x found) in
      let (g, j, k) = any-In (λ g. is_id x.group_id g.id) (member_groups d uid c) (ground arith) in
      source group x r i (ground arith) (by_group g j k) e v

  organization-Source :
      (o : Option ℕ) (r : Resolved)
      → c.organization_id ≡ o
      → from_organization d now uid key o ≡ some r
      → Source d now uid key c r
  unfolding from_organization organization_rows
  organization-Source none r same h = cc
  organization-Source (some org) r same h = elim (Bool-cases (is_org_member d uid org)) [
    | inl member ↦
        let (x, found, e, v) =
          pick-eq-some now organization (latest (organization_rows d now key org)) r
            (rw member at h) in
        let (i, t) = In-select _ d.entitlements x (newest-In _ _ x found) in
        source organization x r i (ground arith)
          (by_organization org same member (ground arith) (ground arith)) e v
    | inr stranger ↦ cc
  ]

  or_else-eq-some :
      (a b : Option Resolved) (r : Resolved)
      → or_else a b ≡ some r
      → (a ≡ some r) ⊎ ((a ≡ none) × (b ≡ some r))
  or_else-eq-some none b r h = inr (refl, h)
  or_else-eq-some (some x) b r h = inl h

-- An entitlement that `resolveEntitlementForKey` finds is the value of a row for the key that is
-- enabled and has not expired, and that reaches the user in the scope reported: as its own, through
-- a group of the user that fits the context, or through the organization of the context, to which
-- the user belongs by a group.
pub resolve_entitlement-Source :
    (d : Database) (now uid : ℕ) (key : String) (c : Context) (r : Resolved)
    → resolve_entitlement d now uid key c ≡ some r
    → Source d now uid key c r
unfolding resolve_entitlement
resolve_entitlement-Source d now uid key c r h = elim (or_else-eq-some d now uid key c _ _ r h) [
  | inl own ↦ user-Source d now uid key c r own
  | inr (_, rest) ↦ elim (or_else-eq-some d now uid key c _ _ r rest) [
    | inl shared ↦ group-Source d now uid key c r shared
    | inr (_, last) ↦ organization-Source d now uid key c c.organization_id r refl last
  ]
]
