-- ===== src/Access/Precedence.antt =====
-- Which entitlement wins (`resolveEntitlementForKey` of
-- packages/auth-core/src/auth-service.ts).
use id_provider.Base.{
  ℕ, ◌≤◌, ◌==◌, ◌≡◌, refl, true, String, Option, none, some, List, In, any, arith,
}
use id_provider.Base.Members.{In-select, select-In, In-any, newest-In, In-newest}
use id_provider.Store.{Database, Entitlement, Group}
use id_provider.Access.Permission.{Context, member_groups}
use id_provider.Access.Entitlement.{
  Scope, user, group, organization, nowhere, is_active, normalize_value, is_live, is_id, Resolved,
  latest, user_rows, group_rows, is_org_member, organization_rows, pick, from_organization, or_else,
  resolve_entitlement,
}
use id_provider.Access.Source.{Reaches, by_user, by_group, by_organization, pick-eq-some}

-- the order in which the scopes are tried
abbrev pub rank : Scope → ℕ
rank user = 0
rank group = 1
rank organization = 2
rank nowhere = 3

-- The result has a scope, and it is tried no later than `s`.
abbrev pub Answers : Option Resolved → Scope → Type 0
Answers o s = (r : Resolved) × (o ≡ some r) × (rank r.scope ≤ rank s)

or_else-Answers :
    (a b : Option Resolved) (t s : Scope)
    → ((r : Resolved) → a ≡ some r → r.scope ≡ t)
    → rank t ≤ rank s
    → Answers b s
    → Answers (or_else a b) s
or_else-Answers none b t s h k n = n
or_else-Answers (some r) b t s h k n = (r, refl, rw (h r refl) k)

Answers-or_else : (a b : Option Resolved) (s : Scope) → Answers a s → Answers (or_else a b) s
Answers-or_else none b s (r, e, k) = cc
Answers-or_else (some x) b s (r, e, k) = (r, e, k)

pick-scope :
    (now : ℕ) (s : Scope) (o : Option Entitlement) (r : Resolved)
    → pick now s o ≡ some r
    → r.scope ≡ s
pick-scope now s o r h = let (x, found, e, v) = pick-eq-some now s o r h in e

-- an active first row is picked
pick-Answers :
    (now : ℕ) (s : Scope) (rows : List Entitlement) (x : Entitlement)
    → ((y : Entitlement) → In y rows → is_active now y.expires_at ≡ true)
    → In x rows
    → Answers (pick now s (latest rows)) s
unfolding pick
pick-Answers now s rows x active i =
    let (y, found) = In-newest (λ e. e.created_at) rows x i in
    let t = active y (newest-In (λ e. e.created_at) rows y found) in
    rw (found, t) (record { value = normalize_value y.value; scope = s }, refl, ground arith)

module _ (d : Database) (now uid : ℕ) (key : String) (c : Context) (x : Entitlement)
    (listed : In x d.entitlements) (live : is_live now key x ≡ true) where
  own-Answers :
      is_id x.user_id uid ≡ true → Answers (pick now user (latest (user_rows d now uid key))) user
  unfolding user_rows is_live
  own-Answers own =
      pick-Answers now user _ x (λ y i. let (j, t) = In-select _ d.entitlements y i in ground arith)
        (select-In _ d.entitlements x listed (rw (own, live)))

  shared-Answers :
      (g : Group)
      → In g (member_groups d uid c)
      → is_id x.group_id g.id ≡ true
      → Answers (pick now group (latest (group_rows d now uid key c))) group
  unfolding group_rows is_live
  shared-Answers g i t =
      let hit = In-any (λ g. is_id x.group_id g.id) (member_groups d uid c) g i t in
      pick-Answers now group _ x
        (λ y i. let (j, t) = In-select _ d.entitlements y i in ground arith)
        (select-In _ d.entitlements x listed (rw (hit, live)))

  organization-Answers :
      (org : ℕ)
      → is_org_member d uid org ≡ true
      → any (λ o. o.id == org) d.organizations ≡ true
      → is_id x.organization_id org ≡ true
      → Answers (from_organization d now uid key (some org)) organization
  unfolding from_organization organization_rows is_live
  organization-Answers org member known t = rw member (
      pick-Answers now organization (organization_rows d now key org) x
        (λ y i. let (j, t) = In-select _ d.entitlements y i in ground arith)
        (select-In _ d.entitlements x listed (rw (t, known, live))))

-- An enabled, unexpired row for the key that reaches the user is never lost:
-- `resolveEntitlementForKey` answers, and from a scope that is tried no later than that of the row,
-- in the order user, group, organization.
pub resolve_entitlement-Answers :
    (d : Database) (now uid : ℕ) (key : String) (c : Context) (x : Entitlement) (s : Scope)
    → In x d.entitlements
    → is_live now key x ≡ true
    → Reaches d uid c x s
    → Answers (resolve_entitlement d now uid key c) s
unfolding resolve_entitlement
resolve_entitlement-Answers d now uid key c x _ i live (by_user own) =
    Answers-or_else _ _ user (own-Answers d now uid key c x i live own)
resolve_entitlement-Answers d now uid key c x _ i live (by_group g j t) =
    or_else-Answers _ _ user group (pick-scope now user _) (ground arith)
      (Answers-or_else _ _ group (shared-Answers d now uid key c x i live g j t))
resolve_entitlement-Answers d now uid key c x _ i live (by_organization org same member known t) =
    or_else-Answers _ _ user organization (pick-scope now user _) (ground arith) (
      or_else-Answers _ _ group organization (pick-scope now group _) (ground arith)
        (rw same (organization-Answers d now uid key c x i live org member known t)))
