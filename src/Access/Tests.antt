-- ===== src/Access/Tests.antt =====
-- Permissions and entitlements of a small database, and the theorems there
-- (packages/auth-core/src/auth-service.ts).
use id_provider.Base.{ℕ, ◌≡◌, refl, ◌↔◌, true, false, Option, none, some, [], ◌∷◌, inl, inr}
use id_provider.Base.Json.{Json, bool, num, obj, field, end}
use id_provider.Store.{Database, Entitlement}
use id_provider.Store.Sample.{empty_database}
use id_provider.Access.Permission.{no_context, authorization_check, member_groups}
use id_provider.Access.Entitlement.{
  settings, group, Resolved, resolve_entitlement, is_live, user_rows, group_rows, pick,
}
use id_provider.Access.Check.{entitlement_check, grant, member}
use id_provider.Access.Authority.{Holds, authorization_check-Holds}
use id_provider.Access.Source.{Reaches, by_group, Source, resolve_entitlement-Source}
use id_provider.Access.Precedence.{Answers, resolve_entitlement-Answers}

abbrev entitlement : ℕ → Json → Option ℕ → Option ℕ → Entitlement
entitlement id value owner team = record {
  id = id;
  key = "seats";
  enabled = true;
  value = value;
  user_id = owner;
  group_id = team;
  organization_id = none;
  expires_at = some 100;
  created_at = id;
}

abbrev seats : Entitlement
seats = entitlement 1 (obj (field "max" (num 5) end)) none (some 9)

abbrev database : Database
database = record empty_database {
  permissions = record { id = 1; key = "doc:read" } ∷ [];
  role_permissions = record { role_id = 2; permission_id = 1 } ∷ [];
  user_roles = record { user_id = 7; role_id = 2 } ∷ [];
  groups = record { id = 9; organization_id = 3; key = "team" } ∷ [];
  memberships = record { user_id = 7; group_id = 9 } ∷ [];
  entitlements = entitlement 2 (bool true) (some 8) none ∷ seats ∷ [];
}

authorization_check-Holds_example :
    ((authorization_check database 7 "read" "doc" no_context).allowed ≡ true)
    ↔ Holds database 7 no_context "doc:read"
authorization_check-Holds_example = authorization_check-Holds database 7 "read" "doc" no_context

abbrev resolved : Resolved
resolved = record { value = settings (field "max" (num 5) end); scope = group }

resolved_seats : resolve_entitlement database 50 7 "seats" no_context ≡ some resolved
unfolding resolve_entitlement user_rows group_rows member_groups pick is_live
resolved_seats = refl

resolve_entitlement-Source_example : Source database 50 7 "seats" no_context resolved
resolve_entitlement-Source_example =
    resolve_entitlement-Source database 50 7 "seats" no_context resolved resolved_seats

live_seats : is_live 50 "seats" seats ≡ true
unfolding is_live
live_seats = refl

seats_reach : Reaches database 7 no_context seats group
unfolding member_groups
seats_reach = by_group (record { id = 9; organization_id = 3; key = "team" }) (inl refl) refl

resolve_entitlement-Answers_example :
    Answers (resolve_entitlement database 50 7 "seats" no_context) group
resolve_entitlement-Answers_example =
    resolve_entitlement-Answers database 50 7 "seats" no_context seats group (inr (inl refl))
      live_seats seats_reach

-- six seats are too many
six_seats : (entitlement_check database 50 7 "seats" no_context (some 6)).granted ≡ false
unfolding entitlement_check grant member resolve_entitlement user_rows group_rows member_groups pick
    is_live
six_seats = refl
