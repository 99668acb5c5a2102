-- ===== src/Keys/Publish.antt =====
-- The published keys: `getPublicJwks`
-- (packages/auth-core/src/key-store-service.ts).
use id_provider.Base.{
  ℕ, ltb, Bool, false, not, ◌&&◌, ◌||◌, none, some, List, [], ◌∷◌, select, is_none, if◌then◌else◌,
}
use id_provider.Store.{SigningKey, Action, gets, ◌>>◌}
use id_provider.Keys.Rotate.{KeyEnv, ensure_key_exists}

-- the condition of `getPublicJwks`
abbrev pub is_published : ℕ → SigningKey → Bool
is_published now k =
    is_none k.revoked_at && (k.is_active || elim k.expires_at [ none ↦ false | some t ↦ ltb now t ])

-- `orderBy(desc(isActive), asc(createdAt))`: `a` stands before `b`
abbrev pub stands_before : SigningKey → SigningKey → Bool
stands_before a b =
    (a.is_active && not b.is_active)
    || (not (b.is_active && not a.is_active) && not (ltb b.created_at a.created_at))

abbrev pub place_key : SigningKey → List SigningKey → List SigningKey
place_key k [] = k ∷ []
place_key k (l ∷ ls) = if stands_before k l then k ∷ l ∷ ls else l ∷ place_key k ls

abbrev pub in_key_order : List SigningKey → List SigningKey
in_key_order [] = []
in_key_order (k ∷ ks) = place_key k (in_key_order ks)

-- the rows of the published key set; the export of a key to JSON is a library's
unfoldable pub get_public_jwks : KeyEnv → Action (List SigningKey)
get_public_jwks e = do
  ensure_key_exists e
  gets (λ d. in_key_order (select (is_published e.now) d.signing_keys))
