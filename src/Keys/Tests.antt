-- ===== src/Keys/Tests.antt =====
-- Rotations of the signing keys of a small database
-- (packages/auth-core/src/key-store-service.ts).
use id_provider.Base.{
  ℕ, suc, ◌≡◌, refl, none, List, [], some, ◌∷◌, map, any, All, true, false, ◌&&◌, ◌==◌,
}
use id_provider.Store.{SigningKey, World, Result, ok, err, ◌>>=◌}
use id_provider.Store.Sample.{empty_database}
use id_provider.Keys.Rotate.{
  KeyEnv, rotated, scheduled, manual, emergency, new_key, rotate_now, rotate_if_due,
  get_current_active_key,
}
use id_provider.Keys.Publish.{get_public_jwks, is_published}
use id_provider.Keys.Replacement.{rotate_now_replaces}

abbrev env_at : ℕ → KeyEnv
env_at now = record {
  now = now;
  rotation_interval_hours = 1;
  grace_period_hours = 2;
  random_uuid = λ n. suc n;
  private_key_pem = λ n. "private";
  public_key_pem = λ n. "public";
}

abbrev world : World
world = record { db = empty_database; draws = 0; notified = []; counters = [] }

abbrev kids : Result (List SigningKey) → List ℕ
kids (ok ks) = map (λ k. k.kid) ks
kids (err f) = []

first_rotation : (rotate_now (env_at 5) manual none world).0 ≡ ok (rotated 4 2 manual)
unfolding rotate_now get_current_active_key ◌>>=◌
first_rotation = refl

-- the keys published at an instant after two rotations
abbrev published : ℕ → List ℕ
published now =
    kids
      (get_public_jwks (env_at now)
        (rotate_now (env_at 9) emergency none (rotate_now (env_at 5) manual none world).1).1).0

two_rotations : (published 10 ≡ 6 ∷ 2 ∷ []) × (published 9000000 ≡ 6 ∷ [])
unfolding get_public_jwks rotate_now get_current_active_key ◌>>=◌
two_rotations = (refl, refl)

due :
    (rotate_if_due (env_at 3600005) (rotate_now (env_at 5) manual none world).1).0
    ≡ ok (rotated 6 4 scheduled)
unfolding rotate_if_due rotate_now get_current_active_key ◌>>=◌
due = refl

abbrev key : SigningKey
key = new_key (env_at 5) 0 1 none "bootstrap" none

abbrev one_key : World
one_key = record world { db = record empty_database { signing_keys = key ∷ [] }; draws = 2 }

in_force : get_current_active_key one_key.db ≡ some key
unfolding get_current_active_key
in_force = refl

rotate_now_replaces_example :
    let (r, w') = rotate_now (env_at 9) emergency none one_key in
    (r ≡ ok (rotated 4 2 emergency))
    × (any (λ x. x.kid == 4 && is_published 10 x) w'.db.signing_keys ≡ true)
    × (any (λ x. x.kid == 2) w'.db.signing_keys ≡ true)
    × (any (λ x. x.kid == 2 && is_published 10 x) w'.db.signing_keys ≡ false)
    × All (λ x. x.kid ≡ 2 → is_published 10 x ≡ false) w'.db.signing_keys
rotate_now_replaces_example =
    rotate_now_replaces (env_at 9) emergency none one_key key 10 (tt, tt) in_force refl refl
