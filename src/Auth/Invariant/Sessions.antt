-- ===== src/Auth/Invariant/Sessions.antt =====
-- The sessions of a well-formed database, under each write of `Auth.Write`.
use id_provider.Base.{
  ℕ, ◌==◌, ◌≡◌, refl, ◌≢◌, Bool, true, false, not, ◌&&◌, ◌||◌, String, str_eq, eq_iff, List, ◌∷◌,
  All, any, update, arith, inl, inr, Bool-cases,
}
use id_provider.Base.Unique.{
  IsUnique, All-map, All-update, fresh_of_any, update-IsUnique, move-IsUnique, any-eq-false,
  update_none,
}
use id_provider.Store.{Database, User, UserSession, has_user, lacks_user, same_session}
use id_provider.Store.Env.{Env}
use id_provider.Auth.Session.{rotate, is_rotated, rotation_clash}

-- the foreign key names a user
abbrev pub is_user : List User → ℕ → Bool
is_user us id = any (λ r. r.id == id) us

pub record SessionsOk (us : List User) (ss : List UserSession) : Type 0 where
  pub ids : IsUnique (λ (s : UserSession). s.id) ss
  pub access_hashes : IsUnique (λ (s : UserSession). s.access_token_hash) ss
  pub refresh_hashes : IsUnique (λ (s : UserSession). s.refresh_token_hash) ss
  pub owners : All (λ s. is_user us s.user_id ≡ true) ss

-- the tests of the inserts cover the keys
module _ (s : UserSession) where
  id_clash : (r : UserSession) → r.id ≡ s.id → same_session s r ≡ true
  id_clash r h = ground arith

  access_clash :
      (r : UserSession) → r.access_token_hash ≡ s.access_token_hash → same_session s r ≡ true
  access_clash r h = ground (arith, eq_iff r.access_token_hash s.access_token_hash)

  refresh_clash :
      (r : UserSession) → r.refresh_token_hash ≡ s.refresh_token_hash → same_session s r ≡ true
  refresh_clash r h = ground (arith, eq_iff r.refresh_token_hash s.refresh_token_hash)

pub add_session-SessionsOk :
    (s : UserSession) (d : Database)
    → any (same_session s) d.sessions ≡ false
    → lacks_user s.user_id d ≡ false
    → SessionsOk d.users d.sessions
    → SessionsOk d.users (s ∷ d.sessions)
add_session-SessionsOk s d c g h = record {
  ids = (fresh_of_any (λ r. r.id) (same_session s) s (id_clash s) d.sessions c, h.ids);
  access_hashes = (
    fresh_of_any (λ r. r.access_token_hash) (same_session s) s (access_clash s) d.sessions c,
    h.access_hashes,
  );
  refresh_hashes = (
    fresh_of_any (λ r. r.refresh_token_hash) (same_session s) s (refresh_clash s) d.sessions c,
    h.refresh_hashes,
  );
  owners = (ground arith, h.owners);
}

-- an update that keeps the keys and the owner
pub keep-SessionsOk :
    (p : UserSession → Bool) (f : UserSession → UserSession) (d : Database)
    → ((r : UserSession) → (f r).id ≡ r.id)
    → ((r : UserSession) → (f r).access_token_hash ≡ r.access_token_hash)
    → ((r : UserSession) → (f r).refresh_token_hash ≡ r.refresh_token_hash)
    → ((r : UserSession) → (f r).user_id ≡ r.user_id)
    → SessionsOk d.users d.sessions
    → SessionsOk d.users (update p f d.sessions)
keep-SessionsOk p f d hi ha hr hu h = record {
  ids = update-IsUnique (λ r. r.id) p f hi d.sessions h.ids;
  access_hashes = update-IsUnique (λ r. r.access_token_hash) p f ha d.sessions h.access_hashes;
  refresh_hashes = update-IsUnique (λ r. r.refresh_token_hash) p f hr d.sessions h.refresh_hashes;
  owners =
      All-update (λ r. has_user r.user_id d ≡ true) p f (λ r o. rw (hu r) o) d.sessions h.owners;
}

-- the rotation of `refresh`: its unique constraints hold for the one row that it hits
module _ (e : Env) (id : ℕ) (hash access_hash refresh_hash : String) (d : Database) where
  abbrev rotated : List UserSession
  rotated = update (is_rotated id hash) (rotate e access_hash refresh_hash) d.sessions

  abbrev taken : UserSession → Bool
  taken r =
      not (is_rotated id hash r)
      && (str_eq r.access_token_hash access_hash || str_eq r.refresh_token_hash refresh_hash)

  pub rotated_id : (r : UserSession) → is_rotated id hash r ≡ true → r.id ≡ id
  rotated_id r h = ground arith

  access_free :
      (r : UserSession)
      → taken r ≡ false
      → is_rotated id hash r ≡ false
      → r.access_token_hash ≢ access_hash
  access_free r t n = ground (arith, eq_iff r.access_token_hash access_hash)

  refresh_free :
      (r : UserSession)
      → taken r ≡ false
      → is_rotated id hash r ≡ false
      → r.refresh_token_hash ≢ refresh_hash
  refresh_free r t n = ground (arith, eq_iff r.refresh_token_hash refresh_hash)

  hit-SessionsOk :
      any taken d.sessions ≡ false → SessionsOk d.users d.sessions → SessionsOk d.users rotated
  hit-SessionsOk c h =
      let free = any-eq-false taken d.sessions c in
      record {
        ids =
            update-IsUnique (λ r. r.id) (is_rotated id hash) (rotate e access_hash refresh_hash)
              (λ r. refl) d.sessions h.ids;
        access_hashes =
            move-IsUnique (λ r. r.id) (λ r. r.access_token_hash) id access_hash (is_rotated id hash)
              (rotate e access_hash refresh_hash) rotated_id (λ r. refl) d.sessions h.ids
              (All-map (λ r. taken r ≡ false)
                (λ r. is_rotated id hash r ≡ false → r.access_token_hash ≢ access_hash) access_free
                d.sessions free)
              h.access_hashes;
        refresh_hashes =
            move-IsUnique (λ r. r.id) (λ r. r.refresh_token_hash) id refresh_hash
              (is_rotated id hash) (rotate e access_hash refresh_hash) rotated_id (λ r. refl)
              d.sessions h.ids
              (All-map (λ r. taken r ≡ false)
                (λ r. is_rotated id hash r ≡ false → r.refresh_token_hash ≢ refresh_hash)
                refresh_free d.sessions free)
              h.refresh_hashes;
        owners =
            All-update (λ r. has_user r.user_id d ≡ true) (is_rotated id hash)
              (rotate e access_hash refresh_hash) (λ r o. o) d.sessions h.owners;
      }

  pub rotate-SessionsOk :
      rotation_clash id hash access_hash refresh_hash d ≡ false
      → SessionsOk d.users d.sessions
      → SessionsOk d.users rotated
  rotate-SessionsOk c h = elim (Bool-cases (any (is_rotated id hash) d.sessions)) [
    | inl hit ↦ hit-SessionsOk (ground arith) h
    | inr miss ↦
        rw (update_none (is_rotated id hash) (rotate e access_hash refresh_hash) d.sessions miss)
          record {
            ids = h.ids;
            access_hashes = h.access_hashes;
            refresh_hashes = h.refresh_hashes;
            owners = h.owners;
          }
  ]

-- a new user keeps the owners
pub grown : (u : User) (us : List User) (n : ℕ) → is_user us n ≡ true → is_user (u ∷ us) n ≡ true
grown u us n h = ground arith

module _ (u : User) (us : List User) where
  pub add_user-SessionsOk : (ss : List UserSession) → SessionsOk us ss → SessionsOk (u ∷ us) ss
  add_user-SessionsOk ss h = record {
    ids = h.ids;
    access_hashes = h.access_hashes;
    refresh_hashes = h.refresh_hashes;
    owners =
        All-map (λ s. is_user us s.user_id ≡ true) (λ s. is_user (u ∷ us) s.user_id ≡ true)
          (λ s. grown u us s.user_id) ss h.owners;
  }
