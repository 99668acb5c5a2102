-- ===== src/Auth/Invariant/Accounts.antt =====
-- Users, addresses, passwords, one-time tokens and identities of a well-formed database, under
-- each write of `Auth.Write`.
use id_provider.Base.{
  ℕ, ◌==◌, ◌≡◌, refl, ap, Bool, true, false, not, String, eq_iff, List, ◌∷◌, All, any, update,
  arith,
}
use id_provider.Base.Unique.{IsUnique, All-map, All-update, fresh_of_any, update-IsUnique}
use id_provider.Store.{
  User, UserEmail, UserPassword, ExternalIdentity, OneTimeToken, same_email, same_identity,
  same_token,
}
use id_provider.Auth.Password.{consume, with_hash}
use id_provider.Auth.Email.{verify}
use id_provider.Auth.Invariant.Sessions.{is_user, grown}

pub record AccountsOk (us : List User) (ms : List UserEmail) (ps : List UserPassword) : Type 0 where
  pub users : IsUnique (λ (u : User). u.id) us
  pub emails : IsUnique (λ (m : UserEmail). m.email) ms
  pub email_owners : All (λ m. is_user us m.user_id ≡ true) ms
  pub passwords : IsUnique (λ (p : UserPassword). p.user_id) ps
  pub password_owners : All (λ p. is_user us p.user_id ≡ true) ps

pub record TokensOk (ts : List OneTimeToken) : Type 0 where
  pub ids : IsUnique (λ (t : OneTimeToken). t.id) ts
  pub hashes : IsUnique (λ (t : OneTimeToken). t.token_hash) ts

abbrev pub identity_key : ExternalIdentity → String × String
identity_key i = (i.provider, i.provider_subject)

module _ (t : OneTimeToken) where
  token_id_clash : (r : OneTimeToken) → r.id ≡ t.id → same_token t r ≡ true
  token_id_clash r h = ground arith

  token_hash_clash : (r : OneTimeToken) → r.token_hash ≡ t.token_hash → same_token t r ≡ true
  token_hash_clash r h = ground (arith, eq_iff r.token_hash t.token_hash)

  pub add-TokensOk :
      (ts : List OneTimeToken) → any (same_token t) ts ≡ false → TokensOk ts → TokensOk (t ∷ ts)
  add-TokensOk ts c h = record {
    ids = (fresh_of_any (λ r. r.id) (same_token t) t token_id_clash ts c, h.ids);
    hashes = (fresh_of_any (λ r. r.token_hash) (same_token t) t token_hash_clash ts c, h.hashes);
  }

pub consume-TokensOk :
    (id now : ℕ) (ts : List OneTimeToken)
    → TokensOk ts
    → TokensOk (update (λ t. t.id == id) (consume now) ts)
consume-TokensOk id now ts h = record {
  ids = update-IsUnique (λ t. t.id) (λ t. t.id == id) (consume now) (λ t. refl) ts h.ids;
  hashes =
      update-IsUnique (λ t. t.token_hash) (λ t. t.id == id) (consume now) (λ t. refl) ts h.hashes;
}

module _ (u : User) (us : List User) where
  user_clash : (r : User) → r.id ≡ u.id → (r.id == u.id) ≡ true
  user_clash r h = ground arith

  pub add_user-AccountsOk :
      (ms : List UserEmail) (ps : List UserPassword)
      → any (λ r. r.id == u.id) us ≡ false
      → AccountsOk us ms ps
      → AccountsOk (u ∷ us) ms ps
  add_user-AccountsOk ms ps c h = record {
    users = (fresh_of_any (λ r. r.id) (λ r. r.id == u.id) u user_clash us c, h.users);
    emails = h.emails;
    email_owners =
        All-map (λ m. is_user us m.user_id ≡ true) (λ m. is_user (u ∷ us) m.user_id ≡ true)
          (λ m. grown u us m.user_id) ms h.email_owners;
    passwords = h.passwords;
    password_owners =
        All-map (λ p. is_user us p.user_id ≡ true) (λ p. is_user (u ∷ us) p.user_id ≡ true)
          (λ p. grown u us p.user_id) ps h.password_owners;
  }

email_clash : (m r : UserEmail) → r.email ≡ m.email → same_email m r ≡ true
email_clash m r h = ground (arith, eq_iff r.email m.email)

password_clash : (p r : UserPassword) → r.user_id ≡ p.user_id → (r.user_id == p.user_id) ≡ true
password_clash p r h = ground arith

pub identity_clash :
    (i r : ExternalIdentity) → identity_key r ≡ identity_key i → same_identity i r ≡ true
identity_clash i r h =
    let hp : r.provider ≡ i.provider = ap (λ k. k.0) h in
    let hs : r.provider_subject ≡ i.provider_subject = ap (λ k. k.1) h in
    ground (arith, eq_iff r.provider i.provider, eq_iff r.provider_subject i.provider_subject)

module _ {us : List User} {ms : List UserEmail} {ps : List UserPassword} where
  pub add_email-AccountsOk :
      (m : UserEmail)
      → any (same_email m) ms ≡ false
      → not (is_user us m.user_id) ≡ false
      → AccountsOk us ms ps
      → AccountsOk us (m ∷ ms) ps
  add_email-AccountsOk m c g h = record {
    users = h.users;
    emails = (fresh_of_any (λ r. r.email) (same_email m) m (email_clash m) ms c, h.emails);
    email_owners = (ground arith, h.email_owners);
    passwords = h.passwords;
    password_owners = h.password_owners;
  }

  pub verify-AccountsOk :
      (p : UserEmail → Bool) → AccountsOk us ms ps → AccountsOk us (update p verify ms) ps
  verify-AccountsOk p h = record {
    users = h.users;
    emails = update-IsUnique (λ m. m.email) p verify (λ m. refl) ms h.emails;
    email_owners =
        All-update (λ m. is_user us m.user_id ≡ true) p verify (λ m o. o) ms h.email_owners;
    passwords = h.passwords;
    password_owners = h.password_owners;
  }

  pub add_password-AccountsOk :
      (x : UserPassword)
      → any (λ r. r.user_id == x.user_id) ps ≡ false
      → not (is_user us x.user_id) ≡ false
      → AccountsOk us ms ps
      → AccountsOk us ms (x ∷ ps)
  add_password-AccountsOk x c g h = record {
    users = h.users;
    emails = h.emails;
    email_owners = h.email_owners;
    passwords = (
      fresh_of_any (λ r. r.user_id) (λ r. r.user_id == x.user_id) x (password_clash x) ps c,
      h.passwords,
    );
    password_owners = (ground arith, h.password_owners);
  }

  pub set_password-AccountsOk :
      (p : UserPassword → Bool) (now : ℕ) (hash : String)
      → AccountsOk us ms ps
      → AccountsOk us ms (update p (with_hash now hash) ps)
  set_password-AccountsOk p now hash h = record {
    users = h.users;
    emails = h.emails;
    email_owners = h.email_owners;
    passwords = update-IsUnique (λ x. x.user_id) p (with_hash now hash) (λ x. refl) ps h.passwords;
    password_owners =
        All-update (λ x. is_user us x.user_id ≡ true) p (with_hash now hash) (λ x o. o) ps
          h.password_owners;
  }
