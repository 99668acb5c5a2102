-- ===== src/Auth/Revocation.antt =====
-- Revocation is final: what a revoked session can no longer do
-- (packages/auth-core/src/auth-service.ts).
use id_provider.Base.{
  ℕ, ◌==◌, ◌≡◌, ap, sym, ◌∙◌, ◌≢◌, Bool, true, false, ◌&&◌, String, none, some, List, [], ◌∷◌, All,
  any, find, update, is_none, is_some, arith, inl, inr, Bool-cases, Option-cases,
}
use id_provider.Base.Unique.{
  IsUnique, All-map, All-update_hit, any-update, find_sound, find-none, find-All,
}
use id_provider.Base.Json.{field, str, end}
use id_provider.Store.{Database, UserSession, SecurityEvent, World, Failure, ok, err, api, ◌>>=◌}
use id_provider.Store.Env.{Env, at_time}
use id_provider.Auth.Event.{hash_token}
use id_provider.Auth.Session.{
  authenticate, accepts, refreshes, revoke, touch, rotate, is_rotated, Principal, refresh,
}
use id_provider.Auth.Revoke.{revoke_by_token, holds_token}
use id_provider.Auth.Write.{Write, Writes, here, next}
use id_provider.Auth.Service.{Request, serve_all, serve_all-Writes}
use id_provider.Auth.Invariant.{IsWellFormed, serve_all-IsWellFormed}

-- What `authenticate` returns is the owner and the id of a row that its query accepts.
pub authenticate_row :
    (e : Env) (token : String) (w : World) (p : Principal)
    → (authenticate e token w).0 ≡ ok p
    → (s : UserSession) × (find (accepts e.now (hash_token e token)) w.db.sessions ≡ some s)
      × (p.user_id ≡ s.user_id)
      × (p.session_id ≡ s.id)
unfolding authenticate ◌>>=◌
authenticate_row e token w p h =
    elim (Option-cases (find (accepts e.now (hash_token e token)) w.db.sessions)) [
      | inl none_found ↦ ground arith
      | inr (s, found) ↦ (s, found, ground arith, ground arith)
    ]

-- no row that the query accepts: the token is refused, and nothing is written
pub authenticate_refused :
    (e : Env) (token : String) (w : World)
    → find (accepts e.now (hash_token e token)) w.db.sessions ≡ none
    → authenticate e token w ≡ (err (api 401 "unauthorized"), w)
unfolding authenticate ◌>>=◌
authenticate_refused e token w h = ground arith

-- the event of a refresh token that no live session has
abbrev pub reuse_event : Env → String → SecurityEvent
reuse_event e token = record {
  user_id = none;
  event_type = "refresh_token.reuse_detected";
  payload = field "refreshTokenHash" (str (hash_token e token)) end;
}

-- what `refresh` then throws: the 401, or what the listener throws at the event
abbrev pub refresh_failure : Env → String → Failure
refresh_failure e token = elim (e.on_security_event (reuse_event e token)) [
  | none ↦ api 401 "invalid_refresh_token"
  | some f ↦ f
]

-- no row that the query of `refresh` accepts
pub refresh_refused :
    (e : Env) (token : String) (w : World)
    → find (refreshes e.now (hash_token e token)) w.db.sessions ≡ none
    → refresh e token w
      ≡ (err (refresh_failure e token), record w { notified = reuse_event e token ∷ w.notified })
unfolding refresh ◌>>=◌
refresh_refused e token w h = elim (Option-cases (e.on_security_event (reuse_event e token))) [
  | inl quiet ↦ ground arith
  | inr (f, thrown) ↦ ground arith
]

abbrev revoked_row : ℕ → UserSession → Bool
revoked_row id r = r.id == id && is_some r.revoked_at

-- the session is in the table, and it is revoked
abbrev pub IsRevoked : ℕ → Database → Type 0
IsRevoked id d = any (revoked_row id) d.sessions ≡ true

Write-IsRevoked : {d d' : Database} (id : ℕ) → Write d d' → IsRevoked id d → IsRevoked id d'
Write-IsRevoked id (Write.add_session s n c g) h = ground arith
Write-IsRevoked {d} id (Write.touch_session i now) h =
    any-update (revoked_row id) _ (touch now) (λ r k. k) d.sessions h
Write-IsRevoked {d} id (Write.revoke_sessions p now) h =
    any-update (revoked_row id) p (revoke now) (λ r k. ground arith) d.sessions h
Write-IsRevoked {d} id (Write.rotate_session e i hash ah rh c) h =
    any-update (revoked_row id) (is_rotated i hash) (rotate e ah rh) (λ r k. k) d.sessions h
Write-IsRevoked id (Write.add_user u c) h = h
Write-IsRevoked id (Write.add_email m c g) h = h
Write-IsRevoked id (Write.verify_emails u) h = h
Write-IsRevoked id (Write.add_password p c g) h = h
Write-IsRevoked id (Write.set_password u now x) h = h
Write-IsRevoked id (Write.add_factor f c g) h = h
Write-IsRevoked id (Write.enable_factor f u) h = h
Write-IsRevoked id (Write.add_identity i c g) h = h
Write-IsRevoked id (Write.remove_identity u p s) h = h
Write-IsRevoked id (Write.add_reset_token t c g) h = h
Write-IsRevoked id (Write.consume_reset_token i now) h = h
Write-IsRevoked id (Write.add_verification_token t c g) h = h
Write-IsRevoked id (Write.consume_verification_token i now) h = h
Write-IsRevoked id (Write.add_attempt a) h = h
Write-IsRevoked id (Write.add_event ev) h = h
Write-IsRevoked id (Write.add_audit_log e input i) h = h

Writes-IsRevoked : {d d' : Database} (id : ℕ) → Writes d d' → IsRevoked id d → IsRevoked id d'
Writes-IsRevoked id here h = h
Writes-IsRevoked id (next r w) h = Write-IsRevoked id w (Writes-IsRevoked id r h)

-- an id that no row has is not that of a revoked row
absent_ne :
    (id k : ℕ) (ss : List UserSession)
    → All (λ s. s.id ≢ k) ss
    → any (revoked_row id) ss ≡ true
    → k ≢ id
absent_ne id k [] a h = cc
absent_ne id k (s ∷ ss) (n, a) h = elim (Bool-cases (revoked_row id s)) [
  | inl t ↦ λ e. n (ground arith)
  | inr f ↦ absent_ne id k ss a (rw f at h)
]

-- with unique ids, a revoked session has no row in force
revoked_rows :
    (id : ℕ) (ss : List UserSession)
    → IsUnique (λ (s : UserSession). s.id) ss
    → any (revoked_row id) ss ≡ true
    → All (λ s. is_none s.revoked_at ≡ true → s.id ≢ id) ss
revoked_rows id [] u h = cc
revoked_rows id (s ∷ ss) (fresh, u) h = elim (Bool-cases (revoked_row id s)) [
  | inl t ↦
      let e : s.id ≡ id = ground arith in
      (
        λ n k. ground arith,
        All-map (λ r. r.id ≢ s.id) (λ r. is_none r.revoked_at ≡ true → r.id ≢ id)
            (λ r n _. rw e at n) ss fresh,
      )
  | inr f ↦ (λ _. absent_ne id s.id ss fresh (rw f at h), revoked_rows id ss u (rw f at h))
]

revoked_not_found :
    (e : Env) (token : String) (w : World) (id : ℕ) (p : Principal)
    → IsWellFormed w.db
    → IsRevoked id w.db
    → (authenticate e token w).0 ≡ ok p
    → p.session_id ≢ id
revoked_not_found e token w id p h r a =
    let (s, found, owner, session) = authenticate_row e token w p a in
    let accepted = find_sound (accepts e.now (hash_token e token)) w.db.sessions s found in
    let apart =
      find-All (λ s. is_none s.revoked_at ≡ true → s.id ≢ id) (accepts e.now (hash_token e token))
        w.db.sessions s (revoked_rows id w.db.sessions h.sessions.ids r) found in
    let open_row : is_none s.revoked_at ≡ true = ground arith in
    λ k. apart open_row (sym session ∙ k)

-- From a well-formed database in which a session is revoked, whatever requests are served and
-- whenever, no access token authenticates as that session afterwards.
pub revoked_forever :
    (id : ℕ) (w : World) (rs : List (Env × Request)) (e : Env) (token : String) (p : Principal)
    → IsWellFormed w.db
    → IsRevoked id w.db
    → (authenticate e token (serve_all rs w)).0 ≡ ok p
    → p.session_id ≢ id
revoked_forever id w rs e token p h r a =
    revoked_not_found e token (serve_all rs w) id p (serve_all-IsWellFormed rs w h)
      (Writes-IsRevoked id (serve_all-Writes rs w) r) a

-- the rows that `revokeByToken` leaves carry the token in no live session
revoked_token_rows :
    (e : Env) (now : ℕ) (hash : String) (ss : List UserSession)
    → All (λ s. accepts now hash s ≡ false) (update (holds_token hash) (revoke e.now) ss)
revoked_token_rows e now hash ss =
    All-update_hit (λ s. accepts now hash s ≡ false) (holds_token hash) (revoke e.now)
      (λ s h. ground arith) (λ s h. ground arith) ss

revoked_token_refresh :
    (e : Env) (now : ℕ) (hash : String) (ss : List UserSession)
    → All (λ s. refreshes now hash s ≡ false) (update (holds_token hash) (revoke e.now) ss)
revoked_token_refresh e now hash ss =
    All-update_hit (λ s. refreshes now hash s ≡ false) (holds_token hash) (revoke e.now)
      (λ s h. ground arith) (λ s h. ground arith) ss

-- After `revokeByToken`, at any later or earlier instant, the token authenticates nobody, as an
-- access token or as the refresh token of a session: `authenticateAccessToken` answers 401 and
-- writes nothing, and `refresh` answers 401, unless the listener throws another error at the
-- security event.
pub revoke_by_token-authenticate :
    (e : Env) (now : ℕ) (token : String) (w : World)
    → let w' = (revoke_by_token e token w).1 in
      (authenticate (at_time e now) token w' ≡ (err (api 401 "unauthorized"), w'))
      × ((refresh (at_time e now) token w').0 ≡ err (refresh_failure e token))
unfolding revoke_by_token ◌>>=◌
revoke_by_token-authenticate e now token w =
    let hash = hash_token e token in
    let none_live =
      find-none (accepts now hash) (update (holds_token hash) (revoke e.now) w.db.sessions)
        (revoked_token_rows e now hash w.db.sessions) in
    let none_refreshes =
      find-none (refreshes now hash) (update (holds_token hash) (revoke e.now) w.db.sessions)
        (revoked_token_refresh e now hash w.db.sessions) in
    (
      authenticate_refused (at_time e now) token _ none_live,
      ap (λ r. r.0) (refresh_refused (at_time e now) token _ none_refreshes),
    )
