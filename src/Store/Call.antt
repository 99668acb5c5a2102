-- ===== src/Store/Call.antt =====
-- A service call: state and exceptions. What was written stays written after a throw, unless a
-- transaction rolls it back (packages/db/src/client.ts, packages/shared/src/errors/api-error.ts).
use id_provider.Base.{ℕ, suc, Bool, String, Option, none, some, List, if◌then◌else◌}
use id_provider.Store.Rows.{Database, SecurityEvent}

-- What a call throws: an `ApiError` by its status and code, an error of the database by the
-- constraint that a write breaks, or any other error.
pub data Failure : Type 0 where
  api : ℕ → String → Failure
  unique_violation foreign_key_violation : Failure
  fault : String → Failure

pub data Result (A : Type 0) : Type 0 where
  ok : A → Result A
  err : Failure → Result A

-- A counter of the rate limiter in Redis, with the instant at which it expires.
pub record Counter : Type 0 where
  pub key : String
  pub count : ℕ
  pub expires_at : ℕ

-- The database, the number of random values drawn, the calls of `onSecurityEvent`, and Redis.
pub record World : Type 0 where
  pub db : Database
  pub draws : ℕ
  pub notified : List SecurityEvent
  pub counters : List Counter

abbrev pub Action : Type 0 → Type 0
Action A = World → Result A × World

module _ {A : Type 0} where
  pub pure : A → Action A
  pure a w = (ok a, w)

  pub raise : Failure → Action A
  raise e w = (err e, w)

  -- a query
  pub gets : (Database → A) → Action A
  gets f w = (ok (f w.db), w)

  pub or_raise : Option A → Failure → Action A
  unfolding raise pure
  or_raise none e = raise e
  or_raise (some a) _ = pure a

pub raise_if : Bool → Failure → Action (Unit {0})
raise_if c e w = (if c then err e else ok tt, w)

pub modify : (Database → Database) → Action (Unit {0})
modify f w = (ok tt, record w { db = f w.db })

-- a write with the constraints that it can break: the first test is that of the unique
-- constraints, the second that of the foreign keys
pub constrained : (Database → Bool) → (Database → Bool) → (Database → Database) → Action (Unit {0})
constrained clash dangling f w =
    if clash w.db
    then (err unique_violation, w)
    else if dangling w.db
    then (err foreign_key_violation, w)
    else (ok tt, record w { db = f w.db })

-- the number of the next random value
pub draw : Action ℕ
draw w = (ok w.draws, record w { draws = suc w.draws })

abbrev pub continue : {A B : Type 0} → Result A → (A → Action B) → Action B
continue (ok a) f w = f a w
continue (err e) f w = (err e, w)

-- opening this opens the actions above too
infixl 5 ◌>>=◌ ◌>>◌
unfoldable pub ◌>>=◌ : {A B : Type 0} → Action A → (A → Action B) → Action B
unfolding pure raise gets or_raise raise_if modify constrained draw
◌>>=◌ m f w = let (r, w') = m w in continue r f w'

abbrev pub ◌>>◌ : {A B : Type 0} → Action A → Action B → Action B
m >> k = m >>= λ _. k

-- `db.transaction(handler)`: a throw undoes the writes to the database, and only those.
abbrev pub rollback : {A : Type 0} → Database → Result A × World → Result A × World
rollback d (ok a, w) = (ok a, w)
rollback d (err e, w) = (err e, record w { db = d })

unfoldable pub transaction : {A : Type 0} → Action A → Action A
transaction m w = rollback w.db (m w)
