-- ===== src/Auth/Follows.antt =====
-- Every method of `AuthService` makes only the writes of `Auth.Write`, whether it returns or throws:
-- a rule for each way to build an action.
pub mod Basic
pub mod Account
pub mod Identity
use id_provider.Base.{
  ◌≡◌, inl, inr, Bool, true, false, Option, none, some, if◌then◌else◌, Bool-cases,
}
use id_provider.Store.{
  Database, Action, World, Failure, Result, ok, err, pure, raise, gets, or_raise, raise_if, modify,
  constrained, draw, ◌>>=◌, transaction, rollback, continue,
}
use id_provider.Auth.Write.{Write, Writes, here, next, Writes-trans}

pub record Follows {A : Type 0} (m : Action A) : Type 0 where
  pub at : (w : World) → Writes w.db (m w).1.db

module _ {A : Type 0} where
  pub Follows-pure : (a : A) → Follows (pure a)
  unfolding ◌>>=◌
  Follows-pure a = record { at = λ w. here }

  pub Follows-raise : (f : Failure) → Follows (raise {A = A} f)
  unfolding ◌>>=◌
  Follows-raise f = record { at = λ w. here }

  pub Follows-gets : (f : Database → A) → Follows (gets f)
  unfolding ◌>>=◌
  Follows-gets f = record { at = λ w. here }

  pub Follows-or_raise : (o : Option A) (f : Failure) → Follows (or_raise o f)
  unfolding ◌>>=◌
  Follows-or_raise none f = record { at = λ w. here }
  Follows-or_raise (some a) f = record { at = λ w. here }

  pub Follows-if :
      (b : Bool) (m n : Action A) → Follows m → Follows n → Follows (if b then m else n)
  Follows-if true m n hm hn = hm
  Follows-if false m n hm hn = hn

  rolled_back :
      (d : Database) (r : Result A × World) → Writes d r.1.db → Writes d (rollback d r).1.db
  rolled_back d (ok a, w) h = h
  rolled_back d (err f, w) h = here

  pub Follows-transaction : (m : Action A) → Follows m → Follows (transaction m)
  unfolding transaction
  Follows-transaction m h = record { at = λ w. rolled_back w.db (m w) (h.at w) }

pub Follows-raise_if : (b : Bool) (f : Failure) → Follows (raise_if b f)
unfolding ◌>>=◌
Follows-raise_if b f = record { at = λ w. here }

pub Follows-draw : Follows draw
unfolding ◌>>=◌
Follows-draw = record { at = λ w. here }

pub Follows-modify :
    (f : Database → Database) → ((d : Database) → Write d (f d)) → Follows (modify f)
unfolding ◌>>=◌
Follows-modify f h = record { at = λ w. next here (h w.db) }

pub Follows-constrained :
    (clash dangling : Database → Bool) (f : Database → Database)
    → ((d : Database) → clash d ≡ false → dangling d ≡ false → Write d (f d))
    → Follows (constrained clash dangling f)
unfolding ◌>>=◌
Follows-constrained clash dangling f h = record {
  at = λ w. elim (Bool-cases (clash w.db)) [
    | inl c ↦ rw c here
    | inr c ↦ elim (Bool-cases (dangling w.db)) [
      | inl g ↦ rw (c, g) here
      | inr g ↦ rw (c, g) (next here (h w.db c g))
    ]
  ];
}

module _ {A B : Type 0} where
  Follows-continue :
      (d : Database) (r : Result A) (w : World) (f : A → Action B)
      → Writes d w.db
      → ((a : A) → Follows (f a))
      → Writes d (continue r f w).1.db
  Follows-continue d (ok a) w f h hf = Writes-trans h ((hf a).at w)
  Follows-continue d (err x) w f h hf = h

  pub Follows-bind :
      (m : Action A) (f : A → Action B) → Follows m → ((a : A) → Follows (f a)) → Follows (m >>= f)
  unfolding ◌>>=◌
  Follows-bind m f hm hf = record {
    at = λ w. let (r, w') = m w in Follows-continue w.db r w' f (hm.at w) hf;
  }

pub ruleset follows = (
  Follows-pure, Follows-raise, Follows-gets, Follows-or_raise, Follows-if, Follows-transaction,
  Follows-raise_if, Follows-draw, Follows-bind,
)
