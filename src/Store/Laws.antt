-- ===== src/Store/Laws.antt =====
-- What a transaction does.
use id_provider.Base.{suc, ◌≡◌, refl, ◌∙◌, ap, Bool, false, Bool-cases, inl, inr, arith}
use id_provider.Store.Rows.{Database}
use id_provider.Store.Call.{
  Action, World, Result, ok, err, Failure, transaction, continue, pure, draw, gets, constrained,
  ◌>>=◌,
}

-- A transaction that throws leaves the database as it was.
pub transaction_throws :
    {A : Type 0} (m : Action A) (w : World) (e : Failure)
    → (transaction m w).0 ≡ err e
    → (transaction m w).1.db ≡ w.db
unfolding transaction
transaction_throws m w e h = ground arith

pub ok_injective : {A : Type 0} {a b : A} → Result.ok a ≡ ok b → a ≡ b
ok_injective h = cc

continue-eq-ok :
    {A B : Type 0} (r : Result A × World) (f : A → Action B) {b : B}
    → (continue r.0 f r.1).0 ≡ ok b
    → (a : A) × (w' : World) × (r ≡ (ok a, w')) × ((f a w').0 ≡ ok b)
continue-eq-ok (ok a, w) f h = (a, w, refl, h)
continue-eq-ok (err e, w) f h = cc

-- Inversion of a sequence that returns.
pub >>=-eq-ok :
    {A B : Type 0} (m : Action A) (f : A → Action B) (w : World) {b : B}
    → ((m >>= f) w).0 ≡ ok b
    → (a : A) × (w' : World) × (m w ≡ (ok a, w')) × ((f a w').0 ≡ ok b)
unfolding ◌>>=◌
>>=-eq-ok m f w h = continue-eq-ok (m w) f h

continue-keeps :
    {A B X : Type 0} (g : Database → X) (r : Result A × World) (f : A → Action B) (x : X)
    → g r.1.db ≡ x
    → ((a : A) (w' : World) → g (f a w').1.db ≡ g w'.db)
    → g (continue r.0 f r.1).1.db ≡ x
continue-keeps g (ok a, w) f x h k = k a w ∙ h
continue-keeps g (err e, w) f x h k = h

-- A part of the database that both steps keep is kept by the sequence.
pub >>=-keeps :
    {A B X : Type 0} (g : Database → X) (m : Action A) (f : A → Action B) (w : World)
    → g (m w).1.db ≡ g w.db
    → ((a : A) (w' : World) → g (f a w').1.db ≡ g w'.db)
    → g ((m >>= f) w).1.db ≡ g w.db
unfolding ◌>>=◌
>>=-keeps g m f w h k = continue-keeps g (m w) f (g w.db) h k

continue-throws :
    {A B X : Type 0} (g : Database → X) (r : Result A × World) (f : A → Action B) (x : X)
    (e : Failure)
    → g r.1.db ≡ x
    → ((a : A) (w' : World) → (f a w').0 ≡ err e → g (f a w').1.db ≡ g w'.db)
    → (continue r.0 f r.1).0 ≡ err e
    → g (continue r.0 f r.1).1.db ≡ x
continue-throws g (ok a, w) f x e h k t = k a w t ∙ h
continue-throws g (err e', w) f x e h k t = h

-- A part of the database that the first step keeps, and the second one if it throws, is kept by a
-- sequence that throws.
pub >>=-throws :
    {A B X : Type 0} (g : Database → X) (m : Action A) (f : A → Action B) (w : World) (e : Failure)
    → g (m w).1.db ≡ g w.db
    → ((a : A) (w' : World) → (f a w').0 ≡ err e → g (f a w').1.db ≡ g w'.db)
    → ((m >>= f) w).0 ≡ err e
    → g ((m >>= f) w).1.db ≡ g w.db
unfolding ◌>>=◌
>>=-throws g m f w e h k t = continue-throws g (m w) f (g w.db) e h k t

pub pure-db : {A : Type 0} (a : A) (w : World) → (pure a w).1.db ≡ w.db
unfolding ◌>>=◌
pure-db a w = refl

pub draw-db : (w : World) → (draw w).1.db ≡ w.db
unfolding ◌>>=◌
draw-db w = refl

pub pure-eq-ok : {A : Type 0} (a b : A) (w : World) → (pure a w).0 ≡ ok b → a ≡ b
unfolding ◌>>=◌
pure-eq-ok a b w h = ok_injective h

continue_path :
    {A B : Type 0} (r : Result A × World) (f : A → Action B) {b : B}
    → (continue r.0 f r.1).0 ≡ ok b
    → (a : A) × (w' : World) × (r ≡ (ok a, w')) × (continue r.0 f r.1 ≡ f a w')
continue_path (ok a, w) f h = (a, w, refl, refl)
continue_path (err e, w) f h = cc

-- A sequence that returns goes on as its second step does.
pub >>=_path :
    {A B : Type 0} (m : Action A) (f : A → Action B) (w : World) {b : B}
    → ((m >>= f) w).0 ≡ ok b
    → (a : A) × (w' : World) × (m w ≡ (ok a, w')) × ((m >>= f) w ≡ f a w')
unfolding ◌>>=◌
>>=_path m f w h = continue_path (m w) f h

-- A sequence whose first step returns.
pub >>=_step :
    {A B : Type 0} (m : Action A) (f : A → Action B) (w w' : World) (a : A)
    → m w ≡ (ok a, w')
    → (m >>= f) w ≡ f a w'
unfolding ◌>>=◌
>>=_step m f w w' a h = ap (λ r. continue r.0 f r.1) h

-- A guarded write keeps the parts of the database that the write itself keeps.
pub constrained-keeps :
    {X : Type 0} (g : Database → X) (clash dangling : Database → Bool) (f : Database → Database)
    → ((d : Database) → g (f d) ≡ g d)
    → (w : World) → g (constrained clash dangling f w).1.db ≡ g w.db
unfolding ◌>>=◌
constrained-keeps g clash dangling f k w = elim (Bool-cases (clash w.db)) [
  | inl t ↦ rw t refl
  | inr n ↦ elim (Bool-cases (dangling w.db)) [
    | inl t ↦ rw (n, t) refl
    | inr o ↦ rw (n, o) (k w.db)
  ]
]

pub constrained_returns :
    (clash dangling : Database → Bool) (f : Database → Database) (w : World)
    → clash w.db ≡ false
    → dangling w.db ≡ false
    → constrained clash dangling f w ≡ (ok tt, record w { db = f w.db })
unfolding ◌>>=◌
constrained_returns clash dangling f w n o = rw (n, o) refl

pub constrained_dangling :
    (clash dangling : Database → Bool) (f : Database → Database) (w : World)
    → (constrained clash dangling f w).0 ≡ ok tt
    → dangling w.db ≡ false
unfolding ◌>>=◌
constrained_dangling clash dangling f w h = elim (Bool-cases (dangling w.db)) [
  | inl t ↦ ground arith
  | inr o ↦ o
]

pub draw_lem : (w : World) → draw w ≡ (ok w.draws, record w { draws = suc w.draws })
unfolding ◌>>=◌
draw_lem w = refl

pub gets_lem : {A : Type 0} (f : Database → A) (w : World) → gets f w ≡ (ok (f w.db), w)
unfolding ◌>>=◌
gets_lem f w = refl

pub gets-db : {A : Type 0} (f : Database → A) (w : World) → (gets f w).1.db ≡ w.db
unfolding ◌>>=◌
gets-db f w = refl

pub pure_lem : {A : Type 0} (a : A) (w : World) → pure a w ≡ (ok a, w)
unfolding ◌>>=◌
pure_lem a w = refl

pub pure_returns : {A : Type 0} (a : A) (w : World) → (pure a w).0 ≡ ok a
unfolding ◌>>=◌
pure_returns a w = refl
