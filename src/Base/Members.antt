-- ===== src/Base/Members.antt =====
-- Membership in the results of queries.
use id_provider.Base.Test.{Bool-cases, Option-cases, ltb}
use id_provider.Base.Table.{
  All, In, select, any, flat_map, newest, has_text, distinct, distinct_from,
}
use Prim.Native.Nat.{ℕ}
use Prim.Native.String.{String}
use mathlib.Core.Path.{◌≡◌, refl, sym, ap}
use mathlib.Core.Logic.{◌⊎◌, inl, inr}
use mathlib.Core.Bool.{Bool, true, false, false≢true}
use mathlib.Core.Option.{some}
use mathlib.Core.List.{List, [], ◌∷◌, ◌++◌, map}
use native.Mathlib.Omega.{arith}
use text.Mathlib.Text.{◌==◌ as str_eq}
use text.Mathlib.TextEquality.{eq_iff}
use text.Mathlib.TextPositions.{eq_refl}

module _ {A : Type 0} where
  pub In-select : (p : A → Bool) (xs : List A) (x : A) → In x (select p xs) → In x xs × (p x ≡ true)
  In-select p [] x h = absurd h
  In-select p (y ∷ ys) x h = elim (Bool-cases (p y)) [
    | inl t ↦
        let i : In x (y ∷ select p ys) = rw t at h in
        elim i [
          | inl same ↦ (inl same, rw same t)
          | inr later ↦ let (i, q) = In-select p ys x later in (inr i, q)
        ]
    | inr f ↦ let (i, q) = In-select p ys x (rw f at h) in (inr i, q)
  ]

  pub select-In : (p : A → Bool) (xs : List A) (x : A) → In x xs → p x ≡ true → In x (select p xs)
  select-In p [] x h t = absurd h
  select-In p (y ∷ ys) x (inl same) t = let u : p y ≡ true = rw (sym same) t in rw u (inl same)
  select-In p (y ∷ ys) x (inr i) t = elim (Bool-cases (p y)) [
    | inl u ↦ rw u (inr (select-In p ys x i t))
    | inr f ↦ rw f (select-In p ys x i t)
  ]

  pub any-In : (p : A → Bool) (xs : List A) → any p xs ≡ true → (x : A) × In x xs × (p x ≡ true)
  any-In p [] h = absurd (false≢true h)
  any-In p (y ∷ ys) h = elim (Bool-cases (p y)) [
    | inl t ↦ (y, inl refl, t)
    | inr f ↦ let (x, i, t) = any-In p ys (rw f at h) in (x, inr i, t)
  ]

  pub In-any : (p : A → Bool) (xs : List A) (x : A) → In x xs → p x ≡ true → any p xs ≡ true
  In-any p [] x h t = absurd h
  In-any p (y ∷ ys) x (inl same) t = let u : p y ≡ true = rw (sym same) t in rw u refl
  In-any p (y ∷ ys) x (inr i) t = elim (Bool-cases (p y)) [
    | inl u ↦ rw u refl
    | inr f ↦ rw f (In-any p ys x i t)
  ]

  -- the first row in an order is a row
  pub newest-In : (f : A → ℕ) (xs : List A) (x : A) → newest f xs ≡ some x → In x xs
  newest-In f [] x h = cc
  newest-In f (y ∷ ys) x h = elim (Option-cases (newest f ys)) [
    | inl nothing ↦ inl (ground arith)
    | inr (z, found) ↦ elim (Bool-cases (ltb (f y) (f z))) [
      | inl t ↦ inr (newest-In f ys x (ground arith))
      | inr k ↦ inl (ground arith)
    ]
  ]

  -- a query with a row has a first row
  pub In-newest : (f : A → ℕ) (xs : List A) (x : A) → In x xs → (y : A) × (newest f xs ≡ some y)
  In-newest f [] x i = absurd i
  In-newest f (y ∷ ys) x i = elim (Option-cases (newest f ys)) [
    | inl nothing ↦ (y, ground arith)
    | inr (z, found) ↦ rw found (_, refl)
  ]

  pub In-++ : (xs ys : List A) (x : A) → In x (xs ++ ys) → In x xs ⊎ In x ys
  In-++ [] ys x h = inr h
  In-++ (y ∷ xs) ys x (inl same) = inl (inl same)
  In-++ (y ∷ xs) ys x (inr i) = elim (In-++ xs ys x i) [ inl l ↦ inl (inr l) | inr r ↦ inr r ]

  pub ++-left : (xs ys : List A) (x : A) → In x xs → In x (xs ++ ys)
  ++-left [] ys x h = absurd h
  ++-left (y ∷ xs) ys x (inl same) = inl same
  ++-left (y ∷ xs) ys x (inr i) = inr (++-left xs ys x i)

  pub ++-right : (xs ys : List A) (x : A) → In x ys → In x (xs ++ ys)
  ++-right [] ys x h = h
  ++-right (y ∷ xs) ys x h = inr (++-right xs ys x h)

-- what holds of every row holds of each
pub All-In : {A : Type 0} (P : A → Type 0) (xs : List A) (x : A) → All P xs → In x xs → P x
All-In P [] x a i = absurd i
All-In P (y ∷ xs) x (p, a) (inl same) = rw same p
All-In P (y ∷ xs) x (p, a) (inr i) = All-In P xs x a i

pub In-flat_map :
    {A B : Type 0} (f : A → List B) (xs : List A) (y : B)
    → In y (flat_map f xs)
    → (x : A) × In x xs × In y (f x)
In-flat_map f [] y h = absurd h
In-flat_map f (x ∷ xs) y h = elim (In-++ (f x) (flat_map f xs) y h) [
  | inl i ↦ (x, inl refl, i)
  | inr j ↦ let (z, k, i) = In-flat_map f xs y j in (z, inr k, i)
]

pub flat_map-In :
    {A B : Type 0} (f : A → List B) (xs : List A) (x : A) (y : B)
    → In x xs
    → In y (f x)
    → In y (flat_map f xs)
flat_map-In f [] x y h i = absurd h
flat_map-In f (z ∷ xs) x y (inl same) i = ++-left (f z) (flat_map f xs) y (rw (sym same) i)
flat_map-In f (z ∷ xs) x y (inr j) i = ++-right (f z) (flat_map f xs) y (flat_map-In f xs x y j i)

pub In-map :
    {A B : Type 0} (f : A → B) (xs : List A) (y : B)
    → In y (map f xs)
    → (x : A) × In x xs × (y ≡ f x)
In-map f [] y h = absurd h
In-map f (x ∷ xs) y (inl same) = (x, inl refl, same)
In-map f (x ∷ xs) y (inr i) = let (z, j, e) = In-map f xs y i in (z, inr j, e)

pub map-In : {A B : Type 0} (f : A → B) (xs : List A) (x : A) → In x xs → In (f x) (map f xs)
map-In f [] x h = absurd h
map-In f (y ∷ xs) x (inl same) = inl (ap f same)
map-In f (y ∷ xs) x (inr i) = inr (map-In f xs x i)

-- leaving out what has been seen keeps the texts that have not been
has_text-distinct_from :
    (seen xs : List String) (x : String)
    → has_text x seen ≡ false
    → has_text x (distinct_from seen xs) ≡ has_text x xs
has_text-distinct_from seen [] x n = refl
has_text-distinct_from seen (y ∷ ys) x n = elim (Bool-cases (str_eq y x)) [
  | inl same ↦
      let e : y ≡ x = (eq_iff y x).0 same in
      let fresh : has_text y seen ≡ false = rw e n in rw (fresh, same) refl
  | inr other ↦ elim (Bool-cases (has_text y seen)) [
    | inl t ↦ rw (t, other) (has_text-distinct_from seen ys x n)
    | inr f ↦
        let n' : has_text x (y ∷ seen) ≡ false = rw (other, n) in
        rw (f, other) (has_text-distinct_from (y ∷ seen) ys x n')
  ]
]

pub has_text-distinct : (xs : List String) (x : String) → has_text x (distinct xs) ≡ has_text x xs
has_text-distinct xs x = has_text-distinct_from [] xs x refl

pub has_text-In : (x : String) (xs : List String) → has_text x xs ≡ true → In x xs
has_text-In x xs h =
    let (y, i, t) = any-In (λ y. str_eq y x) xs h in let e : y ≡ x = (eq_iff y x).0 t in rw e at i

pub In-has_text : (x : String) (xs : List String) → In x xs → has_text x xs ≡ true
In-has_text x xs i = In-any (λ y. str_eq y x) xs x i (eq_refl x)
