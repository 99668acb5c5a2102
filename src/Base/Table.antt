-- ===== src/Base/Table.antt =====
-- Database tables as lists of rows: the queries that the code writes with drizzle.
use Prim.Native.Nat.{ℕ, suc, zero}
use mathlib.Core.Path.{◌≡◌}
use mathlib.Core.Bool.{Bool, false, ◌||◌}
use mathlib.Core.Logic.{◌⊎◌}
use mathlib.Core.Option.{Option, none, some}
use mathlib.Core.List.{List, [], ◌∷◌, ◌++◌}
use Prim.Native.String.{String}
use text.Mathlib.Text.{◌==◌ as str_eq}
use id_provider.Base.Test.{if◌then◌else◌, ltb}

module _ {ℓ} {A : Type ℓ} where
  -- `select … where p limit 1`: the first row that fits
  abbrev pub find : (A → Bool) → List A → Option A
  find p [] = none
  find p (x ∷ xs) = if p x then some x else find p xs

  -- `select … where p`
  abbrev pub select : (A → Bool) → List A → List A
  select p [] = []
  select p (x ∷ xs) = if p x then x ∷ select p xs else select p xs

  -- `update … set f where p`
  abbrev pub update : (A → Bool) → (A → A) → List A → List A
  update p f [] = []
  update p f (x ∷ xs) = (if p x then f x else x) ∷ update p f xs

  -- `delete … where p`
  abbrev pub delete : (A → Bool) → List A → List A
  delete p [] = []
  delete p (x ∷ xs) = if p x then delete p xs else x ∷ delete p xs

  -- whether a row fits
  abbrev pub any : (A → Bool) → List A → Bool
  any p [] = false
  any p (x ∷ xs) = p x || any p xs

  abbrev pub length : List A → ℕ
  length [] = 0
  length (x ∷ xs) = suc (length xs)

  abbrev pub All {κ} : (A → Type κ) → List A → Type κ
  All P [] = Unit
  All P (x ∷ xs) = P x × All P xs

  abbrev pub flat_map {κ} : {B : Type κ} → (A → List B) → List A → List B
  flat_map f [] = []
  flat_map f (x ∷ xs) = f x ++ flat_map f xs

-- membership, taken apart by cases
abbrev pub In : {A : Type 0} → A → List A → Type 0
In x [] = ⊥
In x (y ∷ ys) = (x ≡ y) ⊎ In x ys

abbrev pub take {ℓ} : {A : Type ℓ} → ℕ → List A → List A
take zero xs = []
take (suc n) [] = []
take (suc n) (x ∷ xs) = x ∷ take n xs

-- `orderBy(desc(f)).limit(1)`: the first row with the greatest `f`
abbrev pub newest {ℓ} : {A : Type ℓ} → (A → ℕ) → List A → Option A
newest f [] = none
newest f (x ∷ xs) = elim (newest f xs) [
  | none ↦ some x
  | some y ↦ some (if ltb (f x) (f y) then y else x)
]

-- `[...new Set(xs)]`: each text once, in the order of first occurrence
abbrev pub has_text : String → List String → Bool
has_text x xs = any (λ y. str_eq y x) xs

abbrev pub distinct_from : List String → List String → List String
distinct_from seen [] = []
distinct_from seen (x ∷ xs) =
    let rest = distinct_from (x ∷ seen) xs in
    let skip = distinct_from seen xs in if has_text x seen then skip else x ∷ rest

abbrev pub distinct : List String → List String
distinct xs = distinct_from [] xs
