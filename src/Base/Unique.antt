-- ===== src/Base/Unique.antt =====
-- Tables under a unique constraint, and what queries and updates do to the rows.
use id_provider.Base.{
  ◌≡◌, refl, ◌≢◌, ◌∙◌, sym, ap, inl, inr, Bool, true, false, none, some, List, [], ◌∷◌, All, any,
  find, update, delete, Bool-cases, arith,
}

module _ {A : Type 0} where
  pub All-map : (P Q : A → Type 0) → ((x : A) → P x → Q x) → (xs : List A) → All P xs → All Q xs
  All-map P Q h [] a = tt
  All-map P Q h (x ∷ xs) (p, a) = (h x p, All-map P Q h xs a)

  pub All-update :
      (P : A → Type 0) (p : A → Bool) (f : A → A)
      → ((x : A) → P x → P (f x))
      → (xs : List A) → All P xs
      → All P (update p f xs)
  All-update P p f h [] a = tt
  All-update P p f h (x ∷ xs) (q, a) = elim (Bool-cases (p x)) [
    | inl t ↦ rw t (h x q, All-update P p f h xs a)
    | inr t ↦ rw t (q, All-update P p f h xs a)
  ]

  -- an update that brings about `P` where it hits
  pub All-update_hit :
      (P : A → Type 0) (p : A → Bool) (f : A → A)
      → ((x : A) → p x ≡ true → P (f x))
      → ((x : A) → p x ≡ false → P x)
      → (xs : List A) → All P (update p f xs)
  All-update_hit P p f h k [] = tt
  All-update_hit P p f h k (x ∷ xs) = elim (Bool-cases (p x)) [
    | inl t ↦ rw t (h x t, All-update_hit P p f h k xs)
    | inr t ↦ rw t (k x t, All-update_hit P p f h k xs)
  ]

  -- an update seen row by row, with what is known of the old rows
  pub All-update_rows :
      (P Q : A → Type 0) (p : A → Bool) (f : A → A)
      → ((x : A) → Q x → p x ≡ true → P (f x))
      → ((x : A) → Q x → p x ≡ false → P x)
      → (xs : List A) → All Q xs
      → All P (update p f xs)
  All-update_rows P Q p f h k [] a = tt
  All-update_rows P Q p f h k (x ∷ xs) (q, a) = elim (Bool-cases (p x)) [
    | inl t ↦ rw t (h x q t, All-update_rows P Q p f h k xs a)
    | inr t ↦ rw t (k x q t, All-update_rows P Q p f h k xs a)
  ]

  pub All-delete : (P : A → Type 0) (p : A → Bool) (xs : List A) → All P xs → All P (delete p xs)
  All-delete P p [] a = tt
  All-delete P p (x ∷ xs) (q, a) = elim (Bool-cases (p x)) [
    | inl t ↦ rw t (All-delete P p xs a)
    | inr t ↦ rw t (q, All-delete P p xs a)
  ]

  pub any-eq-false : (p : A → Bool) (xs : List A) → any p xs ≡ false → All (λ x. p x ≡ false) xs
  any-eq-false p [] h = tt
  any-eq-false p (x ∷ xs) h = (ground arith, any-eq-false p xs (ground arith))

  pub any-update :
      (p q : A → Bool) (f : A → A)
      → ((x : A) → p x ≡ true → p (f x) ≡ true)
      → (xs : List A) → any p xs ≡ true
      → any p (update q f xs) ≡ true
  any-update p q f h [] a = a
  any-update p q f h (x ∷ xs) a = ground (arith, h x, any-update p q f h xs)

  pub update_none : (p : A → Bool) (f : A → A) (xs : List A) → any p xs ≡ false → update p f xs ≡ xs
  update_none p f [] h = refl
  update_none p f (x ∷ xs) h = ground (arith, update_none p f xs)

  pub find_sound : (p : A → Bool) (xs : List A) (x : A) → find p xs ≡ some x → p x ≡ true
  find_sound p [] x h = cc
  find_sound p (y ∷ xs) x h = elim (Bool-cases (p y)) [
    | inl t ↦ ground arith
    | inr t ↦ find_sound p xs x (ground arith)
  ]

  -- a query after an update of the rows that it fits, where they still fit
  pub find-update :
      (p : A → Bool) (f : A → A)
      → ((x : A) → p (f x) ≡ p x)
      → (xs : List A) (x : A) → find p xs ≡ some x
      → find p (update p f xs) ≡ some (f x)
  find-update p f h [] x k = cc
  find-update p f h (y ∷ ys) x k = elim (Bool-cases (p y)) [
    | inl t ↦ let e : y ≡ x = ground arith in rw (t, h y, t, e)
    | inr n ↦ rw (n, n) (find-update p f h ys x (rw n at k))
  ]

  -- what holds of every row holds of the row found
  pub find-All :
      (P : A → Type 0) (p : A → Bool) (xs : List A) (x : A) → All P xs → find p xs ≡ some x → P x
  find-All P p [] x a h = cc
  find-All P p (y ∷ xs) x (q, a) h = elim (Bool-cases (p y)) [
    | inl t ↦ let e : y ≡ x = ground arith in rw e at q
    | inr t ↦ find-All P p xs x a (ground arith)
  ]

  pub find-none : (p : A → Bool) (xs : List A) → All (λ x. p x ≡ false) xs → find p xs ≡ none
  find-none p [] a = refl
  find-none p (x ∷ xs) (h, a) = rw h (find-none p xs a)

module _ {A K : Type 0} (key : A → K) where
  -- no two rows have the same key
  abbrev pub IsUnique : List A → Type 0
  IsUnique [] = Unit
  IsUnique (x ∷ xs) = All (λ y. key y ≢ key x) xs × IsUnique xs

  -- what the test of a unique constraint gives
  pub fresh_of_any :
      (p : A → Bool) (x : A)
      → ((y : A) → key y ≡ key x → p y ≡ true)
      → (xs : List A) → any p xs ≡ false
      → All (λ y. key y ≢ key x) xs
  fresh_of_any p x h xs a =
      All-map (λ y. p y ≡ false) (λ y. key y ≢ key x) (λ y n k. cc (h y k)) xs (any-eq-false p xs a)

  fresh_update :
      (k : K) (p : A → Bool) (f : A → A)
      → ((y : A) → key (f y) ≡ key y)
      → (xs : List A) → All (λ y. key y ≢ k) xs
      → All (λ y. key y ≢ k) (update p f xs)
  fresh_update k p f h xs a = All-update (λ y. key y ≢ k) p f (λ y n e. n (sym (h y) ∙ e)) xs a

  pub update-IsUnique :
      (p : A → Bool) (f : A → A)
      → ((y : A) → key (f y) ≡ key y)
      → (xs : List A) → IsUnique xs
      → IsUnique (update p f xs)
  update-IsUnique p f h [] u = tt
  update-IsUnique p f h (x ∷ xs) (a, u) = elim (Bool-cases (p x)) [
    | inl t ↦ rw (t, h x) (fresh_update (key x) p f h xs a, update-IsUnique p f h xs u)
    | inr t ↦ rw t (fresh_update (key x) p f h xs a, update-IsUnique p f h xs u)
  ]

  pub delete-IsUnique : (p : A → Bool) (xs : List A) → IsUnique xs → IsUnique (delete p xs)
  delete-IsUnique p [] u = tt
  delete-IsUnique p (x ∷ xs) (a, u) = elim (Bool-cases (p x)) [
    | inl t ↦ rw t (delete-IsUnique p xs u)
    | inr t ↦ rw t (All-delete (λ y. key y ≢ key x) p xs a, delete-IsUnique p xs u)
  ]

-- An update of the one row with a given id, to a key that no other row has.
module _ {A I K : Type 0} (id : A → I) (key : A → K) where
  none_hit :
      (i : I) (p : A → Bool)
      → ((y : A) → p y ≡ true → id y ≡ i)
      → (xs : List A) → All (λ y. id y ≢ i) xs
      → any p xs ≡ false
  none_hit i p h [] a = refl
  none_hit i p h (x ∷ xs) (n, a) = elim (Bool-cases (p x)) [
    | inl t ↦ absurd (n (h x t))
    | inr t ↦ rw t (none_hit i p h xs a)
  ]

  apart :
      (k : K) (p : A → Bool) (xs : List A)
      → any p xs ≡ false
      → All (λ y. p y ≡ false → key y ≢ k) xs
      → All (λ y. key y ≢ k) xs
  apart k p [] n a = tt
  apart k p (x ∷ xs) n (h, a) = (h (ground arith), apart k p xs (ground arith) a)

  pub move-IsUnique :
      (i : I) (k : K) (p : A → Bool) (f : A → A)
      → ((y : A) → p y ≡ true → id y ≡ i)
      → ((y : A) → key (f y) ≡ k)
      → (xs : List A) → IsUnique id xs
      → All (λ y. p y ≡ false → key y ≢ k) xs
      → IsUnique key xs
      → IsUnique key (update p f xs)
  move-IsUnique i k p f hp hf [] ui a u = tt
  move-IsUnique i k p f hp hf (x ∷ xs) (fi, ui) (h, a) (fk, u) = elim (Bool-cases (p x)) [
    | inl t ↦
        let n : any p xs ≡ false = none_hit i p hp xs (rw (hp x t) at fi) in
        rw (t, update_none p f xs n, hf x) (apart k p xs n a, u)
    | inr t ↦ rw t (
      All-update (λ y. key y ≢ key x) p f (λ y n e. h t (sym e ∙ hf y)) xs fk,
      move-IsUnique i k p f hp hf xs ui a u,
    )
  ]

-- The row that a query finds is the only one with its key.
module _ {A K : Type 0} (key : A → K) where
  pub find_only :
      (p : A → Bool) (xs : List A) (s : A)
      → IsUnique key xs
      → find p xs ≡ some s
      → All (λ x. key x ≡ key s → x ≡ s) xs
  find_only p [] s u h = tt
  find_only p (x ∷ xs) s (fresh, u) h = elim (Bool-cases (p x)) [
    | inl t ↦
        let e : x ≡ s = ground arith in
        (
          λ _. e,
          All-map (λ y. key y ≢ key x) (λ y. key y ≡ key s → y ≡ s)
              (λ y n k. absurd (n (k ∙ sym (ap key e)))) xs fresh,
        )
    | inr f ↦
        let later : find p xs ≡ some s = rw f at h in
        (
          λ k. absurd (find-All (λ y. key y ≢ key x) p xs s fresh later (sym k)),
          find_only p xs s u later,
        )
  ]

module _ {A : Type 0} where
  pub find-any :
      (p q : A → Bool) (xs : List A) (s : A) → find p xs ≡ some s → q s ≡ true → any q xs ≡ true
  find-any p q [] s h k = cc
  find-any p q (x ∷ xs) s h k = elim (Bool-cases (p x)) [
    | inl t ↦ let e : x ≡ s = ground arith in let t' : q x ≡ true = cc in rw t'
    | inr f ↦ ground (arith, find-any p q xs s)
  ]

  find_later :
      (p q : A → Bool) (x : A) (xs : List A) (s : A)
      → q x ≡ false
      → q s ≡ true
      → find p (x ∷ xs) ≡ some s
      → find p xs ≡ some s
  find_later p q x xs s n qs h = elim (Bool-cases (p x)) [
    | inl t ↦ let e : x ≡ s = ground arith in cc
    | inr f ↦ rw f at h
  ]

  -- what a query finds after an update of the one row that another query found
  pub find_updated :
      (p' p q : A → Bool) (f : A → A) (xs : List A) (s : A)
      → find p' xs ≡ some s
      → q s ≡ true
      → p (f s) ≡ true
      → All (λ x. q x ≡ true → x ≡ s) xs
      → All (λ x. q x ≡ false → p x ≡ false) xs
      → find p (update q f xs) ≡ some (f s)
  find_updated p' p q f [] s h qs pf o a = cc
  find_updated p' p q f (x ∷ xs) s h qs pf (ox, o) (ax, a) = elim (Bool-cases (q x)) [
    | inl t ↦ let e : x ≡ s = ox t in rw (t, e, pf)
    | inr n ↦
        let later : find p' xs ≡ some s = find_later p' q x xs s n qs h in
        rw (n, ax n) (find_updated p' p q f xs s later qs pf o a)
  ]
