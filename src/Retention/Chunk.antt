-- ===== src/Retention/Chunk.antt =====
-- One round of a pass: the chunk of ids that is selected stands for its rows and no others
-- (apps/idp-server/src/jobs/data-retention.ts).
use id_provider.Base.{
  ℕ, zero, suc, ◌≡◌, ◌≢◌, refl, ap, inl, inr, Bool, true, false, ==_iff, ==_refl, ◌==◌, ◌∙◌, List,
  [], ◌∷◌, map, All, In, select, take, Bool-cases, arith,
}
use id_provider.Base.Unique.{All-map, IsUnique}
use id_provider.Base.Members.{In-select, select-In}
use id_provider.Retention.Loop.{has_id, chunk_ids}

module _ {A : Type 0} where
  All-select : (P : A → Type 0) (p : A → Bool) (xs : List A) → All P xs → All P (select p xs)
  All-select P p [] h = tt
  All-select P p (x ∷ xs) (h, hs) = elim (Bool-cases (p x)) [
    | inl t ↦ rw t (h, All-select P p xs hs)
    | inr f ↦ rw f (All-select P p xs hs)
  ]

  All-take : (P : A → Type 0) (n : ℕ) (xs : List A) → All P xs → All P (take n xs)
  All-take P zero xs h = tt
  All-take P (suc n) [] h = tt
  All-take P (suc n) (x ∷ xs) (h, hs) = (h, All-take P n xs hs)

  In-take : (n : ℕ) (xs : List A) (x : A) → In x (take n xs) → In x xs
  In-take zero xs x h = absurd h
  In-take (suc n) [] x h = absurd h
  In-take (suc n) (y ∷ xs) x (inl same) = inl same
  In-take (suc n) (y ∷ xs) x (inr i) = inr (In-take n xs x i)

  -- queries with tests that agree on the rows
  select_congr :
      (p q : A → Bool) (xs : List A) → All (λ x. p x ≡ q x) xs → select p xs ≡ select q xs
  select_congr p q [] h = refl
  select_congr p q (x ∷ xs) (h, hs) = rw (h, select_congr p q xs hs) refl

  select_nothing : (xs : List A) → select (λ _. false) xs ≡ []
  select_nothing [] = refl
  select_nothing (x ∷ xs) = select_nothing xs

  module _ (id : A → ℕ) where
    -- an id that no row has is not among the ids of some of the rows
    has_id-other : (i : ℕ) (xs : List A) → All (λ y. id y ≢ i) xs → has_id (map id xs) i ≡ false
    has_id-other i [] h = refl
    has_id-other i (x ∷ xs) (n, h) = elim (Bool-cases (id x == i)) [
      | inl t ↦ absurd (n ((==_iff (id x) i).0 t))
      | inr f ↦ rw f (has_id-other i xs h)
    ]

    -- an id more selects the row with that id more
    select_more :
        (x : A) (ids : List ℕ) (xs : List A)
        → All (λ y. id y ≢ id x) xs
        → select (λ y. has_id (id x ∷ ids) (id y)) (x ∷ xs) ≡ x ∷ select (λ y. has_id ids (id y)) xs
    select_more x ids xs fresh = rw (==_refl (id x)) (
        ap (λ ys. x ∷ ys)
          (select_congr (λ y. has_id (id x ∷ ids) (id y)) (λ y. has_id ids (id y)) xs
            (All-map (λ y. id y ≢ id x) (λ y. has_id (id x ∷ ids) (id y) ≡ has_id ids (id y))
              (λ y n. ground (arith, λ (e : id y ≡ id x). n e)) xs fresh)))

    -- the rows that the ids of a chunk select are the rows of the chunk
    pub select-chunk_ids :
        (p : A → Bool) (n : ℕ) (xs : List A)
        → IsUnique id xs
        → select (λ x. has_id (chunk_ids id p n xs) (id x)) xs ≡ take n (select p xs)
    select-chunk_ids p zero [] u = refl
    select-chunk_ids p (suc n) [] u = refl
    select-chunk_ids p zero (x ∷ xs) u = select_nothing xs
    select-chunk_ids p (suc n) (x ∷ xs) (fresh, u) = elim (Bool-cases (p x)) [
      | inl t ↦
          let e : chunk_ids id p (suc n) (x ∷ xs) ≡ id x ∷ chunk_ids id p n xs = rw t refl in
          ap (λ ids. select (λ y. has_id ids (id y)) (x ∷ xs)) e
          ∙ (select_more x (chunk_ids id p n xs) xs fresh
              ∙ (ap (λ ys. x ∷ ys) (select-chunk_ids p n xs u) ∙ rw t refl))
      | inr f ↦
          let apart : All (λ y. id y ≢ id x) (take (suc n) (select p xs)) =
            All-take _ (suc n) _ (All-select _ p xs fresh) in
          let e : chunk_ids id p (suc n) (x ∷ xs) ≡ chunk_ids id p (suc n) xs = rw f refl in
          ap (λ ids. select (λ y. has_id ids (id y)) (x ∷ xs)) e
          ∙ (rw (has_id-other (id x) (take (suc n) (select p xs)) apart, f)
              (select-chunk_ids p (suc n) xs u))
    ]

    -- a row whose id is in the chunk is one that the query selects
    pub chunk_ids_match :
        (p : A → Bool) (n : ℕ) (xs : List A)
        → IsUnique id xs
        → (x : A) → In x xs
        → has_id (chunk_ids id p n xs) (id x) ≡ true
        → p x ≡ true
    chunk_ids_match p n xs u x i t =
        let j : In x (take n (select p xs)) =
          rw (select-chunk_ids p n xs u) at
            (select-In (λ y. has_id (chunk_ids id p n xs) (id y)) xs x i t) in
        (In-select p xs x (In-take n (select p xs) x j)).1
