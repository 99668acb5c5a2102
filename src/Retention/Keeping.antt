-- ===== src/Retention/Keeping.antt =====
-- A pass leaves alone the rows that it does not select
-- (apps/idp-server/src/jobs/data-retention.ts).
use id_provider.Base.{
  ℕ, zero, suc, ◌≡◌, sym, inl, inr, Bool, false, List, [], ◌∷◌, In, update, delete, length,
  Bool-cases,
}
use id_provider.Base.Unique.{IsUnique, update-IsUnique, delete-IsUnique}
use id_provider.Retention.Loop.{has_id, chunk_ids}
use id_provider.Retention.Chunk.{chunk_ids_match}
use id_provider.Retention.Sweep.{List-cases}
use id_provider.Retention.Turns.{
  chunks_after, chunks_after_end, chunks_after_turn, anonymize_after, delete_after,
}

module _ {A : Type 0} where
  pub update-In :
      (q : A → Bool) (f : A → A) (xs : List A) (x : A)
      → In x xs
      → q x ≡ false
      → In x (update q f xs)
  update-In q f [] x i n = absurd i
  update-In q f (y ∷ xs) x (inl same) n =
      let off : q y ≡ false = rw (sym same) n in rw off (inl same)
  update-In q f (y ∷ xs) x (inr i) n = inr (update-In q f xs x i n)

  pub delete-In : (q : A → Bool) (xs : List A) (x : A) → In x xs → q x ≡ false → In x (delete q xs)
  delete-In q [] x i n = absurd i
  delete-In q (y ∷ xs) x (inl same) n = let off : q y ≡ false = rw (sym same) n in rw off (inl same)
  delete-In q (y ∷ xs) x (inr i) n = elim (Bool-cases (q y)) [
    | inl t ↦ rw t (delete-In q xs x i n)
    | inr f ↦ rw f (inr (delete-In q xs x i n))
  ]

module _ {A : Type 0} (id : A → ℕ) (p : A → Bool) (x : A) (off : p x ≡ false) where
  -- the row is there, and ids are unique
  abbrev Keeps : List A → Type 0
  Keeps xs = In x xs × IsUnique id xs

  -- a write on the rows of a chunk leaves a row that the pass does not select
  abbrev KeptBy : ((A → Bool) → List A → List A) → Type 0
  KeptBy act = (q : A → Bool) (xs : List A) → q x ≡ false → Keeps xs → Keeps (act q xs)

  spared : (size : ℕ) (xs : List A) → Keeps xs → has_id (chunk_ids id p size xs) (id x) ≡ false
  spared size xs (i, u) = elim (Bool-cases (has_id (chunk_ids id p size xs) (id x))) [
    | inl t ↦ let e = chunk_ids_match id p size xs u x i t in cc
    | inr f ↦ f
  ]

  chunks_keep :
      (act : (A → Bool) → List A → List A) (size : ℕ)
      → KeptBy act
      → (n : ℕ) (xs : List A) → Keeps xs
      → Keeps (
          chunks_after n
            (chunk_ids id p size)
            (λ ids rs. (length ids, act (λ r. has_id ids (id r)) rs))
            xs)
  unfolding chunks_after
  chunks_keep act size kept zero xs k = k
  chunks_keep act size kept (suc n) xs k = elim (List-cases (chunk_ids id p size xs)) [
    | inl e ↦
        rw
          (chunks_after_end (chunk_ids id p size)
            (λ ids rs. (length ids, act (λ r. has_id ids (id r)) rs)) n xs e)
          k
    | inr (i, is, e) ↦
        let next = kept (λ r. has_id (i ∷ is) (id r)) xs (rw e at (spared size xs k)) k in
        rw
          (chunks_after_turn (chunk_ids id p size)
            (λ ids rs. (length ids, act (λ r. has_id ids (id r)) rs)) n xs i is e)
          (chunks_keep act size kept n _ next)
  ]

  anonymize_after-Keeps :
      (f : A → A)
      → ((y : A) → id (f y) ≡ id y)
      → (n size : ℕ) (xs : List A) → Keeps xs
      → Keeps (anonymize_after id p n size f xs)
  unfolding anonymize_after
  anonymize_after-Keeps f same n size xs k =
      chunks_keep (λ q. update q f) size
        (λ q zs m (i, u). (update-In q f zs x i m, update-IsUnique id q f same zs u)) n xs k

  delete_after-Keeps : (n size : ℕ) (xs : List A) → Keeps xs → Keeps (delete_after id p n size xs)
  unfolding delete_after
  delete_after-Keeps n size xs k =
      chunks_keep delete size (λ q zs m (i, u). (delete-In q zs x i m, delete-IsUnique id q zs u)) n
        xs k

-- both loops over a table, after any number of turns of each
pub loops_keep :
    {A : Type 0} (id : A → ℕ) (p q : A → Bool) (x : A)
    → p x ≡ false
    → q x ≡ false
    → (f : A → A) → ((y : A) → id (f y) ≡ id y)
    → (n m size : ℕ) (xs : List A) → In x xs
    → IsUnique id xs
    → In x (delete_after id q m size (anonymize_after id p n size f xs))
loops_keep id p q x a d f same n m size xs i u =
    (delete_after-Keeps id q x d m size _
      (anonymize_after-Keeps id p x a f same n size xs (i, u))).0
