-- ===== src/Retention/Pass.antt =====
-- Passes of the retention job as wholes: the ones that end, the ones that never do, and dry runs
-- (apps/idp-server/src/jobs/data-retention.ts).
use id_provider.Base.{
  ℕ, zero, suc, ◌<◌, ◌≡◌, refl, ◌∙◌, inl, inr, Bool, true, false, none, some, List, [], ◌∷◌, any,
  select, update, delete, length, arith,
}
use id_provider.Base.Unique.{IsUnique, any-update}
use id_provider.Base.Members.{any-In, select-In}
use id_provider.Retention.Loop.{has_id, chunk_ids, chunks, anonymize_pass, delete_pass}
use id_provider.Retention.Sweep.{
  List-cases, chunks_end, chunks_turn, chunks_sweep, nothing_left, update-Sweeps, delete-Sweeps,
}

module _ {A : Type 0} (id : A → ℕ) (p : A → Bool) where
  -- a dry run counts the rows and leaves them
  pub anonymize_pass_dry :
      (fuel size : ℕ) (f : A → A) (xs : List A)
      → anonymize_pass id p fuel size true f xs ≡ some (length (select p xs), xs)
  unfolding anonymize_pass
  anonymize_pass_dry fuel size f xs = refl

  pub delete_pass_dry :
      (fuel size : ℕ) (xs : List A)
      → delete_pass id p fuel size true xs ≡ some (length (select p xs), xs)
  unfolding delete_pass
  delete_pass_dry fuel size xs = refl

  pub delete_pass_ends :
      (fuel size : ℕ) (xs : List A)
      → 0 < size
      → length (select p xs) < fuel
      → IsUnique id xs
      → delete_pass id p fuel size false xs ≡ some (length (select p xs), delete p xs)
  unfolding delete_pass
  delete_pass_ends fuel size xs z h u =
      chunks_sweep id p delete size (delete-Sweeps id p) fuel 0 xs z h u ∙ ground arith

  module _ (f : A → A) where
    pub anonymize_pass_ends :
        (fuel size : ℕ) (xs : List A)
        → ((x : A) → p (f x) ≡ false)
        → ((x : A) → id (f x) ≡ id x)
        → 0 < size
        → length (select p xs) < fuel
        → IsUnique id xs
        → anonymize_pass id p fuel size false f xs ≡ some (length (select p xs), update p f xs)
    unfolding anonymize_pass
    anonymize_pass_ends fuel size xs off same z h u =
        chunks_sweep id p (λ q. update q f) size (update-Sweeps id p f off same) fuel 0 xs z h u
        ∙ ground arith

    -- no row to anonymize: one query, and the pass is over
    pub anonymize_pass_idle :
        (fuel size : ℕ) (xs : List A)
        → any p xs ≡ false
        → anonymize_pass id p (suc fuel) size false f xs ≡ some (0, xs)
    unfolding anonymize_pass
    anonymize_pass_idle fuel size xs h =
        chunks_end (chunk_ids id p size) _ fuel 0 xs (empty_chunk size xs h)
      where
        empty_chunk : (n : ℕ) (ys : List A) → any p ys ≡ false → chunk_ids id p n ys ≡ []
        empty_chunk zero ys k = refl
        empty_chunk (suc n) [] k = refl
        empty_chunk (suc n) (y ∷ ys) k =
            let off : p y ≡ false = ground arith in rw off (empty_chunk (suc n) ys (rw off at k))

    -- an update after which the rows are still selected: the loop runs out of any fuel
    chunks_stuck :
        (size : ℕ)
        → ((x : A) → p x ≡ true → p (f x) ≡ true)
        → 0 < size
        → (fuel total : ℕ) (xs : List A) → any p xs ≡ true
        → chunks fuel
            (chunk_ids id p size)
            (λ ids rs. (length ids, update (λ r. has_id ids (id r)) f rs))
            total
            xs
          ≡ none
    unfolding chunks
    chunks_stuck size on z zero total xs h = refl
    chunks_stuck size on z (suc fuel) total xs h = elim (List-cases (chunk_ids id p size xs)) [
      | inl e ↦
          let none_left = nothing_left id p (λ q. update q f) size xs z e in
          let (x, i, t) = any-In p xs h in absurd (rw none_left at (select-In p xs x i t))
      | inr (i, is, e) ↦
          chunks_turn (chunk_ids id p size)
            (λ ids rs. (length ids, update (λ r. has_id ids (id r)) f rs)) fuel total xs i is e
          ∙ chunks_stuck size on z fuel _ _ (any-update p (λ r. has_id (i ∷ is) (id r)) f on xs h)
    ]

    pub anonymize_pass_stuck :
        (fuel size : ℕ) (xs : List A)
        → ((x : A) → p x ≡ true → p (f x) ≡ true)
        → 0 < size
        → any p xs ≡ true
        → anonymize_pass id p fuel size false f xs ≡ none
    unfolding anonymize_pass
    anonymize_pass_stuck fuel size xs on z h = chunks_stuck size on z fuel 0 xs h
