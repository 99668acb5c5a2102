-- ===== src/Retention/Sweep.antt =====
-- A pass of the retention job ends, and does what one statement over the whole table would do
-- (apps/idp-server/src/jobs/data-retention.ts).
use id_provider.Base.{
  ℕ, zero, suc, ◌+◌, ◌<◌, ◌≡◌, ◌≢◌, ◌⊎◌, refl, sym, ap, ◌∙◌, inl, inr, Bool, true, false, some,
  List, [], ◌∷◌, map, In, select, update, delete, take, length, Bool-cases, arith,
}
use id_provider.Base.Unique.{IsUnique, update-IsUnique, delete-IsUnique}
use id_provider.Retention.Loop.{has_id, chunk_ids, chunks}
use id_provider.Retention.Chunk.{select-chunk_ids, chunk_ids_match}

pub List-cases : {A : Type 0} (xs : List A) → (xs ≡ []) ⊎ ((y : A) × (ys : List A) × (xs ≡ y ∷ ys))
List-cases [] = inl refl
List-cases (y ∷ ys) = inr (y, ys, refl)

-- one turn of the loop
module _ {S : Type 0} (select_ids : S → List ℕ) (process_ids : List ℕ → S → ℕ × S) (fuel total : ℕ)
    (s : S) where
  pub chunks_end :
      select_ids s ≡ [] → chunks (suc fuel) select_ids process_ids total s ≡ some (total, s)
  unfolding chunks
  chunks_end h = rw (h, chunks) refl

  pub chunks_turn :
      (i : ℕ) (is : List ℕ)
      → select_ids s ≡ i ∷ is
      → chunks (suc fuel) select_ids process_ids total s
        ≡ chunks fuel select_ids process_ids
            (total + (process_ids (i ∷ is) s).0)
            (process_ids (i ∷ is) s).1
  unfolding chunks
  chunks_turn i is h = rw (h, chunks) refl

module _ {A : Type 0} where
  -- the rows that `q` selects are rows that `p` selects
  abbrev pub Below : (A → Bool) → (A → Bool) → List A → Type 0
  Below p q xs = (x : A) → In x xs → q x ≡ true → p x ≡ true

  -- What the loop needs of a write `act q` on the rows that `q` selects: the rows that `p`
  -- selects become fewer by those written, and a write on all of them may come in parts.
  pub record Sweeps (id : A → ℕ) (p : A → Bool) (act : (A → Bool) → List A → List A) : Type 0 where
    pub counted :
        (q : A → Bool) (xs : List A)
        → Below p q xs
        → length (select p (act q xs)) + length (select q xs) ≡ length (select p xs)
    pub absorbed : (q : A → Bool) (xs : List A) → Below p q xs → act p (act q xs) ≡ act p xs
    pub idle : (xs : List A) → select p xs ≡ [] → act p xs ≡ xs
    pub keeps : (q : A → Bool) (xs : List A) → IsUnique id xs → IsUnique id (act q xs)

  select_nothing-All : (p : A → Bool) (xs : List A) → select p xs ≡ [] → Below (λ _. false) p xs
  select_nothing-All p [] h x i t = absurd i
  select_nothing-All p (y ∷ ys) h x i t = elim (Bool-cases (p y)) [
    | inl u ↦ let e : y ∷ select p ys ≡ [] = rw u at h in cc
    | inr f ↦ elim i [
      | inl same ↦ let e : p y ≡ true = rw same at t in cc
      | inr j ↦ select_nothing-All p ys (rw f at h) x j t
    ]
  ]

  length-map : (id : A → ℕ) (xs : List A) → length (map id xs) ≡ length xs
  length-map id [] = refl
  length-map id (x ∷ xs) = ap suc (length-map id xs)

  -- an update after which the rows are no longer selected
  module _ (id : A → ℕ) (p : A → Bool) (f : A → A) where
    pub update-Sweeps :
        ((x : A) → p (f x) ≡ false) → ((x : A) → id (f x) ≡ id x) → Sweeps id p (λ q. update q f)
    update-Sweeps off same = record {
      counted = count;
      absorbed = absorb;
      idle = idle;
      keeps = λ q xs u. update-IsUnique id q f same xs u;
    }
      where
        count :
            (q : A → Bool) (xs : List A)
            → Below p q xs
            → length (select p (update q f xs)) + length (select q xs) ≡ length (select p xs)
        count q [] b = refl
        count q (x ∷ xs) b = ground (arith, off x, b x (inl refl), count q xs (λ y i. b y (inr i)))

        absorb :
            (q : A → Bool) (xs : List A) → Below p q xs → update p f (update q f xs) ≡ update p f xs
        absorb q [] b = refl
        absorb q (x ∷ xs) b = elim (Bool-cases (q x)) [
          | inl t ↦ rw (t, off x, b x (inl refl) t, absorb q xs (λ y i. b y (inr i))) refl
          | inr n ↦ rw (n, absorb q xs (λ y i. b y (inr i))) refl
        ]

        idle : (xs : List A) → select p xs ≡ [] → update p f xs ≡ xs
        idle [] h = refl
        idle (x ∷ xs) h = elim (Bool-cases (p x)) [
          | inl t ↦ let e : x ∷ select p xs ≡ [] = rw t at h in cc
          | inr n ↦ rw (n, idle xs (rw n at h)) refl
        ]

  pub delete-Sweeps : (id : A → ℕ) (p : A → Bool) → Sweeps id p delete
  delete-Sweeps id p = record {
    counted = count;
    absorbed = absorb;
    idle = idle;
    keeps = λ q xs u. delete-IsUnique id q xs u;
  }
    where
      count :
          (q : A → Bool) (xs : List A)
          → Below p q xs
          → length (select p (delete q xs)) + length (select q xs) ≡ length (select p xs)
      count q [] b = refl
      count q (x ∷ xs) b = ground (arith, b x (inl refl), count q xs (λ y i. b y (inr i)))

      absorb : (q : A → Bool) (xs : List A) → Below p q xs → delete p (delete q xs) ≡ delete p xs
      absorb q [] b = refl
      absorb q (x ∷ xs) b = elim (Bool-cases (q x)) [
        | inl t ↦ rw (t, b x (inl refl) t, absorb q xs (λ y i. b y (inr i))) refl
        | inr n ↦ rw (n, absorb q xs (λ y i. b y (inr i))) refl
      ]

      idle : (xs : List A) → select p xs ≡ [] → delete p xs ≡ xs
      idle [] h = refl
      idle (x ∷ xs) h = elim (Bool-cases (p x)) [
        | inl t ↦ let e : x ∷ select p xs ≡ [] = rw t at h in cc
        | inr n ↦ rw (n, idle xs (rw n at h)) refl
      ]

  -- the loop, for any write that sweeps
  module _ (id : A → ℕ) (p : A → Bool) (act : (A → Bool) → List A → List A) (size : ℕ) where
    abbrev pub process : List ℕ → List A → ℕ × List A
    process ids rs = (length ids, act (λ r. has_id ids (id r)) rs)

    -- what a round leaves to do
    chunk_counted :
        (s : Sweeps id p act) (xs : List A)
        → IsUnique id xs
        → length (select p (act (λ r. has_id (chunk_ids id p size xs) (id r)) xs))
            + length (chunk_ids id p size xs)
          ≡ length (select p xs)
    chunk_counted s xs u =
        rw
          (length-map id (take size (select p xs))
            ∙ ap length (sym (select-chunk_ids id p size xs u)))
          (s.counted (λ r. has_id (chunk_ids id p size xs) (id r)) xs
            (chunk_ids_match id p size xs u))

    nonempty_chunk : (n : ℕ) (y : A) (ys : List A) → 0 < n → map id (take n (y ∷ ys)) ≢ []
    nonempty_chunk zero y ys z h = absurd (omega arith)
    nonempty_chunk (suc n) y ys z h = cc

    -- a chunk without ids is the last
    pub nothing_left : (xs : List A) → 0 < size → chunk_ids id p size xs ≡ [] → select p xs ≡ []
    nothing_left xs z h = elim (List-cases (select p xs)) [
      | inl e ↦ e
      | inr (y, ys, e) ↦ absurd (nonempty_chunk size y ys z (rw e at h))
    ]

    pub chunks_sweep :
        (s : Sweeps id p act) (fuel total : ℕ) (xs : List A)
        → 0 < size
        → length (select p xs) < fuel
        → IsUnique id xs
        → chunks fuel (chunk_ids id p size) process total xs
          ≡ some (total + length (select p xs), act p xs)
    unfolding chunks
    chunks_sweep s zero total xs z h u = absurd (omega arith)
    chunks_sweep s (suc fuel) total xs z h u = elim (List-cases (chunk_ids id p size xs)) [
      | inl none_left ↦
          let e = nothing_left xs z none_left in
          chunks_end (chunk_ids id p size) process fuel total xs none_left
          ∙ rw (e, s.idle xs e) (ground arith)
      | inr (i, is, some_left) ↦
          let q = λ (r : A). has_id (i ∷ is) (id r) in
          let b : Below p q xs = rw some_left at (chunk_ids_match id p size xs u) in
          let c : length (select p (act q xs)) + length (i ∷ is) ≡ length (select p xs) =
            rw some_left at (chunk_counted s xs u) in
          let ih =
            chunks_sweep s fuel (total + length (i ∷ is)) (act q xs) z (omega arith)
              (s.keeps q xs u) in
          chunks_turn (chunk_ids id p size) process fuel total xs i is some_left
          ∙ (ih ∙ rw (s.absorbed q xs b) (ground arith))
    ]
