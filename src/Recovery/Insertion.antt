-- ===== src/Recovery/Insertion.antt =====
-- What a batch of recovery codes that is inserted leaves in the table, and what drawing the codes
-- leaves alone (apps/idp-server/src/modules/mfa/mfa-recovery.repository.ts).
use id_provider.Base.{
  ℕ, suc, ◌≡◌, refl, ap, ◌∙◌, true, false, String, str_eq, eq_iff, List, [], ◌∷◌, In, any, find,
  arith, inl, inr, Bool-cases,
}
use id_provider.Base.Unique.{IsUnique, fresh_of_any}
use id_provider.Store.{has_user, RecoveryCode, World, ok, ◌>>=◌}
use id_provider.Recovery.Code.{RecoveryEnv}
use id_provider.Recovery.Batch.{
  CodeRecord, same_code, new_code, is_found_by, insert_code, insert_codes,
}
use id_provider.Recovery.Spent.{hash_key}

module _ (e : RecoveryEnv) (user_id batch_id : ℕ) where
  -- one row more, then the rest
  insert_codes_step :
      (r : CodeRecord) (rs : List CodeRecord) (w : World)
      → (insert_codes e user_id batch_id (r ∷ rs) w).0 ≡ ok tt
      → (id : ℕ) × (w' : World) × (any
            (same_code (new_code e user_id batch_id r id))
            w.db.recovery_codes
          ≡ false)
        × (w'.db.recovery_codes ≡ new_code e user_id batch_id r id ∷ w.db.recovery_codes)
        × (insert_codes e user_id batch_id (r ∷ rs) w ≡ insert_codes e user_id batch_id rs w')
  unfolding insert_codes insert_code ◌>>=◌
  insert_codes_step r rs w h =
      let c = new_code e user_id batch_id r (e.env.random_uuid w.draws) in
      elim (Bool-cases (any (same_code c) w.db.recovery_codes)) [
        | inl clash ↦ ground arith
        | inr fresh ↦ elim (Bool-cases (has_user user_id w.db)) [
          | inl present ↦ (
            e.env.random_uuid w.draws,
            record w {
              db = record w.db { recovery_codes = c ∷ w.db.recovery_codes };
              draws = suc w.draws;
            },
            fresh,
            refl,
            rw (fresh, present) refl,
          )
          | inr absent ↦ ground arith
        ]
      ]

  insert_codes_rest :
      (r : CodeRecord) (rs : List CodeRecord) (w w' : World)
      → insert_codes e user_id batch_id (r ∷ rs) w ≡ insert_codes e user_id batch_id rs w'
      → (insert_codes e user_id batch_id (r ∷ rs) w).0 ≡ ok tt
      → (insert_codes e user_id batch_id rs w').0 ≡ ok tt
  insert_codes_rest r rs w w' same h = rw same at h

  hash_apart :
      (c : RecoveryCode) (hash : String) (cs : List RecoveryCode)
      → any (same_code c) cs ≡ false
      → any (λ x. str_eq x.lookup_hash hash) cs ≡ true
      → str_eq c.lookup_hash hash ≡ false
  hash_apart c hash [] n h = cc
  hash_apart c hash (x ∷ cs) n h = elim (Bool-cases (str_eq x.lookup_hash hash)) [
    | inl same ↦ ground (
      arith,
      eq_iff x.lookup_hash hash,
      eq_iff c.lookup_hash hash,
      eq_iff x.lookup_hash c.lookup_hash,
    )
    | inr other ↦ hash_apart c hash cs (ground arith) (rw other at h)
  ]

  -- a hash that is in the table finds what it found before
  pub insert_codes-find :
      (hash : String) (rs : List CodeRecord) (w : World)
      → any (λ x. str_eq x.lookup_hash hash) w.db.recovery_codes ≡ true
      → (insert_codes e user_id batch_id rs w).0 ≡ ok tt
      → find (is_found_by hash) (insert_codes e user_id batch_id rs w).1.db.recovery_codes
        ≡ find (is_found_by hash) w.db.recovery_codes
  unfolding insert_codes ◌>>=◌
  insert_codes-find hash [] w held h = refl
  insert_codes-find hash (r ∷ rs) w held h =
      let (id, w', fresh, codes, same) = insert_codes_step r rs w h in
      let c = new_code e user_id batch_id r id in
      let apart = hash_apart c hash w.db.recovery_codes fresh held in
      let held' : any (λ x. str_eq x.lookup_hash hash) w'.db.recovery_codes ≡ true =
        rw codes (rw (apart, held) refl) in
      let ih = insert_codes-find hash rs w' held' (insert_codes_rest r rs w w' same h) in
      rw same (ih ∙ rw codes (rw apart refl))

  pub insert_codes-IsUnique :
      (rs : List CodeRecord) (w : World)
      → IsUnique hash_key w.db.recovery_codes
      → (insert_codes e user_id batch_id rs w).0 ≡ ok tt
      → IsUnique hash_key (insert_codes e user_id batch_id rs w).1.db.recovery_codes
  unfolding insert_codes ◌>>=◌
  insert_codes-IsUnique [] w u h = u
  insert_codes-IsUnique (r ∷ rs) w u h =
      let (id, w', fresh, codes, same) = insert_codes_step r rs w h in
      let c = new_code e user_id batch_id r id in
      let u' : IsUnique hash_key w'.db.recovery_codes = rw codes (
        fresh_of_any hash_key (same_code c) c
            (λ y k. ground (arith, (eq_iff y.lookup_hash c.lookup_hash).1 k)) w.db.recovery_codes
            fresh,
        u,
      ) in
      rw same (insert_codes-IsUnique rs w' u' (insert_codes_rest r rs w w' same h))

  -- rows that were there stay
  insert_codes-stay :
      (c : RecoveryCode) (rs : List CodeRecord) (w : World)
      → In c w.db.recovery_codes
      → (insert_codes e user_id batch_id rs w).0 ≡ ok tt
      → In c (insert_codes e user_id batch_id rs w).1.db.recovery_codes
  unfolding insert_codes ◌>>=◌
  insert_codes-stay c [] w i h = i
  insert_codes-stay c (r ∷ rs) w i h =
      let (id, w', fresh, codes, same) = insert_codes_step r rs w h in
      let i' : In c w'.db.recovery_codes = rw codes (inr i) in
      rw same (insert_codes-stay c rs w' i' (insert_codes_rest r rs w w' same h))

  -- every record of the batch has a row
  pub insert_codes-In :
      (r : CodeRecord) (rs : List CodeRecord) (w : World)
      → In r rs
      → (insert_codes e user_id batch_id rs w).0 ≡ ok tt
      → (id : ℕ) × In
          (new_code e user_id batch_id r id)
          (insert_codes e user_id batch_id rs w).1.db.recovery_codes
  insert_codes-In r [] w i h = absurd i
  insert_codes-In r (s ∷ rs) w i h =
      let (id, w', fresh, codes, same) = insert_codes_step s rs w h in
      let h' = insert_codes_rest s rs w w' same h in
      elim i [
        | inl first ↦
            let here : In (new_code e user_id batch_id r id) w'.db.recovery_codes =
              rw codes (inl (ap (λ x. new_code e user_id batch_id x id) first)) in
            (id, rw same (insert_codes-stay (new_code e user_id batch_id r id) rs w' here h'))
        | inr later ↦ let (id', j) = insert_codes-In r rs w' later h' in (id', rw same j)
      ]
