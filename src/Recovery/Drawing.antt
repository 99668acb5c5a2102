-- ===== src/Recovery/Drawing.antt =====
-- Drawing the codes of a batch writes nothing, and the batch is all that a generation changes in
-- the table of codes (apps/idp-server/src/modules/mfa/mfa-recovery.service.ts).
use id_provider.Base.{
  ℕ, zero, suc, ltb, ◌≡◌, refl, sym, ap, ◌∙◌, String, List, [], ◌∷◌, In, inl, inr, Bool-cases,
}
use id_provider.Store.{World, ok, draw, pure, ◌>>=◌}
use id_provider.Store.Laws.{>>=-eq-ok, >>=-keeps, pure-db, draw-db, pure-eq-ok}
use id_provider.Recovery.Code.{
  RecoveryEnv, raw_code, generate_plain_code, is_skipped, text_length, grouped,
}
use id_provider.Recovery.Batch.{CodeRecord}
use id_provider.Recovery.Service.{record_of, plain_codes, code_records}
use id_provider.Recovery.Generation.{raw_code_done, raw_code_skip, raw_code_take}

module _ (e : RecoveryEnv) where
  raw_code-db : (fuel : ℕ) (raw : String) (w : World) → (raw_code e fuel raw w).1.db ≡ w.db
  unfolding raw_code ◌>>=◌
  raw_code-db zero raw w = refl
  raw_code-db (suc fuel) raw w = elim (Bool-cases (ltb (text_length raw) e.code_length)) [
    | inr done ↦ ap (λ r. r.1.db) (raw_code_done e fuel raw w done)
    | inl more ↦ elim (Bool-cases (is_skipped (e.random_byte w.draws))) [
      | inl skip ↦ ap (λ r. r.1.db) (raw_code_skip e fuel raw w more skip) ∙ raw_code-db fuel raw _
      | inr take ↦ ap (λ r. r.1.db) (raw_code_take e fuel raw w more take) ∙ raw_code-db fuel _ _
    ]
  ]

  generate_plain_code-db : (w : World) → (generate_plain_code e w).1.db ≡ w.db
  unfolding generate_plain_code
  generate_plain_code-db w =
      >>=-keeps (λ d. d) (raw_code e e.byte_fuel "") (λ raw. pure (grouped 5 raw)) w
        (raw_code-db e.byte_fuel "" w) (λ raw w'. pure-db _ _)

  pub plain_codes-db : (n : ℕ) (w : World) → (plain_codes e n w).1.db ≡ w.db
  unfolding plain_codes
  plain_codes-db zero w = pure-db _ _
  plain_codes-db (suc n) w =
      >>=-keeps (λ d. d) (generate_plain_code e) _ w (generate_plain_code-db w)
        (λ code w'.
          >>=-keeps (λ d. d) (plain_codes e n) (λ codes. pure (code ∷ codes)) w'
            (plain_codes-db n w') (λ codes w''. pure-db _ _))

  pub code_records-db : (cs : List String) (w : World) → (code_records e cs w).1.db ≡ w.db
  unfolding code_records
  code_records-db [] w = pure-db _ _
  code_records-db (c ∷ cs) w =
      >>=-keeps (λ d. d) draw _ w (draw-db w)
        (λ salt w'.
          >>=-keeps (λ d. d) (code_records e cs) (λ rs. pure (record_of e c salt ∷ rs)) w'
            (code_records-db cs w') (λ rs w''. pure-db _ _))

  -- every code of a batch was generated at some draw
  pub plain_codes-In :
      (n : ℕ) (cs : List String) (w : World) (c : String)
      → (plain_codes e n w).0 ≡ ok cs
      → In c cs
      → (w' : World) × ((generate_plain_code e w').0 ≡ ok c)
  unfolding plain_codes
  plain_codes-In zero cs w c h i = let q = pure-eq-ok [] cs w h in absurd (rw (← q) at i)
  plain_codes-In (suc n) cs w c h i =
      let (code, w1, drawn, h1) = >>=-eq-ok (generate_plain_code e) _ w h in
      let (rest, w2, more, h2) = >>=-eq-ok (plain_codes e n) _ w1 h1 in
      let q = pure-eq-ok (code ∷ rest) cs w2 h2 in
      let j : In c (code ∷ rest) = rw (← q) at i in
      elim j [
        | inl first ↦ (w, ap (λ r. r.0) drawn ∙ ap ok (sym first))
        | inr later ↦ plain_codes-In n rest w1 c (ap (λ r. r.0) more) later
      ]

  -- every code of a batch has a record
  pub code_records-In :
      (cs : List String) (rs : List CodeRecord) (w : World) (c : String)
      → (code_records e cs w).0 ≡ ok rs
      → In c cs
      → (salt : ℕ) × In (record_of e c salt) rs
  unfolding code_records
  code_records-In [] rs w c h i = absurd i
  code_records-In (d ∷ cs) rs w c h i =
      let (salt, w1, drawn, h1) = >>=-eq-ok draw _ w h in
      let (rest, w2, more, h2) = >>=-eq-ok (code_records e cs) _ w1 h1 in
      let q = pure-eq-ok (record_of e d salt ∷ rest) rs w2 h2 in
      elim i [
        | inl first ↦ (salt, rw (← q) (inl (ap (λ x. record_of e x salt) first)))
        | inr later ↦
            let (s, j) = code_records-In cs rest w1 c (ap (λ r. r.0) more) later in
            (s, rw (← q) (inr j))
      ]
