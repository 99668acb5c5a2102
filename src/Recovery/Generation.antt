-- ===== src/Recovery/Generation.antt =====
-- What `generatePlainCode` draws: its letters, their number, and when it returns
-- (apps/idp-server/src/modules/mfa/mfa-recovery.service.ts).
use id_provider.Base.{
  ℕ, zero, suc, ◌+◌, ◌≤◌, ◌≡◌, refl, sym, ap, ◌∙◌, true, false, ltb, String, inl, inr, Bool-cases,
  arith, if◌then◌else◌,
}
use id_provider.Store.Laws.{ok_injective, >>=-eq-ok}
use id_provider.Store.{World, ok, pure, ◌>>=◌}
use id_provider.Recovery.Code.{
  RecoveryEnv, normalize_code, text_length, letter, is_skipped, raw_code, grouped,
  generate_plain_code,
}
use id_provider.Recovery.Format.{
  IsPlain, IsPlain-append, text_length-append, letter-IsPlain, without_separators-grouped,
  without_separators_plain,
}
use Prim.Native.String

module _ (e : RecoveryEnv) where
  -- the bytes that the loop takes, of the next `n`
  abbrev pub accepted : ℕ → ℕ → ℕ
  accepted zero draws = 0
  accepted (suc n) draws =
      let rest = accepted n (suc draws) in
      if is_skipped (e.random_byte draws) then rest else suc rest

  abbrev pub IsRaw : String → Type 0
  IsRaw s = IsPlain s × (text_length s ≤ e.code_length)

  -- one turn of the loop
  module _ (fuel : ℕ) (raw : String) (w : World) where
    pub raw_code_done :
        ltb (text_length raw) e.code_length ≡ false → raw_code e (suc fuel) raw w ≡ (ok raw, w)
    unfolding raw_code ◌>>=◌
    raw_code_done h = rw (h, raw_code) refl

    pub raw_code_skip :
        ltb (text_length raw) e.code_length ≡ true
        → is_skipped (e.random_byte w.draws) ≡ true
        → raw_code e (suc fuel) raw w ≡ raw_code e fuel raw (record w { draws = suc w.draws })
    unfolding raw_code ◌>>=◌
    raw_code_skip h s = rw (h, s, raw_code) refl

    pub raw_code_take :
        ltb (text_length raw) e.code_length ≡ true
        → is_skipped (e.random_byte w.draws) ≡ false
        → raw_code e (suc fuel) raw w
          ≡ raw_code e fuel
              (String.◌++◌ raw (letter (e.random_byte w.draws)))
              (record w { draws = suc w.draws })
    unfolding raw_code ◌>>=◌
    raw_code_take h s = rw (h, s, raw_code) refl

  one_longer :
      (raw : String) (byte : ℕ) → text_length (String.◌++◌ raw (letter byte)) ≡ text_length raw + 1
  one_longer raw byte =
      text_length-append raw (letter byte) ∙ ap (λ n. text_length raw + n) (letter-IsPlain byte).1

  raw_code-IsRaw :
      (fuel : ℕ) (raw s : String) (w : World)
      → IsRaw raw
      → (raw_code e fuel raw w).0 ≡ ok s
      → IsPlain s × (text_length s ≡ e.code_length)
  unfolding raw_code ◌>>=◌
  raw_code-IsRaw zero raw s w p h = cc
  raw_code-IsRaw (suc fuel) raw s w (p, l) h =
      elim (Bool-cases (ltb (text_length raw) e.code_length)) [
        | inr done ↦
            let r : ok raw ≡ ok s = rw (raw_code_done fuel raw w done) at h in
            let q : raw ≡ s = ok_injective r in rw (← q) (p, ground arith)
        | inl more ↦ elim (Bool-cases (is_skipped (e.random_byte w.draws))) [
          | inl skip ↦
              raw_code-IsRaw fuel raw s _ (p, l) (rw (raw_code_skip fuel raw w more skip) at h)
          | inr take ↦
              let byte = e.random_byte w.draws in
              raw_code-IsRaw fuel (String.◌++◌ raw (letter byte)) s _
                (
                  IsPlain-append raw (letter byte) p (letter-IsPlain byte).0,
                  ground (arith, one_longer raw byte),
                )
                (rw (raw_code_take fuel raw w more take) at h)
        ]
      ]

  raw_code_returns :
      (fuel : ℕ) (raw : String) (w : World)
      → text_length raw ≤ e.code_length
      → e.code_length ≤ text_length raw + accepted fuel w.draws
      → (s : String) × ((raw_code e (suc fuel) raw w).0 ≡ ok s)
  raw_code_returns zero raw w l h =
      let done : ltb (text_length raw) e.code_length ≡ false = ground arith in
      (raw, ap (λ r. r.0) (raw_code_done zero raw w done))
  raw_code_returns (suc fuel) raw w l h = elim (Bool-cases (ltb (text_length raw) e.code_length)) [
    | inr done ↦ (raw, ap (λ r. r.0) (raw_code_done (suc fuel) raw w done))
    | inl more ↦ elim (Bool-cases (is_skipped (e.random_byte w.draws))) [
      | inl skip ↦
          let (s, r) =
            raw_code_returns fuel raw (record w { draws = suc w.draws }) l (ground arith) in
          (s, ap (λ r. r.0) (raw_code_skip (suc fuel) raw w more skip) ∙ r)
      | inr take ↦
          let byte = e.random_byte w.draws in
          let longer = one_longer raw byte in
          let (s, r) =
            raw_code_returns fuel (String.◌++◌ raw (letter byte)) (record w { draws = suc w.draws })
              (ground arith) (ground arith) in
          (s, ap (λ r. r.0) (raw_code_take (suc fuel) raw w more take) ∙ r)
    ]
  ]

  raw_code_of :
      (w : World) (c : String)
      → (generate_plain_code e w).0 ≡ ok c
      → (raw : String) × ((raw_code e e.byte_fuel "" w).0 ≡ ok raw) × (c ≡ grouped 5 raw)
  unfolding generate_plain_code ◌>>=◌
  raw_code_of w c h =
      let (raw, w', drawn, r) =
        >>=-eq-ok (raw_code e e.byte_fuel "") (λ raw. pure (grouped 5 raw)) w h in
      (raw, ap (λ r. r.0) drawn, sym (ok_injective r))

  -- A code that is generated has the length of the settings without its hyphens, all of it digits
  -- from 2 and upper-case letters, and normalizing it, once or twice, gives it without the
  -- hyphens, if `toUpperCase` changes no such text.
  pub generate_plain_code-normalize_code :
      (w : World) (c : String)
      → ((s : String) → IsPlain s → e.upper s ≡ s)
      → (generate_plain_code e w).0 ≡ ok c
      → (raw : String) × (c ≡ grouped 5 raw)
        × IsPlain raw
        × (text_length raw ≡ e.code_length)
        × (normalize_code e c ≡ raw)
        × (normalize_code e raw ≡ raw)
  unfolding normalize_code
  generate_plain_code-normalize_code w c upper h =
      let (raw, drawn, e1) = raw_code_of w c h in
      let (plain, long) = raw_code-IsRaw e.byte_fuel "" raw w (tt, omega arith) drawn in
      (
        raw,
        e1,
        plain,
        long,
        ap (normalize_code e) e1
            ∙ (ap e.upper (without_separators-grouped 5 raw plain) ∙ upper raw plain),
        ap e.upper (without_separators_plain raw plain) ∙ upper raw plain,
      )

  -- `generatePlainCode` returns if among the next random bytes, fewer by one than the model may
  -- draw, there are as many below 224 as a code has letters.
  pub generate_plain_code_returns :
      (n : ℕ) (w : World)
      → e.byte_fuel ≡ suc n
      → e.code_length ≤ accepted n w.draws
      → (c : String) × ((generate_plain_code e w).0 ≡ ok c)
  unfolding generate_plain_code ◌>>=◌
  generate_plain_code_returns n w f h =
      let (raw, r) = raw_code_returns n "" w (omega arith) (omega arith) in
      (grouped 5 raw, rw f (ground arith))
