-- ===== src/Keys/Replacement.antt =====
-- What a rotation does to the published keys (`rotateNow` and `getPublicJwks` of
-- packages/auth-core/src/key-store-service.ts).
use id_provider.Base.{
  Bool-cases, ==_refl, ==_iff, inl, inr, ◌&&◌, ℕ, suc, ◌==◌, ltb, ◌≡◌, refl, sym, ap, ◌∙◌, ◌≢◌,
  Bool, true, false, Option, some, List, [], ◌∷◌, All, In, any, update, arith, inl, inr,
}
use id_provider.Base.Unique.{All-update_rows, IsUnique, All-map, any-update}
use id_provider.Base.Members.{In-any, newest-In, In-select}
use id_provider.Store.{SigningKey, World, ok, err, unique_violation, foreign_key_violation, ◌>>=◌}
use id_provider.Keys.Rotate.{
  KeyEnv, RotationReason, emergency, scheduled, manual, rotated, deactivate, is_replaced,
  is_current, new_key, reason_text, get_current_active_key, lacks_actor, rotate_now, now_plus_hours,
}
use mathlib.Core.Bool.{false≢true}
use id_provider.Keys.Publish.{is_published}

-- whether a replaced key is published: until the end of the grace period, or no longer
abbrev pub outlives : KeyEnv → RotationReason → ℕ → Bool
outlives e emergency now = false
outlives e reason now = ltb now (now_plus_hours e e.grace_period_hours)

deactivate_kid :
    (e : KeyEnv) (reason : RotationReason) (actor : Option ℕ) (x : SigningKey)
    → (deactivate e reason actor x).kid ≡ x.kid
deactivate_kid e scheduled actor x = refl
deactivate_kid e manual actor x = refl
deactivate_kid e emergency actor x = refl

unique_only :
    (ks : List SigningKey) (k : SigningKey)
    → IsUnique (λ (x : SigningKey). x.kid) ks
    → In k ks
    → All (λ x. x.kid ≡ k.kid → x ≡ k) ks
unique_only [] k u i = tt
unique_only (x ∷ ks) k (fresh, u) (inl same) = (
  λ _. sym same,
  All-map (λ y. y.kid ≢ x.kid) (λ y. y.kid ≡ k.kid → y ≡ k)
      (λ y n h. absurd (n (h ∙ ap (λ z. z.kid) same))) ks fresh,
)
unique_only (x ∷ ks) k (fresh, u) (inr i) =
    (λ h. absurd (apart ks fresh i (sym h)), unique_only ks k u i)
  where
    apart : (ys : List SigningKey) → All (λ y. y.kid ≢ x.kid) ys → In k ys → k.kid ≢ x.kid
    apart [] a j = absurd j
    apart (y ∷ ys) (n, a) (inl same) = λ h. n (sym (ap (λ z. z.kid) same) ∙ h)
    apart (y ∷ ys) (n, a) (inr j) = apart ys a j

module _ (e : KeyEnv) (reason : RotationReason) (actor : Option ℕ) (w : World)
    (k : SigningKey) where
  abbrev replaced : List SigningKey
  replaced = update (is_replaced k.kid) (deactivate e reason actor) w.db.signing_keys

  abbrev next : SigningKey
  next = new_key e w.draws (suc w.draws) (some k.kid) (reason_text reason) actor

  rotate_now_done :
      get_current_active_key w.db ≡ some k
      → any (is_replaced k.kid) w.db.signing_keys ≡ true
      → lacks_actor actor w.db ≡ false
      → any (λ x. x.kid == next.kid) replaced ≡ false
      → rotate_now e reason actor w ≡ (
        ok (rotated next.kid k.kid reason),
        record w {
          db = record (w.db) { signing_keys = next ∷ replaced };
          draws = suc (suc w.draws);
        },
      )
  unfolding rotate_now ◌>>=◌
  rotate_now_done found hit known free = ground arith

  rotate_now_stranger :
      get_current_active_key w.db ≡ some k
      → any (is_replaced k.kid) w.db.signing_keys ≡ true
      → lacks_actor actor w.db ≡ true
      → (rotate_now e reason actor w).0 ≡ err foreign_key_violation
  unfolding rotate_now ◌>>=◌
  rotate_now_stranger found hit unknown = rw (found, hit, unknown) refl

  rotate_now_clash :
      get_current_active_key w.db ≡ some k
      → any (is_replaced k.kid) w.db.signing_keys ≡ true
      → lacks_actor actor w.db ≡ false
      → any (λ x. x.kid == next.kid) replaced ≡ true
      → (rotate_now e reason actor w).0 ≡ err unique_violation
  unfolding rotate_now ◌>>=◌
  rotate_now_clash found hit known clash = rw (found, hit, known, clash) refl

  current_row :
      get_current_active_key w.db ≡ some k → In k w.db.signing_keys × (is_current k ≡ true)
  unfolding get_current_active_key
  current_row found = In-select is_current w.db.signing_keys k (newest-In _ _ k found)

  hit_published :
      (now : ℕ) (x : SigningKey)
      → is_replaced k.kid x ≡ true
      → is_published now (deactivate e reason actor x) ≡ outlives e reason now
  hit_published now x h = elim reason [
    | scheduled ↦ ground arith
    | manual ↦ ground arith
    | emergency ↦ ground arith
  ]

  -- the row that was in force is the one that was hit, and the others have other ids
  replaced_published :
      (now : ℕ)
      → get_current_active_key w.db ≡ some k
      → IsUnique (λ (x : SigningKey). x.kid) w.db.signing_keys
      → All (λ x. x.kid ≡ k.kid → is_published now x ≡ outlives e reason now) replaced
  replaced_published now found unique =
      let (i, current) = current_row found in
      All-update_rows (λ x. x.kid ≡ k.kid → is_published now x ≡ outlives e reason now)
        (λ x. x.kid ≡ k.kid → x ≡ k) (is_replaced k.kid) (deactivate e reason actor)
        (λ x o h _. hit_published now x h) (λ x o h same. absurd (missed current x (o same) h))
        w.db.signing_keys (unique_only w.db.signing_keys k unique i)
    where
      missed : is_current k ≡ true → (x : SigningKey) → x ≡ k → ¬ (is_replaced k.kid x ≡ false)
      missed current x same h = let h' : is_replaced k.kid k ≡ false = rw same at h in ground arith

  still_fresh :
      (ks : List SigningKey)
      → any (λ x. x.kid == next.kid) ks ≡ false
      → any (λ x. x.kid == next.kid) (update (is_replaced k.kid) (deactivate e reason actor) ks)
        ≡ false
  still_fresh [] h = refl
  still_fresh (x ∷ ks) h = elim (Bool-cases (x.kid == next.kid)) [
    | inl t ↦ ground arith
    | inr f ↦
        let rest = still_fresh ks (rw f at h) in
        elim (Bool-cases (is_replaced k.kid x)) [
          | inl u ↦ rw (u, deactivate_kid e reason actor x, f) rest
          | inr v ↦ rw (v, f) rest
        ]
  ]

  replaced_hit :
      get_current_active_key w.db ≡ some k → any (is_replaced k.kid) w.db.signing_keys ≡ true
  replaced_hit found =
      let (i, current) = current_row found in
      In-any (is_replaced k.kid) w.db.signing_keys k i (ground arith)

  next_apart :
      get_current_active_key w.db ≡ some k
      → any (λ x. x.kid == next.kid) w.db.signing_keys ≡ false
      → next.kid ≢ k.kid
  next_apart found free same =
      let (i, current) = current_row found in
      let present : any (λ x. x.kid == next.kid) w.db.signing_keys ≡ true =
        In-any (λ x. x.kid == next.kid) w.db.signing_keys k i (ground arith) in
      false≢true (sym free ∙ present)

  -- the row that was in force stays in the table
  kept_row :
      get_current_active_key w.db ≡ some k → any (λ x. x.kid == k.kid) (next ∷ replaced) ≡ true
  kept_row found =
      let (i, current) = current_row found in
      let there =
        In-any (λ (x : SigningKey). x.kid == k.kid) w.db.signing_keys k i (==_refl k.kid) in
      let stays : any (λ x. x.kid == k.kid) replaced ≡ true =
        any-update (λ (x : SigningKey). x.kid == k.kid) (is_replaced k.kid)
          (deactivate e reason actor)
          (λ x t. ap (λ n. n == k.kid) (deactivate_kid e reason actor x) ∙ t) w.db.signing_keys
          there in
      ground (arith, stays)

-- rows of an id that are all published, or none, decide whether a row of the id is
same_published :
    (now kid : ℕ) (b : Bool) (xs : List SigningKey)
    → All (λ x. x.kid ≡ kid → is_published now x ≡ b) xs
    → any (λ x. x.kid == kid) xs ≡ true
    → any (λ x. x.kid == kid && is_published now x) xs ≡ b
same_published now kid b [] a h = cc
same_published now kid b (x ∷ xs) (p, a) h = elim (Bool-cases (x.kid == kid)) [
  | inl t ↦
      let q = p ((==_iff x.kid kid).0 t) in
      elim (Bool-cases b) [
        | inl on ↦ rw (t, q, on) refl
        | inr off ↦ rw (t, q, off) (unpublished xs (rw off at a))
      ]
  | inr f ↦ rw f (same_published now kid b xs a (rw f at h))
]
  where
    unpublished :
        (ys : List SigningKey)
        → All (λ x. x.kid ≡ kid → is_published now x ≡ false) ys
        → any (λ x. x.kid == kid && is_published now x) ys ≡ false
    unpublished [] a = refl
    unpublished (y ∷ ys) (p, a) = elim (Bool-cases (y.kid == kid)) [
      | inl t ↦ rw (t, p ((==_iff y.kid kid).0 t)) (unpublished ys a)
      | inr f ↦ rw f (unpublished ys a)
    ]

-- the new key is published
next_published :
    (e : KeyEnv) (reason : RotationReason) (actor : Option ℕ) (w : World) (k : SigningKey) (now : ℕ)
    → any
        (λ x. x.kid == e.random_uuid (suc w.draws) && is_published now x)
        (next e reason actor w k ∷ replaced e reason actor w k)
      ≡ true
next_published e reason actor w k now = rw (==_refl (e.random_uuid (suc w.draws))) refl

-- A rotation by `rotateManual`, `rotateEmergency` or the schedule, when the ids of the keys are
-- unique, the key `k` is in force, the actor, if one is given, is a user, and the new id is fresh:
-- it returns, and afterwards the query of `getPublicJwks` selects the row of the new key at every
-- instant, and a row with the id of the old one exactly until the end of the grace period, or
-- after an emergency at no instant. The old row stays in the table.
pub rotate_now_replaces :
    (e : KeyEnv) (reason : RotationReason) (actor : Option ℕ) (w : World) (k : SigningKey) (now : ℕ)
    → IsUnique (λ (x : SigningKey). x.kid) w.db.signing_keys
    → get_current_active_key w.db ≡ some k
    → lacks_actor actor w.db ≡ false
    → any (λ x. x.kid == e.random_uuid (suc w.draws)) w.db.signing_keys ≡ false
    → let (r, w') = rotate_now e reason actor w in
      (r ≡ ok (rotated (e.random_uuid (suc w.draws)) k.kid reason))
      × (any (λ x. x.kid == e.random_uuid (suc w.draws) && is_published now x) w'.db.signing_keys
          ≡ true)
      × (any (λ x. x.kid == k.kid) w'.db.signing_keys ≡ true)
      × (any (λ x. x.kid == k.kid && is_published now x) w'.db.signing_keys ≡ outlives e reason now)
      × All (λ x. x.kid ≡ k.kid → is_published now x ≡ outlives e reason now) w'.db.signing_keys
rotate_now_replaces e reason actor w k now unique found known fresh =
    let free = still_fresh e reason actor w k w.db.signing_keys fresh in
    let apart = next_apart e reason actor w k found fresh in
    let old : All (λ x. x.kid ≡ k.kid → is_published now x ≡ outlives e reason now)
        (next e reason actor w k ∷ replaced e reason actor w k) =
      (λ same. absurd (apart same), replaced_published e reason actor w k now found unique) in
    rw (rotate_now_done e reason actor w k found (replaced_hit e reason actor w k found) known free)
      (
        refl,
        next_published e reason actor w k now,
        kept_row e reason actor w k found,
        same_published now k.kid (outlives e reason now)
            (next e reason actor w k ∷ replaced e reason actor w k) old
            (kept_row e reason actor w k found),
        old,
      )
