-- ===== src/Server/Limit.antt =====
-- How many calls the rate limiter allows in a window
-- (apps/idp-server/src/core/rate-limiter.ts).
use id_provider.Base.{
  ℕ, suc, ◌+◌, ◌-◌, ◌*◌, ◌≤◌, ◌<◌, ltb, ◌≡◌, ◌≢◌, refl, ap, ◌∙◌, sym, Bool, true, false, ◌&&◌,
  String, str_eq, eq_refl, eq_iff, Option, none, some, List, [], ◌∷◌, All, find, update, delete,
  if◌then◌else◌, inl, inr, Bool-cases, arith,
}
use id_provider.Store.{Counter, World, Result, ok, err}
use id_provider.Server.Rate.{Allowance, counts_for, counters_after, consume}
use Prim.Native.String
use Prim.Native.String.append

-- A call of `consume`: its instant and its key, with the limit and the window that go with it.
pub record RateCall : Type 0 where
  pub now : ℕ
  pub name : String
  pub limit : ℕ
  pub window : ℕ

abbrev pub is_allowed : Result Allowance → Bool
is_allowed (ok a) = a.allowed
is_allowed (err f) = false

-- the number of calls for a key that a run of calls allows
unfoldable pub allowed_for : String → List RateCall → World → ℕ
unfolding consume
allowed_for name [] w = 0
allowed_for name (r ∷ rs) w =
    let (a, w') = consume r.now r.name r.limit r.window w in
    let rest = allowed_for name rs w' in
    if str_eq r.name name && is_allowed a then suc rest else rest

abbrev pub key_of : String → String
key_of name = String.◌++◌ "rl:" name

key_of_injective : (a b : String) → key_of a ≡ key_of b → a ≡ b
key_of_injective a b h =
    let shown = λ (s : String).
      append.cons "r" "l:" s
      ∙ ap (λ t. String.◌∷◌ "r" t)
          (append.cons "l" ":" s
            ∙ ap (λ t. String.◌∷◌ "l" t)
                (append.cons ":" "" s ∙ ap (λ t. String.◌∷◌ ":" t) (append.nil s))) in
    let h' = sym (shown a) ∙ (h ∙ shown b) in cc

abbrev has_key : String → Counter → Bool
has_key key c = str_eq c.key key

abbrev more : Counter → Counter
more c = record c { count = c.count + 1 }

module _ (key : String) (t : ℕ) where
  -- the counter of a key that has not expired
  find_live :
      (cs : List Counter) (c : Counter)
      → find (has_key key) cs ≡ some c
      → ltb t c.expires_at ≡ true
      → find (counts_for t key) cs ≡ some c
  find_live [] c h k = cc
  find_live (x ∷ cs) c h k = elim (Bool-cases (str_eq x.key key)) [
    | inl same ↦ let e : x ≡ c = ground arith in rw (same, e, k) refl
    | inr other ↦ rw other (find_live cs c (rw other at h) k)
  ]

  -- one more for it
  find-more :
      (cs : List Counter) (c : Counter)
      → find (has_key key) cs ≡ some c
      → ltb t c.expires_at ≡ true
      → find (has_key key) (update (counts_for t key) more cs) ≡ some (more c)
  find-more [] c h k = cc
  find-more (x ∷ cs) c h k = elim (Bool-cases (str_eq x.key key)) [
    | inl same ↦ let e : x ≡ c = ground arith in ground arith
    | inr other ↦ rw (other, other) (find-more cs c (rw other at h) k)
  ]

  module _ (k' : String) (apart : key ≢ k') where
    key_apart : (x : Counter) → str_eq x.key k' ≡ true → str_eq x.key key ≡ false
    key_apart x h = elim (Bool-cases (str_eq x.key key)) [
      | inl same ↦ absurd (apart (sym ((eq_iff x.key key).0 same) ∙ (eq_iff x.key k').0 h))
      | inr other ↦ other
    ]

    -- another key's counters do not matter
    find-update_other :
        (cs : List Counter)
        → find (has_key key) (update (counts_for t k') more cs) ≡ find (has_key key) cs
    find-update_other [] = refl
    find-update_other (x ∷ cs) = elim (Bool-cases (counts_for t k' x)) [
      | inl hit ↦ rw (hit, key_apart x (ground arith)) (find-update_other cs)
      | inr miss ↦ rw (miss, find-update_other cs) refl
    ]

    find-delete_other :
        (cs : List Counter)
        → find (has_key key) (delete (λ c. str_eq c.key k') cs) ≡ find (has_key key) cs
    find-delete_other [] = refl
    find-delete_other (x ∷ cs) = elim (Bool-cases (str_eq x.key k')) [
      | inl hit ↦ rw (hit, key_apart x hit) (find-delete_other cs)
      | inr miss ↦ rw (miss, find-delete_other cs) refl
    ]

    find_counters_other :
        (window : ℕ) (c : Option Counter) (cs : List Counter)
        → find (has_key key) (counters_after t k' window c cs) ≡ find (has_key key) cs
    find_counters_other window none cs =
        let other : str_eq k' key ≡ false =
          ground (arith, eq_iff k' key, λ (e : key ≡ k'). apart e) in
        rw other (find-delete_other cs)
    find_counters_other window (some c) cs = find-update_other cs

module _ (name : String) (limit last : ℕ) where
  -- a call within the window, under the limit if it is for the name
  abbrev pub IsWithin : RateCall → Type 0
  IsWithin r = (r.now < last) × (r.name ≡ name → r.limit ≡ limit)

  -- while the counter stands at `n`, so many calls are still allowed
  allowed_for-le :
      (rs : List RateCall) (w : World) (c : Counter) (n : ℕ)
      → All IsWithin rs
      → find (has_key (key_of name)) w.counters ≡ some c
      → c.count ≡ n
      → last ≤ c.expires_at
      → allowed_for name rs w ≤ limit - n
  unfolding allowed_for consume
  allowed_for-le [] w c n a f k l = omega arith
  allowed_for-le (r ∷ rs) w c n ((early, same_limit), a) f k l =
      let live : ltb r.now c.expires_at ≡ true = ground arith in
      elim (Bool-cases (str_eq r.name name)) [
        | inl same ↦
            let e : r.name ≡ name = (eq_iff r.name name).0 same in
            let sl : r.limit ≡ limit = same_limit e in
            let found : find (counts_for r.now (key_of r.name)) w.counters ≡ some c =
              ap (λ x. find (counts_for r.now (key_of x)) w.counters) e
              ∙ find_live (key_of name) r.now w.counters c f live in
            let next : find (has_key (key_of name))
                  (update (counts_for r.now (key_of r.name)) more w.counters)
                ≡ some (more c) =
              ap
                (λ x.
                  find (has_key (key_of name))
                    (update (counts_for r.now (key_of x)) more w.counters))
                e
              ∙ find-more (key_of name) r.now w.counters c f live in
            let ih =
              allowed_for-le rs
                (record w { counters = update (counts_for r.now (key_of r.name)) more w.counters })
                (more c) (n + 1) a next (omega arith) l in
            rw (same, found) (ground (arith, ih, sl))
        | inr other ↦
            let apart : key_of name ≢ key_of r.name = λ h.
              let e : r.name ≡ name = sym (key_of_injective name r.name h) in
              let t = (eq_iff r.name name).1 e in cc in
            let c' = find (counts_for r.now (key_of r.name)) w.counters in
            let ih =
              allowed_for-le rs
                (record w {
                  counters = counters_after r.now (key_of r.name) r.window c' w.counters;
                })
                c n a
                (find_counters_other (key_of name) r.now (key_of r.name) apart r.window c'
                    w.counters
                  ∙ f)
                k l in
            rw other ih
      ]

-- From the first call for a key that has no counter in force, and for the length of its window, no
-- more calls for the key are allowed than its limit, whatever calls for other keys come between,
-- if the calls for the key have the same limit. A limit of 0 allows none.
pub consume_limit :
    (name : String) (start limit window : ℕ) (rs : List RateCall) (w : World)
    → find (counts_for start (key_of name)) w.counters ≡ none
    → All (IsWithin name limit (start + window * 1000)) rs
    → allowed_for name (record { now = start; name = name; limit = limit; window = window } ∷ rs) w
      ≤ limit
unfolding allowed_for consume
consume_limit name start limit window rs w fresh a =
    let first : Counter = record {
      key = key_of name;
      count = 1;
      expires_at = start + window * 1000;
    } in
    let others = delete (λ c. str_eq c.key (key_of name)) w.counters in
    let ih =
      allowed_for-le name limit (start + window * 1000) rs (record w { counters = first ∷ others })
        first 1 a (rw (eq_refl (key_of name)) refl) refl (omega arith) in
    rw (eq_refl name, fresh) (ground (arith, ih))
