-- ===== src/Retention/Loop.antt =====
-- `processIdsInChunks` and the queries and writes that the passes give it
-- (apps/idp-server/src/jobs/data-retention.ts). The loop runs on fuel: `none` when it runs out.
use id_provider.Base.{
  ℕ, zero, suc, ◌+◌, ◌==◌, Bool, Option, none, some, List, [], ◌∷◌, map, any, select, update,
  delete, take, length, if◌then◌else◌,
}

-- The `while (true)` loop: the total, and the table at its end.
unfoldable pub chunks :
    {S : Type 0} → ℕ → (S → List ℕ) → (List ℕ → S → ℕ × S) → ℕ → S → Option (ℕ × S)
chunks zero select_ids process_ids total s = none
chunks (suc fuel) select_ids process_ids total s = elim (select_ids s) [
  | [] ↦ some (total, s)
  | i ∷ is ↦
      let (n, s') = process_ids (i ∷ is) s in chunks fuel select_ids process_ids (total + n) s'
]

unfoldable pub process_ids_in_chunks :
    {S : Type 0} → ℕ → (S → List ℕ) → (List ℕ → S → ℕ × S) → Option (S → ℕ) → S → Option (ℕ × S)
unfolding chunks
process_ids_in_chunks fuel select_ids process_ids (some count_all) s = some (count_all s, s)
process_ids_in_chunks fuel select_ids process_ids none s = chunks fuel select_ids process_ids 0 s

-- `inArray(id, ids)`
abbrev pub has_id : List ℕ → ℕ → Bool
has_id ids i = any (λ j. j == i) ids

module _ {A : Type 0} (id : A → ℕ) (matches : A → Bool) where
  -- `select({ id }) … .limit(chunkSize)`
  abbrev pub chunk_ids : ℕ → List A → List ℕ
  chunk_ids size rows = map id (take size (select matches rows))

  -- `select({ count: count(*) })`, given for a dry run only
  abbrev pub count_all : Bool → Option (List A → ℕ)
  count_all dry_run = if dry_run then some (λ rows. length (select matches rows)) else none

  -- a pass that updates the rows it selects
  unfoldable pub anonymize_pass : ℕ → ℕ → Bool → (A → A) → List A → Option (ℕ × List A)
  unfolding process_ids_in_chunks
  anonymize_pass fuel size dry_run set rows =
      process_ids_in_chunks fuel (chunk_ids size)
        (λ ids rs. (length ids, if dry_run then rs else update (λ r. has_id ids (id r)) set rs))
        (count_all dry_run) rows

  -- a pass that deletes the rows it selects
  unfoldable pub delete_pass : ℕ → ℕ → Bool → List A → Option (ℕ × List A)
  unfolding process_ids_in_chunks
  delete_pass fuel size dry_run rows =
      process_ids_in_chunks fuel (chunk_ids size)
        (λ ids rs. (length ids, if dry_run then rs else delete (λ r. has_id ids (id r)) rs))
        (count_all dry_run) rows
