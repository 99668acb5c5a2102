-- ===== src/Audit/Canonical.antt =====
-- `canonicalize`: the text of a JSON value with the keys of each object in order
-- (apps/idp-server/src/modules/audit/audit.repository.ts).
use id_provider.Base.{String, List, [], ◌∷◌, map, if◌then◌else◌}
use id_provider.Base.Json.{
  Json, null, bool, num, str, arr, obj, date, other, Items, nil, cons, Fields, field, end,
}
use id_provider.Store.Env.{Env}
use Prim.Native.String

infixr 65 ◌+++◌
abbrev ◌+++◌ : String → String → String
a +++ b = String.◌++◌ a b

-- `join(",")`
abbrev join : List String → String
join [] = ""
join (x ∷ []) = x
join (x ∷ y ∷ ys) = x +++ "," +++ join (y ∷ ys)

-- `sort(([left], [right]) => left.localeCompare(right))`, which is stable
unfoldable pub insert_entry :
    Env → String × String → List (String × String) → List (String × String)
insert_entry e x [] = x ∷ []
insert_entry e x (y ∷ ys) = if e.locale_le x.0 y.0 then x ∷ y ∷ ys else y ∷ insert_entry e x ys

unfoldable pub sort_entries : Env → List (String × String) → List (String × String)
unfolding insert_entry
sort_entries e [] = []
sort_entries e (x ∷ xs) = insert_entry e x (sort_entries e xs)

abbrev pub entry_text : Env → String × String → String
entry_text e (key, text) = e.quote key +++ ":" +++ text

unfoldable mutual
  unfolding sort_entries

  pub canonicalize : Env → Json → String
  canonicalize e null = "null"
  canonicalize e (bool b) = if b then "true" else "false"
  canonicalize e (num n) = e.number_text n
  canonicalize e (str s) = e.quote s
  canonicalize e (date t) = e.quote (e.iso_text t)
  canonicalize e (other text) = e.quote text
  canonicalize e (arr xs) = "[" +++ join (canonical_items e xs) +++ "]"
  canonicalize e (obj fs) =
      "{" +++ join (map (entry_text e) (sort_entries e (canonical_fields e fs))) +++ "}"

  pub canonical_items : Env → Items → List String
  canonical_items e nil = []
  canonical_items e (cons x xs) = canonicalize e x ∷ canonical_items e xs

  pub canonical_fields : Env → Fields → List (String × String)
  canonical_fields e end = []
  canonical_fields e (field k v fs) = (k, canonicalize e v) ∷ canonical_fields e fs
