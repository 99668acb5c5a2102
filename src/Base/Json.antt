-- ===== src/Base/Json.antt =====
-- Values that a payload is built from, and what a jsonb column keeps of them. Numbers are natural.
-- `other` is a value that JSON does not have, `undefined`, a function or a symbol, by its text under
-- `String`.
use Prim.Native.Nat.{ℕ}
use Prim.Native.String.{String}
use mathlib.Core.Bool.{Bool}

mutual
  pub data Json : Type 0 where
    null : Json
    bool : Bool → Json
    num : ℕ → Json
    str : String → Json
    arr : Items → Json
    obj : Fields → Json
    date : ℕ → Json
    other : String → Json

  pub data Items : Type 0 where
    nil : Items
    cons : Json → Items → Items

  pub data Fields : Type 0 where
    end : Fields
    field : String → Json → Fields → Fields

-- `JSON.stringify` leaves out a field with a value that JSON does not have, given the value and
-- what is kept of it
abbrev pub put_field : String → Json → Json → Fields → Fields
put_field k (other text) kept fs = fs
put_field k v kept fs = field k kept fs

-- What is read back from a jsonb column, with the text of a date. The order in which jsonb keeps the
-- keys does not show in a text with the keys in order, and stays here as it is.
unfoldable mutual
  pub stored : (ℕ → String) → Json → Json
  stored iso null = null
  stored iso (bool b) = bool b
  stored iso (num n) = num n
  stored iso (str s) = str s
  stored iso (arr xs) = arr (stored_items iso xs)
  stored iso (obj fs) = obj (stored_fields iso fs)
  stored iso (date t) = str (iso t)
  stored iso (other text) = null

  pub stored_items : (ℕ → String) → Items → Items
  stored_items iso nil = nil
  stored_items iso (cons x xs) = cons (stored iso x) (stored_items iso xs)

  pub stored_fields : (ℕ → String) → Fields → Fields
  stored_fields iso end = end
  stored_fields iso (field k v fs) = put_field k v (stored iso v) (stored_fields iso fs)
