-- ===== src/Contracts/Json.antt =====
-- Values of type `unknown` and `any` in the contracts: JSON, its numbers natural numbers, which
-- are the only ones that the modelled code writes or reads.
use cognitive_runtime.Prelude.{
  ℕ, Bool, Option, none, some, List, [], ◌∷◌, Text, text_eq, if◌then◌else◌,
}

mutual
  pub data Json : Type 0 where
    null : Json
    bool : Bool → Json
    num : ℕ → Json
    str : Text → Json
    arr : Items → Json
    obj : Fields → Json

  pub data Items : Type 0 where
    nil : Items
    cons : Json → Items → Items

  pub data Fields : Type 0 where
    end : Fields
    field : Text → Json → Fields → Fields

unfoldable pub field_of : Text → Fields → Option Json
field_of k end = none
field_of k (field j v fs) = if text_eq j k then some v else field_of k fs

-- `v.k` where `v` is an object, and `undefined` else.
unfoldable pub member : Text → Json → Option Json
unfolding field_of
member k (obj fs) = field_of k fs
member k _ = none

-- `typeof v === 'string' && v.length > 0 ? v : null`
abbrev pub nonempty_string : Option Json → Option Text
nonempty_string (some (str (a ∷ s))) = some (a ∷ s)
nonempty_string _ = none

-- An object literal.
abbrev pub fields : List (Text × Json) → Fields
fields [] = end
fields ((k, v) ∷ m) = field k v (fields m)

abbrev pub object : List (Text × Json) → Json
object m = obj (fields m)

-- An array of strings.
abbrev pub string_items : List Text → Items
string_items [] = nil
string_items (t ∷ ts) = cons (str t) (string_items ts)
