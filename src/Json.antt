-- ===== src/Json.antt =====
-- JSON values as Python's `json.loads` yields them. A float is the bits of its double; the members of
-- an object stand in the order of the text, each name once.
use acdp_verifier_py.Prelude.{
  ℕ, List, [], ◌∷◌, Bool, false, ◌||◌, Option, none, some, Text, bytes_eq, if◌then◌else◌, ℤ,
}

mutual
  pub data Json : Type 0 where
    null : Json
    bool : Bool → Json
    int : ℤ → Json
    float : ℕ → Json
    str : Text → Json
    arr : Items → Json
    obj : Fields → Json

  pub data Items : Type 0 where
    nil : Items
    cons : Json → Items → Items

  pub data Fields : Type 0 where
    end : Fields
    field : Text → Json → Fields → Fields

-- `members.get(name)`, where `none` stands for a name that is absent
unfoldable pub get : Text → Fields → Option Json
unfolding bytes_eq
get name end = none
get name (field k v members) = if bytes_eq k name then some v else get name members

-- `name in members`
unfoldable pub has : Text → Fields → Bool
unfolding bytes_eq
has name end = false
has name (field k v members) = bytes_eq k name || has name members

-- `members.get(name)`, where an absent name gives `None`
unfoldable pub get_or_null : Text → Fields → Json
unfolding get
get_or_null name members = elim (get name members) [ none ↦ null | some v ↦ v ]

unfoldable pub names : Fields → List Text
names end = []
names (field k v members) = k ∷ names members

unfoldable pub elements : Items → List Json
elements nil = []
elements (cons x xs) = x ∷ elements xs

-- `isinstance(value, str)` with the text
unfoldable pub as_str : Json → Option Text
as_str (str s) = some s
as_str _ = none

-- `isinstance(value, int) and not isinstance(value, bool)` with the number
unfoldable pub as_int : Json → Option ℤ
as_int (int n) = some n
as_int _ = none

-- `isinstance(value, list)` with the items
unfoldable pub as_arr : Json → Option Items
as_arr (arr xs) = some xs
as_arr _ = none

-- `isinstance(value, Mapping)` with the members
unfoldable pub as_obj : Json → Option Fields
as_obj (obj members) = some members
as_obj _ = none
