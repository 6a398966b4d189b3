-- ===== src/Jcs/Serialize.antt =====
-- jcs.py: `_serialize`, `dumps` and `canonicalize`. The texts of the members are made before the
-- members are sorted; both may raise, and what they raise is a ValueError.
use acdp_verifier_py.Prelude.{
  List, [], ◌∷◌, ◌++◌, true, false, Bytes, Text, text, text_leb, if◌then◌else◌,
}
use acdp_verifier_py.Errors.{Result, ok, ◌>>=◌}
use acdp_verifier_py.Unicode.Encode.{utf8, utf16}
use acdp_verifier_py.Json.{
  Json, null, bool, int, float, str, arr, obj, Items, nil, cons, Fields, end, field,
}
use acdp_verifier_py.Jcs.Numbers.{Doubles, format_double, format_int}
use acdp_verifier_py.Jcs.Strings.{format_string}

-- A member with its `_utf16_sort_key`.
pub record Member {ℓ} (A : Type ℓ) : Type ℓ where
  pub key : Bytes
  pub name : Text
  pub value : A

-- `sorted(..., key=_utf16_sort_key)`
unfoldable pub insert_member {ℓ} : {A : Type ℓ} → Member A → List (Member A) → List (Member A)
unfolding text_leb
insert_member m [] = m ∷ []
insert_member m (n ∷ ns) =
    let rest = insert_member m ns in if text_leb m.key n.key then m ∷ n ∷ ns else n ∷ rest

unfoldable pub sort_members {ℓ} : {A : Type ℓ} → List (Member A) → List (Member A)
unfolding insert_member
sort_members [] = []
sort_members (m ∷ ms) = insert_member m (sort_members ms)

-- The members behind the first, and all of them.
unfoldable pub more_members : List (Member Text) → Text
unfolding format_string
more_members [] = []
more_members (m ∷ ms) = 44 ∷ (format_string m.name ++ 58 ∷ m.value) ++ more_members ms

unfoldable pub join_members : List (Member Text) → Text
unfolding more_members
join_members [] = []
join_members (m ∷ ms) = (format_string m.name ++ 58 ∷ m.value) ++ more_members ms

module _ ⦃d : Doubles⦄ where
  unfoldable mutual
    unfolding format_int format_double format_string utf16 join_members sort_members

    pub serialize : Json → Result Text
    serialize null = ok (text "null")
    serialize (bool true) = ok (text "true")
    serialize (bool false) = ok (text "false")
    serialize (int n) = format_int n
    serialize (float x) = format_double x
    serialize (str s) = ok (format_string s)
    serialize (arr xs) = do body ← serialize_items xs; ok (91 ∷ body ++ 93 ∷ [])
    serialize (obj members) = do
      ms ← serialize_members members
      ok (123 ∷ join_members (sort_members ms) ++ 125 ∷ [])

    pub serialize_items : Items → Result Text
    serialize_items nil = ok []
    serialize_items (cons x xs) = do one ← serialize x; rest ← serialize_more xs; ok (one ++ rest)

    -- The items behind the first.
    pub serialize_more : Items → Result Text
    serialize_more nil = ok []
    serialize_more (cons x xs) = do
      one ← serialize x
      rest ← serialize_more xs
      ok (44 ∷ one ++ rest)

    pub serialize_members : Fields → Result (List (Member Text))
    serialize_members end = ok []
    serialize_members (field name v members) = do
      key ← utf16 name
      value ← serialize v
      rest ← serialize_members members
      ok (record { key = key; name = name; value = value } ∷ rest)

  unfoldable pub dumps : Json → Result Text
  unfolding serialize
  dumps value = serialize value

  unfoldable pub canonicalize : Json → Result Bytes
  unfolding dumps utf8
  canonicalize value = dumps value >>= utf8
