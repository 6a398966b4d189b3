-- ===== src/Chain/References.antt =====
-- chain.py: `_distinct`, and what `_walk` reads of a context.
use acdp_verifier_py.Prelude.{
  List, [], ◌∷◌, Bool, true, false, ◌||◌, Option, none, some, Text, text, text_eq, bytes_eq, map,
  ◌==◌, ◌^◌, pos, negsuc, if◌then◌else◌,
}
use acdp_verifier_py.Errors.{Result, ok, raise, ◌>>=◌, type_error, key_error, attribute_error}
use acdp_verifier_py.Json.{
  Json, null, bool, int, float, str, arr, obj, Fields, get, get_or_null, names, elements, as_str,
}

unfoldable pub text_in : Text → List Text → Bool
unfolding bytes_eq
text_in t [] = false
text_in t (s ∷ ss) = text_eq s t || text_in t ss

unfoldable pub distinct_from : List Text → List Json → List Text
unfolding text_in as_str
distinct_from seen [] = []
distinct_from seen (v ∷ vs) = elim (as_str v) [
  | none ↦ distinct_from seen vs
  | some s ↦ elim (text_in s seen) [
    | true ↦ distinct_from seen vs
    | false ↦ s ∷ distinct_from (s ∷ seen) vs
  ]
]

unfoldable pub distinct : List Json → List Text
unfolding distinct_from
distinct values = distinct_from [] values

-- What `for value in (derived_from or [])` goes through. A string is made of strings of one
-- character, a mapping of its names; zero is false, also as a float of either sign.
unfoldable pub values_of : Json → Result (List Json)
unfolding names elements
values_of null = ok []
values_of (bool true) = raise type_error
values_of (bool false) = ok []
values_of (int (pos n)) = if n == 0 then ok [] else raise type_error
values_of (int (negsuc _)) = raise type_error
values_of (float x) = if x == 0 || x == 2 ^ 63 then ok [] else raise type_error
values_of (str s) = ok (map (λ c. str (c ∷ [])) s)
values_of (arr xs) = ok (elements xs)
values_of (obj members) = ok (map str (names members))

-- `_distinct(entry["body"].get("derived_from") or [])`
unfoldable pub body_refs : Option Json → Result (List Text)
unfolding values_of distinct get_or_null
body_refs none = raise key_error
body_refs (some (obj body)) =
    values_of (get_or_null (text "derived_from") body) >>= λ values. ok (distinct values)
body_refs (some _) = raise attribute_error

-- The references of an entry, where it is a mapping.
unfoldable pub entry_refs : Option Json → Result (Option (List Text))
unfolding body_refs get
entry_refs (some (obj entry)) = body_refs (get (text "body") entry) >>= λ refs. ok (some refs)
entry_refs _ = ok none

-- `contexts` is a mapping of names to entries.
unfoldable pub refs_of : Fields → Text → Result (Option (List Text))
unfolding entry_refs get
refs_of contexts node = entry_refs (get node contexts)
