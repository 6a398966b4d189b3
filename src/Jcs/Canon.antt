-- ===== src/Jcs/Canon.antt =====
-- An intermediate form for the proofs about `dumps`: what `_serialize` makes of a value before it
-- writes brackets and commas, with the source's own numbers and order, and how that is written.
use acdp_verifier_py.Prelude.{List, [], ◌∷◌, ◌++◌, Bool, true, false, Text, text}
use acdp_verifier_py.Errors.{Result, ok, ◌>>=◌}
use acdp_verifier_py.Unicode.Encode.{utf16}
use acdp_verifier_py.Json.{Json, Items, Fields}
use acdp_verifier_py.Jcs.Numbers.{Doubles, format_double, format_int}
use acdp_verifier_py.Jcs.Strings.{format_string}
use acdp_verifier_py.Jcs.Serialize.{Member, sort_members}

mutual
  pub data Canon : Type 0 where
    null : Canon
    bool : Bool → Canon
    num : Text → Canon
    str : Text → Canon
    arr : Canons → Canon
    obj : Named → Canon

  pub data Canons : Type 0 where
    nil : Canons
    cons : Canon → Canons → Canons

  pub data Named : Type 0 where
    end : Named
    member : Text → Canon → Named → Named

unfoldable pub to_named : List (Member Canon) → Named
to_named [] = end
to_named (m ∷ ms) = member m.name m.value (to_named ms)

module _ ⦃d : Doubles⦄ where
  unfoldable mutual
    unfolding format_int format_double utf16 sort_members to_named

    pub canon : Json → Result Canon
    canon Json.null = ok null
    canon (Json.bool b) = ok (bool b)
    canon (Json.int n) = format_int n >>= λ t. ok (num t)
    canon (Json.float x) = format_double x >>= λ t. ok (num t)
    canon (Json.str s) = ok (str s)
    canon (Json.arr xs) = canon_items xs >>= λ cs. ok (arr cs)
    canon (Json.obj members) = canon_members members >>= λ ms. ok (obj (to_named (sort_members ms)))

    pub canon_items : Items → Result Canons
    canon_items Items.nil = ok nil
    canon_items (Items.cons x xs) = do c ← canon x; cs ← canon_items xs; ok (cons c cs)

    pub canon_members : Fields → Result (List (Member Canon))
    canon_members Fields.end = ok []
    canon_members (Fields.field name v members) = do
      key ← utf16 name
      value ← canon v
      rest ← canon_members members
      ok (record { key = key; name = name; value = value } ∷ rest)

unfoldable mutual
  unfolding format_string

  pub print : Canon → Text
  print null = text "null"
  print (bool true) = text "true"
  print (bool false) = text "false"
  print (num t) = t
  print (str s) = format_string s
  print (arr nil) = text "[]"
  print (arr (cons c cs)) = 91 ∷ print c ++ print_items cs
  print (obj end) = text "{}"
  print (obj (member name c ms)) =
      123 ∷ (format_string name ++ (58 ∷ (print c ++ print_members ms)))

  -- The items behind the first, and the bracket.
  pub print_items : Canons → Text
  print_items nil = 93 ∷ []
  print_items (cons c cs) = 44 ∷ print c ++ print_items cs

  pub print_members : Named → Text
  print_members end = 125 ∷ []
  print_members (member name c ms) =
      44 ∷ (format_string name ++ (58 ∷ (print c ++ print_members ms)))
