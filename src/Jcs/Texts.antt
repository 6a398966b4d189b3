-- ===== src/Jcs/Texts.antt =====
-- The text of a value whose strings are made of code points is made of code points.
use acdp_verifier_py.Prelude.{
  ℕ, ◌<◌, ◌≡◌, sym, List, [], ◌∷◌, ◌++◌, true, false, Text, text, All, All-append, arith,
}
use acdp_verifier_py.Errors.{ok, bind_inv}
use acdp_verifier_py.Unicode.Encode.{IsText, utf16}
use acdp_verifier_py.Json.{
  Json, null, bool, int, float, str, arr, obj, Items, nil, cons, Fields, end, field,
}
use acdp_verifier_py.Jcs.Numbers.{is_number_char, IsNumberText, Doubles}
use acdp_verifier_py.Jcs.Strings.{escape_char, escape, format_string}
use acdp_verifier_py.Jcs.Chars.{format_double-IsNumber, format_int-IsNumber}
use acdp_verifier_py.Jcs.Serialize.{
  Member, sort_members, more_members, join_members, serialize, serialize_items, serialize_more,
  serialize_members, dumps,
}
use acdp_verifier_py.Jcs.Sorting.{sort_members-All}

-- Every string inside is a Python `str`.
unfoldable mutual
  pub IsStr : Json → Type 0
  IsStr null = Unit
  IsStr (bool b) = Unit
  IsStr (int n) = Unit
  IsStr (float x) = Unit
  IsStr (str s) = IsText s
  IsStr (arr xs) = AreStr xs
  IsStr (obj members) = AreFields members

  pub AreStr : Items → Type 0
  AreStr nil = Unit
  AreStr (cons x xs) = IsStr x × AreStr xs

  pub AreFields : Fields → Type 0
  AreFields end = Unit
  AreFields (field name v members) = IsText name × IsStr v × AreFields members

abbrev IsPoint : ℕ → Type 0
IsPoint c = c < 1114112

number-IsText : (t : Text) → IsNumberText t → IsText t
unfolding is_number_char
number-IsText [] h = tt
number-IsText (c ∷ cs) h = (ground (arith, h.0), number-IsText cs h.1)

escape_char-IsText : (c : ℕ) → c < 1114112 → IsText (escape_char c)
unfolding escape_char
escape_char-IsText c h = ground arith

escape-IsText : (s : Text) → IsText s → IsText (escape s)
unfolding escape
escape-IsText [] h = tt
escape-IsText (c ∷ cs) h =
    All-append IsPoint (escape_char c) (escape cs) (escape_char-IsText c h.0) (escape-IsText cs h.1)

format_string-IsText : (s : Text) → IsText s → IsText (format_string s)
unfolding format_string
format_string-IsText s h =
    (omega arith, All-append IsPoint (escape s) (34 ∷ []) (escape-IsText s h) (omega arith, tt))

abbrev IsTextMember : Member Text → Type 0
IsTextMember m = IsText m.name × IsText m.value

member-IsText : (m : Member Text) → IsTextMember m → IsText (format_string m.name ++ 58 ∷ m.value)
member-IsText m h =
    All-append IsPoint (format_string m.name) (58 ∷ m.value) (format_string-IsText m.name h.0)
      (omega arith, h.1)

more_members-IsText : (ms : List (Member Text)) → All IsTextMember ms → IsText (more_members ms)
unfolding more_members
more_members-IsText [] h = tt
more_members-IsText (m ∷ ms) h = (
  omega arith,
  All-append IsPoint (format_string m.name ++ 58 ∷ m.value) (more_members ms) (member-IsText m h.0)
      (more_members-IsText ms h.1),
)

join_members-IsText : (ms : List (Member Text)) → All IsTextMember ms → IsText (join_members ms)
unfolding join_members
join_members-IsText [] h = tt
join_members-IsText (m ∷ ms) h =
    All-append IsPoint (format_string m.name ++ 58 ∷ m.value) (more_members ms)
      (member-IsText m h.0) (more_members-IsText ms h.1)

module _ ⦃d : Doubles⦄ where
  mutual
    unfolding serialize IsStr

    serialize-IsText : (v : Json) (t : Text) → IsStr v → serialize v ≡ ok t → IsText t
    serialize-IsText null t h e =
        let same : text "null" ≡ t = cc (e) in rw (sym same) (ground arith)
    serialize-IsText (bool true) t h e =
        let same : text "true" ≡ t = cc (e) in rw (sym same) (ground arith)
    serialize-IsText (bool false) t h e =
        let same : text "false" ≡ t = cc (e) in rw (sym same) (ground arith)
    serialize-IsText (int n) t h e = number-IsText t (format_int-IsNumber n t e).1
    serialize-IsText (float x) t h e = number-IsText t (format_double-IsNumber x t e).1
    serialize-IsText (str s) t h e =
        let same : format_string s ≡ t = cc (e) in rw (sym same) (format_string-IsText s h)
    serialize-IsText (arr xs) t h e =
        let (body, made, walked) = bind_inv _ (serialize_items xs) e in
        let same : 91 ∷ body ++ 93 ∷ [] ≡ t = cc (made) in
        rw (sym same) (
          omega arith,
          All-append IsPoint body (93 ∷ []) (serialize_items-IsText xs body h walked)
              (omega arith, tt),
        )
    serialize-IsText (obj members) t h e =
        let (ms, made, walked) = bind_inv _ (serialize_members members) e in
        let same : 123 ∷ join_members (sort_members ms) ++ 125 ∷ [] ≡ t = cc (made) in
        rw (sym same) (
          omega arith,
          All-append IsPoint (join_members (sort_members ms)) (125 ∷ [])
              (join_members-IsText (sort_members ms)
                (sort_members-All IsTextMember ms (serialize_members-IsText members ms h walked)))
              (omega arith, tt),
        )

    serialize_items-IsText :
        (xs : Items) (t : Text) → AreStr xs → serialize_items xs ≡ ok t → IsText t
    serialize_items-IsText nil t h e = let same : [] ≡ t = cc (e) in rw (sym same) tt
    serialize_items-IsText (cons x xs) t h e =
        let (one, e₁, first) = bind_inv _ (serialize x) e in
        let (more, e₂, rest) = bind_inv _ (serialize_more xs) e₁ in
        let same : one ++ more ≡ t = cc (e₂) in
        rw (sym same) (
          All-append IsPoint one more (serialize-IsText x one h.0 first)
            (serialize_more-IsText xs more h.1 rest))

    serialize_more-IsText :
        (xs : Items) (t : Text) → AreStr xs → serialize_more xs ≡ ok t → IsText t
    serialize_more-IsText nil t h e = let same : [] ≡ t = cc (e) in rw (sym same) tt
    serialize_more-IsText (cons x xs) t h e =
        let (one, e₁, first) = bind_inv _ (serialize x) e in
        let (more, e₂, rest) = bind_inv _ (serialize_more xs) e₁ in
        let same : 44 ∷ one ++ more ≡ t = cc (e₂) in
        rw (sym same) (
          omega arith,
          All-append IsPoint one more (serialize-IsText x one h.0 first)
              (serialize_more-IsText xs more h.1 rest),
        )

    serialize_members-IsText :
        (members : Fields) (ms : List (Member Text))
        → AreFields members
        → serialize_members members ≡ ok ms
        → All IsTextMember ms
    serialize_members-IsText end ms h e = let same : [] ≡ ms = cc (e) in rw (sym same) tt
    serialize_members-IsText (field name v members) ms h e =
        let (key, e₁, keyed) = bind_inv _ (utf16 name) e in
        let (one, e₂, first) = bind_inv _ (serialize v) e₁ in
        let (more, e₃, rest) = bind_inv _ (serialize_members members) e₂ in
        let same : record { key = key; name = name; value = one } ∷ more ≡ ms = cc (e₃) in
        rw (sym same)
          ((h.0, serialize-IsText v one h.1 first), serialize_members-IsText members more h.2 rest)

  pub dumps-IsText : (v : Json) (t : Text) → IsStr v → dumps v ≡ ok t → IsText t
  unfolding dumps
  dumps-IsText v t h e = serialize-IsText v t h e
