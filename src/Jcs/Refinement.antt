-- ===== src/Jcs/Refinement.antt =====
-- `dumps` writes while it walks: it gives what walking first and writing then gives.
use acdp_verifier_py.Prelude.{
  ◌≡◌, refl, ap, ◌∙◌, inl, inr, List, [], ◌∷◌, ◌++◌, map, true, false, Bytes, Text, text_leb,
  Bool-cases, append_assoc,
}
use acdp_verifier_py.Errors.{Result, ok, raise, out_of_fuel, ◌>>=◌}
use acdp_verifier_py.Unicode.Encode.{utf16}
use acdp_verifier_py.Json.{Json, Items, Fields}
use acdp_verifier_py.Jcs.Numbers.{Doubles, format_double, format_int}
use acdp_verifier_py.Jcs.Strings.{format_string}
use acdp_verifier_py.Jcs.Serialize.{
  Member, insert_member, sort_members, more_members, join_members, serialize, serialize_items,
  serialize_more, serialize_members, dumps,
}
use acdp_verifier_py.Jcs.Canon.{
  Canon, num, arr, obj, Canons, nil, cons, to_named, canon, canon_items, canon_members, print,
  print_items, print_members,
}

-- The items as `serialize_more` and `serialize_items` write them.
abbrev more : Canons → Text
more nil = []
more (cons c cs) = 44 ∷ print c ++ more cs

abbrev first : Canons → Text
first nil = []
first (cons c cs) = print c ++ more cs

more-print_items : (cs : Canons) → more cs ++ 93 ∷ [] ≡ print_items cs
more-print_items nil = unfold print in refl
more-print_items (cons c cs) =
    ap (λ (t : Text). 44 ∷ t)
      (append_assoc (print c) (more cs) (93 ∷ [])
        ∙ ap (λ (t : Text). print c ++ t) (more-print_items cs))
    ∙ unfold print in refl

print_arr : (cs : Canons) → 91 ∷ first cs ++ 93 ∷ [] ≡ print (arr cs)
print_arr nil = unfold print in refl
print_arr (cons c cs) =
    ap (λ (t : Text). 91 ∷ t)
      (append_assoc (print c) (more cs) (93 ∷ [])
        ∙ ap (λ (t : Text). print c ++ t) (more-print_items cs))
    ∙ unfold print in refl

abbrev printed : Member Canon → Member Text
printed m = record { key = m.key; name = m.name; value = print m.value }

insert_member-printed :
    (m : Member Canon) (ms : List (Member Canon))
    → insert_member (printed m) (map printed ms) ≡ map printed (insert_member m ms)
unfolding insert_member
insert_member-printed m [] = refl
insert_member-printed m (n ∷ ns) = elim (Bool-cases (text_leb m.key n.key)) [
  | inl le ↦ rw le refl
  | inr gt ↦ rw gt (ap (λ (l : List (Member Text)). printed n ∷ l) (insert_member-printed m ns))
]

sort_members-printed :
    (ms : List (Member Canon)) → sort_members (map printed ms) ≡ map printed (sort_members ms)
unfolding sort_members
sort_members-printed [] = refl
sort_members-printed (m ∷ ms) =
    ap (insert_member (printed m)) (sort_members-printed ms)
    ∙ insert_member-printed m (sort_members ms)

member_text :
    (name : Text) (v rest : Text)
    → (format_string name ++ 58 ∷ v) ++ rest ≡ format_string name ++ (58 ∷ (v ++ rest))
member_text name v rest = append_assoc (format_string name) (58 ∷ v) rest

more_members-print :
    (ms : List (Member Canon))
    → more_members (map printed ms) ++ 125 ∷ [] ≡ print_members (to_named ms)
unfolding more_members to_named
more_members-print [] = unfold print in refl
more_members-print (m ∷ ms) =
    ap (λ (t : Text). 44 ∷ t)
      (append_assoc (format_string m.name ++ 58 ∷ print m.value) (more_members (map printed ms))
          (125 ∷ [])
        ∙ ap (λ (t : Text). (format_string m.name ++ 58 ∷ print m.value) ++ t)
            (more_members-print ms)
        ∙ member_text m.name (print m.value) (print_members (to_named ms)))
    ∙ unfold print in refl

print_obj :
    (ms : List (Member Canon))
    → 123 ∷ join_members (map printed ms) ++ 125 ∷ [] ≡ print (obj (to_named ms))
unfolding join_members to_named
print_obj [] = unfold print in refl
print_obj (m ∷ ms) =
    ap (λ (t : Text). 123 ∷ t)
      (append_assoc (format_string m.name ++ 58 ∷ print m.value) (more_members (map printed ms))
          (125 ∷ [])
        ∙ ap (λ (t : Text). (format_string m.name ++ 58 ∷ print m.value) ++ t)
            (more_members-print ms)
        ∙ member_text m.name (print m.value) (print_members (to_named ms)))
    ∙ unfold print in refl

-- The steps of the walk, whatever the parts come to.
arr_step :
    (q : Result Canons)
    → ((q >>= λ cs. ok (first cs)) >>= λ body. ok (91 ∷ body ++ 93 ∷ []))
      ≡ ((q >>= λ cs. ok (arr cs)) >>= λ c. ok (print c))
arr_step (ok cs) = ap ok (print_arr cs)
arr_step (raise e) = refl
arr_step out_of_fuel = refl

first_step :
    (r : Result Canon) (q : Result Canons)
    → ((r >>= λ c. ok (print c)) >>= λ one. (q >>= λ cs. ok (more cs)) >>= λ rest. ok (one ++ rest))
      ≡ ((r >>= λ c. q >>= λ cs. ok (cons c cs)) >>= λ cs. ok (first cs))
first_step (ok c) (ok cs) = refl
first_step (ok c) (raise e) = refl
first_step (ok c) out_of_fuel = refl
first_step (raise e) q = refl
first_step out_of_fuel q = refl

more_step :
    (r : Result Canon) (q : Result Canons)
    → ((r >>= λ c. ok (print c)) >>= λ one.
        (q >>= λ cs. ok (more cs)) >>= λ rest. ok (44 ∷ one ++ rest))
      ≡ ((r >>= λ c. q >>= λ cs. ok (cons c cs)) >>= λ cs. ok (more cs))
more_step (ok c) (ok cs) = refl
more_step (ok c) (raise e) = refl
more_step (ok c) out_of_fuel = refl
more_step (raise e) q = refl
more_step out_of_fuel q = refl

obj_step :
    (q : Result (List (Member Canon)))
    → ((q >>= λ ms. ok (map printed ms)) >>= λ ms.
        ok (123 ∷ join_members (sort_members ms) ++ 125 ∷ []))
      ≡ ((q >>= λ ms. ok (obj (to_named (sort_members ms)))) >>= λ c. ok (print c))
obj_step (ok ms) = ap ok (rw (sort_members-printed ms) (print_obj (sort_members ms)))
obj_step (raise e) = refl
obj_step out_of_fuel = refl

members_step :
    (name : Text) (k : Result Bytes) (r : Result Canon) (q : Result (List (Member Canon)))
    → (k >>= λ key. (r >>= λ c. ok (print c)) >>= λ v. (q >>= λ ms. ok (map printed ms)) >>= λ rest.
        ok (record { key = key; name = name; value = v } ∷ rest))
      ≡ ((k >>= λ key.
            r >>= λ v. q >>= λ rest. ok (record { key = key; name = name; value = v } ∷ rest))
          >>= λ ms. ok (map printed ms))
members_step name (ok key) (ok c) (ok ms) = refl
members_step name (ok key) (ok c) (raise e) = refl
members_step name (ok key) (ok c) out_of_fuel = refl
members_step name (ok key) (raise e) q = refl
members_step name (ok key) out_of_fuel q = refl
members_step name (raise e) r q = refl
members_step name out_of_fuel r q = refl

num_step : (r : Result Text) → r ≡ ((r >>= λ t. ok (num t)) >>= λ c. ok (print c))
num_step (ok t) = unfold print in refl
num_step (raise e) = refl
num_step out_of_fuel = refl

module _ ⦃d : Doubles⦄ where
  mutual
    unfolding serialize canon print

    serialize-canon : (v : Json) → serialize v ≡ (canon v >>= λ c. ok (print c))
    serialize-canon Json.null = refl
    serialize-canon (Json.bool true) = refl
    serialize-canon (Json.bool false) = refl
    serialize-canon (Json.int n) = num_step (format_int n)
    serialize-canon (Json.float x) = num_step (format_double x)
    serialize-canon (Json.str s) = refl
    serialize-canon (Json.arr xs) = rw (serialize_items-canon xs) (arr_step (canon_items xs))
    serialize-canon (Json.obj members) =
        rw (serialize_members-canon members) (obj_step (canon_members members))

    serialize_items-canon :
        (xs : Items) → serialize_items xs ≡ (canon_items xs >>= λ cs. ok (first cs))
    serialize_items-canon Items.nil = refl
    serialize_items-canon (Items.cons x xs) =
        rw (serialize-canon x, serialize_more-canon xs) (first_step (canon x) (canon_items xs))

    serialize_more-canon :
        (xs : Items) → serialize_more xs ≡ (canon_items xs >>= λ cs. ok (more cs))
    serialize_more-canon Items.nil = refl
    serialize_more-canon (Items.cons x xs) =
        rw (serialize-canon x, serialize_more-canon xs) (more_step (canon x) (canon_items xs))

    serialize_members-canon :
        (members : Fields)
        → serialize_members members ≡ (canon_members members >>= λ ms. ok (map printed ms))
    serialize_members-canon Fields.end = refl
    serialize_members-canon (Fields.field name v members) =
        rw (serialize-canon v, serialize_members-canon members)
          (members_step name (utf16 name) (canon v) (canon_members members))

  -- `dumps` writes the walked form of a value, on every outcome.
  pub dumps-canon : (v : Json) → dumps v ≡ (canon v >>= λ c. ok (print c))
  unfolding dumps
  dumps-canon v = serialize-canon v
