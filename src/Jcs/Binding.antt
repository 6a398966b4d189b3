-- ===== src/Jcs/Binding.antt =====
-- What a text that `dumps` hands back says of the value.
use acdp_verifier_py.Prelude.{◌≡◌, sym, ap, ◌∙◌, List, [], ◌∷◌, ◌++◌, Text, All}
use acdp_verifier_py.Errors.{ok, bind_inv}
use acdp_verifier_py.Unicode.Encode.{utf16}
use acdp_verifier_py.Json.{Json, Items, Fields}
use acdp_verifier_py.Jcs.Numbers.{Doubles, format_double, format_int}
use acdp_verifier_py.Jcs.Serialize.{Member, sort_members, dumps}
use acdp_verifier_py.Jcs.Chars.{format_double-IsNumber, format_int-IsNumber}
use acdp_verifier_py.Jcs.Refinement.{dumps-canon}
use acdp_verifier_py.Jcs.Canon.{
  Canon, null, bool, num, str, arr, obj, Canons, nil, cons, to_named, canon, canon_items,
  canon_members, print,
}
use acdp_verifier_py.Jcs.Kinds.{IsCanon, AreCanon, AreMembers, text_kind, text_kind-print}
use acdp_verifier_py.Jcs.Sorting.{sort_members-All}
use acdp_verifier_py.Jcs.Printed.{print_injective}

abbrev IsCanonMember : Member Canon → Type 0
IsCanonMember m = IsCanon m.value

to_named-IsCanon : (ms : List (Member Canon)) → All IsCanonMember ms → AreMembers (to_named ms)
unfolding to_named IsCanon
to_named-IsCanon [] h = tt
to_named-IsCanon (m ∷ ms) h = (h.0, to_named-IsCanon ms h.1)

sort_members-IsCanon :
    (ms : List (Member Canon)) → All IsCanonMember ms → AreMembers (to_named (sort_members ms))
sort_members-IsCanon ms h = to_named-IsCanon (sort_members ms) (sort_members-All IsCanonMember ms h)

module _ ⦃d : Doubles⦄ where
  mutual
    unfolding canon IsCanon

    canon-IsCanon : (v : Json) (c : Canon) → canon v ≡ ok c → IsCanon c
    canon-IsCanon Json.null c e = let same : null ≡ c = cc (e) in rw (sym same) tt
    canon-IsCanon (Json.bool b) c e = let same : bool b ≡ c = cc (e) in rw (sym same) tt
    canon-IsCanon (Json.int n) c e =
        let (t, made, written) = bind_inv _ (format_int n) e in
        let same : num t ≡ c = cc (made) in rw (sym same) (format_int-IsNumber n t written)
    canon-IsCanon (Json.float x) c e =
        let (t, made, written) = bind_inv _ (format_double x) e in
        let same : num t ≡ c = cc (made) in rw (sym same) (format_double-IsNumber x t written)
    canon-IsCanon (Json.str s) c e = let same : str s ≡ c = cc (e) in rw (sym same) tt
    canon-IsCanon (Json.arr xs) c e =
        let (cs, made, walked) = bind_inv _ (canon_items xs) e in
        let same : arr cs ≡ c = cc (made) in rw (sym same) (canon_items-IsCanon xs cs walked)
    canon-IsCanon (Json.obj members) c e =
        let (ms, made, walked) = bind_inv _ (canon_members members) e in
        let same : obj (to_named (sort_members ms)) ≡ c = cc (made) in
        rw (sym same) (sort_members-IsCanon ms (canon_members-IsCanon members ms walked))

    canon_items-IsCanon : (xs : Items) (cs : Canons) → canon_items xs ≡ ok cs → AreCanon cs
    canon_items-IsCanon Items.nil cs e = let same : nil ≡ cs = cc (e) in rw (sym same) tt
    canon_items-IsCanon (Items.cons x xs) cs e =
        let (one, e₁, first) = bind_inv _ (canon x) e in
        let (more, e₂, rest) = bind_inv _ (canon_items xs) e₁ in
        let same : cons one more ≡ cs = cc (e₂) in
        rw (sym same) (canon-IsCanon x one first, canon_items-IsCanon xs more rest)

    canon_members-IsCanon :
        (members : Fields) (ms : List (Member Canon))
        → canon_members members ≡ ok ms
        → All IsCanonMember ms
    canon_members-IsCanon Fields.end ms e = let same : [] ≡ ms = cc (e) in rw (sym same) tt
    canon_members-IsCanon (Fields.field name v members) ms e =
        let (key, e₁, keyed) = bind_inv _ (utf16 name) e in
        let (one, e₂, first) = bind_inv _ (canon v) e₁ in
        let (more, e₃, rest) = bind_inv _ (canon_members members) e₂ in
        let same : record { key = key; name = name; value = one } ∷ more ≡ ms = cc (e₃) in
        rw (sym same) (canon-IsCanon v one first, canon_members-IsCanon members more rest)

  pub canon_of_dumps : (a : Json) (s : Text) → dumps a ≡ ok s → (c : Canon) × (canon a ≡ ok c)
  canon_of_dumps a s e =
      let (c, _, made) = bind_inv (λ c. ok (print c)) (canon a) (sym (dumps-canon a) ∙ e) in
      (c, made)

  -- Two values that `dumps` writes alike have the same walked form.
  pub dumps_injective :
      (a b : Json) (s : Text) → dumps a ≡ ok s → dumps b ≡ ok s → canon a ≡ canon b
  dumps_injective a b s ea eb =
      let (c, printed_a, canon_a) = bind_inv _ (canon a) (sym (dumps-canon a) ∙ ea) in
      let (d, printed_b, canon_b) = bind_inv _ (canon b) (sym (dumps-canon b) ∙ eb) in
      let same : print c ++ [] ≡ print d ++ [] = cc (printed_a, printed_b) in
      let well_a = canon-IsCanon a c canon_a in
      let well_b = canon-IsCanon b d canon_b in
      let same_kind =
        sym (text_kind-print c [] well_a) ∙ ap text_kind same ∙ text_kind-print d [] well_b in
      let (one, _) = print_injective c d [] [] well_a well_b tt tt same same_kind in
      canon_a ∙ ap ok one ∙ sym canon_b
