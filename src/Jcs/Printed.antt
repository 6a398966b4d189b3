-- ===== src/Jcs/Printed.antt =====
-- A canonical text and the walked form that it was written for.
use acdp_verifier_py.Prelude.{
  ◌≡◌, ◌≢◌, refl, sym, ap, ◌∙◌, ◌∷◌, ◌++◌, true, false, Text, arith, append_assoc,
}
use mathlib.Core.Path.{subst}
use acdp_verifier_py.Jcs.Numbers.{is_number_char}
use acdp_verifier_py.Jcs.Strings.{format_string}
use acdp_verifier_py.Jcs.Lexemes.{IsBreak, format_string_injective, number_injective}
use acdp_verifier_py.Jcs.Canon.{
  Canon, null, bool, num, str, arr, obj, Canons, nil, cons, Named, end, member, print, print_items,
  print_members,
}
use acdp_verifier_py.Jcs.Kinds.{
  IsCanon, AreCanon, AreMembers, text_kind, kind, tail_of, text_kind-print, null_kind, true_kind,
  false_kind, num_kind, str_kind, arr_kind, obj_kind,
}

print_items-IsBreak : (cs : Canons) (r : Text) → IsBreak (print_items cs ++ r)
unfolding print is_number_char
print_items-IsBreak nil r = refl
print_items-IsBreak (cons c cs) r = refl

print_members-IsBreak : (ms : Named) (r : Text) → IsBreak (print_members ms ++ r)
unfolding print is_number_char
print_members-IsBreak end r = refl
print_members-IsBreak (member name c ms) r = refl

-- An item and what follows it, a member and what follows it.
item_parts :
    (c d : Canon) (cs ds : Canons) (r r' : Text)
    → IsCanon c
    → IsCanon d
    → (print c ++ print_items cs) ++ r ≡ (print d ++ print_items ds) ++ r'
    → (print c ++ (print_items cs ++ r) ≡ print d ++ (print_items ds ++ r')) × (kind c ≡ kind d)
item_parts c d cs ds r r' hc hd e =
    let e' =
      sym (append_assoc (print c) (print_items cs) r)
      ∙ e
      ∙ append_assoc (print d) (print_items ds) r' in
    (
      e',
      sym (text_kind-print c (print_items cs ++ r) hc)
          ∙ ap text_kind e'
          ∙ text_kind-print d (print_items ds ++ r') hd,
    )

member_parts :
    (s t : Text) (c d : Canon) (ms ns : Named) (r r' : Text)
    → IsCanon c
    → IsCanon d
    → (format_string s ++ (58 ∷ (print c ++ print_members ms))) ++ r
      ≡ (format_string t ++ (58 ∷ (print d ++ print_members ns))) ++ r'
    → (s ≡ t)
      × (print c ++ (print_members ms ++ r) ≡ print d ++ (print_members ns ++ r'))
      × (kind c ≡ kind d)
member_parts s t c d ms ns r r' hc hd e =
    let (names, after) =
      format_string_injective s t (58 ∷ ((print c ++ print_members ms) ++ r))
        (58 ∷ ((print d ++ print_members ns) ++ r'))
        (sym (append_assoc (format_string s) (58 ∷ (print c ++ print_members ms)) r)
          ∙ e
          ∙ append_assoc (format_string t) (58 ∷ (print d ++ print_members ns)) r') in
    let e' =
      sym (append_assoc (print c) (print_members ms) r)
      ∙ tail_of after
      ∙ append_assoc (print d) (print_members ns) r' in
    (
      names,
      e',
      sym (text_kind-print c (print_members ms ++ r) hc)
          ∙ ap text_kind e'
          ∙ text_kind-print d (print_members ns ++ r') hd,
    )

-- No value begins with a closing bracket.
not_closed : (c : Canon) (x y r : Text) → IsCanon c → 93 ∷ r ≢ (print c ++ x) ++ y
unfolding is_number_char
not_closed c x y r h e =
    let kinds = ap text_kind (e ∙ append_assoc (print c) x y) ∙ text_kind-print c (x ++ y) h in
    ground (arith, kinds)

closed_name : (t x y r : Text) → 125 ∷ r ≢ (format_string t ++ x) ++ y
unfolding format_string
closed_name t x y r e = cc (e)

items_end :
    (c : Canon) (cs : Canons) (r r' : Text) → print_items nil ++ r ≢ print_items (cons c cs) ++ r'
unfolding print
items_end c cs r r' e = cc (e)

members_end :
    (s : Text) (c : Canon) (ms : Named) (r r' : Text)
    → print_members end ++ r ≢ print_members (member s c ms) ++ r'
unfolding print
members_end s c ms r r' e = cc (e)

mutual
  unfolding print IsCanon

  pub print_injective :
      (a b : Canon) (r r' : Text)
      → IsCanon a
      → IsCanon b
      → IsBreak r
      → IsBreak r'
      → print a ++ r ≡ print b ++ r'
      → kind a ≡ kind b
      → (a ≡ b) × (r ≡ r')
  print_injective null b r r' ha hb br br' e k =
      let same = null_kind b (sym k) in
      (sym same, tail_of (tail_of (tail_of (tail_of (e ∙ ap (λ (x : Canon). print x ++ r') same)))))
  print_injective (bool true) b r r' ha hb br br' e k =
      let same = true_kind b (sym k) in
      (sym same, tail_of (tail_of (tail_of (tail_of (e ∙ ap (λ (x : Canon). print x ++ r') same)))))
  print_injective (bool false) b r r' ha hb br br' e k =
      let same = false_kind b (sym k) in
      (
        sym same,
        tail_of
            (tail_of (tail_of (tail_of (tail_of (e ∙ ap (λ (x : Canon). print x ++ r') same))))),
      )
  print_injective (num s) b r r' ha hb br br' e k =
      let (t, same) = num_kind b (sym k) in
      let (one, ends) =
        number_injective s t r r' ha.1 (subst IsCanon same hb).1 br br'
          (e ∙ ap (λ (x : Canon). print x ++ r') same) in
      (ap num one ∙ sym same, ends)
  print_injective (str s) b r r' ha hb br br' e k =
      let (t, same) = str_kind b (sym k) in
      let (one, ends) =
        format_string_injective s t r r' (e ∙ ap (λ (x : Canon). print x ++ r') same) in
      (ap str one ∙ sym same, ends)
  print_injective (arr cs) b r r' ha hb br br' e k =
      let (ds, same) = arr_kind b (sym k) in
      let (one, ends) =
        print_arr_injective cs ds r r' ha (subst IsCanon same hb)
          (e ∙ ap (λ (x : Canon). print x ++ r') same) in
      (ap arr one ∙ sym same, ends)
  print_injective (obj ms) b r r' ha hb br br' e k =
      let (ns, same) = obj_kind b (sym k) in
      let (one, ends) =
        print_obj_injective ms ns r r' ha (subst IsCanon same hb)
          (e ∙ ap (λ (x : Canon). print x ++ r') same) in
      (ap obj one ∙ sym same, ends)

  print_arr_injective :
      (cs ds : Canons) (r r' : Text)
      → AreCanon cs
      → AreCanon ds
      → print (arr cs) ++ r ≡ print (arr ds) ++ r'
      → (cs ≡ ds) × (r ≡ r')
  print_arr_injective nil nil r r' hc hd e = (refl, cc (e))
  print_arr_injective nil (cons d ds) r r' hc hd e =
      absurd (not_closed d (print_items ds) r' r hd.0 (tail_of e))
  print_arr_injective (cons c cs) nil r r' hc hd e =
      absurd (not_closed c (print_items cs) r r' hc.0 (sym (tail_of e)))
  print_arr_injective (cons c cs) (cons d ds) r r' hc hd e =
      let (e', same_kind) = item_parts c d cs ds r r' hc.0 hd.0 (tail_of e) in
      let (one, rest) =
        print_injective c d (print_items cs ++ r) (print_items ds ++ r') hc.0 hd.0
          (print_items-IsBreak cs r) (print_items-IsBreak ds r') e' same_kind in
      let (more, ends) = print_items_injective cs ds r r' hc.1 hd.1 rest in (cc (one, more), ends)

  print_items_injective :
      (cs ds : Canons) (r r' : Text)
      → AreCanon cs
      → AreCanon ds
      → print_items cs ++ r ≡ print_items ds ++ r'
      → (cs ≡ ds) × (r ≡ r')
  print_items_injective nil nil r r' hc hd e = (refl, cc (e))
  print_items_injective nil (cons d ds) r r' hc hd e = absurd (items_end d ds r r' e)
  print_items_injective (cons c cs) nil r r' hc hd e = absurd (items_end c cs r' r (sym e))
  print_items_injective (cons c cs) (cons d ds) r r' hc hd e =
      let (e', same_kind) = item_parts c d cs ds r r' hc.0 hd.0 (tail_of e) in
      let (one, rest) =
        print_injective c d (print_items cs ++ r) (print_items ds ++ r') hc.0 hd.0
          (print_items-IsBreak cs r) (print_items-IsBreak ds r') e' same_kind in
      let (more, ends) = print_items_injective cs ds r r' hc.1 hd.1 rest in (cc (one, more), ends)

  print_obj_injective :
      (ms ns : Named) (r r' : Text)
      → AreMembers ms
      → AreMembers ns
      → print (obj ms) ++ r ≡ print (obj ns) ++ r'
      → (ms ≡ ns) × (r ≡ r')
  print_obj_injective end end r r' hm hn e = (refl, cc (e))
  print_obj_injective end (member t d ns) r r' hm hn e =
      absurd (closed_name t (58 ∷ (print d ++ print_members ns)) r' r (tail_of e))
  print_obj_injective (member s c ms) end r r' hm hn e =
      absurd (closed_name s (58 ∷ (print c ++ print_members ms)) r r' (sym (tail_of e)))
  print_obj_injective (member s c ms) (member t d ns) r r' hm hn e =
      let (names, e', same_kind) = member_parts s t c d ms ns r r' hm.0 hn.0 (tail_of e) in
      let (one, rest) =
        print_injective c d (print_members ms ++ r) (print_members ns ++ r') hm.0 hn.0
          (print_members-IsBreak ms r) (print_members-IsBreak ns r') e' same_kind in
      let (more, ends) = print_members_injective ms ns r r' hm.1 hn.1 rest in
      (cc (names, one, more), ends)

  print_members_injective :
      (ms ns : Named) (r r' : Text)
      → AreMembers ms
      → AreMembers ns
      → print_members ms ++ r ≡ print_members ns ++ r'
      → (ms ≡ ns) × (r ≡ r')
  print_members_injective end end r r' hm hn e = (refl, cc (e))
  print_members_injective end (member t d ns) r r' hm hn e = absurd (members_end t d ns r r' e)
  print_members_injective (member s c ms) end r r' hm hn e =
      absurd (members_end s c ms r' r (sym e))
  print_members_injective (member s c ms) (member t d ns) r r' hm hn e =
      let (names, e', same_kind) = member_parts s t c d ms ns r r' hm.0 hn.0 (tail_of e) in
      let (one, rest) =
        print_injective c d (print_members ms ++ r) (print_members ns ++ r') hm.0 hn.0
          (print_members-IsBreak ms r) (print_members-IsBreak ns r') e' same_kind in
      let (more, ends) = print_members_injective ms ns r r' hm.1 hn.1 rest in
      (cc (names, one, more), ends)
