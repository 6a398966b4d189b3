-- ===== src/Jcs/Determined.antt =====
-- What one canonical text says of two values.
use acdp_verifier_py.Prelude.{◌≡◌, refl, sym, ap, ◌∙◌, List, [], ◌∷◌, true, Text}
use mathlib.Core.Path.{subst}
use acdp_verifier_py.Errors.{ok, bind_inv}
use acdp_verifier_py.Unicode.Encode.{utf16}
use acdp_verifier_py.Json.{Json, Items, Fields}
use acdp_verifier_py.Jcs.Numbers.{Doubles, format_double, format_int}
use acdp_verifier_py.Jcs.Serialize.{Member, sort_members, dumps}
use acdp_verifier_py.Jcs.Canon.{
  Canon, null, bool, num, str, arr, obj, Canons, to_named, canon, canon_items, canon_members,
}
use acdp_verifier_py.Jcs.Alike.{
  Alike, nulls, bools, strings, numbers, arrays, objects, AlikeItems, no_items, each_item,
  AlikePairs, no_pairs, each_pair, pairs, is_number,
}
use acdp_verifier_py.Jcs.Reordered.{Zip, Zip-Permᴰ, named, sorted_alike-Permᴰ}
use acdp_verifier_py.Jcs.Binding.{dumps_injective, canon_of_dumps}

module _ ⦃d : Doubles⦄ where
  -- The values that one walked form is made from.
  abbrev Origin : Canon → Json → Type 0
  Origin null v = v ≡ Json.null
  Origin (bool b) v = v ≡ Json.bool b
  Origin (num t) v = (is_number v ≡ true) × (dumps v ≡ ok t)
  Origin (str s) v = v ≡ Json.str s
  Origin (arr cs) v = (xs : Items) × (v ≡ Json.arr xs) × (canon_items xs ≡ ok cs)
  Origin (obj ns) v =
      (ms : Fields) × (keyed : List (Member Canon)) × (v ≡ Json.obj ms)
      × (canon_members ms ≡ ok keyed)
      × (to_named (sort_members keyed) ≡ ns)

  origin : (v : Json) (c : Canon) → canon v ≡ ok c → Origin c v
  unfolding canon dumps is_number
  origin Json.null c e = let same : null ≡ c = cc (e) in subst (λ x. Origin x Json.null) same refl
  origin (Json.bool b) c e =
      let same : bool b ≡ c = cc (e) in subst (λ x. Origin x (Json.bool b)) same refl
  origin (Json.int n) c e =
      let (t, made, written) = bind_inv _ (format_int n) e in
      let same : num t ≡ c = cc (made) in subst (λ x. Origin x (Json.int n)) same (refl, written)
  origin (Json.float x) c e =
      let (t, made, written) = bind_inv _ (format_double x) e in
      let same : num t ≡ c = cc (made) in subst (λ y. Origin y (Json.float x)) same (refl, written)
  origin (Json.str s) c e =
      let same : str s ≡ c = cc (e) in subst (λ x. Origin x (Json.str s)) same refl
  origin (Json.arr xs) c e =
      let (cs, made, walked) = bind_inv _ (canon_items xs) e in
      let same : arr cs ≡ c = cc (made) in
      subst (λ x. Origin x (Json.arr xs)) same (xs, refl, walked)
  origin (Json.obj ms) c e =
      let (keyed, made, walked) = bind_inv _ (canon_members ms) e in
      let same : obj (to_named (sort_members keyed)) ≡ c = cc (made) in
      subst (λ x. Origin x (Json.obj ms)) same (ms, keyed, refl, walked, refl)

  -- A member of the one object and of the other, with what their values have in common.
  abbrev Ready : Text × Json → Text × Canon → Type 0
  Ready p q = (p.0 ≡ q.0) × ((w : Json) → canon w ≡ ok q.1 → Alike p.1 w)

  abbrev Made : Text × Json → Text × Canon → Type 0
  Made p q = (p.0 ≡ q.0) × (canon p.1 ≡ ok q.1)

  canon_members-Made :
      (ms : Fields) (keyed : List (Member Canon))
      → canon_members ms ≡ ok keyed
      → Zip Made (pairs ms) (named keyed)
  unfolding canon pairs
  canon_members-Made Fields.end keyed e =
      let same : [] ≡ keyed = cc (e) in subst (λ k. Zip Made [] (named k)) same tt
  canon_members-Made (Fields.field name v ms) keyed e =
      let (key, e₁, _) = bind_inv _ (utf16 name) e in
      let (one, e₂, first) = bind_inv _ (canon v) e₁ in
      let (more, e₃, rest) = bind_inv _ (canon_members ms) e₂ in
      let same : record { key = key; name = name; value = one } ∷ more ≡ keyed = cc (e₃) in
      subst (λ k. Zip Made (pairs (Fields.field name v ms)) (named k)) same
        ((refl, first), canon_members-Made ms more rest)

  joined :
      (ps qs : List (Text × Json)) (cs : List (Text × Canon))
      → Zip Ready ps cs
      → Zip Made qs cs
      → AlikePairs ps qs
  joined [] [] [] z z' = no_pairs
  joined ((n, v) ∷ ps) ((m, w) ∷ qs) (c ∷ cs) z z' =
      let same : n ≡ m = z.0.0 ∙ sym z'.0.0 in
      subst (λ x. AlikePairs ((n, v) ∷ ps) ((x, w) ∷ qs)) same
        (each_pair n v w ps qs (z.0.1 w z'.0.1) (joined ps qs cs z.1 z'.1))
  joined [] [] (c ∷ cs) z z' = absurd z
  joined [] (q ∷ qs) [] z z' = absurd z'
  joined [] (q ∷ qs) (c ∷ cs) z z' = absurd z
  joined (p ∷ ps) [] [] z z' = absurd z
  joined (p ∷ ps) [] (c ∷ cs) z z' = absurd z'
  joined (p ∷ ps) (q ∷ qs) [] z z' = absurd z

  mutual
    unfolding canon pairs dumps is_number

    alike : (a : Json) (c : Canon) → canon a ≡ ok c → (b : Json) → canon b ≡ ok c → Alike a b
    alike Json.null c e b e' =
        let same : null ≡ c = cc (e) in
        let from = origin b null (e' ∙ ap ok (sym same)) in rw from nulls
    alike (Json.bool x) c e b e' =
        let same : bool x ≡ c = cc (e) in
        let from = origin b (bool x) (e' ∙ ap ok (sym same)) in rw from (bools x)
    alike (Json.int n) c e b e' =
        let (t, made, written) = bind_inv _ (format_int n) e in
        let same : num t ≡ c = cc (made) in
        let from = origin b (num t) (e' ∙ ap ok (sym same)) in
        numbers (Json.int n) b t refl from.0 written from.1
    alike (Json.float x) c e b e' =
        let (t, made, written) = bind_inv _ (format_double x) e in
        let same : num t ≡ c = cc (made) in
        let from = origin b (num t) (e' ∙ ap ok (sym same)) in
        numbers (Json.float x) b t refl from.0 written from.1
    alike (Json.str s) c e b e' =
        let same : str s ≡ c = cc (e) in
        let from = origin b (str s) (e' ∙ ap ok (sym same)) in rw from (strings s)
    alike (Json.arr xs) c e b e' =
        let (cs, made, walked) = bind_inv _ (canon_items xs) e in
        let same : arr cs ≡ c = cc (made) in
        let (ys, is_arr, other) = origin b (arr cs) (e' ∙ ap ok (sym same)) in
        rw is_arr (arrays xs ys (alike_items xs cs walked ys other))
    alike (Json.obj ms) c e b e' =
        let (keyed, made, walked) = bind_inv _ (canon_members ms) e in
        let same : obj (to_named (sort_members keyed)) ≡ c = cc (made) in
        let (ns, other, is_obj, walked', sorted) =
          origin b (obj (to_named (sort_members keyed))) (e' ∙ ap ok (sym same)) in
        let (via, perm, ready) =
          Zip-Permᴰ Ready (pairs ms) (canon_members-Ready ms keyed walked)
            (sorted_alike-Permᴰ keyed other (sym sorted)) in
        rw is_obj (
          objects ms ns via perm
            (joined via (pairs ns) (named other) ready (canon_members-Made ns other walked')))

    alike_items :
        (xs : Items) (cs : Canons)
        → canon_items xs ≡ ok cs
        → (ys : Items) → canon_items ys ≡ ok cs
        → AlikeItems xs ys
    alike_items Items.nil cs e Items.nil e' = no_items
    alike_items Items.nil cs e (Items.cons y ys) e' =
        let (one, e₁, _) = bind_inv _ (canon y) e' in
        let (more, e₂, _) = bind_inv _ (canon_items ys) e₁ in cc (e, e₂)
    alike_items (Items.cons x xs) cs e Items.nil e' =
        let (one, e₁, _) = bind_inv _ (canon x) e in
        let (more, e₂, _) = bind_inv _ (canon_items xs) e₁ in cc (e', e₂)
    alike_items (Items.cons x xs) cs e (Items.cons y ys) e' =
        let (one, e₁, first) = bind_inv _ (canon x) e in
        let (more, e₂, rest) = bind_inv _ (canon_items xs) e₁ in
        let (one', e₁', first') = bind_inv _ (canon y) e' in
        let (more', e₂', rest') = bind_inv _ (canon_items ys) e₁' in
        let head : one' ≡ one = cc (e₂, e₂') in
        let tail : more' ≡ more = cc (e₂, e₂') in
        each_item x y xs ys (alike x one first y (first' ∙ ap ok head))
          (alike_items xs more rest ys (rest' ∙ ap ok tail))

    canon_members-Ready :
        (ms : Fields) (keyed : List (Member Canon))
        → canon_members ms ≡ ok keyed
        → Zip Ready (pairs ms) (named keyed)
    canon_members-Ready Fields.end keyed e =
        let same : [] ≡ keyed = cc (e) in subst (λ k. Zip Ready [] (named k)) same tt
    canon_members-Ready (Fields.field name v ms) keyed e =
        let (key, e₁, _) = bind_inv _ (utf16 name) e in
        let (one, e₂, first) = bind_inv _ (canon v) e₁ in
        let (more, e₃, rest) = bind_inv _ (canon_members ms) e₂ in
        let same : record { key = key; name = name; value = one } ∷ more ≡ keyed = cc (e₃) in
        subst (λ k. Zip Ready (pairs (Fields.field name v ms)) (named k)) same
          ((refl, alike v one first), canon_members-Ready ms more rest)

  -- Two values that `dumps` writes as one text are equal but for the order of the members of their
  -- objects, and but for numbers: where the one has a number the other has one with the same text.
  pub dumps-Alike : (a b : Json) (s : Text) → dumps a ≡ ok s → dumps b ≡ ok s → Alike a b
  dumps-Alike a b s ea eb =
      let (c, made) = canon_of_dumps a s ea in
      alike a c made b (sym (dumps_injective a b s ea eb) ∙ made)
