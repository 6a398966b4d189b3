-- ===== src/Jcs/Alike.antt =====
-- When two JSON values mean the same to a canonical text, said without the serializer: equal but for
-- the order of members, with numbers in their places that are written alike.
use acdp_verifier_py.Prelude.{◌≡◌, List, [], ◌∷◌, Bool, true, false, Text}
use mathlib.Core.List.{Permᴰ}
use acdp_verifier_py.Errors.{ok}
use acdp_verifier_py.Json.{
  Json, null, bool, int, float, str, arr, obj, Items, nil, cons, Fields, end, field,
}
use acdp_verifier_py.Jcs.Numbers.{Doubles}
use acdp_verifier_py.Jcs.Serialize.{dumps}

unfoldable pub pairs : Fields → List (Text × Json)
pairs end = []
pairs (field name v members) = (name, v) ∷ pairs members

unfoldable pub is_number : Json → Bool
is_number (int n) = true
is_number (float x) = true
is_number _ = false

module _ ⦃d : Doubles⦄ where
  mutual
    pub data Alike : Json → Json → Type 0 where
      nulls : Alike null null
      bools : (b : Bool) → Alike (bool b) (bool b)
      strings : (s : Text) → Alike (str s) (str s)
      numbers :
          (a b : Json) (t : Text)
          → is_number a ≡ true
          → is_number b ≡ true
          → dumps a ≡ ok t
          → dumps b ≡ ok t
          → Alike a b
      arrays : (xs ys : Items) → AlikeItems xs ys → Alike (arr xs) (arr ys)
      objects :
          (ms ns : Fields) (reordered : List (Text × Json))
          → Permᴰ (pairs ms) reordered
          → AlikePairs reordered (pairs ns)
          → Alike (obj ms) (obj ns)

    pub data AlikeItems : Items → Items → Type 0 where
      no_items : AlikeItems nil nil
      each_item :
          (x y : Json) (xs ys : Items)
          → Alike x y
          → AlikeItems xs ys
          → AlikeItems (cons x xs) (cons y ys)

    pub data AlikePairs : List (Text × Json) → List (Text × Json) → Type 0 where
      no_pairs : AlikePairs [] []
      each_pair :
          (name : Text) (v w : Json) (ps qs : List (Text × Json))
          → Alike v w
          → AlikePairs ps qs
          → AlikePairs ((name, v) ∷ ps) ((name, w) ∷ qs)
