-- ===== src/Jcs/Tests.antt =====
-- Runs of jcs.py with doubles that are small whole numbers, and the theorems at concrete values.
use acdp_verifier_py.Prelude.{
  ℕ, ◌+◌, ◌-◌, ◌*◌, ◌/◌, ◌%◌, ◌≡◌, refl, [], ◌∷◌, ◌++◌, true, Option, none, some, Text, text, ltb,
  ◌==◌, if◌then◌else◌, ℤ, pos, negsuc, All-append, arith,
}
use acdp_verifier_py.Errors.{ok, raise, value_error}
use acdp_verifier_py.Json.{Json, bool, int, float, str, arr, obj, nil, cons, Fields, end, field}
use acdp_verifier_py.Jcs.Numbers.{
  Doubles, is_number_char, IsNumberText, decimal, shortest_digits, format_digits,
}
use acdp_verifier_py.Jcs.Chars.{decimal-number}
use acdp_verifier_py.Jcs.Serialize.{dumps}
use acdp_verifier_py.Jcs.Lexemes.{format_string_injective}
use acdp_verifier_py.Jcs.Alike.{Alike}
use acdp_verifier_py.Jcs.Determined.{dumps-Alike}
use acdp_verifier_py.Jcs.Ascending.{InOrder, dumps-InOrder}

-- The double 2n is the number n, the double 2n + 1 the number -n; from 2000 on they are infinite.
abbrev pub toy_of_int : ℤ → Option ℕ
toy_of_int (pos n) = if ltb n 1000 then some (2 * n) else none
toy_of_int (negsuc n) = if ltb n 999 then some (2 * n + 3) else none

abbrev pub toy_negate : ℕ → ℕ
toy_negate x = if x % 2 == 0 then x + 1 else x - 1

abbrev pub toy_repr : ℕ → Text
toy_repr x = decimal (x / 2) ++ text ".0"

pub toy_repr-IsNumberText : (x : ℕ) → ltb x 2000 ≡ true → IsNumberText (toy_repr x)
unfolding is_number_char
toy_repr-IsNumberText x h =
    All-append _ (decimal (x / 2)) (text ".0") (decimal-number (x / 2)) (refl, (refl, tt))

pub toy_negate-finite : (x : ℕ) → ltb x 2000 ≡ true → ltb (toy_negate x) 2000 ≡ true
toy_negate-finite x h = ground arith

abbrev pub toy_doubles : Doubles
toy_doubles = record {
  of_int = toy_of_int;
  is_finite = λ x. ltb x 2000;
  is_zero = λ x. x / 2 == 0;
  is_negative = λ x. x % 2 == 1;
  negate = toy_negate;
  repr = toy_repr;
  repr-IsNumberText = toy_repr-IsNumberText;
  negate-finite = toy_negate-finite;
}

instance toy : Doubles
toy = toy_doubles

abbrev sample_members : Fields
sample_members =
    field (text "b") (arr (cons (int (pos 10)) (cons (float 25) (cons (bool true) nil))))
      (field (text "a") (str (10 ∷ 34 ∷ 233 ∷ [])) end)

abbrev sample : Json
sample = obj sample_members

abbrev shuffled : Json
shuffled = obj (
    field (text "a") (str (10 ∷ 34 ∷ 233 ∷ [])) (
      field (text "b") (arr (cons (float 20) (cons (int (negsuc 11)) (cons (bool true) nil)))) end))

abbrev sample_text : Text
sample_text = text "{\"a\":\"\\n\\\"é\",\"b\":[10,-12,true]}"

sample_dumped : dumps sample ≡ ok sample_text
unfolding dumps toy
sample_dumped = refl

shuffled_dumped : dumps shuffled ≡ ok sample_text
unfolding dumps toy
shuffled_dumped = refl

too_large : dumps (int (pos 1000)) ≡ raise value_error
unfolding dumps toy
too_large = refl

exponents : shortest_digits (text "1.25e-07") ≡ ok (text "125", negsuc 5)
unfolding shortest_digits
exponents = refl

small_number : format_digits (text "125") (negsuc 5) ≡ text "1.25e-7"
unfolding format_digits
small_number = refl

large_number : format_digits (text "1") (pos 22) ≡ text "1e+21"
unfolding format_digits
large_number = refl

dumps-InOrder_example : InOrder sample_members sample_text
dumps-InOrder_example = dumps-InOrder sample_members sample_text sample_dumped

dumps-Alike_example : Alike sample shuffled
dumps-Alike_example = dumps-Alike sample shuffled sample_text sample_dumped shuffled_dumped

-- A quotation mark and a backslash, in front of other text.
abbrev quoted : Text
quoted = 34 ∷ 92 ∷ []

format_string_injective_example : (quoted ≡ quoted) × (text ",1" ≡ text ",1")
format_string_injective_example = format_string_injective quoted quoted (text ",1") (text ",1") refl
