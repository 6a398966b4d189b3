-- ===== src/Jcs/Kinds.antt =====
-- Canonical forms whose numbers are numbers, and what the first character of a text tells.
use acdp_verifier_py.Prelude.{
  ℕ, ◌≡◌, refl, [], ◌∷◌, ◌++◌, true, false, Text, ◌==◌, if◌then◌else◌, arith,
}
use acdp_verifier_py.Jcs.Numbers.{is_number_char}
use acdp_verifier_py.Jcs.Strings.{format_string}
use acdp_verifier_py.Jcs.Chars.{IsNumber}
use acdp_verifier_py.Jcs.Canon.{
  Canon, null, bool, num, str, arr, obj, Canons, nil, cons, Named, end, member, print,
}

-- Numbers inside are the texts of numbers.
unfoldable mutual
  pub IsCanon : Canon → Type 0
  IsCanon null = Unit
  IsCanon (bool b) = Unit
  IsCanon (num t) = IsNumber t
  IsCanon (str s) = Unit
  IsCanon (arr cs) = AreCanon cs
  IsCanon (obj ms) = AreMembers ms

  pub AreCanon : Canons → Type 0
  AreCanon nil = Unit
  AreCanon (cons c cs) = IsCanon c × AreCanon cs

  pub AreMembers : Named → Type 0
  AreMembers end = Unit
  AreMembers (member name c ms) = IsCanon c × AreMembers ms

-- The first character tells what kind of value is written.
abbrev pub char_kind : ℕ → ℕ
char_kind c =
    if c == b'n'
    then 0
    else if c == b't'
    then 1
    else if c == b'f'
    then 2
    else if c == 34
    then 4
    else if c == 91
    then 5
    else if c == 123
    then 6
    else if is_number_char c
    then 3
    else 7

abbrev pub text_kind : Text → ℕ
text_kind [] = 7
text_kind (c ∷ cs) = char_kind c

abbrev pub kind : Canon → ℕ
kind null = 0
kind (bool true) = 1
kind (bool false) = 2
kind (num t) = 3
kind (str s) = 4
kind (arr cs) = 5
kind (obj ms) = 6

-- A value of a kind.
pub null_kind : (b : Canon) → kind b ≡ 0 → b ≡ null
null_kind null k = refl
null_kind (bool true) k = absurd (omega (arith, k))
null_kind (bool false) k = absurd (omega (arith, k))
null_kind (num t) k = absurd (omega (arith, k))
null_kind (str t) k = absurd (omega (arith, k))
null_kind (arr cs) k = absurd (omega (arith, k))
null_kind (obj ms) k = absurd (omega (arith, k))

pub true_kind : (b : Canon) → kind b ≡ 1 → b ≡ bool true
true_kind null k = absurd (omega (arith, k))
true_kind (bool true) k = refl
true_kind (bool false) k = absurd (omega (arith, k))
true_kind (num t) k = absurd (omega (arith, k))
true_kind (str t) k = absurd (omega (arith, k))
true_kind (arr cs) k = absurd (omega (arith, k))
true_kind (obj ms) k = absurd (omega (arith, k))

pub false_kind : (b : Canon) → kind b ≡ 2 → b ≡ bool false
false_kind null k = absurd (omega (arith, k))
false_kind (bool true) k = absurd (omega (arith, k))
false_kind (bool false) k = refl
false_kind (num t) k = absurd (omega (arith, k))
false_kind (str t) k = absurd (omega (arith, k))
false_kind (arr cs) k = absurd (omega (arith, k))
false_kind (obj ms) k = absurd (omega (arith, k))

pub num_kind : (b : Canon) → kind b ≡ 3 → (x : Text) × (b ≡ num x)
num_kind null k = absurd (omega (arith, k))
num_kind (bool true) k = absurd (omega (arith, k))
num_kind (bool false) k = absurd (omega (arith, k))
num_kind (num t) k = (t, refl)
num_kind (str t) k = absurd (omega (arith, k))
num_kind (arr cs) k = absurd (omega (arith, k))
num_kind (obj ms) k = absurd (omega (arith, k))

pub str_kind : (b : Canon) → kind b ≡ 4 → (x : Text) × (b ≡ str x)
str_kind null k = absurd (omega (arith, k))
str_kind (bool true) k = absurd (omega (arith, k))
str_kind (bool false) k = absurd (omega (arith, k))
str_kind (num t) k = absurd (omega (arith, k))
str_kind (str t) k = (t, refl)
str_kind (arr cs) k = absurd (omega (arith, k))
str_kind (obj ms) k = absurd (omega (arith, k))

pub arr_kind : (b : Canon) → kind b ≡ 5 → (x : Canons) × (b ≡ arr x)
arr_kind null k = absurd (omega (arith, k))
arr_kind (bool true) k = absurd (omega (arith, k))
arr_kind (bool false) k = absurd (omega (arith, k))
arr_kind (num t) k = absurd (omega (arith, k))
arr_kind (str t) k = absurd (omega (arith, k))
arr_kind (arr cs) k = (cs, refl)
arr_kind (obj ms) k = absurd (omega (arith, k))

pub obj_kind : (b : Canon) → kind b ≡ 6 → (x : Named) × (b ≡ obj x)
obj_kind null k = absurd (omega (arith, k))
obj_kind (bool true) k = absurd (omega (arith, k))
obj_kind (bool false) k = absurd (omega (arith, k))
obj_kind (num t) k = absurd (omega (arith, k))
obj_kind (str t) k = absurd (omega (arith, k))
obj_kind (arr cs) k = absurd (omega (arith, k))
obj_kind (obj ms) k = (ms, refl)

text_kind-number : (t r : Text) → IsNumber t → text_kind (t ++ r) ≡ 3
unfolding is_number_char
text_kind-number [] r h = absurd h.0
text_kind-number (c ∷ t) r h = ground (arith, h.1.0)

pub text_kind-print : (c : Canon) (r : Text) → IsCanon c → text_kind (print c ++ r) ≡ kind c
unfolding print format_string is_number_char IsCanon
text_kind-print null r h = refl
text_kind-print (bool true) r h = refl
text_kind-print (bool false) r h = refl
text_kind-print (num t) r h = text_kind-number t r h
text_kind-print (str s) r h = refl
text_kind-print (arr nil) r h = refl
text_kind-print (arr (cons c cs)) r h = refl
text_kind-print (obj end) r h = refl
text_kind-print (obj (member name c ms)) r h = refl

pub tail_of : {c d : ℕ} {x y : Text} → c ∷ x ≡ d ∷ y → x ≡ y
tail_of e = cc (e)
