-- ===== src/Jcs/Lexemes.antt =====
-- Where a string and a number end in a canonical text.
use acdp_verifier_py.Prelude.{
  ℕ, ◌+◌, ◌-◌, ◌*◌, ◌≡◌, ◌≢◌, refl, sym, ◌∙◌, [], ◌∷◌, ◌++◌, false, Text, ltb, ◌==◌, if◌then◌else◌,
  arith, append_assoc,
}
use acdp_verifier_py.Jcs.Numbers.{is_number_char, IsNumberText}
use acdp_verifier_py.Jcs.Strings.{escape_char, escape, format_string}

-- Reads one character of a string off the front.
unhex : ℕ → ℕ
unhex c = if ltb c 58 then c - 48 else c - 87

named_char : ℕ → ℕ
named_char c =
    if c == b'b'
    then 8
    else if c == b't'
    then 9
    else if c == b'n'
    then 10
    else if c == b'f'
    then 12
    else if c == b'r'
    then 13
    else c

read_escape : Text → ℕ × Text
unfolding unhex named_char
read_escape (c ∷ e ∷ u₁ ∷ u₂ ∷ a ∷ b ∷ rest) =
    if c == 92
    then (if e == b'u'
        then (16 * unhex a + unhex b, rest)
        else (named_char e, u₁ ∷ u₂ ∷ a ∷ b ∷ rest))
    else (c, e ∷ u₁ ∷ u₂ ∷ a ∷ b ∷ rest)
read_escape (c ∷ e ∷ rest) = if c == 92 then (named_char e, rest) else (c, e ∷ rest)
read_escape (c ∷ []) = (c, [])
read_escape [] = (0, [])

read_escape-escape_char : (c : ℕ) (rest : Text) → read_escape (escape_char c ++ rest) ≡ (c, rest)
unfolding read_escape escape_char
read_escape-escape_char c [] = ground arith
read_escape-escape_char c (w ∷ []) = ground arith
read_escape-escape_char c (w ∷ x ∷ []) = ground arith
read_escape-escape_char c (w ∷ x ∷ y ∷ []) = ground arith
read_escape-escape_char c (w ∷ x ∷ y ∷ z ∷ []) = ground arith
read_escape-escape_char c (w ∷ x ∷ y ∷ z ∷ v ∷ rest) = ground arith

escape_char-no_quote : (c : ℕ) (rest tail : Text) → escape_char c ++ rest ≢ 34 ∷ tail
unfolding escape_char
escape_char-no_quote c rest tail e = ground (arith, e)

escape_injective :
    (s t r r' : Text) → escape s ++ (34 ∷ r) ≡ escape t ++ (34 ∷ r') → (s ≡ t) × (r ≡ r')
unfolding escape
escape_injective [] [] r r' e = (refl, cc (e))
escape_injective [] (d ∷ ds) r r' e = absurd (
    escape_char-no_quote d (escape ds ++ (34 ∷ r')) r
      (sym (append_assoc (escape_char d) (escape ds) (34 ∷ r')) ∙ sym e))
escape_injective (c ∷ cs) [] r r' e = absurd (
    escape_char-no_quote c (escape cs ++ (34 ∷ r)) r'
      (sym (append_assoc (escape_char c) (escape cs) (34 ∷ r)) ∙ e))
escape_injective (c ∷ cs) (d ∷ ds) r r' e =
    let e' =
      sym (append_assoc (escape_char c) (escape cs) (34 ∷ r))
      ∙ e
      ∙ append_assoc (escape_char d) (escape ds) (34 ∷ r') in
    let one = read_escape-escape_char c (escape cs ++ (34 ∷ r)) in
    let other = read_escape-escape_char d (escape ds ++ (34 ∷ r')) in
    let same : c ≡ d = cc (one, other, e') in
    let rest : escape cs ++ (34 ∷ r) ≡ escape ds ++ (34 ∷ r') = cc (one, other, e') in
    let (tails, ends) = escape_injective cs ds r r' rest in (cc (same, tails), ends)

-- A written string determines the string and where it ends, whatever stands behind it.
pub format_string_injective :
    (s t r r' : Text) → format_string s ++ r ≡ format_string t ++ r' → (s ≡ t) × (r ≡ r')
unfolding format_string
format_string_injective s t r r' e =
    escape_injective s t r r'
      (sym (append_assoc (escape s) (34 ∷ []) r) ∙ tail_of e ∙ append_assoc (escape t) (34 ∷ []) r')
  where
    tail_of : {c : ℕ} {x y : Text} → c ∷ x ≡ c ∷ y → x ≡ y
    tail_of e = cc (e)

-- What may follow a number: nothing, or a character that no number has.
abbrev pub IsBreak : Text → Type 0
IsBreak [] = Unit
IsBreak (c ∷ cs) = is_number_char c ≡ false

pub number_injective :
    (s t r r' : Text)
    → IsNumberText s
    → IsNumberText t
    → IsBreak r
    → IsBreak r'
    → s ++ r ≡ t ++ r'
    → (s ≡ t) × (r ≡ r')
number_injective [] [] r r' hs ht br br' e = (refl, e)
number_injective [] (d ∷ ds) [] r' hs ht br br' e = cc (e)
number_injective [] (d ∷ ds) (c ∷ r) r' hs ht br br' e = cc (e, br, ht.0)
number_injective (c ∷ cs) [] r [] hs ht br br' e = cc (e)
number_injective (c ∷ cs) [] r (d ∷ r') hs ht br br' e = cc (e, br', hs.0)
number_injective (c ∷ cs) (d ∷ ds) r r' hs ht br br' e =
    let (same, ends) = number_injective cs ds r r' hs.1 ht.1 br br' (cc (e)) in (cc (same, e), ends)
