-- ===== src/Jcs/Strings.antt =====
-- jcs.py: `_format_string`.
use acdp_verifier_py.Prelude.{
  ℕ, ◌+◌, ◌/◌, ◌%◌, [], ◌∷◌, ◌++◌, Option, none, some, Text, ltb, ◌==◌, if◌then◌else◌,
}

-- The letter after the backslash in `_NAMED_ESCAPES`.
unfoldable pub named_escape : ℕ → Option ℕ
named_escape c =
    if c == 8
    then some b'b'
    else if c == 9
    then some b't'
    else if c == 10
    then some b'n'
    else if c == 12
    then some b'f'
    else if c == 13
    then some b'r'
    else if c == 34
    then some 34
    else if c == 92
    then some 92
    else none

-- A digit of `f"{code:04x}"`
unfoldable pub hex_digit : ℕ → ℕ
hex_digit d = if ltb d 10 then 48 + d else 87 + d

unfoldable pub escape_char : ℕ → Text
unfolding named_escape hex_digit
escape_char c = elim (named_escape c) [
  | some letter ↦ 92 ∷ letter ∷ []
  | none ↦
      if ltb c 32
      then 92 ∷ b'u' ∷ 48 ∷ 48 ∷ hex_digit (c / 16) ∷ hex_digit (c % 16) ∷ []
      else c ∷ []
]

unfoldable pub escape : Text → Text
unfolding escape_char
escape [] = []
escape (c ∷ cs) = escape_char c ++ escape cs

unfoldable pub format_string : Text → Text
unfolding escape
format_string value = 34 ∷ escape value ++ 34 ∷ []
