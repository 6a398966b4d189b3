-- ===== src/Times/Parse.antt =====
-- timeutil.py: the two patterns, `is_canonical_ms`, `is_rfc3339_utc` and `parse_rfc3339`.
use acdp_verifier_py.Prelude.{
  ℕ, ◌+◌, ◌-◌, List, [], ◌∷◌, ◌++◌, Bool, true, false, ◌&&◌, ◌||◌, Text, ◌==◌, length, take, drop,
  replicate,
}
use acdp_verifier_py.Errors.{Result, ok, raise, out_of_fuel, ◌>>=◌, require, value_error}

-- `\d`, `int` on digits, and `strptime` with the microseconds that lead up to the second.
pub record Clock : Type 0 where
  pub is_decimal : ℕ → Bool
  pub int : Text → Result ℕ
  pub strptime : Text → Result ℕ

-- The end of the text, where `$` also stands before a last newline.
unfoldable pub at_end : Text → Bool
at_end [] = true
at_end (c ∷ []) = c == 10
at_end (c ∷ d ∷ cs) = false

-- A character of a pattern.
pub data Piece : Type 0 where
  digit : Piece
  exactly : ℕ → Piece

abbrev pub base_pattern : List Piece
base_pattern =
    digit
    ∷ digit
    ∷ digit
    ∷ digit
    ∷ exactly b'-'
    ∷ digit
    ∷ digit
    ∷ exactly b'-'
    ∷ digit
    ∷ digit
    ∷ exactly b'T'
    ∷ digit
    ∷ digit
    ∷ exactly b':'
    ∷ digit
    ∷ digit
    ∷ exactly b':'
    ∷ digit
    ∷ digit
    ∷ []

module _ ⦃clock : Clock⦄ where
  unfoldable pub fits : Piece → ℕ → Bool
  fits digit c = clock.is_decimal c
  fits (exactly d) c = c == d

  -- Whether the text begins with the pattern and the rest passes the test.
  unfoldable pub match_pieces : List Piece → (Text → Bool) → Text → Bool
  unfolding fits
  match_pieces [] next cs = next cs
  match_pieces (p ∷ ps) next [] = false
  match_pieces (p ∷ ps) next (c ∷ cs) = fits p c && match_pieces ps next cs

  -- `Z$`
  unfoldable pub zulu : Text → Bool
  unfolding at_end
  zulu [] = false
  zulu (c ∷ cs) = c == b'Z' && at_end cs

  -- `\d*Z$`
  unfoldable pub more_digits : Text → Bool
  unfolding zulu
  more_digits [] = false
  more_digits (c ∷ cs) = (clock.is_decimal c && more_digits cs) || zulu (c ∷ cs)

  -- `(\.\d+)?Z$`
  unfoldable pub fraction : Text → Bool
  unfolding zulu more_digits
  fraction [] = false
  fraction (c ∷ []) = zulu (c ∷ [])
  fraction (c ∷ d ∷ cs) = (c == b'.' && (clock.is_decimal d && more_digits cs)) || zulu (c ∷ d ∷ cs)

  -- `CANONICAL_MS_RE.match(value)`
  unfoldable pub matches_canonical_ms : Text → Bool
  unfolding match_pieces zulu
  matches_canonical_ms =
      match_pieces base_pattern (match_pieces (exactly b'.' ∷ digit ∷ digit ∷ digit ∷ []) zulu)

  -- `RFC3339_RE.match(value)`
  unfoldable pub matches_rfc3339 : Text → Bool
  unfolding match_pieces fraction
  matches_rfc3339 = match_pieces base_pattern fraction

  -- The microseconds, from the part between the seconds and the last character.
  unfoldable pub micro_of : Text → Result ℕ
  micro_of [] = ok 0
  micro_of (point ∷ digits) =
      let six = take 6 digits in clock.int (six ++ replicate (6 - length six) 48)

  -- `value[19:-1]`
  unfoldable pub frac_of : Text → Text
  frac_of value = drop 19 (take (length value - 1) value)

  -- The instant, in microseconds.
  unfoldable pub parse_rfc3339 : Text → Result ℕ
  unfolding matches_rfc3339 micro_of frac_of
  parse_rfc3339 value = do
    _ ← require (matches_rfc3339 value) value_error
    micro ← micro_of (frac_of value)
    parsed ← clock.strptime (take 19 value)
    ok (parsed + micro)

  -- `except ValueError: return False`; nothing else is raised.
  unfoldable pub parses : Result ℕ → Bool
  parses (ok instant) = true
  parses (raise e) = false
  parses out_of_fuel = false

  unfoldable pub is_canonical_ms : Text → Bool
  unfolding matches_canonical_ms parses parse_rfc3339
  is_canonical_ms value = matches_canonical_ms value && parses (parse_rfc3339 value)

  unfoldable pub is_rfc3339_utc : Text → Bool
  unfolding matches_rfc3339 parses parse_rfc3339
  is_rfc3339_utc value = matches_rfc3339 value && parses (parse_rfc3339 value)
