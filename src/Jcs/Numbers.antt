-- ===== src/Jcs/Numbers.antt =====
-- jcs.py: `format_number` and `_shortest_digits`. What Python does with its doubles is a parameter.
use acdp_verifier_py.Prelude.{
  ℕ, zero, suc, ◌+◌, ◌-◌, ◌*◌, ◌/◌, ◌%◌, ◌≡◌, not, [], ◌∷◌, ◌++◌, map, reverse, Bool, true, false,
  ◌&&◌, ◌||◌, Option, none, some, Text, text, partition, ltb, leb, ◌==◌, if◌then◌else◌, ℤ, pos,
  negsuc, ◌+ℤ◌, ◌-ℤ◌, length, take, drop, replicate, All,
}
use acdp_verifier_py.Errors.{Result, ok, raise, ◌>>=◌, value_error}

-- The characters that `repr` of a finite double is made of, and the texts of JSON numbers.
unfoldable pub is_number_char : ℕ → Bool
is_number_char c =
    (leb 48 c && leb c 57) || (c == 45 || (c == 43 || (c == 46 || (c == 101 || c == 69))))

abbrev pub IsNumberText : Text → Type 0
IsNumberText = All (λ c. is_number_char c ≡ true)

-- Doubles, by their bits: `float(n)` with none for an OverflowError, `math.isfinite`, comparison with
-- zero, the sign, and `repr`.
-- No law ties `repr` to the double: what the number is that a text stands for is left open.
pub record Doubles : Type 0 where
  pub of_int : ℤ → Option ℕ
  pub is_finite : ℕ → Bool
  pub is_zero : ℕ → Bool
  pub is_negative : ℕ → Bool
  pub negate : ℕ → ℕ
  pub repr : ℕ → Text
  pub repr-IsNumberText : (d : ℕ) → is_finite d ≡ true → IsNumberText (repr d)
  pub negate-finite : (d : ℕ) → is_finite d ≡ true → is_finite (negate d) ≡ true

-- `str(n)`, before the text `rest`, on fuel
unfoldable pub decimal_onto : ℕ → ℕ → Text → Text
decimal_onto zero n rest = rest
decimal_onto (suc f) n rest =
    let more = decimal_onto f (n / 10) ((48 + n % 10) ∷ rest) in
    if ltb n 10 then (48 + n) ∷ rest else more

unfoldable pub decimal : ℕ → Text
unfolding decimal_onto
decimal n = decimal_onto (suc n) n []

-- `int(digits)`, after the number `n`
unfoldable pub read_digits : ℕ → Text → Result ℕ
read_digits n [] = ok n
read_digits n (c ∷ cs) =
    if leb 48 c && leb c 57 then read_digits (n * 10 + (c - 48)) cs else raise value_error

unfoldable pub negated : ℕ → ℤ
negated zero = pos 0
negated (suc n) = negsuc n

-- `int(digits)` on at least one digit
unfoldable pub unsigned : Text → (ℕ → ℤ) → Result ℤ
unfolding read_digits
unsigned [] sign = raise value_error
unsigned (d ∷ ds) sign = read_digits 0 (d ∷ ds) >>= λ n. ok (sign n)

-- `int(text)` on a sign and digits
unfoldable pub int_of_text : Text → Result ℤ
unfolding unsigned negated
int_of_text [] = raise value_error
int_of_text (c ∷ cs) =
    if c == 45
    then unsigned cs negated
    else if c == 43
    then unsigned cs pos
    else unsigned (c ∷ cs) pos

unfoldable pub contains : ℕ → Text → Bool
contains c [] = false
contains c (x ∷ xs) = x == c || contains c xs

-- `text.lower()` on the one letter that occurs
unfoldable pub lower_e : ℕ → ℕ
lower_e c = if c == 69 then 101 else c

-- `text.lstrip("0")`
unfoldable pub lstrip : Text → Text
lstrip [] = []
lstrip (c ∷ cs) = if c == 48 then lstrip cs else c ∷ cs

-- `text.rstrip("0")`
unfoldable pub rstrip : Text → Text
unfolding lstrip
rstrip cs = reverse (lstrip (reverse cs))

-- The mantissa and the exponent of a number's text.
unfoldable pub split_exponent : Text → Result (Text × ℤ)
unfolding contains lower_e partition int_of_text
split_exponent chars =
    if contains 101 chars || contains 69 chars
    then (let parts = partition 101 (map lower_e chars) in
        do exp ← int_of_text parts.after; ok (parts.before, exp))
    else ok (chars, pos 0)

-- `if not digits: raise`
unfoldable pub some_digits : Text → ℤ → Result (Text × ℤ)
some_digits [] n = raise value_error
some_digits (c ∷ cs) n = ok (c ∷ cs, n)

-- What remains of `_shortest_digits` after the split.
unfoldable pub strip_digits : Text → Text → ℤ → Result (Text × ℤ)
unfolding lstrip rstrip some_digits ◌+ℤ◌ ◌-ℤ◌
strip_digits int_part frac_part exp =
    let digits = int_part ++ frac_part in
    let stripped = lstrip digits in
    let n = pos (length int_part) +ℤ exp -ℤ pos (length digits - length stripped) in
    some_digits (rstrip stripped) n

-- `"." in mantissa` with the parts on both sides; without a point the second is empty.
unfoldable pub shortest_digits : Text → Result (Text × ℤ)
unfolding split_exponent partition strip_digits
shortest_digits repr = do
  (mantissa, exp) ← split_exponent repr
  let parts = partition 46 mantissa
  strip_digits parts.before parts.after exp

-- `digits` or `d.igits`
unfoldable pub one_point : Text → Text
one_point [] = []
one_point (d ∷ []) = d ∷ []
one_point (d ∷ e ∷ ds) = d ∷ 46 ∷ e ∷ ds

unfoldable pub exp_str : ℤ → Text
unfolding decimal
exp_str (pos e) = text "e+" ++ decimal e
exp_str (negsuc e) = text "e-" ++ decimal (suc e)

unfoldable pub exponential : Text → ℤ → Text
unfolding one_point exp_str
exponential digits exponent = one_point digits ++ exp_str exponent

-- `body` in `format_number`, for 0.digits * 10 ** n.
unfoldable pub format_digits : Text → ℤ → Text
unfolding exponential
format_digits digits (pos n) =
    if leb (length digits) n && leb n 21
    then digits ++ replicate (n - length digits) 48
    else if ltb 0 n && leb n 21
    then take n digits ++ 46 ∷ drop n digits
    else if n == 0
    then text "0." ++ digits
    else exponential digits (pos (n - 1))
format_digits digits (negsuc m) =
    if ltb (suc m) 6
    then text "0." ++ replicate (suc m) 48 ++ digits
    else exponential digits (negsuc (suc m))

module _ ⦃d : Doubles⦄ where
  unfoldable pub format_double : ℕ → Result Text
  unfolding shortest_digits format_digits
  format_double value =
      if not (d.is_finite value)
      then raise value_error
      else if d.is_zero value
      then ok (text "0")
      else do
        (digits, n) ←
            shortest_digits (d.repr (if d.is_negative value then d.negate value else value))
        let body = format_digits digits n
        ok (if d.is_negative value then 45 ∷ body else body)

  unfoldable pub format_int : ℤ → Result Text
  unfolding format_double
  format_int value = elim (d.of_int value) [
    | none ↦ raise value_error
    | some as_float ↦ format_double as_float
  ]
