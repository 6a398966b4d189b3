-- ===== src/Times/Tests.antt =====
-- Runs of timeutil.py on a clock that only reads the seconds.
use acdp_verifier_py.Prelude.{
  ℕ, ◌+◌, ◌-◌, ◌*◌, ◌≡◌, refl, [], ◌∷◌, ◌++◌, true, ◌&&◌, Text, text, leb, drop,
}
use acdp_verifier_py.Errors.{ok, raise, value_error}
use acdp_verifier_py.Times.Parse.{Clock, is_canonical_ms, is_rfc3339_utc, parse_rfc3339}

abbrev pub toy_int : ℕ → Text → ℕ
toy_int n [] = n
toy_int n (c ∷ cs) = toy_int (n * 10 + (c - 48)) cs

-- The seconds of a timestamp, in microseconds.
abbrev pub toy_clock : Clock
toy_clock = record {
  is_decimal = λ c. leb 48 c && leb c 57;
  int = λ t. ok (toy_int 0 t);
  strptime = λ t. ok (toy_int 0 (drop 17 t) * 1000000);
}

instance seconds_clock : Clock
seconds_clock = toy_clock

abbrev stamp : Text
stamp = text "2026-07-01T00:00:05.250Z"

stamp_parsed : parse_rfc3339 stamp ≡ ok 5250000
unfolding parse_rfc3339 seconds_clock
stamp_parsed = refl

long_fraction : parse_rfc3339 (text "2026-07-01T00:00:05.1234567Z") ≡ ok 5123456
unfolding parse_rfc3339 seconds_clock
long_fraction = refl

no_offset : parse_rfc3339 (text "2026-07-01T00:00:05+01") ≡ raise value_error
unfolding parse_rfc3339 seconds_clock
no_offset = refl

-- A newline behind the `Z` passes the pattern of the accepted form.
newline_accepted : is_rfc3339_utc (text "2026-07-01T00:00:05Z" ++ 10 ∷ []) ≡ true
unfolding is_rfc3339_utc seconds_clock
newline_accepted = refl

stamp_canonical : is_canonical_ms stamp ≡ true
unfolding is_canonical_ms seconds_clock
stamp_canonical = refl
