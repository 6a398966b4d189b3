-- ===== src/Unicode/Encode.antt =====
-- Both encodings, code point by code point.
use acdp_verifier_py.Prelude.{
  ℕ, ◌+◌, ◌-◌, ◌/◌, ◌%◌, [], ◌∷◌, ◌++◌, Bool, ◌&&◌, Bytes, Text, ltb, leb, if◌then◌else◌, All, ◌<◌,
}
use acdp_verifier_py.Errors.{Result, ok, raise, ◌>>=◌, value_error}

unfoldable pub is_surrogate : ℕ → Bool
is_surrogate c = leb 55296 c && ltb c 57344

-- Python's `str` holds code points below 0x110000.
abbrev pub IsText : Text → Type 0
IsText = All (λ c. c < 1114112)

unfoldable pub utf8_char : ℕ → Bytes
utf8_char c =
    if ltb c 128
    then c ∷ []
    else if ltb c 2048
    then (192 + c / 64) ∷ (128 + c % 64) ∷ []
    else if ltb c 65536
    then (224 + c / 4096) ∷ (128 + c / 64 % 64) ∷ (128 + c % 64) ∷ []
    else (240 + c / 262144) ∷ (128 + c / 4096 % 64) ∷ (128 + c / 64 % 64) ∷ (128 + c % 64) ∷ []

unfoldable pub utf8 : Text → Result Bytes
unfolding is_surrogate utf8_char
utf8 [] = ok []
utf8 (c ∷ cs) =
    if is_surrogate c then raise value_error else do rest ← utf8 cs; ok (utf8_char c ++ rest)

-- The bytes of the one or two code units of a code point.
unfoldable pub utf16_char : ℕ → Bytes
utf16_char c =
    if ltb c 65536
    then (c / 256) ∷ (c % 256) ∷ []
    else (216 + (c - 65536) / 262144)
      ∷ ((c - 65536) / 1024 % 256)
      ∷ (220 + (c - 65536) % 1024 / 256)
      ∷ ((c - 65536) % 256)
      ∷ []

unfoldable pub utf16 : Text → Result Bytes
unfolding is_surrogate utf16_char
utf16 [] = ok []
utf16 (c ∷ cs) =
    if is_surrogate c then raise value_error else do rest ← utf16 cs; ok (utf16_char c ++ rest)
