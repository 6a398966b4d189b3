-- ===== src/Base58/Codec.antt =====
-- base58.py: `b58encode` and `b58decode`.
use acdp_verifier_py.Prelude.{
  ℕ, zero, suc, ◌+◌, ◌*◌, ◌/◌, ◌%◌, List, [], ◌∷◌, ◌++◌, reverse, Option, none, some, ◌==◌,
  if◌then◌else◌, get_elem?, replicate, Bytes, Text, text, bit_length,
}
use acdp_verifier_py.Errors.{Result, ok, raise, ◌>>=◌, value_error}

abbrev pub alphabet : Text
alphabet = text "123456789ABCDEFGHJKLMNPQRSTUVWXYZabcdefghijkmnopqrstuvwxyz"

-- `ALPHABET[rem]`, at remainders below 58.
unfoldable pub alphabet_at : ℕ → ℕ
alphabet_at rem = elim (get_elem? alphabet rem) [ some ch ↦ ch | none ↦ 0 ]

unfoldable pub index_from : ℕ → ℕ → Text → Option ℕ
index_from i ch [] = none
index_from i ch (x ∷ xs) = if x == ch then some i else index_from (suc i) ch xs

-- `_INDEX.get(ch)`
unfoldable pub index_of : ℕ → Option ℕ
unfolding index_from
index_of ch = index_from 0 ch alphabet

-- `int.from_bytes(data, "big")`
unfoldable pub from_bytes : ℕ → Bytes → ℕ
from_bytes num [] = num
from_bytes num (b ∷ bs) = from_bytes (num * 256 + b) bs

-- `while num > 0: num, rem = divmod(num, 58); out.append(ALPHABET[rem])`, on fuel.
unfoldable pub encode_digits : ℕ → ℕ → Text
unfolding alphabet_at
encode_digits zero num = []
encode_digits (suc f) num =
    let rest = encode_digits f (num / 58) in if num == 0 then [] else alphabet_at (num % 58) ∷ rest

-- How many items at the front are `x`.
unfoldable pub leading : ℕ → List ℕ → ℕ
leading x [] = 0
leading x (y ∷ ys) = if y == x then suc (leading x ys) else 0

unfoldable pub b58encode : Bytes → Text
unfolding from_bytes encode_digits leading
b58encode octets =
    let num = from_bytes 0 octets in
    reverse (encode_digits num num ++ replicate (leading 0 octets) (alphabet_at 0))

-- The first loop of `b58decode`.
unfoldable pub decode_digits : ℕ → Text → Result ℕ
unfolding index_of
decode_digits num [] = ok num
decode_digits num (ch ∷ chars) = elim (index_of ch) [
  | none ↦ raise value_error
  | some idx ↦ decode_digits (num * 58 + idx) chars
]

-- `num.to_bytes(length, "big")`, before the bytes `rest`.
unfoldable pub to_bytes : ℕ → ℕ → Bytes → Bytes
to_bytes zero num rest = rest
to_bytes (suc length) num rest = to_bytes length (num / 256) (num % 256 ∷ rest)

unfoldable pub b58decode : Text → Result Bytes
unfolding decode_digits leading bit_length to_bytes alphabet_at
b58decode chars = do
  num ← decode_digits 0 chars
  let body = if num == 0 then [] else to_bytes ((bit_length num num + 7) / 8) num []
  ok (replicate (leading (alphabet_at 0) chars) 0 ++ body)
