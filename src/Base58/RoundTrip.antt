-- ===== src/Base58/RoundTrip.antt =====
-- base58.py: the round trips of `b58encode` and `b58decode`.
use acdp_verifier_py.Prelude.{
  ℕ, zero, suc, ◌+◌, ◌*◌, ◌/◌, ◌<◌, ◌≡◌, refl, sym, ap, ◌∙◌, inl, inr, List, [], ◌∷◌, reverse, map,
  arith, replicate, some, ◌==◌, Bytes, IsBytes, Text, Bool-cases, Option-cases,
}
use mathlib.Core.List.{reverse-cons, reverse-append, map-append}
use acdp_verifier_py.Errors.{ok, Result-cases}
use acdp_verifier_py.Base58.Codec.{
  alphabet_at, index_of, from_bytes, encode_digits, leading, b58encode, decode_digits, b58decode,
}
use acdp_verifier_py.Base58.Numeral.{le_digits, IsDigits, numeral, be_value}
use acdp_verifier_py.Base58.Parse.{
  be_value-numeral, leading-numeral, numeral-parse, reverse-replicate, numeral-IsDigits,
}
use acdp_verifier_py.Base58.Alphabet.{index_of-alphabet_at, alphabet_at-index_of}
use acdp_verifier_py.Base58.ToBytes.{to_bytes_lem}

from_bytes-be_value : (n : ℕ) (bs : Bytes) → from_bytes n bs ≡ be_value 256 n bs
unfolding from_bytes be_value
from_bytes-be_value n [] = refl
from_bytes-be_value n (b ∷ bs) = from_bytes-be_value (n * 256 + b) bs

encode_digits-le_digits : (f n : ℕ) → encode_digits f n ≡ map alphabet_at (le_digits 58 f n)
unfolding encode_digits le_digits
encode_digits-le_digits zero n = refl
encode_digits-le_digits (suc f) zero = refl
encode_digits-le_digits (suc f) (suc n) = ground (arith, encode_digits-le_digits f (suc n / 58))

map-reverse : (f : ℕ → ℕ) (xs : List ℕ) → map f (reverse xs) ≡ reverse (map f xs)
map-reverse f [] = refl
map-reverse f (x ∷ xs) = rw (reverse-cons, reverse-cons, map-append, map-reverse f xs)

map-replicate : (f : ℕ → ℕ) (n x : ℕ) → map f (replicate n x) ≡ replicate n (f x)
map-replicate f zero x = refl
map-replicate f (suc n) x = rw (map-replicate f n x)

-- `b58encode` writes the zeros and the number of its input to base 58.
pub b58encode-numeral :
    (octets : Bytes)
    → b58encode octets ≡ map alphabet_at (numeral 58 (leading 0 octets) (be_value 256 0 octets))
unfolding b58encode
b58encode-numeral octets =
    let n = be_value 256 0 octets in
    let z = leading 0 octets in
    rw (from_bytes-be_value, encode_digits-le_digits)
      (reverse-append (map alphabet_at (le_digits 58 n n)) (replicate z (alphabet_at 0))
        ∙ rw (
          reverse-replicate,
          map-append,
          map-replicate alphabet_at z 0,
          map-reverse alphabet_at (le_digits 58 n n),
        ))

decode_digits-cons :
    (n ch : ℕ) (chars : Text) {i : ℕ}
    → index_of ch ≡ some i
    → decode_digits n (ch ∷ chars) ≡ decode_digits (n * 58 + i) chars
unfolding decode_digits
decode_digits-cons n ch chars found = rw (found, decode_digits) refl

decode_digits-map :
    (n : ℕ) (ds : List ℕ)
    → IsDigits 58 ds
    → decode_digits n (map alphabet_at ds) ≡ ok (be_value 58 n ds)
decode_digits-map n [] id = unfold decode_digits be_value in refl
decode_digits-map n (d ∷ ds) id =
    decode_digits-cons n (alphabet_at d) (map alphabet_at ds) (index_of-alphabet_at d id.0)
    ∙ decode_digits-map (n * 58 + d) ds id.1
    ∙ ap ok (be_value-cons n d ds)
  where
    be_value-cons : (n d : ℕ) (ds : List ℕ) → be_value 58 (n * 58 + d) ds ≡ be_value 58 n (d ∷ ds)
    be_value-cons n d ds = unfold be_value in refl

alphabet_at-injective : (i j : ℕ) → i < 58 → j < 58 → alphabet_at i ≡ alphabet_at j → i ≡ j
alphabet_at-injective i j hi hj e = cc (index_of-alphabet_at i hi, index_of-alphabet_at j hj, e)

leading-map :
    (ds : List ℕ) → IsDigits 58 ds → leading (alphabet_at 0) (map alphabet_at ds) ≡ leading 0 ds
leading-map [] id = unfold leading in refl
leading-map (d ∷ ds) id =
    step d ds (alphabet_at-injective d 0 id.0 (omega arith)) (leading-map ds id.1)
  where
    step :
        (d : ℕ) (ds : List ℕ)
        → (alphabet_at d ≡ alphabet_at 0 → d ≡ 0)
        → leading (alphabet_at 0) (map alphabet_at ds) ≡ leading 0 ds
        → leading (alphabet_at 0) (map alphabet_at (d ∷ ds)) ≡ leading 0 (d ∷ ds)
    step d ds inj ih = elim (Bool-cases (d == 0)) [
      | inl z ↦
          let zero_digit : d ≡ 0 = ground (arith, z) in
          rw zero_digit (unfold leading in ground (arith, ih))
      | inr nz ↦ elim (Bool-cases (alphabet_at d == alphabet_at 0)) [
        | inl same ↦ absurd (ground (arith, nz, inj (ground (arith, same))))
        | inr other ↦ unfold leading in rw (nz, other) refl
      ]
    ]

-- `b58decode` reads the zeros and the number, and writes them to base 256.
b58decode-map :
    (ds : List ℕ)
    → IsDigits 58 ds
    → b58decode (map alphabet_at ds) ≡ ok (numeral 256 (leading 0 ds) (be_value 58 0 ds))
unfolding b58decode
b58decode-map ds id = elim (Bool-cases (be_value 58 0 ds == 0)) [
  | inl e ↦
      let z : be_value 58 0 ds ≡ 0 = ground (arith, e) in
      rw (decode_digits-map 0 ds id, leading-map ds id, z) (unfold le_digits in refl)
  | inr e ↦ rw (
    decode_digits-map 0 ds id,
    leading-map ds id,
    e,
    to_bytes_lem (be_value 58 0 ds) (ground (arith, e)),
  )
]

-- What `b58decode` accepts is written in the alphabet.
decode_digits_inv :
    (n : ℕ) (chars : Text) {m : ℕ}
    → decode_digits n chars ≡ ok m
    → (ds : List ℕ) × (chars ≡ map alphabet_at ds) × IsDigits 58 ds
unfolding decode_digits
decode_digits_inv n [] e = ([], refl, tt)
decode_digits_inv n (ch ∷ chars) {m} e = elim (Option-cases (index_of ch)) [
  | inl none_found ↦ absurd (ground (arith, none_found, e))
  | inr (i, found) ↦
      let (ds, same, id) =
        decode_digits_inv (n * 58 + i) chars {m = m} (ground (arith, found, e)) in
      let (lt, at) = alphabet_at-index_of ch found in (i ∷ ds, cc (same, at), (lt, id))
]

b58decode_inv :
    (chars : Text) {octets : Bytes}
    → b58decode chars ≡ ok octets
    → (num : ℕ) × (decode_digits 0 chars ≡ ok num)
unfolding b58decode
b58decode_inv chars e = elim (Result-cases (decode_digits 0 chars)) [
  | inl (num, read) ↦ (num, read)
  | inr (inl (err, raised)) ↦ absurd (cc (rw raised at e))
  | inr (inr dry) ↦ absurd (cc (rw dry at e))
]

-- `b58decode` reads back every byte string that `b58encode` wrote.
pub b58decode-b58encode :
    (octets : Bytes) → IsBytes octets → b58decode (b58encode octets) ≡ ok octets
b58decode-b58encode octets h =
    let z = leading 0 octets in
    let n = be_value 256 0 octets in
    rw (
      b58encode-numeral octets,
      b58decode-map (numeral 58 z n) (numeral-IsDigits 58 (omega arith) z n),
      leading-numeral 58 (omega arith) z n,
      be_value-numeral 58 (omega arith) z n,
      numeral-parse 256 (omega arith) octets h,
    )

-- `b58encode` gives back every text that `b58decode` accepts: a byte string has one such text.
pub b58encode-b58decode :
    (chars : Text) (octets : Bytes) → b58decode chars ≡ ok octets → b58encode octets ≡ chars
b58encode-b58decode chars octets e =
    let (num, read) = b58decode_inv chars e in
    let (ds, written, id) = decode_digits_inv 0 chars read in
    let z = leading 0 ds in
    let n = be_value 58 0 ds in
    let same : ok octets ≡ ok (numeral 256 z n) =
      sym e ∙ ap b58decode written ∙ b58decode-map ds id in
    let bytes : octets ≡ numeral 256 z n = cc (same) in
    rw (
      bytes,
      b58encode-numeral (numeral 256 z n),
      leading-numeral 256 (omega arith) z n,
      be_value-numeral 256 (omega arith) z n,
      numeral-parse 58 (omega arith) ds id,
      written,
    )
