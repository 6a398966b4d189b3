-- ===== src/DidKey/Encoded.antt =====
-- didkey.py: where `partition` and `startswith` cut a DID URL, and the characters of `b58encode`.
use acdp_verifier_py.Prelude.{
  ℕ, inl, inr, ◌<◌, ◌≡◌, ◌≢◌, refl, sym, ap, ◌∙◌, List, [], ◌∷◌, ◌++◌, map, arith, true, ◌==◌,
  Bool-cases, All, Bytes, Text, bytes_eq, starts_with, drop, length, some, none,
}
use acdp_verifier_py.Base58.Codec.{alphabet_at, index_of, b58encode, leading}
use acdp_verifier_py.Base58.Numeral.{IsDigits, numeral, be_value}
use acdp_verifier_py.Base58.Parse.{numeral-IsDigits}
use acdp_verifier_py.Base58.Alphabet.{index_of-alphabet_at}
use acdp_verifier_py.Base58.RoundTrip.{b58encode-numeral}
use acdp_verifier_py.Prelude.{partition}

abbrev pub IsFree : ℕ → Text → Type 0
IsFree sep = All (λ c. c ≢ sep)

no_hash : index_of 35 ≡ none
unfolding index_of
no_hash = refl

alphabet_at-no_hash : (d : ℕ) → d < 58 → alphabet_at d ≢ 35
alphabet_at-no_hash d h e =
    let found : some d ≡ index_of 35 = sym (index_of-alphabet_at d h) ∙ ap index_of e in
    cc (found, no_hash)

map-alphabet_at-IsFree : (ds : List ℕ) → IsDigits 58 ds → IsFree 35 (map alphabet_at ds)
map-alphabet_at-IsFree [] id = tt
map-alphabet_at-IsFree (d ∷ ds) id = (alphabet_at-no_hash d id.0, map-alphabet_at-IsFree ds id.1)

pub b58encode-IsFree : (octets : Bytes) → IsFree 35 (b58encode octets)
b58encode-IsFree octets =
    let z = leading 0 octets in
    let n = be_value 256 0 octets in
    rw (b58encode-numeral octets)
      (map-alphabet_at-IsFree (numeral 58 z n) (numeral-IsDigits 58 (omega arith) z n))

pub partition_lem :
    (sep : ℕ) (front back : Text)
    → IsFree sep front
    → partition sep (front ++ sep ∷ back) ≡ record { before = front; found = true; after = back }
unfolding partition
partition_lem sep [] back free = ground arith
partition_lem sep (c ∷ front) back free = elim (Bool-cases (c == sep)) [
  | inl same ↦ absurd (free.0 (ground (arith, same)))
  | inr other ↦ rw (other, partition_lem sep front back free.1) refl
]

pub partition_inv :
    (sep : ℕ) (chars : Text)
    → (partition sep chars).found ≡ true
    → chars ≡ (partition sep chars).before ++ sep ∷ (partition sep chars).after
unfolding partition
partition_inv sep [] e = cc
partition_inv sep (c ∷ cs) e = elim (Bool-cases (c == sep)) [
  | inl same ↦ let here : c ≡ sep = ground (arith, same) in rw same (rw here refl)
  | inr other ↦
      let next = partition_inv sep cs (ground (arith, other, e)) in
      rw other (ap (λ (l : Text). c ∷ l) next)
]

pub starts_with-append : (prefix rest : List ℕ) → starts_with (prefix ++ rest) prefix ≡ true
unfolding starts_with bytes_eq
starts_with-append [] [] = refl
starts_with-append [] (x ∷ rest) = refl
starts_with-append (p ∷ prefix) rest = ground (arith, starts_with-append prefix rest)

pub starts_with_inv :
    (chars prefix : List ℕ)
    → starts_with chars prefix ≡ true
    → chars ≡ prefix ++ drop (length prefix) chars
unfolding starts_with bytes_eq
starts_with_inv chars [] e = refl
starts_with_inv [] (p ∷ prefix) e = cc
starts_with_inv (c ∷ chars) (p ∷ prefix) e =
    let same : c ≡ p = ground (arith, e) in
    let next = starts_with_inv chars prefix (ground (arith, e)) in
    rw same (ap (λ (l : List ℕ). p ∷ l) next)
