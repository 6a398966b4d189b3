-- ===== src/Base58/Alphabet.antt =====
-- base58.py: `ALPHABET` against `_INDEX`.
use acdp_verifier_py.Prelude.{
  ℕ, zero, suc, ◌+◌, ◌-◌, ◌≤◌, ◌<◌, ◌≡◌, refl, inl, inr, Bool, true, false, if◌then◌else◌, [], ◌∷◌,
  arith, length, get_elem?, Option, none, some, ◌==◌, Text, Bool-cases,
}
use acdp_verifier_py.Base58.Codec.{alphabet, alphabet_at, index_of, index_from}

-- The alphabet, character by character.
agrees_up_to : (ℕ → Bool) → ℕ → Bool
agrees_up_to test zero = true
agrees_up_to test (suc bound) =
    let rest = agrees_up_to test bound in if test bound then rest else false

agrees_up_to-each :
    (test : ℕ → Bool) (bound : ℕ) {i : ℕ}
    → i < bound
    → agrees_up_to test bound ≡ true
    → test i ≡ true
unfolding agrees_up_to
agrees_up_to-each test zero lt e = absurd (omega arith)
agrees_up_to-each test (suc bound) {i} lt e = ground (arith, agrees_up_to-each test bound {i = i})

is_index : ℕ → Option ℕ → Bool
is_index i none = false
is_index i (some j) = i == j

alphabet_table : agrees_up_to (λ i. is_index i (index_of (alphabet_at i))) 58 ≡ true
unfolding agrees_up_to is_index index_of alphabet_at
alphabet_table = refl

pub index_of-alphabet_at : (i : ℕ) → i < 58 → index_of (alphabet_at i) ≡ some i
index_of-alphabet_at i lt =
    found i (index_of (alphabet_at i))
      (agrees_up_to-each (λ i. is_index i (index_of (alphabet_at i))) 58 lt alphabet_table)
  where
    found : (i : ℕ) (o : Option ℕ) → is_index i o ≡ true → o ≡ some i
    found i none e = unfold is_index in cc
    found i (some j) e = unfold is_index in ground arith

index_from_inv :
    (i ch : ℕ) (xs : Text) {j : ℕ}
    → index_from i ch xs ≡ some j
    → (i ≤ j) × (j < i + length xs) × (get_elem? xs (j - i) ≡ some ch)
unfolding index_from
index_from_inv i ch [] e = cc
index_from_inv i ch (x ∷ xs) {j} e = elim (Bool-cases (x == ch)) [
  | inl here ↦
      let at : j - i ≡ 0 = ground (arith, e, here) in
      (ground (arith, e), ground (arith, e), rw at (ground (arith, e, here)))
  | inr later ↦
      let (lo, hi, at) = index_from_inv (suc i) ch xs {j = j} (ground (arith, e, later)) in
      let next : j - i ≡ suc (j - suc i) = omega arith in (omega arith, omega arith, rw next at)
]

pub alphabet_at-index_of : (ch : ℕ) {i : ℕ} → index_of ch ≡ some i → (i < 58) × (alphabet_at i ≡ ch)
unfolding index_of alphabet_at
alphabet_at-index_of ch {i} e =
    let (lo, hi, at) = index_from_inv 0 ch alphabet e in
    let same : i - 0 ≡ i = omega arith in (omega arith, rw (rw same at at))
