-- ===== src/Base58/ToBytes.antt =====
-- base58.py: `num.to_bytes((num.bit_length() + 7) // 8, "big")` against the digits of `num` to base
-- 256.
use acdp_verifier_py.Prelude.{
  ℕ, zero, suc, ◌+◌, ◌*◌, ◌/◌, ◌%◌, ◌≤◌, ◌<◌, ◌≡◌, refl, sym, ◌∙◌, ◌⊎◌, inl, inr, List, [], ◌∷◌,
  ◌++◌, reverse, arith, length, append-nil, append_assoc, bit_length, bit_length-between, pow2,
  pow2_pos, pow2_mono, dec_lt,
}
use mathlib.Core.List.{reverse-cons}
use acdp_verifier_py.Base58.Codec.{to_bytes}
use acdp_verifier_py.Base58.Numeral.{
  le_digits, le_value, IsCanonical, IsDigits, le_value-le_digits, le_digits-IsCanonical,
  le_digits-IsDigits,
}

to_bytes_step :
    (l n : ℕ) (rest : List ℕ) {q r : ℕ}
    → n / 256 ≡ q
    → n % 256 ≡ r
    → to_bytes (suc l) n rest ≡ to_bytes l q (r ∷ rest)
unfolding to_bytes
to_bytes_step l n rest e₁ e₂ = rw (e₁, e₂)

to_bytes-le_value :
    (ds rest : List ℕ)
    → IsDigits 256 ds
    → to_bytes (length ds) (le_value 256 ds) rest ≡ reverse ds ++ rest
to_bytes-le_value [] rest id = unfold to_bytes in refl
to_bytes-le_value (d ∷ ds) rest id =
    to_bytes_step (length ds) (le_value 256 (d ∷ ds)) rest (omega (arith, id.0))
      (omega (arith, id.0))
    ∙ to_bytes-le_value ds (d ∷ rest) id.1
    ∙ sym (rw reverse-cons (append_assoc (reverse ds) (d ∷ []) rest))

pow2_eight : (n : ℕ) → pow2 (8 * suc n) ≡ 256 * pow2 (8 * n)
pow2_eight n =
    let e : 8 * suc n ≡ suc (suc (suc (suc (suc (suc (suc (suc (8 * n)))))))) = omega arith in
    rw e (omega arith)

-- A canonical numeral of `k + 1` digits to base 256 lies between two powers.
numeral_bounds :
    (d : ℕ) (ds : List ℕ)
    → IsDigits 256 (d ∷ ds)
    → IsCanonical 256 (d ∷ ds)
    → (pow2 (8 * length ds) ≤ le_value 256 (d ∷ ds))
      × (le_value 256 (d ∷ ds) < 256 * pow2 (8 * length ds))
numeral_bounds d [] id ic = (omega (arith, ic.0), omega (arith, id.0))
numeral_bounds d (e ∷ ds) id ic =
    let (lo, hi) = numeral_bounds e ds id.1 ic.1 in
    let p : pow2 (8 * suc (length ds)) ≡ 256 * pow2 (8 * length ds) = pow2_eight (length ds) in
    (rw p (omega (arith, id.0)), rw p (omega (arith, id.0)))

-- Every positive number has a highest bit.
highest_bit : (f n : ℕ) → 0 < n → n ≤ f → (j : ℕ) × (pow2 j ≤ n) × (n < 2 * pow2 j)
highest_bit zero n h le = absurd (omega arith)
highest_bit (suc f) n h le = elim (dec_lt n 2) [
  | yes one ↦ (0, omega arith, omega arith)
  | no more ↦
      let (j, lo, hi) = highest_bit f (n / 2) (omega arith) (omega arith) in
      (suc j, omega arith, omega arith)
]

bytes_needed :
    (n k : ℕ) → pow2 (8 * k) ≤ n → n < 256 * pow2 (8 * k) → (bit_length n n + 7) / 8 ≡ suc k
bytes_needed n k lo hi =
    let (j, lo', hi') = highest_bit n n (omega (arith, pow2_pos (8 * k))) (omega arith) in
    rw (bit_length-between j n n lo' hi' (omega arith)) (elim (place j (8 * k)) [
      | inl below ↦ absurd (omega (arith, pow2_mono (suc j) (8 * k) below))
      | inr (inl above) ↦
          absurd (omega (arith, pow2_mono (8 * suc k) j (omega arith), pow2_eight k))
      | inr (inr (lo₈, hi₈)) ↦ omega arith
    ])
  where
    place : (j m : ℕ) → (suc j ≤ m) ⊎ ((m + 8 ≤ j) ⊎ ((m ≤ j) × (j < m + 8)))
    place j m = grind arith

pub to_bytes_lem :
    (n : ℕ) → 0 < n → to_bytes ((bit_length n n + 7) / 8) n [] ≡ reverse (le_digits 256 n n)
to_bytes_lem n h =
    from_digits (le_digits 256 n n) n (le_value-le_digits 256 (omega arith) n n (omega arith))
      (le_digits-IsDigits 256 (omega arith) n n)
      (le_digits-IsCanonical 256 (omega arith) n n (omega arith)) h
  where
    from_digits :
        (ds : List ℕ) (n : ℕ)
        → le_value 256 ds ≡ n
        → IsDigits 256 ds
        → IsCanonical 256 ds
        → 0 < n
        → to_bytes ((bit_length n n + 7) / 8) n [] ≡ reverse ds
    from_digits [] n e id ic h = absurd (omega arith)
    from_digits (d ∷ ds) n e id ic h =
        let (lo, hi) = numeral_bounds d ds id ic in
        rw (bytes_needed n (length ds) (omega arith) (omega arith), ← e)
          (to_bytes-le_value (d ∷ ds) [] id ∙ append-nil (reverse (d ∷ ds)))
