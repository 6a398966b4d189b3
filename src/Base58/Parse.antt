-- ===== src/Base58/Parse.antt =====
-- Lists of digits as the zeros in front and a number, for both bases of base58.py.
use acdp_verifier_py.Prelude.{
  ℕ, zero, suc, ◌+◌, ◌*◌, ◌<◌, ◌≡◌, refl, sym, ap, ◌∙◌, List, [], ◌∷◌, ◌++◌, reverse, arith,
  replicate, All, All-append,
}
use mathlib.Core.List.{reverse-cons, reverse-append, reverse-reverse}
use acdp_verifier_py.Base58.Codec.{leading}
use acdp_verifier_py.Base58.Numeral.{
  le_digits, le_value, IsDigits, numeral, be_value, be_value-reverse, leading-replicate,
  leading-reverse, Parts, parts, le_value-le_digits, le_digits-IsCanonical, le_digits-le_value,
  le_digits-IsDigits,
}

replicate-snoc : (z x : ℕ) → replicate z x ++ x ∷ [] ≡ x ∷ replicate z x
replicate-snoc zero x = refl
replicate-snoc (suc z) x = ap (λ (l : List ℕ). x ∷ l) (replicate-snoc z x)

pub reverse-replicate : (z x : ℕ) → reverse (replicate z x) ≡ replicate z x
reverse-replicate zero x = refl
reverse-replicate (suc z) x = rw (reverse-cons, reverse-replicate z x) (replicate-snoc z x)

be_value-replicate : (b z : ℕ) (ds : List ℕ) → be_value b 0 (replicate z 0 ++ ds) ≡ be_value b 0 ds
unfolding be_value
be_value-replicate b zero ds = refl
be_value-replicate b (suc z) ds =
    ap (λ n. be_value b n (replicate z 0 ++ ds)) {x = 0 * b + 0} {y = 0} (omega arith)
    ∙ be_value-replicate b z ds

All-reverse : (P : ℕ → Type 0) (xs : List ℕ) → All P xs → All P (reverse xs)
All-reverse P [] h = tt
All-reverse P (x ∷ xs) h =
    rw reverse-cons (All-append P (reverse xs) (x ∷ []) (All-reverse P xs h.1) (h.0, tt))

module _ (b : ℕ) (base : 1 < b) where
  pub be_value-numeral : (z n : ℕ) → be_value b 0 (numeral b z n) ≡ n
  be_value-numeral z n =
      be_value-replicate b z (reverse (le_digits b n n))
      ∙ be_value-reverse b (le_digits b n n)
      ∙ le_value-le_digits b base n n (omega arith)

  pub leading-numeral : (z n : ℕ) → leading 0 (numeral b z n) ≡ z
  leading-numeral z n = omega (
    arith,
    leading-replicate z (reverse (le_digits b n n)),
    leading-reverse b (le_digits b n n) (le_digits-IsCanonical b base n n (omega arith)),
  )

  numeral_of_Parts :
      (xs : List ℕ) (p : Parts b (reverse xs)) → xs ≡ numeral b p.zeros (le_value b p.core)
  numeral_of_Parts xs p =
      rw (le_digits-le_value b base (le_value b p.core) p.core p.digits p.canonical (omega arith)) (
        sym (reverse-reverse xs)
        ∙ ap (λ (l : List ℕ). reverse l) p.joined
        ∙ reverse-append p.core (replicate p.zeros 0)
        ∙ ap (λ (l : List ℕ). l ++ reverse p.core) (reverse-replicate p.zeros 0))

  pub numeral-parse :
      (xs : List ℕ) → IsDigits b xs → numeral b (leading 0 xs) (be_value b 0 xs) ≡ xs
  numeral-parse xs id =
      let p = parts b base (reverse xs) (All-reverse (λ d. d < b) xs id) in
      let e = numeral_of_Parts xs p in
      let n = le_value b p.core in
      let zeros : leading 0 xs ≡ p.zeros = ap (leading 0) e ∙ leading-numeral p.zeros n in
      let value : be_value b 0 xs ≡ n = ap (be_value b 0) e ∙ be_value-numeral p.zeros n in
      cc (zeros, value, e)

replicate-IsDigits : (b z : ℕ) → 0 < b → IsDigits b (replicate z 0)
replicate-IsDigits b zero h = tt
replicate-IsDigits b (suc z) h = (h, replicate-IsDigits b z h)

pub numeral-IsDigits : (b : ℕ) → 1 < b → (z n : ℕ) → IsDigits b (numeral b z n)
numeral-IsDigits b base z n =
    All-append (λ d. d < b) (replicate z 0) (reverse (le_digits b n n))
      (replicate-IsDigits b z (omega arith))
      (All-reverse (λ d. d < b) (le_digits b n n) (le_digits-IsDigits b base n n))
