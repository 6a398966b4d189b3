-- ===== src/Base58/Numeral.antt =====
-- Numerals in a base, least digit first: the number that they stand for, and the one numeral of a
-- number that has no zeros at its end.
use acdp_verifier_py.Prelude.{
  ℕ, zero, suc, ◌+◌, ◌*◌, ◌/◌, ◌%◌, ◌≤◌, ◌<◌, ◌≡◌, refl, ◌∙◌, List, [], ◌∷◌, ◌++◌, reverse, arith,
  replicate, length-append, All, length, dec_lt,
}
use mathlib.Core.List.{reverse-cons}
use native.Mathlib.Nat.{
  mod-lt, mod-add-div, div-lt_self, add-mul-div_left, add-mul-mod_self_left, div-eq_of_lt,
  mod-eq_of_lt, mul_comm, mul-pos, mul-le-mul_right,
}
use acdp_verifier_py.Base58.Codec.{leading}

unfoldable pub le_digits : ℕ → ℕ → ℕ → List ℕ
le_digits b zero n = []
le_digits b (suc f) zero = []
le_digits b (suc f) (suc n) = suc n % b ∷ le_digits b f (suc n / b)

abbrev pub le_value : ℕ → List ℕ → ℕ
le_value b [] = 0
le_value b (d ∷ ds) = d + b * le_value b ds

-- No zeros at the end.
abbrev pub IsCanonical : ℕ → List ℕ → Type 0
IsCanonical b [] = Unit
IsCanonical b (d ∷ ds) = (0 < d + b * le_value b ds) × IsCanonical b ds

abbrev pub IsDigits : ℕ → List ℕ → Type 0
IsDigits b = All (λ d. d < b)

module _ (b : ℕ) (base : 1 < b) where
  pub le_value-le_digits : (f n : ℕ) → n ≤ f → le_value b (le_digits b f n) ≡ n
  unfolding le_digits
  le_value-le_digits zero n h = omega arith
  le_value-le_digits (suc f) zero h = refl
  le_value-le_digits (suc f) (suc n) h =
      let less = div-lt_self {n = suc n} {k = b} (omega arith) base in
      rw (le_value-le_digits f (suc n / b) (omega (arith, less))) (mod-add-div (suc n) b)

  pub le_digits-IsCanonical : (f n : ℕ) → n ≤ f → IsCanonical b (le_digits b f n)
  unfolding le_digits
  le_digits-IsCanonical zero n h = tt
  le_digits-IsCanonical (suc f) zero h = tt
  le_digits-IsCanonical (suc f) (suc n) h =
      let less = div-lt_self {n = suc n} {k = b} (omega arith) base in
      (
        rw (le_value-le_digits f (suc n / b) (omega (arith, less)), mod-add-div (suc n) b)
            (omega arith),
        le_digits-IsCanonical f (suc n / b) (omega (arith, less)),
      )

  pub le_digits-IsDigits : (f n : ℕ) → IsDigits b (le_digits b f n)
  unfolding le_digits
  le_digits-IsDigits zero n = tt
  le_digits-IsDigits (suc f) zero = tt
  le_digits-IsDigits (suc f) (suc n) =
      (mod-lt (suc n) (omega arith), le_digits-IsDigits f (suc n / b))

  step_div : (d v : ℕ) → d < b → (d + b * v) / b ≡ v
  step_div d v h = add-mul-div_left d v (omega arith) ∙ rw (div-eq_of_lt h) (omega arith)

  step_mod : (d v : ℕ) → d < b → (d + b * v) % b ≡ d
  step_mod d v h = add-mul-mod_self_left d b v ∙ mod-eq_of_lt h

  -- The canonical numeral is the one that division yields, whatever the fuel.
  pub le_digits-le_value :
      (f : ℕ) (ds : List ℕ)
      → IsDigits b ds
      → IsCanonical b ds
      → le_value b ds ≤ f
      → le_digits b f (le_value b ds) ≡ ds
  le_digits-le_value zero [] id ic h = unfold le_digits in refl
  le_digits-le_value (suc f) [] id ic h = unfold le_digits in refl
  le_digits-le_value zero (d ∷ ds) id ic h = absurd (omega (arith, ic.0))
  le_digits-le_value (suc f) (d ∷ ds) id ic h =
      step f d ds (d + b * le_value b ds) (step_div d _ id.0) (step_mod d _ id.0) ic.0
        (le_digits-le_value f ds id.1 ic.1 (below d (le_value b ds) ic.0 h))
    where
      below : (d v : ℕ) → 0 < d + b * v → d + b * v ≤ suc f → v ≤ f
      below d v p q = omega (arith, mul-le-mul_right v base)

      step :
          (f d : ℕ) (ds : List ℕ) (n : ℕ)
          → n / b ≡ le_value b ds
          → n % b ≡ d
          → 0 < n
          → le_digits b f (le_value b ds) ≡ ds
          → le_digits b (suc f) n ≡ d ∷ ds
      step f d ds zero e₁ e₂ p ih = elim p [ ]
      step f d ds (suc n) e₁ e₂ p ih = unfold le_digits in (rw (e₁, e₂, ih))

  pub le_value-zeros : (ds : List ℕ) (z : ℕ) → le_value b (ds ++ replicate z 0) ≡ le_value b ds
  le_value-zeros [] zero = refl
  le_value-zeros [] (suc z) = rw (le_value-zeros [] z) (omega arith)
  le_value-zeros (d ∷ ds) z = rw (le_value-zeros ds z)

-- The digits of a number, most significant first, behind `z` zeros.
abbrev pub numeral : ℕ → ℕ → ℕ → List ℕ
numeral b z n = replicate z 0 ++ reverse (le_digits b n n)

-- Horner's rule, as both programs read a numeral.
unfoldable pub be_value : ℕ → ℕ → List ℕ → ℕ
be_value b acc [] = acc
be_value b acc (d ∷ ds) = be_value b (acc * b + d) ds

be_value-snoc :
    (b acc d : ℕ) (ds : List ℕ) → be_value b acc (ds ++ d ∷ []) ≡ be_value b acc ds * b + d
unfolding be_value
be_value-snoc b acc d [] = refl
be_value-snoc b acc d (x ∷ ds) = be_value-snoc b (acc * b + x) d ds

pub be_value-reverse : (b : ℕ) (ds : List ℕ) → be_value b 0 (reverse ds) ≡ le_value b ds
be_value-reverse b [] = unfold be_value in refl
be_value-reverse b (d ∷ ds) =
    rw (reverse-cons, be_value-snoc, be_value-reverse b ds)
      (omega (arith, mul_comm b (le_value b ds)))

leading-append : (ds es : List ℕ) → 0 < length ds → leading 0 ds ≡ 0 → leading 0 (ds ++ es) ≡ 0
unfolding leading
leading-append [] es h e = elim h [ ]
leading-append (d ∷ ds) es h e = ground arith

pub leading-replicate : (z : ℕ) (ds : List ℕ) → leading 0 (replicate z 0 ++ ds) ≡ z + leading 0 ds
unfolding leading
leading-replicate zero ds = omega arith
leading-replicate (suc z) ds = omega (arith, leading-replicate z ds)

pub leading-reverse : (b : ℕ) (ds : List ℕ) → IsCanonical b ds → leading 0 (reverse ds) ≡ 0
leading-reverse b [] ic = unfold leading in refl
leading-reverse b (d ∷ []) ic = unfold leading in ground (arith, ic.0)
leading-reverse b (d ∷ e ∷ ds) ic = rw reverse-cons (
    leading-append (reverse (e ∷ ds)) (d ∷ [])
      (rw reverse-cons (omega (arith, length-append (reverse ds) (e ∷ []))))
      (leading-reverse b (e ∷ ds) ic.1))

-- Every list of digits is such a numeral.
pub record Parts (b : ℕ) (ds : List ℕ) : Type 0 where
  pub core : List ℕ
  pub zeros : ℕ
  pub digits : IsDigits b core
  pub canonical : IsCanonical b core
  pub joined : ds ≡ core ++ replicate zeros 0

module _ (b : ℕ) (base : 1 < b) where
  Parts-more :
      (d : ℕ) (ds core : List ℕ) (k : ℕ)
      → d < b
      → IsDigits b core
      → IsCanonical b core
      → ds ≡ core ++ replicate k 0
      → Dec (0 < d + b * le_value b core)
      → Parts b (d ∷ ds)
  Parts-more d ds core k less id ic e (yes some_digit) = record {
    core = d ∷ core;
    zeros = k;
    digits = (less, id);
    canonical = (some_digit, ic);
    joined = cc (e);
  }
  Parts-more zero ds [] k less id ic e (no none) = record {
    core = [];
    zeros = suc k;
    digits = tt;
    canonical = tt;
    joined = cc (e);
  }
  Parts-more (suc d) ds [] k less id ic e (no none) = absurd (none (omega arith))
  Parts-more d ds (x ∷ core) k less id ic e (no none) =
      let v : ℕ = x + b * le_value b core in
      let some_value : 0 < b * v = mul-pos (omega arith) ic.0 in absurd (none (omega arith))

  pub parts : (ds : List ℕ) → IsDigits b ds → Parts b ds
  parts [] id = record { core = []; zeros = 0; digits = tt; canonical = tt; joined = refl }
  parts (d ∷ ds) id =
      let p = parts ds id.1 in
      Parts-more d ds p.core p.zeros id.0 p.digits p.canonical p.joined (dec_lt 0 _)
