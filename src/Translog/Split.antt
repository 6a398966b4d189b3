-- ===== src/Translog/Split.antt =====
-- How a Merkle tree is cut in two: at the largest power of two below its size.
use acdp_verifier_py.Prelude.{
  ℕ, zero, suc, ◌+◌, ◌-◌, ◌*◌, ◌≤◌, ◌<◌, ◌≡◌, refl, List, [], ◌∷◌, ltb, arith, pow2, pow2_pos,
  pow2_mono, ◌⊎◌, ap, sym, ◌∙◌, Bool-cases, inl, inr, length, take, drop, length-take, length-drop,
}
use acdp_verifier_py.Translog.Tree.{doubling, largest_power_of_two_less_than}

-- `k` is the largest power of two below `n`.
pub record SplitsAt (n k : ℕ) : Type 0 where
  pub exponent : ℕ
  pub is_power : k ≡ pow2 exponent
  pub below : k < n
  pub reaches : n ≤ 2 * k

doubling-SplitsAt : (f i n : ℕ) → pow2 i < n → n ≤ pow2 i + f → SplitsAt n (doubling f (pow2 i) n)
unfolding doubling
doubling-SplitsAt zero i n lt le = absurd (omega arith)
doubling-SplitsAt (suc f) i n lt le =
    let twice : pow2 i * 2 ≡ pow2 (suc i) = omega arith in
    elim (Bool-cases (ltb (pow2 i * 2) n)) [
      | inl more ↦
          rw (more, twice)
            (doubling-SplitsAt f (suc i) n (ground arith) (omega (arith, pow2_pos i)))
      | inr last ↦
          rw last (record { exponent = i; is_power = refl; below = lt; reaches = ground arith })
    ]

pub largest-SplitsAt : (n : ℕ) → 2 ≤ n → SplitsAt n (largest_power_of_two_less_than n)
unfolding largest_power_of_two_less_than
largest-SplitsAt n h = doubling-SplitsAt n 0 n (omega arith) (omega arith)

pow2_gap : (i j n : ℕ) → i < j → n ≤ 2 * pow2 i → pow2 j < n → ⊥
pow2_gap i j n lt le gt = omega (arith, pow2_mono (suc i) j lt)

-- There is only one such place.
pub SplitsAt-unique : {n k l : ℕ} → SplitsAt n k → SplitsAt n l → k ≡ l
SplitsAt-unique {n} s t = elim (order s.exponent t.exponent) [
  | inl same ↦ s.is_power ∙ ap pow2 same ∙ sym t.is_power
  | inr (inl lt) ↦ absurd (
      pow2_gap s.exponent t.exponent n lt (omega (arith, s.is_power, s.reaches))
        (omega (arith, t.is_power, t.below)))
  | inr (inr gt) ↦ absurd (
      pow2_gap t.exponent s.exponent n gt (omega (arith, t.is_power, t.reaches))
        (omega (arith, s.is_power, s.below)))
]
  where
    order : (i j : ℕ) → (i ≡ j) ⊎ ((i < j) ⊎ (j < i))
    order i j = grind arith

abbrev pub cut {ℓ} : {A : Type ℓ} → List A → ℕ
cut xs = largest_power_of_two_less_than (length xs)

module _ {ℓ} {A : Type ℓ} where
  pub length-take-cut : (xs : List A) → 2 ≤ length xs → length (take (cut xs) xs) ≡ cut xs
  length-take-cut xs h =
      let s = largest-SplitsAt (length xs) h in omega (arith, length-take (cut xs) xs, s.below)

  pub length-drop-cut : (xs : List A) → length (drop (cut xs) xs) ≡ length xs - cut xs
  length-drop-cut xs = length-drop (cut xs) xs

  -- Induction over the tree: no leaf, one leaf, and a tree from its two parts.
  module _ {κ} (P : List A → Type κ) (none : P []) (one : (x : A) → P (x ∷ [])) where
    tree_below :
        ((xs : List A) → 2 ≤ length xs → P (take (cut xs) xs) → P (drop (cut xs) xs) → P xs)
        → (f : ℕ) (xs : List A) → length xs ≤ f
        → P xs
    tree_below two f [] le = none
    tree_below two f (x ∷ []) le = one x
    tree_below two zero (x ∷ y ∷ zs) le = absurd (omega arith)
    tree_below two (suc f) (x ∷ y ∷ zs) le =
        let xs = x ∷ y ∷ zs in
        let s = largest-SplitsAt (length xs) (omega arith) in
        two xs (omega arith)
          (tree_below two f (take (cut xs) xs)
            (omega (arith, length-take-cut xs (omega arith), s.below)))
          (tree_below two f (drop (cut xs) xs)
            (omega (arith, length-drop-cut xs, s.is_power, pow2_pos s.exponent)))

    pub tree_induction :
        ((xs : List A) → 2 ≤ length xs → P (take (cut xs) xs) → P (drop (cut xs) xs) → P xs)
        → (xs : List A) → P xs
    tree_induction two xs = tree_below two (length xs) xs (omega arith)
