-- ===== src/Translog/Index.antt =====
-- The two numbers that steer both loops of translog.py: a leaf's place and the last place. What a
-- round does to them in a tree, against what it does in the half of the tree that holds the leaf.
use acdp_verifier_py.Prelude.{
  refl, ℕ, zero, suc, ◌+◌, ◌-◌, ◌*◌, ◌/◌, ◌%◌, ◌≤◌, ◌<◌, ◌≡◌, refl, ◌&&◌, ◌==◌, arith, pow2,
  pow2_pos, Bool-cases, inl, inr,
}
use acdp_verifier_py.Translog.Verify.{skip_zeros, skip_ones, sibling_is_left, shift_up}

-- In a full left half of 2 * p leaves, and in the tree, whose last place is `s`.
module _ (p a s : ℕ) (some_leaf : 0 < p) (inside : a < 2 * p) (beyond : 2 * p ≤ s) where
  pub sibling_is_left-left : sibling_is_left a s ≡ sibling_is_left a (2 * p - 1)
  unfolding sibling_is_left
  sibling_is_left-left = ground arith

  pub shift_up-left : shift_up a s ≡ (a / 2, s / 2)
  unfolding shift_up
  shift_up-left = ground arith

  pub shift_up-full : shift_up a (2 * p - 1) ≡ (a / 2, p - 1)
  unfolding shift_up
  shift_up-full = ground arith

-- In the right half, behind 2 ^ j leaves.
pub sibling_is_left-right :
    (j a s : ℕ)
    → 0 < s
    → s < pow2 j
    → sibling_is_left (pow2 j + a) (pow2 j + s) ≡ sibling_is_left a s
unfolding sibling_is_left
sibling_is_left-right zero a s h k = absurd (omega arith)
sibling_is_left-right (suc j) a s h k = ground arith

-- Both runs of the inner loop stop at the same bit.
pub skip_zeros-right :
    (j a f g : ℕ)
    → 0 < a
    → a < pow2 j
    → a ≤ f
    → pow2 j + a ≤ g
    → (i : ℕ) × (b : ℕ) × (skip_zeros f a a ≡ (b, b))
      × (skip_zeros g (pow2 j + a) (pow2 j + a) ≡ (pow2 (suc i) + b, pow2 (suc i) + b))
      × (b % 2 ≡ 1)
      × (b < pow2 (suc i))
unfolding skip_zeros
skip_zeros-right zero a f g pos_a lt hf hg = absurd (omega arith)
skip_zeros-right (suc j) a zero g pos_a lt hf hg = absurd (omega arith)
skip_zeros-right (suc j) a (suc f) zero pos_a lt hf hg = absurd (omega arith)
skip_zeros-right (suc j) a (suc f) (suc g) pos_a lt hf hg = elim (Bool-cases (a % 2 == 1)) [
  | inl odd ↦ (j, a, ground arith, ground arith, ground arith, lt)
  | inr even ↦
      let (i, b, sub, whole, odd, less) =
        skip_zeros-right j (a / 2) f g (ground arith) (omega arith) (ground arith) (omega arith) in
      let half : (pow2 (suc j) + a) / 2 ≡ pow2 j + a / 2 = omega arith in
      (i, b, ground (arith, sub), ground (arith, whole, half), odd, less)
]

-- One round in the right half and in the tree: the same siblings, and again a right half.
pub shift_up-right :
    (j a s : ℕ)
    → a ≤ s
    → 0 < s
    → s < pow2 j
    → (i : ℕ) × (b : ℕ) × (t : ℕ) × (shift_up a s ≡ (b, t))
      × (shift_up (pow2 j + a) (pow2 j + s) ≡ (pow2 i + b, pow2 i + t))
      × (b ≤ t)
      × (t < pow2 i)
unfolding shift_up
shift_up-right zero a s le some_bit lt = absurd (omega arith)
shift_up-right (suc j) a s le some_bit lt = elim (Bool-cases (sibling_is_left a s && a % 2 == 0)) [
  | inl skipped ↦
      let same : a ≡ s = ground arith in
      let whole : pow2 (suc j) + a ≡ pow2 (suc j) + s = omega arith in
      let (i, b, sub, main, odd, less) =
        skip_zeros-right (suc j) a a (pow2 (suc j) + a) (omega arith) (omega arith) (omega arith)
          (omega arith) in
      (i, b / 2, b / 2, ground (arith, sub), ground (arith, main), omega arith, omega arith)
  | inr plain ↦ (j, a / 2, s / 2, ground arith, ground arith, omega arith, omega arith)
]

skip_zeros-top : (j g : ℕ) → pow2 j ≤ g → skip_zeros g (pow2 j) (pow2 j) ≡ (1, 1)
unfolding skip_zeros
skip_zeros-top j zero le = absurd (omega (arith, pow2_pos j))
skip_zeros-top zero (suc g) le = refl
skip_zeros-top (suc j) (suc g) le =
    let half : pow2 (suc j) / 2 ≡ pow2 j = omega arith in
    ground (arith, half, pow2_pos j, skip_zeros-top j g (omega (arith, pow2_pos j)))

-- At the root of a full left part the last round leads out of the tree.
pub shift_up-top : (j : ℕ) → shift_up (pow2 j) (pow2 j) ≡ (0, 0)
unfolding shift_up
shift_up-top zero = refl
shift_up-top (suc j) = ground (arith, skip_zeros-top (suc j) (pow2 (suc j)), pow2_pos j)

-- The first loop of `verify_consistency`, for the `a + 1` first leaves: in a full left part and in
-- the tree.
pub skip_ones-left :
    (j a s f : ℕ)
    → a < pow2 j
    → pow2 j ≤ s
    → s < 2 * pow2 j
    → (i : ℕ) × (b : ℕ) × (t : ℕ) × (skip_ones f a (pow2 j - 1) ≡ (b, pow2 i - 1))
      × (skip_ones f a s ≡ (b, t))
      × (b < pow2 i)
      × (pow2 i ≤ t)
      × (t < 2 * pow2 i)
unfolding skip_ones
skip_ones-left j a s zero ha hs hs' = (j, a, s, refl, refl, ha, hs, hs')
skip_ones-left zero a s (suc f) ha hs hs' = (0, a, s, ground arith, ground arith, ha, hs, hs')
skip_ones-left (suc j) a s (suc f) ha hs hs' = elim (Bool-cases (a % 2 == 1)) [
  | inr even ↦ (suc j, a, s, rw even, rw even, ha, hs, hs')
  | inl odd ↦
      let half : (pow2 (suc j) - 1) / 2 ≡ pow2 j - 1 = omega (arith, pow2_pos j) in
      let (i, b, t, sub, whole, lt, le, lt') =
        skip_ones-left j (a / 2) (s / 2) f (omega arith) (omega arith) (omega arith) in
      (i, b, t, ground (arith, sub, half), ground (arith, whole), lt, le, lt')
]

-- In the right part, where the old leaves end before the last one.
pub skip_ones-right :
    (j a s f g : ℕ)
    → a < s
    → s < pow2 j
    → a ≤ f
    → pow2 j + a ≤ g
    → (i : ℕ) × (b : ℕ) × (t : ℕ) × (skip_ones f a s ≡ (b, t))
      × (skip_ones g (pow2 j + a) (pow2 j + s) ≡ (pow2 i + b, pow2 i + t))
      × (b ≤ t)
      × (t < pow2 i)
unfolding skip_ones
skip_ones-right zero a s f g lt lt' hf hg = absurd (omega arith)
skip_ones-right (suc j) a s f zero lt lt' hf hg = absurd (omega arith)
skip_ones-right (suc j) a s zero (suc g) lt lt' hf hg =
    (suc j, a, s, refl, ground arith, omega arith, lt')
skip_ones-right (suc j) a s (suc f) (suc g) lt lt' hf hg = elim (Bool-cases (a % 2 == 1)) [
  | inr even ↦ (suc j, a, s, rw even, ground arith, omega arith, lt')
  | inl odd ↦
      let (i, b, t, sub, whole, le, less) =
        skip_ones-right j (a / 2) (s / 2) f g (ground arith) (omega arith) (ground arith)
          (ground arith) in
      let ha : (pow2 (suc j) + a) / 2 ≡ pow2 j + a / 2 = omega arith in
      let hs : (pow2 (suc j) + s) / 2 ≡ pow2 j + s / 2 = omega arith in
      (i, b, t, ground (arith, sub), ground (arith, whole, ha, hs), le, less)
]

-- All of a full tree.
pub skip_ones-full : (j f : ℕ) → pow2 j - 1 ≤ f → skip_ones f (pow2 j - 1) (pow2 j - 1) ≡ (0, 0)
unfolding skip_ones
skip_ones-full zero zero le = refl
skip_ones-full zero (suc f) le = refl
skip_ones-full (suc j) zero le = absurd (omega (arith, pow2_pos j))
skip_ones-full (suc j) (suc f) le =
    let half : (pow2 (suc j) - 1) / 2 ≡ pow2 j - 1 = omega (arith, pow2_pos j) in
    ground (arith, half, pow2_pos j, skip_ones-full j f (omega (arith, pow2_pos j)))
