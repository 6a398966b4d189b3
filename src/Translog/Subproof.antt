-- ===== src/Translog/Subproof.antt =====
-- `_subproof` by its two parts, whatever the fuel.
use acdp_verifier_py.Prelude.{
  ℕ, zero, suc, ◌-◌, ◌≤◌, ◌<◌, ◌≡◌, refl, ◌∙◌, ◌⊎◌, inl, inr, Bool, false, List, [], ◌∷◌, ◌++◌,
  arith, length, take, drop, Bytes, if◌then◌else◌, ==_iff, pow2_pos, sym, lt→==_false, le→leb,
  lt→leb_false,
}
use acdp_verifier_py.Errors.{ok, ◌>>=◌, Result}
use acdp_verifier_py.Crypto.{Sha256}
use acdp_verifier_py.Translog.Tree.{merkle_tree_hash, subproof}
use acdp_verifier_py.Translog.Split.{cut, largest-SplitsAt, length-take-cut, length-drop-cut}

-- The three branches of `_subproof`.
pub cases_of : (m n k : ℕ) → m ≤ n → (m ≡ n) ⊎ ((m < n) × (m ≤ k) ⊎ (m < n) × (k < m))
cases_of m n k le = grind arith

module _ ⦃h : Sha256⦄ where
  subproof-whole :
      (f m : ℕ) (xs : List Bytes) (complete : Bool)
      → m ≡ length xs
      → subproof (suc f) m xs complete
        ≡ (if complete then ok [] else (do root ← merkle_tree_hash xs; ok (root ∷ [])))
  unfolding subproof
  subproof-whole f m xs complete e = rw ((==_iff m (length xs)).1 e)

  subproof-left :
      (f m : ℕ) (xs : List Bytes) (complete : Bool)
      → m < length xs
      → m ≤ cut xs
      → subproof (suc f) m xs complete ≡ (do
        path ← subproof f m (take (cut xs) xs) complete
        sibling ← merkle_tree_hash (drop (cut xs) xs)
        ok (path ++ sibling ∷ []))
  unfolding subproof
  subproof-left f m xs complete lt le = rw (lt→==_false m (length xs) lt, le→leb m (cut xs) le)

  subproof-right :
      (f m : ℕ) (xs : List Bytes) (complete : Bool)
      → m < length xs
      → cut xs < m
      → subproof (suc f) m xs complete ≡ (do
        path ← subproof f (m - cut xs) (drop (cut xs) xs) false
        sibling ← merkle_tree_hash (take (cut xs) xs)
        ok (path ++ sibling ∷ []))
  unfolding subproof
  subproof-right f m xs complete lt gt =
      rw (lt→==_false m (length xs) lt, lt→leb_false m (cut xs) gt)

  -- Any fuel from the number of leaves on gives the same proof.
  pub subproof-fuel :
      (f g m : ℕ) (xs : List Bytes) (complete : Bool)
      → 0 < m
      → m ≤ length xs
      → length xs ≤ f
      → length xs ≤ g
      → subproof f m xs complete ≡ subproof g m xs complete
  subproof-fuel zero g m xs complete pos_m le hf hg = absurd (omega arith)
  subproof-fuel (suc f) zero m xs complete pos_m le hf hg = absurd (omega arith)
  subproof-fuel (suc f) (suc g) m xs complete pos_m le hf hg =
      elim (cases_of m (length xs) (cut xs) le) [
        | inl whole ↦
            subproof-whole f m xs complete whole ∙ sym (subproof-whole g m xs complete whole)
        | inr (inl (lt, in_left)) ↦
            let s = largest-SplitsAt (length xs) (omega arith) in
            let l = length-take-cut xs (omega arith) in
            rw (
              subproof-left f m xs complete lt in_left,
              subproof-left g m xs complete lt in_left,
              subproof-fuel f g m (take (cut xs) xs) complete pos_m (omega arith)
                  (omega (arith, s.below)) (omega (arith, s.below)),
            )
        | inr (inr (lt, in_right)) ↦
            let s = largest-SplitsAt (length xs) (omega arith) in
            let r = length-drop-cut xs in
            let p = pow2_pos s.exponent in
            rw (
              subproof-right f m xs complete lt in_right,
              subproof-right g m xs complete lt in_right,
              subproof-fuel f g (m - cut xs) (drop (cut xs) xs) false (omega arith) (omega arith)
                  (omega (arith, s.is_power)) (omega (arith, s.is_power)),
            )
      ]

  -- `_subproof` with the fuel that `compute_consistency_path` hands out.
  abbrev pub proof_of : ℕ → List Bytes → Bool → Result (List Bytes)
  proof_of m xs complete = subproof (length xs) m xs complete

  pub proof_of-whole :
      (xs : List Bytes) (complete : Bool)
      → 0 < length xs
      → proof_of (length xs) xs complete
        ≡ (if complete then ok [] else (do root ← merkle_tree_hash xs; ok (root ∷ [])))
  proof_of-whole [] complete pos_n = elim pos_n [ ]
  proof_of-whole (x ∷ xs) complete pos_n =
      subproof-whole (length xs) (length (x ∷ xs)) (x ∷ xs) complete refl

  pub proof_of-left :
      (m : ℕ) (xs : List Bytes) (complete : Bool)
      → 0 < m
      → m < length xs
      → m ≤ cut xs
      → proof_of m xs complete ≡ (do
        path ← proof_of m (take (cut xs) xs) complete
        sibling ← merkle_tree_hash (drop (cut xs) xs)
        ok (path ++ sibling ∷ []))
  proof_of-left m [] complete pos_m lt le = elim lt [ ]
  proof_of-left m (x ∷ xs) complete pos_m lt le =
      let ys = x ∷ xs in
      let s = largest-SplitsAt (length ys) (omega arith) in
      let l = length-take-cut ys (omega arith) in
      rw (
        subproof-left (length xs) m ys complete lt le,
        subproof-fuel (length xs) (length (take (cut ys) ys)) m (take (cut ys) ys) complete pos_m
            (omega arith) (omega (arith, s.below)) (omega arith),
      )

  pub proof_of-right :
      (m : ℕ) (xs : List Bytes) (complete : Bool)
      → m < length xs
      → cut xs < m
      → proof_of m xs complete ≡ (do
        path ← proof_of (m - cut xs) (drop (cut xs) xs) false
        sibling ← merkle_tree_hash (take (cut xs) xs)
        ok (path ++ sibling ∷ []))
  proof_of-right m [] complete lt gt = elim lt [ ]
  proof_of-right m (x ∷ xs) complete lt gt =
      let ys = x ∷ xs in
      let s = largest-SplitsAt (length ys) (omega arith) in
      let r = length-drop-cut ys in
      let p = pow2_pos s.exponent in
      rw (
        subproof-right (length xs) m ys complete lt gt,
        subproof-fuel (length xs) (length (drop (cut ys) ys)) (m - cut ys) (drop (cut ys) ys) false
            (omega arith) (omega arith) (omega (arith, s.is_power)) (omega arith),
      )
