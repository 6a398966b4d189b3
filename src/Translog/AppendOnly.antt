-- ===== src/Translog/AppendOnly.antt =====
-- translog.py: what `verify_consistency` accepts.
use acdp_verifier_py.Prelude.{
  ℕ, ◌-◌, ◌≤◌, ◌<◌, ◌≡◌, ◌∙◌, ◌⊎◌, inl, inr, List, [], ◌∷◌, arith, length, take, length-take,
  take-length, Bytes, bytes_eq_iff, All, All-take, pos, Bool-cases,
}
use acdp_verifier_py.Errors.{ok}
use acdp_verifier_py.Crypto.{Sha256, IsDigest, Collision, Collision-map}
use acdp_verifier_py.Translog.Hashed.{TreeInput, ClimbInput, ConsistencyInput, from_root, from_path}
use acdp_verifier_py.Translog.Tree.{merkle_tree_hash, compute_consistency_path}
use acdp_verifier_py.Translog.Verify.{
  skip_ones, fold_consistency, run_consistency, verify_consistency, is_power_of_two,
}
use acdp_verifier_py.Translog.Binding.{fold_inclusion_binds}
use acdp_verifier_py.Translog.Pair.{fold_consistency→fold_inclusion}
use acdp_verifier_py.Translog.Linked.{Linked, linked}
use acdp_verifier_py.Translog.Power.{is_power_of_two-pow2, is_power_of_two-Between}
use acdp_verifier_py.Translog.Sound.{merkle_tree_hash_binds}
use acdp_verifier_py.Translog.Consistency.{compute_consistency_path-subproof}

module _ ⦃h : Sha256⦄ where
  run_consistency_inv :
      (m n : ℕ) (start first root : Bytes) (path : List Bytes) {fn sn : ℕ}
      → skip_ones (m - 1) (m - 1) (n - 1) ≡ (fn, sn)
      → run_consistency m n start path first root ≡ ok tt
      → fold_consistency fn sn start start path ≡ ok (0, first, root)
  unfolding run_consistency
  run_consistency_inv m n start first root path {fn} {sn} stripped e =
      let out = fold_consistency fn sn start start path in
      ground (
        arith,
        stripped,
        e,
        bytes_eq_iff (elim out [ ok (_, fr, _) ↦ fr | _ ↦ [] ]) first,
        bytes_eq_iff (elim out [ ok (_, _, sr) ↦ sr | _ ↦ [] ]) root,
      )

  -- What `verify_consistency` found out: equal trees with equal roots, or a climb that ends in both
  -- roots and hashes strings of `ConsistencyInput`.
  verify_consistency_inv :
      (m n : ℕ) (path : List Bytes) (first root : Bytes) {fn sn : ℕ}
      → skip_ones (m - 1) (m - 1) (n - 1) ≡ (fn, sn)
      → verify_consistency m n path first root ≡ ok tt
      → ((m ≡ n) × (first ≡ root))
        ⊎ ((start : Bytes) × (rest : List Bytes) × (run_consistency m n start rest first root
              ≡ ok tt)
            × ((w : Bytes) → ClimbInput fn sn start rest w → ConsistencyInput m n path first w))
  verify_consistency_inv m n [] first root stripped e =
      inl (unfold verify_consistency in ground (arith, bytes_eq_iff first root))
  verify_consistency_inv m n (p ∷ path) first root stripped e =
      elim (Bool-cases (is_power_of_two m)) [
        | inl power ↦ inr (
          first,
          p ∷ path,
          unfold verify_consistency in ground (arith, power),
          λ w i. from_root power stripped i,
        )
        | inr between ↦ inr (
          p,
          path,
          unfold verify_consistency in ground (arith, between),
          λ w i. from_path between stripped i,
        )
      ]

  verify_consistency_sizes :
      (m n : ℕ) (path : List Bytes) (first root : Bytes)
      → verify_consistency m n path first root ≡ ok tt
      → (m ≡ n) ⊎ ((0 < m) × (m < n))
  unfolding verify_consistency
  verify_consistency_sizes m n [] first root e = inl (ground arith)
  verify_consistency_sizes m n (p ∷ path) first root e = inr (ground arith, ground arith)

  verify_consistency_same :
      (n : ℕ) (path : List Bytes) (first root : Bytes)
      → verify_consistency n n path first root ≡ ok tt
      → first ≡ root
  unfolding verify_consistency
  verify_consistency_same n [] first root e = ground (arith, bytes_eq_iff first root)
  verify_consistency_same n (p ∷ path) first root e = ground arith

  -- The proof that the log computes, and what its climb hashes.
  Linked-own :
      (xs : List Bytes) (m : ℕ)
      → 0 < m
      → m < length xs
      → (a : Linked xs m)
      → (own : List Bytes) × (compute_consistency_path (pos m) xs ≡ ok own)
        × ((w : Bytes)
            → ClimbInput a.fn a.sn a.start a.rest w
            → ConsistencyInput m (length xs) own a.first w)
  Linked-own xs m pos_m lt a = elim a.closed_path [
    | inr (between, path) ↦ (
      a.start ∷ a.rest,
      compute_consistency_path-subproof m xs pos_m lt ∙ path,
      λ w i. from_path (is_power_of_two-Between m between) a.stripped i,
    )
    | inl (j, power, is_first, path) ↦ (
      a.rest,
      compute_consistency_path-subproof m xs pos_m lt ∙ path,
      λ w i. from_root (rw power (is_power_of_two-pow2 j)) a.stripped (rw is_first at i),
    )
  ]

  -- Two different strings with one digest, out of those that are hashed for the tree of `ys` and
  -- for the tree of the first leaves of `xs`, or out of those that `verify_consistency` hashes on
  -- the way to the new root with the given proof and with the log's own.
  pub data InputsCollide (ys xs path : List Bytes) (first : Bytes) : Type 0 where
    of_trees :
        Collision (TreeInput ys) (TreeInput (take (length ys) xs)) → InputsCollide ys xs path first
    of_proofs :
        (own : List Bytes) (old : Bytes)
        → compute_consistency_path (pos (length ys)) xs ≡ ok own
        → merkle_tree_hash (take (length ys) xs) ≡ ok old
        → Collision
            (ConsistencyInput (length ys) (length xs) path first)
            (ConsistencyInput (length ys) (length xs) own old)
        → InputsCollide ys xs path first

  -- An accepted consistency proof between the root of `ys` and the root of `xs`, both of 32-byte
  -- leaf hashes, shows that `ys` is the beginning of `xs`. Otherwise two different strings have one
  -- digest: one hashed for the tree of `ys` and one for that of as many first leaves of `xs`, or
  -- one hashed by `verify_consistency` with this proof and one with the proof that the log computes.
  pub verify_consistency_append_only :
      (ys xs : List Bytes) (path : List Bytes) (first root : Bytes)
      → All IsDigest ys
      → All IsDigest xs
      → merkle_tree_hash ys ≡ ok first
      → merkle_tree_hash xs ≡ ok root
      → verify_consistency (length ys) (length xs) path first root ≡ ok tt
      → ((length ys ≤ length xs) × (ys ≡ take (length ys) xs)) ⊎ InputsCollide ys xs path first
  verify_consistency_append_only ys xs path first root dy dx is_first is_root e =
      elim (verify_consistency_sizes (length ys) (length xs) path first root e) [
        | inl size ↦
            let roots : first ≡ root =
              verify_consistency_same (length xs) path first root (rw size at e) in
            all_kept (omega arith) (rw (size, take-length, roots) is_root)
        | inr (pos_m, lt) ↦ grown lt (linked xs dx (length ys) pos_m lt) pos_m
      ]
    where
      all_kept :
          length ys ≤ length xs
          → merkle_tree_hash (take (length ys) xs) ≡ ok first
          → ((length ys ≤ length xs) × (ys ≡ take (length ys) xs)) ⊎ InputsCollide ys xs path first
      all_kept le old =
          let m = length ys in
          elim (merkle_tree_hash_binds ys (take m xs) dy (All-take IsDigest m xs dx)
            (omega (arith, length-take m xs)) is_first old) [
              | inl all ↦ inl (le, all)
              | inr c ↦ inr (of_trees c)
            ]

      grown :
          length ys < length xs
          → Linked xs (length ys)
          → 0 < length ys
          → ((length ys ≤ length xs) × (ys ≡ take (length ys) xs)) ⊎ InputsCollide ys xs path first
      grown lt a pos_m =
          elim (verify_consistency_inv (length ys) (length xs) path first root a.stripped e) [
            | inl (size, _) ↦ absurd (omega arith)
            | inr (start, rest, run, hashed) ↦
                let m = length ys in
                let climbs =
                  run_consistency_inv m (length xs) start first root rest a.stripped run in
                let new_root : a.root ≡ root = cc (a.new, is_root) in
                elim (fold_inclusion_binds a.fn a.sn start a.start root rest a.rest
                  (fold_consistency→fold_inclusion a.fn a.sn start start rest climbs)
                  (rw new_root at
                    (fold_consistency→fold_inclusion a.fn a.sn a.start a.start a.rest a.climbs))) [
                      | inr c ↦
                          let (own, is_own, own_hashed) = Linked-own xs m pos_m lt a in
                          inr
                            (of_proofs own a.first is_own a.old (Collision-map hashed own_hashed c))
                      | inl (same_start, same_rest) ↦
                          let same_first : a.first ≡ first =
                            cc (same_start, same_rest, climbs, a.climbs) in
                          all_kept (omega arith) (rw same_first at a.old)
                    ]
          ]
