-- ===== src/Translog/Root.antt =====
-- `merkle_tree_hash` by its two parts, whatever the fuel, and the size of a root.
use acdp_verifier_py.Prelude.{
  ℕ, zero, suc, ◌≤◌, ◌≡◌, refl, List, [], ◌∷◌, ◌++◌, arith, length, take, drop, Bytes, pow2_pos,
  All, All-take, All-drop, All-append,
}
use acdp_verifier_py.Errors.{ok, ◌>>=◌}
use acdp_verifier_py.Crypto.{Sha256, IsDigest}
use acdp_verifier_py.Translog.Tree.{node_hash, hash_tree, merkle_tree_hash}
use acdp_verifier_py.Translog.Split.{
  largest-SplitsAt, cut, length-take-cut, length-drop-cut, tree_induction,
}

module _ ⦃h : Sha256⦄ where
  pub node_hash-IsDigest :
      (l r : Bytes)
      → IsDigest l
      → IsDigest r
      → (node_hash l r ≡ ok (h.sha256 (1 ∷ l ++ r))) × IsDigest (h.sha256 (1 ∷ l ++ r))
  unfolding node_hash
  node_hash-IsDigest l r dl dr = (
    ground (arith, dl.size, dr.size),
    h.sha256-IsDigest (1 ∷ l ++ r) (omega arith, All-append _ l r dl.bytes dr.bytes),
  )

  hash_tree-fuel :
      (f g : ℕ) (xs : List Bytes) → length xs ≤ f → length xs ≤ g → hash_tree f xs ≡ hash_tree g xs
  unfolding hash_tree
  hash_tree-fuel zero zero xs hf hg = refl
  hash_tree-fuel zero (suc g) [] hf hg = refl
  hash_tree-fuel (suc f) g [] hf hg = refl
  hash_tree-fuel zero (suc g) (x ∷ []) hf hg = refl
  hash_tree-fuel (suc f) g (x ∷ []) hf hg = refl
  hash_tree-fuel zero (suc g) (x ∷ y ∷ zs) hf hg = absurd (omega arith)
  hash_tree-fuel (suc f) zero (x ∷ y ∷ zs) hf hg = absurd (omega arith)
  hash_tree-fuel (suc f) (suc g) (x ∷ y ∷ zs) hf hg =
      let xs = x ∷ y ∷ zs in
      let s = largest-SplitsAt (length xs) (omega arith) in
      let l = length-take-cut xs (omega arith) in
      let r = length-drop-cut xs in
      let p = pow2_pos s.exponent in
      rw (
        hash_tree-fuel f g (take (cut xs) xs) (omega (arith, s.below)) (omega (arith, s.below)),
        hash_tree-fuel f g (drop (cut xs) xs) (omega (arith, s.is_power))
            (omega (arith, s.is_power)),
      )

  -- The root of two leaves or more is the node over the roots of the two parts.
  pub merkle_tree_hash-cut :
      (xs : List Bytes)
      → 2 ≤ length xs
      → merkle_tree_hash xs ≡ (do
        left ← merkle_tree_hash (take (cut xs) xs)
        right ← merkle_tree_hash (drop (cut xs) xs)
        node_hash left right)
  unfolding merkle_tree_hash
  merkle_tree_hash-cut [] two = absurd (omega arith)
  merkle_tree_hash-cut (x ∷ []) two = absurd (omega arith)
  merkle_tree_hash-cut (x ∷ y ∷ zs) two =
      let xs = x ∷ y ∷ zs in
      let f = length (y ∷ zs) in
      let s = largest-SplitsAt (length xs) two in
      let l = length-take-cut xs two in
      let r = length-drop-cut xs in
      let p = pow2_pos s.exponent in
      rw (
        hash_tree-fuel (length (take (cut xs) xs)) f (take (cut xs) xs) (omega arith)
            (omega (arith, s.below)),
        hash_tree-fuel (length (drop (cut xs) xs)) f (drop (cut xs) xs) (omega arith)
            (omega (arith, s.is_power)),
      )

  -- The root of a list of leaves exists and is a digest.
  pub record HasRoot (xs : List Bytes) : Type 0 where
    pub root : Bytes
    pub is_root : merkle_tree_hash xs ≡ ok root
    pub is_digest : IsDigest root

  pub merkle_tree_hash-HasRoot : (xs : List Bytes) → All IsDigest xs → HasRoot xs
  unfolding merkle_tree_hash
  merkle_tree_hash-HasRoot =
      tree_induction (λ xs. All IsDigest xs → HasRoot xs)
        (λ _. record { root = _; is_root = refl; is_digest = h.sha256-IsDigest [] tt })
        (λ x d. record { root = x; is_root = refl; is_digest = d.0 })
        λ xs two left right d.
          let l = left (All-take IsDigest (cut xs) xs d) in
          let r = right (All-drop IsDigest (cut xs) xs d) in
          let n = node_hash-IsDigest l.root r.root l.is_digest r.is_digest in
          record {
            root = h.sha256 (1 ∷ l.root ++ r.root);
            is_root = rw (merkle_tree_hash-cut xs two, l.is_root, r.is_root) n.0;
            is_digest = n.1;
          }
