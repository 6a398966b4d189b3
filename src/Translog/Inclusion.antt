-- ===== src/Translog/Inclusion.antt =====
-- translog.py: `compute_inclusion_path` against `verify_inclusion`.
use acdp_verifier_py.Prelude.{
  ℕ, zero, suc, ◌+◌, ◌-◌, ◌≤◌, ◌<◌, ◌≡◌, refl, ◌∙◌, List, [], ◌∷◌, ◌++◌, arith, length, take, drop,
  get_elem?, get_elem?-take, get_elem?-drop, some, Bytes, pos, pow2, pow2_pos, All, All-take,
  All-drop, All-append, bytes_eq_iff, lt→ltb, le→ltb_false, dec_lt,
}
use acdp_verifier_py.Errors.{ok, ◌>>=◌}
use acdp_verifier_py.Crypto.{Sha256, IsDigest}
use acdp_verifier_py.Translog.Tree.{merkle_tree_hash, inclusion_path, compute_inclusion_path}
use acdp_verifier_py.Translog.Verify.{fold_inclusion, verify_inclusion}
use acdp_verifier_py.Translog.Split.{
  largest-SplitsAt, cut, length-take-cut, length-drop-cut, tree_induction,
}
use acdp_verifier_py.Translog.Root.{
  node_hash-IsDigest, merkle_tree_hash-cut, HasRoot, merkle_tree_hash-HasRoot,
}
use acdp_verifier_py.Translog.Ascent.{
  fold_inclusion-left, fold_inclusion-right, fold_inclusion_root_left, fold_inclusion_root_right,
}

module _ ⦃h : Sha256⦄ where
  inclusion_path-fuel :
      (f g i : ℕ) (xs : List Bytes)
      → length xs ≤ f
      → length xs ≤ g
      → inclusion_path f i xs ≡ inclusion_path g i xs
  unfolding inclusion_path
  inclusion_path-fuel zero zero i xs hf hg = refl
  inclusion_path-fuel zero (suc g) i [] hf hg = refl
  inclusion_path-fuel (suc f) g i [] hf hg = refl
  inclusion_path-fuel zero (suc g) i (x ∷ xs) hf hg = absurd (omega arith)
  inclusion_path-fuel (suc f) zero i (x ∷ xs) hf hg = absurd (omega arith)
  inclusion_path-fuel (suc f) (suc g) zero (x ∷ []) hf hg = refl
  inclusion_path-fuel (suc f) (suc g) (suc i) (x ∷ []) hf hg = refl
  inclusion_path-fuel (suc f) (suc g) i (x ∷ y ∷ zs) hf hg =
      let xs = x ∷ y ∷ zs in
      let s = largest-SplitsAt (length xs) (omega arith) in
      let l = length-take-cut xs (omega arith) in
      let r = length-drop-cut xs in
      let p = pow2_pos s.exponent in
      rw (
        inclusion_path-fuel f g i (take (cut xs) xs) (omega (arith, s.below))
            (omega (arith, s.below)),
        inclusion_path-fuel f g (i - cut xs) (drop (cut xs) xs) (omega (arith, s.is_power))
            (omega (arith, s.is_power)),
      )

  -- The path in a tree of two leaves or more ends in the root of the other part.
  compute_inclusion_path-left :
      (i : ℕ) (xs : List Bytes)
      → 2 ≤ length xs
      → i < cut xs
      → compute_inclusion_path (pos i) xs ≡ (do
        path ← compute_inclusion_path (pos i) (take (cut xs) xs)
        sibling ← merkle_tree_hash (drop (cut xs) xs)
        ok (path ++ sibling ∷ []))
  unfolding compute_inclusion_path
  compute_inclusion_path-left i [] two inside = absurd (omega arith)
  compute_inclusion_path-left i (x ∷ []) two inside = absurd (omega arith)
  compute_inclusion_path-left i (x ∷ y ∷ zs) two inside =
      let xs = x ∷ y ∷ zs in
      let s = largest-SplitsAt (length xs) two in
      let part = take (cut xs) xs in
      let l = length-take-cut xs two in
      rw (
        lt→ltb i (length xs) (omega (arith, s.below)),
        lt→ltb i (cut xs) inside,
        inclusion_path-fuel (length part) (length (y ∷ zs)) i part (omega arith)
            (omega (arith, s.below)),
      )

  compute_inclusion_path-right :
      (i : ℕ) (xs : List Bytes)
      → 2 ≤ length xs
      → cut xs ≤ i
      → i < length xs
      → compute_inclusion_path (pos i) xs ≡ (do
        path ← compute_inclusion_path (pos (i - cut xs)) (drop (cut xs) xs)
        sibling ← merkle_tree_hash (take (cut xs) xs)
        ok (path ++ sibling ∷ []))
  unfolding compute_inclusion_path
  compute_inclusion_path-right i [] two behind lt = absurd (omega arith)
  compute_inclusion_path-right i (x ∷ []) two behind lt = absurd (omega arith)
  compute_inclusion_path-right i (x ∷ y ∷ zs) two behind lt =
      let xs = x ∷ y ∷ zs in
      let s = largest-SplitsAt (length xs) two in
      let part = drop (cut xs) xs in
      let r = length-drop-cut xs in
      let p = pow2_pos s.exponent in
      rw (
        lt→ltb i (length xs) lt,
        le→ltb_false i (cut xs) behind,
        inclusion_path-fuel (length part) (length (y ∷ zs)) (i - cut xs) part (omega arith)
            (omega (arith, s.is_power)),
      )

  -- A leaf with its path, which leads to the root.
  pub record Audited (xs : List Bytes) (i : ℕ) : Type 0 where
    pub leaf : Bytes
    pub path : List Bytes
    pub root : Bytes
    pub is_leaf : get_elem? xs i ≡ some leaf
    pub is_path : compute_inclusion_path (pos i) xs ≡ ok path
    pub is_root : merkle_tree_hash xs ≡ ok root
    pub climbs : fold_inclusion i (length xs - 1) leaf path ≡ ok (0, root)
    pub leaf_digest : IsDigest leaf
    pub path_digests : All IsDigest path
    pub root_digest : IsDigest root

  module _ (xs : List Bytes) (two : 2 ≤ length xs) (i : ℕ) (lt : i < length xs) where
    Audited-left :
        i < cut xs → Audited (take (cut xs) xs) i → HasRoot (drop (cut xs) xs) → Audited xs i
    Audited-left inside a r =
        let s = largest-SplitsAt (length xs) two in
        let l = length-take-cut xs two in
        let n = node_hash-IsDigest a.root r.root a.root_digest r.is_digest in
        let climbs = a.climbs in
        record {
          leaf = a.leaf;
          path = a.path ++ r.root ∷ [];
          root = h.sha256 (1 ∷ a.root ++ r.root);
          is_leaf = rw (← get_elem?-take (cut xs) i xs inside) a.is_leaf;
          is_path = rw (compute_inclusion_path-left i xs two inside, a.is_path, r.is_root);
          is_root = rw (merkle_tree_hash-cut xs two, a.is_root, r.is_root) n.0;
          climbs =
              fold_inclusion-left s.exponent i (length xs - 1) a.leaf a.root a.path (r.root ∷ [])
                (omega (arith, s.is_power)) (omega (arith, s.is_power, s.below))
                (omega (arith, s.is_power, s.reaches)) (rw (l, s.is_power) at a.climbs)
              ∙ fold_inclusion_root_left a.root r.root n.0;
          leaf_digest = a.leaf_digest;
          path_digests = All-append IsDigest a.path (r.root ∷ []) a.path_digests (r.is_digest, tt);
          root_digest = n.1;
        }

    Audited-right :
        cut xs ≤ i
        → Audited (drop (cut xs) xs) (i - cut xs)
        → HasRoot (take (cut xs) xs)
        → Audited xs i
    Audited-right behind a l =
        let s = largest-SplitsAt (length xs) two in
        let len = length-drop-cut xs in
        let n = node_hash-IsDigest l.root a.root l.is_digest a.root_digest in
        let (j, up) =
          fold_inclusion-right s.exponent (i - cut xs) (length xs - cut xs - 1) a.leaf a.root a.path
            (l.root ∷ []) (omega arith) (omega (arith, s.is_power, s.reaches, s.below))
            (rw len at a.climbs) in
        let place : pow2 s.exponent + (i - cut xs) ≡ i = omega (arith, s.is_power) in
        let last : pow2 s.exponent + (length xs - cut xs - 1) ≡ length xs - 1 =
          omega (arith, s.is_power, s.below) in
        record {
          leaf = a.leaf;
          path = a.path ++ l.root ∷ [];
          root = h.sha256 (1 ∷ l.root ++ a.root);
          is_leaf = rw (← get_elem?-drop (cut xs) i xs behind) a.is_leaf;
          is_path = rw (compute_inclusion_path-right i xs two behind lt, a.is_path, l.is_root);
          is_root = rw (merkle_tree_hash-cut xs two, l.is_root, a.is_root) n.0;
          climbs = (rw (place, last) at up) ∙ fold_inclusion_root_right j a.root l.root n.0;
          leaf_digest = a.leaf_digest;
          path_digests = All-append IsDigest a.path (l.root ∷ []) a.path_digests (l.is_digest, tt);
          root_digest = n.1;
        }

  pub audited : (xs : List Bytes) → All IsDigest xs → (i : ℕ) → i < length xs → Audited xs i
  audited =
      tree_induction (λ xs. All IsDigest xs → (i : ℕ) → i < length xs → Audited xs i)
        (λ _ i lt. absurd (omega arith)) audited_one
        λ xs two left right d i lt. audited_cut xs two left right d i lt (dec_lt i (cut xs))
    where
      audited_one : (x : Bytes) → All IsDigest (x ∷ []) → (i : ℕ) → i < 1 → Audited (x ∷ []) i
      audited_one x d zero lt = record {
        leaf = x;
        path = [];
        root = x;
        is_leaf = refl;
        is_path = unfold compute_inclusion_path in refl;
        is_root = unfold merkle_tree_hash in refl;
        climbs = unfold fold_inclusion in ground arith;
        leaf_digest = d.0;
        path_digests = tt;
        root_digest = d.0;
      }
      audited_one x d (suc i) lt = absurd (omega arith)

      audited_cut :
          (xs : List Bytes)
          → 2 ≤ length xs
          → (All IsDigest (take (cut xs) xs)
              → (i : ℕ) → i < length (take (cut xs) xs)
              → Audited (take (cut xs) xs) i)
          → (All IsDigest (drop (cut xs) xs)
              → (i : ℕ) → i < length (drop (cut xs) xs)
              → Audited (drop (cut xs) xs) i)
          → All IsDigest xs
          → (i : ℕ) → i < length xs
          → Dec (i < cut xs)
          → Audited xs i
      audited_cut xs two left right d i lt (yes inside) =
          Audited-left xs two i lt inside
            (left (All-take IsDigest (cut xs) xs d) i (omega (arith, length-take-cut xs two)))
            (merkle_tree_hash-HasRoot _ (All-drop IsDigest (cut xs) xs d))
      audited_cut xs two left right d i lt (no behind) =
          Audited-right xs two i lt (omega arith)
            (right (All-drop IsDigest (cut xs) xs d) (i - cut xs)
              (omega (arith, length-drop-cut xs)))
            (merkle_tree_hash-HasRoot _ (All-take IsDigest (cut xs) xs d))

  -- For every leaf of a log of 32-byte leaf hashes the log computes an audit path and a root, and
  -- `verify_inclusion` accepts the path for that leaf, its index, the size and the root.
  pub verify_inclusion-compute_inclusion_path :
      (xs : List Bytes)
      → All IsDigest xs
      → (i : ℕ) → i < length xs
      → (leaf : Bytes) × (path : List Bytes) × (root : Bytes) × (get_elem? xs i ≡ some leaf)
        × (compute_inclusion_path (pos i) xs ≡ ok path)
        × (merkle_tree_hash xs ≡ ok root)
        × (verify_inclusion leaf (pos i) (pos (length xs)) path root ≡ ok tt)
  verify_inclusion-compute_inclusion_path xs d i lt =
      let a = audited xs d i lt in
      (
        a.leaf,
        a.path,
        a.root,
        a.is_leaf,
        a.is_path,
        a.is_root,
        unfold verify_inclusion in
            rw (lt→ltb i (length xs) lt, a.climbs, (bytes_eq_iff a.root a.root).1 refl),
      )
