-- ===== src/Translog/Sound.antt =====
-- translog.py: accepted inclusion proofs and equal roots.
use acdp_verifier_py.Prelude.{
  ℕ, ◌-◌, ◌≤◌, ◌<◌, ◌≡◌, refl, sym, ◌⊎◌, inl, inr, List, [], ◌∷◌, ◌++◌, arith, length, take, drop,
  get_elem?, take-append-drop, length-take, length-drop, Bytes, some, bytes_eq_iff, All, All-take,
  All-drop, pos,
}
use acdp_verifier_py.Errors.{ok}
use acdp_verifier_py.Crypto.{Sha256, IsDigest, Collision, Collision-map}
use acdp_verifier_py.Translog.Hashed.{TreeInput, ClimbInput, node_input, left_part, right_part}
use acdp_verifier_py.Translog.Tree.{node_hash, merkle_tree_hash, compute_inclusion_path}
use acdp_verifier_py.Translog.Verify.{fold_inclusion, verify_inclusion}
use acdp_verifier_py.Translog.Split.{cut, tree_induction}
use acdp_verifier_py.Translog.Root.{merkle_tree_hash-cut, merkle_tree_hash-HasRoot}
use acdp_verifier_py.Translog.Inclusion.{audited}
use acdp_verifier_py.Translog.Binding.{fold_inclusion_binds, node_hash_binds}

module _ ⦃h : Sha256⦄ where
  verify_inclusion_inv :
      (leaf : Bytes) (i n : ℕ) (path : List Bytes) (root : Bytes)
      → verify_inclusion leaf (pos i) (pos n) path root ≡ ok tt
      → (i < n) × (fold_inclusion i (n - 1) leaf path ≡ ok (0, root))
  unfolding verify_inclusion
  verify_inclusion_inv leaf i n path root e = ground (
    arith,
    e,
    bytes_eq_iff (elim (fold_inclusion i (n - 1) leaf path) [ ok (_, r) ↦ r | _ ↦ [] ]) root,
  )

  -- An accepted proof for the root of a log is the log's own: the leaf stands at that index and the
  -- path is the one that the log computes. Otherwise two different strings have one digest, the one
  -- hashed on the way up from the log's own leaf along its own path, the other hashed by
  -- `verify_inclusion` along the given path.
  pub verify_inclusion_sound :
      (xs : List Bytes) (i : ℕ) (leaf : Bytes) (path : List Bytes) (root : Bytes)
      → All IsDigest xs
      → merkle_tree_hash xs ≡ ok root
      → verify_inclusion leaf (pos i) (pos (length xs)) path root ≡ ok tt
      → ((get_elem? xs i ≡ some leaf) × (compute_inclusion_path (pos i) xs ≡ ok path))
        ⊎ ((own : Bytes) × (own_path : List Bytes) × (get_elem? xs i ≡ some own)
            × (compute_inclusion_path (pos i) xs ≡ ok own_path)
            × Collision
                (ClimbInput i (length xs - 1) own own_path)
                (ClimbInput i (length xs - 1) leaf path))
  verify_inclusion_sound xs i leaf path root d is_root e =
      let (lt, climbs) = verify_inclusion_inv leaf i (length xs) path root e in
      let a = audited xs d i lt in
      let same : a.root ≡ root = cc (is_root, a.is_root) in
      elim (fold_inclusion_binds i (length xs - 1) a.leaf leaf root a.path path
        (rw same at a.climbs) climbs) [
          | inl (same_leaf, same_path) ↦ inl (rw same_leaf at a.is_leaf, rw same_path at a.is_path)
          | inr c ↦ inr (a.leaf, a.path, a.is_leaf, a.is_path, c)
        ]

  abbrev Binds : List Bytes → Type 0
  Binds xs =
      (ys : List Bytes) (root : Bytes)
      → All IsDigest xs
      → All IsDigest ys
      → length ys ≡ length xs
      → merkle_tree_hash xs ≡ ok root
      → merkle_tree_hash ys ≡ ok root
      → (xs ≡ ys) ⊎ Collision (TreeInput xs) (TreeInput ys)

  joined :
      (k : ℕ) (xs ys : List Bytes)
      → k ≡ cut xs
      → k ≡ cut ys
      → 2 ≤ length xs
      → 2 ≤ length ys
      → (take k xs ≡ take k ys) ⊎ Collision (TreeInput (take k xs)) (TreeInput (take k ys))
      → (drop k xs ≡ drop k ys) ⊎ Collision (TreeInput (drop k xs)) (TreeInput (drop k ys))
      → (xs ≡ ys) ⊎ Collision (TreeInput xs) (TreeInput ys)
  joined k xs ys kx ky two two' (inl l) (inl r) =
      inl (cc (take-append-drop k xs, take-append-drop k ys))
  joined k xs ys kx ky two two' (inr c) r =
      inr (Collision-map (λ w i. left_part two (rw kx at i)) (λ w i. left_part two' (rw ky at i)) c)
  joined k xs ys kx ky two two' (inl l) (inr c) =
      inr
        (Collision-map (λ w i. right_part two (rw kx at i)) (λ w i. right_part two' (rw ky at i)) c)

  Binds-empty : Binds []
  Binds-empty [] root d d' len e e' = inl refl
  Binds-empty (y ∷ ys) root d d' len e e' = absurd (omega arith)

  Binds-one : (x : Bytes) → Binds (x ∷ [])
  unfolding merkle_tree_hash
  Binds-one x [] root d d' len e e' = absurd (omega arith)
  Binds-one x (y ∷ []) root d d' len e e' = inl (cc)
  Binds-one x (y ∷ z ∷ ys) root d d' len e e' = absurd (omega arith)

  Binds-cut :
      (xs : List Bytes)
      → 2 ≤ length xs
      → Binds (take (cut xs) xs)
      → Binds (drop (cut xs) xs)
      → Binds xs
  Binds-cut xs two left right ys root d d' len e e' =
      let k = cut xs in
      let same_cut : cut ys ≡ cut xs = rw len in
      let dl = All-take IsDigest k xs d in
      let dr = All-drop IsDigest k xs d in
      let dl' = All-take IsDigest k ys d' in
      let dr' = All-drop IsDigest k ys d' in
      let l = merkle_tree_hash-HasRoot (take k xs) dl in
      let r = merkle_tree_hash-HasRoot (drop k xs) dr in
      let l' = merkle_tree_hash-HasRoot (take k ys) dl' in
      let r' = merkle_tree_hash-HasRoot (drop k ys) dr' in
      let node : node_hash l.root r.root ≡ ok root =
        rw (merkle_tree_hash-cut xs two, l.is_root, r.is_root) at e in
      let node' : node_hash l'.root r'.root ≡ ok root =
        rw (merkle_tree_hash-cut ys (omega arith), len, l'.is_root, r'.is_root) at e' in
      let two' : 2 ≤ length ys = omega arith in
      let input : TreeInput xs (1 ∷ l.root ++ r.root) = node_input two l.is_root r.is_root in
      let input' : TreeInput ys (1 ∷ l'.root ++ r'.root) =
        node_input {l = l'.root} {r = r'.root} two' (rw same_cut l'.is_root)
          (rw same_cut r'.is_root) in
      elim (node_hash_binds {P = TreeInput xs} {Q = TreeInput ys} l.root r.root l'.root r'.root
        input input' node node') [
          | inr c ↦ inr c
          | inl (same_l, same_r) ↦
              joined k xs ys refl (sym same_cut) two two'
                (left (take k ys) l.root dl dl' (omega (arith, length-take k xs, length-take k ys))
                  l.is_root (rw same_l l'.is_root))
                (right (drop k ys) r.root dr dr' (omega (arith, length-drop k xs, length-drop k ys))
                  r.is_root (rw same_r r'.is_root))
        ]

  -- Two lists of 32-byte leaf hashes of one length and one root are one list. Otherwise a string
  -- that is hashed for the tree of the one and a different string that is hashed for the tree of
  -- the other have one digest.
  pub merkle_tree_hash_binds :
      (xs ys : List Bytes) {root : Bytes}
      → All IsDigest xs
      → All IsDigest ys
      → length ys ≡ length xs
      → merkle_tree_hash xs ≡ ok root
      → merkle_tree_hash ys ≡ ok root
      → (xs ≡ ys) ⊎ Collision (TreeInput xs) (TreeInput ys)
  merkle_tree_hash_binds xs ys d d' len e e' =
      tree_induction Binds Binds-empty Binds-one Binds-cut xs ys _ d d' len e e'
