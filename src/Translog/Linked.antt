-- ===== src/Translog/Linked.antt =====
-- The consistency proof that a log computes, and the climb that `verify_consistency` makes on it:
-- by induction over the tree.
use acdp_verifier_py.Prelude.{
  ℕ, ◌+◌, ◌-◌, ◌*◌, ◌≤◌, ◌<◌, ◌≡◌, refl, ◌∙◌, ◌⊎◌, inl, inr, true, false, List, [], ◌∷◌, ◌++◌,
  arith, length, take, drop, length-take, take-take, drop-take, take-length, Bytes, pow2, pow2_pos,
  All, All-append, All-take, All-drop, length-append,
}
use acdp_verifier_py.Errors.{ok}
use acdp_verifier_py.Crypto.{Sha256, IsDigest}
use acdp_verifier_py.Translog.Tree.{node_hash, merkle_tree_hash}
use acdp_verifier_py.Translog.Verify.{skip_ones, fold_consistency}
use acdp_verifier_py.Translog.Split.{
  SplitsAt-unique, cut, tree_induction, largest-SplitsAt, length-take-cut, length-drop-cut,
}
use acdp_verifier_py.Translog.Root.{
  node_hash-IsDigest, merkle_tree_hash-cut, merkle_tree_hash-HasRoot,
}
use acdp_verifier_py.Translog.Index.{skip_ones-left, skip_ones-right, skip_ones-full}
use acdp_verifier_py.Translog.Pair.{
  fold_consistency-left, fold_consistency-right, fold_consistency_root_left,
  fold_consistency_root_right,
}
use acdp_verifier_py.Translog.Subproof.{proof_of, proof_of-whole, proof_of-left, proof_of-right}

-- Strictly between two powers of two.
abbrev pub Between : ℕ → Type 0
Between m = (j : ℕ) × (pow2 j < m) × (m < 2 * pow2 j)

module _ ⦃h : Sha256⦄ where
  -- The first `m` leaves of `xs` and all of them, with the proof that joins the two roots. Where
  -- `m` is a power of two the proof leaves out its first hash, which is the old root.
  pub record Linked (xs : List Bytes) (m : ℕ) : Type 0 where
    pub start : Bytes
    pub first : Bytes
    pub root : Bytes
    pub rest : List Bytes
    pub fn : ℕ
    pub sn : ℕ
    pub old : merkle_tree_hash (take m xs) ≡ ok first
    pub new : merkle_tree_hash xs ≡ ok root
    pub open_path : proof_of m xs false ≡ ok (start ∷ rest)
    pub closed_path :
        ((j : ℕ) × (m ≡ pow2 j) × (start ≡ first) × (proof_of m xs true ≡ ok rest))
        ⊎ (Between m × (proof_of m xs true ≡ ok (start ∷ rest)))
    pub stripped : skip_ones (m - 1) (m - 1) (length xs - 1) ≡ (fn, sn)
    pub climbs : fold_consistency fn sn start start rest ≡ ok (0, first, root)
    pub start_digest : IsDigest start
    pub first_digest : IsDigest first
    pub root_digest : IsDigest root
    pub rest_digests : All IsDigest rest
    pub grows : m < length xs → 0 < length rest

  -- A full tree, against itself.
  Linked-full :
      (j : ℕ) (xs : List Bytes) → All IsDigest xs → length xs ≡ pow2 j → Linked xs (length xs)
  Linked-full j xs d full =
      let r = merkle_tree_hash-HasRoot xs d in
      let q = pow2_pos j in
      record {
        start = r.root;
        first = r.root;
        root = r.root;
        rest = [];
        fn = 0;
        sn = 0;
        old = rw take-length r.is_root;
        new = r.is_root;
        open_path = rw (proof_of-whole xs false (omega arith), r.is_root);
        closed_path = inl (j, full, refl, rw (proof_of-whole xs true (omega arith)));
        stripped = rw full (skip_ones-full j (pow2 j - 1) (omega arith));
        climbs = unfold fold_consistency in refl;
        start_digest = r.is_digest;
        first_digest = r.is_digest;
        root_digest = r.is_digest;
        rest_digests = tt;
        grows = λ lt. absurd (omega arith);
      }

  module _ (xs : List Bytes) (two : 2 ≤ length xs) (d : All IsDigest xs) (m : ℕ) (pos_m : 0 < m)
      (lt : m < length xs) where
    Linked-left : m ≤ cut xs → Linked (take (cut xs) xs) m → Linked xs m
    Linked-left inside a =
        let k = cut xs in
        let s = largest-SplitsAt (length xs) two in
        let len = length-take-cut xs two in
        let r = merkle_tree_hash-HasRoot (drop k xs) (All-drop IsDigest k xs d) in
        let n = node_hash-IsDigest a.root r.root a.root_digest r.is_digest in
        let (i, b, t, sub, whole, ha, hs, hs') =
          skip_ones-left s.exponent (m - 1) (length xs - 1) (m - 1) (omega (arith, s.is_power))
            (omega (arith, s.is_power, s.below)) (omega (arith, s.is_power, s.reaches)) in
        let size : length (take k xs) ≡ pow2 s.exponent = omega (arith, s.is_power) in
        let same : ◌≡◌ {A = ℕ × ℕ} (a.fn, a.sn) (b, pow2 i - 1) = cc (size, a.stripped, sub) in
        let climbs : fold_consistency b (pow2 i - 1) a.start a.start a.rest
            ≡ ok (0, a.first, a.root) =
          cc (same, a.climbs) in
        record {
          start = a.start;
          first = a.first;
          root = h.sha256 (1 ∷ a.root ++ r.root);
          rest = a.rest ++ r.root ∷ [];
          fn = b;
          sn = t;
          old = rw (← take-take k m xs inside) a.old;
          new = rw (merkle_tree_hash-cut xs two, a.new, r.is_root) n.0;
          open_path = rw (proof_of-left m xs false pos_m lt inside, a.open_path, r.is_root);
          closed_path = elim a.closed_path [
            | inl (j, power, is_first, path) ↦
                inl (
                  j,
                  power,
                  is_first,
                  rw (proof_of-left m xs true pos_m lt inside, path, r.is_root),
                )
            | inr (between, path) ↦
                inr (between, rw (proof_of-left m xs true pos_m lt inside, path, r.is_root))
          ];
          stripped = whole;
          climbs =
              fold_consistency-left i b t a.start a.start a.first a.root a.rest (r.root ∷ []) ha hs
                hs' climbs
              ∙ fold_consistency_root_left a.first a.root r.root n.0;
          start_digest = a.start_digest;
          first_digest = a.first_digest;
          root_digest = n.1;
          rest_digests = All-append IsDigest a.rest (r.root ∷ []) a.rest_digests (r.is_digest, tt);
          grows = λ _. omega (arith, length-append a.rest (r.root ∷ []));
        }

    -- The old tree is cut where the new one is.
    old_root :
        cut xs < m
        → (a : Linked (drop (cut xs) xs) (m - cut xs)) (l : Bytes) {first : Bytes}
        → merkle_tree_hash (take (cut xs) xs) ≡ ok l
        → node_hash l a.first ≡ ok first
        → merkle_tree_hash (take m xs) ≡ ok first
    old_root behind a l {first} is_l is_first =
        let k = cut xs in
        let s = largest-SplitsAt (length xs) two in
        let p = pow2_pos s.exponent in
        let size : length (take m xs) ≡ m = omega (arith, length-take m xs) in
        let old_cut : cut (take m xs) ≡ k = rw size (
          SplitsAt-unique (largest-SplitsAt m (omega (arith, s.is_power))) (record {
            exponent = s.exponent;
            is_power = s.is_power;
            below = behind;
            reaches = omega (arith, s.reaches);
          })) in
        rw
          (
            merkle_tree_hash-cut (take m xs) (omega (arith, s.is_power)),
            old_cut,
            take-take m k xs (omega arith),
            drop-take m k xs,
            is_l,
            a.old,
          )
          is_first

    Linked-right : cut xs < m → Linked (drop (cut xs) xs) (m - cut xs) → Linked xs m
    Linked-right behind a =
        let k = cut xs in
        let s = largest-SplitsAt (length xs) two in
        let p = pow2_pos s.exponent in
        let len = length-drop-cut xs in
        let l = merkle_tree_hash-HasRoot (take k xs) (All-take IsDigest k xs d) in
        let n = node_hash-IsDigest l.root a.root l.is_digest a.root_digest in
        let n' = node_hash-IsDigest l.root a.first l.is_digest a.first_digest in
        let (i, b, t, sub, whole, le, less) =
          skip_ones-right s.exponent (m - k - 1) (length xs - k - 1) (m - k - 1) (m - 1)
            (omega (arith, s.is_power)) (omega (arith, s.is_power, s.reaches, s.below))
            (omega arith) (omega (arith, s.is_power)) in
        let same : ◌≡◌ {A = ℕ × ℕ} (a.fn, a.sn) (b, t) = cc (len, a.stripped, sub) in
        let climbs : fold_consistency b t a.start a.start a.rest ≡ ok (0, a.first, a.root) =
          cc (same, a.climbs) in
        let (j, up) =
          fold_consistency-right i b t a.start a.start a.first a.root a.rest (l.root ∷ []) le less
            climbs in
        let place : pow2 s.exponent + (m - k - 1) ≡ m - 1 = omega (arith, s.is_power) in
        let last : pow2 s.exponent + (length xs - k - 1) ≡ length xs - 1 =
          omega (arith, s.is_power, s.below) in
        record {
          start = a.start;
          first = h.sha256 (1 ∷ l.root ++ a.first);
          root = h.sha256 (1 ∷ l.root ++ a.root);
          rest = a.rest ++ l.root ∷ [];
          fn = pow2 i + b;
          sn = pow2 i + t;
          old = old_root behind a l.root l.is_root n'.0;
          new = rw (merkle_tree_hash-cut xs two, l.is_root, a.new) n.0;
          open_path = rw (proof_of-right m xs false lt behind, a.open_path, l.is_root);
          closed_path = inr (
            (s.exponent, omega (arith, s.is_power), omega (arith, s.is_power, s.reaches)),
            rw (proof_of-right m xs true lt behind, a.open_path, l.is_root),
          );
          stripped = cc (place, last, whole);
          climbs = up ∙ fold_consistency_root_right j a.first a.root l.root n'.0 n.0;
          start_digest = a.start_digest;
          first_digest = n'.1;
          root_digest = n.1;
          rest_digests = All-append IsDigest a.rest (l.root ∷ []) a.rest_digests (l.is_digest, tt);
          grows = λ _. omega (arith, length-append a.rest (l.root ∷ []));
        }

  -- The old leaves are some of the new ones, or all of a full tree.
  abbrev Fits : List Bytes → ℕ → Type 0
  Fits xs m = (m < length xs) ⊎ ((m ≡ length xs) × (j : ℕ) × (length xs ≡ pow2 j))

  abbrev Links : List Bytes → Type 0
  Links xs = All IsDigest xs → (m : ℕ) → 0 < m → Fits xs m → Linked xs m

  Links-one : (x : Bytes) → Links (x ∷ [])
  Links-one x d m pos_m (inl lt) = absurd (omega arith)
  Links-one x d m pos_m (inr (e, _, _)) = rw e (Linked-full 0 (x ∷ []) d refl)

  Links-cut :
      (xs : List Bytes)
      → 2 ≤ length xs
      → Links (take (cut xs) xs)
      → Links (drop (cut xs) xs)
      → Links xs
  Links-cut xs two left right d m pos_m (inr (e, j, full)) = rw e (Linked-full j xs d full)
  Links-cut xs two left right d m pos_m (inl lt) =
      let k = cut xs in
      let s = largest-SplitsAt (length xs) two in
      let l = length-take-cut xs two in
      let r = length-drop-cut xs in
      let dl = All-take IsDigest k xs d in
      let dr = All-drop IsDigest k xs d in
      elim (place m k) [
        | inl less ↦
            Linked-left xs two d m pos_m lt (omega arith) (left dl m pos_m (inl (omega arith)))
        | inr (inl same) ↦
            Linked-left xs two d m pos_m lt (omega arith)
              (left dl m pos_m (inr (omega arith, s.exponent, omega (arith, s.is_power))))
        | inr (inr more) ↦
            Linked-right xs two d m pos_m lt more
              (right dr (m - k) (omega arith) (inl (omega arith)))
      ]
    where
      place : (m k : ℕ) → (m < k) ⊎ ((m ≡ k) ⊎ (k < m))
      place m k = grind arith

  pub linked : (xs : List Bytes) → All IsDigest xs → (m : ℕ) → 0 < m → m < length xs → Linked xs m
  linked xs d m pos_m lt =
      tree_induction Links (λ d m pos_m f. absurd (empty m pos_m f)) Links-one Links-cut xs d m
        pos_m (inl lt)
    where
      empty : (m : ℕ) → 0 < m → Fits [] m → ⊥
      empty m pos_m (inl lt) = omega arith
      empty m pos_m (inr (e, _, _)) = omega arith
