-- ===== src/Translog/Consistency.antt =====
-- translog.py: `verify_consistency` accepts what `compute_consistency_path` gives.
use acdp_verifier_py.Prelude.{
  ℕ, ◌-◌, ◌≤◌, ◌<◌, ◌≡◌, refl, ◌∙◌, ◌⊎◌, inl, inr, true, List, [], ◌∷◌, arith, length, take,
  take-length, Bytes, if◌then◌else◌, bytes_eq_iff, All, pos, lt→ltb, le→leb, lt→==_false, ==_iff,
}
use acdp_verifier_py.Errors.{ok}
use acdp_verifier_py.Crypto.{Sha256, IsDigest}
use acdp_verifier_py.Translog.Tree.{merkle_tree_hash, compute_consistency_path}
use acdp_verifier_py.Translog.Verify.{
  skip_ones, fold_consistency, run_consistency, verify_consistency, is_power_of_two,
}
use acdp_verifier_py.Translog.Root.{merkle_tree_hash-HasRoot}
use acdp_verifier_py.Translog.Linked.{Linked, linked}
use acdp_verifier_py.Translog.Subproof.{proof_of}
use acdp_verifier_py.Translog.Power.{is_power_of_two-pow2, is_power_of_two-Between}

module _ ⦃h : Sha256⦄ where
  pub compute_consistency_path-subproof :
      (m : ℕ) (xs : List Bytes)
      → 0 < m
      → m < length xs
      → compute_consistency_path (pos m) xs ≡ proof_of m xs true
  unfolding compute_consistency_path
  compute_consistency_path-subproof m xs pos_m lt =
      rw (lt→ltb 0 m pos_m, le→leb m (length xs) (omega arith), lt→==_false m (length xs) lt)

  compute_consistency_path-same :
      (xs : List Bytes) → 0 < length xs → compute_consistency_path (pos (length xs)) xs ≡ ok []
  unfolding compute_consistency_path
  compute_consistency_path-same xs pos_n = rw (
    lt→ltb 0 (length xs) pos_n,
    le→leb (length xs) (length xs) (omega arith),
    (==_iff (length xs) (length xs)).1 refl,
  )

  verify_consistency_grown :
      (m n : ℕ) (p : Bytes) (path : List Bytes) (first root : Bytes)
      → 0 < m
      → m < n
      → verify_consistency m n (p ∷ path) first root ≡ (
          if is_power_of_two m
          then run_consistency m n first (p ∷ path) first root
          else run_consistency m n p path first root)
  unfolding verify_consistency
  verify_consistency_grown m n p path first root pos_m lt = ground arith

  run_consistency_accepts :
      (m n : ℕ) (start first root : Bytes) (path : List Bytes) {fn sn : ℕ}
      → skip_ones (m - 1) (m - 1) (n - 1) ≡ (fn, sn)
      → fold_consistency fn sn start start path ≡ ok (0, first, root)
      → run_consistency m n start path first root ≡ ok tt
  unfolding run_consistency
  run_consistency_accepts m n start first root path stripped climbs =
      ground (
        arith,
        stripped,
        climbs,
        (bytes_eq_iff first first).1 refl,
        (bytes_eq_iff root root).1 refl,
      )

  -- The two roots and the proof between them, for a log that has kept its first `m` leaves.
  pub record Consistent (xs : List Bytes) (m : ℕ) : Type 0 where
    pub path : List Bytes
    pub first : Bytes
    pub root : Bytes
    pub is_path : compute_consistency_path (pos m) xs ≡ ok path
    pub is_first : merkle_tree_hash (take m xs) ≡ ok first
    pub is_root : merkle_tree_hash xs ≡ ok root
    pub accepted : verify_consistency m (length xs) path first root ≡ ok tt

  Consistent-same : (xs : List Bytes) → All IsDigest xs → 0 < length xs → Consistent xs (length xs)
  Consistent-same xs d pos_n =
      let r = merkle_tree_hash-HasRoot xs d in
      record {
        path = [];
        first = r.root;
        root = r.root;
        is_path = compute_consistency_path-same xs pos_n;
        is_first = rw take-length r.is_root;
        is_root = r.is_root;
        accepted =
            unfold verify_consistency in
            rw ((==_iff (length xs) (length xs)).1 refl, (bytes_eq_iff r.root r.root).1 refl);
      }

  Consistent-grown :
      (xs : List Bytes) (m : ℕ) → 0 < m → m < length xs → Linked xs m → Consistent xs m
  Consistent-grown xs m pos_m lt a = elim a.closed_path [
    | inr (between, path) ↦ record {
      path = a.start ∷ a.rest;
      first = a.first;
      root = a.root;
      is_path = compute_consistency_path-subproof m xs pos_m lt ∙ path;
      is_first = a.old;
      is_root = a.new;
      accepted =
          rw
            (
              verify_consistency_grown m (length xs) a.start a.rest a.first a.root pos_m lt,
              is_power_of_two-Between m between,
            )
            (run_consistency_accepts m (length xs) a.start a.first a.root a.rest a.stripped
              a.climbs);
    }
    | inl (j, power, is_first, path) ↦ record {
      path = a.rest;
      first = a.first;
      root = a.root;
      is_path = compute_consistency_path-subproof m xs pos_m lt ∙ path;
      is_first = a.old;
      is_root = a.new;
      accepted = full a.rest (a.grows lt) (rw power (is_power_of_two-pow2 j)) (
          run_consistency_accepts m (length xs) a.first a.first a.root a.rest a.stripped
            (rw is_first at a.climbs));
    }
  ]
    where
      full :
          (rest : List Bytes)
          → 0 < length rest
          → is_power_of_two m ≡ true
          → run_consistency m (length xs) a.first rest a.first a.root ≡ ok tt
          → verify_consistency m (length xs) rest a.first a.root ≡ ok tt
      full [] some_left power run = absurd (omega arith)
      full (p ∷ rest) some_left power run =
          rw (verify_consistency_grown m (length xs) p rest a.first a.root pos_m lt, power) run

  -- For a log of 32-byte leaf hashes and any `m` of its first leaves, at least one, the log computes
  -- a proof, and `verify_consistency` accepts it for the root of these `m` leaves and the root of all.
  pub verify_consistency-compute_consistency_path :
      (xs : List Bytes) → All IsDigest xs → (m : ℕ) → 0 < m → m ≤ length xs → Consistent xs m
  verify_consistency-compute_consistency_path xs d m pos_m le = elim (grown m (length xs) le) [
    | inl lt ↦ Consistent-grown xs m pos_m lt (linked xs d m pos_m lt)
    | inr same ↦ rw same (Consistent-same xs d (omega arith))
  ]
    where
      grown : (m n : ℕ) → m ≤ n → (m < n) ⊎ (m ≡ n)
      grown m n le = grind arith
