-- ===== src/Translog/Tree.antt =====
-- translog.py: node hashes, the Merkle tree hash, and the audit and consistency paths.
use acdp_verifier_py.Prelude.{
  ℕ, zero, suc, ◌*◌, ◌-◌, Bool, true, false, ◌&&◌, List, [], ◌∷◌, ◌++◌, ltb, leb, ◌==◌,
  if◌then◌else◌, length, take, drop, Bytes, ℤ, pos, negsuc,
}
use acdp_verifier_py.Errors.{Result, ok, raise, out_of_fuel, ◌>>=◌, invalid_log_proof}
use acdp_verifier_py.Crypto.{Sha256}

module _ ⦃h : Sha256⦄ where
  unfoldable pub node_hash : Bytes → Bytes → Result Bytes
  node_hash left right =
      if length left == 32 && length right == 32
      then ok (h.sha256 (1 ∷ left ++ right))
      else raise invalid_log_proof

-- `k = 1; while k * 2 < n: k *= 2`, on fuel `n`.
unfoldable pub doubling : ℕ → ℕ → ℕ → ℕ
doubling zero k n = k
doubling (suc f) k n = let more = doubling f (k * 2) n in if ltb (k * 2) n then more else k

unfoldable pub largest_power_of_two_less_than : ℕ → ℕ
unfolding doubling
largest_power_of_two_less_than n = doubling n 1 n

module _ ⦃h : Sha256⦄ where
  -- The recursion of `merkle_tree_hash`, on fuel.
  unfoldable pub hash_tree : ℕ → List Bytes → Result Bytes
  unfolding node_hash largest_power_of_two_less_than
  hash_tree f [] = ok (h.sha256 [])
  hash_tree f (x ∷ []) = ok x
  hash_tree zero (x ∷ y ∷ zs) = out_of_fuel
  hash_tree (suc f) (x ∷ y ∷ zs) =
      let k = largest_power_of_two_less_than (length (x ∷ y ∷ zs)) in
      do
        left ← hash_tree f (take k (x ∷ y ∷ zs))
        right ← hash_tree f (drop k (x ∷ y ∷ zs))
        node_hash left right

  unfoldable pub merkle_tree_hash : List Bytes → Result Bytes
  unfolding hash_tree
  merkle_tree_hash leaf_hashes = hash_tree (length leaf_hashes) leaf_hashes

  -- The recursion of `compute_inclusion_path`, on fuel.
  unfoldable pub inclusion_path : ℕ → ℕ → List Bytes → Result (List Bytes)
  unfolding merkle_tree_hash largest_power_of_two_less_than
  inclusion_path f index [] = raise invalid_log_proof
  inclusion_path f zero (x ∷ []) = ok []
  inclusion_path f (suc index) (x ∷ []) = raise invalid_log_proof
  inclusion_path zero index (x ∷ y ∷ zs) = out_of_fuel
  inclusion_path (suc f) index (x ∷ y ∷ zs) =
      let hashes = x ∷ y ∷ zs in
      let n = length hashes in
      let k = largest_power_of_two_less_than n in
      let in_left = do
        path ← inclusion_path f index (take k hashes)
        sibling ← merkle_tree_hash (drop k hashes)
        ok (path ++ sibling ∷ [])
      in let in_right = do
        path ← inclusion_path f (index - k) (drop k hashes)
        sibling ← merkle_tree_hash (take k hashes)
        ok (path ++ sibling ∷ [])
        in if ltb index n
          then (if ltb index k then in_left else in_right)
          else raise invalid_log_proof

  unfoldable pub compute_inclusion_path : ℤ → List Bytes → Result (List Bytes)
  unfolding inclusion_path
  compute_inclusion_path (pos index) leaf_hashes =
      inclusion_path (length leaf_hashes) index leaf_hashes
  compute_inclusion_path (negsuc _) leaf_hashes = raise invalid_log_proof

  -- `_subproof`, on fuel.
  unfoldable pub subproof : ℕ → ℕ → List Bytes → Bool → Result (List Bytes)
  unfolding merkle_tree_hash largest_power_of_two_less_than
  subproof zero m hashes complete = out_of_fuel
  subproof (suc f) m hashes complete =
      let n = length hashes in
      let k = largest_power_of_two_less_than n in
      let whole = if complete then ok [] else (do root ← merkle_tree_hash hashes; ok (root ∷ [])) in
      let in_left = do
        path ← subproof f m (take k hashes) complete
        sibling ← merkle_tree_hash (drop k hashes)
        ok (path ++ sibling ∷ [])
      in let in_right = do
        path ← subproof f (m - k) (drop k hashes) false
        sibling ← merkle_tree_hash (take k hashes)
        ok (path ++ sibling ∷ [])
        in if m == n then whole else if leb m k then in_left else in_right

  unfoldable pub compute_consistency_path : ℤ → List Bytes → Result (List Bytes)
  unfolding subproof
  compute_consistency_path (negsuc _) leaf_hashes = raise invalid_log_proof
  compute_consistency_path (pos first) leaf_hashes =
      let n = length leaf_hashes in
      if ltb 0 first && leb first n
      then (if first == n then ok [] else subproof n first leaf_hashes true)
      else raise invalid_log_proof
