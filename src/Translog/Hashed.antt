-- ===== src/Translog/Hashed.antt =====
-- translog.py: the byte strings that `merkle_tree_hash`, the loop of both verifications and
-- `verify_consistency` pass to SHA-256.
use acdp_verifier_py.Prelude.{
  ℕ, ◌-◌, ◌≤◌, ◌≡◌, Bool, true, false, List, ◌∷◌, ◌++◌, length, take, drop, Bytes,
}
use acdp_verifier_py.Errors.{ok}
use acdp_verifier_py.Crypto.{Sha256}
use acdp_verifier_py.Translog.Tree.{merkle_tree_hash}
use acdp_verifier_py.Translog.Verify.{
  skip_ones, sibling_is_left, shift_up, hash_up, is_power_of_two,
}
use acdp_verifier_py.Translog.Split.{cut}

-- The string that `hash_up` hashes.
unfoldable pub up_input : Bool → Bytes → Bytes → Bytes
up_input true p r = 1 ∷ p ++ r
up_input false p r = 1 ∷ r ++ p

module _ ⦃h : Sha256⦄ where
  -- A string for an inner node of the tree over some leaves.
  pub data TreeInput : List Bytes → Bytes → Type 0 where
    node_input :
        {xs : List Bytes} {l r : Bytes}
        → 2 ≤ length xs
        → merkle_tree_hash (take (cut xs) xs) ≡ ok l
        → merkle_tree_hash (drop (cut xs) xs) ≡ ok r
        → TreeInput xs (1 ∷ l ++ r)
    left_part :
        {xs : List Bytes} {w : Bytes}
        → 2 ≤ length xs
        → TreeInput (take (cut xs) xs) w
        → TreeInput xs w
    right_part :
        {xs : List Bytes} {w : Bytes}
        → 2 ≤ length xs
        → TreeInput (drop (cut xs) xs) w
        → TreeInput xs w

  -- A string for a round of the loop from `fn`, `sn` and `r` on along a path.
  pub data ClimbInput : ℕ → ℕ → Bytes → List Bytes → Bytes → Type 0 where
    this_round :
        {fn sn : ℕ} {r p : Bytes} {path : List Bytes}
        → ClimbInput fn sn r (p ∷ path) (up_input (sibling_is_left fn sn) p r)
    later_round :
        {fn sn : ℕ} {r r' p w : Bytes} {path : List Bytes}
        → hash_up (sibling_is_left fn sn) p r ≡ ok r'
        → ClimbInput (shift_up fn sn).0 (shift_up fn sn).1 r' path w
        → ClimbInput fn sn r (p ∷ path) w

  -- A string on the way to the new root in `verify_consistency`, from the old root on where the
  -- first size is a power of two, else from the first hash of the path on.
  pub data ConsistencyInput : ℕ → ℕ → List Bytes → Bytes → Bytes → Type 0 where
    from_root :
        {m n fn sn : ℕ} {path : List Bytes} {first w : Bytes}
        → is_power_of_two m ≡ true
        → skip_ones (m - 1) (m - 1) (n - 1) ≡ (fn, sn)
        → ClimbInput fn sn first path w
        → ConsistencyInput m n path first w
    from_path :
        {m n fn sn : ℕ} {p : Bytes} {path : List Bytes} {first w : Bytes}
        → is_power_of_two m ≡ false
        → skip_ones (m - 1) (m - 1) (n - 1) ≡ (fn, sn)
        → ClimbInput fn sn p path w
        → ConsistencyInput m n (p ∷ path) first w
