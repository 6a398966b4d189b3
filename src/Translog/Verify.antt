-- ===== src/Translog/Verify.antt =====
-- translog.py: `verify_inclusion` and `verify_consistency`. The tree sizes of `verify_consistency`
-- are natural numbers: its callers pass the sizes of checkpoints, which are checked to be so.
use acdp_verifier_py.Prelude.{
  ℕ, zero, suc, ◌-◌, ◌/◌, ◌%◌, ◌^◌, Bool, not, ◌||◌, List, [], ◌∷◌, ltb, ◌==◌, if◌then◌else◌, Bytes,
  bytes_eq, bit_length, ℤ, pos,
}
use acdp_verifier_py.Errors.{Result, ok, raise, ◌>>=◌, ◌>>◌, refuse, invalid_log_proof}
use acdp_verifier_py.Crypto.{Sha256}
use acdp_verifier_py.Translog.Tree.{node_hash}

-- `while not (fn % 2 == 1 or fn == 0): fn >>= 1; sn >>= 1`, on fuel.
unfoldable pub skip_zeros : ℕ → ℕ → ℕ → ℕ × ℕ
skip_zeros zero fn sn = (fn, sn)
skip_zeros (suc f) fn sn =
    let rest = skip_zeros f (fn / 2) (sn / 2) in if fn % 2 == 1 || fn == 0 then (fn, sn) else rest

-- `while fn % 2 == 1: fn >>= 1; sn >>= 1`, on fuel.
unfoldable pub skip_ones : ℕ → ℕ → ℕ → ℕ × ℕ
skip_ones zero fn sn = (fn, sn)
skip_ones (suc f) fn sn =
    let rest = skip_ones f (fn / 2) (sn / 2) in if fn % 2 == 1 then rest else (fn, sn)

-- The test of both loops: the next path element is a left sibling.
unfoldable pub sibling_is_left : ℕ → ℕ → Bool
sibling_is_left fn sn = fn % 2 == 1 || fn == sn

-- What both loops do to `fn` and `sn` in one round.
unfoldable pub shift_up : ℕ → ℕ → ℕ × ℕ
unfolding skip_zeros sibling_is_left
shift_up fn sn =
    let (fn', sn') =
      (if sibling_is_left fn sn
        then (if fn % 2 == 0 then skip_zeros fn fn sn else (fn, sn))
        else (fn, sn)) in
    (fn' / 2, sn' / 2)

module _ ⦃h : Sha256⦄ where
  -- The hash above `r` and its sibling `p`.
  unfoldable pub hash_up : Bool → Bytes → Bytes → Result Bytes
  unfolding node_hash
  hash_up is_left p r = if is_left then node_hash p r else node_hash r p

  -- The loop of `verify_inclusion`: the last `sn` and `r`.
  unfoldable pub fold_inclusion : ℕ → ℕ → Bytes → List Bytes → Result (ℕ × Bytes)
  unfolding sibling_is_left shift_up hash_up
  fold_inclusion fn sn r [] = ok (sn, r)
  fold_inclusion fn sn r (p ∷ path) = if sn == 0 then raise invalid_log_proof else do
    r' ← hash_up (sibling_is_left fn sn) p r
    let (fn', sn') = shift_up fn sn
    fold_inclusion fn' sn' r' path

  unfoldable pub verify_inclusion : Bytes → ℤ → ℤ → List Bytes → Bytes → Result (Unit {0})
  unfolding fold_inclusion bytes_eq
  verify_inclusion leaf_hash_value (pos leaf_index) (pos tree_size) inclusion_path root_hash = do
    refuse (not (ltb leaf_index tree_size)) invalid_log_proof
    (sn, r) ← fold_inclusion leaf_index (tree_size - 1) leaf_hash_value inclusion_path
    refuse (not (sn == 0)) invalid_log_proof
    refuse (not (bytes_eq r root_hash)) invalid_log_proof
    ok tt
  verify_inclusion _ _ _ _ _ = raise invalid_log_proof

unfoldable pub is_power_of_two : ℕ → Bool
unfolding bit_length
is_power_of_two first = first == 2 ^ (bit_length first first - 1)

module _ ⦃h : Sha256⦄ where
  -- The old root's hash is carried up only under a left sibling.
  unfoldable pub keep_up : Bool → Bytes → Bytes → Result Bytes
  unfolding node_hash
  keep_up is_left c fr = if is_left then node_hash c fr else ok fr

  -- The loop of `verify_consistency`: the last `sn`, `fr` and `sr`.
  unfoldable pub fold_consistency : ℕ → ℕ → Bytes → Bytes → List Bytes → Result (ℕ × Bytes × Bytes)
  unfolding sibling_is_left shift_up hash_up keep_up
  fold_consistency fn sn fr sr [] = ok (sn, fr, sr)
  fold_consistency fn sn fr sr (c ∷ path) = if sn == 0 then raise invalid_log_proof else do
    fr' ← keep_up (sibling_is_left fn sn) c fr
    sr' ← hash_up (sibling_is_left fn sn) c sr
    let (fn', sn') = shift_up fn sn
    fold_consistency fn' sn' fr' sr' path

  -- From `fn = first - 1` on, with `path` not empty: its head and its tail.
  unfoldable pub run_consistency : ℕ → ℕ → Bytes → List Bytes → Bytes → Bytes → Result (Unit {0})
  unfolding fold_consistency skip_ones bytes_eq
  run_consistency first second start path first_root second_root = do
    let (fn, sn) = skip_ones (first - 1) (first - 1) (second - 1)
    (sn', fr, sr) ← fold_consistency fn sn start start path
    refuse (not (bytes_eq fr first_root)) invalid_log_proof
    refuse (not (bytes_eq sr second_root)) invalid_log_proof
    refuse (not (sn' == 0)) invalid_log_proof
    ok tt

  unfoldable pub verify_consistency : ℕ → ℕ → List Bytes → Bytes → Bytes → Result (Unit {0})
  unfolding run_consistency is_power_of_two
  verify_consistency first second [] first_root second_root =
      if first == second
      then refuse (not (bytes_eq first_root second_root)) invalid_log_proof
      else raise invalid_log_proof
  verify_consistency first second (p ∷ path) first_root second_root =
      if first == second || (first == 0 || ltb second first)
      then raise invalid_log_proof
      else if is_power_of_two first
      then run_consistency first second first_root (p ∷ path) first_root second_root
      else run_consistency first second p path first_root second_root
