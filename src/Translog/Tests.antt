-- ===== src/Translog/Tests.antt =====
-- Runs of translog.py on a log of three leaves, and its theorems at that log. The digest is a toy.
use acdp_verifier_py.Prelude.{
  ℕ, zero, suc, ◌+◌, ◌*◌, ◌%◌, ◌≤◌, ◌≡◌, refl, ◌⊎◌, List, [], ◌∷◌, ◌++◌, arith, length, take,
  replicate, get_elem?, length-replicate, Bytes, IsBytes, IsByte, All, some, pos,
}
use acdp_verifier_py.Errors.{ok, raise, invalid_log_proof}
use acdp_verifier_py.Crypto.{Sha256, IsDigest, Collision}
use acdp_verifier_py.Translog.Tree.{merkle_tree_hash, compute_inclusion_path}
use acdp_verifier_py.Translog.Verify.{verify_inclusion, verify_consistency}
use acdp_verifier_py.Translog.Hashed.{TreeInput, ClimbInput}
use acdp_verifier_py.Translog.Root.{HasRoot, merkle_tree_hash-HasRoot}
use acdp_verifier_py.Translog.Inclusion.{verify_inclusion-compute_inclusion_path}
use acdp_verifier_py.Translog.Sound.{verify_inclusion_sound, merkle_tree_hash_binds}
use acdp_verifier_py.Translog.Consistency.{Consistent, verify_consistency-compute_consistency_path}
use acdp_verifier_py.Translog.AppendOnly.{verify_consistency_append_only, InputsCollide}

abbrev pub checksum : Bytes → ℕ
checksum [] = 7
checksum (b ∷ bs) = (b + 31 * checksum bs) % 256

abbrev pub toy_digest : Bytes → Bytes
toy_digest b = checksum b ∷ replicate 31 (length b % 256)

All-replicate : (n b : ℕ) → IsByte b → IsBytes (replicate n b)
All-replicate zero b h = tt
All-replicate (suc n) b h = (h, All-replicate n b h)

checksum-IsByte : (b : Bytes) → IsByte (checksum b)
checksum-IsByte [] = omega arith
checksum-IsByte (b ∷ bs) = omega arith

pub toy_digest-IsDigest : (b : Bytes) → IsBytes b → IsDigest (toy_digest b)
toy_digest-IsDigest b h = record {
  size = omega (arith, length-replicate 31 (length b % 256));
  bytes = (checksum-IsByte b, All-replicate 31 (length b % 256) (omega arith));
}

abbrev pub toy : Sha256
toy = record { sha256 = toy_digest; sha256-IsDigest = toy_digest-IsDigest }

abbrev leaf : ℕ → Bytes
leaf n = n ∷ replicate 31 9

leaf-IsDigest : (n : ℕ) → IsByte n → IsDigest (leaf n)
leaf-IsDigest n h = record { size = refl; bytes = (h, All-replicate 31 9 (omega arith)) }

abbrev log : List Bytes
log = leaf 1 ∷ leaf 2 ∷ leaf 3 ∷ []

log_digests : All IsDigest log
log_digests = (
  leaf-IsDigest 1 (omega arith),
  (leaf-IsDigest 2 (omega arith), (leaf-IsDigest 3 (omega arith), tt)),
)

abbrev old_log : List Bytes
old_log = leaf 1 ∷ leaf 2 ∷ []

abbrev old_root : Bytes
old_root = toy_digest (1 ∷ leaf 1 ++ leaf 2)

abbrev root : Bytes
root = toy_digest (1 ∷ old_root ++ leaf 3)

old_log_digests : All IsDigest old_log
old_log_digests = (leaf-IsDigest 1 (omega arith), (leaf-IsDigest 2 (omega arith), tt))

root_of_log : merkle_tree_hash ⦃h = toy⦄ log ≡ ok root
unfolding merkle_tree_hash
root_of_log = refl

root_of_old_log : merkle_tree_hash ⦃h = toy⦄ old_log ≡ ok old_root
unfolding merkle_tree_hash
root_of_old_log = refl

abbrev audit_path : List Bytes
audit_path = leaf 1 ∷ leaf 3 ∷ []

inclusion_accepted : verify_inclusion ⦃h = toy⦄ (leaf 2) (pos 1) (pos 3) audit_path root ≡ ok tt
unfolding verify_inclusion
inclusion_accepted = refl

inclusion_of_another_leaf :
    verify_inclusion ⦃h = toy⦄ (leaf 3) (pos 1) (pos 3) audit_path root ≡ raise invalid_log_proof
unfolding verify_inclusion
inclusion_of_another_leaf = refl

consistency_accepted : verify_consistency ⦃h = toy⦄ 2 3 (leaf 3 ∷ []) old_root root ≡ ok tt
unfolding verify_consistency
consistency_accepted = refl

merkle_tree_hash-HasRoot_example : HasRoot ⦃h = toy⦄ log
merkle_tree_hash-HasRoot_example = merkle_tree_hash-HasRoot ⦃h = toy⦄ log log_digests

verify_inclusion-compute_inclusion_path_example :
    (x : Bytes) × (path : List Bytes) × (r : Bytes) × (get_elem? log 1 ≡ some x)
    × (compute_inclusion_path ⦃h = toy⦄ (pos 1) log ≡ ok path)
    × (merkle_tree_hash ⦃h = toy⦄ log ≡ ok r)
    × (verify_inclusion ⦃h = toy⦄ x (pos 1) (pos (length log)) path r ≡ ok tt)
verify_inclusion-compute_inclusion_path_example =
    verify_inclusion-compute_inclusion_path ⦃h = toy⦄ log log_digests 1 (omega arith)

verify_inclusion_sound_example :
    ((get_elem? log 1 ≡ some (leaf 2))
      × (compute_inclusion_path ⦃h = toy⦄ (pos 1) log ≡ ok audit_path))
    ⊎ ((own : Bytes) × (own_path : List Bytes) × (get_elem? log 1 ≡ some own)
        × (compute_inclusion_path ⦃h = toy⦄ (pos 1) log ≡ ok own_path)
        × Collision ⦃h = toy⦄
            (ClimbInput ⦃h = toy⦄ 1 2 own own_path)
            (ClimbInput ⦃h = toy⦄ 1 2 (leaf 2) audit_path))
verify_inclusion_sound_example =
    verify_inclusion_sound ⦃h = toy⦄ log 1 (leaf 2) audit_path root log_digests root_of_log
      inclusion_accepted

merkle_tree_hash_binds_example :
    (log ≡ log) ⊎ Collision ⦃h = toy⦄ (TreeInput ⦃h = toy⦄ log) (TreeInput ⦃h = toy⦄ log)
merkle_tree_hash_binds_example =
    merkle_tree_hash_binds ⦃h = toy⦄ log log log_digests log_digests refl root_of_log root_of_log

verify_consistency-compute_consistency_path_example : Consistent ⦃h = toy⦄ log 2
verify_consistency-compute_consistency_path_example =
    verify_consistency-compute_consistency_path ⦃h = toy⦄ log log_digests 2 (omega arith)
      (omega arith)

verify_consistency_append_only_example :
    ((length old_log ≤ length log) × (old_log ≡ take (length old_log) log))
    ⊎ InputsCollide ⦃h = toy⦄ old_log log (leaf 3 ∷ []) old_root
verify_consistency_append_only_example =
    verify_consistency_append_only ⦃h = toy⦄ old_log log (leaf 3 ∷ []) old_root root old_log_digests
      log_digests root_of_old_log root_of_log consistency_accepted
