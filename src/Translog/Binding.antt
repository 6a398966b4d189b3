-- ===== src/Translog/Binding.antt =====
-- Two runs over the tree that end in one root, compared hash by hash.
use acdp_verifier_py.Prelude.{
  ℕ, ◌≡◌, refl, sym, ◌∙◌, ◌⊎◌, inl, inr, Bool, true, false, List, [], ◌∷◌, ◌++◌, arith, length,
  append_injective, Bytes, IsBytes, bytes_eq, bytes_eq_iff, All-append, Bool-cases,
}
use acdp_verifier_py.Errors.{ok}
use acdp_verifier_py.Crypto.{Sha256, IsDigest, Collision, Collision-map}
use acdp_verifier_py.Translog.Hashed.{up_input, ClimbInput, this_round, later_round}
use acdp_verifier_py.Translog.Tree.{node_hash}
use acdp_verifier_py.Translog.Verify.{hash_up, fold_inclusion, sibling_is_left, shift_up}
use acdp_verifier_py.Translog.Ascent.{fold_inclusion_inv, fold_inclusion_end}

module _ ⦃h : Sha256⦄ where
  -- One digest of two byte strings: they are one, or they collide.
  pub sha256_binds :
      {P Q : Bytes → Type 0} (x y : Bytes)
      → P x
      → Q y
      → h.sha256 x ≡ h.sha256 y
      → (x ≡ y) ⊎ Collision P Q
  sha256_binds x y px qy same = elim (Bool-cases (bytes_eq x y)) [
    | inl e ↦ inl ((bytes_eq_iff x y).0 e)
    | inr ne ↦ inr (record {
      left = x;
      right = y;
      left_input = px;
      right_input = qy;
      differ = λ e. cc (ne, (bytes_eq_iff x y).1 e);
      same = same;
    })
  ]

  node_hash_inv :
      (l r : Bytes) {out : Bytes}
      → node_hash l r ≡ ok out
      → (length l ≡ 32) × (length r ≡ 32) × (h.sha256 (1 ∷ l ++ r) ≡ out)
  unfolding node_hash
  node_hash_inv l r e = ground arith

  pub node_hash-IsDigest_inv :
      (l r : Bytes) {out : Bytes} → IsBytes l → IsBytes r → node_hash l r ≡ ok out → IsDigest out
  node_hash-IsDigest_inv l r bl br e =
      let (_, _, same) = node_hash_inv l r e in
      rw same at (h.sha256-IsDigest (1 ∷ l ++ r) (omega arith, All-append _ l r bl br))

  -- A node binds its two children.
  pub node_hash_binds :
      {P Q : Bytes → Type 0} (l r l' r' : Bytes) {out : Bytes}
      → P (1 ∷ l ++ r)
      → Q (1 ∷ l' ++ r')
      → node_hash l r ≡ ok out
      → node_hash l' r' ≡ ok out
      → ((l ≡ l') × (r ≡ r')) ⊎ Collision P Q
  node_hash_binds {P} {Q} l r l' r' p q e e' =
      let (hl, _, same) = node_hash_inv l r e in
      let (hl', _, same') = node_hash_inv l' r' e' in
      elim (sha256_binds {P = P} {Q = Q} (1 ∷ l ++ r) (1 ∷ l' ++ r') p q (same ∙ sym same')) [
        | inl e₁ ↦ inl (append_injective l r l' r' (omega arith) (cc e₁))
        | inr c ↦ inr c
      ]

  hash_up_binds :
      {P Q : Bytes → Type 0} (is_left : Bool) (p r p' r' : Bytes) {out : Bytes}
      → P (up_input is_left p r)
      → Q (up_input is_left p' r')
      → hash_up is_left p r ≡ ok out
      → hash_up is_left p' r' ≡ ok out
      → ((p ≡ p') × (r ≡ r')) ⊎ Collision P Q
  unfolding hash_up up_input
  hash_up_binds {P} {Q} true p r p' r' u v e e' = node_hash_binds {P = P} {Q = Q} p r p' r' u v e e'
  hash_up_binds {P} {Q} false p r p' r' u v e e' =
      elim (node_hash_binds {P = P} {Q = Q} r p r' p' u v e e') [
        | inl (same_r, same_p) ↦ inl (same_p, same_r)
        | inr c ↦ inr c
      ]

  pub hash_up-IsDigest :
      (is_left : Bool) (p r : Bytes) {out : Bytes}
      → IsBytes p
      → IsBytes r
      → hash_up is_left p r ≡ ok out
      → IsDigest out
  unfolding hash_up
  hash_up-IsDigest true p r bp br e = node_hash-IsDigest_inv p r bp br e
  hash_up-IsDigest false p r bp br e = node_hash-IsDigest_inv r p br bp e

  -- Two climbs from one place to one root.
  pub fold_inclusion_binds :
      (fn sn : ℕ) (r r' root : Bytes) (path path' : List Bytes)
      → fold_inclusion fn sn r path ≡ ok (0, root)
      → fold_inclusion fn sn r' path' ≡ ok (0, root)
      → ((r ≡ r') × (path ≡ path'))
        ⊎ Collision (ClimbInput fn sn r path) (ClimbInput fn sn r' path')
  fold_inclusion_binds fn sn r r' root [] [] e e' = inl (unfold fold_inclusion in (cc, refl))
  fold_inclusion_binds fn sn r r' root [] (p' ∷ path') e e' =
      let (_, _, _, some) = fold_inclusion_inv fn sn r' p' path' refl e' in
      absurd (omega (arith, fold_inclusion_end fn sn r e))
  fold_inclusion_binds fn sn r r' root (p ∷ path) [] e e' =
      let (_, _, _, some) = fold_inclusion_inv fn sn r p path refl e in
      absurd (omega (arith, fold_inclusion_end fn sn r' e'))
  fold_inclusion_binds fn sn r r' root (p ∷ path) (p' ∷ path') e e' =
      let (r₁, up, run, _) = fold_inclusion_inv fn sn r p path refl e in
      let (r₁', up', run', _) = fold_inclusion_inv fn sn r' p' path' refl e' in
      elim (fold_inclusion_binds (shift_up fn sn).0 (shift_up fn sn).1 r₁ r₁' root path path' run
        run') [
          | inr c ↦ inr (Collision-map (λ w i. later_round up i) (λ w i. later_round up' i) c)
          | inl (same, same_path) ↦
              elim (hash_up_binds {P = ClimbInput fn sn r (p ∷ path)}
                {Q = ClimbInput fn sn r' (p' ∷ path')} (sibling_is_left fn sn) p r p' r' this_round
                this_round up (rw (← same) at up')) [
                  | inl (same_p, same_r) ↦ inl (same_r, cc)
                  | inr c ↦ inr c
                ]
        ]
