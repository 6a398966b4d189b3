-- ===== src/Translog/Ascent.antt =====
-- The loop of `verify_inclusion` on the path of a part of a tree, against the same loop in the
-- whole tree.
use acdp_verifier_py.Prelude.{
  ℕ, zero, suc, ◌+◌, ◌-◌, ◌*◌, ◌/◌, ◌≤◌, ◌<◌, ◌≡◌, refl, ap, ◌∙◌, List, [], ◌∷◌, ◌++◌, arith, pow2,
  pow2_pos, Bytes,
}
use acdp_verifier_py.Errors.{ok, bind_inv}
use acdp_verifier_py.Crypto.{Sha256}
use acdp_verifier_py.Translog.Tree.{node_hash}
use acdp_verifier_py.Translog.Verify.{sibling_is_left, shift_up, hash_up, fold_inclusion}
use acdp_verifier_py.Translog.Index.{
  sibling_is_left-left, shift_up-left, shift_up-full, sibling_is_left-right, shift_up-right,
  shift_up-top,
}

module _ ⦃h : Sha256⦄ where
  -- A round below the root.
  pub fold_inclusion_step :
      (fn sn : ℕ) (r p : Bytes) {a t : ℕ} {r' : Bytes} (path : List Bytes)
      → 0 < sn
      → hash_up (sibling_is_left fn sn) p r ≡ ok r'
      → shift_up fn sn ≡ (a, t)
      → fold_inclusion fn sn r (p ∷ path) ≡ fold_inclusion a t r' path
  unfolding fold_inclusion
  fold_inclusion_step fn sn r p path some hashed shifted = ground (arith, hashed, shifted)

  -- What a round that went well has done.
  pub fold_inclusion_inv :
      (fn sn : ℕ) {a t : ℕ} (r p : Bytes) (path : List Bytes) {out : ℕ × Bytes}
      → shift_up fn sn ≡ (a, t)
      → fold_inclusion fn sn r (p ∷ path) ≡ ok out
      → (r' : Bytes) × (hash_up (sibling_is_left fn sn) p r ≡ ok r')
        × (fold_inclusion a t r' path ≡ ok out)
        × (0 < sn)
  fold_inclusion_inv fn sn {a} {t} r p path {out} shifted e =
      let (r', run, hashed) =
        bind_inv (λ r'. fold_inclusion (shift_up fn sn).0 (shift_up fn sn).1 r' path)
          (hash_up (sibling_is_left fn sn) p r) {y = out} (unfold fold_inclusion in ground arith) in
      (r', hashed, rw shifted at run, unfold fold_inclusion in ground arith)

  fold_inclusion_nil :
      (fn sn : ℕ) (r : Bytes) {out : ℕ × Bytes} → fold_inclusion fn sn r [] ≡ ok out → (sn, r) ≡ out
  unfolding fold_inclusion
  fold_inclusion_nil fn sn r e = cc

  pub fold_inclusion_end :
      (fn sn : ℕ) (r : Bytes) {k : ℕ} {root : Bytes}
      → fold_inclusion fn sn r [] ≡ ok (k, root)
      → sn ≡ k
  fold_inclusion_end fn sn r e = ap (λ (x : ℕ × Bytes). x.0) (fold_inclusion_nil fn sn r e)

  -- The left part, full with 2 ^ j leaves, in a tree whose last place is `s`.
  pub fold_inclusion-left :
      (j a s : ℕ) (r r' : Bytes) (path rest : List Bytes)
      → a < pow2 j
      → pow2 j ≤ s
      → s < 2 * pow2 j
      → fold_inclusion a (pow2 j - 1) r path ≡ ok (0, r')
      → fold_inclusion a s r (path ++ rest) ≡ fold_inclusion 0 1 r' rest
  fold_inclusion-left zero a s r r' [] rest ha hs hs' e =
      let z : a ≡ 0 = omega arith in
      let o : s ≡ 1 = omega arith in
      let same : r ≡ r' = ap (λ (x : ℕ × Bytes). x.1) (fold_inclusion_nil _ _ r e) in
      rw (z, o, same)
  fold_inclusion-left (suc j) a s r r' [] rest ha hs hs' e =
      absurd (omega (arith, pow2_pos j, ap (λ (x : ℕ × Bytes). x.0) (fold_inclusion_nil _ _ r e)))
  fold_inclusion-left zero a s r r' (p ∷ path) rest ha hs hs' e =
      let (_, _, _, some) = fold_inclusion_inv _ _ r p path refl e in absurd (omega arith)
  fold_inclusion-left (suc j) a s r r' (p ∷ path) rest ha hs hs' e =
      let q = pow2_pos j in
      let (r₁, hashed, run, _) =
        fold_inclusion_inv _ _ r p path (shift_up-full (pow2 j) a s q ha hs) e in
      fold_inclusion_step _ _ r p (path ++ rest) (omega arith)
        (rw (sibling_is_left-left (pow2 j) a s q ha hs) hashed) (shift_up-left (pow2 j) a s q ha hs)
      ∙ fold_inclusion-left j (a / 2) (s / 2) r₁ r' path rest (omega arith) (omega arith)
          (omega arith) run

  -- The right part, behind 2 ^ j leaves.
  pub fold_inclusion-right :
      (j a s : ℕ) (r r' : Bytes) (path rest : List Bytes)
      → a ≤ s
      → s < pow2 j
      → fold_inclusion a s r path ≡ ok (0, r')
      → (i : ℕ) × (fold_inclusion (pow2 j + a) (pow2 j + s) r (path ++ rest)
          ≡ fold_inclusion (pow2 i) (pow2 i) r' rest)
  fold_inclusion-right j a s r r' [] rest le lt e =
      let end = fold_inclusion_nil _ _ r e in
      let z : s ≡ 0 = ap (λ (x : ℕ × Bytes). x.0) end in
      let za : pow2 j + a ≡ pow2 j = omega arith in
      let zs : pow2 j + s ≡ pow2 j = omega arith in
      let same : r ≡ r' = ap (λ (x : ℕ × Bytes). x.1) end in (j, rw (za, zs, same))
  fold_inclusion-right j a s r r' (p ∷ path) rest le lt e =
      let (_, _, _, some) = fold_inclusion_inv _ _ r p path refl e in
      let (i, b, t, sub, whole, le', lt') = shift_up-right j a s le some lt in
      let (r₁, hashed, run, _) = fold_inclusion_inv _ _ r p path sub e in
      let (k, up) = fold_inclusion-right i b t r₁ r' path rest le' lt' run in
      (
        k,
        fold_inclusion_step _ _ r p (path ++ rest) (omega arith)
              (rw (sibling_is_left-right j a s some lt) hashed) whole
            ∙ up,
      )

  -- The last round, from each side of the root.
  pub fold_inclusion_root_left :
      (r p : Bytes) {root : Bytes}
      → node_hash r p ≡ ok root
      → fold_inclusion 0 1 r (p ∷ []) ≡ ok (0, root)
  unfolding fold_inclusion hash_up
  fold_inclusion_root_left r p e = rw e

  pub fold_inclusion_root_right :
      (i : ℕ) (r p : Bytes) {root : Bytes}
      → node_hash p r ≡ ok root
      → fold_inclusion (pow2 i) (pow2 i) r (p ∷ []) ≡ ok (0, root)
  fold_inclusion_root_right i r p {root} e =
      fold_inclusion_step (pow2 i) (pow2 i) r p {a = 0} {t = 0} {r' = root} [] (pow2_pos i)
        (unfold sibling_is_left hash_up in ground (arith, e)) (shift_up-top i)
      ∙ (unfold fold_inclusion in refl)
