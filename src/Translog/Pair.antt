-- ===== src/Translog/Pair.antt =====
-- The loop of `verify_consistency`, which carries the old root and the new one up together.
use acdp_verifier_py.Prelude.{
  ℕ, zero, suc, ◌+◌, ◌-◌, ◌*◌, ◌/◌, ◌≤◌, ◌<◌, ◌≡◌, refl, ap, ◌∙◌, List, [], ◌∷◌, ◌++◌, arith, pow2,
  pow2_pos, Bytes,
}
use acdp_verifier_py.Errors.{ok, bind_inv, ◌>>=◌}
use acdp_verifier_py.Crypto.{Sha256}
use acdp_verifier_py.Translog.Tree.{node_hash}
use acdp_verifier_py.Translog.Verify.{
  sibling_is_left, shift_up, hash_up, keep_up, fold_inclusion, fold_consistency,
}
use acdp_verifier_py.Translog.Index.{
  sibling_is_left-left, shift_up-left, shift_up-full, sibling_is_left-right, shift_up-right,
  shift_up-top,
}
use acdp_verifier_py.Translog.Ascent.{fold_inclusion_step}

module _ ⦃h : Sha256⦄ where
  fold_consistency_step :
      (fn sn : ℕ) (fr sr c : Bytes) {a t : ℕ} {fr' sr' : Bytes} (path : List Bytes)
      → 0 < sn
      → keep_up (sibling_is_left fn sn) c fr ≡ ok fr'
      → hash_up (sibling_is_left fn sn) c sr ≡ ok sr'
      → shift_up fn sn ≡ (a, t)
      → fold_consistency fn sn fr sr (c ∷ path) ≡ fold_consistency a t fr' sr' path
  unfolding fold_consistency
  fold_consistency_step fn sn fr sr c path some kept hashed shifted =
      ground (arith, kept, hashed, shifted)

  fold_consistency_inv :
      (fn sn : ℕ) {a t : ℕ} (fr sr c : Bytes) (path : List Bytes) {out : ℕ × Bytes × Bytes}
      → shift_up fn sn ≡ (a, t)
      → fold_consistency fn sn fr sr (c ∷ path) ≡ ok out
      → (fr' : Bytes) × (sr' : Bytes) × (keep_up (sibling_is_left fn sn) c fr ≡ ok fr')
        × (hash_up (sibling_is_left fn sn) c sr ≡ ok sr')
        × (fold_consistency a t fr' sr' path ≡ ok out)
        × (0 < sn)
  fold_consistency_inv fn sn {a} {t} fr sr c path {out} shifted e =
      let is_left = sibling_is_left fn sn in
      let (a', t') = shift_up fn sn in
      let (fr', more, kept) =
        bind_inv (λ fr'. hash_up is_left c sr >>= λ sr'. fold_consistency a' t' fr' sr' path)
          (keep_up is_left c fr) {y = out} (unfold fold_consistency in ground arith) in
      let (sr', run, hashed) =
        bind_inv (λ sr'. fold_consistency a' t' fr' sr' path) (hash_up is_left c sr) {y = out}
          more in
      (fr', sr', kept, hashed, rw shifted at run, unfold fold_consistency in ground arith)

  pub fold_consistency_nil :
      (fn sn : ℕ) (fr sr : Bytes) {out : ℕ × Bytes × Bytes}
      → fold_consistency fn sn fr sr [] ≡ ok out
      → (sn, fr, sr) ≡ out
  unfolding fold_consistency
  fold_consistency_nil fn sn fr sr e = cc

  -- The new root's side is the climb of `verify_inclusion`.
  pub fold_consistency→fold_inclusion :
      (fn sn : ℕ) (fr sr : Bytes) (path : List Bytes) {k : ℕ} {first second : Bytes}
      → fold_consistency fn sn fr sr path ≡ ok (k, first, second)
      → fold_inclusion fn sn sr path ≡ ok (k, second)
  fold_consistency→fold_inclusion fn sn fr sr [] e =
      let end = fold_consistency_nil fn sn fr sr e in unfold fold_inclusion in (cc end)
  fold_consistency→fold_inclusion fn sn fr sr (c ∷ path) e =
      let (fr', sr', _, hashed, run, some) = fold_consistency_inv fn sn fr sr c path refl e in
      fold_inclusion_step fn sn sr c path some hashed refl
      ∙ fold_consistency→fold_inclusion (shift_up fn sn).0 (shift_up fn sn).1 fr' sr' path run

  pub fold_consistency-left :
      (j a s : ℕ) (fr sr fr' sr' : Bytes) (path rest : List Bytes)
      → a < pow2 j
      → pow2 j ≤ s
      → s < 2 * pow2 j
      → fold_consistency a (pow2 j - 1) fr sr path ≡ ok (0, fr', sr')
      → fold_consistency a s fr sr (path ++ rest) ≡ fold_consistency 0 1 fr' sr' rest
  fold_consistency-left zero a s fr sr fr' sr' [] rest ha hs hs' e =
      let end = fold_consistency_nil _ _ fr sr e in
      let z : a ≡ 0 = omega arith in
      let o : s ≡ 1 = omega arith in
      rw (z, o, ap (λ (x : ℕ × Bytes × Bytes). x.1) end, ap (λ (x : ℕ × Bytes × Bytes). x.2) end)
  fold_consistency-left (suc j) a s fr sr fr' sr' [] rest ha hs hs' e = absurd (
      omega
        (arith, pow2_pos j, ap (λ (x : ℕ × Bytes × Bytes). x.0) (fold_consistency_nil _ _ fr sr e)))
  fold_consistency-left zero a s fr sr fr' sr' (c ∷ path) rest ha hs hs' e =
      let (_, _, _, _, _, some) = fold_consistency_inv _ _ fr sr c path refl e in
      absurd (omega arith)
  fold_consistency-left (suc j) a s fr sr fr' sr' (c ∷ path) rest ha hs hs' e =
      let q = pow2_pos j in
      let side = sibling_is_left-left (pow2 j) a s q ha hs in
      let (fr₁, sr₁, kept, hashed, run, _) =
        fold_consistency_inv _ _ fr sr c path (shift_up-full (pow2 j) a s q ha hs) e in
      fold_consistency_step _ _ fr sr c (path ++ rest) (omega arith) (rw side kept) (rw side hashed)
        (shift_up-left (pow2 j) a s q ha hs)
      ∙ fold_consistency-left j (a / 2) (s / 2) fr₁ sr₁ fr' sr' path rest (omega arith)
          (omega arith) (omega arith) run

  pub fold_consistency-right :
      (j a s : ℕ) (fr sr fr' sr' : Bytes) (path rest : List Bytes)
      → a ≤ s
      → s < pow2 j
      → fold_consistency a s fr sr path ≡ ok (0, fr', sr')
      → (i : ℕ) × (fold_consistency (pow2 j + a) (pow2 j + s) fr sr (path ++ rest)
          ≡ fold_consistency (pow2 i) (pow2 i) fr' sr' rest)
  fold_consistency-right j a s fr sr fr' sr' [] rest le lt e =
      let end = fold_consistency_nil _ _ fr sr e in
      let z : s ≡ 0 = ap (λ (x : ℕ × Bytes × Bytes). x.0) end in
      let za : pow2 j + a ≡ pow2 j = omega arith in
      let zs : pow2 j + s ≡ pow2 j = omega arith in
      (
        j,
        rw (
          za,
          zs,
          ap (λ (x : ℕ × Bytes × Bytes). x.1) end,
          ap (λ (x : ℕ × Bytes × Bytes). x.2) end,
        ),
      )
  fold_consistency-right j a s fr sr fr' sr' (c ∷ path) rest le lt e =
      let (_, _, _, _, _, some) = fold_consistency_inv _ _ fr sr c path refl e in
      let side = sibling_is_left-right j a s some lt in
      let (i, b, t, sub, whole, le', lt') = shift_up-right j a s le some lt in
      let (fr₁, sr₁, kept, hashed, run, _) = fold_consistency_inv _ _ fr sr c path sub e in
      let (k, up) = fold_consistency-right i b t fr₁ sr₁ fr' sr' path rest le' lt' run in
      (
        k,
        fold_consistency_step _ _ fr sr c (path ++ rest) (omega arith) (rw side kept)
              (rw side hashed) whole
            ∙ up,
      )

  -- The last round: the new root gets a right sibling, or both roots get a left one.
  pub fold_consistency_root_left :
      (fr sr c : Bytes) {root : Bytes}
      → node_hash sr c ≡ ok root
      → fold_consistency 0 1 fr sr (c ∷ []) ≡ ok (0, fr, root)
  unfolding fold_consistency
  fold_consistency_root_left fr sr c e = rw e

  pub fold_consistency_root_right :
      (i : ℕ) (fr sr c : Bytes) {first root : Bytes}
      → node_hash c fr ≡ ok first
      → node_hash c sr ≡ ok root
      → fold_consistency (pow2 i) (pow2 i) fr sr (c ∷ []) ≡ ok (0, first, root)
  fold_consistency_root_right i fr sr c {first} {root} kept hashed =
      fold_consistency_step (pow2 i) (pow2 i) fr sr c {a = 0} {t = 0} {fr' = first} {sr' = root} []
        (pow2_pos i) (unfold sibling_is_left keep_up in ground (arith, kept))
        (unfold sibling_is_left hash_up in ground (arith, hashed)) (shift_up-top i)
      ∙ (unfold fold_consistency in refl)
