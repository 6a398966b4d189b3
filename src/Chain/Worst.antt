-- ===== src/Chain/Worst.antt =====
-- What the verdict on a chain says of the verdicts on its nodes.
use acdp_verifier_py.Prelude.{
  ◌≤◌, ◌≡◌, ◌↔◌, ◌⊎◌, refl, List, [], ◌∷◌, Bool, true, false, if◌then◌else◌, ltb, All, All-weaken,
  arith, Bool-cases, inl, inr,
}
use acdp_verifier_py.Chain.Verdict.{NodeVerdict, ok_verdict, unknown, rank, greatest, worst, chain}

larger :
    (v u : NodeVerdict)
    → (rank v ≤ rank (if ltb (rank v) (rank u) then u else v))
      × (rank u ≤ rank (if ltb (rank v) (rank u) then u else v))
larger v u = elim (Bool-cases (ltb (rank v) (rank u))) [
  | inl less ↦ rw less (ground (arith, less), omega arith)
  | inr more ↦ rw more (omega arith, ground (arith, more))
]

greatest_above :
    (v : NodeVerdict) (us : List NodeVerdict)
    → (rank v ≤ rank (greatest v us)) × All (λ u. rank u ≤ rank (greatest v us)) us
unfolding greatest
greatest_above v [] = (omega arith, tt)
greatest_above v (u ∷ us) =
    let (above, all) = greatest_above (if ltb (rank v) (rank u) then u else v) us in
    let (first, second) = larger v u in
    (omega (arith, first, above), (omega (arith, second, above), all))

greatest_kept :
    (P : NodeVerdict → Type 0) (v : NodeVerdict) (us : List NodeVerdict)
    → P v
    → All P us
    → P (greatest v us)
unfolding greatest
greatest_kept P v [] h hs = h
greatest_kept P v (u ∷ us) h hs =
    greatest_kept P (if ltb (rank v) (rank u) then u else v) us
      (elim (Bool-cases (ltb (rank v) (rank u))) [ inl less ↦ rw less hs.0 | inr more ↦ rw more h ])
      hs.1

worst_above : (vs : List NodeVerdict) → All (λ v. rank v ≤ rank (worst vs)) vs
unfolding worst
worst_above [] = tt
worst_above (v ∷ vs) = greatest_above v vs

worst_kept :
    (P : NodeVerdict → Type 0) (vs : List NodeVerdict) → P ok_verdict → All P vs → P (worst vs)
unfolding worst
worst_kept P [] h hs = h
worst_kept P (v ∷ vs) h hs = greatest_kept P v vs hs.0 hs.1

-- The two ways in which a chain comes to its verdict.
chain_cases :
    (vs : List NodeVerdict) (complete : Bool)
    → (rank (worst vs) ≤ rank (chain vs complete))
      × (complete ≡ false → 2 ≤ rank (chain vs complete))
      × ((chain vs complete ≡ worst vs) ⊎ ((chain vs complete ≡ unknown) × (complete ≡ false)))
unfolding chain rank
chain_cases vs true = (omega arith, (λ e. cc (e)), inl refl)
chain_cases vs false = elim (Bool-cases (ltb (rank (worst vs)) 2)) [
  | inl low ↦ rw (low, chain) (ground (arith, low), (λ e. omega arith), inr (refl, refl))
  | inr high ↦ rw (high, chain) (omega arith, (λ e. ground (arith, high)), inl refl)
]

-- The verdict on a chain is the least that is no better than any verdict on its nodes and, where the
-- evidence is not complete, no better than unknown: another verdict bounds it exactly when that one is
-- such a bound.
pub chain-least :
    (vs : List NodeVerdict) (complete : Bool) (v : NodeVerdict)
    → (rank (chain vs complete) ≤ rank v)
      ↔ (All (λ u. rank u ≤ rank v) vs × (complete ≡ false → 2 ≤ rank v))
chain-least vs complete v =
    let (above, incomplete, cases) = chain_cases vs complete in
    (
      (λ h. (
        All-weaken (λ u. rank u ≤ rank (worst vs)) (λ u. rank u ≤ rank v)
            (λ u le. omega (arith, le, above, h)) vs (worst_above vs),
        λ e. omega (arith, incomplete e, h),
      )),
      (λ h. elim cases [
        | inl same ↦ rw same (worst_kept (λ u. rank u ≤ rank v) vs (unfold rank in omega arith) h.0)
        | inr (same, missing) ↦ rw same (unfold rank in (h.1 missing))
      ]),
    )
