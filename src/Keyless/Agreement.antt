-- ===== src/Keyless/Agreement.antt =====
-- The verdict on a keyless body and the class of its key, which are worked out apart.
use acdp_verifier_py.Prelude.{
  ◌≡◌, refl, sym, ap, ◌∙◌, inl, inr, List, [], ◌∷◌, ◌++◌, Bool, true, false, Option, none, some,
  Text, text_leb, Bool-cases,
}
use acdp_verifier_py.Errors.{ok, bind_inv}
use acdp_verifier_py.Keyless.Decision.{
  ReceiptFacts, Facts, Verdict, minimum, placing, decide, KeyRevocation, not_revoked,
  pre_compromise, unknown_revocation, revoked_key, unplaceable_key, unless_unknown,
  revocation_class, key_revocation_class,
}
use acdp_verifier_py.Keyless.Decided.{
  Before, Authorised, decide_iff, minimum-Before, Before-minimum, before_one,
}
use acdp_verifier_py.Keyless.Conclusion.{
  Candidate, AppliedRevocation, Sorted, KeylessResult, sort_candidates, boundaries,
  with_revocations, add_withdrawal, conclude,
}

-- The classes that let a context stand.
unfoldable pub stands : KeyRevocation → Bool
stands not_revoked = true
stands pre_compromise = true
stands unknown_revocation = true
stands revoked_key = false
stands unplaceable_key = false

unless_unknown-stands :
    (us : List Text) (value : KeyRevocation)
    → stands value ≡ true
    → stands (unless_unknown us value) ≡ true
unfolding unless_unknown stands
unless_unknown-stands [] value h = h
unless_unknown-stands (u ∷ us) value h = refl

class_stands :
    (f : Facts) (ts us : List Text) (r : ReceiptFacts)
    → placing f.receipt ≡ some r
    → Before r.created_at ts
    → stands (key_revocation_class f ts us) ≡ true
unfolding key_revocation_class
class_stands f [] us r places before = unless_unknown-stands us not_revoked (unfold stands in refl)
class_stands f (t ∷ ts) us r places before =
    rw (places, Before-minimum r.created_at t ts before, revocation_class)
      (unless_unknown-stands us pre_compromise (unfold stands in refl))

Authorised-placing : (f : Facts) (a : Authorised f) → placing f.receipt ≡ some a.receipt
unfolding placing
Authorised-placing f a = rw (a.carried, a.verified, a.by_attester, a.same_key)

-- What the parts of a result are.
conclude_inv :
    (checked : Facts) (ctx_id : Text) (listed : Option Bool) (candidates : List Candidate)
    (r : KeylessResult)
    → conclude checked ctx_id listed candidates ≡ ok r
    → (s : Sorted) × (r.verdict ≡ decide (with_revocations checked s.applies listed))
      × (r.key_revocation
          ≡ key_revocation_class
              (with_revocations checked s.applies listed)
              (boundaries
                (add_withdrawal (with_revocations checked s.applies listed) ctx_id s.applies))
              s.unknowns)
unfolding conclude
conclude_inv checked ctx_id listed candidates r e =
    let (s, made, _) = bind_inv _ (sort_candidates candidates) e in (s, cc (made), cc (made))

kept :
    (f : Facts) (ctx_id : Text) (revocations : List AppliedRevocation)
    → f.retracted ≡ false
    → add_withdrawal f ctx_id revocations ≡ revocations
unfolding add_withdrawal
kept f ctx_id revocations standing = rw standing

-- A result that gives no reason to refuse does not report its key as revoked or the context as
-- unplaceable: what is authorised is authorised by the revocations that are reported too.
pub conclude-stands :
    (checked : Facts) (ctx_id : Text) (listed : Option Bool) (candidates : List Candidate)
    (r : KeylessResult)
    → conclude checked ctx_id listed candidates ≡ ok r
    → r.verdict.1 ≡ none
    → stands r.key_revocation ≡ true
conclude-stands checked ctx_id listed candidates r e authorised =
    let (s, verdict, class) = conclude_inv checked ctx_id listed candidates r e in
    let facts = with_revocations checked s.applies listed in
    let a = (decide_iff facts).0 (sym (ap (λ (v : Verdict). v.1) verdict) ∙ authorised) in
    let same : add_withdrawal facts ctx_id s.applies ≡ s.applies =
      kept facts ctx_id s.applies a.standing in
    let whole =
      class_stands facts (boundaries s.applies) s.unknowns a.receipt (Authorised-placing facts a)
        (unfold with_revocations in a.unrevoked) in
    rw (class, same) whole

boundaries-append :
    (c : Text) (firsts bs : List AppliedRevocation)
    → Before c (boundaries (firsts ++ bs))
    → Before c (boundaries bs)
unfolding boundaries
boundaries-append c [] bs h = h
boundaries-append c (a ∷ more) bs h = boundaries-append c more bs h.1

-- When one of the boundaries has been reached, the key is revoked.
late_class :
    (f : Facts) (ts us : List Text) (r : ReceiptFacts)
    → placing f.receipt ≡ some r
    → ¬ Before r.created_at ts
    → key_revocation_class f ts us ≡ revoked_key
unfolding key_revocation_class revocation_class
late_class f [] us r places late = absurd (late tt)
late_class f (t ∷ ts) us r places late = elim (Bool-cases (text_leb (minimum t ts) r.created_at)) [
  | inl reached ↦ rw (places, reached)
  | inr before ↦ absurd (late (minimum-Before r.created_at t ts before))
]

-- A withdrawn attestation takes with it every context that was published in its window: the key is
-- reported as revoked whatever else applies.
pub withdrawn-revoked :
    (f : Facts) (ctx_id : Text) (revocations : List AppliedRevocation) (us : List Text)
    (r : ReceiptFacts)
    → f.retracted ≡ true
    → placing f.receipt ≡ some r
    → text_leb f.not_before r.created_at ≡ true
    → key_revocation_class f (boundaries (add_withdrawal f ctx_id revocations)) us ≡ revoked_key
unfolding add_withdrawal boundaries key_revocation_class
withdrawn-revoked f ctx_id revocations us r withdrawn places begun = rw withdrawn (
    late_class f _ us r places λ before.
      let last = boundaries-append r.created_at revocations _ before in
      cc (before_one r.created_at f.not_before last.0, begun))
