-- ===== src/Keyless/Conclusion.antt =====
-- keyless.py: the end of `verify_keyless`, over candidates that `_classify_candidate` has classified.
use acdp_verifier_py.Prelude.{
  List, [], ◌∷◌, ◌++◌, Bool, ◌&&◌, ◌||◌, Option, none, some, Text, text_leb, text_ltb, text_eq,
  bytes_eq, if◌then◌else◌,
}
use acdp_verifier_py.Errors.{Result, ok, raise, ◌>>=◌, assertion_error}
use acdp_verifier_py.Revocation.Statement.{RevocationStatement}
use acdp_verifier_py.Keyless.Decision.{Facts, decide, KeyRevocation, key_revocation_class, Verdict}

pub data TrustClass : Type 0 where
  producer_signed registry_attested : TrustClass

-- `_Candidate.kind`
pub data Kind : Type 0 where
  applied hint unknown ignored : Kind

-- `_Candidate`
pub record Candidate : Type 0 where
  pub kind : Kind
  pub ctx_id : Text
  pub trust_class : Option TrustClass
  pub statement : Option RevocationStatement

pub record AppliedRevocation : Type 0 where
  pub ctx_id : Text
  pub trust_class : TrustClass
  pub compromised_since : Text

-- The three lists that the loop over the candidates fills.
pub record Sorted : Type 0 where
  pub applies : List AppliedRevocation
  pub hints : List Text
  pub unknowns : List Text

-- `AppliedRevocation(...)` behind the two assertions
unfoldable pub applied_of :
    Candidate → Option RevocationStatement → Option TrustClass → Result AppliedRevocation
applied_of c none trust = raise assertion_error
applied_of c (some s) none = raise assertion_error
applied_of c (some s) (some trust) =
    ok (record { ctx_id = c.ctx_id; trust_class = trust; compromised_since = s.compromised_since })

unfoldable pub sort_candidate : Candidate → Kind → Sorted → Result Sorted
unfolding applied_of
sort_candidate c applied sorted = do
  revocation ← applied_of c c.statement c.trust_class
  ok (record {
    applies = revocation ∷ sorted.applies;
    hints = sorted.hints;
    unknowns = sorted.unknowns;
  })
sort_candidate c hint sorted = ok (record {
  applies = sorted.applies;
  hints = c.ctx_id ∷ sorted.hints;
  unknowns = sorted.unknowns;
})
sort_candidate c unknown sorted = ok (record {
  applies = sorted.applies;
  hints = sorted.hints;
  unknowns = c.ctx_id ∷ sorted.unknowns;
})
sort_candidate c ignored sorted = ok sorted

-- The loop; the only thing raised is an AssertionError, so that the order of the assertions shows nowhere.
unfoldable pub sort_candidates : List Candidate → Result Sorted
unfolding sort_candidate
sort_candidates [] = ok (record { applies = []; hints = []; unknowns = [] })
sort_candidates (c ∷ cs) = do sorted ← sort_candidates cs; sort_candidate c c.kind sorted

pub record KeylessResult : Type 0 where
  pub verdict : Verdict
  pub key_revocation : KeyRevocation
  pub revocations : List AppliedRevocation
  pub hints : List Text
  pub unknowns : List Text

-- `(r.compromised_since, r.ctx_id)` in order
unfoldable pub revocation_leb : AppliedRevocation → AppliedRevocation → Bool
unfolding text_ltb text_leb bytes_eq
revocation_leb a b =
    text_ltb a.compromised_since b.compromised_since
    || (text_eq a.compromised_since b.compromised_since && text_leb a.ctx_id b.ctx_id)

unfoldable pub insert_revocation :
    AppliedRevocation → List AppliedRevocation → List AppliedRevocation
unfolding revocation_leb
insert_revocation a [] = a ∷ []
insert_revocation a (b ∷ bs) =
    let rest = insert_revocation a bs in if revocation_leb a b then a ∷ b ∷ bs else b ∷ rest

unfoldable pub sort_revocations : List AppliedRevocation → List AppliedRevocation
unfolding insert_revocation
sort_revocations [] = []
sort_revocations (a ∷ more) = insert_revocation a (sort_revocations more)

unfoldable pub boundaries : List AppliedRevocation → List Text
boundaries [] = []
boundaries (a ∷ more) = a.compromised_since ∷ boundaries more

-- `Facts(...)` with the revocations and the listing.
unfoldable pub with_revocations : Facts → List AppliedRevocation → Option Bool → Facts
unfolding boundaries
with_revocations facts revocations listed = record {
  attestation_valid = facts.attestation_valid;
  attester_accepted = facts.attester_accepted;
  bindings_ok = facts.bindings_ok;
  receipt = facts.receipt;
  not_before = facts.not_before;
  not_after = facts.not_after;
  signature_valid = facts.signature_valid;
  retracted = facts.retracted;
  compromised_since = boundaries revocations;
  identity_listed_now = listed;
}

-- A withdrawn attestation is a revocation from `not_before` on, behind the others.
unfoldable pub add_withdrawal : Facts → Text → List AppliedRevocation → List AppliedRevocation
add_withdrawal facts ctx_id revocations =
    if facts.retracted
    then revocations
      ++ record {
        ctx_id = ctx_id;
        trust_class = registry_attested;
        compromised_since = facts.not_before;
      }
        ∷ []
    else revocations

-- From the classified candidates on. `ctx_id` names the attestation; its `not_before` is in the facts.
unfoldable pub conclude : Facts → Text → Option Bool → List Candidate → Result KeylessResult
unfolding sort_candidates with_revocations decide add_withdrawal key_revocation_class
    sort_revocations boundaries
conclude checked ctx_id listed candidates = do
  sorted ← sort_candidates candidates
  let facts = with_revocations checked sorted.applies listed
  let revocations = add_withdrawal facts ctx_id sorted.applies
  ok (record {
    verdict = decide facts;
    key_revocation = key_revocation_class facts (boundaries revocations) sorted.unknowns;
    revocations = sort_revocations revocations;
    hints = sorted.hints;
    unknowns = sorted.unknowns;
  })
