-- ===== src/Keyless/Tests.antt =====
-- Runs of keyless.py, and the theorems at concrete values.
use acdp_verifier_py.Prelude.{
  ◌≡◌, ◌↔◌, ◌⊎◌, refl, List, [], ◌∷◌, Bool, true, false, none, some, Text, text, text_leb,
}
use acdp_verifier_py.Errors.{ok, raise, assertion_error}
use acdp_verifier_py.Json.{str, arr, obj, nil, cons, Fields, end, field}
use acdp_verifier_py.Keyless.Decision.{
  placing, currently_authorized, historically_authorized_pre_compromise, refused,
  attestation_withdrawn, revoked, ReceiptFacts, Facts, decide, key_revocation_class, pre_compromise,
  revoked_key,
}
use acdp_verifier_py.Keyless.Decided.{Authorised, decide_iff}
use acdp_verifier_py.Keyless.Conclusion.{
  Kind, Candidate, KeylessResult, producer_signed, boundaries, add_withdrawal, conclude,
}
use acdp_verifier_py.Keyless.Agreement.{stands, conclude-stands, withdrawn-revoked}
use acdp_verifier_py.Keyless.Signers.{
  WorkloadIdentity, Signer, identity_listed, is_keyless_key_id, supersession,
}
use acdp_verifier_py.Keyless.Lineage.{start, next, Line-identity}

abbrev receipt : ReceiptFacts
receipt = record {
  verified = true;
  registry_is_attester = true;
  fingerprint_matches = true;
  created_at = text "2026-07-01T00:00:05.000Z";
}

abbrev facts : Bool → List Text → Facts
facts withdrawn since = record {
  attestation_valid = true;
  attester_accepted = true;
  bindings_ok = true;
  receipt = some receipt;
  not_before = text "2026-07-01T00:00:00.000Z";
  not_after = text "2026-07-01T01:00:00.000Z";
  signature_valid = true;
  retracted = withdrawn;
  compromised_since = since;
  identity_listed_now = some true;
}

abbrev later : Text
later = text "2026-08-01T00:00:00.000Z"

decided_now : decide (facts false []) ≡ (currently_authorized, none)
unfolding decide
decided_now = refl

decided_revoked :
    decide (facts false (later ∷ text "2026-07-01T00:00:05.000Z" ∷ [])) ≡ (refused, some revoked)
unfolding decide
decided_revoked = refl

decided_withdrawn : decide (facts true []) ≡ (refused, some attestation_withdrawn)
unfolding decide
decided_withdrawn = refl

decide_iff_example :
    ((decide (facts false (later ∷ []))).1 ≡ none) ↔ Authorised (facts false (later ∷ []))
decide_iff_example = decide_iff (facts false (later ∷ []))

abbrev candidate : Candidate
candidate = record {
  kind = Kind.applied;
  ctx_id = text "acdp://a/1";
  trust_class = some producer_signed;
  statement = some (record {
    revoked_key_fingerprint = text "sha256:a";
    compromised_since = later;
    controller = text "did:web:a";
  });
}

abbrev result : KeylessResult
result = record {
  verdict = (historically_authorized_pre_compromise, none);
  key_revocation = pre_compromise;
  revocations =
      record {
        ctx_id = text "acdp://a/1";
        trust_class = producer_signed;
        compromised_since = later;
      }
      ∷ [];
  hints = [];
  unknowns = [];
}

concluded : conclude (facts false []) (text "acdp://r/1") (some true) (candidate ∷ []) ≡ ok result
unfolding conclude
concluded = refl

no_statement :
    conclude
      (facts false [])
      (text "acdp://r/1")
      (some true)
      (record { kind = Kind.applied; ctx_id = []; trust_class = none; statement = none } ∷ [])
    ≡ raise assertion_error
unfolding conclude
no_statement = refl

conclude-stands_example : stands pre_compromise ≡ true
conclude-stands_example =
    conclude-stands (facts false []) (text "acdp://r/1") (some true) (candidate ∷ []) result
      concluded refl

withdrawn-revoked_example :
    key_revocation_class
      (facts true [])
      (boundaries (
        add_withdrawal (facts true []) (text "acdp://r/1") (
          record {
            ctx_id = text "acdp://a/1";
            trust_class = producer_signed;
            compromised_since = later;
          }
          ∷ [])))
      []
    ≡ revoked_key
unfolding placing text_leb
withdrawn-revoked_example =
    withdrawn-revoked (facts true []) (text "acdp://r/1")
      (record {
        ctx_id = text "acdp://a/1";
        trust_class = producer_signed;
        compromised_since = later;
      }
        ∷ [])
      [] receipt refl refl refl

abbrev job : WorkloadIdentity
job = record { type = text "spiffe"; subject = text "spiffe://a/job"; issuer = none }

abbrev document : Fields
document =
    field (text "service")
      (arr (
        cons
          (obj (
            field (text "type") (str (text "AcdpKeylessSigning")) (
              field (text "serviceEndpoint")
                (obj (
                  field (text "identities")
                    (arr (
                      cons
                        (obj (
                          field (text "type") (str (text "spiffe"))
                            (field (text "subject") (str (text "spiffe://a/job")) end)))
                        nil))
                    end))
                end)))
          nil))
      end

job_listed : identity_listed document job ≡ true
unfolding identity_listed
job_listed = refl

keyless_id : is_keyless_key_id (str (text "did:web:a#acdp-kl-00")) ≡ true
unfolding is_keyless_key_id
keyless_id = refl

abbrev signer : Bool → Signer
signer wide = record { keyless = true; identity = some job; org_wide = wide }

took_over : supersession (signer true) (signer false) ≡ true
unfolding supersession
took_over = refl

Line-identity_example : (signer false ≡ signer true) ⊎ ((true ≡ true) × (some job ≡ some job))
Line-identity_example =
    Line-identity (signer true) (signer false) (next start (signer false) (refl, refl) took_over)
