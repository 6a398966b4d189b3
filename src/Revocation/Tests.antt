-- ===== src/Revocation/Tests.antt =====
-- Runs of revocation.py on the clock that reads the seconds, and the theorems at concrete values.
use acdp_verifier_py.Prelude.{
  ℕ, ◌≡◌, ◌↔◌, refl, [], ◌∷◌, ◌++◌, true, ltb, if◌then◌else◌, some, Text, text, replicate, All,
}
use acdp_verifier_py.Errors.{ok}
use acdp_verifier_py.Json.{str, obj, Fields, end, field}
use acdp_verifier_py.Times.Parse.{Clock, parse_rfc3339}
use acdp_verifier_py.Times.Tests.{toy_clock}
use acdp_verifier_py.Revocation.Statement.{
  RevocationStatement, historically_authorized_pre_compromise, fail_closed_in_window, current,
  is_content_hash, validate_revocation_shape, against_boundary, classify_against_boundary,
  effective_boundary,
}
use acdp_verifier_py.Revocation.Boundary.{
  IsBefore, classify_against_boundary_iff, effective_boundary_iff,
  validate_revocation_shape-classify_against_boundary,
}

instance seconds : Clock
seconds = toy_clock

abbrev fingerprint : Text
fingerprint = text "sha256:" ++ replicate 64 97

abbrev statement : Text → RevocationStatement
statement since = record {
  revoked_key_fingerprint = fingerprint;
  compromised_since = since;
  controller = text "did:web:a";
}

abbrev at_5 : Text
at_5 = text "2026-07-01T00:00:05.000Z"

abbrev at_7 : Text
at_7 = text "2026-07-01T00:00:07.000Z"

abbrev at_3 : Text
at_3 = text "2026-07-01T00:00:03Z"

abbrev body : Fields
body = field (text "type") (str (text "key-revocation")) (
    field (text "visibility") (str (text "public")) (
      field (text "agent_id") (str (text "did:web:a")) (
        field (text "metadata")
          (obj (
            field (text "revoked_key_fingerprint") (str fingerprint)
              (field (text "compromised_since") (str at_5) end)))
          end)))

body_valid : validate_revocation_shape body ≡ ok (statement at_5)
unfolding validate_revocation_shape seconds
body_valid = refl

at_3_parsed : parse_rfc3339 at_3 ≡ ok 3000000
unfolding parse_rfc3339 seconds
at_3_parsed = refl

validate_revocation_shape-classify_against_boundary_example :
    (boundary : ℕ) × (parse_rfc3339 at_5 ≡ ok boundary)
    × (classify_against_boundary (statement at_5) (some at_3) current
        ≡ ok (
            if ltb 3000000 boundary
            then historically_authorized_pre_compromise
            else fail_closed_in_window))
validate_revocation_shape-classify_against_boundary_example =
    validate_revocation_shape-classify_against_boundary body (statement at_5) at_3 3000000
      body_valid at_3_parsed

before_the_boundary :
    classify_against_boundary (statement at_5) (some at_3) current
    ≡ ok historically_authorized_pre_compromise
unfolding classify_against_boundary seconds
before_the_boundary = refl

at_the_boundary :
    classify_against_boundary (statement at_5) (some at_5) current ≡ ok fail_closed_in_window
unfolding classify_against_boundary seconds
at_the_boundary = refl

-- A fingerprint with a newline at its end passes as one.
newline_fingerprint : is_content_hash (fingerprint ++ 10 ∷ []) ≡ true
unfolding is_content_hash
newline_fingerprint = refl

classify_against_boundary_iff_example :
    (classify_against_boundary (statement at_5) (some at_3) current
      ≡ ok historically_authorized_pre_compromise)
    ↔ ((current ≡ current)
        × (created : Text) × (some at_3 ≡ some created)
        × IsBefore created (statement at_5))
classify_against_boundary_iff_example =
    classify_against_boundary_iff (statement at_5) (some at_3) current

earliest_of_two : effective_boundary (statement at_7 ∷ statement at_5 ∷ []) ≡ ok at_5
unfolding effective_boundary seconds
earliest_of_two = refl

effective_boundary_iff_example :
    (against_boundary (statement at_5) at_3 ≡ ok historically_authorized_pre_compromise)
    ↔ All
        (λ t. against_boundary t at_3 ≡ ok historically_authorized_pre_compromise)
        (statement at_7 ∷ statement at_5 ∷ [])
effective_boundary_iff_example =
    effective_boundary_iff (statement at_7 ∷ statement at_5 ∷ []) at_5 (statement at_5) at_3
      earliest_of_two refl
