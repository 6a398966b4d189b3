-- ===== src/Revocation/Statement.antt =====
-- revocation.py: the shape of a revocation, its scope, and `classify_against_boundary`.
use acdp_verifier_py.Prelude.{
  ℕ, zero, suc, List, [], ◌∷◌, Bool, true, false, ◌&&◌, ◌||◌, Option, none, some, Text, text,
  text_eq, bytes_eq, ltb, leb, ◌==◌, length, if◌then◌else◌,
}
use acdp_verifier_py.Errors.{
  Result, ok, raise, ◌>>=◌, ◌>>◌, require, refuse, schema_violation, key_not_authorized,
  value_error, type_error,
}
use acdp_verifier_py.Json.{Json, null, str, arr, obj, Fields, get, get_or_null}
use acdp_verifier_py.Times.Parse.{Clock, at_end, is_canonical_ms, parse_rfc3339}

pub record RevocationStatement : Type 0 where
  pub revoked_key_fingerprint : Text
  pub compromised_since : Text
  pub controller : Text

pub data BoundaryVerdict : Type 0 where
  historically_authorized_pre_compromise fail_closed_in_window fail_closed_time_unverifiable :
      BoundaryVerdict

-- `didweb.Authorization`
pub data Authorization : Type 0 where
  current historical : Authorization

unfoldable pub is_hex : ℕ → Bool
is_hex c = (leb 48 c && leb c 57) || (leb 97 c && leb c 102)

-- `[0-9a-f]{n}$`
unfoldable pub hex_to_end : ℕ → Text → Bool
unfolding is_hex at_end
hex_to_end zero cs = at_end cs
hex_to_end (suc n) [] = false
hex_to_end (suc n) (c ∷ cs) = is_hex c && hex_to_end n cs

-- `prefix` at the start, and the test on the rest.
unfoldable pub after_prefix : Text → (Text → Bool) → Text → Bool
after_prefix [] next cs = next cs
after_prefix (p ∷ ps) next [] = false
after_prefix (p ∷ ps) next (c ∷ cs) = c == p && after_prefix ps next cs

-- `CONTENT_HASH_RE.match(value)`
unfoldable pub is_content_hash : Text → Bool
unfolding after_prefix hex_to_end
is_content_hash = after_prefix (text "sha256:") (hex_to_end 64)

-- `value in REVOCATION_TYPES`, where a list and a dictionary cannot be hashed
unfoldable pub is_revocation_type : Json → Result Bool
unfolding bytes_eq
is_revocation_type (str s) =
    ok (text_eq s (text "key-revocation") || text_eq s (text "acdp:key-revocation"))
is_revocation_type (arr xs) = raise type_error
is_revocation_type (obj members) = raise type_error
is_revocation_type _ = ok false

-- `value == literal`
unfoldable pub is_literal : Text → Json → Bool
unfolding bytes_eq
is_literal t (str s) = text_eq s t
is_literal t _ = false

-- A string that passes the test, otherwise a SchemaViolation.
unfoldable pub checked_str : (Text → Bool) → Json → Result Text
checked_str test (str s) = require (test s) schema_violation >> ok s
checked_str test _ = raise schema_violation

-- `metadata` of a body
unfoldable pub metadata_of : Json → Result Fields
metadata_of (obj members) = ok members
metadata_of _ = raise schema_violation

-- `reason`, where the metadata has one.
unfoldable pub check_reason : Option Json → Result (Unit {0})
check_reason none = ok tt
check_reason (some (str s)) = refuse (ltb 1024 (length s)) schema_violation
check_reason (some _) = raise schema_violation

-- `revoked_key_controller`, and the agent where there is none.
unfoldable pub controller_of : Json → Text → Result Text
controller_of null agent_id = ok agent_id
controller_of (str s) agent_id = ok s
controller_of _ agent_id = raise schema_violation

module _ ⦃clock : Clock⦄ where
  unfoldable pub validate_revocation_shape : Fields → Result RevocationStatement
  unfolding get get_or_null is_revocation_type is_literal checked_str metadata_of check_reason
      controller_of is_content_hash is_canonical_ms
  validate_revocation_shape body = do
    known_type ← is_revocation_type (get_or_null (text "type") body)
    _ ← require known_type schema_violation
    _ ← require (is_literal (text "public") (get_or_null (text "visibility") body)) schema_violation
    metadata ← metadata_of (get_or_null (text "metadata") body)
    fingerprint ←
        checked_str is_content_hash (get_or_null (text "revoked_key_fingerprint") metadata)
    compromised_since ←
        checked_str is_canonical_ms (get_or_null (text "compromised_since") metadata)
    _ ← check_reason (get (text "reason") metadata)
    agent_id ← checked_str (λ _. true) (get_or_null (text "agent_id") body)
    controller ← controller_of (get_or_null (text "revoked_key_controller") metadata) agent_id
    ok (record {
      revoked_key_fingerprint = fingerprint;
      compromised_since = compromised_since;
      controller = controller;
    })

unfoldable pub check_not_self_signed : RevocationStatement → Text → Result (Unit {0})
unfolding bytes_eq
check_not_self_signed statement signer =
    refuse (text_eq signer statement.revoked_key_fingerprint) key_not_authorized

unfoldable pub check_controller_binding : RevocationStatement → Text → Result (Unit {0})
unfolding bytes_eq
check_controller_binding statement agent_id =
    require (text_eq statement.controller agent_id) schema_violation

unfoldable pub applies_to : RevocationStatement → Text → Bool
unfolding bytes_eq
applies_to statement agent_id = text_eq statement.controller agent_id

module _ ⦃clock : Clock⦄ where
  unfoldable pub against_boundary : RevocationStatement → Text → Result BoundaryVerdict
  unfolding parse_rfc3339
  against_boundary statement created_at = do
    published ← parse_rfc3339 created_at
    boundary ← parse_rfc3339 statement.compromised_since
    ok (
        if ltb published boundary
        then historically_authorized_pre_compromise
        else fail_closed_in_window)

  unfoldable pub classify_against_boundary :
      RevocationStatement → Option Text → Authorization → Result BoundaryVerdict
  unfolding against_boundary
  classify_against_boundary statement none status = ok fail_closed_time_unverifiable
  classify_against_boundary statement (some created_at) historical =
      ok fail_closed_time_unverifiable
  classify_against_boundary statement (some created_at) current =
      against_boundary statement created_at

  -- `min(statements, key=...)` behind the statements seen so far, of which `best` came at `least`.
  unfoldable pub earliest :
      RevocationStatement → ℕ → List RevocationStatement → Result RevocationStatement
  unfolding parse_rfc3339
  earliest best least [] = ok best
  earliest best least (s ∷ ss) = do
    since ← parse_rfc3339 s.compromised_since
    if ltb since least then earliest s since ss else earliest best least ss

  unfoldable pub effective_boundary : List RevocationStatement → Result Text
  unfolding earliest parse_rfc3339
  effective_boundary [] = raise value_error
  effective_boundary (s ∷ ss) = do
    since ← parse_rfc3339 s.compromised_since
    best ← earliest s since ss
    ok best.compromised_since
