-- ===== src/Seam/Disclosure.antt =====
-- seamdecision.py: `parse_disclosed_record` and `verify_anchor`, with `validate_anchor` of validation.py.
use acdp_verifier_py.Prelude.{
  ℕ, ◌+◌, ◌-◌, ◌*◌, List, [], ◌∷◌, ◌++◌, Bool, true, false, not, ◌&&◌, ◌||◌, Option, none, some,
  Bytes, Text, text, text_eq, bytes_eq, ltb, ◌==◌, length, if◌then◌else◌, ℤ, pos,
}
use acdp_verifier_py.Errors.{
  Result, ok, raise, out_of_fuel, ◌>>=◌, ◌>>◌, require, schema_violation, value_error,
  malformed_record, inconsistent_disclosure,
}
use acdp_verifier_py.Crypto.{Sha256}
use acdp_verifier_py.Unicode.Encode.{is_surrogate}
use acdp_verifier_py.Json.{
  Json, null, int, str, arr, obj, Items, nil, cons, Fields, end, field, get_or_null, has,
}
use acdp_verifier_py.Revocation.Statement.{is_hex, is_content_hash, is_literal}
use acdp_verifier_py.Hashing.Content.{hex}
use acdp_verifier_py.Seam.Frame.{SealedRecordV4, participants_digest_of, record_digest_v4}

-- `value.encode("utf-8")` is possible
unfoldable pub encodable : Text → Bool
unfolding is_surrogate
encodable [] = true
encodable (c ∷ cs) = not (is_surrogate c) && encodable cs

unfoldable pub is_ascii : Text → Bool
is_ascii [] = true
is_ascii (c ∷ cs) = ltb c 128 && is_ascii cs

unfoldable pub hex_value : ℕ → ℕ
hex_value c = if ltb c 58 then c - 48 else c - 87

-- `bytes.fromhex` on pairs of lowercase digits, none for another text
unfoldable pub hex_pairs : Text → Option Bytes
unfolding is_hex hex_value
hex_pairs [] = some []
hex_pairs (c ∷ []) = none
hex_pairs (c ∷ d ∷ cs) = elim (hex_pairs cs) [
  | none ↦ none
  | some rest ↦
      if is_hex c && is_hex d then some ((16 * hex_value c + hex_value d) ∷ rest) else none
]

unfoldable pub or_malformed : Option Bytes → Result Bytes
or_malformed none = raise malformed_record
or_malformed (some bytes) = ok bytes

-- `_required_str` and `_optional_str` on a value
unfoldable pub required_str : Json → Result Text
unfolding encodable
required_str (str []) = raise malformed_record
required_str (str (c ∷ cs)) = require (encodable (c ∷ cs)) malformed_record >> ok (c ∷ cs)
required_str _ = raise malformed_record

unfoldable pub optional_str : Json → Result (Option Text)
unfolding encodable
optional_str null = ok none
optional_str (str s) = require (encodable s) malformed_record >> ok (some s)
optional_str _ = raise malformed_record

-- `_required_digest` and `_optional_digest` on a value
unfoldable pub required_digest : Json → Result Bytes
unfolding hex_pairs or_malformed
required_digest (str s) = require (length s == 64) malformed_record >> or_malformed (hex_pairs s)
required_digest _ = raise malformed_record

unfoldable pub optional_digest : Json → Result (Option Bytes)
unfolding required_digest
optional_digest null = ok none
optional_digest v = required_digest v >>= λ bytes. ok (some bytes)

-- `domain is not None and domain != ...`
unfoldable pub check_domain : Json → Result (Unit {0})
unfolding is_literal
check_domain null = ok tt
check_domain v = require (is_literal (text "seam.audit.record-digest.v4") v) malformed_record

unfoldable pub u64_of : Json → Result ℤ
u64_of (int (pos n)) = require (ltb n 18446744073709551616) malformed_record >> ok (pos n)
u64_of _ = raise malformed_record

-- A list of strings, each of which can be encoded.
unfoldable pub strings_of : Items → Result (List Text)
strings_of nil = ok []
strings_of (cons (str s) xs) = strings_of xs >>= λ rest. ok (s ∷ rest)
strings_of (cons _ xs) = raise malformed_record

unfoldable pub all_encodable : List Text → Bool
unfolding encodable
all_encodable [] = true
all_encodable (s ∷ ss) = encodable s && all_encodable ss

unfoldable pub record_of : Fields → Result SealedRecordV4
unfolding check_domain u64_of required_str optional_str required_digest optional_digest is_ascii
    get_or_null
record_of disclosed = do
  _ ← check_domain (get_or_null (text "domain") disclosed)
  sealed_at ← u64_of (get_or_null (text "sealed_at") disclosed)
  trust_basis ← required_str (get_or_null (text "trust_basis_commitment") disclosed)
  _ ← require (is_ascii trust_basis) malformed_record
  decision_id ← required_str (get_or_null (text "decision_id") disclosed)
  tenant ← required_str (get_or_null (text "tenant") disclosed)
  namespace ← required_str (get_or_null (text "namespace") disclosed)
  ciphertext ← required_digest (get_or_null (text "ciphertext_digest_hex") disclosed)
  outcome ← required_str (get_or_null (text "outcome") disclosed)
  mode ← optional_str (get_or_null (text "mode") disclosed)
  policy_version ← optional_str (get_or_null (text "policy_version") disclosed)
  supersedes ← optional_str (get_or_null (text "supersedes") disclosed)
  context ← required_digest (get_or_null (text "context_digest_hex") disclosed)
  participation ← required_digest (get_or_null (text "participation_digest_hex") disclosed)
  rules ← optional_digest (get_or_null (text "policy_rules_digest_hex") disclosed)
  classification ← required_str (get_or_null (text "classification") disclosed)
  participants ← required_digest (get_or_null (text "participants_digest_hex") disclosed)
  auth_method ← required_str (get_or_null (text "auth_method") disclosed)
  ok (record {
    decision_id = decision_id;
    tenant = tenant;
    namespace = namespace;
    ciphertext_digest = ciphertext;
    sealed_at = sealed_at;
    outcome = outcome;
    mode = mode;
    policy_version = policy_version;
    supersedes = supersedes;
    context_digest = context;
    participation_digest = participation;
    policy_rules_digest = rules;
    classification = classification;
    participants_digest = participants;
    trust_basis_commitment = trust_basis;
    auth_method = auth_method;
  })

pub data CannotVerify : Type 0 where
  unknown_record_digest_version malformed inconsistent : CannotVerify

pub data AnchorVerdict : Type 0 where
  matches mismatch : AnchorVerdict
  cannot_verify : CannotVerify → AnchorVerdict

-- `validate_anchor`
unfoldable pub only_anchor_fields : Fields → Bool
unfolding bytes_eq
only_anchor_fields end = true
only_anchor_fields (field name v members) =
    (text_eq name (text "scheme") || text_eq name (text "content_hash"))
    && only_anchor_fields members

unfoldable pub is_filled_str : Json → Bool
is_filled_str (str (c ∷ cs)) = true
is_filled_str _ = false

unfoldable pub content_hash_of : Json → Result Text
unfolding is_content_hash
content_hash_of (str s) = require (is_content_hash s) schema_violation >> ok s
content_hash_of _ = raise schema_violation

-- The `content_hash` of an anchor that is valid.
unfoldable pub validate_anchor : Fields → Result Text
unfolding only_anchor_fields has is_filled_str content_hash_of get_or_null
validate_anchor anchor = do
  _ ← require (only_anchor_fields anchor) schema_violation
  _ ← require (has (text "scheme") anchor && has (text "content_hash") anchor) schema_violation
  _ ← require (is_filled_str (get_or_null (text "scheme") anchor)) schema_violation
  content_hash_of (get_or_null (text "content_hash") anchor)

-- `except DisclosureError`
unfoldable pub except_disclosure :
    {A : Type 0} → Result A → (A → Result AnchorVerdict) → Result AnchorVerdict
except_disclosure (ok a) next = next a
except_disclosure (raise malformed_record) next = ok (cannot_verify malformed)
except_disclosure (raise inconsistent_disclosure) next = ok (cannot_verify inconsistent)
except_disclosure (raise e) next = raise e
except_disclosure out_of_fuel next = out_of_fuel

-- `type(version) is int and version in _SUPPORTED_SCHEMA_VERSIONS`
unfoldable pub is_version_4 : Json → Bool
is_version_4 (int (pos n)) = n == 4
is_version_4 _ = false

module _ ⦃h : Sha256⦄ where
  unfoldable pub check_ciphertext : Json → SealedRecordV4 → Result (Unit {0})
  unfolding hex_pairs or_malformed bytes_eq
  check_ciphertext null r = ok tt
  check_ciphertext (str s) r = do
    bytes ← or_malformed (hex_pairs s)
    require (bytes_eq (h.sha256 bytes) r.ciphertext_digest) inconsistent_disclosure
  check_ciphertext _ r = raise malformed_record

  unfoldable pub check_participants : Json → SealedRecordV4 → Result (Unit {0})
  unfolding strings_of all_encodable participants_digest_of bytes_eq
  check_participants null r = ok tt
  check_participants (arr xs) r = do
    ids ← strings_of xs
    _ ← require (all_encodable ids) malformed_record
    digest ← participants_digest_of ids
    require (bytes_eq digest r.participants_digest) inconsistent_disclosure
  check_participants _ r = raise malformed_record

  unfoldable pub parse_disclosed_record : Fields → Result SealedRecordV4
  unfolding record_of check_ciphertext check_participants get_or_null
  parse_disclosed_record disclosed = do
    r ← record_of disclosed
    _ ← check_ciphertext (get_or_null (text "ciphertext_hex") disclosed) r
    _ ← check_participants (get_or_null (text "participants") disclosed) r
    ok r

  unfoldable pub compare_digest : Text → SealedRecordV4 → Result AnchorVerdict
  unfolding record_digest_v4 hex bytes_eq
  compare_digest claimed r = do
    digest ← record_digest_v4 r
    ok (if text_eq (text "sha256:" ++ hex digest) claimed then matches else mismatch)

  unfoldable pub verify_disclosed : Text → Json → Result AnchorVerdict
  unfolding is_version_4 except_disclosure parse_disclosed_record compare_digest get_or_null
  verify_disclosed claimed (obj disclosed) =
      if is_version_4 (get_or_null (text "schema_version") disclosed)
      then except_disclosure (parse_disclosed_record disclosed) (compare_digest claimed)
      else ok (cannot_verify unknown_record_digest_version)
  verify_disclosed claimed _ = ok (cannot_verify malformed)

  unfoldable pub verify_anchor : Json → Json → Result AnchorVerdict
  unfolding validate_anchor verify_disclosed is_literal get_or_null
  verify_anchor (obj anchor) disclosed = do
    claimed ← validate_anchor anchor
    _ ← require (is_literal (text "seam.decision") (get_or_null (text "scheme") anchor)) value_error
    verify_disclosed claimed disclosed
  verify_anchor _ disclosed = raise schema_violation
