-- ===== src/Hashing/Content.antt =====
-- hashing.py, all of it.
use acdp_verifier_py.Prelude.{
  ◌/◌, ◌%◌, [], ◌∷◌, ◌++◌, Bool, ◌||◌, Bytes, Text, text, text_eq, bytes_eq, if◌then◌else◌,
}
use acdp_verifier_py.Errors.{Result, ok, raise, ◌>>=◌, require, schema_violation, hash_mismatch}
use acdp_verifier_py.Crypto.{Sha256}
use acdp_verifier_py.Unicode.Encode.{utf8}
use acdp_verifier_py.Json.{Json, str, obj, Fields, end, field, get_or_null}
use acdp_verifier_py.Jcs.Numbers.{Doubles}
use acdp_verifier_py.Jcs.Strings.{hex_digit}
use acdp_verifier_py.Jcs.Serialize.{canonicalize}

-- `bytes.hex`
unfoldable pub hex : Bytes → Text
unfolding hex_digit
hex [] = []
hex (b ∷ bs) = hex_digit (b / 16) ∷ hex_digit (b % 16) ∷ hex bs

-- `key in EXCLUSION_SET`
unfoldable pub is_excluded : Text → Bool
unfolding bytes_eq
is_excluded key =
    text_eq key (text "content_hash")
    || (text_eq key (text "signature")
        || (text_eq key (text "ctx_id")
            || (text_eq key (text "lineage_id")
                || (text_eq key (text "origin_registry") || text_eq key (text "created_at")))))

unfoldable pub producer_content : Fields → Fields
unfolding is_excluded
producer_content end = end
producer_content (field key value members) =
    let rest = producer_content members in if is_excluded key then rest else field key value rest

module _ ⦃h : Sha256⦄ where
  unfoldable pub sha256_prefixed : Bytes → Text
  unfolding hex
  sha256_prefixed bytes = text "sha256:" ++ hex (h.sha256 bytes)

  unfoldable pub derive_lineage_id : Text → Result Text
  unfolding hex utf8
  derive_lineage_id ctx_id = do bytes ← utf8 ctx_id; ok (text "lin:sha256:" ++ hex (h.sha256 bytes))

module _ ⦃h : Sha256⦄ ⦃d : Doubles⦄ where
  unfoldable pub content_hash : Fields → Result Text
  unfolding sha256_prefixed canonicalize
  content_hash content = do bytes ← canonicalize (obj content); ok (sha256_prefixed bytes)

  -- The comparison with the claim.
  unfoldable pub compare_claim : Text → Fields → Result Text
  unfolding content_hash producer_content bytes_eq
  compare_claim claimed raw_body = do
    recomputed ← content_hash (producer_content raw_body)
    _ ← require (text_eq recomputed claimed) hash_mismatch
    ok recomputed

  unfoldable pub claim_of : Json → Fields → Result Text
  unfolding compare_claim
  claim_of (str claimed) raw_body = compare_claim claimed raw_body
  claim_of _ raw_body = raise schema_violation

  unfoldable pub verify_body_content_hash : Fields → Result Text
  unfolding claim_of get_or_null
  verify_body_content_hash raw_body = claim_of (get_or_null (text "content_hash") raw_body) raw_body
