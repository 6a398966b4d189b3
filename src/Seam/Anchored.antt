-- ===== src/Seam/Anchored.antt =====
-- What a match of an anchor rests on.
use acdp_verifier_py.Prelude.{
  ◌≡◌, refl, sym, ap, inl, inr, ◌++◌, ◌&&◌, Bytes, Text, text, text_eq, text_eq_iff, Bool-cases,
}
use acdp_verifier_py.Errors.{
  Error, Result, ok, raise, out_of_fuel, require_inv, bind_inv, schema_violation, value_error,
}
use acdp_verifier_py.Crypto.{Sha256}
use acdp_verifier_py.Json.{Json, null, bool, int, float, str, arr, obj, Fields, get_or_null, has}
use acdp_verifier_py.Revocation.Statement.{is_content_hash, is_literal}
use acdp_verifier_py.Hashing.Content.{hex}
use acdp_verifier_py.Seam.Frame.{SealedRecordV4, record_digest_v4}
use acdp_verifier_py.Seam.Disclosure.{
  AnchorVerdict, matches, only_anchor_fields, is_filled_str, content_hash_of, validate_anchor,
  except_disclosure, is_version_4, parse_disclosed_record, compare_digest, verify_disclosed,
  verify_anchor,
}

content_hash_of_inv : (v : Json) (t : Text) → content_hash_of v ≡ ok t → v ≡ str t
unfolding content_hash_of
content_hash_of_inv (str s) t e =
    let (_, made) = require_inv (is_content_hash s) schema_violation (ok s) e in ap str (cc (made))
content_hash_of_inv null t e = cc (e)
content_hash_of_inv (bool b) t e = cc (e)
content_hash_of_inv (int n) t e = cc (e)
content_hash_of_inv (float x) t e = cc (e)
content_hash_of_inv (arr xs) t e = cc (e)
content_hash_of_inv (obj ms) t e = cc (e)

validate_anchor_inv :
    (anchor : Fields) (t : Text)
    → validate_anchor anchor ≡ ok t
    → get_or_null (text "content_hash") anchor ≡ str t
unfolding validate_anchor
validate_anchor_inv anchor t e =
    let (_, e₁) = require_inv (only_anchor_fields anchor) schema_violation _ e in
    let (_, e₂) =
      require_inv (has (text "scheme") anchor && has (text "content_hash") anchor) schema_violation
        _ e₁ in
    let (_, e₃) =
      require_inv (is_filled_str (get_or_null (text "scheme") anchor)) schema_violation _ e₂ in
    content_hash_of_inv (get_or_null (text "content_hash") anchor) t e₃

except_disclosure_inv :
    {A : Type 0} (r : Result A) (next : A → Result AnchorVerdict)
    → except_disclosure r next ≡ ok matches
    → (a : A) × (r ≡ ok a) × (next a ≡ ok matches)
unfolding except_disclosure
except_disclosure_inv (ok a) next e = (a, refl, e)
except_disclosure_inv out_of_fuel next e = cc (e)
except_disclosure_inv (raise Error.acdp_error) next e = cc (e)
except_disclosure_inv (raise Error.validation_error) next e = cc (e)
except_disclosure_inv (raise Error.schema_violation) next e = cc (e)
except_disclosure_inv (raise Error.hash_mismatch) next e = cc (e)
except_disclosure_inv (raise Error.data_ref_hash_mismatch) next e = cc (e)
except_disclosure_inv (raise Error.embedded_too_large) next e = cc (e)
except_disclosure_inv (raise Error.invalid_signature) next e = cc (e)
except_disclosure_inv (raise Error.key_resolution_failed) next e = cc (e)
except_disclosure_inv (raise Error.key_resolution_unreachable) next e = cc (e)
except_disclosure_inv (raise Error.key_not_authorized) next e = cc (e)
except_disclosure_inv (raise Error.invalid_receipt) next e = cc (e)
except_disclosure_inv (raise Error.invalid_log_proof) next e = cc (e)
except_disclosure_inv (raise Error.invalid_witness_cosignature) next e = cc (e)
except_disclosure_inv (raise Error.value_error) next e = cc (e)
except_disclosure_inv (raise Error.assertion_error) next e = cc (e)
except_disclosure_inv (raise Error.type_error) next e = cc (e)
except_disclosure_inv (raise Error.key_error) next e = cc (e)
except_disclosure_inv (raise Error.attribute_error) next e = cc (e)
except_disclosure_inv (raise Error.struct_error) next e = cc (e)
except_disclosure_inv (raise Error.malformed_record) next e = cc (e)
except_disclosure_inv (raise Error.inconsistent_disclosure) next e = cc (e)

module _ ⦃h : Sha256⦄ where
  -- The disclosure is a record whose digest is the claimed one.
  abbrev pub Discloses : Json → Text → Type 0
  Discloses disclosed claimed =
      (fields : Fields) × (r : SealedRecordV4) × (d : Bytes) × (disclosed ≡ obj fields)
      × (parse_disclosed_record fields ≡ ok r)
      × (record_digest_v4 r ≡ ok d)
      × (claimed ≡ text "sha256:" ++ hex d)

  verify_disclosed_inv :
      (claimed : Text) (disclosed : Json)
      → verify_disclosed claimed disclosed ≡ ok matches
      → Discloses disclosed claimed
  unfolding verify_disclosed compare_digest
  verify_disclosed_inv claimed (obj fields) e =
      elim (Bool-cases (is_version_4 (get_or_null (text "schema_version") fields))) [
        | inl known ↦
            let (r, parsed, compared) =
              except_disclosure_inv (parse_disclosed_record fields) _ (rw known at e) in
            let (d, made, hashed) = bind_inv _ (record_digest_v4 r) compared in
            elim (Bool-cases (text_eq (text "sha256:" ++ hex d) claimed)) [
              | inl same ↦ (
                fields,
                r,
                d,
                refl,
                parsed,
                hashed,
                sym ((text_eq_iff (text "sha256:" ++ hex d) claimed).0 same),
              )
              | inr other ↦ cc (rw other at made)
            ]
        | inr strange ↦ cc (rw strange at e)
      ]
  verify_disclosed_inv claimed null e = cc (e)
  verify_disclosed_inv claimed (bool b) e = cc (e)
  verify_disclosed_inv claimed (int n) e = cc (e)
  verify_disclosed_inv claimed (float x) e = cc (e)
  verify_disclosed_inv claimed (str s) e = cc (e)
  verify_disclosed_inv claimed (arr xs) e = cc (e)

  -- When verify_anchor reports a match, the disclosure parses to a sealed record, and the anchor's
  -- content hash is the prefixed hexadecimal digest of that record.
  pub verify_anchor_matches :
      (anchor disclosed : Json)
      → verify_anchor anchor disclosed ≡ ok matches
      → (members : Fields) × (claimed : Text) × (anchor ≡ obj members)
        × (get_or_null (text "content_hash") members ≡ str claimed)
        × Discloses disclosed claimed
  unfolding verify_anchor
  verify_anchor_matches (obj members) disclosed e =
      let (claimed, e₁, valid) = bind_inv _ (validate_anchor members) e in
      let (_, e₂) =
        require_inv (is_literal (text "seam.decision") (get_or_null (text "scheme") members))
          value_error _ e₁ in
      (
        members,
        claimed,
        refl,
        validate_anchor_inv members claimed valid,
        verify_disclosed_inv claimed disclosed e₂,
      )
  verify_anchor_matches null disclosed e = cc (e)
  verify_anchor_matches (bool b) disclosed e = cc (e)
  verify_anchor_matches (int n) disclosed e = cc (e)
  verify_anchor_matches (float x) disclosed e = cc (e)
  verify_anchor_matches (str s) disclosed e = cc (e)
  verify_anchor_matches (arr xs) disclosed e = cc (e)
