-- ===== src/DidKey/Sound.antt =====
-- didkey.py: from a resolved key back to the DID and the checks that were passed.
use acdp_verifier_py.Prelude.{
  ℕ, ◌≡◌, sym, ◌∙◌, ◌⊎◌, inl, inr, [], ◌++◌, arith, ◌==◌, Bool-cases, Bytes, Text, text, bytes_eq,
  bytes_eq_iff, starts_with, drop, length,
}
use acdp_verifier_py.Errors.{
  Result, ok, raise, out_of_fuel, require_inv, refuse_inv, bind_inv, key_resolution_failed,
  key_not_authorized, invalid_signature,
}
use acdp_verifier_py.Base58.Codec.{b58encode, b58decode}
use acdp_verifier_py.Base58.RoundTrip.{b58encode-b58decode}
use acdp_verifier_py.Prelude.{partition}
use acdp_verifier_py.DidKey.Resolve.{
  ResolvedKey, multicodec_ed25519, multicodec_p256, ed25519, ecdsa_p256, did_key_from_ed25519,
  did_key_from_p256_compressed, base58_payload, sized_key, typed_key, decode_method_specific_id,
  parse_did_url, resolve_did_key,
}
use acdp_verifier_py.DidKey.Encoded.{partition_inv, starts_with_inv}
use acdp_verifier_py.DidKey.RoundTrip.{did_url}

base58_payload_inv :
    (o : Result Bytes) (payload : Bytes) → base58_payload o ≡ ok payload → o ≡ ok payload
unfolding base58_payload
base58_payload_inv (ok octets) payload e = e
base58_payload_inv out_of_fuel payload e = cc
base58_payload_inv (raise err) payload e = cc

sized_key_inv :
    (alg : Text) (n : ℕ) (key : Bytes) (r : ResolvedKey)
    → sized_key alg n key ≡ ok r
    → (r.algorithm ≡ alg) × (key ≡ r.public_key) × (length r.public_key ≡ n)
unfolding sized_key
sized_key_inv alg n key r e =
    let (size, same) = require_inv (length key == n) key_resolution_failed _ e in
    (cc (same), cc (same), ground (arith, size, same))

typed_key_inv :
    (payload : Bytes) (r : ResolvedKey)
    → typed_key payload ≡ ok r
    → ((r.algorithm ≡ ed25519)
        × (payload ≡ multicodec_ed25519 ++ r.public_key)
        × (length r.public_key ≡ 32))
      ⊎ ((r.algorithm ≡ ecdsa_p256)
          × (payload ≡ multicodec_p256 ++ r.public_key)
          × (length r.public_key ≡ 33))
unfolding typed_key
typed_key_inv payload r e = elim (Bool-cases (starts_with payload multicodec_ed25519)) [
  | inl edwards ↦
      let (alg, key, size) = sized_key_inv ed25519 32 (drop 2 payload) r (rw edwards at e) in
      inl (alg, cc (starts_with_inv payload multicodec_ed25519 edwards, key), size)
  | inr other ↦ elim (Bool-cases (starts_with payload multicodec_p256)) [
    | inl nist ↦
        let (alg, key, size) =
          sized_key_inv ecdsa_p256 33 (drop 2 payload) r (rw nist at (rw other at e)) in
        inr (alg, cc (starts_with_inv payload multicodec_p256 nist, key), size)
    | inr neither ↦ cc (rw neither at (rw other at e))
  ]
]

decode_method_specific_id_inv :
    (msid : Text) (r : ResolvedKey)
    → decode_method_specific_id msid ≡ ok r
    → (payload : Bytes) × (msid ≡ text "z" ++ b58encode payload) × (typed_key payload ≡ ok r)
unfolding decode_method_specific_id
decode_method_specific_id_inv msid r e =
    let (multibase, decode) = require_inv (starts_with msid (text "z")) key_resolution_failed _ e in
    let (payload, typed, read) =
      bind_inv typed_key (base58_payload (b58decode (drop 1 msid))) decode in
    let chars =
      b58encode-b58decode (drop 1 msid) payload
        (base58_payload_inv (b58decode (drop 1 msid)) payload read) in
    let msid_chars : msid ≡ text "z" ++ b58encode payload =
      cc (starts_with_inv msid (text "z") multibase, chars) in
    (payload, msid_chars, typed)

parse_did_url_inv :
    (agent key : Text) (msid : Text)
    → parse_did_url agent key ≡ ok msid
    → (agent ≡ text "did:key:" ++ msid) × (key ≡ did_url agent)
unfolding parse_did_url
parse_did_url_inv agent key msid e =
    let parts = partition 35 key in
    let (sep, e₁) = require_inv parts.found key_resolution_failed _ e in
    let (fragment, e₂) = refuse_inv (bytes_eq parts.after []) key_resolution_failed _ e₁ in
    let (method, e₃) =
      require_inv (starts_with parts.before (text "did:key:")) key_resolution_failed _ e₂ in
    let (nonempty, e₄) =
      refuse_inv (bytes_eq (drop 8 parts.before) []) key_resolution_failed _ e₃ in
    let (same_id, e₅) =
      require_inv (bytes_eq parts.after (drop 8 parts.before)) key_resolution_failed _ e₄ in
    let (same_did, e₆) = require_inv (bytes_eq parts.before agent) key_not_authorized _ e₅ in
    let at_hash = partition_inv 35 key sep in
    let front = starts_with_inv parts.before (text "did:key:") method in
    let same = (bytes_eq_iff parts.before agent).0 same_did in
    let after = (bytes_eq_iff parts.after (drop 8 parts.before)).0 same_id in
    let whole : agent ≡ text "did:key:" ++ msid = cc (front, same, e₆) in
    let url : key ≡ did_url agent = cc (at_hash, same, after) in (whole, url)

did_of_key :
    (agent alg msid payload : Text) (r : ResolvedKey)
    → agent ≡ text "did:key:" ++ msid
    → msid ≡ text "z" ++ b58encode payload
    → alg ≡ r.algorithm
    → typed_key payload ≡ ok r
    → ((alg ≡ ed25519) × (did_key_from_ed25519 r.public_key ≡ ok agent))
      ⊎ ((alg ≡ ecdsa_p256) × (did_key_from_p256_compressed r.public_key ≡ ok agent))
unfolding did_key_from_ed25519 did_key_from_p256_compressed
did_of_key agent alg msid payload r whole id same typed = elim (typed_key_inv payload r typed) [
  | inl (implied, content, size) ↦ inl (same ∙ implied, rw size (cc (whole, id, content)))
  | inr (implied, content, size) ↦ inr (same ∙ implied, rw size (cc (whole, id, content)))
]

-- A key that `resolve_did_key` yields is the one that the agent's DID encodes: the DID is what
-- `did_key_from_ed25519` or `did_key_from_p256_compressed` gives this key, by its algorithm, which
-- is the signature's, and the key URL is the DID with its identifier as fragment.
pub resolve_did_key_sound :
    (agent key alg : Text) (r : ResolvedKey)
    → resolve_did_key agent key alg ≡ ok r
    → (key ≡ did_url agent)
      × (r.algorithm ≡ alg)
      × (((alg ≡ ed25519) × (did_key_from_ed25519 r.public_key ≡ ok agent))
          ⊎ ((alg ≡ ecdsa_p256) × (did_key_from_p256_compressed r.public_key ≡ ok agent)))
unfolding resolve_did_key
resolve_did_key_sound agent key alg r e =
    let (msid, e₁, parsed) = bind_inv _ (parse_did_url agent key) e in
    let (resolved, e₂, decoded) = bind_inv _ (decode_method_specific_id msid) e₁ in
    let (same_alg, e₃) = require_inv (bytes_eq alg resolved.algorithm) invalid_signature _ e₂ in
    let (whole, url) = parse_did_url_inv agent key msid parsed in
    let (payload, id, typed) = decode_method_specific_id_inv msid r (decoded ∙ e₃) in
    let named : alg ≡ resolved.algorithm = (bytes_eq_iff alg resolved.algorithm).0 same_alg in
    let same : alg ≡ r.algorithm = cc (named, e₃) in
    (url, sym same, did_of_key agent alg msid payload r whole id same typed)
