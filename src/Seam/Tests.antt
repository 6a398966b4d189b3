-- ===== src/Seam/Tests.antt =====
-- Runs of seamdecision.py, and its theorems at a record and at two participants.
use acdp_verifier_py.Prelude.{◌≡◌, refl, List, [], ◌∷◌, none, some, Bytes, Text, text, pos, negsuc}
use acdp_verifier_py.Errors.{ok, raise, struct_error}
use acdp_verifier_py.Seam.Frame.{SealedRecordV4, le64, preimage_v4, participants_preimage}
use acdp_verifier_py.Crypto.{Sha256}
use acdp_verifier_py.Json.{Json, int, str, arr, obj, nil, cons, Fields, end, field, get_or_null}
use acdp_verifier_py.Translog.Tests.{toy}
use acdp_verifier_py.Seam.Disclosure.{
  matches, mismatch, cannot_verify, malformed, unknown_record_digest_version, verify_anchor,
}
use acdp_verifier_py.Seam.Anchored.{Discloses, verify_anchor_matches}
use acdp_verifier_py.Seam.Binding.{preimage_v4_injective}
use acdp_verifier_py.Seam.Participants.{participants_preimage_injective}

abbrev sealed : SealedRecordV4
sealed = record {
  decision_id = text "d";
  tenant = text "t";
  namespace = text "n";
  ciphertext_digest = 1 ∷ 1 ∷ [];
  sealed_at = pos 1099511627781;
  outcome = text "o";
  mode = none;
  policy_version = some [];
  supersedes = some (text "é");
  context_digest = 2 ∷ [];
  participation_digest = 3 ∷ [];
  policy_rules_digest = none;
  classification = text "c";
  participants_digest = 4 ∷ [];
  trust_basis_commitment = text "k";
  auth_method = text "a";
}

abbrev expected : Bytes
expected =
    27 ∷ 0 ∷ 0 ∷ 0 ∷ 115 ∷ 101 ∷ 97 ∷ 109 ∷ 46 ∷ 97 ∷ 117 ∷ 100 ∷ 105 ∷ 116 ∷ 46 ∷ 114 ∷ 101 ∷ 99
    ∷ 111 ∷ 114 ∷ 100 ∷ 45 ∷ 100 ∷ 105 ∷ 103 ∷ 101 ∷ 115 ∷ 116 ∷ 46 ∷ 118 ∷ 52 ∷ 1 ∷ 0 ∷ 0 ∷ 0 ∷ 100
    ∷ 1 ∷ 0 ∷ 0 ∷ 0 ∷ 116 ∷ 1 ∷ 0 ∷ 0 ∷ 0 ∷ 110 ∷ 2 ∷ 0 ∷ 0 ∷ 0 ∷ 1 ∷ 1 ∷ 8 ∷ 0 ∷ 0 ∷ 0 ∷ 5 ∷ 0 ∷ 0
    ∷ 0 ∷ 0 ∷ 1 ∷ 0 ∷ 0 ∷ 1 ∷ 0 ∷ 0 ∷ 0 ∷ 111 ∷ 0 ∷ 1 ∷ 0 ∷ 0 ∷ 0 ∷ 0 ∷ 1 ∷ 2 ∷ 0 ∷ 0 ∷ 0 ∷ 195
    ∷ 169 ∷ 1 ∷ 0 ∷ 0 ∷ 0 ∷ 2 ∷ 1 ∷ 0 ∷ 0 ∷ 0 ∷ 3 ∷ 0 ∷ 1 ∷ 0 ∷ 0 ∷ 0 ∷ 99 ∷ 1 ∷ 0 ∷ 0 ∷ 0 ∷ 4 ∷ 1
    ∷ 0 ∷ 0 ∷ 0 ∷ 107 ∷ 1 ∷ 0 ∷ 0 ∷ 0 ∷ 97 ∷ 4 ∷ 0 ∷ 0 ∷ 0 ∷ 4 ∷ 0 ∷ 0 ∷ 0 ∷ []

sealed_preimage : preimage_v4 sealed ≡ ok expected
unfolding preimage_v4
sealed_preimage = refl

no_negative_time : le64 (negsuc 0) ≡ raise struct_error
unfolding le64
no_negative_time = refl

preimage_v4_injective_example : sealed ≡ sealed
preimage_v4_injective_example =
    preimage_v4_injective sealed sealed expected sealed_preimage sealed_preimage

abbrev participants : List Text
participants = text "x" ∷ text "xy" ∷ []

abbrev expected_participants : Bytes
expected_participants =
    26 ∷ 0 ∷ 0 ∷ 0 ∷ 115 ∷ 101 ∷ 97 ∷ 109 ∷ 46 ∷ 97 ∷ 117 ∷ 100 ∷ 105 ∷ 116 ∷ 46 ∷ 112 ∷ 97 ∷ 114
    ∷ 116 ∷ 105 ∷ 99 ∷ 105 ∷ 112 ∷ 97 ∷ 110 ∷ 116 ∷ 115 ∷ 46 ∷ 118 ∷ 52 ∷ 2 ∷ 0 ∷ 0 ∷ 0 ∷ 1 ∷ 0 ∷ 0
    ∷ 0 ∷ 120 ∷ 2 ∷ 0 ∷ 0 ∷ 0 ∷ 120 ∷ 121 ∷ []

participants_run : participants_preimage participants ≡ ok expected_participants
unfolding participants_preimage
participants_run = refl

participants_preimage_injective_example : participants ≡ participants
participants_preimage_injective_example =
    participants_preimage_injective participants participants expected_participants participants_run
      participants_run

instance digest : Sha256
digest = toy

abbrev disclosed : Fields
disclosed = field (text "schema_version") (int (pos 4)) (
    field (text "sealed_at") (int (pos 7)) (
      field (text "trust_basis_commitment") (str (text "k")) (
        field (text "decision_id") (str (text "d")) (
          field (text "tenant") (str (text "t")) (
            field (text "namespace") (str (text "n")) (
              field (text "ciphertext_digest_hex")
                (str (text "2902020202020202020202020202020202020202020202020202020202020202"))
                (field (text "outcome") (str (text "o")) (
                  field (text "context_digest_hex")
                    (str (text "abababababababababababababababababababababababababababababababab"))
                    (field (text "participation_digest_hex")
                      (str
                        (text "abababababababababababababababababababababababababababababababab"))
                      (field (text "classification") (str (text "c")) (
                        field (text "participants_digest_hex")
                          (str (
                            text
                              "0427272727272727272727272727272727272727272727272727272727272727"))
                          (field (text "auth_method") (str (text "a")) (
                            field (text "ciphertext_hex") (str (text "01ff")) (
                              field (text "participants") (arr (cons (str (text "x")) nil))
                                (end)))))))))))))))

abbrev claim : Text
claim = text "sha256:43eaeaeaeaeaeaeaeaeaeaeaeaeaeaeaeaeaeaeaeaeaeaeaeaeaeaeaeaeaeaea"

abbrev anchor : Text → Json
anchor hash = obj (
    field (text "scheme") (str (text "seam.decision")) (field (text "content_hash") (str hash) end))

anchor_matches : verify_anchor (anchor claim) (obj disclosed) ≡ ok matches
unfolding verify_anchor digest
anchor_matches = refl

tampered :
    verify_anchor (anchor claim) (obj (field (text "tenant") (str (text "u")) disclosed))
    ≡ ok mismatch
unfolding verify_anchor digest
tampered = refl

no_tenant :
    verify_anchor (anchor claim) (obj (field (text "tenant") (str []) disclosed))
    ≡ ok (cannot_verify malformed)
unfolding verify_anchor digest
no_tenant = refl

no_version :
    verify_anchor (anchor claim) (obj end) ≡ ok (cannot_verify unknown_record_digest_version)
unfolding verify_anchor digest
no_version = refl

verify_anchor_matches_example :
    (members : Fields) × (claimed : Text) × (anchor claim ≡ obj members)
    × (get_or_null (text "content_hash") members ≡ str claimed)
    × Discloses (obj disclosed) claimed
verify_anchor_matches_example = verify_anchor_matches (anchor claim) (obj disclosed) anchor_matches
