-- ===== src/Keyless/Decision.antt =====
-- keyless.py: `Facts`, `decide` and `_key_revocation_class`.
use acdp_verifier_py.Prelude.{
  List, [], ◌∷◌, Bool, not, ◌&&◌, Option, none, some, Text, text_leb, text_ltb, if◌then◌else◌,
}

pub data KeylessStatus : Type 0 where
  currently_authorized historically_authorized historically_authorized_pre_compromise refused :
      KeylessStatus

pub data Reason : Type 0 where
  attestation_invalid untrusted_attester attestation_mismatch unplaceable : Reason
  outside_attestation_window invalid_signature attestation_withdrawn revoked : Reason
  controller_unreachable : Reason

pub record ReceiptFacts : Type 0 where
  pub verified : Bool
  pub registry_is_attester : Bool
  pub fingerprint_matches : Bool
  pub created_at : Text

pub record Facts : Type 0 where
  pub attestation_valid : Bool
  pub attester_accepted : Bool
  pub bindings_ok : Bool
  pub receipt : Option ReceiptFacts
  pub not_before : Text
  pub not_after : Text
  pub signature_valid : Bool
  pub retracted : Bool
  pub compromised_since : List Text
  pub identity_listed_now : Option Bool

-- `min(x, *xs)`: the first of the least.
unfoldable pub minimum : Text → List Text → Text
unfolding text_ltb
minimum x [] = x
minimum x (y ∷ ys) = minimum (if text_ltb y x then y else x) ys

-- The receipt of a body that it places, otherwise none.
unfoldable pub placing : Option ReceiptFacts → Option ReceiptFacts
placing none = none
placing (some r) =
    if r.verified && (r.registry_is_attester && r.fingerprint_matches) then some r else none

abbrev pub Verdict : Type 0
Verdict = KeylessStatus × Option Reason

-- Step 9.
unfoldable pub decide_listed : Option Bool → Verdict
decide_listed none = (refused, some controller_unreachable)
decide_listed (some listed) =
    if listed then (currently_authorized, none) else (historically_authorized, none)

-- Steps 8 and 9.
unfoldable pub decide_revoked : Text → List Text → Option Bool → Verdict
unfolding decide_listed minimum text_leb
decide_revoked created_at [] listed = decide_listed listed
decide_revoked created_at (t ∷ ts) listed =
    if text_leb (minimum t ts) created_at
    then (refused, some revoked)
    else (historically_authorized_pre_compromise, none)

-- Steps 4 to 9, behind the receipt.
unfoldable pub decide_placed : Facts → Option ReceiptFacts → Verdict
unfolding decide_revoked text_ltb
decide_placed facts none = (refused, some unplaceable)
decide_placed facts (some receipt) =
    if not
      (text_leb facts.not_before receipt.created_at && text_ltb receipt.created_at facts.not_after)
    then (refused, some outside_attestation_window)
    else if not facts.signature_valid
    then (refused, some invalid_signature)
    else if facts.retracted
    then (refused, some attestation_withdrawn)
    else decide_revoked receipt.created_at facts.compromised_since facts.identity_listed_now

unfoldable pub decide : Facts → Verdict
unfolding decide_placed placing
decide facts =
    if not facts.attestation_valid
    then (refused, some attestation_invalid)
    else if not facts.attester_accepted
    then (refused, some untrusted_attester)
    else if not facts.bindings_ok
    then (refused, some attestation_mismatch)
    else decide_placed facts (placing facts.receipt)

pub data KeyRevocation : Type 0 where
  not_revoked pre_compromise unknown_revocation revoked_key unplaceable_key : KeyRevocation

-- `if unknown: return "unknown"`
unfoldable pub unless_unknown : List Text → KeyRevocation → KeyRevocation
unless_unknown [] value = value
unless_unknown (u ∷ us) value = unknown_revocation

-- The class when some revocation applies.
unfoldable pub revocation_class : Option ReceiptFacts → Text → List Text → KeyRevocation
unfolding unless_unknown text_leb
revocation_class none boundary unknown = unplaceable_key
revocation_class (some receipt) boundary unknown =
    if text_leb boundary receipt.created_at
    then revoked_key
    else unless_unknown unknown pre_compromise

-- The second argument holds the `compromised_since` of each revocation that applies.
unfoldable pub key_revocation_class : Facts → List Text → List Text → KeyRevocation
unfolding revocation_class minimum placing
key_revocation_class facts [] unknown = unless_unknown unknown not_revoked
key_revocation_class facts (t ∷ ts) unknown =
    revocation_class (placing facts.receipt) (minimum t ts) unknown
