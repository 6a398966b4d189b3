-- ===== src/Keyless/Signers.antt =====
-- keyless.py: workload identities as the controller's document lists them, keyless key ids, and who may
-- supersede whom.
use acdp_verifier_py.Prelude.{
  List, [], ◌∷◌, ◌++◌, Bool, true, false, not, ◌&&◌, ◌||◌, Option, none, some, Text, text, text_eq,
  bytes_eq, starts_with, partition, if◌then◌else◌,
}
use acdp_verifier_py.Json.{Json, bool, str, arr, obj, Items, nil, cons, Fields, get, get_or_null}

pub record WorkloadIdentity : Type 0 where
  pub type : Text
  pub subject : Text
  pub issuer : Option Text

-- The record's `==`.
unfoldable pub issuer_eq : Option Text → Option Text → Bool
unfolding bytes_eq
issuer_eq none none = true
issuer_eq none (some t) = false
issuer_eq (some s) none = false
issuer_eq (some s) (some t) = text_eq s t

unfoldable pub identity_eq : WorkloadIdentity → WorkloadIdentity → Bool
unfolding issuer_eq bytes_eq
identity_eq a b =
    text_eq a.type b.type && (text_eq a.subject b.subject && issuer_eq a.issuer b.issuer)

-- `s.get("type") == SERVICE_TYPE` on a mapping
unfoldable pub is_type : Text → Json → Bool
unfolding bytes_eq
is_type t (str s) = text_eq s t
is_type t _ = false

unfoldable pub keyless_services : Items → List Fields
unfolding is_type get_or_null
keyless_services nil = []
keyless_services (cons (obj members) xs) =
    let rest = keyless_services xs in
    if is_type (text "AcdpKeylessSigning") (get_or_null (text "type") members)
    then members ∷ rest
    else rest
keyless_services (cons _ xs) = keyless_services xs

abbrev pub Listed : Type 0
Listed = WorkloadIdentity × Bool

-- `org_wide`, where an entry without one is not
unfoldable pub org_wide_of : Option Json → Option Bool
org_wide_of none = some false
org_wide_of (some (bool b)) = some b
org_wide_of (some _) = none

-- What an entry lists, when it is a mapping of one of the two types.
unfoldable pub listed_oidc : Json → Json → Option Bool → List Listed
listed_oidc (str subject) (str issuer) (some org_wide) =
    (record { type = text "oidc"; subject = subject; issuer = some issuer }, org_wide) ∷ []
listed_oidc _ _ _ = []

unfoldable pub listed_spiffe : Json → Option Bool → List Listed
listed_spiffe (str subject) (some org_wide) =
    (record { type = text "spiffe"; subject = subject; issuer = none }, org_wide) ∷ []
listed_spiffe _ _ = []

unfoldable pub listed_entry : Json → List Listed
unfolding is_type get get_or_null org_wide_of listed_oidc listed_spiffe
listed_entry (obj members) =
    let org_wide = org_wide_of (get (text "org_wide") members) in
    let subject = get_or_null (text "subject") members in
    if is_type (text "oidc") (get_or_null (text "type") members)
    then listed_oidc subject (get_or_null (text "issuer") members) org_wide
    else if is_type (text "spiffe") (get_or_null (text "type") members)
    then listed_spiffe subject org_wide
    else []
listed_entry _ = []

unfoldable pub listed_entries : Items → List Listed
unfolding listed_entry
listed_entries nil = []
listed_entries (cons x xs) = listed_entry x ++ listed_entries xs

-- `serviceEndpoint` and its `identities`
unfoldable pub endpoint_identities : Json → List Listed
unfolding listed_entries
endpoint_identities (arr xs) = listed_entries xs
endpoint_identities _ = []

unfoldable pub service_identities : Json → List Listed
unfolding endpoint_identities get_or_null
service_identities (obj endpoint) = endpoint_identities (get_or_null (text "identities") endpoint)
service_identities _ = []

-- `len(keyless) != 1`
unfoldable pub only_service : List Fields → List Listed
unfolding service_identities get_or_null
only_service (service ∷ []) = service_identities (get_or_null (text "serviceEndpoint") service)
only_service _ = []

unfoldable pub services_of : Json → List Listed
unfolding only_service keyless_services
services_of (arr xs) = only_service (keyless_services xs)
services_of _ = []

unfoldable pub listed_identities : Fields → List Listed
unfolding services_of get_or_null
listed_identities did_document = services_of (get_or_null (text "service") did_document)

unfoldable pub any_identity : WorkloadIdentity → List Listed → Bool
unfolding identity_eq
any_identity identity [] = false
any_identity identity (e ∷ es) = identity_eq e.0 identity || any_identity identity es

unfoldable pub identity_listed : Fields → WorkloadIdentity → Bool
unfolding any_identity listed_identities
identity_listed did_document identity = any_identity identity (listed_identities did_document)

unfoldable pub is_keyless_key_id : Json → Bool
unfolding partition starts_with
is_keyless_key_id (str key_id) =
    let parts = partition 35 key_id in parts.found && starts_with parts.after (text "acdp-kl-")
is_keyless_key_id _ = false

pub record Signer : Type 0 where
  pub keyless : Bool
  pub identity : Option WorkloadIdentity
  pub org_wide : Bool

unfoldable pub optional_identity_eq : Option WorkloadIdentity → Option WorkloadIdentity → Bool
unfolding identity_eq
optional_identity_eq none none = true
optional_identity_eq none (some b) = false
optional_identity_eq (some a) none = false
optional_identity_eq (some a) (some b) = identity_eq a b

-- Without the reason, which is always the mismatch of identities.
unfoldable pub supersession : Signer → Signer → Bool
unfolding optional_identity_eq
supersession predecessor successor =
    if not successor.keyless || successor.org_wide
    then true
    else if predecessor.keyless && optional_identity_eq predecessor.identity successor.identity
    then true
    else false
