-- ===== src/Trustlist/Entry.antt =====
-- trustlist.py: one entry of a list against one body (`_entry_outcome`).
use acdp_verifier_py.Prelude.{
  ℕ, zero, suc, List, [], ◌∷◌, Bool, true, false, not, ◌&&◌, ◌||◌, Option, none, some, Text, text,
  bytes_eq, starts_with, ◌==◌, if◌then◌else◌,
}
use acdp_verifier_py.Prelude.{text_ltb}
use acdp_verifier_py.Trustlist.Series.{Outcome, is_member}

pub record Scope : Type 0 where
  pub agent_ids : Option (List Text)
  pub agent_id_prefixes : Option (List Text)
  pub did_methods : Option (List Text)
  pub types : Option (List Text)

-- An entry of the closed `acdp-trust-list/1` object; `none` is a member that is absent.
pub record Entry : Type 0 where
  pub origin : Text
  pub registry_did : Text
  pub receipt_key_fingerprints : Option (List Text)
  pub required_profiles : Option (List Text)
  pub scope : Option Scope
  pub valid_from : Option Text
  pub valid_until : Option Text

-- The members of a body that are read.
pub record Body : Type 0 where
  pub ctx_id : Text
  pub origin_registry : Text
  pub agent_id : Text
  pub kind : Text

pub record ReceiptInput : Type 0 where
  pub registry_did : Text
  pub key_fingerprint : Text

-- `get(name, ())`
unfoldable pub items : Option (List Text) → List Text
items none = []
items (some xs) = xs

unfoldable pub is_given {ℓ} : {A : Type ℓ} → Option A → Bool
is_given none = false
is_given (some a) = true

-- `any(agent_id.startswith(p) for p in prefixes)`
unfoldable pub has_prefix : Text → List Text → Bool
unfolding starts_with
has_prefix agent_id [] = false
has_prefix agent_id (p ∷ ps) = starts_with agent_id p || has_prefix agent_id ps

-- `":".join(agent_id.split(":", n)[:n])`: the text before the n-th colon
unfoldable pub before_colon : ℕ → Text → Text
before_colon zero chars = []
before_colon (suc n) [] = []
before_colon (suc zero) (c ∷ cs) = let rest = before_colon 1 cs in if c == 58 then [] else c ∷ rest
before_colon (suc (suc n)) (c ∷ cs) =
    let next = before_colon (suc n) cs in
    let same = before_colon (suc (suc n)) cs in if c == 58 then c ∷ next else c ∷ same

-- `any(p not in capabilities for p in profiles)`
unfoldable pub lacks : List Text → List Text → Bool
unfolding is_member
lacks capabilities [] = false
lacks capabilities (p ∷ profiles) = not (is_member p capabilities) || lacks capabilities profiles

abbrev pub receipts_profile : Text
receipts_profile = text "acdp-registry-receipts"

-- The registry of the receipt is another one.
unfoldable pub registry_mismatch : Option ReceiptInput → Text → Bool
unfolding bytes_eq
registry_mismatch none registry_did = false
registry_mismatch (some receipt) registry_did = not (bytes_eq receipt.registry_did registry_did)

-- A receipt is called for and there is none.
unfoldable pub receipt_missing : Option ReceiptInput → Entry → Bool
unfolding is_given is_member items
receipt_missing receipt entry =
    (is_given entry.receipt_key_fingerprints
      || is_member receipts_profile (items entry.required_profiles))
    && not (is_given receipt)

-- The receipt's key is not one of the pinned ones.
unfoldable pub key_unpinned : Option ReceiptInput → Option (List Text) → Bool
unfolding is_member
key_unpinned none pinned_keys = false
key_unpinned (some receipt) none = false
key_unpinned (some receipt) (some pinned_keys) = not (is_member receipt.key_fingerprint pinned_keys)

unfoldable pub profile_missing : Option (List Text) → List Text → Bool
unfolding lacks
profile_missing none profiles = false
profile_missing (some capabilities) profiles = lacks capabilities profiles

unfoldable pub outside_window : Text → Entry → Bool
unfolding text_ltb
outside_window t entry = not_begun entry.valid_from || ended entry.valid_until
  where
    not_begun : Option Text → Bool
    not_begun none = false
    not_begun (some from) = text_ltb t from

    ended : Option Text → Bool
    ended none = false
    ended (some until) = not (text_ltb t until)

-- `name in scope and value not in scope[name]`
unfoldable pub excluded : Text → Option (List Text) → Bool
unfolding is_member
excluded value none = false
excluded value (some allowed) = not (is_member value allowed)

unfoldable pub agent_excluded : Text → Scope → Bool
unfolding is_given is_member has_prefix items
agent_excluded agent_id scope =
    (is_given scope.agent_ids || is_given scope.agent_id_prefixes)
    && not (
        is_member agent_id (items scope.agent_ids)
        || has_prefix agent_id (items scope.agent_id_prefixes))

abbrev pub Finding : Type 0
Finding = Outcome × Option Text

unfoldable pub scope_outcome : Option Scope → Body → Finding
unfolding agent_excluded excluded before_colon
scope_outcome none body = (Outcome.trusted, none)
scope_outcome (some scope) body =
    if agent_excluded body.agent_id scope
    then (Outcome.out_of_scope, some (text "scope_agent"))
    else if excluded (before_colon 2 body.agent_id) scope.did_methods
    then (Outcome.out_of_scope, some (text "scope_did_method"))
    else if excluded body.kind scope.types
    then (Outcome.out_of_scope, some (text "scope_type"))
    else (Outcome.trusted, none)

unfoldable pub entry_outcome :
    Entry → Body → Text → Option ReceiptInput → Option (List Text) → Text → Option Finding
unfolding bytes_eq registry_mismatch receipt_missing key_unpinned profile_missing items
    outside_window scope_outcome
entry_outcome entry body origin receipt capabilities t =
    if not (bytes_eq entry.origin origin)
    then none
    else if registry_mismatch receipt entry.registry_did
    then some (Outcome.untrusted_registry, some (text "registry_mismatch"))
    else if receipt_missing receipt entry
    then some (Outcome.untrusted_registry, some (text "receipt_required"))
    else if key_unpinned receipt entry.receipt_key_fingerprints
    then some (Outcome.untrusted_registry, some (text "receipt_key_unpinned"))
    else if profile_missing capabilities (items entry.required_profiles)
    then some (Outcome.untrusted_registry, some (text "profile_missing"))
    else if outside_window t entry
    then some (Outcome.expired, some (text "entry_window"))
    else some (scope_outcome entry.scope body)
