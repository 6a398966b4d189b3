-- ===== src/Chain/Verdict.antt =====
-- chain.py: `_verdict` on the stages of one node, and `_chain` on the verdicts of all.
use acdp_verifier_py.Prelude.{
  ℕ, List, [], ◌∷◌, ◌++◌, Bool, true, false, not, ◌&&◌, ◌||◌, Option, none, some, Text, text,
  text_eq, bytes_eq, ltb, if◌then◌else◌,
}
use acdp_verifier_py.Errors.{Result, ok, raise, ◌>>=◌, key_error}

-- A stage; each part but the value may be absent.
pub record Stage : Type 0 where
  pub value : Text
  pub basis : Option Text
  pub evidence_time : Option Text
  pub key_status : Option Text

abbrev pub Stages : Type 0
Stages = List (Text × Stage)

unfoldable pub stage_of : Text → Stages → Option Stage
unfolding bytes_eq
stage_of name [] = none
stage_of name (s ∷ ss) = if text_eq s.0 name then some s.1 else stage_of name ss

-- `stages[name]`
unfoldable pub stage : Text → Stages → Result Stage
unfolding stage_of
stage name stages = elim (stage_of name stages) [ none ↦ raise key_error | some s ↦ ok s ]

unfoldable pub is_some_text : Text → Option Text → Bool
unfolding bytes_eq
is_some_text t none = false
is_some_text t (some s) = text_eq s t

unfoldable pub is_none : Option Text → Bool
is_none none = true
is_none (some s) = false

unfoldable pub any_observed : Stages → Bool
unfolding is_some_text
any_observed [] = false
any_observed (s ∷ ss) = is_some_text (text "observed") s.1.basis || any_observed ss

unfoldable pub caveat : Bool → Text → List Text
caveat true name = name ∷ []
caveat false name = []

-- The caveats of a node that is present, in the order that they are sorted into.
unfoldable pub present_caveats : Stages → Bool → Stage → Result (List Text)
unfolding stage is_some_text is_none any_observed caveat bytes_eq
present_caveats stages as_of presence = do
  identity ← stage (text "identity") stages
  key ← stage (text "key") stages
  key_revocation ← stage (text "key_revocation") stages
  registry_receipt ← stage (text "registry_receipt") stages
  retraction ← stage (text "retraction") stages
  log ← stage (text "log") stages
  ok (
      caveat (text_eq key.value (text "historical_receipt_attested")) (text "historical_key")
      ++ (caveat (is_some_text (text "historical") registry_receipt.key_status)
            (text "historical_receipt_key")
          ++ (caveat (text_eq identity.value (text "unbound")) (text "identity_unbound")
              ++ (caveat (text_eq log.value (text "cannot_verify")) (text "log_cannot_verify")
                  ++ (caveat (any_observed stages) (text "observed_basis")
                      ++ (caveat (text_eq key_revocation.value (text "pre-compromise"))
                            (text "pre_compromise")
                          ++ (caveat (text_eq retraction.value (text "retracted"))
                                (text "retracted")
                              ++ caveat (as_of && is_none presence.evidence_time)
                                  (text "undated"))))))))

unfoldable pub caveats_of : Stages → Bool → Stage → Result (List Text)
unfolding present_caveats bytes_eq
caveats_of stages as_of presence =
    if text_eq presence.value (text "present") then present_caveats stages as_of presence else ok []

-- `value(name) in values`, where a stage may be absent
unfoldable pub one_of : Text → List Text → Bool
unfolding bytes_eq
one_of t [] = false
one_of t (v ∷ vs) = text_eq t v || one_of t vs

unfoldable pub value_in : Stages → Text → List Text → Bool
unfolding stage_of one_of
value_in stages name values = elim (stage_of name stages) [
  | none ↦ false
  | some s ↦ one_of s.value values
]

pub data NodeVerdict : Type 0 where
  ok_verdict ok_with_caveats unknown refused : NodeVerdict

unfoldable pub refuses : Stages → Text → Bool
unfolding value_in one_of
refuses stages presence =
    one_of presence (text "cycle" ∷ text "not_yet_published" ∷ [])
    || (value_in stages (text "identity") (text "mismatch" ∷ [])
        || (value_in stages (text "content_hash") (text "mismatch" ∷ [])
            || (value_in stages (text "signature") (text "invalid" ∷ text "unresolvable" ∷ [])
                || (value_in stages (text "key")
                      (text "revoked" ∷ text "unplaceable" ∷ text "unresolvable" ∷ [])
                    || value_in stages (text "key_revocation")
                        (text "revoked" ∷ text "unplaceable" ∷ [])))))

unfoldable pub leaves_open : Stages → Text → Bool
unfolding value_in one_of
leaves_open stages presence =
    one_of presence (text "withheld" ∷ text "unresolved" ∷ text "absent" ∷ [])
    || (value_in stages (text "key") (text "unknown" ∷ [])
        || (value_in stages (text "key_revocation") (text "unknown" ∷ [])
            || (value_in stages (text "retraction") (text "unknown" ∷ text "invalid" ∷ [])
                || (value_in stages (text "registry_receipt") (text "invalid" ∷ [])
                    || value_in stages (text "log") (text "invalid" ∷ [])))))

unfoldable pub with_caveats : List Text → NodeVerdict
with_caveats [] = ok_verdict
with_caveats (c ∷ cs) = ok_with_caveats

-- The verdict and the caveats.
unfoldable pub node_verdict : Stages → Bool → Result (NodeVerdict × List Text)
unfolding stage caveats_of refuses leaves_open with_caveats
node_verdict stages as_of = do
  presence ← stage (text "presence") stages
  caveats ← caveats_of stages as_of presence
  ok (
    (if refuses stages presence.value
        then refused
        else if leaves_open stages presence.value
        then unknown
        else with_caveats caveats),
    caveats,
  )

-- `_VERDICT_RANK`
unfoldable pub rank : NodeVerdict → ℕ
rank ok_verdict = 0
rank ok_with_caveats = 1
rank unknown = 2
rank refused = 3

-- `max(verdicts, key=rank)`: the first of the greatest.
unfoldable pub greatest : NodeVerdict → List NodeVerdict → NodeVerdict
unfolding rank
greatest v [] = v
greatest v (u ∷ us) = greatest (if ltb (rank v) (rank u) then u else v) us

unfoldable pub worst : List NodeVerdict → NodeVerdict
unfolding greatest
worst [] = ok_verdict
worst (v ∷ vs) = greatest v vs

unfoldable pub chain : List NodeVerdict → Bool → NodeVerdict
unfolding worst rank
chain verdicts complete =
    if not complete && ltb (rank (worst verdicts)) 2 then unknown else worst verdicts
