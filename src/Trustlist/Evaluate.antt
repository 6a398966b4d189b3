-- ===== src/Trustlist/Evaluate.antt =====
-- trustlist.py: one body against the selected versions of all pins (`evaluate_body`).
use acdp_verifier_py.Prelude.{
  ℕ, suc, List, [], ◌∷◌, Bool, not, ◌&&◌, ◌||◌, Option, none, some, Text, text, bytes_eq,
  starts_with, ◌==◌, ltb, if◌then◌else◌, drop,
}
use acdp_verifier_py.Errors.{Result, ok, raise, ◌>>=◌, assertion_error}
use acdp_verifier_py.Prelude.{text_leb, text_ltb}
use acdp_verifier_py.Trustlist.Series.{IssuerPin, ListVersion, PinState, Outcome, outcome}
use acdp_verifier_py.Trustlist.Entry.{Entry, Body, ReceiptInput, Finding, entry_outcome, is_given}

pub record NodeOutcome : Type 0 where
  pub ctx_id : Text
  pub outcome : Outcome
  pub reason : Option Text
  pub profiles_checked : Bool
  pub issuer : Option Text
  pub list_id : Option Text
  pub entry_index : Option ℕ

-- `_RANK`
unfoldable pub rank : Outcome → ℕ
rank Outcome.trusted = 0
rank Outcome.expired = 1
rank Outcome.out_of_scope = 2
rank Outcome.untrusted_registry = 3
rank Outcome.list_invalid = 4

-- An outcome that names no entry.
unfoldable pub plain : Text → Bool → Outcome → Option Text → NodeOutcome
plain ctx_id checked outcome reason = record {
  ctx_id = ctx_id;
  outcome = outcome;
  reason = reason;
  profiles_checked = checked;
  issuer = none;
  list_id = none;
  entry_index = none;
}

-- `text.removeprefix("acdp://")`
unfoldable pub remove_scheme : Text → Text
unfolding starts_with
remove_scheme chars = if starts_with chars (text "acdp://") then drop 7 chars else chars

-- `text.split("/", 1)[0]`
unfoldable pub before_slash : Text → Text
before_slash [] = []
before_slash (c ∷ cs) = let rest = before_slash cs in if c == 47 then [] else c ∷ rest

-- `a.order <= b.order`, the order of tuples
unfoldable pub pin_leb : IssuerPin → IssuerPin → Bool
unfolding text_ltb text_leb bytes_eq
pin_leb a b =
    text_ltb a.issuer b.issuer || (bytes_eq a.issuer b.issuer && text_leb a.list_id b.list_id)

-- `sorted(pins, key=lambda s: s.pin.order)`, which is stable
unfoldable pub insert : PinState Entry → List (PinState Entry) → List (PinState Entry)
unfolding pin_leb
insert s [] = s ∷ []
insert s (r ∷ rs) = let rest = insert s rs in if pin_leb s.pin r.pin then s ∷ r ∷ rs else r ∷ rest

unfoldable pub sorted : List (PinState Entry) → List (PinState Entry)
unfolding insert
sorted [] = []
sorted (s ∷ ss) = insert s (sorted ss)

-- `if best is None or ...: best = candidate`
unfoldable pub better : NodeOutcome → Option NodeOutcome → NodeOutcome
unfolding rank
better candidate none = candidate
better candidate (some best) =
    if ltb (rank candidate.outcome) (rank best.outcome) then candidate else best

-- `if best is None: return NodeOutcome(ctx_id, "list_invalid", ...)`
unfoldable pub or_none_valid : Text → Bool → Option NodeOutcome → NodeOutcome
unfolding plain
or_none_valid ctx_id checked none =
    plain ctx_id checked Outcome.list_invalid (some (text "no_valid_version"))
or_none_valid ctx_id checked (some best) = best

module _ (body : Body) (receipt : Option ReceiptInput) (capabilities : Option (List Text))
    (t origin : Text) where
  -- What one entry makes of the candidate of its pin.
  unfoldable pub improve : IssuerPin → ℕ → Option Finding → NodeOutcome → NodeOutcome
  unfolding rank is_given
  improve pin index none candidate = candidate
  improve pin index (some (got, reason)) candidate =
      if not (is_given candidate.entry_index) || ltb (rank got) (rank candidate.outcome)
      then record {
        ctx_id = body.ctx_id;
        outcome = got;
        reason = reason;
        profiles_checked = is_given capabilities;
        issuer = some pin.issuer;
        list_id = some pin.list_id;
        entry_index = some index;
      }
      else candidate

  -- `for index, entry in enumerate(state.version.entries)`
  unfoldable pub best_entry : IssuerPin → ℕ → List Entry → NodeOutcome → NodeOutcome
  unfolding improve entry_outcome
  best_entry pin index [] candidate = candidate
  best_entry pin index (entry ∷ entries) candidate =
      best_entry pin (suc index) entries
        (improve pin index (entry_outcome entry body origin receipt capabilities t) candidate)

  -- The candidate of one pin. A used state without a version fails the `assert`.
  unfoldable pub entries_candidate : IssuerPin → Option (ListVersion Entry) → Result NodeOutcome
  unfolding best_entry plain is_given
  entries_candidate pin none = raise assertion_error
  entries_candidate pin (some version) = ok (
      best_entry pin 0 version.entries (
        plain body.ctx_id (is_given capabilities) Outcome.untrusted_registry
          (some (text "no_entry"))))

  unfoldable pub pin_candidate : PinState Entry → Result NodeOutcome
  unfolding outcome plain entries_candidate is_given
  pin_candidate state = elim (outcome state.status) [
    | some own ↦ ok (plain body.ctx_id (is_given capabilities) own state.reason)
    | none ↦ entries_candidate state.pin state.version
  ]

  unfoldable pub best_pin : List (PinState Entry) → Option NodeOutcome → Result (Option NodeOutcome)
  unfolding pin_candidate better
  best_pin [] best = ok best
  best_pin (state ∷ states) best = do
    candidate ← pin_candidate state
    best_pin states (some (better candidate best))

-- `str.lower` is Python's.
module _ (lower : Text → Text) where
  unfoldable pub evaluate_body :
      Body
      → List (PinState Entry)
      → Text
      → Option ReceiptInput
      → Option (List Text)
      → Result NodeOutcome
  unfolding remove_scheme before_slash bytes_eq plain is_given sorted best_pin or_none_valid
  evaluate_body body pins t receipt capabilities =
      let authority = lower (before_slash (remove_scheme body.ctx_id)) in
      let origin = lower body.origin_registry in
      if not (bytes_eq authority origin)
      then ok (
          plain body.ctx_id (is_given capabilities) Outcome.untrusted_registry
            (some (text "origin_mismatch")))
      else do
        best ← best_pin body receipt capabilities t origin (sorted pins) none
        ok (or_none_valid body.ctx_id (is_given capabilities) best)
