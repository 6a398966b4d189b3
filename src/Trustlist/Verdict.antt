-- ===== src/Trustlist/Verdict.antt =====
-- trustlist.py: the entry behind a verdict of `evaluate_body`.
use acdp_verifier_py.Prelude.{
  ℕ, suc, ◌+◌, ◌≡◌, ◌≢◌, ◌⊎◌, refl, sym, ap, ◌∙◌, inl, inr, List, [], ◌∷◌, Bool, not, ◌||◌, Option,
  none, some, Text, text, bytes_eq, bytes_eq_iff, ltb, get_elem?, arith, Bool-cases,
}
use mathlib.Core.Path.{subst}
use mathlib.Core.List.{Memᴰ}
use acdp_verifier_py.Errors.{ok, bind_inv}
use acdp_verifier_py.Trustlist.Series.{ListVersion, PinState, Status, Outcome, outcome}
use acdp_verifier_py.Trustlist.Entry.{Entry, Body, ReceiptInput, Finding, entry_outcome, is_given}
use acdp_verifier_py.Trustlist.Evaluate.{
  NodeOutcome, rank, plain, remove_scheme, before_slash, sorted, improve, best_entry,
  entries_candidate, pin_candidate, better, best_pin, or_none_valid, evaluate_body,
}
use acdp_verifier_py.Trustlist.Sorting.{sorted-member}

plain-outcome :
    (ctx_id : Text) (checked : Bool) (o : Outcome) (reason : Option Text)
    → (plain ctx_id checked o reason).outcome ≡ o
unfolding plain
plain-outcome ctx_id checked o reason = refl

entry_outcome_origin :
    (entry : Entry) (body : Body) (origin : Text) (receipt : Option ReceiptInput)
    (capabilities : Option (List Text)) (t : Text) {f : Finding}
    → entry_outcome entry body origin receipt capabilities t ≡ some f
    → entry.origin ≡ origin
unfolding entry_outcome
entry_outcome_origin entry body origin receipt capabilities t e =
    elim (Bool-cases (bytes_eq entry.origin origin)) [
      | inl same ↦ (bytes_eq_iff entry.origin origin).0 same
      | inr other ↦ cc (rw other at e)
    ]

module _ (body : Body) (receipt : Option ReceiptInput) (capabilities : Option (List Text))
    (t origin : Text) where
  -- The entry that an outcome names: it stands at that index of the version that a used pin has,
  -- it is for the origin, and what it finds is the outcome.
  pub record Endorsed (pins : List (PinState Entry)) (n : NodeOutcome) : Type 0 where
    pub state : PinState Entry
    pub member : Memᴰ state pins
    pub is_used : state.status ≡ Status.used
    pub version : ListVersion Entry
    pub has_version : state.version ≡ some version
    pub index : ℕ
    pub entry : Entry
    pub stands : get_elem? version.entries index ≡ some entry
    pub for_origin : entry.origin ≡ origin
    pub finds : entry_outcome entry body origin receipt capabilities t ≡ some (n.outcome, n.reason)
    pub named :
        (n.entry_index ≡ some index)
        × (n.issuer ≡ some state.pin.issuer)
        × (n.list_id ≡ some state.pin.list_id)

  -- An outcome that names no entry is not `trusted`; one that names an entry is this entry's.
  abbrev pub IsBacked : List (PinState Entry) → NodeOutcome → Type 0
  IsBacked pins n = (n.outcome ≢ Outcome.trusted) ⊎ Endorsed pins n

  improve-IsBacked :
      (pins : List (PinState Entry)) (state : PinState Entry) (version : ListVersion Entry)
      (index : ℕ) (entry : Entry) (c : NodeOutcome)
      → Memᴰ state pins
      → state.status ≡ Status.used
      → state.version ≡ some version
      → get_elem? version.entries index ≡ some entry
      → IsBacked pins c
      → IsBacked pins (
          improve body receipt capabilities t origin state.pin index
            (entry_outcome entry body origin receipt capabilities t)
            c)
  improve-IsBacked pins state version index entry c m used holds stands b =
      found (entry_outcome entry body origin receipt capabilities t) refl
    where
      found :
          (f : Option Finding)
          → entry_outcome entry body origin receipt capabilities t ≡ f
          → IsBacked pins (improve body receipt capabilities t origin state.pin index f c)
      found none e = unfold improve in b
      found (some (got, reason)) e =
          elim (Bool-cases (not (is_given c.entry_index) || ltb (rank got) (rank c.outcome))) [
            | inr worse ↦ unfold improve in (rw worse b)
            | inl better ↦
                unfold improve in
                (rw better (
                  inr (record {
                    state = state;
                    member = m;
                    is_used = used;
                    for_origin = entry_outcome_origin entry body origin receipt capabilities t e;
                    version = version;
                    has_version = holds;
                    index = index;
                    entry = entry;
                    stands = stands;
                    finds = e;
                    named = (refl, refl, refl);
                  })))
          ]

  best_entry-IsBacked :
      (pins : List (PinState Entry)) (state : PinState Entry) (version : ListVersion Entry)
      (index : ℕ) (entries : List Entry) (c : NodeOutcome)
      → Memᴰ state pins
      → state.status ≡ Status.used
      → state.version ≡ some version
      → ((j : ℕ) → get_elem? version.entries (index + j) ≡ get_elem? entries j)
      → IsBacked pins c
      → IsBacked pins (best_entry body receipt capabilities t origin state.pin index entries c)
  unfolding best_entry
  best_entry-IsBacked pins state version index [] c m used holds at b = b
  best_entry-IsBacked pins state version index (entry ∷ entries) c m used holds at b =
      best_entry-IsBacked pins state version (suc index) entries _ m used holds
        (λ j. let e : suc index + j ≡ index + suc j = omega arith in rw e (at (suc j)))
        (improve-IsBacked pins state version index entry c m used holds
          (let e : index ≡ index + 0 = omega arith in ap (get_elem? version.entries) e ∙ at 0) b)

  plain-IsBacked :
      (pins : List (PinState Entry)) (checked : Bool) (o : Outcome) (reason : Option Text)
      → o ≢ Outcome.trusted
      → IsBacked pins (plain body.ctx_id checked o reason)
  plain-IsBacked pins checked o reason other = inl (unfold plain in other)

  pin_candidate-own :
      (state : PinState Entry) (o : Outcome)
      → outcome state.status ≡ some o
      → pin_candidate body receipt capabilities t origin state
        ≡ ok (plain body.ctx_id (is_given capabilities) o state.reason)
  unfolding pin_candidate
  pin_candidate-own state o e = rw (e, pin_candidate) refl

  pub pin_candidate-used :
      (state : PinState Entry)
      → outcome state.status ≡ none
      → pin_candidate body receipt capabilities t origin state
        ≡ entries_candidate body receipt capabilities t origin state.pin state.version
  unfolding pin_candidate
  pin_candidate-used state e = rw (e, pin_candidate) refl

  entries_candidate-IsBacked :
      (pins : List (PinState Entry)) (state : PinState Entry) (version : Option (ListVersion Entry))
      (n : NodeOutcome)
      → Memᴰ state pins
      → state.status ≡ Status.used
      → state.version ≡ version
      → entries_candidate body receipt capabilities t origin state.pin version ≡ ok n
      → IsBacked pins n
  unfolding entries_candidate
  entries_candidate-IsBacked pins state none n m used holds e = cc
  entries_candidate-IsBacked pins state (some version) n m used holds e =
      subst (IsBacked pins) (ok_injective e) (
        best_entry-IsBacked pins state version 0 version.entries _ m used holds
          (λ j. let z : 0 + j ≡ j = omega arith in ap (get_elem? version.entries) z)
          (plain-IsBacked pins (is_given capabilities) Outcome.untrusted_registry
            (some (text "no_entry")) (λ z. cc)))
    where
      ok_injective : {a b : NodeOutcome} → ok a ≡ ok b → a ≡ b
      ok_injective e = cc

  pin_candidate-IsBacked :
      (pins : List (PinState Entry)) (state : PinState Entry) (n : NodeOutcome)
      → Memᴰ state pins
      → pin_candidate body receipt capabilities t origin state ≡ ok n
      → IsBacked pins n
  pin_candidate-IsBacked pins state n m e = by_status state.status refl
    where
      own : (o : Outcome) → o ≢ Outcome.trusted → outcome state.status ≡ some o → IsBacked pins n
      own o other h =
          let same : n ≡ plain body.ctx_id (is_given capabilities) o state.reason =
            cc (e, pin_candidate-own state o h) in
          rw same (plain-IsBacked pins (is_given capabilities) o state.reason other)

      by_status : (status : Status) → state.status ≡ status → IsBacked pins n
      by_status Status.used s =
          entries_candidate-IsBacked pins state state.version n m s refl
            (sym (pin_candidate-used state (rw s (unfold outcome in refl))) ∙ e)
      by_status Status.expired s = own Outcome.expired (λ z. cc) (rw s (unfold outcome in refl))
      by_status Status.invalid s =
          own Outcome.list_invalid (λ z. cc) (rw s (unfold outcome in refl))

  better-IsBacked :
      (pins : List (PinState Entry)) (c : NodeOutcome) (best : Option NodeOutcome)
      → IsBacked pins c
      → ((b : NodeOutcome) → best ≡ some b → IsBacked pins b)
      → IsBacked pins (better c best)
  better-IsBacked pins c none backed h = unfold better in backed
  better-IsBacked pins c (some b) backed h =
      elim (Bool-cases (ltb (rank c.outcome) (rank b.outcome))) [
        | inl less ↦ unfold better in (rw less backed)
        | inr more ↦ unfold better in (rw more (h b refl))
      ]

  best_pin-IsBacked :
      (pins states : List (PinState Entry)) (best : Option NodeOutcome) (n : NodeOutcome)
      → ((x : PinState Entry) → Memᴰ x states → Memᴰ x pins)
      → ((b : NodeOutcome) → best ≡ some b → IsBacked pins b)
      → best_pin body receipt capabilities t origin states best ≡ ok (some n)
      → IsBacked pins n
  unfolding best_pin
  best_pin-IsBacked pins [] best n sub h e = h n (cc (e))
  best_pin-IsBacked pins (state ∷ states) best n sub h e =
      let (c, rest, read) = bind_inv _ (pin_candidate body receipt capabilities t origin state) e in
      let backed = pin_candidate-IsBacked pins state c (sub state (Memᴰ.head refl)) read in
      best_pin-IsBacked pins states (some (better c best)) n (λ x m. sub x (Memᴰ.tail m))
        (λ b same.
          let it : better c best ≡ b = cc (same) in
          subst (IsBacked pins) it (better-IsBacked pins c best backed h))
        rest

  or_none_valid-IsBacked :
      (pins : List (PinState Entry)) (best : Option NodeOutcome)
      → best_pin body receipt capabilities t origin (sorted pins) none ≡ ok best
      → IsBacked pins (or_none_valid body.ctx_id (is_given capabilities) best)
  unfolding or_none_valid
  or_none_valid-IsBacked pins none e =
      plain-IsBacked pins (is_given capabilities) Outcome.list_invalid
        (some (text "no_valid_version")) (λ z. cc)
  or_none_valid-IsBacked pins (some n) e =
      best_pin-IsBacked pins (sorted pins) none n (λ x m. sorted-member pins m) (λ b absent. cc) e

-- A body that `evaluate_body` finds trusted has its authority as origin, in lower case, and an entry
-- for this origin that trusts it: the entry stands, at the index that the outcome names, in the
-- version that a used one of the pins has.
pub evaluate_body_trusted :
    (lower : Text → Text) (body : Body) (pins : List (PinState Entry)) (t : Text)
    (receipt : Option ReceiptInput) (capabilities : Option (List Text)) (n : NodeOutcome)
    → evaluate_body lower body pins t receipt capabilities ≡ ok n
    → n.outcome ≡ Outcome.trusted
    → (lower (before_slash (remove_scheme body.ctx_id)) ≡ lower body.origin_registry)
      × Endorsed body receipt capabilities t (lower body.origin_registry) pins n
unfolding evaluate_body
evaluate_body_trusted lower body pins t receipt capabilities n e trust =
    elim (Bool-cases
      (bytes_eq (lower (before_slash (remove_scheme body.ctx_id))) (lower body.origin_registry))) [
        | inr differs ↦
            let reason = some (text "origin_mismatch") in
            let it : plain body.ctx_id (is_given capabilities) Outcome.untrusted_registry reason
                ≡ n =
              cc (rw differs at e) in
            let found =
              plain-outcome body.ctx_id (is_given capabilities) Outcome.untrusted_registry reason in
            cc (trust, it, found)
        | inl same ↦
            let (best, given, found) =
              bind_inv _
                (best_pin body receipt capabilities t (lower body.origin_registry) (sorted pins)
                  none)
                (rw same at e) in
            let it : or_none_valid body.ctx_id (is_given capabilities) best ≡ n = cc (given) in
            let backed =
              or_none_valid-IsBacked body receipt capabilities t (lower body.origin_registry) pins
                best found in
            (
              (bytes_eq_iff _ _).0 same,
              endorsed (
                  subst (IsBacked body receipt capabilities t (lower body.origin_registry) pins) it
                    backed),
            )
      ]
  where
    endorsed :
        IsBacked body receipt capabilities t (lower body.origin_registry) pins n
        → Endorsed body receipt capabilities t (lower body.origin_registry) pins n
    endorsed (inl other) = absurd (other trust)
    endorsed (inr by_entry) = by_entry
