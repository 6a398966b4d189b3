-- ===== src/Trustlist/Best.antt =====
-- trustlist.py: the rank of the verdict against those of the entries.
use acdp_verifier_py.Prelude.{
  ℕ, zero, suc, ◌≤◌, ◌≡◌, refl, ap, ◌∙◌, inl, inr, List, [], ◌∷◌, Bool, true, not, ◌||◌, Option,
  none, some, Text, text, bytes_eq_iff, ltb, get_elem?, arith, Bool-cases,
}
use mathlib.Core.List.{Memᴰ}
use acdp_verifier_py.Errors.{ok, bind_inv}
use acdp_verifier_py.Trustlist.Series.{IssuerPin, ListVersion, PinState, Status, Outcome, outcome}
use acdp_verifier_py.Trustlist.Entry.{Entry, Body, ReceiptInput, Finding, entry_outcome, is_given}
use acdp_verifier_py.Trustlist.Evaluate.{
  NodeOutcome, rank, plain, remove_scheme, before_slash, sorted, improve, best_entry,
  entries_candidate, pin_candidate, better, best_pin, or_none_valid, evaluate_body,
}
use acdp_verifier_py.Trustlist.Sorting.{sorted-kept}
use acdp_verifier_py.Trustlist.Verdict.{pin_candidate-used}

better-rank :
    (c : NodeOutcome) (best : Option NodeOutcome) → rank (better c best).outcome ≤ rank c.outcome
better-rank c none = unfold better in (omega arith)
better-rank c (some b) = elim (Bool-cases (ltb (rank c.outcome) (rank b.outcome))) [
  | inl less ↦ unfold better in (rw less (omega arith))
  | inr more ↦ unfold better in (rw more (ground (arith, more)))
]

better-kept : (c b : NodeOutcome) → rank (better c (some b)).outcome ≤ rank b.outcome
better-kept c b = elim (Bool-cases (ltb (rank c.outcome) (rank b.outcome))) [
  | inl less ↦ unfold better in (rw less (ground (arith, less)))
  | inr more ↦ unfold better in (rw more (omega arith))
]

module _ (body : Body) (receipt : Option ReceiptInput) (capabilities : Option (List Text))
    (t origin : Text) where
  -- A finding leaves a candidate that names an entry and is no worse than the finding.
  improve-rank :
      (pin : IssuerPin) (index : ℕ) (got : Outcome) (reason : Option Text) (c : NodeOutcome)
      → (rank (improve body receipt capabilities t origin pin index (some (got, reason)) c).outcome
          ≤ rank got)
        × (is_given
              (improve body receipt capabilities t origin pin index
                (some (got, reason))
                c).entry_index
            ≡ true)
  improve-rank pin index got reason c =
      elim (Bool-cases (not (is_given c.entry_index) || ltb (rank got) (rank c.outcome))) [
        | inl better ↦ unfold improve is_given in (rw better (omega arith, refl))
        | inr worse ↦ unfold improve in (rw worse (ground (arith, worse), ground (arith, worse)))
      ]

  improve-kept :
      (pin : IssuerPin) (index : ℕ) (f : Option Finding) (c : NodeOutcome)
      → is_given c.entry_index ≡ true
      → (rank (improve body receipt capabilities t origin pin index f c).outcome ≤ rank c.outcome)
        × (is_given (improve body receipt capabilities t origin pin index f c).entry_index ≡ true)
  improve-kept pin index none c given = unfold improve in (omega arith, given)
  improve-kept pin index (some (got, reason)) c given =
      elim (Bool-cases (not (is_given c.entry_index) || ltb (rank got) (rank c.outcome))) [
        | inl better ↦ unfold improve is_given in (rw better (ground (arith, better, given), refl))
        | inr worse ↦ unfold improve in (rw worse (omega arith, given))
      ]

  best_entry-cons :
      (pin : IssuerPin) (index : ℕ) (entry : Entry) (entries : List Entry) (c : NodeOutcome)
      (f : Option Finding)
      → entry_outcome entry body origin receipt capabilities t ≡ f
      → best_entry body receipt capabilities t origin pin index (entry ∷ entries) c
        ≡ best_entry body receipt capabilities t origin pin
            (suc index)
            entries
            (improve body receipt capabilities t origin pin index f c)
  unfolding best_entry
  best_entry-cons pin index entry entries c f e =
      ap
        (λ g.
          best_entry body receipt capabilities t origin pin (suc index) entries
            (improve body receipt capabilities t origin pin index g c))
        e

  best_entry-kept :
      (pin : IssuerPin) (index : ℕ) (entries : List Entry) (c : NodeOutcome)
      → is_given c.entry_index ≡ true
      → rank (best_entry body receipt capabilities t origin pin index entries c).outcome
        ≤ rank c.outcome
  best_entry-kept pin index [] c given = unfold best_entry in (omega arith)
  best_entry-kept pin index (entry ∷ entries) c given =
      let f = entry_outcome entry body origin receipt capabilities t in
      let (less, named) = improve-kept pin index f c given in
      let next =
        best_entry-kept pin (suc index) entries
          (improve body receipt capabilities t origin pin index f c) named in
      rw (best_entry-cons pin index entry entries c f refl) (omega (arith, less, next))

  best_entry-rank :
      (pin : IssuerPin) (index j : ℕ) (entries : List Entry) (entry : Entry) (got : Outcome)
      (reason : Option Text) (c : NodeOutcome)
      → get_elem? entries j ≡ some entry
      → entry_outcome entry body origin receipt capabilities t ≡ some (got, reason)
      → rank (best_entry body receipt capabilities t origin pin index entries c).outcome ≤ rank got
  best_entry-rank pin index j [] entry got reason c at finds = cc
  best_entry-rank pin index zero (e ∷ entries) entry got reason c at finds =
      let same : e ≡ entry = cc (at) in
      let (less, named) = improve-rank pin index got reason c in
      let next =
        best_entry-kept pin (suc index) entries
          (improve body receipt capabilities t origin pin index (some (got, reason)) c) named in
      rw (same, best_entry-cons pin index entry entries c (some (got, reason)) finds)
        (omega (arith, less, next))
  best_entry-rank pin index (suc j) (e ∷ entries) entry got reason c at finds =
      rw
        (best_entry-cons pin index e entries c (entry_outcome e body origin receipt capabilities t)
          refl)
        (best_entry-rank pin (suc index) j entries entry got reason _ at finds)

  best_pin-kept :
      (states : List (PinState Entry)) (b : NodeOutcome) (r : Option NodeOutcome)
      → best_pin body receipt capabilities t origin states (some b) ≡ ok r
      → (n : NodeOutcome) × (r ≡ some n) × (rank n.outcome ≤ rank b.outcome)
  unfolding best_pin
  best_pin-kept [] b r e = (b, cc (e), omega arith)
  best_pin-kept (state ∷ states) b r e =
      let (c, rest, read) = bind_inv _ (pin_candidate body receipt capabilities t origin state) e in
      let (n, same, less) = best_pin-kept states (better c (some b)) r rest in
      (n, same, omega (arith, less, better-kept c b))

  best_pin-rank :
      (states : List (PinState Entry)) (state : PinState Entry) (best r : Option NodeOutcome)
      (c : NodeOutcome)
      → Memᴰ state states
      → pin_candidate body receipt capabilities t origin state ≡ ok c
      → best_pin body receipt capabilities t origin states best ≡ ok r
      → (n : NodeOutcome) × (r ≡ some n) × (rank n.outcome ≤ rank c.outcome)
  unfolding best_pin
  best_pin-rank [] state best r c m read e = elim m [ ]
  best_pin-rank (s ∷ states) state best r c (Memᴰ.head same) read e =
      let (d, rest, read') = bind_inv _ (pin_candidate body receipt capabilities t origin s) e in
      let (n, known, less) = best_pin-kept states (better d best) r rest in
      let it : d ≡ c = cc (read, read', same) in
      let bound : rank d.outcome ≡ rank c.outcome = ap (λ (x : NodeOutcome). rank x.outcome) it in
      (n, known, omega (arith, less, better-rank d best, bound))
  best_pin-rank (s ∷ states) state best r c (Memᴰ.tail m) read e =
      let (d, rest, read') = bind_inv _ (pin_candidate body receipt capabilities t origin s) e in
      best_pin-rank states state (some (better d best)) r c m read rest

  pin_candidate-rank :
      (state : PinState Entry) (version : ListVersion Entry) (j : ℕ) (entry : Entry) (got : Outcome)
      (reason : Option Text)
      → state.status ≡ Status.used
      → state.version ≡ some version
      → get_elem? version.entries j ≡ some entry
      → entry_outcome entry body origin receipt capabilities t ≡ some (got, reason)
      → (c : NodeOutcome) × (pin_candidate body receipt capabilities t origin state ≡ ok c)
        × (rank c.outcome ≤ rank got)
  pin_candidate-rank state version j entry got reason used holds at finds = (
    best_entry body receipt capabilities t origin state.pin 0 version.entries (
        plain body.ctx_id (is_given capabilities) Outcome.untrusted_registry
          (some (text "no_entry"))),
    pin_candidate-used body receipt capabilities t origin state (rw used (unfold outcome in refl))
        ∙ rw holds (unfold entries_candidate in refl),
    best_entry-rank state.pin 0 j version.entries entry got reason _ at finds,
  )

-- Where the authority of a body is its origin, in lower case, the verdict of `evaluate_body` is no
-- worse than what any entry finds that stands in the version of a used pin.
pub evaluate_body_best :
    (lower : Text → Text) (body : Body) (pins : List (PinState Entry)) (t : Text)
    (receipt : Option ReceiptInput) (capabilities : Option (List Text)) (n : NodeOutcome)
    (state : PinState Entry) (version : ListVersion Entry) (j : ℕ) (entry : Entry) (got : Outcome)
    (reason : Option Text)
    → evaluate_body lower body pins t receipt capabilities ≡ ok n
    → lower (before_slash (remove_scheme body.ctx_id)) ≡ lower body.origin_registry
    → Memᴰ state pins
    → state.status ≡ Status.used
    → state.version ≡ some version
    → get_elem? version.entries j ≡ some entry
    → entry_outcome entry body (lower body.origin_registry) receipt capabilities t
      ≡ some (got, reason)
    → rank n.outcome ≤ rank got
unfolding evaluate_body
evaluate_body_best lower body pins t receipt capabilities n state version j entry got reason e same
      m used holds at finds =
    let origin = lower body.origin_registry in
    let test = (bytes_eq_iff (lower (before_slash (remove_scheme body.ctx_id))) origin).1 same in
    let (best, given, found) =
      bind_inv _ (best_pin body receipt capabilities t origin (sorted pins) none) (rw test at e) in
    let (c, read, less) =
      pin_candidate-rank body receipt capabilities t origin state version j entry got reason used
        holds at finds in
    let (b, known, less') =
      best_pin-rank body receipt capabilities t origin (sorted pins) state none best c
        (sorted-kept pins m) read found in
    let it : or_none_valid body.ctx_id (is_given capabilities) (some b) ≡ n = cc (given, known) in
    let chosen : b ≡ n = or_none_valid-some body.ctx_id (is_given capabilities) b ∙ it in
    let bound : rank b.outcome ≡ rank n.outcome = ap (λ (x : NodeOutcome). rank x.outcome) chosen in
    omega (arith, less, less', bound)
  where
    or_none_valid-some :
        (ctx_id : Text) (checked : Bool) (b : NodeOutcome)
        → b ≡ or_none_valid ctx_id checked (some b)
    or_none_valid-some ctx_id checked b = unfold or_none_valid in refl
