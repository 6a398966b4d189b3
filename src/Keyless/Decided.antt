-- ===== src/Keyless/Decided.antt =====
-- What a body has to pass before `decide` authorises it.
use acdp_verifier_py.Prelude.{
  ◌≡◌, ◌≢◌, ◌↔◌, inl, inr, refl, sym, List, [], ◌∷◌, Bool, true, false, not, ◌&&◌, Option, none,
  some, Text, text_leb, text_ltb, if◌then◌else◌, All, Bool-cases, text_lt_le, text_leb_total,
}
use acdp_verifier_py.Keyless.Decision.{
  refused, Reason, ReceiptFacts, Facts, Verdict, minimum, placing, decide_listed, decide_revoked,
  decide_placed, decide, attestation_invalid, untrusted_attester, attestation_mismatch,
  outside_attestation_window, invalid_signature,
}

-- The time `c` is before each of the others.
abbrev pub Before : Text → List Text → Type 0
Before c = All (λ t. text_ltb c t ≡ true)

not_inv : (b : Bool) → not b ≡ true → b ≡ false
not_inv true h = cc (h)
not_inv false h = refl

and_inv : (a b : Bool) → (a && b) ≡ true → (a ≡ true) × (b ≡ true)
and_inv true b h = (refl, h)
and_inv false b h = cc (h)

pub before_one : (c t : Text) → text_ltb c t ≡ true → text_leb t c ≡ false
unfolding text_ltb
before_one c t h = not_inv (text_leb t c) h

one_before : (c t : Text) → text_leb t c ≡ false → text_ltb c t ≡ true
unfolding text_ltb
one_before c t h = rw h

-- The smaller of two.
pub minimum_step :
    (c x y : Text)
    → text_leb (if text_ltb y x then y else x) c ≡ false
    → (text_leb x c ≡ false) × (text_leb y c ≡ false)
unfolding text_ltb
minimum_step c x y h = elim (Bool-cases (text_leb x y)) [
  | inl le ↦ let above : text_leb x c ≡ false = rw le at h in (above, text_lt_le c x y above le)
  | inr gt ↦
      let above : text_leb y c ≡ false = rw gt at h in
      (text_lt_le c y x above (text_leb_total x y gt), above)
]

step_minimum :
    (c x y : Text)
    → text_leb x c ≡ false
    → text_leb y c ≡ false
    → text_leb (if text_ltb y x then y else x) c ≡ false
step_minimum c x y hx hy = elim (Bool-cases (text_ltb y x)) [
  | inl lt ↦ rw lt hy
  | inr ge ↦ rw ge hx
]

pub minimum-Before :
    (c t : Text) (ts : List Text) → text_leb (minimum t ts) c ≡ false → Before c (t ∷ ts)
unfolding minimum
minimum-Before c t [] h = (one_before c t h, tt)
minimum-Before c t (u ∷ us) h =
    let all = minimum-Before c (if text_ltb u t then u else t) us h in
    let (first, second) = minimum_step c t u (before_one c _ all.0) in
    (one_before c t first, (one_before c u second, all.1))

pub Before-minimum :
    (c t : Text) (ts : List Text) → Before c (t ∷ ts) → text_leb (minimum t ts) c ≡ false
unfolding minimum
Before-minimum c t [] h = before_one c t h.0
Before-minimum c t (u ∷ us) h =
    Before-minimum c (if text_ltb u t then u else t) us
      (one_before c _ (step_minimum c t u (before_one c t h.0) (before_one c u h.1.0)), h.1.1)

-- A check that was passed, in a verdict with no reason to refuse.
pub check_inv :
    (b : Bool) (r : Reason) (v : Verdict)
    → (if not b then (let w : Verdict = (refused, some r) in w) else v).1 ≡ none
    → (b ≡ true) × (v.1 ≡ none)
check_inv true r v h = (refl, h)
check_inv false r v h = cc (h)

-- The steps 7 to 9 at a time of publication.
abbrev pub Unrevoked : Facts → Text → Type 0
Unrevoked f c =
    Before c f.compromised_since × (f.compromised_since ≡ [] → f.identity_listed_now ≢ none)

-- All that the decision asks for.
pub record Authorised (f : Facts) : Type 0 where
  pub valid : f.attestation_valid ≡ true
  pub accepted : f.attester_accepted ≡ true
  pub bound : f.bindings_ok ≡ true
  pub receipt : ReceiptFacts
  pub carried : f.receipt ≡ some receipt
  pub verified : receipt.verified ≡ true
  pub by_attester : receipt.registry_is_attester ≡ true
  pub same_key : receipt.fingerprint_matches ≡ true
  pub begun : text_leb f.not_before receipt.created_at ≡ true
  pub open_still : text_ltb receipt.created_at f.not_after ≡ true
  pub signed : f.signature_valid ≡ true
  pub standing : f.retracted ≡ false
  pub unrevoked : Before receipt.created_at f.compromised_since
  pub known : f.compromised_since ≡ [] → f.identity_listed_now ≢ none

placing_inv :
    (o : Option ReceiptFacts) (r : ReceiptFacts)
    → placing o ≡ some r
    → (o ≡ some r)
      × (r.verified ≡ true)
      × (r.registry_is_attester ≡ true)
      × (r.fingerprint_matches ≡ true)
unfolding placing
placing_inv none r h = cc (h)
placing_inv (some o) r h =
    elim (Bool-cases (o.verified && (o.registry_is_attester && o.fingerprint_matches))) [
      | inl places ↦
          let same : o ≡ r = cc (rw places at h) in
          let (verified, rest) = and_inv o.verified _ places in
          let (by_attester, same_key) = and_inv o.registry_is_attester _ rest in
          rw (sym same) (refl, verified, by_attester, same_key)
      | inr not ↦ cc (rw not at h)
    ]

decide_revoked_inv :
    (c : Text) (ts : List Text) (listed : Option Bool)
    → (decide_revoked c ts listed).1 ≡ none
    → Before c ts × (ts ≡ [] → listed ≢ none)
unfolding decide_revoked decide_listed
decide_revoked_inv c [] none h = cc (h)
decide_revoked_inv c [] (some b) h = (tt, λ _ e. cc (e))
decide_revoked_inv c (t ∷ ts) listed h = elim (Bool-cases (text_leb (minimum t ts) c)) [
  | inl late ↦ cc (rw late at h)
  | inr before ↦ (minimum-Before c t ts before, λ e. cc (e))
]

-- What `decide_placed` asks for.
placed_verdict_inv :
    (f : Facts) (o : Option ReceiptFacts)
    → (decide_placed f o).1 ≡ none
    → (r : ReceiptFacts) × (o ≡ some r)
      × (text_leb f.not_before r.created_at ≡ true)
      × (text_ltb r.created_at f.not_after ≡ true)
      × (f.signature_valid ≡ true)
      × (f.retracted ≡ false)
      × Unrevoked f r.created_at
unfolding decide_placed
placed_verdict_inv f none h = cc (h)
placed_verdict_inv f (some r) h =
    let (window, h₁) = check_inv _ outside_attestation_window _ h in
    let (begun, open_still) = and_inv (text_leb f.not_before r.created_at) _ window in
    let (signed, h₂) = check_inv f.signature_valid invalid_signature _ h₁ in
    elim (Bool-cases f.retracted) [
      | inl withdrawn ↦ cc (rw withdrawn at h₂)
      | inr standing ↦
          let h₃ = rw standing at h₂ in
          (
            r,
            refl,
            begun,
            open_still,
            signed,
            standing,
            decide_revoked_inv r.created_at f.compromised_since f.identity_listed_now h₃,
          )
    ]

decide-Authorised : (f : Facts) → (decide f).1 ≡ none → Authorised f
unfolding decide
decide-Authorised f h =
    let (valid, h₁) = check_inv f.attestation_valid attestation_invalid _ h in
    let (accepted, h₂) = check_inv f.attester_accepted untrusted_attester _ h₁ in
    let (bound, h₃) = check_inv f.bindings_ok attestation_mismatch _ h₂ in
    let (r, placed, begun, open_still, signed, standing, rest) =
      placed_verdict_inv f (placing f.receipt) h₃ in
    let (carried, verified, by_attester, same_key) = placing_inv f.receipt r placed in
    record {
      valid = valid;
      accepted = accepted;
      bound = bound;
      receipt = r;
      carried = carried;
      verified = verified;
      by_attester = by_attester;
      same_key = same_key;
      begun = begun;
      open_still = open_still;
      signed = signed;
      standing = standing;
      unrevoked = rest.0;
      known = rest.1;
    }

decide_revoked-passes :
    (c : Text) (ts : List Text) (listed : Option Bool)
    → Before c ts
    → (ts ≡ [] → listed ≢ none)
    → (decide_revoked c ts listed).1 ≡ none
unfolding decide_revoked decide_listed
decide_revoked-passes c [] none h known = absurd (known refl refl)
decide_revoked-passes c [] (some true) h known = refl
decide_revoked-passes c [] (some false) h known = refl
decide_revoked-passes c (t ∷ ts) listed h known = rw (Before-minimum c t ts h)

Authorised-decide : (f : Facts) → Authorised f → (decide f).1 ≡ none
unfolding decide decide_placed placing
Authorised-decide f a =
    rw
      (
        a.valid, a.accepted, a.bound, a.carried, a.verified, a.by_attester, a.same_key, a.begun,
        a.open_still, a.signed, a.standing,
      )
      (decide_revoked-passes a.receipt.created_at f.compromised_since f.identity_listed_now
        a.unrevoked a.known)

-- `decide` gives no reason to refuse exactly when every step passes: the attestation is valid, its
-- attester accepted and its bindings hold, a verified receipt of the attester places the body under
-- the attested key inside the window, before each revocation, the signature is valid, the
-- attestation is not withdrawn, and where no revocation applies, the controller's listing is known.
pub decide_iff : (f : Facts) → ((decide f).1 ≡ none) ↔ Authorised f
decide_iff f = (decide-Authorised f, Authorised-decide f)
