-- ===== src/Keyless/Lineage.antt =====
-- Who can come after whom in a line of supersessions.
use acdp_verifier_py.Prelude.{
  ◌≡◌, ◌⊎◌, inl, inr, refl, sym, ap, ◌∙◌, Bool, true, false, ◌&&◌, Option, none, some, Text,
  text_eq, text_eq_iff, Bool-cases,
}
use acdp_verifier_py.Keyless.Signers.{
  WorkloadIdentity, issuer_eq, identity_eq, optional_identity_eq, Signer, supersession,
}

issuer_eq_sound : (a b : Option Text) → issuer_eq a b ≡ true → a ≡ b
unfolding issuer_eq
issuer_eq_sound none none h = refl
issuer_eq_sound none (some t) h = cc (h)
issuer_eq_sound (some s) none h = cc (h)
issuer_eq_sound (some s) (some t) h = ap some ((text_eq_iff s t).0 h)

and_inv : (a b : Bool) → (a && b) ≡ true → (a ≡ true) × (b ≡ true)
and_inv true b h = (refl, h)
and_inv false b h = cc (h)

identity_eq_sound : (a b : WorkloadIdentity) → identity_eq a b ≡ true → a ≡ b
unfolding identity_eq
identity_eq_sound a b h =
    let (types, rest) = and_inv (text_eq a.type b.type) _ h in
    let (subjects, issuers) = and_inv (text_eq a.subject b.subject) _ rest in
    let one = (text_eq_iff a.type b.type).0 types in
    let two = (text_eq_iff a.subject b.subject).0 subjects in
    let three = issuer_eq_sound a.issuer b.issuer issuers in cc (one, two, three)

optional_identity_eq_sound :
    (a b : Option WorkloadIdentity) → optional_identity_eq a b ≡ true → a ≡ b
unfolding optional_identity_eq
optional_identity_eq_sound none none h = refl
optional_identity_eq_sound none (some b) h = cc (h)
optional_identity_eq_sound (some a) none h = cc (h)
optional_identity_eq_sound (some a) (some b) h = ap some (identity_eq_sound a b h)

-- A keyless signer that does not speak for the organisation.
abbrev pub IsWorkload : Signer → Type 0
IsWorkload s = (s.keyless ≡ true) × (s.org_wide ≡ false)

-- A line of contexts, each superseding the one before, whose later signers are workloads.
pub data Line (first : Signer) : Signer → Type 0 where
  start : Line first first
  next :
      {s : Signer}
      → Line first s
      → (t : Signer) → IsWorkload t
      → supersession s t ≡ true
      → Line first t

step-identity :
    (s t : Signer)
    → IsWorkload t
    → supersession s t ≡ true
    → (s.keyless ≡ true) × (t.identity ≡ s.identity)
unfolding supersession
step-identity s t (keyless, alone) h =
    elim (Bool-cases (s.keyless && optional_identity_eq s.identity t.identity)) [
      | inl same ↦
          let (first, second) = and_inv s.keyless _ same in
          (first, sym (optional_identity_eq_sound s.identity t.identity second))
      | inr other ↦ cc (rw other at (rw alone at (rw (keyless, supersession) at h)))
    ]

-- A workload cannot take over from another: whoever signs later in the line has the identity that
-- signed first, and where it is a later one, the first signer was keyless too.
pub Line-identity :
    (first s : Signer)
    → Line first s
    → (s ≡ first) ⊎ ((first.keyless ≡ true) × (s.identity ≡ first.identity))
Line-identity first s start = inl refl
Line-identity first s (next {s = before} line t workload allowed) =
    let (keyless, same) = step-identity before t workload allowed in
    elim (Line-identity first before line) [
      | inl e ↦ inr (rw e at keyless, same ∙ ap (λ (x : Signer). x.identity) e)
      | inr (origin, earlier) ↦ inr (origin, same ∙ earlier)
    ]
