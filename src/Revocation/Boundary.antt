-- ===== src/Revocation/Boundary.antt =====
-- The boundary of one statement, and the earliest of several.
use acdp_verifier_py.Prelude.{
  ℕ, ◌<◌, ◌≤◌, ◌≡◌, ◌↔◌, refl, sym, ap, ◌∙◌, inl, inr, List, [], ◌∷◌, Bool, true, if◌then◌else◌,
  Option, none, some, Text, text, ltb, ltb→lt, lt→ltb, All, All-weaken, arith, Bool-cases,
}
use acdp_verifier_py.Errors.{
  Result, ok, raise, out_of_fuel, bind_inv, require_inv, schema_violation,
}
use acdp_verifier_py.Json.{Json, null, bool, int, float, str, arr, obj, Fields, get, get_or_null}
use acdp_verifier_py.Times.Parse.{Clock, is_canonical_ms, parse_rfc3339, parses}
use acdp_verifier_py.Revocation.Statement.{
  RevocationStatement, historically_authorized_pre_compromise, fail_closed_in_window, Authorization,
  current, historical, is_content_hash, is_revocation_type, is_literal, checked_str, metadata_of,
  check_reason, controller_of, validate_revocation_shape, against_boundary,
  classify_against_boundary, earliest, effective_boundary,
}

module _ ⦃clock : Clock⦄ where
  -- Published before the boundary.
  abbrev pub IsBefore : Text → RevocationStatement → Type 0
  IsBefore created s =
      (p : ℕ) × (b : ℕ) × (parse_rfc3339 created ≡ ok p)
      × (parse_rfc3339 s.compromised_since ≡ ok b)
      × p < b

  against_boundary-IsBefore :
      (s : RevocationStatement) (created : Text)
      → (against_boundary s created ≡ ok historically_authorized_pre_compromise)
        ↔ IsBefore created s
  unfolding against_boundary
  against_boundary-IsBefore s created = (there, back)
    where
      there :
          against_boundary s created ≡ ok historically_authorized_pre_compromise
          → IsBefore created s
      there e =
          let (p, e₁, published) = bind_inv _ (parse_rfc3339 created) e in
          let (b, e₂, boundary) = bind_inv _ (parse_rfc3339 s.compromised_since) e₁ in
          (
            p,
            b,
            published,
            boundary,
            elim (Bool-cases (ltb p b)) [ inl lt ↦ ltb→lt p b lt | inr ge ↦ cc (rw ge at e₂) ],
          )

      back :
          IsBefore created s
          → against_boundary s created ≡ ok historically_authorized_pre_compromise
      back (p, b, published, boundary, lt) = rw (published, boundary, lt→ltb p b lt)

  -- A context signed by a revoked key is authorised exactly when a receipt whose key is current
  -- attests that it was published before the boundary.
  pub classify_against_boundary_iff :
      (s : RevocationStatement) (attested : Option Text) (status : Authorization)
      → (classify_against_boundary s attested status ≡ ok historically_authorized_pre_compromise)
        ↔ ((status ≡ current) × (created : Text) × (attested ≡ some created) × IsBefore created s)
  unfolding classify_against_boundary
  classify_against_boundary_iff s none status = ((λ e. cc (e)), (λ h. cc (h.2)))
  classify_against_boundary_iff s (some created) historical = ((λ e. cc (e)), (λ h. cc (h.0)))
  classify_against_boundary_iff s (some created) current = (
    (λ e. (refl, created, refl, (against_boundary-IsBefore s created).0 e)),
    (λ h.
        let (_, c, same, before) = h in
        let eq : c ≡ created = cc (same) in
        (against_boundary-IsBefore s created).1 (rw eq at before)),
  )

  -- What `earliest` hands back.
  earliest_inv :
      (best : RevocationStatement) (least : ℕ) (ss : List RevocationStatement)
      (r : RevocationStatement)
      → parse_rfc3339 best.compromised_since ≡ ok least
      → earliest best least ss ≡ ok r
      → (n : ℕ) × (parse_rfc3339 r.compromised_since ≡ ok n)
        × n ≤ least
        × All (λ s. (m : ℕ) × (parse_rfc3339 s.compromised_since ≡ ok m) × n ≤ m) ss
        × ((P : RevocationStatement → Type 0) → P best → All P ss → P r)
  unfolding earliest
  earliest_inv best least [] r h e =
      let same : best ≡ r = cc (e) in rw (sym same) (least, h, (omega arith), tt, λ P p _. p)
  earliest_inv best least (s ∷ ss) r h e =
      let (since, e₁, parsed) = bind_inv _ (parse_rfc3339 s.compromised_since) e in
      elim (Bool-cases (ltb since least)) [
        | inl lt ↦
            let (n, parsed_r, le, all, member) = earliest_inv s since ss r parsed (rw lt at e₁) in
            (
              n,
              parsed_r,
              (omega (arith, ltb→lt since least lt)),
              ((since, parsed, le), all),
              λ P p ps. member P ps.0 ps.1,
            )
        | inr ge ↦
            let (n, parsed_r, le, all, member) = earliest_inv best least ss r h (rw ge at e₁) in
            (
              n,
              parsed_r,
              le,
              ((since, parsed, ground (arith, ge, le)), all),
              λ P p ps. member P p ps.1,
            )
      ]

  IsBefore-All :
      (created : Text) (p n : ℕ) (ss : List RevocationStatement)
      → parse_rfc3339 created ≡ ok p
      → p < n
      → All (λ s. (m : ℕ) × (parse_rfc3339 s.compromised_since ≡ ok m) × n ≤ m) ss
      → All (IsBefore created) ss
  IsBefore-All created p n [] published lt h = tt
  IsBefore-All created p n (s ∷ ss) published lt ((m, parsed, le), h) =
      ((p, m, published, parsed, omega arith), IsBefore-All created p n ss published lt h)

  -- A context is before the effective boundary of several statements exactly when it is before the
  -- boundary of each.
  pub effective_boundary_iff :
      (ss : List RevocationStatement) (since : Text) (s : RevocationStatement) (created : Text)
      → effective_boundary ss ≡ ok since
      → s.compromised_since ≡ since
      → (against_boundary s created ≡ ok historically_authorized_pre_compromise)
        ↔ All (λ t. against_boundary t created ≡ ok historically_authorized_pre_compromise) ss
  unfolding effective_boundary
  effective_boundary_iff [] since s created e same = cc (e)
  effective_boundary_iff (t ∷ ts) since s created e same =
      let (first, e₁, parsed) = bind_inv _ (parse_rfc3339 t.compromised_since) e in
      let (best, e₂, found) = bind_inv _ (earliest t first ts) e₁ in
      let (n, parsed_best, le, all, member) = earliest_inv t first ts best parsed found in
      let shared : best.compromised_since ≡ s.compromised_since = cc (e₂, same) in
      let parsed_s : parse_rfc3339 s.compromised_since ≡ ok n = rw shared at parsed_best in
      (
        (λ h.
            let (p, b, published, boundary, lt) = (against_boundary-IsBefore s created).0 h in
            let bound : b ≡ n = cc (boundary, parsed_s) in
            let all_before =
              IsBefore-All created p n (t ∷ ts) published (omega (arith, bound, lt))
                ((first, parsed, le), all) in
            All-weaken (IsBefore created)
              (λ u. against_boundary u created ≡ ok historically_authorized_pre_compromise)
              (λ u. (against_boundary-IsBefore u created).1) (t ∷ ts) all_before),
        (λ h.
            let reached =
              member (λ u. against_boundary u created ≡ ok historically_authorized_pre_compromise)
                h.0 h.1 in
            let (p, b, published, boundary, lt) =
              (against_boundary-IsBefore best created).0 reached in
            (against_boundary-IsBefore s created).1 (p, b, published, rw shared at boundary, lt)),
      )

  parses_inv : (r : Result ℕ) → parses r ≡ true → (n : ℕ) × (r ≡ ok n)
  unfolding parses
  parses_inv (ok n) h = (n, refl)
  parses_inv (raise e) h = cc (h)
  parses_inv out_of_fuel h = cc (h)

  is_canonical_ms-parses :
      (value : Text) → is_canonical_ms value ≡ true → (n : ℕ) × (parse_rfc3339 value ≡ ok n)
  unfolding is_canonical_ms
  is_canonical_ms-parses value h = parses_inv (parse_rfc3339 value) (ground (arith, h))

  checked_str_inv :
      (test : Text → Bool) (v : Json) {t : Text}
      → checked_str test v ≡ ok t
      → (v ≡ str t) × (test t ≡ true)
  unfolding checked_str
  checked_str_inv test (str s) {t = t} e =
      let (passed, made) = require_inv (test s) schema_violation (ok s) e in
      let same : s ≡ t = cc (made) in (ap str same, rw same at passed)
  checked_str_inv test null e = cc (e)
  checked_str_inv test (bool b) e = cc (e)
  checked_str_inv test (int n) e = cc (e)
  checked_str_inv test (float x) e = cc (e)
  checked_str_inv test (arr xs) e = cc (e)
  checked_str_inv test (obj ms) e = cc (e)

  validate_revocation_shape_inv :
      (body : Fields) (s : RevocationStatement)
      → validate_revocation_shape body ≡ ok s
      → ((n : ℕ) × (parse_rfc3339 s.compromised_since ≡ ok n))
        × (is_revocation_type (get_or_null (text "type") body) ≡ ok true)
        × (is_literal (text "public") (get_or_null (text "visibility") body) ≡ true)
  unfolding validate_revocation_shape
  validate_revocation_shape_inv body s e =
      let (known, e₁, typed) = bind_inv _ (is_revocation_type (get_or_null (text "type") body)) e in
      let (standard, e₂) = require_inv known schema_violation _ e₁ in
      let (public, e₃) = require_inv _ schema_violation _ e₂ in
      let (metadata, e₄, _) = bind_inv _ (metadata_of (get_or_null (text "metadata") body)) e₃ in
      let (fingerprint, e₅, hashed) =
        bind_inv _
          (checked_str is_content_hash (get_or_null (text "revoked_key_fingerprint") metadata))
          e₄ in
      let (since, e₆, dated) =
        bind_inv _ (checked_str is_canonical_ms (get_or_null (text "compromised_since") metadata))
          e₅ in
      let (_, e₇, _) = bind_inv _ (check_reason (get (text "reason") metadata)) e₆ in
      let (agent, e₈, _) =
        bind_inv _ (checked_str (λ _. true) (get_or_null (text "agent_id") body)) e₇ in
      let (controller, made, _) =
        bind_inv _ (controller_of (get_or_null (text "revoked_key_controller") metadata) agent)
          e₈ in
      let (n, parsed) =
        is_canonical_ms-parses since
          (checked_str_inv is_canonical_ms (get_or_null (text "compromised_since") metadata)
            dated).1 in
      let statement : record {
        revoked_key_fingerprint = fingerprint;
        compromised_since = since;
        controller = controller;
      }
          ≡ s =
        cc (made) in
      let same_since : since ≡ s.compromised_since = cc (statement) in
      ((n, rw same_since at parsed), typed ∙ ap ok standard, public)

  -- A statement that `validate_revocation_shape` makes can always be applied: its boundary is a
  -- moment, and for a receipt-attested publish time that parses and a current key
  -- `classify_against_boundary` raises nothing and authorises exactly what was published before it.
  pub validate_revocation_shape-classify_against_boundary :
      (body : Fields) (s : RevocationStatement) (created : Text) (published : ℕ)
      → validate_revocation_shape body ≡ ok s
      → parse_rfc3339 created ≡ ok published
      → (boundary : ℕ) × (parse_rfc3339 s.compromised_since ≡ ok boundary)
        × (classify_against_boundary s (some created) current
            ≡ ok (
                if ltb published boundary
                then historically_authorized_pre_compromise
                else fail_closed_in_window))
  unfolding classify_against_boundary against_boundary
  validate_revocation_shape-classify_against_boundary body s created published e dated =
      let ((boundary, parsed), _, _) = validate_revocation_shape_inv body s e in
      (boundary, parsed, rw dated (rw parsed refl))
