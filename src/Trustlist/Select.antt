-- ===== src/Trustlist/Select.antt =====
-- trustlist.py: `advance_floor` and `select_version`.
use acdp_verifier_py.Prelude.{
  ℕ, List, [], ◌∷◌, Bool, false, not, ◌&&◌, ◌||◌, Option, none, some, Text, text, ◌==◌, ltb,
  if◌then◌else◌, length, map,
}
use acdp_verifier_py.Prelude.{text_leb, text_ltb}
use acdp_verifier_py.Trustlist.Series.{
  IssuerPin, ListVersion, PinState, Status, keep_if, set_of, floor_or_zero, max, max_serial, latest,
}

-- `floor is not None and top < floor`
unfoldable pub is_below_floor : ℕ → Option ℕ → Bool
is_below_floor top none = false
is_below_floor top (some floor) = ltb top floor

module _ {Entry : Type 0} where
  unfoldable pub advance_floor : Option ℕ → List (ListVersion Entry) → Option ℕ
  unfolding max_serial floor_or_zero max
  advance_floor floor [] = floor
  advance_floor floor (v ∷ vs) = some (max (max_serial (v ∷ vs)) (floor_or_zero floor))

  -- The versions that the pass looks at.
  unfoldable pub held_at : Text → Bool → List (ListVersion Entry) → List (ListVersion Entry)
  unfolding keep_if text_leb
  held_at t as_of = keep_if (λ v. not as_of || text_leb v.issued_at t)

  -- Two hashes at the highest serial.
  unfoldable pub has_conflict : ℕ → List (ListVersion Entry) → Bool
  unfolding keep_if set_of
  has_conflict top held =
      ltb 1 (length (set_of (map (λ v. v.content_hash) (keep_if (λ v. v.serial == top) held))))

  unfoldable pub any_retracted : ℕ → List (ListVersion Entry) → Bool
  any_retracted top [] = false
  any_retracted top (v ∷ held) = (v.serial == top && v.retracted) || any_retracted top held

  unfoldable pub invalid_state : IssuerPin → Text → PinState Entry
  invalid_state pin reason = record {
    pin = pin;
    status = Status.invalid;
    version = none;
    reason = some reason;
  }

  unfoldable pub gone_state : IssuerPin → ℕ → List (ListVersion Entry) → PinState Entry
  unfolding invalid_state any_retracted
  gone_state pin top held =
      invalid_state pin (if any_retracted top held then text "retracted" else text "rollback")

  -- The window of the selected version.
  unfoldable pub windowed : IssuerPin → Text → ListVersion Entry → PinState Entry
  unfolding text_leb text_ltb
  windowed pin t selected =
      if text_leb selected.valid_from t && text_ltb t selected.valid_until
      then record { pin = pin; status = Status.used; version = some selected; reason = none }
      else record {
        pin = pin;
        status = Status.expired;
        version = some selected;
        reason = some (text "list_window");
      }

  -- The rest of `select_version`, on the versions that are not retracted.
  unfoldable pub select_live :
      IssuerPin
      → Text
      → ℕ
      → ℕ
      → List (ListVersion Entry)
      → List (ListVersion Entry)
      → PinState Entry
  unfolding gone_state max_serial windowed latest
  select_live pin t top effective_floor held [] = gone_state pin top held
  select_live pin t top effective_floor held (v ∷ live) =
      if ltb (max_serial (v ∷ live)) effective_floor
      then gone_state pin top held
      else windowed pin t (latest v live)

  unfoldable pub select_held :
      IssuerPin → Text → Bool → Option ℕ → List (ListVersion Entry) → PinState Entry
  unfolding max_serial invalid_state is_below_floor has_conflict max floor_or_zero keep_if
      select_live
  select_held pin t as_of floor [] = invalid_state pin (text "no_valid_version")
  select_held pin t as_of floor (v ∷ vs) =
      let held = v ∷ vs in
      let top = max_serial held in
      if not as_of && is_below_floor top floor
      then invalid_state pin (text "rollback")
      else if has_conflict top held
      then invalid_state pin (text "equivocation")
      else select_live pin t top (if as_of then top else max top (floor_or_zero floor)) held
          (keep_if (λ w. not w.retracted) held)

  unfoldable pub select_version :
      IssuerPin → List (ListVersion Entry) → Text → Bool → Option ℕ → PinState Entry
  unfolding held_at select_held
  select_version pin versions t as_of floor =
      select_held pin t as_of floor (held_at t as_of versions)
