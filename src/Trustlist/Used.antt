-- ===== src/Trustlist/Used.antt =====
-- trustlist.py: the version that `select_version` uses, and the floor.
use acdp_verifier_py.Prelude.{
  ℕ, ◌≤◌, ◌≡◌, refl, ◌∙◌, inl, inr, List, [], ◌∷◌, Bool, true, false, not, ◌&&◌, Option, some, Text,
  ◌==◌, ltb, if◌then◌else◌, map, arith, Bool-cases,
}
use mathlib.Core.List.{Memᴰ}
use acdp_verifier_py.Prelude.{text_leb, text_ltb}
use acdp_verifier_py.Trustlist.Series.{
  IssuerPin, ListVersion, Status, keep_if, set_of, floor_or_zero, max, max_serial, latest,
}
use acdp_verifier_py.Trustlist.Select.{
  advance_floor, held_at, is_below_floor, has_conflict, invalid_state, gone_state, windowed,
  select_live, select_held, select_version,
}
use acdp_verifier_py.Trustlist.Bounds.{
  max_serial-upper, latest-member, latest-max_serial, keep_if-member, keep_if-kept, map-member,
  set_of-member, one_member,
}

-- What makes a version the one to use: among the versions the pass looks at, which it is one of,
-- no serial is above its own and no other content has its serial; it is not retracted, its window
-- holds the time, and a latest pass finds it no lower than the floor.
pub record IsCurrent {Entry : Type 0} (t : Text) (as_of : Bool) (floor : Option ℕ)
    (versions : List (ListVersion Entry)) (v : ListVersion Entry) : Type 0 where
  pub held : Memᴰ v (held_at t as_of versions)
  pub live : v.retracted ≡ false
  pub begun : text_leb v.valid_from t ≡ true
  pub open_still : text_ltb t v.valid_until ≡ true
  pub highest : (w : ListVersion Entry) → Memᴰ w (held_at t as_of versions) → w.serial ≤ v.serial
  pub alone :
      (w : ListVersion Entry)
      → Memᴰ w (held_at t as_of versions)
      → w.serial ≡ v.serial
      → w.content_hash ≡ v.content_hash
  pub floored : as_of ≡ false → floor_or_zero floor ≤ v.serial

at_top :
    (as_of : Bool) (top serial : ℕ) (floor : Option ℕ)
    → (if as_of then top else max top (floor_or_zero floor)) ≤ serial
    → (top ≤ serial) × (as_of ≡ false → floor_or_zero floor ≤ serial)
unfolding max
at_top true top serial floor h = (h, λ e. cc)
at_top false top serial floor h = (ground arith, λ e. ground arith)

module _ {Entry : Type 0} where
  windowed_inv :
      (pin : IssuerPin) (t : Text) (v : ListVersion Entry)
      → (windowed pin t v).status ≡ Status.used
      → ((windowed pin t v).version ≡ some v)
        × (text_leb v.valid_from t ≡ true)
        × (text_ltb t v.valid_until ≡ true)
  unfolding windowed
  windowed_inv pin t v e = elim (Bool-cases (text_leb v.valid_from t)) [
    | inr early ↦ cc (rw early at e)
    | inl begun ↦ elim (Bool-cases (text_ltb t v.valid_until)) [
      | inr late ↦ cc (rw late at (rw begun at e))
      | inl in_time ↦ (rw (begun, in_time) refl, begun, in_time)
    ]
  ]

  select_live_inv :
      (pin : IssuerPin) (t : Text) (top effective_floor : ℕ) (held live : List (ListVersion Entry))
      → (select_live pin t top effective_floor held live).status ≡ Status.used
      → (v : ListVersion Entry) × ((select_live pin t top effective_floor held live).version
          ≡ some v)
        × Memᴰ v live
        × (effective_floor ≤ v.serial)
        × (text_leb v.valid_from t ≡ true)
        × (text_ltb t v.valid_until ≡ true)
  unfolding select_live gone_state invalid_state
  select_live_inv pin t top effective_floor held [] e = cc
  select_live_inv pin t top effective_floor held (v ∷ live) e =
      elim (Bool-cases (ltb (max_serial (v ∷ live)) effective_floor)) [
        | inl below ↦ cc (rw below at e)
        | inr above ↦
            let (same, begun, in_time) = windowed_inv pin t (latest v live) (rw above at e) in
            (
              latest v live,
              rw above same,
              latest-member v live,
              ground (arith, above, latest-max_serial v live),
              begun,
              in_time,
            )
      ]

  no_conflict :
      (top : ℕ) (held : List (ListVersion Entry)) {v w : ListVersion Entry}
      → has_conflict top held ≡ false
      → Memᴰ v held
      → v.serial ≡ top
      → Memᴰ w held
      → w.serial ≡ top
      → w.content_hash ≡ v.content_hash
  unfolding has_conflict
  no_conflict top held e mv ev mw ew =
      one_member _ (ground (arith, e)) (hashed mw ew) (hashed mv ev)
    where
      hashed :
          {v : ListVersion Entry}
          → Memᴰ v held
          → v.serial ≡ top
          → Memᴰ v.content_hash
              (set_of (map (λ w. w.content_hash) (keep_if (λ w. w.serial == top) held)))
      hashed m e = set_of-member _ (
          map-member (λ (w : ListVersion Entry). w.content_hash)
            (keep_if-kept (λ w. w.serial == top) held m (ground (arith, e))))

  select_held_inv :
      (pin : IssuerPin) (t : Text) (as_of : Bool) (floor : Option ℕ)
      (held : List (ListVersion Entry))
      → (select_held pin t as_of floor held).status ≡ Status.used
      → (v : ListVersion Entry) × ((select_held pin t as_of floor held).version ≡ some v)
        × (has_conflict (max_serial held) held ≡ false)
        × Memᴰ v (keep_if (λ w. not w.retracted) held)
        × ((if as_of then max_serial held else max (max_serial held) (floor_or_zero floor))
            ≤ v.serial)
        × (text_leb v.valid_from t ≡ true)
        × (text_ltb t v.valid_until ≡ true)
  unfolding select_held invalid_state
  select_held_inv pin t as_of floor [] e = cc
  select_held_inv pin t as_of floor (v ∷ vs) e =
      elim (Bool-cases (not as_of && is_below_floor (max_serial (v ∷ vs)) floor)) [
        | inl rolled_back ↦ cc (rw rolled_back at e)
        | inr no_rollback ↦ elim (Bool-cases (has_conflict (max_serial (v ∷ vs)) (v ∷ vs))) [
          | inl conflict ↦ cc (rw conflict at (rw no_rollback at e))
          | inr one ↦
              let (w, same, kept, bound, begun, in_time) =
                select_live_inv pin t _ _ (v ∷ vs) _ (rw one at (rw no_rollback at e)) in
              (w, rw (no_rollback, one) same, one, kept, bound, begun, in_time)
        ]
      ]

  -- A version that `select_version` uses stands among those the pass looks at, is not retracted, has
  -- the highest serial of all of them, alone with its content, holds the time in its window, and
  -- in a latest pass is not below the floor.
  pub select_version_used :
      (pin : IssuerPin) (versions : List (ListVersion Entry)) (t : Text) (as_of : Bool)
      (floor : Option ℕ)
      → (select_version pin versions t as_of floor).status ≡ Status.used
      → (v : ListVersion Entry) × ((select_version pin versions t as_of floor).version ≡ some v)
        × IsCurrent t as_of floor versions v
  unfolding select_version
  select_version_used pin versions t as_of floor e =
      let held = held_at t as_of versions in
      let (v, same, one, kept, bound, begun, in_time) = select_held_inv pin t as_of floor held e in
      let (there, live) = keep_if-member (λ (w : ListVersion Entry). not w.retracted) held kept in
      let (top, floored) = at_top as_of (max_serial held) v.serial floor bound in
      let below = max_serial-upper held v there in
      let serial : v.serial ≡ max_serial held = omega arith in
      (
        v,
        same,
        record {
          held = there;
          live = ground (arith, live);
          begun = begun;
          open_still = in_time;
          highest = λ w m. omega (arith, max_serial-upper held w m);
          alone = λ w m ew. no_conflict (max_serial held) held one there serial m (ew ∙ serial);
          floored = floored;
        },
      )

  advance_floor-upper :
      (floor : Option ℕ) (accepted : List (ListVersion Entry))
      → (floor_or_zero floor ≤ floor_or_zero (advance_floor floor accepted))
        × ((w : ListVersion Entry)
            → Memᴰ w accepted
            → w.serial ≤ floor_or_zero (advance_floor floor accepted))
  advance_floor-upper floor [] =
      (unfold advance_floor floor_or_zero in omega arith, λ w m. elim m [ ])
  advance_floor-upper floor (v ∷ vs) = (
    unfold advance_floor floor_or_zero max in ground arith,
    λ w m.
        let upper = max_serial-upper (v ∷ vs) w m in
        unfold advance_floor floor_or_zero max in ground (arith, upper),
  )

  -- With the floor that `advance_floor` gives after a pass, a latest pass uses no version whose
  -- serial is below the floor before, also where nothing was accepted, or below that of any
  -- version that was accepted.
  pub select_version-advance_floor :
      (pin : IssuerPin) (accepted versions : List (ListVersion Entry)) (t : Text) (floor : Option ℕ)
      (v : ListVersion Entry)
      → (select_version pin versions t false (advance_floor floor accepted)).status ≡ Status.used
      → (select_version pin versions t false (advance_floor floor accepted)).version ≡ some v
      → (floor_or_zero floor ≤ v.serial)
        × ((w : ListVersion Entry) → Memᴰ w accepted → w.serial ≤ v.serial)
  select_version-advance_floor pin accepted versions t floor v used chosen =
      let (x, same, current) =
        select_version_used pin versions t false (advance_floor floor accepted) used in
      let (before, old) = advance_floor-upper floor accepted in
      let v_x : v.serial ≡ x.serial = cc (same, chosen) in
      (omega (arith, current.floored refl), λ w m. omega (arith, old w m, current.floored refl))
