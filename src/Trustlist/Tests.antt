-- ===== src/Trustlist/Tests.antt =====
-- Runs of trustlist.py, and the properties at concrete inputs.
use acdp_verifier_py.Prelude.{
  ℕ, ◌≤◌, ◌≡◌, refl, List, [], ◌∷◌, Bool, true, false, none, some, Text, text,
}
use mathlib.Core.List.{Memᴰ}
use acdp_verifier_py.Trustlist.Series.{IssuerPin, ListVersion, Status, floor_or_zero}
use acdp_verifier_py.Trustlist.Select.{advance_floor, select_version}
use acdp_verifier_py.Trustlist.Used.{IsCurrent, select_version_used, select_version-advance_floor}

abbrev pin : IssuerPin
pin = record {
  issuer = text "did:web:issuer.example";
  list_id = text "partners";
  issuer_key_fingerprints = none;
}

abbrev numbered : ℕ → Text → Bool → ListVersion (Unit {0})
numbered serial content_hash retracted = record {
  serial = serial;
  issued_at = text "2026-01-01";
  valid_from = text "2026-01-01";
  valid_until = text "2026-12-31";
  content_hash = content_hash;
  entries = [];
  ctx_id = none;
  retracted = retracted;
}

abbrev first : ListVersion (Unit {0})
first = numbered 1 (text "a") false

abbrev second : ListVersion (Unit {0})
second = numbered 2 (text "b") false

abbrev versions : List (ListVersion (Unit {0}))
versions = first ∷ second ∷ []

abbrev now : Text
now = text "2026-06-01"

second_used : (select_version pin versions now false (some 1)).status ≡ Status.used
unfolding select_version
second_used = refl

rollback : (select_version pin (first ∷ []) now false (some 2)).reason ≡ some (text "rollback")
unfolding select_version
rollback = refl

equivocation :
    (select_version pin (second ∷ numbered 2 (text "c") false ∷ []) now false none).reason
    ≡ some (text "equivocation")
unfolding select_version
equivocation = refl

top_retracted :
    (select_version pin (first ∷ numbered 2 (text "b") true ∷ []) now false none).reason
    ≡ some (text "retracted")
unfolding select_version
top_retracted = refl

select_version_used_example :
    (v : ListVersion (Unit {0})) × ((select_version pin versions now false (some 1)).version
      ≡ some v)
    × IsCurrent now false (some 1) versions v
select_version_used_example = select_version_used pin versions now false (some 1) second_used

second_after_floor :
    (select_version pin versions now false (advance_floor (some 1) (second ∷ []))).status
    ≡ Status.used
unfolding select_version advance_floor
second_after_floor = refl

second_selected :
    (select_version pin versions now false (advance_floor (some 1) (second ∷ []))).version
    ≡ some second
unfolding select_version advance_floor
second_selected = refl

select_version-advance_floor_example :
    (floor_or_zero (some 1) ≤ 2)
    × ((w : ListVersion (Unit {0})) → Memᴰ w (second ∷ []) → w.serial ≤ 2)
select_version-advance_floor_example =
    select_version-advance_floor pin (second ∷ []) versions now (some 1) second second_after_floor
      second_selected
