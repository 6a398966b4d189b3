-- ===== src/Trustlist/Bounds.antt =====
-- The highest serial of a list of versions, the members that a test keeps, and the size of a set.
use acdp_verifier_py.Prelude.{
  ℕ, ◌<◌, ◌≤◌, ◌≡◌, refl, sym, ap, ◌∙◌, inl, inr, List, [], ◌∷◌, Bool, true, false, Text, bytes_eq,
  bytes_eq_iff, ltb, length, map, arith, Bool-cases, ltb→lt,
}
use mathlib.Core.Path.{subst}
use mathlib.Core.List.{Memᴰ}
use acdp_verifier_py.Trustlist.Series.{
  ListVersion, keep_if, is_member, set_of, max, max_serial, latest,
}

max_skip : (a b c : ℕ) → a < b → max a (max b c) ≡ max b c
unfolding max
max_skip a b c h = ground arith

max_keep : (a b c : ℕ) → b ≤ a → max a (max b c) ≡ max a c
unfolding max
max_keep a b c h = ground arith

module _ {Entry : Type 0} where
  pub max_serial-upper :
      (vs : List (ListVersion Entry)) (w : ListVersion Entry) → Memᴰ w vs → w.serial ≤ max_serial vs
  unfolding max_serial max
  max_serial-upper [] w m = elim m [ ]
  max_serial-upper (v ∷ vs) w (Memᴰ.head e) = rw e (ground arith)
  max_serial-upper (v ∷ vs) w (Memᴰ.tail m) = ground (arith, max_serial-upper vs w m)

  pub latest-member :
      (best : ListVersion Entry) (vs : List (ListVersion Entry)) → Memᴰ (latest best vs) (best ∷ vs)
  unfolding latest
  latest-member best [] = Memᴰ.head refl
  latest-member best (v ∷ vs) = elim (Bool-cases (ltb best.serial v.serial)) [
    | inl higher ↦ rw higher (Memᴰ.tail (latest-member v vs))
    | inr lower ↦ rw lower (skip v (latest-member best vs))
  ]
    where
      skip :
          {best w : ListVersion Entry} {vs : List (ListVersion Entry)} (v : ListVersion Entry)
          → Memᴰ w (best ∷ vs)
          → Memᴰ w (best ∷ v ∷ vs)
      skip v (Memᴰ.head e) = Memᴰ.head e
      skip v (Memᴰ.tail m) = Memᴰ.tail (Memᴰ.tail m)

  latest-higher :
      (best v : ListVersion Entry) (vs : List (ListVersion Entry))
      → ltb best.serial v.serial ≡ true
      → latest best (v ∷ vs) ≡ latest v vs
  unfolding latest
  latest-higher best v vs e = rw (e, latest) refl

  latest-lower :
      (best v : ListVersion Entry) (vs : List (ListVersion Entry))
      → ltb best.serial v.serial ≡ false
      → latest best (v ∷ vs) ≡ latest best vs
  unfolding latest
  latest-lower best v vs e = rw (e, latest) refl

  pub latest-max_serial :
      (best : ListVersion Entry) (vs : List (ListVersion Entry))
      → (latest best vs).serial ≡ max_serial (best ∷ vs)
  latest-max_serial best [] = unfold latest max_serial max in ground arith
  latest-max_serial best (v ∷ vs) = elim (Bool-cases (ltb best.serial v.serial)) [
    | inl higher ↦
        ap (λ (w : ListVersion Entry). w.serial) (latest-higher best v vs higher)
        ∙ latest-max_serial v vs
        ∙ sym
            (unfold max_serial in max_skip best.serial v.serial (max_serial vs) (ltb→lt _ _ higher))
    | inr lower ↦
        ap (λ (w : ListVersion Entry). w.serial) (latest-lower best v vs lower)
        ∙ latest-max_serial best vs
        ∙ sym (
            unfold max_serial in
            max_keep best.serial v.serial (max_serial vs) (ground (arith, lower)))
  ]

pub keep_if-member {ℓ} :
    {A : Type ℓ} (test : A → Bool) (xs : List A) {x : A}
    → Memᴰ x (keep_if test xs)
    → Memᴰ x xs × (test x ≡ true)
unfolding keep_if
keep_if-member test [] {x} m = elim m [ ]
keep_if-member {A = A} test (y ∷ ys) {x} m = elim (Bool-cases (test y)) [
  | inl kept ↦ first kept (λ n. keep_if-member test ys n) (rw kept at m)
  | inr dropped ↦
      let (there, holds) = keep_if-member test ys (rw dropped at m) in (Memᴰ.tail there, holds)
]
  where
    first :
        {x y : A} {ys : List A}
        → test y ≡ true
        → (Memᴰ x (keep_if test ys) → Memᴰ x ys × (test x ≡ true))
        → Memᴰ x (y ∷ keep_if test ys)
        → Memᴰ x (y ∷ ys) × (test x ≡ true)
    first kept later (Memᴰ.head e) = (Memᴰ.head e, ap test e ∙ kept)
    first kept later (Memᴰ.tail m) = let (there, holds) = later m in (Memᴰ.tail there, holds)

pub keep_if-kept {ℓ} :
    {A : Type ℓ} (test : A → Bool) (xs : List A) {x : A}
    → Memᴰ x xs
    → test x ≡ true
    → Memᴰ x (keep_if test xs)
unfolding keep_if
keep_if-kept test [] m kept = elim m [ ]
keep_if-kept test (y ∷ ys) (Memᴰ.head e) kept =
    let same = sym (ap test e) ∙ kept in rw same (Memᴰ.head e)
keep_if-kept test (y ∷ ys) {x} (Memᴰ.tail m) kept = elim (Bool-cases (test y)) [
  | inl here ↦ rw here (Memᴰ.tail (keep_if-kept test ys m kept))
  | inr gone ↦ rw gone (keep_if-kept test ys m kept)
]

pub map-member {ℓ κ} :
    {A : Type ℓ} {B : Type κ} (f : A → B) {x : A} {xs : List A} → Memᴰ x xs → Memᴰ (f x) (map f xs)
map-member f (Memᴰ.head e) = Memᴰ.head (ap f e)
map-member f (Memᴰ.tail m) = Memᴰ.tail (map-member f m)

is_member-sound : (x : Text) (ys : List Text) → is_member x ys ≡ true → Memᴰ x ys
unfolding is_member
is_member-sound x [] e = cc
is_member-sound x (y ∷ ys) e = elim (Bool-cases (bytes_eq x y)) [
  | inl same ↦ Memᴰ.head ((bytes_eq_iff x y).0 same)
  | inr other ↦ Memᴰ.tail (is_member-sound x ys (rw other at e))
]

pub set_of-member : (xs : List Text) {x : Text} → Memᴰ x xs → Memᴰ x (set_of xs)
unfolding set_of
set_of-member [] m = elim m [ ]
set_of-member (y ∷ ys) {x} m = elim (Bool-cases (is_member y (set_of ys))) [
  | inl known ↦ rw known (old (is_member-sound y (set_of ys) known) (λ n. set_of-member ys n) m)
  | inr new ↦ rw new (fresh (λ n. set_of-member ys n) m)
]
  where
    old :
        {x y : Text} {ys zs : List Text}
        → Memᴰ y zs
        → (Memᴰ x ys → Memᴰ x zs)
        → Memᴰ x (y ∷ ys)
        → Memᴰ x zs
    old {zs = zs} known later (Memᴰ.head e) = subst (λ z. Memᴰ z zs) (sym e) known
    old known later (Memᴰ.tail m) = later m

    fresh :
        {x y : Text} {ys zs : List Text}
        → (Memᴰ x ys → Memᴰ x zs)
        → Memᴰ x (y ∷ ys)
        → Memᴰ x (y ∷ zs)
    fresh later (Memᴰ.head e) = Memᴰ.head e
    fresh later (Memᴰ.tail m) = Memᴰ.tail (later m)

-- Members of a list of at most one element are equal.
pub one_member : (zs : List Text) {x y : Text} → length zs ≤ 1 → Memᴰ x zs → Memᴰ y zs → x ≡ y
one_member [] short m n = elim m [ ]
one_member (z ∷ []) short (Memᴰ.head e) (Memᴰ.head d) = e ∙ sym d
one_member (z ∷ []) short (Memᴰ.head e) (Memᴰ.tail n) = elim n [ ]
one_member (z ∷ []) short (Memᴰ.tail m) n = elim m [ ]
one_member (z ∷ w ∷ zs) short m n = absurd (omega arith)
