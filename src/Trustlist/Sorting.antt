-- ===== src/Trustlist/Sorting.antt =====
-- trustlist.py: the members of the sorted pins.
use acdp_verifier_py.Prelude.{inl, inr, List, [], ◌∷◌, Bool-cases}
use mathlib.Core.List.{Memᴰ}
use acdp_verifier_py.Trustlist.Series.{PinState}
use acdp_verifier_py.Trustlist.Entry.{Entry}
use acdp_verifier_py.Trustlist.Evaluate.{pin_leb, insert, sorted}

insert-member :
    (s : PinState Entry) (rs : List (PinState Entry)) {x : PinState Entry}
    → Memᴰ x (insert s rs)
    → Memᴰ x (s ∷ rs)
unfolding insert
insert-member s [] m = m
insert-member s (r ∷ rs) {x} m = elim (Bool-cases (pin_leb s.pin r.pin)) [
  | inl front ↦ rw front at m
  | inr later ↦ past (λ n. insert-member s rs n) (rw later at m)
]
  where
    past :
        {s r x : PinState Entry} {rs xs : List (PinState Entry)}
        → (Memᴰ x xs → Memᴰ x (s ∷ rs))
        → Memᴰ x (r ∷ xs)
        → Memᴰ x (s ∷ r ∷ rs)
    past further (Memᴰ.head e) = Memᴰ.tail (Memᴰ.head e)
    past further (Memᴰ.tail m) = elim (further m) [
      | Memᴰ.head e ↦ Memᴰ.head e
      | Memᴰ.tail n ↦ Memᴰ.tail (Memᴰ.tail n)
    ]

insert-kept :
    (s : PinState Entry) (rs : List (PinState Entry)) {x : PinState Entry}
    → Memᴰ x (s ∷ rs)
    → Memᴰ x (insert s rs)
unfolding insert
insert-kept s [] m = m
insert-kept s (r ∷ rs) {x} m = elim (Bool-cases (pin_leb s.pin r.pin)) [
  | inl front ↦ rw front m
  | inr later ↦ rw later (past (λ n. insert-kept s rs n) m)
]
  where
    past :
        {s r x : PinState Entry} {rs xs : List (PinState Entry)}
        → (Memᴰ x (s ∷ rs) → Memᴰ x xs)
        → Memᴰ x (s ∷ r ∷ rs)
        → Memᴰ x (r ∷ xs)
    past further (Memᴰ.head e) = Memᴰ.tail (further (Memᴰ.head e))
    past further (Memᴰ.tail (Memᴰ.head e)) = Memᴰ.head e
    past further (Memᴰ.tail (Memᴰ.tail m)) = Memᴰ.tail (further (Memᴰ.tail m))

pub sorted-member :
    (ss : List (PinState Entry)) {x : PinState Entry} → Memᴰ x (sorted ss) → Memᴰ x ss
unfolding sorted
sorted-member [] m = m
sorted-member (s ∷ ss) m = elim (insert-member s (sorted ss) m) [
  | Memᴰ.head e ↦ Memᴰ.head e
  | Memᴰ.tail n ↦ Memᴰ.tail (sorted-member ss n)
]

pub sorted-kept : (ss : List (PinState Entry)) {x : PinState Entry} → Memᴰ x ss → Memᴰ x (sorted ss)
unfolding sorted
sorted-kept (s ∷ ss) (Memᴰ.head e) = insert-kept s (sorted ss) (Memᴰ.head e)
sorted-kept (s ∷ ss) (Memᴰ.tail m) = insert-kept s (sorted ss) (Memᴰ.tail (sorted-kept ss m))
sorted-kept [] m = elim m [ ]
