-- ===== src/Jcs/Reordered.antt =====
-- Sorting the members reorders them, and a reordering carries a relation of two lists along.
use acdp_verifier_py.Prelude.{◌≡◌, refl, List, [], ◌∷◌, Text, text_leb, Bool-cases, inl, inr}
use mathlib.Core.Path.{subst}
use mathlib.Core.List.{Permᴰ}
use mathlib.Core.List.Permᴰ
use acdp_verifier_py.Jcs.Serialize.{Member, insert_member, sort_members}
use acdp_verifier_py.Jcs.Canon.{Canon, Named, to_named}

-- Two lists of one length, related place by place.
abbrev pub Zip : {A B : Type 0} → (A → B → Type 0) → List A → List B → Type 0
Zip R [] [] = Unit
Zip R (a ∷ xs) (b ∷ ys) = R a b × Zip R xs ys
Zip R [] (b ∷ ys) = ⊥
Zip R (a ∷ xs) [] = ⊥

pub Zip-Permᴰ :
    {A B : Type 0} (R : A → B → Type 0) (xs : List A) {ys zs : List B}
    → Zip R xs ys
    → Permᴰ ys zs
    → (via : List A) × Permᴰ xs via × Zip R via zs
Zip-Permᴰ R [] z Permᴰ.nil = ([], Permᴰ.nil, tt)
Zip-Permᴰ R (a ∷ xs) z Permᴰ.nil = absurd z
Zip-Permᴰ R [] z (Permᴰ.cons e p) = absurd z
Zip-Permᴰ R (a ∷ xs) z (Permᴰ.cons e p) =
    let (via, q, rest) = Zip-Permᴰ R xs z.1 p in
    (a ∷ via, Permᴰ.cons refl q, (subst (R a) e z.0, rest))
Zip-Permᴰ R [] z (Permᴰ.swap e f) = absurd z
Zip-Permᴰ R (a ∷ []) z (Permᴰ.swap e f) = absurd z.1
Zip-Permᴰ R (a ∷ b ∷ xs) z (Permᴰ.swap e f) =
    (b ∷ a ∷ xs, Permᴰ.swap refl refl, (subst (R b) f z.1.0, (subst (R a) e z.0, z.1.1)))
Zip-Permᴰ R xs z (Permᴰ.trans p q) =
    let (via, p', z') = Zip-Permᴰ R xs z p in
    let (via', q', z'') = Zip-Permᴰ R via z' q in (via', Permᴰ.trans p' q', z'')

abbrev pub named : List (Member Canon) → List (Text × Canon)
named [] = []
named (m ∷ ms) = (m.name, m.value) ∷ named ms

abbrev listed : Named → List (Text × Canon)
listed Named.end = []
listed (Named.member name c ms) = (name, c) ∷ listed ms

pub named-to_named : (ms : List (Member Canon)) → listed (to_named ms) ≡ named ms
unfolding to_named
named-to_named [] = refl
named-to_named (m ∷ ms) = rw (named-to_named ms)

named-Permᴰ : {ms ns : List (Member Canon)} → Permᴰ ms ns → Permᴰ (named ms) (named ns)
named-Permᴰ Permᴰ.nil = Permᴰ.nil
named-Permᴰ (Permᴰ.cons e p) = Permᴰ.cons (cc (e)) (named-Permᴰ p)
named-Permᴰ (Permᴰ.swap e f) = Permᴰ.swap (cc (e)) (cc (f))
named-Permᴰ (Permᴰ.trans p q) = Permᴰ.trans (named-Permᴰ p) (named-Permᴰ q)

module _ {A : Type 0} where
  insert_member-Permᴰ : (m : Member A) (ms : List (Member A)) → Permᴰ (m ∷ ms) (insert_member m ms)
  unfolding insert_member
  insert_member-Permᴰ m [] = Permᴰ.cons refl Permᴰ.nil
  insert_member-Permᴰ m (n ∷ ns) = elim (Bool-cases (text_leb m.key n.key)) [
    | inl le ↦ rw le (Permᴰ.refl (m ∷ n ∷ ns))
    | inr gt ↦
        rw gt (Permᴰ.trans (Permᴰ.swap refl refl) (Permᴰ.cons refl (insert_member-Permᴰ m ns)))
  ]

  pub sort_members-Permᴰ : (ms : List (Member A)) → Permᴰ ms (sort_members ms)
  unfolding sort_members
  sort_members-Permᴰ [] = Permᴰ.nil
  sort_members-Permᴰ (m ∷ ms) =
      Permᴰ.trans (Permᴰ.cons refl (sort_members-Permᴰ ms))
        (insert_member-Permᴰ m (sort_members ms))

-- Members that are sorted into one list are the same but for their order.
pub sorted_alike-Permᴰ :
    (ms ns : List (Member Canon))
    → to_named (sort_members ms) ≡ to_named (sort_members ns)
    → Permᴰ (named ms) (named ns)
sorted_alike-Permᴰ ms ns e =
    let same : named (sort_members ms) ≡ named (sort_members ns) =
      cc (e, named-to_named (sort_members ms), named-to_named (sort_members ns)) in
    Permᴰ.trans (rw same at (named-Permᴰ (sort_members-Permᴰ ms)))
      (Permᴰ.symm (named-Permᴰ (sort_members-Permᴰ ns)))
