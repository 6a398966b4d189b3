-- ===== src/Jcs/Ascending.antt =====
-- The order in which the members of an object are written.
use acdp_verifier_py.Prelude.{
  ◌≡◌, refl, List, [], ◌∷◌, ◌++◌, true, Text, text_leb, text_leb_trans, text_leb_total, All,
  All-weaken, Bool-cases, inl, inr,
}
use mathlib.Core.Path.{subst}
use mathlib.Core.List.{Permᴰ}
use acdp_verifier_py.Errors.{ok, bind_inv}
use acdp_verifier_py.Unicode.Encode.{utf16}
use acdp_verifier_py.Json.{Json, obj, Fields, end, field}
use acdp_verifier_py.Jcs.Numbers.{Doubles}
use acdp_verifier_py.Jcs.Serialize.{
  Member, insert_member, sort_members, join_members, serialize, serialize_members, dumps,
}
use acdp_verifier_py.Jcs.Alike.{pairs}
use acdp_verifier_py.Jcs.Reordered.{Zip, Zip-Permᴰ, sort_members-Permᴰ}

-- Each key is at most every later one.
abbrev pub Ascending : List (Member Text) → Type 0
Ascending [] = Unit
Ascending (m ∷ ms) = All (λ n. text_leb m.key n.key ≡ true) ms × Ascending ms

-- A bound of a member and of the others is one of all.
insert_member-below :
    (k : Member Text) (m : Member Text) (ms : List (Member Text))
    → text_leb k.key m.key ≡ true
    → All (λ n. text_leb k.key n.key ≡ true) ms
    → All (λ n. text_leb k.key n.key ≡ true) (insert_member m ms)
unfolding insert_member
insert_member-below k m [] h hs = (h, tt)
insert_member-below k m (n ∷ ns) h hs = elim (Bool-cases (text_leb m.key n.key)) [
  | inl le ↦ rw le (h, hs)
  | inr gt ↦ rw gt (hs.0, insert_member-below k m ns h hs.1)
]

insert_member-Ascending :
    (m : Member Text) (ms : List (Member Text)) → Ascending ms → Ascending (insert_member m ms)
unfolding insert_member
insert_member-Ascending m [] h = (tt, tt)
insert_member-Ascending m (n ∷ ns) h = elim (Bool-cases (text_leb m.key n.key)) [
  | inl le ↦
      let later =
        All-weaken (λ x. text_leb n.key x.key ≡ true) (λ x. text_leb m.key x.key ≡ true)
          (λ x e. text_leb_trans m.key n.key x.key le e) ns h.0 in
      rw le ((le, later), h)
  | inr gt ↦ rw gt (
    insert_member-below n m ns (text_leb_total m.key n.key gt) h.0,
    insert_member-Ascending m ns h.1,
  )
]

sort_members-Ascending : (ms : List (Member Text)) → Ascending (sort_members ms)
unfolding sort_members
sort_members-Ascending [] = tt
sort_members-Ascending (m ∷ ms) =
    insert_member-Ascending m (sort_members ms) (sort_members-Ascending ms)

module _ ⦃d : Doubles⦄ where
  -- An entry for a member: its name, the UTF-16 code units of the name, and the text of the value.
  abbrev pub IsEntry : Text × Json → Member Text → Type 0
  IsEntry p m = (p.0 ≡ m.name) × (utf16 p.0 ≡ ok m.key) × (dumps p.1 ≡ ok m.value)

  -- The text of an object: its members, each once, in ascending order.
  pub record InOrder (members : Fields) (s : Text) : Type 0 where
    pub entries : List (Member Text)
    pub written : s ≡ 123 ∷ join_members entries ++ 125 ∷ []
    pub ascending : Ascending entries
    pub reordered : List (Text × Json)
    pub same_members : Permᴰ (pairs members) reordered
    pub each : Zip IsEntry reordered entries

  serialize_members-IsEntry :
      (members : Fields) (ms : List (Member Text))
      → serialize_members members ≡ ok ms
      → Zip IsEntry (pairs members) ms
  unfolding serialize pairs dumps
  serialize_members-IsEntry end ms e = let same : [] ≡ ms = cc (e) in subst (Zip IsEntry []) same tt
  serialize_members-IsEntry (field name v members) ms e =
      let (key, e₁, keyed) = bind_inv _ (utf16 name) e in
      let (one, e₂, first) = bind_inv _ (serialize v) e₁ in
      let (more, e₃, rest) = bind_inv _ (serialize_members members) e₂ in
      let same : record { key = key; name = name; value = one } ∷ more ≡ ms = cc (e₃) in
      subst (Zip IsEntry (pairs (field name v members))) same
        ((refl, keyed, first), serialize_members-IsEntry members more rest)

  -- What `dumps` writes for an object are its members, each once, in ascending order of the UTF-16
  -- code units of their names, each with the text that `dumps` gives its value.
  pub dumps-InOrder : (members : Fields) (s : Text) → dumps (obj members) ≡ ok s → InOrder members s
  unfolding dumps serialize
  dumps-InOrder members s e =
      let (ms, made, walked) = bind_inv _ (serialize_members members) e in
      let (reordered, perm, each) =
        Zip-Permᴰ IsEntry (pairs members) (serialize_members-IsEntry members ms walked)
          (sort_members-Permᴰ ms) in
      record {
        entries = sort_members ms;
        written = cc (made);
        ascending = sort_members-Ascending ms;
        reordered = reordered;
        same_members = perm;
        each = each;
      }
