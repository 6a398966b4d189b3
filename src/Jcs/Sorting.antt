-- ===== src/Jcs/Sorting.antt =====
-- What holds of every member holds of the sorted members.
use acdp_verifier_py.Prelude.{List, [], ◌∷◌, text_leb, All, Bool-cases, inl, inr}
use acdp_verifier_py.Jcs.Serialize.{Member, insert_member, sort_members}

module _ {κ ℓ} {A : Type ℓ} (P : Member A → Type κ) where
  insert_member-All :
      (m : Member A) (ms : List (Member A)) → P m → All P ms → All P (insert_member m ms)
  unfolding insert_member
  insert_member-All m [] h hs = (h, tt)
  insert_member-All m (n ∷ ns) h hs = elim (Bool-cases (text_leb m.key n.key)) [
    | inl le ↦ rw le (h, hs)
    | inr gt ↦ rw gt (hs.0, insert_member-All m ns h hs.1)
  ]

  pub sort_members-All : (ms : List (Member A)) → All P ms → All P (sort_members ms)
  unfolding sort_members
  sort_members-All [] h = tt
  sort_members-All (m ∷ ms) h = insert_member-All m (sort_members ms) h.0 (sort_members-All ms h.1)
