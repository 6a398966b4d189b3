-- ===== src/Seam/Participants.antt =====
-- What the preimage of the participants' digest says of the participants.
use acdp_verifier_py.Prelude.{
  ◌≡◌, refl, sym, ap, ◌∙◌, List, [], ◌∷◌, ◌++◌, Bytes, Text, text, length, append_injective, arith,
}
use acdp_verifier_py.Errors.{Result, ok, ◌>>=◌, bind_inv}
use acdp_verifier_py.Unicode.Encode.{utf8}
use acdp_verifier_py.Unicode.Binding.{utf8_injective}
use acdp_verifier_py.Seam.Frame.{
  ascii, frame, le32, join_participants, behind_domain, participants_preimage,
}
use acdp_verifier_py.Seam.Slots.{le32_injective, frame_injective}

join_participants_injective :
    (ps qs : List Text) (x : Bytes)
    → length ps ≡ length qs
    → join_participants ps ≡ ok x
    → join_participants qs ≡ ok x
    → ps ≡ qs
unfolding join_participants
join_participants_injective [] [] x n ep eq = refl
join_participants_injective [] (q ∷ qs) x n ep eq = absurd (omega (arith, n))
join_participants_injective (p ∷ ps) [] x n ep eq = absurd (omega (arith, n))
join_participants_injective (p ∷ ps) (q ∷ qs) x n ep eq =
    let (a, ep₁, text_p) = bind_inv _ (utf8 p) ep in
    let (one, ep₂, framed_p) = bind_inv _ (frame a) ep₁ in
    let (rest, made_p, rest_p) = bind_inv _ (join_participants ps) ep₂ in
    let (b, eq₁, text_q) = bind_inv _ (utf8 q) eq in
    let (two, eq₂, framed_q) = bind_inv _ (frame b) eq₁ in
    let (last, made_q, rest_q) = bind_inv _ (join_participants qs) eq₂ in
    let joined : one ++ rest ≡ two ++ last = cc (made_p, made_q) in
    let (same, ends) = frame_injective a b one two rest last framed_p framed_q joined in
    let texts : p ≡ q = utf8_injective p q a text_p (text_q ∙ ap ok (sym same)) in
    let tails =
      join_participants_injective ps qs rest (omega (arith, n)) rest_p
        (rest_q ∙ ap ok (sym ends)) in
    cc (texts, tails)

behind_domain_injective :
    (domain : Result Bytes) (ps qs : List Text) (x : Bytes)
    → behind_domain domain ps ≡ ok x
    → behind_domain domain qs ≡ ok x
    → ps ≡ qs
unfolding behind_domain
behind_domain_injective domain ps qs x ep eq =
    let (head, ep₁, framed) = bind_inv _ domain ep in
    let (count, ep₂, counted) = bind_inv _ (le32 (length ps)) ep₁ in
    let (rest, made_p, joined_p) = bind_inv _ (join_participants ps) ep₂ in
    let (head', eq₁, framed') = bind_inv _ domain eq in
    let (count', eq₂, counted') = bind_inv _ (le32 (length qs)) eq₁ in
    let (rest', made_q, joined_q) = bind_inv _ (join_participants qs) eq₂ in
    let one_head : head ≡ head' = cc (framed, framed') in
    let whole : head ++ (count ++ rest) ≡ head' ++ (count' ++ rest') = cc (made_p, made_q) in
    let (_, behind) =
      append_injective head (count ++ rest) head' (count' ++ rest') (ap length one_head) whole in
    let (sizes, rests) =
      le32_injective (length ps) (length qs) count count' rest rest' counted counted' behind in
    join_participants_injective ps qs rest sizes joined_p (joined_q ∙ ap ok (sym rests))

-- Two lists of participants with one preimage are equal, in their order and with their repetitions.
pub participants_preimage_injective :
    (ps qs : List Text) (x : Bytes)
    → participants_preimage ps ≡ ok x
    → participants_preimage qs ≡ ok x
    → ps ≡ qs
unfolding participants_preimage
participants_preimage_injective ps qs x ep eq =
    behind_domain_injective (ascii (text "seam.audit.participants.v4") >>= frame) ps qs x ep eq
