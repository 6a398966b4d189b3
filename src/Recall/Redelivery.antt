-- ===== src/Recall/Redelivery.antt =====
-- recall.py: the loop of `on_page`, run on a page and run again.
use acdp_verifier_py.Prelude.{
  ◌≡◌, refl, sym, inl, inr, List, [], ◌∷◌, true, Option, Text, bytes_eq_iff, ℤ, pos, negsuc, arith,
  Bool-cases,
}
use acdp_verifier_py.Errors.{Result, ok, bind_inv, Result-cases}
use acdp_verifier_py.Recall.Consumer.{
  Change, ChangeResult, WatchSet, Key, int_eq, is_processed, is_neighbour, Progress, skip,
  take_result, round, process,
}

int_eq_refl : (a : ℤ) → int_eq a a ≡ true
unfolding int_eq
int_eq_refl (pos a) = ground arith
int_eq_refl (negsuc a) = ground arith

is_processed_self : (key : Key) (ks : List Key) → is_processed key (key ∷ ks) ≡ true
unfolding is_processed
is_processed_self key ks = rw ((bytes_eq_iff key.0 key.0).1 refl, int_eq_refl key.1) refl

is_processed-cons :
    (key k : Key) (ks : List Key) → is_processed key ks ≡ true → is_processed key (k ∷ ks) ≡ true
unfolding is_processed
is_processed-cons key k ks e = ground (arith, e)

module _ {Details : Type 0} (verify : Change Details → Result ChangeResult) (authority : Text)
    (exact : Option WatchSet) where
  -- A round that ended has the key of its change among the processed ones, and all from before.
  record Done (c : Change Details) (p q : Progress) : Type 0 where
    seq : ℤ
    numbered : c.seq ≡ ok seq
    now_known : is_processed (authority, seq) q.processed ≡ true
    kept : (key : Key) → is_processed key p.processed ≡ true → is_processed key q.processed ≡ true

  round_inv :
      (c : Change Details) (p q : Progress) → round verify authority exact c p ≡ ok q → Done c p q
  unfolding round
  round_inv c p q e =
      let (seq, e₁, numbered) = bind_inv _ c.seq e in
      let key : Key = (authority, seq) in
      elim (Bool-cases (is_processed key p.processed)) [
        | inl known ↦
            let same : p ≡ q = cc (rw known at e₁) in
            record {
              seq = seq;
              numbered = numbered;
              now_known = rw same at known;
              kept = λ k h. rw same at h;
            }
        | inr new ↦
            let (neighbour, e₂, matched) = bind_inv _ (is_neighbour exact c) (rw new at e₁) in
            elim (Bool-cases neighbour) [
              | inl aside ↦
                  let same : skip key p ≡ q = cc (rw aside at e₂) in
                  added seq numbered (rw (sym same) (unfold skip in refl))
              | inr relevant ↦
                  let (result, made, _) = bind_inv _ (verify c) (rw relevant at e₂) in
                  let same : take_result key result p ≡ q = cc (made) in
                  added seq numbered (rw (sym same) (unfold take_result in refl))
            ]
      ]
    where
      added : (seq : ℤ) → c.seq ≡ ok seq → q.processed ≡ (authority, seq) ∷ p.processed → Done c p q
      added seq numbered grown = record {
        seq = seq;
        numbered = numbered;
        now_known = rw grown (is_processed_self (authority, seq) p.processed);
        kept = λ k h. rw grown (is_processed-cons k (authority, seq) p.processed h);
      }

  -- A round on a change whose key is processed does nothing.
  round-known :
      (c : Change Details) (p : Progress) (seq : ℤ)
      → c.seq ≡ ok seq
      → is_processed (authority, seq) p.processed ≡ true
      → round verify authority exact c p ≡ ok p
  unfolding round
  round-known c p seq numbered known = rw (numbered, round) (rw known refl)

  process_inv :
      (c : Change Details) (cs : List (Change Details)) (p q : Progress)
      → process verify authority exact (c ∷ cs) p ≡ (q, ok tt)
      → (via : Progress) × (round verify authority exact c p ≡ ok via)
        × (process verify authority exact cs via ≡ (q, ok tt))
  unfolding process
  process_inv c cs p q e = elim (Result-cases (round verify authority exact c p)) [
    | inl (via, went) ↦ (via, went, rw (went, process) at e)
    | inr (inl (err, raised)) ↦ cc (rw (raised, process) at e)
    | inr (inr dry) ↦ cc (rw (dry, process) at e)
  ]

  -- However the loop ends, what was processed is still processed.
  pub process-kept :
      (cs : List (Change Details)) (p : Progress) (key : Key)
      → is_processed key p.processed ≡ true
      → is_processed key (process verify authority exact cs p).0.processed ≡ true
  unfolding process
  process-kept [] p key k = k
  process-kept (c ∷ cs) p key k = elim (Result-cases (round verify authority exact c p)) [
    | inl (via, went) ↦
        rw (went, process) (process-kept cs via key ((round_inv c p via went).kept key k))
    | inr (inl (err, raised)) ↦ rw (raised, process) k
    | inr (inr dry) ↦ rw (dry, process) k
  ]

  -- After the loop, running it again from any progress with its keys does nothing.
  pub process-again :
      (cs : List (Change Details)) (p q again : Progress)
      → process verify authority exact cs p ≡ (q, ok tt)
      → again.processed ≡ q.processed
      → process verify authority exact cs again ≡ (again, ok tt)
  unfolding process
  process-again [] p q again e same = refl
  process-again (c ∷ cs) p q again e same =
      let (via, went, rest) = process_inv c cs p q e in
      let d = round_inv c p via went in
      let end : (process verify authority exact cs via).0 ≡ q = cc (rest) in
      let known : is_processed (authority, d.seq) q.processed ≡ true =
        rw end at (process-kept cs via (authority, d.seq) d.now_known) in
      let idle = round-known c again d.seq d.numbered (rw same known) in
      rw (idle, process) (process-again cs via q again rest same)
