-- ===== src/Recall/Delivery.antt =====
-- recall.py: `on_page` and `on_error` on the whole state of the consumer.
use acdp_verifier_py.Prelude.{
  ◌≡◌, ◌≢◌, refl, sym, ap, ◌∙◌, ◌⊎◌, inl, inr, List, [], ◌∷◌, ◌++◌, Bool, true, false, ◌&&◌, ◌||◌,
  none, some, Text, text, bytes_eq, bytes_eq_iff, ℤ, Bool-cases, append-nil, Option-cases,
}
use acdp_verifier_py.Errors.{Error, Result, ok, raise, out_of_fuel, key_error}
use acdp_verifier_py.Recall.Consumer.{
  Change, ChangeResult, Key, RecallConsumer, Page, int_eq, is_processed, Progress, process,
  says_no_more, after_loop, finish, on_page, drop_authority, is_persisted, on_error,
}
use acdp_verifier_py.Recall.Redelivery.{process-kept, process-again}

module _ {Details : Type 0} (verify : Change Details → Result ChangeResult) where
  abbrev pub begin : RecallConsumer → Progress
  begin s = record { processed = s.processed; page = []; reverified = s.reverified }

  abbrev pub ended : RecallConsumer → Page Details → Text → Progress → RecallConsumer
  ended s response cursor p =
      after_loop verify s p (some cursor) (s.results ++ p.page) (says_no_more verify response)

  finish_inv :
      (s s₁ : RecallConsumer) (response : Page Details) (page : List ChangeResult)
      (l : Progress × Result (Unit {0}))
      → finish verify s response l ≡ (s₁, ok page)
      → (q : Progress) × (cursor : Text) × (l ≡ (q, ok tt))
        × (response.next_cursor ≡ some cursor)
        × (s₁ ≡ ended s response cursor q)
  unfolding finish
  finish_inv s s₁ response page (q, ok done) e = elim (Option-cases response.next_cursor) [
    | inl missing ↦ cc (rw (missing, finish) at e)
    | inr (cursor, given) ↦ (q, cursor, refl, given, cc (rw (given, finish) at e))
  ]
  finish_inv s s₁ response page (q, raise err) e = cc (e)
  finish_inv s s₁ response page (q, out_of_fuel) e = cc (e)

  on_page-ended :
      (s : RecallConsumer) (response : Page Details) (cursor : Text) (q : Progress)
      → process verify s.registry_authority s.exact response.changes (begin s) ≡ (q, ok tt)
      → response.next_cursor ≡ some cursor
      → on_page verify (ended s response cursor q) response ≡ (ended s response cursor q, ok [])
  unfolding on_page finish
  on_page-ended s response cursor q went given =
      rw
        (
          process-again verify s.registry_authority s.exact response.changes (begin s) q
              (begin (ended s response cursor q)) went refl,
          given,
          append-nil (s.results ++ q.page),
        )
        refl

  -- A page that was processed and is delivered again yields nothing and changes nothing: no change
  -- is verified twice, no context re-verified, no result added.
  pub on_page_redelivered :
      (s s₁ : RecallConsumer) (response : Page Details) (page : List ChangeResult)
      → on_page verify s response ≡ (s₁, ok page)
      → on_page verify s₁ response ≡ (s₁, ok [])
  unfolding on_page
  on_page_redelivered s s₁ response page e =
      let (q, cursor, went, given, state) = finish_inv s s₁ response page _ e in
      rw state (on_page-ended s response cursor q went given)

  -- What an exception leaves behind.
  pub record Stopped (s s₁ : RecallConsumer) (response : Page Details) (err : Error) : Type 0 where
    pub same_cursor : s₁.cursor ≡ s.cursor
    pub same_head : s₁.at_head ≡ s.at_head
    pub results :
        (s₁.results ≡ s.results)
        ⊎ ((response.next_cursor ≡ none)
            × (err ≡ key_error)
            × (page : List ChangeResult) × (s₁.results ≡ s.results ++ page))
    pub kept :
        (key : Key) → is_processed key s.processed ≡ true → is_processed key s₁.processed ≡ true

  finish-Stopped :
      (s s₁ : RecallConsumer) (response : Page Details) (err : Error)
      (l : Progress × Result (Unit {0}))
      → ((key : Key) → is_processed key s.processed ≡ true → is_processed key l.0.processed ≡ true)
      → finish verify s response l ≡ (s₁, raise err)
      → Stopped s s₁ response err
  unfolding finish
  finish-Stopped s s₁ response err (q, ok done) kept e = elim (Option-cases response.next_cursor) [
    | inr (cursor, given) ↦ cc (rw (given, finish) at e)
    | inl missing ↦
        let left = rw (missing, finish) at e in
        let state : after_loop verify s q s.cursor (s.results ++ q.page) s.at_head ≡ s₁ =
          cc (left) in
        rw (sym state) (record {
          same_cursor = refl;
          same_head = refl;
          results = inr (missing, cc (left), q.page, refl);
          kept = kept;
        })
  ]
  finish-Stopped s s₁ response err (q, raise other) kept e =
      let state : after_loop verify s q s.cursor s.results s.at_head ≡ s₁ = cc (e) in
      rw (sym state)
        (record { same_cursor = refl; same_head = refl; results = inl refl; kept = kept })
  finish-Stopped s s₁ response err (q, out_of_fuel) kept e = cc (e)

  -- When an exception ends `on_page`, the cursor and `at_head` are those before, and what counted as
  -- processed still does. The results are those before, or the page has no `next_cursor`, the
  -- exception is its KeyError, and results were added.
  pub on_page_failed :
      (s s₁ : RecallConsumer) (response : Page Details) (err : Error)
      → on_page verify s response ≡ (s₁, raise err)
      → Stopped s s₁ response err
  unfolding on_page
  on_page_failed s s₁ response err e =
      finish-Stopped s s₁ response err
        (process verify s.registry_authority s.exact response.changes (begin s))
        (process-kept verify s.registry_authority s.exact response.changes (begin s)) e

own_dropped :
    (authority : Text) (seq : ℤ) (ks : List Key)
    → is_processed (authority, seq) (drop_authority authority ks) ≡ false
unfolding is_processed drop_authority
own_dropped authority seq [] = refl
own_dropped authority seq (k ∷ ks) = elim (Bool-cases (bytes_eq k.0 authority)) [
  | inl own ↦ rw own (own_dropped authority seq ks)
  | inr other ↦
      let apart : bytes_eq authority k.0 ≡ false = swapped k.0 authority other in
      rw other (rw (apart, is_processed) (own_dropped authority seq ks))
]
  where
    swapped : (a b : Text) → bytes_eq a b ≡ false → bytes_eq b a ≡ false
    swapped a b e = elim (Bool-cases (bytes_eq b a)) [
      | inr apart ↦ apart
      | inl same ↦ cc (e, (bytes_eq_iff a b).1 (sym ((bytes_eq_iff b a).0 same)))
    ]

others_kept :
    (authority : Text) (key : Key) (ks : List Key)
    → key.0 ≢ authority
    → is_processed key (drop_authority authority ks) ≡ is_processed key ks
unfolding is_processed drop_authority
others_kept authority key [] apart = refl
others_kept authority key (k ∷ ks) apart = elim (Bool-cases (bytes_eq k.0 authority)) [
  | inl own ↦
      let k_own : k.0 ≡ authority = (bytes_eq_iff k.0 authority).0 own in
      elim (Bool-cases (bytes_eq key.0 k.0)) [
        | inl same ↦ absurd (apart ((bytes_eq_iff key.0 k.0).0 same ∙ k_own))
        | inr differs ↦ rw own (rw (differs, is_processed) (others_kept authority key ks apart))
      ]
  | inr other ↦
      rw other (
        ap (λ b. (bytes_eq key.0 k.0 && int_eq key.1 k.1) || b)
          (others_kept authority key ks apart))
]

abbrev pub resynced : RecallConsumer → RecallConsumer
resynced s = record {
  registry_authority = s.registry_authority;
  watched = s.watched;
  cursor = some (text "head");
  processed = drop_authority s.registry_authority s.processed;
  results = s.results;
  at_head = false;
  exact = s.exact;
  reverified = s.reverified ++ s.watched ∷ [];
}

abbrev forced : RecallConsumer → Text → Bool
forced s code =
    bytes_eq code (text "cursor_expired")
    || (bytes_eq code (text "invalid_cursor") && is_persisted s.cursor)

on_error-quiet :
    (s : RecallConsumer) (code : Text) → forced s code ≡ false → on_error s code ≡ (s, false)
unfolding on_error
on_error-quiet s code h = rw h refl

on_error-forced :
    (s : RecallConsumer) (code : Text) → forced s code ≡ true → on_error s code ≡ (resynced s, true)
unfolding on_error
on_error-forced s code h = rw h refl

-- When `on_error` forces a resync, the next request starts at the head, every watched context has
-- been re-verified, no change of this authority counts as processed any more, and those of other
-- authorities count as before.
pub on_error_resync :
    (s s₁ : RecallConsumer) (code : Text)
    → on_error s code ≡ (s₁, true)
    → (s₁.cursor ≡ some (text "head"))
      × (s₁.reverified ≡ s.reverified ++ s.watched ∷ [])
      × ((seq : ℤ) → is_processed (s.registry_authority, seq) s₁.processed ≡ false)
      × ((key : Key)
          → key.0 ≢ s.registry_authority
          → is_processed key s₁.processed ≡ is_processed key s.processed)
on_error_resync s s₁ code e = elim (Bool-cases (forced s code)) [
  | inr quiet ↦ cc (e, on_error-quiet s code quiet)
  | inl resync ↦
      let left : s₁.processed ≡ drop_authority s.registry_authority s.processed =
        cc (e, on_error-forced s code resync) in
      (
        cc (e, on_error-forced s code resync),
        cc (e, on_error-forced s code resync),
        λ seq. rw left (own_dropped s.registry_authority seq s.processed),
        λ key apart. rw left (others_kept s.registry_authority key s.processed apart),
      )
]
