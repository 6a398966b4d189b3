-- ===== src/Jcs/Chars.antt =====
-- The texts that `format_number` makes: never empty, and of the characters of numbers alone.
use acdp_verifier_py.Prelude.{
  ℕ, zero, suc, ◌+◌, ◌-◌, ◌/◌, ◌%◌, ◌≡◌, refl, sym, [], ◌∷◌, ◌++◌, map, reverse, Bool, true, false,
  ◌&&◌, ◌||◌, Text, text, partition, ltb, leb, ◌==◌, if◌then◌else◌, ℤ, pos, negsuc, length, take,
  drop, replicate, All, All-append, All-take, All-drop, arith, Bool-cases, Option-cases, inl, inr,
}
use mathlib.Core.List.{reverse_aux}
use acdp_verifier_py.Errors.{ok, ◌>>=◌, bind_inv}
use acdp_verifier_py.Jcs.Numbers.{
  is_number_char, IsNumberText, Doubles, decimal_onto, decimal, int_of_text, contains, lower_e,
  lstrip, rstrip, split_exponent, some_digits, strip_digits, shortest_digits, one_point, exp_str,
  exponential, format_digits, format_double, format_int,
}

abbrev pub IsFilled : Text → Type 0
IsFilled [] = ⊥
IsFilled (c ∷ cs) = Unit

-- Not empty, of number characters.
abbrev pub IsNumber : Text → Type 0
IsNumber t = IsFilled t × IsNumberText t

module _ {κ} (P : ℕ → Type κ) where
  All-reverse_aux : (xs ys : Text) → All P xs → All P ys → All P (reverse_aux xs ys)
  All-reverse_aux [] ys h k = k
  All-reverse_aux (x ∷ xs) ys h k = All-reverse_aux xs (x ∷ ys) h.1 (h.0, k)

  All-partition :
      (sep : ℕ) (cs : Text)
      → All P cs
      → All P (partition sep cs).before × All P (partition sep cs).after
  unfolding partition
  All-partition sep [] h = (tt, tt)
  All-partition sep (c ∷ cs) h = elim (Bool-cases (c == sep)) [
    | inl e ↦ rw e (tt, h.1)
    | inr e ↦ rw e (let rest = All-partition sep cs h.1 in ((h.0, rest.0), rest.1))
  ]

  All-lstrip : (cs : Text) → All P cs → All P (lstrip cs)
  unfolding lstrip
  All-lstrip [] h = tt
  All-lstrip (c ∷ cs) h = elim (Bool-cases (c == 48)) [
    | inl e ↦ rw e (All-lstrip cs h.1)
    | inr e ↦ rw e h
  ]

  All-rstrip : (cs : Text) → All P cs → All P (rstrip cs)
  unfolding rstrip
  All-rstrip cs h =
      let back = All-reverse_aux cs [] h tt in
      All-reverse_aux (lstrip (reverse cs)) [] (All-lstrip (reverse cs) back) tt

  All-replicate : (n : ℕ) (c : ℕ) → P c → All P (replicate n c)
  All-replicate zero c h = tt
  All-replicate (suc n) c h = (h, All-replicate n c h)

  -- The digits are among the characters of the number read.
  All-strip_digits :
      (before after : Text) (exp : ℤ) {digits : Text} {n : ℤ}
      → All P before
      → All P after
      → strip_digits before after exp ≡ ok (digits, n)
      → IsFilled digits × All P digits
  unfolding strip_digits some_digits
  All-strip_digits before after exp h k e =
      some_digits-All (rstrip (lstrip (before ++ after))) _
        (All-rstrip (lstrip (before ++ after))
          (All-lstrip (before ++ after) (All-append P before after h k)))
        e
    where
      some_digits-All :
          (ds : Text) (m : ℤ) {digits : Text} {n : ℤ}
          → All P ds
          → some_digits ds m ≡ ok (digits, n)
          → IsFilled digits × All P digits
      some_digits-All [] m all returned = cc
      some_digits-All (c ∷ cs) m {digits = digits} all returned =
          let same : (c ∷ cs) ≡ digits = cc (returned) in rw (sym same) (tt, all)

lower_e-number : (cs : Text) → IsNumberText cs → IsNumberText (map lower_e cs)
unfolding is_number_char lower_e
lower_e-number [] h = tt
lower_e-number (c ∷ cs) h = (lower_e-char c h.0, lower_e-number cs h.1)
  where
    lower_e-char : (c : ℕ) → is_number_char c ≡ true → is_number_char (lower_e c) ≡ true
    lower_e-char c h = ground arith

split_exponent-number :
    (cs : Text) {mantissa : Text} {exp : ℤ}
    → IsNumberText cs
    → split_exponent cs ≡ ok (mantissa, exp)
    → IsNumberText mantissa
unfolding split_exponent
split_exponent-number cs h e = branch (contains 101 cs || contains 69 cs) e
  where
    branch :
        (b : Bool) {mantissa : Text} {exp : ℤ}
        → (if b
            then (let parts = partition 101 (map lower_e cs) in
                int_of_text parts.after >>= λ x.
                (let pair : Text × ℤ = (parts.before, x) in ok pair))
            else (let whole : Text × ℤ = (cs, pos 0) in ok whole))
          ≡ ok (mantissa, exp)
        → IsNumberText mantissa
    branch true {mantissa = mantissa} r =
        let (x, made, read) = bind_inv _ (int_of_text (partition 101 (map lower_e cs)).after) r in
        let same : (partition 101 (map lower_e cs)).before ≡ mantissa = cc (made) in
        rw (sym same) (
          (All-partition (λ c. is_number_char c ≡ true) 101 (map lower_e cs)
            (lower_e-number cs h)).0)
    branch false {mantissa = mantissa} r = let same : cs ≡ mantissa = cc (r) in rw (sym same) h

shortest_digits-IsNumber :
    (cs : Text) {digits : Text} {n : ℤ}
    → IsNumberText cs
    → shortest_digits cs ≡ ok (digits, n)
    → IsNumber digits
unfolding shortest_digits
shortest_digits-IsNumber cs h e =
    let ((mantissa, exp), stripped, splits) = bind_inv _ (split_exponent cs) e in
    let parts =
      All-partition (λ c. is_number_char c ≡ true) 46 mantissa
        (split_exponent-number cs h splits) in
    All-strip_digits (λ c. is_number_char c ≡ true) _ _ exp parts.0 parts.1 stripped

decimal_onto-number :
    (f n : ℕ) (rest : Text) → IsNumberText rest → IsNumberText (decimal_onto f n rest)
unfolding decimal_onto is_number_char
decimal_onto-number zero n rest h = h
decimal_onto-number (suc f) n rest h = elim (Bool-cases (ltb n 10)) [
  | inl lt ↦ rw lt (ground (arith, lt), h)
  | inr ge ↦ rw ge (decimal_onto-number f (n / 10) ((48 + n % 10) ∷ rest) (ground arith, h))
]

pub decimal-number : (n : ℕ) → IsNumberText (decimal n)
unfolding decimal
decimal-number n = decimal_onto-number (suc n) n [] tt

exponential-IsNumber :
    (digits : Text) (exponent : ℤ) → IsNumber digits → IsNumber (exponential digits exponent)
unfolding exponential one_point exp_str is_number_char
exponential-IsNumber [] exponent h = absurd h.0
exponential-IsNumber (d ∷ []) (pos e) h = (tt, (h.1.0, (refl, (refl, decimal-number e))))
exponential-IsNumber (d ∷ []) (negsuc e) h = (tt, (h.1.0, (refl, (refl, decimal-number (suc e)))))
exponential-IsNumber (d ∷ c ∷ ds) (pos e) h = (
  tt,
  (
    h.1.0,
    (refl, (h.1.1.0, All-append _ ds (exp_str (pos e)) h.1.1.1 (refl, (refl, decimal-number e)))),
  ),
)
exponential-IsNumber (d ∷ c ∷ ds) (negsuc e) h = (
  tt,
  (
    h.1.0,
    (
      refl,
      (
        h.1.1.0,
        All-append _ ds (exp_str (negsuc e)) h.1.1.1 (refl, (refl, decimal-number (suc e))),
      ),
    ),
  ),
)

append-IsFilled : (s t : Text) → IsFilled s → IsFilled (s ++ t)
append-IsFilled [] t h = absurd h
append-IsFilled (c ∷ s) t h = tt

append_cons-IsFilled : (s : Text) (c : ℕ) (t : Text) → IsFilled (s ++ (c ∷ t))
append_cons-IsFilled [] c t = tt
append_cons-IsFilled (d ∷ s) c t = tt

format_digits-IsNumber :
    (digits : Text) (n : ℤ) → IsNumber digits → IsNumber (format_digits digits n)
unfolding format_digits is_number_char
format_digits-IsNumber digits (pos n) h = elim (Bool-cases (leb (length digits) n && leb n 21)) [
  | inl e ↦ rw e (
    append-IsFilled digits (replicate (n - length digits) 48) h.0,
    All-append _ digits (replicate (n - length digits) 48) h.1
        (All-replicate _ (n - length digits) 48 refl),
  )
  | inr e ↦ rw e (elim (Bool-cases (ltb 0 n && leb n 21)) [
    | inl f ↦ rw f (
      append_cons-IsFilled (take n digits) 46 (drop n digits),
      All-append _ (take n digits) (46 ∷ drop n digits) (All-take _ n digits h.1)
          (refl, All-drop _ n digits h.1),
    )
    | inr f ↦ rw f (elim (Bool-cases (n == 0)) [
      | inl z ↦ rw z (tt, (refl, (refl, h.1)))
      | inr z ↦ rw z (exponential-IsNumber digits (pos (n - 1)) h)
    ])
  ])
]
format_digits-IsNumber digits (negsuc m) h = elim (Bool-cases (ltb (suc m) 6)) [
  | inl e ↦ rw e (
    tt,
    (
      refl,
      (refl, All-append _ (replicate (suc m) 48) digits (All-replicate _ (suc m) 48 refl) h.1),
    ),
  )
  | inr e ↦ rw e (exponential-IsNumber digits (negsuc (suc m)) h)
]

module _ ⦃d : Doubles⦄ where
  pub format_double-IsNumber : (x : ℕ) (t : Text) → format_double x ≡ ok t → IsNumber t
  unfolding format_double is_number_char
  format_double-IsNumber x t e = elim (Bool-cases (d.is_finite x)) [
    | inl finite ↦ elim (Bool-cases (d.is_zero x)) [
      | inl zeroed ↦
          let same : text "0" ≡ t = cc (rw zeroed at (rw finite at e)) in
          rw (sym same) (tt, (refl, tt))
      | inr nonzero ↦ signed (d.is_negative x) finite (rw nonzero at (rw finite at e))
    ]
    | inr infinite ↦ cc (rw infinite at e)
  ]
    where
      signed :
          (b : Bool)
          → d.is_finite x ≡ true
          → (shortest_digits (d.repr (if b then d.negate x else x)) >>= λ p.
              ok (if b then 45 ∷ format_digits p.0 p.1 else format_digits p.0 p.1))
            ≡ ok t
          → IsNumber t
      signed true finite r =
          let ((digits, n), made, short) = bind_inv _ (shortest_digits (d.repr (d.negate x))) r in
          let all =
            shortest_digits-IsNumber _ (d.repr-IsNumberText (d.negate x) (d.negate-finite x finite))
              short in
          let same : 45 ∷ format_digits digits n ≡ t = cc (made) in
          rw (sym same) (tt, (refl, (format_digits-IsNumber digits n all).1))
      signed false finite r =
          let ((digits, n), made, short) = bind_inv _ (shortest_digits (d.repr x)) r in
          let all = shortest_digits-IsNumber _ (d.repr-IsNumberText x finite) short in
          let same : format_digits digits n ≡ t = cc (made) in
          rw (sym same) (format_digits-IsNumber digits n all)

  pub format_int-IsNumber : (n : ℤ) (t : Text) → format_int n ≡ ok t → IsNumber t
  unfolding format_int
  format_int-IsNumber n t e = elim (Option-cases (d.of_int n)) [
    | inl large ↦ cc (rw (large, format_int) at e)
    | inr (x, fits) ↦ format_double-IsNumber x t (rw (fits, format_int) at e)
  ]
