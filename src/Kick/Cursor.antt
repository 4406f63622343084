-- ===== src/Kick/Cursor.antt =====
-- The comparison of two pagination cursors in src/chat_downloader/sites/kick/history.py: decimal
-- texts are compared without making numbers of them. A text is the list of its digits.
use chat_downloader_fork.Base.{
  ℕ, ◌+◌, ◌*◌, ◌≤◌, ◌<◌, ◌≡◌, refl, ap, ◌∙◌, Bool, true, false, List, [], ◌∷◌, ltb, leb,
  if◌then◌else◌, ◌==◌, nat_Eq, length, arith, Bool-cases, inl, inr, ==_iff,
}

-- `value.lstrip("0")`
unfoldable pub strip_zeros : List ℕ → List ℕ
strip_zeros [] = []
strip_zeros (d ∷ ds) = if d == 0 then strip_zeros ds else d ∷ ds

-- `a <= b`, on texts
unfoldable pub text_leb : List ℕ → List ℕ → Bool
text_leb [] b = true
text_leb (x ∷ a) [] = false
text_leb (x ∷ a) (y ∷ b) = let rest = text_leb a b in if x == y then rest else ltb x y

-- `(len(next_value), next_value) >= (len(current_value), current_value)`
unfoldable pub is_not_earlier : List ℕ → List ℕ → Bool
unfolding text_leb strip_zeros
is_not_earlier next_cursor current =
    let next_value = strip_zeros next_cursor in
    let current_value = strip_zeros current in
    if length current_value == length next_value
    then text_leb current_value next_value
    else ltb (length current_value) (length next_value)

-- The number that the digits stand for.
unfoldable pub scale : List ℕ → ℕ
scale [] = 1
scale (d ∷ ds) = 10 * scale ds

unfoldable pub value_of : List ℕ → ℕ
unfolding scale
value_of [] = 0
value_of (d ∷ ds) = d * scale ds + value_of ds

abbrev pub AllDigits : List ℕ → Type 0
AllDigits [] = Unit
AllDigits (d ∷ ds) = (d < 10) × AllDigits ds

digit_step : (d e s : ℕ) → d < e → d * s + s ≤ e * s
digit_step d e s h = grind arith

value_of-lt-scale : (ds : List ℕ) → AllDigits ds → value_of ds < scale ds
unfolding value_of scale
value_of-lt-scale [] a = omega arith
value_of-lt-scale (d ∷ ds) (lt, a) =
    omega (arith, value_of-lt-scale ds a, digit_step d 10 (scale ds) lt)

scale-eq : (a b : List ℕ) → length a ≡ length b → scale a ≡ scale b
unfolding scale
scale-eq [] [] h = refl
scale-eq [] (y ∷ b) h = absurd (omega arith)
scale-eq (x ∷ a) [] h = absurd (omega arith)
scale-eq (x ∷ a) (y ∷ b) h = ap (λ n. 10 * n) (scale-eq a b (omega arith))

scale-le : (a b : List ℕ) → length a ≤ length b → scale a ≤ scale b
unfolding scale
scale-le [] [] h = omega arith
scale-le [] (y ∷ b) h = omega (arith, scale-le [] b (omega arith))
scale-le (x ∷ a) [] h = absurd (omega arith)
scale-le (x ∷ a) (y ∷ b) h = omega (arith, scale-le a b (omega arith))

value_of-strip : (ds : List ℕ) → value_of (strip_zeros ds) ≡ value_of ds
unfolding value_of strip_zeros
value_of-strip [] = refl
value_of-strip (d ∷ ds) = elim (Bool-cases (d == 0)) [
  | inl zeros ↦ rw (zeros, strip_zeros) (zero_head d ds ((==_iff d 0).0 zeros) (value_of-strip ds))
  | inr other ↦ rw (other, strip_zeros) refl
]
  where
    zero_head :
        (d : ℕ) (ds : List ℕ)
        → d ≡ 0
        → value_of (strip_zeros ds) ≡ value_of ds
        → value_of (strip_zeros ds) ≡ d * scale ds + value_of ds
    zero_head d ds e ih = rw e (omega (arith, ih))

AllDigits-strip : (ds : List ℕ) → AllDigits ds → AllDigits (strip_zeros ds)
unfolding strip_zeros
AllDigits-strip [] a = tt
AllDigits-strip (d ∷ ds) (lt, a) = elim (Bool-cases (d == 0)) [
  | inl zeros ↦ rw (zeros, strip_zeros) (AllDigits-strip ds a)
  | inr other ↦ rw (other, strip_zeros) (lt, a)
]

-- No leading zero.
abbrev Leads : List ℕ → Type 0
Leads [] = Unit
Leads (d ∷ ds) = 0 < d

strip-Leads : (ds : List ℕ) → Leads (strip_zeros ds)
unfolding strip_zeros
strip-Leads [] = tt
strip-Leads (d ∷ ds) = elim (Bool-cases (d == 0)) [
  | inl zeros ↦ rw (zeros, strip_zeros) (strip-Leads ds)
  | inr other ↦ rw (other, strip_zeros) (ground (arith, ==_iff d 0, other))
]

-- Texts of one length are ordered as their numbers.
text_leb-value :
    (a b : List ℕ)
    → AllDigits a
    → AllDigits b
    → length a ≡ length b
    → text_leb a b ≡ leb (value_of a) (value_of b)
unfolding text_leb value_of
text_leb-value [] [] p q h = refl
text_leb-value [] (y ∷ b) p q h = absurd (omega arith)
text_leb-value (x ∷ a) [] p q h = absurd (omega arith)
text_leb-value (x ∷ a) (y ∷ b) (lt, p) (lt', q) h =
    let same : scale a ≡ scale b = scale-eq a b (omega arith) in
    let ih = text_leb-value a b p q (omega arith) in
    elim (Bool-cases (x == y)) [
      | inl equal ↦
          let e : x ≡ y = (==_iff x y).0 equal in
          let products : x * scale a ≡ y * scale b = rw (e, same) refl in
          rw (equal, text_leb) (ih ∙ ground (arith, products))
      | inr differ ↦ elim (Bool-cases (ltb x y)) [
        | inl less ↦
            let step = digit_step x y (scale b) (ground arith) in
            let product : x * scale a ≡ x * scale b = rw same refl in
            rw (differ, less, text_leb)
              (ground (arith, product, step, same, value_of-lt-scale a p, value_of-lt-scale b q))
        | inr more ↦
            let step = digit_step y x (scale b) (ground (arith, differ, more, ==_iff x y)) in
            let product : x * scale a ≡ x * scale b = rw same refl in
            rw (differ, more, text_leb)
              (ground (arith, product, step, same, value_of-lt-scale a p, value_of-lt-scale b q))
      ]
    ]

-- A longer text with no leading zero is a greater number.
value_of-lt_length :
    (a b : List ℕ) → AllDigits a → Leads b → length a < length b → value_of a < value_of b
unfolding value_of
value_of-lt_length a [] p lead h = absurd (omega arith)
value_of-lt_length a (y ∷ b) p lead h =
    omega (arith, value_of-lt-scale a p, scale-le a b (omega arith), digit_step 0 y (scale b) lead)

-- For two texts of digits, the comparison of their lengths and texts without leading zeros is
-- the comparison of the numbers that they stand for.
pub is_not_earlier-value :
    (next_cursor current : List ℕ)
    → AllDigits next_cursor
    → AllDigits current
    → is_not_earlier next_cursor current ≡ leb (value_of current) (value_of next_cursor)
unfolding is_not_earlier
is_not_earlier-value next_cursor current p q =
    let a = strip_zeros current in
    let b = strip_zeros next_cursor in
    let p' = AllDigits-strip next_cursor p in
    let q' = AllDigits-strip current q in
    let va = value_of-strip current in
    let vb = value_of-strip next_cursor in
    elim (Bool-cases (length a == length b)) [
      | inl same ↦
          rw (same, is_not_earlier)
            (text_leb-value a b q' p' ((==_iff (length a) (length b)).0 same)
              ∙ ap (λ n. leb n (value_of b)) va
              ∙ ap (λ n. leb (value_of current) n) vb)
      | inr differ ↦ elim (Bool-cases (ltb (length a) (length b))) [
        | inl shorter ↦
            rw (differ, shorter, is_not_earlier)
              (ground
                (arith, va, vb, value_of-lt_length a b q' (strip-Leads next_cursor) (ground arith)))
        | inr longer ↦
            let less : length b < length a = ground (arith, ==_iff (length a) (length b)) in
            rw (differ, longer, is_not_earlier)
              (ground (arith, va, vb, value_of-lt_length b a p' (strip-Leads current) less))
      ]
    ]
