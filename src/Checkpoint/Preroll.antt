-- ===== src/Checkpoint/Preroll.antt =====
-- What `ordered_initial_preroll` does to the opening of a replay.
use chat_downloader_fork.Base.{
  ℕ, zero, suc, ◌||◌, if◌then◌else◌, ◌==◌, int_Eq, pos, negsuc, ltb_ℤ, none, some, ◌+◌, ◌≤◌, ◌≡◌,
  refl, ap, ◌∙◌, sym, Bool, true, false, List, [], ◌∷◌, ◌++◌, length, leb, Bool-cases, inl, inr,
  arith, append-nil, append_assoc, length-append,
}
use chat_downloader_fork.Base.Json.{
  Json, null, bool, int, real, text, arr, obj, finite, not_finite, Fields, get,
}
use chat_downloader_fork.Checkpoint.Stream.{
  Stream, done, fail, item, yield_all, Opening, zero_offset, negative, ending, opening, offset_of,
  preroll_from, ordered_initial_preroll,
}

abbrev is_early : Opening → Bool
is_early zero_offset = true
is_early negative = true
is_early ending = false

abbrev AllOpening : List Fields → Type 0
AllOpening [] = Unit
AllOpening (x ∷ xs) = (is_early (opening x) ≡ true) × AllOpening xs

-- The opening's items at the offset 0, and those before it, in their order.
abbrev keep_zero : Opening → Fields → List Fields → List Fields
keep_zero zero_offset x xs = x ∷ xs
keep_zero _ x xs = xs

abbrev keep_negative : Opening → Fields → List Fields → List Fields
keep_negative negative x xs = x ∷ xs
keep_negative _ x xs = xs

zero_items : List Fields → List Fields
zero_items [] = []
zero_items (x ∷ xs) = keep_zero (opening x) x (zero_items xs)

negative_items : List Fields → List Fields
negative_items [] = []
negative_items (x ∷ xs) = keep_negative (opening x) x (negative_items xs)

-- The opening ends here: with the source, or with an item of another kind.
abbrev Closes : Stream → Type 0
Closes done = Unit
Closes (fail e) = ⊥
Closes (item x rest) = opening x ≡ ending

yield-append :
    (xs ys : List Fields) (s : Stream) → yield_all (xs ++ ys) s ≡ yield_all xs (yield_all ys s)
yield-append [] ys s = refl
yield-append (x ∷ xs) ys s = ap (item x) (yield-append xs ys s)

preroll_from-end :
    (limit : ℕ) (kept : List Fields) (rest : Stream)
    → Closes rest
    → preroll_from limit kept rest ≡ yield_all kept rest
unfolding preroll_from
preroll_from-end limit kept done e = refl
preroll_from-end limit kept (fail error) e = elim e [ ]
preroll_from-end limit kept (item x rest) e = rw (e, preroll_from) refl

preroll_from-partition :
    (limit : ℕ) (kept xs : List Fields) (rest : Stream)
    → AllOpening xs
    → Closes rest
    → length kept + length (zero_items xs) ≤ limit
    → preroll_from limit kept (yield_all xs rest)
      ≡ yield_all (negative_items xs) (yield_all (kept ++ zero_items xs) rest)
unfolding preroll_from zero_items negative_items
preroll_from-partition limit kept [] rest early e room =
    preroll_from-end limit kept rest e ∙ ap (λ l. yield_all l rest) (sym (append-nil kept))
preroll_from-partition limit kept (x ∷ xs) rest (is, early) e room =
    go (λ k r. preroll_from-partition limit k xs rest early e r) (opening x) refl
  where
    go :
        ((k : List Fields)
          → length k + length (zero_items xs) ≤ limit
          → preroll_from limit k (yield_all xs rest)
            ≡ yield_all (negative_items xs) (yield_all (k ++ zero_items xs) rest))
        → (o : Opening) → opening x ≡ o
        → preroll_from limit kept (yield_all (x ∷ xs) rest)
          ≡ yield_all (negative_items (x ∷ xs)) (yield_all (kept ++ zero_items (x ∷ xs)) rest)
    go later ending o = absurd (ground (arith, o))
    go later negative o = rw (o, preroll_from) (ap (item x) (later kept (rw o at room)))
    go later zero_offset o =
        let fits : length kept + suc (length (zero_items xs)) ≤ limit = rw o at room in
        let open_ : leb limit (length kept) ≡ false = ground (arith, fits) in
        let more : length (kept ++ x ∷ []) + length (zero_items xs) ≤ limit =
          omega (arith, length-append kept (x ∷ []), fits) in
        rw (o, open_, preroll_from)
          (later (kept ++ x ∷ []) more
            ∙ ap (λ l. yield_all (negative_items xs) (yield_all l rest))
                (append_assoc kept (x ∷ []) (zero_items xs)))

-- A number at 0, or before it: of an item's `time_in_seconds`.
abbrev pub is_zero : Json → Bool
is_zero (int (pos zero)) = true
is_zero (real (finite (pos zero))) = true
is_zero _ = false

abbrev pub is_negative : Json → Bool
is_negative (int (negsuc n)) = true
is_negative (real (finite (negsuc n))) = true
is_negative _ = false

abbrev pub time_of : Fields → Json
time_of x = get "time_in_seconds" x

abbrev pub AllEarly : List Fields → Type 0
AllEarly [] = Unit
AllEarly (x ∷ xs) = ((is_zero (time_of x) || is_negative (time_of x)) ≡ true) × AllEarly xs

-- The items with such a time, in their order
abbrev pub zeros : List Fields → List Fields
zeros [] = []
zeros (x ∷ xs) = if is_zero (time_of x) then x ∷ zeros xs else zeros xs

abbrev pub negatives : List Fields → List Fields
negatives [] = []
negatives (x ∷ xs) = if is_negative (time_of x) then x ∷ negatives xs else negatives xs

-- The opening ends here: with the source, or with an item of another kind.
abbrev pub Ends : Stream → Type 0
Ends done = Unit
Ends (fail e) = ⊥
Ends (item x rest) = (is_zero (time_of x) || is_negative (time_of x)) ≡ false

opening_at : Json → Opening
opening_at time = elim (offset_of time) [
  | none ↦ ending
  | some offset ↦
      if offset == pos 0 then zero_offset else if ltb_ℤ offset (pos 0) then negative else ending
]

-- The code's classification is that of the times.
class_of : Json → Opening
class_of time = if is_zero time then zero_offset else if is_negative time then negative else ending

opening_at-class_of : (time : Json) → opening_at time ≡ class_of time
unfolding opening_at class_of offset_of
opening_at-class_of null = refl
opening_at-class_of (bool b) = refl
opening_at-class_of (text s) = refl
opening_at-class_of (arr v) = refl
opening_at-class_of (obj v) = refl
opening_at-class_of (real not_finite) = refl
opening_at-class_of (real (finite (pos zero))) = refl
opening_at-class_of (real (finite (pos (suc n)))) = ground arith
opening_at-class_of (real (finite (negsuc n))) = ground arith
opening_at-class_of (int (pos zero)) = refl
opening_at-class_of (int (pos (suc n))) = ground arith
opening_at-class_of (int (negsuc n)) = ground arith

opening-class_of : (x : Fields) → opening x ≡ class_of (time_of x)
unfolding opening opening_at
opening-class_of x = opening_at-class_of (time_of x)

zero_items-zeros : (xs : List Fields) → zero_items xs ≡ zeros xs
unfolding zero_items class_of
zero_items-zeros [] = refl
zero_items-zeros (x ∷ xs) = ground (arith, opening-class_of x, zero_items-zeros xs)

zero-ne-negative : (time : Json) → is_zero time ≡ true → is_negative time ≡ false
zero-ne-negative (int (pos n)) z = refl
zero-ne-negative (real (finite (pos n))) z = refl
zero-ne-negative (int (negsuc n)) z = absurd (ground (arith, z))
zero-ne-negative (real (finite (negsuc n))) z = absurd (ground (arith, z))
zero-ne-negative (real not_finite) z = refl
zero-ne-negative null z = refl
zero-ne-negative (bool b) z = refl
zero-ne-negative (text s) z = refl
zero-ne-negative (arr v) z = refl
zero-ne-negative (obj v) z = refl

negative_items-negatives : (xs : List Fields) → negative_items xs ≡ negatives xs
unfolding negative_items class_of
negative_items-negatives [] = refl
negative_items-negatives (x ∷ xs) = elim (Bool-cases (is_zero (time_of x))) [
  | inl z ↦
      ground
        (arith, opening-class_of x, negative_items-negatives xs, zero-ne-negative (time_of x) z)
  | inr n ↦ ground (arith, opening-class_of x, negative_items-negatives xs)
]

AllEarly-AllOpening : (xs : List Fields) → AllEarly xs → AllOpening xs
AllEarly-AllOpening [] h = tt
AllEarly-AllOpening (x ∷ xs) (e, h) =
    (unfold class_of in ground (arith, opening-class_of x, e), AllEarly-AllOpening xs h)

Ends-Closes : (s : Stream) → Ends s → Closes s
Ends-Closes done e = tt
Ends-Closes (fail error) e = e
Ends-Closes (item x rest) e = unfold class_of in ground (arith, opening-class_of x, e)

-- If a source opens with items at offsets up to 0, at most `limit` of them at 0, and then ends
-- or goes on with an item of another kind, then those before 0 come first, those at 0 after
-- them, both in their order, and the rest is as it was.
pub ordered_initial_preroll-partition :
    (limit : ℕ) (xs : List Fields) (rest : Stream)
    → AllEarly xs
    → Ends rest
    → length (zeros xs) ≤ limit
    → ordered_initial_preroll limit (yield_all xs rest)
      ≡ yield_all (negatives xs) (yield_all (zeros xs) rest)
unfolding ordered_initial_preroll
ordered_initial_preroll-partition limit xs rest early e room =
    let fits : length (zero_items xs) ≤ limit = rw (zero_items-zeros xs) room in
    preroll_from-partition limit [] xs rest (AllEarly-AllOpening xs early) (Ends-Closes rest e)
      (omega (arith, fits))
    ∙ ap (λ l. yield_all l (yield_all (zero_items xs) rest)) (negative_items-negatives xs)
    ∙ ap (λ l. yield_all (negatives xs) (yield_all l rest)) (zero_items-zeros xs)
