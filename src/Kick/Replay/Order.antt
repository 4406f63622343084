-- ===== src/Kick/Replay/Order.antt =====
-- The output of a collected replay is in the order of time.
use chat_downloader_fork.Base.{
  ℕ, zero, suc, ◌+◌, ◌-◌, ◌≤◌, ◌≡◌, refl, ap, sym, ◌∙◌, String, true, false, Option, none, some,
  List, [], ◌∷◌, Bool, ℤ, pos, ◌≤ℤ◌, if◌then◌else◌, length, take, arith, Bool-cases, inl, inr,
}
use chat_downloader_fork.Base.Json.{Json, null, bool, int, real, text, arr, obj, Fields, get}
use chat_downloader_fork.Kick.Replay.State.{Source, Window}
use chat_downloader_fork.Kick.Replay.Emit.{timestamp_of, is_earlier, latest, is_spent, emit_from}

abbrev pub time_of : Fields → Option ℤ
time_of message = timestamp_of (get "timestamp" message)

-- No message is earlier than one with a time before it.
abbrev pub Chronological : Option ℤ → List Fields → Type 0
Chronological last [] = Unit
Chronological last (x ∷ xs) =
    (is_earlier (time_of x) last ≡ false) × Chronological (latest (time_of x) last) xs

abbrev pub WithinLimit : Option ℕ → ℕ → ℕ → Type 0
WithinLimit none emitted n = Unit
WithinLimit (some max_messages) emitted n = n ≤ max_messages - emitted

abbrev pub take_limit : Option ℕ → ℕ → List Fields → List Fields
take_limit none emitted xs = xs
take_limit (some max_messages) emitted xs = take (max_messages - emitted) xs

within_none : (o : Option ℕ) (emitted : ℕ) → WithinLimit o emitted 0
within_none none emitted = tt
within_none (some n) emitted = omega arith

within_more :
    (o : Option ℕ) (emitted n : ℕ)
    → is_spent o emitted ≡ false
    → WithinLimit o (emitted + 1) n
    → WithinLimit o emitted (suc n)
within_more none emitted n open_ w = tt
within_more (some m) emitted n open_ w = ground arith

take_limit-spent :
    (o : Option ℕ) (emitted : ℕ) (xs : List Fields)
    → is_spent o emitted ≡ true
    → take_limit o emitted xs ≡ []
take_limit-spent none emitted xs h = absurd (ground arith)
take_limit-spent (some m) emitted xs h = let z : m - emitted ≡ 0 = ground arith in rw z refl

take_limit-open :
    (o : Option ℕ) (emitted : ℕ) (x : Fields) (xs : List Fields)
    → is_spent o emitted ≡ false
    → take_limit o emitted (x ∷ xs) ≡ x ∷ take_limit o (emitted + 1) xs
take_limit-open none emitted x xs h = refl
take_limit-open (some m) emitted x xs h =
    let s : m - emitted ≡ suc (m - (emitted + 1)) = ground arith in rw s refl

take_limit-nil : (o : Option ℕ) (emitted : ℕ) → take_limit o emitted [] ≡ []
take_limit-nil none emitted = refl
take_limit-nil (some m) emitted = go (m - emitted)
  where
    go : (n : ℕ) → take {A = Fields} n [] ≡ []
    go zero = refl
    go (suc n) = refl

-- Two `timestamp` values in their order; a value that is no integer stands anywhere.
abbrev pub NotAfter : Json → Json → Type 0
NotAfter (int a) (int b) = a ≤ℤ b
NotAfter _ _ = Unit

abbrev pub AllNotBefore : Json → List Fields → Type 0
AllNotBefore stamp [] = Unit
AllNotBefore stamp (x ∷ xs) = NotAfter stamp (get "timestamp" x) × AllNotBefore stamp xs

-- No message has a smaller integer timestamp than any message before it.
abbrev pub InOrder : List Fields → Type 0
InOrder [] = Unit
InOrder (x ∷ xs) = AllNotBefore (get "timestamp" x) xs × InOrder xs

not_earlier : (a b : ℤ) (stamp : Json) → b ≤ℤ a → NotAfter (int a) stamp → NotAfter (int b) stamp
not_earlier a b (int c) le h = omega arith
not_earlier a b null le h = tt
not_earlier a b (bool x) le h = tt
not_earlier a b (real x) le h = tt
not_earlier a b (text x) le h = tt
not_earlier a b (arr x) le h = tt
not_earlier a b (obj x) le h = tt

AllNotBefore-le :
    (a b : ℤ) (xs : List Fields) → b ≤ℤ a → AllNotBefore (int a) xs → AllNotBefore (int b) xs
AllNotBefore-le a b [] le h = tt
AllNotBefore-le a b (x ∷ xs) le (h, more) =
    (not_earlier a b (get "timestamp" x) le h, AllNotBefore-le a b xs le more)

-- One message after the time `a`, by its timestamp.
after_time :
    (a : ℤ) (stamp : Json) (xs : List Fields)
    → is_earlier (timestamp_of stamp) (some a) ≡ false
    → ((b : ℤ) → latest (timestamp_of stamp) (some a) ≡ some b → AllNotBefore (int b) xs)
    → NotAfter (int a) stamp × AllNotBefore (int a) xs
after_time a (int b) xs h later =
    let le : a ≤ℤ b = ground arith in (le, AllNotBefore-le b a xs le (later b refl))
after_time a (bool true) xs h later =
    (tt, AllNotBefore-le (pos 1) a xs (ground arith) (later (pos 1) refl))
after_time a (bool false) xs h later =
    (tt, AllNotBefore-le (pos 0) a xs (ground arith) (later (pos 0) refl))
after_time a null xs h later = (tt, later a refl)
after_time a (real x) xs h later = (tt, later a refl)
after_time a (text x) xs h later = (tt, later a refl)
after_time a (arr x) xs h later = (tt, later a refl)
after_time a (obj x) xs h later = (tt, later a refl)

Chronological-AllNotBefore :
    (last : Option ℤ) (a : ℤ) (xs : List Fields)
    → last ≡ some a
    → Chronological last xs
    → AllNotBefore (int a) xs
Chronological-AllNotBefore last a [] e c = tt
Chronological-AllNotBefore last a (x ∷ xs) e (forth, c) =
    after_time a (get "timestamp" x) xs (rw e at forth) (λ b f.
      Chronological-AllNotBefore (latest (time_of x) last) b xs (ap (latest (time_of x)) e ∙ f) c)

anything_after :
    (stamp : Json) (xs : List Fields) → timestamp_of stamp ≡ none → AllNotBefore stamp xs
anything_after stamp [] e = tt
anything_after null (x ∷ xs) e = (tt, anything_after null xs e)
anything_after (bool b) (x ∷ xs) e = (tt, anything_after (bool b) xs e)
anything_after (int n) (x ∷ xs) e = absurd (ground arith)
anything_after (real r) (x ∷ xs) e = (tt, anything_after (real r) xs e)
anything_after (text t) (x ∷ xs) e = (tt, anything_after (text t) xs e)
anything_after (arr v) (x ∷ xs) e = (tt, anything_after (arr v) xs e)
anything_after (obj v) (x ∷ xs) e = (tt, anything_after (obj v) xs e)

after_first :
    (stamp : Json) (last : Option ℤ) (xs : List Fields)
    → Chronological (latest (timestamp_of stamp) last) xs
    → AllNotBefore stamp xs
after_first (int n) last xs c = Chronological-AllNotBefore (some n) n xs refl c
after_first null last xs c = anything_after null xs refl
after_first (bool b) last xs c = after_bool b xs
  where
    after_bool : (b : Bool) (xs : List Fields) → AllNotBefore (bool b) xs
    after_bool b [] = tt
    after_bool b (x ∷ xs) = (tt, after_bool b xs)
after_first (real r) last xs c = anything_after (real r) xs refl
after_first (text t) last xs c = anything_after (text t) xs refl
after_first (arr v) last xs c = anything_after (arr v) xs refl
after_first (obj v) last xs c = anything_after (obj v) xs refl

Chronological-InOrder : (last : Option ℤ) (xs : List Fields) → Chronological last xs → InOrder xs
Chronological-InOrder last [] c = tt
Chronological-InOrder last (x ∷ xs) (forth, c) = (
  after_first (get "timestamp" x) last xs c,
  Chronological-InOrder (latest (time_of x) last) xs c,
)

module _ (source : Source) (window : Window) where
  -- What is yielded passes the code's own comparison.
  emit_from-Chronological :
      (emitted : ℕ) (last : Option ℤ) (reason : String) (xs : List Fields)
      → Chronological last (emit_from source window emitted last reason xs).messages
        × WithinLimit window.max_messages emitted
            (length (emit_from source window emitted last reason xs).messages)
  unfolding emit_from
  emit_from-Chronological emitted last reason [] = (tt, within_none window.max_messages emitted)
  emit_from-Chronological emitted last reason (x ∷ xs) =
      let (ordered, few) =
        emit_from-Chronological (emitted + 1) (latest (time_of x) last)
          (if is_spent window.max_messages (emitted + 1) then "message_limit" else reason) xs in
      let nothing = within_none window.max_messages emitted in
      elim (Bool-cases (source.is_cancelled_output emitted)) [
        | inl cancelled ↦ rw (cancelled, emit_from) (tt, nothing)
        | inr on ↦ elim (Bool-cases (is_spent window.max_messages emitted)) [
          | inl spent ↦ rw (on, spent, emit_from) (tt, nothing)
          | inr open_ ↦ elim (Bool-cases (is_earlier (time_of x) last)) [
            | inl back ↦ rw (on, open_, back, emit_from) (tt, nothing)
            | inr forth ↦
                rw (on, open_, forth, emit_from)
                  ((forth, ordered), within_more window.max_messages emitted _ open_ few)
          ]
        ]
      ]

  -- No message that a replay yields has a smaller integer timestamp than any message before it,
  -- and the messages are at most as many as the message limit leaves.
  pub emit_from-InOrder :
      (emitted : ℕ) (last : Option ℤ) (reason : String) (xs : List Fields)
      → InOrder (emit_from source window emitted last reason xs).messages
        × WithinLimit window.max_messages emitted
            (length (emit_from source window emitted last reason xs).messages)
  emit_from-InOrder emitted last reason xs =
      let (ordered, few) = emit_from-Chronological emitted last reason xs in
      (Chronological-InOrder last _ ordered, few)

  -- Where nobody cancels and the collected messages are in chronological order, a replay yields
  -- exactly the first of them up to the message limit, and raises nothing.
  pub emit_from-take :
      (emitted : ℕ) (last : Option ℤ) (reason : String) (xs : List Fields)
      → ((n : ℕ) → source.is_cancelled_output n ≡ false)
      → Chronological last xs
      → ((emit_from source window emitted last reason xs).messages
          ≡ take_limit window.max_messages emitted xs)
        × ((emit_from source window emitted last reason xs).error ≡ none)
  unfolding emit_from
  emit_from-take emitted last reason [] on c =
      (sym (take_limit-nil window.max_messages emitted), refl)
  emit_from-take emitted last reason (x ∷ xs) on (forth, c) =
      let (whole, fine) =
        emit_from-take (emitted + 1) (latest (time_of x) last)
          (if is_spent window.max_messages (emitted + 1) then "message_limit" else reason) xs on
          c in
      elim (Bool-cases (is_spent window.max_messages emitted)) [
        | inl spent ↦
            rw (on emitted, spent, emit_from)
              (sym (take_limit-spent window.max_messages emitted (x ∷ xs) spent), refl)
        | inr open_ ↦
            rw (on emitted, open_, forth, emit_from)
              (
                ap (◌∷◌ x) whole ∙ sym (take_limit-open window.max_messages emitted x xs open_),
                fine,
              )
      ]
