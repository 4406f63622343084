-- ===== src/Checkpoint/Boundary.antt =====
-- What a checkpoint knows of the records that it has observed, and what a resumed run suppresses.
use native.Mathlib.Nat.{add_assoc}
use chat_downloader_fork.Base.{
  ℕ, ◌+◌, ◌≡◌, refl, ap, sym, ◌∙◌, String, true, false, ◌&&◌, Option, none, some, List, [], ◌∷◌,
  ◌++◌, if◌then◌else◌, ◌==◌, string_Eq, int_Eq, ℤ, ◌≤ℤ◌, ◌<ℤ◌, ==_iff, ==_refl, arith, Bool-cases,
  inl, inr,
}
use chat_downloader_fork.Base.Json.{Json, null, Fields, end, field, get, has}
use chat_downloader_fork.Checkpoint.Events.{Events, count, increment, count-increment}
use chat_downloader_fork.Checkpoint.State.{Checkpoint, same_offset, event_identity, observe_event}
use chat_downloader_fork.Checkpoint.Remaining.{below, is_end_marker, resumable_offset, observe}

-- A replay's records: each can be resumed at, and the offsets never fall below `low` or fall.
abbrev pub Sorted : Option ℤ → List Fields → Type 0
Sorted low [] = Unit
Sorted low (x ∷ xs) =
    (o : ℤ) × (resumable_offset x ≡ some o) × (below o low ≡ false) × Sorted (some o) xs

-- No record comes after the offset.
abbrev pub Upto : ℤ → List Fields → Type 0
Upto last [] = Unit
Upto last (x ∷ xs) = ((o : ℤ) × (resumable_offset x ≡ some o) × (o ≤ℤ last)) × Upto last xs

missing-get : (k : String) (x : Fields) → has k x ≡ false → get k x ≡ null
missing-get k end h = refl
missing-get k (field j v rest) h = ground (arith, missing-get k rest)

-- A record that can be resumed at is no end marker.
pub resumable-ne-marker :
    (x : Fields) (o : ℤ) → resumable_offset x ≡ some o → is_end_marker x ≡ false
unfolding resumable_offset is_end_marker
resumable-ne-marker x o h = elim (Bool-cases (has "message_id" x)) [
  | inl there ↦ ground arith
  | inr gone ↦ absurd (ground (arith, missing-get "message_id" x gone))
]

module _ (digest : Json → Json → Json → String) where
  abbrev pub identity : Fields → String
  identity = event_identity digest

  -- How many of the records have this identity and this offset.
  unfoldable pub tally : String → ℤ → List Fields → ℕ
  tally k last [] = 0
  tally k last (x ∷ xs) =
      (if same_offset (resumable_offset x) (some last) && (identity x == k) then 1 else 0)
      + tally k last xs

  unfoldable pub observe_all : List Fields → Checkpoint → Checkpoint
  observe_all [] c = c
  observe_all (x ∷ xs) c = observe_all xs (observe digest x c)

  -- The offset of the last observed record, and how often each event was observed at it.
  pub record Boundary (c : Checkpoint) (before : Events) (o1 o : ℤ) (xs post : List Fields)
      : Type 0 where
    pub at : c.offset ≡ some o
    pub risen : o1 ≤ℤ o
    pub upto : Upto o xs
    pub later : Sorted (some o) post
    pub counts :
        (k : String) → count k c.events ≡ (if o1 == o then count k before else 0) + tally k o xs

  pub observe-same :
      (x : Fields) (c : Checkpoint) (o : ℤ)
      → resumable_offset x ≡ some o
      → c.offset ≡ some o
      → observe digest x c ≡ record c { events = increment (identity x) c.events }
  unfolding observe observe_event
  observe-same x c o h e = ground (arith, ==_refl o)

  pub observe-new :
      (x : Fields) (c : Checkpoint) (o : ℤ)
      → resumable_offset x ≡ some o
      → same_offset (some o) c.offset ≡ false
      → observe digest x c ≡ record c { offset = some o; events = increment (identity x) [] }
  unfolding observe observe_event
  observe-new x c o h e = ground arith

  pub observe-offset :
      (x : Fields) (c : Checkpoint) (o : ℤ)
      → resumable_offset x ≡ some o
      → (observe digest x c).offset ≡ some o
  unfolding observe observe_event
  observe-offset x c o h = elim (Bool-cases (same_offset (some o) c.offset)) [
    | inl same ↦
        let e = go c.offset refl same in
        ap (λ (d : Checkpoint). d.offset) (observe-same x c o h e) ∙ e
    | inr new ↦ ap (λ (d : Checkpoint). d.offset) (observe-new x c o h new)
  ]
    where
      go : (p : Option ℤ) → c.offset ≡ p → same_offset (some o) p ≡ true → c.offset ≡ some o
      go none e s = absurd (ground arith)
      go (some q) e s = e ∙ ap some (sym ((==_iff o q).0 s))

  -- How a record's own count enters.
  abbrev own : Fields → String → ℤ → ℕ
  own x k o = if same_offset (resumable_offset x) (some o) && (identity x == k) then 1 else 0

  counts-same :
      (x : Fields) (c : Checkpoint) (q o : ℤ) (k : String)
      → resumable_offset x ≡ some q
      → c.offset ≡ some q
      → (if q == o then count k (observe digest x c).events else 0)
        ≡ (if q == o then count k c.events else 0) + own x k o
  counts-same x c q o k is e =
      rw (observe-same x c q is e, is) (ground (arith, count-increment (identity x) k c.events))

  counts-new :
      (x : Fields) (c : Checkpoint) (o1 q o : ℤ) (k : String)
      → resumable_offset x ≡ some q
      → c.offset ≡ some o1
      → o1 <ℤ q
      → q ≤ℤ o
      → (if q == o then count k (observe digest x c).events else 0)
        ≡ (if o1 == o then count k c.events else 0) + own x k o
  counts-new x c o1 q o k is e lt le =
      let new : same_offset (some q) c.offset ≡ false = rw e (ground arith) in
      rw (observe-new x c q is new, is)
        (unfold count in ground (arith, count-increment (identity x) k []))

  counts-step :
      (x : Fields) (c : Checkpoint) (o1 q o : ℤ) (k : String)
      → resumable_offset x ≡ some q
      → c.offset ≡ some o1
      → o1 ≤ℤ q
      → q ≤ℤ o
      → (if q == o then count k (observe digest x c).events else 0)
        ≡ (if o1 == o then count k c.events else 0) + own x k o
  counts-step x c o1 q o k is e le le' = elim (Bool-cases (o1 == q)) [
    | inl same ↦
        let eq : o1 ≡ q = (==_iff o1 q).0 same in rw eq (counts-same x c q o k is (e ∙ ap some eq))
    | inr differ ↦ counts-new x c o1 q o k is e (ground (arith, differ)) le'
  ]

  pub Boundary-all :
      (xs post : List Fields) (c : Checkpoint) (o1 : ℤ)
      → c.offset ≡ some o1
      → Sorted (some o1) (xs ++ post)
      → (o : ℤ) × Boundary (observe_all xs c) c.events o1 o xs post
  unfolding observe_all tally
  Boundary-all [] post c o1 e s = (
    o1,
    record {
      at = e;
      risen = omega arith;
      upto = tt;
      later = s;
      counts = λ k. ground (arith, ==_refl o1);
    },
  )
  Boundary-all (x ∷ xs) post c o1 e (q, is, le, s) =
      let (o, b) = Boundary-all xs post (observe digest x c) q (observe-offset x c q is) s in
      let up : o1 ≤ℤ q = ground (arith, le) in
      (
        o,
        record {
          at = b.at;
          risen = omega (arith, b.risen);
          upto = ((q, is, b.risen), b.upto);
          later = b.later;
          counts = λ k.
              b.counts k
              ∙ ap (λ n. n + tally k o xs) (counts-step x c o1 q o k is e up b.risen)
              ∙ add_assoc _ _ _;
        },
      )
