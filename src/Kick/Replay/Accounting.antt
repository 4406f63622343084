-- ===== src/Kick/Replay/Accounting.antt =====
-- Every record of a replay is accounted for by exactly one counter.
use mathlib.Core.Path.{subst}
use chat_downloader_fork.Base.{
  ℕ, zero, suc, ◌+◌, ◌-◌, ◌≤◌, ◌≡◌, refl, ◌∙◌, String, Bool, true, false, not, ◌||◌, Option, none,
  some, List, [], ◌∷◌, ◌++◌, ℤ, ltb_ℤ, string_Eq, length, length-append, contains, arith,
  Bool-cases, Option-cases, inl, inr,
}
use chat_downloader_fork.Base.Json.{Json, null, bool, int, real, text, arr, obj, Fields}
use chat_downloader_fork.Base.Result.{Result, ok, raise}
use chat_downloader_fork.Kick.Pages.{Page}
use chat_downloader_fork.Kick.Replay.State.{
  Counts, Source, Window, Classified, created_at, parse_record, classify_time, classify_message,
}
use chat_downloader_fork.Kick.Replay.Collect.{
  Collection, Step, more, complete, cancelled, failed, objects, Selecting, is_filled, insert_latest,
  sort_latest, keep_new, keep_message, keep_parsed, keep_classified, select_records, store_page,
  read_records, read_page, moves_forward, receive, fetch, was_requested, add_cursor, step, collect,
  begin_collection,
}

-- The records that have been dropped, and all that are accounted for.
abbrev pub dropped : Counts → ℕ
dropped c = c.skipped_records + c.filtered_records + c.duplicate_records

abbrev pub accounted : Counts → ℕ
accounted c = dropped c + c.selected_records

-- The counters that a classification leaves alone.
record SameTallies (c d : Counts) : Type 0 where
  raw : d.raw_records ≡ c.raw_records
  drops : dropped d ≡ dropped c
  selected : d.selected_records ≡ c.selected_records

abbrev counts_of : Result Classified → Counts → Counts
counts_of (ok c) counts = c.counts
counts_of (raise e) counts = counts

module _ (source : Source) (window : Window) where
  parse-SameTallies :
      (raw : Fields) (counts : Counts) (r : Result Fields)
      → SameTallies counts (counts_of (parse_record source window raw counts r) counts)
  parse-SameTallies raw counts (ok message) = record { raw = refl; drops = refl; selected = refl }
  parse-SameTallies raw counts (raise e) = record {
    raw = ground arith;
    drops = ground arith;
    selected = ground arith;
  }

  time-SameTallies :
      (raw : Fields) (counts : Counts) (o : Option ℤ)
      → SameTallies counts (counts_of (classify_time source window raw counts o) counts)
  unfolding classify_time
  time-SameTallies raw counts none = record { raw = refl; drops = refl; selected = refl }
  time-SameTallies raw counts (some time) = elim (Bool-cases (ltb_ℤ time window.start)) [
    | inl before ↦ rw (before, classify_time) (record { raw = refl; drops = refl; selected = refl })
    | inr on ↦ elim (Bool-cases (ltb_ℤ window.stop time)) [
      | inl after ↦
          rw (on, after, classify_time) (record { raw = refl; drops = refl; selected = refl })
      | inr here ↦ rw (on, here, classify_time) (parse-SameTallies raw counts (source.parse raw))
    ]
  ]

  classify-SameTallies :
      (raw : Fields) (counts : Counts)
      → SameTallies counts (counts_of (classify_message source window raw counts) counts)
  unfolding classify_message
  classify-SameTallies raw counts = go (created_at raw) refl
    where
      go :
          (v : Json)
          → created_at raw ≡ v
          → SameTallies counts (counts_of (classify_message source window raw counts) counts)
      go (text s) e = rw (e, classify_message) (time-SameTallies raw counts (source.iso s))
      go null e = rw (e, classify_message) (time-SameTallies raw counts none)
      go (bool b) e = rw (e, classify_message) (time-SameTallies raw counts none)
      go (int n) e = rw (e, classify_message) (time-SameTallies raw counts none)
      go (real x) e = rw (e, classify_message) (time-SameTallies raw counts none)
      go (arr xs) e = rw (e, classify_message) (time-SameTallies raw counts none)
      go (obj fs) e = rw (e, classify_message) (time-SameTallies raw counts none)

  -- The loop over a page's records has dealt with `n` of them.
  record Dealt (n : ℕ) (before after : Selecting) : Type 0 where
    raw : after.counts.raw_records ≡ before.counts.raw_records
    selected : after.counts.selected_records ≡ before.counts.selected_records
    total :
        dropped after.counts + length after.messages
        ≡ dropped before.counts + length before.messages + n

  message-Dealt :
      (s : Selecting) (message : Fields)
      → (keep_message source window s message).1 ≡ none
      → Dealt 1 s (keep_message source window s message).0
  unfolding keep_message keep_new
  message-Dealt s message h = record {
    raw = ground arith;
    selected = ground arith;
    total = ground (arith, length-append s.messages (message ∷ []));
  }

  parsed-Dealt :
      (s : Selecting) (o : Option Fields)
      → (keep_parsed source window s o).1 ≡ none
      → Dealt 1 s (keep_parsed source window s o).0
  unfolding keep_parsed
  parsed-Dealt s none h = record { raw = refl; selected = refl; total = omega arith }
  parsed-Dealt s (some message) h = message-Dealt s message h

  classified-Dealt :
      (s : Selecting) (r : Result Classified)
      → SameTallies s.counts (counts_of r s.counts)
      → (keep_classified source window s r).1 ≡ none
      → Dealt 1 s (keep_classified source window s r).0
  classified-Dealt s (raise e) same h = absurd (ground arith)
  classified-Dealt s (ok c) same h =
      let d =
        parsed-Dealt (record s { counts = c.counts; done = s.done || c.is_done }) c.parsed h in
      record {
        raw = d.raw ∙ same.raw;
        selected = d.selected ∙ same.selected;
        total = omega (arith, d.total, same.drops);
      }

  select-Dealt :
      (s : Selecting) (xs : List Fields)
      → (select_records source window s xs).1 ≡ none
      → Dealt (length xs) s (select_records source window s xs).0
  unfolding select_records
  select-Dealt s [] h = record { raw = refl; selected = refl; total = omega arith }
  select-Dealt s (x ∷ xs) h =
      let first = keep_classified source window s (classify_message source window x s.counts) in
      elim (Option-cases first.1) [
        | inl fine ↦
            let d =
              classified-Dealt s (classify_message source window x s.counts)
                (classify-SameTallies x s.counts) fine in
            let rest : (select_records source window first.0 xs).1 ≡ none =
              rw (fine, select_records) at h in
            let d' = select-Dealt first.0 xs rest in
            rw (fine, select_records)
              (record {
                raw = d'.raw ∙ d.raw;
                selected = d'.selected ∙ d.selected;
                total = omega (arith, d.total, d'.total);
              })
        | inr (e, bad) ↦ absurd (ground (arith, bad))
      ]

  length-insert :
      (x : Fields) (xs : List Fields) → length (insert_latest source window x xs) ≡ suc (length xs)
  length-insert x [] = refl
  length-insert x (y ∷ xs) = ground (arith, length-insert x xs)

  length-sort :
      (sorted xs : List Fields)
      → length (sort_latest source window sorted xs) ≡ length sorted + length xs
  unfolding sort_latest
  length-sort sorted [] = omega arith
  length-sort sorted (x ∷ xs) =
      omega (arith, length-sort (insert_latest source window x sorted) xs, length-insert x sorted)

  length-objects-le : (xs : List Json) → length (objects xs) ≤ length xs
  unfolding objects
  length-objects-le [] = omega arith
  length-objects-le (obj raw ∷ rest) = omega (arith, length-objects-le rest)
  length-objects-le (null ∷ rest) = omega (arith, length-objects-le rest)
  length-objects-le (bool b ∷ rest) = omega (arith, length-objects-le rest)
  length-objects-le (int n ∷ rest) = omega (arith, length-objects-le rest)
  length-objects-le (real x ∷ rest) = omega (arith, length-objects-le rest)
  length-objects-le (text s ∷ rest) = omega (arith, length-objects-le rest)
  length-objects-le (arr xs ∷ rest) = omega (arith, length-objects-le rest)

  abbrev pub total_length : List (List Fields) → ℕ
  total_length [] = 0
  total_length (page ∷ pages) = length page + total_length pages

  total_length-snoc :
      (pages : List (List Fields)) (page : List Fields)
      → total_length (pages ++ page ∷ []) ≡ total_length pages + length page
  total_length-snoc [] page = omega arith
  total_length-snoc (p ∷ pages) page = omega (arith, total_length-snoc pages page)

  -- All records that were read are accounted for, and the selected ones are those in the spool.
  pub record Balanced (c : Collection) : Type 0 where
    pub records : c.counts.raw_records ≡ accounted c.counts
    pub spooled : c.counts.selected_records ≡ total_length c.pages

  -- What a step leaves, unless it failed.
  abbrev pub BalancedStep : Step → Type 0
  BalancedStep (more c) = Balanced c
  BalancedStep (complete c) = Balanced c
  BalancedStep (cancelled c) = Balanced c
  BalancedStep (failed c e) = Unit

  store-Balanced :
      (c : Collection) (s : Selecting)
      → s.counts.raw_records ≡ dropped s.counts + length s.messages + s.counts.selected_records
      → s.counts.selected_records ≡ total_length c.pages
      → BalancedStep (store_page source window c s)
  unfolding store_page
  store-Balanced c s all spool = go s.messages refl
    where
      go : (l : List Fields) → s.messages ≡ l → BalancedStep (store_page source window c s)
      go [] e = elim (Bool-cases (not (is_filled c.cursor) || s.done)) [
        | inl last ↦
            rw (last, store_page)
              (record { records = omega (arith, all); spooled = rw e (omega (arith, spool)) })
        | inr on ↦
            rw (on, store_page)
              (record { records = omega (arith, all); spooled = rw e (omega (arith, spool)) })
      ]
      go (m ∷ ms) e =
          let size = total_length-snoc c.pages (m ∷ ms) in
          elim (Bool-cases (not (is_filled c.cursor) || s.done)) [
            | inl last ↦
                rw (last, store_page)
                  (record {
                    records = omega (arith, all);
                    spooled = rw e (omega (arith, spool, size));
                  })
            | inr on ↦
                rw (on, store_page)
                  (record {
                    records = omega (arith, all);
                    spooled = rw e (omega (arith, spool, size));
                  })
          ]

  -- The page has been counted, but none of its records.
  record Opened (c : Collection) (n : ℕ) : Type 0 where
    records : c.counts.raw_records ≡ accounted c.counts + n
    spooled : c.counts.selected_records ≡ total_length c.pages

  records-Balanced :
      (c : Collection) (xs : List Json)
      → Opened c (length xs)
      → BalancedStep (read_records source window c xs)
  unfolding read_records
  records-Balanced c xs k =
      let ordered = sort_latest source window [] (objects xs) in
      let malformed = length xs - length ordered in
      let size = length-sort [] (objects xs) in
      let small = length-objects-le xs in
      let counts = record c.counts {
        skipped_records = c.counts.skipped_records + malformed;
        malformed_object = c.counts.malformed_object + malformed;
      } in
      let start : Selecting = record {
        seen = c.seen_messages;
        counts = counts;
        done = c.done;
        messages = [];
      } in
      elim (Option-cases (select_records source window start ordered).1) [
        | inl fine ↦
            let d = select-Dealt start ordered fine in
            rw (fine, read_records)
              (store-Balanced c (select_records source window start ordered).0
                (omega (arith, d.raw, d.total, d.selected, k.records, size, small))
                (d.selected ∙ k.spooled))
        | inr (e, bad) ↦ rw (bad, read_records) tt
      ]

  page-Balanced :
      (c : Collection) (xs : List Json)
      → Opened c (length xs)
      → BalancedStep (read_page source window c xs)
  unfolding read_page
  page-Balanced c [] k = elim (Bool-cases (is_filled c.cursor)) [
    | inl on ↦
        rw (on, read_page) (record { records = omega (arith, k.records); spooled = k.spooled })
    | inr last ↦
        rw (last, read_page) (record { records = omega (arith, k.records); spooled = k.spooled })
  ]
  page-Balanced c (x ∷ xs) k =
      let d = record c { seen_page_digests = source.page_digest (x ∷ xs) ∷ c.seen_page_digests } in
      elim (Bool-cases (contains (source.page_digest (x ∷ xs)) c.seen_page_digests)) [
        | inl seen ↦ rw (seen, read_page) tt
        | inr new ↦
            rw (new, read_page)
              (records-Balanced d (x ∷ xs) (record { records = k.records; spooled = k.spooled }))
      ]

  receive-Balanced :
      (c : Collection) (requested : Option String) (r : Result Page)
      → Balanced c
      → BalancedStep (receive source window c requested r)
  unfolding receive
  receive-Balanced c requested (raise e) k = tt
  receive-Balanced c requested (ok (xs, cursor)) k =
      elim (Bool-cases (source.is_cancelled c.counts.pages true)) [
        | inl stopped ↦ rw (stopped, receive) (record { records = k.records; spooled = k.spooled })
        | inr on ↦ go on (moves_forward source window requested cursor) refl
      ]
    where
      go :
          source.is_cancelled c.counts.pages true ≡ false
          → (m : Result Bool) → moves_forward source window requested cursor ≡ m
          → BalancedStep (receive source window c requested (ok (xs, cursor)))
      go on (raise e) is = rw (on, is, receive) tt
      go on (ok true) is = rw (on, is, receive) tt
      go on (ok false) is =
          rw (on, is, receive)
            (page-Balanced
              (record c {
                cursor = cursor;
                counts = record c.counts {
                  pages = c.counts.pages + 1;
                  raw_records = c.counts.raw_records + length xs;
                };
              })
              xs (record { records = omega (arith, k.records); spooled = k.spooled }))

  step-Balanced : (c : Collection) → Balanced c → BalancedStep (step source window c)
  unfolding step
  step-Balanced c k = elim (Bool-cases (source.is_cancelled c.counts.pages false)) [
    | inl stopped ↦ rw (stopped, step) k
    | inr on ↦ elim (Bool-cases (was_requested source window c.cursor c.requested_cursors)) [
      | inl repeated ↦ rw (on, repeated, step) tt
      | inr new ↦
          let begun = record c {
            requested_cursors = add_cursor source window c.cursor c.requested_cursors;
          } in
          rw (on, new, step)
            (receive-Balanced begun c.cursor (fetch source window c.counts.pages c.cursor)
              (record { records = k.records; spooled = k.spooled }))
    ]
  ]

  collect-Balanced :
      (fuel : ℕ) (c : Collection) (last : Step)
      → Balanced c
      → collect source window fuel c ≡ some last
      → BalancedStep last
  unfolding collect
  collect-Balanced zero c last k e = absurd (ground arith)
  collect-Balanced (suc fuel) c last k e =
      go (step source window c) refl (step-Balanced c k) (λ d b r. collect-Balanced fuel d last b r)
    where
      go :
          (s : Step)
          → step source window c ≡ s
          → BalancedStep (step source window c)
          → ((d : Collection)
              → Balanced d
              → collect source window fuel d ≡ some last
              → BalancedStep last)
          → BalancedStep last
      go (more d) is b later = later d (rw is at b) (rw (is, collect) at e)
      go (complete d) is b later =
          let same : complete d ≡ last = cc (rw (is, collect) at e) in
          subst BalancedStep same (rw is at b)
      go (cancelled d) is b later =
          let same : cancelled d ≡ last = cc (rw (is, collect) at e) in
          subst BalancedStep same (rw is at b)
      go (failed d error) is b later =
          let same : failed d error ≡ last = cc (rw (is, collect) at e) in
          subst BalancedStep same tt

  -- A collection that ends has accounted for its records, unless it failed.
  pub collect_replay-Balanced :
      (cursor_after : String) (fuel : ℕ) (last : Step)
      → collect source window fuel (begin_collection source window cursor_after) ≡ some last
      → BalancedStep last
  collect_replay-Balanced cursor_after fuel last e =
      collect-Balanced fuel (begin_collection source window cursor_after) last
        (record { records = omega arith; spooled = refl }) e
