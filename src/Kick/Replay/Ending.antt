-- ===== src/Kick/Replay/Ending.antt =====
-- The collection ends, where the provider's cursors are decimal.
use mathlib.Core.Path.{subst}
use chat_downloader_fork.Base.{
  ℕ, zero, suc, ◌+◌, ◌-◌, ◌<◌, ◌≡◌, refl, sym, String, true, false, not, ◌||◌, Option, none, some,
  List, [], ◌∷◌, leb, ◌==◌, string_Eq, length, contains, arith, Bool-cases, Option-cases, inl, inr,
}
use chat_downloader_fork.Base.Json.{Json}
use chat_downloader_fork.Base.Result.{Result, ok, raise}
use chat_downloader_fork.Kick.Pages.{Page}
use chat_downloader_fork.Kick.Replay.State.{Source, Window}
use chat_downloader_fork.Kick.Replay.Collect.{
  Collection, Step, more, complete, cancelled, failed, objects, Selecting, is_filled, sort_latest,
  select_records, store_page, read_records, read_page, moves_forward, receive, fetch, was_requested,
  add_cursor, step, collect, begin_collection,
}
use chat_downloader_fork.Kick.Replay.Accounting.{BalancedStep, collect_replay-Balanced}

module _ (source : Source) (window : Window) where
  -- The text is a decimal number.
  pub record Decimal (s : String) (v : ℕ) : Type 0 where
    pub filled : (s == "") ≡ false
    pub digits : source.ascii_digits s ≡ true
    pub value : source.digit_value s ≡ some (ok v)

  -- A step that goes on keeps the cursor, and the cursor is not empty.
  abbrev KeepsCursor : Option String → Step → Type 0
  KeepsCursor cursor (more d) = (d.cursor ≡ cursor) × (is_filled cursor ≡ true)
  KeepsCursor cursor (complete d) = Unit
  KeepsCursor cursor (cancelled d) = Unit
  KeepsCursor cursor (failed d e) = Unit

  store-KeepsCursor :
      (c : Collection) (s : Selecting) → KeepsCursor c.cursor (store_page source window c s)
  unfolding store_page
  store-KeepsCursor c s = elim (Bool-cases (not (is_filled c.cursor) || s.done)) [
    | inl last ↦ rw (last, store_page) tt
    | inr on ↦ rw (on, store_page) (refl, ground arith)
  ]

  records-KeepsCursor :
      (c : Collection) (xs : List Json) → KeepsCursor c.cursor (read_records source window c xs)
  unfolding read_records
  records-KeepsCursor c xs =
      let ordered = sort_latest source window [] (objects xs) in
      let malformed = length xs - length ordered in
      let counts = record c.counts {
        skipped_records = c.counts.skipped_records + malformed;
        malformed_object = c.counts.malformed_object + malformed;
      } in
      let start : Selecting = record {
        seen = c.seen_messages;
        counts = counts;
        done = c.done;
        messages = [];
      } in
      elim (Option-cases (select_records source window start ordered).1) [
        | inl fine ↦
            rw (fine, read_records)
              (store-KeepsCursor c (select_records source window start ordered).0)
        | inr (e, bad) ↦ rw (bad, read_records) tt
      ]

  page-KeepsCursor :
      (c : Collection) (xs : List Json) → KeepsCursor c.cursor (read_page source window c xs)
  unfolding read_page
  page-KeepsCursor c [] = elim (Bool-cases (is_filled c.cursor)) [
    | inl on ↦ rw (on, read_page) (refl, on)
    | inr last ↦ rw (last, read_page) tt
  ]
  page-KeepsCursor c (x ∷ xs) =
      elim (Bool-cases (contains (source.page_digest (x ∷ xs)) c.seen_page_digests)) [
        | inl seen ↦ rw (seen, read_page) tt
        | inr new ↦
            rw (new, read_page)
              (records-KeepsCursor
                (record c { seen_page_digests = source.page_digest (x ∷ xs) ∷ c.seen_page_digests })
                (x ∷ xs))
      ]

  -- A step that goes on from a cursor of value `v` has a cursor of a smaller value.
  abbrev Falls : ℕ → Step → Type 0
  Falls v (more d) = (s : String) × (w : ℕ) × (d.cursor ≡ some s) × Decimal s w × (w < v)
  Falls v (complete d) = Unit
  Falls v (cancelled d) = Unit
  Falls v (failed d e) = Unit

  Falls-none : (v : ℕ) (s : Step) → KeepsCursor none s → Falls v s
  Falls-none v (more d) k = absurd (ground (arith, k.1))
  Falls-none v (complete d) k = tt
  Falls-none v (cancelled d) k = tt
  Falls-none v (failed d e) k = tt

  Falls-some :
      (v w : ℕ) (next_cursor : String) (s : Step)
      → Decimal next_cursor w
      → w < v
      → KeepsCursor (some next_cursor) s
      → Falls v s
  Falls-some v w next_cursor (more d) decimal less k = (next_cursor, w, k.0, decimal, less)
  Falls-some v w next_cursor (complete d) decimal less k = tt
  Falls-some v w next_cursor (cancelled d) decimal less k = tt
  Falls-some v w next_cursor (failed d e) decimal less k = tt

  moves-leb :
      (requested next_cursor : String) (v w : ℕ)
      → Decimal requested v
      → Decimal next_cursor w
      → moves_forward source window (some requested) (some next_cursor) ≡ ok (leb v w)
  unfolding moves_forward
  moves-leb requested next_cursor v w r n =
      rw (n.digits, r.filled, n.value, r.value, moves_forward) refl

  -- An assumption on the provider's pages: a page's cursor, if it has one, is a decimal number.
  abbrev pub DecimalPage : Result Page → Type 0
  DecimalPage (raise e) = Unit
  DecimalPage (ok (xs, none)) = Unit
  DecimalPage (ok (xs, some s)) = (w : ℕ) × Decimal s w

  receive-Falls :
      (c : Collection) (requested : String) (v : ℕ) (r : Result Page)
      → Decimal requested v
      → DecimalPage r
      → Falls v (receive source window c (some requested) r)
  unfolding receive
  receive-Falls c requested v (raise e) decimal page = tt
  receive-Falls c requested v (ok (xs, none)) decimal page =
      elim (Bool-cases (source.is_cancelled c.counts.pages true)) [
        | inl stopped ↦ rw (stopped, receive) tt
        | inr on ↦
            rw (on, receive)
              (unfold moves_forward in
                Falls-none v _ (
                  page-KeepsCursor
                    (record c {
                      cursor = none;
                      counts = record c.counts {
                        pages = c.counts.pages + 1;
                        raw_records = c.counts.raw_records + length xs;
                      };
                    })
                    xs))
      ]
  receive-Falls c requested v (ok (xs, some s)) decimal (w, page) =
      let moved = moves-leb requested s v w decimal page in
      elim (Bool-cases (source.is_cancelled c.counts.pages true)) [
        | inl stopped ↦ rw (stopped, receive) tt
        | inr on ↦ elim (Bool-cases (leb v w)) [
          | inl forward ↦ rw (on, moved, forward, receive) tt
          | inr backward ↦
              rw (on, moved, backward, receive)
                (Falls-some v w s _ page (ground (arith, backward)) (
                  page-KeepsCursor
                    (record c {
                      cursor = some s;
                      counts = record c.counts {
                        pages = c.counts.pages + 1;
                        raw_records = c.counts.raw_records + length xs;
                      };
                    })
                    xs))
        ]
      ]

  -- The crawl has ended.
  abbrev Ends : ℕ → Collection → Type 0
  Ends fuel c = (last : Step) × (collect source window fuel c ≡ some last)

  module _
      (decimal : (pages : ℕ) (cursor : String)
        → DecimalPage (fetch source window pages (some cursor))) where
    step-Falls :
        (c : Collection) (s : String) (v : ℕ)
        → c.cursor ≡ some s
        → Decimal s v
        → Falls v (step source window c)
    unfolding step
    step-Falls c s v e k = elim (Bool-cases (source.is_cancelled c.counts.pages false)) [
      | inl stopped ↦ rw (stopped, step) tt
      | inr on ↦ elim (Bool-cases (was_requested source window c.cursor c.requested_cursors)) [
        | inl repeated ↦ rw (on, repeated, step) tt
        | inr new ↦
            let begun = record c {
              requested_cursors = add_cursor source window c.cursor c.requested_cursors;
            } in
            rw (on, new, step)
              (subst
                (λ o.
                  Falls v (receive source window begun o (fetch source window c.counts.pages o)))
                (sym e)
                (receive-Falls begun s v (fetch source window c.counts.pages (some s)) k
                  (decimal c.counts.pages s)))
      ]
    ]

    collect-Ends :
        (fuel : ℕ) (c : Collection) (s : String) (v : ℕ)
        → c.cursor ≡ some s
        → Decimal s v
        → v < fuel
        → Ends fuel c
    unfolding collect
    collect-Ends zero c s v e k room = elim room [ ]
    collect-Ends (suc fuel) c s v e k room =
        go (step source window c) refl (step-Falls c s v e k)
          (λ d t w f n less. collect-Ends fuel d t w f n less)
      where
        go :
            (t : Step)
            → step source window c ≡ t
            → Falls v (step source window c)
            → ((d : Collection) (t : String) (w : ℕ)
                → d.cursor ≡ some t
                → Decimal t w
                → w < fuel
                → Ends fuel d)
            → Ends (suc fuel) c
        go (more d) is falls later =
            let (t, w, f, n, less) = rw is at falls in
            let (last, runs) = later d t w f n (omega (arith, less, room)) in
            (last, rw (is, collect) runs)
        go (complete d) is falls later = (complete d, rw (is, collect) refl)
        go (cancelled d) is falls later = (cancelled d, rw (is, collect) refl)
        go (failed d error) is falls later = (failed d error, rw (is, collect) refl)

    -- If the first cursor is a decimal number, and so is every cursor that a page of the
    -- provider gives, then the collection of a replay ends, with fuel beyond the first cursor's
    -- number; unless it failed, every record that was read is then counted as skipped, filtered,
    -- duplicate or selected, and the selected ones are those in the spool.
    pub collect-ends :
        (cursor_after : String) (v fuel : ℕ)
        → Decimal cursor_after v
        → v < fuel
        → (last : Step) × (collect source window fuel (begin_collection source window cursor_after)
            ≡ some last)
          × BalancedStep source window last
    collect-ends cursor_after v fuel k room =
        let (last, runs) =
          collect-Ends fuel (begin_collection source window cursor_after) cursor_after v refl k
            room in
        (last, runs, collect_replay-Balanced source window cursor_after fuel last runs)
