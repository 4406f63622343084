-- ===== src/Kick/History/Budget.antt =====
-- The pagination ends within its budgets.
use chat_downloader_fork.Base.{
  ℕ, suc, zero, ◌+◌, ◌-◌, ◌≤◌, ◌<◌, ◌≡◌, refl, String, Bool, true, false, ◌||◌, Option, none, some,
  List, [], ◌∷◌, ltb_ℤ, leb, ◌==◌, string_Eq, length, take, contains, arith, Bool-cases, inl, inr,
}
use chat_downloader_fork.Base.Json.{Json}
use chat_downloader_fork.Base.Result.{Result, ok, raise}
use chat_downloader_fork.Kick.Pages.{Page}
use chat_downloader_fork.Kick.History.{
  Client, Request, Crawl, Turn, again, ended, Ending, returned, cursor_allowed, read_records,
  read_page, receive, fetch, turn_at, turn, run, iter_reverse_history, begin_crawl,
}

pub length-take-le : {A : Type 0} (n : ℕ) (xs : List A) → length (take n xs) ≤ n
length-take-le zero xs = omega arith
length-take-le (suc n) [] = omega arith
length-take-le (suc n) (x ∷ xs) = omega (arith, length-take-le n xs)

abbrev pub crawl_of : Turn → Crawl
crawl_of (again c) = c
crawl_of (ended c ending) = c

abbrev pub goes_on : Turn → Bool
goes_on (again c) = true
goes_on (ended c ending) = false

module _ (client : Client) (request : Request) where
  -- The budgets are kept.
  pub record InBudget (c : Crawl) : Type 0 where
    pub pages : c.page_count ≤ request.max_pages
    pub records : c.raw_record_count ≤ request.max_records

  records-count :
      (c : Crawl) (xs : List Json)
      → (crawl_of (read_records client request c xs)).page_count ≡ c.page_count
  unfolding read_records
  records-count c xs = ground arith

  records-le :
      (c : Crawl) (xs : List Json)
      → c.raw_record_count ≤ request.max_records
      → (crawl_of (read_records client request c xs)).raw_record_count ≤ request.max_records
  unfolding read_records
  records-le c xs h = ground (arith, length-take-le (request.max_records - c.raw_record_count) xs)

  page-keeps :
      (c : Crawl) (xs : List Json)
      → InBudget c
      → InBudget (crawl_of (read_page client request c xs))
        × ((crawl_of (read_page client request c xs)).page_count ≡ c.page_count)
  unfolding read_page
  page-keeps c [] k = (
    record { pages = rw (records-count c []) (k.pages); records = records-le c [] k.records },
    records-count c [],
  )
  page-keeps c (x ∷ xs) k =
      let d = record c { page_digests = client.page_digest (x ∷ xs) ∷ c.page_digests } in
      elim (Bool-cases (contains (client.page_digest (x ∷ xs)) c.page_digests)) [
        | inl seen ↦ rw (seen, read_page) (k, refl)
        | inr new ↦
            rw (new, read_page)
              (
                record {
                  pages = rw (records-count d (x ∷ xs)) (k.pages);
                  records = records-le d (x ∷ xs) k.records;
                },
                records-count d (x ∷ xs),
              )
      ]

  receive-keeps :
      (c : Crawl) (requested : String) (r : Result Page)
      → InBudget c
      → InBudget (crawl_of (receive client request c requested r))
        × ((crawl_of (receive client request c requested r)).page_count ≡ c.page_count)
  unfolding receive
  receive-keeps c requested (raise e) k = (k, refl)
  receive-keeps c requested (ok (xs, cursor)) k =
      let d = record c { cursor = cursor } in
      let k' : InBudget d = record { pages = k.pages; records = k.records } in
      elim (Bool-cases (client.is_cancelled c.page_count true)) [
        | inl cancelled ↦ rw (cancelled, receive) (k', refl)
        | inr on ↦ elim (Bool-cases (cursor_allowed client request requested cursor)) [
          | inl fine ↦ rw (on, fine, receive) (page-keeps d xs k')
          | inr bad ↦ rw (on, bad, receive) (k', refl)
        ]
      ]

  -- A turn that goes on has read one page more, within the budget.
  abbrev Progress : Crawl → Turn → Type 0
  Progress c t =
      InBudget (crawl_of t)
      × (goes_on t ≡ true
          → (c.page_count < request.max_pages) × ((crawl_of t).page_count ≡ suc c.page_count))

  turn_at-Progress :
      (c : Crawl) (cursor : String) → InBudget c → Progress c (turn_at client request c cursor)
  unfolding turn_at
  turn_at-Progress c cursor k = elim (Bool-cases (client.is_cancelled c.page_count false)) [
    | inl cancelled ↦ rw (cancelled, turn_at) (k, λ h. absurd (ground arith))
    | inr on ↦
        elim (Bool-cases
          (leb request.max_pages c.page_count || leb request.max_records c.raw_record_count)) [
            | inl spent ↦ rw (on, spent, turn_at) (k, λ h. absurd (ground arith))
            | inr room ↦ elim (Bool-cases (contains cursor c.requested_cursors)) [
              | inl repeated ↦ rw (on, room, repeated, turn_at) (k, λ h. absurd (ground arith))
              | inr new ↦
                  let d = record c {
                    requested_cursors = cursor ∷ c.requested_cursors;
                    page_count = c.page_count + 1;
                  } in
                  let less : c.page_count < request.max_pages = ground arith in
                  let k' : InBudget d = record { pages = omega arith; records = k.records } in
                  let (kept, same) =
                    receive-keeps d cursor (fetch client request d.page_count cursor) k' in
                  rw (on, room, new, turn_at) (kept, λ h. (less, omega (arith, same)))
            ]
          ]
  ]

  turn-Progress : (c : Crawl) → InBudget c → Progress c (turn client request c)
  unfolding turn
  turn-Progress c k = go c.cursor refl
    where
      go : (o : Option String) → c.cursor ≡ o → Progress c (turn client request c)
      go none e = rw (e, turn) (k, λ h. absurd (ground arith))
      go (some cursor) e = elim (Bool-cases (cursor == "")) [
        | inl empty ↦ rw (e, turn) (rw empty (k, λ h. absurd (ground arith)))
        | inr full ↦ rw (e, turn) (rw full (turn_at-Progress c cursor k))
      ]

  -- A crawl that has ended, within its budgets.
  pub record Ended (fuel : ℕ) (c : Crawl) : Type 0 where
    pub last : Crawl
    pub ending : Ending
    pub runs : run client request fuel c ≡ some (last, ending)
    pub budget : InBudget last

  run-step :
      (fuel : ℕ) (c : Crawl) (t : Turn)
      → turn client request c ≡ t
      → InBudget (crawl_of t)
      → (goes_on t ≡ true → Ended fuel (crawl_of t))
      → Ended (suc fuel) c
  unfolding run
  run-step fuel c (again d) e k more =
      let m = more refl in
      record { last = m.last; ending = m.ending; runs = rw (e, run) m.runs; budget = m.budget }
  run-step fuel c (ended d ending) e k more = record {
    last = d;
    ending = ending;
    runs = rw (e, run) refl;
    budget = k;
  }

  run-Ended :
      (fuel : ℕ) (c : Crawl) → InBudget c → request.max_pages < fuel + c.page_count → Ended fuel c
  run-Ended zero c k room = absurd (omega (arith, k.pages))
  run-Ended (suc fuel) c k room =
      let (k', step) = turn-Progress c k in
      run-step fuel c (turn client request c) refl k' (λ h.
        let (less, one) = step h in
        run-Ended fuel (crawl_of (turn client request c)) k' (omega (arith, one, room)))

  -- What the generator yields and how it ends.
  pub record Finished (fuel : ℕ) (cursor_after : String) : Type 0 where
    pub last : Crawl
    pub ending : Ending
    pub runs : iter_reverse_history client request cursor_after fuel ≡ some (last, ending)
    pub budget : InBudget last

  -- With more fuel than the page budget the history iterator ends, and it has asked for no more
  -- pages and kept no more records than its budgets.
  pub iter_reverse_history-Finished :
      (cursor_after : String) (fuel : ℕ) → request.max_pages < fuel → Finished fuel cursor_after
  unfolding iter_reverse_history
  iter_reverse_history-Finished cursor_after fuel room =
      let fresh : InBudget (begin_crawl client request cursor_after) = record {
        pages = omega arith;
        records = omega arith;
      } in
      elim (Bool-cases (ltb_ℤ request.stop request.start)) [
        | inl empty ↦ record {
          last = begin_crawl client request cursor_after;
          ending = returned;
          runs = rw (empty, iter_reverse_history) refl;
          budget = fresh;
        }
        | inr window ↦
            let k =
              run-Ended fuel (begin_crawl client request cursor_after) fresh
                (omega (arith, room)) in
            record {
              last = k.last;
              ending = k.ending;
              runs = rw (window, iter_reverse_history) k.runs;
              budget = k.budget;
            }
      ]
