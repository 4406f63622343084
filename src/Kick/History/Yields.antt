-- ===== src/Kick/History/Yields.antt =====
-- What the whole pagination yields.
use chat_downloader_fork.Base.{
  ℕ, suc, zero, ◌+◌, ◌-◌, ◌≤◌, ◌<◌, ◌≡◌, refl, ap, ◌∙◌, String, true, false, ◌||◌, Option, none,
  some, List, [], ◌∷◌, ◌++◌, ltb_ℤ, ltb, leb, ◌==◌, string_Eq, length, take, contains, Distinct,
  append-nil, arith, Bool-cases, inl, inr,
}
use chat_downloader_fork.Base.Json.{Json}
use chat_downloader_fork.Base.Result.{Result, ok, raise}
use chat_downloader_fork.Dedup.SeenCache.{SeenCache, positive_or_default}
use chat_downloader_fork.Dedup.SeenCache as SeenCache
use chat_downloader_fork.Dedup.Window.{Tracks, init_int-Tracks}
use chat_downloader_fork.Kick.Pages.{Page, ordered_page_messages}
use chat_downloader_fork.Kick.History.{
  Client, Request, Crawl, Turn, again, ended, Ending, cursor_allowed, read_records, read_page,
  receive, fetch, turn_at, turn, run, iter_reverse_history, begin_crawl, begin_selection,
  select_all,
}
use chat_downloader_fork.Kick.History.Budget.{
  crawl_of, iter_reverse_history-Finished, length-take-le,
}
use chat_downloader_fork.Kick.History.Choice.{
  ids, AllInside, AllInside-append, Selected, select_all-Selected, ordered-AllStamped,
}

module _ (client : Client) (request : Request) (small : request.max_records ≤ 10000) where
  -- Records in the window, with different ids, no more of them than records were read.
  pub record Yielded (c : Crawl) : Type 0 where
    pub tracks : Tracks c.seen_messages (ids client request c.yielded)
    pub distinct : Distinct (ids client request c.yielded)
    pub few : length (ids client request c.yielded) ≤ c.raw_record_count
    pub inside : AllInside client request c.yielded
    pub limit : c.seen_messages.limit ≡ 10000
    pub records : c.raw_record_count ≤ request.max_records

  -- The crawl's other variables do not matter.
  Yielded-cong :
      (c d : Crawl)
      → c.seen_messages ≡ d.seen_messages
      → c.yielded ≡ d.yielded
      → c.raw_record_count ≡ d.raw_record_count
      → Yielded c
      → Yielded d
  Yielded-cong c d e f g k = record {
    tracks = rw (← e, ← f) k.tracks;
    distinct = rw (← f) k.distinct;
    few = rw (← f, ← g) k.few;
    inside = rw (← f) k.inside;
    limit = rw (← e) k.limit;
    records = rw (← g) k.records;
  }

  -- The records of a page are added.
  add-Yielded :
      (c d : Crawl) (kept : List Json)
      → length kept ≤ request.max_records - c.raw_record_count
      → d.seen_messages
        ≡ (select_all client request
            (begin_selection client request c.seen_messages)
            (ordered_page_messages client.iso client.str_of kept)).seen
      → d.yielded
        ≡ c.yielded
          ++ (select_all client request
              (begin_selection client request c.seen_messages)
              (ordered_page_messages client.iso client.str_of kept)).chosen
      → d.raw_record_count ≡ c.raw_record_count + length kept
      → Yielded c
      → Yielded d
  add-Yielded c d kept room e f g k =
      let n = c.raw_record_count in
      let xs = ordered_page_messages client.iso client.str_of kept in
      let (stamped, size) = ordered-AllStamped client request kept in
      let z : c.yielded ++ [] ≡ c.yielded = append-nil c.yielded in
      let start : Selected client request c.yielded n
          (begin_selection client request c.seen_messages) =
        record {
          tracks = rw z k.tracks;
          distinct = rw z k.distinct;
          few = rw z k.few;
          inside = tt;
        } in
      let (s, same) =
        select_all-Selected client request c.yielded n
          (begin_selection client request c.seen_messages) xs stamped
          (omega (arith, size, room, small, k.limit, k.records)) start in
      record {
        tracks = rw (e, f) s.tracks;
        distinct = rw f s.distinct;
        few = rw (f, g) (omega (arith, s.few, size));
        inside = rw f (AllInside-append client request c.yielded _ k.inside s.inside);
        limit = ap (λ (m : SeenCache). m.limit) e ∙ same ∙ k.limit;
        records = rw g (omega (arith, room, k.records));
      }

  records-Yielded :
      (c : Crawl) (xs : List Json)
      → Yielded c
      → Yielded (crawl_of (read_records client request c xs))
  unfolding read_records
  records-Yielded c xs k =
      let room = request.max_records - c.raw_record_count in
      let kept = take room xs in
      let s =
        select_all client request (begin_selection client request c.seen_messages)
          (ordered_page_messages client.iso client.str_of kept) in
      let fits = length-take-le room xs in
      elim (Bool-cases (ltb room (length xs))) [
        | inl over ↦ rw (over, read_records) (add-Yielded c _ kept fits refl refl refl k)
        | inr whole ↦ elim (Bool-cases s.before_start) [
          | inl past ↦ rw (whole, past, read_records) (add-Yielded c _ kept fits refl refl refl k)
          | inr more ↦ rw (whole, more, read_records) (add-Yielded c _ kept fits refl refl refl k)
        ]
      ]

  page-Yielded :
      (c : Crawl) (xs : List Json) → Yielded c → Yielded (crawl_of (read_page client request c xs))
  unfolding read_page
  page-Yielded c [] k = records-Yielded c [] k
  page-Yielded c (x ∷ xs) k =
      let d = record c { page_digests = client.page_digest (x ∷ xs) ∷ c.page_digests } in
      elim (Bool-cases (contains (client.page_digest (x ∷ xs)) c.page_digests)) [
        | inl seen ↦ rw (seen, read_page) k
        | inr new ↦
            rw (new, read_page) (records-Yielded d (x ∷ xs) (Yielded-cong c d refl refl refl k))
      ]

  receive-Yielded :
      (c : Crawl) (requested : String) (r : Result Page)
      → Yielded c
      → Yielded (crawl_of (receive client request c requested r))
  unfolding receive
  receive-Yielded c requested (raise e) k = k
  receive-Yielded c requested (ok (xs, cursor)) k =
      let d = record c { cursor = cursor } in
      let k' = Yielded-cong c d refl refl refl k in
      elim (Bool-cases (client.is_cancelled c.page_count true)) [
        | inl cancelled ↦ rw (cancelled, receive) k'
        | inr on ↦ elim (Bool-cases (cursor_allowed client request requested cursor)) [
          | inl fine ↦ rw (on, fine, receive) (page-Yielded d xs k')
          | inr bad ↦ rw (on, bad, receive) k'
        ]
      ]

  turn_at-Yielded :
      (c : Crawl) (cursor : String)
      → Yielded c
      → Yielded (crawl_of (turn_at client request c cursor))
  unfolding turn_at
  turn_at-Yielded c cursor k = elim (Bool-cases (client.is_cancelled c.page_count false)) [
    | inl cancelled ↦ rw (cancelled, turn_at) k
    | inr on ↦
        elim (Bool-cases
          (leb request.max_pages c.page_count || leb request.max_records c.raw_record_count)) [
            | inl spent ↦ rw (on, spent, turn_at) k
            | inr room ↦ elim (Bool-cases (contains cursor c.requested_cursors)) [
              | inl repeated ↦ rw (on, room, repeated, turn_at) k
              | inr new ↦
                  let d = record c {
                    requested_cursors = cursor ∷ c.requested_cursors;
                    page_count = c.page_count + 1;
                  } in
                  rw (on, room, new, turn_at)
                    (receive-Yielded d cursor (fetch client request d.page_count cursor)
                      (Yielded-cong c d refl refl refl k))
            ]
          ]
  ]

  turn-Yielded : (c : Crawl) → Yielded c → Yielded (crawl_of (turn client request c))
  unfolding turn
  turn-Yielded c k = go c.cursor refl
    where
      go : (o : Option String) → c.cursor ≡ o → Yielded (crawl_of (turn client request c))
      go none e = rw (e, turn) k
      go (some cursor) e = elim (Bool-cases (cursor == "")) [
        | inl empty ↦ rw (e, turn) (rw empty k)
        | inr full ↦ rw (e, turn) (rw full (turn_at-Yielded c cursor k))
      ]

  -- A crawl that ends has this too.
  run-Yielded :
      (fuel : ℕ) (c last : Crawl) (ending : Ending)
      → run client request fuel c ≡ some (last, ending)
      → Yielded c
      → Yielded last
  unfolding run
  run-Yielded zero c last ending e k = absurd (ground arith)
  run-Yielded (suc fuel) c last ending e k =
      go (turn client request c) refl (turn-Yielded c k)
        (λ d r y. run-Yielded fuel d last ending r y)
    where
      go :
          (t : Turn)
          → turn client request c ≡ t
          → Yielded (crawl_of (turn client request c))
          → ((d : Crawl)
              → run client request fuel d ≡ some (last, ending)
              → Yielded d
              → Yielded last)
          → Yielded last
      go (again d) is y more = more d (rw (is, run) at e) (rw is at y)
      go (ended d how) is y more =
          let same : d ≡ last = cc (rw (is, run) at e) in rw same at (rw is at y)

  begin-Yielded : (cursor_after : String) → Yielded (begin_crawl client request cursor_after)
  begin-Yielded cursor_after = record {
    tracks = unfold ids in init_int-Tracks _;
    distinct = unfold ids in tt;
    few = unfold ids in omega arith;
    inside = tt;
    limit = unfold SeenCache.init_int positive_or_default in refl;
    records = omega arith;
  }

  finished-Yielded :
      (fuel : ℕ) (cursor_after : String) (last : Crawl) (ending : Ending)
      → iter_reverse_history client request cursor_after fuel ≡ some (last, ending)
      → Yielded last
  unfolding iter_reverse_history
  finished-Yielded fuel cursor_after last ending e =
      elim (Bool-cases (ltb_ℤ request.stop request.start)) [
        | inl empty ↦
            let same : begin_crawl client request cursor_after ≡ last =
              cc (rw (empty, iter_reverse_history) at e) in
            rw same at (begin-Yielded cursor_after)
        | inr window ↦
            run-Yielded fuel (begin_crawl client request cursor_after) last ending
              (rw (window, iter_reverse_history) at e) (begin-Yielded cursor_after)
      ]

  -- If the record budget is at most 10,000, then with more fuel than the page budget the history
  -- iterator ends, however it does, and the records that it has yielded lie in the requested
  -- window, have different ids, and those with an id are at most as many as the records that
  -- were read, which keep to the budget.
  pub iter_reverse_history-Yielded :
      (cursor_after : String) (fuel : ℕ)
      → request.max_pages < fuel
      → (last : Crawl) × (ending : Ending) × (iter_reverse_history client request cursor_after fuel
          ≡ some (last, ending))
        × Yielded last
  iter_reverse_history-Yielded cursor_after fuel room =
      let k = iter_reverse_history-Finished client request cursor_after fuel room in
      (k.last, k.ending, k.runs, finished-Yielded fuel cursor_after k.last k.ending k.runs)
