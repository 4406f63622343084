-- ===== src/Kick/History/Choice.antt =====
-- The records of one page that the window and the known ids let through.
use chat_downloader_fork.Base.{
  ℕ, suc, ◌+◌, ◌-◌, ◌≤◌, ◌≡◌, refl, ap, sym, ◌∙◌, String, true, false, not, Option, none, some,
  List, [], ◌∷◌, ◌++◌, ℤ, ltb_ℤ, ◌≤ℤ◌, if◌then◌else◌, length, length-append, contains, Distinct,
  Distinct-snoc, string_Eq, arith, Bool-cases, inl, inr, append_assoc, append-nil,
}
use chat_downloader_fork.Base.Json.{Json, null, bool, int, real, text, arr, obj, Fields}
use chat_downloader_fork.Dedup.SeenCache.{SeenCache, register}
use chat_downloader_fork.Dedup.Window.{Tracks, last_n, accept, register-Registered}
use chat_downloader_fork.Kick.Pages.{
  Stamped, insert_stamped, sort_from, message_timestamp, message_identity, stamp, timestamped,
  ordered_page_messages,
}
use chat_downloader_fork.Kick.History.{
  Client, Request, Selection, select_new, select_one, select_all,
}

-- A cache below its limit knows exactly the ids that it has accepted.
pub record Remembered (c : SeenCache) (h : List String) (id : String) : Type 0 where
  pub is_new : (register c id).1 ≡ not (contains id h)
  pub tracks : Tracks (register c id).0 (if contains id h then h else h ++ id ∷ [])
  pub limit_kept : (register c id).0.limit ≡ c.limit

register-Remembered :
    (c : SeenCache) (h : List String) (id : String)
    → Tracks c h
    → length h ≤ c.limit
    → Remembered c h id
unfolding accept
register-Remembered c h id t le =
    let r = register-Registered c h id t in
    let z : length h - c.limit ≡ 0 = omega arith in
    let whole : last_n c.limit h ≡ h = rw z refl in
    record {
      is_new = rw whole at r.is_new;
      tracks = rw whole at r.tracks;
      limit_kept = r.limit_kept;
    }

abbrev pub option_list : Option String → List String → List String
option_list none ids = ids
option_list (some id) ids = id ∷ ids

module _ (client : Client) (request : Request) where
  abbrev pub identity : Fields → Option String
  identity raw = message_identity client.iso client.str_of raw

  -- The ids of the records that have one.
  unfoldable pub ids : List Fields → List String
  ids [] = []
  ids (raw ∷ rest) = option_list (identity raw) (ids rest)

  pub ids-append : (xs ys : List Fields) → ids (xs ++ ys) ≡ ids xs ++ ids ys
  unfolding ids
  ids-append [] ys = refl
  ids-append (x ∷ xs) ys = go (identity x) (ids-append xs ys)
    where
      go :
          (o : Option String)
          → ids (xs ++ ys) ≡ ids xs ++ ids ys
          → option_list o (ids (xs ++ ys)) ≡ option_list o (ids xs) ++ ids ys
      go none ih = ih
      go (some id) ih = ap (◌∷◌ id) ih

  -- The record has a time in the window.
  pub record Inside (raw : Fields) : Type 0 where
    pub time : ℤ
    pub is : message_timestamp client.iso client.str_of raw ≡ some time
    pub from_start : request.start ≤ℤ time
    pub to_stop : time ≤ℤ request.stop

  abbrev pub AllInside : List Fields → Type 0
  AllInside [] = Unit
  AllInside (x ∷ xs) = Inside x × AllInside xs

  pub AllInside-append : (xs ys : List Fields) → AllInside xs → AllInside ys → AllInside (xs ++ ys)
  AllInside-append [] ys p q = q
  AllInside-append (x ∷ xs) ys (p, ps) q = (p, AllInside-append xs ys ps q)

  -- The stamps are the records' times.
  abbrev pub AllStamped : List Stamped → Type 0
  AllStamped [] = Unit
  AllStamped ((time, raw) ∷ rest) =
      (message_timestamp client.iso client.str_of raw ≡ some time) × AllStamped rest

  insert-AllStamped :
      (x : Stamped) (xs : List Stamped)
      → message_timestamp client.iso client.str_of x.1 ≡ some x.0
      → AllStamped xs
      → AllStamped (insert_stamped x xs) × (length (insert_stamped x xs) ≡ suc (length xs))
  insert-AllStamped x [] p ps = ((p, ps), refl)
  insert-AllStamped x (y ∷ xs) p (q, ps) = elim (Bool-cases (ltb_ℤ x.0 y.0)) [
    | inl first ↦ rw first ((p, (q, ps)), refl)
    | inr later ↦
        let (all, size) = insert-AllStamped x xs p ps in rw later ((q, all), omega (arith, size))
  ]

  sort-AllStamped :
      (sorted xs : List Stamped)
      → AllStamped sorted
      → AllStamped xs
      → AllStamped (sort_from sorted xs)
        × (length (sort_from sorted xs) ≡ length sorted + length xs)
  sort-AllStamped sorted [] p q = (p, omega arith)
  sort-AllStamped sorted (x ∷ xs) p (q, qs) =
      let (all, size) = insert-AllStamped x sorted q p in
      let (all', size') = sort-AllStamped (insert_stamped x sorted) xs all qs in
      (all', omega (arith, size, size'))

  timestamped-AllStamped :
      (xs : List Json)
      → AllStamped (timestamped client.iso client.str_of xs)
        × (length (timestamped client.iso client.str_of xs) ≤ length xs)
  unfolding timestamped
  timestamped-AllStamped [] = (tt, omega arith)
  timestamped-AllStamped (obj raw ∷ rest) =
      let (all, size) = timestamped-AllStamped rest in
      go (message_timestamp client.iso client.str_of raw) refl all size
    where
      go :
          (o : Option ℤ)
          → message_timestamp client.iso client.str_of raw ≡ o
          → AllStamped (timestamped client.iso client.str_of rest)
          → length (timestamped client.iso client.str_of rest) ≤ length rest
          → AllStamped
              (stamp client.iso client.str_of o raw (timestamped client.iso client.str_of rest))
            × (length
                  (stamp client.iso client.str_of o raw (timestamped client.iso client.str_of rest))
                ≤ suc (length rest))
      go none e all size = (all, omega arith)
      go (some time) e all size = ((e, all), omega arith)
  timestamped-AllStamped (null ∷ rest) =
      let (all, size) = timestamped-AllStamped rest in (all, omega arith)
  timestamped-AllStamped (bool b ∷ rest) =
      let (all, size) = timestamped-AllStamped rest in (all, omega arith)
  timestamped-AllStamped (int n ∷ rest) =
      let (all, size) = timestamped-AllStamped rest in (all, omega arith)
  timestamped-AllStamped (real x ∷ rest) =
      let (all, size) = timestamped-AllStamped rest in (all, omega arith)
  timestamped-AllStamped (text s ∷ rest) =
      let (all, size) = timestamped-AllStamped rest in (all, omega arith)
  timestamped-AllStamped (arr xs ∷ rest) =
      let (all, size) = timestamped-AllStamped rest in (all, omega arith)

  pub ordered-AllStamped :
      (xs : List Json)
      → AllStamped (ordered_page_messages client.iso client.str_of xs)
        × (length (ordered_page_messages client.iso client.str_of xs) ≤ length xs)
  unfolding ordered_page_messages
  ordered-AllStamped xs =
      let (all, size) = timestamped-AllStamped xs in
      let (all', size') = sort-AllStamped [] (timestamped client.iso client.str_of xs) tt all in
      (all', omega (arith, size, size'))

  -- The selection so far, after the records `out` of earlier pages: at most `n` ids, all different,
  -- which the cache knows, on records in the window.
  pub record Selected (out : List Fields) (n : ℕ) (s : Selection) : Type 0 where
    pub tracks : Tracks s.seen (ids (out ++ s.chosen))
    pub distinct : Distinct (ids (out ++ s.chosen))
    pub few : length (ids (out ++ s.chosen)) ≤ n
    pub inside : AllInside s.chosen

  -- One record more.
  snoc-ids :
      (out chosen : List Fields) (raw : Fields)
      → ids (out ++ (chosen ++ raw ∷ [])) ≡ ids (out ++ chosen) ++ option_list (identity raw) []
  unfolding ids
  snoc-ids out chosen raw =
      ap ids (sym (append_assoc out chosen (raw ∷ []))) ∙ ids-append (out ++ chosen) (raw ∷ [])

  -- A record that is passed over.
  skip-Selected :
      (out : List Fields) (n : ℕ) (s : Selection) → Selected out n s → Selected out (suc n) s
  skip-Selected out n s k = record {
    tracks = k.tracks;
    distinct = k.distinct;
    few = omega (arith, k.few);
    inside = k.inside;
  }

  -- A record in the window, whatever its id.
  new-Selected :
      (out : List Fields) (n : ℕ) (s : Selection) (raw : Fields) (o : Option String)
      → identity raw ≡ o
      → Inside raw
      → n ≤ s.seen.limit
      → Selected out n s
      → Selected out (suc n) (select_new client request s raw o)
        × ((select_new client request s raw o).seen.limit ≡ s.seen.limit)
  new-Selected out n s raw none e here room k =
      let same : ids (out ++ (s.chosen ++ raw ∷ [])) ≡ ids (out ++ s.chosen) =
        snoc-ids out s.chosen raw
        ∙ ap (λ o. ids (out ++ s.chosen) ++ option_list o []) e
        ∙ append-nil (ids (out ++ s.chosen)) in
      (
        record {
          tracks = rw same (k.tracks);
          distinct = rw same (k.distinct);
          few = rw same (omega (arith, k.few));
          inside = AllInside-append s.chosen (raw ∷ []) k.inside (here, tt);
        },
        refl,
      )
  new-Selected out n s raw (some id) e here room k =
      let h = ids (out ++ s.chosen) in
      let m = register-Remembered s.seen h id k.tracks (omega (arith, k.few)) in
      let longer : ids (out ++ (s.chosen ++ raw ∷ [])) ≡ h ++ id ∷ [] =
        snoc-ids out s.chosen raw ∙ ap (λ o. h ++ option_list o []) e in
      elim (Bool-cases (contains id h)) [
        | inl known ↦
            let kept : Tracks (register s.seen id).0 h = rw known at m.tracks in
            let old : (register s.seen id).1 ≡ false = m.is_new ∙ ap not known in
            (
              rw old (record {
                tracks = kept;
                distinct = k.distinct;
                few = omega (arith, k.few);
                inside = k.inside;
              }),
              m.limit_kept,
            )
        | inr unknown ↦
            let kept : Tracks (register s.seen id).0 (h ++ id ∷ []) = rw unknown at m.tracks in
            let new : (register s.seen id).1 ≡ true = m.is_new ∙ ap not unknown in
            (
              rw new (record {
                tracks = rw longer kept;
                distinct = rw longer (Distinct-snoc h id k.distinct unknown);
                few = rw longer (omega (arith, length-append h (id ∷ []), k.few));
                inside = AllInside-append s.chosen (raw ∷ []) k.inside (here, tt);
              }),
              m.limit_kept,
            )
      ]

  step-Selected :
      (out : List Fields) (n : ℕ) (s : Selection) (x : Stamped)
      → message_timestamp client.iso client.str_of x.1 ≡ some x.0
      → n ≤ s.seen.limit
      → Selected out n s
      → Selected out (suc n) (select_one client request s x)
        × ((select_one client request s x).seen.limit ≡ s.seen.limit)
  unfolding select_one
  step-Selected out n s (time, raw) is room k = elim (Bool-cases (ltb_ℤ time request.start)) [
    | inl before ↦
        rw (before, select_one)
          (
            record {
              tracks = k.tracks;
              distinct = k.distinct;
              few = omega (arith, k.few);
              inside = k.inside;
            },
            refl,
          )
    | inr on ↦ elim (Bool-cases (ltb_ℤ request.stop time)) [
      | inl after ↦ rw (on, after, select_one) (skip-Selected out n s k, refl)
      | inr here ↦
          rw (on, here, select_one)
            (new-Selected out n s raw (identity raw) refl
              (record {
                time = time;
                is = is;
                from_start = ground (arith, on);
                to_stop = ground (arith, here);
              })
              room k)
    ]
  ]

  -- What a page adds to the selection.
  pub select_all-Selected :
      (out : List Fields) (n : ℕ) (s : Selection) (xs : List Stamped)
      → AllStamped xs
      → n + length xs ≤ s.seen.limit
      → Selected out n s
      → Selected out (n + length xs) (select_all client request s xs)
        × ((select_all client request s xs).seen.limit ≡ s.seen.limit)
  unfolding select_all
  select_all-Selected out n s [] all room k = let z : n + 0 ≡ n = omega arith in (rw z k, refl)
  select_all-Selected out n s (x ∷ xs) (is, all) room k =
      let (k', same) = step-Selected out n s x is (omega arith) k in
      let (last, same') =
        select_all-Selected out (suc n) (select_one client request s x) xs all (omega (arith, same))
          k' in
      let more : n + suc (length xs) ≡ suc n + length xs = omega arith in
      (rw more last, same' ∙ same)
