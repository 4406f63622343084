-- ===== src/Pipeline/MessageLimit.antt =====
-- `_MessageLimitIterator`.
use chat_downloader_fork.Base.{
  ℕ, zero, suc, ◌+◌, ◌<◌, ◌≡◌, refl, ap, ◌∙◌, String, Bool, true, false, Option, none, some, List,
  [], ◌∷◌, if◌then◌else◌, ℤ, pos, take, length, arith,
}
use chat_downloader_fork.Base.Json.{Fields}
use chat_downloader_fork.Checkpoint.Stream.{Stream, done, fail, item, yield_all}
use chat_downloader_fork.Checkpoint.Remaining.{Next, stop, error, message}

-- `reason` is the termination reason among the diagnostics; `closes` counts the calls of the
-- source's `close`.
pub record Limiter : Type 0 where
  pub source : Stream
  pub remaining : ℤ
  pub has_diagnostics : Bool
  pub reason : Option String
  pub closed : Bool
  pub closes : ℕ

abbrev pub init : Stream → ℤ → Bool → Limiter
init source limit has_diagnostics = record {
  source = source;
  remaining = limit;
  has_diagnostics = has_diagnostics;
  reason = none;
  closed = false;
  closes = 0;
}

unfoldable pub close : Limiter → Limiter
close r = if r.closed then r else record r { closed = true; closes = r.closes + 1 }

-- An item was read, and `remaining` was positive.
unfoldable pub count_item : ℕ → Stream → Limiter → Limiter
count_item left rest r = record r {
  source = rest;
  remaining = pos left;
  reason = elim left [
    | zero ↦ if r.has_diagnostics then some "message_limit" else r.reason
    | suc _ ↦ r.reason
  ];
}

-- `next(self._source)`, with `left + 1` messages to go.
unfoldable pub read_source : ℕ → Stream → Limiter → Limiter × Next
unfolding close count_item
read_source left done r = (close r, stop)
read_source left (fail e) r = (close (record r { source = done }), error e)
read_source left (item x rest) r = (count_item left rest r, message x)

unfoldable pub step : ℤ → Stream → Limiter → Limiter × Next
unfolding read_source
step (pos (suc left)) source r = read_source left source r
step _ source r = (close r, stop)

unfoldable pub next : Limiter → Limiter × Next
unfolding step
next r = if r.closed then (close r, stop) else step r.remaining r.source r

abbrev gathered :
    Limiter → Next → Option (List Fields × Limiter × Next) → Option (List Fields × Limiter × Next)
gathered r stop later = some ([], r, stop)
gathered r (error e) later = some ([], r, error e)
gathered r (message x) none = none
gathered r (message x) (some (xs, last, ended)) = some (x ∷ xs, last, ended)

-- A consumer that reads until the iterator stops or raises; `none` if the fuel ran out.
unfoldable pub consume : ℕ → Limiter → Option (List Fields × Limiter × Next)
consume zero r = none
consume (suc fuel) r = gathered (next r).0 (next r).1 (consume fuel (next r).0)

next-step :
    (r : Limiter) (n : ℤ) (source : Stream)
    → r.closed ≡ false
    → r.remaining ≡ n
    → r.source ≡ source
    → next r ≡ step n source r
unfolding next
next-step r n source o m s =
    ap (λ b. if b then (close r, stop) else step r.remaining r.source r) o
    ∙ ap (λ k. step k r.source r) m
    ∙ ap (λ t. step n t r) s

consume-message :
    (fuel : ℕ) (r r' : Limiter) (x : Fields) {xs : List Fields} {last : Limiter} {ended : Next}
    → next r ≡ (r', message x)
    → consume fuel r' ≡ some (xs, last, ended)
    → consume (suc fuel) r ≡ some (x ∷ xs, last, ended)
unfolding consume
consume-message fuel r r' x e k =
    ap (λ p. gathered p.0 p.1 (consume fuel p.0)) e ∙ ap (gathered r' (message x)) k

consume-stop :
    (fuel : ℕ) (r r' : Limiter) → next r ≡ (r', stop) → consume (suc fuel) r ≡ some ([], r', stop)
unfolding consume
consume-stop fuel r r' e = ap (λ p. gathered p.0 p.1 (consume fuel p.0)) e

-- A whole run: what was read, and how the iterator ended.
pub record Consumed (fuel : ℕ) (r : Limiter) (xs : List Fields) : Type 0 where
  pub last : Limiter
  pub runs : consume fuel r ≡ some (xs, last, stop)
  pub closed : last.closed ≡ true
  pub closed_once : last.closes ≡ r.closes + 1

-- An open iterator that closes its source now has read nothing.
Consumed-now :
    (fuel : ℕ) (r : Limiter)
    → r.closed ≡ false
    → next r ≡ (close r, stop)
    → Consumed (suc fuel) r []
unfolding close
Consumed-now fuel r o e = record {
  last = close r;
  runs = consume-stop fuel r (close r) e;
  closed = rw o refl;
  closed_once = rw o refl;
}

-- An open message-limit iterator over a source of given items, read to its end with fuel beyond
-- the number of items, gives the first `limit` of them, stops, and has closed its source exactly
-- once.
pub consume-Consumed :
    (xs : List Fields) (limit fuel : ℕ) (r : Limiter)
    → r.source ≡ yield_all xs done
    → r.remaining ≡ pos limit
    → r.closed ≡ false
    → length xs < fuel
    → Consumed fuel r (take limit xs)
unfolding step count_item
consume-Consumed xs limit zero r s m o h = elim h [ ]
consume-Consumed xs zero (suc fuel) r s m o h =
    Consumed-now fuel r o (next-step r (pos 0) (yield_all xs done) o m s)
consume-Consumed [] (suc left) (suc fuel) r s m o h =
    Consumed-now fuel r o (next-step r (pos (suc left)) done o m s)
consume-Consumed (x ∷ xs) (suc left) (suc fuel) r s m o h =
    let r' = count_item left (yield_all xs done) r in
    let k = consume-Consumed xs left fuel r' refl refl o (omega arith) in
    record {
      last = k.last;
      runs =
          consume-message fuel r r' x
            (next-step r (pos (suc left)) (item x (yield_all xs done)) o m s) k.runs;
      closed = k.closed;
      closed_once = k.closed_once;
    }
