-- ===== src/Dedup/SeenCache.antt =====
-- `_SeenMessageCache` of src/chat_downloader/sites/_seen_cache.py. The ordered dictionary is the
-- list of its keys, oldest first.
use chat_downloader_fork.Base.{
  ℕ, zero, suc, ◌+◌, String, Bool, true, false, Option, none, some, List, [], ◌∷◌, ◌++◌, ℤ, pos,
  negsuc, ltb, if◌then◌else◌, string_Eq, length, contains,
}
use chat_downloader_fork.Base.Result.{Result, ok, raise, overflow_error, ◌>>=◌}

abbrev pub default_max_seen_message_ids : ℕ
default_max_seen_message_ids = 10000

-- A limit, by what `int(limit)` does with it: it gives a number, it raises `TypeError` or
-- `ValueError`, or it raises `OverflowError`, as for an infinite float. `no_limit` is `None`.
pub data Limit : Type 0 where
  no_limit refused infinite : Limit
  number : ℤ → Limit

-- The end of `_normalize_limit`, which replaces what is not positive.
unfoldable pub positive_or_default : ℤ → ℕ
positive_or_default (pos zero) = default_max_seen_message_ids
positive_or_default (pos (suc n)) = suc n
positive_or_default (negsuc n) = default_max_seen_message_ids

-- `_normalize_limit`; an `OverflowError` is not caught.
unfoldable pub normalize_limit : Limit → Result ℕ
unfolding positive_or_default
normalize_limit (number n) = ok (positive_or_default n)
normalize_limit no_limit = ok (positive_or_default (negsuc 0))
normalize_limit refused = ok (positive_or_default (negsuc 0))
normalize_limit infinite = raise overflow_error

pub record SeenCache : Type 0 where
  pub limit : ℕ
  pub message_ids : List String
  pub evictions : ℕ

abbrev pub empty_cache : ℕ → SeenCache
empty_cache limit = record { limit = limit; message_ids = []; evictions = 0 }

-- `__init__`
unfoldable pub init : Limit → Result SeenCache
unfolding normalize_limit
init limit = normalize_limit limit >>= λ n. ok (empty_cache n)

-- `__init__`, at a limit that is an `int`
unfoldable pub init_int : ℤ → SeenCache
unfolding positive_or_default
init_int limit = empty_cache (positive_or_default limit)

-- `popitem(last=False)`, after the insertion
abbrev pub pop_oldest : SeenCache → List String → SeenCache × Bool × Option String
pop_oldest c [] = (record c { message_ids = [] }, true, none)
pop_oldest c (oldest ∷ rest) =
    (record c { message_ids = rest; evictions = c.evictions + 1 }, true, some oldest)

unfoldable pub register : SeenCache → String → SeenCache × Bool × Option String
register c message_id =
    let ids = c.message_ids ++ message_id ∷ [] in
    if contains message_id c.message_ids
    then (c, false, none)
    else if ltb c.limit (length ids)
    then pop_oldest c ids
    else (record c { message_ids = ids }, true, none)
