-- ===== src/Kick/Retry.antt =====
-- `fetch_with_retry` of src/chat_downloader/sites/kick/request_retry.py, and the decision that
-- `retry` takes in src/chat_downloader/sites/retry.py. The waits between attempts are left out.
use chat_downloader_fork.Base.{
  ℕ, zero, suc, ◌+◌, ◌≤◌, ◌<◌, ◌≡◌, refl, Bool, true, false, ltb, if◌then◌else◌, arith,
}
use chat_downloader_fork.Base.Result.{
  Error, Result, ok, raise, os_error, retries_exceeded, kick_server_error, request_error,
  polling_cancelled,
}

-- `except (KickServerError, RequestException, OSError)`
abbrev pub is_transient : Error → Bool
is_transient kick_server_error = true
is_transient request_error = true
is_transient os_error = true
is_transient _ = false

-- `RetryPolicy.can_retry`
abbrev pub can_retry : ℕ → ℕ → Bool
can_retry attempt_number max_attempts = ltb attempt_number max_attempts

module _ {T : Type 0} (fetch : ℕ → Result T) (is_cancelled : ℕ → Bool → Bool)
    (max_attempts : ℕ) where
  -- What follows a failure of the given attempt; `again` is the rest of the loop.
  abbrev pub after_failure : ℕ → Error → Result T → Result T
  after_failure n e again =
      if is_transient e
      then if is_cancelled n true
        then raise polling_cancelled
        else if can_retry n max_attempts
        then again
        else raise retries_exceeded
      else raise e

  -- The loop from attempt `n` on, with `left` attempts to go. `is_cancelled` tells for each attempt
  -- whether the event is set before it and after its failure.
  unfoldable pub attempts_from : ℕ → ℕ → Result T
  attempts_from zero n = raise retries_exceeded
  attempts_from (suc left) n =
      let again = attempts_from left (n + 1) in
      if is_cancelled n false
      then raise polling_cancelled
      else elim (fetch n) [ ok value ↦ ok value | raise e ↦ after_failure n e again ]

  unfoldable pub fetch_with_retry : Result T
  unfolding attempts_from
  fetch_with_retry = attempts_from max_attempts 1

  -- The attempts from `n` on, `k` of them, fail transiently, and nobody cancels.
  abbrev pub AllFail : ℕ → ℕ → Type 0
  AllFail zero n = Unit
  AllFail (suc k) n =
      (e : Error) × (fetch n ≡ raise e)
      × (is_transient e ≡ true)
      × (is_cancelled n false ≡ false)
      × (is_cancelled n true ≡ false)
      × AllFail k (n + 1)

  attempts-succeed :
      (k left n : ℕ) (value : T)
      → AllFail k n
      → fetch (n + k) ≡ ok value
      → is_cancelled (n + k) false ≡ false
      → n + k ≤ max_attempts
      → k < left
      → attempts_from left n ≡ ok value
  unfolding attempts_from
  attempts-succeed k zero n value fails good open_ room h = elim h [ ]
  attempts-succeed zero (suc left) n value fails good open_ room h =
      let z : n + 0 ≡ n = omega arith in
      let good' : fetch n ≡ ok value = rw z at good in
      let open' : is_cancelled n false ≡ false = rw z at open_ in
      rw (open', good', attempts_from) refl
  attempts-succeed (suc k) (suc left) n value (e, bad, transient, before, after, fails) good open_
        room h =
      let s : n + suc k ≡ (n + 1) + k = omega arith in
      let more : ltb n max_attempts ≡ true = ground arith in
      let later : attempts_from left (n + 1) ≡ ok value =
        attempts-succeed k left (n + 1) value fails (rw s at good) (rw s at open_) (omega arith)
          (omega arith) in
      rw (before, bad, attempts_from) (rw (transient, after, more) later)

  -- If the first k attempts fail transiently, the next one succeeds, nobody cancels in between,
  -- and k is below the number of attempts, then a request gives what that attempt gives.
  pub fetch_with_retry-first :
      (k : ℕ) (value : T)
      → AllFail k 1
      → fetch (1 + k) ≡ ok value
      → is_cancelled (1 + k) false ≡ false
      → k < max_attempts
      → fetch_with_retry ≡ ok value
  unfolding fetch_with_retry
  fetch_with_retry-first k value fails good open_ room =
      attempts-succeed k max_attempts 1 value fails good open_ (omega arith) room

  attempts-exhausted : (left n : ℕ) → AllFail left n → attempts_from left n ≡ raise retries_exceeded
  unfolding attempts_from
  attempts-exhausted zero n fails = refl
  attempts-exhausted (suc left) n (e, bad, transient, before, after, fails) =
      let later = attempts-exhausted left (n + 1) fails in
      rw (before, bad, attempts_from) (ground (arith, transient, after, later))

  -- If every attempt fails transiently and nobody cancels, then a request raises that its
  -- retries are exceeded.
  pub fetch_with_retry-exhausted :
      AllFail max_attempts 1 → fetch_with_retry ≡ raise retries_exceeded
  unfolding fetch_with_retry
  fetch_with_retry-exhausted fails = attempts-exhausted max_attempts 1 fails
