-- ===== src/Kick/Tests.antt =====
-- Retries and cursors at concrete inputs.
use chat_downloader_fork.Base.{
  ℕ, ◌≡◌, refl, Bool, false, [], ◌∷◌, leb, arith, if◌then◌else◌, ◌==◌, nat_Eq,
}
use chat_downloader_fork.Base.Result.{Result, ok, raise, kick_server_error, retries_exceeded}
use chat_downloader_fork.Kick.Retry.{
  fetch_with_retry, fetch_with_retry-first, fetch_with_retry-exhausted,
}
use chat_downloader_fork.Kick.Cursor.{is_not_earlier, value_of, is_not_earlier-value}

abbrev third_time : ℕ → Result ℕ
third_time n = if n == 3 then ok 7 else raise kick_server_error

abbrev never : ℕ → Bool → Bool
never n after = false

fetch_with_retry-first_example : fetch_with_retry third_time never 5 ≡ ok 7
fetch_with_retry-first_example =
    fetch_with_retry-first third_time never 5 2 7
      (kick_server_error, refl, refl, refl, refl, (kick_server_error, refl, refl, refl, refl, tt))
      refl refl (omega arith)

fetch_with_retry-exhausted_example : fetch_with_retry third_time never 2 ≡ raise retries_exceeded
fetch_with_retry-exhausted_example =
    fetch_with_retry-exhausted third_time never 2
      (kick_server_error, refl, refl, refl, refl, (kick_server_error, refl, refl, refl, refl, tt))

is_not_earlier-value_example :
    is_not_earlier (0 ∷ 1 ∷ 2 ∷ []) (9 ∷ []) ≡ leb (value_of (9 ∷ [])) (value_of (0 ∷ 1 ∷ 2 ∷ []))
is_not_earlier-value_example =
    is_not_earlier-value (0 ∷ 1 ∷ 2 ∷ []) (9 ∷ []) (omega arith, (omega arith, (omega arith, tt)))
      (omega arith, tt)
