-- ===== src/Pipeline/Tests.antt =====
-- The message limit at a concrete source.
use chat_downloader_fork.Base.{refl, true, List, [], ◌∷◌, take, arith, pos}
use chat_downloader_fork.Base.Json.{Fields, end, field, null}
use chat_downloader_fork.Checkpoint.Stream.{yield_all, done}
use chat_downloader_fork.Pipeline.MessageLimit.{Limiter, init, Consumed, consume-Consumed}

abbrev three : List Fields
three = end ∷ field "a" null end ∷ end ∷ []

abbrev limiter : Limiter
limiter = init (yield_all three done) (pos 2) true

consume-Consumed_example : Consumed 4 limiter (take 2 three)
consume-Consumed_example = consume-Consumed three 2 4 limiter refl refl refl (omega arith)
