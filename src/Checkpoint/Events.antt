-- ===== src/Checkpoint/Events.antt =====
-- `Counter[str]`: how often each event was seen. A missing key counts 0.
use chat_downloader_fork.Base.{
  ℕ, ◌+◌, ◌-◌, ◌≡◌, String, Bool, true, false, List, [], ◌∷◌, if◌then◌else◌, ◌==◌, string_Eq,
  length, arith, ==_iff,
}

abbrev pub Events : Type 0
Events = List (String × ℕ)

unfoldable pub count : String → Events → ℕ
count k [] = 0
count k ((j, n) ∷ rest) = if j == k then n else count k rest

abbrev pub is_in : String → Events → Bool
is_in k [] = false
is_in k ((j, n) ∷ rest) = if j == k then true else is_in k rest

-- `events[k] += 1`
unfoldable pub increment : String → Events → Events
increment k [] = (k, 1) ∷ []
increment k ((j, n) ∷ rest) = if j == k then (j, n + 1) ∷ rest else (j, n) ∷ increment k rest

-- `events[k] -= 1`, at a positive count
unfoldable pub decrement : String → Events → Events
decrement k [] = []
decrement k ((j, n) ∷ rest) = if j == k then (j, n - 1) ∷ rest else (j, n) ∷ decrement k rest

pub count-increment :
    (k j : String) (e : Events) → count j (increment k e) ≡ count j e + (if k == j then 1 else 0)
unfolding count increment
count-increment k j [] = ground arith
count-increment k j ((i, n) ∷ rest) =
    ground (arith, count-increment k j rest, ==_iff i k, ==_iff i j, ==_iff k j)

pub count-decrement :
    (k j : String) (e : Events) → count j (decrement k e) ≡ count j e - (if k == j then 1 else 0)
unfolding count decrement
count-decrement k j [] = ground arith
count-decrement k j ((i, n) ∷ rest) =
    ground (arith, count-decrement k j rest, ==_iff i k, ==_iff i j, ==_iff k j)

-- A new key makes the counter one longer; an old one does not.
pub length-increment :
    (k : String) (e : Events)
    → length (increment k e) ≡ (if is_in k e then length e else length e + 1)
unfolding increment
length-increment k [] = ground arith
length-increment k ((i, n) ∷ rest) = ground (arith, length-increment k rest)
