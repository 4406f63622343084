-- ===== src/Filters/TimeRange.antt =====
-- `TimeRangeFilter`. Times are in millionths of a second; an item's time is finite.
use chat_downloader_fork.Base.{
  ◌+◌, pos_part, neg_part, leb, ◌≡◌, refl, Bool, true, false, not, ◌&&◌, Option, none, some, List,
  [], ◌∷◌, if◌then◌else◌, ℤ, pos, ◌+ℤ◌, ltb_ℤ, ◌≤ℤ◌, +ℤ_parts, arith, Bool-cases, inl, inr,
}

pub data SkipMode : Type 0 where
  skip_none skip_always skip_first_page : SkipMode

pub record TimeRange : Type 0 where
  pub start_time : Option ℤ
  pub end_time : Option ℤ
  pub offset : ℤ
  pub skip_mode : SkipMode
  pub is_first_page : Bool

pub data Verdict : Type 0 where
  yield_it skip_it stop_here : Verdict

-- `offset or 0`
abbrev pub offset_or_zero : Option ℤ → ℤ
offset_or_zero none = pos 0
offset_or_zero (some offset) = offset

unfoldable pub init : Option ℤ → Option ℤ → Option ℤ → SkipMode → TimeRange
init start_time end_time offset skip_mode = record {
  start_time = start_time;
  end_time = end_time;
  offset = offset_or_zero offset;
  skip_mode = skip_mode;
  is_first_page = true;
}

abbrev pub is_before : Option ℤ → ℤ → Bool
is_before none time = false
is_before (some start) time = ltb_ℤ time start

abbrev pub is_after : Option ℤ → ℤ → Bool
is_after none time = false
is_after (some last) time = ltb_ℤ last time

abbrev pub skips : SkipMode → Bool → Bool
skips skip_none first = false
skips skip_always first = true
skips skip_first_page first = first

-- `check`, at the value of `time_in_seconds`
unfoldable pub check : TimeRange → ℤ → Verdict
check f time =
    let shifted = time +ℤ f.offset in
    if is_after f.end_time shifted
    then stop_here
    else if is_before f.start_time shifted
    then if skips f.skip_mode f.is_first_page then skip_it else stop_here
    else yield_it

unfoldable pub end_page : TimeRange → TimeRange
end_page f = record f { is_first_page = false }

abbrev pub leb_ℤ : ℤ → ℤ → Bool
leb_ℤ a b = leb (pos_part a + neg_part b) (pos_part b + neg_part a)

-- From the start on, and up to the end, both included; a bound that is not given bounds nothing.
abbrev pub from_start : Option ℤ → ℤ → Bool
from_start none time = true
from_start (some start) time = leb_ℤ start time

abbrev pub up_to_end : Option ℤ → ℤ → Bool
up_to_end none time = true
up_to_end (some last) time = leb_ℤ time last

abbrev pub within : TimeRange → ℤ → Bool
within f time =
    from_start f.start_time (time +ℤ f.offset) && up_to_end f.end_time (time +ℤ f.offset)

pub not-is_before : (o : Option ℤ) (time : ℤ) → from_start o time ≡ not (is_before o time)
not-is_before none time = refl
not-is_before (some start) time = ground arith

pub not-is_after : (o : Option ℤ) (time : ℤ) → up_to_end o time ≡ not (is_after o time)
not-is_after none time = refl
not-is_after (some last) time = ground arith

-- What a reader takes of the times of a page: all that are yielded before a stop.
unfoldable pub read_page : TimeRange → List ℤ → List ℤ
unfolding check
read_page f [] = []
read_page f (time ∷ times) =
    let rest = read_page f times in
    elim (check f time) [ yield_it ↦ time ∷ rest | skip_it ↦ rest | stop_here ↦ [] ]

abbrev pub inside : TimeRange → List ℤ → List ℤ
inside f [] = []
inside f (time ∷ times) = if within f time then time ∷ inside f times else inside f times

-- The times never fall.
abbrev pub Rising : List ℤ → Type 0
Rising [] = Unit
Rising (a ∷ []) = Unit
Rising (a ∷ b ∷ times) = (a ≤ℤ b) × Rising (b ∷ times)

abbrev pub AllFrom : ℤ → List ℤ → Type 0
AllFrom low [] = Unit
AllFrom low (time ∷ times) = (low ≤ℤ time) × AllFrom low times

AllFrom-Rising : (a : ℤ) (times : List ℤ) → Rising (a ∷ times) → AllFrom a times
AllFrom-Rising a [] r = tt
AllFrom-Rising a (b ∷ times) (le, r) = (le, AllFrom-le a b times le (AllFrom-Rising b times r))
  where
    AllFrom-le : (a b : ℤ) (l : List ℤ) → a ≤ℤ b → AllFrom b l → AllFrom a l
    AllFrom-le a b [] le r = tt
    AllFrom-le a b (c ∷ l) le (le', r) = (omega (arith, le, le'), AllFrom-le a b l le r)

Rising-tail : (a : ℤ) (times : List ℤ) → Rising (a ∷ times) → Rising times
Rising-tail a [] r = tt
Rising-tail a (b ∷ times) (_, r) = r

is_after-later :
    (o : Option ℤ) (offset a b : ℤ)
    → a ≤ℤ b
    → is_after o (a +ℤ offset) ≡ true
    → is_after o (b +ℤ offset) ≡ true
is_after-later none offset a b le h = absurd (ground arith)
is_after-later (some last) offset a b le h = ground (arith, +ℤ_parts a offset, +ℤ_parts b offset)

-- After a time past the end, no later time is in the window.
inside-after :
    (f : TimeRange) (a : ℤ) (times : List ℤ)
    → is_after f.end_time (a +ℤ f.offset) ≡ true
    → AllFrom a times
    → inside f times ≡ []
inside-after f a [] h r = refl
inside-after f a (b ∷ times) h (le, r) =
    ground (arith, is_after-later f.end_time f.offset a b le h, inside-after f a times h r)

-- Where every early message is skipped, reading a page of rising times until a stop takes
-- exactly those in the window.
pub read_page-inside :
    (f : TimeRange) (times : List ℤ)
    → skips f.skip_mode f.is_first_page ≡ true
    → Rising times
    → read_page f times ≡ inside f times
unfolding read_page check
read_page-inside f [] s r = refl
read_page-inside f (time ∷ times) s r =
    let later = read_page-inside f times s (Rising-tail time times r) in
    let late = not-is_after f.end_time (time +ℤ f.offset) in
    let soon = not-is_before f.start_time (time +ℤ f.offset) in
    elim (Bool-cases (is_after f.end_time (time +ℤ f.offset))) [
      | inl past ↦
          (ground (arith, past, late, inside-after f time times past (AllFrom-Rising time times r)))
      | inr open_ ↦ elim (Bool-cases (is_before f.start_time (time +ℤ f.offset))) [
        | inl early ↦ ground (arith, late, soon, open_, early, s, later)
        | inr on_time ↦ ground (arith, late, soon, open_, on_time, later)
      ]
    ]
