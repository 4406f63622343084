-- ===== src/Filters/Pages.antt =====
-- The verdicts of `TimeRangeFilter` over the pages of a request.
use chat_downloader_fork.Base.{
  ℕ, zero, suc, Bool, true, false, ◌&&◌, Option, none, some, if◌then◌else◌, ℤ, ◌+ℤ◌, +ℤ_zero, ◌≡◌,
  refl, ap, ◌∙◌, arith, Bool-cases, inl, inr,
}
use chat_downloader_fork.Filters.TimeRange.{
  SkipMode, skip_none, skip_always, skip_first_page, TimeRange, Verdict, yield_it, skip_it,
  stop_here, offset_or_zero, init, skips, is_after, check, end_page, from_start, up_to_end,
  not-is_before, not-is_after,
}

-- The filter after some pages have been read.
unfoldable pub after_pages : ℕ → TimeRange → TimeRange
unfolding end_page
after_pages zero f = f
after_pages (suc pages) f = after_pages pages (end_page f)

-- Whether an early message is skipped, by the mode and the number of pages before.
abbrev pub may_skip : SkipMode → ℕ → Bool
may_skip skip_none pages = false
may_skip skip_always pages = true
may_skip skip_first_page zero = true
may_skip skip_first_page (suc pages) = false

-- The shifted time; no offset shifts by nothing.
abbrev pub shift_by : Option ℤ → ℤ → ℤ
shift_by none time = time
shift_by (some offset) time = time +ℤ offset

-- The verdict on a shifted time, where `skip` tells whether an early message is skipped: yielded
-- from the start to the end, both included, and never skipped after the end.
abbrev pub verdict_at : Option ℤ → Option ℤ → ℤ → Bool → Verdict
verdict_at start_time end_time time skip =
    if from_start start_time time && up_to_end end_time time
    then yield_it
    else if up_to_end end_time time && skip
    then skip_it
    else stop_here

shift_by-offset :
    (offset : Option ℤ) (time : ℤ) → time +ℤ offset_or_zero offset ≡ shift_by offset time
shift_by-offset none time = +ℤ_zero time
shift_by-offset (some offset) time = refl

check_lem :
    (f : TimeRange) (time : ℤ)
    → check f time
      ≡ verdict_at f.start_time f.end_time (time +ℤ f.offset) (skips f.skip_mode f.is_first_page)
unfolding check
check_lem f time =
    rw (not-is_before f.start_time (time +ℤ f.offset), not-is_after f.end_time (time +ℤ f.offset))
      (elim (Bool-cases (is_after f.end_time (time +ℤ f.offset))) [
        | inl past ↦ rw past (ground arith)
        | inr open_ ↦ rw open_ (ground arith)
      ])

after_pages-once : (pages : ℕ) (f : TimeRange) → after_pages (suc pages) f ≡ end_page f
unfolding after_pages end_page
after_pages-once zero f = refl
after_pages-once (suc pages) f = after_pages-once pages (end_page f)

skips-first : (mode : SkipMode) → skips mode true ≡ may_skip mode 0
skips-first skip_none = refl
skips-first skip_always = refl
skips-first skip_first_page = refl

skips-later : (mode : SkipMode) (pages : ℕ) → skips mode false ≡ may_skip mode (suc pages)
skips-later skip_none pages = refl
skips-later skip_always pages = refl
skips-later skip_first_page pages = refl

-- After any number of pages, a time-range filter yields a message exactly if its shifted time is
-- in the requested window, both ends included; one before the window that is not after its end
-- is skipped if the mode always skips, or skips on the first page and no page was read before,
-- and every other one stops the reading.
pub check-verdict_at :
    (start_time end_time offset : Option ℤ) (mode : SkipMode) (pages : ℕ) (time : ℤ)
    → check (after_pages pages (init start_time end_time offset mode)) time
      ≡ verdict_at start_time end_time (shift_by offset time) (may_skip mode pages)
unfolding init after_pages end_page
check-verdict_at start_time end_time offset mode zero time =
    check_lem (init start_time end_time offset mode) time
    ∙ ap (λ t. verdict_at start_time end_time t (skips mode true)) (shift_by-offset offset time)
    ∙ ap (verdict_at start_time end_time (shift_by offset time)) (skips-first mode)
check-verdict_at start_time end_time offset mode (suc pages) time =
    let f = init start_time end_time offset mode in
    ap (λ g. check g time) (after_pages-once pages f)
    ∙ check_lem (end_page f) time
    ∙ ap (λ t. verdict_at start_time end_time t (skips mode false)) (shift_by-offset offset time)
    ∙ ap (verdict_at start_time end_time (shift_by offset time)) (skips-later mode pages)
