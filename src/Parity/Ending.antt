-- ===== src/Parity/Ending.antt =====
-- The end of the audit: when the checks after both files are read find nothing.
use chat_downloader_fork.Base.{
  ℕ, ◌≤◌, ◌≡◌, refl, sym, ◌∙◌, true, false, not, Option, none, some, List, [], ◌∷◌, ◌==◌, nat_Eq,
  arith, ==_iff, Bool-cases, inl, inr,
}
use chat_downloader_fork.Parity.Stats.{AuditStats}
use chat_downloader_fork.Parity.Errors.{errors}
use chat_downloader_fork.Parity.Stats.{is_false, failed}
use chat_downloader_fork.Parity.Finish.{
  check_resets, check_count, check_jsonl_end, check_txt_end, check_styles, styles_differ, finish,
}

-- What the checks at the end ask for.
pub record EndOk (resets : List ℕ) (s : AuditStats) : Type 0 where
  pub no_resets : resets ≡ []
  pub clean : errors s ≡ 0
  pub lines : s.expected_txt_lines ≡ s.txt_lines
  pub jsonl_end : is_false s.jsonl.trailing ≡ false
  pub txt_end : is_false s.txt.trailing ≡ false
  pub styles : styles_differ s.jsonl.style s.txt.style ≡ false

-- `failed` without its tests of the counters.
failed-errors : (s : AuditStats) → failed s ≡ false → errors s ≡ 0
unfolding failed
failed-errors s h = ground arith

failed-count : (s : AuditStats) → failed s ≡ false → s.count_mismatch ≡ false
unfolding failed
failed-count s h = ground arith

failed-ends :
    (s : AuditStats)
    → failed s ≡ false
    → (is_false s.jsonl.trailing ≡ false) × (is_false s.txt.trailing ≡ false)
unfolding failed
failed-ends s h = ground arith

not_failed :
    (s : AuditStats)
    → errors s ≡ 0
    → s.count_mismatch ≡ false
    → is_false s.jsonl.trailing ≡ false
    → is_false s.txt.trailing ≡ false
    → failed s ≡ false
unfolding failed
not_failed s h c j t = ground arith

-- A check at the end keeps the newline fields and forgets no error.
record Keeps (s t : AuditStats) : Type 0 where
  more : errors s ≤ errors t
  jsonl : t.jsonl ≡ s.jsonl
  txt : t.txt ≡ s.txt

count-Keeps : (first : Option ℕ) (s : AuditStats) → Keeps s (check_count first s)
unfolding check_count
count-Keeps none s = ground arith
count-Keeps (some line) s = ground arith

count-flag :
    (first : Option ℕ) (s : AuditStats)
    → (check_count first s).count_mismatch ≡ not (s.expected_txt_lines == s.txt_lines)
unfolding check_count
count-flag none s = ground arith
count-flag (some line) s = ground arith

count-same :
    (first : Option ℕ) (s : AuditStats)
    → s.expected_txt_lines ≡ s.txt_lines
    → check_count first s ≡ record s { count_mismatch = false }
unfolding check_count
count-same first s e = rw ((==_iff s.expected_txt_lines s.txt_lines).1 e)

jsonl_end-Keeps :
    (s : AuditStats)
    → Keeps s (check_jsonl_end s) × ((check_jsonl_end s).count_mismatch ≡ s.count_mismatch)
unfolding check_jsonl_end
jsonl_end-Keeps s = ground arith

txt_end-Keeps :
    (s : AuditStats)
    → Keeps s (check_txt_end s) × ((check_txt_end s).count_mismatch ≡ s.count_mismatch)
unfolding check_txt_end
txt_end-Keeps s = ground arith

styles-Keeps :
    (s : AuditStats)
    → Keeps s (check_styles s) × ((check_styles s).count_mismatch ≡ s.count_mismatch)
unfolding check_styles
styles-Keeps s = elim (Bool-cases (styles_differ s.jsonl.style s.txt.style)) [
  | inl differ ↦
      rw (differ, check_styles) (record { more = omega arith; jsonl = refl; txt = refl }, refl)
  | inr same ↦
      rw (same, check_styles) (record { more = omega arith; jsonl = refl; txt = refl }, refl)
]

styles-errors :
    (s : AuditStats)
    → errors (check_styles s) ≤ errors s
    → styles_differ s.jsonl.style s.txt.style ≡ false
unfolding check_styles
styles-errors s h = elim (Bool-cases (styles_differ s.jsonl.style s.txt.style)) [
  | inl differ ↦ absurd (let h' = rw (differ, check_styles) at h in omega arith)
  | inr same ↦ same
]

Keeps-trans : {s t u : AuditStats} → Keeps s t → Keeps t u → Keeps s u
Keeps-trans p q = record { more = omega arith; jsonl = q.jsonl ∙ p.jsonl; txt = q.txt ∙ p.txt }

-- The audit passes its last checks exactly if they all hold.
module _ (first : Option ℕ) where
  finish-clean : (s : AuditStats) → failed (finish first [] s) ≡ false → EndOk [] s
  unfolding finish check_resets
  finish-clean s h =
      let s1 = check_count first s in
      let s2 = check_jsonl_end s1 in
      let s3 = check_txt_end s2 in
      let k1 = count-Keeps first s in
      let (k2, c2) = jsonl_end-Keeps s1 in
      let (k3, c3) = txt_end-Keeps s2 in
      let (k4, c4) = styles-Keeps s3 in
      let k = Keeps-trans k1 (Keeps-trans k2 k3) in
      let zero_errors = failed-errors (check_styles s3) h in
      let (j, t) = failed-ends (check_styles s3) h in
      let flag =
        sym (count-flag first s) ∙ sym c2 ∙ sym c3 ∙ sym c4 ∙ failed-count (check_styles s3) h in
      record {
        no_resets = refl;
        clean = omega (arith, k.more, k4.more, zero_errors);
        lines = (==_iff s.expected_txt_lines s.txt_lines).0 (ground (arith, flag));
        jsonl_end = rw (k4.jsonl ∙ k.jsonl) at j;
        txt_end = rw (k4.txt ∙ k.txt) at t;
        styles = rw (k.jsonl, k.txt) at (styles-errors s3 (omega (arith, zero_errors)));
      }

  finish-resets :
      (at : ℕ) (later : List ℕ) (s : AuditStats) → failed (finish first (at ∷ later) s) ≡ true
  unfolding finish check_resets
  finish-resets at later s =
      let s0 = check_resets (at ∷ later) s in
      let s1 = check_count first s0 in
      let s2 = check_jsonl_end s1 in
      let s3 = check_txt_end s2 in
      let k1 = count-Keeps first s0 in
      let k2 = (jsonl_end-Keeps s1).0 in
      let k3 = (txt_end-Keeps s2).0 in
      let k4 = (styles-Keeps s3).0 in
      let k = Keeps-trans k1 (Keeps-trans k2 (Keeps-trans k3 k4)) in
      elim (Bool-cases (failed (check_styles s3))) [
        | inl bad ↦ bad
        | inr fine ↦ absurd (omega (arith, k.more, failed-errors (check_styles s3) fine))
      ]

  pub finish-EndOk :
      (resets : List ℕ) (s : AuditStats) → failed (finish first resets s) ≡ false → EndOk resets s
  finish-EndOk [] s h = finish-clean s h
  finish-EndOk (at ∷ later) s h = absurd (ground (arith, finish-resets at later s))

  pub finish-ok :
      (resets : List ℕ) (s : AuditStats) → EndOk resets s → failed (finish first resets s) ≡ false
  unfolding finish check_resets check_jsonl_end check_txt_end check_styles
  finish-ok [] s k =
      rw (count-same first s k.lines, k.jsonl_end, k.txt_end, k.styles)
        (not_failed (record s { count_mismatch = false }) k.clean refl k.jsonl_end k.txt_end)
  finish-ok (at ∷ later) s k = absurd (ground (arith, k.no_resets))
