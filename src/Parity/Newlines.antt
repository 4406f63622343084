-- ===== src/Parity/Newlines.antt =====
-- Newlines of whole files, and the verdict of `audit_capture` on two regular files.
use chat_downloader_fork.Base.{
  ℕ, ◌≡◌, refl, ap, ◌∙◌, true, false, Option, none, some, List, [], ◌∷◌, map, ◌↔◌, ◌⊎◌, inl, inr,
  ◌==◌, nat_Eq, nat_eq_iff, list_eq, ℤ, arith, Bool-cases,
}
use chat_downloader_fork.Base.Result.{ok}
use chat_downloader_fork.Parity.Lines.{
  Bytes, Style, lf, crlf, read_lines, split_physical_line, cons_to_first,
}
use chat_downloader_fork.Parity.Stats.{
  Newlines, see_newline, no_newlines, is_false, failed, AuditStats,
}
use chat_downloader_fork.Parity.Audit.{Codec, regular}
use chat_downloader_fork.Parity.Finish.{styles_differ, audit_streams, audit_capture, same_identity}
use chat_downloader_fork.Parity.Expected.{content, style, expected_lines}
use chat_downloader_fork.Parity.Run.{NewlinesOk, newlines_after, AllDecode}
use chat_downloader_fork.Parity.Verdict.{Agrees, passes-Agrees, Agrees-passes}
use chat_downloader_fork.Dedup.Formatted as Formatted

-- Every line ends in the given newline.
abbrev pub AllStyle : Style → List Bytes → Type 0
AllStyle s [] = Unit
AllStyle s (raw ∷ lines) = (style raw ≡ some s) × AllStyle s lines

-- Every line but the last ends in a newline.
abbrev pub Physical : List Bytes → Type 0
Physical [] = Unit
Physical (raw ∷ []) = Unit
Physical (raw ∷ next ∷ lines) = ((s : Style) × (style raw ≡ some s)) × Physical (next ∷ lines)

style_cons :
    (b : ℕ) (line : Bytes) (s : Style)
    → style line ≡ some s
    → (t : Style) × (style (b ∷ line) ≡ some t)
unfolding split_physical_line
style_cons b line s h = elim (Bool-cases (list_eq (b ∷ line) (13 ∷ 10 ∷ []))) [
  | inl e ↦ (crlf, ground arith)
  | inr e ↦ elim (Bool-cases (list_eq (b ∷ line) (10 ∷ []))) [
    | inl e' ↦ (lf, ground arith)
    | inr e' ↦ (s, ground arith)
  ]
]

style_line_feed : (b : ℕ) → (b == 10) ≡ true → style (b ∷ []) ≡ some lf
unfolding split_physical_line
style_line_feed b h = ground (arith, nat_eq_iff b 10)

Physical-cons :
    (raw : Bytes) (lines : List Bytes)
    → (s : Style) → style raw ≡ some s
    → Physical lines
    → Physical (raw ∷ lines)
Physical-cons raw [] s e p = tt
Physical-cons raw (next ∷ lines) s e p = ((s, e), p)

Physical-first : (b : ℕ) (lines : List Bytes) → Physical lines → Physical (cons_to_first b lines)
Physical-first b [] p = tt
Physical-first b (raw ∷ []) p = tt
Physical-first b (raw ∷ next ∷ lines) ((s, e), p) = (style_cons b raw s e, p)

pub read_lines-Physical : (bytes : Bytes) → Physical (read_lines bytes)
unfolding read_lines
read_lines-Physical [] = tt
read_lines-Physical (b ∷ rest) = elim (Bool-cases (b == 10)) [
  | inl e ↦
      rw e (
        Physical-cons (b ∷ []) (read_lines rest) lf (style_line_feed b e)
          (read_lines-Physical rest))
  | inr e ↦ rw e (Physical-first b (read_lines rest) (read_lines-Physical rest))
]

see-same :
    (s r : Style) (seen : Newlines)
    → seen.style ≡ some s
    → (see_newline seen (some r)).1 ≡ false
    → (r ≡ s)
      × ((see_newline seen (some r)).0.style ≡ some s)
      × ((see_newline seen (some r)).0.trailing ≡ some true)
unfolding see_newline
see-same lf lf seen e h = rw e (refl, refl, refl)
see-same crlf crlf seen e h = rw e (refl, refl, refl)
see-same lf crlf seen e h = absurd (ground arith)
see-same crlf lf seen e h = absurd (ground arith)

see-first :
    (r : Style) (seen : Newlines)
    → seen.style ≡ none
    → ((see_newline seen (some r)).1 ≡ false)
      × ((see_newline seen (some r)).0.style ≡ some r)
      × ((see_newline seen (some r)).0.trailing ≡ some true)
unfolding see_newline
see-first r seen e = rw e (refl, refl, refl)

see-again :
    (s : Style) (seen : Newlines)
    → seen.style ≡ some s
    → ((see_newline seen (some s)).1 ≡ false)
      × ((see_newline seen (some s)).0.style ≡ some s)
      × ((see_newline seen (some s)).0.trailing ≡ some true)
unfolding see_newline
see-again lf seen e = rw e (refl, refl, refl)
see-again crlf seen e = rw e (refl, refl, refl)

see-none : (seen : Newlines) → is_false (see_newline seen none).0.trailing ≡ true
unfolding see_newline
see-none seen = refl

-- The last line ends in a newline too, if the last flag says so.
last_style :
    (seen : Newlines) (o : Option Style)
    → is_false (see_newline seen o).0.trailing ≡ false
    → (r : Style) × (o ≡ some r)
last_style seen none h = absurd (ground (arith, see-none seen))
last_style seen (some r) h = (r, refl)

-- The first line of physical lines whose last line ends in a newline ends in one.
first_style :
    (seen : Newlines) (raw : Bytes) (lines : List Bytes)
    → Physical (raw ∷ lines)
    → is_false (newlines_after seen (raw ∷ lines)).trailing ≡ false
    → (r : Style) × (style raw ≡ some r) × Physical lines
first_style seen raw [] p h =
    unfold newlines_after in let (r, e) = last_style seen (style raw) h in (r, e, tt)
first_style seen raw (next ∷ lines) ((r, e), p) h = (r, e, p)

-- Once a style has been seen, all lines have it.
AllStyle-later :
    (s : Style) (seen : Newlines) (lines : List Bytes)
    → seen.style ≡ some s
    → Physical lines
    → NewlinesOk seen lines
    → is_false (newlines_after seen lines).trailing ≡ false
    → AllStyle s lines × ((newlines_after seen lines).style ≡ some s)
unfolding newlines_after
AllStyle-later s seen [] e p k h = (tt, e)
AllStyle-later s seen (raw ∷ lines) e p (same, k) h =
    let (r, raw_is, p') = first_style seen raw lines p h in
    let (r_is, kept, ended) = see-same s r seen e (rw raw_is at same) in
    let (all, last) =
      AllStyle-later s (see_newline seen (style raw)).0 lines
        (ap (λ o. (see_newline seen o).0.style) raw_is ∙ kept) p' k h in
    ((raw_is ∙ ap some r_is, all), last)

-- Physical lines whose newlines pass the audit: none, or all with one style.
AllStyle-of :
    (lines : List Bytes)
    → Physical lines
    → NewlinesOk no_newlines lines
    → is_false (newlines_after no_newlines lines).trailing ≡ false
    → (lines ≡ [])
      ⊎ ((s : Style) × AllStyle s lines × ((newlines_after no_newlines lines).style ≡ some s))
unfolding newlines_after
AllStyle-of [] p k h = inl refl
AllStyle-of (raw ∷ lines) p (same, k) h =
    let (r, raw_is, p') = first_style no_newlines raw lines p h in
    let kept = (see-first r no_newlines refl).1 in
    let (all, last) =
      AllStyle-later r (see_newline no_newlines (style raw)).0 lines
        (ap (λ o. (see_newline no_newlines o).0.style) raw_is ∙ kept) p' k h in
    inr (r, (raw_is, all), last)

of_AllStyle-later :
    (s : Style) (seen : Newlines) (lines : List Bytes)
    → seen.style ≡ some s
    → is_false seen.trailing ≡ false
    → AllStyle s lines
    → NewlinesOk seen lines
      × ((newlines_after seen lines).style ≡ some s)
      × (is_false (newlines_after seen lines).trailing ≡ false)
unfolding newlines_after
of_AllStyle-later s seen [] e t all = (tt, e, t)
of_AllStyle-later s seen (raw ∷ lines) e t (raw_is, all) =
    let (same, kept, ended) = see-again s seen e in
    let (k, last, fine) =
      of_AllStyle-later s (see_newline seen (style raw)).0 lines
        (ap (λ o. (see_newline seen o).0.style) raw_is ∙ kept)
        (ap (λ o. is_false (see_newline seen o).0.trailing) raw_is ∙ ap is_false ended) all in
    ((ap (λ o. (see_newline seen o).1) raw_is ∙ same, k), last, fine)

of_AllStyle :
    (s : Style) (lines : List Bytes)
    → AllStyle s lines
    → NewlinesOk no_newlines lines
      × (is_false (newlines_after no_newlines lines).trailing ≡ false)
      × (((newlines_after no_newlines lines).style ≡ none)
          ⊎ ((newlines_after no_newlines lines).style ≡ some s))
unfolding newlines_after
of_AllStyle s [] all = (tt, refl, inl refl)
of_AllStyle s (raw ∷ lines) (raw_is, all) =
    let (same, kept, ended) = see-first s no_newlines refl in
    let (k, last, fine) =
      of_AllStyle-later s (see_newline no_newlines (style raw)).0 lines
        (ap (λ o. (see_newline no_newlines o).0.style) raw_is ∙ kept)
        (ap (λ o. is_false (see_newline no_newlines o).0.trailing) raw_is ∙ ap is_false ended)
        all in
    ((ap (λ o. (see_newline no_newlines o).1) raw_is ∙ same, k), fine, inr last)

styles-agree :
    (s : Style) (o : Option Style)
    → (o ≡ none) ⊎ (o ≡ some s)
    → (p : Option Style) → (p ≡ none) ⊎ (p ≡ some s)
    → styles_differ o p ≡ false
styles-agree lf o (inl e) p f = ground arith
styles-agree lf o (inr e) p f = ground arith
styles-agree crlf o (inl e) p f = ground arith
styles-agree crlf o (inr e) p f = ground arith

same_of_styles : (s t : Style) → styles_differ (some s) (some t) ≡ false → s ≡ t
same_of_styles lf lf h = refl
same_of_styles crlf crlf h = refl
same_of_styles lf crlf h = absurd (ground arith)
same_of_styles crlf lf h = absurd (ground arith)

module _ (codec : Codec) (max_seen : Option ℤ) where
  -- What a TXT file has to be: line for line what the JSONL file asks for, in UTF-8, and with one
  -- style of newline at the end of every line of both files.
  pub record Accepts (jsonl txt : Bytes) (resets : List ℕ) : Type 0 where
    pub expected :
        expected_lines codec max_seen 1 (Formatted.init max_seen) resets (read_lines jsonl)
        ≡ some (map content (read_lines txt))
    pub decodes : AllDecode codec max_seen (read_lines txt)
    pub newline : Style
    pub jsonl_newlines : AllStyle newline (read_lines jsonl)
    pub txt_newlines : AllStyle newline (read_lines txt)

  one_style :
      (js ts : List Bytes) (resets : List ℕ)
      → Physical js
      → Physical ts
      → Agrees codec max_seen js ts resets
      → (s : Style) × AllStyle s js × AllStyle s ts
  one_style js ts resets pj pt g =
      go (AllStyle-of js pj g.jsonl g.jsonl_end) (AllStyle-of ts pt g.txt g.txt_end)
    where
      go :
          (js ≡ [])
            ⊎ ((s : Style) × AllStyle s js × ((newlines_after no_newlines js).style ≡ some s))
          → (ts ≡ [])
            ⊎ ((s : Style) × AllStyle s ts × ((newlines_after no_newlines ts).style ≡ some s))
          → (s : Style) × AllStyle s js × AllStyle s ts
      go (inl e) (inl f) = (lf, rw e tt, rw f tt)
      go (inl e) (inr (s, all, _)) = (s, rw e tt, all)
      go (inr (s, all, _)) (inl f) = (s, all, rw f tt)
      go (inr (s, all, is)) (inr (t, all', is')) =
          let same : s ≡ t = same_of_styles s t (rw (is, is') at g.styles) in
          (t, rw same at all, all')

  agrees :
      (js ts : List Bytes) (resets : List ℕ) (s : Style)
      → expected_lines codec max_seen 1 (Formatted.init max_seen) resets js ≡ some (map content ts)
      → AllDecode codec max_seen ts
      → AllStyle s js
      → AllStyle s ts
      → Agrees codec max_seen js ts resets
  agrees js ts resets s e d all all' =
      let (k, fine, last) = of_AllStyle s js all in
      let (k', fine', last') = of_AllStyle s ts all' in
      record {
        expected = e;
        decodes = d;
        jsonl = k;
        txt = k';
        jsonl_end = fine;
        txt_end = fine';
        styles = styles-agree s _ last _ last';
      }

  audit_regular :
      (i i' : ℕ × ℕ) (jsonl txt : Bytes) (resets : List ℕ)
      → same_identity codec max_seen (some i) (some i') ≡ false
      → audit_capture codec max_seen (regular i jsonl) (regular i' txt) resets
        ≡ ok (audit_streams codec max_seen (read_lines jsonl) (read_lines txt) false false resets)
  unfolding audit_capture
  audit_regular i i' jsonl txt resets h = rw h refl

  -- On two regular files that are not the same file, the parity audit returns statistics, and
  -- these have not failed exactly if every JSONL line is an object that can be deduplicated and
  -- rendered, all resets are reached, the TXT lines are the rendered lines of the items that are
  -- no duplicates, in order, every TXT line decodes, and all lines of both files end in newlines
  -- of one style.
  pub audit-Accepts :
      (i i' : ℕ × ℕ) (jsonl txt : Bytes) (resets : List ℕ)
      → same_identity codec max_seen (some i) (some i') ≡ false
      → (s : AuditStats) × (audit_capture codec max_seen (regular i jsonl) (regular i' txt) resets
          ≡ ok s)
        × ((failed s ≡ false) ↔ Accepts jsonl txt resets)
  audit-Accepts i i' jsonl txt resets h =
      let js = read_lines jsonl in
      let ts = read_lines txt in
      (
        audit_streams codec max_seen js ts false false resets,
        audit_regular i i' jsonl txt resets h,
        (
          λ passed.
              let g = passes-Agrees codec max_seen js ts resets false false passed in
              let (s, all, all') =
                one_style js ts resets (read_lines-Physical jsonl) (read_lines-Physical txt) g in
              record {
                expected = g.expected;
                decodes = g.decodes;
                newline = s;
                jsonl_newlines = all;
                txt_newlines = all';
              },
          λ g.
              Agrees-passes codec max_seen js ts resets false false (
                agrees js ts resets g.newline g.expected g.decodes g.jsonl_newlines g.txt_newlines),
        ),
      )
