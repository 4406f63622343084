-- ===== src/Parity/Verdict.antt =====
-- The verdict of the audit: it passes exactly on a TXT file that is what the JSONL file asks for.
use chat_downloader_fork.Base.{
  ℕ, ◌+◌, ◌≡◌, refl, ap, sym, ◌∙◌, Bool, false, Option, none, some, List, [], ◌∷◌, ◌++◌, map,
  append-nil, if◌then◌else◌, nat_Eq, length, ℤ, arith,
}
use chat_downloader_fork.Dedup.Formatted.{should_emit}
use chat_downloader_fork.Dedup.Formatted as Formatted
use chat_downloader_fork.Parity.Lines.{Bytes}
use chat_downloader_fork.Parity.Stats.{AuditStats}
use chat_downloader_fork.Parity.Audit.{Codec, Audit, note_txt_line, audit_lines, drain_txt}
use chat_downloader_fork.Parity.Expected.{content}
use chat_downloader_fork.Parity.Errors.{errors}
use chat_downloader_fork.Parity.Progress.{IsGood, note_txt-Noted}
use chat_downloader_fork.Parity.Stats.{is_false, no_newlines, new_stats, failed, is_none}
use chat_downloader_fork.Parity.Expected.{expected_lines}
use chat_downloader_fork.Parity.Finish.{styles_differ, finish, audit_streams}
use chat_downloader_fork.Parity.Run.{
  NewlinesOk, newlines_after, AllDecode, RunOk, audit_lines-clean,
}
use chat_downloader_fork.Parity.Complete.{audit_lines-ok}
use chat_downloader_fork.Parity.Ending.{EndOk, finish-EndOk, finish-ok}
use chat_downloader_fork.Parity.Errors.{errors-drain-le}

module _ (codec : Codec) (max_seen : Option ℤ) where
  note_txt-read :
      (raw : Bytes) (s : AuditStats)
      → ((note_txt_line codec max_seen raw s).txt_lines ≡ s.txt_lines + 1)
        × ((note_txt_line codec max_seen raw s).expected_txt_lines ≡ s.expected_txt_lines)
  note_txt-read raw s = let k = note_txt-Noted codec max_seen raw s in (k.read, k.expected)

  -- The lines that are left are all counted.
  drain-read :
      (txt : List Bytes) (s : AuditStats) (first : Option ℕ)
      → ((drain_txt codec max_seen txt s first).0.txt_lines ≡ s.txt_lines + length txt)
        × ((drain_txt codec max_seen txt s first).0.expected_txt_lines ≡ s.expected_txt_lines)
  unfolding drain_txt
  drain-read [] s first = (omega arith, refl)
  drain-read (raw ∷ rest) s first =
      let s' = note_txt_line codec max_seen raw s in
      let (read, expected) = note_txt-read raw s in
      let (all, same) = drain-read rest s' (if is_none first then some s'.txt_lines else first) in
      (omega (arith, read, all), same ∙ expected)

  drain_nil : (s : AuditStats) (first : Option ℕ) → drain_txt codec max_seen [] s first ≡ (s, first)
  unfolding drain_txt
  drain_nil s first = refl

  abbrev opened : List Bytes → List ℕ → Bool → Bool → Audit
  opened txt resets jsonl_missing txt_missing = record {
    stats = record new_stats { jsonl_missing = jsonl_missing; txt_missing = txt_missing };
    deduplicator = Formatted.init max_seen;
    resets = resets;
    txt = txt;
  }

  -- The TXT lines are those that the JSONL lines ask for, decode, and all newlines agree.
  pub record Agrees (js ts : List Bytes) (resets : List ℕ) : Type 0 where
    pub expected :
        expected_lines codec max_seen 1 (Formatted.init max_seen) resets js ≡ some (map content ts)
    pub decodes : AllDecode codec max_seen ts
    pub jsonl : NewlinesOk no_newlines js
    pub txt : NewlinesOk no_newlines ts
    pub jsonl_end : is_false (newlines_after no_newlines js).trailing ≡ false
    pub txt_end : is_false (newlines_after no_newlines ts).trailing ≡ false
    pub styles :
        styles_differ (newlines_after no_newlines js).style (newlines_after no_newlines ts).style
        ≡ false

  opened-IsGood :
      (ts : List Bytes) (resets : List ℕ) (m m' : Bool) → IsGood (opened ts resets m m').stats
  opened-IsGood ts resets m m' = record { clean = omega arith; complete = refl; level = refl }

  module _ (js ts : List Bytes) (resets : List ℕ) (m m' : Bool) where
    abbrev run : Audit
    run = audit_lines codec max_seen 1 js (opened ts resets m m')

    abbrev drained : AuditStats × Option ℕ
    drained = drain_txt codec max_seen run.txt run.stats none

    streams : audit_streams codec max_seen js ts m m' resets ≡ finish drained.1 run.resets drained.0
    unfolding audit_streams
    streams = refl

    passes-Agrees' :
        RunOk codec max_seen 1 js (opened ts resets m m') run
        → EndOk run.resets drained.0
        → run.txt ≡ []
        → Agrees js ts resets
    passes-Agrees' r k none_left =
        let whole : ts ≡ r.used = r.read ∙ ap (λ l. r.used ++ l) none_left ∙ append-nil r.used in
        let last : drained.0 ≡ run.stats =
          rw none_left (ap (λ p. p.0) (drain_nil run.stats none)) in
        let jsonl_is : drained.0.jsonl ≡ newlines_after no_newlines js =
          ap (λ s. s.jsonl) last ∙ r.jsonl_after in
        let txt_is : drained.0.txt ≡ newlines_after no_newlines ts =
          ap (λ s. s.txt) last ∙ r.txt_after ∙ ap (newlines_after no_newlines) (sym whole) in
        record {
          expected = rw whole (r.expected k.no_resets);
          decodes = rw whole r.decodes;
          jsonl = r.jsonl;
          txt = rw whole r.txt;
          jsonl_end = rw jsonl_is at k.jsonl_end;
          txt_end = rw txt_is at k.txt_end;
          styles = rw (jsonl_is, txt_is) at k.styles;
        }

    nothing_left :
        (l : List Bytes) (s : AuditStats)
        → s.expected_txt_lines ≡ s.txt_lines
        → (drain_txt codec max_seen l s none).0.expected_txt_lines
          ≡ (drain_txt codec max_seen l s none).0.txt_lines
        → l ≡ []
    nothing_left [] s level h = refl
    nothing_left (raw ∷ rest) s level h =
        let d = drain-read (raw ∷ rest) s none in absurd (omega (arith, d.0, d.1))

    pub passes-Agrees :
        failed (audit_streams codec max_seen js ts m m' resets) ≡ false → Agrees js ts resets
    passes-Agrees h =
        let k = finish-EndOk drained.1 run.resets drained.0 (rw streams at h) in
        let start = opened-IsGood ts resets m m' in
        let clean : errors run.stats ≡ 0 =
          omega (arith, k.clean, errors-drain-le codec max_seen run.txt run.stats none) in
        let r = audit_lines-clean codec max_seen 1 js (opened ts resets m m') start clean in
        passes-Agrees' r k (nothing_left run.txt run.stats r.good.level k.lines)

    pub Agrees-passes :
        Agrees js ts resets → failed (audit_streams codec max_seen js ts m m' resets) ≡ false
    Agrees-passes g =
        let start = opened-IsGood ts resets m m' in
        let f =
          audit_lines-ok codec max_seen 1 js (opened ts resets m m') [] ts start
            (sym (append-nil ts)) g.expected g.decodes g.jsonl g.txt in
        let r = audit_lines-clean codec max_seen 1 js (opened ts resets m m') start f.clean in
        let whole : ts ≡ r.used = r.read ∙ ap (λ l. r.used ++ l) f.left ∙ append-nil r.used in
        let last : drained.0 ≡ run.stats = rw f.left (ap (λ p. p.0) (drain_nil run.stats none)) in
        let jsonl_is : drained.0.jsonl ≡ newlines_after no_newlines js =
          ap (λ s. s.jsonl) last ∙ r.jsonl_after in
        let txt_is : drained.0.txt ≡ newlines_after no_newlines ts =
          ap (λ s. s.txt) last ∙ r.txt_after ∙ ap (newlines_after no_newlines) (sym whole) in
        rw streams (
          finish-ok drained.1 run.resets drained.0 (record {
            no_resets = f.no_resets;
            clean = ap errors last ∙ f.clean;
            lines = rw last r.good.level;
            jsonl_end = rw jsonl_is g.jsonl_end;
            txt_end = rw txt_is g.txt_end;
            styles = rw (jsonl_is, txt_is) g.styles;
          }))
