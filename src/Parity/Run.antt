-- ===== src/Parity/Run.antt =====
-- All JSONL lines, for an audit that has found no error so far.
use chat_downloader_fork.Base.{
  ℕ, ◌+◌, ◌≡◌, refl, ap, sym, ◌∙◌, String, false, Option, none, some, List, [], ◌∷◌, ◌++◌, map,
  nat_Eq, ℤ, arith,
}
use chat_downloader_fork.Base.Json.{Fields}
use chat_downloader_fork.Dedup.SeenCache.{SeenCache}
use chat_downloader_fork.Parity.Lines.{Bytes}
use chat_downloader_fork.Parity.Stats.{Newlines, see_newline}
use chat_downloader_fork.Parity.Audit.{Codec, Audit, audit_line, audit_lines}
use chat_downloader_fork.Parity.Expected.{content, style, reset, item_of, rendering}
use chat_downloader_fork.Parity.Errors.{errors}
use chat_downloader_fork.Parity.Progress.{IsGood, TxtOk, TxtStep, suppressed, compared}
use chat_downloader_fork.Parity.Expected.{expected_lines, prepend}
use chat_downloader_fork.Parity.Step.{LineOk, audit_line-clean}
use chat_downloader_fork.Parity.Errors.{errors-audit_lines-le}

-- The newlines of the lines agree with each other and with those seen before.
abbrev pub NewlinesOk : Newlines → List Bytes → Type 0
NewlinesOk seen [] = Unit
NewlinesOk seen (raw ∷ lines) =
    ((see_newline seen (style raw)).1 ≡ false) × NewlinesOk (see_newline seen (style raw)).0 lines

-- The newline fields after the lines.
unfoldable pub newlines_after : Newlines → List Bytes → Newlines
newlines_after seen [] = seen
newlines_after seen (raw ∷ lines) = newlines_after (see_newline seen (style raw)).0 lines

module _ (codec : Codec) (max_seen : Option ℤ) where
  abbrev pub Decodes : Bytes → Type 0
  Decodes raw = (t : String) × (codec.decode (content raw) ≡ some t)

  abbrev pub AllDecode : List Bytes → Type 0
  AllDecode [] = Unit
  AllDecode (raw ∷ lines) = Decodes raw × AllDecode lines

  -- What the JSONL lines leave when no error is found.
  pub record RunOk (n : ℕ) (js : List Bytes) (a b : Audit) : Type 0 where
    pub used : List Bytes
    pub read : a.txt ≡ used ++ b.txt
    pub expected :
        b.resets ≡ []
        → expected_lines codec max_seen n a.deduplicator a.resets js ≡ some (map content used)
    pub decodes : AllDecode used
    pub jsonl : NewlinesOk a.stats.jsonl js
    pub txt : NewlinesOk a.stats.txt used
    pub jsonl_after : b.stats.jsonl ≡ newlines_after a.stats.jsonl js
    pub txt_after : b.stats.txt ≡ newlines_after a.stats.txt used
    pub good : IsGood b.stats

  expected_lines-cons :
      (n : ℕ) (c : SeenCache) (resets : List ℕ) (raw : Bytes) (js : List Bytes) (item : Fields)
      (next : SeenCache) (line : Option Bytes) (rest : List Bytes)
      → item_of codec (content raw) ≡ some item
      → rendering codec (reset max_seen n c resets).0 item ≡ some (next, line)
      → expected_lines codec max_seen (n + 1) next (reset max_seen n c resets).1 js ≡ some rest
      → expected_lines codec max_seen n c resets (raw ∷ js) ≡ some (prepend codec line rest)
  unfolding expected_lines
  expected_lines-cons n c [] raw js item next line rest p r e = rw (p, r, e, expected_lines)
  expected_lines-cons n c (at ∷ later) raw js item next line rest p r e =
      rw (p, r, e, expected_lines)

  RunOk-nil : (n : ℕ) (a : Audit) → IsGood a.stats → RunOk n [] a a
  unfolding newlines_after
  RunOk-nil n a g = record {
    used = [];
    read = refl;
    expected = λ e. unfold expected_lines in rw e refl;
    decodes = tt;
    jsonl = tt;
    txt = tt;
    jsonl_after = refl;
    txt_after = refl;
    good = g;
  }

  module _ (n : ℕ) (raw : Bytes) (js : List Bytes) (a m b : Audit) where
    RunOk-suppressed :
        (k : LineOk codec max_seen n raw a m)
        → k.line ≡ none
        → m.txt ≡ a.txt
        → m.stats.txt ≡ a.stats.txt
        → RunOk (n + 1) js m b
        → RunOk n (raw ∷ js) a b
    unfolding newlines_after
    RunOk-suppressed k e t s r = record {
      used = r.used;
      read = sym t ∙ r.read;
      expected = λ done.
          expected_lines-cons n a.deduplicator a.resets raw js k.item k.next none
            (map content r.used) k.parsed (rw e at k.rendered)
            (rw (k.deduplicator, k.resets) at (r.expected done));
      decodes = r.decodes;
      jsonl = (k.newline, rw k.jsonl at r.jsonl);
      txt = rw s at r.txt;
      jsonl_after = r.jsonl_after ∙ ap (λ x. newlines_after x js) k.jsonl;
      txt_after = r.txt_after ∙ ap (λ x. newlines_after x r.used) s;
      good = r.good;
    }

    RunOk-compared :
        (k : LineOk codec max_seen n raw a m) (expected txt_line : Bytes) (rest : List Bytes)
        → k.line ≡ some expected
        → a.txt ≡ txt_line ∷ rest
        → TxtOk codec max_seen txt_line expected a.stats.txt
        → m.txt ≡ rest
        → m.stats.txt ≡ (see_newline a.stats.txt (style txt_line)).0
        → RunOk (n + 1) js m b
        → RunOk n (raw ∷ js) a b
    unfolding newlines_after
    RunOk-compared k expected txt_line rest e next good left s r = record {
      used = txt_line ∷ r.used;
      read = next ∙ ap (◌∷◌ txt_line) (sym left ∙ r.read);
      expected = λ done.
          expected_lines-cons n a.deduplicator a.resets raw js k.item k.next (some expected)
            (map content r.used) k.parsed (rw e at k.rendered)
            (rw (k.deduplicator, k.resets) at (r.expected done))
          ∙ ap (λ l. some (l ∷ map content r.used)) (sym good.same);
      decodes = ((good.decoded, good.decodes), r.decodes);
      jsonl = (k.newline, rw k.jsonl at r.jsonl);
      txt = (good.newline, rw s at r.txt);
      jsonl_after = r.jsonl_after ∙ ap (λ x. newlines_after x js) k.jsonl;
      txt_after = r.txt_after ∙ ap (λ x. newlines_after x r.used) s;
      good = r.good;
    }

    RunOk-cons :
        (k : LineOk codec max_seen n raw a m) {line : Option Bytes}
        → k.line ≡ line
        → TxtStep codec max_seen a m line
        → RunOk (n + 1) js m b
        → RunOk n (raw ∷ js) a b
    RunOk-cons k e (suppressed t s) r = RunOk-suppressed k e t s r
    RunOk-cons k e (compared expected txt_line rest next good left s) r =
        RunOk-compared k expected txt_line rest e next good left s r

  -- Lines in which no error is found are as expected.
  pub audit_lines-clean :
      (n : ℕ) (js : List Bytes) (a : Audit)
      → IsGood a.stats
      → errors (audit_lines codec max_seen n js a).stats ≡ 0
      → RunOk n js a (audit_lines codec max_seen n js a)
  unfolding audit_lines
  audit_lines-clean n [] a g h = RunOk-nil n a g
  audit_lines-clean n (raw ∷ js) a g h =
      let m = audit_line codec max_seen n raw a in
      let k =
        audit_line-clean codec max_seen n raw a g
          (omega (arith, errors-audit_lines-le codec max_seen (n + 1) js m)) in
      RunOk-cons n raw js a m (audit_lines codec max_seen (n + 1) js m) k refl k.step
        (audit_lines-clean (n + 1) js m k.good h)
