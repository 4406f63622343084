-- ===== src/Parity/Tests.antt =====
-- The audit at concrete inputs.
use chat_downloader_fork.Base.{
  ◌≡◌, refl, ◌↔◌, false, none, some, [], ◌∷◌, ◌++◌, if◌then◌else◌, ◌==◌, string_Eq, nat_Eq, list_eq,
}
use chat_downloader_fork.Base.Json.{obj, end}
use chat_downloader_fork.Base.Result.{ok}
use chat_downloader_fork.Parity.Lines.{
  Bytes, Stripped, terminator, split_physical_line, split_physical_line-append,
}
use chat_downloader_fork.Parity.Stats.{AuditStats, failed}
use chat_downloader_fork.Parity.Audit.{Codec, regular}
use chat_downloader_fork.Parity.Finish.{audit_capture}
use chat_downloader_fork.Parity.Newlines.{Accepts, audit-Accepts}

-- The JSONL line `{`, which stands for the empty object, is rendered `hi`.
abbrev toy : Codec
toy = record {
  decode = λ bytes. if list_eq bytes (123 ∷ []) then some "{" else some "t";
  is_blank = λ line. false;
  loads = λ line. if line == "{" then some (obj end) else none;
  render = λ item. some (104 ∷ 105 ∷ []);
}

abbrev jsonl : Bytes
jsonl = 123 ∷ 10 ∷ []

abbrev txt : Bytes
txt = 104 ∷ 105 ∷ 10 ∷ []

audit-Accepts_example :
    (s : AuditStats) × (audit_capture toy none (regular (0, 1) jsonl) (regular (0, 2) txt) []
      ≡ ok s)
    × ((failed s ≡ false) ↔ Accepts toy none jsonl txt [])
audit-Accepts_example = audit-Accepts toy none (0, 1) (0, 2) jsonl txt [] refl

split_physical_line-append_example :
    ((split_physical_line (97 ∷ 13 ∷ 10 ∷ [])).0
        ++ terminator (split_physical_line (97 ∷ 13 ∷ 10 ∷ [])).1
      ≡ 97 ∷ 13 ∷ 10 ∷ [])
    × Stripped
        (split_physical_line (97 ∷ 13 ∷ 10 ∷ [])).0
        (split_physical_line (97 ∷ 13 ∷ 10 ∷ [])).1
split_physical_line-append_example = split_physical_line-append (97 ∷ 13 ∷ 10 ∷ [])
