-- ===== src/Parity/Expected.antt =====
-- What the audit should find, with no counters: the line that the TXT file should have for a JSONL
-- line, and for a whole JSONL file.
use chat_downloader_fork.Base.{
  ℕ, ◌+◌, true, false, Option, none, some, List, [], ◌∷◌, if◌then◌else◌, ◌==◌, nat_Eq, ℤ,
}
use chat_downloader_fork.Base.Json.{Json, obj, Fields}
use chat_downloader_fork.Base.Result.{ok, raise}
use chat_downloader_fork.Dedup.SeenCache.{SeenCache}
use chat_downloader_fork.Dedup.Formatted.{should_emit}
use chat_downloader_fork.Dedup.Formatted as Formatted
use chat_downloader_fork.Parity.Lines.{Bytes, Style, split_physical_line}
use chat_downloader_fork.Parity.Audit.{Codec}

abbrev pub content : Bytes → Bytes
content raw = (split_physical_line raw).0

abbrev pub style : Bytes → Option Style
style raw = (split_physical_line raw).1

abbrev pub object_of : Json → Option Fields
object_of (obj item) = some item
object_of _ = none

-- The deduplicator and the resets that are left, once a reset at line `n` has been made.
unfoldable pub reset : Option ℤ → ℕ → SeenCache → List ℕ → SeenCache × List ℕ
reset max_seen n c [] = (c, [])
reset max_seen n c (at ∷ later) =
    if at == n then (Formatted.init max_seen, later) else (c, at ∷ later)

module _ (codec : Codec) where
  -- The object on a JSONL line.
  unfoldable pub item_of : Bytes → Option Fields
  item_of line = elim (codec.decode line) [
    | none ↦ none
    | some chars ↦ elim (codec.is_blank chars) [
      | true ↦ none
      | false ↦ elim (codec.loads chars) [ none ↦ none | some value ↦ object_of value ]
    ]
  ]

  -- The line that an item should have in the TXT file; the inner `none` is a suppressed duplicate.
  unfoldable pub rendering : SeenCache → Fields → Option (SeenCache × Option Bytes)
  rendering c item = elim (should_emit c item) [
    | raise e ↦ none
    | ok (c', false) ↦ some (c', none)
    | ok (c', true) ↦ elim (codec.render item) [ none ↦ none | some line ↦ some (c', some line) ]
  ]

  abbrev pub prepend : Option Bytes → List Bytes → List Bytes
  prepend none lines = lines
  prepend (some line) lines = line ∷ lines

  -- The lines that the TXT file should have; `none` if a JSONL line cannot be used, or if a reset
  -- is left over.
  unfoldable pub expected_lines :
      Option ℤ → ℕ → SeenCache → List ℕ → List Bytes → Option (List Bytes)
  unfolding reset item_of rendering
  expected_lines max_seen n c [] [] = some []
  expected_lines max_seen n c (at ∷ later) [] = none
  expected_lines max_seen n c resets (raw ∷ lines) =
      let (c', resets') = reset max_seen n c resets in
      elim (item_of (content raw)) [
        | none ↦ none
        | some item ↦ elim (rendering c' item) [
          | none ↦ none
          | some (c'', line) ↦ elim (expected_lines max_seen (n + 1) c'' resets' lines) [
            | none ↦ none
            | some rest ↦ some (prepend line rest)
          ]
        ]
      ]
