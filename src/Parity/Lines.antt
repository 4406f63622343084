-- ===== src/Parity/Lines.antt =====
-- Physical lines: what iterating a binary file gives, and `_split_physical_line`.
use chat_downloader_fork.Base.{
  ℕ, Bool, false, Bool-cases, inl, inr, ==_iff, ◌≡◌, refl, Option, none, some, List, [], ◌∷◌, ◌++◌,
  if◌then◌else◌, ◌==◌, nat_Eq, list_eq, list_eq_iff, arith,
}

abbrev pub Bytes : Type 0
Bytes = List ℕ

abbrev pub cons_to_first : ℕ → List Bytes → List Bytes
cons_to_first b [] = (b ∷ []) ∷ []
cons_to_first b (line ∷ lines) = (b ∷ line) ∷ lines

-- A binary file read line by line: each line keeps its line feed, and the last may have none.
unfoldable pub read_lines : Bytes → List Bytes
read_lines [] = []
read_lines (b ∷ rest) =
    if b == 10 then (b ∷ []) ∷ read_lines rest else cons_to_first b (read_lines rest)

pub data Style : Type 0 where
  lf crlf : Style

abbrev pub terminator : Option Style → Bytes
terminator none = []
terminator (some lf) = 10 ∷ []
terminator (some crlf) = 13 ∷ 10 ∷ []

-- The content of a line, and the style of its terminator, `none` if it has none.
unfoldable pub split_physical_line : Bytes → Bytes × Option Style
split_physical_line [] = ([], none)
split_physical_line (b ∷ rest) =
    let (content, style) = split_physical_line rest in
    if list_eq (b ∷ rest) (13 ∷ 10 ∷ [])
    then ([], some crlf)
    else if list_eq (b ∷ rest) (10 ∷ [])
    then ([], some lf)
    else (b ∷ content, style)

abbrev pub ends_with : ℕ → Bytes → Bool
ends_with byte [] = false
ends_with byte (b ∷ []) = b == byte
ends_with byte (b ∷ c ∷ rest) = ends_with byte (c ∷ rest)

-- Nothing of the terminator is left in the content.
abbrev pub Stripped : Bytes → Option Style → Type 0
Stripped content none = ends_with 10 content ≡ false
Stripped content (some lf) = ends_with 13 content ≡ false
Stripped content (some crlf) = Unit

split-append :
    (raw : Bytes) → (split_physical_line raw).0 ++ terminator (split_physical_line raw).1 ≡ raw
unfolding split_physical_line
split-append [] = refl
split-append (b ∷ rest) = ground (
  arith,
  list_eq_iff (b ∷ rest) (13 ∷ 10 ∷ []),
  list_eq_iff (b ∷ rest) (10 ∷ []),
  split-append rest,
)

-- One more byte before content that is stripped. An empty content with a line feed must not get
-- a carriage return before it, and one without a terminator no line feed.
Stripped-cons :
    (b : ℕ) (content : Bytes) (style : Option Style)
    → Stripped content style
    → (list_eq (b ∷ content ++ terminator style) (13 ∷ 10 ∷ []) ≡ false)
    → (list_eq (b ∷ content ++ terminator style) (10 ∷ []) ≡ false)
    → Stripped (b ∷ content) style
Stripped-cons b [] none h crlf_ lf_ = ground (arith, list_eq_iff (b ∷ []) (10 ∷ []), ==_iff b 10)
Stripped-cons b (c ∷ content) none h crlf_ lf_ = h
Stripped-cons b [] (some lf) h crlf_ lf_ =
    ground (arith, list_eq_iff (b ∷ 10 ∷ []) (13 ∷ 10 ∷ []), ==_iff b 13)
Stripped-cons b (c ∷ content) (some lf) h crlf_ lf_ = h
Stripped-cons b content (some crlf) h crlf_ lf_ = tt

split-Stripped : (raw : Bytes) → Stripped (split_physical_line raw).0 (split_physical_line raw).1
unfolding split_physical_line
split-Stripped [] = refl
split-Stripped (b ∷ rest) = elim (Bool-cases (list_eq (b ∷ rest) (13 ∷ 10 ∷ []))) [
  | inl crlf_ ↦ rw (crlf_, split_physical_line) tt
  | inr other ↦ elim (Bool-cases (list_eq (b ∷ rest) (10 ∷ []))) [
    | inl lf_ ↦ rw (other, lf_, split_physical_line) refl
    | inr none_ ↦
        rw (other, none_, split_physical_line)
          (Stripped-cons b (split_physical_line rest).0 (split_physical_line rest).1
            (split-Stripped rest) (rw (split-append rest) other) (rw (split-append rest) none_))
  ]
]

-- The content of a physical line followed by its terminator is the line, and the content keeps
-- nothing of a terminator: without one it does not end in a line feed, and before a lone line
-- feed it does not end in a carriage return.
pub split_physical_line-append :
    (raw : Bytes)
    → ((split_physical_line raw).0 ++ terminator (split_physical_line raw).1 ≡ raw)
      × Stripped (split_physical_line raw).0 (split_physical_line raw).1
split_physical_line-append raw = (split-append raw, split-Stripped raw)
