-- ===== src/Run/Policy/Complete.antt =====
-- What `replay_complete` asks for, key by key.
use chat_downloader_fork.Base.{
  arith, Bool, true, false, none, some, ◌≡◌, refl, sym, String, ◌⊎◌, inl, inr, ◌==◌, string_Eq,
  int_Eq, ==_iff, pos, contains, [], ◌∷◌, Bool-cases,
}
use chat_downloader_fork.Base.Json.{
  Json, null, bool, int, real, text, arr, obj, nil, cons, Fields, end, field, get, has, finite,
  not_finite,
}
use chat_downloader_fork.Run.Types.{RunResult}
use chat_downloader_fork.Run.Policy.{
  ChatView, truthy, is_completed_replay, has_record_loss, history_complete, replay_complete,
}

-- A value that reports no loss: nothing, zero, or an empty text, list or dictionary.
abbrev pub Lossless : Json → Type 0
Lossless null = Unit
Lossless (bool b) = b ≡ false
Lossless (int n) = n ≡ pos 0
Lossless (real (finite x)) = x ≡ pos 0
Lossless (real not_finite) = ⊥
Lossless (text s) = s ≡ ""
Lossless (arr nil) = Unit
Lossless (arr (cons _ _)) = ⊥
Lossless (obj end) = Unit
Lossless (obj (field _ _ _)) = ⊥

-- A replay that its provider calls completed, which was read to its end, with its whole history
-- and without a lost record.
pub record Complete (chat : ChatView) (r : RunResult) : Type 0 where
  pub status : chat.classify ≡ none → chat.status ≡ "completed"
  pub classified : (f : String → Bool) → chat.classify ≡ some f → f chat.status ≡ true
  pub reason : (r.termination_reason ≡ "completed") ⊎ (r.termination_reason ≡ "empty_window")
  pub history :
      has "history_complete" chat.diagnostics ≡ true
      → get "history_complete" chat.diagnostics ≡ bool true
  pub timestamps : Lossless (get "malformed_timestamp" chat.diagnostics)
  pub objects : Lossless (get "malformed_object" chat.diagnostics)
  pub parses : Lossless (get "parse_error" chat.diagnostics)
  pub prior : Lossless (get "prior_record_loss" chat.diagnostics)

truthy-Lossless : (v : Json) → truthy v ≡ false → Lossless v
truthy-Lossless null h = tt
truthy-Lossless (bool b) h = h
truthy-Lossless (int n) h = (==_iff n (pos 0)).0 (ground (arith, h))
truthy-Lossless (real (finite x)) h = (==_iff x (pos 0)).0 (ground (arith, h))
truthy-Lossless (real not_finite) h = absurd (ground (arith, h))
truthy-Lossless (text s) h = (==_iff s "").0 (ground (arith, h))
truthy-Lossless (arr nil) h = tt
truthy-Lossless (arr (cons _ _)) h = absurd (ground (arith, h))
truthy-Lossless (obj end) h = tt
truthy-Lossless (obj (field _ _ _)) h = absurd (ground (arith, h))

reason_of :
    (s : String)
    → contains s ("completed" ∷ "empty_window" ∷ []) ≡ true
    → (s ≡ "completed") ⊎ (s ≡ "empty_window")
reason_of s h = elim (Bool-cases ("completed" == s)) [
  | inl is ↦ inl (sym ((==_iff "completed" s).0 is))
  | inr differs ↦ inr (sym ((==_iff "empty_window" s).0 (ground (arith, h, differs))))
]

history_of :
    (state : Fields)
    → history_complete state ≡ true
    → has "history_complete" state ≡ true
    → get "history_complete" state ≡ bool true
history_of state h there = go (get "history_complete" state) refl
  where
    go : (v : Json) → get "history_complete" state ≡ v → get "history_complete" state ≡ bool true
    go (bool true) e = e
    go (bool false) e = absurd (ground (arith, h, there, e))
    go null e = absurd (ground (arith, h, there, e))
    go (int _) e = absurd (ground (arith, h, there, e))
    go (real _) e = absurd (ground (arith, h, there, e))
    go (text _) e = absurd (ground (arith, h, there, e))
    go (arr _) e = absurd (ground (arith, h, there, e))
    go (obj _) e = absurd (ground (arith, h, there, e))

pub replay_complete-Complete :
    (chat : ChatView) (r : RunResult) → replay_complete (some chat) r ≡ true → Complete chat r
unfolding replay_complete is_completed_replay has_record_loss
replay_complete-Complete chat r h =
    let state = chat.diagnostics in
    let completed : is_completed_replay (some chat) ≡ true =
      unfold is_completed_replay in ground (arith, h) in
    let reasons : contains r.termination_reason ("completed" ∷ "empty_window" ∷ []) ≡ true =
      ground (arith, h) in
    let whole : history_complete state ≡ true = ground (arith, h) in
    let t : truthy (get "malformed_timestamp" state) ≡ false = ground (arith, h) in
    let o : truthy (get "malformed_object" state) ≡ false = ground (arith, h) in
    let p : truthy (get "parse_error" state) ≡ false = ground (arith, h) in
    let l : truthy (get "prior_record_loss" state) ≡ false = ground (arith, h) in
    record {
      status = λ e. (==_iff chat.status "completed").0 (rw e at completed);
      classified = λ f e. rw e at completed;
      reason = reason_of r.termination_reason reasons;
      history = history_of state whole;
      timestamps = truthy-Lossless (get "malformed_timestamp" state) t;
      objects = truthy-Lossless (get "malformed_object" state) o;
      parses = truthy-Lossless (get "parse_error" state) p;
      prior = truthy-Lossless (get "prior_record_loss" state) l;
    }
